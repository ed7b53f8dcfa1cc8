-- ===== src/Worker/StartReads.antt =====
-- internal/worker/start_journal.go: what a load of the journal returns.
use agent_remote_node.Prelude.{
  String, true, false, not, ◌||◌, Option, none, some, ◌≡◌, refl, sym, ap, ◌∙◌, ◌==◌, string_Eq,
  arith, Bool-cases, inl, inr, Outcome, ok, err, is_some, subst, or_left, or_right, unnot,
}
use agent_remote_node.Ledger.Value.{Entry, Fields, normal_entry, normal_map, marshalable_map}
use agent_remote_node.Ledger.{Ledger, LedgerError, get_entry}
use agent_remote_node.Worker.StartRecord.{ManagedStartRecord, ManagedStartObservation}
use agent_remote_node.Worker.StartDecode.{
  StartPhase, pending, confirmed, retired, pending_status, confirmed_status, retired_status,
  ManagedStartEntry, decode_plain, decode_retired, decode_by_status, decode_start_entry, data_of,
}
use agent_remote_node.Worker.StartSwaps.{read_normal}
use agent_remote_node.Worker.Chain.{bind_some, some_inj}
use agent_remote_node.Worker.StartJournal.{decoded, read_entry, load, or_invalid}

retired_apart : (o : ManagedStartObservation) (x : StartPhase) → retired o ≡ x → ¬ (x ≡ pending)
retired_apart o x e h = cc

module _ (hash : String → String) where
  -- The entry came from the ledger.
  pub record IsLoaded (p : ManagedStartEntry) : Type 0 where
    pub decodes : decode_start_entry hash p.entry ≡ some p
    pub normal : normal_entry p.entry ≡ p.entry

  -- How an entry was decoded.
  pub data Decoded (e : Entry) (fs : Fields) (p : ManagedStartEntry) : Type 0 where
    as_pending :
        (c : ManagedStartRecord)
        → decode_plain hash e.task_id fs ≡ some c
        → record { entry = e; content = c; phase = pending } ≡ p
        → Decoded e fs p
    as_confirmed :
        (c : ManagedStartRecord)
        → decode_plain hash e.task_id fs ≡ some c
        → record { entry = e; content = c; phase = confirmed } ≡ p
        → Decoded e fs p
    as_retired :
        (c : ManagedStartRecord) (o : ManagedStartObservation)
        → decode_retired hash e.task_id fs ≡ some (c, o)
        → record { entry = e; content = c; phase = retired o } ≡ p
        → Decoded e fs p

  by_status :
      (e : Entry) (fs : Fields) (p : ManagedStartEntry)
      → decode_by_status hash e fs ≡ some p
      → Decoded e fs p
  unfolding decode_by_status
  by_status e fs p h = elim (Bool-cases (e.status == pending_status)) [
    | inl first ↦
        let (c, read, same) = bind_some (decode_plain hash e.task_id fs) _ (rw first at h) in
        as_pending c read (some_inj same)
    | inr not_first ↦ elim (Bool-cases (e.status == confirmed_status)) [
      | inl second ↦
          let (c, read, same) =
            bind_some (decode_plain hash e.task_id fs) _ (rw (not_first, second) at h) in
          as_confirmed c read (some_inj same)
      | inr not_second ↦ elim (Bool-cases (e.status == retired_status)) [
        | inl third ↦
            let (both, read, same) =
              bind_some (decode_retired hash e.task_id fs) _
                (rw (not_first, not_second, third) at h) in
            as_retired both.0 both.1 read (some_inj same)
        | inr other ↦ absurd (ground (arith, h, not_first, not_second, other))
      ]
    ]
  ]

  Decoded-entry : {e : Entry} {fs : Fields} {p : ManagedStartEntry} → Decoded e fs p → p.entry ≡ e
  Decoded-entry (as_pending c r same) = sym (ap (λ (x : ManagedStartEntry). x.entry) same)
  Decoded-entry (as_confirmed c r same) = sym (ap (λ (x : ManagedStartEntry). x.entry) same)
  Decoded-entry (as_retired c o r same) = sym (ap (λ (x : ManagedStartEntry). x.entry) same)

  pub start_parts :
      (e : Entry) (p : ManagedStartEntry)
      → decode_start_entry hash e ≡ some p
      → (is_some e.error ≡ false)
        × (marshalable_map e.result ≡ true)
        × Decoded e (data_of (normal_map e.result)) p
  unfolding decode_start_entry
  start_parts e p h = elim (Bool-cases (is_some e.error || not (marshalable_map e.result))) [
    | inl bad ↦ absurd (ground (arith, h, bad))
    | inr good ↦ (
      or_left _ _ good,
      unnot _ (or_right _ _ good),
      by_status e (data_of (normal_map e.result)) p (rw good at h),
    )
  ]

  decoded-some :
      (e : Entry) (p : ManagedStartEntry)
      → decoded hash (some e) ≡ ok (some p)
      → decode_start_entry hash e ≡ some p
  unfolding decoded
  decoded-some e p h = by_decode (decode_start_entry hash e) refl h
    where
      by_decode :
          (o : Option ManagedStartEntry)
          → decode_start_entry hash e ≡ o
          → or_invalid o ≡ ok (some p)
          → decode_start_entry hash e ≡ some p
      by_decode none s k = cc
      by_decode (some d) s k = s ∙ ground (arith, k)

  pub entry-IsLoaded :
      (e : Entry) (p : ManagedStartEntry)
      → normal_entry e ≡ e
      → decode_start_entry hash e ≡ some p
      → IsLoaded p
  entry-IsLoaded e p normal h =
      let same = Decoded-entry (start_parts e p h).2 in
      record {
        decodes = ap (decode_start_entry hash) same ∙ h;
        normal = subst (λ x. normal_entry x ≡ x) (sym same) normal;
      }

  -- A load returns an entry that came from the ledger.
  pub load-IsLoaded :
      (k : String) (l : Ledger) (p : ManagedStartEntry) → load hash k l ≡ ok (some p) → IsLoaded p
  unfolding load read_entry decoded
  load-IsLoaded k l p h = by_answer (get_entry k l) refl h
    where
      by_answer :
          (o : Outcome LedgerError (Option Entry))
          → get_entry k l ≡ o
          → read_entry hash o ≡ ok (some p)
          → IsLoaded p
      by_answer (err x) r s = cc
      by_answer (ok none) r s = cc
      by_answer (ok (some e)) r s = entry-IsLoaded e p (read_normal k l e r).0 (decoded-some e p s)

  -- What is known of a pending entry.
  pub record Pending (p : ManagedStartEntry) : Type 0 where
    pub quiet : is_some p.entry.error ≡ false
    pub accepted : marshalable_map p.entry.result ≡ true
    pub plain :
        decode_plain hash p.entry.task_id (data_of (normal_map p.entry.result)) ≡ some p.content

  of_pending :
      (e : Entry) (fs : Fields) (p : ManagedStartEntry)
      → Decoded e fs p
      → p.phase ≡ pending
      → decode_plain hash e.task_id fs ≡ some p.content
  of_pending e fs p (as_pending c r same) h =
      r ∙ ap (λ (x : ManagedStartEntry). some x.content) same
  of_pending e fs p (as_confirmed c r same) h =
      r ∙ ap (λ (x : ManagedStartEntry). some x.content) same
  of_pending e fs p (as_retired c o r same) h =
      absurd (retired_apart o p.phase (ap (λ (x : ManagedStartEntry). x.phase) same) h)

  pub pending_parts : (p : ManagedStartEntry) → IsLoaded p → p.phase ≡ pending → Pending p
  pending_parts p loaded phase =
      let parts = start_parts p.entry p loaded.decodes in
      record {
        quiet = parts.0;
        accepted = parts.1;
        plain = of_pending p.entry (data_of (normal_map p.entry.result)) p parts.2 phase;
      }

  -- An entry that is read with a status and its data.
  pub read_pending :
      (e : Entry) (c : ManagedStartRecord)
      → is_some e.error ≡ false
      → marshalable_map e.result ≡ true
      → e.status ≡ pending_status
      → decode_plain hash e.task_id (data_of (normal_map e.result)) ≡ some c
      → decode_start_entry hash e ≡ some (record { entry = e; content = c; phase = pending })
  unfolding decode_start_entry decode_by_status
  read_pending e c q m s d = rw (q, m, s) (rw d refl)

  pub read_confirmed :
      (e : Entry) (c : ManagedStartRecord)
      → is_some e.error ≡ false
      → marshalable_map e.result ≡ true
      → e.status ≡ confirmed_status
      → decode_plain hash e.task_id (data_of (normal_map e.result)) ≡ some c
      → decode_start_entry hash e ≡ some (record { entry = e; content = c; phase = confirmed })
  unfolding decode_start_entry decode_by_status
  read_confirmed e c q m s d = rw (q, m, s) (rw d refl)

  pub read_retired :
      (e : Entry) (c : ManagedStartRecord) (o : ManagedStartObservation)
      → is_some e.error ≡ false
      → marshalable_map e.result ≡ true
      → e.status ≡ retired_status
      → decode_retired hash e.task_id (data_of (normal_map e.result)) ≡ some (c, o)
      → decode_start_entry hash e ≡ some (record { entry = e; content = c; phase = retired o })
  unfolding decode_start_entry decode_by_status
  read_retired e c o q m s d = rw (q, m, s) (rw d refl)
