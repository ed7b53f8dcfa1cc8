-- ===== src/Worker/StartLife.antt =====
-- internal/worker/start_journal.go and start_retirement.go: what settles a managed startup stays.
use Prim.Native.Nat.{ℕ}
use agent_remote_node.Prelude.{
  String, Bool, true, false, Option, none, some, ◌≡◌, refl, sym, ap, ◌∙◌, ◌==◌, string_Eq, int_Eq,
  inl, if◌then◌else◌, ok, err, is_some, subst, if_both, and_left,
}
use agent_remote_node.Ledger.Value.{
  Entry, Fields, normal_entry, normal_map, normal_map_idem, normal_fields, marshalable_entry,
  normal, object,
}
use agent_remote_node.Ledger.{
  Ledger, Written, Calls, compare_and_swap, conflict, not_an_object, uncertain, unsupported_value,
  invalid_json, io_error,
}
use agent_remote_node.Worker.Json.{set_field}
use agent_remote_node.Worker.StartRecord.{
  identity_Eq, ManagedSessionStartResult, result_Eq, ManagedStartObservation, cancelled_start,
  same_observation,
}
use agent_remote_node.Worker.StartEncode.{encode_observation}
use agent_remote_node.Worker.StartDecode.{
  StartPhase, pending, confirmed, retired, confirmed_status, ManagedStartEntry, decode_start_entry,
  data_of, decode_retired,
}
use agent_remote_node.Worker.RetireFields.{data_normal, normal-set}
use agent_remote_node.Worker.RetireCodec.{retired_data}
use agent_remote_node.Worker.StartJournal.{
  retired_entry, before_key, Settled, conflicting, is_confirmed, is_retired_by,
}
use agent_remote_node.Worker.StartSettle.{settle_result, confirm, retire}
use agent_remote_node.Worker.StartReads.{IsLoaded, pending_parts, read_retired}
use agent_remote_node.Worker.StartSwaps.{Swapped, stamped, read_normal}
use agent_remote_node.Worker.Startups.{
  withdrawn, Moves, Swapped-Moves, swap-Moves, expected-loaded, confirm-Moves, chosen,
}

normal_data : (m : Option Fields) → normal_fields (data_of m) ≡ data_of (normal_map m)
unfolding normal_map normal_fields
normal_data none = refl
normal_data (some fs) = sym (data_normal fs)

withdrawn_fields :
    (e : Entry) (o : ManagedStartObservation) (now : ℕ)
    → data_of (normal_map (normal_entry (stamped now (retired_entry e o))).result)
      ≡ set_field before_key "retirement"
          (object (normal_fields (encode_observation o)))
          (data_of (normal_map e.result))
unfolding normal_entry normal
withdrawn_fields e o now =
    let fs = set_field before_key "retirement" (object (encode_observation o)) (data_of e.result) in
    ap data_of (normal_map_idem (some fs))
    ∙ data_normal fs
    ∙ normal-set before_key "retirement" (object (encode_observation o)) (data_of e.result)
    ∙ ap (set_field before_key "retirement" (object (normal_fields (encode_observation o))))
        (normal_data e.result)

module _ (hash : String → String) where
  -- The retired entry is read with the record of the pending one and with the evidence.
  pub withdrawn_read :
      (now : ℕ) (x : Option Entry) (p : ManagedStartEntry) (o : ManagedStartObservation)
      (l l' : Ledger)
      → IsLoaded hash p
      → p.phase ≡ pending
      → cancelled_start p.content.outcome o ≡ true
      → Swapped now x (retired_entry p.entry o) l l'
      → decode_start_entry hash (normal_entry (stamped now (retired_entry p.entry o)))
        ≡ some (record {
          entry = normal_entry (stamped now (retired_entry p.entry o));
          content = p.content;
          phase = retired o;
        })
  unfolding normal_entry marshalable_entry
  withdrawn_read now x p o l l' loaded phase cancels s =
      let e = stamped now (retired_entry p.entry o) in
      let task = p.entry.task_id in
      let parts = pending_parts hash p loaded phase in
      let written =
        s.reads task ∙ ap (chosen hash now e l task) ((string_Eq.eqb_iff task task).1 refl) in
      let good = (read_normal task l' (normal_entry e) written).1 in
      read_retired hash (normal_entry e) p.content o
        (ap is_some (ap (λ (x : Entry). x.error) loaded.normal) ∙ parts.quiet) (and_left _ _ good)
        refl
        (ap (decode_retired hash task) (withdrawn_fields p.entry o now)
          ∙ retired_data hash before_key task (data_of (normal_map p.entry.result)) p.content o
              parts.plain cancels)

  pub settle_state :
      (p : ManagedStartEntry) (done : StartPhase → Bool) (w : Written)
      → (settle_result hash p done w).0 ≡ w.0
  unfolding settle_result
  settle_state p done (l, ok _) = refl
  settle_state p done (l, err conflict) = refl
  settle_state p done (l, err not_an_object) = refl
  settle_state p done (l, err uncertain) = refl
  settle_state p done (l, err unsupported_value) = refl
  settle_state p done (l, err invalid_json) = refl
  settle_state p done (l, err io_error) = refl

  abbrev LiveMoves : String → Ledger → Settled → Type 0
  LiveMoves k l w = w.0.failed ≡ false → Moves hash k l w.0

  settle-Moves :
      (p : ManagedStartEntry) (done : StartPhase → Bool) (w : Written) (k : String) (l : Ledger)
      → (w.0.failed ≡ false → Moves hash k l w.0)
      → LiveMoves k l (settle_result hash p done w)
  settle-Moves p done w k l moved =
      subst (λ (m : Ledger). m.failed ≡ false → Moves hash k l m) (sym (settle_state p done w))
        moved

  pub confirm_call-Moves :
      (now : ℕ) (c : Calls) (p : ManagedStartEntry) (receipt : ManagedSessionStartResult)
      (l : Ledger) (k : String)
      → IsLoaded hash p
      → LiveMoves k l (confirm hash now c p receipt l)
  unfolding confirm
  confirm_call-Moves now c p receipt l k loaded =
      if_both (LiveMoves k l) (receipt == p.content.outcome) (λ _. by_phase p.phase refl)
        (λ _ _. inl refl)
    where
      by_phase :
          (x : StartPhase)
          → p.phase ≡ x
          → LiveMoves k l (elim x [
            | confirmed ↦ (l, ok tt)
            | retired _ ↦ (l, err conflicting)
            | pending ↦ settle_result hash p is_confirmed (
                compare_and_swap now c
                  (some p.entry)
                  (record p.entry { status = confirmed_status })
                  l)
          ])
      by_phase confirmed h = λ _. inl refl
      by_phase (retired seen) h = λ _. inl refl
      by_phase pending h =
          settle-Moves p is_confirmed _ k l (confirm-Moves hash now c p l k loaded h)

  retire-Moves :
      (now : ℕ) (c : Calls) (p : ManagedStartEntry) (o : ManagedStartObservation) (l : Ledger)
      (k : String)
      → IsLoaded hash p
      → p.phase ≡ pending
      → cancelled_start p.content.outcome o ≡ true
      → (compare_and_swap now c (some p.entry) (retired_entry p.entry o) l).0.failed ≡ false
      → Moves hash k l (compare_and_swap now c (some p.entry) (retired_entry p.entry o) l).0
  retire-Moves now c p o l k loaded phase cancels live =
      swap-Moves hash now c (some p.entry) (retired_entry p.entry o) l k live (λ s.
        Swapped-Moves hash now (some p.entry) (retired_entry p.entry o) l _ k (some p) _ s
          (expected-loaded hash p loaded) (withdrawn_read now _ p o l _ loaded phase cancels s)
          (withdrawn phase refl refl cancels))

  pub retire_call-Moves :
      (now : ℕ) (c : Calls) (p : ManagedStartEntry) (o : ManagedStartObservation) (l : Ledger)
      (k : String)
      → IsLoaded hash p
      → LiveMoves k l (retire hash now c p o l)
  unfolding retire
  retire_call-Moves now c p o l k loaded =
      if_both (LiveMoves k l) (cancelled_start p.content.outcome o) (λ h. by_phase h p.phase refl)
        (λ _ _. inl refl)
    where
      by_phase :
          cancelled_start p.content.outcome o ≡ true
          → (x : StartPhase) → p.phase ≡ x
          → LiveMoves k l (elim x [
            | retired seen ↦ if same_observation seen o then (l, ok tt) else (l, err conflicting)
            | confirmed ↦ (l, err conflicting)
            | pending ↦
                settle_result hash p
                  (is_retired_by o)
                  (compare_and_swap now c (some p.entry) (retired_entry p.entry o) l)
          ])
      by_phase c confirmed h = λ _. inl refl
      by_phase c (retired seen) h =
          if_both (LiveMoves k l) (same_observation seen o) (λ _ _. inl refl) (λ _ _. inl refl)
      by_phase cancels pending h =
          settle-Moves p (is_retired_by o) _ k l (retire-Moves now c p o l k loaded h cancels)
