-- ===== src/Worker/Startups.antt =====
-- internal/worker/start_journal.go and start_retirement.go: the life of a managed startup in the
-- journal, over any calls.
use Prim.Native.Nat.{ℕ}
use mathlib.Core.Option
use agent_remote_node.Prelude.{
  String, Bool, true, false, Option, none, some, ◌≡◌, refl, sym, ap, ◌∙◌, ◌==◌, string_Eq, int_Eq,
  Bool-cases, inl, inr, if◌then◌else◌, ◌⊎◌, Outcome, ok, is_some, lez,
}
use agent_remote_node.Ledger.Value.{Entry, normal_entry, normal_map, marshalable_map}
use agent_remote_node.Ledger.{Ledger, LedgerError, Calls, get_entry, compare_and_swap}
use agent_remote_node.Worker.StartRecord.{
  identity_Eq, result_Eq, ManagedStartObservation, cancelled_start,
}
use agent_remote_node.Worker.StartDecode.{
  pending, confirmed, retired, confirmed_status, ManagedStartEntry, decode_start_entry,
  decode_plain, data_of,
}
use agent_remote_node.Worker.StartJournal.{or_invalid, decoded, read_entry, load}
use agent_remote_node.Worker.StartReads.{IsLoaded, pending_parts, read_confirmed}
use agent_remote_node.Worker.StartSwaps.{Swapped, swap_cases, stamped}

-- How the startup of a task may change: it is proposed; the pending proposal gives way to one of the
-- same binding under a later lease attempt; it is confirmed; or it is retired with the evidence that
-- the Server cancelled it unaccepted. The last two keep the record, and nothing leaves their phases.
pub data Advances : Option ManagedStartEntry → Option ManagedStartEntry → Type 0 where
  proposed : {d : ManagedStartEntry} → d.phase ≡ pending → Advances none (some d)
  replaced :
      {p d : ManagedStartEntry}
      → p.phase ≡ pending
      → d.phase ≡ pending
      → d.content.binding ≡ p.content.binding
      → lez d.content.outcome.lease_attempt p.content.outcome.lease_attempt ≡ false
      → Advances (some p) (some d)
  accepted :
      {p d : ManagedStartEntry}
      → p.phase ≡ pending
      → d.phase ≡ confirmed
      → d.content ≡ p.content
      → Advances (some p) (some d)
  withdrawn :
      {p d : ManagedStartEntry} {o : ManagedStartObservation}
      → p.phase ≡ pending
      → d.phase ≡ retired o
      → d.content ≡ p.content
      → cancelled_start p.content.outcome o ≡ true
      → Advances (some p) (some d)

module _ (hash : String → String) where
  -- What a call does to the startup of one task: nothing, or one advance.
  abbrev pub Moves : String → Ledger → Ledger → Type 0
  Moves k l l' =
      (load hash k l' ≡ load hash k l)
      ⊎ ((before : Option ManagedStartEntry) × (after : Option ManagedStartEntry) × (load hash k l
            ≡ ok before)
          × (load hash k l' ≡ ok after)
          × Advances before after)

  pub loaded_as :
      (p : ManagedStartEntry) (e : Entry)
      → decode_start_entry hash e ≡ some p
      → decoded hash (some e) ≡ ok (some p)
  unfolding decoded
  loaded_as p e h = ap or_invalid h

  -- What a read returns after a swap.
  abbrev pub chosen : ℕ → Entry → Ledger → String → Bool → Outcome LedgerError (Option Entry)
  chosen now e l k same = if same then ok (some (normal_entry (stamped now e))) else get_entry k l

  -- After a swap the startup of its task is what the new entry decodes to, and all others are kept.
  pub Swapped-Moves :
      (now : ℕ) (x : Option Entry) (e : Entry) (l l' : Ledger) (k : String)
      (before : Option ManagedStartEntry) (after : ManagedStartEntry)
      → Swapped now x e l l'
      → decoded hash (Option.map normal_entry x) ≡ ok before
      → decode_start_entry hash (normal_entry (stamped now e)) ≡ some after
      → Advances before (some after)
      → Moves k l l'
  unfolding load read_entry
  Swapped-Moves now x e l l' k before after s old new advance = elim (Bool-cases (e.task_id == k)) [
    | inr other ↦ inl (ap (read_entry hash) (s.reads k ∙ ap (chosen now e l k) other))
    | inl same ↦
        let eq = (string_Eq.eqb_iff e.task_id k).0 same in
        inr (
          before,
          some after,
          ap (read_entry hash) (ap (λ j. get_entry j l) (sym eq) ∙ s.expected) ∙ old,
          ap (read_entry hash) (s.reads k ∙ ap (chosen now e l k) same)
              ∙ loaded_as after (normal_entry (stamped now e)) new,
          advance,
        )
  ]

  -- The same for a swap call.
  pub swap-Moves :
      (now : ℕ) (c : Calls) (x : Option Entry) (e : Entry) (l : Ledger) (k : String)
      → (compare_and_swap now c x e l).0.failed ≡ false
      → (Swapped now x e l (compare_and_swap now c x e l).0
          → Moves k l (compare_and_swap now c x e l).0)
      → Moves k l (compare_and_swap now c x e l).0
  swap-Moves now c x e l k live moved = elim (swap_cases now c x e l live) [
    | inl same ↦ inl (ap (load hash k) same)
    | inr swapped ↦ moved swapped
  ]

  pub expected-loaded :
      (p : ManagedStartEntry)
      → IsLoaded hash p
      → decoded hash (Option.map normal_entry (some p.entry)) ≡ ok (some p)
  unfolding decoded
  expected-loaded p loaded =
      ap (λ e. decoded hash (some e)) loaded.normal ∙ loaded_as p p.entry loaded.decodes

  -- The confirmed entry is read with the record of the pending one.
  pub confirmed_read :
      (now : ℕ) (p : ManagedStartEntry)
      → IsLoaded hash p
      → p.phase ≡ pending
      → decode_start_entry hash
          (normal_entry (stamped now (record p.entry { status = confirmed_status })))
        ≡ some (record {
          entry = normal_entry (stamped now (record p.entry { status = confirmed_status }));
          content = p.content;
          phase = confirmed;
        })
  unfolding normal_entry
  confirmed_read now p loaded phase =
      let parts = pending_parts hash p loaded phase in
      let errors = ap (λ (x : Entry). x.error) loaded.normal in
      let results = ap (λ (x : Entry). x.result) loaded.normal in
      read_confirmed hash
        (normal_entry (stamped now (record p.entry { status = confirmed_status }))) p.content
        (ap is_some errors ∙ parts.quiet) (ap marshalable_map results ∙ parts.accepted) refl
        (ap (λ r. decode_plain hash p.entry.task_id (data_of (normal_map r))) results ∙ parts.plain)

  pub confirm-Moves :
      (now : ℕ) (c : Calls) (p : ManagedStartEntry) (l : Ledger) (k : String)
      → IsLoaded hash p
      → p.phase ≡ pending
      → (compare_and_swap now c
          (some p.entry)
          (record p.entry { status = confirmed_status })
          l).0.failed
        ≡ false
      → Moves k l
          (compare_and_swap now c (some p.entry) (record p.entry { status = confirmed_status }) l).0
  confirm-Moves now c p l k loaded phase live =
      swap-Moves now c (some p.entry) (record p.entry { status = confirmed_status }) l k live
        (λ s.
          Swapped-Moves now (some p.entry) (record p.entry { status = confirmed_status }) l _ k
            (some p) _ s (expected-loaded p loaded) (confirmed_read now p loaded phase)
            (accepted phase refl refl))
