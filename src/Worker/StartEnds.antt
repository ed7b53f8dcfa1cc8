-- ===== src/Worker/StartEnds.antt =====
-- internal/worker/start_journal.go and start_retirement.go: what the journal holds once it has confirmed
-- or retired a managed startup.
use Prim.Native.Nat.{ℕ}
use agent_remote_node.Prelude.{
  String, Bool, true, ◌&&◌, Option, none, some, ◌≡◌, refl, sym, ap, ◌∙◌, ◌==◌, string_Eq, int_Eq,
  bool_Eq, if_both, arith, if◌then◌else◌, Outcome, ok, err, subst,
}
use agent_remote_node.Ledger.Value.{Entry, normal_entry}
use agent_remote_node.Ledger.{
  Ledger, Written, Calls, compare_and_swap, conflict, not_an_object, uncertain, unsupported_value,
  invalid_json, io_error,
}
use agent_remote_node.Worker.StartRecord.{
  ManagedSessionStartResult, ManagedStartRecord, result_Eq, identity_Eq, ManagedStartObservation,
  cancelled_start, same_record, same_observation,
}
use agent_remote_node.Worker.StartDecode.{
  StartPhase, pending, confirmed, retired, confirmed_status, ManagedStartEntry, decode_start_entry,
}
use agent_remote_node.Worker.StartJournal.{
  Loaded, load, read_entry, retired_entry, Settled, StartError, conflicting, is_confirmed,
  is_retired_by,
}
use agent_remote_node.Worker.StartSettle.{settle_result, confirm, retire, already}
use agent_remote_node.Worker.StartReads.{IsLoaded}
use agent_remote_node.Worker.StartSwaps.{Swapped, swap_success, stamped}
use agent_remote_node.Worker.Startups.{loaded_as, confirmed_read, chosen}
use agent_remote_node.Worker.StartLife.{withdrawn_read}

-- The tests of the journal decide equality.
same_record_eq : (a b : ManagedStartRecord) → same_record a b ≡ true → a ≡ b
same_record_eq a b h =
    let (version, binding, outcome) =
      parts (a.schema_version == b.schema_version) (a.binding == b.binding) (a.outcome == b.outcome)
        h in
    λ i. record {
      schema_version = (int_Eq.eqb_iff a.schema_version b.schema_version).0 version i;
      binding = (identity_Eq.eqb_iff a.binding b.binding).0 binding i;
      outcome = (result_Eq.eqb_iff a.outcome b.outcome).0 outcome i;
    }
  where
    parts : (x y z : Bool) → (x && (y && z)) ≡ true → (x ≡ true) × (y ≡ true) × (z ≡ true)
    parts x y z k = (ground (arith, k), ground (arith, k), ground (arith, k))

same_observation_eq : (a b : ManagedStartObservation) → same_observation a b ≡ true → a ≡ b
same_observation_eq a b h =
    let (result, accepted, attempt, status) =
      parts (a.result == b.result) (a.accepted == b.accepted)
        (a.current_lease_attempt == b.current_lease_attempt) (a.task_status == b.task_status) h in
    λ i. record {
      result = (result_Eq.eqb_iff a.result b.result).0 result i;
      accepted = (bool_Eq.eqb_iff a.accepted b.accepted).0 accepted i;
      current_lease_attempt =
          (int_Eq.eqb_iff a.current_lease_attempt b.current_lease_attempt).0 attempt i;
      task_status = (string_Eq.eqb_iff a.task_status b.task_status).0 status i;
    }
  where
    parts :
        (w x y z : Bool)
        → (w && (x && (y && z))) ≡ true
        → (w ≡ true) × (x ≡ true) × (y ≡ true) × (z ≡ true)
    parts w x y z k = (ground (arith, k), ground (arith, k), ground (arith, k), ground (arith, k))

is_confirmed_eq : (x : StartPhase) → is_confirmed x ≡ true → x ≡ confirmed
is_confirmed_eq pending h = cc
is_confirmed_eq confirmed h = refl
is_confirmed_eq (retired seen) h = cc

is_retired_eq :
    (o : ManagedStartObservation) (x : StartPhase) → is_retired_by o x ≡ true → x ≡ retired o
is_retired_eq o pending h = cc
is_retired_eq o confirmed h = cc
is_retired_eq o (retired seen) h = ap retired (same_observation_eq seen o h)

module _ (hash : String → String) where
  -- The journal holds the record of the entry, in this phase.
  abbrev pub Ends : ManagedStartEntry → StartPhase → Ledger → Type 0
  Ends p phase l =
      (d : ManagedStartEntry) × (load hash p.entry.task_id l ≡ ok (some d))
      × (d.content ≡ p.content)
      × (d.phase ≡ phase)

  module _ (p : ManagedStartEntry) (done : StartPhase → Bool) (phase : StartPhase)
      (only : (x : StartPhase) → done x ≡ true → x ≡ phase) where
    already-Ends :
        (l : Ledger) (o : Loaded)
        → load hash p.entry.task_id l ≡ o
        → already hash p done o ≡ ok tt
        → Ends p phase l
    unfolding already
    already-Ends l (err x) h k = cc
    already-Ends l (ok none) h k = cc
    already-Ends l (ok (some d)) h k =
        let good = both (same_record d.content p.content) (done d.phase) k in
        (d, h, same_record_eq d.content p.content good.0, only d.phase good.1)
      where
        both :
            (a b : Bool)
            → ◌≡◌ {A = Outcome StartError (Unit {0})}
                (if a && b then ok tt else err conflicting)
                (ok tt)
            → (a ≡ true) × (b ≡ true)
        both a b e = (ground (arith, e), ground (arith, e))

    settle-Ends :
        (w : Written)
        → (w.1 ≡ ok tt → Ends p phase w.0)
        → (settle_result hash p done w).1 ≡ ok tt
        → Ends p phase (settle_result hash p done w).0
    unfolding settle_result
    settle-Ends (l, ok tt) swapped h = swapped refl
    settle-Ends (l, err conflict) swapped h = already-Ends l (load hash p.entry.task_id l) refl h
    settle-Ends (l, err not_an_object) swapped h = cc
    settle-Ends (l, err uncertain) swapped h = cc
    settle-Ends (l, err unsupported_value) swapped h = cc
    settle-Ends (l, err invalid_json) swapped h = cc
    settle-Ends (l, err io_error) swapped h = cc

  -- After a swap a load finds what the new entry decodes to.
  loads-Swapped :
      (now : ℕ) (x : Option Entry) (e : Entry) (l l' : Ledger) (d : ManagedStartEntry)
      → Swapped now x e l l'
      → decode_start_entry hash (normal_entry (stamped now e)) ≡ some d
      → load hash e.task_id l' ≡ ok (some d)
  unfolding load read_entry
  loads-Swapped now x e l l' d s new =
      ap (read_entry hash) (
        s.reads e.task_id
        ∙ ap (chosen hash now e l e.task_id) ((string_Eq.eqb_iff e.task_id e.task_id).1 refl))
      ∙ loaded_as hash d (normal_entry (stamped now e)) new

  confirm_pending :
      (now : ℕ) (c : Calls) (p : ManagedStartEntry) (l : Ledger)
      → IsLoaded hash p
      → p.phase ≡ pending
      → (compare_and_swap now c (some p.entry) (record p.entry { status = confirmed_status }) l).1
        ≡ ok tt
      → Ends p confirmed
          (compare_and_swap now c (some p.entry) (record p.entry { status = confirmed_status }) l).0
  confirm_pending now c p l loaded phase h =
      let e = record p.entry { status = confirmed_status } in
      let s = swap_success now c (some p.entry) e l h in
      (
        _,
        loads-Swapped now (some p.entry) e l _ _ s (confirmed_read hash now p loaded phase),
        refl,
        refl,
      )

  -- `confirm` of a pending entry that succeeds had the receipt of the outcome, and leaves the startup
  -- confirmed with its record, by its own write or by that of another caller.
  pub confirm-Ends :
      (now : ℕ) (c : Calls) (p : ManagedStartEntry) (receipt : ManagedSessionStartResult)
      (l : Ledger)
      → IsLoaded hash p
      → p.phase ≡ pending
      → (confirm hash now c p receipt l).1 ≡ ok tt
      → (receipt ≡ p.content.outcome) × Ends p confirmed (confirm hash now c p receipt l).0
  unfolding confirm
  confirm-Ends now c p receipt l loaded phase =
      if_both (λ (w : Settled). w.1 ≡ ok tt → (receipt ≡ p.content.outcome) × Ends p confirmed w.0)
        (receipt == p.content.outcome)
        (λ same.
          subst
            (λ x.
              (confirm_by x).1 ≡ ok tt
              → (receipt ≡ p.content.outcome) × Ends p confirmed (confirm_by x).0)
            (sym phase)
            (λ h. (
              (result_Eq.eqb_iff receipt p.content.outcome).0 same,
              settle-Ends p is_confirmed confirmed is_confirmed_eq _
                  (confirm_pending now c p l loaded phase) h,
            )))
        (λ _ h. absurd (refused h))
    where
      confirm_by : StartPhase → Settled
      confirm_by x = elim x [
        | confirmed ↦ (l, ok tt)
        | retired _ ↦ (l, err conflicting)
        | pending ↦
            settle_result hash p is_confirmed (
              compare_and_swap now c (some p.entry) (record p.entry { status = confirmed_status })
                l)
      ]

      refused : ¬ (◌≡◌ {A = Outcome StartError (Unit {0})} (err conflicting) (ok tt))
      refused h = cc

  retire_pending :
      (now : ℕ) (c : Calls) (p : ManagedStartEntry) (o : ManagedStartObservation) (l : Ledger)
      → IsLoaded hash p
      → p.phase ≡ pending
      → cancelled_start p.content.outcome o ≡ true
      → (compare_and_swap now c (some p.entry) (retired_entry p.entry o) l).1 ≡ ok tt
      → Ends p (retired o) (compare_and_swap now c (some p.entry) (retired_entry p.entry o) l).0
  retire_pending now c p o l loaded phase cancels h =
      let e = retired_entry p.entry o in
      let s = swap_success now c (some p.entry) e l h in
      (
        _,
        loads-Swapped now (some p.entry) e l _ _ s
            (withdrawn_read hash now (some p.entry) p o l _ loaded phase cancels s),
        refl,
        refl,
      )

  -- `retire` of a pending entry that succeeds had an observation of the Server's cancellation, and leaves
  -- the startup retired with its record and with this observation, by its own write or by that of another
  -- caller.
  pub retire-Ends :
      (now : ℕ) (c : Calls) (p : ManagedStartEntry) (o : ManagedStartObservation) (l : Ledger)
      → IsLoaded hash p
      → p.phase ≡ pending
      → (retire hash now c p o l).1 ≡ ok tt
      → (cancelled_start p.content.outcome o ≡ true)
        × Ends p (retired o) (retire hash now c p o l).0
  unfolding retire
  retire-Ends now c p o l loaded phase =
      if_both
        (λ (w : Settled).
          w.1 ≡ ok tt → (cancelled_start p.content.outcome o ≡ true) × Ends p (retired o) w.0)
        (cancelled_start p.content.outcome o)
        (λ cancels.
          subst
            (λ x.
              (retire_by x).1 ≡ ok tt
              → (cancelled_start p.content.outcome o ≡ true) × Ends p (retired o) (retire_by x).0)
            (sym phase)
            (λ h. (
              cancels,
              settle-Ends p (is_retired_by o) (retired o) (is_retired_eq o) _
                  (retire_pending now c p o l loaded phase cancels) h,
            )))
        (λ _ h. absurd (refused h))
    where
      retire_by : StartPhase → Settled
      retire_by x = elim x [
        | retired seen ↦ if same_observation seen o then (l, ok tt) else (l, err conflicting)
        | confirmed ↦ (l, err conflicting)
        | pending ↦
            settle_result hash p (is_retired_by o)
              (compare_and_swap now c (some p.entry) (retired_entry p.entry o) l)
      ]

      refused : ¬ (◌≡◌ {A = Outcome StartError (Unit {0})} (err conflicting) (ok tt))
      refused h = cc
