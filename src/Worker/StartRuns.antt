-- ===== src/Worker/StartRuns.antt =====
-- internal/worker/start_journal.go and start_retirement.go: what holds of a managed startup after
-- any calls of the journal.
use Prim.Native.Nat.{ℕ}
use agent_remote_node.Prelude.{
  String, Bool, true, false, not, ◌||◌, Option, none, some, List, [], ◌∷◌, ◌≡◌, sym, ◌==◌,
  string_Eq, int_Eq, if◌then◌else◌, ok, err, subst, if_both, pos,
}
use agent_remote_node.Ledger.Value.{Entry}
use agent_remote_node.Ledger.{Ledger, Written, Calls, compare_and_swap}
use agent_remote_node.Worker.StartRecord.{
  SkillSnapshotIdentity, identity_Eq, ManagedSessionStartResult, ManagedStartRecord, result_Eq,
  ManagedStartObservation, valid_start_record, cancelled_start, same_record, same_observation,
}
use agent_remote_node.Worker.StartDecode.{
  StartPhase, pending, confirmed, retired, confirmed_status, ManagedStartEntry,
}
use agent_remote_node.Worker.StartJournal.{
  Loaded, retired_entry, proposed_entry, Settled, propose, propose_over, write_proposal, replaces,
  conflicting, is_confirmed, is_retired_by,
}
use agent_remote_node.Worker.StartSettle.{
  settle_result, confirm, retire, StartCall, proposes, confirms, retires, start_call, start_calls,
}
use agent_remote_node.Worker.StartReads.{IsLoaded}
use agent_remote_node.Worker.Startups.{Moves}
use agent_remote_node.Worker.StartProposals.{propose-Moves, write_proposal_state}
use agent_remote_node.Worker.StartLife.{confirm_call-Moves, retire_call-Moves, settle_state}

-- What a swap keeps of the ledger, every call keeps.
module _ (hash : String → String) (P : Ledger → Type 0)
    (swap : (now : ℕ) (c : Calls) (x : Option Entry) (e : Entry) (l : Ledger)
      → P l
      → P (compare_and_swap now c x e l).0) where
  abbrev Kept : Settled → Type 0
  Kept w = P w.0

  write_proposal_keeps :
      (now : ℕ) (c : Calls) (x : Option Entry) (task : String) (r : ManagedStartRecord) (l : Ledger)
      → P l
      → P (write_proposal hash now c x task r l).0
  write_proposal_keeps now c x task r l h =
      subst P (sym (write_proposal_state hash now c x task r l))
        (swap now c x (proposed_entry task r) l h)

  settle_keeps :
      (p : ManagedStartEntry) (done : StartPhase → Bool) (w : Written)
      → P w.0
      → P (settle_result hash p done w).0
  settle_keeps p done w h = subst P (sym (settle_state hash p done w)) h

  propose_keeps :
      (now : ℕ) (c : Calls) (task : String) (b : SkillSnapshotIdentity)
      (outcome : ManagedSessionStartResult) (previous : Option ManagedStartEntry)
      (o : Option ManagedStartObservation) (l : Ledger)
      → P l
      → P (propose hash now c task b outcome previous o l).0
  unfolding propose propose_over
  propose_keeps now c task b outcome none o l h =
      let r : ManagedStartRecord = record {
        schema_version = pos 1;
        binding = b;
        outcome = outcome;
      } in
      if_both (λ (w : Ledger × Loaded). P w.0) (valid_start_record hash r task)
        (λ _. write_proposal_keeps now c none task r l h) (λ _. h)
  propose_keeps now c task b outcome (some p) o l h =
      let r : ManagedStartRecord = record {
        schema_version = pos 1;
        binding = b;
        outcome = outcome;
      } in
      let Q = λ (w : Ledger × Loaded). P w.0 in
      if_both Q (valid_start_record hash r task)
        (λ _.
          if_both Q (elim p.phase [ retired _ ↦ true | _ ↦ false ]) (λ _. h)
            (λ _.
              if_both Q (not (p.entry.task_id == task) || not (p.content.binding == b)) (λ _. h)
                (λ _.
                  if_both Q (same_record p.content r) (λ _. h)
                    (λ _.
                      if_both Q (replaces p outcome o)
                        (λ _. write_proposal_keeps now c (some p.entry) task r l h) (λ _. h)))))
        (λ _. h)

  confirm_keeps :
      (now : ℕ) (c : Calls) (p : ManagedStartEntry) (receipt : ManagedSessionStartResult)
      (l : Ledger)
      → P l
      → P (confirm hash now c p receipt l).0
  unfolding confirm
  confirm_keeps now c p receipt l h =
      if_both Kept (receipt == p.content.outcome) (λ _. by_phase p.phase) (λ _. h)
    where
      by_phase :
          (x : StartPhase)
          → Kept (elim x [
            | confirmed ↦ (l, ok tt)
            | retired _ ↦ (l, err conflicting)
            | pending ↦ settle_result hash p is_confirmed (
                compare_and_swap now c
                  (some p.entry)
                  (record p.entry { status = confirmed_status })
                  l)
          ])
      by_phase confirmed = h
      by_phase (retired seen) = h
      by_phase pending = settle_keeps p is_confirmed _ (swap now c _ _ l h)

  retire_keeps :
      (now : ℕ) (c : Calls) (p : ManagedStartEntry) (o : ManagedStartObservation) (l : Ledger)
      → P l
      → P (retire hash now c p o l).0
  unfolding retire
  retire_keeps now c p o l h =
      if_both Kept (cancelled_start p.content.outcome o) (λ _. by_phase p.phase) (λ _. h)
    where
      by_phase :
          (x : StartPhase)
          → Kept (elim x [
            | retired seen ↦ if same_observation seen o then (l, ok tt) else (l, err conflicting)
            | confirmed ↦ (l, err conflicting)
            | pending ↦
                settle_result hash p
                  (is_retired_by o)
                  (compare_and_swap now c (some p.entry) (retired_entry p.entry o) l)
          ])
      by_phase confirmed = h
      by_phase (retired seen) = if_both Kept (same_observation seen o) (λ _. h) (λ _. h)
      by_phase pending = settle_keeps p (is_retired_by o) _ (swap now c _ _ l h)

  start_call_keeps : (c : StartCall) (l : Ledger) → P l → P (start_call hash c l)
  unfolding start_call
  start_call_keeps (proposes now c task b outcome previous o) l h =
      propose_keeps now c task b outcome previous o l h
  start_call_keeps (confirms now c p receipt) l h = confirm_keeps now c p receipt l h
  start_call_keeps (retires now c p o) l h = retire_keeps now c p o l h

  pub start_calls_keep : (calls : List StartCall) (l : Ledger) → P l → P (start_calls hash calls l)
  unfolding start_calls
  start_calls_keep [] l h = h
  start_calls_keep (c ∷ rest) l h =
      start_calls_keep rest (start_call hash c l) (start_call_keeps c l h)

module _ (hash : String → String) where
  -- The entry that the caller passes was loaded.
  abbrev pub IsFromLoad : StartCall → Type 0
  IsFromLoad (proposes now c task b outcome none o) = Unit {0}
  IsFromLoad (proposes now c task b outcome (some p) o) = IsLoaded hash p
  IsFromLoad (confirms now c p receipt) = IsLoaded hash p
  IsFromLoad (retires now c p o) = IsLoaded hash p

  of_some : (x p : ManagedStartEntry) → IsLoaded hash x → some x ≡ some p → IsLoaded hash p
  of_some x p loaded h = subst (IsLoaded hash) (same h) loaded
    where
      same : some x ≡ some p → x ≡ p
      same k = cc

  pub start_call-Moves :
      (c : StartCall) (l : Ledger) (k : String)
      → IsFromLoad c
      → (start_call hash c l).failed ≡ false
      → Moves hash k l (start_call hash c l)
  unfolding start_call
  start_call-Moves (proposes now c task b outcome none o) l k loaded =
      propose-Moves hash now c task b outcome none o l k (λ p h. absurd (no_entry p h))
    where
      no_entry : (p : ManagedStartEntry) → ¬ (none ≡ some p)
      no_entry p h = cc
  start_call-Moves (proposes now c task b outcome (some x) o) l k loaded =
      propose-Moves hash now c task b outcome (some x) o l k (λ p h. of_some x p loaded h)
  start_call-Moves (confirms now c p receipt) l k loaded =
      confirm_call-Moves hash now c p receipt l k loaded
  start_call-Moves (retires now c p o) l k loaded = retire_call-Moves hash now c p o l k loaded
