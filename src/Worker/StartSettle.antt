-- ===== src/Worker/StartSettle.antt =====
-- internal/worker/start_journal.go, start_retirement.go and start_confirmation.go: how a startup is
-- confirmed or retired, and what the Server has to say for it.
use Prim.Native.Nat.{ℕ}
use agent_remote_node.Prelude.{
  String, Bool, true, false, ◌&&◌, Option, none, some, List, [], ◌∷◌, ◌==◌, string_Eq, int_Eq,
  if◌then◌else◌, Outcome, ok, err,
}
use agent_remote_node.Ledger.{Ledger, conflict, Calls, Written, compare_and_swap}
use agent_remote_node.Worker.StartRecord.{
  SkillSnapshotIdentity, identity_Eq, ManagedSessionStartResult, result_Eq, ManagedStartObservation,
  same_record, same_observation, cancelled_start,
}
use agent_remote_node.Worker.StartDecode.{
  StartPhase, pending, confirmed, retired, confirmed_status, ManagedStartEntry,
}
use agent_remote_node.Worker.StartJournal.{
  invalid_entry, stopped, start_pending, wrong_node, changed_outcome, start_retired, Loaded, Sent,
  Settled, StartError, committed, conflicting, is_confirmed, is_retired_by, load, not_sent,
  of_ledger, propose, retired_entry, sent,
}

module _ (hash : String → String) where
  -- After a conflict another caller may have settled the startup in the same way.
  unfoldable pub already :
      ManagedStartEntry → (StartPhase → Bool) → Loaded → Outcome StartError (Unit {0})
  already p done (err x) = err x
  already p done (ok none) = err conflicting
  already p done (ok (some d)) =
      if same_record d.content p.content && done d.phase then ok tt else err conflicting

  unfoldable pub settle_result : ManagedStartEntry → (StartPhase → Bool) → Written → Settled
  unfolding already load
  settle_result p done (l, ok _) = (l, ok tt)
  settle_result p done (l, err x) = elim x [
    | conflict ↦ (l, already p done (load hash p.entry.task_id l))
    | other ↦ (l, err (of_ledger other))
  ]

  -- `confirm`
  unfoldable pub confirm :
      ℕ → Calls → ManagedStartEntry → ManagedSessionStartResult → Ledger → Settled
  unfolding settle_result
  confirm now c p receipt l =
      if receipt == p.content.outcome
      then elim p.phase [
        | confirmed ↦ (l, ok tt)
        | retired _ ↦ (l, err conflicting)
        | pending ↦
            settle_result p is_confirmed (
              compare_and_swap now c (some p.entry) (record p.entry { status = confirmed_status })
                l)
      ]
      else (l, err conflicting)

  -- `retire`
  unfoldable pub retire : ℕ → Calls → ManagedStartEntry → ManagedStartObservation → Ledger → Settled
  unfolding settle_result cancelled_start
  retire now c p o l =
      if cancelled_start p.content.outcome o
      then elim p.phase [
        | retired seen ↦ if same_observation seen o then (l, ok tt) else (l, err conflicting)
        | confirmed ↦ (l, err conflicting)
        | pending ↦
            settle_result p (is_retired_by o)
              (compare_and_swap now c (some p.entry) (retired_entry p.entry o) l)
      ]
      else (l, err conflicting)

  unfoldable pub to_send : Bool → Loaded → Sent
  to_send ended (err x) = not_sent x
  to_send ended (ok none) = not_sent invalid_entry
  to_send ended (ok (some d)) = elim d.phase [
    | confirmed ↦ committed
    | retired _ ↦ not_sent start_retired
    | pending ↦ if ended then not_sent stopped else sent d
  ]

  unfoldable pub send_outcome :
      ℕ
      → Calls
      → Bool
      → Bool
      → String
      → SkillSnapshotIdentity
      → ManagedSessionStartResult
      → Option ManagedStartEntry
      → Option ManagedStartObservation
      → Ledger
      → Ledger × Sent
  unfolding propose to_send
  send_outcome now c ended_before ended_after task binding outcome previous o l =
      let w = propose hash now c task binding outcome previous o l in
      if ended_before then (l, not_sent stopped) else (w.0, to_send ended_after w.1)

  -- `confirmManagedStart` from the receipt on, over the ledger that it finds then: whether the Server
  -- has committed, and the error.
  unfoldable pub receive_receipt :
      ℕ
      → Calls
      → ManagedSessionStartResult
      → Option ManagedSessionStartResult
      → ManagedStartEntry
      → Ledger
      → Ledger × Bool × Outcome StartError (Unit {0})
  unfolding confirm
  receive_receipt now c outcome none p l = (l, false, err start_pending)
  receive_receipt now c outcome (some receipt) p l =
      let w = confirm now c p receipt l in
      if receipt == outcome then (w.0, true, w.1) else (l, false, err start_pending)

  -- The handling of one observation in `inspectPendingManagedStarts`, with the failure that it adds.
  unfoldable pub inspect_pending :
      ℕ → Calls → String → Option ManagedStartObservation → ManagedStartEntry → Ledger → Settled
  unfolding confirm retire
  inspect_pending now c node observed p l =
      if p.content.binding.node_id == node
      then elim observed [
        | none ↦ (l, err start_pending)
        | some o ↦
            if o.result == p.content.outcome
            then if o.accepted
              then confirm now c p o.result l
              else if o.task_status == "cancelled"
              then retire now c p o l
              else (l, ok tt)
            else (l, err changed_outcome)
      ]
      else (l, err wrong_node)

-- One call of the journal that may write, with an entry that was loaded before.
pub data StartCall : Type 0 where
  proposes :
      ℕ
      → Calls
      → String
      → SkillSnapshotIdentity
      → ManagedSessionStartResult
      → Option ManagedStartEntry
      → Option ManagedStartObservation
      → StartCall
  confirms : ℕ → Calls → ManagedStartEntry → ManagedSessionStartResult → StartCall
  retires : ℕ → Calls → ManagedStartEntry → ManagedStartObservation → StartCall

unfoldable pub start_call : (String → String) → StartCall → Ledger → Ledger
unfolding propose confirm retire
start_call hash (proposes now c task binding outcome previous o) l =
    (propose hash now c task binding outcome previous o l).0
start_call hash (confirms now c p receipt) l = (confirm hash now c p receipt l).0
start_call hash (retires now c p o) l = (retire hash now c p o l).0

unfoldable pub start_calls : (String → String) → List StartCall → Ledger → Ledger
unfolding start_call
start_calls hash [] l = l
start_calls hash (call ∷ rest) l = start_calls hash rest (start_call hash call l)
