-- ===== src/Worker/StartRecovery.antt =====
-- internal/worker/start_confirmation.go: how the startups that are pending are settled after a restart.
use Prim.Native.Nat.{ℕ}
use agent_remote_node.Prelude.{String, Bool, Option, List, [], ◌∷◌, if◌then◌else◌, Outcome, ok, err}
use agent_remote_node.Ledger.{Ledger, Calls}
use agent_remote_node.Worker.StartRecord.{ManagedStartObservation}
use agent_remote_node.Worker.StartDecode.{ManagedStartEntry}
use agent_remote_node.Worker.StartJournal.{StartError, stopped, pending_entries}
use agent_remote_node.Worker.StartSettle.{inspect_pending}

-- What a round meets: the clock, the system calls, whether the context has ended, and the answer.
pub record Inspection : Type 0 where
  pub now : ℕ
  pub calls : Calls
  pub ended : Bool
  pub observed : Option ManagedStartObservation

abbrev pub noted : Outcome StartError (Unit {0}) → List StartError → List StartError
noted (err x) failures = x ∷ failures
noted (ok _) failures = failures

module _ (hash : String → String) (node : String) (at : ManagedStartEntry → Inspection) where
  -- The loop of `inspectPendingManagedStarts`, with the failures that it joins.
  unfoldable pub inspect_entries : List ManagedStartEntry → Ledger → Ledger × List StartError
  unfolding inspect_pending
  inspect_entries [] l = (l, [])
  inspect_entries (p ∷ rest) l =
      let r = at p in
      let w = inspect_pending hash r.now r.calls node r.observed p l in
      let others = inspect_entries rest w.0 in
      if r.ended then (l, stopped ∷ []) else (others.0, noted w.1 others.1)

  -- `inspectPendingManagedStarts`
  unfoldable pub inspect_pending_starts : Ledger → Ledger × List StartError
  unfolding pending_entries inspect_entries
  inspect_pending_starts l = elim (pending_entries hash l) [
    | err x ↦ (l, x ∷ [])
    | ok ps ↦ inspect_entries ps l
  ]
