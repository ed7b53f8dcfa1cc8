-- ===== src/Worker/StartRecovered.antt =====
-- internal/worker/start_confirmation.go: what a recovery without a failure leaves.
use agent_remote_node.Prelude.{String, true, false, Option, some, List, ◌≡◌, ◌==◌, string_Eq}
use agent_remote_node.Ledger.{Ledger}
use agent_remote_node.Worker.StartRecord.{ManagedStartObservation, result_Eq}
use agent_remote_node.Worker.StartDecode.{confirmed, retired, ManagedStartEntry}
use agent_remote_node.Worker.StartEnds.{Ends}
use agent_remote_node.Worker.StartRecovery.{Inspection}

module _ (hash : String → String) where
  -- What the journal holds of a startup is what the Server's answer demands.
  pub data Decided (p : ManagedStartEntry) (o : ManagedStartObservation) (l : Ledger) : Type 0 where
    accepted : o.accepted ≡ true → Ends hash p confirmed l → Decided p o l
    withdrawn :
        o.accepted ≡ false
        → (o.task_status == "cancelled") ≡ true
        → Ends hash p (retired o) l
        → Decided p o l
    undecided : o.accepted ≡ false → (o.task_status == "cancelled") ≡ false → Decided p o l

  module _ (node : String) (at : ManagedStartEntry → Inspection) where
    -- The answer was there, for this node and for the outcome of the startup, and the journal followed it.
    pub record Settles (p : ManagedStartEntry) (x : Option ManagedStartObservation) (l : Ledger)
        : Type 0 where
      pub observation : ManagedStartObservation
      pub observed : x ≡ some observation
      pub here : (p.content.binding.node_id == node) ≡ true
      pub same : (observation.result == p.content.outcome) ≡ true
      pub decided : Decided p observation l
