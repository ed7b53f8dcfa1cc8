-- ===== src/Broker/Relay/Cancels.antt =====
-- internal/egobrowser/broker.go: how often `forward` sends a cancel frame.
use agent_remote_node.Prelude.{◌≤◌, String, Bool, Option, List, arith}
use agent_remote_node.Broker.Relay.Envelope.{OuterEnvelope}
use agent_remote_node.Broker.Relay.Session.{RelaySession, RelayResult, RelayCall}
use agent_remote_node.Broker.Relay.Forward.{
  Exchange, Event, ForwardTurn, goes_on, returned, turn_cancels, forward,
}
use agent_remote_node.Broker.Relay.Events.{
  ForwardStep, continues, fails_with, answers, leaves, Ends, forward_keep, cancel_budget,
}

abbrev Saves : Exchange → RelaySession → Type 0
Saves ex s = cancel_budget ex ≤ 1

abbrev Spends : Exchange → RelaySession → RelayResult → Type 0
Spends ex s result = ex.cancels ≤ 1

step-Spends :
    (ex : Exchange) (s : RelaySession) (r : RelaySession × ForwardTurn)
    → ForwardStep ex s r
    → Saves ex s
    → Ends Saves Spends r
step-Spends ex s _ (continues ex' key channel budget) h = omega (arith, h, budget)
step-Spends ex s _ (fails_with x ex' budget) h = omega (arith, h, budget)
step-Spends ex s _ (answers result found) h = omega (arith, h)
step-Spends ex s _ (leaves x ex' t failing budget) h = omega (arith, h, budget)

spent : (r : RelaySession × ForwardTurn) → Ends Saves Spends r → turn_cancels r.1 ≤ 1
spent (s, goes_on ex) h = omega (arith, h)
spent (s, returned ex result) h = h

-- Whatever happens, `forward` calls `sendCancelFrame` at most once for its request: not again when the
-- context ends after a requested cancellation, nor when it is requested more than once.
pub forward-cancels :
    (decode : String → Option OuterEnvelope) (events : List (List RelayCall × Event))
    (cancellable : Bool) (request : OuterEnvelope) (s : RelaySession)
    → turn_cancels (forward decode events cancellable request s).1 ≤ 1
forward-cancels decode events cancellable request s =
    spent (forward decode events cancellable request s) (
      forward_keep Saves Spends decode cancellable request s (λ others ex s h. h) step-Spends
        (λ x. omega arith) (λ same. omega arith) events)
