-- ===== src/Broker/Relay/Forward.antt =====
-- internal/egobrowser/broker.go: `forward` from the registration of its request on, one event after the
-- other, while others use the session too.
use agent_remote_node.Prelude.{
  ℕ, suc, String, Bool, true, false, not, Outcome, ok, err, ◌>>◌, ◌==◌, nat_Eq, Option, none, some,
  List, [], ◌∷◌, if◌then◌else◌,
}
use agent_remote_node.Broker.Texts.{BrokerError, unavailable, context_done}
use agent_remote_node.Broker.Requests.{Identity}
use agent_remote_node.Broker.Relay.Envelope.{OuterEnvelope, relay_key}
use agent_remote_node.Broker.Relay.Session.{
  RelayResult, failed, RelaySession, is_open, register, abandon, start_close, finish_close,
  RelayCall, relay_calls,
}

-- What `forward` does next with the request that it has registered.
pub data Stage : Type 0 where
  to_send to_mark waits : Stage

-- The locals of `forward`: `key`, the channel `result`, whether `requestCancellation` is not nil, and
-- `cancelSent`, with the number of times that `sendCancelFrame` was called.
pub record Exchange : Type 0 where
  pub key : Identity
  pub channel : ℕ
  pub phase : Stage
  pub cancellable : Bool
  pub cancel_sent : Bool
  pub cancels : ℕ

-- What happens: the transport takes the frame or not, `markRequestSent` returns, or the `select` wakes
-- up. A cancel frame is encoded, or not, and taken by the transport, or not.
pub data Event : Type 0 where
  sends marks : Outcome BrokerError (Unit {0}) → Event
  is_answered : Event
  is_cancelled is_done : Outcome BrokerError (Unit {0}) → Outcome BrokerError (Unit {0}) → Event
  is_broker_closed : Event

pub data ForwardTurn : Type 0 where
  goes_on : Exchange → ForwardTurn
  returned : Exchange → RelayResult → ForwardTurn

-- How often `sendCancelFrame` was called.
abbrev pub turn_cancels : ForwardTurn → ℕ
turn_cancels (goes_on ex) = ex.cancels
turn_cancels (returned ex result) = ex.cancels

-- `send`
abbrev pub send : RelaySession → Outcome BrokerError (Unit {0}) → Outcome BrokerError (Unit {0})
send s taken = if is_open s.closing then taken else err unavailable

-- `sendCancelFrame`
abbrev pub send_cancel_frame :
    RelaySession
    → Outcome BrokerError (Unit {0})
    → Outcome BrokerError (Unit {0})
    → Outcome BrokerError (Unit {0})
send_cancel_frame s encoded taken = do encoded; send s taken

-- `failRelay`, of the session.
unfoldable pub fail_relay : BrokerError → RelaySession → RelaySession
unfolding start_close finish_close
fail_relay reason s = finish_close (start_close reason s)

-- What the channel holds.
unfoldable pub answer_on : ℕ → List (ℕ × RelayResult) → Option RelayResult
answer_on c [] = none
answer_on c ((d, result) ∷ rest) = if d == c then some result else answer_on c rest

abbrev pub or_fail : RelaySession × Outcome BrokerError (Unit {0}) → RelaySession
or_fail (s, ok _) = s
or_fail (s, err x) = fail_relay x s

-- The end of `forward` where it does not wait for the answer any longer.
unfoldable pub give_up : BrokerError → Exchange → RelaySession → RelaySession × ForwardTurn
unfolding abandon fail_relay
give_up reason ex s = (or_fail (abandon ex.key ex.channel s), returned ex (failed reason))

abbrev pub cancelling : Exchange → Exchange
cancelling ex = record ex { cancels = suc ex.cancels }

unfoldable pub after_cancel :
    Exchange → RelaySession → Outcome BrokerError (Unit {0}) → RelaySession × ForwardTurn
unfolding fail_relay
after_cancel ex s (err x) = (fail_relay x s, returned (cancelling ex) (failed x))
after_cancel ex s (ok _) =
    (s, goes_on (record (cancelling ex) { cancel_sent = true; cancellable = false }))

-- The requested cancellation, where no answer is there.
unfoldable pub on_cancel :
    Outcome BrokerError (Unit {0}) → Exchange → RelaySession → RelaySession × ForwardTurn
unfolding after_cancel
on_cancel sent ex s =
    if not ex.cancel_sent
    then after_cancel ex s sent
    else (s, goes_on (record ex { cancellable = false }))

-- The end of the context, where no answer is there.
unfoldable pub on_done :
    Outcome BrokerError (Unit {0}) → Exchange → RelaySession → RelaySession × ForwardTurn
unfolding give_up fail_relay
on_done sent ex s =
    if not ex.cancel_sent
    then give_up context_done (cancelling ex) (or_fail (s, sent))
    else give_up context_done ex s

-- An answer that is there goes first.
abbrev pub answer_or :
    Exchange
    → RelaySession
    → Option RelayResult
    → RelaySession × ForwardTurn
    → RelaySession × ForwardTurn
answer_or ex s (some result) other = (s, returned ex result)
answer_or ex s none other = other

-- A wake-up of the `select`; a case that is not ready does not wake it.
unfoldable pub wake : Event → Exchange → RelaySession → RelaySession × ForwardTurn
unfolding answer_on on_cancel on_done give_up
wake is_answered ex s = answer_or ex s (answer_on ex.channel s.answers) (s, goes_on ex)
wake (is_cancelled encoded taken) ex s =
    if ex.cancellable
    then answer_or ex s (answer_on ex.channel s.answers)
        (on_cancel (send_cancel_frame s encoded taken) ex s)
    else (s, goes_on ex)
wake (is_done encoded taken) ex s =
    answer_or ex s (answer_on ex.channel s.answers)
      (on_done (send_cancel_frame s encoded taken) ex s)
wake is_broker_closed ex s = give_up unavailable ex s
wake _ ex s = (s, goes_on ex)

unfoldable pub step_to :
    Stage → Exchange → RelaySession → Outcome BrokerError (Unit {0}) → RelaySession × ForwardTurn
unfolding fail_relay
step_to next ex s (err x) = (fail_relay x s, returned ex (failed x))
step_to next ex s (ok _) = (s, goes_on (record ex { phase = next }))

unfoldable pub forward_event : Stage → Event → Exchange → RelaySession → RelaySession × ForwardTurn
unfolding wake step_to
forward_event to_send (sends taken) ex s = step_to to_mark ex s (send s taken)
forward_event to_send _ ex s = (s, goes_on ex)
forward_event to_mark (marks marked) ex s = step_to waits ex s marked
forward_event to_mark _ ex s = (s, goes_on ex)
forward_event waits e ex s = wake e ex s

abbrev pub registered_as : Bool → OuterEnvelope → ℕ → Exchange
registered_as cancellable request channel = record {
  key = relay_key request;
  channel = channel;
  phase = to_send;
  cancellable = cancellable;
  cancel_sent = false;
  cancels = 0;
}

module _ (decode : String → Option OuterEnvelope) where
  -- The events, each after the calls of others on the session.
  unfoldable pub forward_events :
      List (List RelayCall × Event) → Exchange → RelaySession → RelaySession × ForwardTurn
  unfolding relay_calls forward_event
  forward_events [] ex s = (s, goes_on ex)
  forward_events ((others, e) ∷ rest) ex s =
      let (s', turn) = forward_event ex.phase e ex (relay_calls decode others s) in
      elim turn [
        | goes_on ex' ↦ forward_events rest ex' s'
        | returned ex' result ↦ (s', returned ex' result)
      ]

  -- `forward` from `register` on.
  unfoldable pub forward :
      List (List RelayCall × Event)
      → Bool
      → OuterEnvelope
      → RelaySession
      → RelaySession × ForwardTurn
  unfolding register forward_events
  forward events cancellable request s =
      let (s', registration) = register request s in
      elim registration [
        | err x ↦ (s', returned (registered_as cancellable request 0) (failed x))
        | ok channel ↦ forward_events events (registered_as cancellable request channel) s'
      ]
