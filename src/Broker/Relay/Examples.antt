-- ===== src/Broker/Relay/Examples.antt =====
-- Witnesses on the relay sessions of internal/egobrowser/broker.go.
use agent_remote_node.Prelude.{
  String, Option, none, some, List, [], ◌∷◌, ◌++◌, if◌then◌else◌, ◌==◌, string_Eq, ◌≡◌, ◌≤◌, ok,
  holds, nat_Eq, true, false, refl, pos, ◌+◌, Bool-cases,
}
use agent_remote_node.Broker.Binding.{protocol_version}
use agent_remote_node.Broker.Texts.{unavailable}
use agent_remote_node.Broker.Relay.Envelope.{
  OuterEnvelope, identity_Eq, relay_key, identity-discrete,
}
use agent_remote_node.Broker.Relay.Session.{
  new_relay_session, RelayCall, registers, abandons, receives, message, relay_calls,
}
use agent_remote_node.Broker.Relay.Ended.{accounts, answers_on, given_on, relay_calls-accounts}
use agent_remote_node.Broker.Relay.Closed.{closing_calls, closing-ends}
use agent_remote_node.Broker.Relay.Forward.{
  Exchange, Event, sends, marks, is_answered, is_cancelled, is_done, returned, waits, turn_cancels,
  forward, registered_as,
}
use agent_remote_node.Broker.Relay.Session.{delivered, PendingRelayRequest, RelaySession}
use agent_remote_node.Broker.Relay.Released.{forward-IsReleased}
use agent_remote_node.Broker.Relay.Replies.{Reply, forward-Reply}
use agent_remote_node.Broker.Relay.Cancels.{forward-cancels}
use agent_remote_node.Prelude.Map.{get}

abbrev response : OuterEnvelope
response = record {
  protocol_name = protocol_version;
  channel = "ego_browser_bridge";
  relay_binding_kind = "ego_browser";
  kind = "execute_result";
  request_id = "r1";
  binding_id = "b1";
  generation = 3;
  sequence = 9;
  direction = "response";
  payload_bytes = pos 1;
  nonce = "AAAAAAAAAAAAAAAA";
  ciphertext = "AA";
  auth_tag = "AAAAAAAAAAAAAAAAAAAAAA";
  key_wrap = "";
}

abbrev request : OuterEnvelope
request = record response { kind = "execute"; direction = "request" }

-- The decoder of JSON knows one message.
abbrev decode : String → Option OuterEnvelope
decode frame = if frame == "{}" then some response else none

-- One request is answered; another is given up.
abbrev calls : List RelayCall
calls =
    registers request
    ∷ registers (record request { sequence = 10 })
    ∷ receives (message "{}")
    ∷ abandons (relay_key (record request { sequence = 10 })) 1
    ∷ []

abbrev one_waits : List RelayCall
one_waits =
    registers request ∷ registers (record request { sequence = 10 }) ∷ receives (message "{}") ∷ []

relay_calls-accounts_example : accounts 1 (relay_calls decode calls new_relay_session) ≡ 1
unfolding relay_calls new_relay_session identity-discrete Bool-cases
relay_calls-accounts_example = relay_calls-accounts decode calls 1

closing-ends_example :
    let s = relay_calls decode (one_waits ++ closing_calls unavailable) new_relay_session in
    answers_on 1 s.answers + given_on 1 s.given_up ≡ 1
unfolding relay_calls new_relay_session identity-discrete Bool-cases
closing-ends_example = closing-ends decode one_waits unavailable 1

-- The reader delivers the answer while `forward` waits.
abbrev answered_run : List (List RelayCall × Event)
answered_run =
    ([], sends (ok tt)) ∷ ([], marks (ok tt)) ∷ ((receives (message "{}") ∷ []), is_answered) ∷ []

-- The request is cancelled, then the context ends.
abbrev cancelled_run : List (List RelayCall × Event)
cancelled_run =
    ([], sends (ok tt))
    ∷ ([], marks (ok tt))
    ∷ ([], is_cancelled (ok tt) (ok tt))
    ∷ ([], is_done (ok tt) (ok tt))
    ∷ []

abbrev exchange_done : Exchange
exchange_done = record (registered_as true request 0) { phase = waits }

abbrev answered_session : RelaySession
answered_session = record new_relay_session {
  made = (0, request) ∷ [];
  answers = (0, delivered "{}") ∷ [];
}

is_answered_run :
    forward decode answered_run true request new_relay_session
    ≡ (answered_session, returned exchange_done (delivered "{}"))
unfolding forward new_relay_session identity-discrete Bool-cases
is_answered_run = refl

forward-Reply_example : Reply decode request "{}"
unfolding relay_calls
forward-Reply_example =
    forward-Reply decode [] answered_run true request answered_session exchange_done "{}"
      is_answered_run

forward-IsReleased_example :
    holds
      (λ (p : PendingRelayRequest). p.channel == 0)
      (get answered_session.pending (relay_key request))
    ≡ false
unfolding relay_calls new_relay_session
forward-IsReleased_example =
    forward-IsReleased decode [] answered_run true request answered_session exchange_done
      (delivered "{}") is_answered_run

forward-cancels_example :
    turn_cancels (forward decode cancelled_run true request new_relay_session).1 ≤ 1
forward-cancels_example = forward-cancels decode cancelled_run true request new_relay_session

two_signals : turn_cancels (forward decode cancelled_run true request new_relay_session).1 ≡ 1
unfolding forward new_relay_session identity-discrete Bool-cases
two_signals = refl
