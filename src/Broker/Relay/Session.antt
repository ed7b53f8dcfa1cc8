-- ===== src/Broker/Relay/Session.antt =====
-- internal/egobrowser/broker.go: the exchanges over a relay connection (`relaySession`), with the
-- channels on which `forward` waits for their ends.
use Prim.Native.String.{len}
use agent_remote_node.Prelude.{
  ℕ, String, Bool, true, false, not, ◌||◌, Outcome, ok, err, ◌==◌, nat_Eq, leb, ltb, Option, none,
  some, is_some, List, [], ◌∷◌, ◌++◌, length, if◌then◌else◌,
}
use agent_remote_node.Prelude.Map.{Map, empty, get, put, remove, entries, count}
use agent_remote_node.Broker.Texts.{BrokerError, unavailable, protocol}
use agent_remote_node.Broker.Requests.{Identity}
use agent_remote_node.Broker.Relay.Envelope.{
  OuterEnvelope, relay_key, identity_Eq, default_max_payload_bytes, validate_relay_response,
  validate_relay_response_shape,
}

-- `pendingRelayRequest`; a channel is a number.
pub record PendingRelayRequest : Type 0 where
  pub request : OuterEnvelope
  pub channel : ℕ

-- `relayResult`
pub data RelayResult : Type 0 where
  delivered : String → RelayResult
  failed : BrokerError → RelayResult

-- How far `closeWithError` has come: it sets `closed` before it takes the lock.
pub data Closing : Type 0 where
  still_open closed : Closing
  closes : BrokerError → Closing

-- `relaySession`, with the channels that were made for requests, what was sent on them, and those that
-- `forward` no longer waits for.
pub record RelaySession : Type 0 where
  pub pending : Map Identity PendingRelayRequest
  pub abandoned : Map Identity (Unit {0})
  pub closing : Closing
  pub made : List (ℕ × OuterEnvelope)
  pub answers : List (ℕ × RelayResult)
  pub given_up : List ℕ

-- `newRelaySession`
unfoldable pub new_relay_session : RelaySession
unfolding empty
new_relay_session = record {
  pending = empty;
  abandoned = empty;
  closing = still_open;
  made = [];
  answers = [];
  given_up = [];
}

abbrev pub is_open : Closing → Bool
is_open still_open = true
is_open _ = false

abbrev pub registered : OuterEnvelope → RelaySession → RelaySession
registered request s = record s {
  pending =
      put s.pending (relay_key request) (record { request = request; channel = length s.made });
  made = (length s.made, request) ∷ s.made;
}

-- `register`
unfoldable pub register : OuterEnvelope → RelaySession → RelaySession × Outcome BrokerError ℕ
unfolding get put
register request s =
    if not (is_open s.closing)
    then (s, err unavailable)
    else if is_some (get s.pending (relay_key request))
    then (s, err protocol)
    else if is_some (get s.abandoned (relay_key request))
    then (s, err protocol)
    else (registered request s, ok (length s.made))

-- `maximumAbandonedRelayRequests`
abbrev pub max_abandoned : ℕ
max_abandoned = 4096

abbrev pub given : Identity → ℕ → RelaySession → RelaySession
given key channel s = record s { pending = remove s.pending key; given_up = channel ∷ s.given_up }

abbrev pub remembered : Identity → RelaySession → RelaySession
remembered key s = record s { abandoned = put s.abandoned key tt }

unfoldable pub abandon_found :
    Identity
    → ℕ
    → RelaySession
    → Option PendingRelayRequest
    → RelaySession × Outcome BrokerError (Unit {0})
unfolding remove put count
abandon_found key channel s none = (s, ok tt)
abandon_found key channel s (some p) =
    if p.channel == channel
    then if leb max_abandoned (count (λ _ _. true) s.abandoned)
      then (given key channel s, err protocol)
      else (remembered key (given key channel s), ok tt)
    else (s, ok tt)

-- `abandon`
unfoldable pub abandon : Identity → ℕ → RelaySession → RelaySession × Outcome BrokerError (Unit {0})
unfolding abandon_found get
abandon key channel s = abandon_found key channel s (get s.pending key)

abbrev pub passed_on : Identity → ℕ → RelayResult → RelaySession → RelaySession
passed_on key channel result s = record s {
  pending = remove s.pending key;
  answers = (channel, result) ∷ s.answers;
}

abbrev pub deliver_checked :
    Identity
    → String
    → RelaySession
    → ℕ
    → Outcome BrokerError (Unit {0})
    → RelaySession × Outcome BrokerError (Unit {0})
deliver_checked key frame s channel (err x) = (s, err x)
deliver_checked key frame s channel (ok _) = (passed_on key channel (delivered frame) s, ok tt)

unfoldable pub deliver_found :
    OuterEnvelope
    → String
    → RelaySession
    → Option PendingRelayRequest
    → RelaySession × Outcome BrokerError (Unit {0})
unfolding validate_relay_response remove
deliver_found response frame s none = (s, err protocol)
deliver_found response frame s (some p) =
    deliver_checked (relay_key response) frame s p.channel
      (validate_relay_response response p.request)

-- `deliver`
unfoldable pub deliver :
    OuterEnvelope → String → RelaySession → RelaySession × Outcome BrokerError (Unit {0})
unfolding deliver_found get remove
deliver response frame s =
    if is_some (get s.abandoned (relay_key response))
    then (record s { abandoned = remove s.abandoned (relay_key response) }, ok tt)
    else deliver_found response frame s (get s.pending (relay_key response))

-- `closeWithError` until it takes the lock; later calls do nothing.
unfoldable pub start_close : BrokerError → RelaySession → RelaySession
start_close reason s = if is_open s.closing then record s { closing = closes reason } else s

abbrev pub closing_results :
    BrokerError → List (Identity × PendingRelayRequest) → List (ℕ × RelayResult)
closing_results reason [] = []
closing_results reason ((key, p) ∷ rest) = (p.channel, failed reason) ∷ closing_results reason rest

-- The rest of it.
unfoldable pub finish_close : RelaySession → RelaySession
unfolding entries empty
finish_close s = elim s.closing [
  | still_open ↦ s
  | closed ↦ s
  | closes reason ↦ record s {
    pending = empty;
    abandoned = empty;
    closing = closed;
    answers = closing_results reason (entries s.pending) ++ s.answers;
  }
]

-- What the connection yields: an error, or a message.
pub data Reception : Type 0 where
  broken : BrokerError → Reception
  message : String → Reception

-- One call on the session: of `forward`, of the reader, or of what closes it.
pub data RelayCall : Type 0 where
  registers : OuterEnvelope → RelayCall
  abandons : Identity → ℕ → RelayCall
  receives : Reception → RelayCall
  starts_close : BrokerError → RelayCall
  finishes_close : RelayCall

abbrev pub failure : RelaySession × Outcome BrokerError (Unit {0}) → RelaySession
failure (s, ok _) = s
failure (s, err x) = start_close x s

-- `decode` stands for the strict decoder of JSON.
module _ (decode : String → Option OuterEnvelope) where
  unfoldable pub receive_shaped :
      OuterEnvelope → String → RelaySession → Outcome BrokerError (Unit {0}) → RelaySession
  unfolding deliver start_close
  receive_shaped response frame s (err x) = start_close x s
  receive_shaped response frame s (ok _) = failure (deliver response frame s)

  unfoldable pub receive_decoded : String → RelaySession → Option OuterEnvelope → RelaySession
  unfolding receive_shaped validate_relay_response_shape start_close
  receive_decoded frame s none = start_close protocol s
  receive_decoded frame s (some response) =
      receive_shaped response frame s (validate_relay_response_shape response)

  -- A round of `readRelay`, up to the lock of `closeWithError` where it fails.
  unfoldable pub receive : Reception → RelaySession → RelaySession
  unfolding receive_decoded start_close
  receive (broken x) s = start_close x s
  receive (message frame) s =
      if len frame == 0 || ltb default_max_payload_bytes (len frame)
      then start_close protocol s
      else receive_decoded frame s (decode frame)

  unfoldable pub relay_call : RelayCall → RelaySession → RelaySession
  unfolding register abandon receive start_close finish_close
  relay_call (registers request) s = (register request s).0
  relay_call (abandons key channel) s = (abandon key channel s).0
  relay_call (receives reception) s = receive reception s
  relay_call (starts_close reason) s = start_close reason s
  relay_call finishes_close s = finish_close s

  -- The calls that were made on a new session.
  unfoldable pub relay_calls : List RelayCall → RelaySession → RelaySession
  unfolding relay_call
  relay_calls [] s = s
  relay_calls (call ∷ rest) s = relay_calls rest (relay_call call s)
