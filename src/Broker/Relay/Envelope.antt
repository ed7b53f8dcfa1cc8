-- ===== src/Broker/Relay/Envelope.antt =====
-- internal/egobrowser/broker.go: the envelopes that wrappers and the relay exchange. A payload is
-- opaque here, as it is for the broker.
use agent_remote_node.Prelude.{
  ℕ, ◌*◌, String, Bool, not, ◌&&◌, ◌||◌, Outcome, ◌>>◌, refuse_if, ◌==◌, string_Eq, nat_Eq, ℤ, pos,
  negsuc, lez, ltb, discrete_Eq, Eq, string_discrete, ℕ_discrete,
}
use agent_remote_node.Broker.Texts.{
  BrokerError, protocol, valid_opaque_text, valid_canonical_base64_url,
}
use agent_remote_node.Broker.Binding.{protocol_version}
use agent_remote_node.Broker.Requests.{Identity}

-- `outerEnvelope`
pub record OuterEnvelope : Type 0 where
  pub protocol_name : String
  pub channel : String
  pub relay_binding_kind : String
  pub kind : String
  pub request_id : String
  pub binding_id : String
  pub generation : ℕ
  pub sequence : ℕ
  pub direction : String
  pub payload_bytes : ℤ
  pub nonce : String
  pub ciphertext : String
  pub auth_tag : String
  pub key_wrap : String

-- `defaultMaxPayloadBytes`
abbrev pub default_max_payload_bytes : ℕ
default_max_payload_bytes = 16 * 1024 * 1024

-- `relayKey`
abbrev pub relay_key : OuterEnvelope → Identity
relay_key e = record {
  binding_id = e.binding_id;
  generation = e.generation;
  request_id = e.request_id;
  sequence = e.sequence;
}

unfoldable pub identity-discrete : Discrete Identity
unfolding string_discrete ℕ_discrete
identity-discrete = hlevel (string_discrete, ℕ_discrete)

instance abbrev pub identity_Eq : Eq Identity
identity_Eq = discrete_Eq identity-discrete

abbrev magnitude : ℤ → ℕ
magnitude (pos n) = n
magnitude (negsuc n) = 0

-- The nonce, the tag and the ciphertext are canonical, of 12, of 16 and of `payload_bytes` bytes, which
-- are more than none.
unfoldable pub check_sealed : OuterEnvelope → Outcome BrokerError (Unit {0})
unfolding valid_canonical_base64_url
check_sealed e = do
  refuse_if (not (valid_canonical_base64_url e.nonce 12)) protocol
  refuse_if (not (valid_canonical_base64_url e.auth_tag 16)) protocol
  refuse_if (not (valid_canonical_base64_url e.ciphertext (magnitude e.payload_bytes))) protocol

-- The names and numbers that every envelope has.
abbrev bad_metadata : OuterEnvelope → Bool
bad_metadata e =
    not (valid_opaque_text e.request_id 128)
    || (not (valid_opaque_text e.binding_id 128)
        || (e.generation == 0 || (e.sequence == 0 || lez e.payload_bytes (pos 0))))

abbrev is_on_bridge : OuterEnvelope → Bool
is_on_bridge e =
    e.protocol_name == protocol_version
    && (e.channel == "ego_browser_bridge" && e.relay_binding_kind == "ego_browser")

-- `validateOuter`
unfoldable pub validate_outer : OuterEnvelope → ℕ → Outcome BrokerError (Unit {0})
unfolding check_sealed valid_opaque_text
validate_outer e wire_bytes = do
  refuse_if
      (not (is_on_bridge e && (e.kind == "execute" && e.direction == "request"))
        || (bad_metadata e || ltb default_max_payload_bytes wire_bytes))
      protocol
  refuse_if (not (e.key_wrap == "")) protocol
  check_sealed e

-- `validateOuterPayload`
unfoldable pub validate_outer_payload : OuterEnvelope → ℕ → Outcome BrokerError (Unit {0})
unfolding check_sealed valid_opaque_text
validate_outer_payload e limit = do
  refuse_if (bad_metadata e) protocol
  refuse_if (limit == 0) protocol
  refuse_if (not (e.key_wrap == "")) protocol
  check_sealed e

abbrev is_result : OuterEnvelope → Bool
is_result e = is_on_bridge e && (e.kind == "execute_result" && e.direction == "response")

-- `validateRelayResponse`
unfoldable pub validate_relay_response :
    OuterEnvelope → OuterEnvelope → Outcome BrokerError (Unit {0})
unfolding validate_outer_payload
validate_relay_response response request = do
  refuse_if
      (not (is_result response)
        || (not (response.request_id == request.request_id)
            || (not (response.binding_id == request.binding_id)
                || (not (response.generation == request.generation)
                    || not (response.sequence == request.sequence)))))
      protocol
  validate_outer_payload response default_max_payload_bytes

-- `validateRelayResponseShape`
unfoldable pub validate_relay_response_shape : OuterEnvelope → Outcome BrokerError (Unit {0})
unfolding validate_outer_payload
validate_relay_response_shape response = do
  refuse_if (not (is_result response)) protocol
  validate_outer_payload response default_max_payload_bytes

-- `validateCancelOuter`
unfoldable pub validate_cancel_outer : OuterEnvelope → ℕ → Outcome BrokerError (Unit {0})
unfolding validate_outer_payload
validate_cancel_outer e wire_bytes = do
  refuse_if
      (not (is_on_bridge e && (e.kind == "cancel" && e.direction == "request"))
        || (not (e.key_wrap == "")
            || (wire_bytes == 0 || ltb default_max_payload_bytes wire_bytes)))
      protocol
  validate_outer_payload e default_max_payload_bytes

-- `validateWrappedOuter`
unfoldable pub validate_wrapped_outer : OuterEnvelope → ℕ → Outcome BrokerError (Unit {0})
unfolding validate_outer_payload valid_canonical_base64_url
validate_wrapped_outer e wire_bytes = do
  refuse_if (e.key_wrap == "") protocol
  refuse_if (not (valid_canonical_base64_url e.key_wrap 92)) protocol
  validate_outer_payload (record e { key_wrap = "" }) wire_bytes
