-- ===== src/Device/Payload.antt =====
-- internal/devicecontrol/activation.go: the payloads of the control plane, and the checks that
-- decoding makes on them. What the strict JSON decoder makes of a payload is an argument.
use Prim.Native.Nat.{ℕ, ◌+◌, ◌-◌, ◌^◌}
use agent_remote_node.Prelude.{
  String, Bool, true, false, not, ◌&&◌, ◌||◌, Option, none, some, List, [], ◌∷◌, Outcome, ok, err,
  ◌>>◌, ◌>>=◌, refuse_if, ◌==◌, Eq, string_Eq, nat_Eq, int_Eq, fields_Eq, pair_Eq, refl, ℤ, pos,
  all, ltb, leb, is_hex, is_digit, is_upper, is_lower, runs_of, codes, length,
}
use agent_remote_node.Device.Capabilities.{
  normalize, is_valid_authorization, valid_capabilities_for,
}

-- The errors of the package, by what is refused.
pub data DeviceError : Type 0 where
  bad_json bad_version bad_authorization bad_uuid wrong_node bad_platform bad_generation :
      DeviceError
  bad_backend bad_resource bad_expiry bad_capabilities bad_lease : DeviceError
  bad_root unsafe_root bad_manifest stale_generation changed_binding wrong_tool io_error :
      DeviceError

abbrev exact : ℕ → ℕ → Bool
exact a c = c == a

abbrev between : ℕ → ℕ → ℕ → Bool
between low high c = leb low c && leb c high

-- `uuidPattern`
unfoldable pub is_canonical_uuid : String → Bool
is_canonical_uuid s =
    runs_of
      ((is_hex, 8)
        ∷ ((exact b'-', 1)
            ∷ ((is_hex, 4)
                ∷ ((exact b'-', 1)
                    ∷ ((between b'1' b'5', 1)
                        ∷ ((is_hex, 3)
                            ∷ ((exact b'-', 1)
                                ∷ ((λ c. c == b'8' || (c == b'9' || (c == b'a' || c == b'b')), 1)
                                    ∷ ((is_hex, 3)
                                        ∷ ((exact b'-', 1) ∷ ((is_hex, 12) ∷ [])))))))))))
      (codes s)

-- `resourcePattern`
unfoldable pub is_resource : String → Bool
is_resource s =
    leb 1 (length (codes s))
    && (leb (length (codes s)) 128
        && all
            (λ c.
              is_upper c
              || (is_lower c
                  || (is_digit c || (c == b'.' || (c == b'_' || (c == b':' || c == b'-'))))))
            (codes s))

-- `MaximumDeviceSessionGeneration`
abbrev pub max_generation : ℕ
max_generation = 2 ^ 63 - 1

-- `MaximumActiveDeviceSessionGeneration`
abbrev pub max_active_generation : ℕ
max_active_generation = max_generation - 1

pub record ActivatePayload : Type 0 where
  pub protocol_version : ℤ
  pub authorization_mode : String
  pub authorization_policy_version : ℤ
  pub user_id : String
  pub device_id : String
  pub tool_session_id : String
  pub device_session_id : String
  pub node_id : String
  pub platform : String
  pub generation : ℕ
  pub expires_at : String
  pub runtime_backend : String
  pub runtime_resource_id : String

instance abbrev pub activate_Eq : Eq ActivatePayload
activate_Eq =
    fields_Eq
      (λ (r : ActivatePayload). (
        (r.protocol_version, (r.authorization_mode, r.authorization_policy_version)),
        (
          (r.user_id, (r.device_id, (r.tool_session_id, (r.device_session_id, r.node_id)))),
          (r.platform, (r.generation, (r.expires_at, (r.runtime_backend, r.runtime_resource_id)))),
        ),
      ))
      (λ (x : (ℤ × (String × ℤ))
          × ((String × (String × (String × (String × String))))
              × (String × (ℕ × (String × (String × String)))))).
        record {
          protocol_version = x.0.0;
          authorization_mode = x.0.1.0;
          authorization_policy_version = x.0.1.1;
          user_id = x.1.0.0;
          device_id = x.1.0.1.0;
          tool_session_id = x.1.0.1.1.0;
          device_session_id = x.1.0.1.1.1.0;
          node_id = x.1.0.1.1.1.1;
          platform = x.1.1.0;
          generation = x.1.1.1.0;
          expires_at = x.1.1.1.1.0;
          runtime_backend = x.1.1.1.1.1.0;
          runtime_resource_id = x.1.1.1.1.1.1;
        })
      (λ r. refl) pair_Eq

pub record DeactivatePayload : Type 0 where
  pub device_session_id : String
  pub tool_session_id : String
  pub generation : ℕ

pub record ContextPayload : Type 0 where
  pub protocol_version : ℤ
  pub authorization_mode : String
  pub authorization_policy_version : ℤ
  pub user_id : String
  pub device_id : String
  pub tool_session_id : String
  pub device_session_id : String
  pub node_id : String
  pub platform : String
  pub generation : ℕ
  pub lease_until : String
  pub capabilities : List String

-- `decodeStrict`: the value, where the payload is one JSON object of its fields.
unfoldable pub strictly : {A : Type 0} → Option A → Outcome DeviceError A
strictly none = err bad_json
strictly (some a) = ok a

unfoldable pub normalize_activate : ActivatePayload → ActivatePayload
unfolding normalize
normalize_activate p =
    let a =
      normalize true
        (record { mode = p.authorization_mode; policy_version = p.authorization_policy_version }) in
    record p { authorization_mode = a.mode; authorization_policy_version = a.policy_version }

unfoldable pub normalize_context : ContextPayload → ContextPayload
unfolding normalize
normalize_context p =
    let a =
      normalize true
        (record { mode = p.authorization_mode; policy_version = p.authorization_policy_version }) in
    record p { authorization_mode = a.mode; authorization_policy_version = a.policy_version }

abbrev pub bad_active_generation : ℕ → Bool
bad_active_generation g = (g == 0) || ltb max_active_generation g

-- The instants are nanoseconds; `parse_time` is `time.Parse` at `time.RFC3339Nano`.
module _ (parse_time : String → Option ℕ) where
  unfoldable pub is_future : ℕ → String → Bool
  is_future now s = elim (parse_time s) [ none ↦ false | some t ↦ ltb now t ]

  -- The lease ends after `now`, and five and a half minutes later at most.
  unfoldable pub is_short_lease : ℕ → String → Bool
  is_short_lease now s = elim (parse_time s) [
    | none ↦ false
    | some t ↦ ltb now t && leb t (now + 330000000000)
  ]

  -- The checks of `DecodeActivatePayload`, after the authorization has been normalized.
  unfoldable pub check_activate : String → ℕ → ActivatePayload → Outcome DeviceError (Unit {0})
  unfolding is_valid_authorization is_future is_canonical_uuid is_resource
  check_activate node now p = do
    refuse_if
        (not (
          is_valid_authorization (record {
            mode = p.authorization_mode;
            policy_version = p.authorization_policy_version;
          })))
        bad_authorization
    refuse_if
        (not (
          all is_canonical_uuid (
            p.user_id
            ∷ (p.device_id ∷ (p.tool_session_id ∷ (p.device_session_id ∷ (p.node_id ∷ [])))))))
        bad_uuid
    refuse_if (not (p.node_id == node)) wrong_node
    refuse_if (not (p.platform == "macos")) bad_platform
    refuse_if (bad_active_generation p.generation) bad_generation
    refuse_if (not (p.runtime_backend == "native") && not (p.runtime_backend == "docker_sandbox"))
        bad_backend
    refuse_if (not (p.runtime_resource_id == "") && not (is_resource p.runtime_resource_id))
        bad_resource
    refuse_if (not (is_future now p.expires_at)) bad_expiry

  -- `DecodeActivatePayload`
  unfoldable pub decode_activate :
      Option ActivatePayload → String → ℕ → Outcome DeviceError ActivatePayload
  unfolding check_activate strictly normalize_activate
  decode_activate payload node now = do
    p ← strictly payload
    refuse_if (not (p.protocol_version == pos 1)) bad_version
    check_activate node now (normalize_activate p)
    ok (normalize_activate p)

  -- The checks of `DecodeContextPayload`, after the authorization has been normalized.
  unfoldable pub check_context : String → ℕ → ContextPayload → Outcome DeviceError (Unit {0})
  unfolding is_valid_authorization is_short_lease is_canonical_uuid valid_capabilities_for
  check_context node now p = do
    refuse_if
        (not (
          is_valid_authorization (record {
            mode = p.authorization_mode;
            policy_version = p.authorization_policy_version;
          })))
        bad_authorization
    refuse_if
        (not (
          all is_canonical_uuid (
            p.user_id
            ∷ (p.device_id ∷ (p.tool_session_id ∷ (p.device_session_id ∷ (p.node_id ∷ [])))))))
        bad_uuid
    refuse_if (not (node == "") && not (p.node_id == node)) wrong_node
    refuse_if (not (p.platform == "macos") || bad_active_generation p.generation) bad_platform
    refuse_if
        (not (
          valid_capabilities_for p.authorization_mode p.authorization_policy_version
            p.capabilities))
        bad_capabilities
    refuse_if (not (is_short_lease now p.lease_until)) bad_lease

  -- `DecodeContextPayload`
  unfoldable pub decode_context :
      Option ContextPayload → String → ℕ → Outcome DeviceError ContextPayload
  unfolding check_context strictly normalize_context
  decode_context payload node now = do
    p ← strictly payload
    refuse_if (not (p.protocol_version == pos 1)) bad_version
    check_context node now (normalize_context p)
    ok (normalize_context p)

-- `DecodeDeactivatePayload`
unfoldable pub decode_deactivate : Option DeactivatePayload → Outcome DeviceError DeactivatePayload
unfolding strictly is_canonical_uuid
decode_deactivate payload = do
  p ← strictly payload
  refuse_if (not (is_canonical_uuid p.device_session_id)) bad_uuid
  refuse_if (not (is_canonical_uuid p.tool_session_id)) bad_uuid
  refuse_if ((p.generation == 0) || ltb max_generation p.generation) bad_generation
  ok p
