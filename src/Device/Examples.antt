-- ===== src/Device/Examples.antt =====
-- internal/devicecontrol/activation.go: tests, and the theorems at concrete inputs.
use Prim.Native.Nat.{ℕ}
use agent_remote_node.Prelude.{
  String, Bool, true, Option, none, some, List, [], ◌∷◌, ok, ◌≡◌, refl, pos, ◌==◌, string_Eq,
  if◌then◌else◌,
}
use agent_remote_node.Prelude.Map.{get, put, empty}
use agent_remote_node.Device.Capabilities.{
  per_application_approval, session_full_trust, capabilities_v2,
}
use agent_remote_node.Device.Payload.{
  ActivatePayload, DeactivatePayload, ContextPayload, decode_activate, decode_context,
  normalize_context,
}
use agent_remote_node.Device.Store.{
  Manifests, holding, ready, missing, WriteCalls, activate, deactivate, DeviceCall, activates,
  deactivates,
}
use agent_remote_node.Device.Outcomes.{activate_again, Deactivated, deactivate-Deactivated}
use agent_remote_node.Device.Trust.{Bound, decode_context-Bound}

abbrev id : String
id = "11111111-2222-3333-8444-555555555555"

abbrev tool : String
tool = "11111111-2222-3333-9444-555555555555"

abbrev done : WriteCalls
done = record {
  create = true;
  chmod = true;
  write = true;
  sync = true;
  close = true;
  rename = true;
}

abbrev payload : ℕ → ActivatePayload
payload g = record {
  protocol_version = pos 1;
  authorization_mode = per_application_approval;
  authorization_policy_version = pos 1;
  user_id = id;
  device_id = id;
  tool_session_id = tool;
  device_session_id = id;
  node_id = id;
  platform = "macos";
  generation = g;
  expires_at = "2026-01-01T00:00:00Z";
  runtime_backend = "native";
  runtime_resource_id = "";
}

abbrev stop : ℕ → DeactivatePayload
stop g = record { device_session_id = id; tool_session_id = tool; generation = g }

abbrev fits : ActivatePayload → Bool
fits p = true

abbrev clock : String → Option ℕ
clock s = if s == "2026-01-01T00:00:00Z" then some 1000 else none

-- The legacy omission of the mode is filled in.
decoded :
    decode_activate clock
      (some (record (payload 3) { authorization_mode = ""; authorization_policy_version = pos 0 }))
      id
      10
    ≡ ok (payload 3)
unfolding decode_activate
decoded = refl

abbrev active : Manifests
active = put empty id (holding (payload 3))

abbrev late_calls : List DeviceCall
late_calls = activates ready done (payload 2) ∷ (deactivates ready true (stop 2) ∷ [])

activated : (activate fits (missing true) done (payload 3) empty).1 ≡ ok tt
unfolding activate empty get
activated = refl

activate_again_example :
    (get (activate fits (missing true) done (payload 3) empty).0 id ≡ some (holding (payload 3)))
    × (activate fits ready done (payload 3) (activate fits (missing true) done (payload 3) empty).0
        ≡ ((activate fits (missing true) done (payload 3) empty).0, ok tt))
activate_again_example =
    activate_again fits (missing true) done done (payload 3) empty activated refl

-- The generation that is active is removed, not only an older one.
same_generation_removed : (deactivate ready true (stop 3) active).1 ≡ ok true
unfolding deactivate get put empty
same_generation_removed = refl

deactivate-Deactivated_example : Deactivated (stop 3) active (deactivate ready true (stop 3) active)
deactivate-Deactivated_example = deactivate-Deactivated ready true (stop 3) active

abbrev context : ContextPayload
context = record {
  protocol_version = pos 1;
  authorization_mode = session_full_trust;
  authorization_policy_version = pos 1;
  user_id = id;
  device_id = id;
  tool_session_id = tool;
  device_session_id = id;
  node_id = id;
  platform = "macos";
  generation = 3;
  lease_until = "2026-01-01T00:00:00Z";
  capabilities = capabilities_v2;
}

context_accepted : decode_context clock (some context) id 10 ≡ ok context
unfolding decode_context normalize_context
context_accepted = refl

decode_context-Bound_example : Bound clock id 10 context
decode_context-Bound_example =
    decode_context-Bound clock id 10 (some context) context context_accepted
