-- ===== src/Broker/Examples.antt =====
-- A broker with one session and one binding, and runs of it.
use Prim.Native.Nat.{◌*◌}
use agent_remote_node.Prelude.{
  ◌≤◌, err, string_Eq, nat_Eq, ◌≡◌, refl, true, false, none, some, List, [], ◌∷◌, ok, pos, lez,
}
use agent_remote_node.Prelude.Map.{put, empty, count, get, retain, entries}
use agent_remote_node.Broker.Texts.{control_plane_error, BrokerError, binding_scope}
use agent_remote_node.Broker.Binding.{
  EgoBrowserBinding, Stamp, no_stamp, malformed, at, required_capabilities,
}
use agent_remote_node.Broker.State.{
  ActiveRequest, prune_consumed, BindingState, active_request_count, Config, Broker, Permit,
  new_broker, with_defaults, check_limits, second,
}
use agent_remote_node.Broker.Permits.{PermitRequest, issue_permit, Admission, Randomness}
use agent_remote_node.Broker.Requests.{Identity, consume_permit}
use agent_remote_node.Broker.Run.{step, Op, registers, sets_bindings, issues, restarts, run}
use agent_remote_node.Broker.SingleUse.{consume_once}
use agent_remote_node.Broker.Bindings.{revoke_binding}
use agent_remote_node.Broker.Unrevived.{Ended, Stays}
use agent_remote_node.Broker.Revocation.{revoke_binding-Ended}
use agent_remote_node.Broker.Pairs.{run-IsPaired}
use agent_remote_node.Broker.Capabilities.{IsPaired}
use agent_remote_node.Broker.Replays.{prune_consumed_bound}
use agent_remote_node.Broker.Confined.{Confined, issue_permit-Confined}
use agent_remote_node.Broker.Limit.{run-request_limit}

abbrev config : Config
config = record {
  enabled = true;
  node_id = "node-1";
  socket_path = "";
  state_root = "";
  control_plane_configured = true;
  lease_seconds = pos 0;
  renew_interval_seconds = pos 0;
  renew_grace_seconds = pos 0;
  admission_min_remaining_seconds = pos 0;
  max_parallel_requests = pos 0;
  max_script_bytes = pos 0;
  max_execute_timeout_ms = pos 0;
  wrapper_version = "";
}

abbrev fresh : Broker
fresh = record {
  cfg = record {
    enabled = true;
    node_id = "node-1";
    socket_path = "/run/agent-remote-node/ego-browser-broker.sock";
    state_root = "/var/lib/agent-remote-node/ego-browser";
    control_plane_configured = true;
    lease_seconds = pos 60;
    renew_interval_seconds = pos 20;
    renew_grace_seconds = pos 10;
    admission_min_remaining_seconds = pos 20;
    max_parallel_requests = pos 4;
    max_script_bytes = pos 1048576;
    max_execute_timeout_ms = pos 120000;
    wrapper_version = "0.1.19";
  };
  bindings = empty;
  sessions = empty;
  nonces = empty;
  peer_uids = empty;
  permits = empty;
  consumed = empty;
  active = empty;
  sequence = 7;
  closed = false;
  sequence_file = 7;
  next_object = 0;
}

fresh_opens : new_broker config (ok 7) ≡ ok fresh
unfolding new_broker with_defaults check_limits
fresh_opens = refl

abbrev metadata : EgoBrowserBinding
metadata = record {
  binding_id = "binding-1";
  encryption_public_key = "AAAAAAAAAAAAAAAAAAAAAAAAAAAAAAAAAAAAAAAAAAA";
  tool_session_id = "session-1";
  node_id = "node-1";
  status = "active";
  control_channel = "ego_browser_bridge";
  relay_binding_kind = "ego_browser";
  authorization_mode = "ego_browser_script_full_trust";
  authorization_policy_version = pos 1;
  binding_generation = 3;
  generation = 0;
  remote_platform = "linux";
  local_platform = "macos";
  bridge_protocol_version = "ego-browser-bridge-v1";
  allowlist_revision = 1;
  allowlist_roots_digest = none;
  learning_bundle_digest = none;
  max_parallel_requests = pos 4;
  capabilities = required_capabilities;
  lease_until = some (at (60 * second));
  lease_health = "healthy";
  lease_grace_until = none;
  absolute_ttl_until = at (3600 * second);
}

abbrev admission : Admission
admission = record {
  session = "session-1";
  task_space = "agent-remote:session-1";
  scope = binding_scope;
  handle = record { binding_id = "binding-1"; object = 0 };
}

abbrev random : Randomness
random = record { request_id = some "request-1"; key = true }

abbrev calls : List Op
calls =
    registers (some "nonce-1" ∷ []) "session-1"
    ∷ (sets_bindings 0 (metadata ∷ []) ∷ (issues second true random "nonce-1" admission ∷ []))

abbrev identity : Identity
identity = record {
  binding_id = "binding-1";
  generation = 3;
  request_id = "request-1";
  sequence = 8;
}

abbrev permit : Permit
permit = record {
  binding_id = "binding-1";
  generation = 3;
  request_id = "request-1";
  sequence = 8;
  expires_at = 21 * second;
  max_payload_bytes = pos 16777216;
  max_script_bytes = pos 1048576;
  default_task_space = "agent-remote:session-1";
  allowlist_revision = 1;
  learning_bundle_digest = none;
  concurrency_mode = "binding";
  task_space_scope = "";
  tab_scope = "";
}

permit_consumed : (consume_permit (2 * second) identity (pos 100) (run calls fresh)).1 ≡ ok permit
unfolding consume_permit run get agent_remote_node.Broker.Texts.valid_opaque_text
    agent_remote_node.Broker.Texts.dedicated_task_space empty
    agent_remote_node.Broker.Binding.normalized
    agent_remote_node.Broker.Binding.validate_binding_metadata
    agent_remote_node.Broker.Texts.valid_canonical_base64_url
    agent_remote_node.Broker.Binding.valid_binding_capabilities entries put count retain
permit_consumed = refl

consume_once_example : ¬ (
    (consume_permit
      (3 * second)
      identity
      (pos 100)
      (run (restarts ∷ []) (consume_permit (2 * second) identity (pos 100) (run calls fresh)).0)).1
    ≡ ok permit)
consume_once_example =
    consume_once config 7 fresh calls (restarts ∷ []) (2 * second) (3 * second) identity identity
      (pos 100) (pos 100) permit permit fresh_opens permit_consumed refl

run-request_limit_example :
    lez
      (pos (active_request_count "binding-1" (run calls fresh)))
      (run calls fresh).cfg.max_parallel_requests
    ≡ true
run-request_limit_example = run-request_limit config (ok 7) fresh calls "binding-1" fresh_opens

abbrev served : Broker
served = run calls fresh

abbrev prepared : Broker
prepared =
    run (registers (some "nonce-1" ∷ []) "session-1" ∷ (sets_bindings 0 (metadata ∷ []) ∷ [])) fresh

abbrev state : BindingState
state = record {
  object = 0;
  metadata = record metadata { generation = 3 };
  relay = false;
  relay_epoch = 0;
  terminal = false;
  terminal_generation = 0;
}

state_found : get served.bindings "binding-1" ≡ some state
unfolding run get agent_remote_node.Broker.Texts.valid_opaque_text
    agent_remote_node.Broker.Texts.dedicated_task_space empty
    agent_remote_node.Broker.Binding.normalized
    agent_remote_node.Broker.Binding.validate_binding_metadata
    agent_remote_node.Broker.Texts.valid_canonical_base64_url
    agent_remote_node.Broker.Binding.valid_binding_capabilities entries put count retain
state_found = refl

abbrev late : List Op
late = sets_bindings (3 * second) (metadata ∷ []) ∷ []

late-Stays : Stays "binding-1" late (revoke_binding second "binding-1" 3 served)
unfolding run step revoke_binding get agent_remote_node.Broker.Texts.valid_opaque_text
    agent_remote_node.Broker.Texts.dedicated_task_space empty
    agent_remote_node.Broker.Binding.normalized
    agent_remote_node.Broker.Binding.validate_binding_metadata
    agent_remote_node.Broker.Texts.valid_canonical_base64_url
    agent_remote_node.Broker.Binding.valid_binding_capabilities entries put count retain
late-Stays = (refl, tt)

revoke_binding-Ended_example :
    Ended "binding-1" 3 (run late (revoke_binding second "binding-1" 3 served))
revoke_binding-Ended_example =
    revoke_binding-Ended second "binding-1" served state late state_found late-Stays

run-IsPaired_example : IsPaired served
run-IsPaired_example = run-IsPaired config 7 fresh calls fresh_opens refl

prune_consumed_bound_example :
    count (λ _ _. true) (prune_consumed (700 * second) (put empty 8 (2 * second))) ≤ 4096
prune_consumed_bound_example = prune_consumed_bound (700 * second) (put empty 8 (2 * second))

abbrev failing : BindingState
failing = record state {
  metadata = record state.metadata {
    lease_health = "renewal_grace";
    lease_grace_until = some (at (10 * second));
  };
}

abbrev in_grace_broker : Broker
in_grace_broker = record served { bindings = put empty "binding-1" failing }

abbrev request : PermitRequest
request = record {
  protocol_name = "ego-browser-bridge-v1";
  kind = "permit_request";
  startup_nonce = "nonce-1";
  script_bytes = pos 100;
  timeout_ms = pos 1000;
  cwd_label = "workspace";
  concurrency_mode = "";
  task_space_scope = "";
  tab_scope = "";
}

request_permitted :
    (issue_permit second true random (err control_plane_error) request prepared prepared).1
    ≡ ok permit
unfolding issue_permit run agent_remote_node.Broker.Texts.valid_opaque_text
    agent_remote_node.Broker.Texts.dedicated_task_space get empty
    agent_remote_node.Broker.Binding.normalized
    agent_remote_node.Broker.Binding.validate_binding_metadata
    agent_remote_node.Broker.Texts.valid_canonical_base64_url
    agent_remote_node.Broker.Binding.valid_binding_capabilities entries
    agent_remote_node.Broker.Sessions.binding_for_nonce put
    agent_remote_node.Broker.Texts.normalize_scope agent_remote_node.Broker.Leases.ensure_lease
    count retain
request_permitted = refl

issue_permit-Confined_example : Confined request prepared permit
issue_permit-Confined_example =
    issue_permit-Confined second true random (err control_plane_error) request prepared prepared
      permit request_permitted

abbrev earlier : ActiveRequest
earlier = record {
  binding_id = "binding-1";
  generation = 3;
  request_id = "request-1";
  sequence = 8;
  expires_at = 21 * second;
  submitted = true;
  sent = true;
  server_terminal_observed = false;
  cancelled = false;
  forward_done = false;
}

abbrev sending : Broker
sending = record fresh {
  active =
      put (put empty 8 earlier) 9
        (record earlier { request_id = "request-2"; sequence = 9; sent = false });
}
