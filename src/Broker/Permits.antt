-- ===== src/Broker/Permits.antt =====
-- internal/egobrowser/broker.go: the permits and requests of wrappers.
use agent_remote_node.Prelude.{
  ℕ, ◌+◌, ◌*◌, String, Bool, true, false, not, ◌&&◌, ◌||◌, Outcome, ok, err, ◌>>=◌, ◌>>◌, refuse_if,
  ◌==◌, string_Eq, nat_Eq, ℤ, pos, ltz, lez, leb, ltb, Option, none, some, List, [], ◌∷◌,
  if◌then◌else◌, codes,
}
use agent_remote_node.Prelude.Map.{put}
use agent_remote_node.Broker.Texts.{
  BrokerError, disabled, unavailable, renewal_required, lease_expired, too_many, protocol, io_error,
  valid_opaque_text, dedicated_task_space, Scope, normalize_scope,
}
use agent_remote_node.Broker.Binding.{
  EgoBrowserBinding, Stamp, no_stamp, malformed, at, protocol_version,
}
use agent_remote_node.Broker.State.{
  Config, Broker, BindingState, Permit, ActiveRequest, active_request_count, prune_expired_permits,
  next_sequence, second,
}
use agent_remote_node.Broker.Sessions.{
  Answer, nonce_session, binding_for_nonce, binding_for_session,
}
use agent_remote_node.Broker.Bindings.{Handle}
use agent_remote_node.Broker.Leases.{Renewal, ensure_lease}

pub record PermitRequest : Type 0 where
  pub protocol_name : String
  pub kind : String
  pub startup_nonce : String
  pub script_bytes : ℤ
  pub timeout_ms : ℤ
  pub cwd_label : String
  pub concurrency_mode : String
  pub task_space_scope : String
  pub tab_scope : String

-- `strings.Contains(s, "..")`
abbrev pub has_dots : List ℕ → Bool
has_dots [] = false
has_dots (c ∷ []) = false
has_dots (c ∷ d ∷ s) = (c == b'.' && d == b'.') || has_dots (d ∷ s)

-- The checks of `IssuePermit` on the request alone.
unfoldable pub check_request : Config → PermitRequest → Outcome BrokerError (Unit {0})
check_request c r = do
  refuse_if (not c.enabled) disabled
  refuse_if (not (r.protocol_name == protocol_version) || not (r.kind == "permit_request")) protocol
  refuse_if (lez r.script_bytes (pos 0) || ltz c.max_script_bytes r.script_bytes) protocol
  refuse_if (lez r.timeout_ms (pos 0) || ltz c.max_execute_timeout_ms r.timeout_ms) protocol
  refuse_if (not (valid_opaque_text r.cwd_label 128) || has_dots (codes r.cwd_label)) protocol

abbrev pub or_unavailable : {A : Type 0} → Outcome BrokerError A → Outcome BrokerError A
or_unavailable (ok a) = ok a
or_unavailable (err _) = err unavailable

-- What `IssuePermit` knows when it asks for the lease: the session, its task space, the scope, and
-- the binding.
pub record Admission : Type 0 where
  pub session : String
  pub task_space : String
  pub scope : Scope
  pub handle : Handle

-- `IssuePermit` up to the call of `ensureLease`.
unfoldable pub admit : PermitRequest → Broker → Outcome BrokerError Admission
unfolding check_request
admit r b = do
  check_request b.cfg r
  found ← or_unavailable (binding_for_nonce r.startup_nonce b)
  space ← dedicated_task_space found.0
  scope ← normalize_scope r.concurrency_mode r.task_space_scope r.tab_scope
  refuse_if (not (scope.mode == "binding") && not (scope.task_space == space)) protocol
  ok (record {
    session = found.0;
    task_space = space;
    scope = scope;
    handle = record { binding_id = found.1.metadata.binding_id; object = found.1.object };
  })

abbrev pub bounded_by : Stamp → ℕ → Outcome BrokerError ℕ
bounded_by no_stamp limit = ok limit
bounded_by malformed limit = err protocol
bounded_by (at t) limit = ok (if ltb t limit then t else limit)

abbrev pub or_no_stamp : Option Stamp → Stamp
or_no_stamp none = no_stamp
or_no_stamp (some s) = s

-- The expiry of a permit: within 20 seconds, the lease and the absolute limit.
unfoldable pub permit_expiry : ℕ → EgoBrowserBinding → Outcome BrokerError ℕ
permit_expiry now m = do
  lease ← bounded_by (or_no_stamp m.lease_until) (now + 20 * second)
  limit ← bounded_by m.absolute_ttl_until lease
  refuse_if (leb limit now) lease_expired
  ok limit

abbrev pub min_int : ℤ → ℤ → ℤ
min_int a b = if ltz a b then a else b

-- The checks of `IssuePermit` on the binding under the lock.
unfoldable pub check_binding : Broker → EgoBrowserBinding → Outcome BrokerError (Unit {0})
unfolding active_request_count
check_binding b m = do
  refuse_if (not (m.status == "active") || not (m.lease_health == "healthy")) renewal_required
  refuse_if (m.binding_generation == 0) protocol
  refuse_if
      (lez (min_int b.cfg.max_parallel_requests m.max_parallel_requests)
        (pos (active_request_count m.binding_id b)))
      too_many

unfoldable pub new_permit : Config → EgoBrowserBinding → Admission → String → ℕ → ℕ → Permit
new_permit c m a request_id sequence expires_at = record {
  binding_id = m.binding_id;
  generation = m.binding_generation;
  request_id = request_id;
  sequence = sequence;
  expires_at = expires_at;
  max_payload_bytes = pos (16 * 1024 * 1024);
  max_script_bytes = c.max_script_bytes;
  default_task_space = a.task_space;
  allowlist_revision = m.allowlist_revision;
  learning_bundle_digest = m.learning_bundle_digest;
  concurrency_mode = a.scope.mode;
  task_space_scope = a.scope.task_space;
  tab_scope = a.scope.tab;
}

abbrev pub request_of : Permit → ActiveRequest
request_of p = record {
  binding_id = p.binding_id;
  generation = p.generation;
  request_id = p.request_id;
  sequence = p.sequence;
  expires_at = p.expires_at;
  submitted = false;
  sent = false;
  server_terminal_observed = false;
  cancelled = false;
  forward_done = false;
}

abbrev pub store_permit : Broker → Permit → Answer Permit
store_permit b p = (
  record b {
    permits = put b.permits p.sequence p;
    active = put b.active p.sequence (request_of p);
  },
  ok p,
)

-- What the random source returns for a permit: the identity of the request and the key.
pub record Randomness : Type 0 where
  pub request_id : Option String
  pub key : Bool

abbrev pub drawn_id : Bool → Option String → Outcome BrokerError String
drawn_id key none = err io_error
drawn_id false (some id) = err io_error
drawn_id true (some id) = ok id

abbrev pub drawn : Randomness → Outcome BrokerError String
drawn r = drawn_id r.key r.request_id

abbrev pub stored_or : Broker → Outcome BrokerError Permit → Answer Permit
stored_or b (err x) = (b, err x)
stored_or b (ok p) = store_permit b p

unfoldable pub fill_permit :
    ℕ → Randomness → Admission → EgoBrowserBinding → Broker × Outcome BrokerError ℕ → Answer Permit
unfolding permit_expiry new_permit
fill_permit now r a m (b, err x) = (b, err x)
fill_permit now r a m (b, ok sequence) =
    stored_or b
      (do id ← drawn r; expiry ← permit_expiry now m; ok (new_permit b.cfg m a id sequence expiry))

abbrev pub checked_issue : Broker → Answer Permit → Outcome BrokerError (Unit {0}) → Answer Permit
checked_issue b issued (err x) = (b, err x)
checked_issue b issued (ok _) = issued

unfoldable pub issue_for :
    ℕ → Bool → Randomness → Admission → Broker → Outcome BrokerError BindingState → Answer Permit
unfolding check_binding fill_permit next_sequence
issue_for now persisted r a b (err x) = (b, err unavailable)
issue_for now persisted r a b (ok s) =
    checked_issue b (fill_permit now r a s.metadata (next_sequence persisted b))
      (check_binding b s.metadata)

-- `IssuePermit` under the lock, at the time `now`.
unfoldable pub commit_permit : ℕ → Bool → Randomness → String → Admission → Broker → Answer Permit
unfolding prune_expired_permits issue_for binding_for_session
commit_permit now persisted r nonce a b =
    let pruned = prune_expired_permits now b in
    if not (nonce_session nonce pruned == a.session)
    then (pruned, err unavailable)
    else issue_for now persisted r a pruned (binding_for_session a.session pruned)

abbrev pub after_lease : (Broker → Answer Permit) → Answer (Unit {0}) → Answer Permit
after_lease commit (b, err x) = (b, err x)
after_lease commit (b, ok _) = commit b

abbrev pub issue_admitted :
    Broker → (Admission → Answer Permit) → Outcome BrokerError Admission → Answer Permit
issue_admitted b go (err x) = (b, err x)
issue_admitted b go (ok a) = go a

-- `IssuePermit`: `answer` and `meanwhile` are the renewal's answer and the broker that it finds, where
-- the lease is renewed.
unfoldable pub issue_permit :
    ℕ
    → Bool
    → Randomness
    → Outcome BrokerError Renewal
    → PermitRequest
    → Broker
    → Broker
    → Answer Permit
unfolding admit commit_permit
issue_permit now persisted r answer request b meanwhile =
    issue_admitted b
      (λ a.
        after_lease (commit_permit now persisted r request.startup_nonce a)
          (ensure_lease now a.handle answer b meanwhile))
      (admit request b)
