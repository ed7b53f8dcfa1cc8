-- ===== src/Broker/State.antt =====
-- internal/egobrowser/broker.go: the configuration and the state of the broker, and what removes
-- permits and requests. Times are in nanoseconds.
use agent_remote_node.Prelude.{
  ℕ, zero, suc, ◌+◌, ◌*◌, String, Bool, true, false, not, ◌&&◌, ◌||◌, Outcome, ok, err, ◌>>=◌, ◌>>◌,
  refuse_if, ◌==◌, string_Eq, nat_Eq, ℤ, pos, ltz, lez, ltb, leb, Option, none, some, holds, List,
  [], ◌∷◌, if◌then◌else◌,
}
use agent_remote_node.Prelude.Map.{Map, empty, get, put, remove, retain, count, entries}
use agent_remote_node.Broker.Texts.{BrokerError, protocol, io_error}
use agent_remote_node.Broker.Binding.{EgoBrowserBinding}

abbrev pub second : ℕ
second = 1000000000

-- `Config`, without the client and the hook that grants access to the socket.
pub record Config : Type 0 where
  pub enabled : Bool
  pub node_id : String
  pub socket_path : String
  pub state_root : String
  pub control_plane_configured : Bool
  pub lease_seconds : ℤ
  pub renew_interval_seconds : ℤ
  pub renew_grace_seconds : ℤ
  pub admission_min_remaining_seconds : ℤ
  pub max_parallel_requests : ℤ
  pub max_script_bytes : ℤ
  pub max_execute_timeout_ms : ℤ
  pub wrapper_version : String

abbrev pub or_text : String → String → String
or_text fallback s = if s == "" then fallback else s

abbrev pub or_number : ℕ → ℤ → ℤ
or_number fallback n = if lez n (pos 0) then pos fallback else n

-- `withDefaults`
unfoldable pub with_defaults : Config → Config
with_defaults c = record c {
  socket_path = or_text "/run/agent-remote-node/ego-browser-broker.sock" c.socket_path;
  state_root = or_text "/var/lib/agent-remote-node/ego-browser" c.state_root;
  lease_seconds = or_number 60 c.lease_seconds;
  renew_interval_seconds = or_number 20 c.renew_interval_seconds;
  renew_grace_seconds = or_number 10 c.renew_grace_seconds;
  admission_min_remaining_seconds = or_number 20 c.admission_min_remaining_seconds;
  max_parallel_requests = or_number 4 c.max_parallel_requests;
  max_script_bytes = or_number 1048576 c.max_script_bytes;
  max_execute_timeout_ms = or_number 120000 c.max_execute_timeout_ms;
  wrapper_version = or_text "0.1.19" c.wrapper_version;
}

-- `Permit`, without the session key.
pub record Permit : Type 0 where
  pub binding_id : String
  pub generation : ℕ
  pub request_id : String
  pub sequence : ℕ
  pub expires_at : ℕ
  pub max_payload_bytes : ℤ
  pub max_script_bytes : ℤ
  pub default_task_space : String
  pub allowlist_revision : ℕ
  pub learning_bundle_digest : Option String
  pub concurrency_mode : String
  pub task_space_scope : String
  pub tab_scope : String

-- `activeRequest`; `cancelled` and `forward_done` tell which of its channels are closed.
pub record ActiveRequest : Type 0 where
  pub binding_id : String
  pub generation : ℕ
  pub request_id : String
  pub sequence : ℕ
  pub expires_at : ℕ
  pub submitted : Bool
  pub sent : Bool
  pub server_terminal_observed : Bool
  pub cancelled : Bool
  pub forward_done : Bool

-- `bindingState`. `object` tells apart the objects that the source tells apart by their address;
-- `relay` tells whether a relay session is attached.
pub record BindingState : Type 0 where
  pub object : ℕ
  pub metadata : EgoBrowserBinding
  pub relay : Bool
  pub relay_epoch : ℕ
  pub terminal : Bool
  pub terminal_generation : ℕ

-- `Broker`, with the number in its sequence file and the name of the next object.
pub record Broker : Type 0 where
  pub cfg : Config
  pub bindings : Map String BindingState
  pub sessions : Map String String
  pub nonces : Map String String
  pub peer_uids : Map String ℕ
  pub permits : Map ℕ Permit
  pub consumed : Map ℕ ℕ
  pub active : Map ℕ ActiveRequest
  pub sequence : ℕ
  pub closed : Bool
  pub sequence_file : ℕ
  pub next_object : ℕ

-- The limits that `New` checks.
unfoldable pub check_limits : Config → Outcome BrokerError (Unit {0})
check_limits c =
    refuse_if
      (ltz c.max_parallel_requests (pos 1)
        || (ltz (pos 4) c.max_parallel_requests
            || (ltz c.max_script_bytes (pos 1)
                || (ltz (pos 1048576) c.max_script_bytes
                    || (ltz c.max_execute_timeout_ms (pos 1)
                        || (ltz (pos 120000) c.max_execute_timeout_ms
                            || lez c.lease_seconds c.renew_interval_seconds))))))
      protocol

-- `New`, with the outcome of reading the sequence file.
unfoldable pub new_broker : Config → Outcome BrokerError ℕ → Outcome BrokerError Broker
unfolding with_defaults check_limits
new_broker c loaded = do
  check_limits (with_defaults c)
  n ← loaded
  ok (record {
    cfg = with_defaults c;
    bindings = empty;
    sessions = empty;
    nonces = empty;
    peer_uids = empty;
    permits = empty;
    consumed = empty;
    active = empty;
    sequence = n;
    closed = false;
    sequence_file = n;
    next_object = 0;
  })

-- `m[k]` of a map to texts: the empty text where the key is missing.
abbrev pub text_at : Option String → String
text_at none = ""
text_at (some s) = s

-- The entry that the loop of `pruneConsumedLocked` finds: the first of the oldest.
abbrev pub older : ℕ × ℕ → Option (ℕ × ℕ) → Option (ℕ × ℕ)
older x none = some x
older x (some y) = if leb x.1 y.1 then some x else some y

abbrev pub oldest : List (ℕ × ℕ) → Option (ℕ × ℕ)
oldest [] = none
oldest (x ∷ xs) = older x (oldest xs)

abbrev pub without : Option (ℕ × ℕ) → Map ℕ ℕ → Map ℕ ℕ
without none m = m
without (some x) m = remove m x.0

-- `for len(b.consumed) > maximumReplayEntries`; every round removes an entry, so that as many rounds
-- as entries are enough.
unfoldable pub drop_oldest : ℕ → Map ℕ ℕ → Map ℕ ℕ
drop_oldest zero m = m
drop_oldest (suc rounds) m =
    let rest = drop_oldest rounds (without (oldest (entries m)) m) in
    if leb (count (λ _ _. true) m) 4096 then m else rest

-- `pruneConsumedLocked`
unfoldable pub prune_consumed : ℕ → Map ℕ ℕ → Map ℕ ℕ
unfolding drop_oldest
prune_consumed now m =
    let recent = retain (λ s at. ltb now (at + 600 * second)) m in
    drop_oldest (count (λ _ _. true) recent) recent

abbrev pub next_epoch : BindingState → BindingState
next_epoch s = record s { relay_epoch = suc s.relay_epoch }

abbrev pub adjust :
    (BindingState → BindingState)
    → String
    → Map String BindingState
    → Option BindingState
    → Map String BindingState
adjust f id m none = m
adjust f id m (some s) = put m id (f s)

abbrev pub adjusted :
    (BindingState → BindingState) → String → Map String BindingState → Map String BindingState
adjusted f id m = adjust f id m (get m id)

-- `clearBindingMaterialsLocked`
unfoldable pub clear_binding_materials : ℕ → String → Broker → Broker
unfolding prune_consumed
clear_binding_materials now id b = record b {
  permits = retain (λ s p. not (p.binding_id == id)) b.permits;
  active = retain (λ s r. not (r.binding_id == id)) b.active;
  consumed = prune_consumed now b.consumed;
  bindings = adjusted next_epoch id b.bindings;
}

abbrev pub detached_relay : BindingState → BindingState
detached_relay s = record s { relay = false }

-- Whether the request of an expired permit goes with it.
abbrev pub dropped_with_permit : ℕ → Map ℕ Permit → ℕ → ActiveRequest → Bool
dropped_with_permit now permits s r =
    holds (λ (p : Permit). leb p.expires_at now) (get permits s) && not r.submitted

-- `pruneExpiredPermitsLocked`
unfoldable pub prune_expired_permits : ℕ → Broker → Broker
prune_expired_permits now b = record b {
  permits = retain (λ s p. ltb now p.expires_at) b.permits;
  active = retain (λ s r. not (dropped_with_permit now b.permits s r)) b.active;
}

-- `activeRequestCountLocked`
unfoldable pub active_request_count : String → Broker → ℕ
active_request_count id b = count (λ s r. r.binding_id == id) b.active

-- `releaseRequest`
unfoldable pub release_request : ℕ → Broker → Broker
release_request s b = record b { permits = remove b.permits s; active = remove b.active s }

-- `nextSequenceLocked`; `persisted` tells whether the sequence file was replaced.
unfoldable pub next_sequence : Bool → Broker → Broker × Outcome BrokerError ℕ
next_sequence persisted b =
    if b.sequence == 18446744073709551615
    then (b, err protocol)
    else if persisted
    then (
      record b { sequence = suc b.sequence; sequence_file = suc b.sequence },
      ok (suc b.sequence),
    )
    else (b, err io_error)
