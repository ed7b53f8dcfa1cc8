-- ===== src/Broker/Bindings.antt =====
-- internal/egobrowser/broker.go: the snapshot of bindings, its leases, and what ends a generation.
use agent_remote_node.Prelude.{
  ℕ, suc, ◌+◌, ◌*◌, String, Bool, true, false, not, ◌&&◌, ◌||◌, Outcome, ok, err, ◌>>=◌, ◌>>◌,
  refuse_if, ◌==◌, string_Eq, nat_Eq, opt_Eq, bool_Eq, ℤ, pos, negsuc, leb, ltb, Option, none, some,
  is_some, holds, List, [], ◌∷◌, if◌then◌else◌, all, map,
}
use agent_remote_node.Prelude.Map.{Map, empty, get, put, entries}
use agent_remote_node.Broker.Texts.{BrokerError, disabled, unavailable, protocol}
use agent_remote_node.Broker.Binding.{
  EgoBrowserBinding, Stamp, no_stamp, malformed, at, normalized, validate_binding_metadata,
}
use agent_remote_node.Broker.State.{
  Config, Broker, BindingState, clear_binding_materials, detached_relay, adjusted, second,
}
use agent_remote_node.Broker.Sessions.{Answer}

abbrev pub new_state : ℕ → EgoBrowserBinding → BindingState
new_state object m = record {
  object = object;
  metadata = m;
  relay = false;
  relay_epoch = 0;
  terminal = false;
  terminal_generation = 0;
}

unfoldable pub add_fresh :
    ℕ → EgoBrowserBinding → Map String BindingState → Outcome BrokerError (Map String BindingState)
add_fresh object m next = do
  refuse_if (is_some (get next m.binding_id)) protocol
  ok (put next m.binding_id (new_state object m))

-- The first loop of `SetBindings`: every binding is checked before anything changes.
unfoldable pub fresh_states :
    String
    → ℕ
    → List EgoBrowserBinding
    → Map String BindingState
    → Outcome BrokerError (Map String BindingState)
unfolding add_fresh
fresh_states node object [] next = ok next
fresh_states node object (m ∷ rest) next = do
  n ← normalized m
  validate_binding_metadata node n
  more ← add_fresh object n next
  fresh_states node (suc object) rest more

unfoldable pub same_materials : EgoBrowserBinding → EgoBrowserBinding → Bool
same_materials old fresh =
    old.tool_session_id == fresh.tool_session_id
    && (old.allowlist_revision == fresh.allowlist_revision
        && (old.learning_bundle_digest == fresh.learning_bundle_digest
            && (old.status == fresh.status && old.lease_health == fresh.lease_health)))

abbrev pub cleared_times : Bool → Bool → BindingState → BindingState
cleared_times first second s = record s {
  relay = s.relay && (not first && not second);
  relay_epoch = s.relay_epoch + ((if first then 1 else 0) + (if second then 1 else 0));
}

-- The object that the second loop of `SetBindings` puts into the snapshot, and whether the materials
-- of the binding go.
unfoldable pub settled : BindingState → BindingState → BindingState × Bool
unfolding same_materials
settled old fresh =
    if ltb fresh.metadata.binding_generation old.metadata.binding_generation
    then (old, false)
    else if old.terminal && leb fresh.metadata.binding_generation old.terminal_generation
    then (old, false)
    else let moved = not (fresh.metadata.binding_generation == old.metadata.binding_generation) in
      let changed = not (same_materials old.metadata fresh.metadata) in
      (
        record (cleared_times moved changed old) {
          metadata = fresh.metadata;
          terminal = if moved then false else old.terminal;
          terminal_generation = if moved then 0 else old.terminal_generation;
        },
        moved || changed,
      )

-- One round of the second loop; `none` where the snapshot has no such binding.
unfoldable pub settle :
    ℕ
    → String
    → BindingState
    → Option BindingState
    → Broker × Map String BindingState
    → Broker × Map String BindingState
unfolding settled clear_binding_materials
settle now id old none (b, next) = (clear_binding_materials now id b, next)
settle now id old (some fresh) (b, next) = (
  if (settled old fresh).1 then clear_binding_materials now id b else b,
  put next id (settled old fresh).0,
)

unfoldable pub settle_all :
    ℕ
    → List (String × BindingState)
    → Broker × Map String BindingState
    → Broker × Map String BindingState
unfolding settle
settle_all now [] x = x
settle_all now ((id, old) ∷ rest) x = settle_all now rest (settle now id old (get x.1 id) x)

abbrev pub installed : ℕ → Broker × Map String BindingState → Broker
installed count (b, next) = record b { bindings = next; next_object = b.next_object + count }

unfoldable pub set_fresh :
    ℕ → ℕ → Broker → Outcome BrokerError (Map String BindingState) → Answer (Unit {0})
unfolding settle_all
set_fresh now count b (err x) = (b, err x)
set_fresh now count b (ok next) =
    (installed count (settle_all now (entries b.bindings) (b, next)), ok tt)

abbrev pub list_length : List EgoBrowserBinding → ℕ
list_length [] = 0
list_length (m ∷ ms) = suc (list_length ms)

-- `SetBindings`
unfoldable pub set_bindings : ℕ → List EgoBrowserBinding → Broker → Answer (Unit {0})
unfolding set_fresh fresh_states
set_bindings now metas b =
    if not b.cfg.enabled
    then (b, err disabled)
    else set_fresh now (list_length metas) b (fresh_states b.cfg.node_id b.next_object metas empty)

-- `Bindings`
unfoldable pub list_bindings : Broker → List EgoBrowserBinding
list_bindings b = map (λ (x : String × BindingState). x.1.metadata) (entries b.bindings)

-- `Refresh`, with the answer of the control plane.
unfoldable pub refresh :
    ℕ → Outcome BrokerError (List EgoBrowserBinding) → Broker → Answer (Unit {0})
unfolding set_bindings
refresh now (err x) b = (
  b,
  if not b.cfg.enabled
      then err disabled
      else if not b.cfg.control_plane_configured
      then err unavailable
      else err x,
)
refresh now (ok items) b =
    if not b.cfg.enabled
    then (b, err disabled)
    else if not b.cfg.control_plane_configured
    then (b, err unavailable)
    else if not (b.cfg.node_id == "")
        && not (all (λ (m : EgoBrowserBinding). m.node_id == b.cfg.node_id) items)
    then (b, err protocol)
    else set_bindings now items b

abbrev pub ended : String → BindingState → BindingState
ended status s = record s {
  metadata = record s.metadata {
    status = status;
    lease_health = "expired";
    lease_grace_until = none;
  };
  terminal = true;
  terminal_generation = s.metadata.binding_generation;
  relay = false;
}

-- `expireBindingLocked`, and `RevokeBinding` once it has found its binding, with the closing of the
-- relay that follows.
unfoldable pub end_generation : ℕ → String → String → Broker → Broker
unfolding clear_binding_materials
end_generation now status id b =
    clear_binding_materials now id (record b { bindings = adjusted (ended status) id b.bindings })

-- `RevokeBinding`
unfoldable pub revoke_binding : ℕ → String → ℕ → Broker → Broker
unfolding end_generation
revoke_binding now id generation b =
    if holds (λ (s : BindingState). generation == 0 || s.metadata.binding_generation == generation)
      (get b.bindings id)
    then end_generation now "revoked" id b
    else b

-- A handle to a `bindingState` object: its binding, which never changes, and its address.
pub record Handle : Type 0 where
  pub binding_id : String
  pub object : ℕ

-- The state behind a handle where the snapshot still has that object.
unfoldable pub current : Handle → Broker → Option BindingState
current h b =
    if holds (λ (s : BindingState). s.object == h.object) (get b.bindings h.binding_id)
    then get b.bindings h.binding_id
    else none

abbrev pub is_active : BindingState → Bool
is_active s = s.metadata.status == "active"

-- `expireBinding`
unfoldable pub expire_binding : ℕ → Handle → Broker → Broker
unfolding end_generation current
expire_binding now h b =
    if holds is_active (current h b) then end_generation now "expired" h.binding_id b else b

-- The loop of `Reload`.
unfoldable pub reload_entries : ℕ → List (String × BindingState) → Broker → Broker
unfolding clear_binding_materials
reload_entries now [] b = b
reload_entries now ((id, s) ∷ rest) b =
    let cleared = clear_binding_materials now id b in
    reload_entries now rest
      (record cleared { bindings = adjusted detached_relay id cleared.bindings })

-- `Reload`
unfoldable pub reload : ℕ → Broker → Broker
unfolding reload_entries
reload now b = reload_entries now (entries b.bindings) b

-- A number of seconds of the configuration, which `with_defaults` makes positive.
abbrev pub seconds : ℤ → ℕ
seconds (pos n) = n * second
seconds (negsuc n) = 0

abbrev pub grace_ended : ℕ → Option Stamp → Bool
grace_ended now none = false
grace_ended now (some no_stamp) = true
grace_ended now (some malformed) = true
grace_ended now (some (at t)) = leb t now

-- The deadline that the first failure sets, and that later ones keep.
abbrev pub first_grace : ℕ → Option Stamp → Option Stamp
first_grace deadline none = some (at deadline)
first_grace deadline (some no_stamp) = some (at deadline)
first_grace deadline (some malformed) = some malformed
first_grace deadline (some (at t)) = some (at t)

-- Whether the grace of a failing lease is over, or is no timestamp.
unfoldable pub grace_over : ℕ → EgoBrowserBinding → Bool
grace_over now m = m.lease_health == "renewal_grace" && grace_ended now m.lease_grace_until

unfoldable pub start_grace : ℕ → Config → EgoBrowserBinding → EgoBrowserBinding
start_grace now c m = record m {
  lease_health = "renewal_grace";
  lease_grace_until = first_grace (now + seconds c.renew_grace_seconds) m.lease_grace_until;
}

abbrev pub in_grace : ℕ → Config → BindingState → BindingState
in_grace now c s = record s { metadata = start_grace now c s.metadata }

-- Whether the object is still in the snapshot, active and not ended.
unfoldable pub still_live : Handle → Broker → Bool
unfolding current
still_live h b =
    holds
      (λ (s : BindingState).
        is_active s && (not s.terminal && not (s.metadata.lease_health == "expired")))
      (current h b)

unfoldable pub grace_exhausted : ℕ → Handle → Broker → Bool
unfolding current grace_over
grace_exhausted now h b = holds (λ (s : BindingState). grace_over now s.metadata) (current h b)

-- `markRenewalFailureFor`
unfoldable pub mark_renewal_failure : ℕ → Handle → Broker → Broker
unfolding still_live grace_exhausted end_generation start_grace clear_binding_materials
mark_renewal_failure now h b =
    if not (still_live h b)
    then b
    else if grace_exhausted now h b
    then clear_binding_materials now h.binding_id (end_generation now "expired" h.binding_id b)
    else clear_binding_materials now h.binding_id
        (record b { bindings = adjusted (in_grace now b.cfg) h.binding_id b.bindings })
