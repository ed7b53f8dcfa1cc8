-- ===== src/Broker/Leases.antt =====
-- internal/egobrowser/broker.go: the renewal of binding leases.
use agent_remote_node.Prelude.{
  ℕ, ◌+◌, String, Bool, true, false, not, ◌&&◌, ◌||◌, Outcome, ok, err, ◌>>=◌, ◌>>◌, refuse_if,
  ◌==◌, string_Eq, nat_Eq, leb, ltb, Option, none, some, holds, List, [], ◌∷◌, if◌then◌else◌,
}
use agent_remote_node.Broker.Texts.{
  BrokerError, disabled, unavailable, renewal_required, lease_expired, revoked, protocol,
}
use agent_remote_node.Broker.Binding.{EgoBrowserBinding, Stamp, no_stamp, malformed, at}
use agent_remote_node.Broker.State.{Broker, BindingState, adjusted}
use agent_remote_node.Broker.Sessions.{Answer}
use agent_remote_node.Broker.Bindings.{
  Handle, current, is_active, expire_binding, mark_renewal_failure, seconds,
}

-- The data of the control plane's answer to a renewal.
pub record Renewal : Type 0 where
  pub binding_id : String
  pub binding_generation : ℕ
  pub lease_health : String
  pub lease_until : Option Stamp
  pub lease_grace_until : Option Stamp
  pub absolute_ttl_until : Stamp

unfoldable pub renewable : EgoBrowserBinding → Outcome BrokerError EgoBrowserBinding
renewable m = do
  refuse_if (not (m.status == "active") || m.binding_generation == 0) unavailable
  ok m

abbrev pub metadata_of : Option BindingState → Outcome BrokerError EgoBrowserBinding
metadata_of none = err unavailable
metadata_of (some s) = ok s.metadata

-- `renewBinding` before the call: the metadata that it copies.
unfoldable pub renew_request : Handle → Broker → Outcome BrokerError EgoBrowserBinding
unfolding renewable current
renew_request h b = do
  refuse_if (not b.cfg.control_plane_configured) renewal_required
  m ← metadata_of (current h b)
  renewable m

-- Whether the lease runs after `now`, and not longer than the absolute limit, which does too.
abbrev pub lease_fits : ℕ → Option Stamp → Stamp → Bool
lease_fits now (some (at lease)) (at limit) = ltb now lease && (ltb now limit && leb lease limit)
lease_fits now _ _ = false

abbrev pub or_stamp : Stamp → Stamp → Stamp
or_stamp fallback no_stamp = fallback
or_stamp fallback malformed = malformed
or_stamp fallback (at t) = at t

-- The checks of `renewBinding` on the answer.
unfoldable pub fits_request : ℕ → EgoBrowserBinding → Renewal → Bool
fits_request now m r =
    (r.binding_id == "" || r.binding_id == m.binding_id)
    && (r.binding_generation == m.binding_generation
        && (r.lease_health == "healthy"
            && lease_fits now r.lease_until (or_stamp m.absolute_ttl_until r.absolute_ttl_until)))

abbrev pub renewed : Renewal → Stamp → BindingState → BindingState
renewed r limit s = record s {
  metadata = record s.metadata {
    binding_generation = r.binding_generation;
    generation = r.binding_generation;
    lease_until = r.lease_until;
    lease_health = r.lease_health;
    lease_grace_until = r.lease_grace_until;
    absolute_ttl_until = limit;
  };
}

-- Whether the object still has the generation that was renewed, active and not ended.
unfoldable pub still_renewable : Handle → EgoBrowserBinding → Broker → Bool
unfolding current
still_renewable h m b =
    holds
      (λ (s : BindingState).
        s.metadata.binding_generation == m.binding_generation && (is_active s && not s.terminal))
      (current h b)

abbrev pub with_lease : Handle → EgoBrowserBinding → Renewal → Broker → Broker
with_lease h m r b = record b {
  bindings =
      adjusted (renewed r (or_stamp m.absolute_ttl_until r.absolute_ttl_until)) h.binding_id
        b.bindings;
}

-- `renewBinding` under the lock, once the answer is accepted.
unfoldable pub commit_renewal : Handle → EgoBrowserBinding → Renewal → Broker → Answer (Unit {0})
unfolding still_renewable
commit_renewal h m r b =
    if still_renewable h m b then (with_lease h m r b, ok tt) else (b, err revoked)

-- `renewBinding` after the call; the broker is the one that the answer finds.
unfoldable pub finish_renewal :
    ℕ → Handle → EgoBrowserBinding → Outcome BrokerError Renewal → Broker → Answer (Unit {0})
unfolding fits_request commit_renewal mark_renewal_failure
finish_renewal now h m (err x) b = (mark_renewal_failure now h b, err x)
finish_renewal now h m (ok r) b =
    if fits_request now m r
    then commit_renewal h m r b
    else (mark_renewal_failure now h b, err protocol)

unfoldable pub call_renewal :
    ℕ
    → Handle
    → Outcome BrokerError EgoBrowserBinding
    → Outcome BrokerError Renewal
    → Broker
    → Broker
    → Answer (Unit {0})
unfolding finish_renewal
call_renewal now h (err x) answer b meanwhile = (b, err x)
call_renewal now h (ok m) answer b meanwhile = finish_renewal now h m answer meanwhile

-- `renewBinding`: `meanwhile` is the broker when the answer comes.
unfoldable pub renew_binding :
    ℕ → Handle → Outcome BrokerError Renewal → Broker → Broker → Answer (Unit {0})
unfolding call_renewal renew_request
renew_binding now h answer b meanwhile = call_renewal now h (renew_request h b) answer b meanwhile

-- What `ensureLease` does with a binding.
pub data LeaseCheck : Type 0 where
  valid : LeaseCheck
  refused expires : BrokerError → LeaseCheck
  renews : BrokerError → LeaseCheck

abbrev pub check_lease_until : ℕ → ℕ → Option Stamp → LeaseCheck
check_lease_until now margin none = renews renewal_required
check_lease_until now margin (some no_stamp) = renews renewal_required
check_lease_until now margin (some malformed) = refused protocol
check_lease_until now margin (some (at t)) =
    if leb t now
    then renews lease_expired
    else if ltb t (now + margin)
    then renews renewal_required
    else valid

abbrev pub stamp_over : ℕ → Option Stamp → Bool
stamp_over now (some (at t)) = leb t now
stamp_over now _ = false

abbrev pub over : ℕ → Stamp → Bool
over now (at t) = leb t now
over now _ = false

abbrev pub is_refused_stamp : Stamp → Bool
is_refused_stamp malformed = true
is_refused_stamp _ = false

-- The decisions of `ensureLease`, in its order.
unfoldable pub lease_check : ℕ → ℕ → EgoBrowserBinding → LeaseCheck
lease_check now margin m =
    if m.status == "expired" || m.lease_health == "expired"
    then refused lease_expired
    else if not (m.status == "active")
    then refused unavailable
    else if not (m.lease_health == "healthy")
    then (if m.lease_health == "renewal_grace" && stamp_over now m.lease_grace_until
        then expires lease_expired
        else refused renewal_required)
    else if is_refused_stamp m.absolute_ttl_until
    then refused protocol
    else if over now m.absolute_ttl_until
    then refused lease_expired
    else check_lease_until now margin m.lease_until

abbrev pub replaced_error : BrokerError → Answer (Unit {0}) → Answer (Unit {0})
replaced_error x (b, ok u) = (b, ok u)
replaced_error x (b, err _) = (b, err x)

unfoldable pub act_on_lease :
    ℕ → Handle → LeaseCheck → Outcome BrokerError Renewal → Broker → Broker → Answer (Unit {0})
unfolding renew_binding expire_binding
act_on_lease now h valid answer b meanwhile = (b, ok tt)
act_on_lease now h (refused x) answer b meanwhile = (b, err x)
act_on_lease now h (expires x) answer b meanwhile = (expire_binding now h b, err x)
act_on_lease now h (renews x) answer b meanwhile =
    replaced_error x (renew_binding now h answer b meanwhile)

unfoldable pub ensure_current :
    ℕ
    → Handle
    → Outcome BrokerError EgoBrowserBinding
    → Outcome BrokerError Renewal
    → Broker
    → Broker
    → Answer (Unit {0})
unfolding act_on_lease lease_check
ensure_current now h (err x) answer b meanwhile = (b, err x)
ensure_current now h (ok m) answer b meanwhile =
    act_on_lease now h (lease_check now (seconds b.cfg.admission_min_remaining_seconds) m) answer b
      meanwhile

-- `ensureLease`
unfoldable pub ensure_lease :
    ℕ → Handle → Outcome BrokerError Renewal → Broker → Broker → Answer (Unit {0})
unfolding ensure_current current
ensure_lease now h answer b meanwhile =
    ensure_current now h (metadata_of (current h b)) answer b meanwhile

-- What `RenewDue` does with a binding.
pub data Due : Type 0 where
  skip renew : Due
  expire : BrokerError → Due

abbrev pub due_lease : ℕ → ℕ → Option Stamp → Due
due_lease now margin (some (at t)) = if leb t (now + margin) then renew else skip
due_lease now margin _ = renew

abbrev pub due_grace : ℕ → Option Stamp → Due
due_grace now none = expire protocol
due_grace now (some no_stamp) = expire protocol
due_grace now (some malformed) = expire protocol
due_grace now (some (at t)) = if leb t now then expire lease_expired else renew

-- The decisions of `RenewDue` on one binding, in its order.
unfoldable pub due : ℕ → ℕ → EgoBrowserBinding → Due
due now margin m =
    if not (m.status == "active") && not (m.status == "expired")
    then skip
    else if m.status == "expired" || m.lease_health == "expired"
    then expire lease_expired
    else if is_refused_stamp m.absolute_ttl_until
    then expire protocol
    else if over now m.absolute_ttl_until
    then expire lease_expired
    else if m.lease_health == "renewal_grace"
    then due_grace now m.lease_grace_until
    else if not (m.lease_health == "healthy")
    then skip
    else due_lease now margin m.lease_until

abbrev pub first_error : Option BrokerError → Outcome BrokerError (Unit {0}) → Option BrokerError
first_error (some x) o = some x
first_error none (err x) = some x
first_error none (ok _) = none

unfoldable pub act_on_due :
    ℕ → Handle → Due → Outcome BrokerError Renewal → Broker → Answer (Unit {0})
unfolding renew_binding expire_binding
act_on_due now h skip answer b = (b, ok tt)
act_on_due now h renew answer b = renew_binding now h answer b b
act_on_due now h (expire x) answer b = (expire_binding now h b, err x)

unfoldable pub renew_one :
    ℕ → Handle → Option BindingState → Outcome BrokerError Renewal → Broker → Answer (Unit {0})
unfolding act_on_due due
renew_one now h none answer b = (b, ok tt)
renew_one now h (some s) answer b =
    act_on_due now h (due now (seconds b.cfg.admission_min_remaining_seconds) s.metadata) answer b

-- The loop of `RenewDue` over the bindings that it copied, with the answer for each; the calls of
-- others between its rounds are left out.
unfoldable pub renew_all :
    ℕ
    → List (Handle × Outcome BrokerError Renewal)
    → Option BrokerError
    → Broker
    → Broker × Option BrokerError
unfolding renew_one current
renew_all now [] first b = (b, first)
renew_all now ((h, answer) ∷ rest) first b =
    let (next, result) = renew_one now h (current h b) answer b in
    renew_all now rest (first_error first result) next

-- `RenewDue`
unfoldable pub renew_due :
    ℕ → List (Handle × Outcome BrokerError Renewal) → Broker → Broker × Option BrokerError
unfolding renew_all
renew_due now calls b = if not b.cfg.enabled then (b, some disabled) else renew_all now calls none b
