-- ===== src/Broker/Requests.antt =====
-- internal/egobrowser/broker.go: the permits and requests of wrappers after they are issued.
use agent_remote_node.Prelude.{
  ℕ, String, Bool, true, false, not, ◌&&◌, ◌||◌, Outcome, ok, err, ◌==◌, string_Eq, nat_Eq, ℤ, pos,
  ltz, leb, ltb, Option, none, some, is_some, holds, if◌then◌else◌, any,
}
use agent_remote_node.Prelude.Map.{Map, get, put, remove, entries}
use agent_remote_node.Broker.Texts.{
  BrokerError, unavailable, lease_expired, revoked, replay, protocol, context_done,
  valid_opaque_text,
}
use agent_remote_node.Broker.State.{
  prune_expired_permits, Broker, Permit, ActiveRequest, prune_consumed,
}
use agent_remote_node.Broker.Sessions.{Answer}

-- The identity that names one request.
pub record Identity : Type 0 where
  pub binding_id : String
  pub generation : ℕ
  pub request_id : String
  pub sequence : ℕ

abbrev pub permit_identity : Permit → Identity
permit_identity p = record {
  binding_id = p.binding_id;
  generation = p.generation;
  request_id = p.request_id;
  sequence = p.sequence;
}

abbrev pub request_identity : ActiveRequest → Identity
request_identity p = record {
  binding_id = p.binding_id;
  generation = p.generation;
  request_id = p.request_id;
  sequence = p.sequence;
}

abbrev pub same_identity : Identity → Identity → Bool
same_identity a b =
    a.binding_id == b.binding_id
    && (a.generation == b.generation && (a.request_id == b.request_id && a.sequence == b.sequence))

abbrev pub adjust_request :
    (ActiveRequest → ActiveRequest)
    → ℕ
    → Map ℕ ActiveRequest
    → Option ActiveRequest
    → Map ℕ ActiveRequest
adjust_request f s m none = m
adjust_request f s m (some r) = put m s (f r)

abbrev pub submitted_request : ActiveRequest → ActiveRequest
submitted_request r = record r { submitted = true }

abbrev pub sent_request : ActiveRequest → ActiveRequest
sent_request r = record r { sent = true }

abbrev pub cancelled_request : ActiveRequest → ActiveRequest
cancelled_request r = record r { cancelled = true }

abbrev pub bad_payload : ℤ → Permit → Bool
bad_payload payload p = ltz payload (pos 0) || ltz p.max_payload_bytes payload

abbrev pub dropped : ℕ → Broker → Broker
dropped s b = record b { permits = remove b.permits s; active = remove b.active s }

abbrev pub used : ℕ → ℕ → Broker → Broker
used now s b = record b {
  permits = remove b.permits s;
  consumed = put b.consumed s now;
  active = adjust_request submitted_request s b.active (get b.active s);
}

unfoldable pub consume_found : ℕ → Identity → ℤ → Broker → Option Permit → Answer Permit
consume_found now i payload b none =
    (b, err (if is_some (get b.consumed i.sequence) then replay else revoked))
consume_found now i payload b (some p) =
    if not (same_identity (permit_identity p) i)
    then (b, err protocol)
    else if bad_payload payload p
    then (b, err protocol)
    else if leb p.expires_at now
    then (dropped i.sequence b, err lease_expired)
    else (used now i.sequence b, ok p)

unfoldable pub pruned_replays : ℕ → Broker → Broker
unfolding prune_consumed
pruned_replays now b = record b { consumed = prune_consumed now b.consumed }

-- `ConsumePermit`
unfoldable pub consume_permit : ℕ → Identity → ℤ → Broker → Answer Permit
unfolding consume_found pruned_replays
consume_permit now i payload b =
    consume_found now i payload (pruned_replays now b) (get b.permits i.sequence)

abbrev pub valid_identity : Identity → Bool
valid_identity i =
    valid_opaque_text i.binding_id 128
    && (not (i.generation == 0) && (valid_opaque_text i.request_id 128 && not (i.sequence == 0)))

unfoldable pub cancel_found : Identity → Broker → Option ActiveRequest → Answer Bool
cancel_found i b none = (b, ok false)
cancel_found i b (some r) =
    if not (same_identity (request_identity r) i)
    then (b, err protocol)
    else (record b { active = put b.active i.sequence (cancelled_request r) }, ok true)

-- `CancelRequest`
unfoldable pub cancel_request : Identity → Broker → Answer Bool
unfolding cancel_found
cancel_request i b =
    if not (valid_identity i) then (b, err protocol) else cancel_found i b (get b.active i.sequence)

-- How the wait of `CancelRequestAndWait` ends: the exchange ended, with a terminal response of the
-- Server or without, the context ended, or the broker was closed.
pub data Wait : Type 0 where
  forward_done : Bool → Wait
  context_ended broker_closed : Wait

abbrev pub waited : Wait → Bool × Option BrokerError
waited (forward_done terminal) = (terminal, none)
waited context_ended = (false, some context_done)
waited broker_closed = (false, some unavailable)

abbrev pub await_cancelled : Wait → Answer Bool → Broker × Bool × Bool × Option BrokerError
await_cancelled w (b, err x) = (b, false, false, some x)
await_cancelled w (b, ok false) = (b, false, false, none)
await_cancelled w (b, ok true) = (b, true, (waited w).0, (waited w).1)

-- `CancelRequestAndWait`: whether the request was found, and whether its end was observed.
unfoldable pub cancel_request_and_wait :
    Wait → Identity → Broker → Broker × Bool × Bool × Option BrokerError
unfolding cancel_request
cancel_request_and_wait w i b = await_cancelled w (cancel_request i b)

-- `markRequestSent`
unfoldable pub mark_request_sent : String → ℕ → Broker → Answer (Unit {0})
mark_request_sent id s b =
    if not (is_some (get b.active s))
    then (b, ok tt)
    else if holds (λ (r : ActiveRequest). not (r.binding_id == id) || not r.submitted)
        (get b.active s)
    then (b, err revoked)
    else (record b { active = adjust_request sent_request s b.active (get b.active s) }, ok tt)

-- Whether an earlier request of the binding is not sent.
abbrev pub blocks : String → ℕ → ℕ × ActiveRequest → Bool
blocks id s (other, r) = r.binding_id == id && (ltb other s && not r.sent)

-- What a round of `waitForSendTurn` decides: `none` where it waits for a change.
unfoldable pub send_decision : String → ℕ → Bool → Broker → Option (Outcome BrokerError (Unit {0}))
send_decision id s tracked b =
    if not tracked && not (is_some (get b.active s))
    then some (ok tt)
    else if not (holds (λ (r : ActiveRequest). r.binding_id == id && r.submitted) (get b.active s))
    then some (err revoked)
    else if any (blocks id s) (entries b.active)
    then none
    else some (ok tt)

-- One round of `waitForSendTurn` at the time `now`.
unfoldable pub send_turn :
    ℕ → String → ℕ → Bool → Broker → Broker × Option (Outcome BrokerError (Unit {0}))
unfolding send_decision prune_expired_permits
send_turn now id s tracked b =
    (prune_expired_permits now b, send_decision id s tracked (prune_expired_permits now b))

abbrev pub finished_request : Bool → ActiveRequest → ActiveRequest
finished_request observed r =
    if r.forward_done
    then r
    else record r { server_terminal_observed = observed; forward_done = true }

-- `finishRequestForward`
unfoldable pub finish_request_forward : ℕ → Bool → Broker → Broker
finish_request_forward s observed b = record b {
  active = adjust_request (finished_request observed) s b.active (get b.active s);
}
