-- ===== src/Broker/Relay/Events.antt =====
-- internal/egobrowser/broker.go: what an event of `forward` can do.
use agent_remote_node.Prelude.{
  ℕ, suc, ◌+◌, ◌≤◌, String, Bool, false, not, Outcome, ok, err, nat_Eq, Option, none, some, List,
  [], ◌∷◌, ◌≡◌, refl, sym, if_both, subst, length, is_some, arith,
}
use agent_remote_node.Broker.Texts.{BrokerError, unavailable, context_done}
use agent_remote_node.Broker.Relay.Envelope.{OuterEnvelope, relay_key, identity_Eq}
use agent_remote_node.Prelude.Map.{get}
use agent_remote_node.Broker.Relay.Session.{
  RelayResult, failed, RelaySession, RelayCall, register, registered, is_open, abandon, relay_calls,
}
use agent_remote_node.Broker.Relay.Forward.{
  Stage, to_send, to_mark, waits, Exchange, Event, sends, marks, is_answered, is_cancelled, is_done,
  is_broker_closed, ForwardTurn, goes_on, returned, send, send_cancel_frame, fail_relay, answer_on,
  or_fail, give_up, cancelling, after_cancel, on_cancel, on_done, answer_or, wake, step_to,
  forward_event, forward_events, forward, registered_as,
}
use agent_remote_node.Broker.Relay.Ended.{one_if}

-- The cancel frames that were tried, and the one that may yet be.
abbrev pub cancel_budget : Exchange → ℕ
cancel_budget ex = ex.cancels + one_if (not ex.cancel_sent)

-- The session is as it was, or failed.
pub data MayFail (s : RelaySession) : RelaySession → Type 0 where
  unfailed : MayFail s s
  fails : (x : BrokerError) → MayFail s (fail_relay x s)

pub data ForwardStep (ex : Exchange) (s : RelaySession) : RelaySession × ForwardTurn → Type 0 where
  continues :
      (ex' : Exchange)
      → ex'.key ≡ ex.key
      → ex'.channel ≡ ex.channel
      → cancel_budget ex' ≤ cancel_budget ex
      → ForwardStep ex s (s, goes_on ex')
  fails_with :
      (x : BrokerError) (ex' : Exchange)
      → ex'.cancels ≤ cancel_budget ex
      → ForwardStep ex s (fail_relay x s, returned ex' (failed x))
  answers :
      (result : RelayResult)
      → answer_on ex.channel s.answers ≡ some result
      → ForwardStep ex s (s, returned ex result)
  leaves :
      (x : BrokerError) (ex' : Exchange) (t : RelaySession)
      → MayFail s t
      → ex'.cancels ≤ cancel_budget ex
      → ForwardStep ex s (or_fail (abandon ex.key ex.channel t), returned ex' (failed x))

nothing : (ex : Exchange) (s : RelaySession) → ForwardStep ex s (s, goes_on ex)
nothing ex s = continues ex refl refl (omega arith)

within : (ex : Exchange) → ex.cancels ≤ cancel_budget ex
within ex = omega arith

one_more_try : (ex : Exchange) → ex.cancel_sent ≡ false → suc ex.cancels ≤ cancel_budget ex
one_more_try ex h = ground (arith, h)

answer_or-Step :
    (ex : Exchange) (s : RelaySession) (r : RelaySession × ForwardTurn)
    → ForwardStep ex s r
    → ForwardStep ex s (answer_or ex s (answer_on ex.channel s.answers) r)
answer_or-Step ex s r h = by_answer (answer_on ex.channel s.answers) refl
  where
    by_answer :
        (o : Option RelayResult)
        → answer_on ex.channel s.answers ≡ o
        → ForwardStep ex s (answer_or ex s o r)
    by_answer none found = h
    by_answer (some result) found = answers result found

on_cancel-Step :
    (sent : Outcome BrokerError (Unit {0})) (ex : Exchange) (s : RelaySession)
    → ForwardStep ex s (on_cancel sent ex s)
unfolding on_cancel after_cancel
on_cancel-Step sent ex s =
    if_both (ForwardStep ex s) (not ex.cancel_sent) (λ free. tried sent (ground (arith, free)))
      (λ _. continues _ refl refl (omega arith))
  where
    tried :
        (o : Outcome BrokerError (Unit {0}))
        → ex.cancel_sent ≡ false
        → ForwardStep ex s (after_cancel ex s o)
    tried (err x) free = fails_with x (cancelling ex) (one_more_try ex free)
    tried (ok _) free = continues _ refl refl (ground (arith, free))

on_done-Step :
    (sent : Outcome BrokerError (Unit {0})) (ex : Exchange) (s : RelaySession)
    → ForwardStep ex s (on_done sent ex s)
unfolding on_done give_up
on_done-Step sent ex s =
    if_both (ForwardStep ex s) (not ex.cancel_sent)
      (λ free.
        leaves context_done (cancelling ex) (or_fail (s, sent)) (tried sent)
          (one_more_try ex (ground (arith, free))))
      (λ _. leaves context_done ex s unfailed (within ex))
  where
    tried : (o : Outcome BrokerError (Unit {0})) → MayFail s (or_fail (s, o))
    tried (err x) = fails x
    tried (ok _) = unfailed

wake-Step : (e : Event) (ex : Exchange) (s : RelaySession) → ForwardStep ex s (wake e ex s)
unfolding wake give_up
wake-Step is_answered ex s = answer_or-Step ex s _ (nothing ex s)
wake-Step (is_cancelled encoded taken) ex s =
    if_both (ForwardStep ex s) ex.cancellable
      (λ _. answer_or-Step ex s _ (on_cancel-Step (send_cancel_frame s encoded taken) ex s))
      (λ _. nothing ex s)
wake-Step (is_done encoded taken) ex s =
    answer_or-Step ex s _ (on_done-Step (send_cancel_frame s encoded taken) ex s)
wake-Step is_broker_closed ex s = leaves unavailable ex s unfailed (within ex)
wake-Step (sends taken) ex s = nothing ex s
wake-Step (marks marked) ex s = nothing ex s

step_to-Step :
    (next : Stage) (ex : Exchange) (s : RelaySession) (o : Outcome BrokerError (Unit {0}))
    → ForwardStep ex s (step_to next ex s o)
unfolding step_to
step_to-Step next ex s (err x) = fails_with x ex (within ex)
step_to-Step next ex s (ok _) = continues _ refl refl (omega arith)

forward_event-Step :
    (phase : Stage) (e : Event) (ex : Exchange) (s : RelaySession)
    → ForwardStep ex s (forward_event phase e ex s)
unfolding forward_event
forward_event-Step to_send (sends taken) ex s = step_to-Step to_mark ex s (send s taken)
forward_event-Step to_send _ ex s = nothing ex s
forward_event-Step to_mark (marks marked) ex s = step_to-Step waits ex s marked
forward_event-Step to_mark _ ex s = nothing ex s
forward_event-Step waits e ex s = wake-Step e ex s

-- What `register` leaves: the session as it was, or with the request on the next channel.
pub Registration : OuterEnvelope → RelaySession → RelaySession × Outcome BrokerError ℕ → Type 0
Registration request s (t, err x) = t ≡ s
Registration request s (t, ok c) = (t ≡ registered request s) × (c ≡ length s.made)

pub register-Registration :
    (request : OuterEnvelope) (s : RelaySession) → Registration request s (register request s)
unfolding register Registration
register-Registration request s =
    if_both (Registration request s) (not (is_open s.closing)) (λ _. refl)
      (λ _.
        if_both (Registration request s) (is_some (get s.pending (relay_key request))) (λ _. refl)
          (λ _.
            if_both (Registration request s) (is_some (get s.abandoned (relay_key request)))
              (λ _. refl) (λ _. (refl, refl))))

module _ (Q : Exchange → RelaySession → Type 0)
    (R : Exchange → RelaySession → RelayResult → Type 0) where
  -- What holds while `forward` goes on, and what where it returned.
  abbrev pub Ends : RelaySession × ForwardTurn → Type 0
  Ends (s, goes_on ex) = Q ex s
  Ends (s, returned ex result) = R ex s result

  module _ (decode : String → Option OuterEnvelope) where
    -- What the calls of others and every event keep holds at the end.
    pub forward_events_keep :
        ((others : List RelayCall) (ex : Exchange) (s : RelaySession)
          → Q ex s
          → Q ex (relay_calls decode others s))
        → ((ex : Exchange) (s : RelaySession) (r : RelaySession × ForwardTurn)
            → ForwardStep ex s r
            → Q ex s
            → Ends r)
        → (events : List (List RelayCall × Event)) (ex : Exchange) (s : RelaySession) → Q ex s
        → Ends (forward_events decode events ex s)
    unfolding forward_events
    forward_events_keep others step [] ex s h = h
    forward_events_keep others step ((calls, e) ∷ rest) ex s h =
        by_turn (forward_event ex.phase e ex (relay_calls decode calls s))
          (step ex (relay_calls decode calls s) _ (forward_event-Step ex.phase e ex _)
            (others calls ex s h))
          (forward_events_keep others step rest)
      where
        by_turn :
            (r : RelaySession × ForwardTurn)
            → Ends r
            → ((ex : Exchange) (s : RelaySession) → Q ex s → Ends (forward_events decode rest ex s))
            → Ends (elim r.1 [
              | goes_on ex' ↦ forward_events decode rest ex' r.0
              | returned ex' result ↦ (r.0, returned ex' result)
            ])
        by_turn (s', goes_on ex') h later = later ex' s' h
        by_turn (s', returned ex' result) h later = h

    -- And so for `forward`, which begins with the request registered, or returns the session as it was.
    pub forward_keep :
        (cancellable : Bool) (request : OuterEnvelope) (s : RelaySession)
        → ((others : List RelayCall) (ex : Exchange) (s : RelaySession)
            → Q ex s
            → Q ex (relay_calls decode others s))
        → ((ex : Exchange) (s : RelaySession) (r : RelaySession × ForwardTurn)
            → ForwardStep ex s r
            → Q ex s
            → Ends r)
        → ((x : BrokerError) → R (registered_as cancellable request 0) s (failed x))
        → ((register request s).0 ≡ registered request s
            → Q (registered_as cancellable request (length s.made)) (registered request s))
        → (events : List (List RelayCall × Event))
        → Ends (forward decode events cancellable request s)
    unfolding forward Registration
    forward_keep cancellable request s others step refused began events =
        by_registration (register request s) (register-Registration request s) began
      where
        by_registration :
            (r : RelaySession × Outcome BrokerError ℕ)
            → Registration request s r
            → (r.0 ≡ registered request s
                → Q (registered_as cancellable request (length s.made)) (registered request s))
            → Ends (elim r.1 [
              | err x ↦ (r.0, returned (registered_as cancellable request 0) (failed x))
              | ok channel ↦
                  forward_events decode events (registered_as cancellable request channel) r.0
            ])
        by_registration (t, err x) same began =
            subst (λ t. R (registered_as cancellable request 0) t (failed x)) (sym same) (refused x)
        by_registration (t, ok c) (same, next) began =
            forward_events_keep others step events (registered_as cancellable request c) t (
              subst (λ c. Q (registered_as cancellable request c) t) (sym next)
                (subst (Q (registered_as cancellable request (length s.made))) (sym same)
                  (began same)))
