-- ===== src/Broker/Relay/Closed.antt =====
-- internal/egobrowser/broker.go: a relay session that is closed leaves no caller waiting.
use agent_remote_node.Prelude.{
  ℕ, String, true, ltb, Option, some, List, [], ◌∷◌, ◌++◌, length, ◌≡◌, refl, ◌∙◌, sym, ap, arith,
  subst, nat_Eq, ◌+◌,
}
use agent_remote_node.Prelude.Map.{Map, empty, get, count, count_pairs, get-empty, lookup_pairs}
use agent_remote_node.Broker.Texts.{BrokerError}
use agent_remote_node.Broker.Requests.{Identity}
use agent_remote_node.Broker.Relay.Envelope.{OuterEnvelope, relay_key, identity_Eq}
use agent_remote_node.Broker.Relay.Steps.{
  RelayStep, stays, begins_close, adds, gives_up, answers_with, ends, relay_calls_keep,
}
use agent_remote_node.Broker.Relay.Session.{
  PendingRelayRequest, Closing, still_open, closed, closes, RelaySession, new_relay_session,
  is_open, start_close, finish_close, RelayCall, starts_close, finishes_close, relay_call,
  relay_calls,
}
use agent_remote_node.Broker.Relay.Ended.{
  on_channel, accounts, answers_on, given_on, one_if, relay_calls-accounts,
}

abbrev pub Drained : Closing → Map Identity PendingRelayRequest → Type 0
Drained closed pending = pending ≡ empty
Drained _ _ = Unit {0}

-- Once a session is closed, no exchange waits.
abbrev pub IsDrained : RelaySession → Type 0
IsDrained s = Drained s.closing s.pending

opening-Drained :
    (x : Closing) (m n : Map Identity PendingRelayRequest) → is_open x ≡ true → Drained x m
opening-Drained still_open m n h = tt
opening-Drained closed m n h = absurd cc
opening-Drained (closes reason) m n h = absurd cc

-- No exchange leaves a session that is closed.
waiting-Drained :
    (x : Closing) (m n : Map Identity PendingRelayRequest) (key : Identity)
    (p : PendingRelayRequest)
    → get m key ≡ some p
    → Drained x m
    → Drained x n
unfolding get empty lookup_pairs
waiting-Drained still_open m n key p found h = tt
waiting-Drained closed m n key p found h =
    absurd (ground (arith, get-empty {V = PendingRelayRequest} key, h, found))
waiting-Drained (closes reason) m n key p found h = tt

pub RelayStep-IsDrained :
    {decode : String → Option OuterEnvelope} {s t : RelaySession}
    → RelayStep decode s t
    → IsDrained s
    → IsDrained t
RelayStep-IsDrained (stays gone e) h = subst IsDrained (sym e) h
RelayStep-IsDrained (begins_close reason opened e) h = subst IsDrained (sym e) tt
RelayStep-IsDrained {s = s} (adds request opened free e) h =
    subst IsDrained (sym e) (opening-Drained s.closing _ s.pending opened)
RelayStep-IsDrained {s = s} (gives_up key p gone found e) h =
    subst IsDrained (sym e) (waiting-Drained s.closing s.pending _ key p found h)
RelayStep-IsDrained {s = s} (answers_with response frame p found decoded valid e) h =
    subst IsDrained (sym e) (waiting-Drained s.closing s.pending _ (relay_key response) p found h)
RelayStep-IsDrained (ends reason e) h = subst IsDrained (sym e) refl

pub closed_pending :
    (reason : BrokerError) (s : RelaySession)
    → IsDrained s
    → (finish_close (start_close reason s)).pending ≡ empty
unfolding start_close finish_close
closed_pending reason s h = by_closing s.closing h
  where
    by_closing :
        (x : Closing)
        → Drained x s.pending
        → (finish_close (start_close reason (record s { closing = x }))).pending ≡ empty
    by_closing still_open h = refl
    by_closing closed h = h
    by_closing (closes why) h = refl

after-append :
    (decode : String → Option OuterEnvelope) (l r : List RelayCall) (s : RelaySession)
    → relay_calls decode (l ++ r) s ≡ relay_calls decode r (relay_calls decode l s)
unfolding relay_calls
after-append decode [] r s = refl
after-append decode (call ∷ l) r s = after-append decode l r (relay_call decode call s)

abbrev pub closing_calls : BrokerError → List RelayCall
closing_calls reason = starts_close reason ∷ finishes_close ∷ []

pub new-IsDrained : IsDrained new_relay_session
unfolding new_relay_session
new-IsDrained = tt

closing_pending :
    (decode : String → Option OuterEnvelope) (calls : List RelayCall) (reason : BrokerError)
    → (relay_calls decode (calls ++ closing_calls reason) new_relay_session).pending ≡ empty
unfolding relay_calls relay_call
closing_pending decode calls reason =
    ap (λ s. s.pending) (after-append decode calls (closing_calls reason) new_relay_session)
    ∙ closed_pending reason _ (
        relay_calls_keep decode IsDrained (λ s t. RelayStep-IsDrained) calls new_relay_session
          new-IsDrained)

none_waits :
    (c : ℕ) (s : RelaySession) {total : ℕ}
    → s.pending ≡ empty
    → accounts c s ≡ total
    → answers_on c s.answers + given_on c s.given_up ≡ total
unfolding count empty count_pairs
none_waits c s h total = ground (arith, ap (count (on_channel c)) h, total)

-- Whatever was called on a new relay session before, a close leaves no exchange waiting: every channel
-- that was registered has then one result or a caller that gave up, exactly one of the two and once.
pub closing-ends :
    (decode : String → Option OuterEnvelope) (calls : List RelayCall) (reason : BrokerError) (c : ℕ)
    → let s = relay_calls decode (calls ++ closing_calls reason) new_relay_session in
      answers_on c s.answers + given_on c s.given_up ≡ one_if (ltb c (length s.made))
closing-ends decode calls reason c =
    none_waits c (relay_calls decode (calls ++ closing_calls reason) new_relay_session)
      (closing_pending decode calls reason)
      (relay_calls-accounts decode (calls ++ closing_calls reason) c)
