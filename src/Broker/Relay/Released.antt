-- ===== src/Broker/Relay/Released.antt =====
-- internal/egobrowser/broker.go: an exchange does not wait any longer when `forward` returns.
use agent_remote_node.Prelude.{
  ℕ, ◌+◌, ◌≤◌, String, Bool, true, false, Outcome, ok, err, ◌==◌, nat_Eq, Option, none, some, List,
  [], ◌∷◌, ◌≡◌, refl, sym, ap, ◌∙◌, subst, if_both, arith, Bool-cases, inl, inr, length, ltb, leb,
  holds,
}
use agent_remote_node.Prelude.Map.{empty, get, count, get-empty, get-remove, count-remove-found}
use agent_remote_node.Broker.Texts.{BrokerError}
use agent_remote_node.Broker.Requests.{Identity}
use agent_remote_node.Broker.Relay.Envelope.{OuterEnvelope, relay_key, identity_Eq}
use agent_remote_node.Broker.Relay.Session.{
  PendingRelayRequest, RelayResult, RelaySession, max_abandoned, given, abandon_found, abandon,
  start_close, RelayCall, relay_calls, new_relay_session,
}
use agent_remote_node.Broker.Relay.Steps.{
  RelayStep, abandon-Step, close-Step, finish-Step, register-Step, relay_calls_keep,
}
use agent_remote_node.Broker.Relay.Ended.{
  one_if, on_channel, waiting_on, answers_on, IsAccounted, RelayStep-IsAccounted, new_accounts,
}
use agent_remote_node.Broker.Relay.Closed.{
  IsDrained, RelayStep-IsDrained, closed_pending, new-IsDrained,
}
use agent_remote_node.Broker.Relay.Forward.{
  Exchange, Event, ForwardTurn, returned, fail_relay, answer_on, or_fail, forward,
}
use agent_remote_node.Broker.Relay.Events.{
  MayFail, unfailed, fails, ForwardStep, continues, fails_with, answers, leaves, Ends, forward_keep,
}

-- What every call keeps, the end of `forward` keeps.
module _ (decode : String → Option OuterEnvelope) (P : RelaySession → Type 0)
    (step : (s t : RelaySession) → RelayStep decode s t → P s → P t) where
  pub fail_relay_keeps : (x : BrokerError) (s : RelaySession) → P s → P (fail_relay x s)
  unfolding fail_relay
  fail_relay_keeps x s h =
      step (start_close x s) _ (finish-Step decode (start_close x s))
        (step s _ (close-Step decode x s) h)

  pub may_fail_keeps : {s t : RelaySession} → MayFail s t → P s → P t
  may_fail_keeps unfailed h = h
  may_fail_keeps (fails x) h = fail_relay_keeps x _ h

  pub leave_keeps :
      (key : Identity) (c : ℕ) (t : RelaySession) → P t → P (or_fail (abandon key c t))
  leave_keeps key c t h = by_result (abandon key c t) (step t _ (abandon-Step decode key c t) h)
    where
      by_result : (r : RelaySession × Outcome BrokerError (Unit {0})) → P r.0 → P (or_fail r)
      by_result (s, ok _) h = h
      by_result (s, err x) h = fail_relay_keeps x s h

-- What is pending at the key, if anything, waits on another channel.
abbrev pub IsReleased : Identity → ℕ → RelaySession → Type 0
IsReleased key c s = holds (λ p. p.channel == c) (get s.pending key) ≡ false

emptied-IsReleased :
    (key : Identity) (c : ℕ) (s : RelaySession) → s.pending ≡ empty → IsReleased key c s
emptied-IsReleased key c s h =
    ap (λ m. holds (λ (p : PendingRelayRequest). p.channel == c) (get m key)) h
    ∙ ap (holds (λ (p : PendingRelayRequest). p.channel == c))
        (get-empty {V = PendingRelayRequest} key)

fail_relay-IsReleased :
    (key : Identity) (c : ℕ) (x : BrokerError) (s : RelaySession)
    → IsDrained s
    → IsReleased key c (fail_relay x s)
unfolding fail_relay
fail_relay-IsReleased key c x s h = emptied-IsReleased key c (fail_relay x s) (closed_pending x s h)

abandon-IsReleased :
    (key : Identity) (c : ℕ) (s : RelaySession) → IsReleased key c (abandon key c s).0
unfolding abandon abandon_found
abandon-IsReleased key c s = by_entry (get s.pending key) refl
  where
    by_entry :
        (o : Option PendingRelayRequest)
        → get s.pending key ≡ o
        → IsReleased key c (abandon_found key c s o).0
    by_entry none found = ground (arith, found)
    by_entry (some p) found =
        let P = λ (r : RelaySession × Outcome BrokerError (Unit {0})). IsReleased key c r.0 in
        let gone : IsReleased key c (given key c s) =
          ground (arith, get-remove s.pending key key) in
        if_both P (p.channel == c)
          (λ _.
            if_both P (leb max_abandoned (count (λ _ _. true) s.abandoned)) (λ _. gone) (λ _. gone))
          (λ other. ground (arith, found, other))

leave-IsReleased :
    (key : Identity) (c : ℕ) (s : RelaySession)
    → IsDrained s
    → IsReleased key c (or_fail (abandon key c s))
leave-IsReleased key c s h =
    by_result (abandon key c s) (abandon-IsReleased key c s)
      (RelayStep-IsDrained (abandon-Step (λ _. none) key c s) h)
  where
    by_result :
        (r : RelaySession × Outcome BrokerError (Unit {0}))
        → IsReleased key c r.0
        → IsDrained r.0
        → IsReleased key c (or_fail r)
    by_result (t, ok _) released h = released
    by_result (t, err x) released h = fail_relay-IsReleased key c x t h

-- A channel on which nothing waits is pending at no key.
none_waits-IsReleased :
    (key : Identity) (c : ℕ) (s : RelaySession) → waiting_on c s ≡ 0 → IsReleased key c s
none_waits-IsReleased key c s h = by_entry (get s.pending key) refl
  where
    by_entry :
        (o : Option PendingRelayRequest)
        → get s.pending key ≡ o
        → holds (λ p. p.channel == c) o ≡ false
    by_entry none found = refl
    by_entry (some p) found =
        ground (arith, count-remove-found (on_channel c) s.pending key p found, h)

answered_once :
    (c : ℕ) (result : RelayResult) (l : List (ℕ × RelayResult))
    → answer_on c l ≡ some result
    → 1 ≤ answers_on c l
unfolding answer_on
answered_once c result [] h = absurd cc
answered_once c result ((d, r) ∷ rest) h = elim (Bool-cases (d == c)) [
  | inl same ↦ ground (arith, same)
  | inr other ↦
      let later = answered_once c result rest (ground (arith, other, h)) in
      ground (arith, other, later)
]

module _ (decode : String → Option OuterEnvelope) (key : Identity) (c : ℕ) where
  -- While `forward` waits for its exchange, and where it has returned.
  Held : Exchange → RelaySession → Type 0
  Held ex s = (ex.key ≡ key) × (ex.channel ≡ c) × IsAccounted c s × IsDrained s

  others-Held :
      (others : List RelayCall) (ex : Exchange) (s : RelaySession)
      → Held ex s
      → Held ex (relay_calls decode others s)
  unfolding Held
  others-Held others ex s (same, on, accounted, drained) = (
    same,
    on,
    relay_calls_keep decode (IsAccounted c) (λ s t. RelayStep-IsAccounted c) others s accounted,
    relay_calls_keep decode IsDrained (λ s t. RelayStep-IsDrained) others s drained,
  )

  passed_on-IsReleased :
      (s : RelaySession) (result : RelayResult)
      → IsAccounted c s
      → answer_on c s.answers ≡ some result
      → IsReleased key c s
  passed_on-IsReleased s result accounted found =
      let once = answered_once c result s.answers found in
      none_waits-IsReleased key c s (only _ _ _ _ once accounted)
    where
      only : (w a g : ℕ) (b : Bool) → 1 ≤ a → w + (a + g) ≡ one_if b → w ≡ 0
      only w a g b once total = ground (arith, once, total)

  step-IsReleased :
      (ex : Exchange) (s : RelaySession) (r : RelaySession × ForwardTurn)
      → ForwardStep ex s r
      → Held ex s
      → Ends Held (λ _ t _. IsReleased key c t) r
  unfolding Held
  step-IsReleased ex s _ (continues ex' key' channel' budget) (same, on, accounted, drained) =
      (key' ∙ same, channel' ∙ on, accounted, drained)
  step-IsReleased ex s _ (fails_with x ex' budget) (same, on, accounted, drained) =
      fail_relay-IsReleased key c x s drained
  step-IsReleased ex s _ (answers result found) (same, on, accounted, drained) =
      passed_on-IsReleased s result accounted (ap (λ d. answer_on d s.answers) (sym on) ∙ found)
  step-IsReleased ex s _ (leaves x ex' t failing budget) (same, on, accounted, drained) =
      subst (λ k. IsReleased key c (or_fail (abandon k ex.channel t))) (sym same)
        (subst (λ d. IsReleased key c (or_fail (abandon key d t))) (sym on)
          (leave-IsReleased key c t
            (may_fail_keeps decode IsDrained (λ s t. RelayStep-IsDrained) failing drained)))

unused-IsReleased :
    (key : Identity) (s : RelaySession)
    → IsAccounted (length s.made) s
    → IsReleased key (length s.made) s
unused-IsReleased key s accounted =
    none_waits-IsReleased key (length s.made) s (none_yet _ _ (length s.made) accounted)
  where
    none_yet : (w r n : ℕ) → w + r ≡ one_if (ltb n n) → w ≡ 0
    none_yet w r n h = ground (arith, h)

module _ (decode : String → Option OuterEnvelope) (calls : List RelayCall) where
  abbrev reached : RelaySession
  reached = relay_calls decode calls new_relay_session

  reached-IsAccounted : (c : ℕ) → IsAccounted c reached
  reached-IsAccounted c =
      relay_calls_keep decode (IsAccounted c) (λ s t. RelayStep-IsAccounted c) calls
        new_relay_session (new_accounts c)

  reached-IsDrained : IsDrained reached
  reached-IsDrained =
      relay_calls_keep decode IsDrained (λ s t. RelayStep-IsDrained) calls new_relay_session
        new-IsDrained

  -- When `forward` returns, whatever others did to the session before and meanwhile: what is pending
  -- under the key of its request, if anything, waits on another channel than the one that `forward` got.
  pub forward-IsReleased :
      (events : List (List RelayCall × Event)) (cancellable : Bool) (request : OuterEnvelope)
      (t : RelaySession) (ex : Exchange) (result : RelayResult)
      → forward decode events cancellable request reached ≡ (t, returned ex result)
      → holds (λ p. p.channel == length reached.made) (get t.pending (relay_key request)) ≡ false
  forward-IsReleased events cancellable request t ex result h =
      let key = relay_key request in
      let c = length reached.made in
      let step = register-Step decode request reached in
      subst (Ends (Held decode key c) (λ _ t _. IsReleased key c t)) h (
        forward_keep (Held decode key c) (λ _ t _. IsReleased key c t) decode cancellable request
          reached (others-Held decode key c) (step-IsReleased decode key c)
          (λ x. unused-IsReleased key reached (reached-IsAccounted c))
          (λ same.
            unfold Held in
            (
              refl,
              refl,
              subst (IsAccounted c) same (RelayStep-IsAccounted c step (reached-IsAccounted c)),
              subst IsDrained same (RelayStep-IsDrained step reached-IsDrained),
            ))
          events)
