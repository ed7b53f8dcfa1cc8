-- ===== src/Broker/Relay/Replies.antt =====
-- internal/egobrowser/broker.go: the frame that `forward` returns answers its request.
use mathlib.Core.List.{Memᴰ}
use agent_remote_node.Prelude.{
  ℕ, ◌<◌, String, Bool, ok, ◌==◌, nat_Eq, Option, some, List, [], ◌∷◌, ◌≡◌, refl, sym, ap, ◌∙◌,
  subst, arith, ◌⊎◌, Bool-cases, inl, inr, length,
}
use agent_remote_node.Broker.Relay.Envelope.{OuterEnvelope, validate_relay_response}
use agent_remote_node.Broker.Relay.Session.{
  RelayResult, delivered, failed, RelaySession, registered, register, RelayCall, relay_calls,
  new_relay_session,
}
use agent_remote_node.Broker.Relay.Steps.{
  RelayStep, stays, begins_close, adds, gives_up, answers_with, ends, register-Step,
  relay_calls_keep,
}
use agent_remote_node.Broker.Relay.Answers.{Requests, IsMatched, RelayStep-IsMatched, new-IsMatched}
use agent_remote_node.Broker.Relay.Forward.{
  Exchange, Event, ForwardTurn, returned, answer_on, forward, registered_as,
}
use agent_remote_node.Broker.Relay.Events.{
  ForwardStep, continues, fails_with, answers, leaves, Ends, forward_keep,
}

-- Channels are numbered in the order in which they were made.
IsNumbered : Requests → Type 0
IsNumbered [] = Unit {0}
IsNumbered ((c, request) ∷ rest) = (c ≡ length rest) × IsNumbered rest

numbered_below :
    (made : Requests) (c : ℕ) (request : OuterEnvelope)
    → IsNumbered made
    → Memᴰ (c, request) made
    → c < length made
unfolding IsNumbered
numbered_below [] c request _ there = elim there [ ]
numbered_below ((d, r) ∷ rest) c request (next, numbered) (Memᴰ.head same) =
    let here = ap (λ (x : ℕ × OuterEnvelope). x.0) same in ground (arith, here, next)
numbered_below ((d, r) ∷ rest) c request (next, numbered) (Memᴰ.tail there) =
    let below = numbered_below rest c request numbered there in ground (arith, below)

-- So that a channel has one request.
numbered_once :
    (made : Requests) (c : ℕ) (r q : OuterEnvelope)
    → IsNumbered made
    → Memᴰ (c, r) made
    → Memᴰ (c, q) made
    → r ≡ q
unfolding IsNumbered
numbered_once [] c r q _ there _ = elim there [ ]
numbered_once (x ∷ rest) c r q (next, numbered) (Memᴰ.head here) (Memᴰ.head also) =
    ap (λ (y : ℕ × OuterEnvelope). y.1) (here ∙ sym also)
numbered_once (x ∷ rest) c r q (next, numbered) (Memᴰ.head here) (Memᴰ.tail there) = absurd (
    ground (
      arith,
      ap (λ (y : ℕ × OuterEnvelope). y.0) here,
      next,
      numbered_below rest c q numbered there,
    ))
numbered_once (x ∷ rest) c r q (next, numbered) (Memᴰ.tail there) (Memᴰ.head here) = absurd (
    ground (
      arith,
      ap (λ (y : ℕ × OuterEnvelope). y.0) here,
      next,
      numbered_below rest c r numbered there,
    ))
numbered_once (x ∷ rest) c r q (next, numbered) (Memᴰ.tail there) (Memᴰ.tail also) =
    numbered_once rest c r q numbered there also

made_step :
    {decode : String → Option OuterEnvelope} {s t : RelaySession}
    → RelayStep decode s t
    → (t.made ≡ s.made) ⊎ ((request : OuterEnvelope) × (t.made ≡ (length s.made, request) ∷ s.made))
made_step (stays gone e) = inl (ap (λ u. u.made) e)
made_step (begins_close reason opened e) = inl (ap (λ u. u.made) e)
made_step (adds request opened free e) = inr (request, ap (λ u. u.made) e)
made_step (gives_up key p gone found e) = inl (ap (λ u. u.made) e)
made_step (answers_with response frame p found decoded valid e) = inl (ap (λ u. u.made) e)
made_step (ends reason e) = inl (ap (λ u. u.made) e)

RelayStep-IsNumbered :
    {decode : String → Option OuterEnvelope} {s t : RelaySession}
    → RelayStep decode s t
    → IsNumbered s.made
    → IsNumbered t.made
unfolding IsNumbered
RelayStep-IsNumbered step h = elim (made_step step) [
  | inl same ↦ subst IsNumbered (sym same) h
  | inr (request, more) ↦ subst IsNumbered (sym more) (refl, h)
]

RelayStep-made :
    {decode : String → Option OuterEnvelope} {x : ℕ × OuterEnvelope} {s t : RelaySession}
    → RelayStep decode s t
    → Memᴰ x s.made
    → Memᴰ x t.made
RelayStep-made {x = x} step h = elim (made_step step) [
  | inl same ↦ subst (Memᴰ x) (sym same) h
  | inr (request, more) ↦ subst (Memᴰ x) (sym more) (Memᴰ.tail h)
]

found_answer :
    (c : ℕ) (result : RelayResult) (l : List (ℕ × RelayResult))
    → answer_on c l ≡ some result
    → Memᴰ (c, result) l
unfolding answer_on
found_answer c result [] h = absurd cc
found_answer c result ((d, r) ∷ rest) h = elim (Bool-cases (d == c)) [
  | inl same ↦ Memᴰ.head (ground (arith, same, h))
  | inr other ↦ Memᴰ.tail (found_answer c result rest (ground (arith, other, h)))
]

-- A frame with the response that it decodes to, which passed the check against the request.
pub record Reply (decode : String → Option OuterEnvelope) (request : OuterEnvelope) (frame : String)
    : Type 0 where
  pub response : OuterEnvelope
  pub decodes : decode frame ≡ some response
  pub checked : validate_relay_response response request ≡ ok tt

module _ (decode : String → Option OuterEnvelope) (request : OuterEnvelope) where
  abbrev Replies : RelayResult → Type 0
  Replies (delivered frame) = Reply decode request frame
  Replies (failed x) = Unit {0}

  -- While `forward` waits on the channel of its request.
  Asked : Exchange → RelaySession → Type 0
  Asked ex s = Memᴰ (ex.channel, request) s.made × IsNumbered s.made × IsMatched decode s

  others-Asked :
      (others : List RelayCall) (ex : Exchange) (s : RelaySession)
      → Asked ex s
      → Asked ex (relay_calls decode others s)
  unfolding Asked
  others-Asked others ex s (asked, numbered, matched) = (
    relay_calls_keep decode (λ t. Memᴰ (ex.channel, request) t.made) (λ s t. RelayStep-made) others
        s asked,
    relay_calls_keep decode (λ t. IsNumbered t.made) (λ s t. RelayStep-IsNumbered) others s
        numbered,
    relay_calls_keep decode (IsMatched decode) (RelayStep-IsMatched decode) others s matched,
  )

  answer-Replies :
      (c : ℕ) (s : RelaySession) (result : RelayResult)
      → Memᴰ (c, request) s.made
      → IsNumbered s.made
      → IsMatched decode s
      → answer_on c s.answers ≡ some result
      → Replies result
  answer-Replies c s (failed x) asked numbered matched found = tt
  answer-Replies c s (delivered frame) asked numbered matched found =
      let a = matched.1 c frame (found_answer c (delivered frame) s.answers found) in
      record {
        response = a.response;
        decodes = a.decodes;
        checked =
            subst (λ r. validate_relay_response a.response r ≡ ok tt)
              (numbered_once s.made c a.request request numbered a.requested asked) a.checked;
      }

  step-Replies :
      (ex : Exchange) (s : RelaySession) (r : RelaySession × ForwardTurn)
      → ForwardStep ex s r
      → Asked ex s
      → Ends Asked (λ _ _ result. Replies result) r
  unfolding Asked
  step-Replies ex s _ (continues ex' key channel budget) (asked, numbered, matched) =
      (subst (λ c. Memᴰ (c, request) s.made) (sym channel) asked, numbered, matched)
  step-Replies ex s _ (fails_with x ex' budget) asked = tt
  step-Replies ex s _ (answers result found) (asked, numbered, matched) =
      answer-Replies ex.channel s result asked numbered matched found
  step-Replies ex s _ (leaves x ex' t failing budget) asked = tt

new-IsNumbered : IsNumbered new_relay_session.made
unfolding IsNumbered new_relay_session
new-IsNumbered = tt

module _ (decode : String → Option OuterEnvelope) (calls : List RelayCall) where
  abbrev reached : RelaySession
  reached = relay_calls decode calls new_relay_session

  reached-Asked :
      (cancellable : Bool) (request : OuterEnvelope)
      → (register request reached).0 ≡ registered request reached
      → Asked decode request
          (registered_as cancellable request (length reached.made))
          (registered request reached)
  unfolding Asked IsNumbered
  reached-Asked cancellable request same = (
    Memᴰ.head refl,
    (
      refl,
      relay_calls_keep decode (λ t. IsNumbered t.made) (λ s t. RelayStep-IsNumbered) calls
          new_relay_session new-IsNumbered,
    ),
    subst (IsMatched decode) same (
        RelayStep-IsMatched decode reached _ (register-Step decode request reached) (
          relay_calls_keep decode (IsMatched decode) (RelayStep-IsMatched decode) calls
            new_relay_session (new-IsMatched decode))),
  )

  -- A frame that `forward` returns decodes to a response that passed the check against the very request
  -- that was forwarded, whatever others did to the session before and meanwhile.
  pub forward-Reply :
      (events : List (List RelayCall × Event)) (cancellable : Bool) (request : OuterEnvelope)
      (t : RelaySession) (ex : Exchange) (frame : String)
      → forward decode events cancellable request reached ≡ (t, returned ex (delivered frame))
      → Reply decode request frame
  forward-Reply events cancellable request t ex frame h =
      subst (Ends (Asked decode request) (λ _ _ result. Replies decode request result)) h (
        forward_keep (Asked decode request) (λ _ _ result. Replies decode request result) decode
          cancellable request reached (others-Asked decode request) (step-Replies decode request)
          (λ x. tt) (reached-Asked cancellable request) events)
