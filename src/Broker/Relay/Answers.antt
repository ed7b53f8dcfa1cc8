-- ===== src/Broker/Relay/Answers.antt =====
-- internal/egobrowser/broker.go: a frame reaches only the caller whose request it answers.
use mathlib.Core.List.{Memᴰ}
use mathlib.Core.Option.{some_inj}
use agent_remote_node.Prelude.{
  ℕ, String, ok, Option, some, List, [], ◌∷◌, ◌++◌, length, ◌≡◌, sym, ap, arith, subst, ◌==◌,
  Bool-cases, inl, inr, ◌≢◌,
}
use agent_remote_node.Prelude.Map.{
  Map, empty, get, put, remove, entries, get-empty, get-remove, get-put,
}
use agent_remote_node.Broker.Texts.{BrokerError}
use agent_remote_node.Broker.Requests.{Identity}
use agent_remote_node.Broker.Relay.Envelope.{
  OuterEnvelope, relay_key, identity_Eq, validate_relay_response,
}
use agent_remote_node.Broker.Relay.Session.{
  PendingRelayRequest, RelayResult, delivered, failed, RelaySession, new_relay_session,
  closing_results, RelayCall, relay_calls,
}
use agent_remote_node.Broker.Relay.Steps.{
  RelayStep, stays, begins_close, adds, gives_up, answers_with, ends, relay_calls_keep,
}

-- A result's frame.
abbrev content : ℕ × RelayResult → ℕ × String
content (c, delivered f) = (c, f)
content (c, failed x) = (c, "")

delivered≢failed : {f : String} {x : BrokerError} → delivered f ≢ failed x
delivered≢failed h = cc

abbrev pub Requests : Type 0
Requests = List (ℕ × OuterEnvelope)

module _ (decode : String → Option OuterEnvelope) where
  -- The frame decodes to a response that was checked against a request made on the channel.
  pub record Answers (made : Requests) (channel : ℕ) (frame : String) : Type 0 where
    pub request : OuterEnvelope
    pub response : OuterEnvelope
    pub requested : Memᴰ (channel, request) made
    pub decodes : decode frame ≡ some response
    pub checked : validate_relay_response response request ≡ ok tt

  -- What waits was requested on its channel.
  abbrev pub Waits : Requests → Map Identity PendingRelayRequest → Type 0
  Waits made m =
      (key : Identity) (p : PendingRelayRequest)
      → get m key ≡ some p
      → Memᴰ (p.channel, p.request) made

  abbrev pub AllAnswer : Requests → List (ℕ × RelayResult) → Type 0
  AllAnswer made answers =
      (channel : ℕ) (frame : String)
      → Memᴰ (channel, delivered frame) answers
      → Answers made channel frame

  Answers-later :
      {made : Requests} {channel : ℕ} {frame : String} (x : ℕ × OuterEnvelope)
      → Answers made channel frame
      → Answers (x ∷ made) channel frame
  Answers-later x a = record {
    request = a.request;
    response = a.response;
    requested = Memᴰ.tail a.requested;
    decodes = a.decodes;
    checked = a.checked;
  }

  abbrev pub IsMatched : RelaySession → Type 0
  IsMatched s = Waits s.made s.pending × AllAnswer s.made s.answers

  Waits-remove :
      (made : Requests) (m : Map Identity PendingRelayRequest) (gone : Identity)
      → Waits made m
      → Waits made (remove m gone)
  Waits-remove made m gone h key p found = h key p (ground (arith, get-remove m gone key, found))

  Waits-put :
      (made : Requests) (m : Map Identity PendingRelayRequest) (k : Identity)
      (q : PendingRelayRequest)
      → Waits made m
      → Waits ((q.channel, q.request) ∷ made) (put m k q)
  Waits-put made m k q h key p found = elim (Bool-cases (k == key)) [
    | inl same ↦ Memᴰ.head (
        ap (λ (x : PendingRelayRequest). (x.channel, x.request))
          (some_inj.0 (ground (arith, get-put m k q key, found, same))))
    | inr differ ↦ Memᴰ.tail (h key p (ground (arith, get-put m k q key, found, differ)))
  ]

  AllAnswer-closing_results :
      (made : Requests) (reason : BrokerError) (l : List (Identity × PendingRelayRequest))
      (answers : List (ℕ × RelayResult))
      → AllAnswer made answers
      → AllAnswer made (closing_results reason l ++ answers)
  AllAnswer-closing_results made reason [] answers h channel frame there = h channel frame there
  AllAnswer-closing_results made reason ((key, p) ∷ rest) answers h channel frame (Memᴰ.head same) =
      absurd (delivered≢failed (ap (λ x. x.1) same))
  AllAnswer-closing_results made reason ((key, p) ∷ rest) answers h channel frame
        (Memᴰ.tail there) =
      AllAnswer-closing_results made reason rest answers h channel frame there

  AllAnswer-more :
      (made : Requests) (c : ℕ) (f : String) (answers : List (ℕ × RelayResult))
      → Answers made c f
      → AllAnswer made answers
      → AllAnswer made ((c, delivered f) ∷ answers)
  AllAnswer-more made c f answers a h channel frame (Memᴰ.head same) =
      subst (λ x. Answers made x.0 x.1) (sym (ap content same)) a
  AllAnswer-more made c f answers a h channel frame (Memᴰ.tail there) = h channel frame there

  pub RelayStep-IsMatched : (s t : RelaySession) → RelayStep decode s t → IsMatched s → IsMatched t
  unfolding empty entries
  RelayStep-IsMatched s t (stays gone e) h = subst IsMatched (sym e) h
  RelayStep-IsMatched s t (begins_close reason opened e) h = subst IsMatched (sym e) h
  RelayStep-IsMatched s t (adds request opened free e) h = subst IsMatched (sym e) (
    Waits-put s.made s.pending (relay_key request)
        (record { request = request; channel = length s.made }) h.0,
    λ channel frame there. Answers-later _ (h.1 channel frame there),
  )
  RelayStep-IsMatched s t (gives_up key p gone found e) h =
      subst IsMatched (sym e) (Waits-remove s.made s.pending key h.0, h.1)
  RelayStep-IsMatched s t (answers_with response frame p found decoded valid e) h =
      subst IsMatched (sym e) (
        Waits-remove s.made s.pending (relay_key response) h.0,
        AllAnswer-more s.made p.channel frame s.answers
            (record {
              request = p.request;
              response = response;
              requested = h.0 (relay_key response) p found;
              decodes = decoded;
              checked = valid;
            })
            h.1,
      )
  RelayStep-IsMatched s t (ends reason e) h = subst IsMatched (sym e) (
    λ key p found. absurd (ground (arith, get-empty {V = PendingRelayRequest} key, found)),
    AllAnswer-closing_results s.made reason (entries s.pending) s.answers h.1,
  )

  pub new-IsMatched : IsMatched new_relay_session
  unfolding new_relay_session
  new-IsMatched = (
    λ key p found. absurd (ground (arith, get-empty {V = PendingRelayRequest} key, found)),
    λ channel frame there. elim there [ ],
  )

-- However the calls on a new relay session follow each other, a frame that was sent on a channel decodes
-- to a response that passed the check against a request registered on that very channel: it names the
-- same request, binding, generation and sequence.
pub relay_calls-Answers :
    (decode : String → Option OuterEnvelope) (calls : List RelayCall) (channel : ℕ) (frame : String)
    → Memᴰ (channel, delivered frame) (relay_calls decode calls new_relay_session).answers
    → Answers decode (relay_calls decode calls new_relay_session).made channel frame
relay_calls-Answers decode calls channel frame there =
    (relay_calls_keep decode (IsMatched decode) (RelayStep-IsMatched decode) calls new_relay_session
        (new-IsMatched decode)).1
      channel frame there
