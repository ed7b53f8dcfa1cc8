-- ===== src/Broker/Relay/Steps.antt =====
-- internal/egobrowser/broker.go: what a call on a relay session can do to it.
use agent_remote_node.Prelude.{
  ℕ, String, true, false, not, Outcome, ok, err, ◌==◌, nat_Eq, leb, ltb, Option, none, some,
  is_some, List, [], ◌∷◌, ◌++◌, ◌≡◌, refl, sym, ap, if_both, len, ◌||◌, arith,
}
use agent_remote_node.Prelude.Map.{Map, empty, get, put, entries, count}
use agent_remote_node.Broker.Texts.{BrokerError, protocol}
use agent_remote_node.Broker.Requests.{Identity}
use agent_remote_node.Broker.Relay.Envelope.{
  OuterEnvelope, relay_key, identity_Eq, default_max_payload_bytes, validate_relay_response,
  validate_relay_response_shape,
}
use agent_remote_node.Broker.Relay.Session.{
  PendingRelayRequest, delivered, Closing, still_open, closed, closes, RelaySession, is_open,
  registered, register, max_abandoned, given, remembered, abandon_found, abandon, passed_on,
  deliver_checked, deliver_found, deliver, start_close, closing_results, finish_close, Reception,
  broken, message, RelayCall, registers, abandons, receives, starts_close, finishes_close, failure,
  receive_shaped, receive_decoded, receive, relay_call, relay_calls,
}

-- `closeWithError` after it took the lock.
abbrev pub drained : BrokerError → RelaySession → RelaySession
drained reason s = record s {
  pending = empty;
  abandoned = empty;
  closing = closed;
  answers = closing_results reason (entries s.pending) ++ s.answers;
}

module _ (decode : String → Option OuterEnvelope) where
  -- The ways in which a session changes: only the keys it remembers as abandoned; it begins to close;
  -- an exchange is added, given up, or answered by a frame that was checked against its request; or
  -- what waits is failed.
  pub data RelayStep (s t : RelaySession) : Type 0 where
    stays : (gone : Map Identity (Unit {0})) → t ≡ record s { abandoned = gone } → RelayStep s t
    begins_close :
        (reason : BrokerError)
        → is_open s.closing ≡ true
        → t ≡ record s { closing = closes reason }
        → RelayStep s t
    adds :
        (request : OuterEnvelope)
        → is_open s.closing ≡ true
        → get s.pending (relay_key request) ≡ none
        → t ≡ registered request s
        → RelayStep s t
    gives_up :
        (key : Identity) (p : PendingRelayRequest) (gone : Map Identity (Unit {0}))
        → get s.pending key ≡ some p
        → t ≡ record (given key p.channel s) { abandoned = gone }
        → RelayStep s t
    answers_with :
        (response : OuterEnvelope) (frame : String) (p : PendingRelayRequest)
        → get s.pending (relay_key response) ≡ some p
        → decode frame ≡ some response
        → validate_relay_response response p.request ≡ ok tt
        → t ≡ passed_on (relay_key response) p.channel (delivered frame) s
        → RelayStep s t
    ends : (reason : BrokerError) → t ≡ drained reason s → RelayStep s t

  nothing : (s : RelaySession) → RelayStep s s
  nothing s = stays s.abandoned refl

  pub register-Step :
      (request : OuterEnvelope) (s : RelaySession) → RelayStep s (register request s).0
  unfolding register
  register-Step request s =
      let P = λ (r : RelaySession × Outcome BrokerError ℕ). RelayStep s r.0 in
      if_both P (not (is_open s.closing)) (λ _. nothing s)
        (λ opened.
          if_both P (is_some (get s.pending (relay_key request))) (λ _. nothing s)
            (λ free.
              if_both P (is_some (get s.abandoned (relay_key request))) (λ _. nothing s)
                (λ _.
                  adds request (ground (arith, opened))
                    (absent (get s.pending (relay_key request)) free) refl)))
    where
      absent : {A : Type 0} (o : Option A) → is_some o ≡ false → o ≡ none
      absent none q = refl
      absent (some a) q = cc

  pub abandon-Step :
      (key : Identity) (channel : ℕ) (s : RelaySession) → RelayStep s (abandon key channel s).0
  unfolding abandon abandon_found
  abandon-Step key channel s = by_entry (get s.pending key) refl
    where
      by_entry :
          (o : Option PendingRelayRequest)
          → get s.pending key ≡ o
          → RelayStep s (abandon_found key channel s o).0
      by_entry none found = nothing s
      by_entry (some p) found =
          let P = λ (r : RelaySession × Outcome BrokerError (Unit {0})). RelayStep s r.0 in
          if_both P (p.channel == channel)
            (λ same.
              let this =
                ap (λ d. given key d s) (sym ((nat_Eq.eqb_iff p.channel channel).0 same)) in
              if_both P (leb max_abandoned (count (λ _ _. true) s.abandoned))
                (λ _. gives_up key p s.abandoned found this)
                (λ _. gives_up key p (put s.abandoned key tt) found (ap (remembered key) this)))
            (λ _. nothing s)

  pub close-Step : (reason : BrokerError) (s : RelaySession) → RelayStep s (start_close reason s)
  unfolding start_close
  close-Step reason s =
      if_both (RelayStep s) (is_open s.closing) (λ opened. begins_close reason opened refl)
        (λ _. nothing s)

  deliver-Step :
      (response : OuterEnvelope) (frame : String) (s : RelaySession)
      → decode frame ≡ some response
      → RelayStep s (failure (deliver response frame s))
  unfolding deliver deliver_found
  deliver-Step response frame s decoded =
      if_both (λ (r : RelaySession × Outcome BrokerError (Unit {0})). RelayStep s (failure r))
        (is_some (get s.abandoned (relay_key response))) (λ _. stays _ refl)
        (λ _. by_entry (get s.pending (relay_key response)) refl)
    where
      checked :
          (p : PendingRelayRequest) (v : Outcome BrokerError (Unit {0}))
          → get s.pending (relay_key response) ≡ some p
          → validate_relay_response response p.request ≡ v
          → RelayStep s (failure (deliver_checked (relay_key response) frame s p.channel v))
      checked p (err x) found valid = close-Step x s
      checked p (ok _) found valid = answers_with response frame p found decoded valid refl

      by_entry :
          (o : Option PendingRelayRequest)
          → get s.pending (relay_key response) ≡ o
          → RelayStep s (failure (deliver_found response frame s o))
      by_entry none found = close-Step protocol s
      by_entry (some p) found = checked p (validate_relay_response response p.request) found refl

  pub finish-Step : (s : RelaySession) → RelayStep s (finish_close s)
  unfolding finish_close
  finish-Step s = by_closing s.closing
    where
      by_closing :
          (x : Closing)
          → RelayStep s (elim x [ still_open ↦ s | closed ↦ s | closes reason ↦ drained reason s ])
      by_closing still_open = nothing s
      by_closing closed = nothing s
      by_closing (closes reason) = ends reason refl

  receive-Step : (r : Reception) (s : RelaySession) → RelayStep s (receive decode r s)
  unfolding receive receive_decoded receive_shaped
  receive-Step (broken x) s = close-Step x s
  receive-Step (message frame) s =
      if_both (RelayStep s) (len frame == 0 || ltb default_max_payload_bytes (len frame))
        (λ _. close-Step protocol s) (λ _. by_text (decode frame) refl)
    where
      by_shape :
          (response : OuterEnvelope) (v : Outcome BrokerError (Unit {0}))
          → decode frame ≡ some response
          → RelayStep s (receive_shaped decode response frame s v)
      by_shape response (err x) decoded = close-Step x s
      by_shape response (ok _) decoded = deliver-Step response frame s decoded

      by_text :
          (o : Option OuterEnvelope)
          → decode frame ≡ o
          → RelayStep s (receive_decoded decode frame s o)
      by_text none decoded = close-Step protocol s
      by_text (some response) decoded =
          by_shape response (validate_relay_response_shape response) decoded

  relay_call-Step : (call : RelayCall) (s : RelaySession) → RelayStep s (relay_call decode call s)
  unfolding relay_call
  relay_call-Step (registers request) s = register-Step request s
  relay_call-Step (abandons key channel) s = abandon-Step key channel s
  relay_call-Step (receives r) s = receive-Step r s
  relay_call-Step (starts_close reason) s = close-Step reason s
  relay_call-Step finishes_close s = finish-Step s

  -- What every step keeps, every list of calls keeps.
  pub relay_calls_keep :
      (P : RelaySession → Type 0)
      → ((s t : RelaySession) → RelayStep s t → P s → P t)
      → (calls : List RelayCall) (s : RelaySession) → P s
      → P (relay_calls decode calls s)
  unfolding relay_calls
  relay_calls_keep P step [] s h = h
  relay_calls_keep P step (call ∷ rest) s h =
      relay_calls_keep P step rest (relay_call decode call s)
        (step s (relay_call decode call s) (relay_call-Step call s) h)
