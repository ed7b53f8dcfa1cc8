-- ===== src/Broker/Relay/Ended.antt =====
-- internal/egobrowser/broker.go: every exchange over a relay connection ends once.
use agent_remote_node.Prelude.{
  ℕ, suc, ◌+◌, String, Bool, ◌==◌, nat_Eq, ltb, Option, List, [], ◌∷◌, ◌++◌, length, if◌then◌else◌,
  ◌≡◌, sym, arith, subst,
}
use agent_remote_node.Prelude.Map.{empty, entries, count, count-remove-found, count_pairs}
use agent_remote_node.Prelude.Counts.{count-put-absent}
use agent_remote_node.Broker.Texts.{BrokerError}
use agent_remote_node.Broker.Requests.{Identity}
use agent_remote_node.Broker.Relay.Envelope.{OuterEnvelope, relay_key, identity_Eq}
use agent_remote_node.Broker.Relay.Steps.{
  RelayStep, stays, begins_close, adds, gives_up, answers_with, ends, relay_calls_keep,
}
use agent_remote_node.Broker.Relay.Session.{
  PendingRelayRequest, RelayResult, RelaySession, new_relay_session, closing_results, RelayCall,
  relay_calls,
}

abbrev pub on_channel : ℕ → Identity → PendingRelayRequest → Bool
on_channel c key p = p.channel == c

abbrev pub one_if : Bool → ℕ
one_if b = if b then 1 else 0

-- How many exchanges wait on a channel, how many results were sent on it, and how often its caller
-- stopped waiting.
abbrev pub waiting_on : ℕ → RelaySession → ℕ
waiting_on c s = count (on_channel c) s.pending

abbrev pub answers_on : ℕ → List (ℕ × RelayResult) → ℕ
answers_on c [] = 0
answers_on c ((d, result) ∷ rest) = one_if (d == c) + answers_on c rest

abbrev pub given_on : ℕ → List ℕ → ℕ
given_on c [] = 0
given_on c (d ∷ rest) = one_if (d == c) + given_on c rest

abbrev pub accounts : ℕ → RelaySession → ℕ
accounts c s = waiting_on c s + (answers_on c s.answers + given_on c s.given_up)

abbrev pub IsAccounted : ℕ → RelaySession → Type 0
IsAccounted c s = accounts c s ≡ one_if (ltb c (length s.made))

closing_results_on :
    (c : ℕ) (reason : BrokerError) (l : List (Identity × PendingRelayRequest))
    (a : List (ℕ × RelayResult))
    → answers_on c (closing_results reason l ++ a) ≡ count_pairs (on_channel c) l + answers_on c a
unfolding count_pairs
closing_results_on c reason [] a = ground arith
closing_results_on c reason ((key, p) ∷ rest) a = ground (arith, closing_results_on c reason rest a)

module _ (c : ℕ) where
  -- A new channel is the next number.
  one_more :
      (w rest n w' : ℕ)
      → w' ≡ w + one_if (n == c)
      → w + rest ≡ one_if (ltb c n)
      → w' + rest ≡ one_if (ltb c (suc n))
  one_more w rest n w' q h = ground (arith, q, h)

  -- What leaves the exchanges that wait is counted where it goes.
  moved_to : (w w' a g x total : ℕ) → w ≡ w' + x → w + (a + g) ≡ total → w' + ((x + a) + g) ≡ total
  moved_to w w' a g x total q h = ground (arith, q, h)

  given_to : (w w' a g x total : ℕ) → w ≡ w' + x → w + (a + g) ≡ total → w' + (a + (x + g)) ≡ total
  given_to w w' a g x total q h = ground (arith, q, h)

  pub RelayStep-IsAccounted :
      {decode : String → Option OuterEnvelope} {s t : RelaySession}
      → RelayStep decode s t
      → IsAccounted c s
      → IsAccounted c t
  unfolding empty entries count
  RelayStep-IsAccounted (stays gone e) h = subst (IsAccounted c) (sym e) h
  RelayStep-IsAccounted (begins_close reason opened e) h = subst (IsAccounted c) (sym e) h
  RelayStep-IsAccounted {s = s} (adds request opened free e) h =
      let more =
        count-put-absent (on_channel c) s.pending (relay_key request)
          (record { request = request; channel = length s.made }) free in
      subst (IsAccounted c) (sym e) (
        one_more (waiting_on c s) (answers_on c s.answers + given_on c s.given_up) (length s.made) _
          more h)
  RelayStep-IsAccounted {s = s} (gives_up key p gone found e) h = subst (IsAccounted c) (sym e) (
      given_to (waiting_on c s) _ (answers_on c s.answers) (given_on c s.given_up)
        (one_if (p.channel == c)) _ (count-remove-found (on_channel c) s.pending key p found) h)
  RelayStep-IsAccounted {s = s} (answers_with response frame p found decoded valid e) h =
      subst (IsAccounted c) (sym e) (
        moved_to (waiting_on c s) _ (answers_on c s.answers) (given_on c s.given_up)
          (one_if (p.channel == c)) _
          (count-remove-found (on_channel c) s.pending (relay_key response) p found) h)
  RelayStep-IsAccounted {s = s} (ends reason e) h =
      subst (IsAccounted c) (sym e)
        (ground (arith, closing_results_on c reason s.pending.pairs s.answers, h))

pub new_accounts : (c : ℕ) → IsAccounted c new_relay_session
unfolding new_relay_session empty count count_pairs
new_accounts c = ground arith

-- However the calls on a new relay session follow each other, a channel that was registered has
-- exactly one of: its exchange waits, one result was sent on it, or its caller gave up once. A channel
-- that was not registered has none.
pub relay_calls-accounts :
    (decode : String → Option OuterEnvelope) (calls : List RelayCall) (c : ℕ)
    → accounts c (relay_calls decode calls new_relay_session)
      ≡ one_if (ltb c (length (relay_calls decode calls new_relay_session).made))
relay_calls-accounts decode calls c =
    relay_calls_keep decode (IsAccounted c) (λ s t. RelayStep-IsAccounted c) calls new_relay_session
      (new_accounts c)
