-- ===== src/Broker/Pairs.antt =====
-- Every method keeps sessions and capabilities in pairs.
use agent_remote_node.Prelude.{
  ℕ, String, ◌≡◌, refl, sym, ap, ◌∙◌, Bool, true, false, not, ◌||◌, Outcome, ok, err, Option, none,
  some, List, [], ◌∷◌, if_both, arith, ◌==◌, string_Eq, nat_Eq, Bool-cases, Option-cases, subst,
  is_some, all, inl, inr, holds,
}
use agent_remote_node.Prelude.Map.{Map, get, remove, get-put, get-empty, empty, entries}
use agent_remote_node.Broker.Texts.{BrokerError}
use agent_remote_node.Broker.State.{
  Config, Broker, new_broker, prune_expired_permits, release_request, text_at,
}
use agent_remote_node.Broker.Sessions.{
  Answer, session_nonce, nonce_session, draw_nonce, with_nonce, check_session, register_checked,
  register_tool_session, commit_peer, unregister_tool_session, not_registered, forgotten,
  reload_tool_session,
}
use agent_remote_node.Broker.Bindings.{reload}
use agent_remote_node.Broker.Requests.{finish_request_forward}
use agent_remote_node.Broker.Run.{
  Op, registers, authorizes, unregisters, reloads_session, sets_bindings, revokes, expires, reloads,
  fails_renewal, renews, issues, consumes, cancels, releases, marks_sent, finishes, prunes, closes,
  restarts, after_register, restarted, step, run,
}
use agent_remote_node.Broker.Capabilities.{ArePaired, IsPaired, add-ArePaired, remove-ArePaired}
use agent_remote_node.Broker.Untouched.{
  Same-IsPaired, set_bindings-Same, revoke-Same, expire-Same, failure-Same, renew-Same, issue-Same,
  consume-Same, cancel-Same, sent-Same, clear_session-Same, reload_entries-Same,
}

-- The tokens that are drawn, and that come back from a caller, are not empty.
abbrev pub is_token : Option String → Bool
is_token none = true
is_token (some n) = not (n == "")

abbrev pub draws_tokens : Op → Bool
draws_tokens (registers draws t) = all is_token draws
draws_tokens (authorizes t n uid) = not (n == "")
draws_tokens _ = true

drawn_fresh :
    (draws : List (Option String)) (taken : Map String String) (n : String)
    → all is_token draws ≡ true
    → draw_nonce draws taken ≡ some (ok n)
    → (get taken n ≡ none) × ((n == "") ≡ false)
unfolding draw_nonce
drawn_fresh [] taken n v h = cc
drawn_fresh (none ∷ draws) taken n v h = cc
drawn_fresh (some k ∷ draws) taken n v h = elim (Option-cases (get taken k)) [
  | inl free ↦
      let same : k ≡ n = ground (arith, free, h) in
      (
        subst (λ x. get taken x ≡ none) same free,
        subst (λ x. (x == "") ≡ false) same (ground (arith, v)),
      )
  | inr (u, used) ↦ drawn_fresh draws taken n (ground (arith, v)) (ground (arith, used, h))
]

no_nonce :
    (t : String) (b : Broker)
    → IsPaired b
    → (session_nonce t b == "") ≡ true
    → get b.sessions t ≡ none
no_nonce t b p h = elim (Option-cases (get b.sessions t)) [
  | inl none_there ↦ none_there
  | inr (n, found) ↦ absurd (ground (arith, found, h, p.named t n found))
]

with_nonce-IsPaired :
    (t : String) (b : Broker) (o : Option (Outcome BrokerError String))
    → IsPaired b
    → get b.sessions t ≡ none
    → ((n : String) → o ≡ some (ok n) → (get b.nonces n ≡ none) × ((n == "") ≡ false))
    → IsPaired (after_register b (with_nonce t b o))
unfolding with_nonce
with_nonce-IsPaired t b none p free f = p
with_nonce-IsPaired t b (some (err x)) p free f = p
with_nonce-IsPaired t b (some (ok n)) p free f =
    add-ArePaired b.sessions b.nonces b.peer_uids t n p free (f n refl).0 (f n refl).1

register-IsPaired :
    (draws : List (Option String)) (t : String) (b : Broker) (o : Outcome BrokerError String)
    → all is_token draws ≡ true
    → IsPaired b
    → IsPaired (after_register b (register_checked draws t b o))
unfolding register_checked
register-IsPaired draws t b (err x) v p = p
register-IsPaired draws t b (ok s) v p =
    if_both (λ (x : Option (Answer (String × Bool))). IsPaired (after_register b x)) b.closed
      (λ _. p)
      (λ _.
        if_both (λ (x : Option (Answer (String × Bool))). IsPaired (after_register b x))
          (not (session_nonce t b == "")) (λ _. p)
          (λ free.
            with_nonce-IsPaired t b (draw_nonce draws b.nonces) p
              (no_nonce t b p (ground (arith, free))) (λ n h. drawn_fresh draws b.nonces n v h)))

has_nonce :
    (t n : String) (b : Broker)
    → (n == "") ≡ false
    → (session_nonce t b == n) ≡ true
    → is_some (get b.sessions t) ≡ true
has_nonce t n b name h = elim (Option-cases (get b.sessions t)) [
  | inl gone ↦
      let eq : text_at (get b.sessions t) ≡ n = (string_Eq.eqb_iff (session_nonce t b) n).0 h in
      let blank : text_at (get b.sessions t) ≡ "" = ap text_at gone in
      cc (name, (string_Eq.eqb_iff n "").1 (sym eq ∙ blank))
  | inr (k, found) ↦ rw found refl
]

peer-IsPaired :
    (t n : String) (uid : ℕ) (b : Broker)
    → (n == "") ≡ false
    → IsPaired b
    → IsPaired (commit_peer t n uid b).0
unfolding commit_peer
peer-IsPaired t n uid b name p =
    if_both (λ (x : Answer (Unit {0})). IsPaired x.0)
      (not (session_nonce t b == n) || not (nonce_session n b == t)) (λ _. p)
      (λ fits.
        if_both (λ (x : Answer (Unit {0})). IsPaired x.0)
          (holds (λ (u : ℕ). not (u == uid)) (get b.peer_uids t)) (λ _. p)
          (λ _. record {
            there = p.there;
            back = p.back;
            named = p.named;
            peered = λ u x e. elim (Bool-cases (t == u)) [
              | inl same ↦
                  subst (λ z. is_some (get b.sessions z) ≡ true) ((string_Eq.eqb_iff t u).0 same)
                    (has_nonce t n b name (ground (arith, fits)))
              | inr differ ↦ p.peered u x (ground (arith, get-put b.peer_uids t uid u, differ, e))
            ];
          }))

forgotten-IsPaired :
    (t : String) (b : Broker) (o : Option String)
    → get b.sessions t ≡ o
    → IsPaired b
    → (text_at o == "") ≡ false
    → IsPaired (forgotten t b)
forgotten-IsPaired t b none e p h = cc
forgotten-IsPaired t b (some k) e p h =
    subst (λ x. ArePaired (remove b.sessions t) (remove b.nonces x) (remove b.peer_uids t))
      (sym (ap text_at e)) (remove-ArePaired b.sessions b.nonces b.peer_uids t k p e)

unregister-IsPaired :
    (now : ℕ) (t n : String) (b : Broker)
    → IsPaired b
    → IsPaired (unregister_tool_session now t n b).0
unfolding unregister_tool_session
unregister-IsPaired now t n b p =
    if_both (λ (x : Broker × Bool). IsPaired x.0) (not_registered t n b) (λ _. p)
      (λ known.
        Same-IsPaired (forgotten t b) _
          (clear_session-Same now t (entries b.bindings) (forgotten t b))
          (forgotten-IsPaired t b (get b.sessions t) refl p (ground (arith, known))))

new-IsPaired : (c : Config) (n : ℕ) (b : Broker) → new_broker c (ok n) ≡ ok b → IsPaired b
unfolding new_broker
new-IsPaired c n b h =
    let s : b.sessions ≡ empty = ground (arith, h) in
    let k : b.nonces ≡ empty = ground (arith, h) in
    let u : b.peer_uids ≡ empty = ground (arith, h) in
    rw (s, k, u)
      (record {
        there = λ t n e. cc (get-empty {V = String} t, e);
        back = λ n t e. cc (get-empty {V = String} n, e);
        named = λ t n e. absurd (ground (arith, get-empty {V = String} t, e));
        peered = λ t x e. absurd (ground (arith, get-empty {V = ℕ} t, e));
      })

restart-IsPaired :
    (b : Broker) (o : Outcome BrokerError Broker)
    → ((c : Broker) → o ≡ ok c → IsPaired c)
    → IsPaired b
    → IsPaired (restarted b o)
restart-IsPaired b (err x) f p = p
restart-IsPaired b (ok c) f p = f c refl

step-IsPaired : (op : Op) (b : Broker) → draws_tokens op ≡ true → IsPaired b → IsPaired (step op b)
unfolding step register_tool_session release_request finish_request_forward prune_expired_permits
    reload_tool_session reload
step-IsPaired (registers draws t) b v p = register-IsPaired draws t b (check_session t b.cfg) v p
step-IsPaired (authorizes t n uid) b v p = peer-IsPaired t n uid b (ground (arith, v)) p
step-IsPaired (unregisters now t n) b v p = unregister-IsPaired now t n b p
step-IsPaired (reloads_session now t) b v p =
    Same-IsPaired b _ (clear_session-Same now t (entries b.bindings) b) p
step-IsPaired (sets_bindings now metas) b v p = Same-IsPaired b _ (set_bindings-Same now metas b) p
step-IsPaired (revokes now k n) b v p = Same-IsPaired b _ (revoke-Same now k n b) p
step-IsPaired (expires now h) b v p = Same-IsPaired b _ (expire-Same now h b) p
step-IsPaired (reloads now) b v p =
    Same-IsPaired b _ (reload_entries-Same now (entries b.bindings) b) p
step-IsPaired (fails_renewal now h) b v p = Same-IsPaired b _ (failure-Same now h b) p
step-IsPaired (renews now h m answer) b v p = Same-IsPaired b _ (renew-Same now h m answer b) p
step-IsPaired (issues now persisted r nonce a) b v p =
    Same-IsPaired b _ (issue-Same now persisted r nonce a b) p
step-IsPaired (consumes now i payload) b v p = Same-IsPaired b _ (consume-Same now i payload b) p
step-IsPaired (cancels i) b v p = Same-IsPaired b _ (cancel-Same i b) p
step-IsPaired (releases s) b v p = p
step-IsPaired (marks_sent k s) b v p = Same-IsPaired b _ (sent-Same k s b) p
step-IsPaired (finishes s observed) b v p = p
step-IsPaired (prunes now) b v p = p
step-IsPaired closes b v p = p
step-IsPaired restarts b v p =
    restart-IsPaired b _ (λ c h. new-IsPaired b.cfg b.sequence_file c h) p

run-step-IsPaired :
    (ops : List Op) (b : Broker) → all draws_tokens ops ≡ true → IsPaired b → IsPaired (run ops b)
unfolding run
run-step-IsPaired [] b v p = p
run-step-IsPaired (op ∷ ops) b v p =
    run-step-IsPaired ops (step op b) (ground (arith, v)) (step-IsPaired op b (ground (arith, v)) p)

-- From a new broker, whatever methods are called in whatever order, with tokens that are not empty:
-- each session has at most one capability, each capability belongs to at most one session, the two
-- maps agree, and a peer is recorded only for a session that has a capability.
pub run-IsPaired :
    (c : Config) (n : ℕ) (b : Broker) (ops : List Op)
    → new_broker c (ok n) ≡ ok b
    → all draws_tokens ops ≡ true
    → IsPaired (run ops b)
run-IsPaired c n b ops h v = run-step-IsPaired ops b v (new-IsPaired c n b h)
