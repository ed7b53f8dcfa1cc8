-- ===== src/Broker/SingleUse.antt =====
-- A permit is consumed at most once, over restarts too.
use agent_remote_node.Prelude.{
  holds, if_both, not, ◌||◌, is_some, string_Eq, ◌==◌, ℕ, suc, ◌≤◌, String, ◌≡◌, refl, sym, ap, ◌∙◌,
  Bool, true, Outcome, ok, err, Option, none, some, List, [], ◌∷◌, arith, inl, inr, ℤ, nat_Eq, leb,
  Bool-cases, subst,
}
use agent_remote_node.Prelude.Map.{get, get-empty, get-remove}
use agent_remote_node.Broker.Texts.{BrokerError}
use agent_remote_node.Broker.State.{
  active_request_count, ActiveRequest, Config, Broker, Permit, new_broker,
}
use agent_remote_node.Broker.Sessions.{Answer, commit_peer}
use agent_remote_node.Broker.Permits.{Admission, Randomness, commit_permit}
use agent_remote_node.Broker.Requests.{
  sent_request, finished_request, request_identity, same_identity, valid_identity, adjust_request,
  cancel_found, cancelled_request, Identity, consume_permit, consume_found, pruned_replays,
  cancel_request, mark_request_sent, finish_request_forward, used,
}
use agent_remote_node.Broker.Run.{
  Op, registers, authorizes, unregisters, reloads_session, sets_bindings, revokes, expires, reloads,
  fails_renewal, renews, issues, consumes, cancels, releases, marks_sent, finishes, prunes, closes,
  restarts, after_register, restarted, step, run,
}
use agent_remote_node.Broker.Keeps.{
  adjust-count, Fewer, Fewer-refl, register-Fewer, unregister-Fewer, reload_session-Fewer,
  set_bindings-Fewer, revoke-Fewer, expire-Fewer, reload-Fewer, mark_failure-Fewer, renew-Fewer,
  consume-Fewer, release-Fewer, prune-Fewer,
}
use agent_remote_node.Broker.Sequence.{
  IsSequenced, Later, Fewer-Later, Later-trans, issue-Later, issued_sequence,
}

restart-Later :
    (b : Broker) (o : Outcome BrokerError Broker)
    → ((c : Broker)
        → o ≡ ok c
        → (c.sequence ≡ b.sequence_file)
          × (c.sequence_file ≡ b.sequence_file)
          × ((s : ℕ) → get c.permits s ≡ none))
    → Later b (restarted b o)
restart-Later b (err x) f = Fewer-Later Fewer-refl
restart-Later b (ok c) f = record {
  keeps = λ g. record { file = (f c refl).1 ∙ sym (f c refl).0; unused = λ s h. (f c refl).2 s };
  spent = λ g s h n. (f c refl).2 s;
  grows = λ g. omega (arith, (f c refl).0, g.file);
}

restart_fresh :
    (c : Config) (n : ℕ) (b : Broker)
    → new_broker c (ok n) ≡ ok b
    → (b.sequence ≡ n) × (b.sequence_file ≡ n) × ((s : ℕ) → get b.permits s ≡ none)
unfolding new_broker
restart_fresh c n b h =
    (ground arith, ground arith, λ s. ground (arith, get-empty {K = ℕ} {V = Permit} s))

peer-Fewer : (t n : String) (uid : ℕ) (b : Broker) → Fewer b (commit_peer t n uid b).0
unfolding commit_peer
peer-Fewer t n uid b = record {
  absent = λ s h. ground arith;
  sequence = ground arith;
  file = ground arith;
  config = ground arith;
  active = λ id. unfold active_request_count in ground arith;
}

abbrev updated : (ActiveRequest → ActiveRequest) → ℕ → Broker → Option ActiveRequest → Broker
updated f s b o = record b { active = adjust_request f s b.active o }

updated-Fewer :
    (f : ActiveRequest → ActiveRequest)
    → ((r : ActiveRequest) → (f r).binding_id ≡ r.binding_id)
    → (s : ℕ) (b : Broker) → Fewer b (updated f s b (get b.active s))
updated-Fewer f same s b = record {
  absent = λ k h. h;
  sequence = refl;
  file = refl;
  config = refl;
  active = λ id. unfold active_request_count in adjust-count f same id s b.active;
}

found_cancel-Fewer :
    (i : Identity) (b : Broker) (o : Option ActiveRequest)
    → get b.active i.sequence ≡ o
    → Fewer b (cancel_found i b o).0
unfolding cancel_found
found_cancel-Fewer i b none e = Fewer-refl
found_cancel-Fewer i b (some r) e =
    if_both (λ (x : Answer Bool). Fewer b x.0) (not (same_identity (request_identity r) i))
      (λ _. Fewer-refl)
      (λ _.
        subst (λ o. Fewer b (updated cancelled_request i.sequence b o)) e
          (updated-Fewer cancelled_request (λ r. refl) i.sequence b))

cancel-Fewer : (i : Identity) (b : Broker) → Fewer b (cancel_request i b).0
unfolding cancel_request
cancel-Fewer i b =
    if_both (λ (x : Answer Bool). Fewer b x.0) (not (valid_identity i)) (λ _. Fewer-refl)
      (λ _. found_cancel-Fewer i b (get b.active i.sequence) refl)

sent-Fewer : (id : String) (s : ℕ) (b : Broker) → Fewer b (mark_request_sent id s b).0
unfolding mark_request_sent
sent-Fewer id s b =
    if_both (λ (x : Answer (Unit {0})). Fewer b x.0) (not (is_some (get b.active s)))
      (λ _. Fewer-refl)
      (λ _.
        if_both (λ (x : Answer (Unit {0})). Fewer b x.0)
          (holds (λ (r : ActiveRequest). not (r.binding_id == id) || not r.submitted)
            (get b.active s))
          (λ _. Fewer-refl) (λ _. updated-Fewer sent_request (λ r. refl) s b))

finish-Fewer : (s : ℕ) (o : Bool) (b : Broker) → Fewer b (finish_request_forward s o b)
unfolding finish_request_forward
finish-Fewer s o b = updated-Fewer (finished_request o) (λ r. ground arith) s b

after_register-Fewer :
    (b : Broker) (o : Option (Answer (String × Bool)))
    → ((a : Answer (String × Bool)) → o ≡ some a → Fewer b a.0)
    → Fewer b (after_register b o)
after_register-Fewer b none f = Fewer-refl
after_register-Fewer b (some a) f = f a refl

-- What a step does: it keeps permits and requests, it issues a permit, or it starts a new broker.
pub data StepKind (op : Op) (b : Broker) : Type 0 where
  kept : Fewer b (step op b) → StepKind op b
  issued :
      (now : ℕ) (persisted : Bool) (r : Randomness) (nonce : String) (a : Admission)
      → step op b ≡ (commit_permit now persisted r nonce a b).0
      → StepKind op b
  started : step op b ≡ restarted b (new_broker b.cfg (ok b.sequence_file)) → StepKind op b

pub step_kind : (op : Op) (b : Broker) → StepKind op b
unfolding step
step_kind (registers draws t) b = kept (after_register-Fewer b _ (register-Fewer draws t b))
step_kind (authorizes t n uid) b = kept (peer-Fewer t n uid b)
step_kind (unregisters now t n) b = kept (unregister-Fewer now t n b)
step_kind (reloads_session now t) b = kept (reload_session-Fewer now t b)
step_kind (sets_bindings now metas) b = kept (set_bindings-Fewer now metas b)
step_kind (revokes now id g) b = kept (revoke-Fewer now id g b)
step_kind (expires now h) b = kept (expire-Fewer now h b)
step_kind (reloads now) b = kept (reload-Fewer now b)
step_kind (fails_renewal now h) b = kept (mark_failure-Fewer now h b)
step_kind (renews now h m answer) b = kept (renew-Fewer now h m answer b)
step_kind (issues now persisted r nonce a) b = issued now persisted r nonce a refl
step_kind (consumes now i payload) b = kept (consume-Fewer now i payload b)
step_kind (cancels i) b = kept (cancel-Fewer i b)
step_kind (releases s) b = kept (release-Fewer s b)
step_kind (marks_sent id s) b = kept (sent-Fewer id s b)
step_kind (finishes s observed) b = kept (finish-Fewer s observed b)
step_kind (prunes now) b = kept (prune-Fewer now b)
step_kind closes b = kept (record {
  absent = λ s h. h;
  sequence = refl;
  file = refl;
  config = refl;
  active = λ id. unfold active_request_count in omega arith;
})
step_kind restarts b = started refl

step-Later : (op : Op) (b : Broker) → Later b (step op b)
step-Later op b = elim (step_kind op b) [
  | kept f ↦ Fewer-Later f
  | issued now persisted r nonce a e ↦
      subst (Later b) (sym e) (issue-Later now persisted r nonce a b)
  | started e ↦
      subst (Later b) (sym e) (restart-Later b _ (λ c h. restart_fresh b.cfg b.sequence_file c h))
]

run-Later : (ops : List Op) (b : Broker) → Later b (run ops b)
unfolding run
run-Later [] b = Fewer-Later Fewer-refl
run-Later (op ∷ ops) b = Later-trans (step-Later op b) (run-Later ops (step op b))

consume_found-some :
    (now : ℕ) (i : Identity) (payload : ℤ) (b : Broker) (o : Option Permit) (p : Permit)
    → (consume_found now i payload b o).1 ≡ ok p
    → (is_some o ≡ true) × ((consume_found now i payload b o).0 ≡ used now i.sequence b)
unfolding consume_found
consume_found-some now i payload b none p h = cc
consume_found-some now i payload b (some q) p h = (refl, ground (arith, h))

consumed_absent : (b : Broker) (now s : ℕ) → get (used now s b).permits s ≡ none
consumed_absent b now s = rw (get-remove b.permits s s) (ground arith)

present_used :
    (b : Broker) (s : ℕ) → IsSequenced b → is_some (get b.permits s) ≡ true → s ≤ b.sequence
present_used b s g h = elim (Bool-cases (leb s b.sequence)) [
  | inl le ↦ ground (arith, le)
  | inr gt ↦ cc (h, ap is_some (g.unused s (ground (arith, gt))))
]

absent_refused :
    (now : ℕ) (i : Identity) (payload : ℤ) (b : Broker) (p : Permit)
    → get b.permits i.sequence ≡ none
    → (consume_permit now i payload b).1 ≡ ok p
    → ⊥
unfolding consume_permit consume_found
absent_refused now i payload b p h c = ground (arith, h, c)

consume_spends :
    (now : ℕ) (i : Identity) (payload : ℤ) (b : Broker) (p : Permit)
    → IsSequenced b
    → (consume_permit now i payload b).1 ≡ ok p
    → (i.sequence ≤ b.sequence) × (get (consume_permit now i payload b).0.permits i.sequence ≡ none)
unfolding consume_permit pruned_replays
consume_spends now i payload b p g h =
    let (present, after) =
      consume_found-some now i payload (pruned_replays now b) (get b.permits i.sequence) p h in
    (
      present_used b i.sequence g present,
      rw after (consumed_absent (pruned_replays now b) now i.sequence),
    )

-- A new broker is sequenced, whatever number its sequence file held, and every run keeps it so.
pub run-IsSequenced :
    (c : Config) (n : ℕ) (b : Broker) (ops : List Op)
    → new_broker c (ok n) ≡ ok b
    → IsSequenced (run ops b)
run-IsSequenced c n b ops h =
    let fresh = restart_fresh c n b h in
    (run-Later ops b).keeps (record { file = fresh.1 ∙ sym fresh.0; unused = λ s lt. fresh.2 s })

-- Once a permit was consumed, its sequence is never consumed again: not at any later time, under any
-- identity, after any run of the broker, its restarts included.
pub consume_once :
    (c : Config) (n : ℕ) (b : Broker) (before later : List Op) (now now' : ℕ) (i j : Identity)
    (x y : ℤ) (p q : Permit)
    → new_broker c (ok n) ≡ ok b
    → (consume_permit now i x (run before b)).1 ≡ ok p
    → j.sequence ≡ i.sequence
    → ¬ ((consume_permit now' j y (run later (consume_permit now i x (run before b)).0)).1 ≡ ok q)
consume_once c n b before later now now' i j x y p q h first same second =
    let g = run-IsSequenced c n b before h in
    let (given, gone) = consume_spends now i x (run before b) p g first in
    let f = Fewer-Later (consume-Fewer now i x (run before b)) in
    let absent =
      (run-Later later (consume_permit now i x (run before b)).0).spent (f.keeps g) i.sequence
        (omega (arith, given, f.grows g)) gone in
    absent_refused now' j y (run later (consume_permit now i x (run before b)).0) q
      (subst (λ s. get (run later (consume_permit now i x (run before b)).0).permits s ≡ none)
        (sym same) absent)
      second

-- A permit that is issued after a run has a sequence that no earlier permit of the run has, and that
-- is in the sequence file when the call returns.
pub issue-fresh :
    (now : ℕ) (persisted : Bool) (r : Randomness) (nonce : String) (a : Admission) (b : Broker)
    (p : Permit)
    → IsSequenced b
    → (commit_permit now persisted r nonce a b).1 ≡ ok p
    → (p.sequence ≡ suc b.sequence)
      × ((commit_permit now persisted r nonce a b).0.sequence_file ≡ p.sequence)
      × (get b.permits p.sequence ≡ none)
issue-fresh now persisted r nonce a b p g h =
    let e = issued_sequence now persisted r nonce a b p h in
    (e.0, e.1, g.unused p.sequence (omega (arith, e.0)))
