-- ===== src/Broker/Sequence.antt =====
-- The sequence of permits: what issuing one does to it, and that no method reuses a sequence.
use agent_remote_node.Prelude.{
  ℕ, suc, ◌≤◌, ◌<◌, String, ◌≡◌, refl, sym, ap, ◌∙◌, Bool, false, not, Outcome, ok, err, ◌>>=◌,
  none, if_both, arith, ◌==◌, string_Eq, nat_Eq,
}
use agent_remote_node.Prelude.Map.{Map, get, put, get-put}
use agent_remote_node.Broker.Texts.{BrokerError}
use agent_remote_node.Broker.Binding.{EgoBrowserBinding}
use agent_remote_node.Broker.State.{
  Config, Broker, BindingState, Permit, next_sequence, prune_expired_permits,
}
use agent_remote_node.Broker.Sessions.{Answer, nonce_session, binding_for_session}
use agent_remote_node.Broker.Permits.{
  Admission, Randomness, drawn, permit_expiry, new_permit, stored_or, store_permit, fill_permit,
  check_binding, checked_issue, issue_for, commit_permit,
}
use agent_remote_node.Broker.Keeps.{Fewer, Fewer-refl, prune-Fewer}

-- The sequence file holds the last sequence, and no permit has a later one.
pub record IsSequenced (b : Broker) : Type 0 where
  pub file : b.sequence_file ≡ b.sequence
  pub unused : (s : ℕ) → b.sequence < s → get b.permits s ≡ none

-- No permit appears under a sequence that `b` has given out already.
pub record Later (b c : Broker) : Type 0 where
  pub keeps : IsSequenced b → IsSequenced c
  pub spent :
      IsSequenced b → (s : ℕ) → s ≤ b.sequence → get b.permits s ≡ none → get c.permits s ≡ none
  pub grows : IsSequenced b → b.sequence ≤ c.sequence

pub Fewer-Later : {b c : Broker} → Fewer b c → Later b c
Fewer-Later f = record {
  keeps = λ g. record {
    file = f.file ∙ g.file ∙ sym f.sequence;
    unused = λ s h. f.absent s (g.unused s (omega (arith, h, f.sequence)));
  };
  spent = λ g s h n. f.absent s n;
  grows = λ g. omega (arith, f.sequence);
}

pub Later-trans : {b c d : Broker} → Later b c → Later c d → Later b d
Later-trans f g = record {
  keeps = λ h. g.keeps (f.keeps h);
  spent = λ h s le n. g.spent (f.keeps h) s (omega (arith, le, f.grows h)) (f.spent h s le n);
  grows = λ h. omega (arith, f.grows h, g.grows (f.keeps h));
}

abbrev pub bumped : Broker → Broker
bumped b = record b { sequence = suc b.sequence; sequence_file = suc b.sequence }

bumped-Later : (b : Broker) → Later b (bumped b)
bumped-Later b = record {
  keeps = λ g. record { file = refl; unused = λ s h. g.unused s (omega (arith, h)) };
  spent = λ g s h n. n;
  grows = λ g. omega arith;
}

put_other :
    (m : Map ℕ Permit) (k s : ℕ) (p : Permit)
    → (k == s) ≡ false
    → get m s ≡ none
    → get (put m k p) s ≡ none
put_other m k s p differ h = rw (get-put m k p s, differ) h

differs : (k s : ℕ) → s < k → (k == s) ≡ false
differs k s h = ground (arith, h)

differs' : (k s : ℕ) → k < s → (k == s) ≡ false
differs' k s h = ground (arith, h)

stored-Later :
    (b : Broker) (p : Permit) → p.sequence ≡ suc b.sequence → Later b (store_permit (bumped b) p).0
stored-Later b p e = record {
  keeps = λ g. record {
    file = refl;
    unused = λ s h.
        put_other b.permits p.sequence s p (differs' p.sequence s (omega (arith, h, e)))
          (g.unused s (omega (arith, h)));
  };
  spent =
      λ g s h n. put_other b.permits p.sequence s p (differs p.sequence s (omega (arith, h, e))) n;
  grows = λ g. omega arith;
}

stored_or-Later :
    (b : Broker) (o : Outcome BrokerError Permit)
    → ((p : Permit) → o ≡ ok p → p.sequence ≡ suc b.sequence)
    → Later b (stored_or (bumped b) o).0
stored_or-Later b (err x) f = bumped-Later b
stored_or-Later b (ok p) f = stored-Later b p (f p refl)

filled_sequence :
    (c : Config) (m : EgoBrowserBinding) (a : Admission) (n : ℕ) (d : Outcome BrokerError String)
    (e : Outcome BrokerError ℕ) (p : Permit)
    → (d >>= λ id. e >>= λ x. ok (new_permit c m a id n x)) ≡ ok p
    → p.sequence ≡ n
unfolding new_permit
filled_sequence c m a n (err x) e p h = cc
filled_sequence c m a n (ok id) (err x) p h = cc
filled_sequence c m a n (ok id) (ok x) p h = ground (arith, h)

fill-Later :
    (now : ℕ) (persisted : Bool) (r : Randomness) (a : Admission) (m : EgoBrowserBinding)
    (b : Broker)
    → Later b (fill_permit now r a m (next_sequence persisted b)).0
unfolding next_sequence fill_permit
fill-Later now persisted r a m b =
    if_both (λ (x : Answer ℕ). Later b (fill_permit now r a m x).0)
      (b.sequence == 18446744073709551615) (λ _. Fewer-Later Fewer-refl)
      (λ _.
        if_both (λ (x : Answer ℕ). Later b (fill_permit now r a m x).0) persisted
          (λ _.
            stored_or-Later b _
              (filled_sequence b.cfg m a (suc b.sequence) (drawn r) (permit_expiry now m)))
          (λ _. Fewer-Later Fewer-refl))

checked-Later :
    (b : Broker) (x : Answer Permit) (o : Outcome BrokerError (Unit {0}))
    → Later b x.0
    → Later b (checked_issue b x o).0
checked-Later b x (err e) h = Fewer-Later Fewer-refl
checked-Later b x (ok u) h = h

issue_for-Later :
    (now : ℕ) (persisted : Bool) (r : Randomness) (a : Admission) (b : Broker)
    (o : Outcome BrokerError BindingState)
    → Later b (issue_for now persisted r a b o).0
unfolding issue_for
issue_for-Later now persisted r a b (err x) = Fewer-Later Fewer-refl
issue_for-Later now persisted r a b (ok s) =
    checked-Later b _ (check_binding b s.metadata) (fill-Later now persisted r a s.metadata b)

pub issue-Later :
    (now : ℕ) (persisted : Bool) (r : Randomness) (nonce : String) (a : Admission) (b : Broker)
    → Later b (commit_permit now persisted r nonce a b).0
unfolding commit_permit
issue-Later now persisted r nonce a b = Later-trans (Fewer-Later (prune-Fewer now b)) (
    if_both (λ (x : Answer Permit). Later (prune_expired_permits now b) x.0)
      (not (nonce_session nonce (prune_expired_permits now b) == a.session))
      (λ _. Fewer-Later Fewer-refl)
      (λ _.
        issue_for-Later now persisted r a (prune_expired_permits now b)
          (binding_for_session a.session (prune_expired_permits now b))))

stored_sequence :
    (b : Broker) (o : Outcome BrokerError Permit) (p : Permit)
    → ((q : Permit) → o ≡ ok q → q.sequence ≡ suc b.sequence)
    → (stored_or (bumped b) o).1 ≡ ok p
    → (p.sequence ≡ suc b.sequence) × ((stored_or (bumped b) o).0.sequence_file ≡ p.sequence)
stored_sequence b (err x) p f h = cc
stored_sequence b (ok q) p f h =
    let same : q ≡ p = ground (arith, h) in
    let e = f q refl in
    let e' : p.sequence ≡ suc b.sequence = sym (ap (λ (z : Permit). z.sequence) same) ∙ e in
    (e', sym e')

abbrev pub Sequenced : Broker → Answer Permit → Type 0
Sequenced b x =
    (p : Permit) → x.1 ≡ ok p → (p.sequence ≡ suc b.sequence) × (x.0.sequence_file ≡ p.sequence)

fill_sequence :
    (now : ℕ) (persisted : Bool) (r : Randomness) (a : Admission) (m : EgoBrowserBinding)
    (b : Broker)
    → Sequenced b (fill_permit now r a m (next_sequence persisted b))
unfolding next_sequence fill_permit
fill_sequence now persisted r a m b =
    if_both (λ (x : Answer ℕ). Sequenced b (fill_permit now r a m x))
      (b.sequence == 18446744073709551615) (λ _ p h. cc)
      (λ _.
        if_both (λ (x : Answer ℕ). Sequenced b (fill_permit now r a m x)) persisted
          (λ _ p.
            stored_sequence b _ p
              (filled_sequence b.cfg m a (suc b.sequence) (drawn r) (permit_expiry now m)))
          (λ _ p h. cc))

checked_sequence :
    (b : Broker) (x : Answer Permit) (o : Outcome BrokerError (Unit {0}))
    → Sequenced b x
    → Sequenced b (checked_issue b x o)
checked_sequence b x (err e) f p h = cc
checked_sequence b x (ok u) f p h = f p h

issue_for_sequence :
    (now : ℕ) (persisted : Bool) (r : Randomness) (a : Admission) (b : Broker)
    (o : Outcome BrokerError BindingState)
    → Sequenced b (issue_for now persisted r a b o)
unfolding issue_for
issue_for_sequence now persisted r a b (err x) = λ p h. cc
issue_for_sequence now persisted r a b (ok s) =
    checked_sequence b _ (check_binding b s.metadata) (fill_sequence now persisted r a s.metadata b)

pub issued_sequence :
    (now : ℕ) (persisted : Bool) (r : Randomness) (nonce : String) (a : Admission) (b : Broker)
    → Sequenced b (commit_permit now persisted r nonce a b)
unfolding commit_permit prune_expired_permits
issued_sequence now persisted r nonce a b =
    if_both (λ (x : Answer Permit). Sequenced b x)
      (not (nonce_session nonce (prune_expired_permits now b) == a.session)) (λ _ p h. cc)
      (λ _.
        issue_for_sequence now persisted r a (prune_expired_permits now b)
          (binding_for_session a.session (prune_expired_permits now b)))
