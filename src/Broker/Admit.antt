-- ===== src/Broker/Admit.antt =====
-- What a permit that is issued promises of its binding, its session and its time.
use Prim.Native.Nat.{◌*◌}
use agent_remote_node.Prelude.{
  ℕ, ◌+◌, ◌≤◌, ◌<◌, String, ◌≡◌, refl, sym, ap, ◌∙◌, Bool, true, false, Outcome, ok, err, ◌>>=◌,
  if◌then◌else◌, arith, inl, inr, ◌==◌, string_Eq, nat_Eq, Bool-cases, subst, leb, refuse_if,
  fun_ext,
}
use agent_remote_node.Broker.Texts.{BrokerError, lease_expired}
use agent_remote_node.Broker.Binding.{EgoBrowserBinding, Stamp, no_stamp, malformed, at}
use agent_remote_node.Broker.State.{
  Config, Broker, BindingState, Permit, next_sequence, prune_expired_permits, second,
}
use agent_remote_node.Broker.Sessions.{Answer, nonce_session, binding_for_session}
use agent_remote_node.Broker.Permits.{
  Admission, Randomness, drawn, permit_expiry, new_permit, stored_or, fill_permit, check_binding,
  checked_issue, issue_for, commit_permit, or_no_stamp, bounded_by,
}

-- The instant is not after the one of the timestamp, where there is one.
abbrev pub NotAfter : ℕ → Stamp → Type 0
NotAfter t no_stamp = Unit
NotAfter t malformed = Unit
NotAfter t (at u) = t ≤ u

-- What stands behind a permit that was issued at `now`.
pub record Backed (now : ℕ) (nonce : String) (a : Admission) (b : Broker) (p : Permit)
    (s : BindingState) : Type 0 where
  pub capability : nonce_session nonce b ≡ a.session
  pub selected : binding_for_session a.session b ≡ ok s
  pub binding : p.binding_id ≡ s.metadata.binding_id
  pub generation : p.generation ≡ s.metadata.binding_generation
  pub positive : (s.metadata.binding_generation == 0) ≡ false
  pub active : s.metadata.status ≡ "active"
  pub healthy : s.metadata.lease_health ≡ "healthy"
  pub starts : now < p.expires_at
  pub short : p.expires_at ≤ now + 20 * second
  pub lease : NotAfter p.expires_at (or_no_stamp s.metadata.lease_until)
  pub limit : NotAfter p.expires_at s.metadata.absolute_ttl_until
  pub space : p.default_task_space ≡ a.task_space
  pub mode : p.concurrency_mode ≡ a.scope.mode
  pub scope : p.task_space_scope ≡ a.scope.task_space

bounded_fits : (t : Stamp) (l e : ℕ) → bounded_by t l ≡ ok e → (e ≤ l) × NotAfter e t
bounded_fits no_stamp l e h = (ground (arith, h), tt)
bounded_fits malformed l e h = cc
bounded_fits (at u) l e h = (ground (arith, h), ground (arith, h))

earlier : (t : Stamp) (d e : ℕ) → e ≤ d → NotAfter d t → NotAfter e t
earlier no_stamp d e le h = tt
earlier malformed d e le h = tt
earlier (at u) d e le h = omega (arith, le, h)

record ExpiresWithin (now e : ℕ) (m : EgoBrowserBinding) : Type 0 where
  starts : now < e
  short : e ≤ now + 20 * second
  lease : NotAfter e (or_no_stamp m.lease_until)
  limit : NotAfter e m.absolute_ttl_until

second_bound :
    (now e l : ℕ) (m : EgoBrowserBinding)
    → l ≤ now + 20 * second
    → NotAfter l (or_no_stamp m.lease_until)
    → (o : Outcome BrokerError ℕ) → bounded_by m.absolute_ttl_until l ≡ o
    → (o >>= λ d. (if leb d now then err lease_expired else ok tt) >>= λ _. ok d) ≡ ok e
    → ExpiresWithin now e m
second_bound now e l m le h (err x) eq f = cc
second_bound now e l m le h (ok d) eq f =
    let same : d ≡ e = ground (arith, f) in
    let after : now < d = ground (arith, f) in
    let b = bounded_fits m.absolute_ttl_until l d eq in
    subst (λ z. ExpiresWithin now z m) same
      (record {
        starts = after;
        short = omega (arith, b.0, le);
        lease = earlier (or_no_stamp m.lease_until) l d b.0 h;
        limit = b.1;
      })

first_bound :
    (now e : ℕ) (m : EgoBrowserBinding) (o : Outcome BrokerError ℕ)
    → bounded_by (or_no_stamp m.lease_until) (now + 20 * second) ≡ o
    → (o >>= λ l. bounded_by m.absolute_ttl_until l >>= λ d.
        (if leb d now then err lease_expired else ok tt) >>= λ _. ok d)
      ≡ ok e
    → ExpiresWithin now e m
first_bound now e m (err x) eq f = cc
first_bound now e m (ok l) eq f =
    let b = bounded_fits (or_no_stamp m.lease_until) (now + 20 * second) l eq in
    second_bound now e l m b.0 b.1 (bounded_by m.absolute_ttl_until l) refl f

refuse_same : (bad : Bool) (x : BrokerError) → refuse_if bad x ≡ (if bad then err x else ok tt)
refuse_same true x = refl
refuse_same false x = refl

expiry_fits :
    (now e : ℕ) (m : EgoBrowserBinding) → permit_expiry now m ≡ ok e → ExpiresWithin now e m
unfolding permit_expiry
expiry_fits now e m h =
    first_bound now e m (bounded_by (or_no_stamp m.lease_until) (now + 20 * second)) refl (
      sym (
        ap
          (λ (f : ℕ → Outcome BrokerError (Unit {0})).
            bounded_by (or_no_stamp m.lease_until) (now + 20 * second) >>= λ l.
            bounded_by m.absolute_ttl_until l >>= λ d. f d >>= λ _. ok d)
          (fun_ext (λ d. refuse_same (leb d now) lease_expired)))
      ∙ h)

-- The permit is made from the metadata and expires when it should.
abbrev MadeFrom : ℕ → Admission → EgoBrowserBinding → Permit → Type 0
MadeFrom now a m p =
    (permit_expiry now m ≡ ok p.expires_at)
    × (p.binding_id ≡ m.binding_id)
    × (p.generation ≡ m.binding_generation)
    × (p.default_task_space ≡ a.task_space)
    × (p.concurrency_mode ≡ a.scope.mode)
    × (p.task_space_scope ≡ a.scope.task_space)

made :
    (c : Config) (now : ℕ) (m : EgoBrowserBinding) (a : Admission) (n : ℕ)
    (d : Outcome BrokerError String) (e : Outcome BrokerError ℕ) (p : Permit)
    → permit_expiry now m ≡ e
    → (d >>= λ id. e >>= λ x. ok (new_permit c m a id n x)) ≡ ok p
    → MadeFrom now a m p
unfolding new_permit
made c now m a n (err x) e p eq h = cc
made c now m a n (ok id) (err x) p eq h = cc
made c now m a n (ok id) (ok x) p eq h = (
  eq ∙ ap ok (ground (arith, h)),
  ground (arith, h),
  ground (arith, h),
  ground (arith, h),
  ground (arith, h),
  ground (arith, h),
)

stored_made :
    (b : Broker) (o : Outcome BrokerError Permit) (p : Permit) → (stored_or b o).1 ≡ ok p → o ≡ ok p
stored_made b (err x) p h = cc
stored_made b (ok q) p h = h

fill_made :
    (now : ℕ) (r : Randomness) (a : Admission) (m : EgoBrowserBinding) (x : Answer ℕ) (p : Permit)
    → (fill_permit now r a m x).1 ≡ ok p
    → MadeFrom now a m p
unfolding fill_permit
fill_made now r a m (b, err x) p h = cc
fill_made now r a m (b, ok n) p h =
    made b.cfg now m a n (drawn r) (permit_expiry now m) p refl (stored_made b _ p h)

checked_made :
    (b : Broker) (x : Answer Permit) (o : Outcome BrokerError (Unit {0})) (p : Permit)
    → (checked_issue b x o).1 ≡ ok p
    → (o ≡ ok tt) × (x.1 ≡ ok p)
checked_made b x (err e) p h = cc
checked_made b x (ok u) p h = (refl, h)

check_facts :
    (b : Broker) (m : EgoBrowserBinding)
    → check_binding b m ≡ ok tt
    → ((m.status == "active") ≡ true)
      × ((m.lease_health == "healthy") ≡ true)
      × ((m.binding_generation == 0) ≡ false)
unfolding check_binding
check_facts b m h = (ground (arith, h), ground (arith, h), ground (arith, h))

issue_made :
    (now : ℕ) (persisted : Bool) (r : Randomness) (nonce : String) (a : Admission) (b c : Broker)
    (o : Outcome BrokerError BindingState) (p : Permit)
    → nonce_session nonce b ≡ a.session
    → binding_for_session a.session b ≡ o
    → (issue_for now persisted r a c o).1 ≡ ok p
    → (s : BindingState) × Backed now nonce a b p s
unfolding issue_for
issue_made now persisted r nonce a b c (err x) p n f h = cc
issue_made now persisted r nonce a b c (ok s) p n f h =
    let (checked, filled) = checked_made c _ (check_binding c s.metadata) p h in
    let facts = check_facts c s.metadata checked in
    let from = fill_made now r a s.metadata (next_sequence persisted c) p filled in
    let e = expiry_fits now p.expires_at s.metadata from.0 in
    (
      s,
      record {
        capability = n;
        selected = f;
        binding = from.1;
        generation = from.2;
        positive = facts.2;
        active = (string_Eq.eqb_iff s.metadata.status "active").0 facts.0;
        healthy = (string_Eq.eqb_iff s.metadata.lease_health "healthy").0 facts.1;
        starts = e.starts;
        short = e.short;
        lease = e.lease;
        limit = e.limit;
        space = from.3;
        mode = from.4;
        scope = from.5;
      },
    )

pub commit_permit-Backed :
    (now : ℕ) (persisted : Bool) (r : Randomness) (nonce : String) (a : Admission) (b : Broker)
    (p : Permit)
    → (commit_permit now persisted r nonce a b).1 ≡ ok p
    → (s : BindingState) × Backed now nonce a b p s
unfolding commit_permit prune_expired_permits
commit_permit-Backed now persisted r nonce a b p h =
    elim (Bool-cases (nonce_session nonce b == a.session)) [
      | inl same ↦
          issue_made now persisted r nonce a b (prune_expired_permits now b)
            (binding_for_session a.session b) p
            ((string_Eq.eqb_iff (nonce_session nonce b) a.session).0 same) refl (rw same at h)
      | inr differ ↦ cc (rw differ at h)
    ]
