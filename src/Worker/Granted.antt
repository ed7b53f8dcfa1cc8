-- ===== src/Worker/Granted.antt =====
-- internal/worker/task_lease.go: what a renewal grants.
use Prim.Native.Nat.{ℕ, ◌+◌, ◌-◌, ◌*◌, ◌≤◌, ◌<◌}
use agent_remote_node.Prelude.{
  ◌||◌, Option, none, some, ◌≡◌, refl, arith, ltb, ◌==◌, nat_Eq, ℤ, pos, negsuc, Bool-cases, inl,
  inr,
}
use agent_remote_node.Worker.Lease.{
  LeaseTiming, LeaseBudget, Renewal, budget_within, budget_of, renew_budget,
}

-- What is known of a budget that a renewal has granted.
pub record Granted (r : Renewal) (b : LeaseBudget) : Type 0 where
  pub lease : LeaseTiming
  pub answered : r.answer ≡ some lease
  pub measured : b.deadline ≡ r.started + (lease.lease_until - lease.server_time)
  pub held : r.now < b.deadline
  pub bounded : b.deadline ≤ r.started + 300000000000
  pub positive : 0 < b.renew_after
  pub thirds : 3 * b.renew_after ≤ b.deadline - r.now

-- What `budget_within` makes sure of, where its duration is the one that the answer gives.
abbrev Within : ℕ → Renewal → LeaseBudget → Type 0
Within duration r b =
    (b.deadline ≡ r.started + duration)
    × (r.now < b.deadline)
    × (b.deadline ≤ r.started + 300000000000)
    × (0 < b.renew_after)
    × (3 * b.renew_after ≤ b.deadline - r.now)

within :
    (duration interval : ℕ) (r : Renewal) (b : LeaseBudget)
    → budget_within duration interval r ≡ some b
    → Within duration r b
unfolding budget_within
within duration interval r b h = ground (arith, h)

Granted-of :
    (lease : LeaseTiming) (ms : ℤ) (r : Renewal) (b : LeaseBudget)
    → r.answer ≡ some lease
    → budget_of lease ms r ≡ some b
    → Granted r b
unfolding budget_of
Granted-of lease (negsuc n) r b e h = cc
Granted-of lease (pos n) r b e h = elim (Bool-cases ((n == 0) || ltb 300000 n)) [
  | inl bad ↦ absurd (ground (arith, h, bad))
  | inr good ↦
      let f =
        within (lease.lease_until - lease.server_time) (n * 1000000) r b
          (ground (arith, h, good)) in
      record {
        lease = lease;
        answered = e;
        measured = f.0;
        held = f.1;
        bounded = f.2;
        positive = f.3;
        thirds = f.4;
      }
]

-- A renewal that grants a budget gives at most five minutes, measured from before the call, of which
-- something is left; and the next renewal comes after a third of what is left at most, so that the
-- deadline leaves room for two further tries.
pub renew_budget-Granted : (r : Renewal) (b : LeaseBudget) → renew_budget r ≡ some b → Granted r b
unfolding renew_budget
renew_budget-Granted r b h = answered r.answer refl h
  where
    answered :
        (o : Option LeaseTiming)
        → r.answer ≡ o
        → (elim o [ none ↦ none | some lease ↦ budget_of lease lease.renew_after_milliseconds r ])
          ≡ some b
        → Granted r b
    answered none e k = cc
    answered (some lease) e k = Granted-of lease lease.renew_after_milliseconds r b e k
