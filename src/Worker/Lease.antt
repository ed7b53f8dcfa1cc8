-- ===== src/Worker/Lease.antt =====
-- internal/worker/task_lease.go: work that runs only while the Server's lease on its task is renewed.
-- Instants are nanoseconds of the monotonic clock; the Server's two instants only give a duration.
use Prim.Native.Nat.{ℕ, ◌+◌, ◌-◌, ◌*◌, ◌/◌}
use agent_remote_node.Prelude.{
  Bool, true, false, ◌||◌, Option, none, some, List, [], ◌∷◌, ltb, leb, ◌==◌, nat_Eq, ℤ, pos,
  negsuc, if◌then◌else◌,
}

pub record LeaseTiming : Type 0 where
  pub server_time : ℕ
  pub lease_until : ℕ
  pub renew_after_milliseconds : ℤ

pub record LeaseBudget : Type 0 where
  pub deadline : ℕ
  pub renew_after : ℕ

-- The answer to one renewal: what `renew` returned (`none` for an error), the instant before the call
-- and the instant at which the answer is looked at.
pub record Renewal : Type 0 where
  pub started : ℕ
  pub now : ℕ
  pub answer : Option LeaseTiming

-- What is left of the lease, and the interval capped at a third of it.
abbrev remaining : ℕ → Renewal → ℕ
remaining duration r = r.started + duration - r.now

abbrev pub capped_interval : ℕ → ℕ → ℕ
capped_interval interval left = if ltb (left / 3) interval then left / 3 else interval

abbrev with_interval : ℕ → Renewal → ℕ → Option LeaseBudget
with_interval duration r interval =
    if interval == 0
    then none
    else some (record { deadline = r.started + duration; renew_after = interval })

unfoldable pub budget_within : ℕ → ℕ → Renewal → Option LeaseBudget
budget_within duration interval r =
    if (duration == 0)
      || (ltb 300000000000 duration
          || (leb (r.started + duration) r.now || ((interval == 0) || leb duration interval)))
    then none
    else with_interval duration r (capped_interval interval (remaining duration r))

-- `duration <= 0` covers a lease that ends before the Server's own instant: the difference stops at 0.
unfoldable pub budget_of : LeaseTiming → ℤ → Renewal → Option LeaseBudget
unfolding budget_within
budget_of lease (negsuc n) r = none
budget_of lease (pos n) r =
    if (n == 0) || ltb 300000 n
    then none
    else budget_within (lease.lease_until - lease.server_time) (n * 1000000) r

-- `renewTaskBudget`; `none` is the error `lost`.
unfoldable pub renew_budget : Renewal → Option LeaseBudget
unfolding budget_of
renew_budget r = elim r.answer [
  | none ↦ none
  | some lease ↦ budget_of lease lease.renew_after_milliseconds r
]

-- One turn of the loop of `maintainTaskLease`: its context has ended; or the timer fired, the deadline
-- is checked at an instant, and a renewal is made, during which the context may end.
pub data Turn : Type 0 where
  finished : Turn
  fired : ℕ → Renewal → Bool → Turn

-- Where the loop stands after the turns: still waiting, returned with no error, or lost.
pub data Maintained : Type 0 where
  waiting returned lost : LeaseBudget → Maintained

unfoldable pub maintain_lease : List Turn → LeaseBudget → Maintained
maintain_lease [] b = waiting b
maintain_lease (finished ∷ turns) b = returned b
maintain_lease (fired checked r ended ∷ turns) b =
    if leb b.deadline checked
    then lost b
    else if ended
    then returned b
    else elim (renew_budget r) [ none ↦ lost b | some next ↦ maintain_lease turns next ]

-- What ends the work from outside: the caller's context, or the renewal loop.
pub data Cause : Type 0 where
  cancelled lease_lost : Cause

-- What `withTaskLease` returns: an error of its own, or what the work returned.
pub data Finish {ℓ} (A : Type ℓ) : Type ℓ where
  no_work : Finish A
  stopped : Cause → Finish A
  work_result : A → Finish A

-- One call: whether a work function is given, whether the caller's context has ended before the first
-- renewal, after it, and by the end of the work; the turns of the renewal loop until it has ended; the
-- result of the work, and the instant at which the deadline is compared.
pub record LeaseCall {ℓ} (A : Type ℓ) : Type ℓ where
  pub has_work : Bool
  pub cancelled_before : Bool
  pub first : Renewal
  pub cancelled_after : Bool
  pub turns : List Turn
  pub cancelled_during : Bool
  pub result : A
  pub end : ℕ

-- The caller's cancellation and the loss of the lease cancel the work with the first of them as cause;
-- where both happen, `cancelled_first` tells which one it was.
abbrev pub cause_of : Bool → Bool → Bool → Option Cause
cause_of cancelled_during was_lost cancelled_first =
    if cancelled_during
    then if was_lost
      then if cancelled_first then some cancelled else some lease_lost
      else some cancelled
    else if was_lost
    then some lease_lost
    else none

module _ {ℓ} {A : Type ℓ} where
  unfoldable pub finish_work : LeaseCall A → LeaseBudget → Option Cause → Finish A
  finish_work c b (some cause) = stopped cause
  finish_work c b none = if leb b.deadline c.end then stopped lease_lost else work_result c.result

  -- The end of the work; the renewal loop has ended, since its own context is cancelled then.
  unfoldable pub after_work : LeaseCall A → Bool → Maintained → Finish A
  unfolding finish_work
  after_work c first (waiting b) = finish_work c b (cause_of c.cancelled_during false first)
  after_work c first (returned b) = finish_work c b (cause_of c.cancelled_during false first)
  after_work c first (lost b) = finish_work c b (cause_of c.cancelled_during true first)

  -- `withTaskLease`
  unfoldable pub with_task_lease : Bool → LeaseCall A → Finish A
  unfolding after_work renew_budget maintain_lease
  with_task_lease cancelled_first c =
      if c.has_work
      then if c.cancelled_before
        then stopped cancelled
        else if c.cancelled_after
        then stopped cancelled
        else elim (renew_budget c.first) [
          | none ↦ stopped lease_lost
          | some b ↦ after_work c cancelled_first (maintain_lease c.turns b)
        ]
      else no_work
