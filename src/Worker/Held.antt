-- ===== src/Worker/Held.antt =====
-- internal/worker/task_lease.go: the result of the work counts only while the lease is held.
use Prim.Native.Nat.{ℕ, ◌<◌}
use agent_remote_node.Prelude.{
  Bool, true, false, Option, none, some, List, [], ◌∷◌, ◌≡◌, refl, arith, leb, nat_Eq, Bool-cases,
  if_both, inl, inr, sym, ◌∙◌, ap, ◌⊎◌, ◌↔◌,
}
use agent_remote_node.Worker.Lease.{
  LeaseBudget, Renewal, renew_budget, Turn, finished, fired, Maintained, waiting, returned, lost,
  maintain_lease, Cause, cancelled, lease_lost, Finish, stopped, work_result, LeaseCall, cause_of,
  finish_work, after_work, with_task_lease,
}

-- The turns renew the first budget, each before the deadline of the one before, up to the last.
pub data Renewed : List Turn → LeaseBudget → LeaseBudget → Type 0 where
  unchanged : {b : LeaseBudget} → Renewed [] b b
  ended : {b : LeaseBudget} {turns : List Turn} → Renewed (finished ∷ turns) b b
  interrupted :
      {b : LeaseBudget} {checked : ℕ} {r : Renewal} {turns : List Turn}
      → checked < b.deadline
      → Renewed (fired checked r true ∷ turns) b b
  renewed :
      {b next last : LeaseBudget} {checked : ℕ} {r : Renewal} {turns : List Turn}
      → checked < b.deadline
      → renew_budget r ≡ some next
      → Renewed turns next last
      → Renewed (fired checked r false ∷ turns) b last

-- Such turns leave the loop standing at the last budget, waiting or returned.
Renewed-stands :
    {turns : List Turn} {b last : LeaseBudget}
    → Renewed turns b last
    → (maintain_lease turns b ≡ waiting last) ⊎ (maintain_lease turns b ≡ returned last)
unfolding maintain_lease
Renewed-stands unchanged = inl refl
Renewed-stands ended = inr refl
Renewed-stands (interrupted early) = inr (ground (arith, early))
Renewed-stands (renewed {b} {checked = t} early granted rest) =
    let in_time : leb b.deadline t ≡ false = ground (arith, early) in
    rw (in_time, granted) (Renewed-stands rest)

-- Where the loop stands: not lost, and at a budget that the turns renewed to.
abbrev Kept : List Turn → LeaseBudget → Maintained → Type 0
Kept turns b (waiting last) = Renewed turns b last
Kept turns b (returned last) = Renewed turns b last
Kept turns b (lost last) = Unit

later-Kept :
    (b next : LeaseBudget) (checked : ℕ) (r : Renewal) (turns : List Turn) (m : Maintained)
    → checked < b.deadline
    → renew_budget r ≡ some next
    → Kept turns next m
    → Kept (fired checked r false ∷ turns) b m
later-Kept b next checked r turns (waiting last) h g k = renewed h g k
later-Kept b next checked r turns (returned last) h g k = renewed h g k
later-Kept b next checked r turns (lost last) h g k = tt

answer-Kept :
    (b : LeaseBudget) (checked : ℕ) (r : Renewal) (turns : List Turn)
    → checked < b.deadline
    → ((next : LeaseBudget) → Kept turns next (maintain_lease turns next))
    → (o : Option LeaseBudget) → renew_budget r ≡ o
    → Kept
        (fired checked r false ∷ turns)
        b
        (elim o [ none ↦ lost b | some next ↦ maintain_lease turns next ])
answer-Kept b checked r turns h rest none e = tt
answer-Kept b checked r turns h rest (some next) e =
    later-Kept b next checked r turns (maintain_lease turns next) h e (rest next)

maintain_lease-Kept : (turns : List Turn) (b : LeaseBudget) → Kept turns b (maintain_lease turns b)
unfolding maintain_lease
maintain_lease-Kept [] b = unchanged
maintain_lease-Kept (finished ∷ turns) b = ended
maintain_lease-Kept (fired checked r true ∷ turns) b =
    if_both (Kept (fired checked r true ∷ turns) b) (leb b.deadline checked) (λ _. tt)
      (λ early. interrupted (ground (arith, early)))
maintain_lease-Kept (fired checked r false ∷ turns) b =
    if_both (Kept (fired checked r false ∷ turns) b) (leb b.deadline checked) (λ _. tt)
      (λ early.
        answer-Kept b checked r turns (ground (arith, early))
          (λ next. maintain_lease-Kept turns next) (renew_budget r) refl)

cause_lost : (d first : Bool) → (x : Cause) × (cause_of d true first ≡ some x)
cause_lost true true = (cancelled, refl)
cause_lost true false = (lease_lost, refl)
cause_lost false first = (lease_lost, refl)

module _ {ℓ} {A : Type ℓ} where
  -- What a result of the work says of the end.
  abbrev Worked : LeaseCall A → LeaseBudget → A → Type ℓ
  Worked c last a = (a ≡ c.result) × (c.cancelled_during ≡ false) × (c.end < last.deadline)

  result_inj : (a b : A) → work_result a ≡ work_result b → a ≡ b
  result_inj a b h = cc

  finish_work_result :
      (c : LeaseCall A) (b : LeaseBudget) (a : A)
      → finish_work c b none ≡ work_result a
      → (a ≡ c.result) × (c.end < b.deadline)
  unfolding finish_work
  finish_work_result c b a h = elim (Bool-cases (leb b.deadline c.end)) [
    | inl late ↦ absurd (ground (arith, h, late))
    | inr early ↦ (ground (arith, h, early), ground (arith, early))
  ]

  unstopped : (x : Cause) (a : A) → ¬ (stopped x ≡ work_result a)
  unstopped x a h = cc

  unlost :
      (first : Bool) (c : LeaseCall A) (b : LeaseBudget) (a : A)
      → finish_work c b (cause_of c.cancelled_during false first) ≡ work_result a
      → Worked c b a
  unfolding finish_work
  unlost first c b a h = elim (Bool-cases c.cancelled_during) [
    | inl yes_it_was ↦ absurd (
        unstopped cancelled a
          (ap (λ d. finish_work c b (cause_of d false first)) (sym yes_it_was) ∙ h))
    | inr not_it ↦
        let f =
          finish_work_result c b a
            (ap (λ d. finish_work c b (cause_of d false first)) (sym not_it) ∙ h) in
        (f.0, not_it, f.1)
  ]

  after_work_result :
      (first : Bool) (c : LeaseCall A) (b : LeaseBudget) (m : Maintained) (a : A)
      → Kept c.turns b m
      → after_work c first m ≡ work_result a
      → (last : LeaseBudget) × Renewed c.turns b last × Worked c last a
  unfolding after_work finish_work
  after_work_result first c b (waiting last) a k h = (last, k, unlost first c last a h)
  after_work_result first c b (returned last) a k h = (last, k, unlost first c last a h)
  after_work_result first c b (lost last) a k h =
      let (x, e) = cause_lost c.cancelled_during first in
      absurd (unstopped x a (sym (ap (finish_work c last) e) ∙ h))

  -- The lease was held throughout: the first renewal granted a budget, every later one was made
  -- before the deadline of the budget before it and granted the next, the caller did not cancel, and
  -- the work ended before the last deadline.
  pub record Held (c : LeaseCall A) (a : A) : Type ℓ where
    pub has_work : c.has_work ≡ true
    pub quiet_before : c.cancelled_before ≡ false
    pub quiet_after : c.cancelled_after ≡ false
    pub initial : LeaseBudget
    pub last : LeaseBudget
    pub granted : renew_budget c.first ≡ some initial
    pub renewed_to : Renewed c.turns initial last
    pub worked : Worked c last a

  abbrev from_first : Bool → LeaseCall A → Option LeaseBudget → Finish A
  from_first first c none = stopped lease_lost
  from_first first c (some b) = after_work c first (maintain_lease c.turns b)

  stepped :
      (first : Bool) (c : LeaseCall A) (o : Option LeaseBudget)
      → (elim o [
        | none ↦ stopped lease_lost
        | some b ↦ after_work c first (maintain_lease c.turns b)
      ])
        ≡ from_first first c o
  stepped first c none = refl
  stepped first c (some b) = refl

  guarded :
      (first : Bool) (c : LeaseCall A)
      → c.has_work ≡ true
      → c.cancelled_before ≡ false
      → c.cancelled_after ≡ false
      → with_task_lease first c ≡ from_first first c (renew_budget c.first)
  unfolding with_task_lease
  guarded first c p q r = rw (p, q, r) (stepped first c (renew_budget c.first))

  started_result :
      (first : Bool) (c : LeaseCall A) (a : A) (o : Option LeaseBudget)
      → c.has_work ≡ true
      → c.cancelled_before ≡ false
      → c.cancelled_after ≡ false
      → renew_budget c.first ≡ o
      → from_first first c o ≡ work_result a
      → Held c a
  started_result first c a none p q s e h = absurd (unstopped lease_lost a h)
  started_result first c a (some b) p q s e h =
      let r =
        after_work_result first c b (maintain_lease c.turns b) a (maintain_lease-Kept c.turns b)
          h in
      record {
        has_work = p;
        quiet_before = q;
        quiet_after = s;
        initial = b;
        last = r.0;
        granted = e;
        renewed_to = r.1;
        worked = r.2;
      }

  result-Held :
      (first : Bool) (c : LeaseCall A) (a : A) → with_task_lease first c ≡ work_result a → Held c a
  unfolding with_task_lease
  result-Held first c a h = elim (Bool-cases c.has_work) [
    | inr idle ↦ absurd (ground (arith, h, idle))
    | inl given ↦ elim (Bool-cases c.cancelled_before) [
      | inl early ↦ absurd (ground (arith, h, given, early))
      | inr go ↦ elim (Bool-cases c.cancelled_after) [
        | inl late ↦ absurd (ground (arith, h, given, go, late))
        | inr on ↦
            started_result first c a (renew_budget c.first) given go on refl
              (sym (guarded first c given go on) ∙ h)
      ]
    ]
  ]

  finished_well :
      (first : Bool) (c : LeaseCall A) (last : LeaseBudget) (a : A)
      → Worked c last a
      → finish_work c last (cause_of c.cancelled_during false first) ≡ work_result a
  unfolding finish_work
  finished_well first c last a w =
      let in_time : leb last.deadline c.end ≡ false = ground (arith, w.2) in
      rw (w.1, in_time) (ap work_result (sym w.0))

  Held-result :
      (first : Bool) (c : LeaseCall A) (a : A) → Held c a → with_task_lease first c ≡ work_result a
  unfolding after_work
  Held-result first c a h =
      guarded first c h.has_work h.quiet_before h.quiet_after
      ∙ ap (from_first first c) h.granted
      ∙ elim (Renewed-stands h.renewed_to) [
        | inl on ↦ ap (after_work c first) on ∙ finished_well first c h.last a h.worked
        | inr over ↦ ap (after_work c first) over ∙ finished_well first c h.last a h.worked
      ]

  -- `withTaskLease` returns the work's own result exactly where the lease was held throughout, in the
  -- sense of `Held`, and nothing was cancelled.
  pub with_task_lease_iff :
      (first : Bool) (c : LeaseCall A) (a : A)
      → (with_task_lease first c ≡ work_result a) ↔ Held c a
  with_task_lease_iff first c a = (result-Held first c a, Held-result first c a)
