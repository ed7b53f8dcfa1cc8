-- ===== src/Worker/Loop.antt =====
-- internal/worker/worker.go: the loop that runs one of the node's operations again and again.
use Prim.Native.Nat.{ℕ, zero, suc, ◌+◌, ◌-◌, ◌*◌, ◌^◌, ◌≤◌, ◌<◌, min}
use native.Mathlib.Nat.{one-le-pow, pow-suc}
use agent_remote_node.Prelude.{
  Bool, true, false, ◌&&◌, ap, sym, ◌∙◌, Bool-cases, inl, inr, All, length, List, [], ◌∷◌, ◌≡◌,
  refl, arith, ltb, ◌==◌, nat_Eq, if◌then◌else◌,
}

abbrev pub second : ℕ
second = 1000000000

-- The loop of `retryDelay`, with the rounds that the counter leaves.
unfoldable pub doubled : ℕ → ℕ → ℕ → ℕ
doubled zero delay maximum = delay
doubled (suc rounds) delay maximum =
    doubled rounds (if ltb delay maximum then delay * 2 else delay) maximum

abbrev at_most : ℕ → ℕ → ℕ
at_most bound delay = if ltb bound delay then bound else delay

-- `retryDelay`
unfoldable pub retry_delay : ℕ → ℕ → ℕ → ℕ → ℕ
unfolding doubled
retry_delay failures interval initial maximum =
    let delay = at_most maximum (doubled (failures - 1) initial maximum) in
    if ltb 0 interval && ltb interval delay then interval else delay

-- One round of the loop: the wait is cut short by the end of the context; or the operation runs, with
-- success or not, and the context ends while it does or not.
pub data Round : Type 0 where
  cut_short : Round
  ran : Bool → Bool → Round

pub data Ending : Type 0 where
  going_on context_ended succeeded_once : Ending

-- `failures` and `delay` of `runOperationLoop`.
pub record LoopState : Type 0 where
  pub failures : ℕ
  pub delay : ℕ

abbrev pub loop_start : LoopState
loop_start = record { failures = 0; delay = 0 }

-- What the loop does: the delay that it waits before each run of the operation, and how it ends.
abbrev pub LoopRun : Type 0
LoopRun = List ℕ × Ending

abbrev waited : ℕ → LoopRun → LoopRun
waited delay (delays, ending) = (delay ∷ delays, ending)

-- The variables after a run of the operation with success or not.
unfoldable pub next_state : ℕ → Bool → LoopState → LoopState
unfolding retry_delay
next_state interval true s = record { failures = 0; delay = interval }
next_state interval false s = record {
  failures = s.failures + 1;
  delay = retry_delay (s.failures + 1) interval second (30 * second);
}

-- `runOperationLoop` over the rounds that happen.
unfoldable pub operation_loop : ℕ → Bool → List Round → LoopState → LoopRun
unfolding next_state
operation_loop interval stop_after_success [] s = ([], going_on)
operation_loop interval stop_after_success (cut_short ∷ rest) s = ([], context_ended)
operation_loop interval stop_after_success (ran success ended ∷ rest) s = waited s.delay (
    if ended then ([], context_ended) else elim (success && stop_after_success) [
      | true ↦ ([], succeeded_once)
      | false ↦ operation_loop interval stop_after_success rest (next_state interval success s)
    ])

doubled-above : (rounds delay maximum : ℕ) → maximum ≤ delay → doubled rounds delay maximum ≡ delay
unfolding doubled
doubled-above zero delay maximum h = refl
doubled-above (suc rounds) delay maximum h =
    let full : ltb delay maximum ≡ false = ground arith in
    rw full (doubled-above rounds delay maximum h)

-- One more doubling, with the power written `p`.
regroup : (delay p : ℕ) → delay * 2 * p ≡ delay * (p * 2)
regroup delay p = grind arith

grown : (delay p : ℕ) → 1 ≤ p → delay ≤ delay * p
grown delay p h = grind arith

power : (rounds : ℕ) → 1 ≤ 2 ^ rounds
power rounds = one-le-pow rounds 2 (omega arith)

-- The doubling that stops at the maximum, cut off there, is the power of two cut off there.
doubled-min :
    (rounds delay maximum : ℕ)
    → at_most maximum (doubled rounds delay maximum) ≡ min (delay * 2 ^ rounds) maximum
unfolding doubled
doubled-min zero delay maximum = ground arith
doubled-min (suc rounds) delay maximum = elim (Bool-cases (ltb delay maximum)) [
  | inl below ↦ rw below (
      doubled-min rounds (delay * 2) maximum
      ∙ ap (λ x. min x maximum) (regroup delay (2 ^ rounds))
      ∙ ap (λ x. min (delay * x) maximum) (sym (pow-suc 2 rounds)))
  | inr above ↦
      let enough : maximum ≤ delay = ground (arith, above) in
      let more = grown delay (2 ^ suc rounds) (power (suc rounds)) in
      rw above (
        ap (at_most maximum) (doubled-above rounds delay maximum enough)
        ∙ ground (arith, enough, more))
]

-- The delay after a number of failures is the initial delay, doubled once for each failure after the
-- first, but no more than the maximum, and no more than the interval where there is one: the loop
-- that stops doubling early computes just this.
pub retry_delay-min :
    (failures interval initial maximum : ℕ)
    → retry_delay failures interval initial maximum ≡ (
        if interval == 0
        then min (initial * 2 ^ (failures - 1)) maximum
        else min (min (initial * 2 ^ (failures - 1)) maximum) interval)
unfolding retry_delay
retry_delay-min failures interval initial maximum =
    rw (doubled-min (failures - 1) initial maximum)
      (cut interval (min (initial * 2 ^ (failures - 1)) maximum))
  where
    cut :
        (interval d : ℕ)
        → (if ltb 0 interval && ltb interval d then interval else d)
          ≡ (if interval == 0 then d else min d interval)
    cut interval d = ground arith

retry_delay-le :
    (failures interval initial maximum : ℕ)
    → 0 < interval
    → retry_delay failures interval initial maximum ≤ interval
unfolding retry_delay
retry_delay-le failures interval initial maximum h =
    capped (at_most maximum (doubled (failures - 1) initial maximum))
  where
    capped : (d : ℕ) → (if ltb 0 interval && ltb interval d then interval else d) ≤ interval
    capped d = ground (arith, h)

-- The context does not end in the round.
abbrev pub Lasting : Round → Type 0
Lasting cut_short = ⊥
Lasting (ran success ended) = ended ≡ false

next_state-le :
    (interval : ℕ) (success : Bool) (s : LoopState)
    → 0 < interval
    → (next_state interval success s).delay ≤ interval
unfolding next_state
next_state-le interval true s h = omega arith
next_state-le interval false s h = retry_delay-le (s.failures + 1) interval second (30 * second) h

-- The loop of an operation that goes on after success never gives up: while the context lasts, every
-- round runs the operation once more, whatever it has returned, each time after one interval at most.
pub operation_loop_liveness :
    (interval : ℕ) (rounds : List Round) (s : LoopState)
    → 0 < interval
    → s.delay ≤ interval
    → All Lasting rounds
    → ((operation_loop interval false rounds s).1 ≡ going_on)
      × (length (operation_loop interval false rounds s).0 ≡ length rounds)
      × All (λ d. d ≤ interval) (operation_loop interval false rounds s).0
unfolding operation_loop
operation_loop_liveness interval [] s h d l = (refl, refl, tt)
operation_loop_liveness interval (cut_short ∷ rest) s h d l = absurd l.0
operation_loop_liveness interval (ran true ended ∷ rest) s h d l =
    let r =
      operation_loop_liveness interval rest (next_state interval true s) h
        (next_state-le interval true s h) l.1 in
    rw l.0 (r.0, ap suc r.1, (d, r.2))
operation_loop_liveness interval (ran false ended ∷ rest) s h d l =
    let r =
      operation_loop_liveness interval rest (next_state interval false s) h
        (next_state-le interval false s h) l.1 in
    rw l.0 (r.0, ap suc r.1, (d, r.2))
