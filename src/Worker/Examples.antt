-- ===== src/Worker/Examples.antt =====
-- internal/worker: tests, and the theorems at concrete inputs.
use Prim.Native.Nat.{ℕ, ◌-◌, ◌*◌, ◌/◌, ◌^◌, ◌≤◌, min}
use agent_remote_node.Prelude.{
  true, false, some, List, [], ◌∷◌, ◌≡◌, ◌↔◌, refl, arith, ◌==◌, nat_Eq, pos, if◌then◌else◌, All,
  length,
}
use agent_remote_node.Worker.Lease.{
  LeaseTiming, LeaseBudget, Renewal, renew_budget, finished, fired, work_result, stopped,
  lease_lost, LeaseCall, with_task_lease,
}
use agent_remote_node.Worker.Granted.{Granted, renew_budget-Granted}
use agent_remote_node.Worker.Held.{Held, with_task_lease_iff}
use agent_remote_node.Worker.Loop.{
  second, retry_delay, retry_delay-min, Round, ran, going_on, succeeded_once, loop_start,
  operation_loop, operation_loop_liveness,
}

-- A lease of 60 seconds that asks for a renewal after 30; the round trip took one second.
abbrev timing : LeaseTiming
timing = record {
  server_time = 500 * second;
  lease_until = 560 * second;
  renew_after_milliseconds = pos 30000;
}

abbrev first_renewal : Renewal
first_renewal = record { started = 10 * second; now = 11 * second; answer = some timing }

abbrev budget : LeaseBudget
budget = record { deadline = 70 * second; renew_after = 59 * second / 3 }

granted : renew_budget first_renewal ≡ some budget
unfolding renew_budget
granted = refl

renew_budget-Granted_example : Granted first_renewal budget
renew_budget-Granted_example = renew_budget-Granted first_renewal budget granted

abbrev second_renewal : Renewal
second_renewal = record { started = 40 * second; now = 41 * second; answer = some timing }

abbrev held_call : LeaseCall ℕ
held_call = record {
  has_work = true;
  cancelled_before = false;
  first = first_renewal;
  cancelled_after = false;
  turns = fired (40 * second) second_renewal false ∷ (finished ∷ []);
  cancelled_during = false;
  result = 7;
  end = 90 * second;
}

Held-result : with_task_lease true held_call ≡ work_result 7
unfolding with_task_lease
Held-result = refl

-- Without the renewal the same work would have come too late.
lost_result : with_task_lease true (record held_call { turns = finished ∷ [] }) ≡ stopped lease_lost
unfolding with_task_lease
lost_result = refl

with_task_lease_iff_example : (with_task_lease true held_call ≡ work_result 7) ↔ Held held_call 7
with_task_lease_iff_example = with_task_lease_iff true held_call 7

sixth_failure : retry_delay 6 0 second (30 * second) ≡ 30 * second
unfolding retry_delay
sixth_failure = refl

retry_delay-min_example : retry_delay 4 (5 * second) second (30 * second) ≡ (
    if 5 * second == 0
    then min (second * 2 ^ (4 - 1)) (30 * second)
    else min (min (second * 2 ^ (4 - 1)) (30 * second)) (5 * second))
retry_delay-min_example = retry_delay-min 4 (5 * second) second (30 * second)

abbrev rounds : List Round
rounds = ran false false ∷ (ran false false ∷ (ran true false ∷ (ran false false ∷ [])))

delays :
    operation_loop (5 * second) false rounds loop_start
    ≡ (0 ∷ (second ∷ (2 * second ∷ (5 * second ∷ []))), going_on)
unfolding operation_loop
delays = refl

once :
    operation_loop (5 * second) true rounds loop_start
    ≡ (0 ∷ (second ∷ (2 * second ∷ [])), succeeded_once)
unfolding operation_loop
once = refl

operation_loop_liveness_example :
    ((operation_loop (5 * second) false rounds loop_start).1 ≡ going_on)
    × (length (operation_loop (5 * second) false rounds loop_start).0 ≡ length rounds)
    × All (λ d. d ≤ 5 * second) (operation_loop (5 * second) false rounds loop_start).0
operation_loop_liveness_example =
    operation_loop_liveness (5 * second) rounds loop_start (omega arith) (omega arith)
      (refl, (refl, (refl, (refl, tt))))
