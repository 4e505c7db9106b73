-- ===== src/Tick/Tests.antt =====
-- Runs of the tick machine on the sample system, under the round robin policy.
use workhorse_rt.Common.{none, ℕ, ◌≡◌, ◌≢◌, refl, some, [], ◌∷◌, arith, inl, update}
use workhorse_rt.Kernel.{Kernel, TaskType, SchedState}
use workhorse_rt.Kernel.Monad.{ok}
use workhorse_rt.Kernel.Sample.{system, config, a_task, machine_running}
use workhorse_rt.Sched.Rr.{ops}
use workhorse_rt.Sched.Rr.Laws.{ops-IsQuiet}
use workhorse_rt.Tick.Switch.{reschedule}
use workhorse_rt.Tick.Periods.{tick_running_task}
use workhorse_rt.Tick.Preempt.{Preempted, reschedule-Preempted}
use workhorse_rt.Tick.Served.{Served}
use workhorse_rt.Tick.Budget.{budget_of, Charged, tick_running_task-Charged}

reschedule-Preempted_example :
    (after : Kernel) × (reschedule config (ops config) system ≡ ok tt after)
    × Preempted system after 1 3 []
reschedule-Preempted_example =
    reschedule-Preempted config (ops config) system refl refl (inl refl) refl refl refl refl

-- The LSR has the cpu.
abbrev lsr_runs : Kernel
lsr_runs = record system {
  tasks = update system.tasks 3 (a_task TaskType.lsr SchedState.running 0 3);
  machines = λ cpu. machine_running (some 3) [];
}

tick_running_task-Charged_example :
    (after : Kernel) × (tick_running_task config (ops config) system ≡ ok tt after)
    × Charged config system 1 (budget_of after 1)
    × ((u : ℕ) → u ≢ 1 → budget_of after u ≡ budget_of system u)
    × ((u : ℕ) → (after.tasks u).state ≡ (system.tasks u).state)
    × (after.machines ≡ system.machines)
tick_running_task-Charged_example =
    tick_running_task-Charged config (ops config) system (ops-IsQuiet config) refl refl refl
      (omega arith)

-- Thread 1 yielded and the idle task 0 was interrupted, and both are owed a tick.
abbrev owing : Kernel
owing = record system {
  tasks =
      update (update system.tasks 0 (a_task TaskType.idle SchedState.deftick_pending 0 0)) 1
        (a_task TaskType.thread SchedState.deftick_yield 1 1);
  machines = λ cpu. record (machine_running none []) { deferred_ticks = 1 ∷ 0 ∷ [] };
}
