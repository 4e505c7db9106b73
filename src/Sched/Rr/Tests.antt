-- ===== src/Sched/Rr/Tests.antt =====
-- Runs of the round robin policy.
use workhorse_rt.Common.{
  ◌∷◌, ◌≢◌, update, some, ◌++◌, ◌⊎◌, ℕ, ◌≡◌, refl, Bool, true, false, [], arith, ◌==◌, ◌/◌, ◌%◌,
}
use workhorse_rt.Bitmap.{test_bit, test_in}
use workhorse_rt.Bitmap.Bytes.{agree, agree-eq, passes, passes-at}
use workhorse_rt.Bitmap.Empty.{test_in-zero}
use workhorse_rt.Kernel.{TaskType, SchedState, Kernel}
use workhorse_rt.Kernel.Monad.{ok}
use workhorse_rt.Kernel.Sample.{a_task, machine_running, system, config, queues}
use workhorse_rt.Sched.Rr.{push, should_reschedule}
use workhorse_rt.Sched.Rr.Queues.{IsQueues, has_thread}
use workhorse_rt.Sched.Rr.Pick.{Popped, pop-Popped}
use workhorse_rt.Sched.Rr.Ready.{push-IsQueues, should_reschedule-MustYield}
use workhorse_rt.Sched.Rr.Preempt.{MustYield, left_of, left_after, rr_of}

check_active : ℕ → Bool
check_active p = agree (test_bit queues.active_qs p) (has_thread (queues.qs p))

active_table : passes check_active 8 ≡ true
unfolding passes check_active test_bit test_in
active_table = refl

-- The bits of the first byte, and those above it.
active_cases :
    (p : ℕ) (e : Bool) → (p / 8 == 0) ≡ e → test_bit queues.active_qs p ≡ has_thread (queues.qs p)
unfolding check_active test_bit
active_cases p true e = agree-eq _ _ (passes-at check_active 8 p (ground arith) active_table)
active_cases p false e =
    let high : (p == 2) ≡ false = ground arith in rw (e, high) (test_in-zero (p % 8) (omega arith))

queues-IsQueues : IsQueues 4 queues
queues-IsQueues = record {
  bytes = λ i. ground arith;
  active = λ p. active_cases p (p / 8 == 0) refl;
  unused = λ p above. ground arith;
}

push-IsQueues_example :
    (after : Kernel) × (push 1 system ≡ ok tt after)
    × ((rr_of after 1).qs ≡ update queues.qs 1 (queues.qs 1 ++ 1 ∷ []))
    × IsQueues 4 (rr_of after 1)
    × ((cpu : ℕ) → cpu ≢ 0 → after.rr cpu ≡ system.rr cpu)
push-IsQueues_example = push-IsQueues 4 1 system refl (omega arith) queues-IsQueues

-- The idle task has the cpu while thread 2 is ready.
abbrev idle_runs : Kernel
idle_runs = record system {
  tasks = update system.tasks 0 (a_task TaskType.idle SchedState.running 0 8);
  machines = λ cpu. machine_running (some 0) [];
}

pop-Popped_example : Popped config system
pop-Popped_example = pop-Popped config system queues-IsQueues

should_reschedule-MustYield_example :
    ((should_reschedule config system ≡ ok true system) × MustYield config system 1)
    ⊎ ((after : Kernel) × (should_reschedule config system ≡ ok false after)
        × ¬ MustYield config system 1
        × (left_of after 1 ≡ left_after system 1)
        × (after.rr ≡ system.rr))
should_reschedule-MustYield_example =
    should_reschedule-MustYield config system refl refl refl queues-IsQueues (omega arith)
      (omega arith)
