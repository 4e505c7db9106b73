-- ===== src/Sched/Edf/Tests.antt =====
-- Runs of the earliest deadline policy.
use workhorse_rt.Common.{ℕ, ◌≡◌, ◌≢◌, refl, arith, [], ◌∷◌, ◌==◌, if◌then◌else◌, Distinct}
use workhorse_rt.DeltaChain.{Nodes, DeltaChain}
use workhorse_rt.DeltaChain.Times.{times, remaining, enqueue}
use workhorse_rt.Kernel.{Kernel}
use workhorse_rt.Kernel.Monad.{ok}
use workhorse_rt.Kernel.Sample.{system, config}
use workhorse_rt.Sched.Edf.{push, tick_callback}
use workhorse_rt.Sched.Edf.Kept.{IsEdf}
use workhorse_rt.Sched.Edf.Pick.{Picked, pop-Picked}
use workhorse_rt.Sched.Edf.Queue.{
  Answer, should_reschedule-Answer, push-enqueue, deadlines_at, GoesOnWith,
}
use workhorse_rt.Sched.Edf.Spend.{Charged, Spent, Passes, tick_callback-Charged}

-- The deadline of thread 2 has come, and thread 1 runs with one of 3 ticks.
abbrev nodes : Nodes
nodes p = record { expected_epoch = 0; delta = if p == 1 then 3 else 0 }

abbrev chain : DeltaChain
chain = record { current_epoch = 0; dq = 2 ∷ [] }

abbrev late : Kernel
late = record system { edf_nodes = nodes; edf = λ cpu. chain }

late-IsEdf : IsEdf late
unfolding remaining times
late-IsEdf = record {
  distinct = (refl, tt);
  live = (omega arith, omega arith, tt);
  fits = (omega arith, tt);
}

pop-Picked_example : Picked late
pop-Picked_example = pop-Picked late late-IsEdf

should_reschedule-Answer_example : Answer config late 1
should_reschedule-Answer_example =
    should_reschedule-Answer config late refl refl refl refl late-IsEdf

push-enqueue_example :
    (d : ℕ) × GoesOnWith 3 (system.tasks 1).thread.virtual_deadline d
    × ((after : Kernel) × (push 1 late ≡ ok tt after)
        × (deadlines_at 0 after ≡ enqueue 1 d (deadlines_at 0 late))
        × Distinct (after.edf 0).dq
        × ((cpu : ℕ) → cpu ≢ 0 → after.edf cpu ≡ late.edf cpu))
push-enqueue_example = push-enqueue late 1 refl (refl, tt) refl

tick_callback-Charged_example :
    (d : ℕ) × Spent config late 1 1 d
    × ((after : Kernel) × (tick_callback config 1 late ≡ ok tt after) × Charged late 1 d after)
tick_callback-Charged_example =
    tick_callback-Charged config late 1 1 refl (omega arith) (omega arith)
      (Passes.one_tick (λ e. cc) refl)
