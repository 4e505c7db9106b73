-- ===== src/Sched/Cyclic/Tests.antt =====
-- Runs of the cyclic policy.
use workhorse_rt.Common.{◌≡◌, refl, arith, none, some, ◌<◌, ◌==◌, if◌then◌else◌, update}
use workhorse_rt.Kernel.{TaskType, SchedState, SchedulerCyclic, Kernel}
use workhorse_rt.Kernel.Monad.{ok}
use workhorse_rt.Kernel.Sample.{a_task, system, config}
use workhorse_rt.Sched.Cyclic.{push, pop, taken, ready_frame}
use workhorse_rt.Sched.Cyclic.Laws.{Pushed, push-Pushed}
use workhorse_rt.Sched.Cyclic.Rotation.{
  Waits, Rotated, pop-Rotated, PassedOver, PassedOver-num_frames,
}

-- Of four frames, thread 2 has the second and thread 5 the last; the clock stands at the third.
abbrev frames : SchedulerCyclic
frames = record {
  frames = λ i. if i == 1 then some 2 else (if i == 3 then some 5 else none);
  clock = 2;
  num_ready_threads = 2;
}

abbrev two_ready : Kernel
two_ready = record system {
  tasks = update system.tasks 5 (a_task TaskType.thread SchedState.ready 0 5);
  cyclic = λ cpu. frames;
}

two_ready-Waits : Waits config two_ready 1 2
two_ready-Waits = record {
  clock = record { frames = omega arith; in_range = omega arith };
  in_range = omega arith;
  owns = refl;
  ready = refl;
  counted = omega arith;
}

pop-Rotated_example : Rotated config two_ready 1
pop-Rotated_example = pop-Rotated config two_ready two_ready-Waits

-- Thread 5 is popped first.
abbrev one_left : Kernel
one_left = taken 3 5 two_ready

pop_last : pop config two_ready ≡ ok 5 one_left
unfolding pop ready_frame
pop_last = refl

one_left-Waits : Waits config one_left 1 2
one_left-Waits = record {
  clock = record { frames = omega arith; in_range = omega arith };
  in_range = omega arith;
  owns = refl;
  ready = refl;
  counted = omega arith;
}

once : PassedOver config 1 2 2 1 one_left
once =
    PassedOver.once_more two_ready one_left one_left 5
      (PassedOver.none_yet two_ready refl two_ready-Waits) pop_last (λ e. absurd (omega arith)) refl
      one_left-Waits

PassedOver-num_frames_example : 1 < 4
PassedOver-num_frames_example = PassedOver-num_frames config one_left once

push-Pushed_example :
    (after : Kernel) × (push config 2 system ≡ ok tt after) × Pushed config system 2 after
push-Pushed_example = push-Pushed config 2 system refl
