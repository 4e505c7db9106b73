-- ===== src/Sched/Rr/Laws.antt =====
-- The round robin policy keeps to its own part of the kernel.
use workhorse_rt.Common.{ℕ, ◌+◌, ◌-◌, ◌%◌, ◌^◌, refl}
use workhorse_rt.Kernel.{Task, TaskType, Kernel, Config, SchedulerRr}
use workhorse_rt.Kernel.Monad.{with_thread}
use workhorse_rt.Sched.Quiet.{SameTicks, Quiet, IsQuiet, same, same_but, put, leave_window-Quiet}
use workhorse_rt.Sched.Window.{reset_idle, tick_idle, tick_lsr}
use workhorse_rt.Sched.Rr.{
  ops, push, push_as, tick_as, tick_callback, lsr_out_callback, enqueue, set_rr,
}

same_rr : (k : Kernel) (cpu : ℕ) (s : SchedulerRr) → SameTicks k (set_rr k cpu s)
same_rr k cpu s = record {
  this_cpu = refl;
  k_tasks = refl;
  frame_bmps = refl;
  machines = refl;
  replenish_nodes = refl;
  sleep_nodes = refl;
  trace = refl;
  tick = λ u. refl;
  state = λ u. refl;
  type = λ u. refl;
  callbacks = λ u. refl;
  domain = λ u. refl;
}

abbrev tick_slice : Task → Task
tick_slice v = with_thread v (record (v.thread) {
  remaining_timeslice_ticks = (v.thread.remaining_timeslice_ticks + 2 ^ 32 - 1) % 2 ^ 32;
})

push_as-Quiet : (y : TaskType) (t : ℕ) → Quiet (push_as y t)
unfolding push_as
push_as-Quiet TaskType.invalid t k = (k, refl, same k)
push_as-Quiet TaskType.thread t k =
    let v = k.tasks t in
    let s = enqueue (k.rr v.cpu_id) v.thread.param_rr.prio t in
    (set_rr k v.cpu_id s, refl, same_rr k v.cpu_id s)
push_as-Quiet TaskType.lsr t k = (k, refl, same k)
push_as-Quiet TaskType.idle t k =
    let v = reset_idle (k.tasks t) in (put k t v, refl, same_but k t v refl refl refl refl refl)

tick_as-Quiet : (y : TaskType) (t : ℕ) → Quiet (tick_as y t)
unfolding tick_as
tick_as-Quiet TaskType.invalid t k = (k, refl, same k)
tick_as-Quiet TaskType.thread t k =
    let v = tick_slice (k.tasks t) in (put k t v, refl, same_but k t v refl refl refl refl refl)
tick_as-Quiet TaskType.lsr t k =
    let v = tick_lsr (k.tasks t) in (put k t v, refl, same_but k t v refl refl refl refl refl)
tick_as-Quiet TaskType.idle t k =
    let v = tick_idle (k.tasks t) in (put k t v, refl, same_but k t v refl refl refl refl refl)

push-Quiet : (t : ℕ) → Quiet (push t)
unfolding push
push-Quiet t k = push_as-Quiet (k.tasks t).type t k

tick_callback-Quiet : (cfg : Config) (t : ℕ) → Quiet (tick_callback cfg t)
unfolding tick_callback
tick_callback-Quiet cfg t k = tick_as-Quiet (k.tasks t).type t k

lsr_out_callback-Quiet : (cfg : Config) (t : ℕ) → Quiet (lsr_out_callback cfg t)
unfolding lsr_out_callback
lsr_out_callback-Quiet cfg t = leave_window-Quiet t

-- Pushing a task, ticking it and telling that an LSR left the cpu never fail under the round robin
-- policy, and change nothing that the tick machine keeps: no state, type, budget, chain, domain or
-- machine of any task or cpu.
pub ops-IsQuiet : (cfg : Config) → IsQuiet (ops cfg)
unfolding ops
ops-IsQuiet cfg = record {
  push = push-Quiet;
  tick_callback = tick_callback-Quiet cfg;
  lsr_out_callback = lsr_out_callback-Quiet cfg;
}
