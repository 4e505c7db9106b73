-- ===== src/Sched/Cyclic/Laws.antt =====
-- The cyclic policy keeps to its own part of the kernel, and gives a pushed thread its frames.
use workhorse_rt.Common.{
  ℕ, ◌+◌, ◌-◌, ◌%◌, ◌^◌, ◌≡◌, ◌≢◌, refl, true, false, arith, if◌then◌else◌, Bool-cases, inl, inr,
}
use workhorse_rt.DeltaChain.{u32}
use workhorse_rt.Kernel.{Task, TaskType, Kernel, Config, SchedulerCyclic}
use workhorse_rt.Kernel.Monad.{ok}
use workhorse_rt.Sched.Quiet.{SameTicks, Quiet, IsQuiet, same, same_but, put, leave_window-Quiet}
use workhorse_rt.Sched.Window.{reset_idle, tick_idle, tick_lsr}
use workhorse_rt.Sched.Cyclic.{
  Frames, set_cyclic, ops, push, push_as, first_push, enlisted, frames_of, with_link, set_left,
  tick_as, tick_callback, lsr_out_callback,
}
use workhorse_rt.Sched.Cyclic.Frames.{owner, Claimed, claim_frames-Claimed}

frames_of-Claimed :
    (cfg : Config) (k : Kernel) (t : ℕ)
    → Claimed cfg.num_frames
        (k.tasks t).thread.param_cyclic.frame_bmp
        t
        0
        (k.cyclic (k.tasks t).cpu_id).frames
        (frames_of cfg t k)
frames_of-Claimed cfg k t =
    claim_frames-Claimed cfg.num_frames (k.tasks t).thread.param_cyclic.frame_bmp t _ 0
      (k.cyclic (k.tasks t).cpu_id).frames (omega arith)

with_cyclic :
    {k after : Kernel} (cpu : ℕ) (s : SchedulerCyclic)
    → SameTicks k after
    → SameTicks k (set_cyclic after cpu s)
with_cyclic cpu s h = record {
  this_cpu = h.this_cpu;
  k_tasks = h.k_tasks;
  frame_bmps = h.frame_bmps;
  machines = h.machines;
  replenish_nodes = h.replenish_nodes;
  sleep_nodes = h.sleep_nodes;
  trace = h.trace;
  tick = h.tick;
  state = h.state;
  type = h.type;
  callbacks = h.callbacks;
  domain = h.domain;
}

abbrev initialize : Task → Task
initialize v = with_link v (record (v.thread.link_cyclic) { initialized = true })

abbrev pub cyclic_of : Kernel → ℕ → SchedulerCyclic
cyclic_of k t = k.cyclic (k.tasks t).cpu_id

-- Whose frame it is once thread `t` has been pushed.
abbrev pub frame_owner : Config → Kernel → ℕ → Frames
frame_owner cfg k t i =
    if (k.tasks t).thread.link_cyclic.initialized
    then (cyclic_of k t).frames i
    else owner cfg.num_frames (k.tasks t).thread.param_cyclic.frame_bmp t 0 (cyclic_of k t).frames i

-- The push of a thread: one more ready thread, and its frames the first time.
pub record Pushed (cfg : Config) (k : Kernel) (t : ℕ) (after : Kernel) : Type 0 where
  pub frames : (i : ℕ) → (cyclic_of after t).frames i ≡ frame_owner cfg k t i
  pub clock : (cyclic_of after t).clock ≡ (cyclic_of k t).clock
  pub count : (cyclic_of after t).num_ready_threads ≡ u32 ((cyclic_of k t).num_ready_threads + 1)
  pub listed : (after.tasks t).thread.link_cyclic.initialized ≡ true
  pub elsewhere : (cpu : ℕ) → cpu ≢ (k.tasks t).cpu_id → after.cyclic cpu ≡ k.cyclic cpu
  pub ticks : SameTicks k after

abbrev counted : SchedulerCyclic → SchedulerCyclic
counted s = record s { num_ready_threads = u32 (s.num_ready_threads + 1) }

push_again :
    (cfg : Config) (t : ℕ) (k : Kernel)
    → (k.tasks t).thread.link_cyclic.initialized ≡ true
    → (after : Kernel) × (push_as cfg TaskType.thread t k ≡ ok tt after) × Pushed cfg k t after
unfolding push_as first_push
push_again cfg t k e =
    let s = counted (cyclic_of k t) in
    (
      set_cyclic k (k.tasks t).cpu_id s,
      rw e refl,
      record {
        frames = λ i. ground (arith, e);
        clock = ground arith;
        count = ground arith;
        listed = e;
        elsewhere = λ cpu other. ground arith;
        ticks = with_cyclic (k.tasks t).cpu_id s (same k);
      },
    )

push_first :
    (cfg : Config) (t : ℕ) (k : Kernel)
    → (k.tasks t).thread.link_cyclic.initialized ≡ false
    → (after : Kernel) × (push_as cfg TaskType.thread t k ≡ ok tt after) × Pushed cfg k t after
unfolding push_as first_push
push_first cfg t k e =
    let (frames, run, owned) = frames_of-Claimed cfg k t in
    let k' = enlisted t frames k in
    let s = counted (k'.cyclic (k.tasks t).cpu_id) in
    (
      set_cyclic k' (k.tasks t).cpu_id s,
      rw e (rw run refl),
      record {
        frames = λ i. ground (arith, e, owned i);
        clock = ground arith;
        count = ground arith;
        listed = ground arith;
        elsewhere = λ cpu other. ground arith;
        ticks =
            with_cyclic (k.tasks t).cpu_id s
              (with_cyclic _ _ (same_but k t (initialize (k.tasks t)) refl refl refl refl refl));
      },
    )

push_thread :
    (cfg : Config) (t : ℕ) (k : Kernel)
    → (after : Kernel) × (push_as cfg TaskType.thread t k ≡ ok tt after) × Pushed cfg k t after
push_thread cfg t k = elim (Bool-cases (k.tasks t).thread.link_cyclic.initialized) [
  | inl again ↦ push_again cfg t k again
  | inr first ↦ push_first cfg t k first
]

push_as-Quiet : (cfg : Config) (y : TaskType) (t : ℕ) → Quiet (push_as cfg y t)
unfolding push_as
push_as-Quiet cfg TaskType.invalid t k = (k, refl, same k)
push_as-Quiet cfg TaskType.thread t k =
    let (after, e, h) = push_thread cfg t k in (after, e, h.ticks)
push_as-Quiet cfg TaskType.lsr t k = (k, refl, same k)
push_as-Quiet cfg TaskType.idle t k =
    let v = reset_idle (k.tasks t) in (put k t v, refl, same_but k t v refl refl refl refl refl)

tick_as-Quiet : (y : TaskType) (t : ℕ) → Quiet (tick_as y t)
unfolding tick_as
tick_as-Quiet TaskType.invalid t k = (k, refl, same k)
tick_as-Quiet TaskType.thread t k =
    let left = (k.tasks t).thread.link_cyclic.remaining_timeslice_ticks in
    let v = set_left (k.tasks t) ((left + 2 ^ 32 - 1) % 2 ^ 32) in
    (put k t v, refl, same_but k t v refl refl refl refl refl)
tick_as-Quiet TaskType.lsr t k =
    let v = tick_lsr (k.tasks t) in (put k t v, refl, same_but k t v refl refl refl refl refl)
tick_as-Quiet TaskType.idle t k =
    let v = tick_idle (k.tasks t) in (put k t v, refl, same_but k t v refl refl refl refl refl)

push-Quiet : (cfg : Config) (t : ℕ) → Quiet (push cfg t)
unfolding push
push-Quiet cfg t k = push_as-Quiet cfg (k.tasks t).type t k

tick_callback-Quiet : (cfg : Config) (t : ℕ) → Quiet (tick_callback cfg t)
unfolding tick_callback
tick_callback-Quiet cfg t k = tick_as-Quiet (k.tasks t).type t k

lsr_out_callback-Quiet : (cfg : Config) (t : ℕ) → Quiet (lsr_out_callback cfg t)
unfolding lsr_out_callback
lsr_out_callback-Quiet cfg t = leave_window-Quiet t

-- Under the cyclic policy, too, pushing a task, ticking it and telling that an LSR left the cpu never
-- fail or run out of rounds, and change nothing that the tick machine keeps.
pub cyclic_ops-IsQuiet : (cfg : Config) → IsQuiet (ops cfg)
unfolding ops
cyclic_ops-IsQuiet cfg = record {
  push = push-Quiet cfg;
  tick_callback = tick_callback-Quiet cfg;
  lsr_out_callback = lsr_out_callback-Quiet cfg;
}

-- The first push of a thread gives it exactly the frames below their number whose bit its bitmap has,
-- and a later push changes no frame. Each counts one more ready thread of the thread's cpu and leaves
-- the clock, the other cpus and what the tick machine keeps alone.
pub push-Pushed :
    (cfg : Config) (t : ℕ) (k : Kernel)
    → (k.tasks t).type ≡ TaskType.thread
    → (after : Kernel) × (push cfg t k ≡ ok tt after) × Pushed cfg k t after
unfolding push
push-Pushed cfg t k thread = rw thread (push_thread cfg t k)
