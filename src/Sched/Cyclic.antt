-- ===== src/Sched/Cyclic.antt =====
-- src/workhorse/kSched/kSchedPolicy/kSchedCyclic.c: a table of frames, each owned by a thread, and a
-- clock that goes round it. A frame whose thread is not ready is passed over.
pub mod Frames
pub mod Laws
pub mod Due
pub mod Rotation
mod Tests
use workhorse_rt.Common.{
  ℕ, zero, suc, ◌+◌, ◌-◌, ◌%◌, ◌^◌, Bool, true, false, Option, none, some, ◌==◌, ltb, if◌then◌else◌,
  update,
}
use workhorse_rt.DeltaChain.{u32}
use workhorse_rt.Bitmap.{Bitmap, ffs}
use workhorse_rt.Kernel.{Task, TaskType, LinkCyclic, Kernel, Config, SchedulerCyclic}
use workhorse_rt.Kernel.Monad.{
  M, Act, ok, assert_failed, out_of_fuel, pure, ◌>>=◌, ◌>>◌, get, set_task, skip, with_thread,
  this_machine, not_null, is_ready,
}
use workhorse_rt.Sched.{SchedOps, idle_init, idle_of}
use workhorse_rt.Sched.Window.{reset_idle, tick_lsr, tick_idle, leave_window}

abbrev pub Frames : Type 0
Frames = ℕ → Option ℕ

abbrev pub this_cyclic : Kernel → SchedulerCyclic
this_cyclic k = k.cyclic k.this_cpu

abbrev pub set_cyclic : Kernel → ℕ → SchedulerCyclic → Kernel
set_cyclic k cpu s = record k { cyclic = update k.cyclic cpu s }

abbrev pub with_link : Task → LinkCyclic → Task
with_link v l = with_thread v (record (v.thread) { link_cyclic = l })

abbrev pub set_left : Task → ℕ → Task
set_left v n = with_link v (record (v.thread.link_cyclic) { remaining_timeslice_ticks = n })

-- A full timeslice.
abbrev pub refresh : Task → Task
refresh v = set_left v v.thread.param_cyclic.timeslice_ticks

-- One round of the loop of kSchedTaskPushCyclic claims the next frame of the thread's bitmap.
unfoldable pub claim_frames : ℕ → Bitmap → ℕ → ℕ → ℕ → Frames → Option Frames
claim_frames n bmp t zero low frames = none
claim_frames n bmp t (suc fuel) low frames = elim (ffs bmp n low) [
  | none ↦ some frames
  | some bit ↦ claim_frames n bmp t fuel (bit + 1) (update frames bit (some t))
]

-- The first push of a thread puts it in its frames.
abbrev pub enlisted : ℕ → Frames → Kernel → Kernel
enlisted t frames k = record k {
  cyclic =
      update k.cyclic (k.tasks t).cpu_id (record (k.cyclic (k.tasks t).cpu_id) { frames = frames });
  tasks =
      update k.tasks t
        (with_link (k.tasks t) (record ((k.tasks t).thread.link_cyclic) { initialized = true }));
}

abbrev pub enlist : ℕ → Option Frames → Act
enlist t none k = out_of_fuel
enlist t (some frames) k = ok tt (enlisted t frames k)

abbrev pub count_ready : ℕ → Act
count_ready cpu k = ok tt (
    set_cyclic k cpu
      (record (k.cyclic cpu) { num_ready_threads = u32 ((k.cyclic cpu).num_ready_threads + 1) }))

-- The frame that is `i` after the clock.
abbrev pub slot : (n clock i : ℕ) → ℕ
slot n clock i = u32 (clock + i) % n

-- The first frame from the clock on whose thread is ready; `rounds` frames are left to look at.
unfoldable pub ready_frame : (ℕ → Task) → Frames → (n clock rounds i : ℕ) → Option (ℕ × ℕ)
ready_frame tasks frames n clock zero i = none
ready_frame tasks frames n clock (suc rounds) i =
    let further = ready_frame tasks frames n clock rounds (i + 1) in
    elim (frames (slot n clock i)) [
      | none ↦ further
      | some t ↦ if is_ready (tasks t).state then some (slot n clock i, t) else further
    ]

abbrev pub taken : ℕ → ℕ → Kernel → Kernel
taken frame t k = record k {
  tasks = update k.tasks t (refresh (k.tasks t));
  cyclic = update k.cyclic k.this_cpu (record (this_cyclic k) {
    clock = u32 (frame + 1);
    num_ready_threads = (this_cyclic k).num_ready_threads - 1;
  });
}

-- The end of kSchedTaskPopCyclic; without a task its assertion fails.
abbrev pub take_frame : Option (ℕ × ℕ) → M ℕ
take_frame none k = assert_failed
take_frame (some (frame, t)) k = ok t (taken frame t k)

-- The switch of kSchedTaskTickCallbackCyclic.
unfoldable pub tick_as : TaskType → ℕ → Act
tick_as TaskType.thread t k =
    let left = (k.tasks t).thread.link_cyclic.remaining_timeslice_ticks in
    set_task t (set_left (k.tasks t) ((left + 2 ^ 32 - 1) % 2 ^ 32)) k
tick_as TaskType.lsr t k = set_task t (tick_lsr (k.tasks t)) k
tick_as TaskType.idle t k = set_task t (tick_idle (k.tasks t)) k
tick_as TaskType.invalid t k = ok tt k

-- A thread with no timeslice left gives way if another one is ready, and else starts a new one.
unfoldable pub slice_over : ℕ → M Bool
slice_over t k =
    if (k.tasks t).thread.link_cyclic.remaining_timeslice_ticks == 0
    then (if (this_cyclic k).num_ready_threads == 0
        then ok false (record k { tasks = update k.tasks t (refresh (k.tasks t)) })
        else ok true k)
    else ok false k

module _ (cfg : Config) where
  abbrev pub frames_of : ℕ → Kernel → Option Frames
  frames_of t k =
      claim_frames cfg.num_frames (k.tasks t).thread.param_cyclic.frame_bmp t (suc cfg.num_frames) 0
        (k.cyclic (k.tasks t).cpu_id).frames

  unfoldable pub first_push : ℕ → Act
  unfolding claim_frames
  first_push t k =
      if (k.tasks t).thread.link_cyclic.initialized then ok tt k else enlist t (frames_of t k) k

  -- The switch of kSchedTaskPushCyclic.
  unfoldable pub push_as : TaskType → ℕ → Act
  unfolding first_push
  push_as TaskType.thread t k = (first_push t >> count_ready (k.tasks t).cpu_id) k
  push_as TaskType.idle t k = set_task t (reset_idle (k.tasks t)) k
  push_as _ t k = ok tt k

  -- kSchedTaskPushCyclic
  unfoldable pub push : ℕ → Act
  unfolding push_as
  push t k = push_as (k.tasks t).type t k

  -- kSchedTaskPopCyclic
  unfoldable pub pop : M ℕ
  unfolding ready_frame
  pop k =
      if (this_cyclic k).num_ready_threads == 0
      then ok (k.idle_task k.this_cpu) k
      else take_frame
          (ready_frame k.tasks (this_cyclic k).frames cfg.num_frames (this_cyclic k).clock
            cfg.num_frames 0)
          k

  -- kSchedTaskTickCallbackCyclic
  unfoldable pub tick_callback : ℕ → Act
  unfolding tick_as
  tick_callback t k = tick_as (k.tasks t).type t k

  -- kSchedShouldRescheduleCyclic
  unfoldable pub should_reschedule : M Bool
  unfolding slice_over
  should_reschedule = do
    k ← get
    t ← not_null (this_machine k).running_task
    elim (k.tasks t).type [
      | TaskType.thread ↦ slice_over t
      | TaskType.idle ↦ pure (ltb 0 (this_cyclic k).num_ready_threads)
      | _ ↦ pure false
    ]

  -- kSchedTaskLsrOutCallbackCyclic
  unfoldable pub lsr_out_callback : ℕ → Act
  lsr_out_callback = leave_window

  -- kSchedGetIdleCyclic
  unfoldable pub get_idle : ℕ → M (Option ℕ)
  get_idle = idle_of cfg

  -- kSchedInitCyclic
  unfoldable pub init : Act
  init k = idle_init cfg (k.idle_task k.this_cpu) k

  -- `ops` of kSchedCyclic.c
  unfoldable pub ops : SchedOps
  unfolding push pop tick_callback should_reschedule lsr_out_callback get_idle init
  ops = record {
    init = init;
    tick_transition_callback = skip;
    push = push;
    pop = pop;
    tick_callback = tick_callback;
    should_reschedule = should_reschedule;
    lsr_out_callback = lsr_out_callback;
    get_idle = get_idle;
  }
