-- ===== src/Sched/Rr.antt =====
-- src/workhorse/kSched/kSchedPolicy/kSchedRr.c: fixed priorities with a queue for each, and a
-- timeslice within a priority. `activeQs` has the bit of each queue that is not empty.
pub mod Laws
pub mod Queues
pub mod Pick
pub mod Preempt
pub mod Ready
mod Tests
use workhorse_rt.Common.{
  ℕ, ◌+◌, ◌-◌, ◌%◌, ◌^◌, Bool, true, false, not, Option, none, some, List, [], ◌∷◌, ◌++◌, ◌==◌, ltb,
  if◌then◌else◌, update,
}
use workhorse_rt.Bitmap.{set_bit, unset_bit, fls, is_empty}
use workhorse_rt.Kernel.{
  Task, Thread, TaskType, thread, lsr, idle, invalid, Window, Kernel, Config, SchedulerRr,
}
use workhorse_rt.Kernel.Monad.{
  M, Act, ok, assert_failed, pure, ◌>>=◌, ◌>>◌, get, modify, assert, skip, when, task_of, set_task,
  with_thread, this_machine, not_null, is_running, is_lsr,
}
use workhorse_rt.Sched.{SchedOps, idle_init, idle_of}
use workhorse_rt.Sched.Window.{reset_idle, tick_lsr, tick_idle, leave_window}

-- sqPushBack and sqPopFront, on the order of a queue.
abbrev pub enqueue : SchedulerRr → ℕ → ℕ → SchedulerRr
enqueue s prio t = record {
  qs = update s.qs prio (s.qs prio ++ t ∷ []);
  active_qs = set_bit s.active_qs prio;
}

-- The front of a queue leaves it, and its bit is cleared when the queue is empty then.
abbrev pub dequeue : SchedulerRr → ℕ → List ℕ → SchedulerRr
dequeue s prio rest = record {
  qs = update s.qs prio rest;
  active_qs = elim rest [ [] ↦ unset_bit s.active_qs prio | _ ∷ _ ↦ s.active_qs ];
}

abbrev pub this_rr : Kernel → SchedulerRr
this_rr k = k.rr k.this_cpu

abbrev pub set_rr : Kernel → ℕ → SchedulerRr → Kernel
set_rr k cpu s = record k { rr = update k.rr cpu s }

abbrev set_remaining : ℕ → ℕ → Kernel → Kernel
set_remaining t n k = record k {
  tasks =
      update k.tasks t
        (with_thread (k.tasks t) (record ((k.tasks t).thread) { remaining_timeslice_ticks = n }));
}

-- The switch of kSchedTaskPushRr on the type of the task.
unfoldable pub push_as : TaskType → ℕ → Act
push_as TaskType.thread t k = ok tt (
    set_rr k (k.tasks t).cpu_id
      (enqueue (k.rr (k.tasks t).cpu_id) (k.tasks t).thread.param_rr.prio t))
push_as TaskType.idle t k = set_task t (reset_idle (k.tasks t)) k
push_as _ t k = ok tt k

-- kSchedTaskPushRr
unfoldable pub push : ℕ → Act
unfolding push_as
push t k = push_as (k.tasks t).type t k

-- The highest queue is popped; an active queue with no node would be a null dereference.
pop_queue : ℕ → List ℕ → M ℕ
pop_queue prio [] k = assert_failed
pop_queue prio (t ∷ rest) k = ok t (
    set_remaining t (k.tasks t).thread.param_rr.timeslice_ticks
      (set_rr k k.this_cpu (dequeue (this_rr k) prio rest)))

-- The switch of kSchedTaskTickCallbackRr; the timeslice counts down in 32 bits.
unfoldable pub tick_as : TaskType → ℕ → Act
tick_as TaskType.thread t k =
    ok tt (set_remaining t (((k.tasks t).thread.remaining_timeslice_ticks + 2 ^ 32 - 1) % 2 ^ 32) k)
tick_as TaskType.lsr t k = set_task t (tick_lsr (k.tasks t)) k
tick_as TaskType.idle t k = set_task t (tick_idle (k.tasks t)) k
tick_as TaskType.invalid t k = ok tt k

module _ (cfg : Config) where
  -- kSchedTaskPopRr
  unfoldable pub pop : M ℕ
  unfolding pop_queue
  pop k = elim (fls (this_rr k).active_qs cfg.num_prio 0) [
    | none ↦ ok (k.idle_task k.this_cpu) k
    | some prio ↦ pop_queue prio ((this_rr k).qs prio) k
  ]

  -- kSchedTaskTickCallbackRr
  unfoldable pub tick_callback : ℕ → Act
  unfolding tick_as
  tick_callback t k = tick_as (k.tasks t).type t k

  -- A thread whose timeslice is over goes on with a new one.
  refill : ℕ → M Bool
  refill t k =
      let v = (k.tasks t).thread in
      if v.remaining_timeslice_ticks == 0
      then ok false (set_remaining t v.param_rr.timeslice_ticks k)
      else ok false k

  -- The running thread against the highest active queue at its priority or above.
  unfoldable pub preempted : ℕ → M Bool
  unfolding refill
  preempted t k =
      let v = (k.tasks t).thread in
      elim (fls (k.rr (k.tasks t).cpu_id).active_qs cfg.num_prio v.param_rr.prio) [
        | some idx ↦
            if ltb v.param_rr.prio idx
            then ok true k
            else (if idx == v.param_rr.prio
                then ok (v.remaining_timeslice_ticks == 0) k
                else refill t k)
        | none ↦ refill t k
      ]

  -- kSchedShouldRescheduleRr
  unfoldable pub should_reschedule : M Bool
  unfolding preempted
  should_reschedule = do
    k ← get
    t ← not_null (this_machine k).running_task
    v ← task_of t
    assert (is_running v.state)
    elim v.type [
      | TaskType.thread ↦ preempted t
      | TaskType.idle ↦ pure (not (is_empty (k.rr v.cpu_id).active_qs cfg.num_prio))
      | _ ↦ pure false
    ]

  -- kSchedTaskLsrOutCallbackRr
  unfoldable pub lsr_out_callback : ℕ → Act
  lsr_out_callback = leave_window

  -- kSchedGetIdleRr
  unfoldable pub get_idle : ℕ → M (Option ℕ)
  get_idle = idle_of cfg

  -- kSchedInitRr
  unfoldable pub init : Act
  init k = idle_init cfg (k.idle_task k.this_cpu) k

  -- `ops` of kSchedRr.c
  unfoldable pub ops : SchedOps
  unfolding push pop tick_callback should_reschedule lsr_out_callback get_idle init
  ops = record {
    init = init;
    tick_transition_callback = skip;
    push = push;
    pop = pop;
    tick_callback = tick_callback;
    should_reschedule = should_reschedule;
    lsr_out_callback = lsr_out_callback;
    get_idle = get_idle;
  }
