-- ===== src/Tick/Switch.antt =====
-- The entry points of kTick.c: a tick, the interrupts of LSRs and the calls that leave a task.
use workhorse_rt.Common.{
  ℕ, Bool, true, false, not, ◌&&◌, ◌||◌, Option, none, some, List, [], ◌∷◌, ◌==◌, ltb,
  if◌then◌else◌, update,
}
use workhorse_rt.DeltaChain
use workhorse_rt.Kernel.{SchedState, Config, Event}
use workhorse_rt.Kernel.Monad.{
  Act, get, ok, assert_failed, pure, ◌>>=◌, ◌>>◌, modify, emit, assert, skip, when, task_of,
  this_machine, machine, set_machine, not_null, is_some, is_thread, is_lsr, is_ready, is_running,
  is_deftick_pending,
}
use workhorse_rt.Sched.{SchedOps}
use workhorse_rt.Tick.State.{load_next_state, sched_task_pop, prepare_leave, is_ds}
use workhorse_rt.Tick.Periods.{
  replenishment_period, handle_deferred_ticks, tick_running_task, sleep_period,
}

-- Whether the stack of deferred ticks begins with the node of `t`; the asserted pop.
abbrev pop_own_deferred : ℕ → Act
pop_own_deferred t k = elim (this_machine k).deferred_ticks [
  | [] ↦ assert_failed
  | p ∷ rest ↦
      if p == t
      then ok tt (record k {
        machines = update k.machines k.this_cpu (record (this_machine k) { deferred_ticks = rest });
      })
      else assert_failed
]

module _ (cfg : Config) (ops : SchedOps) where
  -- Runs the task that the policy picks.
  unfoldable pub run_next : Act
  run_next = do t ← sched_task_pop cfg ops; load_next_state cfg ops t SchedState.running

  -- kTickReschedulingPoint
  unfoldable pub rescheduling_point : Act
  unfolding run_next
  rescheduling_point = do
    m ← machine
    t ← not_null m.running_task
    v ← task_of t
    assert (is_running v.state)
    let budget_done = is_thread v.type && (v.thread.tick.current_budget == 0)
    reschedule ←
        if not budget_done && not (is_lsr v.type) then ops.should_reschedule else pure false
    when (budget_done || reschedule) (do
      prepare_leave cfg ops
      load_next_state cfg ops t
          (if reschedule then SchedState.ready else SchedState.thread_throttled)
      run_next)

  -- kTickTransition
  unfoldable pub transition : Act
  unfolding rescheduling_point
  transition = do
    ops.tick_transition_callback
    when (not (is_ds cfg.algorithm)) (replenishment_period cfg ops)
    handle_deferred_ticks cfg ops
    tick_running_task cfg ops
    when (is_ds cfg.algorithm) (replenishment_period cfg ops)
    sleep_period cfg ops
    rescheduling_point

  -- kTickLsrPush
  unfoldable pub lsr_push : ℕ → Act
  lsr_push t = load_next_state cfg ops t SchedState.lsr_pending

  -- The running task leaves for the interrupt of an LSR, which may not preempt another LSR.
  unfoldable pub suspend : ℕ → Act
  suspend t = do
    prepare_leave cfg ops
    v ← task_of t
    load_next_state cfg ops t
        (if is_lsr v.type then SchedState.lsr_pending else SchedState.deftick_pending)

  suspend_running : Option ℕ → Act
  suspend_running none = skip
  suspend_running (some t) = do v ← task_of t; assert (is_running v.state); suspend t

  -- kTickLsrPushCurrent
  unfoldable pub lsr_push_current : Act
  unfolding suspend suspend_running
  lsr_push_current = do m ← machine; suspend_running m.running_task

  -- The task that the LSRs interrupted runs again, and gives up a deferred tick that it still has.
  unfoldable pub resume : ℕ → Act
  unfolding rescheduling_point
  resume t = do
    v ← task_of t
    assert (not (is_lsr v.type))
    assert (not (is_thread v.type) || ltb 0 v.thread.tick.current_budget)
    m ← machine
    set_machine (record m { pending_task_lsr = none })
    when (is_deftick_pending v.state) (pop_own_deferred t)
    load_next_state cfg ops t SchedState.running
    rescheduling_point

  -- kTickReschedule once no task is running, by its stack of pending LSRs and the interrupted task
  -- that it read at its start.
  unfoldable pub dispatch : List ℕ → Option ℕ → Act
  dispatch (l ∷ rest) pending = do
    m ← machine
    set_machine (record m { pending_lsr_chain = rest })
    v ← task_of l
    assert (is_lsr v.type)
    load_next_state cfg ops l SchedState.running
  dispatch [] none = run_next
  dispatch [] (some t) = resume t

  unfoldable pub dispatch_next : Option ℕ → Act
  unfolding dispatch
  dispatch_next pending = do m ← machine; dispatch m.pending_lsr_chain pending

  abbrev is_empty : List ℕ → Bool
  is_empty [] = true
  is_empty (_ ∷ _) = false

  -- kTickReschedule by the running task that it read at its start.
  unfoldable pub reschedule_from : Option ℕ → Option ℕ → Act
  reschedule_from none pending = dispatch_next pending
  reschedule_from (some t) pending = do
    v ← task_of t
    assert (is_running v.state)
    if is_lsr v.type then skip else (do
      assert (not (is_some pending))
      m ← machine
      if is_empty m.pending_lsr_chain then skip else (do
        prepare_leave cfg ops
        load_next_state cfg ops t SchedState.deftick_pending
        dispatch_next pending))

  -- kTickReschedule
  unfoldable pub reschedule : Act
  unfolding reschedule_from dispatch_next
  reschedule = do m ← machine; reschedule_from m.running_task m.pending_task_lsr

  -- kTickSwitchRunningTask
  unfoldable pub switch_running_task : SchedState → Act
  unfolding reschedule
  switch_running_task next = do
    m ← machine
    t ← not_null m.running_task
    prepare_leave cfg ops
    load_next_state cfg ops t next
    reschedule

  -- kTickPluginTaskThreadInit; the plugins run before gPluginsDone is set.
  unfoldable pub plugin_task_thread_init : ℕ → Act
  plugin_task_thread_init t = do
    k ← get
    v ← task_of t
    assert (not k.plugins_done)
    assert (is_thread v.type)
    when (is_ds cfg.algorithm && ltb 0 v.thread.tick.period) (
        modify λ k.
          let m = k.machines v.cpu_id in
          let (nodes, chain) =
            DeltaChain.insert k.replenish_nodes m.replenishment_chain t v.thread.tick.period in
          record k {
            replenish_nodes = nodes;
            machines = update k.machines v.cpu_id (record m { replenishment_chain = chain });
          })
    assert (is_ready v.state)
    ops.push t
    emit (Event.activation t)
