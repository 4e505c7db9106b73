-- ===== src/Tick/State.antt =====
-- kTickTaskLoadNextState of src/workhorse/kTick/kTick.c and what it calls. `cfg` is the configuration and `ops` the
-- scheduling policy; a port's and a plugin's code is what the trace records.
use workhorse_rt.Common.{
  ℕ, ◌-◌, Bool, true, false, not, ◌&&◌, ◌||◌, none, some, ◌∷◌, ltb, leb, if◌then◌else◌, update,
}
use workhorse_rt.DeltaChain
use workhorse_rt.DeltaChain.{u32}
use workhorse_rt.Kernel.{SchedState, Kernel, Config, Event, Algorithm, ds, bcs, is_activated}
use workhorse_rt.Kernel.Monad.{
  M, Act, pure, is_some, ◌>>=◌, ◌>>◌, modify, emit, assert, skip, when, call_if, task_of, set_state,
  set_lag, this_machine, machine, set_machine, not_null, is_thread, is_lsr, is_idle, is_invalid,
  is_ready, is_running, same_state,
}
use workhorse_rt.Sched.{SchedOps}

-- deltaChainInsert on the two chains of the machine.
abbrev pub insert_replenish : ℕ → ℕ → Act
insert_replenish t delta = modify λ k.
    let (nodes, chain) =
      DeltaChain.insert k.replenish_nodes (this_machine k).replenishment_chain t delta in
    record k {
      replenish_nodes = nodes;
      machines =
          update k.machines k.this_cpu (record (this_machine k) { replenishment_chain = chain });
    }

abbrev pub insert_sleep : ℕ → ℕ → Act
insert_sleep t delta = modify λ k.
    let (nodes, chain) = DeltaChain.insert k.sleep_nodes (this_machine k).sleep_chain t delta in
    record k {
      sleep_nodes = nodes;
      machines = update k.machines k.this_cpu (record (this_machine k) { sleep_chain = chain });
    }

abbrev pub push_deferred : ℕ → Act
push_deferred t = do m ← machine; set_machine (record m { deferred_ticks = t ∷ m.deferred_ticks })

-- kTickThrottleTimeLeft
unfoldable pub throttle_time_left : ℕ → Kernel → ℕ
throttle_time_left t k =
    DeltaChain.time_until k.replenish_nodes (this_machine k).replenishment_chain t

abbrev pub is_ds : Algorithm → Bool
is_ds ds = true
is_ds bcs = false

module _ (cfg : Config) (ops : SchedOps) where
  -- kTickTaskRunCallbacks
  unfoldable pub run_callbacks : ℕ → Act
  run_callbacks t = do v ← task_of t; ops.tick_callback t; call_if v.callbacks.tick_callback_fn t

  -- The period that a throttled thread waits for under BCS, less the ticks that it has slept.
  unfoldable pub throttle : ℕ → Act
  throttle t = do
    v ← task_of t
    let c = v.thread.tick
    when c.lag
        (do assert (ltb 0 c.sleep_ticks); assert (leb c.sleep_ticks c.period); set_lag t false)
    insert_replenish t (if c.lag then c.period - (c.sleep_ticks - 1) else c.period)

  -- The switch of kTickTaskLoadNextState.
  unfoldable pub enter_state : ℕ → SchedState → Act
  unfolding throttle
  enter_state t SchedState.ready = do v ← task_of t; assert (not (is_lsr v.type)); ops.push t
  enter_state t SchedState.running = do
    v ← task_of t
    assert (not (is_idle v.type) || not (is_some v.domain.cur_domain))
    when (not (is_idle v.type)) (emit (Event.enter_domain v.domain.cur_domain))
    emit (Event.restore_ctx t)
    m ← machine
    set_machine (record m { running_task = some t })
    call_if v.callbacks.in_callback_fn t
  enter_state t SchedState.thread_throttled = do
    v ← task_of t
    assert (is_thread v.type)
    when (not (is_ds cfg.algorithm)) (throttle t)
  enter_state t SchedState.lsr_dormant = do
    v ← task_of t
    assert (is_lsr v.type)
    emit (Event.lsr_push t)
  enter_state t SchedState.deftick_yield = do
    v ← task_of t
    assert (is_thread v.type)
    push_deferred t
  enter_state t SchedState.deftick_throttle = do
    v ← task_of t
    assert (is_thread v.type)
    push_deferred t
  enter_state t SchedState.deftick_sleep = do
    v ← task_of t
    assert (is_thread v.type)
    push_deferred t
  enter_state t SchedState.deftick_pending = do
    v ← task_of t
    assert (not (is_lsr v.type))
    m ← machine
    set_machine (record m { pending_task_lsr = some t; deferred_ticks = t ∷ m.deferred_ticks })
  enter_state t SchedState.thread_sleep = do
    v ← task_of t
    assert (is_thread v.type)
    assert (ltb 0 v.thread.tick.sleep_ticks)
    insert_sleep t v.thread.tick.sleep_ticks
  enter_state t SchedState.pending = do
    v ← task_of t
    assert (not (is_lsr v.type))
    m ← machine
    set_machine (record m { pending_task_lsr = some t })
  enter_state t SchedState.lsr_pending = do
    v ← task_of t
    assert (is_lsr v.type)
    m ← machine
    set_machine (record m { pending_lsr_chain = t ∷ m.pending_lsr_chain })
  enter_state t SchedState.failure = skip
  enter_state t SchedState.invalid = assert false

  -- kTickTaskLoadNextState, behind its switch.
  unfoldable pub run_state_callbacks : ℕ → SchedState → SchedState → Act
  run_state_callbacks t old next = do
    v ← task_of t
    let awake = is_activated next && not (is_activated old)
    let asleep = not (is_activated next) && is_activated old
    when awake (do
      assert (not (is_running next))
      emit (Event.activation t)
      call_if v.callbacks.activation_callback_fn t)
    when asleep (do emit (Event.response t); call_if v.callbacks.response_callback_fn t)
    when (is_running old) (do
      when (is_lsr v.type) (ops.lsr_out_callback t)
      when (not (awake || asleep)) (call_if v.callbacks.out_callback_fn t))

  unfoldable pub load_next_state : ℕ → SchedState → Act
  load_next_state t next = do
    v ← task_of t
    assert (not (is_invalid v.type))
    assert (not (same_state next SchedState.invalid))
    when (not (same_state v.state next))
        (do set_state t next; enter_state t next; run_state_callbacks t v.state next)

  -- kTickSchedTaskPop
  unfoldable pub sched_task_pop : M ℕ
  sched_task_pop = do
    t ← ops.pop
    v ← task_of t
    assert (is_ready v.state)
    assert (not (is_lsr v.type))
    pure t

  -- kTickPrepareLeaveRunningState
  unfoldable pub prepare_leave : Act
  prepare_leave = do
    m ← machine
    t ← not_null m.running_task
    v ← task_of t
    assert (is_running v.state)
    set_machine (record m { running_task = none })
    emit (Event.save_ctx t)
