-- ===== src/Tick/Periods.antt =====
-- The parts of kTickTransition: replenishment, deferred ticks, the running task and the sleepers.
use workhorse_rt.Common.{
  ℕ, zero, suc, ◌-◌, Bool, true, not, ◌&&◌, ◌||◌, Option, none, some, [], ◌∷◌, ◌==◌, ltb, leb,
  if◌then◌else◌, update, length,
}
use workhorse_rt.DeltaChain
use workhorse_rt.Kernel.{SchedState, Kernel, Config}
use workhorse_rt.Kernel.Monad.{
  M, Act, ok, out_of_fuel, ◌>>=◌, ◌>>◌, get, modify, assert, skip, when, task_of, set_budget,
  set_lag, this_machine, machine, set_machine, not_null, is_thread, is_lsr, is_idle, is_running,
  is_throttled, is_deftick_pending, is_deftick_sleep, same_state,
}
use workhorse_rt.Sched.{SchedOps}
use workhorse_rt.Tick.State.{
  throttle_time_left, is_ds, run_callbacks, load_next_state, insert_replenish,
}

-- deltaChainTick and deltaChainPopExpired on the two chains of the machine.
abbrev pub tick_replenish : Act
tick_replenish = modify λ k.
    let (nodes, chain) = DeltaChain.tick k.replenish_nodes (this_machine k).replenishment_chain in
    record k {
      replenish_nodes = nodes;
      machines =
          update k.machines k.this_cpu (record (this_machine k) { replenishment_chain = chain });
    }

abbrev pub pop_replenish : M (Option ℕ)
pop_replenish k =
    let (p, chain) =
      DeltaChain.pop_expired k.replenish_nodes (this_machine k).replenishment_chain in
    ok p (record k {
      machines =
          update k.machines k.this_cpu (record (this_machine k) { replenishment_chain = chain });
    })

abbrev pub tick_sleep : Act
tick_sleep = modify λ k.
    let (nodes, chain) = DeltaChain.tick k.sleep_nodes (this_machine k).sleep_chain in
    record k {
      sleep_nodes = nodes;
      machines = update k.machines k.this_cpu (record (this_machine k) { sleep_chain = chain });
    }

abbrev pub pop_sleep : M (Option ℕ)
pop_sleep k =
    let (p, chain) = DeltaChain.pop_expired k.sleep_nodes (this_machine k).sleep_chain in
    ok p (record k {
      machines = update k.machines k.this_cpu (record (this_machine k) { sleep_chain = chain });
    })

abbrev pub pop_deferred : M (Option ℕ)
pop_deferred k = elim (this_machine k).deferred_ticks [
  | [] ↦ ok none k
  | t ∷ rest ↦ ok (some t) (record k {
    machines = update k.machines k.this_cpu (record (this_machine k) { deferred_ticks = rest });
  })
]

-- `while ((node = pop()) != NULL) body(node)`, for as many rounds as the fuel.
unfoldable pub drain : M (Option ℕ) → (ℕ → Act) → ℕ → Act
drain pop body zero k = out_of_fuel
drain pop body (suc fuel) k =
    (do p ← pop; elim p [ none ↦ skip | some t ↦ (do body t; drain pop body fuel) ]) k

module _ (cfg : Config) (ops : SchedOps) where
  -- One replenished thread: under DS its node goes back into the chain for the next period.
  unfoldable pub replenish : ℕ → Act
  replenish t = do
    v ← task_of t
    assert (is_thread v.type)
    assert (is_ds cfg.algorithm || is_throttled v.state)
    set_budget t v.thread.tick.budget
    when (is_ds cfg.algorithm) (insert_replenish t v.thread.tick.period)
    when (is_throttled v.state) (load_next_state cfg ops t SchedState.ready)

  -- kTickReplenishmentPeriod
  unfoldable pub replenishment_period : Act
  unfolding replenish drain
  replenishment_period = do
    tick_replenish
    k ← get
    drain pop_replenish replenish (suc (length (this_machine k).replenishment_chain.dq))

  -- Whether a thread with no budget left has to wait for its next one.
  unfoldable pub should_throttle : ℕ → Kernel → Bool
  should_throttle t k =
      ltb 0 (k.tasks t).thread.tick.period
      && (not (is_ds cfg.algorithm) || ltb 1 (throttle_time_left t k))

  -- The state after a deferred tick: a task that an LSR interrupted goes on where it was.
  abbrev pub resumed : SchedState → SchedState
  resumed s = if is_deftick_pending s then SchedState.pending else SchedState.ready

  -- The tick of a deferred thread that is not going to sleep.
  unfoldable pub deferred_thread : ℕ → SchedState → ℕ → Act
  deferred_thread t state budget = do
    k ← get
    let v = k.tasks t
    if budget == 0
        then (if should_throttle t k
            then (do
              when (is_deftick_pending state)
                  (do m ← machine; set_machine (record m { pending_task_lsr = none }))
              run_callbacks cfg ops t
              load_next_state cfg ops t SchedState.thread_throttled)
            else (do
              set_budget t v.thread.tick.budget
              run_callbacks cfg ops t
              load_next_state cfg ops t (resumed state)))
        else (do run_callbacks cfg ops t; load_next_state cfg ops t (resumed state))

  -- One round of the loop of kTickHandleDeferredTicks.
  unfoldable pub deferred_tick : ℕ → Act
  unfolding deferred_thread
  deferred_tick t = do
    v ← task_of t
    assert (not (is_lsr v.type))
    if is_idle v.type
        then (do
          assert (is_deftick_pending v.state)
          run_callbacks cfg ops t
          load_next_state cfg ops t SchedState.pending)
        else (do
          assert (
              same_state v.state SchedState.deftick_yield
              || same_state v.state SchedState.deftick_throttle
              || is_deftick_pending v.state
              || is_deftick_sleep v.state)
          assert (ltb 0 v.thread.tick.current_budget)
          let budget =
              if same_state v.state SchedState.deftick_throttle
              then 0
              else v.thread.tick.current_budget - 1
          set_budget t budget
          if is_deftick_sleep v.state
              then (do run_callbacks cfg ops t; load_next_state cfg ops t SchedState.thread_sleep)
              else deferred_thread t v.state budget)

  -- kTickHandleDeferredTicks
  unfoldable pub handle_deferred_ticks : Act
  unfolding deferred_tick drain
  handle_deferred_ticks = do
    k ← get
    drain pop_deferred deferred_tick (suc (length (this_machine k).deferred_ticks))

  -- kTickRunningTask
  unfoldable pub tick_running_task : Act
  tick_running_task = do
    m ← machine
    t ← not_null m.running_task
    v ← task_of t
    assert (is_running v.state)
    when (is_thread v.type) (do
      assert (ltb 0 v.thread.tick.current_budget)
      k ← get
      let left = v.thread.tick.current_budget - 1
      set_budget t (if left == 0 && not (should_throttle t k) then v.thread.tick.budget else left))
    run_callbacks cfg ops t

  -- One woken thread.
  unfoldable pub wake : ℕ → Act
  wake t = do
    v ← task_of t
    let c = v.thread.tick
    assert (is_thread v.type)
    assert (ltb 0 c.sleep_ticks)
    let spent = c.current_budget == 0
    let waits = if is_ds cfg.algorithm then ltb 0 c.period else leb c.sleep_ticks c.period
    when (spent && waits && not (is_ds cfg.algorithm)) (set_lag t true)
    when (spent && not waits) (set_budget t c.budget)
    w ← task_of t
    load_next_state cfg ops t (
        if w.thread.tick.current_budget == 0 then SchedState.thread_throttled else SchedState.ready)

  -- kTickSleepPeriod
  unfoldable pub sleep_period : Act
  unfolding wake drain
  sleep_period = do
    tick_sleep
    k ← get
    drain pop_sleep wake (suc (length (this_machine k).sleep_chain.dq))
