-- ===== src/Tick/Loops.antt =====
-- The loops of a transition end: the fuel that the model gives them is enough.
use workhorse_rt.Common.{
  ℕ, suc, ◌≡◌, ◌≢◌, refl, ap, Bool, true, false, not, ltb, leb, ◌-◌, ◌&&◌, ◌||◌, ◌==◌, Option, none,
  some, arith, if◌then◌else◌,
}
use workhorse_rt.DeltaChain
use workhorse_rt.DeltaChain.{pop_expired, DeltaChain, Nodes}
use workhorse_rt.Kernel.{SchedState, Kernel, Config, Algorithm}
use workhorse_rt.Kernel.Monad.{
  same_state, is_lsr, is_idle, is_thread, is_deftick_pending, is_deftick_sleep, is_throttled,
  out_of_fuel, Act, ◌>>=◌, ◌>>◌, when, this_machine, set_machine, machine,
}
use workhorse_rt.Sched.{SchedOps}
use workhorse_rt.Sched.Quiet.{IsQuiet}
use workhorse_rt.Tick.State.{
  is_ds, run_callbacks, load_next_state, enter_state, throttle, insert_replenish, insert_sleep,
}
use workhorse_rt.Tick.Steps.{with_machine}
use workhorse_rt.Tick.Keeps.{
  Keeps, steps, bind-Keeps, assert-Keeps, task_of-Keeps, when-Keeps, get-Keeps, if-Keeps, IsApart,
  push-Keeps, run_callbacks-Keeps, load_next_state-Keeps, set_budget-Keeps, set_lag-Keeps,
}
use workhorse_rt.Tick.Periods.{
  replenish, pop_replenish, replenishment_period, resumed, should_throttle, pop_deferred,
  deferred_tick, deferred_thread, handle_deferred_ticks, pop_sleep, wake, sleep_period,
}
use workhorse_rt.Tick.Drain.{
  drain-Ends, deferred, sleepers, replenishing, deferred-IsApart, sleepers-IsApart,
  replenishing-IsApart, pop_deferred-Taken, pop_sleep-Taken, pop_replenish-Taken,
}

skipped : {b : Bool} {f : Kernel → ℕ} → b ≡ false → (m : Act) → Keeps f (when b m)
skipped e m = record { kept = λ k. rw e refl }

module _ (cfg : Config) (ops : SchedOps) (quiet : IsQuiet ops) where
  enter_ready :
      (f : Kernel → ℕ) (apart : IsApart f) (t : ℕ)
      → Keeps f (enter_state cfg ops t SchedState.ready)
  unfolding enter_state
  enter_ready f apart t = search (steps, push-Keeps cfg ops quiet f apart) depth 20

  -- The replenishment chain is neither of the two lists.
  insert_replenish-deferred : (t delta : ℕ) → Keeps deferred (insert_replenish t delta)
  insert_replenish-deferred t delta = record { kept = λ k. ground arith }

  insert_replenish-sleepers : (t delta : ℕ) → Keeps sleepers (insert_replenish t delta)
  insert_replenish-sleepers t delta = record { kept = λ k. ground arith }

  insert_sleep-deferred : (t delta : ℕ) → Keeps deferred (insert_sleep t delta)
  insert_sleep-deferred t delta = record { kept = λ k. ground arith }

  set_pending-deferred :
      (p : Option ℕ)
      → Keeps deferred (machine >>= λ m. set_machine (record m { pending_task_lsr = p }))
  set_pending-deferred p = record { kept = λ k. ground arith }

  enter_throttled :
      (f : Kernel → ℕ) (apart : IsApart f) (t : ℕ)
      → ((delta : ℕ) → Keeps f (insert_replenish t delta))
      → Keeps f (enter_state cfg ops t SchedState.thread_throttled)
  unfolding enter_state throttle
  enter_throttled f apart t inserts =
      search (steps, set_lag-Keeps cfg ops quiet f apart, inserts) depth 20

  load_either :
      (f : Kernel → ℕ) (t : ℕ) (s next : SchedState) (b : Bool)
      → Keeps f (load_next_state cfg ops t s)
      → Keeps f (load_next_state cfg ops t next)
      → Keeps f (load_next_state cfg ops t (if b then s else next))
  load_either f t s next true h i = h
  load_either f t s next false h i = i

  module _ (f : Kernel → ℕ) (apart : IsApart f) (t : ℕ)
      (inserts : (delta : ℕ) → Keeps f (insert_replenish t delta)) where
    load_ready : Keeps f (load_next_state cfg ops t SchedState.ready)
    load_ready =
        load_next_state-Keeps cfg ops quiet f apart t SchedState.ready (enter_ready f apart t)

    load_throttled : Keeps f (load_next_state cfg ops t SchedState.thread_throttled)
    load_throttled =
        load_next_state-Keeps cfg ops quiet f apart t SchedState.thread_throttled
          (enter_throttled f apart t inserts)

  load_woken :
      (t : ℕ) (b : Bool)
      → Keeps sleepers
          (load_next_state cfg ops t (if b then SchedState.thread_throttled else SchedState.ready))
  load_woken t b =
      let inserts = insert_replenish-sleepers t in
      load_either sleepers t SchedState.thread_throttled SchedState.ready b
        (load_throttled sleepers sleepers-IsApart t inserts)
        (load_ready sleepers sleepers-IsApart t inserts)

  wake-Keeps : (t : ℕ) → Keeps sleepers (wake cfg ops t)
  unfolding wake
  wake-Keeps t = bind-Keeps (task_of-Keeps {t = t}) (λ v.
      let c = v.thread.tick in
      let spent = c.current_budget == 0 in
      let waits = if is_ds cfg.algorithm then ltb 0 c.period else leb c.sleep_ticks c.period in
      bind-Keeps (assert-Keeps (is_thread v.type)) (λ _.
        bind-Keeps (assert-Keeps (ltb 0 c.sleep_ticks)) (λ _.
          bind-Keeps
            (when-Keeps (spent && waits && not (is_ds cfg.algorithm))
              (set_lag-Keeps cfg ops quiet sleepers sleepers-IsApart t true))
            (λ _.
              bind-Keeps
                (when-Keeps (spent && not waits)
                  (set_budget-Keeps cfg ops quiet sleepers sleepers-IsApart t c.budget))
                (λ _.
                  bind-Keeps (task_of-Keeps {t = t})
                    (λ w. load_woken t (w.thread.tick.current_budget == 0)))))))

  load_pending : (t : ℕ) → Keeps deferred (load_next_state cfg ops t SchedState.pending)
  unfolding enter_state
  load_pending t =
      load_next_state-Keeps cfg ops quiet deferred deferred-IsApart t SchedState.pending (
        bind-Keeps (task_of-Keeps {t = t}) (λ v.
          bind-Keeps (assert-Keeps (not (is_lsr v.type))) (λ _. set_pending-deferred (some t))))

  load_sleep : (t : ℕ) → Keeps deferred (load_next_state cfg ops t SchedState.thread_sleep)
  unfolding enter_state
  load_sleep t =
      load_next_state-Keeps cfg ops quiet deferred deferred-IsApart t SchedState.thread_sleep
        (search (steps, insert_sleep-deferred t) depth 20)

  load_resumed :
      (t : ℕ) (s : SchedState) → Keeps deferred (load_next_state cfg ops t (resumed cfg ops s))
  load_resumed t s =
      load_either deferred t SchedState.pending SchedState.ready (is_deftick_pending s)
        (load_pending t) (load_ready deferred deferred-IsApart t (insert_replenish-deferred t))

  runs : (t : ℕ) {m : Act} → Keeps deferred m → Keeps deferred (run_callbacks cfg ops t >> m)
  runs t h = bind-Keeps (run_callbacks-Keeps cfg ops quiet deferred deferred-IsApart t) (λ _. h)

  deferred_thread-Keeps :
      (t : ℕ) (s : SchedState) (budget : ℕ) → Keeps deferred (deferred_thread cfg ops t s budget)
  unfolding deferred_thread
  deferred_thread-Keeps t s budget = bind-Keeps get-Keeps (λ k.
      if-Keeps (budget == 0)
        (if-Keeps (should_throttle cfg ops t k)
          (bind-Keeps (when-Keeps (is_deftick_pending s) (set_pending-deferred none)) (λ _.
            runs t (load_throttled deferred deferred-IsApart t (insert_replenish-deferred t))))
          (bind-Keeps (set_budget-Keeps cfg ops quiet deferred deferred-IsApart t _)
            (λ _. runs t (load_resumed t s))))
        (runs t (load_resumed t s)))

  deferred_tick-Keeps : (t : ℕ) → Keeps deferred (deferred_tick cfg ops t)
  unfolding deferred_tick
  deferred_tick-Keeps t = bind-Keeps (task_of-Keeps {t = t}) (λ v.
      let may_run =
        same_state v.state SchedState.deftick_yield
        || same_state v.state SchedState.deftick_throttle
        || is_deftick_pending v.state
        || is_deftick_sleep v.state in
      let budget =
        if same_state v.state SchedState.deftick_throttle
        then 0
        else v.thread.tick.current_budget - 1 in
      bind-Keeps (assert-Keeps (not (is_lsr v.type))) (λ _.
        if-Keeps (is_idle v.type)
          (bind-Keeps (assert-Keeps (is_deftick_pending v.state)) (λ _. runs t (load_pending t)))
          (bind-Keeps (assert-Keeps may_run) (λ _.
            bind-Keeps (assert-Keeps (ltb 0 v.thread.tick.current_budget)) (λ _.
              bind-Keeps (set_budget-Keeps cfg ops quiet deferred deferred-IsApart t budget) (λ _.
                if-Keeps (is_deftick_sleep v.state) (runs t (load_sleep t))
                  (deferred_thread-Keeps t v.state budget)))))))

  -- Under a policy that keeps to its own fields, kTickHandleDeferredTicks ends: it never needs more
  -- rounds than there are tasks with a deferred tick.
  pub handle_deferred_ticks_ends : (k : Kernel) → handle_deferred_ticks cfg ops k ≢ out_of_fuel
  unfolding handle_deferred_ticks
  handle_deferred_ticks_ends k =
      drain-Ends deferred pop_deferred (deferred_tick cfg ops) pop_deferred-Taken
        deferred_tick-Keeps (suc (deferred k)) k (omega arith)

  -- Under a policy that keeps to its own fields, kTickSleepPeriod ends: it never needs more rounds
  -- than there are sleeping threads.
  pub sleep_period_ends : (k : Kernel) → sleep_period cfg ops k ≢ out_of_fuel
  unfolding sleep_period
  sleep_period_ends k =
      let m = this_machine k in
      let (nodes, chain) = DeltaChain.tick k.sleep_nodes m.sleep_chain in
      let ticked = record (with_machine k (record m { sleep_chain = chain })) {
        sleep_nodes = nodes;
      } in
      drain-Ends sleepers pop_sleep (wake cfg ops) pop_sleep-Taken wake-Keeps
        (suc (sleepers ticked)) ticked (omega arith)

  replenish-Keeps :
      cfg.algorithm ≡ Algorithm.bcs → (t : ℕ) → Keeps replenishing (replenish cfg ops t)
  unfolding replenish
  replenish-Keeps bcs t = bind-Keeps (task_of-Keeps {t = t}) (λ v.
      bind-Keeps (assert-Keeps (is_thread v.type)) (λ _.
        bind-Keeps (assert-Keeps (is_ds cfg.algorithm || is_throttled v.state)) (λ _.
          bind-Keeps
            (set_budget-Keeps cfg ops quiet replenishing replenishing-IsApart t
              v.thread.tick.budget)
            (λ _.
              bind-Keeps (skipped (ap is_ds bcs) (insert_replenish t v.thread.tick.period)) (λ _.
                when-Keeps (is_throttled v.state) (
                  load_next_state-Keeps cfg ops quiet replenishing replenishing-IsApart t
                    SchedState.ready (enter_ready replenishing replenishing-IsApart t)))))))

  -- With the BCS algorithm, under a policy that keeps to its own fields, kTickReplenishmentPeriod
  -- ends: it never needs more rounds than there are threads that wait for a new budget.
  pub replenishment_period_ends :
      (k : Kernel) → cfg.algorithm ≡ Algorithm.bcs → replenishment_period cfg ops k ≢ out_of_fuel
  unfolding replenishment_period
  replenishment_period_ends k bcs =
      let m = this_machine k in
      let (nodes, chain) = DeltaChain.tick k.replenish_nodes m.replenishment_chain in
      let ticked = record (with_machine k (record m { replenishment_chain = chain })) {
        replenish_nodes = nodes;
      } in
      drain-Ends replenishing pop_replenish (replenish cfg ops) pop_replenish-Taken
        (replenish-Keeps bcs) (suc (replenishing ticked)) ticked (omega arith)
