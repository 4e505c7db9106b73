-- ===== src/Tick/Budget.antt =====
-- kTickRunningTask charges the running thread one tick.
use workhorse_rt.Common.{
  subst, sym, ℕ, ◌-◌, ◌+◌, ◌%◌, ◌^◌, ◌≤◌, ◌⊎◌, ◌<◌, ◌≡◌, ◌≢◌, refl, ◌∙◌, Bool, true, false, not,
  ◌&&◌, Option, none, some, arith, ◌==◌, ltb, if◌then◌else◌, update, Bool-cases, inl, inr, ap,
}
use workhorse_rt.Kernel.{TaskType, SchedState, Kernel, Config, Algorithm}
use workhorse_rt.Kernel.Monad.{
  ok, bind, is_running, is_thread, not_null-some, assert-true, when-true, this_machine, with_tick,
  call_if,
}
use workhorse_rt.Sched.{SchedOps}
use workhorse_rt.Sched.Quiet.{IsQuiet}
use workhorse_rt.Tick.State.{run_callbacks, throttle_time_left}
use workhorse_rt.DeltaChain.{time_until}
use workhorse_rt.Tick.Steps.{called}
use workhorse_rt.Tick.Periods.{tick_running_task, should_throttle}

abbrev pub budget_of : Kernel → ℕ → ℕ
budget_of k t = (k.tasks t).thread.tick.current_budget

abbrev pub full_period_of : Kernel → ℕ → ℕ
full_period_of k t = (k.tasks t).thread.tick.period

-- The ticks until the replenishment of a thread, from the two epochs of 32 bits.
abbrev pub until_replenishment : Kernel → ℕ → ℕ
until_replenishment k t =
    ((k.replenish_nodes t).expected_epoch
      + 2 ^ 32
      - (this_machine k).replenishment_chain.current_epoch)
    % 2 ^ 32

-- The budget `new` that a tick leaves to the thread `t`.
pub data Charged (cfg : Config) (k : Kernel) (t new : ℕ) : Type 0 where
  spent : 1 < budget_of k t → new ≡ budget_of k t - 1 → Charged cfg k t new
  refilled :
      budget_of k t ≡ 1
      → (full_period_of k t ≡ 0) ⊎ ((cfg.algorithm ≡ Algorithm.ds) × (until_replenishment k t ≤ 1))
      → new ≡ (k.tasks t).thread.tick.budget
      → Charged cfg k t new
  exhausted :
      budget_of k t ≡ 1
      → 0 < full_period_of k t
      → (cfg.algorithm ≡ Algorithm.bcs)
        ⊎ ((cfg.algorithm ≡ Algorithm.ds) × (1 < until_replenishment k t))
      → new ≡ 0
      → Charged cfg k t new

abbrev pub with_budget : Kernel → ℕ → ℕ → Kernel
with_budget k t b = record k {
  tasks =
      update k.tasks t
        (with_tick (k.tasks t) (record ((k.tasks t).thread.tick) { current_budget = b }));
}

with_budget_same : (k : Kernel) (t b : ℕ) → budget_of (with_budget k t b) t ≡ b
with_budget_same k t b = ground arith

with_budget_other :
    (k : Kernel) (t b u : ℕ) → u ≢ t → budget_of (with_budget k t b) u ≡ budget_of k u
with_budget_other k t b u other = ground arith

with_budget_state :
    (k : Kernel) (t b u : ℕ) → ((with_budget k t b).tasks u).state ≡ (k.tasks u).state
with_budget_state k t b u = ground arith

call_if-called :
    (fn : Option ℕ) (t : ℕ) (k : Kernel)
    → call_if fn t k ≡ ok tt (record k { trace = called fn t k.trace })
call_if-called none t k = refl
call_if-called (some fn) t k = refl

pub run_callbacks-SameTicks :
    (cfg : Config) (ops : SchedOps) (quiet : IsQuiet ops) (t : ℕ) (k : Kernel)
    → (after : Kernel) × (run_callbacks cfg ops t k ≡ ok tt after)
      × ((u : ℕ) → (after.tasks u).thread.tick ≡ (k.tasks u).thread.tick)
      × ((u : ℕ) → (after.tasks u).state ≡ (k.tasks u).state)
      × (after.machines ≡ k.machines)
unfolding run_callbacks
run_callbacks-SameTicks cfg ops quiet t k =
    let (mid, e, same) = quiet.tick_callback t k in
    (
      record mid { trace = called (k.tasks t).callbacks.tick_callback_fn t mid.trace },
      rw e (call_if-called (k.tasks t).callbacks.tick_callback_fn t mid),
      same.tick,
      same.state,
      same.machines,
    )

-- The budget that the tick leaves to the thread.
abbrev charged : ℕ → ℕ → Bool → ℕ
charged old full throttles = let left = old - 1 in if left == 0 && not throttles then full else left

module _ (cfg : Config) (ops : SchedOps) (k : Kernel) (t : ℕ) where
  -- A thread that has to be throttled has a period, which under DS is not over with this tick.
  throttled_why :
      (a : Algorithm)
      → cfg.algorithm ≡ a
      → should_throttle cfg ops t k ≡ true
      → (0 < full_period_of k t)
        × ((cfg.algorithm ≡ Algorithm.bcs)
            ⊎ ((cfg.algorithm ≡ Algorithm.ds) × (1 < until_replenishment k t)))
  unfolding should_throttle throttle_time_left time_until
  throttled_why Algorithm.ds e h = (ground (arith, h), inr (e, ground (arith, h, e)))
  throttled_why Algorithm.bcs e h = (ground (arith, h), inl e)

  refilled_why :
      (a : Algorithm)
      → cfg.algorithm ≡ a
      → should_throttle cfg ops t k ≡ false
      → (full_period_of k t ≡ 0) ⊎ ((cfg.algorithm ≡ Algorithm.ds) × (until_replenishment k t ≤ 1))
  unfolding should_throttle throttle_time_left time_until
  refilled_why Algorithm.ds e h = elim (Bool-cases (ltb 0 (full_period_of k t))) [
    | inl some_period ↦ inr (e, ground (arith, h, e, some_period))
    | inr no_period ↦ inl (ground (arith, no_period))
  ]
  refilled_why Algorithm.bcs e h = inl (ground (arith, h, e))

  charged-Charged :
      0 < budget_of k t
      → Charged cfg k t
          (charged (budget_of k t) (k.tasks t).thread.tick.budget (should_throttle cfg ops t k))
  charged-Charged some_left = elim (Bool-cases (ltb 1 (budget_of k t))) [
    | inl e ↦ spent (ground arith) (ground arith)
    | inr e ↦ elim (Bool-cases (should_throttle cfg ops t k)) [
      | inl does ↦
          let why = throttled_why cfg.algorithm refl does in
          exhausted (ground arith) why.0 why.1 (ground arith)
      | inr not_so ↦ refilled (ground arith) (refilled_why cfg.algorithm refl not_so) (ground arith)
    ]
  ]

-- A tick on a running thread with budget left costs it one tick of budget and leaves the budget of
-- every other thread, the states of the tasks and the cpus alone. The last tick of a budget leaves 0 to
-- a thread with a period, under DS only if its replenishment is more than one tick away; any other
-- thread gets a full budget with it. That holds for any policy that keeps to its own fields.
pub tick_running_task-Charged :
    (cfg : Config) (ops : SchedOps) (k : Kernel) {t : ℕ}
    → IsQuiet ops
    → (this_machine k).running_task ≡ some t
    → (k.tasks t).state ≡ SchedState.running
    → (k.tasks t).type ≡ TaskType.thread
    → 0 < budget_of k t
    → (after : Kernel) × (tick_running_task cfg ops k ≡ ok tt after)
      × Charged cfg k t (budget_of after t)
      × ((u : ℕ) → u ≢ t → budget_of after u ≡ budget_of k u)
      × ((u : ℕ) → (after.tasks u).state ≡ (k.tasks u).state)
      × (after.machines ≡ k.machines)
unfolding tick_running_task
tick_running_task-Charged cfg ops k {t} quiet runs running thread some_left =
    let old = budget_of k t in
    let full = (k.tasks t).thread.tick.budget in
    let throttles = should_throttle cfg ops t k in
    let mid = with_budget k t (charged old full throttles) in
    let (after, e, same_tick, same_state, same_machines) =
      run_callbacks-SameTicks cfg ops quiet t mid in
    (
      after,
      not_null-some _ runs k
          ∙ assert-true _ (ap is_running running) k
          ∙ when-true _ _ (ap is_thread thread) k
          ∙ ap (λ r. bind r (λ _. run_callbacks cfg ops t))
              (assert-true {b = ltb 0 old} _ (ground arith) k)
          ∙ e,
      subst (λ n. Charged cfg k t n)
          (sym (
            ap (λ c. c.current_budget) (same_tick t)
            ∙ with_budget_same k t (charged old full throttles)))
          (charged-Charged cfg ops k t some_left),
      λ u other. ap (λ c. c.current_budget) (same_tick u) ∙ with_budget_other k t _ u other,
      λ u. same_state u ∙ with_budget_state k t _ u,
      same_machines,
    )
