-- ===== src/Tick/Deferred.antt =====
-- One round of kTickHandleDeferredTicks, by what the task was doing when its tick was deferred.
use workhorse_rt.Common.{
  ℕ, ◌-◌, ◌<◌, ◌≡◌, refl, sym, subst, ap, ◌∙◌, Bool, true, false, ◌||◌, arith, ◌==◌, ltb,
  if◌then◌else◌,
}
use workhorse_rt.Kernel.{TaskType, SchedState, Kernel, Config}
use workhorse_rt.Kernel.Monad.{
  Act, ◌>>◌, is_lsr, is_idle, is_thread, is_deftick_pending, is_deftick_sleep, same_state,
  set_budget,
}
use workhorse_rt.Sched.{SchedOps}
use workhorse_rt.Sched.Quiet.{IsQuiet}
use workhorse_rt.Tick.State.{run_callbacks, load_next_state}
use workhorse_rt.Tick.Periods.{should_throttle, resumed, deferred_thread, deferred_tick}
use workhorse_rt.Tick.Rounds.{
  Own, Owes, Leaves, Does, Owes-ready, Owes-pending, Owes-throttled, callbacks_then, budget_then,
  forget_then, loads_ready, loads_pending, loads_throttled, loads_sleep,
}

-- A task that is owed a tick: the idle task that an LSR interrupted, or a thread with budget left that
-- was interrupted, yielded, was throttled or went to sleep, with no sleep to make up for.
pub data IsOwed (k : Kernel) (t : ℕ) : Type 0 where
  idle_task :
      (k.tasks t).type ≡ TaskType.idle → (k.tasks t).state ≡ SchedState.deftick_pending → IsOwed k t
  goes_on :
      (s : SchedState)
      → Owes s
      → (k.tasks t).state ≡ s
      → (k.tasks t).type ≡ TaskType.thread
      → 0 < (k.tasks t).thread.tick.current_budget
      → (k.tasks t).thread.tick.lag ≡ false
      → IsOwed k t
  sleeper :
      (k.tasks t).state ≡ SchedState.deftick_sleep
      → (k.tasks t).type ≡ TaskType.thread
      → 0 < (k.tasks t).thread.tick.current_budget
      → 0 < (k.tasks t).thread.tick.sleep_ticks
      → IsOwed k t

leaves : {a b : SchedState} (next : SchedState) → a ≡ b → Leaves b next → Leaves a next
leaves next e l = rw e l

-- The state that a task goes to from the one in which it was owed a tick.
pub data Settled : SchedState → SchedState → Type 0 where
  sleeps : Settled SchedState.deftick_sleep SchedState.thread_sleep
  waits : Settled SchedState.deftick_pending SchedState.pending
  yielded : Settled SchedState.deftick_yield SchedState.ready
  filled : Settled SchedState.deftick_throttle SchedState.ready
  exhausted : {s : SchedState} → Owes s → Settled s SchedState.thread_throttled

module _ (cfg : Config) (ops : SchedOps) (quiet : IsQuiet ops) (t : ℕ)
    (P : SchedState → Type 0) where
  loads_resumed :
      (k : Kernel) (s : SchedState)
      → Owes s
      → (k.tasks t).state ≡ s
      → is_thread (k.tasks t).type ≡ true
      → P (resumed cfg ops s)
      → Does cfg ops quiet t P k (load_next_state cfg ops t (resumed cfg ops s))
  loads_resumed k s Owes.yields e kind p =
      loads_ready cfg ops quiet t P k kind (leaves SchedState.ready e (Owes-ready Owes.yields)) p
  loads_resumed k s Owes.throttles e kind p =
      loads_ready cfg ops quiet t P k kind (leaves SchedState.ready e (Owes-ready Owes.throttles)) p
  loads_resumed k s Owes.interrupted e kind p =
      loads_pending cfg ops quiet t P k (rw kind refl)
        (leaves SchedState.pending e (Owes-pending Owes.interrupted)) p

  if_either :
      (k : Kernel) (b : Bool) (m n : Act)
      → Does cfg ops quiet t P k m
      → Does cfg ops quiet t P k n
      → Does cfg ops quiet t P k (if b then m else n)
  if_either k true m n h i = h
  if_either k false m n h i = i

  thread_round :
      (k : Kernel) (s : SchedState) (budget : ℕ)
      → Owes s
      → (k.tasks t).state ≡ s
      → is_thread (k.tasks t).type ≡ true
      → (k.tasks t).thread.tick.lag ≡ false
      → P SchedState.thread_throttled
      → P (resumed cfg ops s)
      → Does cfg ops quiet t P k (deferred_thread cfg ops t s budget)
  unfolding deferred_thread
  thread_round k s budget owes e kind no_lag spent_up resumes =
      if_either k (budget == 0) _ _
        (if_either k (should_throttle cfg ops t k) _ _
          (forget_then cfg ops quiet t P k (is_deftick_pending s) _ (λ a own.
            callbacks_then cfg ops quiet t P a _ (λ b own'.
              loads_throttled cfg ops quiet t P b (still_thread k a b own own' kind)
                (own'.lag ∙ (own.lag ∙ no_lag))
                (leaves SchedState.thread_throttled (own'.state ∙ (own.state ∙ e))
                  (Owes-throttled owes))
                spent_up)))
          (budget_then cfg ops quiet t P k _ _ (λ a own.
            callbacks_then cfg ops quiet t P a _ (λ b own'.
              loads_resumed b s owes (own'.state ∙ (own.state ∙ e))
                (still_thread k a b own own' kind) resumes))))
        (callbacks_then cfg ops quiet t P k _
          (λ b own. loads_resumed b s owes (own.state ∙ e) (ap is_thread own.type ∙ kind) resumes))
    where
      still_thread :
          (k a b : Kernel)
          → Own t k a
          → Own t a b
          → is_thread (k.tasks t).type ≡ true
          → is_thread (b.tasks t).type ≡ true
      still_thread k a b own own' h = ap is_thread (own'.type ∙ own.type) ∙ h

abbrev may_run : SchedState → Bool
may_run s =
    same_state s SchedState.deftick_yield
    || same_state s SchedState.deftick_throttle
    || is_deftick_pending s
    || is_deftick_sleep s

Owes-may_run : {s : SchedState} → Owes s → (may_run s ≡ true) × (is_deftick_sleep s ≡ false)
Owes-may_run Owes.yields = (refl, refl)
Owes-may_run Owes.throttles = (refl, refl)
Owes-may_run Owes.interrupted = (refl, refl)

abbrev left_after : Kernel → ℕ → ℕ
left_after k t =
    if same_state (k.tasks t).state SchedState.deftick_throttle
    then 0
    else (k.tasks t).thread.tick.current_budget - 1

module _ (cfg : Config) (ops : SchedOps) (k : Kernel) (t : ℕ) where
  idle_shape :
      is_lsr (k.tasks t).type ≡ false
      → is_idle (k.tasks t).type ≡ true
      → is_deftick_pending (k.tasks t).state ≡ true
      → deferred_tick cfg ops t k
        ≡ (run_callbacks cfg ops t >> load_next_state cfg ops t SchedState.pending) k
  unfolding deferred_tick
  idle_shape a b c = rw (a, b, c) refl

  thread_shape :
      is_lsr (k.tasks t).type ≡ false
      → is_idle (k.tasks t).type ≡ false
      → may_run (k.tasks t).state ≡ true
      → ltb 0 (k.tasks t).thread.tick.current_budget ≡ true
      → is_deftick_sleep (k.tasks t).state ≡ false
      → deferred_tick cfg ops t k
        ≡ (set_budget t (left_after k t)
              >> deferred_thread cfg ops t (k.tasks t).state (left_after k t))
            k
  unfolding deferred_tick
  thread_shape a b c d e = rw (a, b) (rw c (rw d (rw e refl)))

  sleeper_shape :
      is_lsr (k.tasks t).type ≡ false
      → is_idle (k.tasks t).type ≡ false
      → may_run (k.tasks t).state ≡ true
      → ltb 0 (k.tasks t).thread.tick.current_budget ≡ true
      → is_deftick_sleep (k.tasks t).state ≡ true
      → deferred_tick cfg ops t k
        ≡ (set_budget t (left_after k t)
              >> (run_callbacks cfg ops t >> load_next_state cfg ops t SchedState.thread_sleep))
            k
  unfolding deferred_tick
  sleeper_shape a b c d e = rw (a, b) (rw c (rw d (rw e refl)))

module _ (cfg : Config) (ops : SchedOps) (quiet : IsQuiet ops) (t : ℕ) where
  shaped :
      (k : Kernel) (n : Act)
      → deferred_tick cfg ops t k ≡ n k
      → Does cfg ops quiet t (Settled (k.tasks t).state) k n
      → Does cfg ops quiet t (Settled (k.tasks t).state) k (deferred_tick cfg ops t)
  shaped k n e (after, run, r, p) = (after, e ∙ run, r, p)

  positive : (n : ℕ) → 0 < n → ltb 0 n ≡ true
  positive n h = ground (arith, h)

  Owes-Settled : {s : SchedState} → Owes s → Settled s (resumed cfg ops s)
  Owes-Settled Owes.yields = Settled.yielded
  Owes-Settled Owes.throttles = Settled.filled
  Owes-Settled Owes.interrupted = Settled.waits

  -- A round of a task that is owed a tick returns.
  pub deferred_tick-Round :
      (k : Kernel)
      → IsOwed k t
      → Does cfg ops quiet t (Settled (k.tasks t).state) k (deferred_tick cfg ops t)
  deferred_tick-Round k (IsOwed.idle_task type state) =
      shaped k (run_callbacks cfg ops t >> load_next_state cfg ops t SchedState.pending)
        (idle_shape cfg ops k t (ap is_lsr type) (ap is_idle type) (ap is_deftick_pending state))
        (callbacks_then cfg ops quiet t (Settled (k.tasks t).state) k
          (load_next_state cfg ops t SchedState.pending)
          (λ a own.
            loads_pending cfg ops quiet t (Settled (k.tasks t).state) a
              (ap (λ y. is_thread y || is_idle y) (own.type ∙ type))
              (leaves SchedState.pending (own.state ∙ state) (Owes-pending Owes.interrupted))
              (subst (λ v. Settled v SchedState.pending) (sym state) Settled.waits)))
  deferred_tick-Round k (IsOwed.goes_on s owes state type budget no_lag) =
      let ran = Owes-may_run owes in
      let owes' : Owes (k.tasks t).state = subst Owes (sym state) owes in
      shaped k
        (set_budget t (left_after k t)
          >> deferred_thread cfg ops t (k.tasks t).state (left_after k t))
        (thread_shape cfg ops k t (ap is_lsr type) (ap is_idle type) (ap may_run state ∙ ran.0)
          (positive _ budget) (ap is_deftick_sleep state ∙ ran.1))
        (budget_then cfg ops quiet t (Settled (k.tasks t).state) k (left_after k t)
          (deferred_thread cfg ops t (k.tasks t).state (left_after k t))
          (λ a own.
            thread_round cfg ops quiet t (Settled (k.tasks t).state) a (k.tasks t).state
              (left_after k t) owes' own.state (ap is_thread (own.type ∙ type)) (own.lag ∙ no_lag)
              (Settled.exhausted owes') (Owes-Settled owes')))
  deferred_tick-Round k (IsOwed.sleeper state type budget some_ticks) =
      shaped k
        (set_budget t (left_after k t)
          >> (run_callbacks cfg ops t >> load_next_state cfg ops t SchedState.thread_sleep))
        (sleeper_shape cfg ops k t (ap is_lsr type) (ap is_idle type) (ap may_run state)
          (positive _ budget) (ap is_deftick_sleep state))
        (budget_then cfg ops quiet t (Settled (k.tasks t).state) k (left_after k t)
          (run_callbacks cfg ops t >> load_next_state cfg ops t SchedState.thread_sleep)
          (λ a own.
            callbacks_then cfg ops quiet t (Settled (k.tasks t).state) a
              (load_next_state cfg ops t SchedState.thread_sleep)
              (λ b own'.
                loads_sleep cfg ops quiet t (Settled (k.tasks t).state) b
                  (ap is_thread (own'.type ∙ (own.type ∙ type)))
                  (ap (ltb 0) (own'.sleep ∙ own.sleep) ∙ positive _ some_ticks)
                  (leaves SchedState.thread_sleep (own'.state ∙ (own.state ∙ state)) (refl, refl))
                  (subst (λ v. Settled v SchedState.thread_sleep) (sym state) Settled.sleeps))))
