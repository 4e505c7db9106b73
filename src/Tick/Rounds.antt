-- ===== src/Tick/Rounds.antt =====
-- The steps of a round of kTickHandleDeferredTicks, with the state that the task comes to.
use workhorse_rt.Common.{
  ℕ, ◌≡◌, refl, sym, subst, ap, Bool, true, false, ◌||◌, none, arith, ltb, update,
}
use workhorse_rt.Kernel.{SchedState, Kernel, Config}
use workhorse_rt.Kernel.Monad.{
  ok, Act, ◌>>◌, this_machine, is_idle, is_thread, is_running, same_state, set_machine, set_budget,
  machine, ◌>>=◌, with_tick, when,
}
use workhorse_rt.Sched.{SchedOps}
use workhorse_rt.Sched.Quiet.{IsQuiet}
use workhorse_rt.Tick.State.{run_callbacks, load_next_state}
use workhorse_rt.Tick.Steps.{with_machine, with_state, called}
use workhorse_rt.Tick.Enter.{
  Round, Round-trans, SameTicks-Round, call_if-called, then_ok, traced, load-Round, enter_ready,
  enter_pending, enter_sleep, enter_throttled,
}

-- The states of a thread that is owed a tick and goes on.
pub data Owes : SchedState → Type 0 where
  yields : Owes SchedState.deftick_yield
  throttles : Owes SchedState.deftick_throttle
  interrupted : Owes SchedState.deftick_pending

-- The state is that of a task that is off the cpu, and not `next`.
abbrev pub Leaves : SchedState → SchedState → Type 0
Leaves s next = (same_state s next ≡ false) × (is_running s ≡ false)

pub Owes-ready : {s : SchedState} → Owes s → Leaves s SchedState.ready
Owes-ready Owes.yields = (refl, refl)
Owes-ready Owes.throttles = (refl, refl)
Owes-ready Owes.interrupted = (refl, refl)

pub Owes-pending : {s : SchedState} → Owes s → Leaves s SchedState.pending
Owes-pending Owes.yields = (refl, refl)
Owes-pending Owes.throttles = (refl, refl)
Owes-pending Owes.interrupted = (refl, refl)

pub Owes-throttled : {s : SchedState} → Owes s → Leaves s SchedState.thread_throttled
Owes-throttled Owes.yields = (refl, refl)
Owes-throttled Owes.throttles = (refl, refl)
Owes-throttled Owes.interrupted = (refl, refl)

-- What the steps of a round keep of its own task until it changes state.
pub record Own (t : ℕ) (k mid : Kernel) : Type 0 where
  pub state : (mid.tasks t).state ≡ (k.tasks t).state
  pub type : (mid.tasks t).type ≡ (k.tasks t).type
  pub lag : (mid.tasks t).thread.tick.lag ≡ (k.tasks t).thread.tick.lag
  pub sleep : (mid.tasks t).thread.tick.sleep_ticks ≡ (k.tasks t).thread.tick.sleep_ticks

module _ (cfg : Config) (ops : SchedOps) (quiet : IsQuiet ops) (t : ℕ)
    (P : SchedState → Type 0) where
  -- It returns, with the task in a state that `P` allows.
  abbrev pub Does : Kernel → Act → Type 0
  Does k m = (after : Kernel) × (m k ≡ ok tt after) × Round t k after × P (after.tasks t).state

  after_step :
      (k mid : Kernel) (m n : Act) → m k ≡ ok tt mid → Round t k mid → Does mid n → Does k (m >> n)
  after_step k mid m n first r rest =
      let (after, run, s, p) = rest in
      (after, then_ok m n k mid after first run, Round-trans k mid after r s, p)

  pub callbacks_then :
      (k : Kernel) (n : Act)
      → ((mid : Kernel) → Own t k mid → Does mid n)
      → Does k (run_callbacks cfg ops t >> n)
  unfolding run_callbacks
  callbacks_then k n rest =
      let (mid, run, same) = quiet.tick_callback t k in
      let fn = (k.tasks t).callbacks.tick_callback_fn in
      let done : Kernel = traced mid (called fn t mid.trace) in
      let r = SameTicks-Round t same in
      after_step k done (run_callbacks cfg ops t) n (rw run (call_if-called fn t mid))
        (record { owed = r.owed; state = r.state; type = r.type; tick = r.tick })
        (rest done (record {
          state = same.state t;
          type = same.type t;
          lag = ap (λ c. c.lag) (same.tick t);
          sleep = ap (λ c. c.sleep_ticks) (same.tick t);
        }))

  pub budget_then :
      (k : Kernel) (b : ℕ) (n : Act)
      → ((mid : Kernel) → Own t k mid → Does mid n)
      → Does k (set_budget t b >> n)
  budget_then k b n rest =
      let mid : Kernel = record k {
        tasks =
            update k.tasks t
              (with_tick (k.tasks t) (record ((k.tasks t).thread.tick) { current_budget = b }));
      } in
      after_step k mid (set_budget t b) n refl
        (record {
          owed = refl;
          state = λ u h. ground arith;
          type = λ u h. ground arith;
          tick = λ u h. ground arith;
        })
        (rest mid (record {
          state = ground arith;
          type = ground arith;
          lag = ground arith;
          sleep = ground arith;
        }))

  pub forget_then :
      (k : Kernel) (b : Bool) (n : Act)
      → ((mid : Kernel) → Own t k mid → Does mid n)
      → Does k (when b (machine >>= λ m. set_machine (record m { pending_task_lsr = none })) >> n)
  forget_then k false n rest =
      rest k (record { state = refl; type = refl; lag = refl; sleep = refl })
  forget_then k true n rest =
      let mid : Kernel = with_machine k (record (this_machine k) { pending_task_lsr = none }) in
      after_step k mid (machine >>= λ m. set_machine (record m { pending_task_lsr = none })) n refl
        (record {
          owed = ground arith;
          state = λ u h. refl;
          type = λ u h. refl;
          tick = λ u h. refl;
        })
        (rest mid (record { state = refl; type = refl; lag = refl; sleep = refl }))

  loaded :
      (k : Kernel) (next : SchedState)
      → P next
      → ((after : Kernel) × (load_next_state cfg ops t next k ≡ ok tt after)
          × Round t k after
          × ((after.tasks t).state ≡ next))
      → Does k (load_next_state cfg ops t next)
  loaded k next p (after, run, r, e) = (after, run, r, subst P (sym e) p)

  pub loads_ready :
      (k : Kernel)
      → is_thread (k.tasks t).type ≡ true
      → Leaves (k.tasks t).state SchedState.ready
      → P SchedState.ready
      → Does k (load_next_state cfg ops t SchedState.ready)
  loads_ready k thread leaves p =
      let there : Kernel = with_state k t SchedState.ready in
      let (mid, run, r, kept) = enter_ready cfg ops quiet t there (ground (arith, thread)) in
      loaded k SchedState.ready p (
        load-Round cfg ops t SchedState.ready k mid (ground (arith, thread)) refl leaves.0 leaves.1
          refl run r kept)

  pub loads_pending :
      (k : Kernel)
      → (is_thread (k.tasks t).type || is_idle (k.tasks t).type) ≡ true
      → Leaves (k.tasks t).state SchedState.pending
      → P SchedState.pending
      → Does k (load_next_state cfg ops t SchedState.pending)
  loads_pending k kind leaves p =
      let there : Kernel = with_state k t SchedState.pending in
      let (mid, run, r, kept) = enter_pending cfg ops quiet t there (ground (arith, kind)) in
      loaded k SchedState.pending p (
        load-Round cfg ops t SchedState.pending k mid (ground (arith, kind)) refl leaves.0 leaves.1
          refl run r kept)

  pub loads_throttled :
      (k : Kernel)
      → is_thread (k.tasks t).type ≡ true
      → (k.tasks t).thread.tick.lag ≡ false
      → Leaves (k.tasks t).state SchedState.thread_throttled
      → P SchedState.thread_throttled
      → Does k (load_next_state cfg ops t SchedState.thread_throttled)
  loads_throttled k thread no_lag leaves p =
      let there : Kernel = with_state k t SchedState.thread_throttled in
      let (mid, run, r, kept) =
        enter_throttled cfg ops quiet t there (ground (arith, thread)) (ground (arith, no_lag)) in
      loaded k SchedState.thread_throttled p (
        load-Round cfg ops t SchedState.thread_throttled k mid (ground (arith, thread)) refl
          leaves.0 leaves.1 refl run r kept)

  pub loads_sleep :
      (k : Kernel)
      → is_thread (k.tasks t).type ≡ true
      → ltb 0 (k.tasks t).thread.tick.sleep_ticks ≡ true
      → Leaves (k.tasks t).state SchedState.thread_sleep
      → P SchedState.thread_sleep
      → Does k (load_next_state cfg ops t SchedState.thread_sleep)
  loads_sleep k thread some_ticks leaves p =
      let there : Kernel = with_state k t SchedState.thread_sleep in
      let (mid, run, r, kept) =
        enter_sleep cfg ops quiet t there (ground (arith, thread)) (ground (arith, some_ticks)) in
      loaded k SchedState.thread_sleep p (
        load-Round cfg ops t SchedState.thread_sleep k mid (ground (arith, thread)) refl leaves.0
          leaves.1 refl run r kept)
