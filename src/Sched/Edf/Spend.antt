-- ===== src/Sched/Edf/Spend.antt =====
-- What a tick takes off the deadline of the thread that ran, under the earliest deadline policy.
use workhorse_rt.Common.{
  subst, sym, ℕ, ◌-◌, ◌==◌, ◌≤◌, ◌<◌, ◌≡◌, ◌≢◌, refl, ap, ◌∙◌, Bool, true, false, arith, ltb,
  if◌then◌else◌, Bool-cases, inl, inr, update,
}
use workhorse_rt.DeltaChain.{Nodes, DeltaChain, set_delta, time_until}
use workhorse_rt.Kernel.{Kernel, Config, TaskType, Algorithm, SchedState}
use workhorse_rt.Kernel.Monad.{ok, is_deftick_sleep}
use workhorse_rt.Tick.State.{throttle_time_left}
use workhorse_rt.Tick.Budget.{until_replenishment}
use workhorse_rt.Sched.Quiet.{SameTicks, Quiet, same, same_but, put}
use workhorse_rt.Sched.Window.{reset_idle}
use workhorse_rt.DeltaChain
use workhorse_rt.Sched.Edf.{
  Timers, period_of, next_delta, tick_callback, tick_as, tick_thread, spend, spend_sleep, push,
  push_as, delta_of, set_edf,
}

abbrev pub delta_left : Kernel → ℕ → ℕ
delta_left k t = (k.edf_nodes t).delta

abbrev pub sleeps : Kernel → ℕ → Bool
sleeps k t = is_deftick_sleep (k.tasks t).state

abbrev pub sleep_of : Kernel → ℕ → ℕ
sleep_of k t = (k.tasks t).thread.tick.sleep_ticks

-- The ticks that pass for the thread: this one, or the whole of its sleep.
abbrev pub passing : Kernel → ℕ → ℕ
passing k t = if sleeps k t then sleep_of k t else 1

-- A deadline that comes within the sleep is over; otherwise the ticks are taken off, and then the
-- period of a spent budget, or a deadline that has come is renewed.
abbrev pub spent : Config → Kernel → ℕ → ℕ
spent cfg k t =
    if ltb (delta_left k t) (passing k t)
    then 0
    else next_delta cfg t k (delta_left k t - passing k t)

-- Only the deadline of `t` differs, and is `d` now.
pub record Charged (k : Kernel) (t d : ℕ) (after : Kernel) : Type 0 where
  pub left : delta_left after t ≡ d
  pub others : (u : ℕ) → u ≢ t → after.edf_nodes u ≡ k.edf_nodes u
  pub chains : after.edf ≡ k.edf
  pub tasks : after.tasks ≡ k.tasks
  pub ticks : SameTicks k after

same_edf :
    (k : Kernel) (nodes : Nodes) (chains : ℕ → DeltaChain)
    → SameTicks k (record k { edf_nodes = nodes; edf = chains })
same_edf k nodes chains = record {
  this_cpu = refl;
  k_tasks = refl;
  frame_bmps = refl;
  machines = refl;
  replenish_nodes = refl;
  sleep_nodes = refl;
  trace = refl;
  tick = λ u. refl;
  state = λ u. refl;
  type = λ u. refl;
  callbacks = λ u. refl;
  domain = λ u. refl;
}

write-Charged :
    (k : Kernel) (t d : ℕ) → Charged k t d (record k { edf_nodes = set_delta k.edf_nodes t d })
write-Charged k t d = record {
  left = ground arith;
  others = λ u h. ground arith;
  chains = refl;
  tasks = refl;
  ticks = same_edf k _ k.edf;
}

awake :
    (cfg : Config) (k : Kernel) (t : ℕ)
    → 0 < delta_left k t
    → spend cfg t k
      ≡ ok tt (record k {
        edf_nodes = set_delta k.edf_nodes t (next_delta cfg t k (delta_left k t - 1));
      })
unfolding spend
awake cfg k t h = let e : ltb 0 (delta_left k t) ≡ true = ground arith in rw e refl

period_of-same :
    (a : Algorithm) (k : Kernel) (t : ℕ) (nodes : Nodes)
    → period_of a t (record k { edf_nodes = nodes }) ≡ period_of a t k
unfolding period_of throttle_time_left
period_of-same Algorithm.ds k t nodes = refl
period_of-same Algorithm.bcs k t nodes = refl

next_delta-same :
    (cfg : Config) (k : Kernel) (t left : ℕ) (nodes : Nodes)
    → next_delta cfg t (record k { edf_nodes = nodes }) left ≡ next_delta cfg t k left
next_delta-same cfg k t left nodes = rw (period_of-same cfg.algorithm k t nodes) refl

-- The delta that is left to a thread that sleeps, before its last tick is taken off.
abbrev asleep : Kernel → ℕ → Kernel
asleep k t = record k { edf_nodes = set_delta k.edf_nodes t (delta_left k t - (sleep_of k t - 1)) }

twice-Charged :
    (k : Kernel) (t c d : ℕ) (after : Kernel)
    → after ≡ record k { edf_nodes = set_delta (set_delta k.edf_nodes t c) t d }
    → Charged k t d after
twice-Charged k t c d after e = rw e (record {
  left = ground arith;
  others = λ u h. ground arith;
  chains = refl;
  tasks = refl;
  ticks = same_edf k _ k.edf;
})

sleeping :
    (cfg : Config) (k : Kernel) (t : ℕ)
    → 0 < sleep_of k t
    → ltb (delta_left k t) (sleep_of k t) ≡ false
    → (after : Kernel) × (spend_sleep cfg t k ≡ ok tt after)
      × Charged k t (next_delta cfg t k (delta_left k t - sleep_of k t)) after
unfolding spend_sleep
sleeping cfg k t h e =
    let c : ℕ = delta_left k t - (sleep_of k t - 1) in
    let k' : Kernel = asleep k t in
    let left : delta_left k' t ≡ c = ground arith in
    let some_left : 0 < delta_left k' t = ground arith in
    let d : next_delta cfg t k' (delta_left k' t - 1)
        ≡ next_delta cfg t k (delta_left k t - sleep_of k t) =
      next_delta-same cfg k t (delta_left k' t - 1) k'.edf_nodes
      ∙ ap (next_delta cfg t k) (ground arith) in
    let after : Kernel = record k' {
      edf_nodes = set_delta k'.edf_nodes t (next_delta cfg t k' (delta_left k' t - 1));
    } in
    (
      after,
      rw e (awake cfg k' t some_left),
      twice-Charged k t c (next_delta cfg t k (delta_left k t - sleep_of k t)) after
          (ap (λ n. record k' { edf_nodes = set_delta k'.edf_nodes t n }) d),
    )

tick_thread-Charged :
    (cfg : Config) (k : Kernel) (t : ℕ)
    → 0 < delta_left k t
    → 0 < passing k t
    → (after : Kernel) × (tick_thread cfg t k ≡ ok tt after) × Charged k t (spent cfg k t) after
unfolding tick_thread
tick_thread-Charged cfg k t some_left h = elim (Bool-cases (sleeps k t)) [
  | inr up ↦
      let few : ltb (delta_left k t) 1 ≡ false = ground arith in
      (
        write_to (next_delta cfg t k (delta_left k t - 1)),
        rw up (awake cfg k t some_left),
        rw up (rw few (write-Charged k t (next_delta cfg t k (delta_left k t - 1)))),
      )
  | inl down ↦
      let h' : 0 < sleep_of k t = rw down at h in
      let pos : ltb 0 (sleep_of k t) ≡ true = ground arith in
      elim (Bool-cases (ltb (delta_left k t) (sleep_of k t))) [
        | inl over ↦ (
          write_to 0,
          rw down (rw pos (unfold spend_sleep in rw over refl)),
          rw down (rw over (write-Charged k t 0)),
        )
        | inr within ↦
            let (after, run, c) = sleeping cfg k t h' within in
            (after, rw down (rw pos run), rw down (rw within c))
      ]
]
  where
    write_to : ℕ → Kernel
    write_to d = record k { edf_nodes = set_delta k.edf_nodes t d }

-- The ticks `n` that pass for the thread: this one, or the whole of its sleep.
pub data Passes (k : Kernel) (t n : ℕ) : Type 0 where
  one_tick : (k.tasks t).state ≢ SchedState.deftick_sleep → n ≡ 1 → Passes k t n
  sleep : (k.tasks t).state ≡ SchedState.deftick_sleep → n ≡ sleep_of k t → Passes k t n

-- The period `p` that a spent budget takes off the deadline: under DS, what is left of it.
pub data Period (cfg : Config) (k : Kernel) (t p : ℕ) : Type 0 where
  whole : cfg.algorithm ≡ Algorithm.bcs → p ≡ (k.tasks t).thread.tick.period → Period cfg k t p
  no_period :
      cfg.algorithm ≡ Algorithm.ds → (k.tasks t).thread.tick.period ≡ 0 → p ≡ 0 → Period cfg k t p
  rest :
      cfg.algorithm ≡ Algorithm.ds
      → 0 < (k.tasks t).thread.tick.period
      → p ≡ until_replenishment k t
      → Period cfg k t p

-- The deadline `d` that is left to the thread when `n` ticks pass for it.
pub data Spent (cfg : Config) (k : Kernel) (t n d : ℕ) : Type 0 where
  over : delta_left k t < n → d ≡ 0 → Spent cfg k t n d
  throttled :
      (p : ℕ)
      → n ≤ delta_left k t
      → (k.tasks t).thread.tick.current_budget ≡ 0
      → Period cfg k t p
      → d ≡ delta_left k t - n - p
      → Spent cfg k t n d
  renewed :
      delta_left k t ≡ n
      → 0 < (k.tasks t).thread.tick.current_budget
      → d ≡ (k.tasks t).thread.virtual_deadline
      → Spent cfg k t n d
  counted :
      n < delta_left k t
      → 0 < (k.tasks t).thread.tick.current_budget
      → d ≡ delta_left k t - n
      → Spent cfg k t n d

sleeps_state : (s : SchedState) → is_deftick_sleep s ≡ true → s ≡ SchedState.deftick_sleep
sleeps_state SchedState.deftick_sleep e = refl
sleeps_state _ e = cc

module _ (cfg : Config) (k : Kernel) (t : ℕ) where
  passing-Passes : (n : ℕ) → Passes k t n → passing k t ≡ n
  passing-Passes n (Passes.one_tick awake_now e) = elim (Bool-cases (sleeps k t)) [
    | inl down ↦ absurd (awake_now (sleeps_state (k.tasks t).state down))
    | inr up ↦ rw (up, e) refl
  ]
  passing-Passes n (Passes.sleep asleep_now e) = rw (asleep_now, e) refl

  period_of-Period :
      (a : Algorithm) → cfg.algorithm ≡ a → Period cfg k t (period_of cfg.algorithm t k)
  unfolding period_of throttle_time_left time_until
  period_of-Period Algorithm.bcs e = Period.whole e (rw e refl)
  period_of-Period Algorithm.ds e = elim (Bool-cases ((k.tasks t).thread.tick.period == 0)) [
    | inl nil ↦ Period.no_period e (ground (arith, nil)) (rw (e, nil) refl)
    | inr some_period ↦ Period.rest e (ground (arith, some_period)) (rw (e, some_period) refl)
  ]

  spent-Spent : Spent cfg k t (passing k t) (spent cfg k t)
  spent-Spent = elim (Bool-cases (ltb (delta_left k t) (passing k t))) [
    | inl longer ↦ Spent.over (ground (arith, longer)) (rw longer refl)
    | inr within ↦ rw within (elim (Bool-cases ((k.tasks t).thread.tick.current_budget == 0)) [
      | inl empty ↦ rw empty (
          Spent.throttled (period_of cfg.algorithm t k) (ground (arith, within))
            (ground (arith, empty)) (period_of-Period cfg.algorithm refl) (ground arith))
      | inr left ↦ rw left (elim (Bool-cases (delta_left k t - passing k t == 0)) [
        | inl come ↦
            rw come (Spent.renewed (ground (arith, come, within)) (ground (arith, left)) refl)
        | inr waits ↦
            rw waits (Spent.counted (ground (arith, waits, within)) (ground (arith, left)) refl)
      ])
    ])
  ]

-- With a deadline that has not come, and a sleep of at least one tick if the thread goes to sleep,
-- kSchedTaskTickCallbackEdf fails no assertion on a thread. It takes the tick or the sleep off the
-- deadline of the thread, to 0 if the sleep is longer. With a spent budget it then takes the period off
-- too, as far as it goes, which under DS is what is left of it and nothing without a period; with
-- budget left, a deadline that has come starts again with the virtual deadline. Nothing else changes.
pub tick_callback-Charged :
    (cfg : Config) (k : Kernel) (t n : ℕ)
    → (k.tasks t).type ≡ TaskType.thread
    → 0 < delta_left k t
    → 0 < n
    → Passes k t n
    → (d : ℕ) × Spent cfg k t n d
      × ((after : Kernel) × (tick_callback cfg t k ≡ ok tt after) × Charged k t d after)
unfolding tick_callback tick_as
tick_callback-Charged cfg k t n thread some_left h passes =
    let e = passing-Passes cfg k t n passes in
    let (after, run, c) = tick_thread-Charged cfg k t some_left (subst (λ m. 0 < m) (sym e) h) in
    (
      spent cfg k t,
      subst (λ m. Spent cfg k t m (spent cfg k t)) e (spent-Spent cfg k t),
      (after, rw (thread, tick_as) run, c),
    )

push_as-Quiet : (y : TaskType) (t : ℕ) → Quiet (push_as y t)
unfolding push_as
push_as-Quiet TaskType.invalid t k = (k, refl, same k)
push_as-Quiet TaskType.thread t k =
    let cpu = (k.tasks t).cpu_id in
    let r : Timers = DeltaChain.insert k.edf_nodes (k.edf cpu) t (delta_of t k) in
    (set_edf cpu r k, refl, same_edf k r.0 (update k.edf cpu r.1))
push_as-Quiet TaskType.lsr t k = (k, refl, same k)
push_as-Quiet TaskType.idle t k =
    let v = reset_idle (k.tasks t) in (put k t v, refl, same_but k t v refl refl refl refl refl)

-- Pushing a task changes nothing that the tick machine keeps.
pub push-Quiet : (t : ℕ) → Quiet (push t)
unfolding push
push-Quiet t k = push_as-Quiet (k.tasks t).type t k
