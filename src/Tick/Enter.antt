-- ===== src/Tick/Enter.antt =====
-- What a change of state does in a round of kTickHandleDeferredTicks: it returns, and leaves the
-- other tasks alone.
use workhorse_rt.Common.{
  ℕ, ◌≡◌, ◌≢◌, refl, ap, ◌∙◌, true, false, Option, none, some, List, ◌∷◌, arith, ltb, Bool-cases,
  inl, inr,
}
use workhorse_rt.DeltaChain
use workhorse_rt.DeltaChain.{Nodes, DeltaChain}
use workhorse_rt.Kernel.{SchedState, Kernel, Config, Event, is_activated}
use workhorse_rt.Kernel.Monad.{
  ok, Act, ◌>>◌, bind, this_machine, is_lsr, is_thread, is_invalid, is_running, same_state, call_if,
}
use workhorse_rt.Sched.{SchedOps}
use workhorse_rt.Sched.Quiet.{IsQuiet, SameTicks}
use workhorse_rt.Tick.State.{load_next_state, enter_state, run_state_callbacks, throttle, is_ds}
use workhorse_rt.Tick.Steps.{with_machine, with_state, called}

-- What a round for `t` leaves alone: the list, and the other tasks.
pub record Round (t : ℕ) (k after : Kernel) : Type 0 where
  pub owed : (this_machine after).deferred_ticks ≡ (this_machine k).deferred_ticks
  pub state : (u : ℕ) → u ≢ t → (after.tasks u).state ≡ (k.tasks u).state
  pub type : (u : ℕ) → u ≢ t → (after.tasks u).type ≡ (k.tasks u).type
  pub tick : (u : ℕ) → u ≢ t → (after.tasks u).thread.tick ≡ (k.tasks u).thread.tick

pub Round-trans : {t : ℕ} (a b c : Kernel) → Round t a b → Round t b c → Round t a c
Round-trans a b c x y = record {
  owed = y.owed ∙ x.owed;
  state = λ u h. y.state u h ∙ x.state u h;
  type = λ u h. y.type u h ∙ x.type u h;
  tick = λ u h. y.tick u h ∙ x.tick u h;
}

pub SameTicks-Round : {k after : Kernel} (t : ℕ) → SameTicks k after → Round t k after
SameTicks-Round {k} {after} t s = record {
  owed = rw (s.machines, s.this_cpu) refl;
  state = λ u h. s.state u;
  type = λ u h. s.type u;
  tick = λ u h. s.tick u;
}

pub call_if-called :
    (fn : Option ℕ) (t : ℕ) (k : Kernel)
    → call_if fn t k ≡ ok tt (record k { trace = called fn t k.trace })
call_if-called none t k = refl
call_if-called (some fn) t k = refl

pub then_ok :
    (m n : Act) (k mid after : Kernel)
    → m k ≡ ok tt mid
    → n mid ≡ ok tt after
    → (m >> n) k ≡ ok tt after
then_ok m n k mid after first second = ap (λ r. bind r (λ _. n)) first ∙ second

abbrev pub traced : Kernel → List Event → Kernel
traced k l = record k { trace = l }

module _ (cfg : Config) (ops : SchedOps) where
  state_callbacks :
      (t : ℕ) (old next : SchedState) (k : Kernel)
      → is_running old ≡ false
      → is_running next ≡ false
      → (l : List Event) × (run_state_callbacks cfg ops t old next k ≡ ok tt (traced k l))
  unfolding run_state_callbacks
  state_callbacks t old next k a b = elim (Bool-cases (is_activated next)) [
    | inl wakes ↦ elim (Bool-cases (is_activated old)) [
      | inl was ↦ (k.trace, rw (wakes, was, a) refl)
      | inr was_not ↦ (
        called (k.tasks t).callbacks.activation_callback_fn t (Event.activation t ∷ k.trace),
        rw (wakes, was_not, a, b)
            (rw
              (call_if-called (k.tasks t).callbacks.activation_callback_fn t
                (traced k (Event.activation t ∷ k.trace)))
              refl),
      )
    ]
    | inr sleeps ↦ elim (Bool-cases (is_activated old)) [
      | inl was ↦ (
        called (k.tasks t).callbacks.response_callback_fn t (Event.response t ∷ k.trace),
        rw (sleeps, was, a)
            (rw
              (call_if-called (k.tasks t).callbacks.response_callback_fn t
                (traced k (Event.response t ∷ k.trace)))
              refl),
      )
      | inr was_not ↦ (k.trace, rw (sleeps, was_not, a) refl)
    ]
  ]

  -- A change of state whose switch returns.
  pub load-Round :
      (t : ℕ) (next : SchedState) (k mid : Kernel)
      → is_invalid (k.tasks t).type ≡ false
      → same_state next SchedState.invalid ≡ false
      → same_state (k.tasks t).state next ≡ false
      → is_running (k.tasks t).state ≡ false
      → is_running next ≡ false
      → enter_state cfg ops t next (with_state k t next) ≡ ok tt mid
      → Round t (with_state k t next) mid
      → (mid.tasks t).state ≡ ((with_state k t next).tasks t).state
      → (after : Kernel) × (load_next_state cfg ops t next k ≡ ok tt after)
        × Round t k after
        × ((after.tasks t).state ≡ next)
  unfolding load_next_state
  load-Round t next k mid valid proper differ stopped stops entered r kept =
      let set_to : ((with_state k t next).tasks t).state ≡ next = ground arith in
      let (l, run) = state_callbacks t (k.tasks t).state next mid stopped stops in
      (
        traced mid l,
        rw (valid, proper, differ) (rw entered run),
        Round-trans k (with_state k t next) (traced mid l)
            (record {
              owed = refl;
              state = λ u h. ground arith;
              type = λ u h. ground arith;
              tick = λ u h. ground arith;
            })
            (record { owed = r.owed; state = r.state; type = r.type; tick = r.tick }),
        kept ∙ set_to,
      )

module _ (cfg : Config) (ops : SchedOps) (quiet : IsQuiet ops) (t : ℕ) (k : Kernel) where
  abbrev pub Returns : Act → Type 0
  Returns m =
      (after : Kernel) × (m k ≡ ok tt after)
      × Round t k after
      × ((after.tasks t).state ≡ (k.tasks t).state)

  pub enter_ready :
      is_lsr (k.tasks t).type ≡ false → Returns (enter_state cfg ops t SchedState.ready)
  unfolding enter_state
  enter_ready no_lsr =
      let (after, run, same) = quiet.push t k in
      (after, rw no_lsr run, SameTicks-Round t same, same.state t)

  pub enter_pending :
      is_lsr (k.tasks t).type ≡ false → Returns (enter_state cfg ops t SchedState.pending)
  unfolding enter_state
  enter_pending no_lsr = (
    with_machine k (record (this_machine k) { pending_task_lsr = some t }),
    rw no_lsr refl,
    record { owed = ground arith; state = λ u h. refl; type = λ u h. refl; tick = λ u h. refl },
    refl,
  )

  pub enter_sleep :
      is_thread (k.tasks t).type ≡ true
      → ltb 0 (k.tasks t).thread.tick.sleep_ticks ≡ true
      → Returns (enter_state cfg ops t SchedState.thread_sleep)
  unfolding enter_state
  enter_sleep thread some_ticks =
      let (nodes, chain) =
        DeltaChain.insert k.sleep_nodes (this_machine k).sleep_chain t
          (k.tasks t).thread.tick.sleep_ticks in
      (
        record (with_machine k (record (this_machine k) { sleep_chain = chain })) {
          sleep_nodes = nodes;
        },
        rw (thread, some_ticks) refl,
        record { owed = ground arith; state = λ u h. refl; type = λ u h. refl; tick = λ u h. refl },
        refl,
      )

  pub enter_throttled :
      is_thread (k.tasks t).type ≡ true
      → (k.tasks t).thread.tick.lag ≡ false
      → Returns (enter_state cfg ops t SchedState.thread_throttled)
  unfolding enter_state throttle
  enter_throttled thread no_lag = elim (Bool-cases (is_ds cfg.algorithm)) [
    | inl ds ↦ (
      k,
      rw (thread, ds) refl,
      record { owed = refl; state = λ u h. refl; type = λ u h. refl; tick = λ u h. refl },
      refl,
    )
    | inr bcs ↦
        let (nodes, chain) =
          DeltaChain.insert k.replenish_nodes (this_machine k).replenishment_chain t
            (k.tasks t).thread.tick.period in
        (
          record (with_machine k (record (this_machine k) { replenishment_chain = chain })) {
            replenish_nodes = nodes;
          },
          rw (thread, bcs, no_lag) refl,
          record {
            owed = ground arith;
            state = λ u h. refl;
            type = λ u h. refl;
            tick = λ u h. refl;
          },
          refl,
        )
  ]
