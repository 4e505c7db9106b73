-- ===== src/Syscall/Sched.antt =====
-- WORKHORSE_SYS_SCHED_CTRL: who may ask for what, and the sleep in ticks.
use workhorse_rt.Common.{
  subst, sym, ap, ◌∙◌, ◌⊎◌, ◌≢◌, ℤ, ℕ, ◌+◌, ◌*◌, ◌/◌, ◌%◌, ◌^◌, ◌≤◌, ◌<◌, ◌≡◌, refl, Bool, true,
  false, not, ◌&&◌, ◌||◌, some, arith, ◌==◌, leb, if◌then◌else◌, update, Bool-cases, inl, inr, pos,
  ◌∷◌,
}
use workhorse_rt.Kernel.{Kernel, Config, TaskType, Routine, Event}
use workhorse_rt.Kernel.Monad.{Run, einval, ok, this_machine, is_thread, is_lsr, with_tick}
use workhorse_rt.Syscall.{sys_sched_ctrl, ticks_of_ms, negative}

-- A sleep of `val` milliseconds lasts the fewest ticks that are not shorter, for a tick of at least
-- one millisecond, and no more ticks than milliseconds.
pub ticks_of_ms_bounds :
    (cfg : Config) (val : ℕ)
    → 0 < cfg.tick_ms
    → (val ≤ ticks_of_ms cfg val * cfg.tick_ms)
      × (ticks_of_ms cfg val * cfg.tick_ms < val + cfg.tick_ms)
      × (ticks_of_ms cfg val ≤ val)
unfolding ticks_of_ms
ticks_of_ms_bounds cfg val h = elim (Bool-cases (val % cfg.tick_ms == 0)) [
  | inl exact ↦ rw exact (grind arith, grind arith, grind arith)
  | inr over ↦
      let whole : val / cfg.tick_ms ≤ cfg.tick_ms * (val / cfg.tick_ms) = grind arith in
      rw over (grind arith, grind arith, grind arith)
]

-- Who may make the request: threads yield, throttle and sleep, LSRs are done, and both fail.
abbrev pub may_ask : Routine → TaskType → Bool
may_ask Routine.yield type = is_thread type
may_ask Routine.throttle type = is_thread type
may_ask Routine.lsr_done type = is_lsr type
may_ask Routine.failure type = is_thread type || is_lsr type
may_ask Routine.sleep_ms type = is_thread type

-- The control number of a request.
abbrev pub number : Routine → ℕ
number Routine.yield = 0
number Routine.throttle = 1
number Routine.lsr_done = 2
number Routine.failure = 3
number Routine.sleep_ms = 4

abbrev pub sleep_ticks_of : Kernel → ℕ → ℕ
sleep_ticks_of k t = (k.tasks t).thread.tick.sleep_ticks

-- The requests that a task may make, and for a sleep those that have to wait.
pub data Allowed (type : TaskType) (val : ℕ) : Routine → Type 0 where
  yields : type ≡ TaskType.thread → Allowed type val Routine.yield
  throttles : type ≡ TaskType.thread → Allowed type val Routine.throttle
  ends : type ≡ TaskType.lsr → Allowed type val Routine.lsr_done
  fails : (type ≡ TaskType.thread) ⊎ (type ≡ TaskType.lsr) → Allowed type val Routine.failure
  sleeps : type ≡ TaskType.thread → 0 < val → val < 2 ^ 32 → Allowed type val Routine.sleep_ms

-- The ticks `n` that are noted: for a sleep the fewest that are not shorter, else those of before.
abbrev pub Noted : Config → Routine → ℕ → ℕ → ℕ → Type 0
Noted cfg req val old n =
    ((req ≡ Routine.sleep_ms) × (val ≤ n * cfg.tick_ms) × (n * cfg.tick_ms < val + cfg.tick_ms))
    ⊎ ((req ≢ Routine.sleep_ms) × (n ≡ old))

-- Its interrupt is sent to the cpu itself, and the ticks of a sleep are noted.
pub record Sent (cfg : Config) (k after : Kernel) (t val : ℕ) (r : Routine) : Type 0 where
  pub trace : after.trace ≡ Event.self_ipi r ∷ k.trace
  pub sleep : Noted cfg r val (sleep_ticks_of k t) (sleep_ticks_of after t)
  pub state : (u : ℕ) → (after.tasks u).state ≡ (k.tasks u).state
  pub machines : after.machines ≡ k.machines

-- What a control `ctrl` with the argument `val` comes to.
pub data CtrlOutcome (cfg : Config) (k : Kernel) (t ctrl val : ℕ) (run : Run ℤ) : Type 0 where
  refused :
      ((r : Routine) → number r ≡ ctrl → ¬ Allowed (k.tasks t).type val r)
      → ¬ ((ctrl ≡ 4) × ((k.tasks t).type ≡ TaskType.thread) × (val ≡ 0))
      → run ≡ ok (negative einval) k
      → CtrlOutcome cfg k t ctrl val run
  no_sleep :
      ctrl ≡ 4
      → (k.tasks t).type ≡ TaskType.thread
      → val ≡ 0
      → run ≡ ok (pos 0) k
      → CtrlOutcome cfg k t ctrl val run
  sent :
      (r : Routine) (after : Kernel)
      → number r ≡ ctrl
      → Allowed (k.tasks t).type val r
      → run ≡ ok (pos 0) after
      → Sent cfg k after t val r
      → CtrlOutcome cfg k t ctrl val run

thread_type : (y : TaskType) → is_thread y ≡ true → y ≡ TaskType.thread
thread_type TaskType.thread e = refl
thread_type _ e = cc

lsr_type : (y : TaskType) → is_lsr y ≡ true → y ≡ TaskType.lsr
lsr_type TaskType.lsr e = refl
lsr_type _ e = cc

either_type :
    (y : TaskType) → (is_thread y || is_lsr y) ≡ true → (y ≡ TaskType.thread) ⊎ (y ≡ TaskType.lsr)
either_type TaskType.thread e = inl refl
either_type TaskType.lsr e = inr refl
either_type _ e = cc

-- A sleep that has no ticks, or too many.
abbrev is_odd_sleep : Routine → ℕ → Bool
is_odd_sleep r val = number r == 4 && (val == 0 || leb (2 ^ 32) val)

asks-Allowed :
    (r : Routine) (y : TaskType) (val : ℕ)
    → may_ask r y ≡ true
    → is_odd_sleep r val ≡ false
    → Allowed y val r
asks-Allowed Routine.yield y val e h = Allowed.yields (thread_type y e)
asks-Allowed Routine.throttle y val e h = Allowed.throttles (thread_type y e)
asks-Allowed Routine.lsr_done y val e h = Allowed.ends (lsr_type y e)
asks-Allowed Routine.failure y val e h = Allowed.fails (either_type y e)
asks-Allowed Routine.sleep_ms y val e h =
    Allowed.sleeps (thread_type y e) (ground (arith, h)) (ground (arith, h))

Allowed-asks :
    (r : Routine) (y : TaskType) (val : ℕ)
    → Allowed y val r
    → (may_ask r y ≡ true) × (is_odd_sleep r val ≡ false)
Allowed-asks _ y val (Allowed.yields e) = (rw e refl, refl)
Allowed-asks _ y val (Allowed.throttles e) = (rw e refl, refl)
Allowed-asks _ y val (Allowed.ends e) = (rw e refl, refl)
Allowed-asks _ y val (Allowed.fails (inl e)) = (rw e refl, refl)
Allowed-asks _ y val (Allowed.fails (inr e)) = (rw e refl, refl)
Allowed-asks _ y val (Allowed.sleeps e some_ms small) = (rw e refl, ground (arith, some_ms, small))

abbrev request_of : ℕ → Routine
request_of n =
    if n == 0
    then Routine.yield
    else (if n == 1
        then Routine.throttle
        else (if n == 2
            then Routine.lsr_done
            else (if n == 3 then Routine.failure else Routine.sleep_ms)))

request_of-number : (r : Routine) → request_of (number r) ≡ r
request_of-number Routine.yield = refl
request_of-number Routine.throttle = refl
request_of-number Routine.lsr_done = refl
request_of-number Routine.failure = refl
request_of-number Routine.sleep_ms = refl

same_request : (r s : Routine) → number r ≡ number s → r ≡ s
same_request r s e = sym (request_of-number r) ∙ (ap request_of e ∙ request_of-number s)

-- Every control is a request or beyond them.
control : (ctrl : ℕ) → ((r : Routine) × (number r ≡ ctrl)) ⊎ (5 ≤ ctrl)
control ctrl = elim (Bool-cases (leb 5 ctrl)) [
  | inl beyond ↦ inr (ground (arith, beyond))
  | inr within ↦ inl (request_of ctrl, ground (arith, within))
]

module _ (cfg : Config) (k : Kernel) {t : ℕ} (runs : (this_machine k).running_task ≡ some t) where
  -- A request by a task that may not make it, and a sleep of 2 ^ 32 milliseconds or more, is -EINVAL
  -- and changes nothing.
  sys_sched_ctrl-refused :
      (r : Routine) (val : ℕ)
      → (may_ask r (k.tasks t).type && not (number r == 4 && leb (2 ^ 32) val)) ≡ false
      → sys_sched_ctrl cfg (number r) val k ≡ ok (negative einval) k
  unfolding sys_sched_ctrl
  sys_sched_ctrl-refused Routine.yield val h = rw runs (ground arith)
  sys_sched_ctrl-refused _ val h = rw runs (ground arith)

  after_send : Routine → ℕ → Kernel
  after_send r val = record k {
    tasks =
        if number r == 4
        then update k.tasks t (
            with_tick (k.tasks t)
              (record ((k.tasks t).thread.tick) { sleep_ticks = ticks_of_ms cfg val }))
        else k.tasks;
    trace = Event.self_ipi r ∷ k.trace;
  }

  Sent-after_send :
      (r : Routine) (val : ℕ) → 0 < cfg.tick_ms → Sent cfg k (after_send r val) t val r
  unfolding after_send
  Sent-after_send r val h = elim (Bool-cases (number r == 4)) [
    | inl is_sleep ↦
        let bounds = ticks_of_ms_bounds cfg val h in
        let own : sleep_ticks_of (after_send r val) t ≡ ticks_of_ms cfg val =
          rw is_sleep (ground arith) in
        record {
          trace = refl;
          sleep =
              subst (λ n. Noted cfg r val (sleep_ticks_of k t) n) (sym own)
                (inl
                  (same_request r Routine.sleep_ms (ground (arith, is_sleep)), bounds.0, bounds.1));
          state = λ u. rw is_sleep (ground arith);
          machines = refl;
        }
    | inr other ↦ record {
      trace = refl;
      sleep = inr (λ e. cc (rw e at other), rw other refl);
      state = λ u. rw other refl;
      machines = refl;
    }
  ]

  send_run :
      (r : Routine) (val : ℕ)
      → may_ask r (k.tasks t).type ≡ true
      → is_odd_sleep r val ≡ false
      → sys_sched_ctrl cfg (number r) val k ≡ ok (pos 0) (after_send r val)
  unfolding sys_sched_ctrl after_send
  send_run Routine.yield val may small = rw runs (ground arith)
  send_run r val may small = rw runs (ground arith)

  zero_run : is_thread (k.tasks t).type ≡ true → sys_sched_ctrl cfg 4 0 k ≡ ok (pos 0) k
  unfolding sys_sched_ctrl
  zero_run thread = rw runs (rw thread refl)

  beyond_run : (ctrl val : ℕ) → 5 ≤ ctrl → sys_sched_ctrl cfg ctrl val k ≡ ok (negative einval) k
  unfolding sys_sched_ctrl
  beyond_run ctrl val h = rw runs (ground arith)

  refused_request :
      (r : Routine) (val : ℕ)
      → (may_ask r (k.tasks t).type && not (number r == 4 && leb (2 ^ 32) val)) ≡ false
      → CtrlOutcome cfg k t (number r) val (sys_sched_ctrl cfg (number r) val k)
  refused_request r val h =
      CtrlOutcome.refused
        (λ s same allowed.
          let e = same_request s r same in
          let (may, small) =
            Allowed-asks r (k.tasks t).type val
              (subst (λ v. Allowed (k.tasks t).type val v) e allowed) in
          clash (may_ask r (k.tasks t).type) (number r == 4) (val == 0) (leb (2 ^ 32) val) may small
            h)
        (λ zero_sleep.
          let e = same_request r Routine.sleep_ms zero_sleep.0 in
          thread_may
            (subst
              (λ v. (may_ask v (k.tasks t).type && not (number v == 4 && leb (2 ^ 32) val)) ≡ false)
              e h)
            zero_sleep.1 zero_sleep.2)
        (sys_sched_ctrl-refused r val h)
    where
      clash :
          (m n z l : Bool) → m ≡ true → (n && (z || l)) ≡ false → (m && not (n && l)) ≡ false → ⊥
      clash m n z l a b c = ground (arith, a, b, c)

      thread_may :
          (is_thread (k.tasks t).type && not (leb (2 ^ 32) val)) ≡ false
          → (k.tasks t).type ≡ TaskType.thread
          → val ≡ 0
          → ⊥
      thread_may g e z = cc (rw (e, z) at g)

  outcome_of :
      (r : Routine) (val : ℕ)
      → 0 < cfg.tick_ms
      → CtrlOutcome cfg k t (number r) val (sys_sched_ctrl cfg (number r) val k)
  outcome_of r val ticks = elim (Bool-cases (may_ask r (k.tasks t).type)) [
    | inr may_not ↦ refused_request r val (rw may_not refl)
    | inl may ↦ elim (Bool-cases (is_odd_sleep r val)) [
      | inr fine ↦
          CtrlOutcome.sent r (after_send r val) refl (asks-Allowed r (k.tasks t).type val may fine)
            (send_run r val may fine) (Sent-after_send r val ticks)
      | inl odd ↦ elim (Bool-cases (val == 0)) [
        | inr some_ms ↦ refused_request r val (ground (arith, odd, some_ms))
        | inl no_ms ↦
            let four : number r ≡ 4 = ground (arith, odd) in
            let e = same_request r Routine.sleep_ms four in
            let thread : is_thread (k.tasks t).type ≡ true =
              subst (λ v. may_ask v (k.tasks t).type ≡ true) e may in
            let zero_ms : val ≡ 0 = ground (arith, no_ms) in
            CtrlOutcome.no_sleep four (thread_type (k.tasks t).type thread) zero_ms
              (rw (four, zero_ms) (zero_run thread))
      ]
    ]
  ]

  -- With a tick of at least one millisecond, kSysSchedCtrl of a running task fails no assertion. A
  -- thread may yield, throttle and sleep for less than 2 ^ 32 milliseconds, an LSR may be done, and both
  -- may fail: that gives 0 and sends the cpu the interrupt that will carry it out, with the ticks of a
  -- sleep noted, the fewest that are not shorter, and no state and no queue of the tick machine changes
  -- before the interrupt. A sleep of 0 gives 0 and changes nothing, and every other control or task is
  -- -EINVAL and changes nothing.
  pub sys_sched_ctrl-CtrlOutcome :
      (ctrl val : ℕ)
      → 0 < cfg.tick_ms
      → CtrlOutcome cfg k t ctrl val (sys_sched_ctrl cfg ctrl val k)
  sys_sched_ctrl-CtrlOutcome ctrl val ticks = elim (control ctrl) [
    | inl (r, e) ↦
        subst (λ n. CtrlOutcome cfg k t n val (sys_sched_ctrl cfg n val k)) e
          (outcome_of r val ticks)
    | inr beyond ↦
        CtrlOutcome.refused (λ r e allowed. over r (subst (λ n. 5 ≤ n) (sym e) beyond))
          (λ z. absurd (no_four ctrl beyond z.0)) (beyond_run ctrl val beyond)
  ]
    where
      no_four : (n : ℕ) → 5 ≤ n → n ≡ 4 → ⊥
      no_four n h e = omega arith

      over : (r : Routine) → 5 ≤ number r → ⊥
      over Routine.yield h = omega arith
      over Routine.throttle h = omega arith
      over Routine.lsr_done h = omega arith
      over Routine.failure h = omega arith
      over Routine.sleep_ms h = omega arith
