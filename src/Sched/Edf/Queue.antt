-- ===== src/Sched/Edf/Queue.antt =====
-- How deadlines enter the chain, pass, and take the cpu from the running thread.
use workhorse_rt.Common.{
  ℕ, ◌⊎◌, ◌==◌, ◌<◌, ◌≡◌, ◌≢◌, refl, sym, ap, ◌∙◌, Bool, true, false, some, List, [], ◌∷◌, map,
  arith, ltb, Distinct, has, Bool-cases, inl, inr,
}
use workhorse_rt.DeltaChain
use workhorse_rt.DeltaChain.{Nodes, DeltaChain, peek}
use workhorse_rt.DeltaChain.Times.{times, remaining, enqueue}
use workhorse_rt.DeltaChain.Insert.{insert-enqueue}
use workhorse_rt.DeltaChain.Order.{insert-Distinct}
use workhorse_rt.DeltaChain.Tick.{one_less, tick-one_less}
use workhorse_rt.Kernel.{Kernel, Config, TaskType, SchedState}
use workhorse_rt.Kernel.Monad.{ok, this_machine}
use workhorse_rt.Sched.Edf.{
  Timers, this_edf, set_edf, deadline_of, delta_of, push, push_as, fixup, is_before, preempted,
  should_reschedule, tick_transition_callback,
}
use workhorse_rt.Sched.Edf.Renew.{renew}
use workhorse_rt.Sched.Edf.Kept.{deadlines, IsEdf, NoneBefore, NoneBefore-mono, NoneBefore-times}
use workhorse_rt.Sched.Edf.Pick.{fixup-FixedUp, deadlines-set_edf, remaining-cons}

-- The deadlines of a cpu.
abbrev pub deadlines_at : ℕ → Kernel → List (ℕ × ℕ)
deadlines_at cpu k = remaining k.edf_nodes (k.edf cpu)

-- A deadline of `left` ticks goes on; one that has come starts again with `fresh` ticks.
abbrev pub GoesOnWith : ℕ → ℕ → ℕ → Type 0
GoesOnWith left fresh d = ((left ≡ 0) × (d ≡ fresh)) ⊎ ((0 < left) × (d ≡ left))

delta_of-GoesOnWith :
    (k : Kernel) (t : ℕ)
    → GoesOnWith (k.edf_nodes t).delta (k.tasks t).thread.virtual_deadline (delta_of t k)
delta_of-GoesOnWith k t = elim (Bool-cases ((k.edf_nodes t).delta == 0)) [
  | inl come ↦ inl (ground (arith, come), ground (arith, come))
  | inr waits ↦ inr (ground (arith, waits), ground (arith, waits))
]

-- A thread that is pushed on a chain of distinct threads that it is not in stands behind those whose
-- deadline comes no later, on its own cpu: with what its deadline had left, or with its virtual deadline
-- when nothing was left. The others keep their deadlines, no thread is in the chain twice, and the
-- chains of the other cpus do not change.
pub push-enqueue :
    (k : Kernel) (t : ℕ)
    → (k.tasks t).type ≡ TaskType.thread
    → Distinct (k.edf (k.tasks t).cpu_id).dq
    → has t (k.edf (k.tasks t).cpu_id).dq ≡ false
    → (d : ℕ) × GoesOnWith (k.edf_nodes t).delta (k.tasks t).thread.virtual_deadline d
      × ((after : Kernel) × (push t k ≡ ok tt after)
          × (deadlines_at (k.tasks t).cpu_id after
              ≡ enqueue t d (deadlines_at (k.tasks t).cpu_id k))
          × Distinct (after.edf (k.tasks t).cpu_id).dq
          × ((cpu : ℕ) → cpu ≢ (k.tasks t).cpu_id → after.edf cpu ≡ k.edf cpu))
unfolding push push_as
push-enqueue k t thread d out =
    let cpu = (k.tasks t).cpu_id in
    let r : Timers = DeltaChain.insert k.edf_nodes (k.edf cpu) t (delta_of t k) in
    let after : Kernel = set_edf cpu r k in
    let own : after.edf cpu ≡ r.1 = ground arith in
    (
      delta_of t k,
      delta_of-GoesOnWith k t,
      (
        after,
        rw (thread, push_as) refl,
        ap (remaining r.0) own ∙ insert-enqueue k.edf_nodes (k.edf cpu) t (delta_of t k) d out,
        rw own (insert-Distinct k.edf_nodes (k.edf cpu) t (delta_of t k) d out),
        λ other h. ground arith,
      ),
    )

-- A tick takes one tick off each deadline of this cpu that has not come.
pub tick_transition_callback-one_less :
    (k : Kernel)
    → Distinct (this_edf k).dq
    → (after : Kernel) × (tick_transition_callback k ≡ ok tt after)
      × (deadlines after ≡ map one_less (deadlines k))
unfolding tick_transition_callback
tick_transition_callback-one_less k d =
    let r : Timers = DeltaChain.tick k.edf_nodes (this_edf k) in
    (set_edf k.this_cpu r k, refl, deadlines-set_edf k r ∙ tick-one_less k.edf_nodes (this_edf k) d)

-- The first of the deadlines comes before `delta`.
abbrev pub is_first_before : ℕ → List (ℕ × ℕ) → Bool
is_first_before delta [] = false
is_first_before delta ((p, d) ∷ rest) = ltb d delta

peek-first :
    (delta : ℕ) (nodes : Nodes) (epoch : ℕ) (xs : List ℕ)
    → is_before delta nodes (peek (record { current_epoch = epoch; dq = xs }))
      ≡ is_first_before delta (remaining nodes (record { current_epoch = epoch; dq = xs }))
unfolding peek
peek-first delta nodes epoch [] = unfold remaining times in refl
peek-first delta nodes epoch (p ∷ xs) =
    ap (is_first_before delta) (sym (remaining-cons nodes epoch p xs))

none_before :
    (delta : ℕ) (nodes : Nodes) (epoch : ℕ) (xs : List ℕ)
    → is_first_before delta (remaining nodes (record { current_epoch = epoch; dq = xs })) ≡ false
    → NoneBefore delta (remaining nodes (record { current_epoch = epoch; dq = xs }))
none_before delta nodes epoch [] h = unfold remaining times in tt
none_before delta nodes epoch (p ∷ xs) h =
    let e = remaining-cons nodes epoch p xs in
    let h' : ltb (nodes p).delta delta ≡ false = ap (is_first_before delta) (sym e) ∙ h in
    rw e (
      ground arith,
      NoneBefore-mono delta (nodes p).delta (times nodes (nodes p).delta xs) (ground arith)
          (NoneBefore-times nodes (nodes p).delta xs),
    )

-- What kSchedShouldRescheduleEdf answers for the running thread `t`, from the deadlines as renewed.
pub data Answer (cfg : Config) (k : Kernel) (t : ℕ) : Type 0 where
  gives_way :
      (u d : ℕ) (rest : List (ℕ × ℕ)) (after : Kernel)
      → should_reschedule cfg k ≡ ok true after
      → deadlines after ≡ (u, d) ∷ rest
      → d < (k.edf_nodes t).delta
      → deadlines after ≡ renew (deadline_of k) (deadlines k)
      → IsEdf after
      → Answer cfg k t
  goes_on :
      (after : Kernel)
      → should_reschedule cfg k ≡ ok false after
      → NoneBefore (k.edf_nodes t).delta (deadlines after)
      → deadlines after ≡ renew (deadline_of k) (deadlines k)
      → IsEdf after
      → Answer cfg k t

should_reschedule-preempted :
    (cfg : Config) (k : Kernel) {t : ℕ}
    → (this_machine k).running_task ≡ some t
    → (k.tasks t).state ≡ SchedState.running
    → (k.tasks t).type ≡ TaskType.thread
    → should_reschedule cfg k ≡ preempted t k
unfolding should_reschedule
should_reschedule-preempted cfg k runs running thread = rw runs (rw running (rw thread refl))

preempted-fixup :
    (k after : Kernel) (t : ℕ)
    → fixup k ≡ ok tt after
    → after.edf (k.tasks t).cpu_id ≡ this_edf after
    → preempted t k ≡ ok (is_first_before (k.edf_nodes t).delta (deadlines after)) after
unfolding preempted
preempted-fixup k after t run own =
    let delta = (k.edf_nodes t).delta in
    rw run (
      ap (λ b. ok b after)
        (ap (λ c. is_before delta after.edf_nodes (peek c)) own
          ∙ peek-first delta after.edf_nodes (this_edf after).current_epoch (this_edf after).dq))

answer :
    (cfg : Config) (k after : Kernel) (t : ℕ)
    → should_reschedule cfg k ≡ ok (is_first_before (k.edf_nodes t).delta (deadlines after)) after
    → deadlines after ≡ renew (deadline_of k) (deadlines k)
    → IsEdf after
    → Answer cfg k t
answer cfg k after t run renewed good = go (deadlines after) refl
  where
    delta : ℕ
    delta = (k.edf_nodes t).delta

    go : (xs : List (ℕ × ℕ)) → deadlines after ≡ xs → Answer cfg k t
    go [] e =
        Answer.goes_on after (run ∙ ap (λ x. ok (is_first_before delta x) after) e) (rw e tt)
          renewed good
    go ((u, d) ∷ rest) e = elim (Bool-cases (ltb d delta)) [
      | inl sooner ↦
          Answer.gives_way u d rest after
            (run ∙ (ap (λ x. ok (is_first_before delta x) after) e ∙ ap (λ b. ok b after) sooner)) e
            (ground arith) renewed good
      | inr no_sooner ↦
          let first_later = ap (is_first_before delta) e ∙ no_sooner in
          Answer.goes_on after (run ∙ ap (λ b. ok b after) first_later)
            (none_before delta after.edf_nodes (this_edf after).current_epoch (this_edf after).dq
              first_later)
            renewed good
    ]

-- While a thread runs on its own cpu, kSchedShouldRescheduleEdf renews the deadlines that have come and
-- answers yes exactly if then another thread of the cpu has an earlier deadline than the running one.
pub should_reschedule-Answer :
    (cfg : Config) (k : Kernel) {t : ℕ}
    → (this_machine k).running_task ≡ some t
    → (k.tasks t).state ≡ SchedState.running
    → (k.tasks t).type ≡ TaskType.thread
    → (k.tasks t).cpu_id ≡ k.this_cpu
    → IsEdf k
    → Answer cfg k t
should_reschedule-Answer cfg k {t} runs running thread here h =
    let f = fixup-FixedUp k h in
    let after : Kernel = set_edf k.this_cpu f.timers k in
    answer cfg k after t
      (should_reschedule-preempted cfg k runs running thread
        ∙ preempted-fixup k after t f.run (ap after.edf here))
      (deadlines-set_edf k f.timers ∙ f.renewed) f.good
