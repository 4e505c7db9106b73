-- ===== src/Sched/Rr/Ready.antt =====
-- How a thread becomes ready under the round robin policy, and when that ends the idle task's turn.
use workhorse_rt.Common.{
  ℕ, ◌<◌, ◌≡◌, ◌≢◌, ◌⊎◌, refl, sym, ◌∙◌, true, false, [], ◌∷◌, ◌++◌, arith, ltb, some, update,
  Bool-cases, inl, inr,
}
use workhorse_rt.Bitmap.{test_bit, is_empty}
use workhorse_rt.Bitmap.Empty.{is_empty-none, is_empty-some}
use workhorse_rt.Kernel.{TaskType, SchedState, SchedulerRr, Kernel, Config}
use workhorse_rt.Kernel.Monad.{ok, this_machine}
use workhorse_rt.Sched.Rr.{push, push_as, enqueue, set_rr, should_reschedule, preempted}
use workhorse_rt.Sched.Rr.Queues.{has_thread, IsQueues, enqueue-IsQueues}
use workhorse_rt.Sched.Rr.Preempt.{
  rr_of, prio_of, left_of, left_after, MustYield, preempted-MustYield,
}

-- A thread that is pushed stands at the back of the queue of its priority on its own cpu; every other
-- queue is unchanged, and the queues stay in step with their bits.
pub push-IsQueues :
    (n t : ℕ) (k : Kernel)
    → (k.tasks t).type ≡ TaskType.thread
    → prio_of k t < n
    → IsQueues n (rr_of k t)
    → (after : Kernel) × (push t k ≡ ok tt after)
      × ((rr_of after t).qs
          ≡ update (rr_of k t).qs (prio_of k t) ((rr_of k t).qs (prio_of k t) ++ t ∷ []))
      × IsQueues n (rr_of after t)
      × ((cpu : ℕ) → cpu ≢ (k.tasks t).cpu_id → after.rr cpu ≡ k.rr cpu)
unfolding push push_as
push-IsQueues n t k thread small q =
    let s = enqueue (rr_of k t) (prio_of k t) t in
    let same : rr_of (set_rr k (k.tasks t).cpu_id s) t ≡ s = ground arith in
    (
      set_rr k (k.tasks t).cpu_id s,
      rw (thread, push_as) refl,
      rw same refl,
      rw same (enqueue-IsQueues n (rr_of k t) (prio_of k t) t q small),
      λ cpu other. ground arith,
    )

has_thread_below :
    (n j : ℕ) (s : SchedulerRr)
    → IsQueues n s
    → test_bit s.active_qs j ≡ true
    → (j < n) × (has_thread (s.qs j) ≡ true)
has_thread_below n j s q set = elim (Bool-cases (ltb j n)) [
  | inl below ↦ (ground arith, sym (q.active j) ∙ set)
  | inr above ↦
      let none : s.qs j ≡ [] = q.unused j (ground arith) in
      let e : has_thread (s.qs j) ≡ false = rw none refl in cc (e, q.active j, set)
]

-- While the idle task runs, kSchedShouldRescheduleRr answers yes exactly when some queue of its cpu
-- has a thread, and changes nothing.
pub should_reschedule-idle :
    (cfg : Config) (k : Kernel) {t : ℕ}
    → (this_machine k).running_task ≡ some t
    → (k.tasks t).state ≡ SchedState.running
    → (k.tasks t).type ≡ TaskType.idle
    → IsQueues cfg.num_prio (rr_of k t)
    → ((should_reschedule cfg k ≡ ok true k)
        × ((p : ℕ) × (p < cfg.num_prio) × (has_thread ((rr_of k t).qs p) ≡ true)))
      ⊎ ((should_reschedule cfg k ≡ ok false k) × ((p : ℕ) → has_thread ((rr_of k t).qs p) ≡ false))
unfolding should_reschedule
should_reschedule-idle cfg k {t} runs running idle q =
    elim (Bool-cases (is_empty (rr_of k t).active_qs cfg.num_prio)) [
      | inl empty ↦ inr (
        rw runs (rw running (rw idle (rw empty refl))),
        λ p. elim (Bool-cases (ltb p cfg.num_prio)) [
          | inl below ↦
              sym (q.active p)
              ∙ is_empty-none (rr_of k t).active_qs cfg.num_prio p empty (ground arith)
          | inr above ↦ rw (q.unused p (ground arith)) refl
        ],
      )
      | inr some_set ↦
          let (j, small, set) = is_empty-some (rr_of k t).active_qs cfg.num_prio q.bytes some_set in
          let (below, ready) = has_thread_below cfg.num_prio j (rr_of k t) q set in
          inl (rw runs (rw running (rw idle (rw some_set refl))), (j, below, ready))
    ]

should_reschedule-thread :
    (cfg : Config) (k : Kernel) {t : ℕ}
    → (this_machine k).running_task ≡ some t
    → (k.tasks t).state ≡ SchedState.running
    → (k.tasks t).type ≡ TaskType.thread
    → should_reschedule cfg k ≡ preempted cfg t k
unfolding should_reschedule
should_reschedule-thread cfg k runs running thread = rw runs (rw running (rw thread refl))

-- While a thread runs whose priority is in range and whose timeslices are not 0, with queues in step
-- with their bits, kSchedShouldRescheduleRr answers. It says yes only if the thread must yield, and no
-- only if it need not; then the thread keeps the timeslice that it has left, or gets a full new one when none
-- is left, and the queues are unchanged.
pub should_reschedule-MustYield :
    (cfg : Config) (k : Kernel) {t : ℕ}
    → (this_machine k).running_task ≡ some t
    → (k.tasks t).state ≡ SchedState.running
    → (k.tasks t).type ≡ TaskType.thread
    → IsQueues cfg.num_prio (rr_of k t)
    → prio_of k t < cfg.num_prio
    → 0 < (k.tasks t).thread.param_rr.timeslice_ticks
    → ((should_reschedule cfg k ≡ ok true k) × MustYield cfg k t)
      ⊎ ((after : Kernel) × (should_reschedule cfg k ≡ ok false after)
          × ¬ MustYield cfg k t
          × (left_of after t ≡ left_after k t)
          × (after.rr ≡ k.rr))
should_reschedule-MustYield cfg k {t} runs running thread q small slice =
    rw (should_reschedule-thread cfg k runs running thread)
      (preempted-MustYield cfg k t q small slice)
