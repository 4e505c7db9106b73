-- ===== src/Tick/Preempt.antt =====
-- kTickReschedule while a task runs: a pending LSR preempts a thread or the idle task, and no LSR.
use workhorse_rt.Common.{ℕ, ◌≡◌, ◌≢◌, ◌⊎◌, refl, false, none, some, List, ◌∷◌, arith, ◌==◌}
use workhorse_rt.Kernel.{TaskType, SchedState, Kernel, Config}
use workhorse_rt.Kernel.Monad.{ok, this_machine, is_lsr}
use workhorse_rt.Sched.{SchedOps}
use workhorse_rt.Tick.Steps.{
  update_self, with_machine, left_cpu, this_machine-left_cpu, this_machine-interrupted,
  this_machine-started, prepare_leave-left_cpu, interrupted, load-interrupted, started,
  load-started,
}
use workhorse_rt.Tick.Switch.{reschedule, dispatch_next}

abbrev pub state_of : Kernel → ℕ → SchedState
state_of k t = (k.tasks t).state

-- The LSR `l` has taken the cpu from the task `t`.
pub record Preempted (k after : Kernel) (t l : ℕ) (rest : List ℕ) : Type 0 where
  pub runs : (this_machine after).running_task ≡ some l
  pub running : state_of after l ≡ SchedState.running
  pub waits : state_of after t ≡ SchedState.deftick_pending
  pub remembered : (this_machine after).pending_task_lsr ≡ some t
  pub owes_tick : (this_machine after).deferred_ticks ≡ t ∷ (this_machine k).deferred_ticks
  pub queue : (this_machine after).pending_lsr_chain ≡ rest
  pub others : (u : ℕ) → u ≢ t → u ≢ l → state_of after u ≡ state_of k u

module _ (cfg : Config) (ops : SchedOps) (k : Kernel) {t : ℕ}
    (runs : (this_machine k).running_task ≡ some t)
    (running : state_of k t ≡ SchedState.running) where
  -- While an LSR runs nothing is rescheduled.
  pub reschedule-lsr : (k.tasks t).type ≡ TaskType.lsr → reschedule cfg ops k ≡ ok tt k
  unfolding reschedule
  reschedule-lsr e = rw runs (rw running (rw e refl))

  -- A thread or the idle task is interrupted for the LSR that was made pending last: the cpu runs
  -- the LSR, and remembers the task and the tick that it is still owed. Nothing else changes state.
  pub reschedule-Preempted :
      {l : ℕ} {rest : List ℕ}
      → ((k.tasks t).type ≡ TaskType.thread) ⊎ ((k.tasks t).type ≡ TaskType.idle)
      → (this_machine k).pending_task_lsr ≡ none
      → (this_machine k).pending_lsr_chain ≡ l ∷ rest
      → (k.tasks l).type ≡ TaskType.lsr
      → state_of k l ≡ SchedState.lsr_pending
      → (after : Kernel) × (reschedule cfg ops k ≡ ok tt after) × Preempted k after t l rest
  unfolding reschedule dispatch_next
  reschedule-Preempted {l} {rest} kind free queued lsr waiting = (
    after,
    run,
    record {
      runs = rw m4;
      running = unfold started in ground arith;
      waits = unfold started interrupted in ground (arith, apart);
      remembered = rw m4 (rw m3 (rw m2));
      owes_tick = rw m4 (rw m3 (rw m2 (rw m1)));
      queue = rw m4 (rw m3);
      others = λ u a b. unfold started interrupted left_cpu in ground arith;
    },
  )
    where
      k1 : Kernel
      k1 = left_cpu cfg ops k t

      k2 : Kernel
      k2 = interrupted cfg ops k1 t

      k3 : Kernel
      k3 = with_machine k2 (record (this_machine k2) { pending_lsr_chain = rest })

      after : Kernel
      after = started cfg ops k3 l

      m1 : this_machine k1 ≡ record (this_machine k) { running_task = none }
      m1 = this_machine-left_cpu cfg ops k t

      m2 : this_machine k2 ≡ record (this_machine k1) {
        pending_task_lsr = some t;
        deferred_ticks = t ∷ (this_machine k1).deferred_ticks;
      }
      m2 = this_machine-interrupted cfg ops k1 t

      m3 : this_machine k3 ≡ record (this_machine k2) { pending_lsr_chain = rest }
      m3 = update_self k2.machines k2.this_cpu _

      m4 : this_machine after ≡ record (this_machine k3) { running_task = some l }
      m4 = this_machine-started cfg ops k3 l

      apart : (t == l) ≡ false
      apart = ground (arith, running, waiting)

      kind1 : ((k1.tasks t).type ≡ TaskType.thread) ⊎ ((k1.tasks t).type ≡ TaskType.idle)
      kind1 = unfold left_cpu in kind

      chain2 : (this_machine k2).pending_lsr_chain ≡ l ∷ rest
      chain2 = rw m2 (rw m1 queued)

      lsr3 : (k3.tasks l).type ≡ TaskType.lsr
      lsr3 = unfold interrupted left_cpu in ground (arith, lsr)

      waiting3 : state_of k3 l ≡ SchedState.lsr_pending
      waiting3 = unfold interrupted left_cpu in ground (arith, apart, waiting)

      not_lsr : is_lsr (k.tasks t).type ≡ false
      not_lsr = ground (arith, kind)

      dispatched : dispatch_next cfg ops none k2 ≡ ok tt after
      dispatched = rw chain2 (rw lsr3 (load-started cfg ops k3 l lsr3 waiting3))

      run : reschedule cfg ops k ≡ ok tt after
      run = rw runs (
          rw running (
            rw not_lsr (
              rw free (
                rw queued (
                  rw (prepare_leave-left_cpu cfg ops k t runs running) (
                    rw (load-interrupted cfg ops k1 t kind1 (unfold left_cpu in running))
                      dispatched))))))
