-- ===== src/Tick/Steps.antt =====
-- The state changes of a task that call no operation of the policy, each as one change of the
-- kernel.
use workhorse_rt.Common.{ℕ, ◌≡◌, ◌⊎◌, refl, Option, none, some, List, ◌∷◌, arith, update, inl, inr}
use workhorse_rt.Kernel.{
  Task, TaskType, SchedState, Kernel, Config, Event, TickMachine, is_activated,
}
use workhorse_rt.Kernel.Monad.{ok, this_machine}
use workhorse_rt.Sched.{SchedOps}
use workhorse_rt.Tick.State.{load_next_state, enter_state, run_state_callbacks, prepare_leave}

abbrev pub with_machine : Kernel → TickMachine → Kernel
with_machine k m = record k { machines = update k.machines k.this_cpu m }

abbrev pub with_state : Kernel → ℕ → SchedState → Kernel
with_state k t s = record k { tasks = update k.tasks t (record (k.tasks t) { state = s }) }

-- What is recorded when a plugin's function, if there is one, is called for `t`.
abbrev pub called : Option ℕ → ℕ → List Event → List Event
called none t l = l
called (some fn) t l = Event.call fn t ∷ l

pub update_self {ℓ} : {A : Type ℓ} (f : ℕ → A) (i : ℕ) (v : A) → update f i v i ≡ v
update_self f i v = ground arith

module _ (cfg : Config) (ops : SchedOps) (k : Kernel) (t : ℕ) where
  abbrev pub task : Task
  task = k.tasks t

  unfoldable pub left_cpu : Kernel
  left_cpu = record (with_machine k (record (this_machine k) { running_task = none })) {
    trace = Event.save_ctx t ∷ k.trace;
  }

  pub prepare_leave-left_cpu :
      (this_machine k).running_task ≡ some t
      → task.state ≡ SchedState.running
      → prepare_leave cfg ops k ≡ ok tt left_cpu
  unfolding prepare_leave left_cpu
  prepare_leave-left_cpu runs here = rw runs (rw here refl)

  -- A thread or the idle task leaves the cpu for an LSR.
  unfoldable pub interrupted : Kernel
  interrupted =
      record (with_machine (with_state k t SchedState.deftick_pending) (record (this_machine k) {
        pending_task_lsr = some t;
        deferred_ticks = t ∷ (this_machine k).deferred_ticks;
      })) { trace = called task.callbacks.out_callback_fn t k.trace }

  pub load-interrupted :
      (task.type ≡ TaskType.thread) ⊎ (task.type ≡ TaskType.idle)
      → task.state ≡ SchedState.running
      → load_next_state cfg ops t SchedState.deftick_pending k ≡ ok tt interrupted
  unfolding load_next_state enter_state run_state_callbacks is_activated interrupted
  load-interrupted (inl e) here = rw e (rw here (ground arith))
  load-interrupted (inr e) here = rw e (rw here (ground arith))

  -- An LSR that was pending starts.
  unfoldable pub started : Kernel
  started =
      record (with_machine (with_state k t SchedState.running)
        (record (this_machine k) { running_task = some t })) {
          trace =
              called task.callbacks.in_callback_fn t
                (Event.restore_ctx t ∷ Event.enter_domain task.domain.cur_domain ∷ k.trace);
        }

  pub load-started :
      task.type ≡ TaskType.lsr
      → task.state ≡ SchedState.lsr_pending
      → load_next_state cfg ops t SchedState.running k ≡ ok tt started
  unfolding load_next_state enter_state run_state_callbacks is_activated started
  load-started e here = rw e (rw here (ground arith))

  pub this_machine-left_cpu :
      this_machine left_cpu ≡ record (this_machine k) { running_task = none }
  unfolding left_cpu
  this_machine-left_cpu = update_self k.machines k.this_cpu _

  pub this_machine-interrupted : this_machine interrupted ≡ record (this_machine k) {
    pending_task_lsr = some t;
    deferred_ticks = t ∷ (this_machine k).deferred_ticks;
  }
  unfolding interrupted
  this_machine-interrupted = update_self k.machines k.this_cpu _

  pub this_machine-started :
      this_machine started ≡ record (this_machine k) { running_task = some t }
  unfolding started
  this_machine-started = update_self k.machines k.this_cpu _
