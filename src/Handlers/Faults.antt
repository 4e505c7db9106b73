-- ===== src/Handlers/Faults.antt =====
-- An exception enters the handler of the domain in which it happened, or ends the task.
use workhorse_rt.Common.{ℕ, ◌+◌, ◌≤◌, ◌<◌, ◌≡◌, refl, true, false, some, ◌∷◌}
use workhorse_rt.Kernel.{Kernel, Config, SchedState, Event, InvocationType, EntryPoint}
use workhorse_rt.Kernel.Monad.{Run, ok, bind, this_machine}
use workhorse_rt.Domain.{push_invocation, domain_of}
use workhorse_rt.Domain.Stack.{depth_of, EntryFor, Pushed, push_invocation-Pushed}
use workhorse_rt.Sched.{SchedOps}
use workhorse_rt.Tick.Switch.{switch_running_task}
use workhorse_rt.Handlers.{exception_handler, fault_outcome}

-- What kExceptionHandler does for the running task `t` in the domain `d`.
pub data Handled (cfg : Config) (ops : SchedOps) (k : Kernel) (t d : ℕ) (type : InvocationType)
    (r : Run (Unit {0})) : Type 0 where
  delivered :
      (point : EntryPoint) (after : Kernel)
      → depth_of k t < cfg.max_depth
      → EntryFor (k.domains d).invocation_info type point
      → point.valid ≡ true
      → r ≡ ok tt after
      → (domain_of after t).cur_domain ≡ some d
      → depth_of after t ≡ depth_of k t + 1
      → after.trace ≡ Event.set_exception_return point.entry ∷ k.trace
      → Handled cfg ops k t d type r
  no_room :
      depth_of k t ≡ cfg.max_depth
      → r ≡ switch_running_task cfg ops SchedState.failure k
      → Handled cfg ops k t d type r
  no_entry_point :
      (point : EntryPoint)
      → EntryFor (k.domains d).invocation_info type point
      → point.valid ≡ false
      → r ≡ switch_running_task cfg ops SchedState.failure k
      → Handled cfg ops k t d type r

-- An exception that can be delivered stays in the domain `d` of the running task, opens one
-- invocation there and goes on at the entry point that `d` has for this kind of exception; with no
-- room on the stack or no such entry point the handler is kTickSwitchRunningTask with the failure
-- state on the state before the exception.
pub exception_handler-Handled :
    (cfg : Config) (ops : SchedOps) (k : Kernel) {t d : ℕ} (type : InvocationType) (pc vmem err : ℕ)
    → (this_machine k).running_task ≡ some t
    → (domain_of k t).cur_domain ≡ some d
    → depth_of k t ≤ cfg.max_depth
    → Handled cfg ops k t d type (exception_handler cfg ops false type pc vmem err k)
unfolding exception_handler
exception_handler-Handled cfg ops k {t} {d} type pc vmem err runs here bound =
    rw runs (rw here (go (push_invocation-Pushed cfg k runs d type pc vmem err bound)))
  where
    go :
        Pushed cfg k t d type (push_invocation cfg d type pc vmem err k)
        → Handled cfg ops k t d type
            (bind (push_invocation cfg d type pc vmem err k) (fault_outcome cfg ops))
    go (Pushed.full e h which r) = Handled.no_room h (rw r refl)
    go (Pushed.refused point h for_type missing r) =
        Handled.no_entry_point point for_type missing (rw r refl)
    go (Pushed.entered point after h for_type valid r inside deeper machines traced) =
        Handled.delivered point
          (record after { trace = Event.set_exception_return point.entry ∷ after.trace }) h for_type
          valid (rw r refl) inside deeper (rw traced)
