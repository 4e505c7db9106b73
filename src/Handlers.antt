-- ===== src/Handlers.antt =====
-- src/import: what a port calls on a system call, an exception, a tick and an interrupt for an LSR.
pub mod Faults
mod Tests
use workhorse_rt.Common.{ℕ, Bool, true, false, Option, ◌==◌, if◌then◌else◌, ℤ}
use workhorse_rt.Kernel.{SchedState, Event, InvocationType, Kernel, Config}
use workhorse_rt.Kernel.Monad.{
  M, Act, ok, pure, ◌>>=◌, ◌>>◌, get, emit, not_null, running_task, Outcome, done, failed,
}
use workhorse_rt.Domain.{push_invocation, domain_of}
use workhorse_rt.Sched.{SchedOps}
use workhorse_rt.Syscall.{refuse, sys_invocation_ctrl, sys_sched_ctrl}
use workhorse_rt.Syscall.Identity.{
  sys_get_dom_id, sys_get_task_id, sys_get_task_type, sys_get_cpu_id,
}
use workhorse_rt.Tick.Switch.{switch_running_task, lsr_push, lsr_push_current, reschedule}

-- kLsrHandlerOp_t, with the task of the LSR where the operation reads it.
pub data LsrOp : Type 0 where
  push : ℕ → LsrOp
  push_current : LsrOp
  rescheduled : LsrOp

module _ (cfg : Config) where
  -- kSyscallHandler of src/import/kSyscallHandler.c
  unfoldable pub syscall_handler : ℕ → ℕ → ℕ → ℕ → M ℤ
  unfolding sys_invocation_ctrl sys_sched_ctrl sys_get_dom_id sys_get_task_id sys_get_task_type
      sys_get_cpu_id
  syscall_handler pc id param1 param2 =
      if id == 0
      then sys_invocation_ctrl cfg pc param1 param2
      else (if id == 1
          then sys_sched_ctrl cfg param1 param2
          else (if id == 2
              then sys_get_dom_id
              else (if id == 3
                  then sys_get_task_id
                  else (if id == 4
                      then sys_get_task_type
                      else (if id == 5 then sys_get_cpu_id else refuse)))))

  -- A fault that cannot be delivered ends the task.
  unfoldable pub fault_outcome : SchedOps → Outcome ℕ → Act
  fault_outcome ops (done pc) = emit (Event.set_exception_return pc)
  fault_outcome ops (failed _) = switch_running_task cfg ops SchedState.failure

  -- kExceptionHandler
  unfoldable pub exception_handler : SchedOps → Bool → InvocationType → ℕ → ℕ → ℕ → Act
  unfolding fault_outcome
  exception_handler ops fail type return_address vmem_fault_address error_code = do
    t ← running_task
    k ← get
    d ← not_null (domain_of k t).cur_domain
    if fail then switch_running_task cfg ops SchedState.failure else (do
      r ← push_invocation cfg d type return_address vmem_fault_address error_code
      fault_outcome ops r)

  -- kLsrHandler
  unfoldable pub lsr_handler : SchedOps → LsrOp → Act
  unfolding lsr_push lsr_push_current reschedule
  lsr_handler ops (LsrOp.push t) = lsr_push cfg ops t
  lsr_handler ops LsrOp.push_current = lsr_push_current cfg ops
  lsr_handler ops LsrOp.rescheduled = reschedule cfg ops
