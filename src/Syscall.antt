-- ===== src/Syscall.antt =====
-- src/workhorse/kSyscall/kSyscall.c and src/import/kSyscallHandler.c: the system calls. A result is
-- an intptr_t; the return address that the port holds for the caller is the argument `pc`.
pub mod Sched
pub mod Ipc
pub mod Identity
mod Tests
use workhorse_rt.Common.{
  ℕ, ◌+◌, ◌-◌, ◌/◌, ◌%◌, ◌^◌, Bool, true, false, not, ◌&&◌, ◌||◌, Option, none, some, ◌==◌, ltb,
  leb, if◌then◌else◌, update, ℤ, pos, negsuc, to_intptr,
}
use workhorse_rt.Kernel.{
  Task, TaskType, SchedState, Routine, Event, InvocationType, InvocationEntry, Kernel, Config,
}
use workhorse_rt.Kernel.Monad.{
  M, Act, ok, pure, ◌>>=◌, ◌>>◌, get, modify, assert, emit, skip, when, task_of, set_task,
  with_tick, not_null, is_some, is_thread, is_lsr, running_task, Outcome, done, failed, Errno,
  einval, efault,
}
use workhorse_rt.Domain.{
  authenticate, universe_get, push_invocation, pop_invocation, read_invocation, is_ipc, domain_of,
  set_domain,
}
use workhorse_rt.Sched.{SchedOps}
use workhorse_rt.Tick.Switch.{switch_running_task}

abbrev pub negative : Errno → ℤ
negative einval = negsuc 21
negative efault = negsuc 13

abbrev pub refuse : M ℤ
refuse = pure (negative einval)

abbrev same_domain : Option ℕ → Option ℕ → Bool
same_domain none none = true
same_domain (some a) (some b) = a == b
same_domain _ _ = false

-- A move between domains: the address space changes if the domain does, and the caller goes on at `pc`.
unfoldable pub enter_at : ℕ → Option ℕ → Option ℕ → M ℤ
enter_at pc from to = do
  when (not (same_domain from to)) (emit (Event.enter_domain to))
  emit (Event.set_syscall_return pc)
  pure (pos 0)

-- The numbers that user code sees for the kinds of invocation; a free slot fails an assertion.
abbrev type_number : InvocationType → M ℤ
type_number InvocationType.invalid = assert false >> pure (pos 0)
type_number InvocationType.ipc = pure (pos 0)
type_number InvocationType.vmem_fault = pure (pos 1)
type_number InvocationType.illegal_opcode = pure (pos 2)
type_number InvocationType.alignment = pure (pos 3)
type_number InvocationType.debug = pure (pos 4)
type_number InvocationType.arithmetic = pure (pos 5)
type_number InvocationType.other = pure (pos 6)

abbrev is_vmem_fault : InvocationType → Bool
is_vmem_fault InvocationType.vmem_fault = true
is_vmem_fault _ = false

module _ (cfg : Config) where
  -- kInvocationCtrlDoReturn
  unfoldable pub do_return : M ℤ
  do_return = do
    t ← running_task
    k ← get
    r ← pop_invocation cfg
    elim r [
      | failed e ↦ pure (negative e)
      | done (pc, to) ↦ enter_at pc (domain_of k t).cur_domain to
    ]

  -- kInvocationCtrlDoIpc; the callee reads the domain's number as 32 bits of the 64 that it is given.
  unfoldable pub do_ipc : ℕ → ℕ → M ℤ
  do_ipc pc wide = do
    let id = wide % 2 ^ 32
    t ← running_task
    k ← get
    from ← not_null (domain_of k t).cur_domain
    if authenticate cfg id from k
        then (do
          to ← not_null (universe_get cfg id k)
          r ← push_invocation cfg to InvocationType.ipc pc 0 0
          elim r [
            | failed e ↦ pure (negative e)
            | done entry ↦ enter_at entry (some from) (some to)
          ])
        else refuse

  -- kInvocationCtrlGetInvocationsAvail
  unfoldable pub get_invocations_avail : M ℤ
  get_invocations_avail = do
    t ← running_task
    k ← get
    let depth = (domain_of k t).invocation_stack_depth
    assert (leb depth cfg.max_depth)
    pure (pos (cfg.max_depth - depth))

  -- kInvocationCtrlGetInvokingDomId
  unfoldable pub get_invoking_dom_id : M ℤ
  get_invoking_dom_id = do
    top ← read_invocation cfg
    elim top [
      | none ↦ refuse
      | some (t, i, entry) ↦ (do
        d ← not_null entry.invoking_domain
        k ← get
        pure (pos (k.domains d).dom_id))
    ]

  -- kInvocationCtrlGetInvocationType
  unfoldable pub get_invocation_type : M ℤ
  get_invocation_type = do
    top ← read_invocation cfg
    elim top [ none ↦ refuse | some (t, i, entry) ↦ type_number entry.type ]

  -- kInvocationCtrlGetReturnAddress
  unfoldable pub get_return_address : M ℤ
  get_return_address = do
    top ← read_invocation cfg
    elim top [
      | none ↦ refuse
      | some (t, i, entry) ↦
          if is_ipc entry.type then refuse else pure (to_intptr entry.return_address)
    ]

  -- kInvocationCtrlGetVmemFaultAddress
  unfoldable pub get_vmem_fault_address : M ℤ
  get_vmem_fault_address = do
    top ← read_invocation cfg
    elim top [
      | none ↦ refuse
      | some (t, i, entry) ↦
          if is_vmem_fault entry.type then pure (to_intptr entry.vmem_fault_address) else refuse
    ]

  -- kInvocationCtrlGetErrorCode
  unfoldable pub get_error_code : M ℤ
  get_error_code = do
    top ← read_invocation cfg
    elim top [
      | none ↦ refuse
      | some (t, i, entry) ↦
          if is_ipc entry.type
          then refuse
          else (do assert (ltb entry.error_code (2 ^ 63)); pure (to_intptr entry.error_code))
    ]

  -- kInvocationCtrlSetReturnAddress
  unfoldable pub set_return_address : ℕ → M ℤ
  set_return_address address = do
    top ← read_invocation cfg
    elim top [
      | none ↦ refuse
      | some (t, i, entry) ↦ if is_ipc entry.type then refuse else (do
        modify λ k.
            set_domain t
              (record (domain_of k t) {
                invocation_stack =
                    update (domain_of k t).invocation_stack i
                      (record entry { return_address = address });
              })
              k
        pure (pos 0))
    ]

  -- kSysInvocationCtrl
  unfoldable pub sys_invocation_ctrl : ℕ → ℕ → ℕ → M ℤ
  unfolding do_return do_ipc get_invocations_avail get_invoking_dom_id get_invocation_type
      get_return_address get_vmem_fault_address get_error_code set_return_address
  sys_invocation_ctrl pc ctrl val =
      if ctrl == 0
      then do_return
      else (if ctrl == 1
          then do_ipc pc val
          else (if ctrl == 2
              then get_invocations_avail
              else (if ctrl == 3
                  then get_invoking_dom_id
                  else (if ctrl == 4
                      then get_invocation_type
                      else (if ctrl == 5
                          then get_return_address
                          else (if ctrl == 6
                              then get_vmem_fault_address
                              else (if ctrl == 7
                                  then get_error_code
                                  else (if ctrl == 8 then set_return_address val else refuse))))))))

  -- A deferred interrupt of the cpu to itself, on which it will run the routine.
  abbrev send : Routine → M ℤ
  send r = emit (Event.self_ipi r) >> pure (pos 0)

  -- Milliseconds in ticks, rounded up.
  unfoldable pub ticks_of_ms : ℕ → ℕ
  ticks_of_ms val = val / cfg.tick_ms + (if val % cfg.tick_ms == 0 then 0 else 1)

  abbrev set_sleep_ticks : ℕ → ℕ → Act
  set_sleep_ticks t n = modify λ k. record k {
    tasks =
        update k.tasks t
          (with_tick (k.tasks t) (record ((k.tasks t).thread.tick) { sleep_ticks = n }));
  }

  -- kSysSchedCtrl
  unfoldable pub sys_sched_ctrl : ℕ → ℕ → M ℤ
  sys_sched_ctrl ctrl val = do
    t ← running_task
    v ← task_of t
    if ctrl == 0
        then (if is_thread v.type then send Routine.yield else refuse)
        else (if ctrl == 1
            then (if is_thread v.type then send Routine.throttle else refuse)
            else (if ctrl == 2
                then (if is_lsr v.type then send Routine.lsr_done else refuse)
                else (if ctrl == 3
                    then (if is_thread v.type || is_lsr v.type
                        then send Routine.failure
                        else refuse)
                    else (if ctrl == 4
                        then (if not (is_thread v.type) || leb (2 ^ 32) val
                            then refuse
                            else (if val == 0
                                then pure (pos 0)
                                else (set_sleep_ticks t (ticks_of_ms val)
                                    >> send Routine.sleep_ms)))
                        else refuse))))

  -- What the interrupt runs: kSchedCtrlYield and the four functions behind it.
  unfoldable pub run_routine : SchedOps → Routine → Act
  run_routine ops Routine.yield = switch_running_task cfg ops SchedState.deftick_yield
  run_routine ops Routine.throttle = switch_running_task cfg ops SchedState.deftick_throttle
  run_routine ops Routine.lsr_done = switch_running_task cfg ops SchedState.lsr_dormant
  run_routine ops Routine.failure = switch_running_task cfg ops SchedState.failure
  run_routine ops Routine.sleep_ms = switch_running_task cfg ops SchedState.deftick_sleep
