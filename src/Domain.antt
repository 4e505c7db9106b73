-- ===== src/Domain.antt =====
-- src/workhorse/kDomainUniverse/kDomainUniverse.c: the table of protection domains, and the stack of
-- invocations by which a task moves between them.
pub mod Stack
pub mod Table
mod Tests
use workhorse_rt.Common.{
  ℕ, ◌+◌, ◌-◌, Bool, true, false, not, ◌&&◌, ◌||◌, Option, none, some, ◌==◌, ltb, leb,
  if◌then◌else◌, update,
}
use workhorse_rt.Bitmap.{test_bit}
use workhorse_rt.Kernel.{
  Task, TaskDomain, Domain, EntryPoint, InvocationInfo, InvocationEntry, InvocationType, Kernel,
  Config,
}
use workhorse_rt.Kernel.Monad.{
  M, Act, ok, pure, ◌>>=◌, ◌>>◌, assert, modify, task_of, is_some, running_task, Outcome, done,
  failed, Errno, einval, efault,
}

abbrev no_entry : EntryPoint
no_entry = record { entry = 0; valid = false }

-- The entry point of a domain for a kind of invocation.
unfoldable pub entry_of : InvocationInfo → InvocationType → EntryPoint
entry_of info InvocationType.invalid = no_entry
entry_of info InvocationType.ipc = info.invocation_ipc
entry_of info InvocationType.vmem_fault = info.exception_vmem_fault
entry_of info InvocationType.illegal_opcode = info.exception_illegal_opcode
entry_of info InvocationType.alignment = info.exception_alignment
entry_of info InvocationType.debug = info.exception_debug
entry_of info InvocationType.arithmetic = info.exception_arithmetic
entry_of info InvocationType.other = info.exception_other

abbrev pub is_ipc : InvocationType → Bool
is_ipc InvocationType.ipc = true
is_ipc _ = false

abbrev pub set_domain : ℕ → TaskDomain → Kernel → Kernel
set_domain t d k = record k { tasks = update k.tasks t (record (k.tasks t) { domain = d }) }

abbrev pub domain_of : Kernel → ℕ → TaskDomain
domain_of k t = (k.tasks t).domain

-- The member of the task with one more invocation, of a domain by what `entry` names.
abbrev pub pushed : TaskDomain → ℕ → InvocationEntry → TaskDomain
pushed d invoked entry = record {
  cur_domain = some invoked;
  invocation_stack = update d.invocation_stack d.invocation_stack_depth entry;
  invocation_stack_depth = d.invocation_stack_depth + 1;
}

-- The member without its top invocation, whose slot is marked as free.
abbrev pub popped : TaskDomain → TaskDomain
popped d =
    let depth : ℕ = d.invocation_stack_depth - 1 in
    let top : InvocationEntry = d.invocation_stack depth in
    record {
      cur_domain = top.invoking_domain;
      invocation_stack =
          update d.invocation_stack depth (record top { type = InvocationType.invalid });
      invocation_stack_depth = depth;
    }

module _ (cfg : Config) where
  unfoldable pub universe_get : ℕ → Kernel → Option ℕ
  universe_get id k =
      if leb cfg.max_domains id || not (is_some (k.domain_table id))
      then none
      else k.domain_table id

  unfoldable pub universe_add : ℕ → ℕ → M Bool
  universe_add id d k =
      if leb cfg.max_domains id || is_some (k.domain_table id)
      then ok false k
      else ok true (record k {
        domain_table = update k.domain_table id (some d);
        domains = update k.domains d (record (k.domains d) { dom_id = id });
      })

  unfoldable pub universe_can_add : ℕ → Kernel → Bool
  universe_can_add id k = ltb id cfg.max_domains && not (is_some (k.domain_table id))

  abbrev ipc_valid : Option ℕ → Kernel → Bool
  ipc_valid none k = false
  ipc_valid (some d) k = (k.domains d).invocation_info.invocation_ipc.valid

  -- kDomainUniverseAuthenticateInvocation
  unfoldable pub authenticate : ℕ → ℕ → Kernel → Bool
  authenticate id invoking k =
      ltb id cfg.max_domains
      && ipc_valid (k.domain_table id) k
      && test_bit (k.domains invoking).invocation_info.invoke_perm_map id

  -- kDomainPushInvocationEntry; the new program counter is the value of `newPc`.
  unfoldable pub push_invocation : ℕ → InvocationType → ℕ → ℕ → ℕ → M (Outcome ℕ)
  push_invocation invoked type return_address vmem_fault_address error_code = do
    t ← running_task
    v ← task_of t
    let depth = v.domain.invocation_stack_depth
    assert (leb depth cfg.max_depth)
    λ k.
        let point : EntryPoint = entry_of (k.domains invoked).invocation_info type in
        if depth == cfg.max_depth
        then ok (failed (if is_ipc type then einval else efault)) k
        else (if point.valid
            then ok (done point.entry) (
                set_domain t
                  (pushed v.domain invoked (record {
                    invoking_domain = v.domain.cur_domain;
                    type = type;
                    return_address = return_address;
                    vmem_fault_address = vmem_fault_address;
                    error_code = error_code;
                  }))
                  k)
            else ok (failed einval) k)

  -- kDomainPopInvocationEntry; the values of `newPc` and `newDomain`.
  unfoldable pub pop_invocation : M (Outcome (ℕ × Option ℕ))
  pop_invocation = do
    t ← running_task
    v ← task_of t
    let depth = v.domain.invocation_stack_depth
    λ k.
        if depth == 0
        then ok (failed einval) k
        else ok
            (done (
              (v.domain.invocation_stack (depth - 1)).return_address,
              (v.domain.invocation_stack (depth - 1)).invoking_domain,
            ))
            (set_domain t (popped v.domain) k)

  -- kDomainReadInvocationEntry: the top entry, with the task and the index where it stands.
  unfoldable pub read_invocation : M (Option (ℕ × ℕ × InvocationEntry))
  read_invocation = do
    t ← running_task
    v ← task_of t
    let depth = v.domain.invocation_stack_depth
    pure (if depth == 0 then none else some (t, depth - 1, v.domain.invocation_stack (depth - 1)))
