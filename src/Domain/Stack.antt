-- ===== src/Domain/Stack.antt =====
-- The invocation stack of the running task: its bound, and the way back out of an invocation.
use workhorse_rt.Common.{
  ℕ, suc, ◌+◌, ◌-◌, ◌≤◌, ◌<◌, ◌≡◌, ◌≢◌, ◌⊎◌, refl, true, false, Option, some, arith, List, ◌==◌,
  leb, if◌then◌else◌, Bool-cases, inl, inr,
}
use workhorse_rt.Kernel.{
  Kernel, Config, InvocationType, InvocationInfo, InvocationEntry, EntryPoint, Event,
}
use workhorse_rt.Kernel.Monad.{Run, ok, Outcome, done, failed, Errno, einval, efault, this_machine}
use workhorse_rt.Domain.{
  push_invocation, pop_invocation, entry_of, domain_of, is_ipc, set_domain, pushed, popped,
}

abbrev pub depth_of : Kernel → ℕ → ℕ
depth_of k t = (domain_of k t).invocation_stack_depth

-- The entry point that a domain has for each kind of invocation; it has none for the invalid one.
pub data EntryFor (info : InvocationInfo) : InvocationType → EntryPoint → Type 0 where
  no_type : (e : EntryPoint) → e.valid ≡ false → EntryFor info InvocationType.invalid e
  ipc : EntryFor info InvocationType.ipc info.invocation_ipc
  vmem_fault : EntryFor info InvocationType.vmem_fault info.exception_vmem_fault
  illegal_opcode : EntryFor info InvocationType.illegal_opcode info.exception_illegal_opcode
  alignment : EntryFor info InvocationType.alignment info.exception_alignment
  debug : EntryFor info InvocationType.debug info.exception_debug
  arithmetic : EntryFor info InvocationType.arithmetic info.exception_arithmetic
  other : EntryFor info InvocationType.other info.exception_other

-- What kDomainPushInvocationEntry does with the stack of the running task `t` within its bound: it
-- fails and changes nothing when the stack is full or when the domain has no such entry point, and
-- enters the domain otherwise.
pub data Pushed (cfg : Config) (k : Kernel) (t invoked : ℕ) (type : InvocationType)
    (r : Run (Outcome ℕ)) : Type 0 where
  full :
      (e : Errno)
      → depth_of k t ≡ cfg.max_depth
      → ((type ≡ InvocationType.ipc) × (e ≡ einval)) ⊎ ((type ≢ InvocationType.ipc) × (e ≡ efault))
      → r ≡ ok (failed e) k
      → Pushed cfg k t invoked type r
  refused :
      (point : EntryPoint)
      → depth_of k t < cfg.max_depth
      → EntryFor (k.domains invoked).invocation_info type point
      → point.valid ≡ false
      → r ≡ ok (failed einval) k
      → Pushed cfg k t invoked type r
  entered :
      (point : EntryPoint) (after : Kernel)
      → depth_of k t < cfg.max_depth
      → EntryFor (k.domains invoked).invocation_info type point
      → point.valid ≡ true
      → r ≡ ok (done point.entry) after
      → (domain_of after t).cur_domain ≡ some invoked
      → depth_of after t ≡ depth_of k t + 1
      → this_machine after ≡ this_machine k
      → after.trace ≡ k.trace
      → Pushed cfg k t invoked type r

entry_of-EntryFor :
    (info : InvocationInfo) (type : InvocationType) → EntryFor info type (entry_of info type)
unfolding entry_of
entry_of-EntryFor info InvocationType.invalid = no_type _ refl
entry_of-EntryFor info InvocationType.ipc = ipc
entry_of-EntryFor info InvocationType.vmem_fault = vmem_fault
entry_of-EntryFor info InvocationType.illegal_opcode = illegal_opcode
entry_of-EntryFor info InvocationType.alignment = alignment
entry_of-EntryFor info InvocationType.debug = debug
entry_of-EntryFor info InvocationType.arithmetic = arithmetic
entry_of-EntryFor info InvocationType.other = other

pub EntryFor-ipc :
    {info : InvocationInfo} (e : EntryPoint)
    → EntryFor info InvocationType.ipc e
    → e ≡ entry_of info InvocationType.ipc
unfolding entry_of
EntryFor-ipc e EntryFor.ipc = refl

full_errno :
    (type : InvocationType)
    → ((type ≡ InvocationType.ipc) × ((if is_ipc type then einval else efault) ≡ einval))
      ⊎ ((type ≢ InvocationType.ipc) × ((if is_ipc type then einval else efault) ≡ efault))
full_errno InvocationType.ipc = inl (refl, refl)
full_errno InvocationType.invalid = inr (λ e. cc, refl)
full_errno InvocationType.vmem_fault = inr (λ e. cc, refl)
full_errno InvocationType.illegal_opcode = inr (λ e. cc, refl)
full_errno InvocationType.alignment = inr (λ e. cc, refl)
full_errno InvocationType.debug = inr (λ e. cc, refl)
full_errno InvocationType.arithmetic = inr (λ e. cc, refl)
full_errno InvocationType.other = inr (λ e. cc, refl)

module _ (cfg : Config) (k : Kernel) {t : ℕ} (runs : (this_machine k).running_task ≡ some t) where
  entry_pushed : InvocationType → ℕ → ℕ → ℕ → InvocationEntry
  entry_pushed type pc vmem err = record {
    invoking_domain = (domain_of k t).cur_domain;
    type = type;
    return_address = pc;
    vmem_fault_address = vmem;
    error_code = err;
  }

  after_push : ℕ → InvocationEntry → Kernel
  after_push invoked entry = set_domain t (pushed (domain_of k t) invoked entry) k

  -- The result of a push, by its two tests.
  push_result :
      (invoked : ℕ) (type : InvocationType) (pc vmem err : ℕ)
      → depth_of k t ≤ cfg.max_depth
      → push_invocation cfg invoked type pc vmem err k ≡ (
          let point = entry_of (k.domains invoked).invocation_info type in
          if depth_of k t == cfg.max_depth
          then ok (failed (if is_ipc type then einval else efault)) k
          else (if point.valid
              then ok (done point.entry) (after_push invoked (entry_pushed type pc vmem err))
              else ok (failed einval) k))
  unfolding push_invocation after_push entry_pushed
  push_result invoked type pc vmem err bound =
      rw runs (let e : leb (depth_of k t) cfg.max_depth ≡ true = ground arith in rw e)

  -- A push by a running task whose stack is within its bound fails no assertion. A full stack is
  -- -EINVAL for an IPC and -EFAULT for an exception, a missing entry point for the kind of the
  -- invocation is -EINVAL, and both leave the state alone; otherwise the task is in the invoked domain,
  -- one invocation deeper, and the value is that entry point.
  pub push_invocation-Pushed :
      (invoked : ℕ) (type : InvocationType) (pc vmem err : ℕ)
      → depth_of k t ≤ cfg.max_depth
      → Pushed cfg k t invoked type (push_invocation cfg invoked type pc vmem err k)
  push_invocation-Pushed invoked type pc vmem err bound =
      let info = (k.domains invoked).invocation_info in
      let point = entry_of info type in
      let for_type = entry_of-EntryFor info type in
      rw (push_result invoked type pc vmem err bound)
        (elim (Bool-cases (depth_of k t == cfg.max_depth)) [
          | inl at_max ↦ rw at_max (Pushed.full _ (ground arith) (full_errno type) refl)
          | inr room ↦ rw room (elim (Bool-cases point.valid) [
            | inl valid ↦ rw valid (
                Pushed.entered point (after_push invoked (entry_pushed type pc vmem err))
                  (ground arith) for_type valid refl (unfold after_push in ground arith)
                  (unfold after_push in ground arith) (unfold after_push in refl)
                  (unfold after_push in refl))
            | inr missing ↦ rw missing (Pushed.refused point (ground arith) for_type missing refl)
          ])
        ])

-- What kDomainPopInvocationEntry gives for the running task `t`: nothing when no invocation is
-- open, and otherwise where to go on and in which domain, with the task back in that domain.
pub data Popped (cfg : Config) (k : Kernel) (t : ℕ) (r : Run (Outcome (ℕ × Option ℕ)))
    : Type 0 where
  empty : depth_of k t ≡ 0 → r ≡ ok (failed einval) k → Popped cfg k t r
  left :
      (d : ℕ) (after : Kernel)
      → depth_of k t ≡ suc d
      → r
        ≡ ok
            (done (
              ((domain_of k t).invocation_stack d).return_address,
              ((domain_of k t).invocation_stack d).invoking_domain,
            ))
            after
      → (domain_of after t).cur_domain ≡ ((domain_of k t).invocation_stack d).invoking_domain
      → depth_of after t ≡ d
      → ((i : ℕ)
          → i < d
          → (domain_of after t).invocation_stack i ≡ (domain_of k t).invocation_stack i)
      → Popped cfg k t r

module _ (cfg : Config) (k : Kernel) {t : ℕ} (runs : (this_machine k).running_task ≡ some t) where
  after_pop : Kernel
  after_pop = set_domain t (popped (domain_of k t)) k

  pop_result : pop_invocation cfg k ≡ (
      if depth_of k t == 0
      then ok (failed einval) k
      else ok
          (done (
            ((domain_of k t).invocation_stack (depth_of k t - 1)).return_address,
            ((domain_of k t).invocation_stack (depth_of k t - 1)).invoking_domain,
          ))
          after_pop)
  unfolding pop_invocation after_pop
  pop_result = rw runs refl

  pop_some :
      (d : ℕ)
      → depth_of k t ≡ suc d
      → pop_invocation cfg k
        ≡ ok
            (done (
              ((domain_of k t).invocation_stack d).return_address,
              ((domain_of k t).invocation_stack d).invoking_domain,
            ))
            after_pop
  pop_some d e =
      let e' : depth_of k t - 1 ≡ d = omega arith in
      let more : (depth_of k t == 0) ≡ false = ground arith in rw pop_result (rw (more, e'))

  -- A pop by a running task fails no assertion: with no open invocation it is -EINVAL and changes
  -- nothing, and otherwise the task leaves the top one, and the open ones below it stay.
  pub pop_invocation-Popped : Popped cfg k t (pop_invocation cfg k)
  unfolding after_pop
  pop_invocation-Popped = elim (Bool-cases (depth_of k t == 0)) [
    | inl none_open ↦ Popped.empty (ground arith) (rw pop_result (rw none_open))
    | inr more ↦
        let e : depth_of k t ≡ suc (depth_of k t - 1) = ground arith in
        Popped.left (depth_of k t - 1) after_pop e (pop_some (depth_of k t - 1) e) (ground arith)
          (ground arith) (λ i h. ground arith)
  ]

-- A push that succeeded wrote its entry on top.
after_push-eq :
    (cfg : Config) (k after : Kernel) {t : ℕ} (runs : (this_machine k).running_task ≡ some t)
    (invoked : ℕ) (type : InvocationType) (pc vmem err : ℕ) {entry : ℕ}
    → depth_of k t ≤ cfg.max_depth
    → push_invocation cfg invoked type pc vmem err k ≡ ok (done entry) after
    → after ≡ after_push cfg k runs invoked (entry_pushed cfg k runs type pc vmem err)
after_push-eq cfg k after runs invoked type pc vmem err bound e =
    ground (arith, e, push_result cfg k runs invoked type pc vmem err bound)

module _ (cfg : Config) (k : Kernel) {t : ℕ} (runs : (this_machine k).running_task ≡ some t) where
  pop-after_push :
      (invoked : ℕ) (entry : InvocationEntry) (events : List Event)
      → (back : Kernel) × (pop_invocation cfg
            (record (after_push cfg k runs invoked entry) { trace = events })
          ≡ ok (done (entry.return_address, entry.invoking_domain)) back)
        × ((domain_of back t).cur_domain ≡ entry.invoking_domain)
        × (depth_of back t ≡ depth_of k t)
        × ((i : ℕ)
            → i < depth_of k t
            → (domain_of back t).invocation_stack i ≡ (domain_of k t).invocation_stack i)
  unfolding after_push after_pop
  pop-after_push invoked entry events =
      let mid : Kernel = record (after_push cfg k runs invoked entry) { trace = events } in
      let deep : depth_of mid t ≡ suc (depth_of k t) = ground arith in
      let top : (domain_of mid t).invocation_stack (depth_of k t) ≡ entry = ground arith in
      (
        after_pop cfg mid runs,
        rw top at (pop_some cfg mid runs (depth_of k t) deep),
        ground arith,
        ground arith,
        λ i h. ground arith,
      )

-- What the port records in between does not matter.
pub pop-push_traced :
    (cfg : Config) (k after : Kernel) {t : ℕ} (invoked : ℕ) (type : InvocationType)
    (pc vmem err : ℕ) (events : List Event) {entry : ℕ}
    → (this_machine k).running_task ≡ some t
    → depth_of k t ≤ cfg.max_depth
    → push_invocation cfg invoked type pc vmem err k ≡ ok (done entry) after
    → (back : Kernel) × (pop_invocation cfg (record after { trace = events })
        ≡ ok (done (pc, (domain_of k t).cur_domain)) back)
      × ((domain_of back t).cur_domain ≡ (domain_of k t).cur_domain)
      × (depth_of back t ≡ depth_of k t)
      × ((i : ℕ)
          → i < depth_of k t
          → (domain_of back t).invocation_stack i ≡ (domain_of k t).invocation_stack i)
pop-push_traced cfg k after {t} invoked type pc vmem err events runs bound e =
    rw (after_push-eq cfg k after runs invoked type pc vmem err bound e) (
      unfold entry_pushed in
      pop-after_push cfg k runs invoked (entry_pushed cfg k runs type pc vmem err) events)

-- A task that leaves an invocation is where it was before: kDomainPopInvocationEntry after a
-- kDomainPushInvocationEntry that succeeded gives back the saved program counter and domain, the
-- depth, and every invocation that was open.
pub pop-push_invocation :
    (cfg : Config) (k after : Kernel) {t : ℕ} (invoked : ℕ) (type : InvocationType)
    (pc vmem err : ℕ) {entry : ℕ}
    → (this_machine k).running_task ≡ some t
    → depth_of k t ≤ cfg.max_depth
    → push_invocation cfg invoked type pc vmem err k ≡ ok (done entry) after
    → (back : Kernel) × (pop_invocation cfg after ≡ ok (done (pc, (domain_of k t).cur_domain)) back)
      × ((domain_of back t).cur_domain ≡ (domain_of k t).cur_domain)
      × (depth_of back t ≡ depth_of k t)
      × ((i : ℕ)
          → i < depth_of k t
          → (domain_of back t).invocation_stack i ≡ (domain_of k t).invocation_stack i)
pop-push_invocation cfg k after {t} invoked type pc vmem err runs bound e =
    pop-push_traced cfg k after invoked type pc vmem err after.trace runs bound e
