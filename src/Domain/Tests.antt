-- ===== src/Domain/Tests.antt =====
-- Runs of the domain table and of the invocation stack on the sample system.
use workhorse_rt.Common.{ℕ, ◌<◌, ◌≡◌, refl, some, arith}
use workhorse_rt.Kernel.{Kernel, InvocationType}
use workhorse_rt.Kernel.Monad.{ok, done}
use workhorse_rt.Kernel.Sample.{system, config}
use workhorse_rt.Domain.{push_invocation, pop_invocation, domain_of, entry_of}
use workhorse_rt.Domain.Stack.{depth_of, Pushed, push_invocation-Pushed, pop-push_invocation}

push_invocation-Pushed_example :
    Pushed config system 1 8 InvocationType.ipc
      (push_invocation config 8 InvocationType.ipc 64 0 0 system)
push_invocation-Pushed_example =
    push_invocation-Pushed config system refl 8 InvocationType.ipc 64 0 0 (omega arith)

-- Thread 1 has called domain 8 from the address 64.
abbrev inside : Kernel
inside = elim (push_invocation config 8 InvocationType.ipc 64 0 0 system) [
  | ok _ k ↦ k
  | _ ↦ system
]

pop-push_invocation_example :
    (back : Kernel) × (pop_invocation config inside ≡ ok (done (64, some 7)) back)
    × ((domain_of back 1).cur_domain ≡ some 7)
    × (depth_of back 1 ≡ 0)
    × ((i : ℕ)
        → i < 0
        → (domain_of back 1).invocation_stack i ≡ (domain_of system 1).invocation_stack i)
unfolding push_invocation entry_of
pop-push_invocation_example =
    pop-push_invocation config system inside 8 InvocationType.ipc 64 0 0 refl (omega arith) refl
