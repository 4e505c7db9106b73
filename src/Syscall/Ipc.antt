-- ===== src/Syscall/Ipc.antt =====
-- WORKHORSE_SYS_INVOCATION_CTRL: a call into another domain and the return from it.
use workhorse_rt.Common.{
  ap, ℕ, ◌%◌, ◌^◌, ◌<◌, ◌≡◌, Bool, true, false, not, Option, some, List, ◌∷◌, arith, ◌==◌,
  if◌then◌else◌, pos, ◌∙◌,
}
use workhorse_rt.Kernel.{Kernel, Config, Event, InvocationType}
use workhorse_rt.Kernel.Monad.{ok, this_machine, done, einval}
use workhorse_rt.Domain.{
  authenticate, universe_get, push_invocation, pop_invocation, domain_of, entry_of,
}
use workhorse_rt.Domain.Stack.{
  depth_of, EntryFor-ipc, Pushed, push_invocation-Pushed, pop-push_traced,
}
use workhorse_rt.Syscall.{do_ipc, do_return, enter_at, same_domain, negative}

trace_entered : ℕ → Option ℕ → Option ℕ → Kernel → List Event
trace_entered pc from to k =
    Event.set_syscall_return pc
    ∷ (if not (same_domain from to) then Event.enter_domain to ∷ k.trace else k.trace)

-- The state in which the caller goes on at `pc`.
abbrev entered : ℕ → Option ℕ → Option ℕ → Kernel → Kernel
entered pc from to k = record k { trace = trace_entered pc from to k }

enter_at-entered :
    (pc : ℕ) (from to : Option ℕ) (k : Kernel)
    → enter_at pc from to k ≡ ok (pos 0) (entered pc from to k)
unfolding enter_at trace_entered
enter_at-entered pc from to k = ground arith

-- The last thing that the port was told is to go on at `pc`.
abbrev pub called_back : ℕ → List Event → Bool
called_back pc (Event.set_syscall_return p ∷ _) = p == pc
called_back pc _ = false

module _ (cfg : Config) (k : Kernel) {t from : ℕ} (runs : (this_machine k).running_task ≡ some t)
    (here : (domain_of k t).cur_domain ≡ some from) where
  -- An IPC to a domain that the caller may not invoke, by the low 32 bits of its number, is -EINVAL and changes nothing.
  pub do_ipc-refused :
      (pc id : ℕ)
      → authenticate cfg (id % 2 ^ 32) from k ≡ false
      → do_ipc cfg pc id k ≡ ok (negative einval) k
  unfolding do_ipc
  do_ipc-refused pc id h = rw runs (rw here (rw h))

  do_ipc-push :
      (pc id d : ℕ)
      → authenticate cfg (id % 2 ^ 32) from k ≡ true
      → universe_get cfg (id % 2 ^ 32) k ≡ some d
      → {entry : ℕ} {after : Kernel}
      → push_invocation cfg d InvocationType.ipc pc 0 0 k ≡ ok (done entry) after
      → do_ipc cfg pc id k ≡ ok (pos 0) (entered entry (some from) (some d) after)
  unfolding do_ipc
  do_ipc-push pc id d may got pushed =
      rw runs (rw here (rw may (rw got (rw pushed (enter_at-entered _ (some from) (some d) _)))))

  do_return-pop :
      {pc : ℕ} {to : Option ℕ} {back : Kernel}
      → pop_invocation cfg k ≡ ok (done (pc, to)) back
      → do_return cfg k ≡ ok (pos 0) (entered pc (some from) to back)
  unfolding do_return
  do_return-pop pop = rw runs (rw pop (rw here (enter_at-entered _ (some from) _ _)))

-- A call from the domain `from` into `d` and the return from it.
pub record RoundTrip (cfg : Config) (k : Kernel) (t from d pc id : ℕ) : Type 0 where
  pub mid : Kernel
  pub back : Kernel
  pub called : do_ipc cfg pc id k ≡ ok (pos 0) mid
  pub inside : (domain_of mid t).cur_domain ≡ some d
  pub returned : do_return cfg mid ≡ ok (pos 0) back
  pub home : (domain_of back t).cur_domain ≡ some from
  pub depth : depth_of back t ≡ depth_of k t
  pub resumes : called_back pc back.trace ≡ true

universe_get-authenticated :
    (cfg : Config) (k : Kernel) (from : ℕ) {d : ℕ} (id : ℕ)
    → authenticate cfg id from k ≡ true
    → k.domain_table id ≡ some d
    → (universe_get cfg id k ≡ some d)
      × ((entry_of (k.domains d).invocation_info InvocationType.ipc).valid ≡ true)
unfolding universe_get authenticate entry_of
universe_get-authenticated cfg k from id may named = ground arith

-- A call into another domain comes back. When the running task may invoke the domain `d` of the
-- number `id`, of which 32 bits count, and has an invocation free, the IPC gives 0 in `d`; a return from there gives 0, in the
-- domain of the caller, at the address after the call and with as many invocations open as before.
pub do_return-do_ipc :
    (cfg : Config) (k : Kernel) {t from d : ℕ} (pc id : ℕ)
    → (this_machine k).running_task ≡ some t
    → (domain_of k t).cur_domain ≡ some from
    → authenticate cfg (id % 2 ^ 32) from k ≡ true
    → k.domain_table (id % 2 ^ 32) ≡ some d
    → depth_of k t < cfg.max_depth
    → RoundTrip cfg k t from d pc id
do_return-do_ipc cfg k {t} {from} {d} pc id runs here may named room =
    go (push_invocation-Pushed cfg k runs d InvocationType.ipc pc 0 0 (omega arith))
  where
    found :
        (universe_get cfg (id % 2 ^ 32) k ≡ some d)
        × ((entry_of (k.domains d).invocation_info InvocationType.ipc).valid ≡ true)
    found = universe_get-authenticated cfg k from (id % 2 ^ 32) may named

    go :
        Pushed cfg k t d InvocationType.ipc (push_invocation cfg d InvocationType.ipc pc 0 0 k)
        → RoundTrip cfg k t from d pc id
    go (Pushed.full e h which r) = absurd (omega arith)
    go (Pushed.refused point h for_ipc missing r) =
        absurd (cc (ap (λ e. e.valid) (EntryFor-ipc point for_ipc), found.1))
    go (Pushed.entered point after h for_ipc valid r inside deeper machines traced) =
        let entry = point.entry in
        let mid : Kernel = entered entry (some from) (some d) after in
        let (back, popped, home, depth, same) =
          pop-push_traced cfg k after d InvocationType.ipc pc 0 0
            (trace_entered entry (some from) (some d) after) runs (omega arith) r in
        let runs' : (this_machine mid).running_task ≡ some t = rw machines runs in
        record {
          mid = mid;
          back = entered pc (some d) (some from) back;
          called = do_ipc-push cfg k runs here pc id d may found.0 r;
          inside = inside;
          returned = do_return-pop cfg mid runs' inside (rw here at popped);
          home = home ∙ here;
          depth = depth;
          resumes = unfold trace_entered in ground arith;
        }
