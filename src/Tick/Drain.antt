-- ===== src/Tick/Drain.antt =====
-- A loop on fuel, `while ((node = pop()) != NULL) body(node)`, ends when its rounds keep the number
-- that its pops use up; and the numbers of the three loops of a transition.
use workhorse_rt.Common.{
  ℕ, zero, suc, ◌<◌, ◌≡◌, ◌≢◌, refl, Option, none, some, List, [], ◌∷◌, arith, length,
}
use workhorse_rt.DeltaChain.{pop_expired, DeltaChain}
use workhorse_rt.DeltaChain.Pop.{pop_expired_shorter}
use workhorse_rt.Kernel.{Kernel}
use workhorse_rt.Kernel.Monad.{
  Run, ok, assert_failed, out_of_fuel, M, Act, bind, ◌>>◌, this_machine,
}
use workhorse_rt.Tick.Steps.{update_self, with_machine}
use workhorse_rt.Tick.Keeps.{Kept, Keeps, IsApart}
use workhorse_rt.Tick.Periods.{drain, pop_deferred, pop_sleep, pop_replenish}

-- A pop that gives a node has made the number smaller.
abbrev pub Taken : (Kernel → ℕ) → ℕ → Run (Option ℕ) → Type 0
Taken f n (ok none after) = Unit
Taken f n (ok (some t) after) = f after < n
Taken f n assert_failed = Unit
Taken f n out_of_fuel = ⊥

abbrev pub Ends : Act → ℕ → (Kernel → ℕ) → Type 0
Ends m n f = (after : Kernel) → f after < n → m after ≢ out_of_fuel

round-Ends :
    (f : Kernel → ℕ) (n fuel : ℕ) (r : Run (Unit {0})) (rest : Act)
    → Kept f n r
    → n < fuel
    → Ends rest fuel f
    → bind r (λ _. rest) ≢ out_of_fuel
round-Ends f n fuel (ok _ after) rest same small more = more after (omega arith)
round-Ends f n fuel assert_failed rest same small more = λ e. cc
round-Ends f n fuel out_of_fuel rest same small more = λ e. same

module _ (f : Kernel → ℕ) (pop : M (Option ℕ)) (body : ℕ → Act)
    (takes : (k : Kernel) → Taken f (f k) (pop k)) (keeps : (t : ℕ) → Keeps f (body t)) where
  popped-Ends :
      (n fuel : ℕ) (r : Run (Option ℕ))
      → Taken f n r
      → n < suc fuel
      → Ends (drain pop body fuel) fuel f
      → bind r (λ p. elim p [ none ↦ (λ k. ok tt k) | some t ↦ (body t >> drain pop body fuel) ])
        ≢ out_of_fuel
  popped-Ends n fuel (ok none after) less small more = λ e. cc
  popped-Ends n fuel (ok (some t) after) less small more =
      round-Ends f (f after) fuel (body t after) (drain pop body fuel) ((keeps t).kept after)
        (omega arith) more
  popped-Ends n fuel assert_failed less small more = λ e. cc
  popped-Ends n fuel out_of_fuel less small more = λ e. less

  -- A loop ends on more fuel than the number that its pops use up and its rounds keep.
  pub drain-Ends : (fuel : ℕ) → Ends (drain pop body fuel) fuel f
  unfolding drain
  drain-Ends zero = λ k h. absurd (omega arith)
  drain-Ends (suc fuel) = λ k h. popped-Ends (f k) fuel (pop k) (takes k) h (drain-Ends fuel)

-- The tasks whose tick is deferred.
abbrev pub deferred : Kernel → ℕ
deferred k = length (this_machine k).deferred_ticks

abbrev pub sleepers : Kernel → ℕ
sleepers k = length (this_machine k).sleep_chain.dq

pub deferred-IsApart : IsApart deferred
deferred-IsApart = record {
  trace = λ k l. refl;
  tasks = λ k ts. refl;
  same = λ k after same. rw (same.machines, same.this_cpu);
}

pub sleepers-IsApart : IsApart sleepers
sleepers-IsApart = record {
  trace = λ k l. refl;
  tasks = λ k ts. refl;
  same = λ k after same. rw (same.machines, same.this_cpu);
}

pub pop_deferred-Taken : (k : Kernel) → Taken deferred (deferred k) (pop_deferred k)
pop_deferred-Taken k = go (this_machine k).deferred_ticks refl
  where
    go :
        (xs : List ℕ)
        → (this_machine k).deferred_ticks ≡ xs
        → Taken deferred (deferred k) (pop_deferred k)
    go [] e = rw (e, pop_deferred) tt
    go (t ∷ rest) e = rw (e, pop_deferred) (ground arith)

pub pop_sleep-Taken : (k : Kernel) → Taken sleepers (sleepers k) (pop_sleep k)
pop_sleep-Taken k = go (pop_expired k.sleep_nodes (this_machine k).sleep_chain).0 refl
  where
    chain : DeltaChain
    chain = (pop_expired k.sleep_nodes (this_machine k).sleep_chain).1

    after : Kernel
    after = with_machine k (record (this_machine k) { sleep_chain = chain })

    go :
        (p : Option ℕ)
        → (pop_expired k.sleep_nodes (this_machine k).sleep_chain).0 ≡ p
        → Taken sleepers (sleepers k) (ok p after)
    go none e = tt
    go (some p) e =
        rw (update_self k.machines k.this_cpu (record (this_machine k) { sleep_chain = chain }))
          (pop_expired_shorter k.sleep_nodes (this_machine k).sleep_chain e)

-- The threads that wait for a new budget.
abbrev pub replenishing : Kernel → ℕ
replenishing k = length (this_machine k).replenishment_chain.dq

pub replenishing-IsApart : IsApart replenishing
replenishing-IsApart = record {
  trace = λ k l. refl;
  tasks = λ k ts. refl;
  same = λ k after same. rw (same.machines, same.this_cpu);
}

pub pop_replenish-Taken : (k : Kernel) → Taken replenishing (replenishing k) (pop_replenish k)
pop_replenish-Taken k =
    go (pop_expired k.replenish_nodes (this_machine k).replenishment_chain).0 refl
  where
    chain : DeltaChain
    chain = (pop_expired k.replenish_nodes (this_machine k).replenishment_chain).1

    after : Kernel
    after = with_machine k (record (this_machine k) { replenishment_chain = chain })

    go :
        (p : Option ℕ)
        → (pop_expired k.replenish_nodes (this_machine k).replenishment_chain).0 ≡ p
        → Taken replenishing (replenishing k) (ok p after)
    go none e = tt
    go (some p) e =
        rw
          (update_self k.machines k.this_cpu
            (record (this_machine k) { replenishment_chain = chain }))
          (pop_expired_shorter k.replenish_nodes (this_machine k).replenishment_chain e)
