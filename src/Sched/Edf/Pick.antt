-- ===== src/Sched/Edf/Pick.antt =====
-- kSchedTaskPopEdf runs the thread with the earliest deadline.
use workhorse_rt.Common.{
  ℕ, suc, ◌+◌, ◌≡◌, refl, sym, ap, ◌∙◌, Option, none, some, List, [], ◌∷◌, arith, length, Distinct,
}
use workhorse_rt.DeltaChain
use workhorse_rt.DeltaChain.{Nodes, DeltaChain}
use workhorse_rt.DeltaChain.Times.{times, remaining}
use workhorse_rt.DeltaChain.Pop.{Fits, PoppedFirst, pop-PoppedFirst}
use workhorse_rt.Kernel.{Kernel}
use workhorse_rt.Kernel.Monad.{ok}
use workhorse_rt.Sched.Edf.{Timers, this_edf, set_edf, deadline_of, fixup, pop, picked, pop_first}
use workhorse_rt.Sched.Edf.Renew.{Live, renew, fix_chain-renew}
use workhorse_rt.Sched.Edf.Kept.{
  deadlines, IsEdf, NoneBefore, NoneBefore-times, due-remaining, renew-kept,
}

-- The state after the fix-up: the deadlines renewed, everything else as it was.
pub record FixedUp (k : Kernel) : Type 0 where
  pub timers : Timers
  pub run : fixup k ≡ ok tt (set_edf k.this_cpu timers k)
  pub renewed : remaining timers.0 timers.1 ≡ renew (deadline_of k) (deadlines k)
  pub good : IsEdf (set_edf k.this_cpu timers k)

this_edf-set_edf :
    (k : Kernel) (timers : Timers) → this_edf (set_edf k.this_cpu timers k) ≡ timers.1
this_edf-set_edf k timers = ground arith

pub deadlines-set_edf :
    (k : Kernel) (timers : Timers)
    → deadlines (set_edf k.this_cpu timers k) ≡ remaining timers.0 timers.1
deadlines-set_edf k timers = ap (remaining timers.0) (this_edf-set_edf k timers)

IsEdf-set_edf :
    (k : Kernel) (timers : Timers)
    → Distinct timers.1.dq
    → Live (deadline_of k) (remaining timers.0 timers.1)
    → Fits (remaining timers.0 timers.1)
    → IsEdf (set_edf k.this_cpu timers k)
IsEdf-set_edf k timers d l f = record {
  distinct = rw (this_edf-set_edf k timers) d;
  live = rw (deadlines-set_edf k timers) l;
  fits = rw (deadlines-set_edf k timers) f;
}

-- The fix-up loop of the earliest deadline policy ends, whatever deadlines have come: each of them is
-- replaced by the next deadline of its thread, in turn, and the other deadlines keep their times.
pub fixup-FixedUp : (k : Kernel) → IsEdf k → FixedUp k
unfolding fixup
fixup-FixedUp k h =
    let (timers, run, renewed, d) =
      fix_chain-renew (deadline_of k) (suc (length (this_edf k).dq)) k.edf_nodes (this_edf k)
        h.distinct h.live (let b = due-remaining k.edf_nodes (this_edf k) in omega arith) in
    let (live, fits) = renew-kept (deadline_of k) (deadlines k) h.live h.fits in
    record {
      timers = timers;
      run = rw run refl;
      renewed = renewed;
      good = IsEdf-set_edf k timers d (rw renewed live) (rw renewed fits);
    }

-- What taking the first timer out of a chain gives.
data First (nodes : Nodes) (chain : DeltaChain) : Type 0 where
  nothing :
      remaining nodes chain ≡ []
      → DeltaChain.pop nodes chain ≡ (none, nodes, chain)
      → First nodes chain
  timer :
      (t d : ℕ) (rest : List (ℕ × ℕ)) (after : Timers)
      → remaining nodes chain ≡ (t, d) ∷ rest
      → DeltaChain.pop nodes chain ≡ (some t, after.0, after.1)
      → remaining after.0 after.1 ≡ rest
      → NoneBefore d rest
      → Distinct after.1.dq
      → First nodes chain

same_rest :
    (nodes : Nodes) (chain : DeltaChain) {p d : ℕ} {xs : List (ℕ × ℕ)}
    (r : Option ℕ × Nodes × DeltaChain)
    → PoppedFirst nodes chain r
    → remaining nodes chain ≡ (p, d) ∷ xs
    → remaining r.1 r.2 ≡ xs
same_rest nodes chain r (PoppedFirst.empty nil e) found = cc
same_rest nodes chain r (PoppedFirst.first q t nodes' after e split epoch dates) found = rw e cc

pub remaining-cons :
    (nodes : Nodes) (epoch p : ℕ) (xs : List ℕ)
    → remaining nodes (record { current_epoch = epoch; dq = p ∷ xs })
      ≡ (p, (nodes p).delta) ∷ times nodes (nodes p).delta xs
unfolding remaining times
remaining-cons nodes epoch p xs =
    let e : 0 + (nodes p).delta ≡ (nodes p).delta = omega arith in
    ap (λ t. (p, t) ∷ times nodes t xs) e

first_of :
    (nodes : Nodes) (epoch : ℕ) (xs : List ℕ)
    → Distinct xs
    → Fits (times nodes 0 xs)
    → First nodes (record { current_epoch = epoch; dq = xs })
first_of nodes epoch [] d f =
    First.nothing (unfold remaining times in refl) (unfold DeltaChain.pop in refl)
first_of nodes epoch (p ∷ xs) d f =
    let chain : DeltaChain = record { current_epoch = epoch; dq = p ∷ xs } in
    let r = DeltaChain.pop nodes chain in
    First.timer p (nodes p).delta (times nodes (nodes p).delta xs) (r.1, r.2)
      (remaining-cons nodes epoch p xs) (unfold DeltaChain.pop in refl)
      (same_rest nodes chain r (pop-PoppedFirst nodes chain d (unfold remaining in f))
        (remaining-cons nodes epoch p xs))
      (NoneBefore-times nodes (nodes p).delta xs) (unfold DeltaChain.pop in d.1)

first :
    (nodes : Nodes) (chain : DeltaChain)
    → Distinct chain.dq
    → Fits (remaining nodes chain)
    → First nodes chain
unfolding remaining
first nodes chain d f = first_of nodes chain.current_epoch chain.dq d f

-- What kSchedTaskPopEdf does, from the deadlines as renewed by the fix-up.
pub data Picked (k : Kernel) : Type 0 where
  idle :
      (after : Kernel)
      → renew (deadline_of k) (deadlines k) ≡ []
      → pop k ≡ ok (k.idle_task k.this_cpu) after
      → IsEdf after
      → deadlines after ≡ []
      → Picked k
  thread :
      (t d : ℕ) (rest : List (ℕ × ℕ)) (after : Kernel)
      → renew (deadline_of k) (deadlines k) ≡ (t, d) ∷ rest
      → NoneBefore d rest
      → pop k ≡ ok t after
      → IsEdf after
      → deadlines after ≡ rest
      → Picked k

tail-Live :
    (deadline : ℕ → ℕ) (t d : ℕ) (rest : List (ℕ × ℕ))
    → Live deadline ((t, d) ∷ rest)
    → Live deadline rest
tail-Live deadline t d rest l = l.2

tail-Fits : (t d : ℕ) (rest : List (ℕ × ℕ)) → Fits ((t, d) ∷ rest) → Fits rest
tail-Fits t d rest f = f.1

pop-pop_first :
    (k : Kernel) (timers : Timers)
    → fixup k ≡ ok tt (set_edf k.this_cpu timers k)
    → pop k ≡ pop_first (set_edf k.this_cpu timers k)
unfolding pop
pop-pop_first k timers e = rw e refl

pop_first-picked :
    (k : Kernel) (o : Option ℕ) (timers : Timers)
    → DeltaChain.pop k.edf_nodes (this_edf k) ≡ (o, timers.0, timers.1)
    → pop_first k ≡ picked o timers k
pop_first-picked k o timers e = rw e refl

-- With deadlines of at least one tick, kSchedTaskPopEdf renews the deadlines that have come and then
-- returns the thread whose deadline is first, none of the others being before it, or the idle task of
-- an empty chain. It always ends, and every other thread keeps its deadline.
pub pop-Picked : (k : Kernel) → IsEdf k → Picked k
pop-Picked k h =
    let f = fixup-FixedUp k h in
    let k' : Kernel = set_edf k.this_cpu f.timers k in
    let renewed : deadlines k' ≡ renew (deadline_of k) (deadlines k) =
      deadlines-set_edf k f.timers ∙ f.renewed in
    elim (first k'.edf_nodes (this_edf k') f.good.distinct f.good.fits) [
      | First.nothing e r ↦
          let same : Timers = (k'.edf_nodes, this_edf k') in
          Picked.idle (set_edf k'.this_cpu same k') (sym renewed ∙ e)
            (pop-pop_first k f.timers f.run ∙ pop_first-picked k' none same r)
            (IsEdf-set_edf k' same f.good.distinct f.good.live f.good.fits)
            (deadlines-set_edf k' same ∙ e)
      | First.timer t d rest after e r left none_before distinct ↦
          Picked.thread t d rest (set_edf k'.this_cpu after k') (sym renewed ∙ e) none_before
            (pop-pop_first k f.timers f.run ∙ pop_first-picked k' (some t) after r)
            (IsEdf-set_edf k' after distinct
              (rw left (tail-Live (deadline_of k') t d rest (rw e at f.good.live)))
              (rw left (tail-Fits t d rest (rw e at f.good.fits))))
            (deadlines-set_edf k' after ∙ left)
    ]
