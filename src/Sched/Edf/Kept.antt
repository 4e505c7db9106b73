-- ===== src/Sched/Edf/Kept.antt =====
-- What renewing deadlines keeps: each fits in 32 bits, and belongs to a thread with one.
use workhorse_rt.Common.{
  ℕ, ◌+◌, ◌≤◌, ◌<◌, ◌^◌, List, [], ◌∷◌, arith, ◌==◌, ltb, length, Distinct, Bool-cases, inl, inr,
}
use workhorse_rt.DeltaChain.{Nodes, DeltaChain}
use workhorse_rt.DeltaChain.Times.{times, remaining, enqueue}
use workhorse_rt.DeltaChain.Pop.{Fits}
use workhorse_rt.Kernel.{Kernel}
use workhorse_rt.Sched.Edf.{this_edf, deadline_of}
use workhorse_rt.Sched.Edf.Renew.{Live, Live-enqueue, due, later, requeue, renew}

-- The deadlines in the chain of this cpu, first to come first.
abbrev pub deadlines : Kernel → List (ℕ × ℕ)
deadlines k = remaining k.edf_nodes (this_edf k)

-- No thread is queued twice, and deadlines are 32-bit numbers of at least one tick.
pub record IsEdf (k : Kernel) : Type 0 where
  pub distinct : Distinct (this_edf k).dq
  pub live : Live (deadline_of k) (deadlines k)
  pub fits : Fits (deadlines k)

-- No deadline comes before `d`.
abbrev pub NoneBefore : ℕ → List (ℕ × ℕ) → Type 0
NoneBefore d [] = Unit
NoneBefore d ((p, t) ∷ rest) = (d ≤ t) × NoneBefore d rest

pub NoneBefore-mono : (c d : ℕ) (xs : List (ℕ × ℕ)) → c ≤ d → NoneBefore d xs → NoneBefore c xs
NoneBefore-mono c d [] h n = tt
NoneBefore-mono c d ((p, t) ∷ rest) h n = (omega arith, NoneBefore-mono c d rest h n.1)

pub NoneBefore-times :
    (nodes : Nodes) (base : ℕ) (xs : List ℕ) → NoneBefore base (times nodes base xs)
unfolding times
NoneBefore-times nodes base [] = tt
NoneBefore-times nodes base (x ∷ xs) = (
  omega arith,
  NoneBefore-mono base (base + (nodes x).delta) (times nodes (base + (nodes x).delta) xs)
      (omega arith) (NoneBefore-times nodes (base + (nodes x).delta) xs),
)

length-due :
    (nodes : Nodes) (base : ℕ) (xs : List ℕ) → length (due (times nodes base xs)) ≤ length xs
unfolding due times
length-due nodes base [] = omega arith
length-due nodes base (x ∷ xs) = ground (arith, length-due nodes (base + (nodes x).delta) xs)

pub due-remaining :
    (nodes : Nodes) (chain : DeltaChain) → length (due (remaining nodes chain)) ≤ length chain.dq
unfolding remaining
due-remaining nodes chain = length-due nodes 0 chain.dq

Fits-enqueue : (p t : ℕ) (xs : List (ℕ × ℕ)) → t < 2 ^ 32 → Fits xs → Fits (enqueue p t xs)
unfolding enqueue
Fits-enqueue p t [] h f = (h, tt)
Fits-enqueue p t ((q, s) ∷ rest) h f = elim (Bool-cases (ltb t s)) [
  | inl before ↦ rw before (h, f)
  | inr behind ↦ rw behind (f.0, Fits-enqueue p t rest h f.1)
]

-- What every timer to be renewed must have, to go back.
abbrev Ready : (ℕ → ℕ) → List ℕ → Type 0
Ready deadline [] = Unit
Ready deadline (p ∷ rest) = (0 < deadline p) × (deadline p < 2 ^ 32) × Ready deadline rest

Ready-due : (deadline : ℕ → ℕ) (xs : List (ℕ × ℕ)) → Live deadline xs → Ready deadline (due xs)
unfolding due
Ready-due deadline [] l = tt
Ready-due deadline ((p, t) ∷ rest) l = elim (Bool-cases (t == 0)) [
  | inl now ↦ rw now (l.0, l.1, Ready-due deadline rest l.2)
  | inr wait ↦ rw wait tt
]

later-kept :
    (deadline : ℕ → ℕ) (xs : List (ℕ × ℕ))
    → Live deadline xs
    → Fits xs
    → Live deadline (later xs) × Fits (later xs)
unfolding later
later-kept deadline [] l f = (tt, tt)
later-kept deadline ((p, t) ∷ rest) l f = elim (Bool-cases (t == 0)) [
  | inl now ↦ rw now (later-kept deadline rest l.2 f.1)
  | inr wait ↦ rw wait (l, f)
]

requeue-kept :
    (deadline : ℕ → ℕ) (ps : List ℕ) (xs : List (ℕ × ℕ))
    → Ready deadline ps
    → Live deadline xs × Fits xs
    → Live deadline (requeue deadline ps xs) × Fits (requeue deadline ps xs)
unfolding requeue
requeue-kept deadline [] xs r h = h
requeue-kept deadline (p ∷ rest) xs r h =
    requeue-kept deadline rest (enqueue p (deadline p) xs) r.2
      (Live-enqueue deadline p (deadline p) xs r.0 r.1 h.0, Fits-enqueue p (deadline p) xs r.1 h.1)

pub renew-kept :
    (deadline : ℕ → ℕ) (xs : List (ℕ × ℕ))
    → Live deadline xs
    → Fits xs
    → Live deadline (renew deadline xs) × Fits (renew deadline xs)
unfolding renew
renew-kept deadline xs l f =
    requeue-kept deadline (due xs) (later xs) (Ready-due deadline xs l) (later-kept deadline xs l f)
