-- ===== src/Sched/Edf/Renew.antt =====
-- The fix-up loop of kSchedEdf.c ends, and gives the threads whose deadlines have come new ones.
use workhorse_rt.Common.{
  ℕ, zero, suc, ◌<◌, ◌≡◌, ◌^◌, refl, sym, ap, ◌∙◌, true, false, Option, none, some, List, [], ◌∷◌,
  arith, ◌==◌, ltb, if◌then◌else◌, length, Distinct, Bool-cases, inl, inr,
}
use workhorse_rt.DeltaChain.{Nodes, DeltaChain, pop_expired, insert}
use workhorse_rt.DeltaChain.Times.{times, remaining, enqueue}
use workhorse_rt.DeltaChain.Insert.{insert-enqueue}
use workhorse_rt.DeltaChain.Order.{insert-Distinct}
use workhorse_rt.Sched.Edf.{Timers, renew_one, fix_chain}

-- The timers at the front that are due, and the others.
unfoldable pub due : List (ℕ × ℕ) → List ℕ
due [] = []
due ((p, t) ∷ rest) = if t == 0 then p ∷ due rest else []

unfoldable pub later : List (ℕ × ℕ) → List (ℕ × ℕ)
later [] = []
later ((p, t) ∷ rest) = if t == 0 then later rest else (p, t) ∷ rest

-- Timers queued in turn, each with a new deadline.
unfoldable pub requeue : (ℕ → ℕ) → List ℕ → List (ℕ × ℕ) → List (ℕ × ℕ)
requeue deadline [] xs = xs
requeue deadline (p ∷ rest) xs = requeue deadline rest (enqueue p (deadline p) xs)

-- The deadlines that come next, when those that have come are renewed.
unfoldable pub renew : (ℕ → ℕ) → List (ℕ × ℕ) → List (ℕ × ℕ)
renew deadline xs = requeue deadline (due xs) (later xs)

-- Every thread in the queue has a deadline of at least one tick, in 32 bits.
abbrev pub Live : (ℕ → ℕ) → List (ℕ × ℕ) → Type 0
Live deadline [] = Unit
Live deadline ((p, t) ∷ rest) = (0 < deadline p) × (deadline p < 2 ^ 32) × Live deadline rest

due-enqueue : (p t : ℕ) (xs : List (ℕ × ℕ)) → 0 < t → due (enqueue p t xs) ≡ due xs
unfolding due enqueue
due-enqueue p t [] h = ground arith
due-enqueue p t ((q, s) ∷ rest) h = ground (arith, due-enqueue p t rest h)

later-enqueue :
    (p t : ℕ) (xs : List (ℕ × ℕ)) → 0 < t → later (enqueue p t xs) ≡ enqueue p t (later xs)
unfolding later enqueue
later-enqueue p t [] h = ground arith
later-enqueue p t ((q, s) ∷ rest) h = ground (arith, later-enqueue p t rest h)

pub Live-enqueue :
    (deadline : ℕ → ℕ) (p t : ℕ) (xs : List (ℕ × ℕ))
    → 0 < deadline p
    → deadline p < 2 ^ 32
    → Live deadline xs
    → Live deadline (enqueue p t xs)
unfolding enqueue
Live-enqueue deadline p t [] a b l = (a, b, tt)
Live-enqueue deadline p t ((q, s) ∷ rest) a b l = elim (Bool-cases (ltb t s)) [
  | inl before ↦ rw before (a, b, l)
  | inr behind ↦ rw behind (l.0, l.1, Live-enqueue deadline p t rest a b l.2)
]

-- Renewing the first timer that is due is one step of renewing them all.
renew-enqueue :
    (deadline : ℕ → ℕ) (p : ℕ) (xs : List (ℕ × ℕ))
    → 0 < deadline p
    → renew deadline (enqueue p (deadline p) xs) ≡ renew deadline ((p, 0) ∷ xs)
unfolding renew
renew-enqueue deadline p xs h =
    rw (due-enqueue p (deadline p) xs h)
      (rw (later-enqueue p (deadline p) xs h) (unfold requeue due later in refl))

abbrev Fixed : (ℕ → ℕ) → List (ℕ × ℕ) → Option Timers → Type 0
Fixed deadline xs r =
    (after : Timers) × (r ≡ some after)
    × (remaining after.0 after.1 ≡ renew deadline xs)
    × Distinct after.1.dq

abbrev chain_of : ℕ → List ℕ → DeltaChain
chain_of epoch xs = record { current_epoch = epoch; dq = xs }

renew-ends :
    (deadline : ℕ → ℕ) (xs : List (ℕ × ℕ)) → due xs ≡ [] → later xs ≡ xs → renew deadline xs ≡ xs
unfolding renew requeue
renew-ends deadline xs d l = rw (d, requeue) l

pop_expired-nil :
    (nodes : Nodes) (epoch : ℕ) → pop_expired nodes (chain_of epoch []) ≡ (none, chain_of epoch [])
unfolding pop_expired
pop_expired-nil nodes epoch = refl

pop_expired-wait :
    (nodes : Nodes) (epoch p : ℕ) (rest : List ℕ)
    → ltb 0 (nodes p).delta ≡ true
    → pop_expired nodes (chain_of epoch (p ∷ rest)) ≡ (none, chain_of epoch (p ∷ rest))
unfolding pop_expired
pop_expired-wait nodes epoch p rest h = rw h refl

pop_expired-now :
    (nodes : Nodes) (epoch p : ℕ) (rest : List ℕ)
    → ltb 0 (nodes p).delta ≡ false
    → pop_expired nodes (chain_of epoch (p ∷ rest)) ≡ (some p, chain_of epoch rest)
unfolding pop_expired
pop_expired-now nodes epoch p rest h = rw h refl

fix_chain-step :
    (deadline : ℕ → ℕ) (fuel : ℕ) (nodes : Nodes) (chain : DeltaChain) (r : Option ℕ × DeltaChain)
    → pop_expired nodes chain ≡ r
    → fix_chain deadline (suc fuel) nodes chain
      ≡ renew_one deadline (fix_chain deadline fuel) nodes r
unfolding fix_chain
fix_chain-step deadline fuel nodes chain r e =
    ap (renew_one deadline (fix_chain deadline fuel) nodes) e

waits :
    (deadline : ℕ → ℕ) (nodes : Nodes) (p : ℕ) (rest : List ℕ)
    → ltb 0 (nodes p).delta ≡ true
    → times nodes 0 (p ∷ rest) ≡ renew deadline (times nodes 0 (p ∷ rest))
waits deadline nodes p rest h = sym (
    renew-ends deadline (times nodes 0 (p ∷ rest)) (unfold due times in ground arith)
      (unfold later times in ground arith))

is_due :
    (nodes : Nodes) (p : ℕ) (rest : List ℕ)
    → ltb 0 (nodes p).delta ≡ false
    → times nodes 0 (p ∷ rest) ≡ (p, 0) ∷ times nodes 0 rest
unfolding times
is_due nodes p rest h = let z : (nodes p).delta ≡ 0 = ground arith in rw z refl

renewed :
    (deadline : ℕ → ℕ) (nodes : Nodes) (epoch p : ℕ) (rest : List ℕ)
    → Distinct (p ∷ rest)
    → remaining
        (insert nodes (chain_of epoch rest) p (deadline p)).0
        (insert nodes (chain_of epoch rest) p (deadline p)).1
      ≡ enqueue p (deadline p) (times nodes 0 rest)
renewed deadline nodes epoch p rest d =
    insert-enqueue nodes (chain_of epoch rest) p (deadline p) d.1 d.0 ∙ unfold remaining in refl

due-now : (p : ℕ) (xs : List (ℕ × ℕ)) → length (due ((p, 0) ∷ xs)) ≡ suc (length (due xs))
unfolding due
due-now p xs = refl

module _ (deadline : ℕ → ℕ) (fuel : ℕ)
    (more : (nodes : Nodes) (chain : DeltaChain)
      → Distinct chain.dq
      → Live deadline (remaining nodes chain)
      → length (due (remaining nodes chain)) < fuel
      → Fixed deadline (remaining nodes chain) (fix_chain deadline fuel nodes chain)) where
  again :
      (nodes : Nodes) (epoch p : ℕ) (rest : List ℕ)
      → Distinct (p ∷ rest)
      → Live deadline ((p, 0) ∷ times nodes 0 rest)
      → length (due ((p, 0) ∷ times nodes 0 rest)) < suc fuel
      → Fixed deadline ((p, 0) ∷ times nodes 0 rest) (
          fix_chain deadline fuel
            (insert nodes (chain_of epoch rest) p (deadline p)).0
            (insert nodes (chain_of epoch rest) p (deadline p)).1)
  again nodes epoch p rest d l h =
      let e = renewed deadline nodes epoch p rest d in
      let (nodes', chain') = insert nodes (chain_of epoch rest) p (deadline p) in
      let (after, run, times', d') =
        more nodes' chain' (insert-Distinct nodes (chain_of epoch rest) p (deadline p) d.1 d.0)
          (rw e (Live-enqueue deadline p (deadline p) (times nodes 0 rest) l.0 l.1 l.2))
          (rw (e, due-enqueue p (deadline p) (times nodes 0 rest) l.0)
            (let n = due-now p (times nodes 0 rest) in omega arith)) in
      (
        after,
        run,
        times' ∙ (ap (renew deadline) e ∙ renew-enqueue deadline p (times nodes 0 rest) l.0),
        d',
      )

  fix_round :
      (nodes : Nodes) (epoch : ℕ) (xs : List ℕ)
      → Distinct xs
      → Live deadline (times nodes 0 xs)
      → length (due (times nodes 0 xs)) < suc fuel
      → Fixed deadline (times nodes 0 xs) (fix_chain deadline (suc fuel) nodes (chain_of epoch xs))
  unfolding renew_one
  fix_round nodes epoch [] d l h = (
    (nodes, chain_of epoch []),
    fix_chain-step deadline fuel nodes _ _ (pop_expired-nil nodes epoch),
    unfold remaining renew requeue due later times in refl,
    d,
  )
  fix_round nodes epoch (p ∷ rest) d l h = elim (Bool-cases (ltb 0 (nodes p).delta)) [
    | inl wait ↦ (
      (nodes, chain_of epoch (p ∷ rest)),
      fix_chain-step deadline fuel nodes _ _ (pop_expired-wait nodes epoch p rest wait),
      unfold remaining in waits deadline nodes p rest wait,
      d,
    )
    | inr now ↦
        let e = is_due nodes p rest now in
        rw e (
          let (after, run, times', d') = again nodes epoch p rest d (rw e at l) (rw e at h) in
          (
            after,
            fix_chain-step deadline fuel nodes _ _ (pop_expired-now nodes epoch p rest now) ∙ run,
            times',
            d',
          ))
  ]

-- On more fuel than timers are due, the loop ends.
pub fix_chain-renew :
    (deadline : ℕ → ℕ) (fuel : ℕ) (nodes : Nodes) (chain : DeltaChain)
    → Distinct chain.dq
    → Live deadline (remaining nodes chain)
    → length (due (remaining nodes chain)) < fuel
    → Fixed deadline (remaining nodes chain) (fix_chain deadline fuel nodes chain)
unfolding remaining
fix_chain-renew deadline zero nodes chain d l h = absurd (omega arith)
fix_chain-renew deadline (suc fuel) nodes chain d l h =
    fix_round deadline fuel (fix_chain-renew deadline fuel) nodes chain.current_epoch chain.dq d l h
