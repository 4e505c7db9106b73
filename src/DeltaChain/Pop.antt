-- ===== src/DeltaChain/Pop.antt =====
-- deltaChainPopExpired and deltaChainPop take the first timer out and keep the time of the others.
use workhorse_rt.Common.{
  length, ap, ℕ, ◌+◌, ◌^◌, ◌<◌, ◌≡◌, refl, Option, none, some, List, [], ◌∷◌, arith, Distinct,
  Bool-cases, inl, inr, ltb,
}
use workhorse_rt.DeltaChain.{Nodes, DeltaChain, pop, pop_expired, set_delta, u32}
use workhorse_rt.DeltaChain.Times.{times, remaining, times-set_delta_out}

abbrev chain_of : ℕ → List ℕ → DeltaChain
chain_of epoch xs = record { current_epoch = epoch; dq = xs }

-- Every timer has ticks left.
abbrev pub NoneDue : List (ℕ × ℕ) → Type 0
NoneDue [] = Unit
NoneDue ((p, t) ∷ rest) = (0 < t) × NoneDue rest

-- What deltaChainPopExpired gives, by the times of the queue.
pub data PoppedExpired (nodes : Nodes) (chain : DeltaChain) (r : Option ℕ × DeltaChain)
    : Type 0 where
  waits : NoneDue (remaining nodes chain) → r ≡ (none, chain) → PoppedExpired nodes chain r
  expired :
      (p : ℕ) (after : DeltaChain)
      → r ≡ (some p, after)
      → remaining nodes chain ≡ (p, 0) ∷ remaining nodes after
      → after.current_epoch ≡ chain.current_epoch
      → PoppedExpired nodes chain r

NoneDue-times : (nodes : Nodes) (base : ℕ) (xs : List ℕ) → 0 < base → NoneDue (times nodes base xs)
unfolding times
NoneDue-times nodes base [] h = tt
NoneDue-times nodes base (p ∷ rest) h =
    (omega arith, NoneDue-times nodes (base + (nodes p).delta) rest (omega arith))

pop_expired-cases :
    (nodes : Nodes) (epoch : ℕ) (xs : List ℕ)
    → PoppedExpired nodes (chain_of epoch xs) (pop_expired nodes (chain_of epoch xs))
unfolding pop_expired times remaining
pop_expired-cases nodes epoch [] = PoppedExpired.waits tt refl
pop_expired-cases nodes epoch (p ∷ rest) = elim (Bool-cases (ltb 0 (nodes p).delta)) [
  | inl wait ↦ rw wait (
      PoppedExpired.waits
        (
          ground (arith, wait),
          NoneDue-times nodes (0 + (nodes p).delta) rest (ground (arith, wait)),
        )
        refl)
  | inr now ↦
      let zero_left : 0 + (nodes p).delta ≡ 0 = ground (arith, now) in
      rw now (
        PoppedExpired.expired p (chain_of epoch rest) refl
          (ap (λ t. (p, t) ∷ times nodes t rest) zero_left) refl)
]

-- deltaChainPopExpired takes out the first timer exactly when it has no tick left, and then the other
-- timers keep their times and order, and the chain its epoch; otherwise no timer of the queue is due,
-- and it gives none and the chain as it was.
pub pop_expired-PoppedExpired :
    (nodes : Nodes) (chain : DeltaChain) → PoppedExpired nodes chain (pop_expired nodes chain)
pop_expired-PoppedExpired nodes chain = pop_expired-cases nodes chain.current_epoch chain.dq

-- The times fit in 32 bits.
abbrev pub Fits : List (ℕ × ℕ) → Type 0
Fits [] = Unit
Fits ((p, t) ∷ rest) = (t < 2 ^ 32) × Fits rest

-- What deltaChainPop gives, by the times of the queue.
pub data PoppedFirst (nodes : Nodes) (chain : DeltaChain) (r : Option ℕ × Nodes × DeltaChain)
    : Type 0 where
  empty : remaining nodes chain ≡ [] → r ≡ (none, nodes, chain) → PoppedFirst nodes chain r
  first :
      (p t : ℕ) (nodes' : Nodes) (after : DeltaChain)
      → r ≡ (some p, nodes', after)
      → remaining nodes chain ≡ (p, t) ∷ remaining nodes' after
      → after.current_epoch ≡ chain.current_epoch
      → ((q : ℕ) → (nodes' q).expected_epoch ≡ (nodes q).expected_epoch)
      → PoppedFirst nodes chain r

pop-cases :
    (nodes : Nodes) (epoch : ℕ) (xs : List ℕ)
    → Distinct xs
    → Fits (times nodes 0 xs)
    → PoppedFirst nodes (chain_of epoch xs) (pop nodes (chain_of epoch xs))
unfolding pop times remaining
pop-cases nodes epoch [] d f = PoppedFirst.empty refl refl
pop-cases nodes epoch (p ∷ []) d f =
    PoppedFirst.first p (0 + (nodes p).delta) nodes (chain_of epoch []) refl refl refl (λ q. refl)
pop-cases nodes epoch (p ∷ next ∷ rest) d f =
    let handed : Nodes = set_delta nodes next (u32 ((nodes next).delta + (nodes p).delta)) in
    PoppedFirst.first p (0 + (nodes p).delta) handed (chain_of epoch (next ∷ rest)) refl
      (ground (
        arith,
        f.1.0,
        d.1.0,
        times-set_delta_out nodes next (u32 ((nodes next).delta + (nodes p).delta))
            ((nodes p).delta + (nodes next).delta) rest,
      ))
      refl (λ q. ground arith)

-- When the nodes are distinct and every time is below 2 ^ 32, deltaChainPop takes the first timer out
-- of a queue that has one: every other timer keeps its time, place and expected epoch, and the chain
-- its epoch. With an empty queue it gives none and changes nothing.
pub pop-PoppedFirst :
    (nodes : Nodes) (chain : DeltaChain)
    → Distinct chain.dq
    → Fits (remaining nodes chain)
    → PoppedFirst nodes chain (pop nodes chain)
unfolding remaining
pop-PoppedFirst nodes chain d f = pop-cases nodes chain.current_epoch chain.dq d f

shorter-cases :
    (nodes : Nodes) (epoch p : ℕ) (xs : List ℕ)
    → (pop_expired nodes (chain_of epoch xs)).0 ≡ some p
    → length (pop_expired nodes (chain_of epoch xs)).1.dq < length xs
unfolding pop_expired
shorter-cases nodes epoch p [] e = cc
shorter-cases nodes epoch p (q ∷ rest) e = elim (Bool-cases (ltb 0 (nodes q).delta)) [
  | inl wait ↦ cc (rw wait at e)
  | inr due ↦ rw due (omega arith)
]

-- A timer that came out is no longer in the queue.
pub pop_expired_shorter :
    (nodes : Nodes) (chain : DeltaChain) {p : ℕ}
    → (pop_expired nodes chain).0 ≡ some p
    → length (pop_expired nodes chain).1.dq < length chain.dq
pop_expired_shorter nodes chain {p} e = shorter-cases nodes chain.current_epoch p chain.dq e
