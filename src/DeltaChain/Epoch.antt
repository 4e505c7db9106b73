-- ===== src/DeltaChain/Epoch.antt =====
-- deltaChainTimeUntil reads the time of a queued timer off its expected epoch, also when the 32-bit
-- epoch has wrapped round.
use workhorse_rt.Common.{
  ℕ, ◌+◌, ◌-◌, ◌^◌, ◌<◌, ◌≡◌, refl, true, false, Option, List, [], ◌∷◌, map, arith, ◌==◌, ltb, some,
  if◌then◌else◌, has, Distinct, Bool-cases, inl, inr, none,
}
use workhorse_rt.DeltaChain.{
  Nodes, DeltaChain, set_expected, u32, find_place, insert, tick_nodes, tick, time_until,
}
use workhorse_rt.DeltaChain.Times.{times, remaining, enqueue}
use workhorse_rt.DeltaChain.Insert.{insert-enqueue}
use workhorse_rt.DeltaChain.Tick.{one_less, tick-one_less}

-- Each timer of a queue has the time that `u` gives to it.
abbrev pub Dates : (ℕ → ℕ) → List (ℕ × ℕ) → Type 0
Dates u [] = Unit
Dates u ((p, t) ∷ rest) = (u p ≡ t) × Dates u rest

-- For each queued timer, deltaChainTimeUntil gives the time that its place in the queue gives.
abbrev pub IsDated : Nodes → DeltaChain → Type 0
IsDated nodes chain = Dates (time_until nodes chain) (remaining nodes chain)

-- No timer is due.
abbrev pub Pending : List (ℕ × ℕ) → Type 0
Pending [] = Unit
Pending ((p, t) ∷ rest) = (0 < t) × Pending rest

Dates-enqueue :
    (u : ℕ → ℕ) (p t : ℕ) (xs : List (ℕ × ℕ)) → u p ≡ t → Dates u xs → Dates u (enqueue p t xs)
unfolding enqueue
Dates-enqueue u p t [] e d = (e, tt)
Dates-enqueue u p t ((q, s) ∷ rest) e d = elim (Bool-cases (ltb t s)) [
  | inl before ↦ rw before (e, d)
  | inr behind ↦ rw behind (d.0, Dates-enqueue u p t rest e d.1)
]

Dates-congr :
    (u v : ℕ → ℕ) (nodes : Nodes) (base : ℕ) (xs : List ℕ)
    → ((p : ℕ) → has p xs ≡ true → u p ≡ v p)
    → Dates v (times nodes base xs)
    → Dates u (times nodes base xs)
unfolding times
Dates-congr u v nodes base [] same d = d
Dates-congr u v nodes base (x ∷ xs) same d =
    let e : u x ≡ v x = same x (ground arith) in
    (
      rw e d.0,
      Dates-congr u v nodes (base + (nodes x).delta) xs (λ p h. same p (ground (arith, h))) d.1,
    )

Dates-one_less :
    (u v : ℕ → ℕ) (xs : List (ℕ × ℕ))
    → ((p : ℕ) → 0 < v p → u p ≡ v p - 1)
    → Pending xs
    → Dates v xs
    → Dates u (map one_less xs)
Dates-one_less u v [] step w d = tt
Dates-one_less u v ((p, t) ∷ rest) step w d =
    let e : u p ≡ v p - 1 = step p (omega arith) in
    (omega arith, Dates-one_less u v rest step w.1 d.1)

find_place-expected :
    (nodes : Nodes) (delta : ℕ) (prev : Option ℕ) (xs : List ℕ) (p : ℕ)
    → ((find_place nodes delta prev xs).nodes p).expected_epoch ≡ (nodes p).expected_epoch
unfolding find_place
find_place-expected nodes delta prev [] p = refl
find_place-expected nodes delta prev (x ∷ xs) p =
    ground (arith, find_place-expected nodes (delta - (nodes x).delta) (some x) xs p)

tick_nodes-expected :
    (nodes : Nodes) (xs : List ℕ) (p : ℕ)
    → (tick_nodes nodes xs p).expected_epoch ≡ (nodes p).expected_epoch
unfolding tick_nodes
tick_nodes-expected nodes [] p = refl
tick_nodes-expected nodes (x ∷ xs) p = ground (arith, tick_nodes-expected nodes xs p)

insert-expected :
    (nodes : Nodes) (chain : DeltaChain) (node delta p : ℕ)
    → ((insert nodes chain node delta).0 p).expected_epoch
      ≡ (if node == p then u32 (chain.current_epoch + delta) else (nodes p).expected_epoch)
unfolding insert
insert-expected nodes chain node delta p =
    let dated : Nodes = set_expected nodes node (u32 (chain.current_epoch + delta)) in
    ground (
      arith,
      find_place-expected dated delta none chain.dq p,
      find_place-expected dated delta none chain.dq node,
    )

time_until-insert_self :
    (nodes : Nodes) (chain : DeltaChain) (node delta : ℕ)
    → chain.current_epoch < 2 ^ 32
    → delta < 2 ^ 32
    → time_until (insert nodes chain node delta).0 (insert nodes chain node delta).1 node ≡ delta
unfolding time_until
time_until-insert_self nodes chain node delta small fits =
    rw (insert-expected nodes chain node delta node) (unfold insert in ground arith)

time_until-insert_ne :
    (nodes : Nodes) (chain : DeltaChain) (node delta p : ℕ)
    → (node == p) ≡ false
    → time_until (insert nodes chain node delta).0 (insert nodes chain node delta).1 p
      ≡ time_until nodes chain p
unfolding time_until
time_until-insert_ne nodes chain node delta p h =
    rw (insert-expected nodes chain node delta p) (rw h (unfold insert in refl))

time_until-tick :
    (nodes : Nodes) (chain : DeltaChain) (p : ℕ)
    → chain.current_epoch < 2 ^ 32
    → 0 < time_until nodes chain p
    → time_until (tick nodes chain).0 (tick nodes chain).1 p ≡ time_until nodes chain p - 1
unfolding time_until tick
time_until-tick nodes chain p small wait = rw (tick_nodes-expected nodes chain.dq p) (omega arith)

-- Until the epoch reaches its expected one, an inserted timer has the time that it was given, and
-- deltaChainTimeUntil agrees with the queue on every timer: insertion keeps that, for a delay and an
-- epoch of 32 bits.
pub insert-IsDated :
    (nodes : Nodes) (chain : DeltaChain) (node delta : ℕ)
    → Distinct chain.dq
    → has node chain.dq ≡ false
    → chain.current_epoch < 2 ^ 32
    → delta < 2 ^ 32
    → IsDated nodes chain
    → IsDated (insert nodes chain node delta).0 (insert nodes chain node delta).1
insert-IsDated nodes chain node delta d out small fits dated =
    let u : ℕ → ℕ =
      time_until (insert nodes chain node delta).0 (insert nodes chain node delta).1 in
    rw (insert-enqueue nodes chain node delta d out) (
      Dates-enqueue u node delta (remaining nodes chain)
        (time_until-insert_self nodes chain node delta small fits)
        (unfold remaining in
          Dates-congr u (time_until nodes chain) nodes 0 chain.dq
            (λ p h. time_until-insert_ne nodes chain node delta p (ground (arith, h, out))) dated))

-- So does a tick while no timer is due, also where the epoch wraps to 0.
pub tick-IsDated :
    (nodes : Nodes) (chain : DeltaChain)
    → Distinct chain.dq
    → chain.current_epoch < 2 ^ 32
    → Pending (remaining nodes chain)
    → IsDated nodes chain
    → IsDated (tick nodes chain).0 (tick nodes chain).1
tick-IsDated nodes chain d small wait dated = rw (tick-one_less nodes chain d) (
    Dates-one_less (time_until (tick nodes chain).0 (tick nodes chain).1) (time_until nodes chain)
      (remaining nodes chain) (λ p. time_until-tick nodes chain p small) wait dated)
