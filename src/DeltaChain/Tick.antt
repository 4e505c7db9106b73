-- ===== src/DeltaChain/Tick.antt =====
-- deltaChainTick takes one tick off every timer that has any left.
use workhorse_rt.Common.{
  ℕ, ◌+◌, ◌-◌, ◌<◌, ◌≡◌, refl, true, false, List, [], ◌∷◌, map, arith, ◌==◌, has, Distinct,
  Bool-cases, inl, inr, ap, ◌∙◌, ap₂,
}
use workhorse_rt.DeltaChain.{Nodes, DeltaChain, set_delta, tick_nodes, tick}
use workhorse_rt.DeltaChain.Times.{times, remaining, times-set_delta_out}

abbrev pub one_less : ℕ × ℕ → ℕ × ℕ
one_less (p, t) = (p, t - 1)

tick_nodes-out :
    (nodes : Nodes) (xs : List ℕ) (p : ℕ) → has p xs ≡ false → tick_nodes nodes xs p ≡ nodes p
unfolding tick_nodes
tick_nodes-out nodes [] p out = refl
tick_nodes-out nodes (x ∷ xs) p out = ground (arith, tick_nodes-out nodes xs p)

times-one_less :
    (nodes : Nodes) (base : ℕ) (xs : List ℕ)
    → 0 < base
    → times nodes (base - 1) xs ≡ map one_less (times nodes base xs)
unfolding times
times-one_less nodes base [] h = refl
times-one_less nodes base (p ∷ rest) h =
    ground (arith, times-one_less nodes (base + (nodes p).delta) rest)

tick_nodes-due :
    (nodes : Nodes) (p : ℕ) (rest : List ℕ)
    → ((nodes p).delta == 0) ≡ true
    → tick_nodes nodes (p ∷ rest) ≡ tick_nodes nodes rest
unfolding tick_nodes
tick_nodes-due nodes p rest due = rw due

tick_nodes-waits :
    (nodes : Nodes) (p : ℕ) (rest : List ℕ)
    → ((nodes p).delta == 0) ≡ false
    → tick_nodes nodes (p ∷ rest) ≡ set_delta nodes p ((nodes p).delta - 1)
unfolding tick_nodes
tick_nodes-waits nodes p rest more = rw more

times-cons_one_less :
    (f g : Nodes) (base p : ℕ) (rest : List ℕ)
    → base + (f p).delta ≡ base + (g p).delta - 1
    → times f (base + (f p).delta) rest ≡ map one_less (times g (base + (g p).delta) rest)
    → times f base (p ∷ rest) ≡ map one_less (times g base (p ∷ rest))
unfolding times
times-cons_one_less f g base p rest here later = ap₂ ◌∷◌ (ap (λ t. (p, t)) here) later

-- The loop stops at the first node with a delta: those ahead of it are due already.
times-tick_nodes :
    (nodes : Nodes) (base : ℕ) (xs : List ℕ)
    → base ≡ 0
    → Distinct xs
    → times (tick_nodes nodes xs) base xs ≡ map one_less (times nodes base xs)
times-tick_nodes nodes base [] z d = unfold times in refl
times-tick_nodes nodes base (p ∷ rest) z d = elim (Bool-cases ((nodes p).delta == 0)) [
  | inl due ↦
      let e = tick_nodes-out nodes rest p d.0 in
      rw (tick_nodes-due nodes p rest due) (
        times-cons_one_less (tick_nodes nodes rest) nodes base p rest (ground (arith, e))
          (rw e (times-tick_nodes nodes (base + (nodes p).delta) rest (ground arith) d.1)))
  | inr more ↦
      let ticked : Nodes = set_delta nodes p ((nodes p).delta - 1) in
      let e : base + (ticked p).delta ≡ base + (nodes p).delta - 1 = ground arith in
      rw (tick_nodes-waits nodes p rest more) (
        times-cons_one_less ticked nodes base p rest e (
          rw e (
            times-set_delta_out nodes p ((nodes p).delta - 1) (base + (nodes p).delta - 1) rest d.0
            ∙ times-one_less nodes (base + (nodes p).delta) rest (ground arith))))
]

-- After a tick every timer has one tick less left, and one that is due stays due; the order is unchanged.
pub tick-one_less :
    (nodes : Nodes) (chain : DeltaChain)
    → Distinct chain.dq
    → remaining (tick nodes chain).0 (tick nodes chain).1 ≡ map one_less (remaining nodes chain)
unfolding tick remaining
tick-one_less nodes chain d = times-tick_nodes nodes 0 chain.dq refl d
