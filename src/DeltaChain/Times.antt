-- ===== src/DeltaChain/Times.antt =====
-- What a delta chain stands for: its nodes with the ticks that each has left, in order.
use workhorse_rt.Common.{
  ℕ, ◌+◌, ◌≡◌, refl, true, false, List, [], ◌∷◌, arith, ltb, if◌then◌else◌, has,
}
use workhorse_rt.DeltaChain.{Nodes, DeltaChain, set_delta}

-- The time left to a node is the sum of the deltas up to its own.
unfoldable pub times : Nodes → ℕ → List ℕ → List (ℕ × ℕ)
times nodes base [] = []
times nodes base (p ∷ rest) =
    (p, base + (nodes p).delta) ∷ times nodes (base + (nodes p).delta) rest

unfoldable pub remaining : Nodes → DeltaChain → List (ℕ × ℕ)
remaining nodes chain = times nodes 0 chain.dq

-- A timer queue by absolute times: behind every entry that is due no later.
unfoldable pub enqueue : ℕ → ℕ → List (ℕ × ℕ) → List (ℕ × ℕ)
enqueue p t [] = (p, t) ∷ []
enqueue p t ((q, s) ∷ rest) = if ltb t s then (p, t) ∷ (q, s) ∷ rest else (q, s) ∷ enqueue p t rest

-- The times depend on the deltas of the nodes in the queue alone.
pub times_congr :
    (f g : Nodes) (base : ℕ) (xs : List ℕ)
    → ((p : ℕ) → has p xs ≡ true → (f p).delta ≡ (g p).delta)
    → times f base xs ≡ times g base xs
unfolding times
times_congr f g base [] same = refl
times_congr f g base (x ∷ xs) same =
    let e : (f x).delta ≡ (g x).delta = same x (ground arith) in
    rw (e, times_congr f g (base + (g x).delta) xs (λ p h. same p (ground (arith, h))))

pub times-set_delta_out :
    (nodes : Nodes) (p d base : ℕ) (xs : List ℕ)
    → has p xs ≡ false
    → times (set_delta nodes p d) base xs ≡ times nodes base xs
times-set_delta_out nodes p d base xs out =
    times_congr (set_delta nodes p d) nodes base xs (λ q h. ground (arith, h, out))
