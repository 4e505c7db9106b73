-- ===== src/Dsa/Chain.antt =====
-- Nodes that point one way, in the order of a list.
use workhorse_rt.Common.{
  ℕ, ◌≡◌, sym, ◌∙◌, true, false, Option, some, List, [], ◌∷◌, ◌++◌, arith, ◌==◌, update, has,
  Distinct,
}
use workhorse_rt.Dsa.Ends.{first_or, last_or, first_or-append, apart_eq}

-- Each node of the list points to the one behind it, the last to `next`.
abbrev pub Chain : (ℕ → Option ℕ) → List ℕ → Option ℕ → Type 0
Chain link [] next = Unit
Chain link (x ∷ xs) next = (link x ≡ first_or xs next) × Chain link xs next

-- A write to the link of another node.
pub Chain-update :
    (link : ℕ → Option ℕ) (i : ℕ) (p : Option ℕ) (xs : List ℕ) (next : Option ℕ)
    → has i xs ≡ false
    → Chain link xs next
    → Chain (update link i p) xs next
Chain-update link i p [] next out c = tt
Chain-update link i p (x ∷ xs) next out c =
    let other : (i == x) ≡ false = ground (arith, out) in
    (ground (arith, other, c.0), Chain-update link i p xs next (ground (arith, out)) c.1)

pub Chain-split :
    (link : ℕ → Option ℕ) (xs ys : List ℕ) (next : Option ℕ)
    → Chain link (xs ++ ys) next
    → Chain link xs (first_or ys next) × Chain link ys next
Chain-split link [] ys next c = (tt, c)
Chain-split link (x ∷ xs) ys next c =
    let more = Chain-split link xs ys next c.1 in
    ((c.0 ∙ first_or-append next xs ys, more.0), more.1)

pub Chain-append :
    (link : ℕ → Option ℕ) (xs ys : List ℕ) (next : Option ℕ)
    → Chain link xs (first_or ys next)
    → Chain link ys next
    → Chain link (xs ++ ys) next
Chain-append link [] ys next c d = d
Chain-append link (x ∷ xs) ys next c d =
    (c.0 ∙ sym (first_or-append next xs ys), Chain-append link xs ys next c.1 d)

-- The last node of a list.
last_in : (l y : ℕ) (ys : List ℕ) → last_or (some y) ys ≡ some l → has l (y ∷ ys) ≡ true
last_in l y [] e = ground (arith, e)
last_in l y (z ∷ zs) e = let deeper = last_in l z zs e in ground (arith, deeper)

pub Chain-last :
    (link : ℕ → Option ℕ) (x : ℕ) (xs : List ℕ) (l : ℕ) (next p : Option ℕ)
    → Distinct (x ∷ xs)
    → last_or (some x) xs ≡ some l
    → Chain link (x ∷ xs) next
    → Chain (update link l p) (x ∷ xs) p
Chain-last link x [] l next p d e c = let eq : x ≡ l = ground (arith, e) in (ground (arith, eq), tt)
Chain-last link x (y ∷ ys) l next p d e c =
    let more = Chain-last link y ys l next p d.1 e c.1 in
    let apart = apart_eq x l (y ∷ ys) d.0 (last_in l y ys e) in
    let other : (l == x) ≡ false = ground (arith, apart) in (ground (arith, other, c.0), more)

pub last-link :
    (link : ℕ → Option ℕ) (x : ℕ) (xs : List ℕ) (l : ℕ) (next : Option ℕ)
    → last_or (some x) xs ≡ some l
    → Chain link (x ∷ xs) next
    → link l ≡ next
last-link link x [] l next e c = let eq : x ≡ l = ground (arith, e) in ground (arith, eq, c.0)
last-link link x (y ∷ ys) l next e c = last-link link y ys l next e c.1
