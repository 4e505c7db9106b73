-- ===== src/Dsa/Dq/Links.antt =====
-- The links of the nodes of a queue, and what a write to one of them changes.
use workhorse_rt.Common.{
  ℕ, ◌≡◌, sym, ◌∙◌, ap, true, false, Option, none, some, List, [], ◌∷◌, ◌++◌, arith, ◌==◌, has,
  Distinct,
}
use workhorse_rt.Dsa.Ends.{first_or, last_or, first_or-append, apart_eq}
use workhorse_rt.Dsa.Dq.{DqListNode, Dq, set_next, set_prev}

-- The nodes of a list are linked, with `prev` before the first and `next` behind the last.
abbrev pub Linked : (ℕ → DqListNode) → Option ℕ → List ℕ → Option ℕ → Type 0
Linked nodes prev [] next = Unit
Linked nodes prev (x ∷ xs) next =
    ((nodes x).prev ≡ prev) × ((nodes x).next ≡ first_or xs next) × Linked nodes (some x) xs next

-- The list is the part of the queue up to `next`.
abbrev pub Left : Dq → List ℕ → Option ℕ → Type 0
Left q xs next = (q.front ≡ first_or xs next) × Linked q.nodes none xs next

-- The list is the part of the queue behind `prev`.
abbrev pub Right : Dq → Option ℕ → List ℕ → Type 0
Right q prev xs = (q.back ≡ last_or prev xs) × Linked q.nodes prev xs none

pub record IsDq (q : Dq) (xs : List ℕ) : Type 0 where
  pub distinct : Distinct xs
  pub left : Left q xs none
  pub back : q.back ≡ last_or none xs

abbrev pub Same : Dq → Dq → List ℕ → Type 0
Same q r xs = (j : ℕ) → has j xs ≡ true → r.nodes j ≡ q.nodes j

pub Linked-congr :
    (q r : Dq) (prev : Option ℕ) (xs : List ℕ) (next : Option ℕ)
    → Same q r xs
    → Linked q.nodes prev xs next
    → Linked r.nodes prev xs next
Linked-congr q r prev [] next s l = tt
Linked-congr q r prev (x ∷ xs) next s l =
    let e : r.nodes x ≡ q.nodes x = s x (ground arith) in
    (
      ap (λ (n : DqListNode). n.prev) e ∙ l.0,
      ap (λ (n : DqListNode). n.next) e ∙ l.1,
      Linked-congr q r (some x) xs next (λ j h. s j (ground (arith, h))) l.2,
    )

pub Linked-split :
    (nodes : ℕ → DqListNode) (prev : Option ℕ) (xs ys : List ℕ) (next : Option ℕ)
    → Linked nodes prev (xs ++ ys) next
    → Linked nodes prev xs (first_or ys next) × Linked nodes (last_or prev xs) ys next
Linked-split nodes prev [] ys next l = (tt, l)
Linked-split nodes prev (x ∷ xs) ys next l =
    let more = Linked-split nodes (some x) xs ys next l.2 in
    ((l.0, l.1 ∙ first_or-append next xs ys, more.0), more.1)

pub Linked-append :
    (nodes : ℕ → DqListNode) (prev : Option ℕ) (xs ys : List ℕ) (next : Option ℕ)
    → Linked nodes prev xs (first_or ys next)
    → Linked nodes (last_or prev xs) ys next
    → Linked nodes prev (xs ++ ys) next
Linked-append nodes prev [] ys next l r = r
Linked-append nodes prev (x ∷ xs) ys next l r =
    (l.0, l.1 ∙ sym (first_or-append next xs ys), Linked-append nodes (some x) xs ys next l.2 r)

-- A write to another node.
pub next_other :
    (q : Dq) (i j : ℕ) (p : Option ℕ) → (i == j) ≡ false → (set_next i p q).nodes j ≡ q.nodes j
next_other q i j p e = ground (arith, e)

pub prev_other :
    (q : Dq) (i j : ℕ) (p : Option ℕ) → (i == j) ≡ false → (set_prev i p q).nodes j ≡ q.nodes j
prev_other q i j p e = ground (arith, e)

pub set_next-Same :
    (q : Dq) (i : ℕ) (p : Option ℕ) (xs : List ℕ) → has i xs ≡ false → Same q (set_next i p q) xs
set_next-Same q i p xs out j h = next_other q i j p (apart_eq i j xs out h)

pub set_prev-Same :
    (q : Dq) (i : ℕ) (p : Option ℕ) (xs : List ℕ) → has i xs ≡ false → Same q (set_prev i p q) xs
set_prev-Same q i p xs out j h = prev_other q i j p (apart_eq i j xs out h)

-- The last node of a list gets another link to what stands behind.
pub Linked-next :
    (q : Dq) (prev : Option ℕ) (x : ℕ) (xs : List ℕ) (l : ℕ) (next p : Option ℕ)
    → Distinct (x ∷ xs)
    → last_or (some x) xs ≡ some l
    → Linked q.nodes prev (x ∷ xs) next
    → Linked (set_next l p q).nodes prev (x ∷ xs) p
Linked-next q prev x [] l next p d e k =
    let eq : x ≡ l = ground (arith, e) in (ground (arith, eq, k.0), ground (arith, eq), tt)
Linked-next q prev x (y ∷ ys) l next p d e k =
    let more = Linked-next q (some x) y ys l next p d.1 e k.2 in
    let in_rest : has l (y ∷ ys) ≡ true = last_in l y ys e in
    let other : (l == x) ≡ false =
      let apart = apart_eq x l (y ∷ ys) d.0 in_rest in ground (arith, apart) in
    (
      ap (λ (n : DqListNode). n.prev) (next_other q l x p other) ∙ k.0,
      ap (λ (n : DqListNode). n.next) (next_other q l x p other) ∙ k.1,
      more,
    )
  where
    last_in : (l y : ℕ) (ys : List ℕ) → last_or (some y) ys ≡ some l → has l (y ∷ ys) ≡ true
    last_in l y [] e = ground (arith, e)
    last_in l y (z ∷ zs) e = let deeper = last_in l z zs e in ground (arith, deeper)
