-- ===== src/Dsa/Dq/Halves.antt =====
-- A queue in two parts, between which an operation writes.
use workhorse_rt.Common.{
  ℕ, ◌≡◌, refl, sym, ◌∙◌, false, Option, none, some, List, [], ◌∷◌, ◌++◌, arith, has, Distinct,
  Bool-cases, inl, inr,
}
use workhorse_rt.Dsa.Ends.{
  first_or, last_or, last_or-append, first_or-append, Apart, apart_eq, Last, last_or-Last,
}
use workhorse_rt.Dsa.Dq.{DqListNode, Dq, set_next, set_prev, join_next, join_prev}
use workhorse_rt.Dsa.Dq.Links.{
  Linked, Left, Right, IsDq, Linked-congr, Linked-split, Linked-append, set_next-Same,
  set_prev-Same, Linked-next,
}

pub record Halves (q : Dq) (xs : List ℕ) (next prev : Option ℕ) (ys : List ℕ) : Type 0 where
  pub left : Left q xs next
  pub right : Right q prev ys

pub IsDq-Halves :
    (q : Dq) (xs ys : List ℕ)
    → IsDq q (xs ++ ys)
    → Halves q xs (first_or ys none) (last_or none xs) ys
IsDq-Halves q xs ys is =
    let parts = Linked-split q.nodes none xs ys none is.left.1 in
    record {
      left = (is.left.0 ∙ first_or-append none xs ys, parts.0);
      right = (is.back ∙ last_or-append none xs ys, parts.1);
    }

pub Halves-IsDq :
    (q : Dq) (xs ys : List ℕ)
    → Distinct (xs ++ ys)
    → Halves q xs (first_or ys none) (last_or none xs) ys
    → IsDq q (xs ++ ys)
Halves-IsDq q xs ys d h = record {
  distinct = d;
  left = (
    h.left.0 ∙ sym (first_or-append none xs ys),
    Linked-append q.nodes none xs ys none h.left.1 h.right.1,
  );
  back = h.right.0 ∙ sym (last_or-append none xs ys);
}

-- What is behind the first part gets another first node.
relink :
    (q : Dq) (x : ℕ) (xs : List ℕ) (next prev p : Option ℕ) (ys : List ℕ)
    → Distinct (x ∷ xs)
    → Apart (x ∷ xs) ys
    → Halves q (x ∷ xs) next prev ys
    → {v : Option ℕ} → Last (x ∷ xs) v
    → last_or (some x) xs ≡ v
    → Halves (join_next v p q) (x ∷ xs) p prev ys
unfolding join_next
relink q x xs next prev p ys d a h (Last.nowhere e) f = absurd (ground (arith, e))
relink q x xs next prev p ys d a h (Last.at {l} e) f = record {
  left = (h.left.0, Linked-next q none x xs l next p d f h.left.1);
  right = (
    h.right.0,
    Linked-congr q (set_next l p q) prev ys none (set_next-Same q l p ys (a l e)) h.right.1,
  );
}

pub join_next-Halves :
    (q : Dq) (xs : List ℕ) (next prev p : Option ℕ) (ys : List ℕ)
    → Distinct xs
    → Apart xs ys
    → Halves q xs next prev ys
    → Halves (join_next (last_or none xs) p q) xs p prev ys
unfolding join_next
join_next-Halves q [] next prev p ys d a h = record { left = (refl, tt); right = h.right }
join_next-Halves q (x ∷ xs) next prev p ys d a h =
    relink q x xs next prev p ys d a h (last_or-Last (x ∷ xs)) refl

-- What is before the second part gets another last node.
pub join_prev-Halves :
    (q : Dq) (xs : List ℕ) (next prev p : Option ℕ) (ys : List ℕ)
    → Distinct ys
    → Apart xs ys
    → Halves q xs next prev ys
    → Halves (join_prev (first_or ys none) p q) xs next p ys
unfolding join_prev
join_prev-Halves q xs next prev p [] d a h = record { left = h.left; right = (refl, tt) }
join_prev-Halves q xs next prev p (y ∷ ys) d a h =
    let out : has y xs ≡ false = elim (Bool-cases (has y xs)) [
      | inl e ↦ let no_way = a y e in absurd (ground (arith, no_way))
      | inr e ↦ e
    ] in
    record {
      left = (
        h.left.0,
        Linked-congr q (set_prev y p q) none xs next (set_prev-Same q y p xs out) h.left.1,
      );
      right = (
        h.right.0,
        (
          ground arith,
          kept ∙ h.right.1.1,
          Linked-congr q (set_prev y p q) (some y) ys none (set_prev-Same q y p ys d.0) h.right.1.2,
        ),
      );
    }
  where
    kept : ((set_prev y p q).nodes y).next ≡ (q.nodes y).next
    kept = ground arith

-- Those writes leave the nodes outside the parts alone.
pub join_next_other :
    (q : Dq) (xs : List ℕ) (p : Option ℕ) (j : ℕ)
    → has j xs ≡ false
    → (join_next (last_or none xs) p q).nodes j ≡ q.nodes j
unfolding join_next
join_next_other q xs p j out = other (last_or none xs) (last_or-Last xs)
  where
    other : (v : Option ℕ) → Last xs v → (join_next v p q).nodes j ≡ q.nodes j
    other none (Last.nowhere e) = refl
    other (some l) (Last.at e) = let apart = apart_eq j l xs out e in ground (arith, apart)

pub join_prev_other :
    (q : Dq) (ys : List ℕ) (p : Option ℕ) (j : ℕ)
    → has j ys ≡ false
    → (join_prev (first_or ys none) p q).nodes j ≡ q.nodes j
unfolding join_prev
join_prev_other q [] p j out = refl
join_prev_other q (y ∷ ys) p j out = ground (arith, out)

-- The last node of the first part is linked to what is behind.
pub last-next :
    (nodes : ℕ → DqListNode) (prev : Option ℕ) (x : ℕ) (xs : List ℕ) (next : Option ℕ) (l : ℕ)
    → last_or (some x) xs ≡ some l
    → Linked nodes prev (x ∷ xs) next
    → (nodes l).next ≡ next
last-next nodes prev x [] next l e k = let eq : x ≡ l = ground (arith, e) in ground (arith, eq, k.1)
last-next nodes prev x (y ∷ ys) next l e k = last-next nodes (some x) y ys next l e k.2

-- A write to a node of neither part.
pub set_next-Halves :
    (q : Dq) (i : ℕ) (p : Option ℕ) (xs : List ℕ) (next prev : Option ℕ) (ys : List ℕ)
    → has i xs ≡ false
    → has i ys ≡ false
    → Halves q xs next prev ys
    → Halves (set_next i p q) xs next prev ys
set_next-Halves q i p xs next prev ys a b h = record {
  left =
      (h.left.0, Linked-congr q (set_next i p q) none xs next (set_next-Same q i p xs a) h.left.1);
  right = (
    h.right.0,
    Linked-congr q (set_next i p q) prev ys none (set_next-Same q i p ys b) h.right.1,
  );
}

pub set_prev-Halves :
    (q : Dq) (i : ℕ) (p : Option ℕ) (xs : List ℕ) (next prev : Option ℕ) (ys : List ℕ)
    → has i xs ≡ false
    → has i ys ≡ false
    → Halves q xs next prev ys
    → Halves (set_prev i p q) xs next prev ys
set_prev-Halves q i p xs next prev ys a b h = record {
  left =
      (h.left.0, Linked-congr q (set_prev i p q) none xs next (set_prev-Same q i p xs a) h.left.1);
  right = (
    h.right.0,
    Linked-congr q (set_prev i p q) prev ys none (set_prev-Same q i p ys b) h.right.1,
  );
}
