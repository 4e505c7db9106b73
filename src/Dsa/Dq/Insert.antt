-- ===== src/Dsa/Dq/Insert.antt =====
-- Insertions at a place that is named by a neighbour.
use workhorse_rt.Common.{
  ℕ, ◌≡◌, refl, sym, ◌∙◌, subst, false, Option, none, some, List, [], ◌∷◌, ◌++◌, arith, has,
}
use workhorse_rt.Dsa.Ends.{first_or, last_or, Room, append-Room, Room-Distinct, Last, last_or-Last}
use workhorse_rt.Dsa.Dq.{
  Dq, set_next, set_prev, join_next, join_prev, put_between, insert_behind, insert_before,
  insert_prev, insert_next,
}
use workhorse_rt.Dsa.Dq.Links.{Left, IsDq}
use workhorse_rt.Dsa.Dq.Halves.{
  Halves, IsDq-Halves, join_next-Halves, join_prev-Halves, last-next, set_next-Halves,
  set_prev-Halves,
}
use workhorse_rt.Dsa.Dq.Laws.{between, push_back-IsDq, push_front-IsDq}

-- The two parts point to what comes between them.
opened :
    (q : Dq) (xs : List ℕ) (x : ℕ) (ys : List ℕ) (next prev : Option ℕ)
    → Room xs x ys
    → Halves q xs next prev ys
    → Halves
        (join_prev (first_or ys none) (some x) (join_next (last_or none xs) (some x) q))
        xs
        (some x)
        (some x)
        ys
opened q xs x ys next prev r h =
    join_prev-Halves (join_next (last_or none xs) (some x) q) xs (some x) prev (some x) ys r.right
      r.apart (join_next-Halves q xs next prev (some x) ys r.left r.apart h)

put_between-IsDq :
    (q : Dq) (xs : List ℕ) (p x n : ℕ) (ys : List ℕ)
    → Room xs x ys
    → last_or none xs ≡ some p
    → first_or ys none ≡ some n
    → Halves q xs (first_or ys none) (last_or none xs) ys
    → IsDq (put_between p n x q) (xs ++ x ∷ ys)
unfolding put_between join_next join_prev
put_between-IsDq q xs p x n ys r l f h =
    let c = set_prev n (some x) (set_next p (some x) q) in
    let parts : Halves c xs (some x) (some x) ys =
      subst
        (λ (v : Option ℕ).
          Halves (join_prev v (some x) (join_next (some p) (some x) q)) xs (some x) (some x) ys)
        f
        (subst
          (λ (v : Option ℕ).
            Halves (join_prev (first_or ys none) (some x) (join_next v (some x) q)) xs (some x)
              (some x) ys)
          l (opened q xs x ys (first_or ys none) (last_or none xs) r h)) in
    between (set_next x (some n) (set_prev x (some p) c)) xs ys x (Room-Distinct xs x ys r)
      (links_prev c ∙ sym l) (links_next c ∙ sym f)
      (set_next-Halves (set_prev x (some p) c) x (some n) xs (some x) (some x) ys r.out_left
        r.out_right
        (set_prev-Halves c x (some p) xs (some x) (some x) ys r.out_left r.out_right parts))
  where
    links_prev : (c : Dq) → ((set_next x (some n) (set_prev x (some p) c)).nodes x).prev ≡ some p
    links_prev c = ground arith

    links_next : (c : Dq) → ((set_next x (some n) (set_prev x (some p) c)).nodes x).next ≡ some n
    links_next c = ground arith

-- Behind the last node of the first part, or at the front where that is empty.
behind :
    (q : Dq) (xs : List ℕ) (p x : ℕ) (ys : List ℕ)
    → Room xs x ys
    → last_or none xs ≡ some p
    → Halves q xs (first_or ys none) (last_or none xs) ys
    → IsDq (insert_behind p (first_or ys none) x q) (xs ++ x ∷ ys)
unfolding insert_behind
behind q xs p x [] r l h = push_back-IsDq q xs x r h
behind q xs p x (y ∷ ys) r l h = put_between-IsDq q xs p x y (y ∷ ys) r l refl h

last_next :
    (q : Dq) (xs : List ℕ) (next : Option ℕ) (p : ℕ)
    → last_or none xs ≡ some p
    → Left q xs next
    → (q.nodes p).next ≡ next
last_next q [] next p e h = absurd (ground (arith, e))
last_next q (x ∷ xs) next p e h = last-next q.nodes none x xs next p e h.1

pub insert_prev-IsDq :
    (q : Dq) (xs : List ℕ) (x : ℕ) (ys : List ℕ)
    → IsDq q (xs ++ ys)
    → has x (xs ++ ys) ≡ false
    → IsDq (insert_prev (last_or none xs) x q) (xs ++ x ∷ ys)
unfolding insert_prev
insert_prev-IsDq q xs x ys is out =
    at xs (last_or none xs) (last_or-Last xs) refl (append-Room xs x ys is.distinct out)
      (IsDq-Halves q xs ys is)
  where
    at :
        (xs : List ℕ) (v : Option ℕ)
        → Last xs v
        → last_or none xs ≡ v
        → Room xs x ys
        → Halves q xs (first_or ys none) (last_or none xs) ys
        → IsDq (insert_prev v x q) (xs ++ x ∷ ys)
    at [] none (Last.nowhere e) l r h = push_front-IsDq q x ys r h
    at (z ∷ zs) none (Last.nowhere e) l r h = absurd (ground (arith, e))
    at xs (some p) (Last.at e) l r h =
        rw (last_next q xs (first_or ys none) p l h.left) (behind q xs p x ys r l h)

-- Before the first node of the second part, or at the back where that is empty.
before :
    (q : Dq) (v : Option ℕ) (xs : List ℕ) (x n : ℕ) (ys : List ℕ)
    → Last xs v
    → last_or none xs ≡ v
    → Room xs x ys
    → first_or ys none ≡ some n
    → Halves q xs (first_or ys none) (last_or none xs) ys
    → IsDq (insert_before n v x q) (xs ++ x ∷ ys)
unfolding insert_before
before q none [] x n ys (Last.nowhere e) l r f h = push_front-IsDq q x ys r h
before q none (z ∷ zs) x n ys (Last.nowhere e) l r f h = absurd (ground (arith, e))
before q (some p) xs x n ys (Last.at e) l r f h = put_between-IsDq q xs p x n ys r l f h

pub insert_next-IsDq :
    (q : Dq) (xs : List ℕ) (x : ℕ) (ys : List ℕ)
    → IsDq q (xs ++ ys)
    → has x (xs ++ ys) ≡ false
    → IsDq (insert_next (first_or ys none) x q) (xs ++ x ∷ ys)
unfolding insert_next
insert_next-IsDq q xs x [] is out =
    push_back-IsDq q xs x (append-Room xs x [] is.distinct out) (IsDq-Halves q xs [] is)
insert_next-IsDq q xs x (y ∷ ys) is out =
    let h = IsDq-Halves q xs (y ∷ ys) is in
    rw (h.right.1.0) (
      before q (last_or none xs) xs x y (y ∷ ys) (last_or-Last xs) refl
        (append-Room xs x (y ∷ ys) is.distinct out) refl h)
