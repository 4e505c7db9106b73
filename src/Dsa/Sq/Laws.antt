-- ===== src/Dsa/Sq/Laws.antt =====
-- The operations of a queue, on the list of its nodes.
use workhorse_rt.Common.{
  ℕ, ◌≡◌, ◌≢◌, refl, sym, ◌∙◌, subst, true, false, Option, none, some, List, [], ◌∷◌, ◌++◌, arith,
  ◌==◌, update, has, Distinct,
}
use workhorse_rt.Dsa.Ends.{
  append_nil, first_or, last_or, last_or-append, apart_eq, Last, last_or-Last, Room, append-Room,
  Room-Distinct,
}
use workhorse_rt.Dsa.Chain.{Chain, Chain-update, Chain-split, Chain-append, Chain-last, last-link}
use workhorse_rt.Dsa.Sq.{
  Sq, set_front, set_next, add_back, push_back, back_if_alone, push_front, cut, pop_front_at,
  pop_front, insert_behind, insert,
}

pub record IsSq (q : Sq) (xs : List ℕ) : Type 0 where
  pub distinct : Distinct xs
  pub front : q.front ≡ first_or xs none
  pub back : q.back ≡ last_or none xs
  pub chain : Chain q.next xs none

-- A write to another node leaves a node at the end.
unlinked :
    (link : ℕ → Option ℕ) (b x : ℕ)
    → (x == b) ≡ false
    → link x ≡ none
    → (update link b (some x)) x ≡ none
unlinked link b x apart own = ground (arith, apart, own)

not_empty : (z : ℕ) (zs : List ℕ) → z ∷ zs ≢ []
not_empty z zs e = ground (arith, e)

add_back-IsSq :
    (c : Sq) (xs : List ℕ) (x : ℕ) (v : Option ℕ)
    → Last xs v
    → v ≡ last_or none xs
    → Room xs x []
    → c.next x ≡ none
    → c.front ≡ first_or xs none
    → Chain c.next xs none
    → IsSq (add_back x v c) (xs ++ x ∷ [])
unfolding add_back
add_back-IsSq c [] x none (Last.nowhere e) l r own f k = record {
  distinct = (refl, tt);
  front = refl;
  back = refl;
  chain = (own, tt);
}
add_back-IsSq c (z ∷ zs) x none (Last.nowhere e) l r own f k = absurd (not_empty z zs e)
add_back-IsSq c [] x (some b) (Last.at e) l r own f k = cc
add_back-IsSq c (z ∷ zs) x (some b) (Last.at e) l r own f k =
    let apart = apart_eq x b (z ∷ zs) r.out_left e in
    let kept : (update c.next b (some x)) x ≡ none = unlinked c.next b x apart own in
    record {
      distinct = Room-Distinct (z ∷ zs) x [] r;
      front = f;
      back = sym (last_or-append none (z ∷ zs) (x ∷ []));
      chain =
          Chain-append (update c.next b (some x)) (z ∷ zs) (x ∷ []) none
            (Chain-last c.next z zs b none (some x) r.left (sym l) k) (kept, tt);
    }

pub push_back-IsSq :
    (q : Sq) (xs : List ℕ) (x : ℕ) → IsSq q xs → Room xs x [] → IsSq (push_back x q) (xs ++ x ∷ [])
unfolding push_back
push_back-IsSq q xs x is r =
    let v = last_or none xs in
    let c = set_next x none q in
    subst (λ (b : Option ℕ). IsSq (add_back x b c) (xs ++ x ∷ [])) (sym is.back)
      (add_back-IsSq c xs x v (last_or-Last xs) refl r (ground arith) is.front
        (Chain-update q.next x none xs none r.out_left is.chain))

pub push_front-IsSq :
    (q : Sq) (x : ℕ) (ys : List ℕ) → IsSq q ys → has x ys ≡ false → IsSq (push_front x q) (x ∷ ys)
unfolding push_front
push_front-IsSq q x ys is out =
    let link = Chain-update q.next x q.front ys none out is.chain in
    let own : (update q.next x q.front) x ≡ first_or ys none = points ∙ is.front in
    subst
      (λ (v : Option ℕ).
        IsSq (back_if_alone x v (set_front (some x) (set_next x q.front q))) (x ∷ ys))
      (sym own) (alone ys is.back own (out, is.distinct) link)
  where
    points : (update q.next x q.front) x ≡ q.front
    points = ground arith

    alone :
        (ys : List ℕ)
        → q.back ≡ last_or none ys
        → (update q.next x q.front) x ≡ first_or ys none
        → Distinct (x ∷ ys)
        → Chain (update q.next x q.front) ys none
        → IsSq
            (back_if_alone x (first_or ys none) (set_front (some x) (set_next x q.front q)))
            (x ∷ ys)
    alone [] b own d k = record { distinct = d; front = refl; back = refl; chain = (own, k) }
    alone (y ∷ ys) b own d k = record { distinct = d; front = refl; back = b; chain = (own, k) }

cut-IsSq :
    (q : Sq) (x : ℕ) (xs : List ℕ)
    → IsSq q (x ∷ xs)
    → IsSq (cut x (first_or xs none) (set_front (first_or xs none) q)) xs
unfolding cut
cut-IsSq q x [] is = record { distinct = tt; front = refl; back = refl; chain = tt }
cut-IsSq q x (y ∷ ys) is = record {
  distinct = is.distinct.1;
  front = refl;
  back = is.back;
  chain = Chain-update q.next x none (y ∷ ys) none is.distinct.0 is.chain.1;
}

pub pop_front-IsSq :
    (q : Sq) (x : ℕ) (xs : List ℕ)
    → IsSq q (x ∷ xs)
    → ((pop_front q).0 ≡ some x) × IsSq (pop_front q).1 xs
unfolding pop_front pop_front_at
pop_front-IsSq q x xs is = at q.front is.front
  where
    here : (w : ℕ) → x ≡ w → IsSq (cut w (q.next w) (set_front (q.next w) q)) xs
    here w e =
        subst (λ (u : ℕ). IsSq (cut u (q.next u) (set_front (q.next u) q)) xs) e
          (rw (is.chain.0) (cut-IsSq q x xs is))

    at :
        (v : Option ℕ) → v ≡ some x → ((pop_front_at v q).0 ≡ some x) × IsSq (pop_front_at v q).1 xs
    at none e = absurd (ground (arith, e))
    at (some w) e = (e, here w (ground (arith, e)))

behind :
    (q : Sq) (z : ℕ) (zs : List ℕ) (p x : ℕ) (ys : List ℕ)
    → IsSq q (z ∷ zs ++ ys)
    → Room (z ∷ zs) x ys
    → has p (z ∷ zs) ≡ true
    → last_or (some z) zs ≡ some p
    → IsSq (insert_behind p (first_or ys none) x q) (z ∷ zs ++ x ∷ ys)
unfolding insert_behind
behind q z zs p x [] is r e l =
    push_back-IsSq q (z ∷ zs) x (subst (IsSq q) (append_nil (z ∷ zs)) is) r
behind q z zs p x (y ∷ ys) is r e l =
    let parts = Chain-split q.next (z ∷ zs) (y ∷ ys) none is.chain in
    let linked = Chain-last q.next z zs p (some y) (some x) r.left l parts.0 in
    let beyond : has p (y ∷ ys) ≡ false = r.apart p e in
    let first = update q.next p (some x) in
    let far = Chain-update q.next p (some x) (y ∷ ys) none beyond parts.1 in
    record {
      distinct = Room-Distinct (z ∷ zs) x (y ∷ ys) r;
      front = is.front;
      back =
          is.back
          ∙ last_or-append none (z ∷ zs) (y ∷ ys)
          ∙ sym (last_or-append none (z ∷ zs) (x ∷ y ∷ ys));
      chain =
          Chain-append (update first x (some y)) (z ∷ zs) (x ∷ y ∷ ys) none
            (Chain-update first x (some y) (z ∷ zs) (some x) r.out_left linked)
            (ground arith, Chain-update first x (some y) (y ∷ ys) none r.out_right far);
    }

pub insert-IsSq :
    (q : Sq) (xs : List ℕ) (x : ℕ) (ys : List ℕ)
    → IsSq q (xs ++ ys)
    → has x (xs ++ ys) ≡ false
    → IsSq (insert (last_or none xs) x q) (xs ++ x ∷ ys)
unfolding insert
insert-IsSq q [] x ys is out = push_front-IsSq q x ys is out
insert-IsSq q (z ∷ zs) x ys is out =
    at (last_or (some z) zs) (last_or-Last (z ∷ zs)) refl
      (append-Room (z ∷ zs) x ys is.distinct out)
  where
    at :
        (v : Option ℕ)
        → Last (z ∷ zs) v
        → last_or (some z) zs ≡ v
        → Room (z ∷ zs) x ys
        → IsSq (insert v x q) (z ∷ zs ++ x ∷ ys)
    at none (Last.nowhere e) l r = absurd (not_empty z zs e)
    at (some p) (Last.at e) l r =
        let parts = Chain-split q.next (z ∷ zs) ys none is.chain in
        rw (last-link q.next z zs p (first_or ys none) l parts.0) (behind q z zs p x ys is r e l)
