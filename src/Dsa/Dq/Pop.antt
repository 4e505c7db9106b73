-- ===== src/Dsa/Dq/Pop.antt =====
-- Nodes taken from the ends.
use workhorse_rt.Common.{ℕ, ◌≡◌, refl, sym, subst, Option, none, some, List, [], ◌∷◌, ◌++◌, arith}
use workhorse_rt.Dsa.Ends.{first_or, last_or, between-Room, Last, last_or-Last}
use workhorse_rt.Dsa.Dq.{
  Dq, set_front, set_back, set_next, set_prev, join_next, join_prev, pop_front, pop_back,
  pop_front_at, pop_back_at, cut_front, cut_back,
}
use workhorse_rt.Dsa.Dq.Links.{IsDq}
use workhorse_rt.Dsa.Dq.Halves.{
  Halves, IsDq-Halves, Halves-IsDq, join_next-Halves, join_prev-Halves, set_next-Halves,
  set_prev-Halves,
}

-- From an empty queue.
pub pop-empty : (q : Dq) → IsDq q [] → (pop_front q ≡ (none, q)) × (pop_back q ≡ (none, q))
unfolding pop_front pop_back pop_front_at pop_back_at
pop-empty q is = (at_front q.front is.left.0, at_back q.back is.back)
  where
    at_front : (v : Option ℕ) → v ≡ none → pop_front_at v q ≡ (none, q)
    at_front none e = refl
    at_front (some x) e = absurd (ground (arith, e))

    at_back : (v : Option ℕ) → v ≡ none → pop_back_at v q ≡ (none, q)
    at_back none e = refl
    at_back (some x) e = absurd (ground (arith, e))

cut_front-IsDq :
    (q : Dq) (x : ℕ) (xs : List ℕ)
    → IsDq q (x ∷ xs)
    → IsDq (cut_front x (first_or xs none) (set_front (first_or xs none) q)) xs
unfolding cut_front join_prev
cut_front-IsDq q x [] is = record { distinct = tt; left = (refl, tt); back = refl }
cut_front-IsDq q x (y ∷ ys) is =
    let r = set_front (some y) q in
    let parts : Halves r [] (some y) (some x) (y ∷ ys) = record {
      left = (refl, tt);
      right = (is.back, is.left.1.2);
    } in
    let room = between-Room [] x (y ∷ ys) is.distinct in
    Halves-IsDq (set_next x none (set_prev y none r)) [] (y ∷ ys) is.distinct.1 (
      set_next-Halves (set_prev y none r) x none [] (some y) none (y ∷ ys) refl room.out_right
        (join_prev-Halves r [] (some y) (some x) none (y ∷ ys) room.right room.apart parts))

pub pop_front-IsDq :
    (q : Dq) (x : ℕ) (xs : List ℕ)
    → IsDq q (x ∷ xs)
    → ((pop_front q).0 ≡ some x) × IsDq (pop_front q).1 xs
unfolding pop_front pop_front_at
pop_front-IsDq q x xs is = at q.front is.left.0
  where
    here : (w : ℕ) → x ≡ w → IsDq (cut_front w (q.nodes w).next (set_front (q.nodes w).next q)) xs
    here w e =
        subst (λ (u : ℕ). IsDq (cut_front u (q.nodes u).next (set_front (q.nodes u).next q)) xs) e
          (rw (is.left.1.1) (cut_front-IsDq q x xs is))

    at :
        (v : Option ℕ) → v ≡ some x → ((pop_front_at v q).0 ≡ some x) × IsDq (pop_front_at v q).1 xs
    at none e = absurd (ground (arith, e))
    at (some w) e = (e, here w (ground (arith, e)))

cut_back-IsDq :
    (q : Dq) (xs : List ℕ) (x : ℕ)
    → IsDq q (xs ++ x ∷ [])
    → {v : Option ℕ} → Last xs v
    → last_or none xs ≡ v
    → IsDq (cut_back x v (set_back v q)) xs
unfolding cut_back join_next
cut_back-IsDq q [] x is (Last.nowhere e) l = record {
  distinct = tt;
  left = (refl, tt);
  back = refl;
}
cut_back-IsDq q (z ∷ zs) x is (Last.nowhere e) l = absurd (ground (arith, e))
cut_back-IsDq q xs x is (Last.at {l = w} e) f =
    let r = set_back (some w) q in
    let room = between-Room xs x [] is.distinct in
    let whole = IsDq-Halves q xs (x ∷ []) is in
    let parts : Halves r xs (some x) (some w) [] = record {
      left = whole.left;
      right = (refl, tt);
    } in
    let cut : Halves (set_next w none r) xs none (some w) [] =
      subst (λ (v : Option ℕ). Halves (join_next v none r) xs none (some w) []) f
        (join_next-Halves r xs (some x) (some w) none [] room.left room.apart parts) in
    let done =
      set_prev-Halves (set_next w none r) x none xs none (some w) [] room.out_left refl cut in
    record { distinct = room.left; left = done.left; back = sym f }

pub pop_back-IsDq :
    (q : Dq) (xs : List ℕ) (x : ℕ)
    → IsDq q (xs ++ x ∷ [])
    → ((pop_back q).0 ≡ some x) × IsDq (pop_back q).1 xs
unfolding pop_back pop_back_at
pop_back-IsDq q xs x is = at q.back h.right.0
  where
    h : Halves q xs (some x) (last_or none xs) (x ∷ [])
    h = IsDq-Halves q xs (x ∷ []) is

    here : (w : ℕ) → x ≡ w → IsDq (cut_back w (q.nodes w).prev (set_back (q.nodes w).prev q)) xs
    here w e =
        subst (λ (u : ℕ). IsDq (cut_back u (q.nodes u).prev (set_back (q.nodes u).prev q)) xs) e
          (rw (h.right.1.0) (cut_back-IsDq q xs x is (last_or-Last xs) refl))

    at : (v : Option ℕ) → v ≡ some x → ((pop_back_at v q).0 ≡ some x) × IsDq (pop_back_at v q).1 xs
    at none e = absurd (ground (arith, e))
    at (some w) e = (e, here w (ground (arith, e)))
