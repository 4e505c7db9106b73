-- ===== src/Dsa/Dq/Laws.antt =====
-- The operations of a queue, on the list of its nodes.
use workhorse_rt.Common.{
  ℕ, ◌≡◌, refl, sym, ◌∙◌, ap, subst, Option, none, some, List, [], ◌∷◌, ◌++◌, arith, Distinct,
}
use workhorse_rt.Dsa.Ends.{first_or, last_or, Distinct-append, Room, between-Room, Room-Distinct}
use workhorse_rt.Dsa.Dq.{
  DqListNode, Dq, set_front, set_back, set_next, set_prev, join_next, join_prev, push_back,
  push_front, dequeue,
}
use workhorse_rt.Dsa.Dq.Links.{IsDq}
use workhorse_rt.Dsa.Dq.Halves.{
  Halves, IsDq-Halves, Halves-IsDq, join_next-Halves, join_prev-Halves, join_next_other,
  join_prev_other, set_next-Halves, set_prev-Halves,
}

-- A node with its links set goes between two parts that point to it.
pub between :
    (q : Dq) (xs ys : List ℕ) (x : ℕ)
    → Distinct (xs ++ x ∷ ys)
    → (q.nodes x).prev ≡ last_or none xs
    → (q.nodes x).next ≡ first_or ys none
    → Halves q xs (some x) (some x) ys
    → IsDq q (xs ++ x ∷ ys)
between q xs ys x d p n h =
    Halves-IsDq q xs (x ∷ ys) d (record { left = h.left; right = (h.right.0, (p, n, h.right.1)) })

-- The two parts point past what was between them.
pub closed :
    (q : Dq) (xs : List ℕ) (x : ℕ) (ys : List ℕ) (next prev : Option ℕ)
    → Room xs x ys
    → Halves q xs next prev ys
    → Halves
        (join_prev
          (first_or ys none)
          (last_or none xs)
          (join_next (last_or none xs) (first_or ys none) q))
        xs
        (first_or ys none)
        (last_or none xs)
        ys
closed q xs x ys next prev r h =
    let f = first_or ys none in
    let l = last_or none xs in
    join_prev-Halves (join_next l f q) xs f prev l ys r.right r.apart
      (join_next-Halves q xs next prev f ys r.left r.apart h)

pub dequeue-IsDq :
    (q : Dq) (xs : List ℕ) (x : ℕ) (ys : List ℕ)
    → IsDq q (xs ++ x ∷ ys)
    → IsDq (dequeue x q) (xs ++ ys)
unfolding dequeue
dequeue-IsDq q xs x ys is =
    let f = first_or ys none in
    let l = last_or none xs in
    let h = IsDq-Halves q xs (x ∷ ys) is in
    let r = between-Room xs x ys is.distinct in
    let cut : Halves q xs (some x) (some x) ys = record {
      left = h.left;
      right = (h.right.0, h.right.1.2);
    } in
    let c = join_prev f l (join_next l f q) in
    rw (h.right.1.0, h.right.1.1)
      (Halves-IsDq (set_next x none (set_prev x none c)) xs ys
        (Distinct-append xs ys r.left r.right r.apart)
        (set_next-Halves (set_prev x none c) x none xs f l ys r.out_left r.out_right (
          set_prev-Halves c x none xs f l ys r.out_left r.out_right
            (closed q xs x ys (some x) (some x) r cut))))

pub push_back-IsDq :
    (q : Dq) (xs : List ℕ) (x : ℕ)
    → Room xs x []
    → Halves q xs none (last_or none xs) []
    → IsDq (push_back x q) (xs ++ x ∷ [])
unfolding push_back
push_back-IsDq q xs x r h =
    let l = last_or none xs in
    let linked = set_prev x q.back (set_next x none q) in
    let e : (linked.nodes x).prev ≡ l = links_back ∙ h.right.0 in
    let started : Halves linked xs none l [] =
      set_prev-Halves (set_next x none q) x q.back xs none l [] r.out_left refl
        (set_next-Halves q x none xs none l [] r.out_left refl h) in
    let joined = join_next l (some x) linked in
    let same : joined.nodes x ≡ linked.nodes x = join_next_other linked xs (some x) x r.out_left in
    let ends = join_next-Halves linked xs none l (some x) [] r.left r.apart started in
    subst (λ (v : Option ℕ). IsDq (set_back (some x) (join_next v (some x) linked)) (xs ++ x ∷ []))
      (sym e)
      (between (set_back (some x) joined) xs [] x (Room-Distinct xs x [] r)
        (ap (λ (n : DqListNode). n.prev) same ∙ e) (ap (λ (n : DqListNode). n.next) same ∙ no_next)
        (record { left = ends.left; right = (refl, tt) }))
  where
    links_back : ((set_prev x q.back (set_next x none q)).nodes x).prev ≡ q.back
    links_back = ground arith

    no_next : ((set_prev x q.back (set_next x none q)).nodes x).next ≡ none
    no_next = ground arith

pub push_front-IsDq :
    (q : Dq) (x : ℕ) (ys : List ℕ)
    → Room [] x ys
    → Halves q [] (first_or ys none) none ys
    → IsDq (push_front x q) (x ∷ ys)
unfolding push_front
push_front-IsDq q x ys r h =
    let f = first_or ys none in
    let linked = set_next x q.front (set_prev x none q) in
    let e : (linked.nodes x).next ≡ f = links_front ∙ h.left.0 in
    let started : Halves linked [] f none ys =
      set_next-Halves (set_prev x none q) x q.front [] f none ys refl r.out_right
        (set_prev-Halves q x none [] f none ys refl r.out_right h) in
    let joined = join_prev f (some x) linked in
    let same : joined.nodes x ≡ linked.nodes x = join_prev_other linked ys (some x) x r.out_right in
    let ends = join_prev-Halves linked [] f none (some x) ys r.right r.apart started in
    subst (λ (v : Option ℕ). IsDq (set_front (some x) (join_prev v (some x) linked)) (x ∷ ys))
      (sym e)
      (between (set_front (some x) joined) [] ys x (Room-Distinct [] x ys r)
        (ap (λ (n : DqListNode). n.prev) same ∙ no_prev) (ap (λ (n : DqListNode). n.next) same ∙ e)
        (record { left = (refl, tt); right = ends.right }))
  where
    links_front : ((set_next x q.front (set_prev x none q)).nodes x).next ≡ q.front
    links_front = ground arith

    no_prev : ((set_next x q.front (set_prev x none q)).nodes x).prev ≡ none
    no_prev = ground arith
