-- ===== src/DeltaChain/Insert.antt =====
-- deltaChainInsert adds a timer at its time and leaves the time of every other timer alone.
use workhorse_rt.Common.{
  ℕ, ◌+◌, ◌-◌, ◌≡◌, refl, ap, ap₂, ◌∙◌, true, false, Option, none, some, List, [], ◌∷◌, arith, ◌==◌,
  ltb, if◌then◌else◌, has, Distinct, Bool-cases, inl, inr,
}
use workhorse_rt.DeltaChain.{
  Nodes, DeltaChain, set_delta, set_expected, insert_prev, find_place, insert, u32,
}
use workhorse_rt.DeltaChain.Times.{times, remaining, enqueue, times_congr, times-set_delta_out}

-- The order of the queue after an insertion, as the loop of `insert` reads the deltas.
splice : Nodes → ℕ → ℕ → List ℕ → List ℕ
splice nodes node delta [] = node ∷ []
splice nodes node delta (cur ∷ rest) =
    if ltb delta (nodes cur).delta
    then node ∷ cur ∷ rest
    else cur ∷ splice nodes node (delta - (nodes cur).delta) rest

find_place-out :
    (nodes : Nodes) (delta : ℕ) (prev : Option ℕ) (xs : List ℕ) (p : ℕ)
    → has p xs ≡ false
    → (find_place nodes delta prev xs).nodes p ≡ nodes p
unfolding find_place
find_place-out nodes delta prev [] p out = refl
find_place-out nodes delta prev (x ∷ xs) p out =
    ground (arith, find_place-out nodes (delta - (nodes x).delta) (some x) xs p)

find_place-prev :
    (nodes : Nodes) (delta q : ℕ) (xs : List ℕ)
    → (p : ℕ) × ((find_place nodes delta (some q) xs).prev ≡ some p) × (has p (q ∷ xs) ≡ true)
unfolding find_place
find_place-prev nodes delta q [] = (q, refl, ground arith)
find_place-prev nodes delta q (x ∷ xs) = elim (Bool-cases (ltb delta (nodes x).delta)) [
  | inl stop ↦ (q, rw stop, ground arith)
  | inr more ↦
      let (p, e, h) = find_place-prev nodes (delta - (nodes x).delta) x xs in
      (p, rw more e, ground (arith, h))
]

insert_prev-skip :
    (q p node : ℕ) (xs : List ℕ)
    → (q == p) ≡ false
    → insert_prev (some p) node (q ∷ xs) ≡ q ∷ insert_prev (some p) node xs
unfolding insert_prev
insert_prev-skip q p node xs h = rw h

insert_prev-splice :
    (nodes : Nodes) (node delta q : ℕ) (xs : List ℕ)
    → Distinct (q ∷ xs)
    → insert_prev (find_place nodes delta (some q) xs).prev node (q ∷ xs)
      ≡ q ∷ splice nodes node delta xs
unfolding find_place splice
insert_prev-splice nodes node delta q [] d = unfold insert_prev in ground arith
insert_prev-splice nodes node delta q (x ∷ xs) d = elim (Bool-cases (ltb delta (nodes x).delta)) [
  | inl stop ↦ rw stop (unfold insert_prev in ground arith)
  | inr more ↦
      let (p, e, h) = find_place-prev nodes (delta - (nodes x).delta) x xs in
      rw more (
        rw e (
          insert_prev-skip q p node (x ∷ xs) (ground (arith, h, d.0))
          ∙ ap (λ l. q ∷ l)
              (rw e at (insert_prev-splice nodes node (delta - (nodes x).delta) x xs d.1))))
]

-- The queue after an insertion with no node ahead of it yet.
insert_prev-from_front :
    (nodes : Nodes) (node delta : ℕ) (xs : List ℕ)
    → Distinct xs
    → insert_prev (find_place nodes delta none xs).prev node xs ≡ splice nodes node delta xs
unfolding find_place splice insert_prev
insert_prev-from_front nodes node delta [] d = refl
insert_prev-from_front nodes node delta (x ∷ xs) d = elim (Bool-cases (ltb delta (nodes x).delta)) [
  | inl stop ↦ rw stop
  | inr more ↦ rw more (insert_prev-splice nodes node (delta - (nodes x).delta) x xs d)
]

-- Times after the deltas of the loop and of the new node are written.
times-splice :
    (nodes : Nodes) (node delta base : ℕ) (prev : Option ℕ) (xs : List ℕ)
    → has node xs ≡ false
    → Distinct xs
    → times
        (set_delta
          (find_place nodes delta prev xs).nodes
          node
          (find_place nodes delta prev xs).delta)
        base
        (splice nodes node delta xs)
      ≡ enqueue node (base + delta) (times nodes base xs)
unfolding find_place splice times enqueue
times-splice nodes node delta base prev [] out d = ground arith
times-splice nodes node delta base prev (x ∷ xs) out d =
    elim (Bool-cases (ltb delta (nodes x).delta)) [
      | inl stop ↦ rw stop (
          ground (
            arith,
            stop,
            out,
            d.0,
            times-set_delta_out nodes x ((nodes x).delta - delta) (base + (nodes x).delta) xs,
            times-set_delta_out (set_delta nodes x ((nodes x).delta - delta)) node delta
                (base + (nodes x).delta) xs,
          ))
      | inr more ↦ rw more (
          ground (
            arith,
            more,
            out,
            d.0,
            find_place-out nodes (delta - (nodes x).delta) (some x) xs x,
            times-splice nodes node (delta - (nodes x).delta) (base + (nodes x).delta) (some x) xs
                (ground arith) d.1,
          ))
    ]

-- After an insertion the timers are those before it with the new one behind every timer that is due
-- no later, and the time left to each of the others is as it was.
pub insert-enqueue :
    (nodes : Nodes) (chain : DeltaChain) (node delta : ℕ)
    → Distinct chain.dq
    → has node chain.dq ≡ false
    → remaining (insert nodes chain node delta).0 (insert nodes chain node delta).1
      ≡ enqueue node delta (remaining nodes chain)
unfolding insert remaining
insert-enqueue nodes chain node delta d out =
    let dated : Nodes = set_expected nodes node (u32 (chain.current_epoch + delta)) in
    rw (insert_prev-from_front dated node delta chain.dq d) (
      times-splice dated node delta 0 none chain.dq out d
      ∙ ap₂ (enqueue node) (omega arith) (times_congr dated nodes 0 chain.dq (λ p h. ground arith)))
