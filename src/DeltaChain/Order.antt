-- ===== src/DeltaChain/Order.antt =====
-- No node stands twice in a delta chain: what its operations keep, and rely on.
use workhorse_rt.Common.{
  ℕ, ◌≡◌, refl, false, Option, none, some, List, [], ◌∷◌, arith, ◌==◌, has, Distinct, Bool-cases,
  inl, inr,
}
use workhorse_rt.DeltaChain.{Nodes, DeltaChain, insert_prev, insert}

insert_prev-out :
    (prev : Option ℕ) (node p : ℕ) (xs : List ℕ)
    → (p == node) ≡ false
    → has p xs ≡ false
    → has p (insert_prev prev node xs) ≡ false
unfolding insert_prev
insert_prev-out none node p xs other out = ground arith
insert_prev-out (some prev) node p [] other out = refl
insert_prev-out (some prev) node p (x ∷ xs) other out =
    ground (arith, insert_prev-out (some prev) node p xs other)

insert_prev-Distinct :
    (prev : Option ℕ) (node : ℕ) (xs : List ℕ)
    → has node xs ≡ false
    → Distinct xs
    → Distinct (insert_prev prev node xs)
unfolding insert_prev
insert_prev-Distinct none node xs out d = (out, d)
insert_prev-Distinct (some prev) node [] out d = tt
insert_prev-Distinct (some prev) node (x ∷ xs) out d = elim (Bool-cases (x == prev)) [
  | inl here ↦ rw here (ground (arith, d.0), (ground arith, d.1))
  | inr later ↦ rw later (
    insert_prev-out (some prev) node x xs (ground arith) d.0,
    insert_prev-Distinct (some prev) node xs (ground arith) d.1,
  )
]

-- A node that is not in the queue may be inserted: then still no node stands in the queue twice.
pub insert-Distinct :
    (nodes : Nodes) (chain : DeltaChain) (node delta : ℕ)
    → Distinct chain.dq
    → has node chain.dq ≡ false
    → Distinct (insert nodes chain node delta).1.dq
unfolding insert
insert-Distinct nodes chain node delta d out = insert_prev-Distinct _ node chain.dq out d
