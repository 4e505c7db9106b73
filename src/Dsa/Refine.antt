-- ===== src/Dsa/Refine.antt =====
-- The operations of the three kinds of queues as operations on lists.
use workhorse_rt.Common.{ℕ, ◌≡◌, false, none, some, List, [], ◌∷◌, ◌++◌, has}
use workhorse_rt.Dsa.Ends.{first_or, last_or, end-Room}
use workhorse_rt.Dsa.Dq.{Dq}
use workhorse_rt.Dsa.Dq as Dq
use workhorse_rt.Dsa.Dq.Links.{IsDq}
use workhorse_rt.Dsa.Dq.Laws.{dequeue-IsDq}
use workhorse_rt.Dsa.Dq.Insert.{insert_prev-IsDq, insert_next-IsDq}
use workhorse_rt.Dsa.Dq.Pop.{pop_front-IsDq, pop_back-IsDq}
use workhorse_rt.Dsa.Sq.{Sq}
use workhorse_rt.Dsa.Sq as Sq
use workhorse_rt.Dsa.Sq.Laws.{IsSq, insert-IsSq, push_back-IsSq, pop_front-IsSq}
use workhorse_rt.Dsa.Stackq.{Stackq, IsStackq, push-IsStackq, pop-IsStackq, pop-empty}
use workhorse_rt.Dsa.Stackq as Stackq

-- A doubly linked queue stands for the list of its nodes. A node that is in none of two parts of the
-- list goes between them by dqInsertPrev with the last node of the first part, or NULL where that is
-- empty, and by dqInsertNext with the first node of the second part, or NULL where that is empty.
pub dq_inserts :
    (q : Dq) (xs : List ℕ) (x : ℕ) (ys : List ℕ)
    → IsDq q (xs ++ ys)
    → has x (xs ++ ys) ≡ false
    → IsDq (Dq.insert_prev (last_or none xs) x q) (xs ++ x ∷ ys)
      × IsDq (Dq.insert_next (first_or ys none) x q) (xs ++ x ∷ ys)
dq_inserts q xs x ys is out = (insert_prev-IsDq q xs x ys is out, insert_next-IsDq q xs x ys is out)

-- dqDequeue takes a node out wherever it stands in a doubly linked queue; dqPopFront takes it if it
-- is the first, and dqPopBack if it is the last, and each of these gives the node that it takes.
pub dq_removes :
    (q first last : Dq) (xs : List ℕ) (x : ℕ) (ys : List ℕ)
    → IsDq q (xs ++ x ∷ ys)
    → IsDq first (x ∷ ys)
    → IsDq last (xs ++ x ∷ [])
    → IsDq (Dq.dequeue x q) (xs ++ ys)
      × (((Dq.pop_front first).0 ≡ some x) × IsDq (Dq.pop_front first).1 ys)
      × (((Dq.pop_back last).0 ≡ some x) × IsDq (Dq.pop_back last).1 xs)
dq_removes q first last xs x ys is a b =
    (dequeue-IsDq q xs x ys is, pop_front-IsDq first x ys a, pop_back-IsDq last xs x b)

-- A singly linked queue stands for the list of its nodes: sqPopFront gives the first node, which the
-- queue then loses, and a node that is in none of two parts of the list goes between them by sqInsert
-- with the last node of the first part, or NULL where that is empty, and behind both by sqPushBack.
pub sq_refines :
    (q first : Sq) (xs : List ℕ) (x : ℕ) (ys : List ℕ)
    → IsSq q (xs ++ ys)
    → has x (xs ++ ys) ≡ false
    → IsSq first (x ∷ ys)
    → IsSq (Sq.insert (last_or none xs) x q) (xs ++ x ∷ ys)
      × IsSq (Sq.push_back x q) ((xs ++ ys) ++ x ∷ [])
      × (((Sq.pop_front first).0 ≡ some x) × IsSq (Sq.pop_front first).1 ys)
sq_refines q first xs x ys is out a = (
  insert-IsSq q xs x ys is out,
  push_back-IsSq q (xs ++ ys) x is (end-Room (xs ++ ys) x is.distinct out),
  pop_front-IsSq first x ys a,
)

-- stackqPush puts a node that is not in the stack on top, and a stackqPop right after gives it back
-- and leaves the stack with the nodes of before; stackqPop of an empty stack gives NULL and changes
-- nothing.
pub stackq_pop-push :
    (q empty : Stackq) (x : ℕ) (xs : List ℕ)
    → IsStackq q xs
    → has x xs ≡ false
    → IsStackq empty []
    → IsStackq (Stackq.push x q) (x ∷ xs)
      × (((Stackq.pop (Stackq.push x q)).0 ≡ some x) × IsStackq (Stackq.pop (Stackq.push x q)).1 xs)
      × (Stackq.pop empty ≡ (none, empty))
stackq_pop-push q empty x xs is out e =
    let pushed = push-IsStackq q x xs is out in
    (pushed, pop-IsStackq (Stackq.push x q) x xs pushed, pop-empty empty e)
