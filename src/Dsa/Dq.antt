-- ===== src/Dsa/Dq.antt =====
-- include/lib/dsa/dq.h: queues of nodes that point both ways.
pub mod Links
pub mod Halves
pub mod Laws
pub mod Insert
pub mod Pop
use workhorse_rt.Common.{ℕ, Bool, true, false, Option, none, some, ◌==◌, if◌then◌else◌, update}

pub record DqListNode : Type 0 where
  pub next : Option ℕ
  pub prev : Option ℕ

-- A queue, with the memory that the nodes are in.
pub record Dq : Type 0 where
  pub front : Option ℕ
  pub back : Option ℕ
  pub nodes : ℕ → DqListNode

abbrev pub set_front : Option ℕ → Dq → Dq
set_front p q = record q { front = p }

abbrev pub set_back : Option ℕ → Dq → Dq
set_back p q = record q { back = p }

abbrev pub set_next : ℕ → Option ℕ → Dq → Dq
set_next node p q = record q { nodes = update q.nodes node (record (q.nodes node) { next = p }) }

abbrev pub set_prev : ℕ → Option ℕ → Dq → Dq
set_prev node p q = record q { nodes = update q.nodes node (record (q.nodes node) { prev = p }) }

abbrev pub init : Dq → Dq
init q = set_back none (set_front none q)

-- `prev->next = p`, or the front where there is no `prev`.
unfoldable pub join_next : Option ℕ → Option ℕ → Dq → Dq
join_next none p q = set_front p q
join_next (some prev) p q = set_next prev p q

-- `next->prev = p`, or the back where there is no `next`.
unfoldable pub join_prev : Option ℕ → Option ℕ → Dq → Dq
join_prev none p q = set_back p q
join_prev (some next) p q = set_prev next p q

unfoldable pub push_back : ℕ → Dq → Dq
unfolding join_next
push_back node q =
    let linked = set_prev node q.back (set_next node none q) in
    set_back (some node) (join_next (linked.nodes node).prev (some node) linked)

unfoldable pub push_front : ℕ → Dq → Dq
unfolding join_prev
push_front node q =
    let linked = set_next node q.front (set_prev node none q) in
    set_front (some node) (join_prev (linked.nodes node).next (some node) linked)

-- The rest of dqPopFront, by the link of the node that is taken.
unfoldable pub cut_front : ℕ → Option ℕ → Dq → Dq
cut_front node (some next) q = set_next node none (set_prev next none q)
cut_front node none q = set_back none q

unfoldable pub pop_front_at : Option ℕ → Dq → Option ℕ × Dq
unfolding cut_front
pop_front_at none q = (none, q)
pop_front_at (some node) q =
    (some node, cut_front node (q.nodes node).next (set_front (q.nodes node).next q))

unfoldable pub pop_front : Dq → Option ℕ × Dq
unfolding pop_front_at
pop_front q = pop_front_at q.front q

unfoldable pub cut_back : ℕ → Option ℕ → Dq → Dq
cut_back node (some prev) q = set_prev node none (set_next prev none q)
cut_back node none q = set_front none q

unfoldable pub pop_back_at : Option ℕ → Dq → Option ℕ × Dq
unfolding cut_back
pop_back_at none q = (none, q)
pop_back_at (some node) q =
    (some node, cut_back node (q.nodes node).prev (set_back (q.nodes node).prev q))

unfoldable pub pop_back : Dq → Option ℕ × Dq
unfolding pop_back_at
pop_back q = pop_back_at q.back q

-- Both links of `node`, between two nodes that point to it.
unfoldable pub put_between : ℕ → ℕ → ℕ → Dq → Dq
put_between prev next node q =
    set_next node (some next)
      (set_prev node (some prev) (set_prev next (some node) (set_next prev (some node) q)))

unfoldable pub insert_behind : ℕ → Option ℕ → ℕ → Dq → Dq
unfolding push_back put_between
insert_behind prev none node q = push_back node q
insert_behind prev (some next) node q = put_between prev next node q

-- dqInsertPrev, which puts the node behind `prev`.
unfoldable pub insert_prev : Option ℕ → ℕ → Dq → Dq
unfolding push_front insert_behind
insert_prev none node q = push_front node q
insert_prev (some prev) node q = insert_behind prev (q.nodes prev).next node q

unfoldable pub insert_before : ℕ → Option ℕ → ℕ → Dq → Dq
unfolding push_front put_between
insert_before next none node q = push_front node q
insert_before next (some prev) node q = put_between prev next node q

-- dqInsertNext, which puts the node before `next`.
unfoldable pub insert_next : Option ℕ → ℕ → Dq → Dq
unfolding push_back insert_before
insert_next none node q = push_back node q
insert_next (some next) node q = insert_before next (q.nodes next).prev node q

unfoldable pub dequeue : ℕ → Dq → Dq
unfolding join_next join_prev
dequeue node q =
    let prev = (q.nodes node).prev in
    let next = (q.nodes node).next in
    set_next node none (set_prev node none (join_prev next prev (join_next prev next q)))

abbrev pub is_empty : Dq → Bool
is_empty q = elim q.front [ none ↦ true | some node ↦ false ]
