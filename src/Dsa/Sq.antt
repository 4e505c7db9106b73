-- ===== src/Dsa/Sq.antt =====
-- include/lib/dsa/sq.h: queues of nodes that point to the next one.
pub mod Laws
use workhorse_rt.Common.{ℕ, Bool, true, false, Option, none, some, ◌==◌, if◌then◌else◌, update}

-- A queue, with the `next` of each node in memory.
pub record Sq : Type 0 where
  pub front : Option ℕ
  pub back : Option ℕ
  pub next : ℕ → Option ℕ

abbrev pub set_front : Option ℕ → Sq → Sq
set_front p q = record q { front = p }

abbrev pub set_back : Option ℕ → Sq → Sq
set_back p q = record q { back = p }

abbrev pub set_next : ℕ → Option ℕ → Sq → Sq
set_next node p q = record q { next = update q.next node p }

abbrev pub init : Sq → Sq
init q = set_back none (set_front none q)

unfoldable pub add_back : ℕ → Option ℕ → Sq → Sq
add_back node (some back) q = set_back (some node) (set_next back (some node) q)
add_back node none q = set_front (some node) (set_back (some node) q)

unfoldable pub push_back : ℕ → Sq → Sq
unfolding add_back
push_back node q = let cleared = set_next node none q in add_back node cleared.back cleared

-- The first node of an empty queue is its last, too.
unfoldable pub back_if_alone : ℕ → Option ℕ → Sq → Sq
back_if_alone node none q = set_back (some node) q
back_if_alone node (some next) q = q

unfoldable pub push_front : ℕ → Sq → Sq
unfolding back_if_alone
push_front node q =
    let pushed = set_front (some node) (set_next node q.front q) in
    back_if_alone node (pushed.next node) pushed

unfoldable pub cut : ℕ → Option ℕ → Sq → Sq
cut front (some next) q = set_next front none q
cut front none q = set_back none q

unfoldable pub pop_front_at : Option ℕ → Sq → Option ℕ × Sq
unfolding cut
pop_front_at none q = (none, q)
pop_front_at (some front) q =
    let popped = set_front (q.next front) q in (some front, cut front popped.front popped)

unfoldable pub pop_front : Sq → Option ℕ × Sq
unfolding pop_front_at
pop_front q = pop_front_at q.front q

unfoldable pub insert_behind : ℕ → Option ℕ → ℕ → Sq → Sq
unfolding push_back
insert_behind prev none node q = push_back node q
insert_behind prev (some next) node q = set_next node (some next) (set_next prev (some node) q)

unfoldable pub insert : Option ℕ → ℕ → Sq → Sq
unfolding push_front insert_behind
insert none node q = push_front node q
insert (some prev) node q = insert_behind prev (q.next prev) node q

abbrev pub is_empty : Sq → Bool
is_empty q = elim q.front [ none ↦ true | some node ↦ false ]
