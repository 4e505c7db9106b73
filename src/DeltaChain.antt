-- ===== src/DeltaChain.antt =====
-- include/lib/dsa/deltaChain.h: a queue of timers in which each node holds the ticks between the
-- one before it and itself. Nodes are named by the pointer of the object that embeds them; the
-- links of the dq_t of include/lib/dsa/dq.h are the order of the list `dq`.
pub mod Times
pub mod Insert
pub mod Tick
pub mod Pop
pub mod Epoch
pub mod Order
mod Tests
use workhorse_rt.Common.{
  ℕ, ◌+◌, ◌-◌, ◌%◌, ◌^◌, ◌≡◌, Bool, true, false, Option, none, some, List, [], ◌∷◌, ◌==◌, ltb,
  if◌then◌else◌, update,
}

abbrev pub u32 : ℕ → ℕ
u32 n = n % 2 ^ 32

pub record DeltaNode : Type 0 where
  pub expected_epoch : ℕ
  pub delta : ℕ

-- The objects that embed a node, by pointer.
abbrev pub Nodes : Type 0
Nodes = ℕ → DeltaNode

pub record DeltaChain : Type 0 where
  pub current_epoch : ℕ
  pub dq : List ℕ

abbrev pub set_delta : Nodes → ℕ → ℕ → Nodes
set_delta nodes p d = update nodes p (record (nodes p) { delta = d })

abbrev pub set_expected : Nodes → ℕ → ℕ → Nodes
set_expected nodes p e = update nodes p (record (nodes p) { expected_epoch = e })

-- dqInsertPrev on the order of the queue: behind `prev`, or at the front without one.
unfoldable pub insert_prev : Option ℕ → ℕ → List ℕ → List ℕ
insert_prev none node xs = node ∷ xs
insert_prev (some prev) node [] = []
insert_prev (some prev) node (x ∷ xs) =
    if x == prev then x ∷ node ∷ xs else x ∷ insert_prev (some prev) node xs

-- Where the loop of deltaChainInsert stops.
pub record Place : Type 0 where
  pub nodes : Nodes
  pub delta : ℕ
  pub prev : Option ℕ

abbrev place : Nodes → ℕ → Option ℕ → Place
place nodes delta prev = record { nodes = nodes; delta = delta; prev = prev }

unfoldable pub find_place : Nodes → ℕ → Option ℕ → List ℕ → Place
find_place nodes delta prev [] = place nodes delta prev
find_place nodes delta prev (cur ∷ rest) =
    let further = find_place nodes (delta - (nodes cur).delta) (some cur) rest in
    if ltb delta (nodes cur).delta
    then place (set_delta nodes cur ((nodes cur).delta - delta)) delta prev
    else further

-- An operation gives the new nodes and the new chain.
unfoldable pub insert : Nodes → DeltaChain → ℕ → ℕ → Nodes × DeltaChain
insert nodes chain node delta =
    let dated = set_expected nodes node (u32 (chain.current_epoch + delta)) in
    let found = find_place dated delta none chain.dq in
    (
      set_delta found.nodes node found.delta,
      record chain { dq = insert_prev found.prev node chain.dq },
    )

unfoldable pub tick_nodes : Nodes → List ℕ → Nodes
tick_nodes nodes [] = nodes
tick_nodes nodes (p ∷ rest) =
    let further = tick_nodes nodes rest in
    if (nodes p).delta == 0 then further else set_delta nodes p ((nodes p).delta - 1)

unfoldable pub tick : Nodes → DeltaChain → Nodes × DeltaChain
tick nodes chain =
    (tick_nodes nodes chain.dq, record chain { current_epoch = u32 (chain.current_epoch + 1) })

pop_expired_from : Nodes → DeltaChain → List ℕ → Option ℕ × DeltaChain
pop_expired_from nodes chain [] = (none, chain)
pop_expired_from nodes chain (p ∷ rest) =
    if ltb 0 (nodes p).delta then (none, chain) else (some p, record chain { dq = rest })

unfoldable pub pop_expired : Nodes → DeltaChain → Option ℕ × DeltaChain
unfolding pop_expired_from
pop_expired nodes chain = pop_expired_from nodes chain chain.dq

-- The next node takes over what the popped one had left.
hand_on : Nodes → ℕ → List ℕ → Nodes
hand_on nodes p [] = nodes
hand_on nodes p (next ∷ rest) = set_delta nodes next (u32 ((nodes next).delta + (nodes p).delta))

pop_from : Nodes → DeltaChain → List ℕ → Option ℕ × Nodes × DeltaChain
pop_from nodes chain [] = (none, nodes, chain)
pop_from nodes chain (p ∷ rest) = (some p, hand_on nodes p rest, record chain { dq = rest })

unfoldable pub pop : Nodes → DeltaChain → Option ℕ × Nodes × DeltaChain
unfolding pop_from hand_on
pop nodes chain = pop_from nodes chain chain.dq

abbrev first : List ℕ → Option ℕ
first [] = none
first (p ∷ rest) = some p

unfoldable pub peek : DeltaChain → Option ℕ
peek chain = first chain.dq

unfoldable pub is_empty : DeltaChain → Bool
is_empty chain = elim chain.dq [ [] ↦ true | _ ∷ _ ↦ false ]

unfoldable pub time_until : Nodes → DeltaChain → ℕ → ℕ
time_until nodes chain p = u32 ((nodes p).expected_epoch + 2 ^ 32 - chain.current_epoch)
