-- ===== src/McsLock.antt =====
-- include/lib/mcsLock.h: a lock whose waiters stand in a queue, each spinning on its own node. A cpu
-- has one node, of its own number, which it clears before each use. One step is one atomic access;
-- the accesses of all cpus are in one order, as those of stdatomic.h are by default.
pub mod Queue
pub mod Frame
pub mod Enter
pub mod Link
pub mod Leave
pub mod Moves
pub mod Safety
mod Tests
use workhorse_rt.Common.{
  ℕ, Bool, true, false, Option, none, some, List, [], ◌∷◌, ◌==◌, if◌then◌else◌, update,
}

-- MCS_LOCKED and MCS_UNLOCKED; no cpu writes MCS_PAUSED.
pub data NodeState : Type 0 where
  locked unlocked : NodeState

pub record McsNode : Type 0 where
  pub next : Option ℕ
  pub state : NodeState

-- Where a cpu stands in the functions of the lock, with the locals that are live there.
pub data Pc : Type 0 where
  idle : Pc  -- outside, with any contents in the node
  cleared : Pc  -- after __mcsNodeInit
  linking : (prev : ℕ) → Pc  -- in __mcsAcquire, before the store to `prev->next`
  spinning : Pc  -- in the loop of __mcsAcquire
  holding : Pc  -- has the lock
  swapping : Pc  -- in __mcsRelease, before the compare-exchange
  awaiting : Pc  -- in the loop of __mcsRelease
  handing : (next : ℕ) → Pc  -- before the store to `nextPtr->state`

pub record Lock : Type 0 where
  pub tail : Option ℕ
  pub nodes : ℕ → McsNode
  pub pc : ℕ → Pc

-- What a cpu with a cleared node calls.
pub data Call : Type 0 where
  acquire trylock : Call

abbrev pub go : ℕ → Pc → Lock → Lock
go i p s = record s { pc = update s.pc i p }

abbrev pub set_tail : Option ℕ → Lock → Lock
set_tail t s = record s { tail = t }

abbrev pub store_next : ℕ → Option ℕ → Lock → Lock
store_next i n s = record s { nodes = update s.nodes i (record (s.nodes i) { next = n }) }

abbrev pub store_state : ℕ → NodeState → Lock → Lock
store_state i v s = record s { nodes = update s.nodes i (record (s.nodes i) { state = v }) }

abbrev pub clear : ℕ → Lock → Lock
clear i s = record s { nodes = update s.nodes i (record { next = none; state = NodeState.locked }) }

abbrev pub is_tail : ℕ → Option ℕ → Bool
is_tail i none = false
is_tail i (some p) = p == i

-- The exchange of __mcsAcquire, by what it reads.
unfoldable pub exchange : ℕ → Option ℕ → Lock → Lock
exchange i none s = go i Pc.holding (set_tail (some i) s)
exchange i (some prev) s = go i (Pc.linking prev) (set_tail (some i) s)

-- The compare-exchange of __mcsTrylock.
unfoldable pub try_exchange : ℕ → Option ℕ → Lock → Lock
try_exchange i none s = go i Pc.holding (set_tail (some i) s)
try_exchange i (some prev) s = go i Pc.idle s

unfoldable pub enter_by : Call → ℕ → Lock → Lock
unfolding exchange try_exchange
enter_by Call.acquire i s = exchange i s.tail s
enter_by Call.trylock i s = try_exchange i s.tail s

unfoldable pub test_state : ℕ → NodeState → Lock → Lock
test_state i NodeState.unlocked s = go i Pc.holding s
test_state i NodeState.locked s = s

-- The first load of __mcsRelease, and that of its loop.
unfoldable pub load_next : ℕ → Option ℕ → Lock → Lock
load_next i none s = go i Pc.swapping s
load_next i (some n) s = go i (Pc.handing n) s

unfoldable pub await_next : ℕ → Option ℕ → Lock → Lock
await_next i none s = s
await_next i (some n) s = go i (Pc.handing n) s

unfoldable pub try_leave : ℕ → Bool → Lock → Lock
try_leave i true s = go i Pc.idle (set_tail none s)
try_leave i false s = go i Pc.awaiting s

-- The next access of cpu `i`; `c` is what it calls if its node is cleared.
unfoldable pub move : Call → ℕ → Pc → Lock → Lock
unfolding enter_by test_state load_next await_next try_leave
move c i Pc.idle s = go i Pc.cleared (clear i s)
move c i Pc.cleared s = enter_by c i s
move c i (Pc.linking prev) s = go i Pc.spinning (store_next prev (some i) s)
move c i Pc.spinning s = test_state i (s.nodes i).state s
move c i Pc.holding s = load_next i (s.nodes i).next s
move c i Pc.swapping s = try_leave i (is_tail i s.tail) s
move c i Pc.awaiting s = await_next i (s.nodes i).next s
move c i (Pc.handing n) s = go i Pc.idle (store_state n NodeState.unlocked s)

unfoldable pub access : Call → ℕ → Lock → Lock
unfolding move
access c i s = move c i (s.pc i) s

-- The cpus take turns in any order.
unfoldable pub run : List (Call × ℕ) → Lock → Lock
unfolding access
run [] s = s
run ((c, i) ∷ rest) s = run rest (access c i s)

-- INITIALIZE_MCSLOCK, with no cpu near the lock.
abbrev pub init : Lock
init = record {
  tail = none;
  nodes = λ i. record { next = none; state = NodeState.locked };
  pc = λ i. Pc.idle;
}

-- From the end of __mcsAcquire to the end of __mcsRelease.
abbrev pub has_lock : Pc → Bool
has_lock Pc.holding = true
has_lock Pc.swapping = true
has_lock Pc.awaiting = true
has_lock (Pc.handing n) = true
has_lock _ = false
