-- ===== src/McsLock/Queue.antt =====
-- The queue of cpus behind an MCS lock, first the one that has it or gets it next.
use workhorse_rt.Common.{
  ℕ, ◌≡◌, ◌≢◌, ◌∙◌, true, false, Option, none, some, List, [], ◌∷◌, ◌++◌, arith, has, Distinct,
}
use workhorse_rt.McsLock.{NodeState, Pc, Lock}

abbrev pub last_of : ℕ → List ℕ → ℕ
last_of p [] = p
last_of p (x ∷ xs) = last_of x xs

abbrev pub last : List ℕ → Option ℕ
last [] = none
last (x ∷ xs) = some (last_of x xs)

-- A cpu behind `p`: it has not stored its link yet, or it spins and `p` points to it.
pub data Waits (s : Lock) (p i : ℕ) : Type 0 where
  unlinked :
      s.pc i ≡ Pc.linking p
      → (s.nodes p).next ≡ none
      → (s.nodes i).state ≡ NodeState.locked
      → Waits s p i
  linked :
      s.pc i ≡ Pc.spinning
      → (s.nodes p).next ≡ some i
      → (s.nodes i).state ≡ NodeState.locked
      → Waits s p i

-- The cpus behind `p`, to the end of the queue.
abbrev pub Behind : Lock → ℕ → List ℕ → Type 0
Behind s p [] = (s.nodes p).next ≡ none
Behind s p (x ∷ xs) = Waits s p x × Behind s x xs

-- The cpu at the head, with those behind it.
pub data Heads (s : Lock) (h : ℕ) (rest : List ℕ) : Type 0 where
  freed : s.pc h ≡ Pc.spinning → (s.nodes h).state ≡ NodeState.unlocked → Heads s h rest
  holds : s.pc h ≡ Pc.holding → Heads s h rest
  swaps : s.pc h ≡ Pc.swapping → Heads s h rest
  awaits : s.pc h ≡ Pc.awaiting → rest ≢ [] → Heads s h rest
  hands : (n : ℕ) → s.pc h ≡ Pc.handing n → (s.nodes h).next ≡ some n → Heads s h rest

abbrev pub Queued : Lock → List ℕ → Type 0
Queued s [] = Unit
Queued s (h ∷ rest) = Heads s h rest × Behind s h rest

-- A cpu that is not in the queue.
pub data Outside (s : Lock) (i : ℕ) : Type 0 where
  away : s.pc i ≡ Pc.idle → Outside s i
  cleared :
      s.pc i ≡ Pc.cleared
      → (s.nodes i).next ≡ none
      → (s.nodes i).state ≡ NodeState.locked
      → Outside s i

pub record IsQueue (s : Lock) (q : List ℕ) : Type 0 where
  pub distinct : Distinct q
  pub tail : s.tail ≡ last q
  pub queued : Queued s q
  pub outside : (i : ℕ) → has i q ≡ false → Outside s i

-- Two locks that agree on what is said of the cpus in a list.
pub record Agree (s t : Lock) (xs : List ℕ) : Type 0 where
  pub pc : (j : ℕ) → has j xs ≡ true → t.pc j ≡ s.pc j
  pub state : (j : ℕ) → has j xs ≡ true → (t.nodes j).state ≡ (s.nodes j).state
  pub next : (j : ℕ) → has j xs ≡ true → (t.nodes j).next ≡ (s.nodes j).next

pub Agree-tail : {s t : Lock} {x : ℕ} {xs : List ℕ} → Agree s t (x ∷ xs) → Agree s t xs
Agree-tail a = record {
  pc = λ j h. a.pc j (ground (arith, h));
  state = λ j h. a.state j (ground (arith, h));
  next = λ j h. a.next j (ground (arith, h));
}

pub has_first : (x : ℕ) (xs : List ℕ) → has x (x ∷ xs) ≡ true
has_first x xs = ground arith

pub Waits-congr :
    {s t : Lock} (p i : ℕ)
    → t.pc i ≡ s.pc i
    → (t.nodes i).state ≡ (s.nodes i).state
    → (t.nodes p).next ≡ (s.nodes p).next
    → Waits s p i
    → Waits t p i
Waits-congr p i a b c (Waits.unlinked d e f) = Waits.unlinked (a ∙ d) (c ∙ e) (b ∙ f)
Waits-congr p i a b c (Waits.linked d e f) = Waits.linked (a ∙ d) (c ∙ e) (b ∙ f)

-- The queue behind a cpu depends on the link of that cpu and on the cpus in the queue.
pub Behind-congr :
    (s t : Lock) (p : ℕ) (xs : List ℕ)
    → (t.nodes p).next ≡ (s.nodes p).next
    → Agree s t xs
    → Behind s p xs
    → Behind t p xs
Behind-congr s t p [] e a b = e ∙ b
Behind-congr s t p (x ∷ xs) e a b = (
  Waits-congr p x (a.pc x (has_first x xs)) (a.state x (has_first x xs)) e b.0,
  Behind-congr s t x xs (a.next x (has_first x xs)) (Agree-tail a) b.1,
)

-- A cpu at the end of the queue.
pub Behind-join :
    (s t : Lock) (p i : ℕ) (xs : List ℕ)
    → (t.nodes p).next ≡ (s.nodes p).next
    → Agree s t xs
    → Behind s p xs
    → t.pc i ≡ Pc.linking (last_of p xs)
    → (t.nodes i).state ≡ NodeState.locked
    → (t.nodes i).next ≡ none
    → Behind t p (xs ++ i ∷ [])
Behind-join s t p i [] e a b at state next = (Waits.unlinked at (e ∙ b) state, next)
Behind-join s t p i (x ∷ xs) e a b at state next = (
  Waits-congr p x (a.pc x (has_first x xs)) (a.state x (has_first x xs)) e b.0,
  Behind-join s t x i xs (a.next x (has_first x xs)) (Agree-tail a) b.1 at state next,
)
