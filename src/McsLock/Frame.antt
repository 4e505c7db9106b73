-- ===== src/McsLock/Frame.antt =====
-- What a change of one node and of one cpu's place in the code leaves of the queue.
use workhorse_rt.Common.{
  ℕ, ◌≡◌, refl, ◌∙◌, true, false, List, [], ◌∷◌, arith, ◌==◌, has, Bool-cases, inl, inr,
}
use workhorse_rt.McsLock.{Pc, Lock, go}
use workhorse_rt.McsLock.Queue.{Heads, Outside, IsQueue, Agree, Behind-congr}

pub Outside-congr :
    {s t : Lock} (i : ℕ)
    → t.pc i ≡ s.pc i
    → (t.nodes i).state ≡ (s.nodes i).state
    → (t.nodes i).next ≡ (s.nodes i).next
    → Outside s i
    → Outside t i
Outside-congr i a b c (Outside.away d) = Outside.away (a ∙ d)
Outside-congr i a b c (Outside.cleared d e f) = Outside.cleared (a ∙ d) (c ∙ e) (b ∙ f)

pub Heads-congr :
    {s t : Lock} (h : ℕ) (xs : List ℕ)
    → t.pc h ≡ s.pc h
    → (t.nodes h).state ≡ (s.nodes h).state
    → (t.nodes h).next ≡ (s.nodes h).next
    → Heads s h xs
    → Heads t h xs
Heads-congr h xs a b c (Heads.freed d e) = Heads.freed (a ∙ d) (b ∙ e)
Heads-congr h xs a b c (Heads.holds d) = Heads.holds (a ∙ d)
Heads-congr h xs a b c (Heads.swaps d) = Heads.swaps (a ∙ d)
Heads-congr h xs a b c (Heads.awaits d e) = Heads.awaits (a ∙ d) e
Heads-congr h xs a b c (Heads.hands n d e) = Heads.hands n (a ∙ d) (c ∙ e)

-- Another cpu's place is its own.
pub go_other : (i j : ℕ) (p : Pc) (s : Lock) → (i == j) ≡ false → (go i p s).pc j ≡ s.pc j
go_other i j p s h = ground (arith, h)

pub go_same : (i : ℕ) (p : Pc) (s : Lock) → (go i p s).pc i ≡ p
go_same i p s = ground arith

pub has_other : (i j : ℕ) (xs : List ℕ) → has i xs ≡ false → has j xs ≡ true → (i == j) ≡ false
has_other i j [] a b = cc
has_other i j (x ∷ xs) a b =
    let more = λ (p : has i xs ≡ false) (q : has j xs ≡ true). has_other i j xs p q in
    elim (Bool-cases (j == x)) [
      | inl e ↦ ground (arith, a, e)
      | inr e ↦ more (ground (arith, a)) (ground (arith, b, e))
    ]

-- Two locks that differ in the node and the place of one cpu at most, and in the tail.
pub record Others (i : ℕ) (s t : Lock) : Type 0 where
  pub pc : (j : ℕ) → (i == j) ≡ false → t.pc j ≡ s.pc j
  pub state : (j : ℕ) → (i == j) ≡ false → (t.nodes j).state ≡ (s.nodes j).state
  pub next : (j : ℕ) → (i == j) ≡ false → (t.nodes j).next ≡ (s.nodes j).next

pub Others-Agree :
    (i : ℕ) (s t : Lock) (xs : List ℕ) → has i xs ≡ false → Others i s t → Agree s t xs
Others-Agree i s t xs out o = record {
  pc = λ j h. o.pc j (has_other i j xs out h);
  state = λ j h. o.state j (has_other i j xs out h);
  next = λ j h. o.next j (has_other i j xs out h);
}

pub Others-go : (i : ℕ) (p : Pc) (s : Lock) → Others i s (go i p s)
Others-go i p s = record { pc = λ j e. go_other i j p s e; state = λ j e. refl; next = λ j e. refl }

-- The cpu at the head changes its place, and stays.
pub go-IsQueue :
    (h : ℕ) (p : Pc) (s : Lock) (rest : List ℕ)
    → IsQueue s (h ∷ rest)
    → Heads (go h p s) h rest
    → IsQueue (go h p s) (h ∷ rest)
go-IsQueue h p s rest q now = record {
  distinct = q.distinct;
  tail = q.tail;
  queued = (
    now,
    Behind-congr s (go h p s) h rest refl
        (Others-Agree h s (go h p s) rest q.distinct.0 (Others-go h p s)) q.queued.1,
  );
  outside =
      λ j out. Outside-congr j (go_other h j p s (ground (arith, out))) refl refl (q.outside j out);
}
