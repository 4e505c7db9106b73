-- ===== src/McsLock/Link.antt =====
-- A cpu in the queue stores the link of the one before it.
use workhorse_rt.Common.{
  ℕ, ◌≡◌, subst, ◌∙◌, true, false, none, some, List, [], ◌∷◌, arith, ◌==◌, has, Distinct,
  Bool-cases, inl, inr,
}
use workhorse_rt.McsLock.{NodeState, Pc, Lock, go, store_next}
use workhorse_rt.McsLock.Queue.{Waits, Behind, Heads, IsQueue, has_first, Waits-congr, Behind-congr}
use workhorse_rt.McsLock.Frame.{Outside-congr, has_other}

-- Where a cpu that is behind another can be: it is locked in either case.
pub data Behinds (s : Lock) (q : List ℕ) (i : ℕ) : Type 0 where
  links :
      (p : ℕ)
      → s.pc i ≡ Pc.linking p
      → has p q ≡ true
      → (s.nodes p).next ≡ none
      → (s.nodes i).state ≡ NodeState.locked
      → Behinds s q i
  spins : s.pc i ≡ Pc.spinning → (s.nodes i).state ≡ NodeState.locked → Behinds s q i

Waits-Behinds : {s : Lock} (h : ℕ) (rest : List ℕ) (i : ℕ) → Waits s h i → Behinds s (h ∷ rest) i
Waits-Behinds h rest i (Waits.unlinked a b c) = Behinds.links h a (has_first h rest) b c
Waits-Behinds h rest i (Waits.linked a b c) = Behinds.spins a c

Behinds-cons : {s : Lock} (h : ℕ) (q : List ℕ) (i : ℕ) → Behinds s q i → Behinds s (h ∷ q) i
Behinds-cons h q i (Behinds.links p a b c d) = Behinds.links p a (ground (arith, b)) c d
Behinds-cons h q i (Behinds.spins a b) = Behinds.spins a b

pub Behind-Behinds :
    (s : Lock) (h : ℕ) (rest : List ℕ) (i : ℕ)
    → Behind s h rest
    → has i rest ≡ true
    → Behinds s (h ∷ rest) i
Behind-Behinds s h [] i b e = ground (arith, e)
Behind-Behinds s h (x ∷ xs) i b e =
    let deeper = Behind-Behinds s x xs i b.1 in
    elim (Bool-cases (i == x)) [
      | inl same ↦
          let eq : x ≡ i = ground (arith, same) in
          subst (Behinds s (h ∷ x ∷ xs)) eq (Waits-Behinds h (x ∷ xs) x b.0)
      | inr other ↦ Behinds-cons h (x ∷ xs) i (deeper (ground (arith, e, other)))
    ]

has_other_sym : (i j : ℕ) (xs : List ℕ) → has i xs ≡ false → has j xs ≡ true → (j == i) ≡ false
has_other_sym i j xs a b = let e = has_other i j xs a b in ground (arith, e)

module _ (s : Lock) (i p : ℕ) (at : s.pc i ≡ Pc.linking p) where
  abbrev t : Lock
  t = go i Pc.spinning (store_next p (some i) s)

  next_other : (j : ℕ) → (p == j) ≡ false → (t.nodes j).next ≡ (s.nodes j).next
  next_other j e = ground (arith, e)

  state_same : (j : ℕ) → (t.nodes j).state ≡ (s.nodes j).state
  state_same j = ground arith

  pc_other : (j : ℕ) → (i == j) ≡ false → t.pc j ≡ s.pc j
  pc_other j e = ground (arith, e)

  linking_eq : (r : ℕ) → s.pc i ≡ Pc.linking r → r ≡ p
  linking_eq r e = ground (arith, at, e)

  -- The cpu that is not linked yet is right behind the one whose link it stores.
  Waits-link : (h : ℕ) → Waits s h i → Waits t h i × (h ≡ p)
  Waits-link h (Waits.unlinked a b c) =
      let e : h ≡ p = linking_eq h a in
      (Waits.linked (ground arith) (ground (arith, e)) (state_same i ∙ c), e)
  Waits-link h (Waits.linked a b c) = absurd (ground (arith, at, a))

  -- Those behind it are as they were.
  Behind-first :
      (h : ℕ) (xs : List ℕ)
      → h ≡ p
      → has h (i ∷ xs) ≡ false
      → has i xs ≡ false
      → Behind s i xs
      → Behind t i xs
  Behind-first h xs e d d' b =
      Behind-congr s t i xs (next_other i (ground (arith, e, d)))
        (record {
          pc = λ j a. pc_other j (has_other i j xs d' a);
          state = λ j a. state_same j;
          next = λ j a.
              let o : (h == j) ≡ false = has_other h j xs (ground (arith, d)) a in
              next_other j (ground (arith, o, e));
        })
        b

  -- The cpu whose link is stored is in the queue, and has none.
  pub unlinked_in :
      (h : ℕ) (rest : List ℕ)
      → Behinds s (h ∷ rest) i
      → (has p (h ∷ rest) ≡ true) × ((s.nodes p).next ≡ none)
  unlinked_in h rest (Behinds.links r a b c d) =
      let e : r ≡ p = linking_eq r a in
      subst (λ (v : ℕ). (has v (h ∷ rest) ≡ true) × ((s.nodes v).next ≡ none)) e (b, c)
  unlinked_in h rest (Behinds.spins a b) = absurd (ground (arith, at, a))

  pub Behind-link :
      (h : ℕ) (rest : List ℕ)
      → Distinct (h ∷ rest)
      → has i rest ≡ true
      → Behind s h rest
      → Behind t h rest
  Behind-link h [] d e b = absurd (ground (arith, e))
  Behind-link h (x ∷ xs) d e b =
      let deeper = Behind-link x xs d.1 in
      elim (Bool-cases (i == x)) [
        | inl same ↦ let eq : i ≡ x = ground (arith, same) in Behind-here h x xs eq d b
        | inr other ↦
            let in_rest : has i xs ≡ true = ground (arith, e, other) in
            let prev = unlinked_in x xs (Behind-Behinds s x xs i b.1 in_rest) in
            let apart : (h == p) ≡ false = has_other h p (x ∷ xs) d.0 prev.0 in
            (
              Waits-congr h x (pc_other x other) (state_same x)
                  (next_other h (ground (arith, apart))) b.0,
              deeper in_rest b.1,
            )
      ]
    where
      Behind-here :
          (h x : ℕ) (xs : List ℕ)
          → i ≡ x
          → Distinct (h ∷ x ∷ xs)
          → Behind s h (x ∷ xs)
          → Behind t h (x ∷ xs)
      Behind-here h x xs eq =
          subst (λ (v : ℕ). Distinct (h ∷ v ∷ xs) → Behind s h (v ∷ xs) → Behind t h (v ∷ xs)) eq
            (λ d b. let w = Waits-link h b.0 in (w.0, Behind-first h xs w.1 d.0 d.1.0 b.1))

  Heads-link :
      (h : ℕ) (rest : List ℕ)
      → (i == h) ≡ false
      → (s.nodes p).next ≡ none
      → Heads s h rest
      → Heads t h rest
  Heads-link h rest o n (Heads.freed a b) = Heads.freed (pc_other h o ∙ a) (state_same h ∙ b)
  Heads-link h rest o n (Heads.holds a) = Heads.holds (pc_other h o ∙ a)
  Heads-link h rest o n (Heads.swaps a) = Heads.swaps (pc_other h o ∙ a)
  Heads-link h rest o n (Heads.awaits a b) = Heads.awaits (pc_other h o ∙ a) b
  Heads-link h rest o n (Heads.hands m a b) =
      let apart : (p == h) ≡ false = ground (arith, n, b) in
      Heads.hands m (pc_other h o ∙ a) (next_other h apart ∙ b)

  pub link-IsQueue :
      (h : ℕ) (rest : List ℕ) → has i rest ≡ true → IsQueue s (h ∷ rest) → IsQueue t (h ∷ rest)
  link-IsQueue h rest e is =
      let prev = unlinked_in h rest (Behind-Behinds s h rest i is.queued.1 e) in
      let apart : (h == i) ≡ false = has_other h i rest is.distinct.0 e in
      record {
        distinct = is.distinct;
        tail = is.tail;
        queued = (
          Heads-link h rest (ground (arith, apart)) prev.1 is.queued.0,
          Behind-link h rest is.distinct e is.queued.1,
        );
        outside = λ j out.
            let own : (i == j) ≡ false = has_other_sym j i (h ∷ rest) out (ground (arith, e)) in
            let linked : (p == j) ≡ false = has_other_sym j p (h ∷ rest) out prev.0 in
            Outside-congr j (pc_other j own) (state_same j) (next_other j linked)
              (is.outside j out);
      }
