-- ===== src/McsLock/Leave.antt =====
-- The cpu at the head gives the lock back: to nobody, or to the cpu behind it.
use workhorse_rt.Common.{
  ℕ, ◌≡◌, ◌≢◌, refl, ◌∙◌, ap, false, none, some, List, [], ◌∷◌, arith, ◌==◌, has, Bool-cases, inl,
  inr,
}
use workhorse_rt.McsLock.{NodeState, Pc, Lock, go, set_tail, store_state}
use workhorse_rt.McsLock.Queue.{last_of, Waits, Behind, Heads, Outside, IsQueue, Behind-congr}
use workhorse_rt.McsLock.Frame.{Outside-congr, has_other}

-- Nobody is behind it.
pub leave-IsQueue :
    (h : ℕ) (s : Lock) → IsQueue s (h ∷ []) → IsQueue (go h Pc.idle (set_tail none s)) []
leave-IsQueue h s is = record {
  distinct = tt;
  tail = refl;
  queued = tt;
  outside = λ j out. elim (Bool-cases (h == j)) [
    | inl e ↦ Outside.away (ground (arith, e))
    | inr e ↦ Outside-congr j (ground (arith, e)) refl refl (is.outside j (ground (arith, e)))
  ];
}

-- The last of a queue is the head only where the head is alone.
pub last-head : (h : ℕ) (rest : List ℕ) → has h rest ≡ false → last_of h rest ≡ h → rest ≡ []
last-head h [] d e = refl
last-head h (x ∷ xs) d e = absurd (last_in h x xs d e)
  where
    last_in : (h x : ℕ) (xs : List ℕ) → has h (x ∷ xs) ≡ false → last_of x xs ≢ h
    last_in h x [] d e = ground (arith, d, e)
    last_in h x (y ∷ ys) d e = last_in h y ys (ground (arith, d)) e

-- The cpu behind the head, once it is linked, gets the lock.
pub hand-IsQueue :
    (h n : ℕ) (s : Lock) (rest : List ℕ)
    → (s.nodes h).next ≡ some n
    → IsQueue s (h ∷ n ∷ rest)
    → IsQueue (go h Pc.idle (store_state n NodeState.unlocked s)) (n ∷ rest)
hand-IsQueue h n s rest e is = record {
  distinct = is.distinct.1;
  tail = is.tail;
  queued = (
    freed is.queued.1.0,
    Behind-congr s t n rest (next_same n)
        (record {
          pc = λ j a. pc_other j (has_other h j rest (ground (arith, is.distinct.0)) a);
          state = λ j a. state_other j (has_other n j rest is.distinct.1.0 a);
          next = λ j a. next_same j;
        })
        is.queued.1.1,
  );
  outside = λ j out. elim (Bool-cases (h == j)) [
    | inl a ↦ Outside.away (ground (arith, a))
    | inr a ↦
        Outside-congr j (pc_other j a) (state_other j (ground (arith, out))) (next_same j)
          (is.outside j (ground (arith, out, a)))
  ];
}
  where
    t : Lock
    t = go h Pc.idle (store_state n NodeState.unlocked s)

    next_same : (j : ℕ) → (t.nodes j).next ≡ (s.nodes j).next
    next_same j = ground arith

    pc_other : (j : ℕ) → (h == j) ≡ false → t.pc j ≡ s.pc j
    pc_other j a = ground (arith, a)

    state_other : (j : ℕ) → (n == j) ≡ false → (t.nodes j).state ≡ (s.nodes j).state
    state_other j a = ground (arith, a)

    freed : Waits s h n → Heads t n rest
    freed (Waits.unlinked a b c) = absurd (ground (arith, b, e))
    freed (Waits.linked a b c) =
        Heads.freed (pc_other n (ground (arith, is.distinct.0)) ∙ a) (ground arith)

-- The link of the head leads to the cpu behind it.
pub Behind-next :
    (s : Lock) (h n : ℕ) (rest : List ℕ)
    → Behind s h rest
    → (s.nodes h).next ≡ some n
    → (xs : List ℕ) × (rest ≡ n ∷ xs)
Behind-next s h n [] b e = absurd (ground (arith, b, e))
Behind-next s h n (x ∷ xs) b e = (xs, ap (λ (v : ℕ). v ∷ xs) (first b.0))
  where
    first : Waits s h x → x ≡ n
    first (Waits.unlinked a b c) = absurd (ground (arith, b, e))
    first (Waits.linked a b c) = ground (arith, b, e)
