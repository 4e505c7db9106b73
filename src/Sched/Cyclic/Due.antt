-- ===== src/Sched/Cyclic/Due.antt =====
-- The frame that the loop of kSchedTaskPopCyclic finds.
use workhorse_rt.Common.{
  ℕ, zero, suc, ◌+◌, ◌≤◌, ◌<◌, ◌≡◌, refl, arith, Bool, true, false, Option, none, some, ◌==◌,
  Bool-cases, inl, inr,
}
use workhorse_rt.Kernel.{Task}
use workhorse_rt.Kernel.Monad.{is_ready}
use workhorse_rt.Sched.Cyclic.{Frames, slot, ready_frame}

-- The owner of a frame is ready.
unfoldable pub is_due : (ℕ → Task) → Option ℕ → Bool
is_due tasks none = false
is_due tasks (some t) = is_ready (tasks t).state

-- What the loop of kSchedTaskPopCyclic finds among the `rounds` frames from the `i`-th after the clock.
pub data Next (tasks : ℕ → Task) (frames : Frames) (n clock rounds i : ℕ) (r : Option (ℕ × ℕ))
    : Type 0 where
  nothing :
      ((j : ℕ) → i ≤ j → j < i + rounds → is_due tasks (frames (slot n clock j)) ≡ false)
      → r ≡ none
      → Next tasks frames n clock rounds i r
  frame :
      (j t : ℕ)
      → i ≤ j
      → j < i + rounds
      → frames (slot n clock j) ≡ some t
      → is_ready (tasks t).state ≡ true
      → ((e : ℕ) → i ≤ e → e < j → is_due tasks (frames (slot n clock e)) ≡ false)
      → r ≡ some (slot n clock j, t)
      → Next tasks frames n clock rounds i r

module _ (tasks : ℕ → Task) (frames : Frames) (n clock : ℕ) where
  one_more :
      (i j : ℕ)
      → is_due tasks (frames (slot n clock i)) ≡ false
      → i ≤ j
      → (i + 1 ≤ j → is_due tasks (frames (slot n clock j)) ≡ false)
      → is_due tasks (frames (slot n clock j)) ≡ false
  one_more i j idle from rest = elim (Bool-cases (i == j)) [
    | inl here ↦ let e : j ≡ i = ground arith in rw e idle
    | inr later ↦ rest (ground arith)
  ]

  Next-extend :
      (rounds i : ℕ) (r : Option (ℕ × ℕ))
      → is_due tasks (frames (slot n clock i)) ≡ false
      → Next tasks frames n clock rounds (i + 1) r
      → Next tasks frames n clock (suc rounds) i r
  Next-extend rounds i r idle (Next.nothing h e) =
      Next.nothing (λ j from below. one_more i j idle from (λ later. h j later (omega arith))) e
  Next-extend rounds i r idle (Next.frame j t from below owns ready earlier e) =
      Next.frame j t (omega arith) (omega arith) owns ready
        (λ u from' below'. one_more i u idle from' (λ later. earlier u later below')) e

  ready_here :
      (rounds i : ℕ) (o : Option ℕ)
      → frames (slot n clock i) ≡ o
      → Next tasks frames n clock rounds (i + 1) (ready_frame tasks frames n clock rounds (i + 1))
      → Next tasks frames n clock (suc rounds) i (ready_frame tasks frames n clock (suc rounds) i)
  unfolding ready_frame is_due
  ready_here rounds i none e rest =
      rw (e, ready_frame)
        (Next-extend rounds i (ready_frame tasks frames n clock rounds (i + 1))
          (rw (e, is_due) refl) rest)
  ready_here rounds i (some t) e rest = elim (Bool-cases (is_ready (tasks t).state)) [
    | inl ready ↦
        rw (e, ready_frame)
          (rw ready (
            Next.frame i t (omega arith) (omega arith) e ready (λ u a b. absurd (omega arith))
              refl))
    | inr waits ↦
        rw (e, ready_frame)
          (rw waits (
            Next-extend rounds i (ready_frame tasks frames n clock rounds (i + 1))
              (rw (e, is_due) waits) rest))
  ]

  pub ready_frame-Next :
      (rounds i : ℕ)
      → Next tasks frames n clock rounds i (ready_frame tasks frames n clock rounds i)
  unfolding ready_frame
  ready_frame-Next zero i = Next.nothing (λ j from below. absurd (omega arith)) refl
  ready_frame-Next (suc rounds) i =
      ready_here rounds i (frames (slot n clock i)) refl (ready_frame-Next rounds (i + 1))
