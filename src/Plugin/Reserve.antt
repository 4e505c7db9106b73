-- ===== src/Plugin/Reserve.antt =====
-- The frames of the cyclic schedule that the threads of a cpu have taken: no two threads share one.
use workhorse_rt.Common.{
  ℕ, zero, suc, ◌+◌, ◌-◌, ◌≤◌, ◌<◌, ◌≡◌, refl, ◌∙◌, Bool, true, false, ◌&&◌, ◌||◌, Option, none,
  some, arith, ltb, leb, ◌==◌, Bool-cases, inl, inr,
}
use workhorse_rt.Bitmap.{Bitmap, test_bit, set_bit, ffs}
use workhorse_rt.Bitmap.Bytes.{IsBytes, set_bit-IsBytes, test_bit-set_bit}
use workhorse_rt.Bitmap.Scan.{IsLowest, ffs-IsLowest}
use workhorse_rt.Sched.Cyclic.Frames.{shorter}
use workhorse_rt.Plugin.{overlaps, reserve}

-- What the first loop says of the frames from `low` on.
pub data Overlap (n : ℕ) (own : Bitmap) (low : ℕ) (bmp : Bitmap) (r : Option Bool) : Type 0 where
  clash :
      (i : ℕ)
      → i < n
      → test_bit own i ≡ true
      → test_bit bmp i ≡ true
      → r ≡ some true
      → Overlap n own low bmp r
  free :
      ((i : ℕ) → low ≤ i → i < n → test_bit own i ≡ true → test_bit bmp i ≡ false)
      → r ≡ some false
      → Overlap n own low bmp r

module _ (n : ℕ) (own bmp : Bitmap) where
  free_from :
      (low bit i : ℕ)
      → IsLowest own n low (some bit)
      → test_bit bmp bit ≡ false
      → ((j : ℕ) → bit + 1 ≤ j → j < n → test_bit own j ≡ true → test_bit bmp j ≡ false)
      → low ≤ i
      → i < n
      → test_bit own i ≡ true
      → test_bit bmp i ≡ false
  free_from low bit i h clear rest from below set = elim (Bool-cases (i == bit)) [
    | inl here ↦ let e : i ≡ bit = ground arith in rw e clear
    | inr other ↦ elim (Bool-cases (ltb i bit)) [
      | inl under ↦ absurd (cc (set, h.3 i from (ground arith)))
      | inr above ↦ rest i (ground arith) below set
    ]
  ]

  overlaps_round :
      (fuel low : ℕ) (r : Option ℕ)
      → ffs own n low ≡ r
      → IsLowest own n low r
      → ((bit : ℕ) → r ≡ some bit → Overlap n own (bit + 1) bmp (overlaps n own fuel (bit + 1) bmp))
      → Overlap n own low bmp (overlaps n own (suc fuel) low bmp)
  unfolding overlaps
  overlaps_round fuel low none e h rest =
      Overlap.free (λ i from below set. absurd (cc (set, h i from below))) (rw (e, overlaps) refl)
  overlaps_round fuel low (some bit) e h rest = elim (Bool-cases (test_bit bmp bit)) [
    | inl taken ↦ Overlap.clash bit h.1 h.2 taken (rw (e, overlaps) (rw taken refl))
    | inr clear ↦ elim (rest bit refl) [
      | Overlap.clash i below set both r ↦
          Overlap.clash i below set both (rw (e, overlaps) (rw clear r))
      | Overlap.free f r ↦
          Overlap.free (λ i. free_from low bit i h clear f) (rw (e, overlaps) (rw clear r))
    ]
  ]

  pub overlaps-Overlap :
      (fuel low : ℕ) → n - low < fuel → Overlap n own low bmp (overlaps n own fuel low bmp)
  overlaps-Overlap zero low h = absurd (omega arith)
  overlaps-Overlap (suc fuel) low h =
      overlaps_round fuel low (ffs own n low) refl (ffs-IsLowest own n low) (λ bit e.
        overlaps-Overlap fuel (bit + 1)
          (shorter n own fuel low bit (ffs own n low) (ffs-IsLowest own n low) e h))

-- Frame `i` is one of those from `low` on that `own` has.
abbrev pub claims : ℕ → Bitmap → ℕ → ℕ → Bool
claims n own low i = leb low i && (ltb i n && test_bit own i)

abbrev pub Reserved : ℕ → Bitmap → ℕ → Bitmap → Option Bitmap → Type 0
Reserved n own low bmp r =
    (after : Bitmap) × (r ≡ some after)
    × IsBytes after
    × ((i : ℕ) → test_bit after i ≡ (claims n own low i || test_bit bmp i))

claims-none :
    (n : ℕ) (own : Bitmap) (low i : ℕ) → IsLowest own n low none → claims n own low i ≡ false
claims-none n own low i h = elim (Bool-cases (leb low i)) [
  | inr under ↦ rw under refl
  | inl from ↦ elim (Bool-cases (ltb i n)) [
    | inr above ↦ rw (from, above) refl
    | inl below ↦
        let clear : test_bit own i ≡ false = h i (ground arith) (ground arith) in
        rw (from, below, clear) refl
  ]
]

claims-some :
    (n : ℕ) (own bmp : Bitmap) (low bit i : ℕ)
    → IsBytes bmp
    → IsLowest own n low (some bit)
    → (claims n own (bit + 1) i || test_bit (set_bit bmp bit) i)
      ≡ (claims n own low i || test_bit bmp i)
claims-some n own bmp low bit i b h = elim (Bool-cases (bit == i)) [
  | inl here ↦
      let e : i ≡ bit = ground arith in
      let set : test_bit own i ≡ true = rw e h.2 in
      ground (arith, h.0, h.1, set, test_bit-set_bit bmp bit i b)
  | inr other ↦ elim (Bool-cases (leb low i)) [
    | inr under ↦ ground (arith, h.0, test_bit-set_bit bmp bit i b)
    | inl from ↦ elim (Bool-cases (ltb i bit)) [
      | inl below ↦
          let clear : test_bit own i ≡ false = h.3 i (ground arith) (ground arith) in
          ground (arith, clear, h.1, test_bit-set_bit bmp bit i b)
      | inr above ↦ ground (arith, test_bit-set_bit bmp bit i b)
    ]
  ]
]

reserve_round :
    (n : ℕ) (own : Bitmap) (fuel low : ℕ) (bmp : Bitmap) (r : Option ℕ)
    → IsBytes bmp
    → ffs own n low ≡ r
    → IsLowest own n low r
    → ((bit : ℕ)
        → r ≡ some bit
        → Reserved n own
            (bit + 1)
            (set_bit bmp bit)
            (reserve n own fuel (bit + 1) (set_bit bmp bit)))
    → Reserved n own low bmp (reserve n own (suc fuel) low bmp)
unfolding reserve
reserve_round n own fuel low bmp none b e h rest =
    (bmp, rw (e, reserve) refl, b, λ i. let c = claims-none n own low i h in rw c refl)
reserve_round n own fuel low bmp (some bit) b e h rest =
    let (after, run, bytes, same) = rest bit refl in
    (after, rw (e, reserve) run, bytes, λ i. same i ∙ claims-some n own bmp low bit i b h)

pub reserve-Reserved :
    (n : ℕ) (own : Bitmap) (fuel low : ℕ) (bmp : Bitmap)
    → IsBytes bmp
    → n - low < fuel
    → Reserved n own low bmp (reserve n own fuel low bmp)
reserve-Reserved n own zero low bmp b h = absurd (omega arith)
reserve-Reserved n own (suc fuel) low bmp b h =
    reserve_round n own fuel low bmp (ffs own n low) b refl (ffs-IsLowest own n low) (λ bit e.
      reserve-Reserved n own fuel (bit + 1) (set_bit bmp bit) (set_bit-IsBytes bmp bit b)
        (shorter n own fuel low bit (ffs own n low) (ffs-IsLowest own n low) e h))
