-- ===== src/Bitmap/Scan.antt =====
-- bitmapFls finds the highest bit, bitmapFfs the lowest, and bitmapIsEmpty whether there is one.
use workhorse_rt.Common.{
  ℕ, zero, suc, ◌+◌, ◌-◌, ◌≤◌, ◌<◌, ◌≡◌, refl, true, false, Option, none, some, arith, ◌==◌, leb,
  Bool-cases, inl, inr,
}
use workhorse_rt.Bitmap.{Bitmap, test_bit, fls, ffs, ffs_from}

-- What a scan of the bits from `low` below `cnt` for the highest one gives.
abbrev pub IsHighest : Bitmap → ℕ → ℕ → Option ℕ → Type 0
IsHighest m cnt low none = (j : ℕ) → low ≤ j → j < cnt → test_bit m j ≡ false
IsHighest m cnt low (some i) =
    (low ≤ i)
    × (i < cnt)
    × (test_bit m i ≡ true)
    × ((j : ℕ) → i < j → j < cnt → test_bit m j ≡ false)

-- The same for the lowest one.
abbrev pub IsLowest : Bitmap → ℕ → ℕ → Option ℕ → Type 0
IsLowest m cnt low none = (j : ℕ) → low ≤ j → j < cnt → test_bit m j ≡ false
IsLowest m cnt low (some i) =
    (low ≤ i)
    × (i < cnt)
    × (test_bit m i ≡ true)
    × ((j : ℕ) → low ≤ j → j < i → test_bit m j ≡ false)

last_case :
    (m : Bitmap) (i j : ℕ)
    → test_bit m i ≡ false
    → j < suc i
    → (j < i → test_bit m j ≡ false)
    → test_bit m j ≡ false
last_case m i j clear below lower = elim (Bool-cases (i == j)) [
  | inl here ↦ let e : j ≡ i = ground arith in rw e clear
  | inr other ↦ lower (ground arith)
]

IsHighest-extend :
    (m : Bitmap) (i low : ℕ) (r : Option ℕ)
    → test_bit m i ≡ false
    → IsHighest m i low r
    → IsHighest m (suc i) low r
IsHighest-extend m i low none clear h = λ j from below. last_case m i j clear below (h j from)
IsHighest-extend m i low (some k) clear h =
    (h.0, omega arith, h.2, λ j above below. last_case m i j clear below (h.3 j above))

-- bitmapFls gives the highest set bit that is at least `low` and below `cnt`, and -1 exactly when
-- there is none.
pub fls-IsHighest : (m : Bitmap) (cnt low : ℕ) → IsHighest m cnt low (fls m cnt low)
unfolding fls
fls-IsHighest m zero low = λ j from below. elim below [ ]
fls-IsHighest m (suc i) low = elim (Bool-cases (leb low i)) [
  | inr under ↦ rw under (λ j from below. absurd (ground arith))
  | inl within ↦ elim (Bool-cases (test_bit m i)) [
    | inl found ↦
        rw within
          (rw found (ground arith, omega arith, found, λ j above below. absurd (omega arith)))
    | inr clear ↦
        rw within (rw clear (IsHighest-extend m i low (fls m i low) clear (fls-IsHighest m i low)))
  ]
]

IsLowest-extend :
    (m : Bitmap) (cnt i : ℕ) (r : Option ℕ)
    → test_bit m i ≡ false
    → IsLowest m cnt (i + 1) r
    → IsLowest m cnt i r
IsLowest-extend m cnt i none clear h = λ j from below. elim (Bool-cases (i == j)) [
  | inl here ↦ let e : j ≡ i = ground arith in rw e clear
  | inr other ↦ h j (ground arith) below
]
IsLowest-extend m cnt i (some k) clear h = (
  omega arith,
  h.1,
  h.2,
  λ j from below. elim (Bool-cases (i == j)) [
    | inl here ↦ let e : j ≡ i = ground arith in rw e clear
    | inr other ↦ h.3 j (ground arith) below
  ],
)

ffs_from-IsLowest :
    (m : Bitmap) (cnt rounds i : ℕ) → rounds ≡ cnt - i → IsLowest m cnt i (ffs_from m rounds i)
unfolding ffs_from
ffs_from-IsLowest m cnt zero i e = λ j from below. absurd (omega arith)
ffs_from-IsLowest m cnt (suc rounds) i e = elim (Bool-cases (test_bit m i)) [
  | inl found ↦ rw found (omega arith, omega arith, found, λ j from below. absurd (omega arith))
  | inr clear ↦ rw clear (
      IsLowest-extend m cnt i (ffs_from m rounds (i + 1)) clear
        (ffs_from-IsLowest m cnt rounds (i + 1) (omega arith)))
]

-- bitmapFfs gives the lowest set bit that is at least `low` and below `cnt`, and -1 exactly when
-- there is none.
pub ffs-IsLowest : (m : Bitmap) (cnt low : ℕ) → IsLowest m cnt low (ffs m cnt low)
unfolding ffs
ffs-IsLowest m cnt low = ffs_from-IsLowest m cnt (cnt - low) low refl

-- bitmapFls gives the highest set bit that is at least the lower bound and below the count, bitmapFfs
-- the lowest, and each gives -1 exactly when there is none.
pub scans :
    (m : Bitmap) (cnt low : ℕ)
    → IsHighest m cnt low (fls m cnt low) × IsLowest m cnt low (ffs m cnt low)
scans m cnt low = (fls-IsHighest m cnt low, ffs-IsLowest m cnt low)
