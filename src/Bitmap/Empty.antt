-- ===== src/Bitmap/Empty.antt =====
-- bitmapIsEmpty reads whole bytes, and so the bits that pad the last byte too.
use workhorse_rt.Common.{
  ℕ, zero, suc, ◌+◌, ◌*◌, ◌/◌, ◌%◌, ◌≤◌, ◌<◌, ◌≡◌, refl, Bool, true, false, not, ◌||◌, Option, none,
  some, arith, ◌==◌, Bool-cases, inl, inr,
}
use workhorse_rt.Bitmap.{Bitmap, test_in, test_bit, fls, is_empty, zero_bytes}
use workhorse_rt.Bitmap.Bytes.{IsBytes, passes, passes-at}
use workhorse_rt.Bitmap.Scan.{IsHighest, fls-IsHighest}

check_zero : ℕ → Bool
check_zero s = not (test_in 0 s)

zero_table : passes check_zero 8 ≡ true
unfolding passes check_zero test_in
zero_table = refl

pub test_in-zero : (s : ℕ) → s < 8 → test_in 0 s ≡ false
unfolding check_zero
test_in-zero s h = ground (arith, passes-at check_zero 8 s h zero_table)

zero_bytes-none :
    (m : Bitmap) (rounds i j : ℕ) → zero_bytes m rounds i ≡ true → i ≤ j → j < i + rounds → m j ≡ 0
unfolding zero_bytes
zero_bytes-none m zero i j e from below = absurd (omega arith)
zero_bytes-none m (suc rounds) i j e from below = elim (Bool-cases (i == j)) [
  | inl here ↦ let h : j ≡ i = ground arith in rw h (ground arith)
  | inr other ↦ zero_bytes-none m rounds (i + 1) j (ground arith) (ground arith) (omega arith)
]

zero_bytes-some :
    (m : Bitmap) (rounds i : ℕ)
    → zero_bytes m rounds i ≡ false
    → (j : ℕ) × (i ≤ j) × (j < i + rounds) × (0 < m j)
unfolding zero_bytes
zero_bytes-some m zero i e = ground arith
zero_bytes-some m (suc rounds) i e = elim (Bool-cases (m i == 0)) [
  | inr here ↦ (i, omega arith, omega arith, ground arith)
  | inl clear ↦
      let (j, from, below, h) = zero_bytes-some m rounds (i + 1) (rw clear at e) in
      (j, omega arith, omega arith, h)
]

-- Of a bitmap that bitmapIsEmpty finds empty no bit below `cnt` is set.
pub is_empty-none :
    (m : Bitmap) (cnt j : ℕ) → is_empty m cnt ≡ true → j < cnt → test_bit m j ≡ false
unfolding is_empty test_bit
is_empty-none m cnt j e h =
    rw (zero_bytes-none m ((cnt + 7) / 8) 0 (j / 8) e (omega arith) (omega arith))
      (test_in-zero (j % 8) (omega arith))

abbrev found : Option ℕ → Bool
found none = false
found (some _) = true

check_byte : ℕ → Bool
check_byte byte = (byte == 0) || found (fls (λ _. byte) 8 0)

byte_table : passes check_byte 256 ≡ true
unfolding passes check_byte fls test_bit test_in
byte_table = refl

bit_of_byte : (byte : ℕ) → byte < 256 → 0 < byte → (s : ℕ) × (s < 8) × (test_in byte s ≡ true)
unfolding check_byte test_bit
bit_of_byte byte h pos =
    go (fls (λ _. byte) 8 0) (fls-IsHighest (λ _. byte) 8 0)
      (ground (arith, passes-at check_byte 256 byte h byte_table))
  where
    go :
        (r : Option ℕ)
        → IsHighest (λ _. byte) 8 0 r
        → found r ≡ true
        → (s : ℕ) × (s < 8) × (test_in byte s ≡ true)
    go none i e = cc
    go (some s) i e = (s, i.1, (let e8 : s % 8 ≡ s = omega arith in rw e8 at i.2))

-- A bitmap of bytes that is not found empty has a bit set, below `cnt` or in the padding.
pub is_empty-some :
    (m : Bitmap) (cnt : ℕ)
    → IsBytes m
    → is_empty m cnt ≡ false
    → (j : ℕ) × (j < (cnt + 7) / 8 * 8) × (test_bit m j ≡ true)
unfolding is_empty test_bit
is_empty-some m cnt bytes e =
    let (i, from, below, pos) = zero_bytes-some m ((cnt + 7) / 8) 0 e in
    let (s, small, h) = bit_of_byte (m i) (bytes i) pos in
    let a : (i * 8 + s) / 8 ≡ i = omega arith in
    let b : (i * 8 + s) % 8 ≡ s = omega arith in (i * 8 + s, omega arith, rw (a, b) h)
