-- ===== src/Bitmap/Bytes.antt =====
-- The bits of a byte, by evaluation over all bytes, and those of a bitmap.
use workhorse_rt.Common.{
  if◌then◌else◌, Bool-cases, inl, inr, ℕ, zero, suc, ◌+◌, ◌*◌, ◌/◌, ◌%◌, ◌<◌, ◌≡◌, refl, Bool, true,
  false, not, ◌&&◌, ◌||◌, arith, ◌==◌, ltb,
}
use workhorse_rt.Bitmap.{Bitmap, set_in, unset_in, test_in, set_bit, unset_bit, test_bit}

abbrev pub agree : Bool → Bool → Bool
agree true b = b
agree false b = not b

pub agree-eq : (a b : Bool) → agree a b ≡ true → a ≡ b
agree-eq a b h = ground arith

-- A test passes at every number less than a bound: the form in which a finite table is evaluated.
unfoldable pub passes : (ℕ → Bool) → ℕ → Bool
passes test zero = true
passes test (suc last) = if test last then passes test last else false

pub passes-at :
    (test : ℕ → Bool) (bound i : ℕ) → i < bound → passes test bound ≡ true → test i ≡ true
unfolding passes
passes-at test zero i below table = absurd (omega arith)
passes-at test (suc last) i below table = elim (Bool-cases (i == last)) [
  | inl top ↦ let e : i ≡ last = ground arith in rw e (ground arith)
  | inr under ↦ passes-at test last i (ground arith) (ground arith)
]

-- One number stands for a byte and two bits.
check_set : ℕ → Bool
check_set n =
    agree (test_in (set_in (n / 64) (n / 8 % 8)) (n % 8))
      (n / 8 % 8 == n % 8 || test_in (n / 64) (n % 8))

check_unset : ℕ → Bool
check_unset n =
    agree (test_in (unset_in (n / 64) (n / 8 % 8)) (n % 8))
      (not (n / 8 % 8 == n % 8) && test_in (n / 64) (n % 8))

set_table : passes check_set 16384 ≡ true
unfolding passes check_set set_in test_in
set_table = refl

unset_table : passes check_unset 16384 ≡ true
unfolding passes check_unset unset_in test_in
unset_table = refl

check_range : ℕ → Bool
check_range n = ltb (set_in (n / 8) (n % 8)) 256 && ltb (unset_in (n / 8) (n % 8)) 256

range_table : passes check_range 2048 ≡ true
unfolding passes check_range set_in unset_in
range_table = refl

test_in-set_in :
    (byte s t : ℕ)
    → byte < 256
    → s < 8
    → t < 8
    → test_in (set_in byte s) t ≡ (s == t || test_in byte t)
unfolding check_set
test_in-set_in byte s t hb hs ht =
    let n : ℕ = byte * 64 + s * 8 + t in
    let a : n / 64 ≡ byte = omega arith in
    let b : n / 8 % 8 ≡ s = omega arith in
    let c : n % 8 ≡ t = omega arith in
    let h : agree (test_in (set_in byte s) t) (s == t || test_in byte t) ≡ true =
      rw (a, b, c) at (passes-at check_set 16384 n (omega arith) set_table) in
    agree-eq (test_in (set_in byte s) t) (s == t || test_in byte t) h

test_in-unset_in :
    (byte s t : ℕ)
    → byte < 256
    → s < 8
    → t < 8
    → test_in (unset_in byte s) t ≡ (not (s == t) && test_in byte t)
unfolding check_unset
test_in-unset_in byte s t hb hs ht =
    let n : ℕ = byte * 64 + s * 8 + t in
    let a : n / 64 ≡ byte = omega arith in
    let b : n / 8 % 8 ≡ s = omega arith in
    let c : n % 8 ≡ t = omega arith in
    let h : agree (test_in (unset_in byte s) t) (not (s == t) && test_in byte t) ≡ true =
      rw (a, b, c) at (passes-at check_unset 16384 n (omega arith) unset_table) in
    agree-eq (test_in (unset_in byte s) t) (not (s == t) && test_in byte t) h

in_range : (byte s : ℕ) → byte < 256 → s < 8 → (set_in byte s < 256) × (unset_in byte s < 256)
unfolding check_range
in_range byte s hb hs =
    let n : ℕ = byte * 8 + s in
    let a : n / 8 ≡ byte = omega arith in
    let b : n % 8 ≡ s = omega arith in
    let h : (ltb (set_in byte s) 256 && ltb (unset_in byte s) 256) ≡ true =
      rw (a, b) at (passes-at check_range 2048 n (omega arith) range_table) in
    ground arith

abbrev pub IsBytes : Bitmap → Type 0
IsBytes m = (i : ℕ) → m i < 256

pub set_bit-IsBytes : (m : Bitmap) (b : ℕ) → IsBytes m → IsBytes (set_bit m b)
unfolding set_bit
set_bit-IsBytes m b h i =
    ground (arith, h i, (in_range (m (b / 8)) (b % 8) (h (b / 8)) (omega arith)).0)

pub unset_bit-IsBytes : (m : Bitmap) (b : ℕ) → IsBytes m → IsBytes (unset_bit m b)
unfolding unset_bit
unset_bit-IsBytes m b h i =
    ground (arith, h i, (in_range (m (b / 8)) (b % 8) (h (b / 8)) (omega arith)).1)

-- BITMAP_SET adds its bit and leaves every other bit of a bitmap of bytes alone.
pub test_bit-set_bit :
    (m : Bitmap) (b c : ℕ) → IsBytes m → test_bit (set_bit m b) c ≡ (b == c || test_bit m c)
unfolding set_bit test_bit
test_bit-set_bit m b c h =
    ground
      (arith, test_in-set_in (m (b / 8)) (b % 8) (c % 8) (h (b / 8)) (omega arith) (omega arith))

-- BITMAP_UNSET takes its bit out and leaves every other bit of a bitmap of bytes alone.
pub test_bit-unset_bit :
    (m : Bitmap) (b c : ℕ) → IsBytes m → test_bit (unset_bit m b) c ≡ (not (b == c) && test_bit m c)
unfolding unset_bit test_bit
test_bit-unset_bit m b c h =
    ground
      (arith, test_in-unset_in (m (b / 8)) (b % 8) (c % 8) (h (b / 8)) (omega arith) (omega arith))
