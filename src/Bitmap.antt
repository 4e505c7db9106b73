-- ===== src/Bitmap.antt =====
-- include/lib/dsa/bitmap.h: arrays of bytes read as sets of bits, and the two scans. An index of -1
-- is `none`; a bitmap is the family of its bytes.
pub mod Bytes
pub mod Scan
pub mod Empty
mod Tests
use Prim.Native.Nat.{bit_and, bit_or, bit_xor}
use workhorse_rt.Common.{
  ℕ, zero, suc, ◌+◌, ◌-◌, ◌/◌, ◌%◌, ◌^◌, Bool, true, false, not, Option, none, some, ◌==◌, leb,
  if◌then◌else◌, update,
}

abbrev pub Bitmap : Type 0
Bitmap = ℕ → ℕ

-- A byte with a bit set, without it, and whether it has it: `|= 1 << s`, `&= ~(1 << s)`, `& (1 << s)`.
unfoldable pub set_in : ℕ → ℕ → ℕ
set_in byte s = bit_or byte (2 ^ s)

unfoldable pub unset_in : ℕ → ℕ → ℕ
unset_in byte s = bit_and byte (bit_xor 0xff (2 ^ s))

unfoldable pub test_in : ℕ → ℕ → Bool
test_in byte s = not (bit_and byte (2 ^ s) == 0)

-- BITMAP_SET, BITMAP_UNSET, BITMAP_TEST
unfoldable pub set_bit : Bitmap → ℕ → Bitmap
set_bit m bit = update m (bit / 8) (set_in (m (bit / 8)) (bit % 8))

unfoldable pub unset_bit : Bitmap → ℕ → Bitmap
unset_bit m bit = update m (bit / 8) (unset_in (m (bit / 8)) (bit % 8))

unfoldable pub test_bit : Bitmap → ℕ → Bool
test_bit m bit = test_in (m (bit / 8)) (bit % 8)

-- bitmapFls: from the highest bit down to `low`.
unfoldable pub fls : Bitmap → ℕ → ℕ → Option ℕ
fls m zero low = none
fls m (suc i) low =
    let below = fls m i low in if leb low i then (if test_bit m i then some i else below) else none

-- bitmapFfs: `rounds` bits are left from `i` on.
ffs_from : Bitmap → ℕ → ℕ → Option ℕ
ffs_from m zero i = none
ffs_from m (suc rounds) i =
    let above = ffs_from m rounds (i + 1) in if test_bit m i then some i else above

unfoldable pub ffs : Bitmap → ℕ → ℕ → Option ℕ
unfolding ffs_from
ffs m cnt low = ffs_from m (cnt - low) low

-- bitmapIsEmpty: all bytes that hold the bits are 0.
zero_bytes : Bitmap → ℕ → ℕ → Bool
zero_bytes m zero i = true
zero_bytes m (suc rounds) i =
    let others = zero_bytes m rounds (i + 1) in if m i == 0 then others else false

unfoldable pub is_empty : Bitmap → ℕ → Bool
unfolding zero_bytes
is_empty m cnt = zero_bytes m ((cnt + 7) / 8) 0
