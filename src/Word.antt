-- ===== src/Word.antt =====
-- fls32 of include/stdWorkhorse.h, on a word as its bits.
pub mod Fls
mod Tests
use workhorse_rt.Common.{
  ℕ, zero, suc, ◌+◌, ◌-◌, ◌%◌, ◌/◌, Bool, true, false, Option, none, some, ◌||◌, leb, ltb,
  if◌then◌else◌,
}

-- A uint32_t. The bits from 32 on are not part of it, and nothing reads them.
abbrev pub Word : Type 0
Word = ℕ → Bool

-- `val << n`
abbrev pub shl : ℕ → Word → Word
shl n val i = if leb n i then val (i - n) else false

-- Whether one of the `n` bits from `low` on is set: `val & mask` for a mask of such bits.
unfoldable pub any_of : ℕ → ℕ → Word → Bool
any_of low zero val = false
any_of low (suc n) val = val (low + n) || any_of low n val

pub record Search : Type 0 where
  pub val : Word
  pub bit : ℕ

-- One of the tests of fls32: the highest `n` bits are zero, or the word is shifted.
unfoldable pub halve : ℕ → Search → Search
halve n s = if any_of (32 - n) n s.val then s else record { val = shl n s.val; bit = s.bit - n }

unfoldable pub search : Word → Search
unfolding halve
search val = halve 2 (halve 4 (halve 8 (halve 16 (record { val = val; bit = 31 }))))

unfoldable pub found_bit : Search → ℕ
found_bit s = if s.val 31 then s.bit else s.bit - 1

-- -1 is `none`.
unfoldable pub fls32 : Word → Option ℕ
unfolding any_of search found_bit
fls32 val = if any_of 0 32 val then some (found_bit (search val)) else none
