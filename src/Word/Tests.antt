-- ===== src/Word/Tests.antt =====
-- Words with a few bits.
use workhorse_rt.Common.{◌≡◌, refl, ◌||◌, ◌==◌, none, some, false}
use workhorse_rt.Word.{Word, any_of, halve, search, found_bit, fls32}

abbrev zero_word : Word
zero_word i = false

abbrev two_bits : Word
two_bits i = i == 3 || i == 17

fls32_zero : fls32 zero_word ≡ none
unfolding fls32 any_of
fls32_zero = refl

fls32_two : fls32 two_bits ≡ some 17
unfolding fls32 any_of search halve found_bit
fls32_two = refl
