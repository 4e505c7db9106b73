-- ===== src/Word/Fls.antt =====
-- The bit that fls32 finds.
use workhorse_rt.Common.{
  ℕ, zero, suc, ◌+◌, ◌-◌, ◌≤◌, ◌<◌, ◌≡◌, sym, ◌∙◌, ap, true, false, Option, none, some, leb, ltb,
  arith, Bool-cases, inl, inr,
}
use workhorse_rt.Word.{Word, shl, any_of, Search, halve, search, found_bit, fls32}

-- The highest bit of a word, or that it is zero.
abbrev pub IsTop : Word → Option ℕ → Type 0
IsTop w none = (j : ℕ) → j < 32 → w j ≡ false
IsTop w (some r) = (r < 32) × (w r ≡ true) × ((j : ℕ) → r < j → j < 32 → w j ≡ false)

pub any_of-false :
    (low n : ℕ) (w : Word) → any_of low n w ≡ false → (j : ℕ) → low ≤ j → j < low + n → w j ≡ false
unfolding any_of
any_of-false low zero w e j a b = absurd (omega arith)
any_of-false low (suc n) w e j a b = elim (Bool-cases (leb (low + n) j)) [
  | inl top ↦ let eq : j ≡ low + n = ground (arith, top) in rw eq (ground (arith, e))
  | inr under ↦ any_of-false low n w (ground (arith, e)) j a (ground (arith, under))
]

pub any_of-true :
    (low n : ℕ) (w : Word)
    → any_of low n w ≡ true
    → (j : ℕ) × (low ≤ j) × (j < low + n) × (w j ≡ true)
unfolding any_of
any_of-true low zero w e = absurd (cc)
any_of-true low (suc n) w e = elim (Bool-cases (w (low + n))) [
  | inl top ↦ (low + n, omega arith, omega arith, top)
  | inr under ↦
      let (j, a, b, c) = any_of-true low n w (ground (arith, e, under)) in (j, a, omega arith, c)
]

-- The search stands at `bit`: above it there is nothing, and the word is shifted so that `bit` is its
-- highest; one of the highest `n` bits is set.
pub record Stands (w : Word) (n : ℕ) (s : Search) : Type 0 where
  pub room : n ≤ s.bit + 1
  pub small : s.bit < 32
  pub above : (j : ℕ) → s.bit < j → j < 32 → w j ≡ false
  pub shifted : (j : ℕ) → j < 32 → 31 - s.bit ≤ j → s.val j ≡ w (j + s.bit - 31)
  pub low : (j : ℕ) → j < 31 - s.bit → s.val j ≡ false
  pub top : ℕ
  pub top_in : (32 - n ≤ top) × (top < 32)
  pub top_set : s.val top ≡ true

shl_in : (n : ℕ) (val : Word) (j : ℕ) → n ≤ j → shl n val j ≡ val (j - n)
shl_in n val j h = ground (arith, h)

shl_out : (n : ℕ) (val : Word) (j : ℕ) → j < n → shl n val j ≡ false
shl_out n val j h = ground (arith, h)

module _ (w : Word) (n : ℕ) (s : Search) (small : n ≤ 16) (at : Stands w (n + n) s) where
  open at use {shifted, above, low, top}

  -- The highest `n` bits are zero.
  shift-Stands :
      any_of (32 - n) n s.val ≡ false → Stands w n (record { val = shl n s.val; bit = s.bit - n })
  shift-Stands clear =
      let zeros = any_of-false (32 - n) n s.val clear in
      let room : n + n ≤ s.bit + 1 = at.room in
      let bound : s.bit < 32 = at.small in
      let from : 32 - (n + n) ≤ top = at.top_in.0 in
      let to : top < 32 = at.top_in.1 in
      let back : top + n - n ≡ top = omega arith in
      let still_in : top + n < 32 = elim (Bool-cases (ltb (top + n) 32)) [
        | inl e ↦ ground (arith, e)
        | inr e ↦
            let high : 32 - n ≤ top = ground (arith, e) in
            let gone : s.val top ≡ false = zeros top high (omega arith) in
            let set : s.val top ≡ true = at.top_set in absurd (cc)
      ] in
      record {
        room = omega arith;
        small = omega arith;
        above = λ j a b. elim (Bool-cases (ltb s.bit j)) [
          | inl over ↦ above j (ground (arith, over)) b
          | inr within ↦
              let le : j ≤ s.bit = ground (arith, within) in
              let gone : s.val (j + 31 - s.bit) ≡ false =
                zeros (j + 31 - s.bit) (omega arith) (omega arith) in
              let seen : s.val (j + 31 - s.bit) ≡ w ((j + 31 - s.bit) + s.bit - 31) =
                shifted (j + 31 - s.bit) (omega arith) (omega arith) in
              let here : (j + 31 - s.bit) + s.bit - 31 ≡ j = omega arith in
              sym (ap w here) ∙ sym seen ∙ gone
        ];
        shifted = λ j a b.
            let inside : n ≤ j = omega arith in
            let seen : s.val (j - n) ≡ w ((j - n) + s.bit - 31) =
              shifted (j - n) (omega arith) (omega arith) in
            let here : (j - n) + s.bit - 31 ≡ j + (s.bit - n) - 31 = omega arith in
            shl_in n s.val j inside ∙ seen ∙ ap w here;
        low = λ j a. elim (Bool-cases (leb n j)) [
          | inl e ↦
              let inside : n ≤ j = ground (arith, e) in
              shl_in n s.val j inside ∙ low (j - n) (omega arith)
          | inr e ↦ shl_out n s.val j (ground (arith, e))
        ];
        top = top + n;
        top_in = (omega arith, still_in);
        top_set = shl_in n s.val (top + n) (omega arith) ∙ ap s.val back ∙ at.top_set;
      }

  pub halve-Stands : Stands w n (halve n s)
  unfolding halve
  halve-Stands = elim (Bool-cases (any_of (32 - n) n s.val)) [
    | inl e ↦ rw e (
        let (j, a, b, c) = any_of-true (32 - n) n s.val e in
        let room : n + n ≤ s.bit + 1 = at.room in
        record {
          room = omega arith;
          small = at.small;
          above = above;
          shifted = shifted;
          low = low;
          top = j;
          top_in = (a, omega arith);
          top_set = c;
        })
    | inr e ↦ rw e (shift-Stands e)
  ]

start-Stands : (w : Word) → any_of 0 32 w ≡ true → Stands w 32 (record { val = w; bit = 31 })
start-Stands w e =
    let (j, a, b, c) = any_of-true 0 32 w e in
    record {
      room = omega arith;
      small = omega arith;
      above = λ i over under. absurd (omega arith);
      shifted = λ i under over. let same : i ≡ i + 31 - 31 = omega arith in ap w same;
      low = λ i under. absurd (omega arith);
      top = j;
      top_in = (omega arith, omega arith);
      top_set = c;
    }

search-Stands : (w : Word) → any_of 0 32 w ≡ true → Stands w 2 (search w)
unfolding search
search-Stands w e =
    let start : Search = record { val = w; bit = 31 } in
    let a = halve-Stands w 16 start (omega arith) (start-Stands w e) in
    let b = halve-Stands w 8 (halve 16 start) (omega arith) a in
    let c = halve-Stands w 4 (halve 8 (halve 16 start)) (omega arith) b in
    halve-Stands w 2 (halve 4 (halve 8 (halve 16 start))) (omega arith) c

-- The last test is one more step, after which the highest bit is set.
found_bit-halve : (s : Search) → found_bit s ≡ (halve 1 s).bit
unfolding found_bit halve any_of
found_bit-halve s = ground arith

Stands-IsTop : (w : Word) (s : Search) → Stands w 1 s → IsTop w (some s.bit)
Stands-IsTop w s at =
    let a : 32 - 1 ≤ at.top = at.top_in.0 in
    let b : at.top < 32 = at.top_in.1 in
    let small : s.bit < 32 = at.small in
    let seen = at.shifted at.top b (omega arith) in
    let here : at.top + s.bit - 31 ≡ s.bit = omega arith in
    (small, sym (ap w here) ∙ sym seen ∙ at.top_set, at.above)

pub fls32-IsTop : (w : Word) → IsTop w (fls32 w)
unfolding fls32
fls32-IsTop w = elim (Bool-cases (any_of 0 32 w)) [
  | inl e ↦
      let last = halve-Stands w 1 (search w) (omega arith) (search-Stands w e) in
      let top = Stands-IsTop w (halve 1 (search w)) last in rw (e, found_bit-halve (search w)) top
  | inr e ↦ rw e (λ j under. any_of-false 0 32 w e j (omega arith) under)
]
