-- ===== src/X2apic/Scan.antt =====
-- The vector that a scan of the registers finds.
use workhorse_rt.Common.{
  ℕ, zero, suc, ◌+◌, ◌*◌, ◌/◌, ◌%◌, ◌<◌, ◌≤◌, ◌≡◌, ◌∙◌, true, false, Option, none, some, leb, arith,
  Bool-cases, inl, inr,
}
use workhorse_rt.Word.{fls32}
use workhorse_rt.Word.Fls.{IsTop, fls32-IsTop}
use workhorse_rt.X2apic.{Registers, has_vector, scan}
use workhorse_rt.X2apic.Vectors.{has_vector-at}

-- The highest of the vectors below a number of registers, or that there is none.
abbrev pub IsHighest : ℕ → Registers → Option (ℕ × ℕ) → Type 0
IsHighest n regs none = (v : ℕ) → v < n * 32 → has_vector v regs ≡ false
IsHighest n regs (some (i, idx)) =
    (i < n)
    × (idx < 32)
    × (has_vector (i * 32 + idx) regs ≡ true)
    × ((v : ℕ) → i * 32 + idx < v → v < n * 32 → has_vector v regs ≡ false)

has_vector-word :
    (regs : Registers) (i v : ℕ) → v / 32 ≡ i → regs i (v % 32) ≡ false → has_vector v regs ≡ false
unfolding has_vector
has_vector-word regs i v e clear = rw e clear

above_clear :
    (regs : Registers) (i v : ℕ)
    → ((j : ℕ) → j < 32 → regs i j ≡ false)
    → v / 32 ≡ i
    → has_vector v regs ≡ false
above_clear regs i v clear e = has_vector-word regs i v e (clear (v % 32) (omega arith))

IsHighest-suc :
    (i : ℕ) (regs : Registers) (r : Option (ℕ × ℕ))
    → ((j : ℕ) → j < 32 → regs i j ≡ false)
    → IsHighest i regs r
    → IsHighest (suc i) regs r
IsHighest-suc i regs none clear h = λ v below. elim (Bool-cases (leb (i * 32) v)) [
  | inl e ↦ let over : i * 32 ≤ v = ground (arith, e) in above_clear regs i v clear (omega arith)
  | inr e ↦ h v (ground (arith, e))
]
IsHighest-suc i regs (some (k, idx)) clear h =
    let lt : k < i = h.0 in
    (
      omega arith,
      h.1,
      h.2,
      λ v above below. elim (Bool-cases (leb (i * 32) v)) [
        | inl e ↦
            let over : i * 32 ≤ v = ground (arith, e) in above_clear regs i v clear (omega arith)
        | inr e ↦ h.3 v above (ground (arith, e))
      ],
    )

here-IsHighest :
    (i : ℕ) (regs : Registers) (r : Option ℕ)
    → IsTop (regs i) r
    → IsHighest i regs (scan i regs)
    → IsHighest (suc i) regs (elim r [ some idx ↦ some (i, idx) | none ↦ scan i regs ])
here-IsHighest i regs none top h = IsHighest-suc i regs (scan i regs) top h
here-IsHighest i regs (some idx) top h =
    let small : idx < 32 = top.0 in
    (
      omega arith,
      small,
      has_vector-at i idx regs small ∙ top.1,
      λ v above below.
          let word : v / 32 ≡ i = omega arith in
          has_vector-word regs i v word (top.2 (v % 32) (omega arith) (omega arith)),
    )

pub scan-IsHighest : (n : ℕ) (regs : Registers) → IsHighest n regs (scan n regs)
unfolding scan
scan-IsHighest zero regs = λ v below. absurd (omega arith)
scan-IsHighest (suc i) regs =
    here-IsHighest i regs (fls32 (regs i)) (fls32-IsTop (regs i)) (scan-IsHighest i regs)
