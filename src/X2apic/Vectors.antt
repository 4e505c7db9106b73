-- ===== src/X2apic/Vectors.antt =====
-- Vectors of the registers, after one is set or cleared.
use workhorse_rt.Common.{
  ℕ, ◌+◌, ◌*◌, ◌/◌, ◌%◌, ◌<◌, ◌≡◌, refl, ap, false, not, ◌&&◌, ◌||◌, some, ◌==◌, arith, Bool-cases,
  inl, inr,
}
use workhorse_rt.X2apic.{Registers, set_vector, has_vector, unset_at}

same_vector : (u v : ℕ) → u / 32 ≡ v / 32 → u % 32 ≡ v % 32 → u ≡ v
same_vector u v a b = omega arith

differs : (f : ℕ → ℕ) (u v : ℕ) → (f v == f u) ≡ false → (v == u) ≡ false
differs f u v h = elim (Bool-cases (v == u)) [
  | inl e ↦ let eq : f v ≡ f u = ap f (ground (arith, e)) in absurd (ground (arith, eq, h))
  | inr e ↦ e
]

pub has_vector-set_vector :
    (u v : ℕ) (regs : Registers) → has_vector u (set_vector v regs) ≡ (v == u || has_vector u regs)
unfolding has_vector set_vector
has_vector-set_vector u v regs = elim (Bool-cases (v / 32 == u / 32)) [
  | inl e ↦
      let word : u / 32 ≡ v / 32 = ground (arith, e) in
      elim (Bool-cases (v % 32 == u % 32)) [
        | inl f ↦
            let bit : u % 32 ≡ v % 32 = ground (arith, f) in
            let eq : u ≡ v = same_vector u v word bit in ground (arith, e, f, eq)
        | inr f ↦
            let other : (v == u) ≡ false = differs (λ (n : ℕ). n % 32) u v f in
            rw word (ground (arith, e, f, other, word))
      ]
  | inr e ↦
      let other : (v == u) ≡ false = differs (λ (n : ℕ). n / 32) u v e in ground (arith, e, other)
]

pub has_vector-unset_at :
    (u i idx : ℕ) (regs : Registers)
    → idx < 32
    → has_vector u (unset_at (some (i, idx)) regs) ≡ (not (i * 32 + idx == u) && has_vector u regs)
unfolding has_vector unset_at
has_vector-unset_at u i idx regs small =
    let word : (i * 32 + idx) / 32 ≡ i = omega arith in
    let bit : (i * 32 + idx) % 32 ≡ idx = omega arith in
    elim (Bool-cases (i == u / 32)) [
      | inl e ↦
          let at : i ≡ u / 32 = ground (arith, e) in
          elim (Bool-cases (idx == u % 32)) [
            | inl f ↦
                let pos : idx ≡ u % 32 = ground (arith, f) in
                let eq : i * 32 + idx ≡ u = omega arith in ground (arith, e, f, eq)
            | inr f ↦
                let other : (i * 32 + idx == u) ≡ false =
                  differs (λ (n : ℕ). n % 32) u (i * 32 + idx) (rw bit f) in
                rw at (ground (arith, e, f, other, at))
          ]
      | inr e ↦
          let other : (i * 32 + idx == u) ≡ false =
            differs (λ (n : ℕ). n / 32) u (i * 32 + idx) (rw word e) in
          ground (arith, e, other)
    ]

-- What one set vector says of a word of the registers.
pub has_vector-at :
    (i idx : ℕ) (regs : Registers) → idx < 32 → has_vector (i * 32 + idx) regs ≡ regs i idx
unfolding has_vector
has_vector-at i idx regs small =
    let word : (i * 32 + idx) / 32 ≡ i = omega arith in
    let bit : (i * 32 + idx) % 32 ≡ idx = omega arith in rw (word, bit) refl
