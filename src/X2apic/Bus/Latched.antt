-- ===== src/X2apic/Bus/Latched.antt =====
-- From latched interrupts to pending ones.
use workhorse_rt.Common.{
  ℕ, zero, suc, ◌+◌, ◌<◌, ◌≤◌, ◌≡◌, refl, ◌∙◌, ap, Bool, true, false, ◌&&◌, ◌||◌, some, ◌==◌, leb,
  ltb, arith, Bool-cases, inl, inr,
}
use workhorse_rt.X2apic.{X2apic, Registers, has_vector}
use workhorse_rt.X2apic.Vectors.{has_vector-set_vector}
use workhorse_rt.X2apic.Bus.{request, request_from, check_latched_irr}

-- No vector that is reserved.
abbrev pub IsLegal : Registers → Type 0
IsLegal regs = (v : ℕ) → v ≤ 15 → has_vector v regs ≡ false

-- What is pending after some vectors have been gone through, and what is the same.
record Requested (vectors : Registers) (n i : ℕ) (x y : X2apic) : Type 0 where
  irr :
      (u : ℕ)
      → has_vector u y.irr
        ≡ (has_vector u x.irr || (leb i u && (ltb u (i + n) && has_vector u vectors)))
  isr : y.isr ≡ x.isr
  latched_irr : y.latched_irr ≡ x.latched_irr
  tpr : y.tpr ≡ x.tpr

-- One vector more.
more_irr :
    (b old v : Bool) (i n u : ℕ)
    → ((i == u) ≡ true → v ≡ b)
    → (((b && (i == u)) || old) || (leb (suc i) u && (ltb u (suc i + n) && v)))
      ≡ (old || (leb i u && (ltb u (i + suc n) && v)))
more_irr b old v i n u here = elim (Bool-cases (i == u)) [
  | inl e ↦ let same = here e in rw same (ground (arith, e))
  | inr e ↦ ground (arith, e)
]

vector_here :
    (i u : ℕ) (regs : Registers) (b : Bool)
    → has_vector i regs ≡ b
    → (i == u) ≡ true
    → has_vector u regs ≡ b
vector_here i u regs b h e = let eq : u ≡ i = ground (arith, e) in rw eq h

request_from-Requested :
    (n i : ℕ) (vectors : Registers) (x : X2apic)
    → IsLegal vectors
    → (y : X2apic) × (request_from n i vectors x ≡ some y) × Requested vectors n i x y
unfolding request_from
request_from-Requested zero i vectors x legal =
    (x, refl, record { irr = λ u. ground arith; isr = refl; latched_irr = refl; tpr = refl })
request_from-Requested (suc n) i vectors x legal =
    let more = λ (z : X2apic). request_from-Requested n (suc i) vectors z legal in
    elim (Bool-cases (has_vector i vectors)) [
      | inl e ↦
          let (y, ran, r) = more (request i x) in
          (
            y,
            rw (e, high e) ran,
            record {
              irr = λ u.
                  let set = has_vector-set_vector u i x.irr in
                  r.irr u
                  ∙ ap
                      (λ (b : Bool).
                        b || (leb (suc i) u && (ltb u (suc i + n) && has_vector u vectors)))
                      set
                  ∙ more_irr true (has_vector u x.irr) (has_vector u vectors) i n u
                      (vector_here i u vectors true e);
              isr = r.isr;
              latched_irr = r.latched_irr;
              tpr = r.tpr;
            },
          )
      | inr e ↦
          let (y, ran, r) = more x in
          (
            y,
            rw e ran,
            record {
              irr = λ u.
                  r.irr u
                  ∙ more_irr false (has_vector u x.irr) (has_vector u vectors) i n u
                      (vector_here i u vectors false e);
              isr = r.isr;
              latched_irr = r.latched_irr;
              tpr = r.tpr;
            },
          )
    ]
  where
    high : has_vector i vectors ≡ true → leb i 15 ≡ false
    high e = elim (Bool-cases (leb i 15)) [
      | inl low ↦
          let none_low = legal i (ground (arith, low)) in absurd (ground (arith, none_low, e))
      | inr over ↦ over
    ]

-- What ia32eEmulatorX2apicCheckLatchedIrr makes of a controller.
pub record Collected (x y : X2apic) : Type 0 where
  pub irr :
      (u : ℕ) → u < 256 → has_vector u y.irr ≡ (has_vector u x.irr || has_vector u x.latched_irr)
  pub latched_irr : (u : ℕ) → has_vector u y.latched_irr ≡ false
  pub isr : y.isr ≡ x.isr
  pub tpr : y.tpr ≡ x.tpr

-- With no reserved vector among the latched ones, ia32eEmulatorX2apicCheckLatchedIrr fails no
-- assertion: every latched vector becomes pending, every pending one stays so, no vector is latched
-- any more, and the vectors in service and the task priority stay.
pub check_latched_irr-Collected :
    (x : X2apic)
    → IsLegal x.latched_irr
    → (y : X2apic) × (check_latched_irr x ≡ some y) × Collected x y
unfolding check_latched_irr has_vector
check_latched_irr-Collected x legal =
    let cleared = record x { latched_irr = λ i. λ b. false } in
    let (y, ran, r) = request_from-Requested 256 0 x.latched_irr cleared legal in
    (
      y,
      ran,
      record {
        irr = λ u small. r.irr u ∙ all (has_vector u x.irr) (has_vector u x.latched_irr) u small;
        latched_irr = λ u. ap (λ (l : Registers). has_vector u l) r.latched_irr;
        isr = r.isr;
        tpr = r.tpr;
      },
    )
  where
    all :
        (old new : Bool) (u : ℕ)
        → u < 256
        → (old || (leb 0 u && (ltb u (0 + 256) && new))) ≡ (old || new)
    all old new u small = ground (arith, small)
