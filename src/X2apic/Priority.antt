-- ===== src/X2apic/Priority.antt =====
-- Which interrupt a virtual cpu takes, and its priority meanwhile.
use workhorse_rt.Common.{
  ℕ, ◌+◌, ◌*◌, ◌/◌, ◌<◌, ◌≤◌, ◌≡◌, ◌≢◌, refl, sym, ◌∙◌, ap, Bool, true, false, not, ◌&&◌, ◌||◌,
  Option, none, some, ◌==◌, leb, ltb, arith, Bool-cases, inl, inr,
}
use workhorse_rt.X2apic.{
  X2apic, is_enabled, has_vector, scan, vector_at, vector_or, get_isrv, get_ppr, get_irr_pending,
  unset_irr_pending, set_isrv, is_pending, Guest, Injection, take_interrupt, external_if, inject,
  max,
}
use workhorse_rt.X2apic.Vectors.{has_vector-set_vector, has_vector-unset_at}
use workhorse_rt.X2apic.Scan.{IsHighest, scan-IsHighest}

-- Which vector is in service, from what the registers have.
pub isrv_at :
    (x : X2apic) (v : ℕ)
    → v < 256
    → has_vector v x.isr ≡ true
    → ((u : ℕ) → v < u → u < 256 → has_vector u x.isr ≡ false)
    → get_isrv x ≡ v
unfolding get_isrv
isrv_at x v small set above = at (scan 8 x.isr) (scan-IsHighest 8 x.isr)
  where
    at : (r : Option (ℕ × ℕ)) → IsHighest 8 x.isr r → vector_or 0 r ≡ v
    at none h = let gone = h v (omega arith) in absurd (ground (arith, set, gone))
    at (some (i, idx)) h =
        let w : i * 32 + idx < 256 = in_range i idx h.0 h.1 in
        elim (Bool-cases (i * 32 + idx == v)) [
          | inl e ↦ ground (arith, e)
          | inr e ↦ elim (Bool-cases (ltb v (i * 32 + idx))) [
            | inl f ↦
                let gone = above (i * 32 + idx) (ground (arith, f)) w in
                let seen = h.2 in absurd (ground (arith, gone, seen))
            | inr f ↦
                let gone = h.3 v (ground (arith, e, f)) (omega arith) in
                absurd (ground (arith, gone, set))
          ]
        ]
      where
        in_range : (i idx : ℕ) → i < 8 → idx < 32 → i * 32 + idx < 256
        in_range i idx a b = omega arith

isrv_highest : (x : X2apic) (u : ℕ) → u < 256 → has_vector u x.isr ≡ true → u ≤ get_isrv x
unfolding get_isrv
isrv_highest x u small set = at (scan 8 x.isr) (scan-IsHighest 8 x.isr)
  where
    at : (r : Option (ℕ × ℕ)) → IsHighest 8 x.isr r → u ≤ vector_or 0 r
    at none h = let gone = h u (omega arith) in absurd (ground (arith, set, gone))
    at (some (i, idx)) h = elim (Bool-cases (leb u (i * 32 + idx))) [
      | inl e ↦ ground (arith, e)
      | inr e ↦
          let gone = h.3 u (ground (arith, e)) (omega arith) in absurd (ground (arith, gone, set))
    ]

-- The interrupt that is take_interrupt-Taken, and the cpu before and after.
pub record Taken (g : Guest) (x : X2apic) (v : ℕ) (y : X2apic) : Type 0 where
  pub in_range : (15 < v) × (v < 256)
  pub enabled : is_enabled x ≡ true
  pub allowed : (g.interrupt_flag ≡ true) × (g.ints_blocked ≡ false)
  pub pending : has_vector v x.irr ≡ true
  pub highest : (u : ℕ) → v < u → u < 256 → has_vector u x.irr ≡ false
  pub over : get_ppr x < v / 16
  pub irr : (u : ℕ) → has_vector u y.irr ≡ (not (v == u) && has_vector u x.irr)
  pub isr : (u : ℕ) → has_vector u y.isr ≡ (v == u || has_vector u x.isr)
  pub serviced : get_isrv y ≡ v
  pub ppr : get_ppr y ≡ v / 16
  pub sivr : y.sivr ≡ x.sivr
  pub tpr : y.tpr ≡ x.tpr

-- The event that is injected, by what the cpu had and what the guest allows.
abbrev pub Injected : Guest → X2apic → Injection → X2apic → Type 0
Injected g x Injection.nmi y =
    (x.latch.nmi_pending ≡ true)
    × (g.nmis_blocked ≡ false)
    × (y ≡ record x { latch = record x.latch { nmi_pending = false } })
Injected g x (Injection.external v) y = Taken g x v y
Injected g x Injection.assert_failed y = true ≡ false
Injected g x Injection.nothing y =
    (y ≡ x)
    × ((x.latch.nmi_pending && not g.nmis_blocked) ≡ false)
    × ((v : ℕ)
        → v < 256
        → is_enabled x ≡ true
        → has_vector v x.irr ≡ true
        → get_ppr x < v / 16
        → (g.interrupt_flag && not g.ints_blocked) ≡ false)

max-le : (a b : ℕ) → b ≤ max a b
max-le a b = ground arith

max-left : (a b : ℕ) → a ≤ max a b
max-left a b = ground arith

max-right : (a b : ℕ) → a ≤ b → max a b ≡ b
max-right a b h = ground (arith, h)

pub get_ppr_lem : (x : X2apic) → get_ppr x ≡ max x.tpr (get_isrv x / 16)
unfolding get_ppr
get_ppr_lem x = refl

pub under_ppr : (x : X2apic) (u : ℕ) → u < 256 → has_vector u x.isr ≡ true → u / 16 ≤ get_ppr x
unfolding get_ppr
under_ppr x u small set =
    let a = isrv_highest x u small set in let b = max-le x.tpr (get_isrv x / 16) in omega arith

tpr_under : (x : X2apic) → x.tpr ≤ get_ppr x
unfolding get_ppr
tpr_under x = max-left x.tpr (get_isrv x / 16)

module _ (g : Guest) (x : X2apic) (i idx : ℕ) (is : scan 8 x.irr ≡ some (i, idx)) where
  abbrev v : ℕ
  v = i * 32 + idx

  abbrev after : X2apic
  after = set_isrv v (unset_irr_pending x)

  after-irr : idx < 32 → (u : ℕ) → has_vector u after.irr ≡ (not (v == u) && has_vector u x.irr)
  unfolding set_isrv unset_irr_pending
  after-irr small u = rw is (has_vector-unset_at u i idx x.irr small)

  after-isr : (u : ℕ) → has_vector u after.isr ≡ (v == u || has_vector u x.isr)
  unfolding set_isrv unset_irr_pending
  after-isr u = has_vector-set_vector u v x.isr

  after-tpr : after.tpr ≡ x.tpr
  unfolding set_isrv unset_irr_pending
  after-tpr = refl

  after-sivr : after.sivr ≡ x.sivr
  unfolding set_isrv unset_irr_pending
  after-sivr = refl

  take_interrupt-Taken :
      is_enabled x ≡ true
      → IsHighest 8 x.irr (some (i, idx))
      → get_ppr x < v / 16
      → g.interrupt_flag ≡ true
      → g.ints_blocked ≡ false
      → Taken g x v after
  take_interrupt-Taken on h over flag free =
      let a : i < 8 = h.0 in
      let b : idx < 32 = h.1 in
      let serviced : get_isrv after ≡ v =
        isrv_at after v (omega arith) (let e = after-isr v in ground (arith, e)) (λ u above below.
          let e = after-isr u in
          elim (Bool-cases (has_vector u x.isr)) [
            | inl set ↦ let low = under_ppr x u below set in absurd (omega arith)
            | inr clear ↦ ground (arith, e, clear, above)
          ]) in
      record {
        in_range = (omega arith, omega arith);
        enabled = on;
        allowed = (flag, free);
        pending = h.2;
        highest = λ u above below. h.3 u above (omega arith);
        over = over;
        irr = after-irr b;
        isr = after-isr;
        serviced = serviced;
        ppr = priority serviced;
        sivr = after-sivr;
        tpr = after-tpr;
      }
    where
      priority : get_isrv after ≡ v → get_ppr after ≡ v / 16
      priority e =
          let low : after.tpr ≤ v / 16 =
            (let t = after-tpr in let u = tpr_under x in omega arith) in
          get_ppr_lem after
          ∙ ap (λ (n : ℕ). max after.tpr (n / 16)) e
          ∙ max-right after.tpr (v / 16) low

-- What of the pending interrupts the cpu may take.
pending_under :
    (x : X2apic) (v : ℕ) (r : Option (ℕ × ℕ))
    → IsHighest 8 x.irr r
    → v < 256
    → has_vector v x.irr ≡ true
    → get_ppr x < v / 16
    → is_pending (get_ppr x) (vector_at r) ≡ true
unfolding is_pending
pending_under x v none h small set over =
    let gone = h v (omega arith) in absurd (ground (arith, set, gone))
pending_under x v (some (i, idx)) h small set over = elim (Bool-cases (leb v (i * 32 + idx))) [
  | inl e ↦ let le : v ≤ i * 32 + idx = ground (arith, e) in higher (omega arith)
  | inr e ↦ let gone = h.3 v (ground (arith, e)) (omega arith) in absurd (ground (arith, gone, set))
]
  where
    higher : get_ppr x < (i * 32 + idx) / 16 → ltb (get_ppr x) ((i * 32 + idx) / 16) ≡ true
    higher lt = ground (arith, lt)

get_irr_pending_on :
    (x : X2apic) → is_enabled x ≡ true → get_irr_pending x ≡ vector_at (scan 8 x.irr)
unfolding get_irr_pending
get_irr_pending_on x on = ground (arith, on)

get_irr_pending_off : (x : X2apic) → is_enabled x ≡ false → get_irr_pending x ≡ none
unfolding get_irr_pending
get_irr_pending_off x off = ground (arith, off)

abbrev allows : Guest → Bool
allows g = g.interrupt_flag && not g.ints_blocked

over_ppr : (ppr v : ℕ) → is_pending ppr (some v) ≡ true → ppr < v / 16
unfolding is_pending
over_ppr ppr v e = ground (arith, e)

none_pending : (ppr : ℕ) (b : Bool) → (is_pending ppr none && b) ≢ true
unfolding is_pending
none_pending ppr b e = ground (arith, e)

takes :
    (g : Guest) (x : X2apic) (r : Option (ℕ × ℕ))
    → scan 8 x.irr ≡ r
    → IsHighest 8 x.irr r
    → is_enabled x ≡ true
    → (is_pending (get_ppr x) (vector_at r) && allows g) ≡ true
    → Injected g x (take_interrupt (vector_at r) x).0 (take_interrupt (vector_at r) x).1
unfolding take_interrupt
takes g x none is h on e = absurd (none_pending (get_ppr x) (allows g) e)
takes g x (some (i, idx)) is h on e =
    let over = over_ppr (get_ppr x) (i * 32 + idx) (ground (arith, e)) in
    let legal : leb (i * 32 + idx) 15 ≡ false =
      (let high : 15 < i * 32 + idx = omega arith in ground (arith, high)) in
    rw legal (take_interrupt-Taken g x i idx is on h over (ground (arith, e)) (ground (arith, e)))

externals :
    (g : Guest) (x : X2apic) (b : Bool)
    → (is_pending (get_ppr x) (get_irr_pending x) && allows g) ≡ b
    → (x.latch.nmi_pending && not g.nmis_blocked) ≡ false
    → Injected g x (external_if b (get_irr_pending x) x).0 (external_if b (get_irr_pending x) x).1
unfolding external_if
externals g x false e no_nmi = (
  refl,
  no_nmi,
  λ v small on set over.
      let seen = pending_under x v (scan 8 x.irr) (scan-IsHighest 8 x.irr) small set over in
      let pending = ap (is_pending (get_ppr x)) (get_irr_pending_on x on) ∙ seen in
      ground (arith, e, pending),
)
externals g x true e no_nmi = elim (Bool-cases (is_enabled x)) [
  | inl on ↦
      let p = get_irr_pending_on x on in
      rw p (takes g x (scan 8 x.irr) refl (scan-IsHighest 8 x.irr) on (rw⁻¹ p e))
  | inr off ↦
      let p = get_irr_pending_off x off in
      absurd (
        none_pending (get_ppr x) (allows g)
          (sym (ap (λ (o : Option ℕ). is_pending (get_ppr x) o && allows g) p) ∙ e))
]

pub inject-Injected : (g : Guest) (x : X2apic) → Injected g x (inject g x).0 (inject g x).1
unfolding inject
inject-Injected g x = elim (Bool-cases (x.latch.nmi_pending && not g.nmis_blocked)) [
  | inl e ↦ rw e (ground (arith, e), ground (arith, e), refl)
  | inr e ↦ rw e (externals g x (is_pending (get_ppr x) (get_irr_pending x) && allows g) refl e)
]
