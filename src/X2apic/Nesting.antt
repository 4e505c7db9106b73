-- ===== src/X2apic/Nesting.antt =====
-- The end of an interrupt.
use workhorse_rt.Common.{
  ℕ, ◌+◌, ◌*◌, ◌/◌, ◌%◌, ◌<◌, ◌≡◌, refl, sym, ◌∙◌, ap, subst, true, false, not, ◌&&◌, Option, none,
  some, ◌==◌, arith, Bool-cases, inl, inr,
}
use workhorse_rt.X2apic.{
  X2apic, is_enabled, has_vector, scan, vector_or, unset_at, get_isrv, get_ppr, unset_isrv, eoi_at,
  write_eoi, Guest, Injection, inject, max,
}
use workhorse_rt.X2apic.Vectors.{has_vector-unset_at}
use workhorse_rt.X2apic.Scan.{IsHighest, scan-IsHighest}
use workhorse_rt.X2apic.Priority.{isrv_at, under_ppr, get_ppr_lem, Taken, Injected, inject-Injected}

-- The vector in service depends on which vectors are.
isrv_congr :
    (x y : X2apic)
    → ((u : ℕ) → u < 256 → has_vector u y.isr ≡ has_vector u x.isr)
    → get_isrv y ≡ get_isrv x
unfolding get_isrv
isrv_congr x y same = at (scan 8 x.isr) (scan-IsHighest 8 x.isr)
  where
    none_set :
        ((u : ℕ) → u < 256 → has_vector u y.isr ≡ false)
        → (r : Option (ℕ × ℕ)) → IsHighest 8 y.isr r
        → vector_or 0 r ≡ 0
    none_set clear none h = refl
    none_set clear (some (i, idx)) h =
        let a : i < 8 = h.0 in
        let b : idx < 32 = h.1 in
        let gone = clear (i * 32 + idx) (omega arith) in
        let set = h.2 in absurd (ground (arith, gone, set))

    at : (r : Option (ℕ × ℕ)) → IsHighest 8 x.isr r → vector_or 0 (scan 8 y.isr) ≡ vector_or 0 r
    at none h =
        none_set (λ u small. same u small ∙ h u (omega arith)) (scan 8 y.isr)
          (scan-IsHighest 8 y.isr)
    at (some (i, idx)) h =
        let a : i < 8 = h.0 in
        let b : idx < 32 = h.1 in
        let small : i * 32 + idx < 256 = omega arith in
        isrv_at y (i * 32 + idx) small (same (i * 32 + idx) small ∙ h.2)
          (λ u above below. same u below ∙ h.3 u above (omega arith))

-- The end of an interrupt.
eoi-isr :
    (y : X2apic) (v : ℕ)
    → v < 256
    → has_vector v y.isr ≡ true
    → get_isrv y ≡ v
    → (u : ℕ) → has_vector u (unset_isrv y).isr ≡ (not (v == u) && has_vector u y.isr)
unfolding unset_isrv get_isrv eoi_at
eoi-isr y v small set e u = at (scan 8 y.isr) (scan-IsHighest 8 y.isr) e
  where
    at :
        (r : Option (ℕ × ℕ))
        → IsHighest 8 y.isr r
        → vector_or 0 r ≡ v
        → has_vector u (eoi_at r y).isr ≡ (not (v == u) && has_vector u y.isr)
    at none h e = let gone = h v (omega arith) in absurd (ground (arith, gone, set))
    at (some (i, idx)) h e =
        subst
          (λ (w : ℕ).
            has_vector u (unset_at (some (i, idx)) y.isr) ≡ (not (w == u) && has_vector u y.isr))
          e (has_vector-unset_at u i idx y.isr h.1)

eoi-tpr : (y : X2apic) → (unset_isrv y).tpr ≡ y.tpr
unfolding unset_isrv eoi_at
eoi-tpr y = at (scan 8 y.isr)
  where
    at : (r : Option (ℕ × ℕ)) → (eoi_at r y).tpr ≡ y.tpr
    at none = refl
    at (some (i, idx)) = refl

eoi_restores :
    (g : Guest) (x y : X2apic) (v : ℕ)
    → Taken g x v y
    → ((u : ℕ) → u < 256 → has_vector u (unset_isrv y).isr ≡ has_vector u x.isr)
      × (get_ppr (unset_isrv y) ≡ get_ppr x)
eoi_restores g x y v t = (same, priority)
  where
    fresh : has_vector v x.isr ≡ false
    fresh = elim (Bool-cases (has_vector v x.isr)) [
      | inl set ↦
          let low = under_ppr x v t.in_range.1 set in let over = t.over in absurd (omega arith)
      | inr clear ↦ clear
    ]

    own : has_vector v y.isr ≡ true
    own = let e = t.isr v in ground (arith, e)

    same : (u : ℕ) → u < 256 → has_vector u (unset_isrv y).isr ≡ has_vector u x.isr
    same u small =
        let gone = eoi-isr y v t.in_range.1 own t.serviced u in
        let set = t.isr u in
        elim (Bool-cases (v == u)) [
          | inl e ↦
              let eq : v ≡ u = ground (arith, e) in
              let clear : has_vector u x.isr ≡ false =
                subst (λ (w : ℕ). has_vector w x.isr ≡ false) eq fresh in
              ground (arith, e, gone, clear)
          | inr e ↦ ground (arith, e, gone, set)
        ]

    priority : get_ppr (unset_isrv y) ≡ get_ppr x
    priority =
        get_ppr_lem (unset_isrv y)
        ∙ ap (λ (n : ℕ). max (unset_isrv y).tpr (n / 16)) (isrv_congr x (unset_isrv y) same)
        ∙ ap (λ (n : ℕ). max n (get_isrv x / 16)) (eoi-tpr y ∙ t.tpr)
        ∙ sym (get_ppr_lem x)

-- After an interrupt that was injected, a write to the EOI register gives back the vectors in service
-- of before and the priority of before: interrupts nest.
pub write_eoi-inject :
    (g : Guest) (x y : X2apic) (v : ℕ)
    → inject g x ≡ (Injection.external v, y)
    → ((u : ℕ) → u < 256 → has_vector u (write_eoi y).isr ≡ has_vector u x.isr)
      × (get_ppr (write_eoi y) ≡ get_ppr x)
unfolding write_eoi
write_eoi-inject g x y v e =
    let t : Taken g x v y =
      subst (λ (r : Injection × X2apic). Injected g x r.0 r.1) e (inject-Injected g x) in
    let on : is_enabled y ≡ true = ap (λ (n : ℕ). n / 256 % 2 == 1) t.sivr ∙ t.enabled in
    rw on (eoi_restores g x y v t)
