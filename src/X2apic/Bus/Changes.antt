-- ===== src/X2apic/Bus/Changes.antt =====
-- What a packet may change on the bus, and what a write to one controller does.
use workhorse_rt.Common.{
  ℕ, ◌≡◌, refl, ◌∙◌, ap, Bool, true, false, not, ◌&&◌, ◌||◌, ◌==◌, leb, ltb, arith, Bool-cases, inl,
  inr,
}
use workhorse_rt.X2apic.{X2apic, Latch, is_enabled, has_vector, or_bit}
use workhorse_rt.X2apic.Vectors.{has_vector-set_vector}
use workhorse_rt.X2apic.Bus.{
  Vm, DeliveryMode, send_illegal, recv_illegal, set_apic, report, latch_vector, with_latch,
}

abbrev pub is_normal : DeliveryMode → Bool
is_normal DeliveryMode.normal = true
is_normal _ = false

-- The modes that a write to the interrupt command register sends packets in.
abbrev pub is_sent : DeliveryMode → Bool
is_sent DeliveryMode.normal = true
is_sent DeliveryMode.nmi = true
is_sent DeliveryMode.init = true
is_sent DeliveryMode.startup = true
is_sent _ = false

abbrev pub latched : ℕ → ℕ → Vm → Bool
latched j u vm = has_vector u (vm.apics j).latched_irr

-- What a normal interrupt changes, where `reaches` says that it has a target.
pub record Sent (reaches : Bool) (id vector : ℕ) (vm after : Vm) : Type 0 where
  pub latched_irr :
      (j u : ℕ)
      → latched j u after ≡ (
          latched j u vm
          || (reaches && (is_enabled (vm.apics id) && (ltb 15 vector && (id == j && vector == u)))))
  pub sender :
      (j : ℕ)
      → (after.apics j).receiver_esr send_illegal ≡ (
          (vm.apics j).receiver_esr send_illegal
          || (reaches
              && (leb vector 15
                  && (vm.vcpu == j
                      && (is_enabled (vm.apics id) || is_enabled (vm.apics vm.vcpu))))))
  pub receiver :
      (j : ℕ)
      → (after.apics j).receiver_esr recv_illegal ≡ (
          (vm.apics j).receiver_esr recv_illegal
          || (reaches
              && (leb vector 15 && (is_enabled (vm.apics id) && (id == j && not (id == vm.vcpu))))))
  pub irr : (j : ℕ) → (after.apics j).irr ≡ (vm.apics j).irr
  pub isr : (j : ℕ) → (after.apics j).isr ≡ (vm.apics j).isr

-- A part of a controller that a write to one of them leaves alone.
pub same_apic :
    {A : Type 0} (f : X2apic → A) (id j : ℕ) (x : X2apic) (vm : Vm)
    → f x ≡ f (vm.apics id)
    → f ((set_apic id x vm).apics j) ≡ f (vm.apics j)
same_apic f id j x vm e = elim (Bool-cases (id == j)) [
  | inl here ↦
      let eq : id ≡ j = ground (arith, here) in rw here (e ∙ ap (λ (k : ℕ). f (vm.apics k)) eq)
  | inr other ↦ rw other refl
]

pub or_false : (b : Bool) → b ≡ (b || false)
or_false b = ground arith

pub report-receiver_esr :
    (id error j b : ℕ) (vm : Vm)
    → ((report id error vm).apics j).receiver_esr b
      ≡ ((vm.apics j).receiver_esr b || (id == j && error == b))
report-receiver_esr id error j b vm = elim (Bool-cases (id == j)) [
  | inl here ↦
      let eq : id ≡ j = ground (arith, here) in
      rw here (or_bit_at ∙ ap (λ (k : ℕ). (vm.apics k).receiver_esr b || error == b) eq)
  | inr other ↦ rw other (or_false ((vm.apics j).receiver_esr b))
]
  where
    or_bit_at :
        or_bit error (vm.apics id).receiver_esr b ≡ ((vm.apics id).receiver_esr b || error == b)
    or_bit_at = ground arith

pub latch_vector-latched :
    (id vector j u : ℕ) (vm : Vm)
    → latched j u (set_apic id (latch_vector vector (vm.apics id)) vm)
      ≡ (latched j u vm || (id == j && vector == u))
latch_vector-latched id vector j u vm = elim (Bool-cases (id == j)) [
  | inl here ↦
      let eq : id ≡ j = ground (arith, here) in
      rw here (
        has_vector-set_vector u vector (vm.apics id).latched_irr
        ∙ swap (vector == u) (latched id u vm)
        ∙ ap (λ (k : ℕ). latched k u vm || vector == u) eq)
  | inr other ↦ rw other (or_false (latched j u vm))
]
  where
    swap : (a b : Bool) → (a || b) ≡ (b || a)
    swap a b = ground arith

pub unchanged-Sent : (id vector : ℕ) (vm : Vm) → Sent false id vector vm vm
unchanged-Sent id vector vm = record {
  latched_irr = λ j u. or_false (latched j u vm);
  sender = λ j. or_false ((vm.apics j).receiver_esr send_illegal);
  receiver = λ j. or_false ((vm.apics j).receiver_esr recv_illegal);
  irr = λ j. refl;
  isr = λ j. refl;
}

pub with_latch-Sent :
    (id vector : ℕ) (l : Latch) (vm : Vm) → Sent false id vector vm (with_latch id l vm)
unfolding with_latch
with_latch-Sent id vector l vm =
    let x : X2apic = record (vm.apics id) { latch = l } in
    record {
      latched_irr = λ j u.
          same_apic (λ (y : X2apic). has_vector u y.latched_irr) id j x vm refl
          ∙ or_false (latched j u vm);
      sender = λ j.
          same_apic (λ (y : X2apic). y.receiver_esr send_illegal) id j x vm refl
          ∙ or_false ((vm.apics j).receiver_esr send_illegal);
      receiver = λ j.
          same_apic (λ (y : X2apic). y.receiver_esr recv_illegal) id j x vm refl
          ∙ or_false ((vm.apics j).receiver_esr recv_illegal);
      irr = λ j. same_apic (λ (y : X2apic). y.irr) id j x vm refl;
      isr = λ j. same_apic (λ (y : X2apic). y.isr) id j x vm refl;
    }

-- A write to the error register leaves the vectors alone.
pub report-latched :
    (id error j u : ℕ) (vm : Vm) → latched j u (report id error vm) ≡ latched j u vm
report-latched id error j u vm =
    let x = vm.apics id in
    same_apic (λ (y : X2apic). has_vector u y.latched_irr) id j
      (record x { receiver_esr = or_bit error x.receiver_esr }) vm refl

pub report-irr : (id error j : ℕ) (vm : Vm) → ((report id error vm).apics j).irr ≡ (vm.apics j).irr
report-irr id error j vm =
    let x = vm.apics id in
    same_apic (λ (y : X2apic). y.irr) id j (record x { receiver_esr = or_bit error x.receiver_esr })
      vm refl

pub report-isr : (id error j : ℕ) (vm : Vm) → ((report id error vm).apics j).isr ≡ (vm.apics j).isr
report-isr id error j vm =
    let x = vm.apics id in
    same_apic (λ (y : X2apic). y.isr) id j (record x { receiver_esr = or_bit error x.receiver_esr })
      vm refl
