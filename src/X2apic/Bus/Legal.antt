-- ===== src/X2apic/Bus/Legal.antt =====
-- Reserved vectors, and those that are latched.
use workhorse_rt.Common.{
  ℕ, ◌/◌, ◌%◌, ◌≤◌, ◌<◌, ◌≡◌, ◌∙◌, Bool, true, false, not, ◌&&◌, ◌||◌, some, ◌==◌, ltb, arith,
  if◌then◌else◌, Bool-cases, inl, inr,
}
use workhorse_rt.Word.{Word, any_of}
use workhorse_rt.X2apic.{X2apic, is_enabled, has_vector}
use workhorse_rt.X2apic.Vectors.{has_vector-set_vector}
use workhorse_rt.X2apic.Bus.{
  Vm, DeliveryMode, latch_vector, send_packet, raise_error, check_receiver_esr, check_latched_irr,
}
use workhorse_rt.X2apic.Bus.Latched.{IsLegal, check_latched_irr-Collected}
use workhorse_rt.X2apic.Bus.Changes.{Sent, is_sent, is_normal}
use workhorse_rt.X2apic.Bus.Packets.{send_packet-Sent}

not_reserved :
    (old r e m : Bool) (vector u : ℕ)
    → old ≡ false
    → u ≤ 15
    → (old || (r && (e && (ltb 15 vector && (m && vector == u))))) ≡ false
not_reserved old r e m vector u clear low = elim (Bool-cases (vector == u)) [
  | inl same ↦ let eq : vector ≡ u = ground (arith, same) in rw eq (ground (arith, clear, low))
  | inr other ↦ ground (arith, clear, other)
]

Sent-IsLegal :
    (r : Bool) (id vector : ℕ) (vm after : Vm)
    → Sent r id vector vm after
    → ((j : ℕ) → IsLegal (vm.apics j).latched_irr)
    → (j : ℕ) → IsLegal (after.apics j).latched_irr
Sent-IsLegal r id vector vm after sent legal j u low =
    sent.latched_irr j u
    ∙ not_reserved (has_vector u (vm.apics j).latched_irr) r (is_enabled (vm.apics id)) (id == j)
        vector u (legal j u low) low

latch_vector-IsLegal :
    (vector : ℕ) (x : X2apic)
    → ltb 15 vector ≡ true
    → IsLegal x.latched_irr
    → IsLegal (latch_vector vector x).latched_irr
latch_vector-IsLegal vector x high legal u low =
    let set = has_vector-set_vector u vector x.latched_irr in
    let clear = legal u low in set ∙ apart (has_vector u x.latched_irr) clear
  where
    apart : (old : Bool) → old ≡ false → (vector == u || old) ≡ false
    apart old clear = ground (arith, high, low, clear)

raise_error-IsLegal :
    (vector : ℕ) (receiver : Word) (x : X2apic)
    → IsLegal x.latched_irr
    → IsLegal (raise_error vector receiver x).latched_irr
unfolding raise_error
raise_error-IsLegal vector receiver x legal = elim (Bool-cases (ltb 15 vector)) [
  | inl high ↦ rw high (elim (Bool-cases (is_enabled x)) [
    | inl on ↦ rw on (latch_vector-IsLegal vector x high legal)
    | inr off ↦ rw off legal
  ])
  | inr low ↦ rw low legal
]

check_receiver_esr-IsLegal :
    (x : X2apic) → IsLegal x.latched_irr → IsLegal (check_receiver_esr x).latched_irr
unfolding check_receiver_esr
check_receiver_esr-IsLegal x legal = either (
    not (any_of 0 8 x.pending_esr)
    && (any_of 0 8 x.receiver_esr && not (x.lvt_error / 65536 % 2 == 1)))
  where
    cleared : X2apic
    cleared = record x { receiver_esr = λ i. false }

    either :
        (b : Bool)
        → IsLegal
            (if b then raise_error (x.lvt_error % 256) x.receiver_esr cleared else record cleared {
              pending_esr = λ i. x.pending_esr i || x.receiver_esr i;
            }).latched_irr
    either true = raise_error-IsLegal (x.lvt_error % 256) x.receiver_esr cleared legal
    either false = legal

-- With interrupts on, and with every cpu of the domain on its bus: while no cpu of the domain has a
-- reserved vector latched, a packet that is sent leaves none that has, a cpu that looks at its errors
-- has none afterwards, and a cpu that then collects what is latched fails no assertion.
pub bus_stays-IsLegal :
    (id vector : ℕ) (mode : DeliveryMode) (vm : Vm)
    → is_sent mode ≡ true
    → vm.interrupts_on ≡ true
    → ((j : ℕ) → j < vm.num_vcpus → vm.registered j ≡ true)
    → ((j : ℕ) → IsLegal (vm.apics j).latched_irr)
    → (after : Vm) × (send_packet id vector mode vm ≡ some after)
      × ((j : ℕ) → IsLegal (after.apics j).latched_irr)
      × ((j : ℕ) → IsLegal (check_receiver_esr (after.apics j)).latched_irr)
      × ((j : ℕ) → (y : X2apic) × (check_latched_irr (check_receiver_esr (after.apics j)) ≡ some y))
bus_stays-IsLegal id vector mode vm e on complete legal =
    let (after, ran, sent) = send_packet-Sent id vector mode vm e on complete in
    let kept = Sent-IsLegal (ltb id vm.num_vcpus && is_normal mode) id vector vm after sent legal in
    let checked = λ (j : ℕ). check_receiver_esr-IsLegal (after.apics j) (kept j) in
    (
      after,
      ran,
      kept,
      checked,
      λ j.
          let (y, got, c) =
            check_latched_irr-Collected (check_receiver_esr (after.apics j)) (checked j) in
          (y, got),
    )
