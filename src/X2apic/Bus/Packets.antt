-- ===== src/X2apic/Bus/Packets.antt =====
-- The packets, by mode and vector.
use workhorse_rt.Common.{
  ◌⊎◌, Option, none, ℕ, ◌<◌, ◌≡◌, refl, sym, ◌∙◌, ap, Bool, true, false, not, ◌&&◌, ◌||◌, some,
  ◌==◌, leb, ltb, arith, if◌then◌else◌, Bool-cases, inl, inr,
}
use workhorse_rt.X2apic.{X2apic, Latch, is_enabled}
use workhorse_rt.X2apic.Bus.{
  Vm, DeliveryMode, send_illegal, recv_illegal, report, latch_vector, send_normal, with_latch,
  deliver, send_packet, init_latch, startup_latch,
}
use workhorse_rt.X2apic.Bus.Changes.{
  is_normal, is_sent, latched, Sent, same_apic, or_false, report-receiver_esr, latch_vector-latched,
  unchanged-Sent, with_latch-Sent, report-latched, report-irr, report-isr,
}

no_report : (old l v s : Bool) → (l && s) ≡ false → old ≡ (old || (l && (v && s)))
no_report old l v s e = ground (arith, e)

or_and_false : (old b : Bool) → (old || (b && false)) ≡ (old || false)
or_and_false old b = ground arith

-- The target is disabled: the sender hears of an illegal vector if it is enabled itself.
disabled-Sent :
    (id vector : ℕ) (vm : Vm) (c : Bool)
    → is_enabled (vm.apics id) ≡ false
    → (leb vector 15 && is_enabled (vm.apics vm.vcpu)) ≡ c
    → Sent true id vector vm (if c then report vm.vcpu send_illegal vm else vm)
disabled-Sent id vector vm true e c =
    let low : leb vector 15 ≡ true = both_left (leb vector 15) (is_enabled (vm.apics vm.vcpu)) c in
    let on : is_enabled (vm.apics vm.vcpu) ≡ true =
      both_right (leb vector 15) (is_enabled (vm.apics vm.vcpu)) c in
    record {
      latched_irr =
          λ j u. rw e (report-latched vm.vcpu send_illegal j u vm ∙ or_false (latched j u vm));
      sender = λ j. rw (e, low, on) (report-receiver_esr vm.vcpu send_illegal j send_illegal vm);
      receiver = λ j.
          rw (e, low)
            (report-receiver_esr vm.vcpu send_illegal j recv_illegal vm
              ∙ or_and_false ((vm.apics j).receiver_esr recv_illegal) (vm.vcpu == j));
      irr = λ j. report-irr vm.vcpu send_illegal j vm;
      isr = λ j. report-isr vm.vcpu send_illegal j vm;
    }
  where
    both_left : (a b : Bool) → (a && b) ≡ true → a ≡ true
    both_left a b h = ground (arith, h)

    both_right : (a b : Bool) → (a && b) ≡ true → b ≡ true
    both_right a b h = ground (arith, h)
disabled-Sent id vector vm false e c = record {
  latched_irr = λ j u. rw e (or_false (latched j u vm));
  sender = λ j. rw e (
      no_report ((vm.apics j).receiver_esr send_illegal) (leb vector 15) (vm.vcpu == j)
        (is_enabled (vm.apics vm.vcpu)) c);
  receiver = λ j. rw e (
      or_false ((vm.apics j).receiver_esr recv_illegal)
      ∙ sym (or_and_false ((vm.apics j).receiver_esr recv_illegal) (leb vector 15)));
  irr = λ j. refl;
  isr = λ j. refl;
}

illegal_high : (vector : ℕ) → leb vector 15 ≡ true → ltb 15 vector ≡ false
illegal_high vector low = ground (arith, low)

-- The vector is illegal: the sender hears of it, and the target if that is another cpu.
illegal-Sent :
    (id vector : ℕ) (vm : Vm) (own : Bool)
    → is_enabled (vm.apics id) ≡ true
    → leb vector 15 ≡ true
    → (id == vm.vcpu) ≡ own
    → Sent true id vector vm (
        if own
        then report vm.vcpu send_illegal vm
        else report id recv_illegal (report vm.vcpu send_illegal vm))
illegal-Sent id vector vm true e low own = record {
  latched_irr = λ j u.
      rw (e, illegal_high vector low)
        (report-latched vm.vcpu send_illegal j u vm ∙ or_false (latched j u vm));
  sender = λ j. rw (e, low) (report-receiver_esr vm.vcpu send_illegal j send_illegal vm);
  receiver = λ j.
      rw (e, low, own)
        (report-receiver_esr vm.vcpu send_illegal j recv_illegal vm
          ∙ or_and_false ((vm.apics j).receiver_esr recv_illegal) (vm.vcpu == j)
          ∙ sym (or_and_false ((vm.apics j).receiver_esr recv_illegal) (id == j)));
  irr = λ j. report-irr vm.vcpu send_illegal j vm;
  isr = λ j. report-isr vm.vcpu send_illegal j vm;
}
illegal-Sent id vector vm false e low own =
    let first = report vm.vcpu send_illegal vm in
    record {
      latched_irr = λ j u.
          rw (e, illegal_high vector low)
            (report-latched id recv_illegal j u first
              ∙ report-latched vm.vcpu send_illegal j u vm
              ∙ or_false (latched j u vm));
      sender = λ j.
          rw (e, low)
            (report-receiver_esr id recv_illegal j send_illegal first
              ∙ or_and_false ((first.apics j).receiver_esr send_illegal) (id == j)
              ∙ sym (or_false ((first.apics j).receiver_esr send_illegal))
              ∙ report-receiver_esr vm.vcpu send_illegal j send_illegal vm);
      receiver = λ j.
          rw (e, low, own)
            (report-receiver_esr id recv_illegal j recv_illegal first
              ∙ ap (λ (b : Bool). b || (id == j && true))
                  (report-receiver_esr vm.vcpu send_illegal j recv_illegal vm
                    ∙ or_and_false ((vm.apics j).receiver_esr recv_illegal) (vm.vcpu == j)
                    ∙ sym (or_false ((vm.apics j).receiver_esr recv_illegal))));
      irr = λ j. report-irr id recv_illegal j first ∙ report-irr vm.vcpu send_illegal j vm;
      isr = λ j. report-isr id recv_illegal j first ∙ report-isr vm.vcpu send_illegal j vm;
    }

send_normal-Sent :
    (id vector : ℕ) (vm : Vm) (b low : Bool)
    → is_enabled (vm.apics id) ≡ b
    → leb vector 15 ≡ low
    → Sent true id vector vm (send_normal (not b) low id vector vm)
unfolding send_normal
send_normal-Sent id vector vm false low e f =
    rw⁻¹ f (disabled-Sent id vector vm (leb vector 15 && is_enabled (vm.apics vm.vcpu)) e refl)
send_normal-Sent id vector vm true true e f = illegal-Sent id vector vm (id == vm.vcpu) e f refl
send_normal-Sent id vector vm true false e f =
    let x = latch_vector vector (vm.apics id) in
    let high : ltb 15 vector ≡ true = ground (arith, f) in
    record {
      latched_irr = λ j u. rw (e, high) (latch_vector-latched id vector j u vm);
      sender = λ j.
          rw (e, f)
            (same_apic (λ (y : X2apic). y.receiver_esr send_illegal) id j x vm refl
              ∙ or_false ((vm.apics j).receiver_esr send_illegal));
      receiver = λ j.
          rw (e, f)
            (same_apic (λ (y : X2apic). y.receiver_esr recv_illegal) id j x vm refl
              ∙ or_false ((vm.apics j).receiver_esr recv_illegal));
      irr = λ j. same_apic (λ (y : X2apic). y.irr) id j x vm refl;
      isr = λ j. same_apic (λ (y : X2apic). y.isr) id j x vm refl;
    }

-- The assertions of a send hold.
guarded :
    (v r : Option Vm) (on beyond listed : Bool)
    → on ≡ true
    → (beyond ≡ true) ⊎ (listed ≡ true)
    → (if not on then none else (if beyond then v else (if listed then r else none)))
      ≡ (if beyond then v else r)
guarded v r on true listed h k = rw h refl
guarded v r on false listed h (inl k) = cc
guarded v r on false listed h (inr k) = rw (h, k) refl

send_packet-deliver :
    (id vector : ℕ) (mode : DeliveryMode) (vm : Vm)
    → vm.interrupts_on ≡ true
    → (leb vm.num_vcpus id ≡ true) ⊎ (vm.registered id ≡ true)
    → send_packet id vector mode vm
      ≡ (if leb vm.num_vcpus id then some vm else deliver mode id vector vm)
unfolding send_packet
send_packet-deliver id vector mode vm on listed =
    guarded (some vm) (deliver mode id vector vm) vm.interrupts_on (leb vm.num_vcpus id)
      (vm.registered id) on listed

-- With interrupts on, and with every cpu of the domain on its bus, a packet of a mode that is sent, to
-- any cpu of the domain or to none, fails no assertion. A normal
-- interrupt with a vector above 15 is latched by an enabled target, and no other vector of any cpu is
-- latched or lost. An illegal vector is reported to the sender if the target or the sender is enabled,
-- and to an enabled target that is another cpu. Pending vectors and those in service stay.
pub send_packet-Sent :
    (id vector : ℕ) (mode : DeliveryMode) (vm : Vm)
    → is_sent mode ≡ true
    → vm.interrupts_on ≡ true
    → ((j : ℕ) → j < vm.num_vcpus → vm.registered j ≡ true)
    → (after : Vm) × (send_packet id vector mode vm ≡ some after)
      × Sent (ltb id vm.num_vcpus && is_normal mode) id vector vm after
unfolding deliver
send_packet-Sent id vector mode vm e on complete = elim (Bool-cases (leb vm.num_vcpus id)) [
  | inl beyond ↦
      let none_there : ltb id vm.num_vcpus ≡ false = ground (arith, beyond) in
      (
        vm,
        send_packet-deliver id vector mode vm on (inl beyond) ∙ rw beyond refl,
        rw none_there (unchanged-Sent id vector vm),
      )
  | inr there ↦
      let within : ltb id vm.num_vcpus ≡ true = ground (arith, there) in
      let listed : vm.registered id ≡ true = complete id (ground (arith, there)) in
      let (after, ran, sent) = delivered mode e in
      (after, send_packet-deliver id vector mode vm on (inr listed) ∙ rw there ran, rw within sent)
]
  where
    kept : (b : Bool) (l : Latch) → Sent false id vector vm (if b then vm else with_latch id l vm)
    kept true l = unchanged-Sent id vector vm
    kept false l = with_latch-Sent id vector l vm

    delivered :
        (mode : DeliveryMode)
        → is_sent mode ≡ true
        → (after : Vm) × (deliver mode id vector vm ≡ some after)
          × Sent (is_normal mode) id vector vm after
    delivered DeliveryMode.normal e = (
      _,
      refl,
      send_normal-Sent id vector vm (is_enabled (vm.apics id)) (leb vector 15) refl refl,
    )
    delivered DeliveryMode.nmi e =
        (_, refl, with_latch-Sent id vector (record (vm.apics id).latch { nmi_pending = true }) vm)
    delivered DeliveryMode.init e = (_, refl, kept (id == vm.vcpu) (init_latch (vm.apics id).latch))
    delivered DeliveryMode.startup e =
        (_, refl, kept (id == vm.vcpu) (startup_latch vector (vm.apics id).latch))
    delivered DeliveryMode.low_priority e = absurd (cc)
    delivered DeliveryMode.smi e = absurd (cc)
    delivered DeliveryMode.reserved0 e = absurd (cc)
    delivered DeliveryMode.external e = absurd (cc)
