-- ===== src/X2apic/Bus.antt =====
-- Interrupts that one virtual cpu sends to another of its domain, and how a cpu receives them, from
-- arch/x86_64/ia32e/src/ia32eEmulator.c.
pub mod Latched
pub mod Changes
pub mod Packets
pub mod Legal
use workhorse_rt.Common.{
  ℕ, zero, suc, ◌+◌, ◌/◌, ◌%◌, Bool, true, false, not, ◌&&◌, ◌||◌, Option, none, some, ◌∷◌, ◌==◌,
  leb, ltb, if◌then◌else◌, update,
}
use workhorse_rt.Word.{Word, any_of}
use workhorse_rt.X2apic.{
  X2apic, Latch, Registers, Callback, is_enabled, or_bit, set_vector, has_vector,
}

-- A domain with its apicBus, in which `registered` are the entries that are not NULL. The running cpu
-- is `vcpu`, its controller is the one on the bus, and `interrupts_on` is the interrupt flag of the
-- physical cpu.
pub record Vm : Type 0 where
  pub apics : ℕ → X2apic
  pub registered : ℕ → Bool
  pub interrupts_on : Bool
  pub num_vcpus : ℕ
  pub vcpu : ℕ

pub data DeliveryMode : Type 0 where
  normal low_priority smi reserved0 nmi init startup external : DeliveryMode

-- IA32E_XAPIC_ESR_SEND_ILLEGAL_MASK and IA32E_XAPIC_ESR_RECV_ILLEGAL_MASK
abbrev pub send_illegal : ℕ
send_illegal = 5

abbrev pub recv_illegal : ℕ
recv_illegal = 6

abbrev pub set_apic : ℕ → X2apic → Vm → Vm
set_apic id x vm = record vm { apics = update vm.apics id x }

abbrev pub report : ℕ → ℕ → Vm → Vm
report id error vm =
    let x = vm.apics id in set_apic id (record x { receiver_esr = or_bit error x.receiver_esr }) vm

abbrev pub latch_vector : ℕ → X2apic → X2apic
latch_vector vector x = record x { latched_irr = set_vector vector x.latched_irr }

abbrev pub set_latch : Latch → X2apic → X2apic
set_latch latch x = record x { latch = latch }

-- The three cases of a normal interrupt: the target is disabled, the vector is illegal, or neither.
unfoldable pub send_normal : Bool → Bool → ℕ → ℕ → Vm → Vm
send_normal true illegal id vector vm =
    if illegal && is_enabled (vm.apics vm.vcpu) then report vm.vcpu send_illegal vm else vm
send_normal false true id vector vm =
    let reported = report vm.vcpu send_illegal vm in
    if id == vm.vcpu then reported else report id recv_illegal reported
send_normal false false id vector vm = set_apic id (latch_vector vector (vm.apics id)) vm

unfoldable pub init_latch : Latch → Latch
init_latch l = record l { init_pending = not l.wait_for_sipi; sipi_pending = false }

unfoldable pub startup_latch : ℕ → Latch → Latch
startup_latch vector l =
    if (l.wait_for_sipi || l.init_pending) && not l.sipi_pending
    then record l { sipi_vector = vector; sipi_pending = true }
    else l

unfoldable pub with_latch : ℕ → Latch → Vm → Vm
with_latch id l vm = set_apic id (set_latch l (vm.apics id)) vm

unfoldable pub deliver : DeliveryMode → ℕ → ℕ → Vm → Option Vm
unfolding send_normal init_latch startup_latch with_latch
deliver DeliveryMode.normal id vector vm =
    some (send_normal (not (is_enabled (vm.apics id))) (leb vector 15) id vector vm)
deliver DeliveryMode.nmi id vector vm =
    some (with_latch id (record (vm.apics id).latch { nmi_pending = true }) vm)
deliver DeliveryMode.init id vector vm =
    some (if id == vm.vcpu then vm else with_latch id (init_latch (vm.apics id).latch) vm)
deliver DeliveryMode.startup id vector vm =
    some (if id == vm.vcpu then vm else with_latch id (startup_latch vector (vm.apics id).latch) vm)
deliver _ id vector vm = none

-- ia32eEmulatorX2apicSendPacket; `none` is a failed assertion.
unfoldable pub send_packet : ℕ → ℕ → DeliveryMode → Vm → Option Vm
unfolding deliver
send_packet id vector mode vm =
    if not vm.interrupts_on
    then none
    else (if leb vm.num_vcpus id
        then some vm
        else (if vm.registered id then deliver mode id vector vm else none))

-- What ia32eEmulatorX2apicCheckReceiverEsr does with the error interrupt, which `vector` is.
unfoldable pub raise_error : ℕ → Word → X2apic → X2apic
raise_error vector receiver x =
    if ltb 15 vector
    then record (if is_enabled x then latch_vector vector x else x) {
      pending_esr = λ i. x.pending_esr i || receiver i;
    }
    else record x { pending_esr = λ i. x.pending_esr i || or_bit recv_illegal receiver i }

unfoldable pub check_receiver_esr : X2apic → X2apic
unfolding raise_error any_of
check_receiver_esr x =
    let receiver = x.receiver_esr in
    let cleared = record x { receiver_esr = λ i. false } in
    let masked = x.lvt_error / 65536 % 2 == 1 in
    if not (any_of 0 8 x.pending_esr) && (any_of 0 8 receiver && not masked)
    then raise_error (x.lvt_error % 256) receiver cleared
    else record cleared { pending_esr = λ i. x.pending_esr i || receiver i }

abbrev pub request : ℕ → X2apic → X2apic
request vector x = record x {
  irr = set_vector vector x.irr;
  calls = Callback.irr_callback vector ∷ x.calls;
}

-- The loop of ia32eEmulatorX2apicCheckLatchedIrr over `n` vectors from `i` on.
unfoldable pub request_from : ℕ → ℕ → Registers → X2apic → Option X2apic
request_from zero i vectors x = some x
request_from (suc n) i vectors x =
    let rest = request_from n (suc i) vectors (if has_vector i vectors then request i x else x) in
    if has_vector i vectors && leb i 15 then none else rest

unfoldable pub check_latched_irr : X2apic → Option X2apic
unfolding request_from
check_latched_irr x = request_from 256 0 x.latched_irr (record x { latched_irr = λ i. λ b. false })
