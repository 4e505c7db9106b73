-- ===== src/X2apic/Tests.antt =====
-- Two virtual cpus and the interrupts between them.
use workhorse_rt.Common.{ℕ, ◌≡◌, ◌<◌, refl, true, false, some, [], ◌==◌, arith, ◌&&◌, ap, ltb}
use workhorse_rt.Word.{any_of, halve, search, found_bit, fls32}
use workhorse_rt.X2apic.{
  X2apic, Latch, Guest, Injection, Registers, inject, write_eoi, has_vector, get_ppr, set_vector,
}
use workhorse_rt.X2apic as Apic
use workhorse_rt.X2apic.Nesting.{write_eoi-inject}
use workhorse_rt.X2apic.Bus.{Vm, DeliveryMode, send_packet, check_latched_irr, check_receiver_esr}
use workhorse_rt.X2apic.Bus.Latched.{IsLegal, Collected, check_latched_irr-Collected}
use workhorse_rt.X2apic.Bus.Changes.{Sent}
use workhorse_rt.X2apic.Bus.Packets.{send_packet-Sent}
use workhorse_rt.X2apic.Bus.Legal.{bus_stays-IsLegal}
use workhorse_rt.X2apic.Timer.{
  Timer, divider, read_counter, write_div_conf, set_dcr, decompress_counter,
}
use workhorse_rt.X2apic.Timer.Divide.{Divided, write_div_conf-Divided}

abbrev no_vectors : Registers
no_vectors i b = false

-- Vector 32 * 2 + 5.
abbrev one_vector : Registers
one_vector i b = (i == 2) && (b == 5)

abbrev quiet : X2apic
quiet = record {
  latch = record {
    wait_for_sipi = false;
    init_pending = false;
    sipi_pending = false;
    sipi_vector = 0;
    nmi_pending = false;
  };
  latched_irr = one_vector;
  tpr = 1;
  sivr = 256;
  irr = one_vector;
  isr = no_vectors;
  receiver_esr = λ i. false;
  pending_esr = λ i. false;
  lvt_error = 0;
  calls = [];
}

abbrev guest : Guest
guest = record { nmis_blocked = false; ints_blocked = false; interrupt_flag = true }

injected : (inject guest quiet).0 ≡ Injection.external 69
unfolding inject Apic.get_irr_pending Apic.get_ppr Apic.is_pending Apic.external_if
    Apic.take_interrupt Apic.scan fls32 any_of halve search found_bit Apic.get_isrv
injected = refl

write_eoi-inject_example :
    ((u : ℕ)
      → u < 256
      → has_vector u (write_eoi (inject guest quiet).1).isr ≡ has_vector u quiet.isr)
    × (get_ppr (write_eoi (inject guest quiet).1) ≡ get_ppr quiet)
write_eoi-inject_example =
    write_eoi-inject guest quiet (inject guest quiet).1 69
      (ap (λ (i : Injection). (i, (inject guest quiet).1)) injected)

one_vector-IsLegal : IsLegal one_vector
unfolding has_vector
one_vector-IsLegal v low = ground (arith, low)

check_latched_irr-Collected_example :
    (y : X2apic) × (check_latched_irr quiet ≡ some y) × Collected quiet y
check_latched_irr-Collected_example = check_latched_irr-Collected quiet one_vector-IsLegal

abbrev pair : Vm
pair = record {
  apics = λ id. quiet;
  registered = λ id. ltb id 2;
  interrupts_on = true;
  num_vcpus = 2;
  vcpu = 0;
}

pair_registered : (j : ℕ) → j < 2 → ltb j 2 ≡ true
pair_registered j below = ground (arith, below)

send_packet-Sent_example :
    (after : Vm) × (send_packet 1 70 DeliveryMode.normal pair ≡ some after)
    × Sent true 1 70 pair after
send_packet-Sent_example = send_packet-Sent 1 70 DeliveryMode.normal pair refl refl pair_registered

bus_stays-IsLegal_example :
    (after : Vm) × (send_packet 1 3 DeliveryMode.normal pair ≡ some after)
    × ((j : ℕ) → IsLegal (after.apics j).latched_irr)
    × ((j : ℕ) → IsLegal (check_receiver_esr (after.apics j)).latched_irr)
    × ((j : ℕ) → (y : X2apic) × (check_latched_irr (check_receiver_esr (after.apics j)) ≡ some y))
bus_stays-IsLegal_example =
    bus_stays-IsLegal 1 3 DeliveryMode.normal pair refl refl pair_registered
      (λ j. one_vector-IsLegal)

-- A timer with 100 units of 4 ticks left, which is set to units of 128 ticks.
abbrev timer : Timer
timer = record { dcr = 1; init_count = 1000; value = 100; enabled = true; saved = true }

write_div_conf-Divided_example :
    (read_counter timer ≡ some 400)
    × ((u : Timer) × (write_div_conf 10 timer ≡ some (true, u)) × Divided 10 400 u)
write_div_conf-Divided_example = write_div_conf-Divided 10 timer refl refl refl (omega arith)

timer-written :
    write_div_conf 10 timer
    ≡ some (true, record { dcr = 10; init_count = 1000; value = 3; enabled = true; saved = true })
unfolding write_div_conf set_dcr decompress_counter divider
timer-written = refl
