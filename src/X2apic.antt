-- ===== src/X2apic.antt =====
-- The interrupt controllers of the virtual cpus of a domain, from
-- arch/x86_64/ia32e/src/ia32eEmulator.c. The latch lock is held where the code holds it.
pub mod Vectors
pub mod Scan
pub mod Priority
pub mod Nesting
pub mod Bus
pub mod Timer
mod Tests
use workhorse_rt.Common.{
  ℕ, zero, suc, ◌+◌, ◌*◌, ◌/◌, ◌%◌, Bool, true, false, not, ◌&&◌, ◌||◌, Option, none, some, List,
  [], ◌∷◌, ◌==◌, leb, ltb, if◌then◌else◌, update,
}
use workhorse_rt.Word.{Word, any_of, fls32}

-- uint32_t irr[8], isr[8] and latchedIrr[8]
abbrev pub Registers : Type 0
Registers = ℕ → Word

-- The calls of the callbacks that a plugin registers.
pub data Callback : Type 0 where
  irr_callback isr_callback eoi_callback : (vector : ℕ) → Callback

pub record Latch : Type 0 where
  pub wait_for_sipi : Bool
  pub init_pending : Bool
  pub sipi_pending : Bool
  pub sipi_vector : ℕ
  pub nmi_pending : Bool

-- ia32eVtxX2apic_t, without the timer.
pub record X2apic : Type 0 where
  pub latch : Latch
  pub latched_irr : Registers
  pub tpr : ℕ
  pub sivr : ℕ
  pub irr : Registers
  pub isr : Registers
  pub receiver_esr : Word
  pub pending_esr : Word
  pub lvt_error : ℕ
  pub calls : List Callback

-- IA32E_XAPIC_SIVR_ENABLE_MASK
abbrev pub is_enabled : X2apic → Bool
is_enabled x = x.sivr / 256 % 2 == 1

abbrev pub or_bit : ℕ → Word → Word
or_bit b w i = if b == i then true else w i

abbrev pub clear_bit : ℕ → Word → Word
clear_bit b w i = if b == i then false else w i

-- `regs[vector / 32] |= 1 << (vector % 32)`
unfoldable pub set_vector : ℕ → Registers → Registers
set_vector vector regs = update regs (vector / 32) (or_bit (vector % 32) (regs (vector / 32)))

unfoldable pub has_vector : ℕ → Registers → Bool
has_vector vector regs = regs (vector / 32) (vector % 32)

-- The loops over registers from the last one on: a register with a set bit, and its highest bit.
unfoldable pub scan : ℕ → Registers → Option (ℕ × ℕ)
scan zero regs = none
scan (suc i) regs = elim (fls32 (regs i)) [ some idx ↦ some (i, idx) | none ↦ scan i regs ]

abbrev pub vector_or : ℕ → Option (ℕ × ℕ) → ℕ
vector_or none_found none = none_found
vector_or none_found (some (i, idx)) = i * 32 + idx

abbrev pub vector_at : Option (ℕ × ℕ) → Option ℕ
vector_at none = none
vector_at (some (i, idx)) = some (i * 32 + idx)

unfoldable pub unset_at : Option (ℕ × ℕ) → Registers → Registers
unset_at none regs = regs
unset_at (some (i, idx)) regs = update regs i (clear_bit idx (regs i))

-- ia32eEmulatorX2apicGetIsrv
unfoldable pub get_isrv : X2apic → ℕ
unfolding scan
get_isrv x = vector_or 0 (scan 8 x.isr)

unfoldable pub eoi_at : Option (ℕ × ℕ) → X2apic → X2apic
unfolding unset_at
eoi_at none x = x
eoi_at (some (i, idx)) x = record x {
  isr = unset_at (some (i, idx)) x.isr;
  calls = Callback.eoi_callback (i * 32 + idx) ∷ x.calls;
}

-- ia32eEmulatorX2apicUnsetIsrv
unfoldable pub unset_isrv : X2apic → X2apic
unfolding scan eoi_at
unset_isrv x = eoi_at (scan 8 x.isr) x

-- ia32eEmulatorX2apicSetIsrv
unfoldable pub set_isrv : ℕ → X2apic → X2apic
unfolding set_vector
set_isrv vector x = record x {
  isr = set_vector vector x.isr;
  calls = Callback.isr_callback vector ∷ x.calls;
}

abbrev pub max : ℕ → ℕ → ℕ
max a b = if ltb a b then b else a

-- ia32eEmulatorX2apicGetPpr, where the task priority is in range.
unfoldable pub get_ppr : X2apic → ℕ
unfolding get_isrv
get_ppr x = max x.tpr (get_isrv x / 16)

-- ia32eEmulatorX2apicGetIrrPending; -1 is `none`.
unfoldable pub get_irr_pending : X2apic → Option ℕ
unfolding scan
get_irr_pending x = if is_enabled x then vector_at (scan 8 x.irr) else none

-- ia32eEmulatorX2apicUnsetIrrPending
unfoldable pub unset_irr_pending : X2apic → X2apic
unfolding scan unset_at
unset_irr_pending x = record x { irr = unset_at (scan 8 x.irr) x.irr }

-- A write of 0 to the EOI register.
unfoldable pub write_eoi : X2apic → X2apic
unfolding unset_isrv
write_eoi x = if is_enabled x then unset_isrv x else x

-- What the guest allows when it is entered: its interrupt flag and what is blocked.
pub record Guest : Type 0 where
  pub nmis_blocked : Bool
  pub ints_blocked : Bool
  pub interrupt_flag : Bool

pub data Injection : Type 0 where
  nothing nmi assert_failed : Injection
  external : (vector : ℕ) → Injection

-- Whether the pending interrupt has a higher priority than the cpu.
unfoldable pub is_pending : ℕ → Option ℕ → Bool
is_pending ppr none = false
is_pending ppr (some vector) = ltb ppr (vector / 16)

unfoldable pub take_interrupt : Option ℕ → X2apic → Injection × X2apic
unfolding unset_irr_pending set_isrv
take_interrupt none x = (Injection.nothing, x)
take_interrupt (some vector) x =
    if leb vector 15
    then (Injection.assert_failed, x)
    else (Injection.external vector, set_isrv vector (unset_irr_pending x))

unfoldable pub external_if : Bool → Option ℕ → X2apic → Injection × X2apic
unfolding take_interrupt
external_if true vector x = take_interrupt vector x
external_if false vector x = (Injection.nothing, x)

-- The event that is injected when the guest is entered, where nothing is injected yet.
unfoldable pub inject : Guest → X2apic → Injection × X2apic
unfolding get_irr_pending get_ppr is_pending external_if
inject g x =
    let vector = get_irr_pending x in
    if x.latch.nmi_pending && not g.nmis_blocked
    then (Injection.nmi, record x { latch = record x.latch { nmi_pending = false } })
    else external_if (is_pending (get_ppr x) vector && (g.interrupt_flag && not g.ints_blocked))
        vector x
