-- ===== src/X2apic/Timer.antt =====
-- The timer of an interrupt controller, from arch/x86_64/ia32e/src/ia32eEmulator.c. It counts by the
-- preemption timer of the VMCS, whose fields are part of the state here.
pub mod Divide
use workhorse_rt.Common.{
  ℕ, ◌*◌, ◌/◌, ◌%◌, ◌^◌, Bool, true, false, not, ◌&&◌, Option, none, some, ◌==◌, if◌then◌else◌,
}

pub record Timer : Type 0 where
  pub dcr : ℕ
  pub init_count : ℕ
  pub value : ℕ  -- IA32E_VTX_VMCS_GUEST_VMX_PREEMPTION_TIMER_VALUE
  pub enabled : Bool  -- the bit of the pin based controls
  pub saved : Bool  -- the bit of the exit controls

-- The two switches over IA32E_XAPIC_DIV_2 to IA32E_XAPIC_DIV_1; `none` is their failed assertion.
unfoldable pub divider : ℕ → Option ℕ
divider dcr =
    if dcr == 0
    then some 2
    else (if dcr == 1
        then some 4
        else (if dcr == 2
            then some 8
            else (if dcr == 3
                then some 16
                else (if dcr == 8
                    then some 32
                    else (if dcr == 9
                        then some 64
                        else (if dcr == 10
                            then some 128
                            else (if dcr == 11 then some 1 else none)))))))

abbrev pub divide_by : ℕ → Option ℕ → Option ℕ
divide_by count none = none
divide_by count (some d) = some (count / d)

abbrev pub multiply_by : ℕ → Option ℕ → Option ℕ
multiply_by count none = none
multiply_by count (some d) = some (count * d % 2 ^ 32)

unfoldable pub compress_counter : ℕ → ℕ → Option ℕ
unfolding divider
compress_counter count dcr = divide_by count (divider dcr)

unfoldable pub decompress_counter : ℕ → ℕ → Option ℕ
unfolding divider
decompress_counter count dcr = multiply_by count (divider dcr)

unfoldable pub start : Option ℕ → Timer → Option Timer
start none t = none
start (some count) t =
    some (record t { value = count; enabled = true; saved = if t.enabled then t.saved else true })

unfoldable pub reset_counter : Timer → Option Timer
unfolding compress_counter start
reset_counter t =
    if t.init_count == 0
    then some (if t.enabled then record t { value = 0; enabled = false; saved = false } else t)
    else start (compress_counter t.init_count t.dcr) t

unfoldable pub read_counter : Timer → Option ℕ
unfolding decompress_counter
read_counter t = if t.enabled then decompress_counter t.value t.dcr else some 0

abbrev pub with_value : Timer → Option ℕ → Option Timer
with_value t none = none
with_value t (some value) = some (record t { value = value })

abbrev pub compressed : ℕ → Option ℕ → Option ℕ
compressed dcr none = none
compressed dcr (some count) = divide_by count (divider dcr)

-- The divisor changes, and with it the unit that the preemption timer counts in.
unfoldable pub set_dcr : ℕ → Timer → Option Timer
unfolding decompress_counter divider
set_dcr dcr t =
    let changed = record t { dcr = dcr } in
    if not (dcr == t.dcr) && t.enabled
    then with_value changed (compressed dcr (decompress_counter t.value t.dcr))
    else some changed

abbrev pub written : Option Timer → Option (Bool × Timer)
written none = none
written (some t) = some (true, t)

-- A write to the divide configuration register, and whether it is valid.
unfoldable pub write_div_conf : ℕ → Timer → Option (Bool × Timer)
unfolding set_dcr
write_div_conf val t =
    if val / 16 == 0 && val / 4 % 2 == 0 then written (set_dcr val t) else some (false, t)
