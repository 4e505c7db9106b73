-- ===== src/Common/Int.antt =====
-- Signed results of the kernel's C functions.
use Prim.Native.Nat.{ℕ, ◌-◌, ◌^◌}
use workhorse_rt.Common.Tests.{ltb, if◌then◌else◌}

-- `negsuc n` is -(n + 1).
pub data ℤ : Type 0 where
  pos : ℕ → ℤ
  negsuc : ℕ → ℤ

-- A uintptr_t read as an intptr_t, on a 64-bit machine.
unfoldable pub to_intptr : ℕ → ℤ
to_intptr n = if ltb n (2 ^ 63) then pos n else negsuc (2 ^ 64 - n - 1)
