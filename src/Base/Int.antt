-- ===== src/Base/Int.antt =====
-- The values of a C `int`: signed integers over the native numbers.
use Prim.Native.Nat.{ℕ, ◌-◌, ◌%◌, ◌^◌}
use mathlib.Core.Bool.{Bool, true, false}
use lumen_rtc.Base.Tests.{ltb, if◌then◌else◌}

-- `negsuc n` is -(n + 1).
pub data ℤ : Type 0 where
  pos : ℕ → ℤ
  negsuc : ℕ → ℤ

-- `x >= 0`.
abbrev pub is_nonneg : ℤ → Bool
is_nonneg (pos n) = true
is_nonneg (negsuc n) = false

-- `x != 0`, C's reading of an int as a truth value.
abbrev pub truthy : ℤ → Bool
truthy (pos n) = ltb 0 n
truthy (negsuc n) = true

-- The conversion `static_cast<int32_t>` of an unsigned value: modulo 2^32, in two's complement.
abbrev pub to_i32 : ℕ → ℤ
to_i32 n = let w = n % 2 ^ 32 in if ltb w (2 ^ 31) then pos w else negsuc (2 ^ 32 - w - 1)
