-- ===== src/Base/Int.antt =====
-- Signed results: the value that a C `int` holds after a conversion from `size_t`.
use Prim.Native.Nat.{ℕ, ◌-◌, ◌%◌, ◌^◌, ◌<◌}
use mathlib.Core.Path.{◌≡◌}
use native.Mathlib.Omega.{arith}
use rayos.Base.Tests.{ltb, if◌then◌else◌}

-- `negsuc n` is -(n + 1).
pub data ℤ : Type 0 where
  pos : ℕ → ℤ
  negsuc : ℕ → ℤ

-- `(int)x` of an unsigned `x`: the low 32 bits, read as two's complement.
abbrev pub to_int : ℕ → ℤ
to_int x = if ltb (x % 2 ^ 32) (2 ^ 31) then pos (x % 2 ^ 32) else negsuc (2 ^ 32 - x % 2 ^ 32 - 1)

pub to_int_small : (x : ℕ) → x < 2 ^ 31 → to_int x ≡ pos x
to_int_small x h = ground arith
