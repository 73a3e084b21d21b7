-- ===== src/Bits.antt =====
-- Bits of machine words. `digit w i` is bit i of w; the laws say what `|`, `&` and `~` do to it.
pub mod Step
pub mod Ops
pub mod Word
pub mod Popcount
pub mod Tally
use rayos.Base.{ℕ, zero, suc, ◌/◌, ◌%◌, ◌^◌, ◌≡◌, ◌≤◌, ◌-◌, refl, arith}

unfoldable pub digit : ℕ → ℕ → ℕ
digit w zero = w % 2
digit w (suc i) = digit (w / 2) i

pub digit-le-one : (w i : ℕ) → digit w i ≤ 1
unfolding digit
digit-le-one w zero = omega arith
digit-le-one w (suc i) = digit-le-one (w / 2) i

pub digit-of_zero : (i : ℕ) → digit 0 i ≡ 0
unfolding digit
digit-of_zero zero = refl
digit-of_zero (suc i) = digit-of_zero i

-- `1ULL << k`
abbrev pub one_shl : ℕ → ℕ
one_shl k = 2 ^ k % 2 ^ 64

-- `~x` of a `uint64_t`
abbrev pub complement : ℕ → ℕ
complement x = 2 ^ 64 - 1 - x
