-- ===== src/Bits/Word.antt =====
-- One bit of a 64-bit word: the idioms `w | (1ULL << k)`, `w & ~(1ULL << k)`, `w & (1ULL << k)`.
use Prim.Native.Nat.{bit_and, bit_or}
use native.Mathlib.Nat.{pow-suc, pow-le-pow_right, one-le-pow, mod-eq_of_lt}
use rayos.Base.{ℕ, zero, suc, ◌-◌, ◌*◌, ◌^◌, ◌≤◌, ◌<◌, ◌≡◌, arith, not, ◌==◌, if◌then◌else◌}
use rayos.Bits.{digit, digit-le-one, one_shl, complement}
use rayos.Bits.Ops.{
  digit-bit_and, digit-bit_or, digit-pow, digit-complement, bit_and-pow, bit_or-lt-pow,
  bit_and-le_left,
}

pub pow-lt-pow : (i j : ℕ) → i < j → 2 ^ i < 2 ^ j
pow-lt-pow i j h =
    let twice : 2 ^ suc i ≤ 2 ^ j = pow-le-pow_right (omega arith) h in
    omega (arith, pow-suc 2 i, one-le-pow i 2 (omega arith))

pub one_shl_lem : (k : ℕ) → k < 64 → one_shl k ≡ 2 ^ k
one_shl_lem k h = mod-eq_of_lt (pow-lt-pow k 64 h)

pub digit-or_one_shl :
    (w k j : ℕ) → k < 64 → digit (bit_or w (one_shl k)) j ≡ (if j == k then 1 else digit w j)
digit-or_one_shl w k j h =
    rw (one_shl_lem k h, digit-bit_or j w (2 ^ k), digit-pow j k) (ground (arith, digit-le-one w j))

pub digit-and_complement :
    (w k j : ℕ)
    → k < 64
    → j < 64
    → digit (bit_and w (complement (one_shl k))) j ≡ (if j == k then 0 else digit w j)
digit-and_complement w k j h hj =
    rw
      (
        one_shl_lem k h,
        digit-bit_and j w (2 ^ 64 - 1 - 2 ^ k),
        digit-complement 64 j (2 ^ k) (pow-lt-pow k 64 h) hj,
        digit-pow j k,
      )
      (ground (arith, digit-le-one w j))

pub test-one_shl : (w k : ℕ) → k < 64 → not (bit_and w (one_shl k) == 0) ≡ (digit w k == 1)
test-one_shl w k h =
    rw (one_shl_lem k h, bit_and-pow k w)
      (bit (digit w k) (2 ^ k) (digit-le-one w k) (one-le-pow k 2 (omega arith)))
  where
    bit : (d p : ℕ) → d ≤ 1 → 1 ≤ p → not (d * p == 0) ≡ (d == 1)
    bit zero p hd hp = ground arith
    bit (suc zero) p hd hp = ground arith
    bit (suc (suc d)) p hd hp = absurd (omega arith)

pub or_one_shl-fits : (w k : ℕ) → w < 2 ^ 64 → k < 64 → bit_or w (one_shl k) < 2 ^ 64
or_one_shl-fits w k hw h = bit_or-lt-pow 64 w (one_shl k) hw (omega arith)

pub and-fits : (w m : ℕ) → w < 2 ^ 64 → bit_and w m < 2 ^ 64
and-fits w m h = omega (arith, bit_and-le_left w w m (omega arith))
