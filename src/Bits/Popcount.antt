-- ===== src/Bits/Popcount.antt =====
-- The loop `while (word) { count++; word &= word - 1; }` counts the set bits of a word.
use Prim.Native.Nat.{bit_and}
use native.Mathlib.Nat.{pow-suc}
use rayos.Base.{
  ℕ, zero, suc, ◌+◌, ◌-◌, ◌*◌, ◌/◌, ◌%◌, ◌^◌, ◌≤◌, ◌<◌, ◌≡◌, refl, arith, ◌==◌, inl, inr,
  Bool-cases, ==→eq,
}
use rayos.Bits.Step.{bit_and_lowest}

-- The bits of a word of at most n bits, summed.
unfoldable pub popcount : ℕ → ℕ → ℕ
popcount zero w = 0
popcount (suc n) w = w % 2 + popcount n (w / 2)

pub popcount-of_zero : (n : ℕ) → popcount n 0 ≡ 0
unfolding popcount
popcount-of_zero zero = refl
popcount-of_zero (suc n) = omega (arith, popcount-of_zero n)

pub popcount-le : (n w : ℕ) → popcount n w ≤ n
unfolding popcount
popcount-le zero w = omega arith
popcount-le (suc n) w = omega (arith, popcount-le n (w / 2))

bit_and_self_fuel : (n a : ℕ) → a ≤ n → bit_and a a ≡ a
bit_and_self_fuel n zero h = refl
bit_and_self_fuel zero (suc a) h = absurd (omega arith)
bit_and_self_fuel (suc n) (suc a) h =
    omega (arith, bit_and_lowest (suc a) (suc a), bit_and_self_fuel n (suc a / 2) (omega arith))

bit_and_self : (a : ℕ) → bit_and a a ≡ a
bit_and_self a = bit_and_self_fuel a a (omega arith)

-- `w & (w - 1)` drops one set bit.
pub popcount-bit_and_pred :
    (n w : ℕ) → 0 < w → w < 2 ^ n → popcount n (bit_and w (w - 1)) + 1 ≡ popcount n w
unfolding popcount
popcount-bit_and_pred zero w h fits = absurd (omega arith)
popcount-bit_and_pred (suc n) w h fits = elim (Bool-cases (w % 2 == 0)) [
  | inl even ↦
      let half : (w - 1) / 2 ≡ w / 2 - 1 = omega (arith, ==→eq _ _ even) in
      let and_half : bit_and w (w - 1) ≡ bit_and (w / 2) (w / 2 - 1) * 2 =
        rw (← half) (omega (arith, bit_and_lowest (w - 1) w, ==→eq _ _ even)) in
      let rest : bit_and w (w - 1) / 2 ≡ bit_and (w / 2) (w / 2 - 1) = omega arith in
      rw rest (
        omega (
          arith,
          ==→eq _ _ even,
          popcount-bit_and_pred n (w / 2) (omega (arith, ==→eq _ _ even))
              (omega (arith, pow-suc 2 n)),
        ))
  | inr odd ↦
      let half : (w - 1) / 2 ≡ w / 2 = ground arith in
      let and_half : bit_and w (w - 1) ≡ bit_and (w / 2) (w / 2) * 2 =
        rw (← half) (ground (arith, bit_and_lowest (w - 1) w)) in
      let rest : bit_and w (w - 1) / 2 ≡ w / 2 = omega (arith, bit_and_self (w / 2)) in
      rw rest (ground arith)
]
