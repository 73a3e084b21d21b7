-- ===== src/Bits/Step.antt =====
-- The native `&` and `|` recur on digits, with the first number as their fuel. Here the fuel is
-- gone: one equation each, for the lowest digit.
use Prim.Native.Nat.{bit_and, bit_or, bitwise, digits, bit_and-bitwise, bit_or-bitwise}
use rayos.Base.{
  ℕ, zero, suc, ◌+◌, ◌*◌, ◌/◌, ◌%◌, ◌≤◌, ◌≡◌, refl, min, max, arith, ap, sym, ◌∙◌, ◌-◌,
}

module _ (stop : ℕ → ℕ) (op : ℕ → ℕ → ℕ) where
  of_zero : (fuel b : ℕ) → digits stop op fuel 0 b ≡ stop b
  of_zero zero b = refl
  of_zero (suc fuel) b = refl

  -- Fuel past the first number makes no difference.
  spare_fuel :
      (b a extra fuel : ℕ) → a ≤ fuel → digits stop op (fuel + extra) a b ≡ digits stop op fuel a b
  spare_fuel b zero extra fuel h = of_zero (fuel + extra) b ∙ sym (of_zero fuel b)
  spare_fuel b (suc a) extra zero h = absurd (omega arith)
  spare_fuel b (suc a) extra (suc fuel) h =
      let more : suc fuel + extra ≡ suc (fuel + extra) = omega arith in
      let halves = spare_fuel (b / 2) (suc a / 2) extra fuel (omega arith) in
      rw more (ap (λ t. t * 2 + op (suc a % 2) (b % 2)) halves)

  first_digit :
      (b a : ℕ)
      → bitwise stop op (suc a) b ≡ op (suc a % 2) (b % 2) + 2 * bitwise stop op (suc a / 2) (b / 2)
  first_digit b a =
      let fuel : a ≡ suc a / 2 + (a - suc a / 2) = omega arith in
      let halves = spare_fuel (b / 2) (suc a / 2) (a - suc a / 2) (suc a / 2) (omega arith) in
      let same : digits stop op a (suc a / 2) (b / 2) ≡ bitwise stop op (suc a / 2) (b / 2) =
        ap (λ t. digits stop op t (suc a / 2) (b / 2)) fuel ∙ halves in
      omega (arith, same)

pub bit_and_lowest : (b a : ℕ) → bit_and a b ≡ min (a % 2) (b % 2) + 2 * bit_and (a / 2) (b / 2)
bit_and_lowest b zero = simp bit_and-bitwise (omega arith)
bit_and_lowest b (suc a) = simp bit_and-bitwise (first_digit (λ y. 0) min b a)

pub bit_or_lowest : (b a : ℕ) → bit_or a b ≡ max (a % 2) (b % 2) + 2 * bit_or (a / 2) (b / 2)
bit_or_lowest b zero = simp bit_or-bitwise (omega arith)
bit_or_lowest b (suc a) = simp bit_or-bitwise (first_digit (λ y. y) max b a)
