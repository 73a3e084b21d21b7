-- ===== src/Bits/Tally.antt =====
-- Counting: how many numbers below a bound have a property, and a word's bits counted so.
use native.Mathlib.Nat.{pow-suc, one-le-pow}
use rayos.Base.{
  ℕ, zero, suc, ◌+◌, ◌-◌, ◌/◌, ◌^◌, ◌≤◌, ◌<◌, ◌≡◌, refl, arith, Bool, false, ap, ltb, ◌==◌,
  if◌then◌else◌,
}
use rayos.Bits.{digit, digit-le-one}
use rayos.Bits.Popcount.{popcount}

-- The numbers below n that have the property.
unfoldable pub tally : (ℕ → Bool) → ℕ → ℕ
tally p zero = 0
tally p (suc n) = tally p n + (if p n then 1 else 0)

pub tally-le : (p : ℕ → Bool) (n : ℕ) → tally p n ≤ n
unfolding tally
tally-le p zero = omega arith
tally-le p (suc n) = ground (arith, tally-le p n)

-- Bits at and past `size` do not count.
pub tally-ends :
    (p : ℕ → Bool) (size n : ℕ)
    → ((k : ℕ) → size ≤ k → p k ≡ false)
    → tally p (size + n) ≡ tally p size
unfolding tally
tally-ends p size zero h = ap (tally p) (omega arith)
tally-ends p size (suc n) h =
    let at : size + suc n ≡ suc (size + n) = omega arith in
    rw (at, h (size + n) (omega arith)) (omega (arith, tally-ends p size n h))

-- The loop's order against the top digit.
popcount-suc : (n w : ℕ) → popcount (suc n) w ≡ popcount n w + digit w n
unfolding popcount digit
popcount-suc zero w = omega arith
popcount-suc (suc n) w = omega (arith, popcount-suc n (w / 2))

-- n bits of a word, placed from `base` on.
pub tally-word :
    (p : ℕ → Bool) (w base n : ℕ)
    → ((j : ℕ) → j < n → (digit w j == 1) ≡ p (base + j))
    → tally p (base + n) ≡ tally p base + popcount n w
unfolding tally popcount
tally-word p w base zero h = let at : base + 0 ≡ base = omega arith in rw at (omega arith)
tally-word p w base (suc n) h =
    let at : base + suc n ≡ suc (base + n) = omega arith in
    let ih = tally-word p w base n (λ j hj. h j (omega arith)) in
    rw at (ground (arith, ih, popcount-suc n w, h n (omega arith), digit-le-one w n))

pub digit-ones : (m j : ℕ) → digit (2 ^ m - 1) j ≡ (if ltb j m then 1 else 0)
unfolding digit
digit-ones zero zero = refl
digit-ones zero (suc j) = rw (digit-ones zero j) (ground arith)
digit-ones (suc m) zero = ground (arith, pow-suc 2 m, one-le-pow m 2 (omega arith))
digit-ones (suc m) (suc j) =
    let half : (2 ^ suc m - 1) / 2 ≡ 2 ^ m - 1 = omega (arith, pow-suc 2 m) in
    rw (half, digit-ones m j) (ground arith)
