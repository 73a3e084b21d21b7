-- ===== src/Bits/Ops.antt =====
-- What `&`, `|`, `~` and `1 << k` do to each bit of a word.
use Prim.Native.Nat.{bit_and, bit_or, bit_and-bitwise}
use native.Mathlib.Nat.{
  pow-suc, pow-succ', mod-eq_of_lt, one-le-pow, mod-eq-sub-div-mul, div-div-eq-div-mul,
  div-mul-le_self,
}
use rayos.Base.{
  ℕ, zero, suc, ◌+◌, ◌-◌, ◌*◌, ◌/◌, ◌%◌, ◌^◌, ◌≤◌, ◌<◌, ◌≡◌, refl, min, max, arith, ◌==◌,
  if◌then◌else◌, ap,
}
use rayos.Bits.{digit, digit-of_zero}
use rayos.Bits.Step.{bit_and_lowest, bit_or_lowest}

pub digit-bit_and : (i a b : ℕ) → digit (bit_and a b) i ≡ min (digit a i) (digit b i)
unfolding digit
digit-bit_and zero a b = omega (arith, bit_and_lowest b a)
digit-bit_and (suc i) a b =
    let half : bit_and a b / 2 ≡ bit_and (a / 2) (b / 2) = omega (arith, bit_and_lowest b a) in
    rw half (digit-bit_and i (a / 2) (b / 2))

pub digit-bit_or : (i a b : ℕ) → digit (bit_or a b) i ≡ max (digit a i) (digit b i)
unfolding digit
digit-bit_or zero a b = omega (arith, bit_or_lowest b a)
digit-bit_or (suc i) a b =
    let half : bit_or a b / 2 ≡ bit_or (a / 2) (b / 2) = omega (arith, bit_or_lowest b a) in
    rw half (digit-bit_or i (a / 2) (b / 2))

double_half : (k : ℕ) → 2 ^ suc k / 2 ≡ 2 ^ k
double_half k = omega (arith, pow-suc 2 k)

pub digit-pow : (i k : ℕ) → digit (2 ^ k) i ≡ (if i == k then 1 else 0)
unfolding digit
digit-pow zero zero = refl
digit-pow zero (suc k) = ground (arith, pow-suc 2 k)
digit-pow (suc i) zero = rw (digit-of_zero i) (ground arith)
digit-pow (suc i) (suc k) = rw (double_half k) (rw (digit-pow i k) (ground arith))

-- `~` turns each bit of an n-bit word.
pub digit-complement : (n i a : ℕ) → a < 2 ^ n → i < n → digit (2 ^ n - 1 - a) i ≡ 1 - digit a i
unfolding digit
digit-complement zero i a fits h = absurd (omega arith)
digit-complement (suc n) zero a fits h = omega (arith, pow-suc 2 n)
digit-complement (suc n) (suc i) a fits h =
    let half : (2 ^ suc n - 1 - a) / 2 ≡ 2 ^ n - 1 - a / 2 = omega (arith, pow-suc 2 n) in
    rw half (digit-complement n i (a / 2) (omega (arith, pow-suc 2 n)) (omega arith))

pub bit_and-zero_right : (n a : ℕ) → a ≤ n → bit_and a 0 ≡ 0
bit_and-zero_right n zero h = refl
bit_and-zero_right zero (suc a) h = absurd (omega arith)
bit_and-zero_right (suc n) (suc a) h =
    omega (arith, bit_and_lowest 0 (suc a), bit_and-zero_right n (suc a / 2) (omega arith))

-- The test `w & (1 << k)` sees bit k and nothing else.
pub bit_and-pow : (k w : ℕ) → bit_and w (2 ^ k) ≡ digit w k * 2 ^ k
unfolding digit
bit_and-pow zero w =
    omega (arith, bit_and_lowest 1 w, bit_and-zero_right (w / 2) (w / 2) (omega arith))
bit_and-pow (suc k) w = omega (
  arith,
  bit_and_lowest (2 ^ suc k) w,
  ap (bit_and (w / 2)) (double_half k),
  bit_and-pow k (w / 2),
  pow-suc 2 k,
  ap (λ (t : ℕ). digit (w / 2) k * t) (pow-suc 2 k),
)

-- A word of n bits keeps to n bits under `|` and `&`.
pub bit_or-lt-pow : (n a b : ℕ) → a < 2 ^ n → b < 2 ^ n → bit_or a b < 2 ^ n
bit_or-lt-pow zero zero zero p q = omega arith
bit_or-lt-pow zero (suc a) b p q = absurd (omega arith)
bit_or-lt-pow zero zero (suc b) p q = absurd (omega arith)
bit_or-lt-pow (suc n) a b p q = omega (
  arith,
  pow-suc 2 n,
  bit_or_lowest b a,
  bit_or-lt-pow n (a / 2) (b / 2) (omega (arith, pow-suc 2 n)) (omega (arith, pow-suc 2 n)),
)

pub bit_and-le_left : (n a b : ℕ) → a ≤ n → bit_and a b ≤ a
bit_and-le_left n zero b h = omega (arith, bit_and_lowest b zero, bit_and-zero_left (b / 2))
  where
    bit_and-zero_left : (b : ℕ) → bit_and 0 b ≡ 0
    bit_and-zero_left b = bit_and-bitwise 0 b
bit_and-le_left zero (suc a) b h = absurd (omega arith)
bit_and-le_left (suc n) (suc a) b h =
    omega (arith, bit_and_lowest b (suc a), bit_and-le_left n (suc a / 2) (b / 2) (omega arith))

half_mod : (x p : ℕ) → x % (2 * p) ≡ x % 2 + 2 * (x / 2 % p)
half_mod x p = omega (
  arith,
  mod-eq-sub-div-mul x (2 * p),
  mod-eq-sub-div-mul (x / 2) p,
  ap (λ (t : ℕ). t * p) (div-div-eq-div-mul x 2 p),
  div-mul-le_self (x / 2) p,
)

-- `x & ((1 << k) - 1)`
pub bit_and-ones : (k x : ℕ) → bit_and x (2 ^ k - 1) ≡ x % 2 ^ k
bit_and-ones zero x = omega (arith, bit_and-zero_right x x (omega arith))
bit_and-ones (suc k) x =
    let half : (2 ^ suc k - 1) / 2 ≡ 2 ^ k - 1 = omega (arith, pow-suc 2 k) in
    let ih : bit_and (x / 2) ((2 ^ suc k - 1) / 2) ≡ x / 2 % 2 ^ k =
      rw half (bit_and-ones k (x / 2)) in
    rw (bit_and_lowest (2 ^ suc k - 1) x, ih, pow-succ' 2 k, half_mod x (2 ^ k))
      (omega (arith, one-le-pow k 2 (omega arith)))

bit_or-zero : (n a : ℕ) → a ≤ n → bit_or a 0 ≡ a
bit_or-zero n zero h = refl
bit_or-zero zero (suc a) h = absurd (omega arith)
bit_or-zero (suc n) (suc a) h =
    omega (arith, bit_or_lowest 0 (suc a), bit_or-zero n (suc a / 2) (omega arith))

-- The bits from k on of `a | b` are those of a, if b has no more than k bits.
pub bit_or-div : (k a b : ℕ) → b < 2 ^ k → bit_or a b / 2 ^ k ≡ a / 2 ^ k
bit_or-div zero a zero h = rw (bit_or-zero a a (omega arith)) refl
bit_or-div zero a (suc b) h = absurd (omega arith)
bit_or-div (suc k) a b h =
    let half : bit_or a b / 2 ≡ bit_or (a / 2) (b / 2) = omega (arith, bit_or_lowest b a) in
    rw
      (
        pow-succ' 2 k,
        ← div-div-eq-div-mul (bit_or a b) 2 (2 ^ k),
        half,
        ← div-div-eq-div-mul a 2 (2 ^ k),
      )
      (bit_or-div k (a / 2) (b / 2) (omega (arith, pow-suc 2 k)))

-- `x & ~((1 << k) - 1)` of a word of n bits.
pub bit_and-high : (k n x : ℕ) → k ≤ n → x < 2 ^ n → bit_and x (2 ^ n - 2 ^ k) ≡ x / 2 ^ k * 2 ^ k
bit_and-high zero n x h fits = omega (arith, bit_and-ones n x, mod-eq_of_lt fits)
bit_and-high (suc k) zero x h fits = absurd (omega arith)
bit_and-high (suc k) (suc n) x h fits =
    let mask : (2 ^ suc n - 2 ^ suc k) / 2 ≡ 2 ^ n - 2 ^ k =
      omega (arith, pow-suc 2 n, pow-suc 2 k) in
    let even : (2 ^ suc n - 2 ^ suc k) % 2 ≡ 0 = omega (arith, pow-suc 2 n, pow-suc 2 k) in
    let ih : bit_and (x / 2) ((2 ^ suc n - 2 ^ suc k) / 2) ≡ x / 2 / 2 ^ k * 2 ^ k =
      rw mask (bit_and-high k n (x / 2) (omega arith) (omega (arith, pow-suc 2 n))) in
    rw
      (
        bit_and_lowest (2 ^ suc n - 2 ^ suc k) x,
        even,
        ih,
        div-div-eq-div-mul x 2 (2 ^ k),
        ← pow-succ' 2 k,
      )
      (omega (arith, ap (λ (t : ℕ). x / 2 ^ suc k * t) (pow-succ' 2 k)))
