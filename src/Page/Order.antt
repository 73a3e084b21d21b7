-- ===== src/Page/Order.antt =====
-- inc/page.h: sizes as orders, that is powers of two of pages.
use native.Mathlib.Nat.{pow-suc}
use rayos.Base.{
  ℕ, zero, suc, ◌+◌, ◌-◌, ◌*◌, ◌/◌, ◌%◌, ◌^◌, ◌≤◌, ◌<◌, ◌≡◌, refl, arith, true, false, Option, none,
  some, ◌==◌, if◌then◌else◌, inl, inr, Bool-cases, ◌∙◌, ap,
}
use rayos.Page.{page_size}

-- `while (x) { x >>= 1; r++; }`
unfoldable fls_loop : ℕ → ℕ → ℕ → Option ℕ
fls_loop zero x r = none
fls_loop (suc fuel) x r =
    let rest = fls_loop fuel (x / 2) (r + 1) in if x == 0 then some r else rest

-- 64 rounds empty an `unsigned long`, and one more sees that it is empty.
unfoldable pub fls : ℕ → Option ℕ
unfolding fls_loop
fls x = fls_loop 65 x 0

unfoldable pub size_to_order : ℕ → Option ℕ
size_to_order size =
    let pages = (size + page_size - 1) % 2 ^ 64 / 2 ^ 12 in
    let order = fls ((pages + (2 ^ 64 - 1)) % 2 ^ 64) in if size == 0 then some 0 else order

unfoldable pub pages_to_order : ℕ → Option ℕ
unfolding size_to_order
pages_to_order nr_pages = size_to_order (nr_pages * page_size % 2 ^ 64)

-- The number of bits of x.
pub record Width (x r : ℕ) : Type 0 where
  pub below : x < 2 ^ r
  pub least : (k : ℕ) → x < 2 ^ k → r ≤ k

zero-Width : (x : ℕ) → x ≡ 0 → Width x 0
zero-Width x e = record { below = omega arith; least = λ k h. omega arith }

half-Width : (x w : ℕ) → 0 < x → Width (x / 2) w → Width x (suc w)
half-Width x w h half = record { below = omega (arith, half.below, pow-suc 2 w); least = least }
  where
    least : (k : ℕ) → x < 2 ^ k → suc w ≤ k
    least zero below = omega arith
    least (suc k) below = omega (arith, half.least k (omega (arith, pow-suc 2 k)))

fls_loop-Width :
    (fuel x r : ℕ) → x < 2 ^ fuel → (w : ℕ) × (fls_loop (suc fuel) x r ≡ some (r + w)) × Width x w
unfolding fls_loop
fls_loop-Width zero x r h =
    let empty : (x == 0) ≡ true = ground arith in
    (0, rw empty (ap some (omega arith)), zero-Width x (omega arith))
fls_loop-Width (suc fuel) x r h = elim (Bool-cases (x == 0)) [
  | inl empty ↦ (0, rw empty (ap some (omega arith)), zero-Width x (ground arith))
  | inr more ↦
      let (w, runs, width) = fls_loop-Width fuel (x / 2) (r + 1) (omega (arith, pow-suc 2 fuel)) in
      let count : r + 1 + w ≡ r + suc w = omega arith in
      (suc w, rw (more, fls_loop) (runs ∙ ap some count), half-Width x w (ground arith) width)
]

pub fls-Width : (x : ℕ) → x < 2 ^ 64 → (w : ℕ) × (fls x ≡ some w) × Width x w
unfolding fls
fls-Width x h =
    let (w, runs, width) = fls_loop-Width 64 x 0 h in
    let count : 0 + w ≡ w = omega arith in (w, runs ∙ ap some count, width)

size_to_order-fls :
    (size : ℕ) → 0 < size → size ≤ 2 ^ 64 - 4096 → size_to_order size ≡ fls ((size - 1) / 4096)
unfolding size_to_order
size_to_order-fls size more fits =
    let some_bytes : (size == 0) ≡ false = ground arith in
    let last : ((size + 4096 - 1) % 2 ^ 64 / 2 ^ 12 + (2 ^ 64 - 1)) % 2 ^ 64 ≡ (size - 1) / 4096 =
      omega arith in
    rw (some_bytes, last) refl

pages_to_order-fls :
    (nr_pages : ℕ) → 0 < nr_pages → nr_pages < 2 ^ 52 → pages_to_order nr_pages ≡ fls (nr_pages - 1)
unfolding pages_to_order
pages_to_order-fls nr_pages more fits =
    let bytes : nr_pages * page_size % 2 ^ 64 ≡ nr_pages * 4096 = omega arith in
    let last : (nr_pages * 4096 - 1) / 4096 ≡ nr_pages - 1 = omega arith in
    rw bytes (size_to_order-fls (nr_pages * 4096) (omega arith) (omega arith)) ∙ ap fls last

-- The loop of `fls` ends, and `size_to_order` returns the least order whose pages hold the size, for
-- a size of 1 to 2^64 - 4096 bytes.
pub size_to_order-least :
    (size : ℕ)
    → 0 < size
    → size ≤ 2 ^ 64 - 4096
    → (order : ℕ) × (size_to_order size ≡ some order)
      × (size ≤ 2 ^ order * 4096)
      × ((k : ℕ) → size ≤ 2 ^ k * 4096 → order ≤ k)
size_to_order-least size more fits =
    let (w, runs, width) = fls-Width ((size - 1) / 4096) (omega arith) in
    (
      w,
      size_to_order-fls size more fits ∙ runs,
      omega (arith, width.below),
      λ k h. width.least k (omega arith),
    )

-- `pages_to_order` returns the least order that holds the number of pages, which is 1 to 2^52 - 1.
pub pages_to_order-least :
    (nr_pages : ℕ)
    → 0 < nr_pages
    → nr_pages < 2 ^ 52
    → (order : ℕ) × (pages_to_order nr_pages ≡ some order)
      × (nr_pages ≤ 2 ^ order)
      × ((k : ℕ) → nr_pages ≤ 2 ^ k → order ≤ k)
pages_to_order-least nr_pages more fits =
    let (w, runs, width) = fls-Width (nr_pages - 1) (omega arith) in
    (
      w,
      pages_to_order-fls nr_pages more fits ∙ runs,
      omega (arith, width.below),
      λ k h. width.least k (omega arith),
    )
