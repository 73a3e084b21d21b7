-- ===== src/Bitmap/Range.antt =====
-- Ranges of bits: the loops of `bitmap_set_range`, `bitmap_clear_range`, `bitmap_free_range` and
-- the one by which `bitmap_alloc_range` marks what it found.
use rayos.Base.{
  ℕ, zero, suc, ◌+◌, ◌%◌, ◌^◌, ◌<◌, ◌≡◌, refl, arith, Bool, true, false, ◌&&◌, ltb, leb,
  if◌then◌else◌, inl, inr, Bool-cases,
}
use rayos.Bitmap.{
  Bitmap, set, clear, test, set_bits, free_bits, free_range, range_loop, set_range, clear_range,
}
use rayos.Bitmap.Bit.{IsValid, test-set, test-clear, size-set, test-out, set-IsValid}

-- k lies in [lo, hi).
abbrev pub within : ℕ → ℕ → ℕ → Bool
within lo hi k = leb lo k && ltb k hi

pub size-set_bits : (n : ℕ) (bmp : Bitmap) (i j : ℕ) → (set_bits bmp i n j).size ≡ bmp.size
unfolding set_bits
size-set_bits zero bmp i j = refl
size-set_bits (suc n) bmp i j =
    omega (
      arith,
      size-set_bits n (set bmp ((i + j) % 2 ^ 64)) i (j + 1),
      size-set bmp ((i + j) % 2 ^ 64),
    )

pub set_bits-IsValid : (n : ℕ) (bmp : Bitmap) (i j : ℕ) → IsValid bmp → IsValid (set_bits bmp i n j)
unfolding set_bits
set_bits-IsValid zero bmp i j v = v
set_bits-IsValid (suc n) bmp i j v =
    set_bits-IsValid n (set bmp ((i + j) % 2 ^ 64)) i (j + 1) (set-IsValid bmp _ v)

pub test-set_bits :
    (n : ℕ) (bmp : Bitmap) (i j k : ℕ)
    → i + j + n < 2 ^ 64
    → test (set_bits bmp i n j) k
      ≡ (if within (i + j) (i + j + n) k && ltb k bmp.size then true else test bmp k)
unfolding set_bits
test-set_bits zero bmp i j k h = ground arith
test-set_bits (suc n) bmp i j k h =
    let at : (i + j) % 2 ^ 64 ≡ i + j = omega arith in
    rw (at, test-set_bits n (set bmp (i + j)) i (j + 1) k (omega arith), test-set bmp (i + j) k)
      (ground (arith, size-set bmp (i + j)))

test-free_bits :
    (n : ℕ) (bmp : Bitmap) (start i k : ℕ)
    → start + i + n < 2 ^ 64
    → test (free_bits bmp start n i) k
      ≡ (if within (start + i) (start + i + n) k then false else test bmp k)
unfolding free_bits
test-free_bits zero bmp start i k h = ground arith
test-free_bits (suc n) bmp start i k h =
    let at : (start + i) % 2 ^ 64 ≡ start + i = omega arith in
    rw at (elim (Bool-cases (ltb (start + i) bmp.size)) [
      | inl inside ↦
          rw (inside, test-free_bits n (clear bmp (start + i)) start (i + 1) k (omega arith))
            (ground (arith, test-clear bmp (start + i) k))
      | inr out ↦
          rw (out, test-free_bits n bmp start (i + 1) k (omega arith))
            (ground (arith, test-out bmp k))
    ])

-- `bitmap_free_range` clears the bits of the range, as far as they lie in the bitmap, and leaves
-- every other bit as it is, provided that the range's end does not wrap around.
pub test-free_range :
    (bmp : Bitmap) (start count k : ℕ)
    → start + count < 2 ^ 64
    → test (free_range bmp start count) k
      ≡ (if within start (start + count) k then false else test bmp k)
unfolding free_range
test-free_range bmp start count k h =
    rw (test-free_bits count bmp start 0 k (omega arith)) (ground arith)

test-set_loop :
    (n : ℕ) (bmp : Bitmap) (start i k : ℕ)
    → start + i + n < 2 ^ 64
    → test (range_loop set bmp start n i) k
      ≡ (if within (start + i) (start + i + n) k && ltb k bmp.size then true else test bmp k)
unfolding range_loop
test-set_loop zero bmp start i k h = ground arith
test-set_loop (suc n) bmp start i k h =
    let at : (start + i) % 2 ^ 64 ≡ start + i = omega arith in
    rw at (elim (Bool-cases (ltb (start + i) bmp.size)) [
      | inl inside ↦
          rw
            (
              inside,
              test-set_loop n (set bmp (start + i)) start (i + 1) k (omega arith),
              test-set bmp (start + i) k,
            )
            (ground (arith, size-set bmp (start + i)))
      | inr out ↦ rw out (ground arith)
    ])

test-clear_loop :
    (n : ℕ) (bmp : Bitmap) (start i k : ℕ)
    → start + i + n < 2 ^ 64
    → test (range_loop clear bmp start n i) k
      ≡ (if within (start + i) (start + i + n) k then false else test bmp k)
unfolding range_loop
test-clear_loop zero bmp start i k h = ground arith
test-clear_loop (suc n) bmp start i k h =
    let at : (start + i) % 2 ^ 64 ≡ start + i = omega arith in
    rw at (elim (Bool-cases (ltb (start + i) bmp.size)) [
      | inl inside ↦
          rw
            (
              inside,
              test-clear_loop n (clear bmp (start + i)) start (i + 1) k (omega arith),
              test-clear bmp (start + i) k,
            )
            (ground arith)
      | inr out ↦ rw out (ground (arith, test-out bmp k))
    ])

-- `bitmap_set_range` sets the bits of the range that lie in the bitmap, `bitmap_clear_range` clears
-- them, and both leave every other bit as it is, provided that the range's end does not wrap
-- around.
pub test-set_range-clear_range :
    (bmp : Bitmap) (start count k : ℕ)
    → start + count < 2 ^ 64
    → (test (set_range bmp start count) k
        ≡ (if within start (start + count) k && ltb k bmp.size then true else test bmp k))
      × (test (clear_range bmp start count) k
          ≡ (if within start (start + count) k then false else test bmp k))
unfolding set_range clear_range
test-set_range-clear_range bmp start count k h = (
  rw (test-set_loop count bmp start 0 k (omega arith)) (ground arith),
  rw (test-clear_loop count bmp start 0 k (omega arith)) (ground arith),
)
