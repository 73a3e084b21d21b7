-- ===== src/Bitmap/Init.antt =====
-- `bitmap_init` clears the words that the bits occupy and touches no other; the single-bit
-- operations touch no other word either.
use rayos.Base.{
  ℕ, zero, suc, ◌+◌, ◌/◌, ◌%◌, ◌^◌, ◌<◌, ◌≡◌, refl, arith, true, false, ◌&&◌, ltb, ◌==◌,
  if◌then◌else◌, update, inl, inr, Bool-cases,
}
use rayos.Bits.{digit-of_zero}
use rayos.Bitmap.{Bitmap, words, clear_words, init, set, clear, set_atomic, clear_atomic, test}
use rayos.Bitmap.Bit.{IsValid, test-digit, test-set, test-clear}
use rayos.Bitmap.Range.{within}

clear_words_lem :
    (n i : ℕ) (m : ℕ → ℕ) (k : ℕ) → clear_words n i m k ≡ (if within i (i + n) k then 0 else m k)
unfolding clear_words
clear_words_lem zero i m k = ground arith
clear_words_lem (suc n) i m k = rw (clear_words_lem n (i + 1) (update m i 0) k) (ground arith)

-- After `bitmap_init` no bit is set, and the memory behind the bitmap's words is as it was.
pub init_lem :
    (data' : ℕ → ℕ) (num_bits k : ℕ)
    → num_bits < 2 ^ 31
    → (test (init data' num_bits) k ≡ false)
      × ((init data' num_bits).map (words num_bits + k) ≡ data' (words num_bits + k))
unfolding init
init_lem data' num_bits k h = (
  rw (test-digit (init data' num_bits) k, clear_words_lem (words num_bits) 0 data' (k / 64))
      (elim (Bool-cases (within 0 (0 + words num_bits) (k / 64))) [
        | inl inside ↦ rw (inside, digit-of_zero (k % 64)) (ground arith)
        | inr outside ↦ ground arith
      ]),
  rw (clear_words_lem (words num_bits) 0 data' (words num_bits + k)) (ground arith),
)

pub init-IsValid :
    (data' : ℕ → ℕ) (num_bits : ℕ)
    → num_bits < 2 ^ 31
    → ((i : ℕ) → data' i < 2 ^ 64)
    → IsValid (init data' num_bits)
unfolding init
init-IsValid data' num_bits small fits = record {
  small = small;
  word = λ i. rw (clear_words_lem (words num_bits) 0 data' i) (ground (arith, fits i));
}

-- The four single-bit operations: the bit takes its new value if it lies in the bitmap, every other
-- bit keeps its value, and no word behind the bitmap's words changes.
pub bit_operations :
    (bmp : Bitmap) (i j k : ℕ)
    → bmp.size < 2 ^ 31
    → (test (set bmp i) j ≡ (if (j == i) && ltb i bmp.size then true else test bmp j))
      × (test (clear bmp i) j ≡ (if j == i then false else test bmp j))
      × ((set bmp i).map (words bmp.size + k) ≡ bmp.map (words bmp.size + k))
      × ((clear bmp i).map (words bmp.size + k) ≡ bmp.map (words bmp.size + k))
      × (set_atomic bmp i ≡ set bmp i)
      × (clear_atomic bmp i ≡ clear bmp i)
unfolding set clear set_atomic clear_atomic
bit_operations bmp i j k h =
    (test-set bmp i j, test-clear bmp i j, ground arith, ground arith, refl, refl)
