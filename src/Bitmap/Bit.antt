-- ===== src/Bitmap/Bit.antt =====
-- One bit: what `bitmap_set` and `bitmap_clear` do to every bit that `bitmap_test` shows, and to
-- the memory around the bitmap.
use Prim.Native.Nat.{bit_and, bit_or}
use rayos.Base.{
  ℕ, ◌/◌, ◌%◌, ◌^◌, ◌≤◌, ◌<◌, ◌≡◌, arith, true, false, ◌&&◌, ltb, leb, ◌==◌, if◌then◌else◌, update,
  inl, inr, Bool-cases, ==→eq,
}
use rayos.Bits.{digit, one_shl, complement}
use rayos.Bits.Word.{
  digit-or_one_shl, digit-and_complement, test-one_shl, or_one_shl-fits, and-fits,
}
use rayos.Bitmap.{Bitmap, set, clear, test}

-- What the kernel's bitmaps satisfy: an `int` can name every bit, and a word is 64 bits wide.
pub record IsValid (bmp : Bitmap) : Type 0 where
  pub small : bmp.size < 2 ^ 31
  pub word : (i : ℕ) → bmp.map i < 2 ^ 64

-- `bitmap_test` as a digit of the word that holds the bit.
abbrev pub bit_at : (ℕ → ℕ) → ℕ → ℕ
bit_at m bit = digit (m (bit / 64)) (bit % 64)

pub test-digit :
    (bmp : Bitmap) (bit : ℕ) → test bmp bit ≡ (ltb bit bmp.size && (bit_at bmp.map bit == 1))
unfolding test
test-digit bmp bit = rw (test-one_shl (bmp.map (bit / 64)) (bit % 64) (omega arith)) (ground arith)

-- The bit that a write to word i / 64 leaves at j.
bit_at-update :
    (m : ℕ → ℕ) (i j w : ℕ)
    → bit_at (update m (i / 64) w) j ≡ (if j / 64 == i / 64 then digit w (j % 64) else bit_at m j)
bit_at-update m i j w = elim (Bool-cases (j / 64 == i / 64)) [
  | inl same ↦ rw same
  | inr other ↦ rw other
]

same_bit : (i j : ℕ) → ((j / 64 == i / 64) && (j % 64 == i % 64)) ≡ (j == i)
same_bit i j = ground arith

bit_at-set :
    (m : ℕ → ℕ) (i j : ℕ)
    → bit_at (update m (i / 64) (bit_or (m (i / 64)) (one_shl (i % 64)))) j
      ≡ (if j == i then 1 else bit_at m j)
bit_at-set m i j = elim (Bool-cases (j / 64 == i / 64)) [
  | inl same ↦
      rw (bit_at-update m i j _, same, digit-or_one_shl _ (i % 64) (j % 64) (omega arith))
        (ground (arith, same_bit i j, ==→eq _ _ same))
  | inr other ↦ rw (bit_at-update m i j _, other) (ground arith)
]

bit_at-clear :
    (m : ℕ → ℕ) (i j : ℕ)
    → bit_at (update m (i / 64) (bit_and (m (i / 64)) (complement (one_shl (i % 64))))) j
      ≡ (if j == i then 0 else bit_at m j)
bit_at-clear m i j = elim (Bool-cases (j / 64 == i / 64)) [
  | inl same ↦
      rw
        (
          bit_at-update m i j _,
          same,
          digit-and_complement _ (i % 64) (j % 64) (omega arith) (omega arith),
        )
        (ground (arith, same_bit i j, ==→eq _ _ same))
  | inr other ↦ rw (bit_at-update m i j _, other) (ground arith)
]

-- After `bitmap_set` the bit is set if it lies in the bitmap, and every other bit is as before.
pub test-set :
    (bmp : Bitmap) (i j : ℕ)
    → test (set bmp i) j ≡ (if (j == i) && ltb i bmp.size then true else test bmp j)
unfolding set
test-set bmp i j = elim (Bool-cases (leb bmp.size i)) [
  | inl out ↦ rw out (ground arith)
  | inr inside ↦ rw (inside, test-digit, test-digit, bit_at-set bmp.map i j) (ground arith)
]

-- After `bitmap_clear` the bit is clear, and every other bit is as before.
pub test-clear :
    (bmp : Bitmap) (i j : ℕ) → test (clear bmp i) j ≡ (if j == i then false else test bmp j)
unfolding clear
test-clear bmp i j = elim (Bool-cases (leb bmp.size i)) [
  | inl out ↦ rw (out, test-digit) (ground arith)
  | inr inside ↦ rw (inside, test-digit, test-digit, bit_at-clear bmp.map i j) (ground arith)
]

pub size-set : (bmp : Bitmap) (i : ℕ) → (set bmp i).size ≡ bmp.size
unfolding set
size-set bmp i = ground arith

pub size-clear : (bmp : Bitmap) (i : ℕ) → (clear bmp i).size ≡ bmp.size
unfolding clear
size-clear bmp i = ground arith

pub test-out : (bmp : Bitmap) (i : ℕ) → bmp.size ≤ i → test bmp i ≡ false
unfolding test
test-out bmp i h = ground arith

pub set-IsValid : (bmp : Bitmap) (i : ℕ) → IsValid bmp → IsValid (set bmp i)
unfolding set
set-IsValid bmp i v = record {
  small = omega (arith, size-set bmp i, v.small);
  word =
      λ k. ground (arith, v.word k, v.word (i / 64), or_one_shl-fits (bmp.map (i / 64)) (i % 64));
}

pub clear-IsValid : (bmp : Bitmap) (i : ℕ) → IsValid bmp → IsValid (clear bmp i)
unfolding clear
clear-IsValid bmp i v = record {
  small = omega (arith, size-clear bmp i, v.small);
  word = λ k. ground (
    arith,
    v.word k,
    v.word (i / 64),
    and-fits (bmp.map (i / 64)) (complement (one_shl (i % 64))),
  );
}
