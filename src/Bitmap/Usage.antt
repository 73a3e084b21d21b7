-- ===== src/Bitmap/Usage.antt =====
-- `bitmap_count_set` counts the set bits; `bitmap_usage_percent` is a percentage.
use Prim.Native.Nat.{bit_and}
use rayos.Base.{
  ℕ, zero, suc, ◌+◌, ◌-◌, ◌*◌, ◌/◌, ◌%◌, ◌^◌, ◌≤◌, ◌<◌, ◌≡◌, refl, arith, false, not, ◌&&◌, some,
  ◌==◌, inl, inr, Bool-cases, ==→eq, pos, to_int_small, ap, ◌∙◌,
}
use rayos.Bits.{digit, digit-le-one, one_shl}
use rayos.Bits.Ops.{digit-bit_and}
use rayos.Bits.Word.{one_shl_lem, and-fits}
use rayos.Bits.Popcount.{popcount, popcount-bit_and_pred, popcount-of_zero, popcount-le}
use rayos.Bits.Tally.{tally, tally-le, tally-word, tally-ends, digit-ones}
use rayos.Bitmap.{
  Bitmap, words, test, count_word, word_fuel, valid_word, count_words, count_set, usage_percent,
}
use rayos.Bitmap.Bit.{IsValid, test-digit, test-out}

-- The loop over one word ends within its fuel and adds the number of set bits.
count_word-popcount :
    (f w count : ℕ)
    → w < 2 ^ 64
    → popcount 64 w < f
    → count_word f w count ≡ some (count + popcount 64 w)
unfolding count_word
count_word-popcount zero w count fits fuel = absurd (omega arith)
count_word-popcount (suc f) w count fits fuel = elim (Bool-cases (w == 0)) [
  | inl done ↦
      let empty : w ≡ 0 = ==→eq _ _ done in rw (empty, popcount-of_zero 64) (ap some (omega arith))
  | inr more ↦
      let drop = popcount-bit_and_pred 64 w (ground arith) fits in
      rw
        (
          more,
          count_word-popcount f (bit_and w (w - 1)) (count + 1) (and-fits w (w - 1) fits)
              (omega arith),
        )
        (ap some (omega arith))
]

-- The word that a round counts holds the bits that `bitmap_test` shows.
valid_word-test :
    (bmp : Bitmap) (i j : ℕ)
    → IsValid bmp
    → i < words bmp.size
    → j < 64
    → (digit (valid_word bmp (words bmp.size) i) j == 1) ≡ test bmp (i * 64 + j)
unfolding valid_word
valid_word-test bmp i j v hi hj =
    let word : (i * 64 + j) / 64 ≡ i = omega arith in
    let place : (i * 64 + j) % 64 ≡ j = omega arith in
    elim (Bool-cases ((i == words bmp.size - 1) && not (bmp.size % 64 == 0))) [
      | inl last ↦
          rw
            (
              last,
              test-digit,
              word,
              place,
              digit-bit_and j (bmp.map i) (one_shl (bmp.size % 64) - 1),
              one_shl_lem (bmp.size % 64) (omega arith),
              digit-ones (bmp.size % 64) j,
            )
            (ground (arith, v.small, digit-le-one (bmp.map i) j))
      | inr whole ↦ rw (whole, test-digit, word, place) (ground (arith, v.small))
    ]

valid_word-fits : (bmp : Bitmap) (n i : ℕ) → IsValid bmp → valid_word bmp n i < 2 ^ 64
unfolding valid_word
valid_word-fits bmp n i v =
    ground (arith, v.word i, and-fits (bmp.map i) (one_shl (bmp.size % 64) - 1))

count_words-tally :
    (bmp : Bitmap) (n i : ℕ)
    → IsValid bmp
    → i + n ≡ words bmp.size
    → count_words bmp (words bmp.size) n i (tally (test bmp) (i * 64))
      ≡ some (tally (test bmp) (words bmp.size * 64))
unfolding count_words
count_words-tally bmp zero i v e = let at : i ≡ words bmp.size = omega arith in rw at refl
count_words-tally bmp (suc n) i v e =
    let w = valid_word bmp (words bmp.size) i in
    let next : (i + 1) * 64 ≡ i * 64 + 64 = omega arith in
    let sum =
      tally-word (test bmp) w (i * 64) 64 (λ j hj. valid_word-test bmp i j v (omega arith) hj) in
    let counted =
      count_word-popcount word_fuel w (tally (test bmp) (i * 64))
        (valid_word-fits bmp (words bmp.size) i v) (omega (arith, popcount-le 64 w)) in
    rw (counted, count_words, ← sum, ← next) (count_words-tally bmp n (i + 1) v (omega arith))

-- `bitmap_count_set` ends and returns the number of set bits of the bitmap.
pub count_set-tally :
    (bmp : Bitmap) → IsValid bmp → count_set bmp ≡ some (tally (test bmp) bmp.size)
unfolding count_set tally
count_set-tally bmp v =
    let ends : words bmp.size * 64 ≡ bmp.size + (words bmp.size * 64 - bmp.size) =
      omega (arith, v.small) in
    let same =
      tally-ends (test bmp) bmp.size (words bmp.size * 64 - bmp.size) (λ k h. test-out bmp k h) in
    count_words-tally bmp (words bmp.size) 0 v (omega arith) ∙ ap some (rw ends same)

percent-le : (used total : ℕ) → used ≤ total → 0 < total → used * 100 / total ≤ 100
percent-le used total h p = grind arith

-- `bitmap_usage_percent` of a bitmap that has bits is the rounded-down percentage of its set bits,
-- and at most 100.
pub usage_percent-bounds :
    (bmp : Bitmap)
    → IsValid bmp
    → 0 < bmp.size
    → (usage_percent bmp ≡ some (pos (tally (test bmp) bmp.size * 100 / bmp.size)))
      × (tally (test bmp) bmp.size * 100 / bmp.size ≤ 100)
unfolding usage_percent
usage_percent-bounds bmp v h =
    let used = tally-le (test bmp) bmp.size in
    let bound = percent-le (tally (test bmp) bmp.size) bmp.size used h in
    let whole : tally (test bmp) bmp.size * 100 % 2 ^ 64 ≡ tally (test bmp) bmp.size * 100 =
      omega (arith, v.small) in
    let some_bits : (bmp.size == 0) ≡ false = ground arith in
    (
      rw (count_set-tally bmp v, usage_percent, some_bits, whole)
          (ap some (to_int_small (tally (test bmp) bmp.size * 100 / bmp.size) (omega arith))),
      bound,
    )
