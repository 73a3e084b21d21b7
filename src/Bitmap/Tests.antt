-- ===== src/Bitmap/Tests.antt =====
-- Runs of the bitmap on 70 bits, and its theorems at that bitmap.
use rayos.Base.{ℕ, ◌≤◌, ◌≡◌, refl, arith, false, Option, some, ◌==◌, if◌then◌else◌, pos, negsuc}
use rayos.Bitmap.{
  Bitmap, set, test, find_first_zero, find_first_set, alloc_range, count_set, usage_percent, scan,
  scan_word, find_first, set_bits, all_clear, alloc_from, count_word, count_words, valid_word,
}
use rayos.Bitmap.Bit.{IsValid}
use rayos.Bitmap.Find.{FindsFirst, find_first_zero-FindsFirst}
use rayos.Bitmap.Alloc.{AllocOutcome, alloc_range-AllocOutcome}
use rayos.Bitmap.Oversized.{alloc_range-oversized}

-- 70 bits of which the first 66 are set.
abbrev bitmap : Bitmap
bitmap = record { size = 70; map = λ i. if i == 0 then 0xffff_ffff_ffff_ffff else 3 }

bitmap-IsValid : IsValid bitmap
bitmap-IsValid = record { small = omega arith; word = λ i. ground arith }

finds_zero : find_first_zero bitmap 5 ≡ pos 66
unfolding find_first_zero find_first scan scan_word
finds_zero = refl

finds_set : find_first_set bitmap 66 ≡ negsuc 0
unfolding find_first_set find_first scan scan_word
finds_set = refl

allocates : (alloc_range bitmap 3 0).0 ≡ pos 66
unfolding alloc_range alloc_from all_clear test set_bits set
allocates = refl

full : (alloc_range bitmap 5 0).0 ≡ negsuc 0
unfolding alloc_range alloc_from all_clear test set_bits set
full = refl

counts : count_set bitmap ≡ some 66
unfolding count_set count_words count_word valid_word
counts = refl

usage : usage_percent bitmap ≡ some (pos 94)
unfolding usage_percent counts count_set count_words count_word valid_word
usage = refl

find_first_zero_example : FindsFirst false bitmap 5 (find_first_zero bitmap 5)
find_first_zero_example = find_first_zero-FindsFirst bitmap 5 bitmap-IsValid

alloc_range_example : (r : Option ℕ) × AllocOutcome bitmap 3 0 (alloc_range bitmap 3 0) r
alloc_range_example = alloc_range-AllocOutcome bitmap 3 0 bitmap-IsValid (omega arith) (omega arith)

alloc_range-oversized_example :
    (m : ℕ) × ((alloc_range bitmap 100 0).0 ≡ pos m) × (0 ≤ m) × (m ≤ 70)
alloc_range-oversized_example =
    alloc_range-oversized bitmap 100 0 bitmap-IsValid (omega arith) (omega arith) (omega arith)
