-- ===== src/Strings/Tests.antt =====
-- Runs of the string functions, and their theorems, on a memory with the text "abc" at 10.
use rayos.Base.{ℕ, ◌-◌, ◌≡◌, refl, arith, ◌==◌, some, if◌then◌else◌, inr, min}
use rayos.Strings.{Memory, memmove, copy_back, strlen, strncpy, fill_zero, wcslcpy}
use rayos.Strings.Copy.{moved, memmove-moved}
use rayos.Strings.Text.{IsText, strlen_lem}
use rayos.Strings.Bounded.{terminated, wcslcpy-terminated}

abbrev memory : Memory
memory k =
    if k == 10
    then 97
    else (if k == 11 then 98 else (if k == 12 then 99 else (if k == 13 then 0 else 7)))

text : IsText memory 10 3
text = record { end = refl; full = λ j lo hi e. ground arith }

-- Moved one place up, over itself.
overlaps : memmove memory 11 10 3 13 ≡ 99
unfolding memmove copy_back
overlaps = refl

-- A bound of 5: the element behind it is overwritten.
one_too_many : (strncpy memory 20 10 5 24 ≡ 0) × (strncpy memory 20 10 5 25 ≡ 0) × (memory 25 ≡ 7)
unfolding strncpy fill_zero
one_too_many = (refl, refl, refl)

memmove_example : memmove memory 11 10 3 13 ≡ moved memory 11 10 3 13
memmove_example = memmove-moved memory 11 10 3 13

strlen_example : strlen 8 memory 10 ≡ some 3
strlen_example = strlen_lem 8 3 memory 10 (omega arith) text

wcslcpy_example :
    (new : Memory) × (wcslcpy 8 memory 20 10 3 ≡ some (new, 3))
    × ((k : ℕ) → new k ≡ (if ◌==◌ 3 0 then memory k else terminated memory 20 10 (min (3 - 1) 3) k))
wcslcpy_example = wcslcpy-terminated 8 3 memory 20 10 3 (omega arith) text (inr (omega arith))

-- The text "c" at 12 is appended to the empty one at 20.
abbrev with_empty : Memory
with_empty k = if k == 20 then 0 else memory k
