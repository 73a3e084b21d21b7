-- ===== src/Bitmap.antt =====
-- src/bitmap.c and inc/bitmap.h: a bitmap over an array of 64-bit words.
-- `map` is the memory behind the pointer `bmp->map`, a function from the index to the word, so a
-- theorem about what an operation leaves alone speaks of the words around the bitmap too.
-- `size_t` arithmetic keeps its wrap-around; an `int` result goes through `to_int`.
pub mod Bit
pub mod Find
pub mod Range
pub mod Alloc
pub mod Oversized
pub mod Usage
pub mod Init
mod Tests
use Prim.Native.Nat.{bit_and, bit_or}
use rayos.Base.{
  ℕ, zero, suc, ◌+◌, ◌-◌, ◌*◌, ◌/◌, ◌%◌, ◌^◌, Bool, true, false, not, ◌&&◌, Option, none, some, ltb,
  leb, ◌==◌, if◌then◌else◌, update, ℤ, pos, negsuc, to_int,
}
use rayos.Bits.{one_shl, complement}

-- `bitmap_t`
pub record Bitmap : Type 0 where
  pub size : ℕ
  pub map : ℕ → ℕ

-- (size + 63) / 64
abbrev pub words : ℕ → ℕ
words size = (size + 63) % 2 ^ 64 / 64

-- The loop of `bitmap_init`, with `n` rounds left.
clear_words : ℕ → ℕ → (ℕ → ℕ) → ℕ → ℕ
clear_words zero i m = m
clear_words (suc n) i m = clear_words n (i + 1) (update m i 0)

-- `data` is the array's memory before the call.
unfoldable pub init : (ℕ → ℕ) → ℕ → Bitmap
unfolding clear_words
init data' num_bits = record { size = num_bits; map = clear_words (words num_bits) 0 data' }

unfoldable pub set : Bitmap → ℕ → Bitmap
set bmp bit = if leb bmp.size bit then bmp else record bmp {
  map = update bmp.map (bit / 64) (bit_or (bmp.map (bit / 64)) (one_shl (bit % 64)));
}

unfoldable pub clear : Bitmap → ℕ → Bitmap
clear bmp bit = if leb bmp.size bit then bmp else record bmp {
  map = update bmp.map (bit / 64) (bit_and (bmp.map (bit / 64)) (complement (one_shl (bit % 64))));
}

-- The word operations of `bitmap_set_atomic` and `bitmap_clear_atomic` are one indivisible
-- read-modify-write, so each is one step with the result of its plain counterpart.
unfoldable pub set_atomic : Bitmap → ℕ → Bitmap
set_atomic bmp bit =
    if leb bmp.size bit
    then bmp
    else let mask = one_shl (bit % 64) in
      record bmp { map = update bmp.map (bit / 64) (bit_or (bmp.map (bit / 64)) mask) }

unfoldable pub clear_atomic : Bitmap → ℕ → Bitmap
clear_atomic bmp bit =
    if leb bmp.size bit
    then bmp
    else let mask = complement (one_shl (bit % 64)) in
      record bmp { map = update bmp.map (bit / 64) (bit_and (bmp.map (bit / 64)) mask) }

-- `bitmap_test` returns 0 or 1
unfoldable pub test : Bitmap → ℕ → Bool
test bmp bit =
    if leb bmp.size bit then false else not (bit_and (bmp.map (bit / 64)) (one_shl (bit % 64)) == 0)

-- The inner loop of the two searches: the bits j, j + 1, ... of word i, with `n` rounds left.
-- `want` is the bit's value that ends the search; `break` at the bitmap's end gives `none`.
unfoldable pub scan_word : Bool → ℕ → ℕ → ℕ → ℕ → ℕ → Option ℕ
scan_word want size word i zero j = none
scan_word want size word i (suc n) j =
    let bit_pos = (i * 64 + j) % 2 ^ 64 in
    let found = not (bit_and word (one_shl j) == 0) in
    let rest = scan_word want size word i n (j + 1) in
    if leb size bit_pos
    then none
    else if (if want then found else not found)
    then some bit_pos
    else rest

-- The outer loop over the words i, i + 1, ..., with `n` rounds left. `skip` is the word that
-- holds no such bit; `bit_start` is where the first word is entered.
unfoldable pub scan : Bool → ℕ → Bitmap → ℕ → ℕ → ℕ → ℕ → Option ℕ
scan want skip bmp word_start bit_start zero i = none
scan want skip bmp word_start bit_start (suc n) i =
    let word = bmp.map i in
    let j = if i == word_start then bit_start else 0 in
    let next = scan want skip bmp word_start bit_start n (i + 1) in
    let here = scan_word want bmp.size word i (64 - j) j in
    if word == skip then next else elim here [ none ↦ next | some r ↦ some r ]

unfoldable pub find_first : Bool → ℕ → Bitmap → ℕ → Option ℕ
unfolding scan
find_first want skip bmp start =
    scan want skip bmp (start / 64) (start % 64) (words bmp.size - start / 64) (start / 64)

-- `return bit_pos` and `return -1` through the result type `int`
abbrev pub int_result : Option ℕ → ℤ
int_result none = negsuc 0
int_result (some i) = to_int i

-- UINT64_MAX
abbrev pub u64_max : ℕ
u64_max = 2 ^ 64 - 1

unfoldable pub find_first_zero : Bitmap → ℕ → ℤ
find_first_zero bmp start = int_result (find_first false u64_max bmp start)

unfoldable pub find_first_set : Bitmap → ℕ → ℤ
find_first_set bmp start = int_result (find_first true 0 bmp start)

-- The check in `bitmap_alloc_range`: no bit among i + j, i + j + 1, ... (`n` rounds) is set.
unfoldable pub all_clear : Bitmap → ℕ → ℕ → ℕ → Bool
all_clear bmp i zero j = true
all_clear bmp i (suc n) j =
    let rest = all_clear bmp i n (j + 1) in if test bmp ((i + j) % 2 ^ 64) then false else rest

-- The loop that sets the bits found, and the body of `bitmap_set_range` below its guard.
unfoldable pub set_bits : Bitmap → ℕ → ℕ → ℕ → Bitmap
set_bits bmp i zero j = bmp
set_bits bmp i (suc n) j = set_bits (set bmp ((i + j) % 2 ^ 64)) i n (j + 1)

-- The outer loop of `bitmap_alloc_range`, with `n` rounds left.
unfoldable pub alloc_from : Bitmap → ℕ → ℕ → ℕ → ℤ × Bitmap
alloc_from bmp count zero i = (negsuc 0, bmp)
alloc_from bmp count (suc n) i =
    let next = alloc_from bmp count n (i + 1) in
    if all_clear bmp i count 0 then (to_int i, set_bits bmp i count 0) else next

-- `i <= bmp->size - count` compares with a difference that wraps around.
abbrev pub last_start : Bitmap → ℕ → ℕ
last_start bmp count = (bmp.size + 2 ^ 64 - count) % 2 ^ 64

unfoldable pub alloc_range : Bitmap → ℕ → ℕ → ℤ × Bitmap
alloc_range bmp count start =
    if count == 0
    then (negsuc 0, bmp)
    else alloc_from bmp count (last_start bmp count + 1 - start) start

-- The loop of `bitmap_free_range`, at i with `n` rounds left.
unfoldable pub free_bits : Bitmap → ℕ → ℕ → ℕ → Bitmap
free_bits bmp start zero i = bmp
free_bits bmp start (suc n) i =
    let bit = (start + i) % 2 ^ 64 in
    free_bits (if ltb bit bmp.size then clear bmp bit else bmp) start n (i + 1)

unfoldable pub free_range : Bitmap → ℕ → ℕ → Bitmap
free_range bmp start count = free_bits bmp start count 0

-- The loops of `bitmap_set_range` and `bitmap_clear_range`: they stop at the bitmap's end.
unfoldable pub range_loop : (Bitmap → ℕ → Bitmap) → Bitmap → ℕ → ℕ → ℕ → Bitmap
range_loop op bmp start zero i = bmp
range_loop op bmp start (suc n) i =
    let bit = (start + i) % 2 ^ 64 in
    let rest = range_loop op (op bmp bit) start n (i + 1) in if ltb bit bmp.size then rest else bmp

unfoldable pub set_range : Bitmap → ℕ → ℕ → Bitmap
set_range bmp start count = range_loop set bmp start count 0

unfoldable pub clear_range : Bitmap → ℕ → ℕ → Bitmap
clear_range bmp start count = range_loop clear bmp start count 0

-- `while (word) { count++; word &= word - 1; }` on fuel: `none` if it runs out.
unfoldable pub count_word : ℕ → ℕ → ℕ → Option ℕ
count_word zero word count = none
count_word (suc f) word count =
    let rest = count_word f (bit_and word (word - 1)) (count + 1) in
    if word == 0 then some count else rest

-- A word has 64 bits, so 64 rounds and the last test are enough.
abbrev pub word_fuel : ℕ
word_fuel = 65

-- The word that round i counts: the last one is masked if the bitmap ends inside it.
unfoldable pub valid_word : Bitmap → ℕ → ℕ → ℕ
valid_word bmp total_words i =
    if (i == total_words - 1) && not (bmp.size % 64 == 0)
    then bit_and (bmp.map i) (one_shl (bmp.size % 64) - 1)
    else bmp.map i

unfoldable pub count_words : Bitmap → ℕ → ℕ → ℕ → ℕ → Option ℕ
count_words bmp total_words zero i count = some count
count_words bmp total_words (suc n) i count =
    elim (count_word word_fuel (valid_word bmp total_words i) count) [
      | none ↦ none
      | some c ↦ count_words bmp total_words n (i + 1) c
    ]

unfoldable pub count_set : Bitmap → Option ℕ
count_set bmp = count_words bmp (words bmp.size) (words bmp.size) 0 0

-- `(int)((used * 100) / total)`; `none` is the fault of a division by zero.
unfoldable pub usage_percent : Bitmap → Option ℤ
usage_percent bmp = elim (count_set bmp) [
  | none ↦ none
  | some used ↦ if bmp.size == 0 then none else some (to_int (used * 100 % 2 ^ 64 / bmp.size))
]
