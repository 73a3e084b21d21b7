-- ===== src/Algo.antt =====
-- src/algo.c and inc/algo.h: the index of the least or the greatest number of an array, by which the
-- scheduler chooses a CPU.
pub mod Extreme
mod Tests
use rayos.Base.{
  ℕ, zero, suc, ◌+◌, ◌-◌, Bool, true, false, Option, none, some, ltb, if◌then◌else◌, ℤ, pos, negsuc,
  to_int,
}

-- The loop, at i with `n` rounds left, and the best index so far.
unfoldable pub extreme_loop : (ℤ → ℤ → Bool) → (ℕ → ℤ) → ℕ → ℕ → ℕ → ℕ
extreme_loop cmp arr zero i idx = idx
extreme_loop cmp arr (suc n) i idx =
    extreme_loop cmp arr n (i + 1) (if cmp (arr i) (arr idx) then i else idx)

-- `none` is an array that is NULL.
unfoldable pub find_extreme_index : Option (ℕ → ℤ) → ℤ → (ℤ → ℤ → Bool) → ℤ
find_extreme_index none len cmp = negsuc 0
find_extreme_index (some arr) (negsuc n) cmp = negsuc 0
find_extreme_index (some arr) (pos zero) cmp = negsuc 0
find_extreme_index (some arr) (pos (suc n)) cmp = to_int (extreme_loop cmp arr n 1 0)

unfoldable pub min_cmp : ℤ → ℤ → Bool
min_cmp (pos a) (pos b) = ltb a b
min_cmp (pos a) (negsuc b) = false
min_cmp (negsuc a) (pos b) = true
min_cmp (negsuc a) (negsuc b) = ltb b a

unfoldable pub max_cmp : ℤ → ℤ → Bool
unfolding min_cmp
max_cmp a b = min_cmp b a
