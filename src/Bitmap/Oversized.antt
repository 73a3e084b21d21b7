-- ===== src/Bitmap/Oversized.antt =====
-- `bitmap_alloc_range` asked for more bits than the bitmap has.
use rayos.Base.{
  ℕ, zero, suc, ◌+◌, ◌-◌, ◌^◌, ◌≤◌, ◌<◌, ◌≡◌, arith, false, ◌==◌, inl, inr, Bool-cases, ==→eq, pos,
  to_int_small,
}
use rayos.Bitmap.{Bitmap, all_clear, alloc_from, alloc_range, last_start}
use rayos.Bitmap.Bit.{IsValid, test-out}
use rayos.Bitmap.Alloc.{NoneIn-all_clear}

-- Past the end of the bitmap every place passes the check.
oversized_from :
    (n : ℕ) (bmp : Bitmap) (count i : ℕ)
    → IsValid bmp
    → count < 2 ^ 63
    → i ≤ bmp.size
    → bmp.size < i + n
    → (m : ℕ) × ((alloc_from bmp count n i).0 ≡ pos m) × (i ≤ m) × (m ≤ bmp.size)
unfolding alloc_from
oversized_from zero bmp count i v big inside fuel = absurd (omega arith)
oversized_from (suc n) bmp count i v big inside fuel = elim (Bool-cases (all_clear bmp i count 0)) [
  | inl room ↦ rw room (i, to_int_small i (omega (arith, v.small)), omega arith, inside)
  | inr miss ↦ elim (Bool-cases (i == bmp.size)) [
    | inl end ↦ cc (
      miss,
      NoneIn-all_clear count bmp i 0 (omega (arith, v.small))
          (λ k lo hi. test-out bmp k (omega (arith, ==→eq _ _ end))),
    )
    | inr before ↦
        let (m, e, lo, hi) =
          oversized_from n bmp count (i + 1) v big (ground arith) (omega arith) in
        rw miss (m, e, omega arith, hi)
  ]
]

-- A request for more bits than the bitmap has, but less than 2^63, that starts inside the bitmap or at
-- its end does not fail: `size - count` wraps around, bits past the end read as clear, and the call
-- returns an index, from the start on and at most the size, as if it had found a run.
pub alloc_range-oversized :
    (bmp : Bitmap) (count start : ℕ)
    → IsValid bmp
    → bmp.size < count
    → count < 2 ^ 63
    → start ≤ bmp.size
    → (m : ℕ) × ((alloc_range bmp count start).0 ≡ pos m) × (start ≤ m) × (m ≤ bmp.size)
unfolding alloc_range
alloc_range-oversized bmp count start v more big inside =
    let some_bits : (count == 0) ≡ false = ground arith in
    rw some_bits (
      oversized_from (last_start bmp count + 1 - start) bmp count start v big inside
        (omega (arith, v.small)))
