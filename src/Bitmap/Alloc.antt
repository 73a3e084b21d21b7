-- ===== src/Bitmap/Alloc.antt =====
-- `bitmap_alloc_range`: the first run of clear bits, marked.
use rayos.Base.{
  ℕ, zero, suc, ◌+◌, ◌-◌, ◌%◌, ◌^◌, ◌≤◌, ◌<◌, ◌≡◌, refl, arith, true, false, Option, none, some,
  ◌==◌, if◌then◌else◌, inl, inr, Bool-cases, ==→eq, NoneIn, ℤ, pos, negsuc, to_int_small, subst,
}
use rayos.Bitmap.{
  Bitmap, test, all_clear, set_bits, alloc_from, alloc_range, last_start, free_range,
}
use rayos.Bitmap.Bit.{IsValid}
use rayos.Bitmap.Range.{within, test-set_bits, size-set_bits, set_bits-IsValid, test-free_range}

-- The check of the `count` bits from i, against the bits themselves.
all_clear-NoneIn :
    (n : ℕ) (bmp : Bitmap) (i j : ℕ)
    → i + j + n < 2 ^ 64
    → all_clear bmp i n j ≡ true
    → NoneIn (test bmp) (i + j) (i + j + n)
unfolding all_clear
all_clear-NoneIn zero bmp i j h e k lo hi = absurd (omega arith)
all_clear-NoneIn (suc n) bmp i j h e k lo hi =
    let at : (i + j) % 2 ^ 64 ≡ i + j = omega arith in
    elim (Bool-cases (k == i + j)) [
      | inl here ↦ let same : k ≡ i + j = ==→eq _ _ here in rw same (ground arith)
      | inr later ↦
          all_clear-NoneIn n bmp i (j + 1) (omega arith) (ground arith) k (ground arith)
            (omega arith)
    ]

pub NoneIn-all_clear :
    (n : ℕ) (bmp : Bitmap) (i j : ℕ)
    → i + j + n < 2 ^ 64
    → NoneIn (test bmp) (i + j) (i + j + n)
    → all_clear bmp i n j ≡ true
unfolding all_clear
NoneIn-all_clear zero bmp i j h e = refl
NoneIn-all_clear (suc n) bmp i j h e =
    let at : (i + j) % 2 ^ 64 ≡ i + j = omega arith in
    rw (at, e (i + j) (omega arith) (omega arith))
      (NoneIn-all_clear n bmp i (j + 1) (omega arith) (λ k lo hi. e k (omega arith) (omega arith)))

-- What a call on a bitmap promises: the first place with room is marked and its index returned,
-- or there is no such place, the result is -1 and the bitmap is as it was.
abbrev pub AllocOutcome : Bitmap → ℕ → ℕ → ℤ × Bitmap → Option ℕ → Type 0
AllocOutcome bmp count start (result, after) none =
    (result ≡ negsuc 0)
    × (after ≡ bmp)
    × ((k : ℕ) → start ≤ k → k + count ≤ bmp.size → ¬ NoneIn (test bmp) k (k + count))
AllocOutcome bmp count start (result, after) (some i) =
    (result ≡ pos i)
    × (start ≤ i)
    × (i + count ≤ bmp.size)
    × NoneIn (test bmp) i (i + count)
    × ((k : ℕ) → start ≤ k → k < i → ¬ NoneIn (test bmp) k (k + count))
    × (after.size ≡ bmp.size)
    × ((k : ℕ) → test after k ≡ (if within i (i + count) k then true else test bmp k))

module _ (bmp : Bitmap) (count : ℕ) (v : IsValid bmp) (fits : count ≤ bmp.size) where
  -- A place that failed the check has no room.
  blocked :
      (i : ℕ)
      → i + count ≤ bmp.size
      → all_clear bmp i count 0 ≡ false
      → ¬ NoneIn (test bmp) i (i + count)
  blocked i h miss free = cc (
      NoneIn-all_clear count bmp i 0 (omega (arith, v.small))
        (λ k lo hi. free k (omega arith) (omega arith)))

  marked :
      (i : ℕ)
      → i + count ≤ bmp.size
      → (k : ℕ)
      → test (set_bits bmp i count 0) k ≡ (if within i (i + count) k then true else test bmp k)
  marked i h k = rw (test-set_bits count bmp i 0 k (omega (arith, v.small))) (ground arith)

  at_or_after :
      (i k : ℕ)
      → ¬ NoneIn (test bmp) i (i + count)
      → (i + 1 ≤ k → ¬ NoneIn (test bmp) k (k + count))
      → i ≤ k
      → ¬ NoneIn (test bmp) k (k + count)
  at_or_after i k here later h = elim (Bool-cases (i == k)) [
    | inl same ↦ subst (λ (t : ℕ). ¬ NoneIn (test bmp) t (t + count)) (==→eq _ _ same) here
    | inr other ↦ later (ground arith)
  ]

  -- The outcome of the search from i + 1, seen from i.
  extend :
      (i : ℕ) (r : Option ℕ) (out : ℤ × Bitmap)
      → ¬ NoneIn (test bmp) i (i + count)
      → AllocOutcome bmp count (i + 1) out r
      → AllocOutcome bmp count i out r
  extend i none out no_room o =
      (o.0, o.1, λ k lo room. at_or_after i k no_room (λ above. o.2 k above room) lo)
  extend i (some m) out no_room o = (
    o.0,
    omega (arith, o.1),
    o.2,
    o.3,
    λ k lo below. at_or_after i k no_room (λ above. o.4 k above below) lo,
    o.5,
    o.6,
  )

  alloc_from-Outcome :
      (n i : ℕ)
      → bmp.size < i + n + count
      → (0 < n → i + n + count ≤ bmp.size + 1)
      → (r : Option ℕ) × AllocOutcome bmp count i (alloc_from bmp count n i) r
  unfolding alloc_from
  alloc_from-Outcome zero i h k = (none, (refl, refl, λ j lo room. absurd (omega arith)))
  alloc_from-Outcome (suc n) i h k = elim (Bool-cases (all_clear bmp i count 0)) [
    | inl room ↦ rw room (
      some i,
      (
        to_int_small i (omega (arith, k (omega arith), v.small)),
        omega arith,
        omega (arith, k (omega arith)),
        λ j lo hi.
            all_clear-NoneIn count bmp i 0 (omega (arith, k (omega arith), v.small)) room j
              (omega arith) (omega arith),
        λ j lo hi. absurd (omega arith),
        size-set_bits count bmp i 0,
        marked i (omega (arith, k (omega arith))),
      ),
    )
    | inr miss ↦
        let (r, o) =
          alloc_from-Outcome n (i + 1) (omega arith) (λ p. omega (arith, k (omega arith))) in
        rw miss (r, extend i r _ (blocked i (omega (arith, k (omega arith))) miss) o)
  ]

-- `bitmap_alloc_range` with 0 < count ≤ size, from any `start`: it returns the first index from
-- which `count` bits of the bitmap are clear, and marks exactly those; or it returns -1, changes
-- nothing, and there is no such index.
pub alloc_range-AllocOutcome :
    (bmp : Bitmap) (count start : ℕ)
    → IsValid bmp
    → 0 < count
    → count ≤ bmp.size
    → (r : Option ℕ) × AllocOutcome bmp count start (alloc_range bmp count start) r
unfolding alloc_range
alloc_range-AllocOutcome bmp count start v pos_count fits =
    let some_bits : (count == 0) ≡ false = ground arith in
    let limit : last_start bmp count ≡ bmp.size - count = omega (arith, v.small) in
    rw (some_bits, limit)
      (alloc_from-Outcome bmp count v fits (bmp.size - count + 1 - start) start (omega arith)
        (λ p. omega arith))

pub alloc_from-IsValid :
    (n : ℕ) (bmp : Bitmap) (count i : ℕ) → IsValid bmp → IsValid (alloc_from bmp count n i).1
unfolding alloc_from
alloc_from-IsValid zero bmp count i v = v
alloc_from-IsValid (suc n) bmp count i v = elim (Bool-cases (all_clear bmp i count 0)) [
  | inl room ↦ rw room (set_bits-IsValid count bmp i 0 v)
  | inr miss ↦ rw miss (alloc_from-IsValid n bmp count (i + 1) v)
]

pub alloc_range-IsValid :
    (bmp : Bitmap) (count start : ℕ) → IsValid bmp → IsValid (alloc_range bmp count start).1
unfolding alloc_range
alloc_range-IsValid bmp count start v = elim (Bool-cases (count == 0)) [
  | inl empty ↦ rw empty v
  | inr more ↦ rw more (alloc_from-IsValid (last_start bmp count + 1 - start) bmp count start v)
]

-- What `bitmap_alloc_range` marked, `bitmap_free_range` clears: every bit is as before the two.
pub test-free_range-alloc_range :
    (bmp : Bitmap) (count start i k : ℕ)
    → IsValid bmp
    → 0 < count
    → count ≤ bmp.size
    → (alloc_range bmp count start).0 ≡ pos i
    → test (free_range (alloc_range bmp count start).1 i count) k ≡ test bmp k
test-free_range-alloc_range bmp count start i k v pos_count fits got =
    restored (alloc_range-AllocOutcome bmp count start v pos_count fits)
  where
    restored :
        ((r : Option ℕ) × AllocOutcome bmp count start (alloc_range bmp count start) r)
        → test (free_range (alloc_range bmp count start).1 i count) k ≡ test bmp k
    restored (none, o) = cc (o.0)
    restored (some m, o) =
        let same : m ≡ i = cc (o.0) in
        let at : test (alloc_range bmp count start).1 k
            ≡ (if within i (i + count) k then true else test bmp k) =
          subst
            (λ t.
              test (alloc_range bmp count start).1 k
              ≡ (if within t (t + count) k then true else test bmp k))
            same (o.6 k) in
        rw
          (
            test-free_range (alloc_range bmp count start).1 i count k
                (omega (arith, o.2, v.small, same)),
            at,
          )
          (ground (arith, o.3 k, same))
