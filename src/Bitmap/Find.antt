-- ===== src/Bitmap/Find.antt =====
-- `bitmap_find_first_zero` and `bitmap_find_first_set` return the first bit of the kind, or -1.
use Prim.Native.Nat.{bit_and}
use rayos.Base.{
  ℕ, zero, suc, ◌+◌, ◌-◌, ◌*◌, ◌/◌, ◌%◌, ◌^◌, ◌≤◌, ◌<◌, ◌≡◌, refl, arith, Bool, true, false, not,
  ◌&&◌, Option, none, some, ltb, leb, ◌==◌, if◌then◌else◌, inl, inr, Bool-cases, ==→eq, IsFirst,
  NoneIn, IsFirst-append, IsFirst-or_else, IsFirst-shrink, fun_ext, subst, to_int_small, ℤ, pos,
  negsuc,
}
use rayos.Bits.{one_shl, digit-of_zero}
use rayos.Bits.Ops.{digit-complement}
use rayos.Bits.Word.{test-one_shl}
use rayos.Bitmap.{
  Bitmap, words, test, scan_word, scan, find_first, find_first_zero, find_first_set, u64_max,
  int_result,
}
use rayos.Bitmap.Bit.{IsValid, bit_at, test-digit}

-- The bit has the value that the search wants.
abbrev pub wanted : Bool → (ℕ → ℕ) → ℕ → Bool
wanted want m bit = if want then bit_at m bit == 1 else not (bit_at m bit == 1)

hit_lem :
    (want : Bool) (m : ℕ → ℕ) (i j : ℕ)
    → j < 64
    → (if want
        then not (bit_and (m i) (one_shl j) == 0)
        else not (not (bit_and (m i) (one_shl j) == 0)))
      ≡ wanted want m (i * 64 + j)
hit_lem want m i j h =
    let word : (i * 64 + j) / 64 ≡ i = omega arith in
    let place : (i * 64 + j) % 64 ≡ j = omega arith in rw (test-one_shl (m i) j h, word, place) refl

-- A bit of the bitmap that has the wanted value.
abbrev pub eligible : Bool → (ℕ → ℕ) → ℕ → ℕ → Bool
eligible want m size bit = ltb bit size && wanted want m bit

module _ (want : Bool) (m : ℕ → ℕ) (size : ℕ) (small : size < 2 ^ 31) where
  -- `n` bits of word i, from bit j on.
  scan_word-IsFirst :
      (i n j : ℕ)
      → j + n ≡ 64
      → i * 64 < size
      → IsFirst (eligible want m size) (i * 64 + j) (i * 64 + 64) (scan_word want size (m i) i n j)
  unfolding scan_word
  scan_word-IsFirst i zero j e h = λ k lo hi. absurd (omega arith)
  scan_word-IsFirst i (suc n) j e h =
      let at : (i * 64 + j) % 2 ^ 64 ≡ i * 64 + j = omega arith in
      rw (at, hit_lem want m i j (omega arith))
        (elim (Bool-cases (leb size (i * 64 + j))) [
          | inl out ↦ rw out (λ k lo hi. ground arith)
          | inr inside ↦ rw inside (elim (Bool-cases (wanted want m (i * 64 + j))) [
            | inl hit ↦
                rw hit (omega arith, omega arith, ground arith, λ k lo hi. absurd (omega arith))
            | inr miss ↦ rw miss (
                IsFirst-append (eligible want m size) (i * 64 + j) (i * 64 + (j + 1)) _ _
                  (omega arith)
                  (λ k lo hi.
                    let same : i * 64 + j ≡ k = omega arith in
                    subst (λ t. eligible want m size t ≡ false) same (ground arith))
                  (scan_word-IsFirst i n (j + 1) (omega arith) h))
          ])
        ])

-- The word that the search skips holds no bit of the wanted value.
abbrev Skips : Bool → ℕ → (ℕ → ℕ) → Type 0
Skips want skip m = (i : ℕ) → m i ≡ skip → NoneIn (wanted want m) (i * 64) (i * 64 + 64)

abbrev entry : ℕ → ℕ → ℕ → ℕ
entry ws bs i = if i == ws then bs else 0

module _ (want : Bool) (skip : ℕ) (bmp : Bitmap) (small : bmp.size < 2 ^ 31)
    (skips : Skips want skip bmp.map) (ws bs : ℕ) (inside : bs < 64) where
  scan-IsFirst :
      (n i : ℕ)
      → i + n ≡ words bmp.size
      → ws ≤ i
      → IsFirst
          (eligible want bmp.map bmp.size)
          (i * 64 + entry ws bs i)
          (words bmp.size * 64)
          (scan want skip bmp ws bs n i)
  unfolding scan
  scan-IsFirst zero i e h = λ k lo hi. absurd (ground arith)
  scan-IsFirst (suc n) i e h =
      let at : (i + 1) * 64 + entry ws bs (i + 1) ≡ i * 64 + 64 = ground arith in
      let next =
        subst
          (λ t.
            IsFirst (eligible want bmp.map bmp.size) t (words bmp.size * 64)
              (scan want skip bmp ws bs n (i + 1)))
          at (scan-IsFirst n (i + 1) (omega arith) (omega arith)) in
      let here =
        scan_word-IsFirst want bmp.map bmp.size small i (64 - entry ws bs i) (entry ws bs i)
          (ground arith) (omega arith) in
      elim (Bool-cases (bmp.map i == skip)) [
        | inl full ↦ rw full (
            IsFirst-append (eligible want bmp.map bmp.size) (i * 64 + entry ws bs i) (i * 64 + 64) _
              _ (ground arith)
              (λ k lo hi. ground (arith, skips i (==→eq _ _ full) k (ground arith) hi)) next)
        | inr other ↦ rw other (
            IsFirst-or_else (eligible want bmp.map bmp.size) (i * 64 + entry ws bs i) (i * 64 + 64)
              _ _ _ (ground arith) (omega arith) here next)
      ]

zero-Skips : (m : ℕ → ℕ) → Skips false u64_max m
zero-Skips m i full j lo hi =
    let word : m (j / 64) ≡ u64_max = subst (λ t. m t ≡ u64_max) (omega arith) full in
    rw (word, digit-complement 64 (j % 64) 0 (omega arith) (omega arith), digit-of_zero (j % 64))
      refl

one-Skips : (m : ℕ → ℕ) → Skips true 0 m
one-Skips m i empty j lo hi =
    let word : m (j / 64) ≡ 0 = subst (λ t. m t ≡ 0) (omega arith) empty in
    rw (word, digit-of_zero (j % 64)) refl

-- A C search result: the index as an `int`, or -1.
abbrev pub index_or_minus_one : Option ℕ → ℤ
index_or_minus_one none = negsuc 0
index_or_minus_one (some i) = pos i

-- The first set bit, or clear bit, of the bitmap at or after `start`.
abbrev pub first_bit : Bool → Bitmap → ℕ → Bool
first_bit want bmp j = ltb j bmp.size && (if want then test bmp j else not (test bmp j))

module _ (want : Bool) (skip : ℕ) (bmp : Bitmap) (start : ℕ) (v : IsValid bmp)
    (skips : Skips want skip bmp.map) where
  eligible-first_bit : (j : ℕ) → eligible want bmp.map bmp.size j ≡ first_bit want bmp j
  eligible-first_bit j = rw (test-digit bmp j) (ground arith)

  find_first-IsFirst : IsFirst (first_bit want bmp) start bmp.size (find_first want skip bmp start)
  unfolding find_first
  find_first-IsFirst = elim (Bool-cases (leb (start / 64) (words bmp.size))) [
    | inl reaches ↦
        let at : start / 64 * 64 + entry (start / 64) (start % 64) (start / 64) ≡ start =
          ground arith in
        let r =
          scan want skip bmp (start / 64) (start % 64) (words bmp.size - start / 64) (start / 64) in
        let found =
          scan-IsFirst want skip bmp v.small skips (start / 64) (start % 64) (omega arith)
            (words bmp.size - start / 64) (start / 64) (ground arith) (omega arith) in
        IsFirst-shrink (first_bit want bmp) start bmp.size (words bmp.size * 64) _
          (omega (arith, v.small)) (λ j h. ground arith)
          (subst (λ p. IsFirst p start (words bmp.size * 64) r) (fun_ext eligible-first_bit)
            (subst (λ t. IsFirst (eligible want bmp.map bmp.size) t (words bmp.size * 64) r) at
              found))
    | inr past ↦
        let none_left : words bmp.size - start / 64 ≡ 0 = ground arith in
        rw none_left (λ j lo hi. absurd (ground (arith, v.small)))
  ]

  pub find_first-index :
      int_result (find_first want skip bmp start)
      ≡ index_or_minus_one (find_first want skip bmp start)
  find_first-index = index (find_first want skip bmp start) find_first-IsFirst
    where
      index :
          (r : Option ℕ)
          → IsFirst (first_bit want bmp) start bmp.size r
          → int_result r ≡ index_or_minus_one r
      index none f = refl
      index (some i) f = to_int_small i (omega (arith, v.small))

-- What a search for the first bit with the value promises of its `int` result.
abbrev pub FindsFirst : Bool → Bitmap → ℕ → ℤ → Type 0
FindsFirst want bmp start result =
    (r : Option ℕ) × (result ≡ index_or_minus_one r) × IsFirst (first_bit want bmp) start bmp.size r

-- `bitmap_find_first_zero` returns the first clear bit of the bitmap at or after `start`, and -1
-- exactly if there is none.
pub find_first_zero-FindsFirst :
    (bmp : Bitmap) (start : ℕ)
    → IsValid bmp
    → FindsFirst false bmp start (find_first_zero bmp start)
unfolding find_first_zero
find_first_zero-FindsFirst bmp start v = (
  find_first false u64_max bmp start,
  find_first-index false u64_max bmp start v (zero-Skips bmp.map),
  find_first-IsFirst false u64_max bmp start v (zero-Skips bmp.map),
)

-- `bitmap_find_first_set` returns the first set bit of the bitmap at or after `start`, and -1
-- exactly if there is none.
pub find_first_set-FindsFirst :
    (bmp : Bitmap) (start : ℕ) → IsValid bmp → FindsFirst true bmp start (find_first_set bmp start)
unfolding find_first_set
find_first_set-FindsFirst bmp start v = (
  find_first true 0 bmp start,
  find_first-index true 0 bmp start v (one-Skips bmp.map),
  find_first-IsFirst true 0 bmp start v (one-Skips bmp.map),
)
