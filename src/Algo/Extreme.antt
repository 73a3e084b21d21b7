-- ===== src/Algo/Extreme.antt =====
-- The index that `find_extreme_index` returns is the first one with the least number, or with the
-- greatest.
use rayos.Base.{
  ℕ, zero, suc, ◌+◌, ◌^◌, ◌<◌, ◌≡◌, refl, arith, Bool, true, false, some, ◌==◌, if◌then◌else◌, inl,
  inr, Bool-cases, ℤ, pos, negsuc, to_int_small, subst,
}
use rayos.Algo.{extreme_loop, find_extreme_index, min_cmp, max_cmp}

-- No number of [0, hi) comes before the one at idx, and none before idx ties with it.
pub record IsExtreme (cmp : ℤ → ℤ → Bool) (arr : ℕ → ℤ) (hi idx : ℕ) : Type 0 where
  pub within : idx < hi
  pub none_before : (j : ℕ) → j < hi → cmp (arr j) (arr idx) ≡ false
  pub first : (j : ℕ) → j < idx → cmp (arr idx) (arr j) ≡ true

-- What the two comparisons are: strict orders in which x < z implies x < y or y < z.
pub record StrictOrder (cmp : ℤ → ℤ → Bool) : Type 0 where
  pub asym : (x y : ℤ) → cmp x y ≡ true → cmp y x ≡ false
  pub split : (x y z : ℤ) → cmp x z ≡ true → cmp x y ≡ false → cmp y z ≡ true

module _ (cmp : ℤ → ℤ → Bool) (o : StrictOrder cmp) (arr : ℕ → ℤ) where
  irreflexive : (x : ℤ) → cmp x x ≡ false
  irreflexive x = elim (Bool-cases (cmp x x)) [ inl is ↦ o.asym x x is | inr isnt ↦ isnt ]

  better-IsExtreme :
      (i idx : ℕ)
      → IsExtreme cmp arr i idx
      → cmp (arr i) (arr idx) ≡ true
      → IsExtreme cmp arr (i + 1) i
  better-IsExtreme i idx e better = record {
    within = omega arith;
    none_before = λ j h. elim (Bool-cases (cmp (arr j) (arr i))) [
      | inr isnt ↦ isnt
      | inl before ↦ elim (Bool-cases (j == i)) [
        | inl same ↦ subst (λ k. cmp (arr k) (arr i) ≡ false) (ground arith) (irreflexive (arr i))
        | inr other ↦
            let back : cmp (arr idx) (arr i) ≡ true =
              o.split (arr j) (arr idx) (arr i) before (e.none_before j (ground arith)) in
            let forth : cmp (arr idx) (arr i) ≡ false = o.asym (arr i) (arr idx) better in cc
      ]
    ];
    first = λ j h. elim (Bool-cases (cmp (arr i) (arr j))) [
      | inl is ↦ is
      | inr isnt ↦
          let before : cmp (arr j) (arr idx) ≡ true =
            o.split (arr i) (arr j) (arr idx) better isnt in
          let not_before : cmp (arr j) (arr idx) ≡ false = e.none_before j h in cc
    ];
  }

  worse-IsExtreme :
      (i idx : ℕ)
      → IsExtreme cmp arr i idx
      → cmp (arr i) (arr idx) ≡ false
      → IsExtreme cmp arr (i + 1) idx
  worse-IsExtreme i idx e worse = record {
    within = omega (arith, e.within);
    none_before = λ j h. elim (Bool-cases (j == i)) [
      | inl same ↦ subst (λ k. cmp (arr k) (arr idx) ≡ false) (ground arith) worse
      | inr other ↦ e.none_before j (ground arith)
    ];
    first = e.first;
  }

  -- One more number: the better one of it and the best so far.
  extend-IsExtreme :
      (i idx : ℕ)
      → IsExtreme cmp arr i idx
      → IsExtreme cmp arr (i + 1) (if cmp (arr i) (arr idx) then i else idx)
  extend-IsExtreme i idx e = elim (Bool-cases (cmp (arr i) (arr idx))) [
    | inl better ↦ rw better (better-IsExtreme i idx e better)
    | inr worse ↦ rw worse (worse-IsExtreme i idx e worse)
  ]

  loop-IsExtreme :
      (n i idx : ℕ)
      → IsExtreme cmp arr i idx
      → IsExtreme cmp arr (i + n) (extreme_loop cmp arr n i idx)
  unfolding extreme_loop
  loop-IsExtreme zero i idx e = subst (λ h. IsExtreme cmp arr h idx) (omega arith) e
  loop-IsExtreme (suc n) i idx e =
      subst
        (λ h.
          IsExtreme cmp arr h
            (extreme_loop cmp arr n (i + 1) (if cmp (arr i) (arr idx) then i else idx)))
        (omega arith)
        (loop-IsExtreme n (i + 1) (if cmp (arr i) (arr idx) then i else idx)
          (extend-IsExtreme i idx e))

pub min_cmp-StrictOrder : StrictOrder min_cmp
unfolding min_cmp
min_cmp-StrictOrder = record { asym = asym; split = split }
  where
    asym : (x y : ℤ) → min_cmp x y ≡ true → min_cmp y x ≡ false
    asym (pos a) (pos b) h = ground arith
    asym (pos a) (negsuc b) h = ground arith
    asym (negsuc a) (pos b) h = refl
    asym (negsuc a) (negsuc b) h = ground arith

    split : (x y z : ℤ) → min_cmp x z ≡ true → min_cmp x y ≡ false → min_cmp y z ≡ true
    split (pos a) (pos b) (pos c) h k = ground arith
    split (pos a) (pos b) (negsuc c) h k = ground arith
    split (pos a) (negsuc b) (pos c) h k = refl
    split (pos a) (negsuc b) (negsuc c) h k = ground arith
    split (negsuc a) (pos b) (pos c) h k = ground arith
    split (negsuc a) (pos b) (negsuc c) h k = ground arith
    split (negsuc a) (negsuc b) (pos c) h k = refl
    split (negsuc a) (negsuc b) (negsuc c) h k = ground arith

pub max_cmp-StrictOrder : StrictOrder max_cmp
unfolding max_cmp
max_cmp-StrictOrder = record {
  asym = λ x y h. min_cmp-StrictOrder.asym y x h;
  split = λ x y z h k. elim (Bool-cases (min_cmp z y)) [
    | inl is ↦ is
    | inr isnt ↦ cc (min_cmp-StrictOrder.split z y x h isnt, k)
  ];
}

IsExtreme-index :
    (cmp : ℤ → ℤ → Bool) (arr : ℕ → ℤ) (n : ℕ)
    → StrictOrder cmp
    → n < 2 ^ 31
    → 0 < n
    → (idx : ℕ) × (find_extreme_index (some arr) (pos n) cmp ≡ pos idx) × IsExtreme cmp arr n idx
unfolding find_extreme_index
IsExtreme-index cmp arr zero o h more = absurd (omega arith)
IsExtreme-index cmp arr (suc n) o h more =
    let start : IsExtreme cmp arr 1 0 = record {
      within = omega arith;
      none_before = λ j k.
          subst (λ i. cmp (arr i) (arr 0) ≡ false) (omega arith) (irreflexive cmp o arr (arr 0));
      first = λ j k. absurd (omega arith);
    } in
    let e : IsExtreme cmp arr (suc n) (extreme_loop cmp arr n 1 0) =
      subst (λ i. IsExtreme cmp arr i (extreme_loop cmp arr n 1 0)) (omega arith)
        (loop-IsExtreme cmp o arr n 1 0 start) in
    (extreme_loop cmp arr n 1 0, to_int_small _ (omega (arith, e.within)), e)

-- `find_extreme_index` of an array of n numbers, 0 < n < 2^31, returns the first index of the least number with
-- `min_cmp`, and the first index of the greatest one with `max_cmp`.
pub find_extreme_index-IsExtreme :
    (arr : ℕ → ℤ) (n : ℕ)
    → 0 < n
    → n < 2 ^ 31
    → ((idx : ℕ) × (find_extreme_index (some arr) (pos n) min_cmp ≡ pos idx)
        × IsExtreme min_cmp arr n idx)
      × ((idx : ℕ) × (find_extreme_index (some arr) (pos n) max_cmp ≡ pos idx)
          × IsExtreme max_cmp arr n idx)
find_extreme_index-IsExtreme arr n more h = (
  IsExtreme-index min_cmp arr n min_cmp-StrictOrder h more,
  IsExtreme-index max_cmp arr n max_cmp-StrictOrder h more,
)
