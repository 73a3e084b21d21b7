-- ===== src/Strings/Compare.antt =====
-- `memcmp`, `strcmp`, `strncmp` by the first index at which the two differ.
use rayos.Base.{
  ℕ, zero, suc, ◌+◌, ◌≤◌, ◌<◌, ◌≡◌, ◌≢◌, ◌⊎◌, refl, arith, true, false, ◌&&◌, ◌==◌, some, inl, inr,
  Bool-cases, ◌∙◌, ap, sym, ℤ, pos, not,
}
use rayos.Strings.Text.{IsText, tail-IsText, ended-IsText, more-IsText}
use rayos.Strings.{Memory, memcmp, strcmp, difference}

-- The two areas agree on the first i elements.
abbrev pub Agree : Memory → ℕ → ℕ → ℕ → Type 0
Agree mem a b i = (j : ℕ) → j < i → mem (a + j) ≡ mem (b + j)

Agree-suc :
    (mem : Memory) (a b i : ℕ) → mem a ≡ mem b → Agree mem (a + 1) (b + 1) i → Agree mem a b (suc i)
Agree-suc mem a b i here later zero h =
    let left : a + 0 ≡ a = omega arith in
    let right : b + 0 ≡ b = omega arith in rw (left, right) here
Agree-suc mem a b i here later (suc j) h =
    let left : a + 1 + j ≡ a + suc j = omega arith in
    let right : b + 1 + j ≡ b + suc j = omega arith in
    ap mem (sym left) ∙ later j (omega arith) ∙ ap mem right

-- The comparison stops at index i, where the elements differ.
abbrev pub DiffersAt : Memory → ℕ → ℕ → ℕ → ℤ → Type 0
DiffersAt mem a b i result =
    Agree mem a b i
    × (mem (a + i) ≢ mem (b + i))
    × (result ≡ difference (mem (a + i)) (mem (b + i)))

DiffersAt-suc :
    (mem : Memory) (a b i : ℕ) (result : ℤ)
    → mem a ≡ mem b
    → DiffersAt mem (a + 1) (b + 1) i result
    → DiffersAt mem a b (suc i) result
DiffersAt-suc mem a b i result here (agree, differ, is) =
    let left : mem (a + 1 + i) ≡ mem (a + suc i) = ap mem (omega arith) in
    let right : mem (b + 1 + i) ≡ mem (b + suc i) = ap mem (omega arith) in
    (Agree-suc mem a b i here agree, λ e. differ (left ∙ e ∙ sym right), rw (← left, ← right) is)

DiffersAt-zero :
    (mem : Memory) (a b : ℕ) → mem a ≢ mem b → DiffersAt mem a b 0 (difference (mem a) (mem b))
DiffersAt-zero mem a b differ =
    let left : a + 0 ≡ a = omega arith in
    let right : b + 0 ≡ b = omega arith in
    (λ j h. absurd (omega arith), rw (left, right) differ, rw (left, right) refl)

-- `memcmp` returns 0 if the n elements are the same, and else the difference of the first two that
-- differ.
pub memcmp-DiffersAt :
    (n : ℕ) (mem : Memory) (a b : ℕ)
    → ((memcmp mem a b n ≡ pos 0) × Agree mem a b n)
      ⊎ ((i : ℕ) × (i < n) × DiffersAt mem a b i (memcmp mem a b n))
unfolding memcmp
memcmp-DiffersAt zero mem a b = inl (refl, λ j h. absurd (omega arith))
memcmp-DiffersAt (suc n) mem a b = elim (Bool-cases (mem a == mem b)) [
  | inl same ↦ rw same (elim (memcmp-DiffersAt n mem (a + 1) (b + 1)) [
    | inl (zero_result, agree) ↦ inl (zero_result, Agree-suc mem a b n (ground arith) agree)
    | inr (i, h, at) ↦ inr (suc i, omega arith, DiffersAt-suc mem a b i _ (ground arith) at)
  ])
  | inr other ↦ rw other (inr (0, omega arith, DiffersAt-zero mem a b (λ e. ground arith)))
]

-- `strcmp` ends, given more fuel than the length of the first text. It returns 0 if the second
-- text is the same up to the terminator, and else the difference of the first two elements that
-- differ, of which the first text has one or its terminator.
pub strcmp-DiffersAt :
    (fuel len : ℕ) (mem : Memory) (a b : ℕ)
    → len < fuel
    → IsText mem a len
    → (result : ℤ) × (strcmp fuel mem a b ≡ some result)
      × (((result ≡ pos 0) × Agree mem a b (suc len))
          ⊎ ((i : ℕ) × (i ≤ len) × DiffersAt mem a b i result))
unfolding strcmp
strcmp-DiffersAt zero len mem a b h t = absurd (omega arith)
strcmp-DiffersAt (suc fuel) zero mem a b h t =
    let stops : (not (mem a == 0) && (mem a == mem b)) ≡ false = rw (ended-IsText mem a t) refl in
    elim (Bool-cases (mem a == mem b)) [
      | inl same ↦ (
        difference (mem a) (mem b),
        rw stops refl,
        inl (ground arith, Agree-suc mem a b 0 (ground arith) (λ j k. absurd (omega arith))),
      )
      | inr other ↦ (
        difference (mem a) (mem b),
        rw stops refl,
        inr (0, omega arith, DiffersAt-zero mem a b (λ e. ground arith)),
      )
    ]
strcmp-DiffersAt (suc fuel) (suc len) mem a b h t = elim (Bool-cases (mem a == mem b)) [
  | inl same ↦
      let goes : (not (mem a == 0) && (mem a == mem b)) ≡ true =
        rw (more-IsText mem a len t, same) refl in
      let (result, runs, outcome) =
        strcmp-DiffersAt fuel len mem (a + 1) (b + 1) (omega arith) (tail-IsText mem a len t) in
      (
        result,
        rw goes runs,
        elim outcome [
          | inl (none_differs, agree) ↦
              inl (none_differs, Agree-suc mem a b (suc len) (ground arith) agree)
          | inr (i, k, at) ↦
              inr (suc i, omega arith, DiffersAt-suc mem a b i result (ground arith) at)
        ],
      )
  | inr other ↦
      let stops : (not (mem a == 0) && (mem a == mem b)) ≡ false =
        rw (more-IsText mem a len t, other) refl in
      (
        difference (mem a) (mem b),
        rw stops refl,
        inr (0, omega arith, DiffersAt-zero mem a b (λ e. ground arith)),
      )
]
