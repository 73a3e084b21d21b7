-- ===== src/Strings/Find.antt =====
-- `strchr`, `strrchr` and their 16-bit versions: the first and the last place of a character.
use rayos.Base.{
  ℕ, zero, suc, ◌+◌, ◌%◌, ◌<◌, ◌≡◌, ◌≢◌, refl, arith, Bool, false, ◌==◌, Option, none, some, inl,
  inr, Bool-cases, IsFirst, IsFirst-append, subst,
}
use rayos.Strings.{Memory, find_char, strchr}
use rayos.Strings.Text.{IsText, tail-IsText, ended-IsText, more-IsText}

-- The element at j is c.
abbrev pub is_char : Memory → ℕ → ℕ → Bool
is_char mem c j = mem j == c

find_char-IsFirst :
    (fuel len : ℕ) (mem : Memory) (s c : ℕ) (at_end : Bool)
    → len < fuel
    → IsText mem s len
    → at_end ≡ false
    → (r : Option ℕ) × (find_char fuel mem s c at_end ≡ some r)
      × IsFirst (is_char mem c) s (s + len) r
unfolding find_char
find_char-IsFirst zero len mem s c at_end h t e = absurd (omega arith)
find_char-IsFirst (suc fuel) zero mem s c at_end h t e =
    (none, rw (ended-IsText mem s t, e) refl, λ j lo hi. absurd (omega arith))
find_char-IsFirst (suc fuel) (suc len) mem s c at_end h t e = elim (Bool-cases (mem s == c)) [
  | inl here ↦ (
    some s,
    rw (more-IsText mem s len t, here) refl,
    (omega arith, omega arith, here, λ j lo hi. absurd (omega arith)),
  )
  | inr other ↦
      let (r, runs, first) =
        find_char-IsFirst fuel len mem (s + 1) c at_end (omega arith) (tail-IsText mem s len t) e in
      let end : s + 1 + len ≡ s + suc len = omega arith in
      (
        r,
        rw (more-IsText mem s len t, other) runs,
        IsFirst-append (is_char mem c) s (s + 1) (s + suc len) r (omega arith)
            (λ j lo hi. ground arith) (subst (λ k. IsFirst (is_char mem c) (s + 1) k r) end first),
      )
]

-- `strchr` of a text ends, given more fuel than its length, and returns the first place of a
-- character that is not the terminator, or NULL exactly if the text does not have it.
pub strchr-IsFirst :
    (fuel len : ℕ) (mem : Memory) (s c : ℕ)
    → len < fuel
    → IsText mem s len
    → c < 256
    → c ≢ 0
    → (r : Option ℕ) × (strchr fuel mem s c ≡ some r) × IsFirst (is_char mem c) s (s + len) r
unfolding strchr
strchr-IsFirst fuel len mem s c h t small some_char =
    let char : c % 256 ≡ c = omega arith in
    let (r, runs, first) = find_char-IsFirst fuel len mem s c (c == 0) h t (ground arith) in
    (r, rw (char, strchr) runs, first)
