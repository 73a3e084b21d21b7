-- ===== src/Tmpfs/Along.antt =====
-- Which type the dentry has to which a path leads, from what the last round of a loop says of it.
use rayos.Base.{
  ℕ, ◌≡◌, refl, Bool, true, false, ◌==◌, List, [], ◌∷◌, inl, inr, Bool-cases, ◌∙◌, ap, sym,
}
use rayos.Tmpfs.{slash, DentryType, after, skip_slashes}
use rayos.Tmpfs.Path.{skip_slashes-first}
use rayos.Tmpfs.Child.{IsDir, FileAtEnd}

-- Q says, for the path, which types the dentry to which it leads can have.
pub record Along (J Q : List ℕ → DentryType → Type 0) : Type 0 where
  pub ended : (p : List ℕ) (type : DentryType) → skip_slashes p ≡ [] → J p type → Q p type
  pub passed :
      (p : List ℕ) (d : ℕ) (q : List ℕ) (type : DentryType)
      → skip_slashes p ≡ d ∷ q
      → Q (after (d ∷ q)) type
      → Q p type

pub IsDir-Along : Along IsDir IsDir
IsDir-Along = record { ended = λ p type e it. it; passed = λ p d q type e it. it }

-- Whether the last character is a slash.
abbrev pub ends_in_slash : List ℕ → Bool
ends_in_slash [] = false
ends_in_slash (c ∷ []) = c == slash
ends_in_slash (c ∷ d ∷ p) = ends_in_slash (d ∷ p)

-- A file, unless the path ends in a slash.
abbrev pub FileUnlessSlash : List ℕ → DentryType → Type 0
FileUnlessSlash p type = ends_in_slash p ≡ false → type ≡ DentryType.file

ends-skip_slashes :
    (p : List ℕ) (d : ℕ) (q : List ℕ)
    → skip_slashes p ≡ d ∷ q
    → ends_in_slash p ≡ ends_in_slash (d ∷ q)
unfolding skip_slashes
ends-skip_slashes [] d q e = cc e
ends-skip_slashes (c ∷ []) d q e = elim (Bool-cases (c == slash)) [
  | inl here ↦ cc (rw here at e)
  | inr other ↦ ap ends_in_slash (rw other at e)
]
ends-skip_slashes (c ∷ x ∷ p) d q e = elim (Bool-cases (c == slash)) [
  | inl here ↦ ends-skip_slashes (x ∷ p) d q (rw here at e)
  | inr other ↦ ap ends_in_slash (rw other at e)
]

ends-slashes : (c : ℕ) (p : List ℕ) → skip_slashes (c ∷ p) ≡ [] → ends_in_slash (c ∷ p) ≡ true
unfolding skip_slashes
ends-slashes c [] e = elim (Bool-cases (c == slash)) [
  | inl here ↦ here
  | inr other ↦ cc (rw other at e)
]
ends-slashes c (d ∷ p) e = elim (Bool-cases (c == slash)) [
  | inl here ↦ ends-slashes d p (rw here at e)
  | inr other ↦ cc (rw other at e)
]

ends-after :
    (q : List ℕ) (d : ℕ)
    → (d == slash) ≡ false
    → ends_in_slash (d ∷ q) ≡ ends_in_slash (after (d ∷ q))
unfolding after
ends-after [] d h = rw h refl
ends-after (e ∷ r) d h = elim (Bool-cases (e == slash)) [
  | inl here ↦ rw (h, here) refl
  | inr other ↦ rw h (ends-after r e other)
]

pub FileAtEnd-Along : Along FileAtEnd FileUnlessSlash
FileAtEnd-Along = record { ended = ended; passed = passed }
  where
    ended :
        (p : List ℕ) (type : DentryType)
        → skip_slashes p ≡ []
        → FileAtEnd p type
        → FileUnlessSlash p type
    ended [] type e it plain = it refl
    ended (c ∷ p) type e it plain = cc (ends-slashes c p e, plain)

    passed :
        (p : List ℕ) (d : ℕ) (q : List ℕ) (type : DentryType)
        → skip_slashes p ≡ d ∷ q
        → FileUnlessSlash (after (d ∷ q)) type
        → FileUnlessSlash p type
    passed p d q type e it plain =
        it (sym (ends-skip_slashes p d q e ∙ ends-after q d (skip_slashes-first p d q e)) ∙ plain)
