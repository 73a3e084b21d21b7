-- ===== src/Fat32/Parent.antt =====
-- `fat32_get_parent` against the path's parts around its last slash.
use rayos.Base.{
  ℕ, ◌≤◌, ◌≡◌, ◌⊎◌, refl, arith, false, leb, List, [], ◌∷◌, ◌++◌, length, inl, inr, Bool-cases, ◌∙◌,
  ap, sym, pos, negsuc,
}
use rayos.Tmpfs.{slash}
use rayos.Tmpfs.Path.{List-cases}
use rayos.Fat32.{has_char, before_last, after_last, parent_of, get_parent}
use rayos.Fat32.Names.{before-after}

has_char-after_last : (c : ℕ) (cs : List ℕ) → has_char c (after_last c cs) ≡ false
unfolding after_last has_char
has_char-after_last c [] = refl
has_char-after_last c (x ∷ xs) = elim (Bool-cases (has_char c xs)) [
  | inl more ↦ rw more (has_char-after_last c xs)
  | inr last ↦ rw last last
]

-- For a path of at least two characters: without a slash, the result is -1 and the path is left as
-- the parent. With one, the result is 0, and the path is the parent, a slash and a last name that has
-- no slash; or a slash and that name, and the parent is "/".
pub get_parent-parts :
    (path : List ℕ)
    → 2 ≤ length path
    → ((has_char slash path ≡ false) × (get_parent path ≡ (negsuc 0, path)))
      ⊎ ((last : List ℕ) × (parent : List ℕ) × (has_char slash last ≡ false)
          × (get_parent path ≡ (pos 0, parent))
          × (((parent ≡ slash ∷ []) × (path ≡ slash ∷ last)) ⊎ (path ≡ parent ++ (slash ∷ last))))
unfolding get_parent
get_parent-parts path h =
    let long : leb (length path) 1 ≡ false = ground arith in
    elim (Bool-cases (has_char slash path)) [
      | inr bare ↦ inl (bare, rw (long, bare) refl)
      | inl found ↦
          let joined = before-after slash path found in
          elim (List-cases (before_last slash path)) [
            | inl e ↦ inr (
              after_last slash path,
              slash ∷ [],
              has_char-after_last slash path,
              rw (long, found) (ap parent_of e),
              inl (refl, sym joined ∙ ap (λ b. b ++ (slash ∷ after_last slash path)) e),
            )
            | inr (c, p, e) ↦ inr (
              after_last slash path,
              c ∷ p,
              has_char-after_last slash path,
              rw (long, found) (ap parent_of e),
              inr (sym joined ∙ ap (λ b. b ++ (slash ∷ after_last slash path)) e),
            )
          ]
    ]
