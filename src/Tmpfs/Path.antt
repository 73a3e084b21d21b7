-- ===== src/Tmpfs/Path.antt =====
-- A path as the names that its slashes separate, and `tmpfs_lookup` as the descent along them.
use rayos.Base.{
  ℕ, zero, suc, ◌≤◌, ◌≡◌, ◌⊎◌, refl, arith, Bool, true, false, Option, none, some, ◌==◌, ltb,
  if◌then◌else◌, List, [], ◌∷◌, length, inl, inr, Bool-cases, Option-cases, ◌∙◌, ap, subst,
}
use rayos.Tmpfs.{
  slash, fs_name_max, Tmpfs, root, skip_slashes, component, after, find_child, lookup_loop,
  tmpfs_lookup,
}

-- A name ends where the path ends or a slash follows.
abbrev pub ends : List ℕ → Bool
ends [] = true
ends (c ∷ p) = c == slash

abbrev pub join : ℕ → Bool → List (List ℕ) → List (List ℕ)
join c true ws = (c ∷ []) ∷ ws
join c false [] = (c ∷ []) ∷ []
join c false (w ∷ ws) = (c ∷ w) ∷ ws

-- The names of a path, in order; slashes in a row count as one.
abbrev pub names : List ℕ → List (List ℕ)
names [] = []
names (c ∷ p) = if c == slash then names p else join c (ends p) (names p)

-- The dentry that the names lead to from `cur`, through directories or files; none if a name is
-- longer than FS_NAME_MAX or no child has it.
abbrev pub resolve : Tmpfs → ℕ → List (List ℕ) → Option ℕ
resolve s cur [] = some cur
resolve s cur (w ∷ ws) =
    if ltb fs_name_max (length w) then none else elim (find_child s (s.dentry cur).children w) [
      | none ↦ none
      | some child ↦ resolve s child ws
    ]

pub names-skip_slashes : (p : List ℕ) → names p ≡ names (skip_slashes p)
unfolding skip_slashes
names-skip_slashes [] = refl
names-skip_slashes (c ∷ p) = elim (Bool-cases (c == slash)) [
  | inl here ↦ rw here (names-skip_slashes p)
  | inr other ↦ rw (other, other) refl
]

pub length-skip_slashes : (p : List ℕ) → length (skip_slashes p) ≤ length p
unfolding skip_slashes
length-skip_slashes [] = omega arith
length-skip_slashes (c ∷ p) = elim (Bool-cases (c == slash)) [
  | inl here ↦ rw here (omega (arith, length-skip_slashes p))
  | inr other ↦ rw other (omega arith)
]

pub skip_slashes-first :
    (p : List ℕ) (d : ℕ) (q : List ℕ) → skip_slashes p ≡ d ∷ q → (d == slash) ≡ false
unfolding skip_slashes
skip_slashes-first [] d q e = cc e
skip_slashes-first (c ∷ p) d q e = elim (Bool-cases (c == slash)) [
  | inl here ↦
      skip_slashes-first p d q (subst (λ b. (if b then skip_slashes p else c ∷ p) ≡ d ∷ q) here e)
  | inr other ↦
      let same : c ∷ p ≡ d ∷ q =
        subst (λ b. (if b then skip_slashes p else c ∷ p) ≡ d ∷ q) other e in
      let first : c ≡ d = cc same in subst (λ x. (x == slash) ≡ false) first other
]

pub names-component :
    (q : List ℕ) (d : ℕ)
    → (d == slash) ≡ false
    → names (d ∷ q) ≡ component (d ∷ q) ∷ names (after (d ∷ q))
unfolding component after
names-component [] d h = rw h refl
names-component (e ∷ r) d h = elim (Bool-cases (e == slash)) [
  | inl here ↦ rw (h, here, here) refl
  | inr other ↦
      let rest : names (e ∷ r) ≡ component (e ∷ r) ∷ names (after (e ∷ r)) =
        names-component r e other in
      rw (h, other)
        (ap (join d false) (
          subst
            (λ b.
              (if b then names r else join e (ends r) (names r))
              ≡ (if b then [] else e ∷ component r) ∷ names (if b then e ∷ r else after r))
            other rest))
]

pub length-after : (q : List ℕ) (d : ℕ) → (d == slash) ≡ false → length (after (d ∷ q)) ≤ length q
unfolding after
length-after [] d h = rw h (omega arith)
length-after (e ∷ r) d h = elim (Bool-cases (e == slash)) [
  | inl here ↦ rw (h, here) (omega arith)
  | inr other ↦ rw h (omega (arith, length-after r e other))
]

pub List-cases : (xs : List ℕ) → (xs ≡ []) ⊎ ((d : ℕ) × (q : List ℕ) × (xs ≡ d ∷ q))
List-cases [] = inl refl
List-cases (d ∷ q) = inr (d, q, refl)

-- The rest of the path at a round: no name is left, or the first one and then shorter rest.
pub round-cases :
    (p : List ℕ)
    → ((skip_slashes p ≡ []) × (names p ≡ []))
      ⊎ ((d : ℕ) × (q : List ℕ) × (skip_slashes p ≡ d ∷ q)
          × (names p ≡ component (d ∷ q) ∷ names (after (d ∷ q)))
          × (suc (length (after (d ∷ q))) ≤ length p))
round-cases p = elim (List-cases (skip_slashes p)) [
  | inl none_left ↦ inl (none_left, names-skip_slashes p ∙ ap names none_left)
  | inr (d, q, e) ↦
      let first : (d == slash) ≡ false = skip_slashes-first p d q e in
      let shorter : suc (length q) ≤ length p =
        subst (λ r. length r ≤ length p) e (length-skip_slashes p) in
      inr (
        d,
        q,
        e,
        names-skip_slashes p ∙ ap names e ∙ names-component q d first,
        omega (arith, length-after q d first),
      )
]

lookup_loop-resolve :
    (fuel cur : ℕ) (p : List ℕ) (s : Tmpfs)
    → length p ≤ fuel
    → lookup_loop fuel cur p s ≡ some (resolve s cur (names p))
unfolding lookup_loop
lookup_loop-resolve fuel cur [] s h = refl
lookup_loop-resolve zero cur (c ∷ p) s h = absurd (omega arith)
lookup_loop-resolve (suc fuel) cur (c ∷ p) s h = elim (round-cases (c ∷ p)) [
  | inl (none_left, empty) ↦ rw (none_left, lookup_loop, empty) refl
  | inr (d, q, e, split, shorter) ↦
      elim (Bool-cases (ltb fs_name_max (length (component (d ∷ q))))) [
        | inl long ↦ rw (e, lookup_loop, long, split, long) refl
        | inr fits ↦
            elim (Option-cases (find_child s (s.dentry cur).children (component (d ∷ q)))) [
              | inl missing ↦ rw (e, lookup_loop, fits, missing, split, fits, missing) refl
              | inr (child, found) ↦
                  rw (e, lookup_loop, fits, found, split, fits, found)
                    (lookup_loop-resolve fuel child (after (d ∷ q)) s (omega arith))
            ]
      ]
]

-- Where a path leads: NULL and a path that does not begin with a slash lead nowhere.
abbrev pub lookup_by_names : Option (List ℕ) → Tmpfs → Option ℕ
lookup_by_names none s = none
lookup_by_names (some []) s = none
lookup_by_names (some (c ∷ p)) s = if c == slash then resolve s root (names p) else none

-- `tmpfs_lookup` returns, for every path and store, the dentry to which the path's names lead from
-- the root, or NULL when there is none, when a name on the way is longer than 255 characters, or
-- when the path is NULL or does not begin with a slash.
pub tmpfs_lookup-names :
    (path : Option (List ℕ)) (s : Tmpfs) → tmpfs_lookup path s ≡ some (lookup_by_names path s)
unfolding tmpfs_lookup
tmpfs_lookup-names none s = refl
tmpfs_lookup-names (some []) s = refl
tmpfs_lookup-names (some (c ∷ p)) s = elim (Bool-cases (c == slash)) [
  | inl here ↦ rw here (lookup_loop-resolve (length p) root p s (omega arith))
  | inr other ↦ rw other refl
]
