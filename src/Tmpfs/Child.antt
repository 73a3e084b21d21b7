-- ===== src/Tmpfs/Child.antt =====
-- What `tmpfs_creat` and `tmpfs_mkdir` do at one name of the path.
use rayos.Base.{
  ℕ, ◌+◌, ◌<◌, ◌≡◌, ◌⊎◌, refl, arith, Bool, true, false, not, ◌&&◌, Option, none, some, ◌==◌,
  if◌then◌else◌, List, [], ◌∷◌, length, inl, inr, Bool-cases, Option-cases, ◌∙◌, ap, sym, subst, ℤ,
}
use rayos.Tmpfs.{
  DentryType, is_dir, ok, Tmpfs, F, kzalloc, kfree, linked, tmpfs_alloc_dentry, sizeof_dentry,
  ◌>>=◌, component, after, slash, has_slash, find_child, or_nomem, creat_child, mkdir_child, failed,
  err_isdir, err_notdir,
}
use rayos.Tmpfs.Store.{
  Ample, Shaped, Shaped-below, Extends, Extends-refl, Extends-trans, find-below,
}
use rayos.Tmpfs.Link.{
  SameTree, SameTree-find, SameTree-Extends, SameTree-Shaped, linked-Extends, linked-Shaped,
  linked-found,
}

-- A request to the heap, if it returns, changes nothing of the tree.
pub kzalloc-cases :
    (size : ℕ) (s : Tmpfs)
    → 0 < size
    → ((kzalloc size s ≡ none) × (s.mm_held ≡ true))
      ⊎ ((granted : Bool) × (s1 : Tmpfs) × (kzalloc size s ≡ some (granted, s1))
          × SameTree s s1
          × (Ample s → (granted ≡ true) × Ample s1))
unfolding kzalloc
kzalloc-cases size s h = elim (Bool-cases s.mm_held) [
  | inl held ↦ inl (rw held refl, held)
  | inr free ↦
      let sized : not (size == 0) ≡ true = ground arith in
      let granted : Bool = s.grants 0 && not (size == 0) in
      inr (
        granted,
        record s { grants = λ i. s.grants (i + 1); mm_held = not granted },
        rw free refl,
        record { dentries = refl; count = refl },
        λ (unlocked, all). rw (all 0, sized) (refl, (refl, λ i. all (i + 1))),
      )
]

abbrev readable_of : Option (Bool × Tmpfs) → ℕ → Bool
readable_of none = λ i. false
readable_of (some (granted, s)) = s.readable

-- A request for memory leaves what stands behind the blocks.
pub kzalloc-readable :
    (size : ℕ) (s s1 : Tmpfs) (granted : Bool)
    → kzalloc size s ≡ some (granted, s1)
    → s1.readable ≡ s.readable
unfolding kzalloc
kzalloc-readable size s s1 granted e = elim (Bool-cases s.mm_held) [
  | inl held ↦ cc (rw held at e)
  | inr free ↦ let same = rw free at e in sym (ap readable_of same)
]

SameTree-trans : (s t u : Tmpfs) → SameTree s t → SameTree t u → SameTree s u
SameTree-trans s t u a b = record { dentries = b.dentries ∙ a.dentries; count = b.count ∙ a.count }

pub kfree-cases :
    (s : Tmpfs)
    → ((kfree s ≡ none) × (s.mm_held ≡ true)) ⊎ ((kfree s ≡ some (tt, s)) × (s.mm_held ≡ false))
unfolding kfree
kfree-cases s = elim (Bool-cases s.mm_held) [
  | inl held ↦ inl (rw held refl, held)
  | inr free ↦ inr (rw free refl, free)
]

module _ (parent : ℕ) (name : List ℕ) (type : DentryType) (s : Tmpfs) where
  abbrev result : Option (Option ℕ × Tmpfs)
  result = tmpfs_alloc_dentry parent name type s

  -- No result, or NULL with the tree as it was, or a new dentry. With ample memory it is the last.
  abbrev AllocCases : Type 0
  AllocCases =
      ((result ≡ none) × ¬ Ample s)
      ⊎ ((s1 : Tmpfs) × SameTree s s1
          × (((result ≡ some (none, s1)) × ¬ Ample s)
              ⊎ ((result ≡ some (some s1.next, linked parent name type s1))
                  × (Ample s → Ample s1))))

  alloc_cases : AllocCases
  unfolding tmpfs_alloc_dentry
  alloc_cases = elim (kzalloc-cases sizeof_dentry s (omega arith)) [
    | inl (hangs, held) ↦
        inl (rw (hangs, tmpfs_alloc_dentry, ◌>>=◌) refl, λ ample. cc (held, ample.0))
    | inr (false, s1, runs, same, good) ↦
        inr
          (s1, same, inl (rw (runs, tmpfs_alloc_dentry, ◌>>=◌) refl, λ ample. cc ((good ample).0)))
    | inr (true, s1, runs, same, good) ↦ elim (kzalloc-cases (length name + 1) s1 (omega arith)) [
      | inl (hangs, held) ↦
          inl
            (rw (runs, tmpfs_alloc_dentry, ◌>>=◌, hangs) refl, λ ample. cc (held, (good ample).1.0))
      | inr (true, s2, again, same2, good2) ↦ inr (
        s2,
        SameTree-trans s s1 s2 same same2,
        inr (rw (runs, tmpfs_alloc_dentry, ◌>>=◌, again) refl, λ ample. (good2 (good ample).1).1),
      )
      | inr (false, s2, again, same2, good2) ↦
          let short : ¬ Ample s = λ ample. cc ((good2 (good ample).1).0) in
          elim (kfree-cases s2) [
            | inl (hangs, held) ↦
                inl (rw (runs, tmpfs_alloc_dentry, ◌>>=◌, again, hangs) refl, short)
            | inr (freed, free) ↦ inr (
              s2,
              SameTree-trans s s1 s2 same same2,
              inl (rw (runs, tmpfs_alloc_dentry, ◌>>=◌, again, freed) refl, short),
            )
          ]
    ]
  ]

-- What the two loops do at a child: no result, or a code and a dentry, in a store that extends the
-- one before; without a failure the dentry has the name.
abbrev pub ChildOutcome :
    (DentryType → Type 0) → ℕ → List ℕ → Tmpfs → Option ((ℤ × ℕ) × Tmpfs) → Type 0
ChildOutcome P cur w s out =
    ((out ≡ none) × ¬ Ample s)
    ⊎ ((r : ℤ) × (td : ℕ) × (s' : Tmpfs) × (out ≡ some ((r, td), s'))
        × Extends s s'
        × Shaped s'
        × (Ample s → Ample s')
        × (failed r ≡ false
            → (find_child s' (s'.dentry cur).children w ≡ some td)
              × (td < s'.next)
              × P (s'.dentry td).type))

-- J says, for what is left of the path, which types the dentry that was reached can have.
abbrev pub Contract : (List ℕ → DentryType → Type 0) → (ℕ → List ℕ → Option ℕ → F (ℤ × ℕ)) → Type 0
Contract J at_child =
    (cur : ℕ) (p : List ℕ) (s : Tmpfs)
    → Shaped s
    → cur < s.next
    → ChildOutcome (J (after p)) cur (component p) s
        (at_child cur p (find_child s (s.dentry cur).children (component p)) s)

new_child :
    (P : DentryType → Type 0) (cur : ℕ) (w : List ℕ) (type : DentryType) (s : Tmpfs)
    → P type
    → Shaped s
    → cur < s.next
    → find_child s (s.dentry cur).children w ≡ none
    → ChildOutcome P cur w s (or_nomem cur (tmpfs_alloc_dentry cur w type s))
new_child P cur w type s it b h missing = elim (alloc_cases cur w type s) [
  | inl (hangs, short) ↦ inl (ap (or_nomem cur) hangs, short)
  | inr (s1, same, inl (refused, short)) ↦ inr (
    _,
    _,
    s1,
    ap (or_nomem cur) refused,
    SameTree-Extends s s1 same,
    SameTree-Shaped s s1 same b,
    λ ample. absurd (short ample),
    λ e. cc e,
  )
  | inr (s1, same, inr (made, good)) ↦
      let given : cur < s1.next = omega (arith, same.count) in
      let b1 : Shaped s1 = SameTree-Shaped s s1 same b in
      let (found, typed) =
        linked-found s1 cur w type given b1 (SameTree-find s s1 cur w same ∙ missing) in
      inr (
        ok,
        s1.next,
        linked cur w type s1,
        ap (or_nomem cur) made,
        Extends-trans s s1 (linked cur w type s1) (SameTree-Extends s s1 same)
            (linked-Extends s1 cur w type given b1),
        linked-Shaped s1 cur w type given b1,
        good,
        λ e. (found, omega arith, subst P (sym typed) it),
      )
]

abbrev pub IsDir : List ℕ → DentryType → Type 0
IsDir rest type = type ≡ DentryType.dir

is_dir-dir : (type : DentryType) → is_dir type ≡ true → type ≡ DentryType.dir
is_dir-dir DentryType.file e = cc e
is_dir-dir DentryType.dir e = refl

-- A file, at the end of the path.
abbrev pub FileAtEnd : List ℕ → DentryType → Type 0
FileAtEnd rest type = rest ≡ [] → type ≡ DentryType.file

is_dir-file : (type : DentryType) → is_dir type ≡ false → type ≡ DentryType.file
is_dir-file DentryType.file e = refl
is_dir-file DentryType.dir e = cc e

after-has_slash : (p : List ℕ) → after p ≡ [] → has_slash p ≡ false
unfolding after has_slash
after-has_slash [] e = refl
after-has_slash (c ∷ p) e = elim (Bool-cases (c == slash)) [
  | inl here ↦ cc (rw here at e)
  | inr other ↦ rw other (after-has_slash p (rw other at e))
]

new-FileAtEnd :
    (p : List ℕ) → FileAtEnd (after p) (if has_slash p then DentryType.dir else DentryType.file)
new-FileAtEnd p e = rw (after-has_slash p e) refl

old-FileAtEnd :
    (p : List ℕ) (type : DentryType)
    → (not (has_slash p) && is_dir type) ≡ false
    → FileAtEnd (after p) type
old-FileAtEnd p type free e = is_dir-file type (rw (after-has_slash p e) at free)

pub mkdir_child-Contract : Contract IsDir mkdir_child
unfolding mkdir_child
mkdir_child-Contract cur p s b h =
    elim (Option-cases (find_child s (s.dentry cur).children (component p))) [
      | inl missing ↦
          rw missing
            (new_child (IsDir (after p)) cur (component p) DentryType.dir s refl b h missing)
      | inr (child, found) ↦ elim (Bool-cases (is_dir (s.dentry child).type)) [
        | inl directory ↦ inr (
          ok,
          child,
          s,
          rw (found, directory) refl,
          Extends-refl s,
          b,
          λ ample. ample,
          λ e. (
            found,
            find-below s s.next (s.dentry cur).children (component p) child (Shaped-below s b cur h)
                found,
            is_dir-dir _ directory,
          ),
        )
        | inr regular ↦ inr (
          err_notdir,
          child,
          s,
          rw (found, regular) refl,
          Extends-refl s,
          b,
          λ ample. ample,
          λ e. cc e,
        )
      ]
    ]

pub creat_child-Contract : Contract FileAtEnd creat_child
unfolding creat_child
creat_child-Contract cur p s b h =
    elim (Option-cases (find_child s (s.dentry cur).children (component p))) [
      | inl missing ↦
          rw missing
            (new_child (FileAtEnd (after p)) cur (component p) _ s (new-FileAtEnd p) b h missing)
      | inr (child, found) ↦ elim (Bool-cases (not (has_slash p) && is_dir (s.dentry child).type)) [
        | inl taken ↦ inr (
          err_isdir,
          child,
          s,
          rw (found, taken) refl,
          Extends-refl s,
          b,
          λ ample. ample,
          λ e. cc e,
        )
        | inr free ↦ inr (
          ok,
          child,
          s,
          rw (found, free) refl,
          Extends-refl s,
          b,
          λ ample. ample,
          λ e. (
            found,
            find-below s s.next (s.dentry cur).children (component p) child (Shaped-below s b cur h)
                found,
            old-FileAtEnd p _ free,
          ),
        )
      ]
    ]
