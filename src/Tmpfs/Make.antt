-- ===== src/Tmpfs/Make.antt =====
-- `tmpfs_creat` and `tmpfs_mkdir`: what they make is found, and what was there stays.
use rayos.Base.{
  ℕ, zero, suc, ◌≤◌, ◌<◌, ◌≡◌, ◌≢◌, ◌⊎◌, refl, arith, true, false, Option, none, some, ltb, List,
  [], ◌∷◌, length, inl, inr, Bool-cases, ◌∙◌, ap, sym, subst, ℤ,
}
use rayos.Tmpfs.{
  slash, fs_name_max, DentryType, ok, Tmpfs, F, root, component, after, find_child, creat_child,
  mkdir_child, failed, make_loop, below_root, tail, tmpfs_creat, tmpfs_mkdir, tmpfs_lookup,
  skip_slashes, err_toolong,
}
use rayos.Tmpfs.Path.{names, resolve, round-cases, tmpfs_lookup-names}
use rayos.Tmpfs.Store.{Ample, Shaped, Extends, Extends-refl, Extends-trans}
use rayos.Tmpfs.Along.{Along, IsDir-Along, FileUnlessSlash, FileAtEnd-Along}
use rayos.Tmpfs.Tree.{IsTree, Kept, Extends-Kept}
use rayos.Tmpfs.Child.{Contract, IsDir, FileAtEnd, mkdir_child-Contract, creat_child-Contract}

module _ (J Q : List ℕ → DentryType → Type 0) (along : Along J Q)
    (at_child : ℕ → List ℕ → Option ℕ → F (ℤ × ℕ)) (contract : Contract J at_child) where
  -- The loop has no result, or a store that extends the one before; without a failure the names
  -- lead to a dentry of the type.
  abbrev LoopOutcome :
      (DentryType → Type 0) → ℕ → List (List ℕ) → Tmpfs → Option (ℤ × Tmpfs) → Type 0
  LoopOutcome P cur ws s out =
      ((out ≡ none) × ¬ Ample s)
      ⊎ ((r : ℤ) × (s' : Tmpfs) × (out ≡ some (r, s'))
          × Extends s s'
          × Shaped s'
          × (Ample s → Ample s')
          × (failed r ≡ false → (td : ℕ) × (resolve s' cur ws ≡ some td) × P (s'.dentry td).type))

  done :
      (P : DentryType → Type 0) (cur : ℕ) (ws : List (List ℕ)) (s : Tmpfs)
      (out : Option (ℤ × Tmpfs))
      → ws ≡ []
      → out ≡ some (ok, s)
      → Shaped s
      → P (s.dentry cur).type
      → LoopOutcome P cur ws s out
  done P cur ws s out none_left runs b it =
      inr (ok, s, runs, Extends-refl s, b, λ ample. ample, λ e. (cur, rw none_left refl, it))

  -- The round at the name w, and then the rounds after it.
  continued :
      (P P' : DentryType → Type 0) (weaker : (type : DentryType) → P' type → P type) (cur td : ℕ)
      (w : List ℕ) (ws : List (List ℕ)) (s s' : Tmpfs) (out : Option (ℤ × Tmpfs))
      → ltb fs_name_max (length w) ≡ false
      → cur < s.next
      → Extends s s'
      → (Ample s → Ample s')
      → cur < s'.next
      → find_child s' (s'.dentry cur).children w ≡ some td
      → LoopOutcome P' td ws s' out
      → LoopOutcome P cur (w ∷ ws) s out
  continued P P' weaker cur td w ws s s' out fits h more good h' found (inl (hangs, short)) =
      inl (hangs, λ ample. short (good ample))
  continued P P' weaker cur td w ws s s' out fits h more good h' found
        (inr (r, s'', runs, more', b, good', leads)) =
      inr (
        r,
        s'',
        runs,
        Extends-trans s s' s'' more more',
        b,
        λ ample. good' (good ample),
        λ e.
            let (t, resolved, it) = leads e in
            (t, rw (fits, more'.found cur w td h' found) resolved, weaker _ it),
      )

  nothing : skip_slashes [] ≡ []
  unfolding skip_slashes
  nothing = refl

  loop :
      (fuel cur : ℕ) (p : List ℕ) (s : Tmpfs)
      → length p ≤ fuel
      → Shaped s
      → cur < s.next
      → J p (s.dentry cur).type
      → LoopOutcome (Q p) cur (names p) s (make_loop at_child fuel cur p s)
  unfolding make_loop
  loop fuel cur [] s k b h it = done (Q []) cur [] s _ refl refl b (along.ended [] _ nothing it)
  loop zero cur (c ∷ p) s k b h it = absurd (omega arith)
  loop (suc fuel) cur (c ∷ p) s k b h it = elim (round-cases (c ∷ p)) [
    | inl (none_left, empty) ↦
        done (Q (c ∷ p)) cur (names (c ∷ p)) s _ empty (rw (none_left, make_loop) refl) b
          (along.ended (c ∷ p) _ none_left it)
    | inr (d, q, e, split, shorter) ↦
        elim (Bool-cases (ltb fs_name_max (length (component (d ∷ q))))) [
          | inl long ↦ inr (
            err_toolong,
            s,
            rw (e, make_loop, long) refl,
            Extends-refl s,
            b,
            λ ample. ample,
            λ e. cc e,
          )
          | inr fits ↦ elim (contract cur (d ∷ q) s b h) [
            | inl (hangs, short) ↦ inl (rw (e, make_loop, fits, hangs) refl, short)
            | inr (r, td, s', runs, more, b', good, leads) ↦ elim (Bool-cases (failed r)) [
              | inl bad ↦
                  inr (
                    r,
                    s',
                    rw (e, make_loop, fits, runs, bad) refl,
                    more,
                    b',
                    good,
                    λ e. cc (bad, e),
                  )
              | inr fine ↦
                  rw (e, make_loop, fits, runs, fine, split)
                    (continued (Q (c ∷ p)) (Q (after (d ∷ q)))
                      (λ type. along.passed (c ∷ p) d q type e) cur td (component (d ∷ q))
                      (names (after (d ∷ q))) s s' _ fits h more good (omega (arith, more.more))
                      (leads fine).0
                      (loop fuel td (after (d ∷ q)) s' (omega arith) b' (leads fine).1
                        (leads fine).2))
            ]
          ]
        ]
  ]

below_root_lem :
    (path : Option (List ℕ))
    → below_root path ≡ true
    → (p : List ℕ) × (path ≡ some (slash ∷ p)) × (tail path ≡ p) × (p ≢ [])
unfolding below_root
below_root_lem none h = cc h
below_root_lem (some []) h = cc h
below_root_lem (some (c ∷ [])) h = cc h
below_root_lem (some (c ∷ d ∷ p)) h =
    let first : c ≡ slash = ground arith in
    (d ∷ p, ap (λ x. some (x ∷ d ∷ p)) first, refl, λ e. cc e)

module _ (J Q : List ℕ → DentryType → Type 0) (along : Along J Q)
    (at_child : ℕ → List ℕ → Option ℕ → F (ℤ × ℕ)) (contract : Contract J at_child) where
  -- What the loop makes of a path below the root.
  pub make_loop-made :
      (p : List ℕ) (s : Tmpfs)
      → IsTree s
      → J p DentryType.dir
      → ((make_loop at_child (length p) root p s ≡ none) × ¬ Ample s)
        ⊎ ((r : ℤ) × (s' : Tmpfs) × (make_loop at_child (length p) root p s ≡ some (r, s'))
            × IsTree s'
            × Kept s s'
            × (failed r ≡ false
                → (td : ℕ) × (tmpfs_lookup (some (slash ∷ p)) s' ≡ some (some td))
                  × Q p (s'.dentry td).type))
  make_loop-made p s tree it =
      elim (loop J Q along at_child contract (length p) root p s (omega arith) tree.shaped
        tree.rooted (subst (J p) (sym tree.root_dir) it)) [
          | inl hangs ↦ inl hangs
          | inr (r, s', runs, more, b, good, leads) ↦ inr (
            r,
            s',
            runs,
            record {
              rooted = omega (arith, tree.rooted, more.more);
              root_dir = more.same_type root tree.rooted ∙ tree.root_dir;
              root_top = more.same_parent root tree.rooted ∙ tree.root_top;
              shaped = b;
            },
            Extends-Kept s s' tree more,
            λ e.
                let (td, resolved, typed) = leads e in
                (td, tmpfs_lookup-names (some (slash ∷ p)) s' ∙ ap some resolved, typed),
          )
        ]

-- `tmpfs_mkdir` of a path below the root, in a store whose dentries are trees: it returns, unless the
-- heap does not find memory for all that is asked. What it leaves are trees again, so that every child
-- has its parent's address, is the child of that dentry alone and once, and none is below itself. Every path
-- that led to a dentry still leads to it, and the types and the parents of the dentries are as
-- before. When it returns TMPFS_OK, the path leads to a directory.
pub tmpfs_lookup-tmpfs_mkdir :
    (path : Option (List ℕ)) (s : Tmpfs)
    → IsTree s
    → below_root path ≡ true
    → ((tmpfs_mkdir path s ≡ none) × ¬ Ample s)
      ⊎ ((r : ℤ) × (s' : Tmpfs) × (tmpfs_mkdir path s ≡ some (r, s'))
          × IsTree s'
          × Kept s s'
          × (failed r ≡ false
              → (td : ℕ) × (tmpfs_lookup path s' ≡ some (some td))
                × ((s'.dentry td).type ≡ DentryType.dir)))
unfolding tmpfs_mkdir
tmpfs_lookup-tmpfs_mkdir path s tree below =
    let (p, is, rest, more) = below_root_lem path below in
    rw (below, is)
      (make_loop-made IsDir IsDir IsDir-Along mkdir_child mkdir_child-Contract p s tree refl)

-- `tmpfs_creat` of a path below the root, in a store whose dentries are trees: it returns, unless the
-- heap does not find memory for all that is asked. What it leaves are trees again, so that every child
-- has its parent's address, is the child of that dentry alone and once, and none is below itself. Every path
-- that led to a dentry still leads to it, and the types and the parents of the dentries are as
-- before. When it returns TMPFS_OK, the path leads to a dentry, which is a file unless the path ends
-- in a slash.
pub tmpfs_lookup-tmpfs_creat :
    (path : Option (List ℕ)) (s : Tmpfs)
    → IsTree s
    → below_root path ≡ true
    → ((tmpfs_creat path s ≡ none) × ¬ Ample s)
      ⊎ ((r : ℤ) × (s' : Tmpfs) × (tmpfs_creat path s ≡ some (r, s'))
          × IsTree s'
          × Kept s s'
          × (failed r ≡ false
              → (td : ℕ) × (tmpfs_lookup path s' ≡ some (some td))
                × FileUnlessSlash (tail path) (s'.dentry td).type))
unfolding tmpfs_creat
tmpfs_lookup-tmpfs_creat path s tree below =
    let (p, is, rest, more) = below_root_lem path below in
    rw (below, is)
      (make_loop-made FileAtEnd FileUnlessSlash FileAtEnd-Along creat_child creat_child-Contract p s
        tree (λ e. absurd (more e)))
