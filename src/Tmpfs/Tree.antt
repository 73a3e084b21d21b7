-- ===== src/Tmpfs/Tree.antt =====
-- A store whose dentries are trees, and what a later store keeps of an earlier one.
use rayos.Base.{
  ℕ, ◌<◌, ◌≡◌, Option, none, some, ◌==◌, ltb, List, [], ◌∷◌, length, inl, inr, Bool-cases,
  Option-cases,
}
use rayos.Tmpfs.{slash, fs_name_max, DentryType, Tmpfs, root, find_child}
use rayos.Tmpfs.Path.{names, resolve, lookup_by_names}
use rayos.Tmpfs.Store.{Shaped, Shaped-below, Extends, find-below}

-- The root is a directory without a parent, and the dentries are trees (Shaped).
pub record IsTree (s : Tmpfs) : Type 0 where
  pub rooted : root < s.next
  pub root_dir : (s.dentry root).type ≡ DentryType.dir
  pub root_top : (s.dentry root).parent ≡ none
  pub shaped : Shaped s

-- The store s' has what s had: a path that led to a dentry leads to it, and the dentries have the
-- types that they had.
pub record Kept (s s' : Tmpfs) : Type 0 where
  pub paths :
      (path : Option (List ℕ)) (td : ℕ)
      → lookup_by_names path s ≡ some td
      → lookup_by_names path s' ≡ some td
  pub types : (td : ℕ) → td < s.next → (s'.dentry td).type ≡ (s.dentry td).type
  pub parents : (td : ℕ) → td < s.next → (s'.dentry td).parent ≡ (s.dentry td).parent

resolve-Extends :
    (s s' : Tmpfs) (cur : ℕ) (ws : List (List ℕ)) (td : ℕ)
    → Extends s s'
    → Shaped s
    → cur < s.next
    → resolve s cur ws ≡ some td
    → resolve s' cur ws ≡ some td
resolve-Extends s s' cur [] td more b h e = e
resolve-Extends s s' cur (w ∷ ws) td more b h e = elim (Bool-cases (ltb fs_name_max (length w))) [
  | inl long ↦ cc (rw long at e)
  | inr fits ↦ elim (Option-cases (find_child s (s.dentry cur).children w)) [
    | inl missing ↦ cc (rw (fits, missing) at e)
    | inr (child, found) ↦
        let below : child < s.next =
          find-below s s.next (s.dentry cur).children w child (Shaped-below s b cur h) found in
        rw (fits, more.found cur w child h found)
          (resolve-Extends s s' child ws td more b below (rw (fits, found) at e))
  ]
]

pub Extends-Kept : (s s' : Tmpfs) → IsTree s → Extends s s' → Kept s s'
Extends-Kept s s' tree more = record {
  paths = paths;
  types = λ td h. more.same_type td h;
  parents = λ td h. more.same_parent td h;
}
  where
    paths :
        (path : Option (List ℕ)) (td : ℕ)
        → lookup_by_names path s ≡ some td
        → lookup_by_names path s' ≡ some td
    paths none td e = cc e
    paths (some []) td e = cc e
    paths (some (c ∷ p)) td e = elim (Bool-cases (c == slash)) [
      | inl here ↦
          rw here
            (resolve-Extends s s' root (names p) td more tree.shaped tree.rooted (rw here at e))
      | inr other ↦ cc (rw other at e)
    ]
