-- ===== src/Tmpfs/Tests.antt =====
-- A store with a directory `/a`, a file `/a/f` in it and a file `/g`, and the theorems of tmpfs at it.
use rayos.Base.{
  ℕ, zero, suc, ◌<◌, ◌≡◌, ◌⊎◌, refl, arith, true, false, Option, none, some, ◌==◌, if◌then◌else◌,
  List, [], ◌∷◌, pos, negsuc, ℤ,
}
use rayos.Tmpfs.{
  tail, DentryType, TmpfsDentry, Tmpfs, tmpfs_root, err_nomem, kzalloc, failed, tmpfs_lookup,
  tmpfs_mkdir, tmpfs_creat, lookup_loop, make_loop, creat_child, tmpfs_alloc_dentry, skip_slashes,
  component, after, has_slash, same_name, find_child, below_root,
}
use rayos.Tmpfs.Path.{lookup_by_names, tmpfs_lookup-names}
use rayos.Tmpfs.Store.{Ample, Kids}
use rayos.Tmpfs.Link.{SameTree}
use rayos.Tmpfs.Along.{FileUnlessSlash}
use rayos.Tmpfs.Tree.{IsTree, Kept}
use rayos.Tmpfs.Make.{tmpfs_lookup-tmpfs_mkdir, tmpfs_lookup-tmpfs_creat}
use rayos.Tmpfs.Ops.{tmpfs_write, tmpfs_readdir, listing, tmpfs_open}
use rayos.Tmpfs.Files.{Overreads, Written, tmpfs_read-tmpfs_write, kzalloc-tmpfs_write_empty}

abbrev entry : List ℕ → DentryType → ℕ → List ℕ → TmpfsDentry
entry name type parent children = record {
  name = name;
  type = type;
  size = 0;
  parent = some parent;
  children = children;
  data' = none;
}

-- 'a' is 97, 'f' is 102, 'g' is 103.
abbrev dentries : ℕ → TmpfsDentry
dentries x =
    if x == 0
    then record tmpfs_root { children = 1 ∷ 3 ∷ [] }
    else (if x == 1
        then entry (97 ∷ []) DentryType.dir 0 (2 ∷ [])
        else (if x == 2
            then entry (102 ∷ []) DentryType.file 1 []
            else entry (103 ∷ []) DentryType.file 0 []))

abbrev store : Tmpfs
store = record {
  dentry = dentries;
  next = 4;
  grants = λ i. true;
  readable = λ i. false;
  mm_held = false;
}

abbrev depth : ℕ → ℕ
depth x = if x == 0 then 0 else (if x == 2 then 2 else 1)

store-Kids : (x : ℕ) → x < 4 → Kids store depth 4 x (dentries x).children
store-Kids zero h =
    (omega arith, refl, refl, ((λ e. absurd (omega arith)), tt), (omega arith, refl, refl, tt, tt))
store-Kids (suc zero) h = (omega arith, refl, refl, tt, tt)
store-Kids (suc (suc zero)) h = tt
store-Kids (suc (suc (suc zero))) h = tt
store-Kids (suc (suc (suc (suc x)))) h = absurd (omega arith)

store-IsTree : IsTree store
store-IsTree = record {
  rooted = omega arith;
  root_dir = refl;
  root_top = refl;
  shaped = record { depth = depth; kids = store-Kids };
}

store-Ample : Ample store
store-Ample = (refl, λ i. refl)

-- "//a/f/" leads to the file.
finds : tmpfs_lookup (some (47 ∷ 47 ∷ 97 ∷ 47 ∷ 102 ∷ 47 ∷ [])) store ≡ some (some 2)
unfolding tmpfs_lookup lookup_loop skip_slashes component after find_child same_name
finds = refl

-- A file is walked through as if it were a directory: "/g/f" is made below the file `/g`.
through_file :
    (s' : Tmpfs) × (tmpfs_creat (some (47 ∷ 103 ∷ 47 ∷ 102 ∷ [])) store ≡ some (pos 0, s'))
unfolding tmpfs_creat creat_child below_root make_loop tmpfs_alloc_dentry kzalloc skip_slashes
    component after has_slash find_child same_name
through_file = (_, refl)

-- The root opens; the file `/g` does not, since its own name is no path.
opens : tmpfs_open 0 store ≡ some (pos 0)
unfolding tmpfs_open tmpfs_lookup lookup_loop skip_slashes
opens = refl

not_opened : tmpfs_open 3 store ≡ some (negsuc 1)
unfolding tmpfs_open tmpfs_lookup
not_opened = refl

lists :
    tmpfs_readdir (some (47 ∷ [])) store ≡ some (pos 0, (97 ∷ [], true) ∷ (103 ∷ [], false) ∷ [])
unfolding tmpfs_readdir tmpfs_lookup lookup_loop listing
lists = refl

abbrev path_ab : Option (List ℕ)
path_ab = some (47 ∷ 97 ∷ 47 ∷ 98 ∷ [])

tmpfs_lookup_example : tmpfs_lookup path_ab store ≡ some (lookup_by_names path_ab store)
tmpfs_lookup_example = tmpfs_lookup-names path_ab store

below : below_root path_ab ≡ true
unfolding below_root
below = refl

tmpfs_mkdir_example :
    ((tmpfs_mkdir path_ab store ≡ none) × ¬ Ample store)
    ⊎ ((r : ℤ) × (s' : Tmpfs) × (tmpfs_mkdir path_ab store ≡ some (r, s'))
        × IsTree s'
        × Kept store s'
        × (failed r ≡ false
            → (td : ℕ) × (tmpfs_lookup path_ab s' ≡ some (some td))
              × ((s'.dentry td).type ≡ DentryType.dir)))
tmpfs_mkdir_example = tmpfs_lookup-tmpfs_mkdir path_ab store store-IsTree below

tmpfs_creat_example :
    ((tmpfs_creat path_ab store ≡ none) × ¬ Ample store)
    ⊎ ((r : ℤ) × (s' : Tmpfs) × (tmpfs_creat path_ab store ≡ some (r, s'))
        × IsTree s'
        × Kept store s'
        × (failed r ≡ false
            → (td : ℕ) × (tmpfs_lookup path_ab s' ≡ some (some td))
              × FileUnlessSlash (tail path_ab) (s'.dentry td).type))
tmpfs_creat_example = tmpfs_lookup-tmpfs_creat path_ab store store-IsTree below

tmpfs_write_example :
    ((tmpfs_write (some 2) (7 ∷ 8 ∷ []) store ≡ none) × ((¬ Ample store) ⊎ Overreads store none 2))
    ⊎ ((s' : Tmpfs) × (((tmpfs_write (some 2) (7 ∷ 8 ∷ []) store ≡ some (err_nomem, s'))
            × SameTree store s'
            × ¬ Ample store)
          ⊎ ((tmpfs_write (some 2) (7 ∷ 8 ∷ []) store ≡ some (pos 2, s'))
              × Written store s' 2 (7 ∷ 8 ∷ []))))
tmpfs_write_example = tmpfs_read-tmpfs_write 2 (7 ∷ 8 ∷ []) store refl (omega arith)

tmpfs_write_empty_example :
    (s' : Tmpfs) × (tmpfs_write (some 2) [] store ≡ some (pos 0, s')) × (kzalloc 5 s' ≡ none)
tmpfs_write_empty_example = kzalloc-tmpfs_write_empty 2 store 5 refl refl
