-- ===== src/Tmpfs/Ops.antt =====
-- The operations of tmpfs on files and on whole dentries.
use rayos.Base.{
  ℕ, zero, suc, Bool, true, false, not, ◌&&◌, Option, none, some, ◌==◌, ltb, if◌then◌else◌, List,
  [], ◌∷◌, length, ℤ, pos, negsuc,
}
use rayos.Tmpfs.{
  is_dir, ok, err_inval, err_nomem, err_notdir, err_noent, err_notempty, TmpfsDentry, Tmpfs, F,
  pure, ◌>>=◌, kzalloc, kfree, krealloc, root, with_dentry, tmpfs_lookup, below_root,
}

-- The first n bytes.
abbrev pub take : ℕ → List ℕ → List ℕ
take zero xs = []
take (suc n) [] = []
take (suc n) (x ∷ xs) = x ∷ take n xs

-- What `tmpfs_read` returns for a dentry, and the bytes that it copies to `buf`.
abbrev pub read_dentry : TmpfsDentry → ℕ → ℤ × List ℕ
read_dentry d len =
    let count : ℕ = if ltb d.size len then d.size else len in
    if is_dir d.type
    then (err_inval, [])
    else elim d.data' [ none ↦ (err_inval, []) | some bytes ↦ (pos count, take count bytes) ]

-- `td` is the private_data of the file's dentry.
unfoldable pub tmpfs_read : Option ℕ → ℕ → Tmpfs → ℤ × List ℕ
tmpfs_read none len s = (err_inval, [])
tmpfs_read (some td) len s = read_dentry (s.dentry td) len

-- `new_data = kzalloc(len)` or `krealloc(td->data, len)`
abbrev pub new_data : Option (List ℕ) → ℕ → F Bool
new_data none len = kzalloc len
new_data (some old) len = krealloc (length old) len

-- The bytes of `buf` are those that the caller gives, `len` many. With len = 0 the new data is NULL.
unfoldable pub tmpfs_write : Option ℕ → List ℕ → F ℤ
tmpfs_write none buf s = some (err_inval, s)
tmpfs_write (some td) buf s =
    if is_dir (s.dentry td).type
    then some (err_inval, s)
    else elim (new_data (s.dentry td).data' (length buf) s) [
      | none ↦ none
      | some (granted, s') ↦
          if not granted && ltb 0 (length buf)
          then some (err_nomem, s')
          else let d : TmpfsDentry = record (s'.dentry td) {
            size = length buf;
            data' = if granted then some buf else none;
          } in
            some (pos (length buf), with_dentry td d s')
    ]

-- The names that `tmpfs_readdir` prints, with whether a slash follows.
unfoldable pub listing : Tmpfs → List ℕ → List (List ℕ × Bool)
listing s [] = []
listing s (td ∷ rest) = ((s.dentry td).name, is_dir (s.dentry td).type) ∷ listing s rest

unfoldable pub tmpfs_readdir : Option (List ℕ) → Tmpfs → Option (ℤ × List (List ℕ × Bool))
tmpfs_readdir path s = elim (tmpfs_lookup path s) [
  | none ↦ none
  | some none ↦ some (err_noent, [])
  | some (some d) ↦
      if not (is_dir (s.dentry d).type)
      then some (err_notdir, [])
      else some (ok, listing s (s.dentry d).children)
]

unfoldable pub without : ℕ → List ℕ → List ℕ
without td [] = []
without td (x ∷ xs) = if x == td then xs else x ∷ without td xs

-- `list_del(&td->sibling)`
unfoldable pub unlinked : ℕ → Tmpfs → Tmpfs
unlinked td s = elim (s.dentry td).parent [
  | none ↦ s
  | some up ↦
      with_dentry up (record (s.dentry up) { children = without td (s.dentry up).children }) s
]

-- The releases of the name, of a file's data and of the dentry.
unfoldable pub tmpfs_free_dentry : ℕ → F (Unit {0})
tmpfs_free_dentry td s = kfree (unlinked td s)

abbrev pub list_empty : List ℕ → Bool
list_empty [] = true
list_empty (x ∷ xs) = false

unfoldable pub tmpfs_unlink : Option (List ℕ) → F ℤ
tmpfs_unlink path s =
    if not (below_root path) then some (err_inval, s) else elim (tmpfs_lookup path s) [
      | none ↦ none
      | some none ↦ some (err_noent, s)
      | some (some target) ↦
          if target == root
          then some (err_inval, s)
          else if is_dir (s.dentry target).type && not (list_empty (s.dentry target).children)
          then some (err_notempty, s)
          else (tmpfs_free_dentry target >>= λ _. pure ok) s
    ]

-- The result and `st_size`, for an `st` that is not NULL.
unfoldable pub tmpfs_stat : Option (List ℕ) → Tmpfs → Option (ℤ × Option ℕ)
tmpfs_stat path s = elim (tmpfs_lookup path s) [
  | none ↦ none
  | some none ↦ some (err_noent, none)
  | some (some de) ↦ some (ok, some (s.dentry de).size)
]

-- `tmpfs_open` looks up the dentry's own name; -ENOENT is -2.
unfoldable pub tmpfs_open : ℕ → Tmpfs → Option ℤ
tmpfs_open td s = elim (tmpfs_lookup (some (s.dentry td).name) s) [
  | none ↦ none
  | some none ↦ some (negsuc 1)
  | some (some t) ↦ some (pos 0)
]

unfoldable pub tmpfs_release : Tmpfs → ℤ
tmpfs_release s = pos 0
