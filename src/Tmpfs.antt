-- ===== src/Tmpfs.antt =====
-- src/fs/tmpfs.c: a file system in memory, as a store of dentries.
-- A dentry's address is a number, and the root's is 0. A C string is the list of its characters
-- before the terminator, and NULL is `none`; `int` lengths are those of paths below 2^31 characters. The
-- intrusive list of a dentry's children is the list of their addresses, and `list_del` takes the
-- dentry out of its parent's list. Output of printk is left out, but for the listing of readdir.
-- The kernel heap is seen through what Heap.Kmalloc shows of it: `grants i` says whether the i-th
-- request from now on finds memory; a request that fails, or for 0 bytes, returns NULL and keeps the heap's
-- lock, and no request or release after that returns (`none`). `readable i` says whether the i-th copy
-- from now on that reads past the end of an old block finds mapped memory there. An address is not given twice.
pub mod Ops
pub mod Path
pub mod Store
pub mod Link
pub mod Child
pub mod Along
pub mod Tree
pub mod Make
pub mod Files
mod Tests
use rayos.Page.Order.{size_to_order}
use rayos.Base.{
  ℕ, zero, suc, ◌+◌, ◌-◌, ◌*◌, ◌/◌, ◌%◌, ◌^◌, Bool, true, false, not, ◌&&◌, ◌||◌, Option, none,
  some, ◌==◌, ltb, leb, if◌then◌else◌, List, [], ◌∷◌, ◌++◌, length, update, ℤ, pos, negsuc,
}

-- '/'
abbrev pub slash : ℕ
slash = 47

-- FS_NAME_MAX
abbrev pub fs_name_max : ℕ
fs_name_max = 255

-- sizeof(struct tmpfs_dentry)
abbrev pub sizeof_dentry : ℕ
sizeof_dentry = 72

-- `enum dentry_type`
pub data DentryType : Type 0 where
  file : DentryType
  dir : DentryType

abbrev pub is_dir : DentryType → Bool
is_dir DentryType.file = false
is_dir DentryType.dir = true

-- `enum tmpfs_err`
abbrev pub ok : ℤ
ok = pos 0

abbrev pub err_inval : ℤ
err_inval = negsuc 0

abbrev pub err_nomem : ℤ
err_nomem = negsuc 1

abbrev pub err_toolong : ℤ
err_toolong = negsuc 2

abbrev pub err_isdir : ℤ
err_isdir = negsuc 3

abbrev pub err_notdir : ℤ
err_notdir = negsuc 4

abbrev pub err_noent : ℤ
err_noent = negsuc 5

abbrev pub err_notempty : ℤ
err_notempty = negsuc 6

-- `struct tmpfs_dentry`; `nmlen` is the length of `name`.
pub record TmpfsDentry : Type 0 where
  pub name : List ℕ
  pub type : DentryType
  pub size : ℕ
  pub parent : Option ℕ
  pub children : List ℕ
  pub data' : Option (List ℕ)

pub record Tmpfs : Type 0 where
  pub dentry : ℕ → TmpfsDentry
  pub next : ℕ
  pub grants : ℕ → Bool
  pub readable : ℕ → Bool
  pub mm_held : Bool

-- A call's result and the store after it.
abbrev pub F : Type 0 → Type 0
F A = Tmpfs → Option (A × Tmpfs)

abbrev pub pure : {A : Type 0} → A → F A
pure a s = some (a, s)

infixl 5 ◌>>=◌
abbrev pub ◌>>=◌ : {A B : Type 0} → F A → (A → F B) → F B
◌>>=◌ act f s = elim (act s) [ none ↦ none | some (a, s') ↦ f a s' ]

-- `kzalloc(size)`, or `kmalloc(size)`: whether it returned memory.
unfoldable pub kzalloc : ℕ → F Bool
kzalloc size s =
    let granted : Bool = s.grants 0 && not (size == 0) in
    if s.mm_held
    then none
    else some (granted, record s { grants = λ i. s.grants (i + 1); mm_held = not granted })

-- `kfree` of an address that the heap gave.
unfoldable pub kfree : F (Unit {0})
kfree s = if s.mm_held then none else some (tt, s)

-- The bytes of the pages that the heap gives for a size.
abbrev pub block_bytes : ℕ → ℕ
block_bytes size = elim (size_to_order size) [ none ↦ 0 | some order ↦ 2 ^ order * 4096 ]

-- `memcpy(new, ptr, new_size)` from a block of `old` bytes: a copy of more than the block's pages reads
-- what stands behind them, and faults if that is not mapped.
unfoldable pub copy_old : ℕ → ℕ → F (Unit {0})
copy_old old new_size s =
    if ltb (block_bytes old) new_size
    then (if s.readable 0 then some (tt, record s { readable = λ i. s.readable (i + 1) }) else none)
    else some (tt, s)

-- `krealloc` of an address that the heap gave for `old` bytes.
unfoldable pub krealloc : ℕ → ℕ → F Bool
krealloc old new_size = do
  granted ← kzalloc new_size
  if granted then (copy_old old new_size >>= λ copied. kfree >>= λ freed. pure true) else pure false

abbrev pub root : ℕ
root = 0

-- `tmpfs_root`, and the store that holds only it.
abbrev pub tmpfs_root : TmpfsDentry
tmpfs_root = record {
  name = slash ∷ [];
  type = DentryType.dir;
  size = 0;
  parent = none;
  children = [];
  data' = none;
}

abbrev pub with_dentry : ℕ → TmpfsDentry → Tmpfs → Tmpfs
with_dentry td d s = record s { dentry = update s.dentry td d }

-- A new dentry at the end of its parent's children.
abbrev pub linked : ℕ → List ℕ → DentryType → Tmpfs → Tmpfs
linked parent name type s =
    let td : ℕ = s.next in
    let new : TmpfsDentry = record {
      name = name;
      type = type;
      size = 0;
      parent = some parent;
      children = [];
      data' = none;
    } in
    let up : TmpfsDentry = record (s.dentry parent) {
      children = (s.dentry parent).children ++ (td ∷ []);
    } in
    record (with_dentry parent up (with_dentry td new s)) { next = td + 1 }

unfoldable pub tmpfs_alloc_dentry : ℕ → List ℕ → DentryType → F (Option ℕ)
tmpfs_alloc_dentry parent name type = do
  td ← kzalloc sizeof_dentry
  if not td then pure none else (do
    buffer ← kzalloc (length name + 1)
    if not buffer then (kfree >>= λ _. pure none) else λ s.
        some (some s.next, linked parent name type s))

-- `while (*p == '/') p++;`
unfoldable pub skip_slashes : List ℕ → List ℕ
skip_slashes [] = []
skip_slashes (c ∷ p) = if c == slash then skip_slashes p else c ∷ p

-- The characters before the first slash, `len` many.
unfoldable pub component : List ℕ → List ℕ
component [] = []
component (c ∷ p) = if c == slash then [] else c ∷ component p

-- `p += len`
unfoldable pub after : List ℕ → List ℕ
after [] = []
after (c ∷ p) = if c == slash then c ∷ p else after p

-- `strchr(p, '/') != NULL`
unfoldable pub has_slash : List ℕ → Bool
has_slash [] = false
has_slash (c ∷ p) = (c == slash) || has_slash p

-- `nmlen == len && memcmp(...) == 0`
unfoldable pub same_name : List ℕ → List ℕ → Bool
same_name [] [] = true
same_name (a ∷ xs) (b ∷ ys) = (a == b) && same_name xs ys
same_name _ _ = false

-- `list_for_each_entry(pos, &cur->children, sibling)` up to the first match.
unfoldable pub find_child : Tmpfs → List ℕ → List ℕ → Option ℕ
find_child s [] name = none
find_child s (td ∷ rest) name =
    if same_name (s.dentry td).name name then some td else find_child s rest name

-- The loop of `tmpfs_lookup` at the rest p of the path; `fuel` bounds the rounds, and a run that
-- would need more has no result.
unfoldable pub lookup_loop : ℕ → ℕ → List ℕ → Tmpfs → Option (Option ℕ)
lookup_loop fuel cur [] s = some (some cur)
lookup_loop zero cur (c ∷ p) s = none
lookup_loop (suc fuel) cur (c ∷ p) s = elim (skip_slashes (c ∷ p)) [
  | [] ↦ some (some cur)
  | (d ∷ q) ↦
      if ltb fs_name_max (length (component (d ∷ q)))
      then some none
      else elim (find_child s (s.dentry cur).children (component (d ∷ q))) [
        | none ↦ some none
        | some child ↦ lookup_loop fuel child (after (d ∷ q)) s
      ]
]

-- The inner `none` is NULL. Each round takes a character of the path.
unfoldable pub tmpfs_lookup : Option (List ℕ) → Tmpfs → Option (Option ℕ)
tmpfs_lookup none s = some none
tmpfs_lookup (some []) s = some none
tmpfs_lookup (some (c ∷ p)) s = if c == slash then lookup_loop (length p) root p s else some none

-- The body of the loop of `tmpfs_creat` at a child that was found or not.
-- `if (!child) return TMPFS_ERR_NOMEM;`
abbrev pub or_nomem : ℕ → Option (Option ℕ × Tmpfs) → Option ((ℤ × ℕ) × Tmpfs)
or_nomem cur none = none
or_nomem cur (some (none, s)) = some ((err_nomem, cur), s)
or_nomem cur (some (some td, s)) = some ((ok, td), s)

unfoldable pub creat_child : ℕ → List ℕ → Option ℕ → F (ℤ × ℕ)
creat_child cur p none s =
    let type : DentryType = if has_slash p then DentryType.dir else DentryType.file in
    or_nomem cur (tmpfs_alloc_dentry cur (component p) type s)
creat_child cur p (some child) s =
    if not (has_slash p) && is_dir (s.dentry child).type
    then some ((err_isdir, child), s)
    else some ((ok, child), s)

unfoldable pub mkdir_child : ℕ → List ℕ → Option ℕ → F (ℤ × ℕ)
mkdir_child cur p none s = or_nomem cur (tmpfs_alloc_dentry cur (component p) DentryType.dir s)
mkdir_child cur p (some child) s =
    if not (is_dir (s.dentry child).type)
    then some ((err_notdir, child), s)
    else some ((ok, child), s)

abbrev pub failed : ℤ → Bool
failed (pos n) = false
failed (negsuc n) = true

-- The loop that `tmpfs_creat` and `tmpfs_mkdir` share, with what they do at a child.
unfoldable pub make_loop : (ℕ → List ℕ → Option ℕ → F (ℤ × ℕ)) → ℕ → ℕ → List ℕ → F ℤ
make_loop at_child fuel cur [] s = some (ok, s)
make_loop at_child zero cur (c ∷ p) s = none
make_loop at_child (suc fuel) cur (c ∷ p) s = elim (skip_slashes (c ∷ p)) [
  | [] ↦ some (ok, s)
  | (d ∷ q) ↦
      if ltb fs_name_max (length (component (d ∷ q)))
      then some (err_toolong, s)
      else elim (at_child cur (d ∷ q) (find_child s (s.dentry cur).children (component (d ∷ q)))
          s) [
            | none ↦ none
            | some (r, s') ↦ elim (failed r.0) [
              | true ↦ some (r.0, s')
              | false ↦ make_loop at_child fuel r.1 (after (d ∷ q)) s'
            ]
          ]
]

-- `!path || path[0] != '/' || path[1] == '\0'`
unfoldable pub below_root : Option (List ℕ) → Bool
below_root (some (c ∷ d ∷ p)) = c == slash
below_root _ = false

-- path + 1
abbrev pub tail : Option (List ℕ) → List ℕ
tail (some (c ∷ p)) = p
tail _ = []

unfoldable pub tmpfs_creat : Option (List ℕ) → F ℤ
unfolding creat_child
tmpfs_creat path s =
    if not (below_root path)
    then some (err_inval, s)
    else make_loop creat_child (length (tail path)) root (tail path) s

unfoldable pub tmpfs_mkdir : Option (List ℕ) → F ℤ
unfolding mkdir_child
tmpfs_mkdir path s =
    if not (below_root path)
    then some (err_inval, s)
    else make_loop mkdir_child (length (tail path)) root (tail path) s
