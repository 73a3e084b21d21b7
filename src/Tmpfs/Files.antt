-- ===== src/Tmpfs/Files.antt =====
-- Reading and writing a file, and the removal of a dentry.
use rayos.Base.{
  ℕ, ◌+◌, ◌<◌, ◌≡◌, ◌≢◌, ◌⊎◌, refl, arith, Bool, true, false, not, ◌&&◌, Option, none, some, ◌==◌,
  ltb, if◌then◌else◌, List, [], ◌∷◌, length, update, update_self, update_ne, inl, inr, Bool-cases,
  Option-cases, ◌∙◌, ap, sym, ℤ, pos,
}
use rayos.Tmpfs.{
  DentryType, is_dir, ok, err_inval, err_nomem, err_noent, err_notempty, TmpfsDentry, Tmpfs,
  kzalloc, krealloc, copy_old, block_bytes, ◌>>=◌, pure, root, with_dentry, below_root,
}
use rayos.Tmpfs.Path.{lookup_by_names, tmpfs_lookup-names}
use rayos.Tmpfs.Store.{Ample}
use rayos.Tmpfs.Link.{SameTree}
use rayos.Tmpfs.Child.{kzalloc-cases, kzalloc-readable, kfree-cases}
use rayos.Tmpfs.Ops.{
  take, read_dentry, tmpfs_read, new_data, tmpfs_write, list_empty, unlinked, tmpfs_free_dentry,
  tmpfs_unlink,
}

-- The next copy that reads past the end of an old block meets memory that is not mapped, and a write
-- of `len` bytes over the old data makes such a copy.
pub record Overreads (s : Tmpfs) (old : Option (List ℕ)) (len : ℕ) : Type 0 where
  pub block : List ℕ
  pub there : old ≡ some block
  pub beyond : block_bytes (length block) < len
  pub unmapped : s.readable 0 ≡ false

-- The copy, in the store after the request for memory.
copy_old-cases :
    (block : List ℕ) (len : ℕ) (s s1 : Tmpfs)
    → s1.readable ≡ s.readable
    → ((copy_old (length block) len s1 ≡ none) × Overreads s (some block) len)
      ⊎ ((s2 : Tmpfs) × (copy_old (length block) len s1 ≡ some (tt, s2))
          × SameTree s1 s2
          × (s2.mm_held ≡ s1.mm_held))
unfolding copy_old
copy_old-cases block len s s1 same = elim (Bool-cases (ltb (block_bytes (length block)) len)) [
  | inr inside ↦ inr (s1, rw inside refl, record { dentries = refl; count = refl }, refl)
  | inl beyond ↦ elim (Bool-cases (s1.readable 0)) [
    | inl mapped ↦ inr (
      record s1 { readable = λ i. s1.readable (i + 1) },
      rw (beyond, mapped) refl,
      record { dentries = refl; count = refl },
      refl,
    )
    | inr unmapped ↦ inl (
      rw (beyond, unmapped) refl,
      record {
        block = block;
        there = refl;
        beyond = ground arith;
        unmapped = ap (λ (f : ℕ → Bool). f 0) (sym same) ∙ unmapped;
      },
    )
  ]
]

SameTree-trans : (s t u : Tmpfs) → SameTree s t → SameTree t u → SameTree s u
SameTree-trans s t u a b = record { dentries = b.dentries ∙ a.dentries; count = b.count ∙ a.count }

new_data-cases :
    (old : Option (List ℕ)) (len : ℕ) (s : Tmpfs)
    → 0 < len
    → ((new_data old len s ≡ none) × ((¬ Ample s) ⊎ Overreads s old len))
      ⊎ ((granted : Bool) × (s1 : Tmpfs) × (new_data old len s ≡ some (granted, s1))
          × SameTree s s1
          × (Ample s → granted ≡ true))
unfolding krealloc
new_data-cases none len s h = elim (kzalloc-cases len s h) [
  | inl (hangs, held) ↦ inl (hangs, inl (λ ample. cc (held, ample.0)))
  | inr (granted, s1, runs, same, good) ↦ inr (granted, s1, runs, same, λ ample. (good ample).0)
]
new_data-cases (some old) len s h = elim (kzalloc-cases len s h) [
  | inl (hangs, held) ↦ inl (rw (hangs, krealloc, ◌>>=◌) refl, inl (λ ample. cc (held, ample.0)))
  | inr (false, s1, runs, same, good) ↦
      inr (false, s1, rw (runs, krealloc, ◌>>=◌) refl, same, λ ample. (good ample).0)
  | inr (true, s1, runs, same, good) ↦
      elim (copy_old-cases old len s s1 (kzalloc-readable len s s1 true runs)) [
        | inl (faults, over) ↦ inl (rw (runs, krealloc, ◌>>=◌, faults) refl, inr over)
        | inr (s2, copies, same2, lock) ↦ elim (kfree-cases s2) [
          | inl (hangs, held) ↦ inl (
            rw (runs, krealloc, ◌>>=◌, copies, hangs) refl,
            inl (λ ample. cc (sym lock ∙ held, (good ample).1.0)),
          )
          | inr (freed, free) ↦ inr (
            true,
            s2,
            rw (runs, krealloc, ◌>>=◌, copies, freed) refl,
            SameTree-trans s s1 s2 same same2,
            λ ample. refl,
          )
        ]
      ]
]

-- What a write of `buf` to the file `td` leaves: a read of `len` bytes returns the first ones of
-- `buf`, and every other dentry is as it was.
pub record Written (s s' : Tmpfs) (td : ℕ) (buf : List ℕ) : Type 0 where
  pub reads :
      (len : ℕ)
      → let count : ℕ = if ltb (length buf) len then length buf else len in
        tmpfs_read (some td) len s' ≡ (pos count, take count buf)
  pub others : (x : ℕ) → x ≢ td → s'.dentry x ≡ s.dentry x

written :
    (s s1 : Tmpfs) (td : ℕ) (buf : List ℕ)
    → SameTree s s1
    → is_dir (s.dentry td).type ≡ false
    → Written s
        (with_dentry td (record (s1.dentry td) { size = length buf; data' = some buf }) s1)
        td
        buf
unfolding tmpfs_read
written s s1 td buf same regular = record { reads = reads; others = others }
  where
    new : TmpfsDentry
    new = record (s1.dentry td) { size = length buf; data' = some buf }

    reads :
        (len : ℕ)
        → let count : ℕ = if ltb (length buf) len then length buf else len in
          read_dentry (update s1.dentry td new td) len ≡ (pos count, take count buf)
    reads len =
        let kind : is_dir (s1.dentry td).type ≡ false =
          ap (λ (f : ℕ → TmpfsDentry). is_dir (f td).type) same.dentries ∙ regular in
        ap (λ d. read_dentry d len) (update_self s1.dentry td new) ∙ rw kind refl

    others : (x : ℕ) → x ≢ td → update s1.dentry td new x ≡ s.dentry x
    others x h = update_ne s1.dentry td x new h ∙ ap (λ (f : ℕ → TmpfsDentry). f x) same.dentries

-- `tmpfs_write` of at least one byte to a file returns the number of bytes, and then a read returns
-- what was written, while every other dentry is as it was. Or the heap does not find all the memory
-- that is asked, and the call returns TMPFS_ERR_NOMEM with the tree as it was, or does not return. Or
-- it does not return since the new data are longer than the pages of the old block and krealloc's
-- copy of the new length, which reads past these, meets memory that is not mapped.
pub tmpfs_read-tmpfs_write :
    (td : ℕ) (buf : List ℕ) (s : Tmpfs)
    → (s.dentry td).type ≡ DentryType.file
    → 0 < length buf
    → ((tmpfs_write (some td) buf s ≡ none)
        × ((¬ Ample s) ⊎ Overreads s (s.dentry td).data' (length buf)))
      ⊎ ((s' : Tmpfs) × (((tmpfs_write (some td) buf s ≡ some (err_nomem, s'))
              × SameTree s s'
              × ¬ Ample s)
            ⊎ ((tmpfs_write (some td) buf s ≡ some (pos (length buf), s')) × Written s s' td buf)))
unfolding tmpfs_write
tmpfs_read-tmpfs_write td buf s file more =
    let regular : is_dir (s.dentry td).type ≡ false = ap is_dir file in
    let some_bytes : ltb 0 (length buf) ≡ true = ground arith in
    elim (new_data-cases (s.dentry td).data' (length buf) s more) [
      | inl (hangs, short) ↦ inl (rw (regular, hangs) refl, short)
      | inr (false, s1, runs, same, good) ↦
          inr (s1, inl (rw (regular, runs, some_bytes) refl, same, λ ample. cc (good ample)))
      | inr (true, s1, runs, same, good) ↦
          inr (_, inr (rw (regular, runs) refl, written s s1 td buf same regular))
    ]

-- A request for no bytes gets NULL, and the lock stays held.
kzalloc_zero :
    (s : Tmpfs)
    → s.mm_held ≡ false
    → (s1 : Tmpfs) × (kzalloc 0 s ≡ some (false, s1)) × (s1.mm_held ≡ true)
unfolding kzalloc
kzalloc_zero s free = elim (Bool-cases (s.grants 0)) [
  | inl granted ↦
      (record s { grants = λ i. s.grants (i + 1); mm_held = true }, rw (free, granted) refl, refl)
  | inr refused ↦
      (record s { grants = λ i. s.grants (i + 1); mm_held = true }, rw (free, refused) refl, refl)
]

held-kzalloc : (s : Tmpfs) (size : ℕ) → s.mm_held ≡ true → kzalloc size s ≡ none
unfolding kzalloc
held-kzalloc s size held = rw held refl

-- `tmpfs_write` of no bytes to a file returns 0, but the heap keeps its lock: no request for memory
-- after it returns. The lock was free.
pub kzalloc-tmpfs_write_empty :
    (td : ℕ) (s : Tmpfs) (size : ℕ)
    → (s.dentry td).type ≡ DentryType.file
    → s.mm_held ≡ false
    → (s' : Tmpfs) × (tmpfs_write (some td) [] s ≡ some (pos 0, s')) × (kzalloc size s' ≡ none)
unfolding tmpfs_write krealloc
kzalloc-tmpfs_write_empty td s size file free =
    let regular : is_dir (s.dentry td).type ≡ false = ap is_dir file in
    let (s1, runs, held) = kzalloc_zero s free in
    let emptied : Tmpfs → Tmpfs =
      λ t. with_dentry td (record (t.dentry td) { size = 0; data' = none }) t in
    elim (Option-cases (s.dentry td).data') [
      | inl fresh ↦ (emptied s1, rw (regular, fresh, new_data, runs) refl, held-kzalloc _ size held)
      | inr (old, there) ↦ (
        emptied s1,
        rw (regular, there, new_data, krealloc, ◌>>=◌, runs) refl,
        held-kzalloc _ size held,
      )
    ]

full-length : (xs : List ℕ) → not (list_empty xs) ≡ ltb 0 (length xs)
full-length [] = refl
full-length (x ∷ xs) = ground arith

unlinked-held : (td : ℕ) (s : Tmpfs) → (unlinked td s).mm_held ≡ s.mm_held
unfolding unlinked
unlinked-held td s = elim (Option-cases (s.dentry td).parent) [
  | inl top ↦ rw (unlinked, top) refl
  | inr (up, below) ↦ rw (unlinked, below) refl
]

freed :
    (td : ℕ) (s : Tmpfs)
    → (tmpfs_free_dentry td >>= λ _. pure ok) s
      ≡ (if s.mm_held then none else some (ok, unlinked td s))
unfolding tmpfs_free_dentry
freed td s =
    let after : Tmpfs = unlinked td s in
    let goes_on : Bool → Option (ℤ × Tmpfs) = λ b. if b then none else some (ok, after) in
    elim (kfree-cases after) [
      | inl (hangs, held) ↦ rw (◌>>=◌, hangs) (ap goes_on (sym held ∙ unlinked-held td s))
      | inr (runs, free) ↦ rw (◌>>=◌, runs) (ap goes_on (sym free ∙ unlinked-held td s))
    ]

-- `tmpfs_unlink` of a path below the root: the code for each state of the dentry to which the path
-- leads. A file, or a directory without children, leaves its parent's list, unless the heap's lock
-- is held, with which the call does not return; in all other cases nothing changes.
pub tmpfs_unlink-branches :
    (path : Option (List ℕ)) (s : Tmpfs)
    → below_root path ≡ true
    → tmpfs_unlink path s ≡ (elim (lookup_by_names path s) [
      | none ↦ some (err_noent, s)
      | some target ↦
          if target == root
          then some (err_inval, s)
          else (if is_dir (s.dentry target).type && ltb 0 (length (s.dentry target).children)
              then some (err_notempty, s)
              else (if s.mm_held then none else some (ok, unlinked target s)))
    ])
unfolding tmpfs_unlink
tmpfs_unlink-branches path s below = elim (Option-cases (lookup_by_names path s)) [
  | inl missing ↦ rw (below, missing, tmpfs_lookup-names path s, missing) refl
  | inr (target, found) ↦
      rw (below, tmpfs_lookup-names path s, found, full-length (s.dentry target).children)
        (elim (Bool-cases (target == root)) [
          | inl top ↦ rw top refl
          | inr other ↦
              elim (Bool-cases
                (is_dir (s.dentry target).type && ltb 0 (length (s.dentry target).children))) [
                  | inl full ↦ rw (other, full) refl
                  | inr free ↦ rw (other, free) (freed target s)
                ]
        ])
]
