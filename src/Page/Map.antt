-- ===== src/Page/Map.antt =====
-- `map_page_range` where the tables are there: each page of the range is mapped, and no other.
use Prim.Native.Nat.{bit_and, bit_or}
use rayos.Base.{
  ℕ, zero, suc, ◌+◌, ◌*◌, ◌%◌, ◌^◌, ◌≤◌, ◌<◌, ◌≡◌, refl, arith, Bool, false, none, some, ltb,
  if◌then◌else◌, inl, inr, Bool-cases, ◌∙◌, ap, sym, subst, pos, negsuc, to_int, to_int_small,
}
use rayos.Bits.{complement}
use rayos.Page.{
  Machine, child, walk, present, frame_of, load, ensure_table, map_loop, map_page_range,
  unmap_page_range, unmap_loop, map_pml4, map_pdpt, map_pd, map_pt, pure, ◌>>=◌,
}
use rayos.Page.Walk.{Recursive}
use rayos.Page.Address.{present-entry, frame_of-page}
use rayos.Page.Access.{i4, i3, i2, i1, load-pml4, load-pdpt, load-pd, load-pt, store_leaf-poke}
use rayos.Page.Range.{
  offset, RangeCovered, Maps, range_step, first-Covered, next-RangeCovered, next_walk,
}
use rayos.Page.Tables.{
  Rooted, Covered, Unshared, poked, poked-Rooted, poked-Covered, poked-Unshared, SameTables,
  SameTables-poked, walk-Covered, walk-poked,
}

-- A table that is there stays as it is.
ensure_table-present :
    (m : Machine) (table index frame below flags next : ℕ)
    → load table index m ≡ some (m.mem frame index, m)
    → child m.mem frame index ≡ some below
    → ensure_table table index next flags m ≡ some (tt, m)
unfolding ensure_table child
ensure_table-present m table index frame below flags next read here =
    elim (Bool-cases (present (m.mem frame index))) [
      | inl there ↦ rw (read, ensure_table, ◌>>=◌, there) refl
      | inr gone ↦ cc (
          subst (λ b. (if b then some (frame_of (m.mem frame index)) else none) ≡ some below) gone
            here)
    ]

-- The entry that `map_page_range` writes.
abbrev pub entry : ℕ → ℕ → ℕ
entry pa flags = bit_or (bit_or (bit_and pa (complement 0xfff)) flags) 1

module _ (upper : ℕ → Bool) (m : Machine) (root : Rooted upper m) (va t1 : ℕ)
    (c : Covered upper m va t1) where
  rec : Recursive m
  rec = root.recursive

  tables_there :
      (flags : ℕ)
      → (ensure_table map_pml4 (i4 va) (map_pdpt (i4 va)) flags m ≡ some (tt, m))
        × (ensure_table (map_pdpt (i4 va)) (i3 va) (map_pd (i4 va) (i3 va)) flags m ≡ some (tt, m))
        × (ensure_table (map_pd (i4 va) (i3 va)) (i2 va) (map_pt (i4 va) (i3 va) (i2 va)) flags m
            ≡ some (tt, m))
  tables_there flags = (
    ensure_table-present m _ _ m.cr3 c.t3 flags _ (load-pml4 m rec va) c.path.e3,
    ensure_table-present m _ _ c.t3 c.t2 flags _ (load-pdpt m rec va c.t3 c.path.e3) c.path.e2,
    ensure_table-present m _ _ c.t2 t1 flags _ (load-pd m rec va c.t3 c.path.e3 c.t2 c.path.e2)
        c.path.e1,
  )

  -- A round of the loop at a page that is not mapped.
  pub map_loop-step :
      (virtaddr flags n i pa : ℕ)
      → walk m.mem m.cr3 va ≡ none
      → map_loop virtaddr flags (suc n) i pa va m
        ≡ map_loop virtaddr flags n
            (i + 1)
            ((pa + 0x1000) % 2 ^ 64)
            ((va + 0x1000) % 2 ^ 64)
            (poked m t1 (i1 va) (entry pa flags))
  unfolding map_loop child
  map_loop-step virtaddr flags n i pa free =
      let (a, b, d) = tables_there flags in
      let e : child m.mem t1 (i1 va) ≡ none = sym (walk-Covered upper m va t1 root c) ∙ free in
      elim (Bool-cases (present (m.mem t1 (i1 va)))) [
        | inl there ↦
            cc
              (subst (λ b. (if b then some (frame_of (m.mem t1 (i1 va))) else none) ≡ none) there e)
        | inr gone ↦
            rw
              (
                a,
                b,
                d,
                load-pt m rec va c.t3 c.t2 t1 c.path,
                map_loop,
                ◌>>=◌,
                gone,
                store_leaf-poke m rec va c.t3 c.t2 t1 c.path (entry pa flags),
              )
              refl
      ]

  -- A round at a page that is mapped ends the loop.
  pub map_loop-mapped :
      (virtaddr flags n i pa frame : ℕ)
      → walk m.mem m.cr3 va ≡ some frame
      → map_loop virtaddr flags (suc n) i pa va m
        ≡ (unmap_page_range virtaddr i >>= λ _. pure (negsuc 16)) m
  unfolding map_loop child
  map_loop-mapped virtaddr flags n i pa frame taken =
      let (a, b, d) = tables_there flags in
      let e : child m.mem t1 (i1 va) ≡ some frame =
        sym (walk-Covered upper m va t1 root c) ∙ taken in
      elim (Bool-cases (present (m.mem t1 (i1 va)))) [
        | inl there ↦
            rw (a, b, d, load-pt m rec va c.t3 c.t2 t1 c.path, map_loop, ◌>>=◌, there) refl
        | inr gone ↦ cc (
            subst (λ b. (if b then some (frame_of (m.mem t1 (i1 va))) else none) ≡ some frame) gone
              e)
      ]

module _ (upper : ℕ → Bool) (virtaddr flags : ℕ) (small : flags < 4096) where
  abbrev Mapped : Machine → ℕ → ℕ → ℕ → ℕ → Type 0
  Mapped m n i pa va =
      (m' : Machine) × (map_loop virtaddr flags n i pa va m ≡ some (to_int (i + n), m'))
      × (m'.page_alloc_bitmap ≡ m.page_alloc_bitmap)
      × SameTables upper m m'
      × Maps upper m pa va n m'

  -- A round that maps a page, and then the rounds after it.
  continued :
      (n : ℕ) (m : Machine) (i pa va t1 : ℕ)
      → Rooted upper m
      → Unshared upper m
      → Covered upper m va t1
      → walk m.mem m.cr3 va ≡ none
      → pa + suc n * 4096 ≤ 2 ^ 52
      → va + suc n * 4096 < 2 ^ 64
      → suc n ≤ 2 ^ 36
      → Mapped (poked m t1 (i1 va) (entry pa flags)) n (i + 1) (pa + 0x1000) (va + 0x1000)
      → Mapped m (suc n) i pa va
  continued n m i pa va t1 root unshared c here hp hv hn (m', runs, bitmap, tables, maps) =
      let pa_next : (pa + 0x1000) % 2 ^ 64 ≡ pa + 0x1000 = omega arith in
      let va_next : (va + 0x1000) % 2 ^ 64 ≡ va + 0x1000 = omega arith in
      let count : i + 1 + n ≡ i + suc n = omega arith in
      (
        m',
        map_loop-step upper m root va t1 c virtaddr flags n i pa here
            ∙ rw (pa_next, va_next) (runs ∙ ap (λ k. some (to_int k, m')) count),
        bitmap,
        SameTables-poked upper m m' t1 (i1 va) (entry pa flags) root c.leaf tables,
        λ vb t d.
            maps vb t (poked-Covered upper m root t1 (i1 va) (entry pa flags) c.leaf vb t d)
            ∙ rw
                (
                  walk-poked upper m va vb t1 t (entry pa flags) root unshared c d,
                  present-entry (bit_and pa (complement 0xfff)) flags,
                  frame_of-page pa flags (omega arith) small,
                )
                (range_step pa va vb n (walk m.mem m.cr3 vb) hn),
      )

  map_loop-Maps :
      (n : ℕ) (m : Machine) (i pa va : ℕ)
      → Rooted upper m
      → Unshared upper m
      → RangeCovered upper m va n
      → ((j : ℕ) → j < n → walk m.mem m.cr3 (va + j * 4096) ≡ none)
      → pa + n * 4096 ≤ 2 ^ 52
      → va + n * 4096 < 2 ^ 64
      → n ≤ 2 ^ 36
      → Mapped m n i pa va
  unfolding map_loop
  map_loop-Maps zero m i pa va root unshared covered free hp hv hn = (
    m,
    ap (λ t. some (to_int t, m)) (omega arith),
    refl,
    record { rooted = root; kept = λ vb t c. c; back = λ vb t c. c },
    λ vb t c. let past : ltb (offset va vb) 0 ≡ false = ground arith in rw past refl,
  )
  map_loop-Maps (suc n) m i pa va root unshared covered free hp hv hn =
      let (t1, c) = first-Covered upper m va n covered in
      let here : walk m.mem m.cr3 va ≡ none =
        subst (λ v. walk m.mem m.cr3 v ≡ none) (omega arith) (free 0 (omega arith)) in
      let value : ℕ = entry pa flags in
      continued n m i pa va t1 root unshared c here hp hv hn (
        map_loop-Maps n (poked m t1 (i1 va) value) (i + 1) (pa + 0x1000) (va + 0x1000)
          (poked-Rooted upper m root t1 (i1 va) value c.leaf)
          (poked-Unshared upper m root t1 (i1 va) value c.leaf unshared)
          (next-RangeCovered upper m root t1 (i1 va) value c.leaf va n covered)
          (λ j h.
            next_walk upper m va t1 value n root unshared c covered hn j h
            ∙ free (j + 1) (omega arith))
          (omega arith) (omega arith) (omega arith))

-- `map_page_range` of n pages that have their tables and are not mapped returns n; afterwards they
-- lead to the frames from that of `physaddr`, in order, and every other page that has its tables
-- leads where it led. No frame is taken for a table, and the
-- tables stay the same. The machine has the recursive slot, no leaf
-- table serves two regions or is an upper table, and the flags lie in the low 12 bits.
pub map_page_range-Maps :
    (upper : ℕ → Bool) (m : Machine) (physaddr virtaddr flags n : ℕ)
    → Rooted upper m
    → Unshared upper m
    → RangeCovered upper m virtaddr n
    → ((j : ℕ) → j < n → walk m.mem m.cr3 (virtaddr + j * 4096) ≡ none)
    → flags < 4096
    → physaddr + n * 4096 ≤ 2 ^ 52
    → virtaddr + n * 4096 < 2 ^ 64
    → n < 2 ^ 31
    → (m' : Machine) × (map_page_range physaddr virtaddr flags n m ≡ some (pos n, m'))
      × (m'.page_alloc_bitmap ≡ m.page_alloc_bitmap)
      × SameTables upper m m'
      × Maps upper m physaddr virtaddr n m'
unfolding map_page_range
map_page_range-Maps upper m physaddr virtaddr flags n root unshared covered free small hp hv hn =
    let (m', runs, bitmap, tables, maps) =
      map_loop-Maps upper virtaddr flags small n m 0 physaddr virtaddr root unshared covered free hp
        hv (omega arith) in
    let count : to_int (0 + n) ≡ pos n =
      rw (to_int_small (0 + n) (omega arith)) (ap pos (omega arith)) in
    (m', runs ∙ ap (λ k. some (k, m')) count, bitmap, tables, maps)

-- A page that is mapped already: `map_page` returns -MAP_ERR_EXIST and changes nothing.
pub map_page-exists :
    (upper : ℕ → Bool) (m : Machine) (physaddr virtaddr flags t1 frame : ℕ)
    → Rooted upper m
    → Covered upper m virtaddr t1
    → walk m.mem m.cr3 virtaddr ≡ some frame
    → map_page_range physaddr virtaddr flags 1 m ≡ some (negsuc 16, m)
unfolding map_page_range unmap_page_range unmap_loop map_loop
map_page-exists upper m physaddr virtaddr flags t1 frame root c taken =
    map_loop-mapped upper m root virtaddr t1 c virtaddr flags 0 0 physaddr frame taken
