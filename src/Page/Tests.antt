-- ===== src/Page/Tests.antt =====
-- A machine with four tables, in the frames 1 to 4, of which the leaf table maps one page, and the
-- theorems of the page code at it.
use rayos.Base.{
  ℕ, zero, suc, ◌+◌, ◌*◌, ◌/◌, ◌%◌, ◌^◌, ◌≤◌, ◌<◌, ◌≡◌, ◌⊎◌, refl, arith, Bool, true, false, Option,
  none, some, ◌==◌, leb, if◌then◌else◌, sym, ◌∙◌, pos,
}
use rayos.Bitmap.{
  Bitmap, test, alloc_range, find_first_zero, find_first, scan, scan_word, alloc_from, all_clear,
}
use rayos.Bitmap.Bit.{IsValid}
use rayos.Page.{
  Machine, child, walk, load, get_physaddr, not_mapped, with_leaf, if_present, map_page_range,
  unmap_page_range, alloc_pages, free_pages, ◌>>=◌,
}
use rayos.Page.Address.{index_at_lem}
use rayos.Page.Access.{i4, i3, i2}
use rayos.Page.Translate.{get_physaddr-walk}
use rayos.Page.Tables.{Rooted, Covered, Unshared, SameTables, vpn}
use rayos.Page.Range.{RangeCovered, Maps}
use rayos.Page.Map.{map_page_range-Maps}
use rayos.Page.Unmap.{MappedPrefix, Unmaps, unmap_page_range-Unmaps}
use rayos.Page.Roundtrip.{unmap_page_range-map_page_range}
use rayos.Page.Frames.{Taken, Full, alloc_pages-Outcome, free_pages-alloc_pages}
use rayos.Page.Order.{size_to_order, size_to_order-least}
use rayos.Page.Setup.{align_up, align_up-least}

abbrev memory : ℕ → ℕ → ℕ
memory f w =
    if f == 1
    then (if w == 511 then 0x1003 else (if w == 0 then 0x2003 else 0))
    else (if f == 2
        then (if w == 0 then 0x3003 else 0)
        else (if f == 3
            then (if w == 0 then 0x4003 else 0)
            else (if f == 4 then (if w == 7 then 0x5003 else 0) else 0)))

abbrev frames : Bitmap
frames = record { size = 16; map = λ i. 0x3f }

abbrev machine : Machine
machine = record { mem = memory; cr3 = 1; page_alloc_bitmap = frames }

abbrev upper : ℕ → Bool
upper f = leb f 3

-- Where the present entries of the four tables point.
abbrev edge : ℕ → ℕ → Option ℕ
edge f w =
    if f == 1
    then (if w == 511 then some 1 else (if w == 0 then some 2 else none))
    else (if f == 2
        then (if w == 0 then some 3 else none)
        else (if f == 3
            then (if w == 0 then some 4 else none)
            else (if f == 4 then (if w == 7 then some 5 else none) else none)))

child-edge : (f w : ℕ) → child memory f w ≡ edge f w
unfolding child
child-edge f w = ground arith

machine-Rooted : Rooted upper machine
unfolding child
machine-Rooted = record { recursive = refl; top = refl }

machine-Covered : (va : ℕ) → va < 2 ^ 21 → Covered upper machine va 4
unfolding child
machine-Covered va h =
    let four : i4 va ≡ 0 = omega (arith, index_at_lem 39 va) in
    let three : i3 va ≡ 0 = omega (arith, index_at_lem 30 va) in
    let two : i2 va ≡ 0 = omega (arith, index_at_lem 21 va) in
    record {
      t3 = 2;
      t2 = 3;
      path = record { e3 = rw four refl; e2 = rw three refl; e1 = rw two refl };
      upper3 = refl;
      upper2 = refl;
      leaf = refl;
    }

-- A present entry that leads to a leaf table, or to the last two upper ones.
to_leaf : (f w t : ℕ) → leb f 3 ≡ true → leb t 3 ≡ false → edge f w ≡ some t → (f ≡ 3) × (w ≡ 0)
to_leaf f w t hf ht e = ground arith

to_last : (f w t : ℕ) → leb f 3 ≡ true → t ≡ 3 → edge f w ≡ some t → (f ≡ 2) × (w ≡ 0)
to_last f w t hf ht e = ground arith

to_middle : (w t : ℕ) → t ≡ 2 → edge 1 w ≡ some t → w ≡ 0
to_middle w t ht e = ground arith

-- The only leaf table is that of the first 512 pages.
first_region : (va t : ℕ) → Covered upper machine va t → vpn va / 512 ≡ 0
first_region va t c =
    let (last, two) =
      to_leaf c.t2 (i2 va) t c.upper2 c.leaf (sym (child-edge c.t2 (i2 va)) ∙ c.path.e1) in
    let (middle, three) =
      to_last c.t3 (i3 va) c.t2 c.upper3 last (sym (child-edge c.t3 (i3 va)) ∙ c.path.e2) in
    let four : i4 va ≡ 0 = to_middle (i4 va) c.t3 middle (sym (child-edge 1 (i4 va)) ∙ c.path.e3) in
    omega (arith, index_at_lem 39 va, index_at_lem 30 va, index_at_lem 21 va)

machine-Unshared : Unshared upper machine
machine-Unshared va vb t c d = omega (arith, first_region va t c, first_region vb t d)

sized : (f w : ℕ) → memory f w < 2 ^ 64
sized f w = ground arith

frames-IsValid : IsValid frames
frames-IsValid = record { small = omega arith; word = λ i. omega arith }

-- The address of word 2 of the page that is mapped.
translates : get_physaddr 0x7010 machine ≡ some (0x5010, machine)
unfolding get_physaddr with_leaf if_present load walk child
translates = refl

faults : get_physaddr 0x8010 machine ≡ some (not_mapped, machine)
unfolding get_physaddr with_leaf if_present load walk child
faults = refl

get_physaddr-walk_example :
    ((walk memory 1 0x7010 ≡ none) × (get_physaddr 0x7010 machine ≡ some (not_mapped, machine)))
    ⊎ ((frame high : ℕ) × (walk memory 1 0x7010 ≡ some frame)
        × (frame < 2 ^ 40)
        × (get_physaddr 0x7010 machine
            ≡ some (high * 2 ^ 52 + frame * 4096 + 0x7010 % 4096, machine)))
get_physaddr-walk_example = get_physaddr-walk machine 0x7010 machine-Rooted.recursive sized

-- Pages 8 and 9 have their tables and are not mapped.
pages : RangeCovered upper machine 0x8000 2
pages j h = (4, machine-Covered (0x8000 + j * 4096) (omega arith))

pages_free : (j : ℕ) → j < 2 → walk memory 1 (0x8000 + j * 4096) ≡ none
unfolding walk child
pages_free zero h = refl
pages_free (suc zero) h = refl
pages_free (suc (suc j)) h = absurd (omega arith)

map_page_range_example :
    (m' : Machine) × (map_page_range 0xa000 0x8000 3 2 machine ≡ some (pos 2, m'))
    × (m'.page_alloc_bitmap ≡ frames)
    × SameTables upper machine m'
    × Maps upper machine 0xa000 0x8000 2 m'
map_page_range_example =
    map_page_range-Maps upper machine 0xa000 0x8000 3 2 machine-Rooted machine-Unshared pages
      pages_free (omega arith) (omega arith) (omega arith) (omega arith)

-- The pages 7 and 8: the first one is mapped.
first_pages : RangeCovered upper machine 0x7000 2
first_pages j h = (4, machine-Covered (0x7000 + j * 4096) (omega arith))

unmap_page_range_example :
    (k : ℕ) × (m' : Machine) × (unmap_page_range 0x7000 2 machine ≡ some (pos k, m'))
    × (m'.page_alloc_bitmap ≡ frames)
    × MappedPrefix upper machine 0x7000 2 k
    × Unmaps upper machine 0x7000 k m'
unmap_page_range_example =
    unmap_page_range-Unmaps upper machine 0x7000 2 machine-Rooted machine-Unshared first_pages
      (omega arith) (omega arith)

map_unmap_example :
    (m' : Machine) × ((map_page_range 0xa000 0x8000 3 2 >>= λ _. unmap_page_range 0x8000 2) machine
      ≡ some (pos 2, m'))
    × ((vb t : ℕ) → Covered upper machine vb t → walk m'.mem m'.cr3 vb ≡ walk memory 1 vb)
map_unmap_example =
    unmap_page_range-map_page_range upper machine 0xa000 0x8000 3 2 machine-Rooted machine-Unshared
      pages pages_free (omega arith) (omega arith) (omega arith) (omega arith)

alloc_pages_example :
    (address : ℕ) × (m' : Machine) × (alloc_pages 1 machine ≡ some (address, m'))
    × (Taken machine m' 2 address ⊎ Full machine m' 2 address)
alloc_pages_example = alloc_pages-Outcome machine 1 frames-IsValid (omega arith)

size_to_order_example :
    (order : ℕ) × (size_to_order 8193 ≡ some order)
    × (8193 ≤ 2 ^ order * 4096)
    × ((k : ℕ) → 8193 ≤ 2 ^ k * 4096 → order ≤ k)
size_to_order_example = size_to_order-least 8193 (omega arith) (omega arith)

align_up_example : align_up 0x3000 (2 ^ 12) ≡ (0x3000 / 2 ^ 12 + 1) * 2 ^ 12
align_up_example = align_up-least 0x3000 12 (omega arith) (omega arith)

-- The machine after two frames are taken.
abbrev taken : Machine
taken = record machine { page_alloc_bitmap = (alloc_range frames 2 6).1 }

takes : alloc_pages 1 machine ≡ some (0x6000, taken)
unfolding alloc_pages find_first_zero find_first scan scan_word alloc_range alloc_from all_clear
    test
takes = refl

free_pages_example :
    (m'' : Machine) × (free_pages 0x6000 1 taken ≡ some (tt, m''))
    × ((k : ℕ) → test m''.page_alloc_bitmap k ≡ test frames k)
free_pages_example =
    free_pages-alloc_pages machine taken 1 0x6000 frames-IsValid (omega arith) takes
      (λ e. omega arith)
