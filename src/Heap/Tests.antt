-- ===== src/Heap/Tests.antt =====
-- A heap over sixteen frames of which six are in use, with its page tables in the frames 1 to 4 and
-- a pool of two free objects, and the theorems of the heap at it.
use rayos.Base.{
  ℕ, ◌*◌, ◌/◌, ◌^◌, ◌≤◌, ◌<◌, ◌≡◌, ◌⊎◌, refl, arith, Bool, true, false, Option, none, some, ◌==◌,
  leb, if◌then◌else◌, sym, ◌∙◌, [], ◌∷◌, pos,
}
use rayos.Bitmap.{
  Bitmap, test, alloc_range, find_first_zero, find_first, scan, scan_word, alloc_from, all_clear,
  set_bits,
}
use rayos.Mempool.{MemPool, pool_alloc}
use rayos.Mempool.Laws.{Holds}
use rayos.Page.{
  Machine, child, walk, load, store, poke, alloc_pages, map_page_range, map_loop, ensure_table,
  store_leaf,
}
use rayos.Page.Address.{index_at_lem}
use rayos.Page.Access.{i4, i3, i2, i1}
use rayos.Page.Order.{size_to_order, fls}
use rayos.Page.Tables.{Rooted, Covered, vpn, walk-Covered}
use rayos.Heap.{
  Heap, VmapArea, kmalloc, kmalloc_pages, kmalloc_record, kmem_map, vmap_area_alloc, kfree,
  find_vmap_area,
}
use rayos.Heap.Alloc.{home, Sound}
use rayos.Heap.Kmalloc.{Allocated, NoFrames, NoArea, kmalloc-Outcome}
use rayos.Heap.Kfree.{Narrow, Recorded}
use rayos.Heap.Roundtrip.{Restored, kfree-kmalloc}

abbrev memory : ℕ → ℕ → ℕ
memory f w =
    if f == 1
    then (if w == 511 then 0x1003 else (if w == 288 then 0x2003 else 0))
    else (if f == 2
        then (if w == 0 then 0x3003 else 0)
        else (if f == 3 then (if w == 0 then 0x4003 else 0) else 0))

abbrev frames : Bitmap
frames = record { size = 16; map = λ i. 0x3f }

abbrev machine : Machine
machine = record { mem = memory; cr3 = 1; page_alloc_bitmap = frames }

abbrev links : ℕ → ℕ
links k = if k == 100 then 180 else 0

abbrev pool : MemPool
pool = record { free_list = 100; obj_size = 40; total = 3; used = 1 }

-- The pages of the pool itself are not recorded; the one area is that of frame 5.
abbrev first_area : VmapArea
first_area = record {
  object = 140;
  va_start = 0xffff900000005000;
  va_end = 0xffff900000006000;
  va_nrpages = 1;
}

abbrev heap : Heap
heap = record {
  machine = machine;
  links = links;
  bytes = λ a. 7;
  vmap_area_pool = pool;
  vmap_area_list = first_area ∷ [];
  mm_spinlock = 0;
}

abbrev upper : ℕ → Bool
upper f = leb f 3

-- Where the present entries of the tables point.
abbrev edge : ℕ → ℕ → Option ℕ
edge f w =
    if f == 1
    then (if w == 511 then some 1 else (if w == 288 then some 2 else none))
    else (if f == 2
        then (if w == 0 then some 3 else none)
        else (if f == 3 then (if w == 0 then some 4 else none) else none))

child-edge : (f w : ℕ) → child memory f w ≡ edge f w
unfolding child
child-edge f w = ground arith

machine-Rooted : Rooted upper machine
unfolding child
machine-Rooted = record { recursive = refl; top = refl }

home-Covered : (k : ℕ) → k < 16 → Covered upper machine (home k) 4
unfolding child
home-Covered k h =
    let four : i4 (home k) ≡ 288 = omega (arith, index_at_lem 39 (home k)) in
    let three : i3 (home k) ≡ 0 = omega (arith, index_at_lem 30 (home k)) in
    let two : i2 (home k) ≡ 0 = omega (arith, index_at_lem 21 (home k)) in
    record {
      t3 = 2;
      t2 = 3;
      path = record { e3 = rw four refl; e2 = rw three refl; e1 = rw two refl };
      upper3 = refl;
      upper2 = refl;
      leaf = refl;
    }

to_leaf : (f w t : ℕ) → leb f 3 ≡ true → leb t 3 ≡ false → edge f w ≡ some t → (f ≡ 3) × (w ≡ 0)
to_leaf f w t hf ht e = ground arith

to_last : (f w t : ℕ) → leb f 3 ≡ true → t ≡ 3 → edge f w ≡ some t → (f ≡ 2) × (w ≡ 0)
to_last f w t hf ht e = ground arith

to_middle : (w t : ℕ) → t ≡ 2 → edge 1 w ≡ some t → w ≡ 288
to_middle w t ht e = ground arith

-- The only leaf table is that of the first pages of the heap.
one_region : (va t : ℕ) → Covered upper machine va t → vpn va / 512 ≡ 75497472
one_region va t c =
    let (last, two) =
      to_leaf c.t2 (i2 va) t c.upper2 c.leaf (sym (child-edge c.t2 (i2 va)) ∙ c.path.e1) in
    let (middle, three) =
      to_last c.t3 (i3 va) c.t2 c.upper3 last (sym (child-edge c.t3 (i3 va)) ∙ c.path.e2) in
    let four : i4 va ≡ 288 =
      to_middle (i4 va) c.t3 middle (sym (child-edge 1 (i4 va)) ∙ c.path.e3) in
    omega (arith, index_at_lem 39 va, index_at_lem 30 va, index_at_lem 21 va)

walk-home : (k : ℕ) → k < 16 → walk memory 1 (home k) ≡ none
walk-home k h =
    walk-Covered upper machine (home k) 4 machine-Rooted (home-Covered k h)
    ∙ child-edge 4 (i1 (home k))

machine-Sound : Sound upper machine
machine-Sound = record {
  rooted = machine-Rooted;
  unshared = λ va vb t c d. omega (arith, one_region va t c, one_region vb t d);
  valid = record { small = omega arith; word = λ i. omega arith };
  covered = λ k h. (4, home-Covered k h);
  unmapped = λ k h free. walk-home k h;
}

pool-Holds : Holds links pool (100 ∷ 180 ∷ [])
pool-Holds = record { chain = ground arith; counted = refl; small = omega arith }

one_page : (order : ℕ) → size_to_order 100 ≡ some order → 2 ^ order ≤ 16
unfolding size_to_order fls
one_page order e = let it : order ≡ 0 = cc e in rw it (omega arith)

kmalloc_example :
    (order : ℕ) × (100 ≤ 2 ^ order * 4096)
    × ((k : ℕ) → 100 ≤ 2 ^ k * 4096 → order ≤ k)
    × (va : ℕ) × (h' : Heap) × (kmalloc 100 heap ≡ some (va, h'))
    × (Allocated upper heap h' (100 ∷ 180 ∷ []) (2 ^ order) va
        ⊎ (NoFrames heap h' (2 ^ order) va ⊎ NoArea upper heap h' (100 ∷ 180 ∷ []) (2 ^ order) va))
kmalloc_example =
    kmalloc-Outcome upper heap 100 (100 ∷ 180 ∷ []) machine-Sound pool-Holds refl (omega arith)
      (omega arith) one_page

-- The heap after a `kmalloc` of 100 bytes: frame 6 is in use and mapped.
abbrev later : Heap
later = record heap {
  machine = record machine {
    mem = poke memory 4 6 0x6003;
    page_alloc_bitmap = (alloc_range frames 1 6).1;
  };
  vmap_area_pool = (pool_alloc links pool).1;
  vmap_area_list =
      first_area
      ∷ record {
        object = 100;
        va_start = 0xffff900000006000;
        va_end = 0xffff900000007000;
        va_nrpages = 1;
      }
      ∷ [];
}

kmalloc_run : kmalloc 100 heap ≡ some (0xffff900000006000, later)
unfolding kmalloc kmalloc_pages kmalloc_record kmem_map vmap_area_alloc size_to_order fls
    alloc_pages map_page_range map_loop ensure_table store_leaf load store walk child
    find_first_zero find_first scan scan_word alloc_range alloc_from all_clear set_bits test
    pool_alloc
kmalloc_run = refl

first-Recorded : Recorded machine (100 ∷ 180 ∷ []) (first_area ∷ [])
unfolding test
first-Recorded = ((5, refl, refl), refl, tt)

later-Narrow : Narrow upper later.machine
unfolding poke
later-Narrow va t c = ground arith

kfree-kmalloc_example :
    (h'' : Heap) × (kfree 0xffff900000006000 later ≡ some (pos 0, h''))
    × Restored upper heap h'' (100 ∷ 180 ∷ [])
kfree-kmalloc_example =
    kfree-kmalloc upper heap later 100 (100 ∷ 180 ∷ []) 0xffff900000006000 machine-Sound pool-Holds
      first-Recorded refl (omega arith) (omega arith) one_page kmalloc_run
      (λ e. absurd (omega arith)) later-Narrow

unknown : find_vmap_area 0x1000 (first_area ∷ []) ≡ none
unfolding find_vmap_area
unknown = refl
