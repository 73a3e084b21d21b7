-- ===== src/Heap/Kmalloc.antt =====
-- `kmalloc`: every way in which it returns.
use rayos.Base.{
  ℕ, ◌+◌, ◌-◌, ◌*◌, ◌%◌, ◌^◌, ◌≤◌, ◌<◌, ◌≡◌, ◌⊎◌, refl, arith, Bool, false, none, some, ◌==◌, inl,
  inr, ◌∙◌, ap, sym, subst, List, [], ◌∷◌, ◌++◌,
}
use rayos.Mempool.{pool_alloc}
use rayos.Mempool.Laws.{Holds, pool_alloc-Holds, pool_alloc-exhausted}
use rayos.Page.{Machine, order_to_pages, page_size}
use rayos.Page.Order.{size_to_order, size_to_order-least}
use rayos.Page.Frames.{RoomAt}
use rayos.Heap.{
  Heap, VmapArea, null, kmem_map, vmap_area_alloc, kmalloc_record, kmalloc_pages, kmalloc,
}
use rayos.Heap.Alloc.{Sound, Mapped, MapOutcome, kmem_map-Outcome}

-- The entry that records `n` pages from `va` on.
abbrev pub area : ℕ → ℕ → ℕ → VmapArea
area object va n = record { object = object; va_start = va; va_end = va + n * 4096; va_nrpages = n }

-- The call returns `va`, with the pages mapped, recorded and the lock free.
pub record Allocated (upper : ℕ → Bool) (h h' : Heap) (free : List ℕ) (count va : ℕ) : Type 0 where
  pub object : ℕ
  pub rest : List ℕ
  pub first : free ≡ object ∷ rest
  pub mapped : Mapped upper h.machine h'.machine count va
  pub holds : Holds h'.links h'.vmap_area_pool rest
  pub counted : h'.vmap_area_pool.used ≡ h.vmap_area_pool.used + 1
  pub listed : h'.vmap_area_list ≡ h.vmap_area_list ++ (area object va count ∷ [])
  pub unlocked : h'.mm_spinlock ≡ 0
  pub same_links : h'.links ≡ h.links
  pub same_bytes : h'.bytes ≡ h.bytes

-- There are not enough frames in a row: NULL is returned, and the lock stays held.
pub record NoFrames (h h' : Heap) (count va : ℕ) : Type 0 where
  pub failed : va ≡ null
  pub held : h' ≡ record h { mm_spinlock = 1 }
  pub no_room : (k : ℕ) → ¬ RoomAt h.machine.page_alloc_bitmap count k

-- The pool is empty: NULL is returned, with the pages mapped but not recorded and the lock held.
pub record NoArea (upper : ℕ → Bool) (h h' : Heap) (free : List ℕ) (count va : ℕ) : Type 0 where
  pub exhausted : free ≡ []
  pub failed : va ≡ null
  pub lost : ℕ
  pub mapped : Mapped upper h.machine h'.machine count lost
  pub listed : h'.vmap_area_list ≡ h.vmap_area_list
  pub held : h'.mm_spinlock ≡ 1

module _ (upper : ℕ → Bool) (h : Heap) (size order : ℕ) (free : List ℕ)
    (holds : Holds h.links h.vmap_area_pool free) (unlocked : h.mm_spinlock ≡ 0) (more : 0 < size)
    (s : Sound upper h.machine) (fits : 2 ^ order ≤ h.machine.page_alloc_bitmap.size)
    (pages : size_to_order size ≡ some order) where
  abbrev pub KmallocOutcome : Type 0
  KmallocOutcome =
      (va : ℕ) × (h' : Heap) × (kmalloc size h ≡ some (va, h'))
      × (Allocated upper h h' free (2 ^ order) va
          ⊎ (NoFrames h h' (2 ^ order) va ⊎ NoArea upper h h' free (2 ^ order) va))

  sized : (size == 0) ≡ false
  sized = ground arith

  count : order_to_pages order ≡ 2 ^ order
  count = omega (arith, s.valid.small)

  no_frames :
      (m : Machine)
      → kmem_map order h.machine ≡ some (0, m)
      → m ≡ h.machine
      → ((k : ℕ) → ¬ RoomAt h.machine.page_alloc_bitmap (2 ^ order) k)
      → KmallocOutcome
  unfolding kmalloc kmalloc_pages
  no_frames m runs same no_room = (
    null,
    record h { mm_spinlock = 1 },
    rw (unlocked, kmalloc, sized, pages, kmalloc_pages, runs, same) refl,
    inr (inl (record { failed = refl; held = refl; no_room = no_room })),
  )

  -- The pages are mapped: the rest of the call.
  recorded :
      (m : Machine) (va : ℕ)
      → kmem_map order h.machine ≡ some (va, m)
      → (va == 0) ≡ false
      → kmalloc size h
        ≡ kmalloc_record
            (vmap_area_alloc va (2 ^ order) (record h { machine = m; mm_spinlock = 1 }))
  unfolding kmalloc kmalloc_pages
  recorded m va runs there =
      rw (unlocked, kmalloc, sized, pages, kmalloc_pages, runs, there, count) refl

  with_area :
      (m : Machine) (va : ℕ) (all : List ℕ)
      → all ≡ free
      → kmem_map order h.machine ≡ some (va, m)
      → (va == 0) ≡ false
      → Mapped upper h.machine m (2 ^ order) va
      → KmallocOutcome
  unfolding kmalloc_record vmap_area_alloc
  with_area m va [] same runs there mapped =
      let empty : pool_alloc h.links h.vmap_area_pool ≡ (none, h.vmap_area_pool) =
        pool_alloc-exhausted h.links h.vmap_area_pool
          (subst (Holds h.links h.vmap_area_pool) (sym same) holds) in
      let h1 : Heap = record h { machine = m; mm_spinlock = 1 } in
      let none_left : vmap_area_alloc va (2 ^ order) h1 ≡ (none, h1) =
        rw (vmap_area_alloc, ap (λ p. p.0) empty, ap (λ p. p.1) empty) refl in
      (
        null,
        h1,
        recorded m va runs there ∙ ap kmalloc_record none_left,
        inr (
            inr (record {
              exhausted = sym same;
              failed = refl;
              lost = va;
              mapped = mapped;
              listed = refl;
              held = refl;
            })),
      )
  with_area m va (x ∷ rest) same runs there mapped =
      let (given, left, used) =
        pool_alloc-Holds h.links h.vmap_area_pool x rest
          (subst (Holds h.links h.vmap_area_pool) (sym same) holds) in
      let room = mapped.room.0 in
      let end : (va + 2 ^ order * page_size) % 2 ^ 64 ≡ va + 2 ^ order * 4096 =
        omega (arith, mapped.at, s.valid.small) in
      let h2 : Heap = record h {
        machine = m;
        vmap_area_pool = (pool_alloc h.links h.vmap_area_pool).1;
        vmap_area_list = h.vmap_area_list ++ (area x va (2 ^ order) ∷ []);
        mm_spinlock = 1;
      } in
      let one_given : vmap_area_alloc va (2 ^ order) (record h { machine = m; mm_spinlock = 1 })
          ≡ (some (area x va (2 ^ order)), h2) =
        rw (vmap_area_alloc, given, end) refl in
      (
        va,
        record h2 { mm_spinlock = 0 },
        recorded m va runs there ∙ ap kmalloc_record one_given,
        inl (record {
          object = x;
          rest = rest;
          first = sym same;
          mapped = mapped;
          holds = left;
          counted = used;
          listed = refl;
          unlocked = refl;
          same_links = refl;
          same_bytes = refl;
        }),
      )

  outcome : MapOutcome upper h.machine order s fits → KmallocOutcome
  outcome (va, m, runs, inl mapped) =
      with_area m va free refl runs (ground (arith, mapped.at)) mapped
  outcome (va, m, runs, inr (nothing, same, no_room)) =
      no_frames m (subst (λ a. kmem_map order h.machine ≡ some (a, m)) nothing runs) same no_room

-- `kmalloc` of 1 to 2^64 - 4096 bytes, with the lock free, where no page table has to be made: the tables
-- down to the leaf exist for the home of every frame of the bitmap, and the home of a frame that is
-- not in use is not mapped (Sound). The bitmap has at least 2^order bits. The call returns in one of
-- three ways. It takes the lowest 2^order frames in a row that are not in use, for the least order that
-- holds the size, maps them in order at their homes, records them at the end of the list and frees
-- the lock; every other page whose tables exist leads where it led, and the conditions on the tables
-- hold afterwards. Or there are no such frames, and it returns NULL with the lock held and all else as
-- it was. Or the pool has no object left, and it returns NULL with the lock held and the frames
-- mapped.
pub kmalloc-Outcome :
    (upper : ℕ → Bool) (h : Heap) (size : ℕ) (free : List ℕ)
    → Sound upper h.machine
    → Holds h.links h.vmap_area_pool free
    → h.mm_spinlock ≡ 0
    → 0 < size
    → size ≤ 2 ^ 64 - 4096
    → ((order : ℕ) → size_to_order size ≡ some order → 2 ^ order ≤ h.machine.page_alloc_bitmap.size)
    → (order : ℕ) × (size ≤ 2 ^ order * 4096)
      × ((k : ℕ) → size ≤ 2 ^ k * 4096 → order ≤ k)
      × (va : ℕ) × (h' : Heap) × (kmalloc size h ≡ some (va, h'))
      × (Allocated upper h h' free (2 ^ order) va
          ⊎ (NoFrames h h' (2 ^ order) va ⊎ NoArea upper h h' free (2 ^ order) va))
kmalloc-Outcome upper h size free s holds unlocked more small fits =
    let (order, pages, enough, least) = size_to_order-least size more small in
    let (va, h', runs, result) =
      outcome upper h size order free holds unlocked more s (fits order pages) pages
        (kmem_map-Outcome upper h.machine order s (fits order pages)) in
    (order, enough, least, va, h', runs, result)

-- A `kmalloc` that fails keeps the lock, so no call after it returns: `kmalloc` of size 0 returns
-- NULL, and then a `kmalloc` of any size waits without end.
pub kmalloc-kmalloc_zero :
    (h : Heap) (size : ℕ)
    → h.mm_spinlock ≡ 0
    → (kmalloc 0 h ≡ some (null, record h { mm_spinlock = 1 }))
      × (kmalloc size (record h { mm_spinlock = 1 }) ≡ none)
unfolding kmalloc
kmalloc-kmalloc_zero h size unlocked = (rw (unlocked, kmalloc) refl, refl)
