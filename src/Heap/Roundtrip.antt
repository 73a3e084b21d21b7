-- ===== src/Heap/Roundtrip.antt =====
-- `kmalloc` and then `kfree` of its result; and `kfree` of an address that was not allocated.
use native.Mathlib.Nat.{one-le-pow}
use rayos.Base.{
  ℕ, ◌+◌, ◌-◌, ◌*◌, ◌/◌, ◌^◌, ◌≤◌, ◌<◌, ◌≡◌, ◌≢◌, refl, arith, Bool, true, none, some, inl, inr,
  ltb, ◌∙◌, ap, sym, subst, List, ◌∷◌, pos, negsuc,
}
use rayos.Bitmap.{test, free_range}
use rayos.Bitmap.Range.{test-free_range}
use rayos.Mempool.{pool_free, null}
use rayos.Mempool.Slots.{has}
use rayos.Mempool.Laws.{Holds, pool_alloc-pool_free}
use rayos.Page.{
  Machine, walk, get_physaddr, free_pages, unmap_page_range, order_to_pages, ◌>>=◌, ◌>>◌,
}
use rayos.Page.Order.{size_to_order}
use rayos.Page.Tables.{Covered, SameTables}
use rayos.Page.Range.{offset}
use rayos.Page.Unmap.{Unmaps, unmap_page_range-Unmaps}
use rayos.Page.Roundtrip.{all_mapped, restored}
use rayos.Heap.{Heap, VmapArea, find_vmap_area, list_del_area, kmalloc, kfree_pages, kfree}
use rayos.Heap.Alloc.{Sound, Mapped, same-Covered, same-Rooted}
use rayos.Heap.Kmalloc.{area, Allocated, kmalloc-Outcome}
use rayos.Heap.Kfree.{
  Narrow, Recorded, get_physaddr-Narrow, size_to_order-pages, find-last, del-last,
}

module _ (upper : ℕ → Bool) (m m1 : Machine) (order va object : ℕ) (s : Sound upper m)
    (a : Mapped upper m m1 (2 ^ order) va) (narrow : Narrow upper m1) where
  n : ℕ
  n = 2 ^ order

  f : ℕ
  f = a.frame

  -- The machine once the frames are given back.
  m2 : Machine
  m2 = record m1 { page_alloc_bitmap = free_range m1.page_alloc_bitmap f (2 ^ order) }

  some_pages : 1 ≤ 2 ^ order
  some_pages = one-le-pow order 2 (omega arith)

  home-Covered : (j : ℕ) → j < 2 ^ order → (t : ℕ) × Covered upper m (va + j * 4096) t
  unfolding f
  home-Covered j h =
      let (t, c) = s.covered (a.frame + j) (omega (arith, a.room.0)) in
      (t, subst (λ v. Covered upper m v t) (omega (arith, a.at)) c)

  mapped_walk : (t : ℕ) → Covered upper m va t → walk m1.mem m1.cr3 va ≡ some a.frame
  unfolding f
  mapped_walk t c =
      let first : offset va va ≡ 0 = omega arith in
      let inside : ltb 0 (2 ^ order) ≡ true = ground (arith, some_pages) in
      a.maps va t c ∙ rw (first, inside) (ap some (omega arith))

  physical : get_physaddr va m1 ≡ some (a.frame * 4096, m1)
  physical =
      let (t, c) = home-Covered 0 (omega (arith, some_pages)) in
      let c0 : Covered upper m va t = subst (λ v. Covered upper m v t) (omega arith) c in
      get_physaddr-Narrow upper m1 va t a.frame a.sound.rooted narrow (a.tables.kept va t c0)
        (mapped_walk t c0)
      ∙ ap (λ p. some (p, m1)) (omega (arith, a.at))

  freed : free_pages (a.frame * 4096) order m1 ≡ some (tt, m2)
  unfolding free_pages m2 f
  freed =
      let frame : a.frame * 4096 / 2 ^ 12 ≡ a.frame = omega arith in
      let count : order_to_pages order ≡ 2 ^ order = omega (arith, a.room.0, s.valid.small) in
      rw (frame, count) refl

  tests : (k : ℕ) → test m2.page_alloc_bitmap k ≡ test m.page_alloc_bitmap k
  unfolding m2 f
  tests k =
      rw
        (
          test-free_range m1.page_alloc_bitmap a.frame (2 ^ order) k
              (omega (arith, a.room.0, s.valid.small)),
          a.used k,
        )
        (ground (arith, a.room.1 k))

  was_free : (j : ℕ) → j < 2 ^ order → walk m.mem m.cr3 (va + j * 4096) ≡ none
  was_free j h =
      subst (λ v. walk m.mem m.cr3 v ≡ none) (omega (arith, a.at))
        (s.unmapped (a.frame + j) (omega (arith, a.room.0))
          (a.room.1 (a.frame + j) (omega arith) (omega arith)))

  -- What the two calls undo: the frames, and where the pages lead.
  abbrev pub Undone : Machine → Type 0
  Undone m' =
      ((k : ℕ) → test m'.page_alloc_bitmap k ≡ test m.page_alloc_bitmap k)
      × ((vb t : ℕ) → Covered upper m vb t → walk m'.mem m'.cr3 vb ≡ walk m.mem m.cr3 vb)

  unmapped :
      (m' : Machine) × (unmap_page_range va (2 ^ order) m2 ≡ some (pos (2 ^ order), m')) × Undone m'
  unfolding m2 f
  unmapped =
      let hv : va + 2 ^ order * 4096 < 2 ^ 64 = omega (arith, a.at, a.room.0, s.valid.small) in
      let hn : 2 ^ order < 2 ^ 31 = omega (arith, a.room.0, s.valid.small) in
      let kept : (vb t : ℕ) → Covered upper m vb t → Covered upper m2 vb t =
        λ vb t c. same-Covered upper m1 m2 refl refl vb t (a.tables.kept vb t c) in
      let back : (vb t : ℕ) → Covered upper m2 vb t → Covered upper m1 vb t =
        same-Covered upper m2 m1 refl refl in
      let tables : SameTables upper m m2 = record {
        rooted = same-Rooted upper m1 m2 refl refl a.sound.rooted;
        kept = kept;
        back = λ vb t c. a.tables.back vb t (back vb t c);
      } in
      let (k, m3, runs, bitmap, prefix, unmaps) =
        unmap_page_range-Unmaps upper m2 va (2 ^ order) tables.rooted
          (λ vb vc t c d. a.sound.unshared vb vc t (back vb t c) (back vc t d))
          (λ j h. let (t, c) = home-Covered j h in (t, kept _ t c)) hv hn in
      let all : k ≡ 2 ^ order =
        all_mapped upper m va (2 ^ order) hv hn m2 (a.frame * 4096) k home-Covered a.maps prefix in
      (
        m3,
        runs ∙ ap (λ r. some (pos r, m3)) all,
        (
          λ i. ap (λ b. test b i) bitmap ∙ tests i,
          restored upper m va (2 ^ order) hv hn m2 m3 (a.frame * 4096) was_free tables a.maps
              (subst (λ r. Unmaps upper m2 va r m3) all unmaps),
        ),
      )

  pub kfree_pages-Undone :
      (m' : Machine) × (kfree_pages va (area object va (2 ^ order)) m1 ≡ some (tt, m')) × Undone m'
  unfolding kfree_pages
  kfree_pages-Undone =
      let (m', runs, undone) = unmapped in
      (
        m',
        rw
            (
              size_to_order-pages order (omega (arith, a.room.0, s.valid.small)),
              kfree_pages,
              ◌>>=◌,
              ◌>>◌,
              physical,
              freed,
              runs,
            )
            refl,
        undone,
      )

-- The heap h'' is h again: the same frames are in use, the pages lead where they led, the areas and the pool's free
-- objects are those of h, and the lock is free.
pub record Restored (upper : ℕ → Bool) (h h'' : Heap) (free : List ℕ) : Type 0 where
  pub frames : (k : ℕ) → test h''.machine.page_alloc_bitmap k ≡ test h.machine.page_alloc_bitmap k
  pub pages :
      (vb t : ℕ)
      → Covered upper h.machine vb t
      → walk h''.machine.mem h''.machine.cr3 vb ≡ walk h.machine.mem h.machine.cr3 vb
  pub areas : h''.vmap_area_list ≡ h.vmap_area_list
  pub holds : Holds h''.links h''.vmap_area_pool free
  pub unlocked : h''.mm_spinlock ≡ 0

kfree-Allocated :
    (upper : ℕ → Bool) (h h' : Heap) (free : List ℕ) (order va : ℕ)
    → Sound upper h.machine
    → Holds h.links h.vmap_area_pool free
    → Recorded h.machine free h.vmap_area_list
    → Allocated upper h h' free (2 ^ order) va
    → Narrow upper h'.machine
    → (h'' : Heap) × (kfree va h' ≡ some (pos 0, h'')) × Restored upper h h'' free
unfolding kfree
kfree-Allocated upper h h' free order va s holds recorded a narrow =
    let (m', runs, (tests, walks)) =
      kfree_pages-Undone upper h.machine h'.machine order va a.object s a.mapped narrow in
    let vm : VmapArea = area a.object va (2 ^ order) in
    let f : ℕ = a.mapped.frame in
    let some_pages : 1 ≤ 2 ^ order = one-le-pow order 2 (omega arith) in
    let found : find_vmap_area va h'.vmap_area_list ≡ some vm = rw a.listed (
      find-last va a.object (2 ^ order) h.machine free h.vmap_area_list f a.mapped.at
        (a.mapped.room.1 f (omega arith) (omega arith)) recorded) in
    let on : has a.object free ≡ true = rw a.first (ground arith) in
    let gone : list_del_area a.object h'.vmap_area_list ≡ h.vmap_area_list =
      rw a.listed (del-last va a.object (2 ^ order) h.machine free h.vmap_area_list on recorded) in
    let first : Holds h.links h.vmap_area_pool (a.object ∷ a.rest) =
      subst (Holds h.links h.vmap_area_pool) a.first holds in
    let (back, count, again) =
      pool_alloc-pool_free h'.links h'.vmap_area_pool a.object a.rest a.holds first.chain.1
        first.chain.2 (omega (arith, a.counted)) in
    (
      record h' {
        machine = m';
        links = (pool_free h'.links h'.vmap_area_pool a.object).0;
        vmap_area_pool = (pool_free h'.links h'.vmap_area_pool a.object).1;
        vmap_area_list = list_del_area a.object h'.vmap_area_list;
        mm_spinlock = 0;
      },
      rw (a.unlocked, found, kfree, runs) refl,
      record {
        frames = tests;
        pages = walks;
        areas = gone;
        holds = rw a.first back;
        unlocked = refl;
      },
    )

-- Where no page table has to be made, since the tables down to the leaf exist for the home of every
-- frame of the bitmap and the home of a frame that is not in use is not mapped (Sound): when `kmalloc`
-- of a size does not fail, `kfree` of its result returns 0 with the lock free, the same frames are in
-- use as before the two calls, every page that has its tables leads where it led, and the list of
-- areas and the pool's free objects are those of before. The size is 1 to 2^64 - 4096 bytes, the
-- lock was free, and the bitmap has at least 2^order bits; each area of before starts at the home of a
-- frame in use and has an object that is not free; and after the `kmalloc` the leaf entries have clear
-- bits 52 to 63.
pub kfree-kmalloc :
    (upper : ℕ → Bool) (h h' : Heap) (size : ℕ) (free : List ℕ) (va : ℕ)
    → Sound upper h.machine
    → Holds h.links h.vmap_area_pool free
    → Recorded h.machine free h.vmap_area_list
    → h.mm_spinlock ≡ 0
    → 0 < size
    → size ≤ 2 ^ 64 - 4096
    → ((order : ℕ) → size_to_order size ≡ some order → 2 ^ order ≤ h.machine.page_alloc_bitmap.size)
    → kmalloc size h ≡ some (va, h')
    → va ≢ null
    → Narrow upper h'.machine
    → (h'' : Heap) × (kfree va h' ≡ some (pos 0, h'')) × Restored upper h h'' free
kfree-kmalloc upper h h' size free va s holds recorded unlocked more small fits runs ok narrow =
    let (order, enough, least, v, h1, runs1, result) =
      kmalloc-Outcome upper h size free s holds unlocked more small fits in
    let same_va : v ≡ va = cc (runs, runs1) in
    let same_h : h1 ≡ h' = cc (runs, runs1) in
    elim result [
      | inl a ↦
          kfree-Allocated upper h h' free order va s holds recorded
            (subst (λ x. Allocated upper h x free (2 ^ order) va) same_h
              (subst (λ x. Allocated upper h h1 free (2 ^ order) x) same_va a))
            narrow
      | inr (inl failed) ↦ absurd (ok (sym same_va ∙ failed.failed))
      | inr (inr failed) ↦ absurd (ok (sym same_va ∙ failed.failed))
    ]

-- `kfree` of an address at which no area starts returns -1 and keeps the lock, so a call after it
-- does not return.
pub kfree-unknown :
    (h : Heap) (va next : ℕ)
    → h.mm_spinlock ≡ 0
    → find_vmap_area va h.vmap_area_list ≡ none
    → (kfree va h ≡ some (negsuc 0, record h { mm_spinlock = 1 }))
      × (kfree next (record h { mm_spinlock = 1 }) ≡ none)
unfolding kfree
kfree-unknown h va next unlocked missing = (rw (unlocked, missing, kfree) refl, refl)
