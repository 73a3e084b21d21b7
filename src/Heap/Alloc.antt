-- ===== src/Heap/Alloc.antt =====
-- `__kmem_map`: frames are taken and mapped at their homes.
use rayos.Base.{
  ℕ, ◌+◌, ◌*◌, ◌%◌, ◌^◌, ◌≤◌, ◌<◌, ◌≡◌, ◌⊎◌, refl, arith, Bool, true, false, none, some, ltb, leb,
  if◌then◌else◌, inl, inr, ◌∙◌, ap, sym, subst, pos,
}
use rayos.Bitmap.{Bitmap, test}
use rayos.Bitmap.Bit.{IsValid}
use rayos.Bitmap.Range.{within}
use rayos.Page.{Machine, walk, alloc_pages, map_page_range, order_to_pages, ◌>>=◌}
use rayos.Page.Frames.{RoomAt, Taken, Full, alloc_pages-Outcome}
use rayos.Page.Tables.{Rooted, Covered, Unshared, SameTables, SameTables-Unshared}
use rayos.Page.Range.{offset, Maps, RangeCovered}
use rayos.Page.Map.{map_page_range-Maps}
use rayos.Heap.{kmem_base, map_kern_rw, kmem_map}

-- Where the heap maps a frame.
abbrev pub home : ℕ → ℕ
home frame = kmem_base + frame * 4096

-- The page tables serve the heap: the homes of all frames have their tables, and those of the
-- frames that are not in use are not mapped.
pub record Sound (upper : ℕ → Bool) (m : Machine) : Type 0 where
  pub rooted : Rooted upper m
  pub unshared : Unshared upper m
  pub valid : IsValid m.page_alloc_bitmap
  pub covered : (k : ℕ) → k < m.page_alloc_bitmap.size → (t : ℕ) × Covered upper m (home k) t
  pub unmapped :
      (k : ℕ)
      → k < m.page_alloc_bitmap.size
      → test m.page_alloc_bitmap k ≡ false
      → walk m.mem m.cr3 (home k) ≡ none

-- The frames from `frame` on are taken, and lead from their homes; every other page leads where it
-- led.
pub record Mapped (upper : ℕ → Bool) (m m' : Machine) (count va : ℕ) : Type 0 where
  pub frame : ℕ
  pub at : va ≡ home frame
  pub room : RoomAt m.page_alloc_bitmap count frame
  pub lowest : (k : ℕ) → k < frame → ¬ RoomAt m.page_alloc_bitmap count k
  pub used :
      (k : ℕ)
      → test m'.page_alloc_bitmap k
        ≡ (if within frame (frame + count) k then true else test m.page_alloc_bitmap k)
  pub tables : SameTables upper m m'
  pub maps : Maps upper m (frame * 4096) va count m'
  pub sound : Sound upper m'

module _ (upper : ℕ → Bool) (m m1 : Machine) (memory : m1.mem ≡ m.mem)
    (table : m1.cr3 ≡ m.cr3) where
  pub same-Covered : (va t : ℕ) → Covered upper m va t → Covered upper m1 va t
  same-Covered va t c = record {
    t3 = c.t3;
    t2 = c.t2;
    path = record {
      e3 = rw (memory, table) c.path.e3;
      e2 = rw memory c.path.e2;
      e1 = rw memory c.path.e1;
    };
    upper3 = c.upper3;
    upper2 = c.upper2;
    leaf = c.leaf;
  }

  pub same-Rooted : Rooted upper m → Rooted upper m1
  same-Rooted r = record { recursive = rw (memory, table) r.recursive; top = rw table r.top }

module _ (upper : ℕ → Bool) (m m1 m2 : Machine) (memory : m1.mem ≡ m.mem)
    (table : m1.cr3 ≡ m.cr3) where
  same-SameTables : SameTables upper m1 m2 → SameTables upper m m2
  same-SameTables tables = record {
    rooted = tables.rooted;
    kept = λ va t c. tables.kept va t (same-Covered upper m m1 memory table va t c);
    back = λ va t c. same-Covered upper m1 m (sym memory) (sym table) va t (tables.back va t c);
  }

  same-Maps : (pa va n : ℕ) → Maps upper m1 pa va n m2 → Maps upper m pa va n m2
  same-Maps pa va n maps vb t c =
      maps vb t (same-Covered upper m m1 memory table vb t c) ∙ rw (memory, table) refl

module _ (upper : ℕ → Bool) (m : Machine) (order : ℕ) (s : Sound upper m)
    (fits : 2 ^ order ≤ m.page_alloc_bitmap.size) where
  count : order_to_pages order ≡ 2 ^ order
  count = omega (arith, s.valid.small)

  -- The tables after the frames are marked, and then mapped.
  mapped-Sound :
      (m1 m2 : Machine) (f : ℕ)
      → f + 2 ^ order ≤ m.page_alloc_bitmap.size
      → m1.page_alloc_bitmap.size ≡ m.page_alloc_bitmap.size
      → m2.page_alloc_bitmap ≡ m1.page_alloc_bitmap
      → IsValid m1.page_alloc_bitmap
      → ((k : ℕ)
          → test m1.page_alloc_bitmap k
            ≡ (if within f (f + 2 ^ order) k then true else test m.page_alloc_bitmap k))
      → SameTables upper m m2
      → Maps upper m (f * 4096) (home f) (2 ^ order) m2
      → Sound upper m2
  mapped-Sound m1 m2 f room size same valid used tables maps =
      let bound : (k : ℕ) → k < m2.page_alloc_bitmap.size → k < m.page_alloc_bitmap.size =
        λ k h. subst (λ b. k < b) (ap (λ (b : Bitmap). b.size) same ∙ size) h in
      record {
        rooted = tables.rooted;
        unshared = SameTables-Unshared upper m m2 tables s.unshared;
        valid = subst IsValid (sym same) valid;
        covered = λ k h. let (t, c) = s.covered k (bound k h) in (t, tables.kept (home k) t c);
        unmapped = λ k h free.
            let inside : k < m.page_alloc_bitmap.size = bound k h in
            let (t, c) = s.covered k inside in
            let free1 : (if within f (f + 2 ^ order) k then true else test m.page_alloc_bitmap k)
                ≡ false =
              sym (used k) ∙ ap (λ b. test b k) (sym same) ∙ free in
            let outside : ltb (offset (home f) (home k)) (2 ^ order) ≡ false =
              ground (arith, s.valid.small) in
            maps (home k) t c ∙ rw outside (s.unmapped k inside (ground arith));
      }

  abbrev pub MapOutcome : Type 0
  MapOutcome =
      (va : ℕ) × (m' : Machine) × (kmem_map order m ≡ some (va, m'))
      × (Mapped upper m m' (2 ^ order) va
          ⊎ ((va ≡ 0) × (m' ≡ m) × ((k : ℕ) → ¬ RoomAt m.page_alloc_bitmap (2 ^ order) k)))

  full :
      (m1 : Machine) (pa : ℕ)
      → alloc_pages order m ≡ some (pa, m1)
      → Full m m1 (2 ^ order) pa
      → MapOutcome
  unfolding kmem_map
  full m1 pa runs f =
      let failed : leb (2 ^ 63) pa ≡ true = ground (arith, f.failed) in
      (0, m1, rw (runs, kmem_map, ◌>>=◌, failed) refl, inr (refl, f.unchanged, f.no_room))

  home_lem : (f j : ℕ) → home f + j * 4096 ≡ home (f + j)
  home_lem f j = omega arith

  mapped_run :
      (m1 m2 : Machine) (f : ℕ)
      → f + 2 ^ order ≤ m.page_alloc_bitmap.size
      → alloc_pages order m ≡ some (f * 4096, m1)
      → map_page_range (f * 4096) (home f) map_kern_rw (2 ^ order) m1 ≡ some (pos (2 ^ order), m2)
      → kmem_map order m ≡ some (home f, m2)
  unfolding kmem_map
  mapped_run m1 m2 f room runs mapped =
      let low : leb (2 ^ 63) (f * 4096) ≡ false = ground (arith, s.valid.small) in
      let va : (kmem_base + f * 4096) % 2 ^ 64 ≡ home f = omega (arith, s.valid.small) in
      rw (runs, kmem_map, ◌>>=◌, low, if◌then◌else◌, va, count, mapped) (ground arith)

  taken :
      (m1 : Machine) (pa : ℕ)
      → alloc_pages order m ≡ some (pa, m1)
      → Taken m m1 (2 ^ order) pa
      → MapOutcome
  unfolding kmem_map
  taken m1 pa runs t =
      let n : ℕ = 2 ^ order in
      let f : ℕ = t.frame in
      let room : f + n ≤ m.page_alloc_bitmap.size = t.room.0 in
      let back : (j : ℕ) → j < n → walk m1.mem m1.cr3 (home f + j * 4096) ≡ none = λ j h.
        rw (t.memory, t.table, home_lem f j)
          (s.unmapped (f + j) (omega arith) (t.room.1 (f + j) (omega arith) (omega arith))) in
      let covered : RangeCovered upper m1 (home f) n = λ j h.
        let (u, c) = s.covered (f + j) (omega arith) in
        (u, rw (home_lem f j) (same-Covered upper m m1 t.memory t.table (home (f + j)) u c)) in
      let (m2, mapped, bitmap, tables, maps) =
        map_page_range-Maps upper m1 (f * 4096) (home f) map_kern_rw n
          (same-Rooted upper m m1 t.memory t.table s.rooted)
          (λ va vb u c d.
            s.unshared va vb u (same-Covered upper m1 m (sym t.memory) (sym t.table) va u c)
              (same-Covered upper m1 m (sym t.memory) (sym t.table) vb u d))
          covered back (omega arith) (omega (arith, s.valid.small)) (omega (arith, s.valid.small))
          (omega (arith, s.valid.small)) in
      let tables' = same-SameTables upper m m1 m2 t.memory t.table tables in
      let maps' = same-Maps upper m m1 m2 t.memory t.table (f * 4096) (home f) n maps in
      (
        home f,
        m2,
        mapped_run m1 m2 f room (runs ∙ ap (λ a. some (a, m1)) t.at) mapped,
        inl (record {
          frame = f;
          at = refl;
          room = t.room;
          lowest = t.lowest;
          used = λ k. ap (λ b. test b k) bitmap ∙ t.used k;
          tables = tables';
          maps = maps';
          sound = mapped-Sound m1 m2 f room t.size bitmap t.valid t.used tables' maps';
        }),
      )

  -- `kmem_map` with at most as many frames as the bitmap has: it takes the lowest free ones and maps
  -- them at their homes, or there is no room and nothing changes.
  pub kmem_map-Outcome : MapOutcome
  kmem_map-Outcome =
      let (pa, m1, runs, outcome) = alloc_pages-Outcome m order s.valid fits in
      elim outcome [ inl t ↦ taken m1 pa runs t | inr f ↦ full m1 pa runs f ]
