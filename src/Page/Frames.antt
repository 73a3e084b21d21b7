-- ===== src/Page/Frames.antt =====
-- `alloc_pages` and `free_pages` on the bitmap of used frames.
use rayos.Base.{
  ℕ, ◌+◌, ◌-◌, ◌*◌, ◌/◌, ◌%◌, ◌^◌, ◌≤◌, ◌<◌, ◌≡◌, ◌≢◌, ◌⊎◌, refl, arith, true, false, Option, none,
  some, ltb, if◌then◌else◌, inl, inr, Bool-cases, ap, subst, NoneIn, IsFirst,
}
use native.Mathlib.Nat.{one-le-pow}
use rayos.Bitmap.{Bitmap, test, alloc_range, find_first_zero, free_range}
use rayos.Bitmap.Bit.{IsValid}
use rayos.Bitmap.Find.{FindsFirst, first_bit, find_first_zero-FindsFirst}
use rayos.Bitmap.Alloc.{AllocOutcome, alloc_range-AllocOutcome, alloc_range-IsValid}
use rayos.Bitmap.Range.{within, test-free_range}
use rayos.Page.{Machine, alloc_pages, free_pages, order_to_pages, of_int, page_size}

-- There is room for `count` frames from frame i: all of them are unused.
abbrev pub RoomAt : Bitmap → ℕ → ℕ → Type 0
RoomAt bmp count i = (i + count ≤ bmp.size) × NoneIn (test bmp) i (i + count)

-- The lowest room is taken: `address` is that of its first frame, and exactly its frames become used.
pub record Taken (m m' : Machine) (count address : ℕ) : Type 0 where
  pub frame : ℕ
  pub at : address ≡ frame * 4096
  pub room : RoomAt m.page_alloc_bitmap count frame
  pub lowest : (k : ℕ) → k < frame → ¬ RoomAt m.page_alloc_bitmap count k
  pub used :
      (k : ℕ)
      → test m'.page_alloc_bitmap k
        ≡ (if within frame (frame + count) k then true else test m.page_alloc_bitmap k)
  pub valid : IsValid m'.page_alloc_bitmap
  pub size : m'.page_alloc_bitmap.size ≡ m.page_alloc_bitmap.size
  pub memory : m'.mem ≡ m.mem
  pub table : m'.cr3 ≡ m.cr3

-- There is no room: the result is (uint64_t)-1, and nothing changes.
pub record Full (m m' : Machine) (count address : ℕ) : Type 0 where
  pub failed : address ≡ 2 ^ 64 - 1
  pub unchanged : m' ≡ m
  pub no_room : (k : ℕ) → ¬ RoomAt m.page_alloc_bitmap count k

abbrev first_index : Bitmap → Option ℕ → ℕ
first_index bmp none = bmp.size
first_index bmp (some i) = i

-- A frame below the first unused one gives no room.
below_first :
    (bmp : Bitmap) (count k : ℕ) (first : Option ℕ)
    → 0 < count
    → IsFirst (first_bit false bmp) 0 bmp.size first
    → k < first_index bmp first
    → ¬ RoomAt bmp count k
below_first bmp count k none more used h (fits, free) =
    ground (arith, used k (omega arith) h, free k (omega arith) (omega arith))
below_first bmp count k (some i) more (lo, hi, clear, used) h (fits, free) =
    ground (arith, used k (omega arith) h, free k (omega arith) (omega arith))

module _ (m : Machine) (order : ℕ) (v : IsValid m.page_alloc_bitmap)
    (fits : 2 ^ order ≤ m.page_alloc_bitmap.size) where
  abbrev bmp : Bitmap
  bmp = m.page_alloc_bitmap

  count_lem : order_to_pages order ≡ 2 ^ order
  count_lem = omega (arith, v.small)

  count_pos : 0 < 2 ^ order
  count_pos = omega (arith, one-le-pow order 2 (omega arith))

  abbrev Outcome : Type 0
  Outcome =
      (address : ℕ) × (m' : Machine) × (alloc_pages order m ≡ some (address, m'))
      × (Taken m m' (2 ^ order) address ⊎ Full m m' (2 ^ order) address)

  by_alloc :
      (start : ℕ)
      → of_int (find_first_zero bmp 0) ≡ start
      → ((k : ℕ) → k < start → ¬ RoomAt bmp (2 ^ order) k)
      → ((r : Option ℕ) × AllocOutcome bmp (2 ^ order) start (alloc_range bmp (2 ^ order) start) r)
      → Outcome
  unfolding alloc_pages
  by_alloc start here below (none, o) = (
    2 ^ 64 - 1,
    m,
    rw (here, count_lem, o.0, o.1, alloc_pages) refl,
    inr (record {
      failed = refl;
      unchanged = refl;
      no_room = λ k room. elim (Bool-cases (ltb k start)) [
        | inl before ↦ below k (ground arith) room
        | inr after ↦ o.2 k (ground arith) room.0 room.1
      ];
    }),
  )
  by_alloc start here below (some i, o) =
      let address : i * page_size % 2 ^ 64 ≡ i * 4096 = omega (arith, o.2, v.small) in
      (
        i * 4096,
        record m { page_alloc_bitmap = (alloc_range bmp (2 ^ order) start).1 },
        rw (here, count_lem, o.0, alloc_pages, address) refl,
        inl (record {
          frame = i;
          at = refl;
          room = (o.2, o.3);
          lowest = λ k h room. elim (Bool-cases (ltb k start)) [
            | inl before ↦ below k (ground arith) room
            | inr after ↦ o.4 k (ground arith) h room.1
          ];
          used = o.6;
          valid = alloc_range-IsValid bmp (2 ^ order) start v;
          size = o.5;
          memory = refl;
          table = refl;
        }),
      )

-- `alloc_pages` with a size of at most that of the bitmap: it takes the lowest 2^order consecutive
-- unused frames, marks exactly these as used and returns the first one's address; or it returns
-- (uint64_t)-1 and changes nothing, and there are no such frames.
pub alloc_pages-Outcome :
    (m : Machine) (order : ℕ)
    → IsValid m.page_alloc_bitmap
    → 2 ^ order ≤ m.page_alloc_bitmap.size
    → (address : ℕ) × (m' : Machine) × (alloc_pages order m ≡ some (address, m'))
      × (Taken m m' (2 ^ order) address ⊎ Full m m' (2 ^ order) address)
alloc_pages-Outcome m order v fits = from (find_first_zero-FindsFirst m.page_alloc_bitmap 0 v)
  where
    from :
        FindsFirst false m.page_alloc_bitmap 0 (find_first_zero m.page_alloc_bitmap 0)
        → Outcome m order v fits
    from (none, result, used) =
        by_alloc m order v fits (2 ^ 64 - 1) (ap of_int result)
          (λ k h room.
            below_first m.page_alloc_bitmap (2 ^ order) k none (count_pos m order v fits) used
              (omega (arith, room.0, count_pos m order v fits)) room)
          (alloc_range-AllocOutcome m.page_alloc_bitmap (2 ^ order) (2 ^ 64 - 1) v
            (count_pos m order v fits) fits)
    from (some i, result, used) =
        by_alloc m order v fits i (ap of_int result)
          (λ k h.
            below_first m.page_alloc_bitmap (2 ^ order) k (some i) (count_pos m order v fits) used
              h)
          (alloc_range-AllocOutcome m.page_alloc_bitmap (2 ^ order) i v (count_pos m order v fits)
            fits)

Taken-freed :
    (m m' : Machine) (order address k : ℕ)
    → IsValid m.page_alloc_bitmap
    → 2 ^ order ≤ m.page_alloc_bitmap.size
    → Taken m m' (2 ^ order) address
    → test (free_range m'.page_alloc_bitmap (address / 2 ^ 12) (order_to_pages order)) k
      ≡ test m.page_alloc_bitmap k
Taken-freed m m' order address k v fits taken =
    let frame : address / 2 ^ 12 ≡ taken.frame = omega (arith, taken.at) in
    rw
      (
        frame,
        count_lem m order v fits,
        test-free_range m'.page_alloc_bitmap taken.frame (2 ^ order) k
            (omega (arith, taken.room.0, v.small)),
        taken.used k,
      )
      (ground (arith, taken.room.1 k))

-- When `alloc_pages` of at most as many frames as the bitmap has does not fail, `free_pages` of its
-- result with the same order makes every frame used or unused as it was before the two.
pub free_pages-alloc_pages :
    (m m' : Machine) (order address : ℕ)
    → IsValid m.page_alloc_bitmap
    → 2 ^ order ≤ m.page_alloc_bitmap.size
    → alloc_pages order m ≡ some (address, m')
    → address ≢ 2 ^ 64 - 1
    → (m'' : Machine) × (free_pages address order m' ≡ some (tt, m''))
      × ((k : ℕ) → test m''.page_alloc_bitmap k ≡ test m.page_alloc_bitmap k)
unfolding free_pages
free_pages-alloc_pages m m' order address v fits runs ok = from (alloc_pages-Outcome m order v fits)
  where
    from :
        ((found : ℕ) × (after : Machine) × (alloc_pages order m ≡ some (found, after))
          × (Taken m after (2 ^ order) found ⊎ Full m after (2 ^ order) found))
        → (m'' : Machine) × (free_pages address order m' ≡ some (tt, m''))
          × ((k : ℕ) → test m''.page_alloc_bitmap k ≡ test m.page_alloc_bitmap k)
    from (found, after, same, inr full) =
        let address_is : address ≡ found = cc in absurd (ok (cc (address_is, full.failed)))
    from (found, after, same, inl taken) =
        let address_is : found ≡ address = cc in
        let after_is : after ≡ m' = cc in
        (
          record m' {
            page_alloc_bitmap =
                free_range m'.page_alloc_bitmap (address / 2 ^ 12) (order_to_pages order);
          },
          refl,
          λ k. Taken-freed m m' order address k v fits (
              subst (λ a. Taken m m' (2 ^ order) a) address_is
                (subst (λ t. Taken m t (2 ^ order) found) after_is taken)),
        )
