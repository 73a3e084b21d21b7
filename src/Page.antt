-- ===== src/Page.antt =====
-- src/page.c and inc/page.h: page frames from a bitmap, and the four-level page tables, which the
-- kernel reaches through their own recursive mapping (slot 511 of the top table).
-- Physical memory is a function from a page frame and a word's index in it to the 64-bit word. A
-- load or store through a virtual address walks the tables as the processor does; a walk that meets
-- an entry that is not present is a page fault, `none`. Huge pages are not used by this code; the
-- TLB and its flush by a reload of cr3 have no part in the model.
pub mod Address
pub mod Walk
pub mod Access
pub mod Translate
pub mod Tables
pub mod Range
pub mod Map
pub mod Unmap
pub mod Roundtrip
pub mod Frames
pub mod Order
pub mod Setup
mod Tests
use Prim.Native.Nat.{bit_and, bit_or}
use rayos.Base.{
  ℕ, zero, suc, ◌+◌, ◌-◌, ◌*◌, ◌/◌, ◌%◌, ◌^◌, Bool, true, false, Option, none, some, ◌==◌,
  if◌then◌else◌, ltb, ℤ, pos, negsuc, to_int,
}
use rayos.Bits.{one_shl, complement}
use rayos.Bitmap.{Bitmap, find_first_zero, alloc_range, free_range}

-- What the code of page.c changes: physical memory, and the bitmap of used frames.
pub record Machine : Type 0 where
  pub mem : ℕ → ℕ → ℕ
  pub cr3 : ℕ
  pub page_alloc_bitmap : Bitmap

abbrev pub M : Type 0 → Type 0
M A = Machine → Option (A × Machine)

abbrev pub pure : {A : Type 0} → A → M A
pure a m = some (a, m)

infixl 5 ◌>>=◌ ◌>>◌
abbrev pub ◌>>=◌ : {A B : Type 0} → M A → (A → M B) → M B
◌>>=◌ act f m = elim (act m) [ none ↦ none | some (a, m') ↦ f a m' ]

abbrev pub ◌>>◌ : {B : Type 0} → M (Unit {0}) → M B → M B
act >> next = act >>= λ _. next

-- `1ULL << order`
abbrev pub order_to_pages : ℕ → ℕ
order_to_pages order = one_shl order

-- An `int` as the `size_t` or `uint64_t` that it is converted to.
abbrev pub of_int : ℤ → ℕ
of_int (pos n) = n
of_int (negsuc n) = 2 ^ 64 - 1 - n

abbrev pub page_size : ℕ
page_size = 0x1000

-- `return ret * PAGE_SIZE`, or the negative `ret` as a `uint64_t`.
unfoldable pub alloc_pages : ℕ → M ℕ
alloc_pages order m =
    let start = of_int (find_first_zero m.page_alloc_bitmap 0) in
    let (ret, bitmap) = alloc_range m.page_alloc_bitmap (order_to_pages order) start in
    some (
      elim ret [ negsuc n ↦ of_int (negsuc n) | pos n ↦ n * page_size % 2 ^ 64 ],
      record m { page_alloc_bitmap = bitmap },
    )

unfoldable pub free_pages : ℕ → ℕ → M (Unit {0})
free_pages physaddr order m = some (
  tt,
  record m {
    page_alloc_bitmap = free_range m.page_alloc_bitmap (physaddr / 2 ^ 12) (order_to_pages order);
  },
)

-- `entry & 0x1`
abbrev pub present : ℕ → Bool
present entry = if bit_and entry 1 == 0 then false else true

-- The frame that an entry points to: its bits 12 to 51.
abbrev pub frame_of : ℕ → ℕ
frame_of entry = entry / 2 ^ 12 % 2 ^ 40

-- One step of the processor's walk.
unfoldable pub child : (ℕ → ℕ → ℕ) → ℕ → ℕ → Option ℕ
child mem table index =
    if present (mem table index) then some (frame_of (mem table index)) else none

-- `(va >> shift) & 0x1FF`
abbrev pub index_at : ℕ → ℕ → ℕ
index_at shift va = bit_and (va / 2 ^ shift) 0x1FF

-- The processor's walk from cr3: the frame that holds the virtual address.
unfoldable pub walk : (ℕ → ℕ → ℕ) → ℕ → ℕ → Option ℕ
walk mem cr3 va = elim (child mem cr3 (va / 2 ^ 39 % 512)) [
  | none ↦ none
  | some pdpt ↦ elim (child mem pdpt (va / 2 ^ 30 % 512)) [
    | none ↦ none
    | some pd ↦ elim (child mem pd (va / 2 ^ 21 % 512)) [
      | none ↦ none
      | some pt ↦ child mem pt (va / 2 ^ 12 % 512)
    ]
  ]
]

-- `table[index]` for a pointer to 64-bit words.
abbrev pub word_at : ℕ → ℕ → ℕ
word_at table index = (table + index * 8) % 2 ^ 64

unfoldable pub load : ℕ → ℕ → M ℕ
load table index m = elim (walk m.mem m.cr3 (word_at table index)) [
  | none ↦ none
  | some frame ↦ some (m.mem frame (word_at table index % 4096 / 8), m)
]

-- The memory with one word of one frame changed.
unfoldable pub poke : (ℕ → ℕ → ℕ) → ℕ → ℕ → ℕ → ℕ → ℕ → ℕ
poke mem frame word value f w =
    if f == frame then (if w == word then value else mem f w) else mem f w

unfoldable pub store : ℕ → ℕ → ℕ → M (Unit {0})
store table index value m = elim (walk m.mem m.cr3 (word_at table index)) [
  | none ↦ none
  | some frame ↦
      some (tt, record m { mem = poke m.mem frame (word_at table index % 4096 / 8) value })
]

-- PML4_BASE, and the addresses at which the recursive mapping shows the tables.
abbrev pub pml4_base : ℕ
pml4_base = 0xFFFFFFFFFFFFF

abbrev pub map_pml4 : ℕ
map_pml4 = pml4_base * 2 ^ 12 % 2 ^ 64

abbrev pub map_pdpt : ℕ → ℕ
map_pdpt pml4_idx = (pml4_base * 2 ^ 21 % 2 ^ 64 + pml4_idx * 2 ^ 12) % 2 ^ 64

abbrev pub map_pd : ℕ → ℕ → ℕ
map_pd pml4_idx pdpt_idx =
    (pml4_base * 2 ^ 30 % 2 ^ 64 + pml4_idx * 2 ^ 21 + pdpt_idx * 2 ^ 12) % 2 ^ 64

abbrev pub map_pt : ℕ → ℕ → ℕ → ℕ
map_pt pml4_idx pdpt_idx pd_idx =
    (pml4_base * 2 ^ 39 % 2 ^ 64 + pml4_idx * 2 ^ 30 + pdpt_idx * 2 ^ 21 + pd_idx * 2 ^ 12) % 2 ^ 64

-- `for (j = 0; j < 512; j++) table[j] = 0`, with `n` rounds left.
unfoldable pub clear_table : ℕ → ℕ → ℕ → M (Unit {0})
clear_table table zero j = pure tt
clear_table table (suc n) j = do store table j 0; clear_table table n (j + 1)

-- The three tests of `map_page_range`: if the entry is not present, a new page becomes the table
-- below it, and is cleared.
unfoldable pub ensure_table : ℕ → ℕ → ℕ → ℕ → M (Unit {0})
ensure_table table index below flags = do
  entry ← load table index
  if present entry then pure tt else (do
    page ← alloc_pages 0
    store table index (bit_or (bit_or page flags) 1)
    clear_table below 512 0)

-- `if (!(table[index] & 0x1)) return absent;`, and then the rest of the function.
unfoldable pub if_present : {A : Type 0} → ℕ → ℕ → A → (ℕ → M A) → M A
if_present table index absent rest = do
  entry ← load table index
  if present entry then rest entry else pure absent

-- The descent that `get_physaddr` and `unmap_page_range` share: through the four tables to the last
-- entry, with an early return of `absent` at an entry that is not present.
unfoldable pub with_leaf : {A : Type 0} → ℕ → A → (ℕ → M A) → M A
with_leaf va absent rest =
    let i4 = index_at 39 va in
    let i3 = index_at 30 va in
    let i2 = index_at 21 va in
    let i1 = index_at 12 va in
    if_present map_pml4 i4 absent λ _.
      if_present (map_pdpt i4) i3 absent
        λ _. if_present (map_pd i4 i3) i2 absent λ _. if_present (map_pt i4 i3 i2) i1 absent rest

-- `map_pt[pt_idx] = value` for a virtual address.
unfoldable pub store_leaf : ℕ → ℕ → M (Unit {0})
store_leaf va value =
    store (map_pt (index_at 39 va) (index_at 30 va) (index_at 21 va)) (index_at 12 va) value

-- -MAP_ERR_NOTMAPPED as a `uint64_t`
abbrev pub not_mapped : ℕ
not_mapped = 2 ^ 64 - 100

unfoldable pub get_physaddr : ℕ → M ℕ
get_physaddr virtaddr =
    with_leaf virtaddr not_mapped
      λ entry. pure ((bit_and entry (complement 0xfff) + bit_and virtaddr 0xfff) % 2 ^ 64)

-- The loop of `unmap_page_range`, with `n` rounds left.
unfoldable pub unmap_loop : ℕ → ℕ → ℕ → M ℤ
unmap_loop zero i va = pure (to_int i)
unmap_loop (suc n) i va =
    with_leaf va (to_int i) λ _. store_leaf va 0 >> unmap_loop n (i + 1) ((va + 0x1000) % 2 ^ 64)

unfoldable pub unmap_page_range : ℕ → ℕ → M ℤ
unfolding unmap_loop
unmap_page_range virtaddr len = unmap_loop len 0 virtaddr

-- The loop of `map_page_range`, with `n` rounds left.
unfoldable pub map_loop : ℕ → ℕ → ℕ → ℕ → ℕ → ℕ → M ℤ
map_loop virtaddr flags zero i pa va = pure (to_int i)
map_loop virtaddr flags (suc n) i pa va =
    let i4 = index_at 39 va in
    let i3 = index_at 30 va in
    let i2 = index_at 21 va in
    let i1 = index_at 12 va in
    (do
      ensure_table map_pml4 i4 (map_pdpt i4) flags
      ensure_table (map_pdpt i4) i3 (map_pd i4 i3) flags
      ensure_table (map_pd i4 i3) i2 (map_pt i4 i3 i2) flags
      entry ← load (map_pt i4 i3 i2) i1
      if present entry then (unmap_page_range virtaddr i >>= λ _. pure (negsuc 16)) else (do
        store_leaf va (bit_or (bit_or (bit_and pa (complement 0xfff)) flags) 1)
        map_loop virtaddr flags n (i + 1) ((pa + 0x1000) % 2 ^ 64) ((va + 0x1000) % 2 ^ 64)))

unfoldable pub map_page_range : ℕ → ℕ → ℕ → ℕ → M ℤ
unfolding map_loop
map_page_range physaddr virtaddr flags len = map_loop virtaddr flags len 0 physaddr virtaddr
