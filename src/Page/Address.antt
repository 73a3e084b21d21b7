-- ===== src/Page/Address.antt =====
-- The virtual addresses of the recursive mapping, split into their table indices and the word within
-- the page, and the bits of the entries that the code writes.
use Prim.Native.Nat.{bit_and, bit_or}
use rayos.Base.{ℕ, ◌+◌, ◌*◌, ◌/◌, ◌%◌, ◌^◌, ◌<◌, ◌≡◌, refl, arith, true, ◌==◌}
use rayos.Bits.{complement}
use rayos.Bits.Step.{bit_or_lowest}
use rayos.Bits.Ops.{bit_and-ones, bit_or-div, bit_and-high}
use rayos.Page.{index_at, word_at, map_pml4, map_pdpt, map_pd, map_pt, present, frame_of}

-- The four indices of an address and its word.
abbrev pub Splits : ℕ → ℕ → ℕ → ℕ → ℕ → ℕ → Type 0
Splits va i4 i3 i2 i1 w =
    (va / 2 ^ 39 % 512 ≡ i4)
    × (va / 2 ^ 30 % 512 ≡ i3)
    × (va / 2 ^ 21 % 512 ≡ i2)
    × (va / 2 ^ 12 % 512 ≡ i1)
    × (va % 4096 / 8 ≡ w)

pub map_pml4-Splits : (w : ℕ) → w < 512 → Splits (word_at map_pml4 w) 511 511 511 511 w
map_pml4-Splits w h = omega arith

pub map_pdpt-Splits :
    (i4 w : ℕ) → i4 < 512 → w < 512 → Splits (word_at (map_pdpt i4) w) 511 511 511 i4 w
map_pdpt-Splits i4 w h hw = omega arith

pub map_pd-Splits :
    (i4 i3 w : ℕ)
    → i4 < 512
    → i3 < 512
    → w < 512
    → Splits (word_at (map_pd i4 i3) w) 511 511 i4 i3 w
map_pd-Splits i4 i3 w h4 h3 hw = omega arith

pub map_pt-Splits :
    (i4 i3 i2 w : ℕ)
    → i4 < 512
    → i3 < 512
    → i2 < 512
    → w < 512
    → Splits (word_at (map_pt i4 i3 i2) w) 511 i4 i3 i2 w
map_pt-Splits i4 i3 i2 w h4 h3 h2 hw = omega arith

pub index_at_lem : (shift va : ℕ) → index_at shift va ≡ va / 2 ^ shift % 512
index_at_lem shift va = bit_and-ones 9 (va / 2 ^ shift)

pub present_lem : (entry : ℕ) → present entry ≡ (entry % 2 == 1)
present_lem entry = ground (arith, bit_and-ones 1 entry)

-- The entry `page | flags | 1` is present and points to the page's frame.
pub present-entry : (page flags : ℕ) → present (bit_or (bit_or page flags) 1) ≡ true
present-entry page flags =
    ground (arith, present_lem (bit_or (bit_or page flags) 1), bit_or_lowest 1 (bit_or page flags))

pub frame_of-entry :
    (page flags : ℕ) → flags < 4096 → frame_of (bit_or (bit_or page flags) 1) ≡ frame_of page
frame_of-entry page flags h =
    rw (bit_or-div 12 (bit_or page flags) 1 (omega arith), bit_or-div 12 page flags h) refl

-- `(entry & ~0xfff) + (va & 0xfff)`
pub physical_lem :
    (entry va : ℕ)
    → entry < 2 ^ 64
    → (bit_and entry (complement 0xfff) + bit_and va 0xfff) % 2 ^ 64
      ≡ entry / 4096 * 4096 + va % 4096
physical_lem entry va h =
    omega (arith, bit_and-high 12 64 entry (omega arith) h, bit_and-ones 12 va)

-- `(pa & ~0xfff) | flags | 1` points to the frame of pa.
pub frame_of-page :
    (pa flags : ℕ)
    → pa < 2 ^ 52
    → flags < 4096
    → frame_of (bit_or (bit_or (bit_and pa (complement 0xfff)) flags) 1) ≡ pa / 4096
frame_of-page pa flags h hf =
    rw
      (
        frame_of-entry (bit_and pa (complement 0xfff)) flags hf,
        bit_and-high 12 64 pa (omega arith) (omega arith),
      )
      (omega arith)
