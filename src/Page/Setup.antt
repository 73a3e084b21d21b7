-- ===== src/Page/Setup.antt =====
-- `page_init`, and the sums over the bitmap of frames. The total of the memory and the kernel's end,
-- physical and virtual, are arguments.
use Prim.Native.Nat.{bit_and}
use native.Mathlib.Nat.{one-le-pow, add-div_right}
use rayos.Base.{
  ℕ, ◌+◌, ◌-◌, ◌*◌, ◌/◌, ◌%◌, ◌^◌, ◌≤◌, ◌<◌, ◌≡◌, refl, arith, Option, none, some, ltb, ◌&&◌, ℤ,
}
use rayos.Bits.{complement}
use rayos.Bits.Ops.{bit_and-high}
use rayos.Bitmap.{Bitmap, init, set_range, test, count_set, usage_percent}
use rayos.Bitmap.Init.{init_lem}
use rayos.Bitmap.Range.{test-set_range-clear_range}
use rayos.Page.{Machine, M, page_size, unmap_page_range, ◌>>=◌, pure}

-- `ALIGN_UP(val, align)` of 64-bit values
unfoldable pub align_up : ℕ → ℕ → ℕ
align_up val align = bit_and ((val + align) % 2 ^ 64) (complement (align - 1))

abbrev bootmap_len : ℕ
bootmap_len = 0x1000000

-- `total - used` of a `uint64_t`
abbrev sub64 : ℕ → ℕ → ℕ
sub64 a b = (a + (2 ^ 64 - b % 2 ^ 64)) % 2 ^ 64

-- The bitmap as `page_init` leaves it.
unfoldable pub used_bitmap : ℕ → ℕ → (ℕ → ℕ) → Bitmap
used_bitmap total phys_end data' =
    let bits = align_up total page_size / 2 ^ 12 in
    let bytes = align_up (bits / 2 ^ 3) page_size in
    set_range (init data' bits) 0 ((phys_end + bytes) % 2 ^ 64 / 2 ^ 12)

unfoldable pub page_init : ℕ → ℕ → ℕ → M (Unit {0})
page_init total phys_end virt_end m =
    let bytes = align_up (align_up total page_size / 2 ^ 12 / 2 ^ 3) page_size in
    let bitmap = used_bitmap total phys_end m.page_alloc_bitmap.map in
    (unmap_page_range ((virt_end + bytes) % 2 ^ 64)
          (sub64 (sub64 bootmap_len phys_end) bytes / 2 ^ 12)
        >>= λ _. pure tt)
      (record m { page_alloc_bitmap = bitmap })

unfoldable pub memused : Machine → Option ℕ
memused m = elim (count_set m.page_alloc_bitmap) [
  | none ↦ none
  | some used ↦ some (used * 4096 % 2 ^ 64)
]

unfoldable pub memused_percent : Machine → Option ℤ
memused_percent m = usage_percent m.page_alloc_bitmap

-- `ALIGN_UP` with a power of two is the least multiple of it above `val`, so a value that is aligned
-- moves up by `align`; the sum stays below 2^64.
pub align_up-least :
    (val k : ℕ) → k < 64 → val + 2 ^ k < 2 ^ 64 → (align_up val (2 ^ k) ≡ (val / 2 ^ k + 1) * 2 ^ k)
unfolding align_up
align_up-least val k h fits =
    let positive : 1 ≤ 2 ^ k = one-le-pow k 2 (omega arith) in
    let mask : complement (2 ^ k - 1) ≡ 2 ^ 64 - 2 ^ k = omega arith in
    let sum : (val + 2 ^ k) % 2 ^ 64 ≡ val + 2 ^ k = omega arith in
    rw (mask, sum, bit_and-high k 64 (val + 2 ^ k) (omega arith) fits, add-div_right val positive)
      refl

marked :
    (data' : ℕ → ℕ) (bits reserved k : ℕ)
    → bits < 2 ^ 31
    → reserved < 2 ^ 64
    → test (set_range (init data' bits) 0 reserved) k ≡ (ltb k reserved && ltb k bits)
unfolding init
marked data' bits reserved k h hr =
    rw
      (
        (test-set_range-clear_range (init data' bits) 0 reserved k (omega arith)).0,
        (init_lem data' bits k h).0,
      )
      (ground arith)

-- The bitmap that `page_init` makes shows exactly those frames of the memory (and one frame after
-- it) as used that lie below the end of the kernel and of the bitmap's own pages. The memory is
-- smaller than 4 TB and the kernel ends below 2^40.
pub test-used_bitmap :
    (total phys_end k : ℕ) (data' : ℕ → ℕ)
    → total < 2 ^ 42
    → phys_end < 2 ^ 40
    → let frames : ℕ = total / 4096 + 1 in
      let bytes : ℕ = (frames / 8 / 4096 + 1) * 4096 in
      test (used_bitmap total phys_end data') k
      ≡ (ltb k ((phys_end + bytes) / 4096) && ltb k frames)
unfolding used_bitmap init
test-used_bitmap total phys_end k data' h hk =
    let bits : align_up total page_size / 2 ^ 12 ≡ total / 4096 + 1 =
      omega (arith, align_up-least total 12 (omega arith) (omega arith)) in
    let bytes : align_up ((total / 4096 + 1) / 2 ^ 3) page_size
        ≡ ((total / 4096 + 1) / 8 / 4096 + 1) * 4096 =
      omega (arith, align_up-least ((total / 4096 + 1) / 8) 12 (omega arith) (omega arith)) in
    let reserved : ℕ = (phys_end + ((total / 4096 + 1) / 8 / 4096 + 1) * 4096) / 4096 in
    let sum : (phys_end + ((total / 4096 + 1) / 8 / 4096 + 1) * 4096) % 2 ^ 64 / 2 ^ 12 ≡ reserved =
      omega arith in
    rw (bits, bytes, sum) (marked data' (total / 4096 + 1) reserved k (omega arith) (omega arith))
