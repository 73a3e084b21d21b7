-- ===== src/Strings/Copy.antt =====
-- `memcpy`, `memmove` and `memset`: what each element holds afterwards.
use rayos.Base.{
  ℕ, zero, suc, ◌+◌, ◌-◌, ◌%◌, ◌≤◌, ◌≡◌, ◌⊎◌, arith, Bool, ◌&&◌, ltb, leb, if◌then◌else◌, inl, inr,
  Bool-cases, update,
}
use rayos.Strings.{Memory, memcpy, memset, copy_back, memmove}

-- lo ≤ k < lo + n
abbrev pub inside : ℕ → ℕ → ℕ → Bool
inside lo n k = leb lo k && ltb k (lo + n)

-- The memory with the n elements from src, as they were, at dest.
abbrev pub moved : Memory → ℕ → ℕ → ℕ → Memory
moved mem dest src n k = if inside dest n k then mem (src + (k - dest)) else mem k

-- One element, and then the rest.
pub moved_step :
    (n : ℕ) (mem : Memory) (dest src k : ℕ)
    → (dest ≤ src) ⊎ (src + suc n ≤ dest)
    → moved (update mem dest (mem src)) (dest + 1) (src + 1) n k ≡ moved mem dest src (suc n) k
moved_step n mem dest src k apart = ground arith

-- `memcpy` copies the n elements where the destination does not start within the source.
pub memcpy-moved :
    (n : ℕ) (mem : Memory) (dest src k : ℕ)
    → (dest ≤ src) ⊎ (src + n ≤ dest)
    → memcpy mem dest src n k ≡ moved mem dest src n k
unfolding memcpy
memcpy-moved zero mem dest src k apart = ground arith
memcpy-moved (suc n) mem dest src k apart =
    rw (memcpy-moved n (update mem dest (mem src)) (dest + 1) (src + 1) k (ground arith))
      (moved_step n mem dest src k (ground arith))

copy_back-moved :
    (n : ℕ) (mem : Memory) (dest src k : ℕ)
    → src ≤ dest
    → copy_back mem dest src n k ≡ moved mem dest src n k
unfolding copy_back
copy_back-moved zero mem dest src k h = ground arith
copy_back-moved (suc n) mem dest src k h =
    rw (copy_back-moved n (update mem (dest + n) (mem (src + n))) dest src k h) (ground arith)

-- `memmove` copies the n elements as they were before, however the two areas overlap, and leaves the
-- rest of the memory alone.
pub memmove-moved :
    (mem : Memory) (dest src n k : ℕ) → memmove mem dest src n k ≡ moved mem dest src n k
unfolding memmove
memmove-moved mem dest src n k = elim (Bool-cases (ltb dest src)) [
  | inl below ↦ rw below (memcpy-moved n mem dest src k (inl (ground arith)))
  | inr above ↦ rw above (copy_back-moved n mem dest src k (ground arith))
]

-- `memset` stores the low byte of c in the n elements, and leaves the rest of the memory alone.
pub memset_lem :
    (n : ℕ) (mem : Memory) (p c k : ℕ)
    → memset mem p c n k ≡ (if inside p n k then c % 256 else mem k)
unfolding memset
memset_lem zero mem p c k = ground arith
memset_lem (suc n) mem p c k = rw (memset_lem n (update mem p (c % 256)) (p + 1) c k) (ground arith)
