-- ===== src/Fat32/Alloc.antt =====
-- `__fat32_alloc_cluster` takes the first free entry that it looks at, in every FAT, and no other
-- sector changes; and the sectors of two clusters do not meet.
use rayos.Base.{
  ℕ, zero, suc, ◌+◌, ◌-◌, ◌*◌, ◌/◌, ◌%◌, ◌^◌, ◌≤◌, ◌<◌, ◌≡◌, ◌≢◌, ◌⊎◌, refl, arith, false, none,
  some, ◌==◌, ltb, update, update_self, update_ne, inl, inr, Bool-cases, ◌∙◌, ap, subst,
}
use native.Mathlib.Nat.{mod-eq_of_lt, mul-le-mul_right}
use rayos.Fat32.Cluster.{
  Bpb, Disk, end_of_chain, cluster_to_lba, find_free, write_fats, take_entry, found_or, alloc_loop,
  alloc_cluster,
}

from_next : (P : ℕ → Type 0) (i x : ℕ) → P i → (i + 1 ≤ x → P x) → i ≤ x → P x
from_next P i x here next h = elim (Bool-cases (x == i)) [
  | inl e ↦ let same : i ≡ x = ground arith in subst P same here
  | inr other ↦ next (ground arith)
]

-- The first free word from i on.
find_free-cases :
    (n i : ℕ) (fat_table : ℕ → ℕ)
    → ((find_free n i fat_table ≡ none) × ((x : ℕ) → i ≤ x → x < i + n → fat_table x ≢ 0))
      ⊎ ((y : ℕ) × (find_free n i fat_table ≡ some y)
          × (i ≤ y)
          × (y < i + n)
          × (fat_table y ≡ 0)
          × ((x : ℕ) → i ≤ x → x < y → fat_table x ≢ 0))
unfolding find_free
find_free-cases zero i fat_table = inl (refl, λ x lo hi. absurd (omega arith))
find_free-cases (suc n) i fat_table = elim (Bool-cases (fat_table i == 0)) [
  | inl free ↦
      inr (i, rw free refl, omega arith, omega arith, ground arith, λ x lo hi. absurd (omega arith))
  | inr used ↦
      let here : fat_table i ≢ 0 = ground arith in
      elim (find_free-cases n (i + 1) fat_table) [
        | inl (e, all) ↦ inl (
          rw used e,
          λ x lo hi. from_next (λ z. fat_table z ≢ 0) i x here (λ l. all x l (omega arith)) lo,
        )
        | inr (y, e, lo, hi, free, all) ↦ inr (
          y,
          rw used e,
          omega arith,
          omega arith,
          free,
          λ x lo' hi'. from_next (λ z. fat_table z ≢ 0) i x here (λ l. all x l hi') lo',
        )
      ]
]

-- The sector of the j-th FAT that stands nr_fat behind its first.
abbrev pub fat_sector : Bpb → ℕ → ℕ → ℕ
fat_sector bpb nr_fat j = (bpb.reserved_sector_count + bpb.fat_size_32 * j + nr_fat) % 2 ^ 32

-- A sector is written, or it is none of the FATs' and as it was.
write_fats-cases :
    (n j : ℕ) (bpb : Bpb) (nr_fat : ℕ) (fat_table : ℕ → ℕ) (disk : Disk) (s : ℕ)
    → ((x : ℕ) × (x < j + n)
        × (s ≡ fat_sector bpb nr_fat x)
        × (write_fats bpb nr_fat fat_table n j disk s ≡ fat_table))
      ⊎ (((x : ℕ) → j ≤ x → x < j + n → s ≢ fat_sector bpb nr_fat x)
          × (write_fats bpb nr_fat fat_table n j disk s ≡ disk s))
unfolding write_fats
write_fats-cases zero j bpb nr_fat fat_table disk s = inr ((λ x lo hi. absurd (omega arith)), refl)
write_fats-cases (suc n) j bpb nr_fat fat_table disk s =
    elim (write_fats-cases n (j + 1) bpb nr_fat fat_table
      (update disk (fat_sector bpb nr_fat j) fat_table) s) [
        | inl (x, hi, at, e) ↦ inl (x, omega arith, at, e)
        | inr (none_of, e) ↦ elim (Bool-cases (s == fat_sector bpb nr_fat j)) [
          | inl here ↦
              let at : s ≡ fat_sector bpb nr_fat j = ground arith in
              inl (
                j,
                omega arith,
                at,
                e
                    ∙ ap (update disk (fat_sector bpb nr_fat j) fat_table) at
                    ∙ update_self disk (fat_sector bpb nr_fat j) fat_table,
              )
          | inr other ↦
              let apart : s ≢ fat_sector bpb nr_fat j = ground arith in
              inr (
                (λ x lo hi.
                    from_next (λ z. s ≢ fat_sector bpb nr_fat z) j x apart
                      (λ l. none_of x l (omega arith)) lo),
                e ∙ update_ne disk (fat_sector bpb nr_fat j) s fat_table apart,
              )
        ]
      ]

-- An entry that the search looks at, and that is free.
abbrev pub Free : Bpb → Disk → ℕ → ℕ → Type 0
Free bpb disk m i = (i < bpb.bytes_per_sector / 32) × (disk (bpb.reserved_sector_count + m) i ≡ 0)

-- No entry of the sectors from k on, up to sector m, is free.
abbrev pub NoneFree : Bpb → Disk → ℕ → ℕ → Type 0
NoneFree bpb disk k m = (x y : ℕ) → k ≤ x → x < m → ¬ Free bpb disk x y

alloc_loop-cases :
    (n k : ℕ) (bpb : Bpb) (disk : Disk)
    → ((alloc_loop n k bpb disk ≡ (2 ^ 32 - 1, disk)) × NoneFree bpb disk k (k + n))
      ⊎ ((m : ℕ) × (i : ℕ) × (m < k + n)
          × Free bpb disk m i
          × NoneFree bpb disk k m
          × ((y : ℕ) → y < i → ¬ Free bpb disk m y)
          × (alloc_loop n k bpb disk ≡ take_entry bpb m disk i))
unfolding alloc_loop found_or
alloc_loop-cases zero k bpb disk = inl (refl, λ x y lo hi. absurd (omega arith))
alloc_loop-cases (suc n) k bpb disk =
    elim (find_free-cases (bpb.bytes_per_sector / 32) 0 (disk (bpb.reserved_sector_count + k))) [
      | inr (i, e, lo, hi, free, first) ↦ inr (
        k,
        i,
        omega arith,
        (omega arith, free),
        (λ x y lo' hi'. absurd (omega arith)),
        (λ y below is_free. first y (omega arith) below is_free.1),
        ap (found_or bpb k disk (alloc_loop n (k + 1) bpb disk)) e,
      )
      | inl (e, all) ↦
          let here : (y : ℕ) → ¬ Free bpb disk k y =
            λ y f. all y (omega arith) (omega (arith, f.0)) f.1 in
          let down = ap (found_or bpb k disk (alloc_loop n (k + 1) bpb disk)) e in
          elim (alloc_loop-cases n (k + 1) bpb disk) [
            | inl (e', later) ↦ inl (
              down ∙ e',
              λ x y lo' hi'.
                  from_next (λ z. ¬ Free bpb disk z y) k x (here y) (λ l. later x y l (omega arith))
                    lo',
            )
            | inr (m, i, hi, free, later, first, e') ↦ inr (
              m,
              i,
              omega arith,
              free,
              (λ x y lo' hi'.
                  from_next (λ z. ¬ Free bpb disk z y) k x (here y) (λ l. later x y l (omega arith))
                    lo'),
              first,
              down ∙ e',
            )
          ]
    ]

-- The first free entry that the search looks at, sector after sector of the first FAT, of which it
-- looks at bytes_per_sector / 32 entries each, ends a chain in every FAT afterwards: the sector of
-- each FAT is the one that was read, with this entry changed, and every other sector is as it was.
-- The result is the entry's place in the order of the search. If no entry is free, the result is -1
-- and the disk is as it was.
pub alloc_cluster-first :
    (bpb : Bpb) (disk : Disk)
    → ((alloc_cluster bpb disk ≡ (2 ^ 32 - 1, disk)) × NoneFree bpb disk 0 bpb.fat_size_32)
      ⊎ ((m : ℕ) × (i : ℕ) × (m < bpb.fat_size_32)
          × Free bpb disk m i
          × NoneFree bpb disk 0 m
          × ((y : ℕ) → y < i → ¬ Free bpb disk m y)
          × ((alloc_cluster bpb disk).0 ≡ (m * (bpb.bytes_per_sector / 32) + i) % 2 ^ 32)
          × ((s : ℕ)
              → ((x : ℕ) × (x < bpb.num_fats)
                  × (s ≡ fat_sector bpb m x)
                  × ((alloc_cluster bpb disk).1 s
                      ≡ update (disk (bpb.reserved_sector_count + m)) i end_of_chain))
                ⊎ (((x : ℕ) → x < bpb.num_fats → s ≢ fat_sector bpb m x)
                    × ((alloc_cluster bpb disk).1 s ≡ disk s))))
unfolding alloc_cluster take_entry
alloc_cluster-first bpb disk = elim (alloc_loop-cases bpb.fat_size_32 0 bpb disk) [
  | inl (e, all) ↦ inl (e, λ x y lo hi. all x y lo (omega arith))
  | inr (m, i, hi, free, none_of, first, e) ↦
      let table = update (disk (bpb.reserved_sector_count + m)) i end_of_chain in
      inr (
        m,
        i,
        omega arith,
        free,
        none_of,
        first,
        ap (λ r. r.0) e,
        λ s.
            let now = ap (λ r. r.1 s) e in
            elim (write_fats-cases bpb.num_fats 0 bpb m table disk s) [
              | inl (x, below, at, written) ↦ inl (x, omega arith, at, now ∙ written)
              | inr (apart, kept) ↦
                  inr ((λ x below. apart x (omega arith) (omega arith)), now ∙ kept)
            ],
      )
]

mul_le : (a b s : ℕ) → a < b → a * s + s ≤ b * s
mul_le a b s h = omega (arith, mul-le-mul_right s h)

-- Where the data begin, if it fits in 32 bits.
abbrev pub data_start : Bpb → ℕ
data_start bpb = bpb.reserved_sector_count + bpb.fat_size_32 * bpb.num_fats

pub cluster_to_lba-small :
    (bpb : Bpb) (c : ℕ)
    → 2 ≤ c
    → data_start bpb + (c - 2) * bpb.sectors_per_cluster < 2 ^ 32
    → cluster_to_lba bpb c ≡ data_start bpb + (c - 2) * bpb.sectors_per_cluster
unfolding cluster_to_lba
cluster_to_lba-small bpb c lo fits =
    let real : ltb c 2 ≡ false = ground arith in
    let start : data_start bpb % 2 ^ 32 ≡ data_start bpb = mod-eq_of_lt (omega arith) in
    rw (real, start) (mod-eq_of_lt fits)

-- If cluster d begins below 2^32, those of a smaller cluster c, from 2 on, stand behind
-- the FATs and end before those of d begin.
pub cluster_to_lba-apart :
    (bpb : Bpb) (c d : ℕ)
    → 2 ≤ c
    → c < d
    → data_start bpb + (d - 2) * bpb.sectors_per_cluster < 2 ^ 32
    → (data_start bpb ≤ cluster_to_lba bpb c)
      × (cluster_to_lba bpb c + bpb.sectors_per_cluster ≤ cluster_to_lba bpb d)
cluster_to_lba-apart bpb c d lo h fits =
    let below : (c - 2) * bpb.sectors_per_cluster + bpb.sectors_per_cluster
        ≤ (d - 2) * bpb.sectors_per_cluster =
      mul_le (c - 2) (d - 2) bpb.sectors_per_cluster (omega arith) in
    let a = cluster_to_lba-small bpb c lo (omega arith) in
    let b = cluster_to_lba-small bpb d (omega arith) fits in rw (a, b) (omega arith, omega arith)
