-- ===== src/Fat32/Cluster.antt =====
-- src/fs/fat32.c: the sector of a cluster, and the search for a free cluster in the FAT.
-- A disk gives, for each sector, its 32-bit words. `ahci_read` and `ahci_write` are taken to succeed,
-- and `kzalloc` to give memory: the source looks at no result of theirs here.
use rayos.Base.{
  ℕ, zero, suc, ◌+◌, ◌-◌, ◌*◌, ◌/◌, ◌%◌, ◌^◌, ◌==◌, ltb, if◌then◌else◌, Option, none, some, update,
}

-- The fields of `struct fat32_bpb` that are used.
pub record Bpb : Type 0 where
  pub bytes_per_sector : ℕ
  pub sectors_per_cluster : ℕ
  pub reserved_sector_count : ℕ
  pub num_fats : ℕ
  pub fat_size_32 : ℕ

abbrev pub Disk : Type 0
Disk = ℕ → ℕ → ℕ

-- The end of a chain in the FAT.
abbrev pub end_of_chain : ℕ
end_of_chain = 0x0fffffff

unfoldable pub cluster_to_lba : Bpb → ℕ → ℕ
cluster_to_lba bpb cluster =
    let data_start_lba : ℕ =
      (bpb.reserved_sector_count + bpb.fat_size_32 * bpb.num_fats) % 2 ^ 32 in
    if ltb cluster 2 then 0 else (data_start_lba + (cluster - 2) * bpb.sectors_per_cluster) % 2 ^ 32

-- The loop over the words of a sector, from i on with `n` rounds left: the first free one.
unfoldable pub find_free : ℕ → ℕ → (ℕ → ℕ) → Option ℕ
find_free zero i fat_table = none
find_free (suc n) i fat_table = if fat_table i == 0 then some i else find_free n (i + 1) fat_table

-- The loop that writes the sector to every FAT, from the j-th on with `n` rounds left.
unfoldable pub write_fats : Bpb → ℕ → (ℕ → ℕ) → ℕ → ℕ → Disk → Disk
write_fats bpb nr_fat fat_table zero j disk = disk
write_fats bpb nr_fat fat_table (suc n) j disk =
    write_fats bpb nr_fat fat_table n (j + 1)
      (update disk ((bpb.reserved_sector_count + bpb.fat_size_32 * j + nr_fat) % 2 ^ 32) fat_table)

-- The word i of the sector is free: it ends a chain from now on, in every FAT. The result is the
-- cluster's number, as a uint32_t.
unfoldable pub take_entry : Bpb → ℕ → Disk → ℕ → ℕ × Disk
take_entry bpb nr_fat disk i = (
  (nr_fat * (bpb.bytes_per_sector / 32) + i) % 2 ^ 32,
  write_fats bpb nr_fat (update (disk (bpb.reserved_sector_count + nr_fat)) i end_of_chain)
      bpb.num_fats 0 disk,
)

-- What a sector's search found, or else the sectors behind it.
unfoldable pub found_or : Bpb → ℕ → Disk → ℕ × Disk → Option ℕ → ℕ × Disk
found_or bpb nr_fat disk rest none = rest
found_or bpb nr_fat disk rest (some i) = take_entry bpb nr_fat disk i

-- The loop over the sectors of the first FAT, from `nr_fat` on with `n` rounds left; -1, as a
-- uint32_t, if it finds nothing.
unfoldable pub alloc_loop : ℕ → ℕ → Bpb → Disk → ℕ × Disk
alloc_loop zero nr_fat bpb disk = (2 ^ 32 - 1, disk)
alloc_loop (suc n) nr_fat bpb disk =
    let rest : ℕ × Disk = alloc_loop n (nr_fat + 1) bpb disk in
    let entries_per_sector : ℕ = bpb.bytes_per_sector / 32 in
    found_or bpb nr_fat disk rest
      (find_free entries_per_sector 0 (disk (bpb.reserved_sector_count + nr_fat)))

unfoldable pub alloc_cluster : Bpb → Disk → ℕ × Disk
alloc_cluster bpb disk = alloc_loop bpb.fat_size_32 0 bpb disk
