-- ===== src/Fat32/Chain.antt =====
-- src/fs/fat32.c: the chain of a file's clusters in the FAT, and the reading along it.
-- A sector has 512 bytes, which are its words from the low byte to the high one. `kzalloc` is taken to give memory, and
-- `ahci_read` to succeed.
use rayos.Base.{
  ℕ, zero, suc, ◌+◌, ◌-◌, ◌*◌, ◌/◌, ◌%◌, ◌^◌, Bool, ◌&&◌, ltb, leb, if◌then◌else◌, Option, none,
  some,
}
use rayos.Fat32.Cluster.{Bpb, Disk, cluster_to_lba}

-- FAT32_EOC
abbrev pub fat32_eoc : ℕ → Bool
fat32_eoc x = leb 0x0ffffff8 x

abbrev pub bytes_per_cluster : Bpb → ℕ
bytes_per_cluster bpb = bpb.bytes_per_sector * bpb.sectors_per_cluster

-- The entry of a cluster in the first FAT.
unfoldable pub next_cluster : Bpb → Disk → ℕ → ℕ
next_cluster bpb disk cluster =
    disk (bpb.reserved_sector_count + cluster * 4 / bpb.bytes_per_sector)
      (cluster % bpb.bytes_per_sector % (bpb.bytes_per_sector / 4))

-- For `bytes_per_sector` = 512, the size of a sector of the device:
-- the k-th byte of the buffer after the cluster's sectors have been read into it.
unfoldable pub cluster_buf : Bpb → Disk → ℕ → ℕ → ℕ
cluster_buf bpb disk cluster k =
    disk (cluster_to_lba bpb cluster + k / 512) (k % 512 / 4) / 2 ^ (8 * (k % 4)) % 2 ^ 8

-- `memcpy(buf, src, n)` from a buffer of its own.
abbrev pub copy_out : ℕ → (ℕ → ℕ) → ℕ → (ℕ → ℕ) → ℕ → ℕ
copy_out buf src n mem a = if leb buf a && ltb a (buf + n) then src (a - buf) else mem a

-- The memory, and what is left of the size.
unfoldable pub read_loop : ℕ → Bpb → Disk → ℕ → ℕ → ℕ → (ℕ → ℕ) → Option ((ℕ → ℕ) × ℕ)
read_loop zero bpb disk cluster buf size mem = none
read_loop (suc fuel) bpb disk cluster buf size mem =
    let bytes : ℕ = bytes_per_cluster bpb in
    let rest : Option ((ℕ → ℕ) × ℕ) =
      read_loop fuel bpb disk (next_cluster bpb disk cluster) (buf + bytes) (size - bytes)
        (copy_out buf (cluster_buf bpb disk cluster) bytes mem) in
    if fat32_eoc cluster
    then some (mem, size)
    else (if ltb bytes size
        then rest
        else some (copy_out buf (cluster_buf bpb disk cluster) size mem, size))

-- The halves of the file's first cluster, the buffer, the size and the memory. Each round takes a
-- cluster from the size, so `size + 1` rounds are enough unless a cluster has no bytes.
unfoldable pub read_cluster : Bpb → Disk → ℕ → ℕ → ℕ → ℕ → (ℕ → ℕ) → Option ((ℕ → ℕ) × ℕ)
read_cluster bpb disk first_cluster_hi first_cluster_lo buf size mem =
    read_loop (suc size) bpb disk ((first_cluster_hi * 2 ^ 16 + first_cluster_lo) % 2 ^ 32) buf size
      mem
