-- ===== src/Fat32/Tests.antt =====
-- FAT32 on concrete names and a small disk.
use rayos.Base.{
  ◌⊎◌, some, suc, zero, ℕ, ◌+◌, ◌-◌, ◌*◌, ◌/◌, ◌%◌, ◌^◌, ◌≤◌, ◌<◌, ◌≡◌, ◌≢◌, ◌⊎◌, refl, arith,
  false, ◌==◌, if◌then◌else◌, List, [], ◌∷◌, update, pos,
}
use rayos.Fat32.{
  has_char, before_last, after_last, get_parent, sfn_part, sfn_to_ascii, toupper, put, ascii_to_sfn,
  is_sfn_char, needs_loop, need_lfn, ext_of,
}
use rayos.Fat32.Cluster.{
  Bpb, Disk, end_of_chain, cluster_to_lba, find_free, write_fats, take_entry, found_or, alloc_loop,
  alloc_cluster,
}
use rayos.Fat32.Chain.{read_cluster}
use rayos.Fat32.Bytes.{disk_of, file_byte, Holds, read_cluster-file_byte}
use rayos.Fat32.Names.{sfn_to_ascii-ascii_to_sfn}
use rayos.Fat32.Alloc.{
  Free, fat_sector, NoneFree, data_start, alloc_cluster-first, cluster_to_lba-apart,
}

-- "KERNEL.BIN"
abbrev kernel_bin : List ℕ
kernel_bin = 75 ∷ 69 ∷ 82 ∷ 78 ∷ 69 ∷ 76 ∷ 46 ∷ 66 ∷ 73 ∷ 78 ∷ []

needs_no_lfn : need_lfn kernel_bin ≡ false
unfolding need_lfn needs_loop is_sfn_char has_char before_last after_last
needs_no_lfn = refl

has_ext : ext_of kernel_bin ≢ []
unfolding has_char after_last
has_ext e = cc e

sfn_example :
    ((ascii_to_sfn kernel_bin).0 ≡ pos 0) × (sfn_to_ascii (ascii_to_sfn kernel_bin).1 ≡ kernel_bin)
sfn_example = sfn_to_ascii-ascii_to_sfn kernel_bin needs_no_lfn (λ e. has_ext)

-- "A." needs no long name and is read back as "A".
trailing_dot : need_lfn (65 ∷ 46 ∷ []) ≡ false
unfolding need_lfn needs_loop is_sfn_char has_char before_last after_last
trailing_dot = refl

trailing_dot_lost : sfn_to_ascii (ascii_to_sfn (65 ∷ 46 ∷ [])).1 ≡ 65 ∷ []
unfolding sfn_to_ascii ascii_to_sfn sfn_part put toupper has_char before_last after_last
trailing_dot_lost = refl

-- "/etc/rc"
abbrev etc_rc : List ℕ
etc_rc = 47 ∷ 101 ∷ 116 ∷ 99 ∷ 47 ∷ 114 ∷ 99 ∷ []

parent_of_etc_rc : get_parent etc_rc ≡ (pos 0, 47 ∷ 101 ∷ 116 ∷ 99 ∷ [])
unfolding get_parent has_char before_last
parent_of_etc_rc = refl

-- 32 reserved sectors and two FATs of two sectors.
abbrev bpb : Bpb
bpb = record {
  bytes_per_sector = 512;
  sectors_per_cluster = 8;
  reserved_sector_count = 32;
  num_fats = 2;
  fat_size_32 = 2;
}

-- The first sixteen entries of the first sector are taken, and no other one.
abbrev disk : Disk
disk s i = if s == 32 then (if i / 16 == 0 then 1 else 0) else 0

alloc_cluster_example :
    ((alloc_cluster bpb disk ≡ (2 ^ 32 - 1, disk)) × NoneFree bpb disk 0 2)
    ⊎ ((m : ℕ) × (i : ℕ) × (m < 2)
        × Free bpb disk m i
        × NoneFree bpb disk 0 m
        × ((y : ℕ) → y < i → ¬ Free bpb disk m y)
        × ((alloc_cluster bpb disk).0 ≡ (m * (512 / 32) + i) % 2 ^ 32)
        × ((s : ℕ)
            → ((x : ℕ) × (x < 2)
                × (s ≡ fat_sector bpb m x)
                × ((alloc_cluster bpb disk).1 s ≡ update (disk (32 + m)) i end_of_chain))
              ⊎ (((x : ℕ) → x < 2 → s ≢ fat_sector bpb m x)
                  × ((alloc_cluster bpb disk).1 s ≡ disk s))))
alloc_cluster_example = alloc_cluster-first bpb disk

-- Entry 16 of the first sector, cluster 16, is free, but entry 0 of the second sector, which is
-- cluster 128's, is taken, and its number is given as 16.
wrong_number : (alloc_cluster bpb disk).0 ≡ 16
unfolding alloc_cluster alloc_loop found_or take_entry find_free
wrong_number = refl

wrong_entry : (alloc_cluster bpb disk).1 33 0 ≡ end_of_chain
unfolding alloc_cluster alloc_loop found_or take_entry find_free write_fats
wrong_entry = refl

lba_example :
    (data_start bpb ≤ cluster_to_lba bpb 2) × (cluster_to_lba bpb 2 + 8 ≤ cluster_to_lba bpb 5)
lba_example = cluster_to_lba-apart bpb 2 5 (omega arith) (omega arith) (omega arith)

-- Clusters 3 and 2 are a chain: the FAT begins at the byte 16384, and the entry of 3 is 2.
abbrev bytes : ℕ → ℕ
bytes a = if a == 16396 then 2 else 0

bytes_small : (a : ℕ) → bytes a < 256
bytes_small a = ground arith

two_clusters : Holds bpb bytes 3 5000
two_clusters zero h = (omega arith, omega arith, omega arith)
two_clusters (suc zero) h = (omega arith, omega arith, omega arith)
two_clusters (suc (suc j)) h = absurd (omega (arith, h))

abbrev memory : ℕ → ℕ
memory a = 1

read_example :
    (m' : ℕ → ℕ) × (left : ℕ) × (n : ℕ) × (read_cluster bpb (disk_of bytes) 0 3 0x1000 5000 memory
      ≡ some (m', left))
    × ((i : ℕ) → i < 5000 → m' (0x1000 + i) ≡ file_byte bpb bytes 3 i)
    × ((a : ℕ) → a < 0x1000 ⊎ 0x1000 + 5000 ≤ a → m' a ≡ 1)
    × (5000 ≡ n * 4096 + left)
    × (left ≤ 4096)
read_example =
    read_cluster-file_byte bpb bytes 0 3 0x1000 5000 memory bytes_small refl (omega arith)
      (omega arith) (omega arith) two_clusters
