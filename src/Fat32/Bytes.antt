-- ===== src/Fat32/Bytes.antt =====
-- `fat32_read_cluster` against the bytes of a disk in the layout of FAT32.
use native.Mathlib.Nat.{div-add-mod'}
use rayos.Base.{
  ℕ, zero, suc, ◌+◌, ◌-◌, ◌*◌, ◌/◌, ◌%◌, ◌^◌, ◌≤◌, ◌<◌, ◌≡◌, ◌⊎◌, refl, arith, false, some, ◌∙◌, ap,
  sym, subst,
}
use rayos.Fat32.Cluster.{Bpb, Disk, cluster_to_lba}
use rayos.Fat32.Alloc.{data_start, cluster_to_lba-small}
use rayos.Fat32.Chain.{fat32_eoc, bytes_per_cluster, next_cluster, cluster_buf, read_cluster}
use rayos.Fat32.Read.{nth_cluster, content, LongEnough, read_cluster-Reads}

-- The 32-bit number at a byte address, from its low byte on.
abbrev pub le32 : (ℕ → ℕ) → ℕ → ℕ
le32 bytes a = bytes a + 2 ^ 8 * bytes (a + 1) + 2 ^ 16 * bytes (a + 2) + 2 ^ 24 * bytes (a + 3)

-- The disk that holds these bytes, in sectors of 512.
abbrev pub disk_of : (ℕ → ℕ) → Disk
disk_of bytes s i = le32 bytes (512 * s + 4 * i)

-- The n-th cluster of a file: the FAT's entry of a cluster is the number at four times the cluster's
-- number from the reserved sectors' end on.
abbrev pub chain : Bpb → (ℕ → ℕ) → ℕ → ℕ → ℕ
chain bpb bytes c zero = c
chain bpb bytes c (suc n) = chain bpb bytes (le32 bytes (512 * bpb.reserved_sector_count + 4 * c)) n

-- Where a cluster's bytes begin on the disk.
abbrev pub cluster_start : Bpb → ℕ → ℕ
cluster_start bpb c = 512 * (data_start bpb + (c - 2) * bpb.sectors_per_cluster)

-- The i-th byte of the file that begins at the cluster c.
abbrev pub file_byte : Bpb → (ℕ → ℕ) → ℕ → ℕ → ℕ
file_byte bpb bytes c i = bytes (
    cluster_start bpb (chain bpb bytes c (i / (512 * bpb.sectors_per_cluster)))
    + i % (512 * bpb.sectors_per_cluster))

-- A cluster of data, whose first sector has a number below 2^32.
abbrev pub IsData : Bpb → ℕ → Type 0
IsData bpb c =
    (2 ≤ c) × (c < 0x0ffffff8) × (data_start bpb + (c - 2) * bpb.sectors_per_cluster < 2 ^ 32)

-- The clusters that hold the first `size` bytes are clusters of data.
abbrev pub Holds : Bpb → (ℕ → ℕ) → ℕ → ℕ → Type 0
Holds bpb bytes c size =
    (j : ℕ) → j * (512 * bpb.sectors_per_cluster) < size → IsData bpb (chain bpb bytes c j)

byte_of :
    (b0 b1 b2 b3 : ℕ)
    → b0 < 256
    → b1 < 256
    → b2 < 256
    → b3 < 256
    → let w : ℕ = b0 + 2 ^ 8 * b1 + 2 ^ 16 * b2 + 2 ^ 24 * b3 in
      (w / 2 ^ 0 % 2 ^ 8 ≡ b0)
      × (w / 2 ^ 8 % 2 ^ 8 ≡ b1)
      × (w / 2 ^ 16 % 2 ^ 8 ≡ b2)
      × (w / 2 ^ 24 % 2 ^ 8 ≡ b3)
byte_of b0 b1 b2 b3 h0 h1 h2 h3 = (omega arith, omega arith, omega arith, omega arith)

module _ (bytes : ℕ → ℕ) (small : (a : ℕ) → bytes a < 256) where
  byte_at : (a t : ℕ) → t < 4 → le32 bytes a / 2 ^ (8 * t) % 2 ^ 8 ≡ bytes (a + t)
  byte_at a t h =
      let (e0, e1, e2, e3) =
        byte_of (bytes a) (bytes (a + 1)) (bytes (a + 2)) (bytes (a + 3)) (small a) (small (a + 1))
          (small (a + 2)) (small (a + 3)) in
      from t h e0 e1 e2 e3
    where
      from :
          (t : ℕ)
          → t < 4
          → le32 bytes a / 2 ^ 0 % 2 ^ 8 ≡ bytes a
          → le32 bytes a / 2 ^ 8 % 2 ^ 8 ≡ bytes (a + 1)
          → le32 bytes a / 2 ^ 16 % 2 ^ 8 ≡ bytes (a + 2)
          → le32 bytes a / 2 ^ 24 % 2 ^ 8 ≡ bytes (a + 3)
          → le32 bytes a / 2 ^ (8 * t) % 2 ^ 8 ≡ bytes (a + t)
      from zero h e0 e1 e2 e3 = e0 ∙ ap bytes (omega arith)
      from (suc zero) h e0 e1 e2 e3 = e1
      from (suc (suc zero)) h e0 e1 e2 e3 = e2
      from (suc (suc (suc zero))) h e0 e1 e2 e3 = e3
      from (suc (suc (suc (suc t)))) h e0 e1 e2 e3 = absurd (omega arith)

  module _ (bpb : Bpb) (sectors : bpb.bytes_per_sector ≡ 512) where
    next-entry :
        (c : ℕ)
        → next_cluster bpb (disk_of bytes) c ≡ le32 bytes (512 * bpb.reserved_sector_count + 4 * c)
    unfolding next_cluster
    next-entry c = rw sectors (ap (le32 bytes) (omega arith))

    nth-chain : (n c : ℕ) → nth_cluster bpb (disk_of bytes) c n ≡ chain bpb bytes c n
    nth-chain zero c = refl
    nth-chain (suc n) c =
        nth-chain n (next_cluster bpb (disk_of bytes) c)
        ∙ ap (λ d. chain bpb bytes d n) (next-entry c)

    cluster_buf-bytes :
        (c k : ℕ)
        → IsData bpb c
        → cluster_buf bpb (disk_of bytes) c k ≡ bytes (cluster_start bpb c + k)
    unfolding cluster_buf
    cluster_buf-bytes c k (real, valid, fits) =
        let lba = cluster_to_lba bpb c in
        byte_at (512 * (lba + k / 512) + 4 * (k % 512 / 4)) (k % 4) (omega arith)
        ∙ ap bytes (omega (arith, cluster_to_lba-small bpb c real fits))

    whole_clusters : bytes_per_cluster bpb ≡ 512 * bpb.sectors_per_cluster
    whole_clusters = ap (λ b. b * bpb.sectors_per_cluster) sectors

    content-file_byte :
        (c i size : ℕ)
        → Holds bpb bytes c size
        → i < size
        → content bpb (disk_of bytes) c i ≡ file_byte bpb bytes c i
    content-file_byte c i size holds h =
        let size' = 512 * bpb.sectors_per_cluster in
        let n = i / size' in
        let inside : n * size' < size = omega (arith, div-add-mod' i size') in
        ap
          (λ b. cluster_buf bpb (disk_of bytes) (nth_cluster bpb (disk_of bytes) c (i / b)) (i % b))
          whole_clusters
        ∙ ap (λ d. cluster_buf bpb (disk_of bytes) d (i % size')) (nth-chain n c)
        ∙ cluster_buf-bytes (chain bpb bytes c n) (i % size') (holds n inside)

    long_enough : (c size : ℕ) → Holds bpb bytes c size → LongEnough bpb (disk_of bytes) c size
    long_enough c size holds j h =
        let there : j * (512 * bpb.sectors_per_cluster) < size =
          subst (λ b. j * b < size) whole_clusters h in
        let (real, valid, fits) = holds j there in
        let on : fat32_eoc (chain bpb bytes c j) ≡ false = ground (arith, valid) in
        ap (λ d. fat32_eoc d) (nth-chain j c) ∙ on

-- On a disk of bytes in sectors of 512, with at least one sector to a cluster: if the clusters of the
-- chain that hold the first `size` bytes of the file are clusters of data, then the reading ends. The
-- memory then has these bytes from buf on, and is as it was elsewhere. The result is the size less
-- whole clusters, and at most one cluster. The FAT and the clusters stand where FAT32 has them, and a
-- FAT's entry is four bytes from the low one on.
pub read_cluster-file_byte :
    (bpb : Bpb) (bytes : ℕ → ℕ) (hi lo buf size : ℕ) (m : ℕ → ℕ)
    → ((a : ℕ) → bytes a < 256)
    → bpb.bytes_per_sector ≡ 512
    → 1 ≤ bpb.sectors_per_cluster
    → hi < 2 ^ 16
    → lo < 2 ^ 16
    → Holds bpb bytes (hi * 2 ^ 16 + lo) size
    → (m' : ℕ → ℕ) × (left : ℕ) × (n : ℕ) × (read_cluster bpb (disk_of bytes) hi lo buf size m
        ≡ some (m', left))
      × ((i : ℕ) → i < size → m' (buf + i) ≡ file_byte bpb bytes (hi * 2 ^ 16 + lo) i)
      × ((a : ℕ) → a < buf ⊎ buf + size ≤ a → m' a ≡ m a)
      × (size ≡ n * (512 * bpb.sectors_per_cluster) + left)
      × (left ≤ 512 * bpb.sectors_per_cluster)
read_cluster-file_byte bpb bytes hi lo buf size m small sectors some_sectors high low holds =
    let c = hi * 2 ^ 16 + lo in
    let first : c % 2 ^ 32 ≡ c = omega arith in
    let whole = whole_clusters bytes small bpb sectors in
    let (m', left, n, runs, has, sum, bound) =
      read_cluster-Reads bpb (disk_of bytes) hi lo buf size m (omega (arith, whole)) (
        subst (λ d. LongEnough bpb (disk_of bytes) d size) (sym first)
          (long_enough bytes small bpb sectors c size holds)) in
    (
      m',
      left,
      n,
      runs,
      (λ i h.
          has.0 i h
          ∙ ap (λ d. content bpb (disk_of bytes) d i) first
          ∙ content-file_byte bytes small bpb sectors c i size holds h),
      has.1,
      sum ∙ ap (λ b. n * b + left) whole,
      omega (arith, bound, whole),
    )
