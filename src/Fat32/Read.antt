-- ===== src/Fat32/Read.antt =====
-- `fat32_read_cluster` against the file's bytes, one cluster of its chain after the other.
use native.Mathlib.Nat.{div-eq_of_lt, mod-eq_of_lt, add-div_left, add-mod_left}
use rayos.Base.{
  ℕ, zero, suc, ◌+◌, ◌-◌, ◌*◌, ◌/◌, ◌%◌, ◌^◌, ◌≤◌, ◌<◌, ◌≡◌, ◌⊎◌, refl, arith, true, false, ◌&&◌,
  ltb, leb, ◌==◌, Option, some, inl, inr, Bool-cases, ◌∙◌, ap, sym,
}
use rayos.Fat32.Cluster.{Bpb, Disk}
use rayos.Fat32.Chain.{
  fat32_eoc, bytes_per_cluster, next_cluster, cluster_buf, copy_out, read_loop, read_cluster,
}

-- The n-th cluster of a chain.
abbrev pub nth_cluster : Bpb → Disk → ℕ → ℕ → ℕ
nth_cluster bpb disk cluster zero = cluster
nth_cluster bpb disk cluster (suc n) = nth_cluster bpb disk (next_cluster bpb disk cluster) n

-- The i-th byte of the file that starts at a cluster.
abbrev pub content : Bpb → Disk → ℕ → ℕ → ℕ
content bpb disk cluster i =
    cluster_buf bpb disk (nth_cluster bpb disk cluster (i / bytes_per_cluster bpb))
      (i % bytes_per_cluster bpb)

-- The memory m' has the first `size` bytes of the file from buf on, and is m elsewhere.
abbrev pub HasContent : Bpb → Disk → ℕ → ℕ → ℕ → (ℕ → ℕ) → (ℕ → ℕ) → Type 0
HasContent bpb disk cluster buf size m m' =
    ((i : ℕ) → i < size → m' (buf + i) ≡ content bpb disk cluster i)
    × ((a : ℕ) → a < buf ⊎ buf + size ≤ a → m' a ≡ m a)

copy_out-inside :
    (buf n : ℕ) (src mem : ℕ → ℕ) (i : ℕ) → i < n → copy_out buf src n mem (buf + i) ≡ src i
copy_out-inside buf n src mem i h =
    let at : (leb buf (buf + i) && ltb (buf + i) (buf + n)) ≡ true = ground arith in
    rw at (ap src (omega arith))

copy_out-outside :
    (buf n : ℕ) (src mem : ℕ → ℕ) (a : ℕ) → a < buf ⊎ buf + n ≤ a → copy_out buf src n mem a ≡ mem a
copy_out-outside buf n src mem a h =
    let at : (leb buf a && ltb a (buf + n)) ≡ false = ground (arith, h) in rw at refl

content-first :
    (bpb : Bpb) (disk : Disk) (c i : ℕ)
    → i < bytes_per_cluster bpb
    → content bpb disk c i ≡ cluster_buf bpb disk c i
content-first bpb disk c i h =
    ap (λ q. cluster_buf bpb disk (nth_cluster bpb disk c q) (i % bytes_per_cluster bpb))
      (div-eq_of_lt h)
    ∙ ap (cluster_buf bpb disk c) (mod-eq_of_lt h)

content-later :
    (bpb : Bpb) (disk : Disk) (c i : ℕ)
    → 1 ≤ bytes_per_cluster bpb
    → content bpb disk c (bytes_per_cluster bpb + i) ≡ content bpb disk (next_cluster bpb disk c) i
content-later bpb disk c i h =
    let bytes = bytes_per_cluster bpb in
    let quotient : (bytes + i) / bytes ≡ suc (i / bytes) = add-div_left i h ∙ omega arith in
    ap (λ q. cluster_buf bpb disk (nth_cluster bpb disk c q) ((bytes + i) % bytes)) quotient
    ∙ ap (cluster_buf bpb disk (nth_cluster bpb disk (next_cluster bpb disk c) (i / bytes)))
        (add-mod_left bytes i)

-- The first cluster's bytes have been copied, and then the rest of the file.
HasContent-cluster :
    (bpb : Bpb) (disk : Disk) (c buf size : ℕ) (m m' : ℕ → ℕ)
    → 1 ≤ bytes_per_cluster bpb
    → bytes_per_cluster bpb < size
    → HasContent bpb disk
        (next_cluster bpb disk c)
        (buf + bytes_per_cluster bpb)
        (size - bytes_per_cluster bpb)
        (copy_out buf (cluster_buf bpb disk c) (bytes_per_cluster bpb) m)
        m'
    → HasContent bpb disk c buf size m m'
HasContent-cluster bpb disk c buf size m m' some_bytes more (inside, outside) =
    let bytes = bytes_per_cluster bpb in
    let src = cluster_buf bpb disk c in
    (
      (λ i h. elim (Bool-cases (ltb i bytes)) [
        | inl low ↦
            let first : i < bytes = ground arith in
            outside (buf + i) (inl (omega arith))
            ∙ copy_out-inside buf bytes src m i first
            ∙ sym (content-first bpb disk c i first)
        | inr high ↦
            let k = i - bytes in
            let split : bytes + k ≡ i = ground arith in
            let place : buf + bytes + k ≡ buf + i = omega (arith, split) in
            ap m' (sym place)
            ∙ inside k (omega (arith, split))
            ∙ sym (content-later bpb disk c k some_bytes)
            ∙ ap (content bpb disk c) split
      ]),
      (λ a h. elim h [
        | inl lo ↦ outside a (inl (omega arith)) ∙ copy_out-outside buf bytes src m a (inl lo)
        | inr hi ↦
            outside a (inr (omega arith)) ∙ copy_out-outside buf bytes src m a (inr (omega arith))
      ]),
    )

HasContent-last :
    (bpb : Bpb) (disk : Disk) (c buf size : ℕ) (m : ℕ → ℕ)
    → size ≤ bytes_per_cluster bpb
    → HasContent bpb disk c buf size m (copy_out buf (cluster_buf bpb disk c) size m)
HasContent-last bpb disk c buf size m small = (
  (λ i h.
      copy_out-inside buf size (cluster_buf bpb disk c) m i h
      ∙ sym (content-first bpb disk c i (omega arith))),
  copy_out-outside buf size (cluster_buf bpb disk c) m,
)

-- What the reading of a chain gives: the content, and what is left of the size for the last cluster.
abbrev pub Reads : Bpb → Disk → ℕ → ℕ → ℕ → (ℕ → ℕ) → Option ((ℕ → ℕ) × ℕ) → Type 0
Reads bpb disk cluster buf size m result =
    (m' : ℕ → ℕ) × (left : ℕ) × (n : ℕ) × (result ≡ some (m', left))
    × HasContent bpb disk cluster buf size m m'
    × (size ≡ n * bytes_per_cluster bpb + left)
    × (left ≤ bytes_per_cluster bpb)

-- The clusters that hold the first `size` bytes do not end the chain.
abbrev pub LongEnough : Bpb → Disk → ℕ → ℕ → Type 0
LongEnough bpb disk cluster size =
    (j : ℕ) → j * bytes_per_cluster bpb < size → fat32_eoc (nth_cluster bpb disk cluster j) ≡ false

read_loop-Reads :
    (fuel : ℕ) (bpb : Bpb) (disk : Disk) (c buf size : ℕ) (m : ℕ → ℕ)
    → 1 ≤ bytes_per_cluster bpb
    → size < fuel
    → LongEnough bpb disk c size
    → Reads bpb disk c buf size m (read_loop fuel bpb disk c buf size m)
unfolding read_loop
read_loop-Reads zero bpb disk c buf size m some_bytes enough long = absurd (omega arith)
read_loop-Reads (suc fuel) bpb disk c buf size m some_bytes enough long =
    elim (Bool-cases (fat32_eoc c)) [
      | inl end ↦
          let empty : size ≡ 0 = elim (Bool-cases (size == 0)) [
            | inl none_left ↦ ground arith
            | inr some_left ↦
                let go : fat32_eoc c ≡ false = long 0 (ground arith) in cc (sym end ∙ go)
          ] in
          (
            m,
            size,
            0,
            rw end refl,
            ((λ i h. absurd (omega arith)), (λ a h. refl)),
            omega arith,
            omega arith,
          )
      | inr on ↦ elim (Bool-cases (ltb (bytes_per_cluster bpb) size)) [
        | inr last ↦
            let small : size ≤ bytes_per_cluster bpb = ground arith in
            (
              copy_out buf (cluster_buf bpb disk c) size m,
              size,
              0,
              rw (on, last) refl,
              HasContent-last bpb disk c buf size m small,
              omega arith,
              small,
            )
        | inl more ↦
            let wide : bytes_per_cluster bpb < size = ground arith in
            let (m', left, n, e, has, sum, bound) =
              read_loop-Reads fuel bpb disk (next_cluster bpb disk c) (buf + bytes_per_cluster bpb)
                (size - bytes_per_cluster bpb)
                (copy_out buf (cluster_buf bpb disk c) (bytes_per_cluster bpb) m) some_bytes
                (omega arith) (λ j h. long (suc j) (omega arith)) in
            (
              m',
              left,
              suc n,
              rw (on, more) e,
              HasContent-cluster bpb disk c buf size m m' some_bytes wide has,
              omega arith,
              bound,
            )
      ]
    ]

-- The whole call, with enough rounds.
pub read_cluster-Reads :
    (bpb : Bpb) (disk : Disk) (hi lo buf size : ℕ) (m : ℕ → ℕ)
    → 1 ≤ bytes_per_cluster bpb
    → LongEnough bpb disk ((hi * 2 ^ 16 + lo) % 2 ^ 32) size
    → Reads bpb disk
        ((hi * 2 ^ 16 + lo) % 2 ^ 32)
        buf
        size
        m
        (read_cluster bpb disk hi lo buf size m)
unfolding read_cluster
read_cluster-Reads bpb disk hi lo buf size m some_bytes long =
    read_loop-Reads (suc size) bpb disk ((hi * 2 ^ 16 + lo) % 2 ^ 32) buf size m some_bytes
      (omega arith) long
