-- ===== src/Page/Range.antt =====
-- A range of pages, and the machine after a change of the first one's leaf entry.
use rayos.Base.{
  ℕ, suc, ◌+◌, ◌-◌, ◌*◌, ◌/◌, ◌%◌, ◌^◌, ◌≤◌, ◌<◌, ◌≡◌, refl, arith, Bool, false, Option, some, ◌==◌,
  ltb, if◌then◌else◌, subst,
}
use rayos.Page.{Machine, walk, poke}
use rayos.Page.Access.{i1}
use rayos.Page.Tables.{vpn, Rooted, Covered, Unshared, poked, poked-Covered, walk-poked}

-- How many pages vb lies above va, around the 2^36 pages of an address space.
abbrev pub offset : ℕ → ℕ → ℕ
offset va vb = (vpn vb + (2 ^ 36 - vpn va)) % 2 ^ 36

module _ (upper : ℕ → Bool) (m : Machine) where
  -- The n pages from va have their tables.
  abbrev pub RangeCovered : ℕ → ℕ → Type 0
  RangeCovered va n = (j : ℕ) → j < n → (t : ℕ) × Covered upper m (va + j * 4096) t

  -- The walks of m', for addresses that have their tables: the n pages from va lead to the frames
  -- from that of pa, in order, and all other pages lead where they led.
  abbrev pub Maps : ℕ → ℕ → ℕ → Machine → Type 0
  Maps pa va n m' =
      (vb t : ℕ)
      → Covered upper m vb t
      → walk m'.mem m'.cr3 vb
        ≡ (if ltb (offset va vb) n then some (pa / 4096 + offset va vb) else walk m.mem m.cr3 vb)

-- The pages from va are va's page and those from the next one.
pub range_step :
    (pa va vb n : ℕ) (old : Option ℕ)
    → suc n ≤ 2 ^ 36
    → (if ltb (offset (va + 0x1000) vb) n
        then some ((pa + 0x1000) / 4096 + offset (va + 0x1000) vb)
        else (if vpn vb == vpn va then some (pa / 4096) else old))
      ≡ (if ltb (offset va vb) (suc n) then some (pa / 4096 + offset va vb) else old)
range_step pa va vb n old h = ground arith

pub first-Covered :
    (upper : ℕ → Bool) (m : Machine) (va n : ℕ)
    → RangeCovered upper m va (suc n)
    → (t : ℕ) × Covered upper m va t
first-Covered upper m va n covered =
    let (t, c) = covered 0 (omega arith) in (t, subst (λ v. Covered upper m v t) (omega arith) c)

-- Once the first page's entry is written, the pages after it still have their tables.
pub next-RangeCovered :
    (upper : ℕ → Bool) (m : Machine)
    → Rooted upper m
    → (t1 index value : ℕ) → upper t1 ≡ false
    → (va n : ℕ) → RangeCovered upper m va (suc n)
    → RangeCovered upper (poked m t1 index value) (va + 0x1000) n
next-RangeCovered upper m root t1 index value leaf va n covered j h =
    let next : va + (j + 1) * 4096 ≡ va + 0x1000 + j * 4096 = omega arith in
    let (s, d) = covered (j + 1) (omega arith) in
    (
      s,
      poked-Covered upper m root t1 index value leaf _ s (subst (λ v. Covered upper m v s) next d),
    )

-- They lead where they led.
pub next_walk :
    (upper : ℕ → Bool) (m : Machine) (va t1 value n : ℕ)
    → Rooted upper m
    → Unshared upper m
    → Covered upper m va t1
    → RangeCovered upper m va (suc n)
    → suc n ≤ 2 ^ 36
    → (j : ℕ) → j < n
    → walk (poke m.mem t1 (i1 va) value) m.cr3 (va + 0x1000 + j * 4096)
      ≡ walk m.mem m.cr3 (va + (j + 1) * 4096)
next_walk upper m va t1 value n root unshared c covered hn j h =
    let next : va + 0x1000 + j * 4096 ≡ va + (j + 1) * 4096 = omega arith in
    let (s, d) = covered (j + 1) (omega arith) in
    let other : (vpn (va + (j + 1) * 4096) == vpn va) ≡ false = ground arith in
    rw (next, walk-poked upper m va (va + (j + 1) * 4096) t1 s value root unshared c d, other) refl
