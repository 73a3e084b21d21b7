-- ===== src/Page/Tables.antt =====
-- The tables of an address: upper ones, which a change of a leaf entry leaves alone, and the leaf
-- table, whose entries map pages.
use rayos.Base.{
  ℕ, ◌/◌, ◌%◌, ◌^◌, ◌≡◌, refl, arith, Bool, true, false, Option, none, some, ◌==◌, if◌then◌else◌,
  inl, inr, Bool-cases, ◌∙◌, sym, subst,
}
use rayos.Page.{Machine, child, walk, poke, present, frame_of}
use rayos.Page.Walk.{Recursive, child-poke_ne, child-poke_other, child-poke_self}
use rayos.Page.Address.{index_at_lem}
use rayos.Page.Access.{i4, i3, i2, i1, Path3, walk-Path3}

-- The number of an address's page: its bits 12 to 47.
abbrev pub vpn : ℕ → ℕ
vpn va = va / 4096 % 2 ^ 36

module _ (upper : ℕ → Bool) where
  -- The recursive slot, in a top table that is an upper one.
  pub record Rooted (m : Machine) : Type 0 where
    pub recursive : Recursive m
    pub top : upper m.cr3 ≡ true

  -- The address has its three tables: two upper ones and a leaf table, `t1`.
  pub record Covered (m : Machine) (va t1 : ℕ) : Type 0 where
    pub t3 : ℕ
    pub t2 : ℕ
    pub path : Path3 m.mem m.cr3 va t3 t2 t1
    pub upper3 : upper t3 ≡ true
    pub upper2 : upper t2 ≡ true
    pub leaf : upper t1 ≡ false

  -- No leaf table serves two regions.
  abbrev pub Unshared : Machine → Type 0
  Unshared m = (va vb t : ℕ) → Covered m va t → Covered m vb t → vpn va / 512 ≡ vpn vb / 512

  -- The tables of m' are those of m: the same addresses have them, and the top one is in order.
  pub record SameTables (m m' : Machine) : Type 0 where
    pub rooted : Rooted m'
    pub kept : (va t : ℕ) → Covered m va t → Covered m' va t
    pub back : (va t : ℕ) → Covered m' va t → Covered m va t

-- The machine with one word of one frame changed.
abbrev pub poked : Machine → ℕ → ℕ → ℕ → Machine
poked m t index value = record m { mem = poke m.mem t index value }

module _ (upper : ℕ → Bool) (m : Machine) (root : Rooted upper m) (t index value : ℕ)
    (leaf : upper t ≡ false) where
  same_child : (u i : ℕ) → upper u ≡ true → child (poke m.mem t index value) u i ≡ child m.mem u i
  same_child u i h = child-poke_ne m.mem t index value u i (λ e. cc (h, leaf, e))

  -- A word written to a leaf table leaves the upper tables as they are.
  pub poked-Rooted : Rooted upper (poked m t index value)
  poked-Rooted = record {
    recursive = same_child m.cr3 511 root.top ∙ root.recursive;
    top = root.top;
  }

  pub poked-Covered :
      (va t1 : ℕ) → Covered upper m va t1 → Covered upper (poked m t index value) va t1
  poked-Covered va t1 c = record {
    t3 = c.t3;
    t2 = c.t2;
    path = record {
      e3 = same_child m.cr3 _ root.top ∙ c.path.e3;
      e2 = same_child c.t3 _ c.upper3 ∙ c.path.e2;
      e1 = same_child c.t2 _ c.upper2 ∙ c.path.e1;
    };
    upper3 = c.upper3;
    upper2 = c.upper2;
    leaf = c.leaf;
  }

  pub poked-uncovered :
      (va t1 : ℕ) → Covered upper (poked m t index value) va t1 → Covered upper m va t1
  poked-uncovered va t1 c = record {
    t3 = c.t3;
    t2 = c.t2;
    path = record {
      e3 = sym (same_child m.cr3 _ root.top) ∙ c.path.e3;
      e2 = sym (same_child c.t3 _ c.upper3) ∙ c.path.e2;
      e1 = sym (same_child c.t2 _ c.upper2) ∙ c.path.e1;
    };
    upper3 = c.upper3;
    upper2 = c.upper2;
    leaf = c.leaf;
  }

  pub poked-Unshared : Unshared upper m → Unshared upper (poked m t index value)
  poked-Unshared u va vb s ca cb = u va vb s (poked-uncovered va s ca) (poked-uncovered vb s cb)

pub SameTables-Unshared :
    (upper : ℕ → Bool) (m m' : Machine)
    → SameTables upper m m'
    → Unshared upper m
    → Unshared upper m'
SameTables-Unshared upper m m' same u va vb s ca cb =
    u va vb s (same.back va s ca) (same.back vb s cb)

pub SameTables-poked :
    (upper : ℕ → Bool) (m m' : Machine) (t index value : ℕ)
    → Rooted upper m
    → upper t ≡ false
    → SameTables upper (poked m t index value) m'
    → SameTables upper m m'
SameTables-poked upper m m' t index value root leaf same = record {
  rooted = same.rooted;
  kept = λ va s c. same.kept va s (poked-Covered upper m root t index value leaf va s c);
  back = λ va s c. poked-uncovered upper m root t index value leaf va s (same.back va s c);
}

-- The walk as a function of the four indices.
unfoldable walk_at : (ℕ → ℕ → ℕ) → ℕ → ℕ → ℕ → ℕ → ℕ → Option ℕ
walk_at mem cr3 a b c d = elim (child mem cr3 a) [
  | none ↦ none
  | some pdpt ↦ elim (child mem pdpt b) [
    | none ↦ none
    | some pd ↦ elim (child mem pd c) [ none ↦ none | some pt ↦ child mem pt d ]
  ]
]

walk-walk_at :
    (mem : ℕ → ℕ → ℕ) (cr3 va : ℕ)
    → walk mem cr3 va
      ≡ walk_at mem cr3
          (va / 2 ^ 39 % 512)
          (va / 2 ^ 30 % 512)
          (va / 2 ^ 21 % 512)
          (va / 2 ^ 12 % 512)
unfolding walk walk_at
walk-walk_at mem cr3 va = refl

-- An address's walk depends on its page only.
pub walk-vpn :
    (mem : ℕ → ℕ → ℕ) (cr3 va vb : ℕ) → vpn va ≡ vpn vb → walk mem cr3 va ≡ walk mem cr3 vb
walk-vpn mem cr3 va vb same =
    let four : va / 2 ^ 39 % 512 ≡ vb / 2 ^ 39 % 512 = omega arith in
    let three : va / 2 ^ 30 % 512 ≡ vb / 2 ^ 30 % 512 = omega arith in
    let two : va / 2 ^ 21 % 512 ≡ vb / 2 ^ 21 % 512 = omega arith in
    let one : va / 2 ^ 12 % 512 ≡ vb / 2 ^ 12 % 512 = omega arith in
    cc (walk-walk_at mem cr3 va, walk-walk_at mem cr3 vb)

-- The walk of a covered address ends with its leaf entry.
pub walk-Covered :
    (upper : ℕ → Bool) (m : Machine) (va t1 : ℕ)
    → Rooted upper m
    → Covered upper m va t1
    → walk m.mem m.cr3 va ≡ child m.mem t1 (i1 va)
walk-Covered upper m va t1 root c = walk-Path3 m root.recursive va c.t3 c.t2 t1 c.path

-- Addresses of one region have one leaf table.
pub Covered-region :
    (upper : ℕ → Bool) (m : Machine) (va vb t1 s1 : ℕ)
    → vpn va / 512 ≡ vpn vb / 512
    → Covered upper m va t1
    → Covered upper m vb s1
    → t1 ≡ s1
Covered-region upper m va vb t1 s1 same c d =
    let four : i4 va ≡ i4 vb = omega (arith, index_at_lem 39 va, index_at_lem 39 vb) in
    let three : i3 va ≡ i3 vb = omega (arith, index_at_lem 30 va, index_at_lem 30 vb) in
    let two : i2 va ≡ i2 vb = omega (arith, index_at_lem 21 va, index_at_lem 21 vb) in
    let t3 : c.t3 ≡ d.t3 = cc (c.path.e3, d.path.e3, four) in
    let t2 : c.t2 ≡ d.t2 = cc (c.path.e2, d.path.e2, three, t3) in
    cc (c.path.e1, d.path.e1, two, t2)

-- A leaf entry written for one page changes the walk of that page's addresses, and no other.
pub walk-poked :
    (upper : ℕ → Bool) (m : Machine) (va vb t1 s1 value : ℕ)
    → Rooted upper m
    → Unshared upper m
    → Covered upper m va t1
    → Covered upper m vb s1
    → walk (poke m.mem t1 (i1 va) value) m.cr3 vb ≡ (
        if vpn vb == vpn va
        then (if present value then some (frame_of value) else none)
        else walk m.mem m.cr3 vb)
walk-poked upper m va vb t1 s1 value root unshared c d =
    walk-Covered upper (poked m t1 (i1 va) value) vb s1
      (poked-Rooted upper m root t1 (i1 va) value c.leaf)
      (poked-Covered upper m root t1 (i1 va) value c.leaf vb s1 d)
    ∙ entry
  where
    entry : child (poke m.mem t1 (i1 va) value) s1 (i1 vb) ≡ (
        if vpn vb == vpn va
        then (if present value then some (frame_of value) else none)
        else walk m.mem m.cr3 vb)
    entry = elim (Bool-cases (vpn vb == vpn va)) [
      | inl same ↦
          let table : s1 ≡ t1 = sym (Covered-region upper m va vb t1 s1 (ground arith) c d) in
          let index : i1 vb ≡ i1 va = ground (arith, index_at_lem 12 va, index_at_lem 12 vb) in
          rw (same, table, index) (child-poke_self m.mem t1 (i1 va) value)
      | inr other ↦ elim (Bool-cases (s1 == t1)) [
        | inl table ↦
            let at : s1 ≡ t1 = ground arith in
            let region : vpn va / 512 ≡ vpn vb / 512 =
              unshared va vb t1 c (subst (Covered upper m vb) at d) in
            rw (other, walk-Covered upper m vb s1 root d, at)
              (child-poke_other m.mem t1 (i1 va) value (i1 vb)
                (λ e. ground (arith, index_at_lem 12 va, index_at_lem 12 vb)))
        | inr apart ↦
            rw (other, walk-Covered upper m vb s1 root d)
              (child-poke_ne m.mem t1 (i1 va) value s1 (i1 vb) (λ e. ground arith))
      ]
    ]
