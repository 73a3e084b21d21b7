-- ===== src/Page/Access.antt =====
-- The steps of the page-table code, each by its outcome on the tables themselves.
use rayos.Base.{ℕ, ◌<◌, ◌≡◌, refl, arith, none, some, if◌then◌else◌, inl, inr, Bool-cases, subst}
use rayos.Page.{
  Machine, M, child, load, present, frame_of, if_present, index_at, ◌>>=◌, map_pml4, map_pdpt,
  map_pd, map_pt, walk, store_leaf, poke, word_at,
}
use rayos.Page.Address.{
  Splits, index_at_lem, map_pml4-Splits, map_pdpt-Splits, map_pd-Splits, map_pt-Splits,
}
use rayos.Page.Walk.{Recursive, load-word, store-word, walk-pml4, walk-pdpt, walk-pd, walk-pt}

module _ {A : Type 0} (m : Machine) (table index frame : ℕ) (absent : A) (rest : ℕ → M A)
    (read : load table index m ≡ some (m.mem frame index, m)) where
  pub if_present-none :
      child m.mem frame index ≡ none → if_present table index absent rest m ≡ some (absent, m)
  unfolding child if_present
  if_present-none e = elim (Bool-cases (present (m.mem frame index))) [
    | inl here ↦
        cc (subst (λ b. (if b then some (frame_of (m.mem frame index)) else none) ≡ none) here e)
    | inr gone ↦ rw (read, if_present, ◌>>=◌, gone) refl
  ]

  pub if_present-some :
      (below : ℕ)
      → child m.mem frame index ≡ some below
      → if_present table index absent rest m ≡ rest (m.mem frame index) m
  unfolding child if_present
  if_present-some below e = elim (Bool-cases (present (m.mem frame index))) [
    | inl here ↦ rw (read, if_present, ◌>>=◌, here) refl
    | inr gone ↦
        cc (
          subst (λ b. (if b then some (frame_of (m.mem frame index)) else none) ≡ some below) gone
            e)
  ]

pub index-lt : (shift va : ℕ) → index_at shift va < 512
index-lt shift va = omega (arith, index_at_lem shift va)

abbrev pub i4 : ℕ → ℕ
i4 va = index_at 39 va

abbrev pub i3 : ℕ → ℕ
i3 va = index_at 30 va

abbrev pub i2 : ℕ → ℕ
i2 va = index_at 21 va

abbrev pub i1 : ℕ → ℕ
i1 va = index_at 12 va

-- The tables that the walk of an address passes: `t3` below the top one, then `t2`, then `t1`.
pub record Path3 (mem : ℕ → ℕ → ℕ) (cr3 va t3 t2 t1 : ℕ) : Type 0 where
  pub e3 : child mem cr3 (i4 va) ≡ some t3
  pub e2 : child mem t3 (i3 va) ≡ some t2
  pub e1 : child mem t2 (i2 va) ≡ some t1

module _ (m : Machine) (rec : Recursive m) (va : ℕ) where
  -- The loads of a descent, once the tables above are known.
  pub load-pml4 : load map_pml4 (i4 va) m ≡ some (m.mem m.cr3 (i4 va), m)
  load-pml4 =
      load-word m _ _ _ _ _ _ m.cr3 (map_pml4-Splits _ (index-lt 39 va))
        (walk-pml4 m rec 0 0 0 (omega arith) (omega arith) (omega arith) _ (index-lt 39 va))

  module _ (t3 : ℕ) (e3 : child m.mem m.cr3 (i4 va) ≡ some t3) where
    pub load-pdpt : load (map_pdpt (i4 va)) (i3 va) m ≡ some (m.mem t3 (i3 va), m)
    load-pdpt = load-word m _ _ _ _ _ _ t3 (map_pdpt-Splits _ _ (index-lt 39 va) (index-lt 30 va)) (
        walk-pdpt m rec _ 0 0 (index-lt 39 va) (omega arith) (omega arith) _ (index-lt 30 va) t3 e3)

    module _ (t2 : ℕ) (e2 : child m.mem t3 (i3 va) ≡ some t2) where
      pub load-pd : load (map_pd (i4 va) (i3 va)) (i2 va) m ≡ some (m.mem t2 (i2 va), m)
      load-pd =
          load-word m _ _ _ _ _ _ t2
            (map_pd-Splits _ _ _ (index-lt 39 va) (index-lt 30 va) (index-lt 21 va))
            (walk-pd m rec _ _ 0 (index-lt 39 va) (index-lt 30 va) (omega arith) _ (index-lt 21 va)
              t3 t2 e3 e2)

  module _ (t3 t2 t1 : ℕ) (p : Path3 m.mem m.cr3 va t3 t2 t1) where
    leaf_walk : walk m.mem m.cr3 (word_at (map_pt (i4 va) (i3 va) (i2 va)) (i1 va)) ≡ some t1
    leaf_walk =
        walk-pt m rec _ _ _ (index-lt 39 va) (index-lt 30 va) (index-lt 21 va) _ (index-lt 12 va) t3
          t2 t1 p.e3 p.e2 p.e1

    leaf-Splits :
        Splits
          (word_at (map_pt (i4 va) (i3 va) (i2 va)) (i1 va))
          511
          (i4 va)
          (i3 va)
          (i2 va)
          (i1 va)
    leaf-Splits =
        map_pt-Splits _ _ _ _ (index-lt 39 va) (index-lt 30 va) (index-lt 21 va) (index-lt 12 va)

    pub load-pt : load (map_pt (i4 va) (i3 va) (i2 va)) (i1 va) m ≡ some (m.mem t1 (i1 va), m)
    load-pt = load-word m _ _ _ _ _ _ t1 leaf-Splits leaf_walk

    pub store_leaf-poke :
        (value : ℕ)
        → store_leaf va value m ≡ some (tt, record m { mem = poke m.mem t1 (i1 va) value })
    unfolding store_leaf
    store_leaf-poke value = store-word m _ _ value _ _ _ _ t1 leaf-Splits leaf_walk

    -- With the three tables there, the walk ends with the last table's entry.
    pub walk-Path3 : walk m.mem m.cr3 va ≡ child m.mem t1 (i1 va)
    unfolding walk
    walk-Path3 =
        rw
          (
            ← index_at_lem 39 va,
            p.e3,
            ← index_at_lem 30 va,
            p.e2,
            ← index_at_lem 21 va,
            p.e1,
            ← index_at_lem 12 va,
            walk,
          )
          refl
