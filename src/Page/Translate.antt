-- ===== src/Page/Translate.antt =====
-- `get_physaddr` and the descent of the page-table code against the processor's walk.
use rayos.Base.{
  ℕ, ◌+◌, ◌*◌, ◌/◌, ◌%◌, ◌^◌, ◌<◌, ◌≡◌, ◌⊎◌, refl, arith, none, some, inl, inr, Option-cases, ◌∙◌,
  ap,
}
use rayos.Page.{
  Machine, M, child, walk, frame_of, if_present, with_leaf, get_physaddr, not_mapped, map_pt,
}
use rayos.Page.Address.{index_at_lem, physical_lem}
use rayos.Page.Walk.{Recursive}
use rayos.Page.Access.{
  i4, i3, i2, i1, Path3, load-pml4, load-pdpt, load-pd, load-pt, walk-Path3, if_present-none,
  if_present-some,
}

module _ {A : Type 0} (m : Machine) (rec : Recursive m) (va : ℕ) (absent : A) (rest : ℕ → M A) where
  -- The descent stops where the processor's walk faults.
  abbrev pub Stopped : Type 0
  Stopped = (walk m.mem m.cr3 va ≡ none) × (with_leaf va absent rest m ≡ some (absent, m))

  -- The descent reaches the entry by which the walk ends, with the machine unchanged.
  abbrev pub Reached : Type 0
  Reached =
      (t3 t2 t1 below : ℕ) × Path3 m.mem m.cr3 va t3 t2 t1
      × (child m.mem t1 (i1 va) ≡ some below)
      × (walk m.mem m.cr3 va ≡ some below)
      × (with_leaf va absent rest m ≡ rest (m.mem t1 (i1 va)) m)

  at_leaf : (t3 t2 t1 : ℕ) → Path3 m.mem m.cr3 va t3 t2 t1 → Stopped ⊎ Reached
  unfolding with_leaf
  at_leaf t3 t2 t1 p =
      let down : with_leaf va absent rest m
          ≡ if_present (map_pt (i4 va) (i3 va) (i2 va)) (i1 va) absent rest m =
        if_present-some m _ _ m.cr3 absent _ (load-pml4 m rec va) t3 p.e3
        ∙ if_present-some m _ _ t3 absent _ (load-pdpt m rec va t3 p.e3) t2 p.e2
        ∙ if_present-some m _ _ t2 absent _ (load-pd m rec va t3 p.e3 t2 p.e2) t1 p.e1 in
      elim (Option-cases (child m.mem t1 (i1 va))) [
        | inl gone ↦ inl (
          walk-Path3 m rec va t3 t2 t1 p ∙ gone,
          down ∙ if_present-none m _ _ t1 absent rest (load-pt m rec va t3 t2 t1 p) gone,
        )
        | inr (below, here) ↦ inr (
          t3,
          t2,
          t1,
          below,
          p,
          here,
          walk-Path3 m rec va t3 t2 t1 p ∙ here,
          down ∙ if_present-some m _ _ t1 absent rest (load-pt m rec va t3 t2 t1 p) below here,
        )
      ]

  at_pd :
      (t3 t2 : ℕ)
      → child m.mem m.cr3 (i4 va) ≡ some t3
      → child m.mem t3 (i3 va) ≡ some t2
      → Stopped ⊎ Reached
  unfolding with_leaf walk
  at_pd t3 t2 e3 e2 = elim (Option-cases (child m.mem t2 (i2 va))) [
    | inl gone ↦ inl (
      rw (← index_at_lem 39 va, e3, ← index_at_lem 30 va, e2, ← index_at_lem 21 va, gone, walk)
          refl,
      if_present-some m _ _ m.cr3 absent _ (load-pml4 m rec va) t3 e3
          ∙ if_present-some m _ _ t3 absent _ (load-pdpt m rec va t3 e3) t2 e2
          ∙ if_present-none m _ _ t2 absent _ (load-pd m rec va t3 e3 t2 e2) gone,
    )
    | inr (t1, e1) ↦ at_leaf t3 t2 t1 (record { e3 = e3; e2 = e2; e1 = e1 })
  ]

  at_pdpt : (t3 : ℕ) → child m.mem m.cr3 (i4 va) ≡ some t3 → Stopped ⊎ Reached
  unfolding with_leaf walk
  at_pdpt t3 e3 = elim (Option-cases (child m.mem t3 (i3 va))) [
    | inl gone ↦ inl (
      rw (← index_at_lem 39 va, e3, ← index_at_lem 30 va, gone, walk) refl,
      if_present-some m _ _ m.cr3 absent _ (load-pml4 m rec va) t3 e3
          ∙ if_present-none m _ _ t3 absent _ (load-pdpt m rec va t3 e3) gone,
    )
    | inr (t2, e2) ↦ at_pd t3 t2 e3 e2
  ]

  pub with_leaf-walk : Stopped ⊎ Reached
  unfolding with_leaf walk
  with_leaf-walk = elim (Option-cases (child m.mem m.cr3 (i4 va))) [
    | inl gone ↦ inl (
      rw (← index_at_lem 39 va, gone, walk) refl,
      if_present-none m _ _ m.cr3 absent _ (load-pml4 m rec va) gone,
    )
    | inr (t3, e3) ↦ at_pdpt t3 e3
  ]

-- `get_physaddr` of a machine with the recursive slot agrees with the processor's walk and changes
-- nothing: where the walk faults it returns -MAP_ERR_NOTMAPPED; where the walk ends at a frame it
-- returns that frame's address plus the offset in the page, with bits 52 to 63 of the last entry
-- (`high`) left in place.
pub get_physaddr-walk :
    (m : Machine) (va : ℕ)
    → Recursive m
    → ((f w : ℕ) → m.mem f w < 2 ^ 64)
    → ((walk m.mem m.cr3 va ≡ none) × (get_physaddr va m ≡ some (not_mapped, m)))
      ⊎ ((frame high : ℕ) × (walk m.mem m.cr3 va ≡ some frame)
          × (frame < 2 ^ 40)
          × (get_physaddr va m ≡ some (high * 2 ^ 52 + frame * 4096 + va % 4096, m)))
unfolding get_physaddr child
get_physaddr-walk m va rec sized = elim (with_leaf-walk m rec va not_mapped _) [
  | inl stopped ↦ inl stopped
  | inr (t3, t2, t1, below, p, here, there, same) ↦
      let leaf : ℕ = m.mem t1 (i1 va) in
      let frame : below ≡ frame_of leaf = ground arith in
      inr (
        below,
        leaf / 2 ^ 52,
        there,
        omega arith,
        same ∙ ap (λ t. some (t, m)) (omega (arith, physical_lem leaf va (sized t1 (i1 va)))),
      )
]
