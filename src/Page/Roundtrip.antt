-- ===== src/Page/Roundtrip.antt =====
-- `map_page_range` and then `unmap_page_range` of the same pages.
use rayos.Base.{
  ℕ, ◌+◌, ◌*◌, ◌/◌, ◌^◌, ◌≤◌, ◌<◌, ◌≡◌, refl, arith, Bool, true, none, some, ◌==◌, ltb, inl, inr,
  Bool-cases, ◌∙◌, ap, sym, subst, pos,
}
use rayos.Page.{Machine, walk, unmap_page_range, map_page_range, ◌>>=◌}
use rayos.Page.Tables.{vpn, Rooted, Covered, Unshared, SameTables, SameTables-Unshared, walk-vpn}
use rayos.Page.Range.{offset, RangeCovered, Maps}
use rayos.Page.Map.{map_page_range-Maps}
use rayos.Page.Unmap.{Unmaps, MappedPrefix, unmap_page_range-Unmaps}

module _ (upper : ℕ → Bool) (m : Machine) (virtaddr n : ℕ) (hv : virtaddr + n * 4096 < 2 ^ 64)
    (hn : n < 2 ^ 31) where
  was_free :
      ((j : ℕ) → j < n → walk m.mem m.cr3 (virtaddr + j * 4096) ≡ none)
      → (vb : ℕ) → ltb (offset virtaddr vb) n ≡ true
      → walk m.mem m.cr3 vb ≡ none
  was_free free vb inside =
      let page : vpn vb ≡ vpn (virtaddr + offset virtaddr vb * 4096) = omega arith in
      walk-vpn m.mem m.cr3 vb (virtaddr + offset virtaddr vb * 4096) page
      ∙ free (offset virtaddr vb) (ground arith)

  -- After the mapping, the unmapping finds no page to stop at.
  pub all_mapped :
      (m' : Machine) (physaddr k : ℕ)
      → RangeCovered upper m virtaddr n
      → Maps upper m physaddr virtaddr n m'
      → MappedPrefix upper m' virtaddr n k
      → k ≡ n
  all_mapped m' physaddr k covered maps (within, mapped, inl all) = all
  all_mapped m' physaddr k covered maps (within, mapped, inr gone) = elim (Bool-cases (k == n)) [
    | inl all ↦ ground arith
    | inr more ↦
        let (t, c) = covered k (ground arith) in
        let at : offset virtaddr (virtaddr + k * 4096) ≡ k = ground arith in
        let inside : ltb k n ≡ true = ground arith in
        let there : walk m'.mem m'.cr3 (virtaddr + k * 4096) ≡ some (physaddr / 4096 + k) =
          maps (virtaddr + k * 4096) t c ∙ rw (at, inside) refl in
        cc (gone, there)
  ]

  pub restored :
      (m' m'' : Machine) (physaddr : ℕ)
      → ((j : ℕ) → j < n → walk m.mem m.cr3 (virtaddr + j * 4096) ≡ none)
      → SameTables upper m m'
      → Maps upper m physaddr virtaddr n m'
      → Unmaps upper m' virtaddr n m''
      → (vb t : ℕ) → Covered upper m vb t
      → walk m''.mem m''.cr3 vb ≡ walk m.mem m.cr3 vb
  restored m' m'' physaddr free tables maps unmaps vb t c =
      elim (Bool-cases (ltb (offset virtaddr vb) n)) [
        | inl inside ↦ unmaps vb t (tables.kept vb t c) ∙ rw inside (sym (was_free free vb inside))
        | inr outside ↦
            unmaps vb t (tables.kept vb t c) ∙ rw outside (maps vb t c ∙ rw outside refl)
      ]

-- What `map_page_range` mapped, `unmap_page_range` unmaps in full, and then every page that has its
-- tables leads where it led before the two. The conditions are those of `map_page_range` of n pages
-- that have their tables and are not mapped.
pub unmap_page_range-map_page_range :
    (upper : ℕ → Bool) (m : Machine) (physaddr virtaddr flags n : ℕ)
    → Rooted upper m
    → Unshared upper m
    → RangeCovered upper m virtaddr n
    → ((j : ℕ) → j < n → walk m.mem m.cr3 (virtaddr + j * 4096) ≡ none)
    → flags < 4096
    → physaddr + n * 4096 ≤ 2 ^ 52
    → virtaddr + n * 4096 < 2 ^ 64
    → n < 2 ^ 31
    → (m' : Machine) × ((map_page_range physaddr virtaddr flags n >>= λ _.
            unmap_page_range virtaddr n)
          m
        ≡ some (pos n, m'))
      × ((vb t : ℕ) → Covered upper m vb t → walk m'.mem m'.cr3 vb ≡ walk m.mem m.cr3 vb)
unmap_page_range-map_page_range upper m physaddr virtaddr flags n root unshared covered free small
      hp hv hn =
    undone (
      map_page_range-Maps upper m physaddr virtaddr flags n root unshared covered free small hp hv
        hn)
  where
    undone :
        ((m' : Machine) × (map_page_range physaddr virtaddr flags n m ≡ some (pos n, m'))
          × (m'.page_alloc_bitmap ≡ m.page_alloc_bitmap)
          × SameTables upper m m'
          × Maps upper m physaddr virtaddr n m')
        → (last : Machine) × ((map_page_range physaddr virtaddr flags n >>= λ _.
                unmap_page_range virtaddr n)
              m
            ≡ some (pos n, last))
          × ((vb t : ℕ) → Covered upper m vb t → walk last.mem last.cr3 vb ≡ walk m.mem m.cr3 vb)
    undone (m', mapping, bitmap, tables, maps) =
        let (k, m'', unmapping, same_bitmap, prefix, unmaps) =
          unmap_page_range-Unmaps upper m' virtaddr n tables.rooted
            (SameTables-Unshared upper m m' tables unshared)
            (λ j h. let (t, c) = covered j h in (t, tables.kept _ t c)) hv hn in
        let all : k ≡ n = all_mapped upper m virtaddr n hv hn m' physaddr k covered maps prefix in
        let unmapped : unmap_page_range virtaddr n m' ≡ some (pos n, m'') =
          unmapping ∙ ap (λ r. some (pos r, m'')) all in
        (
          m'',
          rw (mapping, ◌>>=◌) unmapped,
          restored upper m virtaddr n hv hn m' m'' physaddr free tables maps
              (subst (λ r. Unmaps upper m' virtaddr r m'') all unmaps),
        )
