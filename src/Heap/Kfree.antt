-- ===== src/Heap/Kfree.antt =====
-- `kfree` of what `kmalloc` returned, and of any other address.
use native.Mathlib.Nat.{pow-le-pow_right, one-le-pow, pow-suc}
use rayos.Base.{
  ℕ, suc, ◌+◌, ◌*◌, ◌%◌, ◌^◌, ◌≤◌, ◌<◌, ◌≡◌, refl, arith, Bool, true, false, some, ◌==◌, ltb, inl,
  inr, Bool-cases, ==→eq, ◌∙◌, ap, sym, subst, List, [], ◌∷◌, ◌++◌,
}
use rayos.Bitmap.{test}
use rayos.Mempool.Slots.{has}
use rayos.Page.{Machine, walk, child, frame_of, get_physaddr, not_mapped}
use rayos.Page.Access.{i1}
use rayos.Page.Address.{physical_lem}
use rayos.Page.Translate.{with_leaf-walk}
use rayos.Page.Order.{size_to_order, size_to_order-least}
use rayos.Page.Tables.{Rooted, Covered}
use rayos.Heap.{VmapArea, find_vmap_area, list_del_area}
use rayos.Heap.Alloc.{home}
use rayos.Heap.Kmalloc.{area}

-- The leaf entries of the addresses that have their tables have clear bits 52 to 63.
abbrev pub Narrow : (ℕ → Bool) → Machine → Type 0
Narrow upper m = (va t : ℕ) → Covered upper m va t → m.mem t (i1 va) < 2 ^ 52

-- Each area starts at the home of a frame in use, and its object is not free.
abbrev pub Recorded : Machine → List ℕ → List VmapArea → Type 0
Recorded m free [] = Unit
Recorded m free (vm ∷ rest) =
    ((f : ℕ) × (vm.va_start ≡ home f) × (test m.page_alloc_bitmap f ≡ true))
    × (has vm.object free ≡ false)
    × Recorded m free rest

-- A covered address that is mapped, with a narrow entry.
pub get_physaddr-Narrow :
    (upper : ℕ → Bool) (m : Machine) (va t frame : ℕ)
    → Rooted upper m
    → Narrow upper m
    → Covered upper m va t
    → walk m.mem m.cr3 va ≡ some frame
    → get_physaddr va m ≡ some (frame * 4096 + va % 4096, m)
unfolding get_physaddr child
get_physaddr-Narrow upper m va t frame root narrow c there =
    elim (with_leaf-walk m root.recursive va not_mapped _) [
      | inl stopped ↦ cc (stopped.0, there)
      | inr (t3, t2, t1, below, p, here, there', down) ↦
          let s3 : t3 ≡ c.t3 = cc (p.e3, c.path.e3) in
          let s2 : t2 ≡ c.t2 = cc (p.e2, c.path.e2, s3) in
          let s1 : t1 ≡ t = cc (p.e1, c.path.e1, s2) in
          let leaf : ℕ = m.mem t1 (i1 va) in
          let small : leaf < 2 ^ 52 =
            subst (λ u. m.mem u (i1 va) < 2 ^ 52) (sym s1) (narrow va t c) in
          let at : below ≡ frame_of leaf = ground arith in
          let it : below ≡ frame = cc (there, there') in
          down ∙ ap (λ a. some (a, m)) (omega (arith, physical_lem leaf va (omega arith)))
    ]

pub size_to_order-pages :
    (order : ℕ) → 2 ^ order < 2 ^ 31 → size_to_order (2 ^ order * 4096 % 2 ^ 64) ≡ some order
size_to_order-pages order h =
    let some_page : 1 ≤ 2 ^ order = one-le-pow order 2 (omega arith) in
    let whole : 2 ^ order * 4096 % 2 ^ 64 ≡ 2 ^ order * 4096 = omega arith in
    let (w, runs, enough, least) =
      size_to_order-least (2 ^ order * 4096) (omega arith) (omega arith) in
    let most : w ≤ order = least order (omega arith) in
    let same : w ≡ order = elim (Bool-cases (ltb w order)) [
      | inl less ↦
          let up : 2 ^ suc w ≤ 2 ^ order = pow-le-pow_right (omega arith) (ground arith) in
          absurd (omega (arith, pow-suc 2 w, one-le-pow w 2 (omega arith)))
      | inr more ↦ ground arith
    ] in
    rw whole (runs ∙ ap some same)

pub find-last :
    (va object n : ℕ) (m : Machine) (free : List ℕ) (areas : List VmapArea) (f : ℕ)
    → va ≡ home f
    → test m.page_alloc_bitmap f ≡ false
    → Recorded m free areas
    → find_vmap_area va (areas ++ (area object va n ∷ [])) ≡ some (area object va n)
unfolding find_vmap_area
find-last va object n m free [] f at unused recorded =
    let here : (va == va) ≡ true = ground arith in rw here refl
find-last va object n m free (vm ∷ rest) f at unused ((g, start, used), out, recorded) =
    let other : (vm.va_start == va) ≡ false = elim (Bool-cases (vm.va_start == va)) [
      | inl same ↦
          let fg : f ≡ g = ground arith in
          cc (subst (λ k. test m.page_alloc_bitmap k ≡ false) fg unused, used)
      | inr apart ↦ apart
    ] in
    rw other (find-last va object n m free rest f at unused recorded)

pub del-last :
    (va object n : ℕ) (m : Machine) (free : List ℕ) (areas : List VmapArea)
    → has object free ≡ true
    → Recorded m free areas
    → list_del_area object (areas ++ (area object va n ∷ [])) ≡ areas
unfolding list_del_area
del-last va object n m free [] on recorded =
    let here : (object == object) ≡ true = ground arith in rw here refl
del-last va object n m free (vm ∷ rest) on (used, out, recorded) =
    let other : (vm.object == object) ≡ false = elim (Bool-cases (vm.object == object)) [
      | inl same ↦ cc (subst (λ k. has k free ≡ false) (==→eq _ _ same) out, on)
      | inr apart ↦ apart
    ] in
    rw other (ap (λ r. vm ∷ r) (del-last va object n m free rest on recorded))
