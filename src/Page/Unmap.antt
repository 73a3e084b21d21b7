-- ===== src/Page/Unmap.antt =====
-- `unmap_page_range`: the mapped pages at the start of the range lose their mapping.
use rayos.Base.{
  ℕ, zero, suc, ◌+◌, ◌*◌, ◌%◌, ◌^◌, ◌≤◌, ◌<◌, ◌≡◌, ◌⊎◌, refl, arith, Bool, false, Option, none,
  some, ◌==◌, ltb, if◌then◌else◌, inl, inr, Option-cases, Bool-cases, ◌∙◌, ap, sym, subst, pos,
  to_int, to_int_small,
}
use rayos.Page.{Machine, poke, walk, unmap_loop, unmap_page_range, ◌>>=◌, ◌>>◌}
use rayos.Page.Walk.{Recursive}
use rayos.Page.Access.{i1, store_leaf-poke}
use rayos.Page.Translate.{with_leaf-walk}
use rayos.Page.Tables.{
  vpn, Rooted, Covered, Unshared, poked, poked-Rooted, poked-Covered, poked-Unshared, walk-poked,
}
use rayos.Page.Range.{offset, RangeCovered, first-Covered, next-RangeCovered, next_walk}

module _ (m : Machine) (va n i : ℕ) where
  stop : Recursive m → walk m.mem m.cr3 va ≡ none → unmap_loop (suc n) i va m ≡ some (to_int i, m)
  unfolding unmap_loop
  stop rec free = elim (with_leaf-walk m rec va (to_int i) _) [
    | inl stopped ↦ stopped.1
    | inr (t3, t2, t1, below, p, here, there, same) ↦ cc (free, there)
  ]

  step :
      (upper : ℕ → Bool) (t1 frame : ℕ)
      → Rooted upper m
      → Covered upper m va t1
      → walk m.mem m.cr3 va ≡ some frame
      → unmap_loop (suc n) i va m
        ≡ unmap_loop n (i + 1) ((va + 0x1000) % 2 ^ 64) (poked m t1 (i1 va) 0)
  unfolding unmap_loop
  step upper t1 frame root c taken = elim (with_leaf-walk m root.recursive va (to_int i) _) [
    | inl stopped ↦ cc (stopped.0, taken)
    | inr (t3, t2, s1, below, p, here, there, same) ↦
        same ∙ rw (store_leaf-poke m root.recursive va c.t3 c.t2 t1 c.path 0, ◌>>◌, ◌>>=◌) refl
  ]

module _ (upper : ℕ → Bool) (m : Machine) where
  -- The walks of m', for addresses that have their tables: the n pages from va fault, and all other
  -- pages lead where they led.
  abbrev pub Unmaps : ℕ → ℕ → Machine → Type 0
  Unmaps va n m' =
      (vb t : ℕ)
      → Covered upper m vb t
      → walk m'.mem m'.cr3 vb ≡ (if ltb (offset va vb) n then none else walk m.mem m.cr3 vb)

  -- The k pages from va are mapped, and the next one is not, unless k is n.
  abbrev pub MappedPrefix : ℕ → ℕ → ℕ → Type 0
  MappedPrefix va n k =
      (k ≤ n)
      × ((j : ℕ) → j < k → (frame : ℕ) × (walk m.mem m.cr3 (va + j * 4096) ≡ some frame))
      × ((k ≡ n) ⊎ (walk m.mem m.cr3 (va + k * 4096) ≡ none))

unmap_step :
    (va vb n : ℕ) (old : Option ℕ)
    → suc n ≤ 2 ^ 36
    → (if ltb (offset (va + 0x1000) vb) n then none else (if vpn vb == vpn va then none else old))
      ≡ (if ltb (offset va vb) (suc n) then none else old)
unmap_step va vb n old h = ground arith

module _ (upper : ℕ → Bool) where
  abbrev Unmapped : Machine → ℕ → ℕ → ℕ → Type 0
  Unmapped m n i va =
      (k : ℕ) × (m' : Machine) × (unmap_loop n i va m ≡ some (to_int (i + k), m'))
      × (m'.page_alloc_bitmap ≡ m.page_alloc_bitmap)
      × MappedPrefix upper m va n k
      × Unmaps upper m va k m'

  none-Unmapped :
      (m : Machine) (n i va : ℕ)
      → unmap_loop n i va m ≡ some (to_int i, m)
      → (0 ≡ n) ⊎ (walk m.mem m.cr3 va ≡ none)
      → Unmapped m n i va
  none-Unmapped m n i va runs last =
      let zero_more : i ≡ i + 0 = omega arith in
      (
        0,
        m,
        runs ∙ ap (λ k. some (to_int k, m)) zero_more,
        refl,
        (
          omega arith,
          λ j h. absurd (omega arith),
          subst (λ v. (0 ≡ n) ⊎ (walk m.mem m.cr3 v ≡ none)) (omega arith) last,
        ),
        λ vb t c. let past : ltb (offset va vb) 0 ≡ false = ground arith in rw past refl,
      )

  mapped_before :
      (m : Machine) (va frame k : ℕ)
      → walk m.mem m.cr3 va ≡ some frame
      → ((j : ℕ) → j < k → (f : ℕ) × (walk m.mem m.cr3 (va + (j + 1) * 4096) ≡ some f))
      → (j : ℕ) → j < suc k
      → (f : ℕ) × (walk m.mem m.cr3 (va + j * 4096) ≡ some f)
  mapped_before m va frame k taken later zero h =
      (frame, subst (λ v. walk m.mem m.cr3 v ≡ some frame) (omega arith) taken)
  mapped_before m va frame k taken later (suc j) h =
      let (f, e) = later j (omega arith) in
      (f, subst (λ v. walk m.mem m.cr3 v ≡ some f) (omega arith) e)

  next_prefix :
      (n : ℕ) (m : Machine) (va t1 frame k : ℕ)
      → Rooted upper m
      → Unshared upper m
      → Covered upper m va t1
      → walk m.mem m.cr3 va ≡ some frame
      → RangeCovered upper m va (suc n)
      → suc n ≤ 2 ^ 36
      → MappedPrefix upper (poked m t1 (i1 va) 0) (va + 0x1000) n k
      → MappedPrefix upper m va (suc n) (suc k)
  next_prefix n m va t1 frame k root unshared c taken covered hn (within, mapped, last) =
      let kept : (j : ℕ)
          → j < n
          → walk (poke m.mem t1 (i1 va) 0) m.cr3 (va + 0x1000 + j * 4096)
            ≡ walk m.mem m.cr3 (va + (j + 1) * 4096) =
        next_walk upper m va t1 0 n root unshared c covered hn in
      (
        omega arith,
        mapped_before m va frame k taken
            (λ j h. let (f, e) = mapped j h in (f, sym (kept j (omega arith)) ∙ e)),
        elim last [
          | inl all ↦ inl (omega arith)
          | inr gone ↦ elim (Bool-cases (k == n)) [
            | inl all ↦ inl (ground arith)
            | inr more ↦ inr (
                subst (λ v. walk m.mem m.cr3 v ≡ none) (omega arith)
                  (sym (kept k (ground arith)) ∙ gone))
          ]
        ],
      )

  -- A round that unmaps a page, and then the rounds after it.
  continued :
      (n : ℕ) (m : Machine) (i va t1 frame : ℕ)
      → Rooted upper m
      → Unshared upper m
      → Covered upper m va t1
      → walk m.mem m.cr3 va ≡ some frame
      → RangeCovered upper m va (suc n)
      → va + suc n * 4096 < 2 ^ 64
      → suc n ≤ 2 ^ 36
      → Unmapped (poked m t1 (i1 va) 0) n (i + 1) (va + 0x1000)
      → Unmapped m (suc n) i va
  continued n m i va t1 frame root unshared c taken covered hv hn
        (k, m', runs, bitmap, prefix, unmaps) =
      let count : i + 1 + k ≡ i + suc k = omega arith in
      let va_next : (va + 0x1000) % 2 ^ 64 ≡ va + 0x1000 = omega arith in
      (
        suc k,
        m',
        step m va n i upper t1 frame root c taken
            ∙ rw va_next (runs ∙ ap (λ r. some (to_int r, m')) count),
        bitmap,
        next_prefix n m va t1 frame k root unshared c taken covered hn prefix,
        λ vb t d.
            unmaps vb t (poked-Covered upper m root t1 (i1 va) 0 c.leaf vb t d)
            ∙ rw (walk-poked upper m va vb t1 t 0 root unshared c d)
                (unmap_step va vb k (walk m.mem m.cr3 vb) (omega (arith, prefix.0))),
      )

  unmap_loop-Unmaps :
      (n : ℕ) (m : Machine) (i va : ℕ)
      → Rooted upper m
      → Unshared upper m
      → RangeCovered upper m va n
      → va + n * 4096 < 2 ^ 64
      → n ≤ 2 ^ 36
      → Unmapped m n i va
  unfolding unmap_loop
  unmap_loop-Unmaps zero m i va root unshared covered hv hn = none-Unmapped m 0 i va refl (inl refl)
  unmap_loop-Unmaps (suc n) m i va root unshared covered hv hn =
      elim (Option-cases (walk m.mem m.cr3 va)) [
        | inl free ↦ none-Unmapped m (suc n) i va (stop m va n i root.recursive free) (inr free)
        | inr (frame, taken) ↦
            let (t1, c) = first-Covered upper m va n covered in
            continued n m i va t1 frame root unshared c taken covered hv hn (
              unmap_loop-Unmaps n (poked m t1 (i1 va) 0) (i + 1) (va + 0x1000)
                (poked-Rooted upper m root t1 (i1 va) 0 c.leaf)
                (poked-Unshared upper m root t1 (i1 va) 0 c.leaf unshared)
                (next-RangeCovered upper m root t1 (i1 va) 0 c.leaf va n covered) (omega arith)
                (omega arith))
      ]

-- `unmap_page_range` of n pages that have their tables returns the number k of pages that are mapped
-- at the start of the range: all of them, or those before the first one that is not mapped.
-- Afterwards exactly these k pages fault, and every other page that has its tables leads where it
-- led. The machine has the recursive slot, and no leaf table serves two regions or is an upper table.
pub unmap_page_range-Unmaps :
    (upper : ℕ → Bool) (m : Machine) (virtaddr n : ℕ)
    → Rooted upper m
    → Unshared upper m
    → RangeCovered upper m virtaddr n
    → virtaddr + n * 4096 < 2 ^ 64
    → n < 2 ^ 31
    → (k : ℕ) × (m' : Machine) × (unmap_page_range virtaddr n m ≡ some (pos k, m'))
      × (m'.page_alloc_bitmap ≡ m.page_alloc_bitmap)
      × MappedPrefix upper m virtaddr n k
      × Unmaps upper m virtaddr k m'
unfolding unmap_page_range
unmap_page_range-Unmaps upper m virtaddr n root unshared covered hv hn =
    let (k, m', runs, bitmap, prefix, unmaps) =
      unmap_loop-Unmaps upper n m 0 virtaddr root unshared covered hv (omega arith) in
    let count : to_int (0 + k) ≡ pos k =
      rw (to_int_small (0 + k) (omega (arith, prefix.0))) (ap pos (omega arith)) in
    (k, m', runs ∙ ap (λ r. some (r, m')) count, bitmap, prefix, unmaps)
