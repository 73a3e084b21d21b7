-- ===== src/Tmpfs/Link.antt =====
-- `tmpfs_alloc_dentry`: a new dentry at the end of its parent's children.
use rayos.Base.{
  ℕ, ◌+◌, ◌<◌, ◌≡◌, ◌≢◌, refl, arith, true, false, none, some, ◌==◌, List, [], ◌∷◌, ◌++◌, inl, inr,
  Bool-cases, ◌∙◌, ap, sym, subst, suc, update, update_self, update_ne,
}
use rayos.Tmpfs.{DentryType, TmpfsDentry, Tmpfs, linked, find_child}
use rayos.Tmpfs.Store.{
  Shaped, Shaped-below, Kids, Kids-kept, Kids-append, Extends, SameNames, find-same, find-append,
  find-new,
}

-- Only the heap's part of the store differs.
pub record SameTree (s s' : Tmpfs) : Type 0 where
  pub dentries : s'.dentry ≡ s.dentry
  pub count : s'.next ≡ s.next

find-SameTree :
    (s s' : Tmpfs) (cs w : List ℕ) → s'.dentry ≡ s.dentry → find_child s' cs w ≡ find_child s cs w
unfolding find_child
find-SameTree s s' [] w same = refl
find-SameTree s s' (x ∷ cs) w same = rw (same, find-SameTree s s' cs w same) refl

pub SameTree-find :
    (s s' : Tmpfs) (x : ℕ) (w : List ℕ)
    → SameTree s s'
    → find_child s' (s'.dentry x).children w ≡ find_child s (s.dentry x).children w
SameTree-find s s' x w same =
    let there : (s.dentry x).children ≡ (s'.dentry x).children =
      ap (λ (f : ℕ → TmpfsDentry). (f x).children) (sym same.dentries) in
    subst (λ cs. find_child s' cs w ≡ find_child s (s.dentry x).children w) there
      (find-SameTree s s' (s.dentry x).children w same.dentries)

pub SameTree-Extends : (s s' : Tmpfs) → SameTree s s' → Extends s s'
SameTree-Extends s s' same = record {
  more = omega (arith, same.count);
  same_type = λ x h. rw same.dentries refl;
  same_parent = λ x h. ap (λ (f : ℕ → TmpfsDentry). (f x).parent) same.dentries;
  found = λ x w c h e. SameTree-find s s' x w same ∙ e;
}

pub SameTree-Shaped : (s s' : Tmpfs) → SameTree s s' → Shaped s → Shaped s'
SameTree-Shaped s s' same b = record {
  depth = b.depth;
  kids = λ x h.
      let before : x < s.next = omega (arith, same.count) in
      let there : (s.dentry x).children ≡ (s'.dentry x).children =
        ap (λ (f : ℕ → TmpfsDentry). (f x).children) (sym same.dentries) in
      subst (Kids s' b.depth s'.next x) there (
        Kids-kept s s' b.depth b.depth s.next s'.next x (s.dentry x).children
          (omega (arith, same.count))
          (λ c k. ap (λ (f : ℕ → TmpfsDentry). (f c).parent) same.dentries) (λ c k. refl) refl
          (b.kids x before));
}

module _ (s : Tmpfs) (parent : ℕ) (name : List ℕ) (type : DentryType)
    (given : parent < s.next) where
  s' : Tmpfs
  s' = linked parent name type s

  up : TmpfsDentry
  up = record (s.dentry parent) { children = (s.dentry parent).children ++ (s.next ∷ []) }

  at_parent : s'.dentry parent ≡ up
  unfolding s' up
  at_parent = let here : (parent == parent) ≡ true = ground arith in rw here refl

  at_other : (x : ℕ) → x ≢ s.next → x ≢ parent → s'.dentry x ≡ s.dentry x
  unfolding s'
  at_other x h k =
      let fresh : (x == s.next) ≡ false = ground arith in
      let other : (x == parent) ≡ false = ground arith in rw (other, fresh) refl

  new_dentry :
      ((s'.dentry s.next).name ≡ name)
      × ((s'.dentry s.next).type ≡ type)
      × ((s'.dentry s.next).children ≡ [])
      × ((s'.dentry s.next).parent ≡ some parent)
  unfolding s'
  new_dentry =
      let other : (s.next == parent) ≡ false = ground arith in
      let here : (s.next == s.next) ≡ true = ground arith in
      rw (other, here) (refl, refl, refl, refl)

  same_names : SameNames s.next s s'
  unfolding up
  same_names x h = elim (Bool-cases (x == parent)) [
    | inl here ↦
        let it : x ≡ parent = ground arith in rw it (ap (λ (d : TmpfsDentry). d.name) at_parent)
    | inr other ↦
        ap (λ (d : TmpfsDentry). d.name)
          (at_other x (λ e. absurd (omega arith)) (λ e. ground arith))
  ]

  same_types : (x : ℕ) → x < s.next → (s'.dentry x).type ≡ (s.dentry x).type
  unfolding up
  same_types x h = elim (Bool-cases (x == parent)) [
    | inl here ↦
        let it : x ≡ parent = ground arith in rw it (ap (λ (d : TmpfsDentry). d.type) at_parent)
    | inr other ↦
        ap (λ (d : TmpfsDentry). d.type)
          (at_other x (λ e. absurd (omega arith)) (λ e. ground arith))
  ]

  same_parents : (x : ℕ) → x < s.next → (s'.dentry x).parent ≡ (s.dentry x).parent
  unfolding up
  same_parents x h = elim (Bool-cases (x == parent)) [
    | inl here ↦
        let it : x ≡ parent = ground arith in rw it (ap (λ (d : TmpfsDentry). d.parent) at_parent)
    | inr other ↦
        ap (λ (d : TmpfsDentry). d.parent)
          (at_other x (λ e. absurd (omega arith)) (λ e. ground arith))
  ]

  kept :
      (x : ℕ) (w : List ℕ) (c : ℕ)
      → Shaped s
      → x < s.next
      → find_child s (s.dentry x).children w ≡ some c
      → find_child s' (s'.dentry x).children w ≡ some c
  unfolding up
  kept x w c b h e = elim (Bool-cases (x == parent)) [
    | inl here ↦
        let it : x ≡ parent = ground arith in
        let old : find_child s' (s.dentry parent).children w ≡ some c =
          find-same s s' s.next (s.dentry parent).children w same_names
            (Shaped-below s b parent given)
          ∙ subst (λ y. find_child s (s.dentry y).children w ≡ some c) it e in
        rw (it, at_parent) (find-append s' (s.dentry parent).children w s.next c old)
    | inr other ↦
        rw (at_other x (λ e. absurd (omega arith)) (λ e. ground arith))
          (find-same s s' s.next (s.dentry x).children w same_names (Shaped-below s b x h) ∙ e)
  ]

  pub linked-Extends : Shaped s → Extends s (linked parent name type s)
  unfolding s'
  linked-Extends b = record {
    more = omega arith;
    same_type = same_types;
    same_parent = same_parents;
    found = λ x w c h e. kept x w c b h e;
  }

  deeper : (ℕ → ℕ) → ℕ → ℕ
  deeper depth = update depth s.next (suc (depth parent))

  deeper_old : (depth : ℕ → ℕ) (c : ℕ) → c < s.next → deeper depth c ≡ depth c
  unfolding deeper
  deeper_old depth c h = update_ne depth s.next c (suc (depth parent)) (λ e. absurd (omega arith))

  deeper_new : (depth : ℕ → ℕ) → deeper depth s.next ≡ suc (deeper depth parent)
  unfolding deeper
  deeper_new depth =
      update_self depth s.next (suc (depth parent)) ∙ ap suc (sym (deeper_old depth parent given))

  old_children :
      (b : Shaped s) (x : ℕ)
      → x < s.next
      → Kids s' (deeper b.depth) (s.next + 1) x (s.dentry x).children
  old_children b x h =
      Kids-kept s s' b.depth (deeper b.depth) s.next (s.next + 1) x (s.dentry x).children
        (omega arith) same_parents (deeper_old b.depth) (deeper_old b.depth x h) (b.kids x h)

  all_children :
      (b : Shaped s) (x : ℕ)
      → x < s.next + 1
      → Kids s' (deeper b.depth) (s.next + 1) x (s'.dentry x).children
  unfolding up
  all_children b x h = elim (Bool-cases (x == s.next)) [
    | inl fresh ↦
        let it : x ≡ s.next = ground arith in
        let empty : [] ≡ (s'.dentry x).children =
          sym (ap (λ y. (s'.dentry y).children) it ∙ new_dentry.2) in
        subst (Kids s' (deeper b.depth) (s.next + 1) x) empty tt
    | inr old ↦
        let before : x < s.next = ground arith in
        elim (Bool-cases (x == parent)) [
          | inl here ↦
              let it : parent ≡ x = ground arith in
              subst (λ y. Kids s' (deeper b.depth) (s.next + 1) y (s'.dentry y).children) it
                (subst (Kids s' (deeper b.depth) (s.next + 1) parent)
                  (sym (ap (λ (d : TmpfsDentry). d.children) at_parent))
                  (Kids-append s' (deeper b.depth) (s.next + 1) parent s.next
                    (s.dentry parent).children (omega arith) new_dentry.3 (deeper_new b.depth)
                    (Shaped-below s b parent given) (old_children b parent given)))
          | inr other ↦
              subst (Kids s' (deeper b.depth) (s.next + 1) x)
                (sym (
                  ap (λ (d : TmpfsDentry). d.children)
                    (at_other x (λ e. ground arith) (λ e. ground arith))))
                (old_children b x before)
        ]
  ]

  pub linked-Shaped : Shaped s → Shaped (linked parent name type s)
  unfolding s'
  linked-Shaped b = record { depth = deeper b.depth; kids = all_children b }

  pub linked-found :
      Shaped s
      → find_child s (s.dentry parent).children name ≡ none
      → (find_child
            (linked parent name type s)
            ((linked parent name type s).dentry parent).children
            name
          ≡ some s.next)
        × (((linked parent name type s).dentry s.next).type ≡ type)
  unfolding s' up
  linked-found b missing = (
    rw at_parent (
        find-new s' (s.dentry parent).children name s.next
          (find-same s s' s.next (s.dentry parent).children name same_names
              (Shaped-below s b parent given)
            ∙ missing)
          new_dentry.0),
    new_dentry.1,
  )
