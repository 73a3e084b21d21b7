-- ===== src/Tmpfs/Store.antt =====
-- The store of dentries as it grows: what `tmpfs_alloc_dentry` adds, and what it leaves.
use rayos.Base.{
  ℕ, ◌≤◌, ◌<◌, ◌≡◌, refl, arith, true, false, none, some, if◌then◌else◌, List, [], ◌∷◌, ◌++◌, inl,
  inr, Bool-cases, ◌∙◌, subst, ap, sym, suc, ◌≢◌,
}
use rayos.Tmpfs.{Tmpfs, same_name, find_child}

abbrev pub AllBelow : ℕ → List ℕ → Type 0
AllBelow n [] = Unit
AllBelow n (c ∷ cs) = (c < n) × AllBelow n cs

abbrev pub Absent : ℕ → List ℕ → Type 0
Absent c [] = Unit
Absent c (d ∷ cs) = (c ≢ d) × Absent c cs

-- The children of x: each was given out, has x for its parent, lies one level deeper, and is there once.
abbrev pub Kids : Tmpfs → (ℕ → ℕ) → ℕ → ℕ → List ℕ → Type 0
Kids s depth n x [] = Unit
Kids s depth n x (c ∷ cs) =
    (c < n)
    × ((s.dentry c).parent ≡ some x)
    × (depth c ≡ suc (depth x))
    × Absent c cs
    × Kids s depth n x cs

-- The dentries are trees: each child has its parent's address, is the child of no other dentry and
-- once of this one, and no dentry is below itself.
pub record Shaped (s : Tmpfs) : Type 0 where
  pub depth : ℕ → ℕ
  pub kids : (x : ℕ) → x < s.next → Kids s depth s.next x (s.dentry x).children

Kids-AllBelow :
    (s : Tmpfs) (depth : ℕ → ℕ) (n x : ℕ) (cs : List ℕ) → Kids s depth n x cs → AllBelow n cs
Kids-AllBelow s depth n x [] k = tt
Kids-AllBelow s depth n x (c ∷ cs) (lt, up, deep, once, k) = (lt, Kids-AllBelow s depth n x cs k)

pub Shaped-below :
    (s : Tmpfs) → Shaped s → (x : ℕ) → x < s.next → AllBelow s.next (s.dentry x).children
Shaped-below s b x h = Kids-AllBelow s b.depth s.next x (s.dentry x).children (b.kids x h)

-- The same children in a store with the same parents.
pub Kids-kept :
    (s s' : Tmpfs) (depth depth' : ℕ → ℕ) (n m x : ℕ) (cs : List ℕ)
    → n ≤ m
    → ((c : ℕ) → c < n → (s'.dentry c).parent ≡ (s.dentry c).parent)
    → ((c : ℕ) → c < n → depth' c ≡ depth c)
    → depth' x ≡ depth x
    → Kids s depth n x cs
    → Kids s' depth' m x cs
Kids-kept s s' depth depth' n m x [] h up deep at k = tt
Kids-kept s s' depth depth' n m x (c ∷ cs) h up deep at (lt, parent, level, once, k) = (
  omega arith,
  up c lt ∙ parent,
  deep c lt ∙ level ∙ ap suc (sym at),
  once,
  Kids-kept s s' depth depth' n m x cs h up deep at k,
)

Absent-append : (c t : ℕ) (cs : List ℕ) → c ≢ t → Absent c cs → Absent c (cs ++ (t ∷ []))
Absent-append c t [] h a = (h, tt)
Absent-append c t (d ∷ cs) h (other, a) = (other, Absent-append c t cs h a)

-- A new child behind children with smaller numbers.
pub Kids-append :
    (s : Tmpfs) (depth : ℕ → ℕ) (n x t : ℕ) (cs : List ℕ)
    → t < n
    → (s.dentry t).parent ≡ some x
    → depth t ≡ suc (depth x)
    → AllBelow t cs
    → Kids s depth n x cs
    → Kids s depth n x (cs ++ (t ∷ []))
Kids-append s depth n x t [] h up deep below k = (h, up, deep, tt, tt)
Kids-append s depth n x t (c ∷ cs) h up deep (lt, below) (lt', parent, level, once, k) = (
  lt',
  parent,
  level,
  Absent-append c t cs (λ e. absurd (omega arith)) once,
  Kids-append s depth n x t cs h up deep below k,
)

-- The dentries of s are those of s' too, under the same names and in the same places.
pub record Extends (s s' : Tmpfs) : Type 0 where
  pub more : s.next ≤ s'.next
  pub same_type : (x : ℕ) → x < s.next → (s'.dentry x).type ≡ (s.dentry x).type
  pub same_parent : (x : ℕ) → x < s.next → (s'.dentry x).parent ≡ (s.dentry x).parent
  pub found :
      (x : ℕ) (w : List ℕ) (child : ℕ)
      → x < s.next
      → find_child s (s.dentry x).children w ≡ some child
      → find_child s' (s'.dentry x).children w ≡ some child

-- The heap's lock is free, and every request will find memory.
abbrev pub Ample : Tmpfs → Type 0
Ample s = (s.mm_held ≡ false) × ((i : ℕ) → s.grants i ≡ true)

pub Extends-refl : (s : Tmpfs) → Extends s s
Extends-refl s = record {
  more = omega arith;
  same_type = λ x h. refl;
  same_parent = λ x h. refl;
  found = λ x w c h e. e;
}

pub Extends-trans : (s t u : Tmpfs) → Extends s t → Extends t u → Extends s u
Extends-trans s t u a b = record {
  more = omega (arith, a.more, b.more);
  same_type = λ x h. b.same_type x (omega (arith, a.more)) ∙ a.same_type x h;
  same_parent = λ x h. b.same_parent x (omega (arith, a.more)) ∙ a.same_parent x h;
  found = λ x w c h e. b.found x w c (omega (arith, a.more)) (a.found x w c h e);
}

pub AllBelow-more : (n m : ℕ) (cs : List ℕ) → n ≤ m → AllBelow n cs → AllBelow m cs
AllBelow-more n m [] h a = tt
AllBelow-more n m (c ∷ cs) h (b, a) = (omega arith, AllBelow-more n m cs h a)

pub AllBelow-append : (n t : ℕ) (cs : List ℕ) → t < n → AllBelow n cs → AllBelow n (cs ++ (t ∷ []))
AllBelow-append n t [] h a = (h, tt)
AllBelow-append n t (c ∷ cs) h (b, a) = (b, AllBelow-append n t cs h a)

pub find-below :
    (s : Tmpfs) (n : ℕ) (cs w : List ℕ) (c : ℕ) → AllBelow n cs → find_child s cs w ≡ some c → c < n
unfolding find_child
find-below s n [] w c a e = cc e
find-below s n (x ∷ cs) w c (b, a) e = elim (Bool-cases (same_name (s.dentry x).name w)) [
  | inl here ↦
      let same : some x ≡ some c =
        subst (λ b. (if b then some x else find_child s cs w) ≡ some c) here e in
      let it : x ≡ c = cc same in subst (λ y. y < n) it b
  | inr other ↦
      find-below s n cs w c a
        (subst (λ b. (if b then some x else find_child s cs w) ≡ some c) other e)
]

-- The names of the dentries below n are the same in both stores.
abbrev pub SameNames : ℕ → Tmpfs → Tmpfs → Type 0
SameNames n s s' = (x : ℕ) → x < n → (s'.dentry x).name ≡ (s.dentry x).name

pub find-same :
    (s s' : Tmpfs) (n : ℕ) (cs w : List ℕ)
    → SameNames n s s'
    → AllBelow n cs
    → find_child s' cs w ≡ find_child s cs w
unfolding find_child
find-same s s' n [] w same a = refl
find-same s s' n (x ∷ cs) w same (b, a) = rw (same x b, find-same s s' n cs w same a) refl

pub find-append :
    (s : Tmpfs) (cs w : List ℕ) (t c : ℕ)
    → find_child s cs w ≡ some c
    → find_child s (cs ++ (t ∷ [])) w ≡ some c
unfolding find_child
find-append s [] w t c e = cc e
find-append s (x ∷ cs) w t c e = elim (Bool-cases (same_name (s.dentry x).name w)) [
  | inl here ↦ rw here (subst (λ b. (if b then some x else find_child s cs w) ≡ some c) here e)
  | inr other ↦ rw other (
      find-append s cs w t c
        (subst (λ b. (if b then some x else find_child s cs w) ≡ some c) other e))
]

same_name_refl : (w : List ℕ) → same_name w w ≡ true
unfolding same_name
same_name_refl [] = refl
same_name_refl (x ∷ w) = ground (arith, same_name_refl w)

pub find-new :
    (s : Tmpfs) (cs w : List ℕ) (t : ℕ)
    → find_child s cs w ≡ none
    → (s.dentry t).name ≡ w
    → find_child s (cs ++ (t ∷ [])) w ≡ some t
unfolding find_child
find-new s [] w t e named = rw (named, same_name_refl w) refl
find-new s (x ∷ cs) w t e named = elim (Bool-cases (same_name (s.dentry x).name w)) [
  | inl here ↦ cc (subst (λ b. (if b then some x else find_child s cs w) ≡ none) here e)
  | inr other ↦ rw other (
      find-new s cs w t (subst (λ b. (if b then some x else find_child s cs w) ≡ none) other e)
        named)
]
