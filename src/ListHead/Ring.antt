-- ===== src/ListHead/Ring.antt =====
-- What a list is: a ring of distinct nodes whose pointers agree both ways.
use rayos.Base.{
  ℕ, ◌≡◌, ◌≢◌, refl, arith, Bool, true, false, ◌||◌, ◌==◌, List, [], ◌∷◌, ◌++◌, subst, sym, ◌∙◌,
}
use rayos.ListHead.{Store}

-- The address is one of the list.
abbrev pub has : ℕ → List ℕ → Bool
has a [] = false
has a (x ∷ xs) = (a == x) || has a xs

abbrev pub Distinct : List ℕ → Type 0
Distinct [] = Unit {0}
Distinct (x ∷ xs) = (has x xs ≡ false) × Distinct xs

-- From a the `next` pointers lead through xs to z, and the `prev` pointers lead back.
abbrev pub Linked : Store → ℕ → List ℕ → ℕ → Type 0
Linked s a [] z = (s.next a ≡ z) × (s.prev z ≡ a)
Linked s a (x ∷ xs) z = (s.next a ≡ x) × (s.prev x ≡ a) × Linked s x xs z

-- The list headed by the sentinel `head` holds the nodes xs in this order.
pub record IsRing (s : Store) (head : ℕ) (xs : List ℕ) : Type 0 where
  pub linked : Linked s head xs head
  pub distinct : Distinct (head ∷ xs)

-- The last node before z.
abbrev pub last : ℕ → List ℕ → ℕ
last a [] = a
last a (x ∷ xs) = last x xs

pub has-append : (a : ℕ) (xs ys : List ℕ) → has a (xs ++ ys) ≡ (has a xs || has a ys)
has-append a [] ys = refl
has-append a (x ∷ xs) ys = ground (arith, has-append a xs ys)

pub Linked-append :
    (s : Store) (a : ℕ) (xs : List ℕ) (y : ℕ) (ys : List ℕ) (z : ℕ)
    → Linked s a (xs ++ (y ∷ ys)) z
    → Linked s a xs y × Linked s y ys z
Linked-append s a [] y ys z l = ((l.0, l.1), l.2)
Linked-append s a (x ∷ xs) y ys z l =
    let (front, back) = Linked-append s x xs y ys z l.2 in ((l.0, l.1, front), back)

pub Linked-join :
    (s : Store) (a : ℕ) (xs : List ℕ) (y : ℕ) (ys : List ℕ) (z : ℕ)
    → Linked s a xs y
    → Linked s y ys z
    → Linked s a (xs ++ (y ∷ ys)) z
Linked-join s a [] y ys z front back = (front.0, front.1, back)
Linked-join s a (x ∷ xs) y ys z front back =
    (front.0, front.1, Linked-join s x xs y ys z front.2 back)

pub Linked-last : (s : Store) (a : ℕ) (xs : List ℕ) (z : ℕ) → Linked s a xs z → s.prev z ≡ last a xs
Linked-last s a [] z l = l.1
Linked-last s a (x ∷ xs) z l = Linked-last s x xs z l.2

-- A run of links survives any change that spares the `next` of its start and of its nodes, and the
-- `prev` of its nodes and of its end.
pub Linked-frame :
    (s t : Store) (a : ℕ) (xs : List ℕ) (z : ℕ)
    → ((k : ℕ) → has k (a ∷ xs) ≡ true → t.next k ≡ s.next k)
    → ((k : ℕ) → has k (z ∷ xs) ≡ true → t.prev k ≡ s.prev k)
    → Linked s a xs z
    → Linked t a xs z
Linked-frame s t a [] z same_next same_prev l = ground (arith, same_next a, same_prev z)
Linked-frame s t a (x ∷ xs) z same_next same_prev l = (
  ground (arith, same_next a),
  ground (arith, same_prev x),
  Linked-frame s t x xs z (λ k h. ground (arith, same_next k)) (λ k h. ground (arith, same_prev k))
      l.2,
)

-- Two lists with no node in common.
abbrev pub Apart : List ℕ → List ℕ → Type 0
Apart xs ys = (k : ℕ) → has k xs ≡ true → has k ys ≡ false

pub Distinct-append :
    (xs ys : List ℕ) → Distinct (xs ++ ys) → Distinct xs × Distinct ys × Apart xs ys
Distinct-append [] ys d = (tt, d, λ k h. cc)
Distinct-append (x ∷ xs) ys d =
    let (dx, dy, apart) = Distinct-append xs ys d.1 in
    (
      (ground (arith, has-append x xs ys, d.0), dx),
      dy,
      λ k h. ground (arith, apart k, has-append x xs ys, d.0),
    )

pub Distinct-join : (xs ys : List ℕ) → Distinct xs → Distinct ys → Apart xs ys → Distinct (xs ++ ys)
Distinct-join [] ys dx dy apart = dy
Distinct-join (x ∷ xs) ys dx dy apart = (
  ground (arith, has-append x xs ys, dx.0, apart x),
  Distinct-join xs ys dx.1 dy (λ k h. ground (arith, apart k)),
)

pub has-last : (a : ℕ) (xs : List ℕ) → has (last a xs) (a ∷ xs) ≡ true
has-last a [] = ground arith
has-last a (x ∷ xs) = ground (arith, has-last x xs)

-- A run of links led to a new end: only the last node's `next` has changed.
pub Linked-relink :
    (s t : Store) (a : ℕ) (xs : List ℕ) (z w : ℕ)
    → Linked s a xs z
    → Distinct (a ∷ xs)
    → ((k : ℕ) → has k (a ∷ xs) ≡ true → k ≢ last a xs → t.next k ≡ s.next k)
    → ((k : ℕ) → has k xs ≡ true → t.prev k ≡ s.prev k)
    → t.next (last a xs) ≡ w
    → t.prev w ≡ last a xs
    → Linked t a xs w
Linked-relink s t a [] z w l d same_next same_prev to back = (to, back)
Linked-relink s t a (x ∷ xs) z w l d same_next same_prev to back =
    let apart : a ≢ last x xs =
      λ e. cc (d.0, subst (λ k. has k (x ∷ xs) ≡ true) (sym e) (has-last x xs)) in
    (
      same_next a (ground arith) apart ∙ l.0,
      same_prev x (ground arith) ∙ l.1,
      Linked-relink s t x xs z w l.2 d.1 (λ k h. same_next k (ground arith))
          (λ k h. same_prev k (ground arith)) to back,
    )
