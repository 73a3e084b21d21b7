-- ===== src/ListHead/Frame.antt =====
-- The operations of list.c write only to nodes of the list they work on, so every other list in the
-- store keeps its nodes.
use rayos.Base.{ℕ, ◌≡◌, arith, true, false, List, [], ◌∷◌, ◌++◌, subst, sym}
use rayos.ListHead.{Store, list_add, list_add_tail, list_del}
use rayos.ListHead.Ring.{
  has, Linked, IsRing, has-append, Linked-append, Linked-last, Linked-frame, Apart, has-last,
}
use rayos.ListHead.Ops.{ne_of_has}

-- The two stores agree outside the nodes listed.
abbrev pub Spares : Store → Store → List ℕ → Type 0
Spares s t touched = (k : ℕ) → has k touched ≡ false → (t.next k ≡ s.next k) × (t.prev k ≡ s.prev k)

pub IsRing-frame :
    (s t : Store) (touched : List ℕ) (head : ℕ) (xs : List ℕ)
    → Spares s t touched
    → Apart (head ∷ xs) touched
    → IsRing s head xs
    → IsRing t head xs
IsRing-frame s t touched head xs spares apart r = record {
  linked =
      Linked-frame s t head xs head (λ k h. (spares k (apart k h)).0)
        (λ k h. (spares k (apart k h)).1) r.linked;
  distinct = r.distinct;
}

-- The node behind the head, and the one before it, are nodes of the list.
next_on :
    (s : Store) (a : ℕ) (xs : List ℕ) (z : ℕ) → Linked s a xs z → has (s.next a) (z ∷ xs) ≡ true
next_on s a [] z l = ground (arith, l.0)
next_on s a (x ∷ xs) z l = ground (arith, l.0)

prev_on :
    (s : Store) (a : ℕ) (xs : List ℕ) (z : ℕ) → Linked s a xs z → has (s.prev z) (a ∷ xs) ≡ true
prev_on s a xs z l =
    subst (λ t. has t (a ∷ xs) ≡ true) (sym (Linked-last s a xs z l)) (has-last a xs)

module _ (s : Store) (new head : ℕ) (xs : List ℕ) (r : IsRing s head xs) where
  pub list_add-Spares : Spares s (list_add s new head) (new ∷ head ∷ xs)
  unfolding list_add
  list_add-Spares k out =
      let apart = ne_of_has (s.next head) k (head ∷ xs) (next_on s head xs head r.linked) in
      (ground arith, ground (arith, apart))

  pub list_add_tail-Spares : Spares s (list_add_tail s new head) (new ∷ head ∷ xs)
  unfolding list_add_tail
  list_add_tail-Spares k out =
      let apart = ne_of_has (s.prev head) k (head ∷ xs) (prev_on s head xs head r.linked) in
      (ground (arith, apart), ground arith)

pub list_del-Spares :
    (s : Store) (head entry : ℕ) (ys zs : List ℕ)
    → IsRing s head (ys ++ (entry ∷ zs))
    → Spares s (list_del s entry) (head ∷ (ys ++ (entry ∷ zs)))
unfolding list_del
list_del-Spares s head entry ys zs r k out =
    let (front, back) = Linked-append s head ys entry zs head r.linked in
    let before = ne_of_has (s.prev entry) k (head ∷ ys) (prev_on s head ys entry front) in
    let after = ne_of_has (s.next entry) k (head ∷ zs) (next_on s entry zs head back) in
    (
      ground (arith, before, has-append k ys (entry ∷ zs)),
      ground (arith, after, has-append k ys (entry ∷ zs)),
    )
