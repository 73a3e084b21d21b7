-- ===== src/ListHead/Ops.antt =====
-- The operations of list.c on rings: which list each leaves, and that other lists keep theirs.
use mathlib.Core.List.{append-nil}
use rayos.Base.{ℕ, ◌≡◌, ◌≢◌, refl, arith, Bool, true, false, List, [], ◌∷◌, ◌++◌, subst}
use rayos.ListHead.{Store, init_list_head, list_add, list_add_tail, list_del, list_empty}
use rayos.ListHead.Ring.{
  has, Distinct, Linked, IsRing, last, Linked-append, Linked-join, Linked-last, Linked-frame,
  Linked-relink, Apart, Distinct-append, Distinct-join, has-last,
}

abbrev pub is_nil : List ℕ → Bool
is_nil [] = true
is_nil (x ∷ xs) = false

-- An initialised list is empty.
pub init_list_head-IsRing : (s : Store) (head : ℕ) → IsRing (init_list_head s head) head []
unfolding init_list_head
init_list_head-IsRing s head = record { linked = ground arith; distinct = (refl, tt) }

pub ne_of_has : (k new : ℕ) (xs : List ℕ) → has k xs ≡ true → has new xs ≡ false → k ≢ new
ne_of_has k new xs h out e = cc (out, subst (λ t. has t xs ≡ true) e h)

module _ (s : Store) (new head : ℕ) (xs : List ℕ) (r : IsRing s head xs)
    (out : has new (head ∷ xs) ≡ false) where
  -- `list_add_tail` puts a node that is not on the list at its end.
  pub list_add_tail-IsRing : IsRing (list_add_tail s new head) head (xs ++ (new ∷ []))
  unfolding list_add_tail
  list_add_tail-IsRing =
      let end : s.prev head ≡ last head xs = Linked-last s head xs head r.linked in
      let on : has (last head xs) (head ∷ xs) ≡ true = has-last head xs in
      let apart : last head xs ≢ new = ne_of_has _ new (head ∷ xs) on out in
      record {
        linked =
            Linked-join _ head xs new [] head
              (Linked-relink s _ head xs head new r.linked r.distinct
                (λ k h ne. ground (arith, ne_of_has k new (head ∷ xs) h out))
                (λ k h. ground (arith, ne_of_has k new (head ∷ xs))) (ground arith) (ground arith))
              (ground arith);
        distinct =
            Distinct-join (head ∷ xs) (new ∷ []) r.distinct (refl, tt)
              (λ k h. ground (arith, ne_of_has k new (head ∷ xs) h out));
      }

  -- `list_add` puts a node that is not on the list at its front.
  pub list_add-IsRing : IsRing (list_add s new head) head (new ∷ xs)
  unfolding list_add
  list_add-IsRing = front xs r.linked r.distinct out
    where
      front :
          (ys : List ℕ)
          → Linked s head ys head
          → Distinct (head ∷ ys)
          → has new (head ∷ ys) ≡ false
          → IsRing (list_add s new head) head (new ∷ ys)
      front [] l d o = record { linked = ground arith; distinct = ground arith }
      front (y ∷ ys) l d o = record {
        linked = (
          ground arith,
          ground arith,
          (
            ground arith,
            ground arith,
            Linked-frame s _ y ys head (λ k h. ground (arith, ne_of_has k new (y ∷ ys) h))
                (λ k h. ground (arith, ne_of_has k y ys, ne_of_has k new ys)) l.2,
          ),
        );
        distinct = ground arith;
      }

-- The links that `list_del` leaves, by what follows the node.
relinked :
    (s : Store) (head entry : ℕ) (ys zs : List ℕ)
    → Linked s head ys entry
    → Linked s entry zs head
    → Distinct (head ∷ ys)
    → Distinct (entry ∷ zs)
    → Apart (head ∷ ys) (entry ∷ zs)
    → Linked (list_del s entry) head (ys ++ zs) head
unfolding list_del
relinked s head entry ys [] front back dx dy apart =
    let end = Linked-last s head ys entry front in
    rw append-nil (
      Linked-relink s _ head ys entry head front dx (λ k h ne. ground arith)
        (λ k h. ground (arith, ne_of_has k head ys h)) (ground arith) (ground arith))
relinked s head entry ys (w ∷ ws) front back dx dy apart =
    let end = Linked-last s head ys entry front in
    let on : has (last head ys) (head ∷ ys) ≡ true = has-last head ys in
    Linked-join _ head ys w ws head
      (Linked-relink s _ head ys entry w front dx (λ k h ne. ground arith)
        (λ k h. ground (arith, apart k)) (ground arith) (ground arith))
      (Linked-frame s _ w ws head
        (λ k h. ground (arith, apart (last head ys) on, ne_of_has k (last head ys) (w ∷ ws)))
        (λ k h. ground (arith, apart head, ne_of_has k w ws)) back.2)

module _ (s : Store) (head entry : ℕ) (ys zs : List ℕ)
    (r : IsRing s head (ys ++ (entry ∷ zs))) where
  -- `list_del` takes a node out of the list and keeps the order of the others.
  pub list_del-IsRing : IsRing (list_del s entry) head (ys ++ zs)
  list_del-IsRing =
      let (front, back) = Linked-append s head ys entry zs head r.linked in
      let (dx, dy, apart) = Distinct-append (head ∷ ys) (entry ∷ zs) r.distinct in
      record {
        linked = relinked s head entry ys zs front back dx dy apart;
        distinct = Distinct-join (head ∷ ys) zs dx dy.1 (λ k h. ground (arith, apart k h));
      }

-- `list_empty` says whether the list has no node.
pub list_empty_iff :
    (s : Store) (head : ℕ) (xs : List ℕ) → IsRing s head xs → list_empty s head ≡ is_nil xs
unfolding list_empty
list_empty_iff s head [] r = ground (arith, r.linked)
list_empty_iff s head (x ∷ xs) r = ground (arith, r.linked, r.distinct)
