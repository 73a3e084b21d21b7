-- ===== src/ListHead/Tests.antt =====
-- A list with head 100 and the nodes 1, 2, 3, built by the operations, and the theorems there.
use rayos.Base.{◌≡◌, refl, arith, [], ◌∷◌}
use rayos.ListHead.{Store, init_list_head, list_add, list_add_tail, list_del, list_empty}
use rayos.ListHead.Ring.{IsRing}
use rayos.ListHead.Ops.{list_del-IsRing, list_empty_iff, is_nil}

abbrev empty : Store
unfolding init_list_head
empty = init_list_head (record { next = λ k. 0; prev = λ k. 0 }) 100

abbrev one : Store
unfolding list_add
one = list_add empty 2 100

abbrev two : Store
unfolding list_add
two = list_add one 1 100

abbrev three : Store
unfolding list_add_tail
three = list_add_tail two 3 100

three-IsRing : IsRing three 100 (1 ∷ 2 ∷ 3 ∷ [])
unfolding init_list_head list_add list_add_tail
three-IsRing = record { linked = ground arith; distinct = ground arith }

removed : (list_del three 2).next 1 ≡ 3
unfolding init_list_head list_add list_add_tail list_del
removed = refl

list_del-IsRing_example : IsRing (list_del three 2) 100 (1 ∷ 3 ∷ [])
list_del-IsRing_example = list_del-IsRing three 100 2 (1 ∷ []) (3 ∷ []) three-IsRing

list_empty_example : list_empty three 100 ≡ is_nil (1 ∷ 2 ∷ 3 ∷ [])
list_empty_example = list_empty_iff three 100 (1 ∷ 2 ∷ 3 ∷ []) three-IsRing
