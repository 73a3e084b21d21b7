-- ===== src/ListHead.antt =====
-- src/list.c and inc/list.h: the circular doubly linked lists that are embedded in other structures.
-- An address is a number. The store holds the two pointers of the `struct list_head` at every
-- address; the operations update it in the order of the source's assignments.
pub mod Ring
pub mod Ops
pub mod Frame
mod Tests
use rayos.Base.{ℕ, Bool, update, ◌==◌}

-- `struct list_head`, at every address
pub record Store : Type 0 where
  pub next : ℕ → ℕ
  pub prev : ℕ → ℕ

-- `p->next = v` and `p->prev = v`
abbrev pub set_next : Store → ℕ → ℕ → Store
set_next s p v = record s { next = update s.next p v }

abbrev pub set_prev : Store → ℕ → ℕ → Store
set_prev s p v = record s { prev = update s.prev p v }

-- `list->next = list->prev = list`: the assignment on the right comes first.
unfoldable pub init_list_head : Store → ℕ → Store
init_list_head s list = set_next (set_prev s list list) list list

unfoldable pub list_add : Store → ℕ → ℕ → Store
list_add s new head =
    let s1 = set_next s new (s.next head) in
    let s2 = set_prev s1 new head in let s3 = set_prev s2 (s2.next head) new in set_next s3 head new

unfoldable pub list_add_tail : Store → ℕ → ℕ → Store
list_add_tail s new head =
    let prev = s.prev head in
    let s1 = set_next s new head in
    let s2 = set_prev s1 new prev in let s3 = set_next s2 prev new in set_prev s3 head new

unfoldable pub list_del : Store → ℕ → Store
list_del s entry =
    let s1 = set_prev s (s.next entry) (s.prev entry) in set_next s1 (s1.prev entry) (s1.next entry)

unfoldable pub list_empty : Store → ℕ → Bool
list_empty s head = s.next head == head
