-- ===== src/Queue/Fifo.antt =====
-- The queue refines a FIFO: a list of nodes, taken from the front and put at the end.
use rayos.Base.{
  ℕ, ◌+◌, ◌-◌, ◌%◌, ◌^◌, ◌<◌, ◌≡◌, refl, arith, false, none, some, List, [], ◌∷◌, ◌++◌, length,
  length-append,
}
use rayos.ListHead.{Store, list_add_tail, list_del}
use rayos.ListHead.Ring.{has, IsRing, Apart}
use rayos.ListHead.Ops.{
  init_list_head-IsRing, list_add_tail-IsRing, list_del-IsRing, list_empty_iff, is_nil,
}
use rayos.ListHead.Frame.{Spares, IsRing-frame, list_add_tail-Spares, list_del-Spares}
use rayos.Queue.{Queue, queue_init, queue_enqueue, queue_dequeue, queue_empty}

-- The queue is not locked and holds the nodes xs, oldest first; `nr_list` is their number.
pub record Holds (s : Store) (q : Queue) (xs : List ℕ) : Type 0 where
  pub ring : IsRing s q.head xs
  pub counted : q.nr_list ≡ length xs
  pub unlocked : q.lock ≡ 0

-- Every list apart from the nodes named is as before.
abbrev pub OthersKept : Store → Store → List ℕ → Type 0
OthersKept s t touched =
    (head : ℕ) (ys : List ℕ) → Apart (head ∷ ys) touched → IsRing s head ys → IsRing t head ys

kept : (s t : Store) (touched : List ℕ) → Spares s t touched → OthersKept s t touched
kept s t touched spares head ys apart r = IsRing-frame s t touched head ys spares apart r

-- `QUEUE_INIT` makes an empty queue.
pub queue_init-Holds : (s : Store) (head : ℕ) → Holds (queue_init s head).0 (queue_init s head).1 []
unfolding queue_init
queue_init-Holds s head = record {
  ring = init_list_head-IsRing s head;
  counted = refl;
  unlocked = refl;
}

-- `queue_enqueue` of a node that is not on the queue returns with the node at the end, the counter
-- one higher and the lock free, and leaves every list without these nodes as it is.
pub queue_enqueue-append :
    (s : Store) (q : Queue) (xs : List ℕ) (node : ℕ)
    → Holds s q xs
    → has node (q.head ∷ xs) ≡ false
    → length xs + 1 < 2 ^ 31
    → (t : Store) × (r : Queue) × (queue_enqueue s q node ≡ some (t, r))
      × Holds t r (xs ++ (node ∷ []))
      × (r.head ≡ q.head)
      × OthersKept s t (node ∷ q.head ∷ xs)
unfolding queue_enqueue
queue_enqueue-append s q xs node h out small = (
  list_add_tail s node q.head,
  record q { nr_list = (q.nr_list + 1) % 2 ^ 32; lock = 0 },
  rw h.unlocked refl,
  record {
    ring = list_add_tail-IsRing s node q.head xs h.ring out;
    counted = omega (arith, h.counted, length-append {0} xs (node ∷ []));
    unlocked = refl;
  },
  refl,
  kept s _ (node ∷ q.head ∷ xs) (list_add_tail-Spares s node q.head xs h.ring),
)

-- `queue_dequeue` of a queue that holds x and then xs returns x and leaves xs, the counter one lower
-- and the lock free; lists without these nodes are as before.
pub queue_dequeue-cons :
    (s : Store) (q : Queue) (x : ℕ) (xs : List ℕ)
    → Holds s q (x ∷ xs)
    → length xs + 1 < 2 ^ 31
    → (t : Store) × (r : Queue) × (queue_dequeue s q ≡ some (some x, t, r))
      × Holds t r xs
      × (r.head ≡ q.head)
      × OthersKept s t (q.head ∷ x ∷ xs)
unfolding queue_dequeue
queue_dequeue-cons s q x xs h small =
    let front : s.next q.head ≡ x = h.ring.linked.0 in
    let some_node = list_empty_iff s q.head (x ∷ xs) h.ring in
    (
      list_del s x,
      record q { nr_list = (q.nr_list + 2 ^ 32 - 1) % 2 ^ 32; lock = 0 },
      rw (h.unlocked, some_node, front) refl,
      record {
        ring = list_del-IsRing s q.head x [] xs h.ring;
        counted = omega (arith, h.counted);
        unlocked = refl;
      },
      refl,
      kept s _ (q.head ∷ x ∷ xs) (list_del-Spares s q.head x [] xs h.ring),
    )

-- On a queue that is not locked `queue_empty` returns whether it holds no node, and `queue_dequeue`
-- of an empty one returns NULL; both leave the queue as it is.
pub queue_empty-Holds :
    (s : Store) (q : Queue) (xs : List ℕ) → Holds s q xs → queue_empty s q ≡ some (is_nil xs, q)
unfolding queue_empty
queue_empty-Holds s q xs h =
    rw (h.unlocked, list_empty_iff s q.head xs h.ring) (ground (arith, h.unlocked))

pub queue_dequeue-nil :
    (s : Store) (q : Queue) → Holds s q [] → queue_dequeue s q ≡ some (none, s, q)
unfolding queue_dequeue
queue_dequeue-nil s q h =
    rw (h.unlocked, list_empty_iff s q.head [] h.ring) (ground (arith, h.unlocked))
