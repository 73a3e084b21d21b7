-- ===== src/Queue/Run.antt =====
-- Any sequence of calls: the queue answers as an abstract FIFO does.
use rayos.Base.{
  ℕ, ◌+◌, ◌^◌, ◌<◌, ◌≡◌, refl, Bool, false, Option, none, some, List, [], ◌∷◌, ◌++◌, length, sym,
  subst,
}
use rayos.ListHead.{Store}
use rayos.ListHead.Ring.{has}
use rayos.ListHead.Ops.{is_nil}
use rayos.Queue.{Queue, queue_enqueue, queue_dequeue, queue_empty}
use rayos.Queue.Fifo.{
  Holds, queue_enqueue-append, queue_dequeue-cons, queue_dequeue-nil, queue_empty-Holds,
}

pub data Op : Type 0 where
  enqueue : ℕ → Op
  dequeue is_empty : Op

pub data Reply : Type 0 where
  done : Reply
  node : Option ℕ → Reply
  answer : Bool → Reply

-- The replies of queue.c to a sequence of calls; `none` if a call does not return.
unfoldable pub run : Store → Queue → List Op → Option (List Reply)
run s q [] = some []
run s q (enqueue n ∷ ops) = elim (queue_enqueue s q n) [
  | none ↦ none
  | some (t, r) ↦ elim (run t r ops) [ none ↦ none | some rs ↦ some (done ∷ rs) ]
]
run s q (dequeue ∷ ops) = elim (queue_dequeue s q) [
  | none ↦ none
  | some (n, t, r) ↦ elim (run t r ops) [ none ↦ none | some rs ↦ some (node n ∷ rs) ]
]
run s q (is_empty ∷ ops) = elim (queue_empty s q) [
  | none ↦ none
  | some (b, r) ↦ elim (run s r ops) [ none ↦ none | some rs ↦ some (answer b ∷ rs) ]
]

-- The replies of a FIFO that holds xs.
unfoldable pub fifo : List ℕ → List Op → List Reply
fifo xs [] = []
fifo xs (enqueue n ∷ ops) = done ∷ fifo (xs ++ (n ∷ [])) ops
fifo [] (dequeue ∷ ops) = node none ∷ fifo [] ops
fifo (x ∷ xs) (dequeue ∷ ops) = node (some x) ∷ fifo xs ops
fifo xs (is_empty ∷ ops) = answer (is_nil xs) ∷ fifo xs ops

-- What a caller owes: a node is put in only while it is not on the queue, and the counter does not
-- overflow.
abbrev pub Legal : ℕ → List ℕ → List Op → Type 0
Legal head xs [] = Unit {0}
Legal head xs (enqueue n ∷ ops) =
    (has n (head ∷ xs) ≡ false) × (length xs + 1 < 2 ^ 31) × Legal head (xs ++ (n ∷ [])) ops
Legal head [] (dequeue ∷ ops) = Legal head [] ops
Legal head (x ∷ xs) (dequeue ∷ ops) = (length xs + 1 < 2 ^ 31) × Legal head xs ops
Legal head xs (is_empty ∷ ops) = Legal head xs ops

-- Every legal sequence of calls returns, with the replies of the abstract FIFO.
pub run-fifo :
    (ops : List Op) (s : Store) (q : Queue) (xs : List ℕ)
    → Holds s q xs
    → Legal q.head xs ops
    → run s q ops ≡ some (fifo xs ops)
unfolding run fifo
run-fifo [] s q xs h l = refl
run-fifo (enqueue n ∷ ops) s q xs h l =
    let (t, r, e, h', same, _) = queue_enqueue-append s q xs n h l.0 l.1 in
    let rest =
      run-fifo ops t r (xs ++ (n ∷ [])) h'
        (subst (λ a. Legal a (xs ++ (n ∷ [])) ops) (sym same) l.2) in
    rw (e, run, rest) refl
run-fifo (dequeue ∷ ops) s q [] h l =
    rw (queue_dequeue-nil s q h, run, run-fifo ops s q [] h l) refl
run-fifo (dequeue ∷ ops) s q (x ∷ xs) h l =
    let (t, r, e, h', same, _) = queue_dequeue-cons s q x xs h l.0 in
    let rest = run-fifo ops t r xs h' (subst (λ a. Legal a xs ops) (sym same) l.1) in
    rw (e, run, rest) refl
run-fifo (is_empty ∷ ops) s q [] h l =
    rw (queue_empty-Holds s q [] h, run, run-fifo ops s q [] h l) refl
run-fifo (is_empty ∷ ops) s q (x ∷ xs) h l =
    rw (queue_empty-Holds s q (x ∷ xs) h, run, run-fifo ops s q (x ∷ xs) h l) refl
