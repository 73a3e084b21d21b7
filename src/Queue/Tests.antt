-- ===== src/Queue/Tests.antt =====
-- The queue's theorems at a queue with head 100 that holds the node 1.
use rayos.Base.{◌≡◌, refl, arith, false, none, some, List, [], ◌∷◌, ◌==◌, if◌then◌else◌}
use rayos.ListHead.{Store}
use rayos.Queue.{Queue}
use rayos.Queue.Fifo.{Holds}
use rayos.Queue.Run.{Op, enqueue, dequeue, is_empty, Reply, run, fifo, run-fifo}

abbrev store : Store
store = record { next = λ k. if k == 100 then 1 else 100; prev = λ k. if k == 100 then 1 else 100 }

abbrev queue : Queue
queue = record { head = 100; nr_list = 1; lock = 0 }

queue-Holds : Holds store queue (1 ∷ [])
queue-Holds = record {
  ring = record { linked = ground arith; distinct = ground arith };
  counted = refl;
  unlocked = refl;
}

abbrev calls : List Op
calls = dequeue ∷ dequeue ∷ enqueue 5 ∷ enqueue 6 ∷ is_empty ∷ dequeue ∷ []

answers :
    fifo (1 ∷ []) calls
    ≡ Reply.node (some 1)
      ∷ Reply.node none
      ∷ Reply.done
      ∷ Reply.done
      ∷ Reply.answer false
      ∷ Reply.node (some 5)
      ∷ []
unfolding fifo
answers = refl

run-fifo_example : run store queue calls ≡ some (fifo (1 ∷ []) calls)
run-fifo_example = run-fifo calls store queue (1 ∷ []) queue-Holds (ground arith)
