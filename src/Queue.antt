-- ===== src/Queue.antt =====
-- src/queue.c and inc/queue.h: a FIFO of list nodes behind a spinlock. The queue's sentinel is the
-- address `head`; its pointers live in the store of ListHead.
-- `spinlock_lock` of a lock that is held does not return on the CPU that calls it: the outcome is
-- `none`. A queue's calls hold its lock for their whole length, so a call of another CPU comes
-- before or after. The result register of the lock's exchange is taken to be clear above its low
-- byte, as in Locks.Exclusion.
pub mod Fifo
pub mod Run
mod Tests
use rayos.Base.{ℕ, ◌+◌, ◌-◌, ◌%◌, ◌^◌, Bool, true, false, Option, none, some, ◌==◌, if◌then◌else◌}
use rayos.ListHead.{Store, init_list_head, list_add_tail, list_del, list_empty}

-- `queue_t`; `nr_list` is an `int`, kept as its bit pattern.
pub record Queue : Type 0 where
  pub head : ℕ
  pub nr_list : ℕ
  pub lock : ℕ

-- `spinlock_lock`: the exchange of 0 for 1 succeeds at once or never.
abbrev pub spinlock_lock : ℕ → Option ℕ
spinlock_lock lock = if lock == 0 then some 1 else none

-- `spinlock_unlock`
abbrev pub spinlock_unlock : ℕ → ℕ
spinlock_unlock lock = 0

-- `QUEUE_INIT`
unfoldable pub queue_init : Store → ℕ → Store × Queue
queue_init s head = (init_list_head s head, record { head = head; nr_list = 0; lock = 0 })

unfoldable pub queue_enqueue : Store → Queue → ℕ → Option (Store × Queue)
queue_enqueue s q node = elim (spinlock_lock q.lock) [
  | none ↦ none
  | some held ↦ some (
    list_add_tail s node q.head,
    record q { nr_list = (q.nr_list + 1) % 2 ^ 32; lock = spinlock_unlock held },
  )
]

-- The node that `queue_dequeue` returns; `none` is NULL.
unfoldable pub queue_dequeue : Store → Queue → Option (Option ℕ × Store × Queue)
queue_dequeue s q = elim (spinlock_lock q.lock) [
  | none ↦ none
  | some held ↦
      if list_empty s q.head
      then some (none, s, record q { lock = spinlock_unlock held })
      else let node = s.next q.head in
        some (
          some node,
          list_del s node,
          record q { nr_list = (q.nr_list + 2 ^ 32 - 1) % 2 ^ 32; lock = spinlock_unlock held },
        )
]

unfoldable pub queue_empty : Store → Queue → Option (Bool × Queue)
queue_empty s q = elim (spinlock_lock q.lock) [
  | none ↦ none
  | some held ↦ some (list_empty s q.head, record q { lock = spinlock_unlock held })
]
