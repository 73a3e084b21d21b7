-- ===== src/Mutex.antt =====
-- src/mutex.c and inc/mutex.h: a mutex with a queue of the tasks that wait for it, as the tasks of
-- all CPUs take it, one atomic operation, one store of a status or one queue operation at a time.
-- The queue is the list of its tasks from the front on (Queue.Run). A task that has called `scheduler`
-- with its status TASK_BLOCKED stands still until another one has put it into a ready queue; this needs another
-- task that is ready on its CPU, which is assumed, as it is that no CPU runs a task before it has left its own. A
-- task that uses NULL as a task goes no further.
pub mod Exclusion
pub mod Null
pub mod Wakeup
mod Tests
use rayos.Base.{
  true, false, ◌||◌, ℕ, ◌≡◌, Bool, Option, none, some, ◌==◌, if◌then◌else◌, List, [], ◌∷◌, ◌++◌,
  update,
}
use rayos.Sched.{Status}
use rayos.Locks.{atomic_compare_exchange}

-- `enum mutex_status`
abbrev pub mutex_locked : ℕ
mutex_locked = 0

abbrev pub mutex_unlock : ℕ
mutex_unlock = 1

-- Where a task stands. In `mutex_lock`: before `mutex_trylock`; behind one that failed; behind the store
-- of TASK_BLOCKED; in the mutex's queue, before its call of `scheduler`; behind that call, off its
-- CPU. Then it holds the mutex. In `mutex_unlock`: behind the store of MUTEX_UNLOCK; behind a test
-- that the queue is not empty; with the task that it has dequeued; behind the store of TASK_READY in
-- it; or behind a dequeue that gave NULL, which it goes on to use as a task.
pub data Phase : Type 0 where
  outside trying failed blocked queued waiting holding unlocking nonempty : Phase
  dequeued : ℕ → Phase
  readied : ℕ → Phase
  followed_null : Phase

-- `ready` has the tasks that were put into a ready queue and have not run since.
pub record Mutex : Type 0 where
  pub locked : ℕ
  pub wait_queue : List ℕ
  pub status : ℕ → Status
  pub ready : List ℕ
  pub phase : ℕ → Phase

-- The return value, and the word afterwards.
unfoldable pub mutex_trylock : ℕ → ℕ → ℕ × ℕ
mutex_trylock residue locked =
    let (success, after, expected) =
      atomic_compare_exchange residue locked mutex_unlock mutex_locked in
    (success, after)

-- `mutex_init`
abbrev pub initial : Mutex
initial = record {
  locked = mutex_unlock;
  wait_queue = [];
  status = λ t. Status.running;
  ready = [];
  phase = λ t. outside;
}

abbrev pub move : ℕ → Phase → Mutex → Mutex
move t p s = record s { phase = update s.phase t p }

-- `mutex_trylock` in the loop of `mutex_lock`.
unfoldable pub try : ℕ → ℕ → Mutex → Mutex
try residue t s =
    let (success, after) = mutex_trylock residue s.locked in
    move t (if success == 0 then failed else holding) (record s { locked = after })

-- `current->status = TASK_BLOCKED`
unfoldable pub block : ℕ → Mutex → Mutex
block t s = move t blocked (record s { status = update s.status t Status.blocked })

-- `queue_enqueue(&mt->wait_queue, &current->list)`
unfoldable pub enqueue : ℕ → Mutex → Mutex
enqueue t s = move t queued (record s { wait_queue = s.wait_queue ++ (t ∷ []) })

-- `atomic_store(&mt->locked, MUTEX_UNLOCK)`
unfoldable pub store_unlock : ℕ → Mutex → Mutex
store_unlock t s = move t unlocking (record s { locked = mutex_unlock })

-- `if (!queue_empty(&mt->wait_queue))`; with an empty queue the call ends.
abbrev pub after_test : List ℕ → Phase
after_test [] = outside
after_test (u ∷ rest) = nonempty

unfoldable pub test_queue : ℕ → Mutex → Mutex
test_queue t s = move t (after_test s.wait_queue) s

-- `queue_dequeue(&mt->wait_queue)`, which gives NULL if another task has emptied the queue.
abbrev pub after_dequeue : List ℕ → Phase × List ℕ
after_dequeue [] = (followed_null, [])
after_dequeue (u ∷ rest) = (dequeued u, rest)

unfoldable pub dequeue : ℕ → Mutex → Mutex
dequeue t s =
    move t (after_dequeue s.wait_queue).0 (record s { wait_queue = (after_dequeue s.wait_queue).1 })

-- `task->status = TASK_READY`
unfoldable pub make_ready : ℕ → ℕ → Mutex → Mutex
make_ready t u s = move t (readied u) (record s { status = update s.status u Status.ready })

-- `queue_enqueue(get_task_readyqueue(), &task->list)`, and the return.
unfoldable pub enqueue_ready : ℕ → ℕ → Mutex → Mutex
enqueue_ready t u s = move t outside (record s { ready = s.ready ++ (u ∷ []) })

-- The first u leaves the list.
unfoldable pub without : ℕ → List ℕ → List ℕ
without u [] = []
without u (x ∷ xs) = if x == u then xs else x ∷ without u xs

abbrev pub contains : ℕ → List ℕ → Bool
contains u [] = false
contains u (x ∷ xs) = (x == u) || contains u xs

-- A task that is off its CPU, and in a ready queue, runs again behind its call of `scheduler`.
unfoldable pub resume : ℕ → Mutex → Mutex
resume t s =
    move t trying
      (record s { ready = without t s.ready; status = update s.status t Status.running })

-- One step of one task; `residue t` is what stood in the register of the exchange's result.
pub data Step (residue : ℕ → ℕ) (s s' : Mutex) : Type 0 where
  call : (t : ℕ) → s.phase t ≡ outside → s' ≡ move t trying s → Step residue s s'
  attempt : (t : ℕ) → s.phase t ≡ trying → s' ≡ try (residue t) t s → Step residue s s'
  set_blocked : (t : ℕ) → s.phase t ≡ failed → s' ≡ block t s → Step residue s s'
  enter_queue : (t : ℕ) → s.phase t ≡ blocked → s' ≡ enqueue t s → Step residue s s'
  leave_cpu : (t : ℕ) → s.phase t ≡ queued → s' ≡ move t waiting s → Step residue s s'
  run_again :
      (t : ℕ)
      → s.phase t ≡ waiting
      → contains t s.ready ≡ true
      → s' ≡ resume t s
      → Step residue s s'
  unlock : (t : ℕ) → s.phase t ≡ holding → s' ≡ store_unlock t s → Step residue s s'
  test : (t : ℕ) → s.phase t ≡ unlocking → s' ≡ test_queue t s → Step residue s s'
  take : (t : ℕ) → s.phase t ≡ nonempty → s' ≡ dequeue t s → Step residue s s'
  set_ready : (t u : ℕ) → s.phase t ≡ dequeued u → s' ≡ make_ready t u s → Step residue s s'
  wake : (t u : ℕ) → s.phase t ≡ readied u → s' ≡ enqueue_ready t u s → Step residue s s'

-- The states that any order of steps leads to.
pub data Steps (residue : ℕ → ℕ) (s : Mutex) : Mutex → Type 0 where
  here : Steps residue s s
  then : {t u : Mutex} → Steps residue s t → Step residue t u → Steps residue s u
