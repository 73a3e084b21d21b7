-- ===== src/Mutex/Null.antt =====
-- An order of steps in which `mutex_unlock` dequeues NULL.
use rayos.Base.{ℕ, ◌<◌, ◌≡◌, false, ◌==◌, [], ◌∷◌, update}
use rayos.Sched.{Status}
use rayos.Mutex.{Phase, Mutex, mutex_locked, mutex_unlock, initial, move}

module _ (residue : ℕ → ℕ) (clear : (t : ℕ) → residue t < 256) (a b c : ℕ)
    (apart : (a == b) ≡ false) (apart' : (b == a) ≡ false) (other_a : (c == a) ≡ false)
    (other_b : (c == b) ≡ false) (other : (b == c) ≡ false) where
  -- Task b takes the mutex, task a tries in vain and enters the queue, and b unlocks the mutex and finds
  -- the queue not empty.
  abbrev s1 : Mutex
  s1 = move b Phase.trying initial

  abbrev s2 : Mutex
  s2 = move b Phase.holding (record s1 { locked = mutex_locked })

  abbrev s3 : Mutex
  s3 = move a Phase.trying s2

  abbrev s4 : Mutex
  s4 = move a Phase.failed s3

  abbrev s5 : Mutex
  s5 = move a Phase.blocked (record s4 { status = update s4.status a Status.blocked })

  abbrev s6 : Mutex
  s6 = move a Phase.queued (record s5 { wait_queue = a ∷ [] })

  abbrev s7 : Mutex
  s7 = move b Phase.unlocking (record s6 { locked = mutex_unlock })

  abbrev s8 : Mutex
  s8 = move b Phase.nonempty s7

  -- Task c takes the mutex, unlocks it and dequeues a; and then b dequeues.
  abbrev s9 : Mutex
  s9 = move c Phase.trying s8

  abbrev s10 : Mutex
  s10 = move c Phase.holding (record s9 { locked = mutex_locked })

  abbrev s11 : Mutex
  s11 = move c Phase.unlocking (record s10 { locked = mutex_unlock })

  abbrev s12 : Mutex
  s12 = move c Phase.nonempty s11

  abbrev s13 : Mutex
  s13 = move c (Phase.dequeued a) (record s12 { wait_queue = [] })

  abbrev s14 : Mutex
  s14 = move b Phase.followed_null (record s13 { wait_queue = [] })
