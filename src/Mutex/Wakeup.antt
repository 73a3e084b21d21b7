-- ===== src/Mutex/Wakeup.antt =====
-- An order of steps in which a task sleeps and nobody is left to wake it.
use rayos.Base.{update, ℕ, ◌<◌, ◌≡◌, ◌≢◌, refl, arith, true, false, ◌==◌, [], ◌∷◌, sym}
use rayos.Sched.{Status}
use rayos.Mutex.{
  Phase, Mutex, mutex_locked, mutex_unlock, initial, move, try, block, enqueue, store_unlock,
  test_queue, Step, Steps,
}
use rayos.Mutex.Exclusion.{try-clear}

module _ (residue : ℕ → ℕ) (clear : (t : ℕ) → residue t < 256) (a b : ℕ) (apart : a ≢ b) where
  -- Task b takes the mutex, task a tries in vain, b unlocks it and finds the queue empty, and then a
  -- enters the queue.
  abbrev called : Mutex
  called = move b Phase.trying initial

  abbrev taken : Mutex
  taken = move b Phase.holding (record called { locked = mutex_locked })

  abbrev tried : Mutex
  tried = move a Phase.trying taken

  abbrev missed : Mutex
  missed = move a Phase.failed tried

  abbrev unlocked : Mutex
  unlocked = move b Phase.unlocking (record missed { locked = mutex_unlock })

  abbrev left : Mutex
  left = move b Phase.outside unlocked

  abbrev marked : Mutex
  marked = move a Phase.blocked (record left { status = update left.status a Status.blocked })

  abbrev entered : Mutex
  entered = move a Phase.queued (record marked { wait_queue = a ∷ [] })

  abbrev asleep : Mutex
  asleep = move a Phase.waiting entered

  ab : (a == b) ≡ false
  ab = ground arith

  ba : (b == a) ≡ false
  ba = ground arith

  aa : (a == a) ≡ true
  aa = ground arith

  bb : (b == b) ≡ true
  bb = ground arith

  trace : Steps residue initial asleep
  unfolding try block enqueue store_unlock test_queue
  trace =
      let s1 : Steps residue initial called = Steps.then Steps.here (Step.call b refl refl) in
      let s2 : Steps residue initial taken =
        Steps.then s1
          (Step.attempt b (rw bb refl) (sym (try-clear (residue b) b called (clear b)))) in
      let s3 : Steps residue initial tried = Steps.then s2 (Step.call a (rw ab refl) refl) in
      let s4 : Steps residue initial missed =
        Steps.then s3
          (Step.attempt a (rw aa refl) (sym (try-clear (residue a) a tried (clear a)))) in
      let s5 : Steps residue initial unlocked =
        Steps.then s4 (Step.unlock b (rw (ba, bb) refl) refl) in
      let s6 : Steps residue initial left = Steps.then s5 (Step.test b (rw bb refl) refl) in
      let s7 : Steps residue initial marked =
        Steps.then s6 (Step.set_blocked a (rw (ab, aa) refl) refl) in
      let s8 : Steps residue initial entered =
        Steps.then s7 (Step.enter_queue a (rw aa refl) refl) in
      Steps.then s8 (Step.leave_cpu a (rw aa refl) refl)

  others : (t : ℕ) → t ≢ a → asleep.phase t ≡ Phase.outside
  others t h = ground arith

  a_waits : asleep.phase a ≡ Phase.waiting
  a_waits = rw aa refl

-- For any two tasks there is an order of steps, from `mutex_init` on, after which the mutex is free,
-- one of them sleeps in its queue, and no other task is at the mutex: the wake-up is lost, since
-- `mutex_lock` enters the queue some time after its trylock has failed. The register of the
-- exchange's result is clear above its low byte.
pub lost_wakeup :
    (residue : ℕ → ℕ) (a b : ℕ)
    → ((t : ℕ) → residue t < 256)
    → a ≢ b
    → (s : Mutex) × Steps residue initial s
      × (s.locked ≡ mutex_unlock)
      × (s.wait_queue ≡ a ∷ [])
      × (s.phase a ≡ Phase.waiting)
      × ((t : ℕ) → t ≢ a → s.phase t ≡ Phase.outside)
lost_wakeup residue a b clear apart = (
  asleep residue clear a b apart,
  trace residue clear a b apart,
  refl,
  refl,
  a_waits residue clear a b apart,
  others residue clear a b apart,
)
