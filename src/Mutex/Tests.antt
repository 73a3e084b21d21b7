-- ===== src/Mutex/Tests.antt =====
-- The theorems of the mutex at three tasks.
use rayos.Base.{ℕ, ◌<◌, ◌≡◌, ◌≢◌, refl, arith, [], ◌∷◌, sym}
use rayos.Mutex.{Phase, Mutex, mutex_unlock, mutex_locked, initial, move, Step, Steps}
use rayos.Mutex.Exclusion.{try-clear, one_holder}
use rayos.Mutex.Wakeup.{lost_wakeup}

abbrev residue : ℕ → ℕ
residue t = 0

clear : (t : ℕ) → residue t < 256
clear t = omega arith

abbrev called : Mutex
called = move 7 Phase.trying initial

-- Task 7 holds the mutex.
abbrev taken : Mutex
taken = move 7 Phase.holding (record called { locked = mutex_locked })

taken-Steps : Steps residue initial taken
taken-Steps =
    Steps.then (Steps.then Steps.here (Step.call 7 refl refl))
      (Step.attempt 7 refl (sym (try-clear 0 7 called (omega arith))))

abbrev owner : ℕ
owner = 7

one_holder_example : owner ≡ owner
one_holder_example = one_holder residue taken owner owner clear taken-Steps refl refl

lost_wakeup_example :
    (s : Mutex) × Steps residue initial s
    × (s.locked ≡ mutex_unlock)
    × (s.wait_queue ≡ 3 ∷ [])
    × (s.phase 3 ≡ Phase.waiting)
    × ((t : ℕ) → t ≢ 3 → s.phase t ≡ Phase.outside)
lost_wakeup_example = lost_wakeup residue 3 4 clear (λ e. absurd (omega arith))
