-- ===== src/Locks/Tests.antt =====
-- Steps of two CPUs on the spinlock, and the theorems at them.
use rayos.Base.{ℕ, ◌+◌, ◌≡◌, refl, arith, ◌==◌, if◌then◌else◌}
use rayos.Locks.{
  Phase, State, Step, Steps, move, initial, spinlock_trylock, atomic_compare_exchange,
}
use rayos.Locks.Exclusion.{mutual_exclusion, trylock-residue}

abbrev called : State
called = move initial 3 0 Phase.spinning

abbrev taken : State
taken = move called 3 1 Phase.holding

-- CPU 3 takes the lock.
takes : (residue : ℕ → ℕ) → residue 3 ≡ 0 → Steps residue initial taken
unfolding spinlock_trylock atomic_compare_exchange
takes residue e =
    Steps.then (Steps.then Steps.here (Step.call 3 refl refl)) (Step.round 3 refl (rw e refl))

abbrev holder : ℕ
holder = 3

mutual_exclusion_example : holder ≡ holder
mutual_exclusion_example =
    mutual_exclusion (λ cpu. 0) taken holder holder (λ cpu. omega arith) (takes (λ cpu. 0) refl)
      refl refl

trylock-residue_example : spinlock_trylock 256 1 ≡ (1, 1)
trylock-residue_example = trylock-residue 256 1 (omega arith) (omega arith) (λ e. omega arith)

abbrev residues : ℕ → ℕ
residues cpu = if cpu == 5 then 256 else 0

abbrev both : State
both = move (move taken 5 1 Phase.spinning) 5 1 Phase.holding

-- With CPU 5's register not clear, it holds the lock together with CPU 3.
two_holders :
    Steps residues initial both × (both.phase 3 ≡ Phase.holding) × (both.phase 5 ≡ Phase.holding)
unfolding spinlock_trylock atomic_compare_exchange
two_holders = (
  Steps.then (Steps.then (takes residues refl) (Step.call 5 refl refl)) (Step.round 5 refl refl),
  refl,
  refl,
)

-- Another CPU adds 1 to the word in the first of the two rounds.
abbrev adds : ℕ → ℕ → ℕ
adds round word = if round == 0 then word else word + 1
