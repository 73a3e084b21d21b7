-- ===== src/Locks.antt =====
-- src/atomic.c and src/spinlock.c: the atomic operations on a 64-bit word, and the spinlock as its
-- CPUs take it, one atomic operation at a time.
-- `success` in `atomic_compare_exchange` is a 32-bit register that is not cleared: `setz` writes its
-- low byte, and the rest is what stood in the register before, the argument `residue`.
pub mod Exclusion
pub mod Fetch
mod Tests
use Prim.Native.Nat.{bit_and, bit_or}
use rayos.Base.{
  ℕ, zero, suc, ◌+◌, ◌-◌, ◌*◌, ◌/◌, ◌%◌, ◌^◌, ◌≡◌, Bool, true, false, Option, none, some, ◌==◌,
  if◌then◌else◌, update,
}

-- The return value, the word and `*expected` afterwards.
unfoldable pub atomic_compare_exchange : ℕ → ℕ → ℕ → ℕ → ℕ × ℕ × ℕ
atomic_compare_exchange residue word expected desired =
    if word == expected
    then (residue % 2 ^ 32 / 256 * 256 + 1, desired, expected)
    else (residue % 2 ^ 32 / 256 * 256, word, word)

-- The old value, and the word afterwards.
unfoldable pub atomic_fetch_add : ℕ → ℕ → ℕ × ℕ
atomic_fetch_add word val = (word, (word + val) % 2 ^ 64)

unfoldable pub atomic_fetch_sub : ℕ → ℕ → ℕ × ℕ
unfolding atomic_fetch_add
atomic_fetch_sub word val = atomic_fetch_add word ((2 ^ 64 - val % 2 ^ 64) % 2 ^ 64)

unfoldable pub atomic_exchange : ℕ → ℕ → ℕ × ℕ
atomic_exchange word val = (word, val)

-- The loops of `atomic_fetch_or` and `atomic_fetch_and`, with the operation as `op`: `others` is what
-- other CPUs make of the word between the load and the exchange of a round.
unfoldable pub fetch_loop : ℕ → (ℕ → ℕ → ℕ) → (ℕ → ℕ → ℕ) → ℕ → ℕ → ℕ → Option (ℕ × ℕ)
fetch_loop zero op others residue word val = none
fetch_loop (suc fuel) op others residue word val =
    let (success, after, old_val) =
      atomic_compare_exchange residue (others fuel word) word (op word val) in
    let rest = fetch_loop fuel op others residue after val in
    if success == 0 then rest else some (old_val, after)

unfoldable pub atomic_fetch_or : ℕ → (ℕ → ℕ → ℕ) → ℕ → ℕ → ℕ → Option (ℕ × ℕ)
unfolding fetch_loop
atomic_fetch_or fuel others residue word val = fetch_loop fuel bit_or others residue word val

unfoldable pub atomic_fetch_and : ℕ → (ℕ → ℕ → ℕ) → ℕ → ℕ → ℕ → Option (ℕ × ℕ)
unfolding fetch_loop
atomic_fetch_and fuel others residue word val = fetch_loop fuel bit_and others residue word val

-- The return value, and the lock afterwards.
unfoldable pub spinlock_trylock : ℕ → ℕ → ℕ × ℕ
spinlock_trylock residue lock =
    let (success, after, expected) = atomic_compare_exchange residue lock 0 1 in
    if success == 0 then (0, after) else (1, after)

abbrev pub spinlock_unlock : ℕ → ℕ
spinlock_unlock lock = 0

-- Where a CPU stands: outside, in the loop of `spinlock_lock`, or behind it.
pub data Phase : Type 0 where
  outside spinning holding : Phase

-- The lock, and where each CPU stands.
pub record State : Type 0 where
  pub lock : ℕ
  pub phase : ℕ → Phase

abbrev pub move : State → ℕ → ℕ → Phase → State
move s cpu lock p = record { lock = lock; phase = update s.phase cpu p }

-- One step of one CPU: it calls `spinlock_lock`, makes a round of its loop, or calls
-- `spinlock_unlock`.
pub data Step (residue : ℕ → ℕ) (s t : State) : Type 0 where
  call : (cpu : ℕ) → s.phase cpu ≡ outside → t ≡ move s cpu s.lock spinning → Step residue s t
  round :
      (cpu : ℕ)
      → s.phase cpu ≡ spinning
      → t
        ≡ move s cpu
            (spinlock_trylock (residue cpu) s.lock).1
            (if (spinlock_trylock (residue cpu) s.lock).0 == 0 then spinning else holding)
      → Step residue s t
  release :
      (cpu : ℕ)
      → s.phase cpu ≡ holding
      → t ≡ move s cpu (spinlock_unlock s.lock) outside
      → Step residue s t

-- The states that any order of steps leads to.
pub data Steps (residue : ℕ → ℕ) (s : State) : State → Type 0 where
  here : Steps residue s s
  then : {t u : State} → Steps residue s t → Step residue t u → Steps residue s u

-- After `spinlock_init`: the lock is free, and every CPU is outside.
abbrev pub initial : State
initial = record { lock = 0; phase = λ cpu. outside }
