-- ===== src/Locks/Exclusion.antt =====
-- Mutual exclusion of the spinlock, for every order of the CPUs' steps.
use rayos.Base.{
  ℕ, ◌/◌, ◌%◌, ◌^◌, ◌*◌, ◌<◌, ◌≤◌, ◌≡◌, ◌≢◌, ◌⊎◌, refl, arith, false, ◌==◌, if◌then◌else◌, inl, inr,
  Bool-cases, ==→eq, ◌∙◌, sym, subst,
}
use rayos.Locks.{
  atomic_compare_exchange, spinlock_trylock, spinlock_unlock, Phase, State, Step, Steps, move,
  initial,
}

-- With a clear register the return value tells whether the lock was free, and the lock is held
-- either way.
pub trylock-clear :
    (residue lock : ℕ)
    → residue < 256
    → spinlock_trylock residue lock ≡ (if lock == 0 then (1, 1) else (0, lock))
unfolding spinlock_trylock atomic_compare_exchange
trylock-clear residue lock h =
    let clear : residue % 2 ^ 32 / 256 * 256 ≡ 0 = omega arith in
    elim (Bool-cases (lock == 0)) [
      | inl free ↦ rw (clear, free, spinlock_trylock, atomic_compare_exchange) refl
      | inr held ↦ rw (clear, held, spinlock_trylock, atomic_compare_exchange) refl
    ]

-- The lock is free and no CPU holds it, or one CPU does and no other.
abbrev pub Owned : State → Type 0
Owned s =
    ((s.lock ≡ 0) × ((c : ℕ) → s.phase c ≢ Phase.holding))
    ⊎ ((owner : ℕ) × (s.lock ≡ 1) × ((c : ℕ) → s.phase c ≡ Phase.holding → c ≡ owner))

holding-move :
    (s : State) (cpu lock c : ℕ) (p : Phase)
    → (move s cpu lock p).phase c ≡ Phase.holding
    → ((c ≡ cpu) × (p ≡ Phase.holding)) ⊎ (s.phase c ≡ Phase.holding)
holding-move s cpu lock c p h = elim (Bool-cases (c == cpu)) [
  | inl same ↦
      inl (==→eq _ _ same, subst (λ b. (if b then p else s.phase c) ≡ Phase.holding) same h)
  | inr other ↦ inr (subst (λ b. (if b then p else s.phase c) ≡ Phase.holding) other h)
]

-- A CPU that does not hold the lock moves, and the lock stays.
quiet-Owned :
    (s : State) (cpu : ℕ) (p : Phase) → p ≢ Phase.holding → Owned s → Owned (move s cpu s.lock p)
quiet-Owned s cpu p still (inl (free, nobody)) = inl (
  free,
  λ c h. elim (holding-move s cpu s.lock c p h) [
    | inl mine ↦ still mine.1
    | inr before ↦ nobody c before
  ],
)
quiet-Owned s cpu p still (inr (owner, held, only)) = inr (
  owner,
  held,
  λ c h. elim (holding-move s cpu s.lock c p h) [
    | inl mine ↦ absurd (still mine.1)
    | inr before ↦ only c before
  ],
)

taken-Owned : (s : State) (cpu : ℕ) → s.lock ≡ 0 → Owned s → Owned (move s cpu 1 Phase.holding)
taken-Owned s cpu free (inl (_, nobody)) = inr (
  cpu,
  refl,
  λ c h. elim (holding-move s cpu 1 c Phase.holding h) [
    | inl mine ↦ mine.0
    | inr before ↦ absurd (nobody c before)
  ],
)
taken-Owned s cpu free (inr (owner, held, only)) = absurd (omega arith)

freed-Owned :
    (s : State) (cpu : ℕ)
    → s.phase cpu ≡ Phase.holding
    → Owned s
    → Owned (move s cpu (spinlock_unlock s.lock) Phase.outside)
freed-Owned s cpu mine (inl (free, nobody)) = absurd (nobody cpu mine)
freed-Owned s cpu mine (inr (owner, held, only)) = inl (refl, gone)
  where
    gone : (c : ℕ) → (move s cpu 0 Phase.outside).phase c ≢ Phase.holding
    gone c h = elim (Bool-cases (c == cpu)) [
      | inl same ↦ cc (subst (λ b. (if b then Phase.outside else s.phase c) ≡ Phase.holding) same h)
      | inr other ↦
          let before : s.phase c ≡ Phase.holding =
            subst (λ b. (if b then Phase.outside else s.phase c) ≡ Phase.holding) other h in
          ground (arith, only c before, only cpu mine)
    ]

Step-Owned :
    (residue : ℕ → ℕ) (s t : State)
    → ((cpu : ℕ) → residue cpu < 256)
    → Step residue s t
    → Owned s
    → Owned t
Step-Owned residue s t clear (Step.call cpu was to) o =
    subst Owned (sym to) (quiet-Owned s cpu Phase.spinning (λ e. cc e) o)
Step-Owned residue s t clear (Step.release cpu was to) o =
    subst Owned (sym to) (freed-Owned s cpu was o)
Step-Owned residue s t clear (Step.round cpu was to) o = elim (Bool-cases (s.lock == 0)) [
  | inl free ↦
      let took : spinlock_trylock (residue cpu) s.lock ≡ (1, 1) =
        trylock-clear (residue cpu) s.lock (clear cpu) ∙ rw free refl in
      subst Owned (sym (to ∙ rw took refl)) (taken-Owned s cpu (==→eq _ _ free) o)
  | inr held ↦
      let failed : spinlock_trylock (residue cpu) s.lock ≡ (0, s.lock) =
        trylock-clear (residue cpu) s.lock (clear cpu) ∙ rw held refl in
      subst Owned (sym (to ∙ rw failed refl)) (quiet-Owned s cpu Phase.spinning (λ e. cc e) o)
]

Steps-Owned :
    (residue : ℕ → ℕ) (s t : State)
    → ((cpu : ℕ) → residue cpu < 256)
    → Steps residue s t
    → Owned s
    → Owned t
Steps-Owned residue s _ clear Steps.here o = o
Steps-Owned residue s _ clear (Steps.then {t} {u} before step) o =
    Step-Owned residue t u clear step (Steps-Owned residue s t clear before o)

-- After `spinlock_init`, in whatever order the CPUs call, try and release, at most one of them
-- holds the lock at a time, if the register of the exchange's result is clear above its low byte on
-- every CPU.
pub mutual_exclusion :
    (residue : ℕ → ℕ) (s : State) (a b : ℕ)
    → ((cpu : ℕ) → residue cpu < 256)
    → Steps residue initial s
    → s.phase a ≡ Phase.holding
    → s.phase b ≡ Phase.holding
    → a ≡ b
mutual_exclusion residue s a b clear steps ha hb =
    elim (Steps-Owned residue initial s clear steps (inl (refl, λ c e. cc e))) [
      | inl (free, nobody) ↦ absurd (nobody a ha)
      | inr (owner, held, only) ↦ only a ha ∙ sym (only b hb)
    ]

-- With a register that is not clear above its low byte, `spinlock_trylock` returns 1 for a lock
-- that is held, and leaves the lock as it is.
pub trylock-residue :
    (residue lock : ℕ)
    → 256 ≤ residue
    → residue < 2 ^ 32
    → lock ≢ 0
    → spinlock_trylock residue lock ≡ (1, lock)
unfolding spinlock_trylock atomic_compare_exchange
trylock-residue residue lock h fits held =
    let taken : (lock == 0) ≡ false = ground arith in
    let success : (residue % 2 ^ 32 / 256 * 256 == 0) ≡ false = ground arith in
    rw (taken, spinlock_trylock, atomic_compare_exchange, success) refl
