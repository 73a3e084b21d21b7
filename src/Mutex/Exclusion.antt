-- ===== src/Mutex/Exclusion.antt =====
-- Mutual exclusion of the mutex, for every order of the tasks' steps.
use rayos.Base.{
  ℕ, ◌*◌, ◌/◌, ◌%◌, ◌^◌, ◌<◌, ◌≡◌, ◌≢◌, ◌⊎◌, refl, arith, true, ◌==◌, if◌then◌else◌, List, [], ◌∷◌,
  ◌++◌, update, inl, inr, Bool-cases, ==→eq, ◌∙◌, sym, subst, ap,
}
use rayos.Locks.{atomic_compare_exchange}
use rayos.Sched.{Status}
use rayos.Mutex.{
  Phase, Mutex, mutex_locked, mutex_unlock, mutex_trylock, initial, move, try, block, store_unlock,
  enqueue, after_test, test_queue, after_dequeue, dequeue, make_ready, enqueue_ready, without,
  resume, Step, Steps,
}

-- A trylock with a clear register.
pub trylock-clear :
    (residue locked : ℕ)
    → residue < 256
    → mutex_trylock residue locked
      ≡ (if locked == mutex_unlock then (1, mutex_locked) else (0, locked))
unfolding mutex_trylock atomic_compare_exchange
trylock-clear residue locked h =
    let clear : residue % 2 ^ 32 / 256 * 256 ≡ 0 = omega arith in
    elim (Bool-cases (locked == mutex_unlock)) [
      | inl free ↦ rw (clear, free, mutex_trylock, atomic_compare_exchange) refl
      | inr held ↦ rw (clear, held, mutex_trylock, atomic_compare_exchange) refl
    ]

-- A try that finds the mutex free takes it, and one that does not fails.
pub try-clear :
    (residue t : ℕ) (s : Mutex)
    → residue < 256
    → try residue t s ≡ (
        if s.locked == mutex_unlock
        then move t Phase.holding (record s { locked = mutex_locked })
        else move t Phase.failed s)
unfolding try
try-clear residue t s h = elim (Bool-cases (s.locked == mutex_unlock)) [
  | inl free ↦
      let took : mutex_trylock residue s.locked ≡ (1, mutex_locked) =
        trylock-clear residue s.locked h ∙ rw free refl in
      rw (try, took, free) refl
  | inr held ↦
      let missed : mutex_trylock residue s.locked ≡ (0, s.locked) =
        trylock-clear residue s.locked h ∙ rw held refl in
      rw (try, missed, held) refl
]

-- The mutex is free and no task holds it, or one task does and no other.
abbrev pub Owned : Mutex → Type 0
Owned s =
    ((s.locked ≡ mutex_unlock) × ((t : ℕ) → s.phase t ≢ Phase.holding))
    ⊎ ((owner : ℕ) × (s.locked ≡ mutex_locked) × ((t : ℕ) → s.phase t ≡ Phase.holding → t ≡ owner))

-- No task comes to hold the mutex, and its word stays.
record Quiet (s s' : Mutex) : Type 0 where
  same : s'.locked ≡ s.locked
  held_before : (t : ℕ) → s'.phase t ≡ Phase.holding → s.phase t ≡ Phase.holding

Quiet-Owned : (s s' : Mutex) → Quiet s s' → Owned s → Owned s'
Quiet-Owned s s' q (inl (free, nobody)) = inl (q.same ∙ free, λ t h. nobody t (q.held_before t h))
Quiet-Owned s s' q (inr (owner, held, only)) =
    inr (owner, q.same ∙ held, λ t h. only t (q.held_before t h))

moved-holding :
    (t u : ℕ) (p : Phase) (s : Mutex)
    → (move t p s).phase u ≡ Phase.holding
    → ((u ≡ t) × (p ≡ Phase.holding)) ⊎ (s.phase u ≡ Phase.holding)
moved-holding t u p s h = elim (Bool-cases (u == t)) [
  | inl same ↦ inl (==→eq _ _ same, rw same at h)
  | inr other ↦ inr (rw other at h)
]

move-Quiet :
    (t : ℕ) (p : Phase) (s s' : Mutex)
    → p ≢ Phase.holding
    → s'.locked ≡ s.locked
    → s'.phase ≡ s.phase
    → Quiet s (move t p s')
move-Quiet t p s s' still same phases = record {
  same = same;
  held_before = λ u h. elim (moved-holding t u p s' h) [
    | inl mine ↦ absurd (still mine.1)
    | inr before ↦ ap (λ (f : ℕ → Phase). f u) (sym phases) ∙ before
  ];
}

after_test-still : (q : List ℕ) → after_test q ≢ Phase.holding
after_test-still [] e = cc e
after_test-still (u ∷ rest) e = cc e

after_dequeue-still : (q : List ℕ) → (after_dequeue q).0 ≢ Phase.holding
after_dequeue-still [] e = cc e
after_dequeue-still (u ∷ rest) e = cc e

try-Owned : (residue t : ℕ) (s : Mutex) → residue < 256 → Owned s → Owned (try residue t s)
try-Owned residue t s h o = elim (Bool-cases (s.locked == mutex_unlock)) [
  | inl free ↦
      let is : try residue t s ≡ move t Phase.holding (record s { locked = mutex_locked }) =
        try-clear residue t s h ∙ rw free refl in
      subst Owned (sym is) (taken free o)
  | inr held ↦
      let is : try residue t s ≡ move t Phase.failed s = try-clear residue t s h ∙ rw held refl in
      subst Owned (sym is) (Quiet-Owned s _ (move-Quiet t Phase.failed s s (λ e. cc e) refl refl) o)
]
  where
    taken :
        (s.locked == mutex_unlock) ≡ true
        → Owned s
        → Owned (move t Phase.holding (record s { locked = mutex_locked }))
    taken free (inl (_, nobody)) = inr (
      t,
      refl,
      λ u h. elim (moved-holding t u Phase.holding (record s { locked = mutex_locked }) h) [
        | inl mine ↦ mine.0
        | inr before ↦ absurd (nobody u before)
      ],
    )
    taken free (inr (owner, held, only)) = absurd (ground arith)

unlock-Owned : (t : ℕ) (s : Mutex) → s.phase t ≡ Phase.holding → Owned s → Owned (store_unlock t s)
unfolding store_unlock
unlock-Owned t s mine (inl (free, nobody)) = absurd (nobody t mine)
unlock-Owned t s mine (inr (owner, held, only)) = inl (refl, gone)
  where
    gone :
        (u : ℕ)
        → (move t Phase.unlocking (record s { locked = mutex_unlock })).phase u ≢ Phase.holding
    gone u h = elim (Bool-cases (u == t)) [
      | inl same ↦ cc (rw same at h)
      | inr other ↦
          let before : s.phase u ≡ Phase.holding = rw other at h in
          ground (arith, only u before, only t mine)
    ]

-- Every step but a try and an unlock leaves the word, and nobody comes to hold the mutex.
still-Owned :
    (t : ℕ) (p : Phase) (s mid s' : Mutex)
    → p ≢ Phase.holding
    → mid.locked ≡ s.locked
    → mid.phase ≡ s.phase
    → s' ≡ move t p mid
    → Owned s
    → Owned s'
still-Owned t p s mid s' still same phases to o =
    subst Owned (sym to) (Quiet-Owned s _ (move-Quiet t p s mid still same phases) o)

Step-Owned :
    (residue : ℕ → ℕ) (s s' : Mutex)
    → ((t : ℕ) → residue t < 256)
    → Step residue s s'
    → Owned s
    → Owned s'
unfolding block enqueue test_queue dequeue make_ready enqueue_ready resume
Step-Owned residue s s' clear (Step.call t was to) o =
    still-Owned t Phase.trying s s s' (λ e. cc e) refl refl to o
Step-Owned residue s s' clear (Step.attempt t was to) o =
    subst Owned (sym to) (try-Owned (residue t) t s (clear t) o)
Step-Owned residue s s' clear (Step.set_blocked t was to) o =
    still-Owned t Phase.blocked s (record s { status = update s.status t Status.blocked }) s'
      (λ e. cc e) refl refl to o
Step-Owned residue s s' clear (Step.enter_queue t was to) o =
    still-Owned t Phase.queued s (record s { wait_queue = s.wait_queue ++ (t ∷ []) }) s' (λ e. cc e)
      refl refl to o
Step-Owned residue s s' clear (Step.leave_cpu t was to) o =
    still-Owned t Phase.waiting s s s' (λ e. cc e) refl refl to o
Step-Owned residue s s' clear (Step.run_again t was there to) o =
    still-Owned t Phase.trying s
      (record s { ready = without t s.ready; status = update s.status t Status.running }) s'
      (λ e. cc e) refl refl to o
Step-Owned residue s s' clear (Step.unlock t was to) o =
    subst Owned (sym to) (unlock-Owned t s was o)
Step-Owned residue s s' clear (Step.test t was to) o =
    still-Owned t (after_test s.wait_queue) s s s' (after_test-still s.wait_queue) refl refl to o
Step-Owned residue s s' clear (Step.take t was to) o =
    still-Owned t (after_dequeue s.wait_queue).0 s
      (record s { wait_queue = (after_dequeue s.wait_queue).1 }) s'
      (after_dequeue-still s.wait_queue) refl refl to o
Step-Owned residue s s' clear (Step.set_ready t u was to) o =
    still-Owned t (Phase.readied u) s (record s { status = update s.status u Status.ready }) s'
      (λ e. cc e) refl refl to o
Step-Owned residue s s' clear (Step.wake t u was to) o =
    still-Owned t Phase.outside s (record s { ready = s.ready ++ (u ∷ []) }) s' (λ e. cc e) refl
      refl to o

Steps-Owned :
    (residue : ℕ → ℕ) (s s' : Mutex)
    → ((t : ℕ) → residue t < 256)
    → Steps residue s s'
    → Owned s
    → Owned s'
Steps-Owned residue s _ clear Steps.here o = o
Steps-Owned residue s _ clear (Steps.then {t} {u} before step) o =
    Step-Owned residue t u clear step (Steps-Owned residue s t clear before o)

-- After `mutex_init`, in whatever order the steps of the tasks' calls of `mutex_lock` and `mutex_unlock` come, at
-- most one task holds the mutex at a time, if the register of the exchange's result is clear above
-- its low byte.
pub one_holder :
    (residue : ℕ → ℕ) (s : Mutex) (a b : ℕ)
    → ((t : ℕ) → residue t < 256)
    → Steps residue initial s
    → s.phase a ≡ Phase.holding
    → s.phase b ≡ Phase.holding
    → a ≡ b
one_holder residue s a b clear steps ha hb =
    elim (Steps-Owned residue initial s clear steps (inl (refl, λ t e. cc e))) [
      | inl (free, nobody) ↦ absurd (nobody a ha)
      | inr (owner, held, only) ↦ only a ha ∙ sym (only b hb)
    ]
