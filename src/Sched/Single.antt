-- ===== src/Sched/Single.antt =====
-- A task stands in one place, and what was given back is in none.
use rayos.Base.{
  ℕ, suc, ◌+◌, ◌≤◌, ◌<◌, ◌≡◌, refl, arith, true, Option, none, some, ◌==◌, if◌then◌else◌, List, [],
  ◌∷◌, ◌++◌, ◌∙◌, ap, sym, subst,
}
use rayos.Sched.{
  Release, Status, Sched, enqueue_ready, enqueue_exit, reap, put_back, make_current, switch_from,
  scheduler, release_all,
}
use rayos.Sched.Holding.{GivesBack, release_all-GivesBack}
use rayos.Sched.Turn.{marked, switched, scheduler-switched}

-- How often t occurs.
abbrev pub tally : ℕ → List ℕ → ℕ
tally t [] = 0
tally t (x ∷ xs) = if x == t then suc (tally t xs) else tally t xs

pub tally-append : (t : ℕ) (xs ys : List ℕ) → tally t (xs ++ ys) ≡ tally t xs + tally t ys
tally-append t [] ys = omega arith
tally-append t (x ∷ xs) ys = ground (arith, tally-append t xs ys)

abbrev pub running_on : Option ℕ → List ℕ
running_on none = []
running_on (some t) = t ∷ []

-- The tasks that are current, ready or exiting on the CPU.
abbrev pub places : ℕ → Sched → List ℕ
places cpu s = running_on (s.current cpu) ++ (s.task_readyqueue cpu ++ s.task_exitqueue cpu)

-- No task stands in two of the CPU's places, or twice in one.
abbrev pub Single : ℕ → Sched → Type 0
Single cpu s = (t : ℕ) → tally t (places cpu s) ≤ 1

tally-places :
    (t cpu : ℕ) (s : Sched)
    → tally t (places cpu s)
      ≡ tally t (running_on (s.current cpu))
        + tally t (s.task_readyqueue cpu)
        + tally t (s.task_exitqueue cpu)
tally-places t cpu s = omega (
  arith,
  tally-append t (running_on (s.current cpu)) (s.task_readyqueue cpu ++ s.task_exitqueue cpu),
  tally-append t (s.task_readyqueue cpu) (s.task_exitqueue cpu),
)

placed :
    (t cpu new : ℕ) (ready exiting : List ℕ) (s : Sched)
    → s.current cpu ≡ some new
    → s.task_readyqueue cpu ≡ ready
    → s.task_exitqueue cpu ≡ exiting
    → tally t (places cpu s) ≡ tally t (new ∷ []) + tally t ready + tally t exiting
placed t cpu new ready exiting s c q e = tally-places t cpu s ∙ rw (c, q, e) refl

-- The places after a switch: the new task is current, and the old one has gone to the end of the
-- ready queue, to the exit queue or to neither.
switched-places :
    (t cpu old new : ℕ) (rest : List ℕ) (s : Sched)
    → tally t (places cpu (switched cpu old new rest s))
      ≤ tally t (new ∷ []) + tally t rest + tally t (old ∷ [])
unfolding put_back reap
switched-places t cpu old new rest s = by ((marked cpu new rest s).task old).status
  where
    here : (cpu == cpu) ≡ true
    here = ground arith

    left :
        (status : Status)
        → put_back cpu old status (marked cpu new rest s) ≡ marked cpu new rest s
        → tally t
            (places cpu (make_current cpu new (put_back cpu old status (marked cpu new rest s))))
          ≤ tally t (new ∷ []) + tally t rest + tally t (old ∷ [])
    left status gone = omega (
      arith,
      ap (λ (x : Sched). tally t (places cpu (make_current cpu new x))) gone
          ∙ placed t cpu new rest [] (make_current cpu new (marked cpu new rest s)) (rw here refl)
              (rw here refl) (rw here refl),
    )

    by :
        (status : Status)
        → tally t
            (places cpu (make_current cpu new (put_back cpu old status (marked cpu new rest s))))
          ≤ tally t (new ∷ []) + tally t rest + tally t (old ∷ [])
    by Status.running = omega (
      arith,
      placed t cpu new (rest ++ (old ∷ [])) []
          (make_current cpu new (enqueue_ready cpu old (marked cpu new rest s))) (rw here refl)
          (rw here refl) (rw here refl),
      tally-append t rest (old ∷ []),
    )
    by Status.exit = omega (
      arith,
      placed t cpu new rest (old ∷ [])
          (make_current cpu new (enqueue_exit cpu old (marked cpu new rest s))) (rw here refl)
          (rw here refl) (rw here refl),
    )
    by Status.blocked = left Status.blocked refl
    by Status.dead = left Status.dead refl
    by Status.ready = left Status.ready refl

released-switched :
    (cpu old new : ℕ) (rest : List ℕ) (s : Sched)
    → (switched cpu old new rest s).released
      ≡ s.released ++ release_all s.task (s.task_exitqueue cpu)
unfolding put_back reap
released-switched cpu old new rest s = by ((marked cpu new rest s).task old).status
  where
    by :
        (status : Status)
        → (put_back cpu old status (marked cpu new rest s)).released
          ≡ s.released ++ release_all s.task (s.task_exitqueue cpu)
    by Status.running = refl
    by Status.exit = refl
    by Status.blocked = refl
    by Status.dead = refl
    by Status.ready = refl

-- The places after a run of the scheduler are among those of before, less the exiting tasks; and
-- what these held is given back.
abbrev Shrinks : ℕ → Sched → Sched → Type 0
Shrinks cpu s s' =
    ((t : ℕ) → tally t (places cpu s') + tally t (s.task_exitqueue cpu) ≤ tally t (places cpu s))
    × (s'.released ≡ s.released ++ release_all s.task (s.task_exitqueue cpu))

scheduler-Shrinks :
    (cpu old : ℕ) (s : Sched) → s.current cpu ≡ some old → Shrinks cpu s (scheduler cpu s)
unfolding scheduler reap switch_from
scheduler-Shrinks cpu old s c = from (s.task_readyqueue cpu) refl
  where
    from : (ready : List ℕ) → s.task_readyqueue cpu ≡ ready → Shrinks cpu s (scheduler cpu s)
    from [] q =
        let here : (cpu == cpu) ≡ true = ground arith in
        let is : scheduler cpu s ≡ reap cpu s =
          rw (scheduler, c) (ap (λ (l : List ℕ). switch_from cpu old l (reap cpu s)) q) in
        subst (Shrinks cpu s) (sym is) (
          λ t. omega (
            arith,
            placed t cpu old [] [] (reap cpu s) c q (rw here refl),
            placed t cpu old [] (s.task_exitqueue cpu) s c q refl,
          ),
          refl,
        )
    from (new ∷ rest) q = subst (Shrinks cpu s) (sym (scheduler-switched cpu old new rest s c q)) (
      λ t. ground (
        arith,
        switched-places t cpu old new rest s,
        placed t cpu old (new ∷ rest) (s.task_exitqueue cpu) s c q refl,
      ),
      released-switched cpu old new rest s,
    )

-- If no task stands in two places of a CPU (current, in its ready queue or in its exit queue), or
-- twice in one, then a run of the scheduler there with a current task gives back, behind what was
-- given back before, what the tasks of the exit queue hold, all of it and nothing else, as many
-- entries as there are things; afterwards no task stands in two places of the CPU or twice in
-- one, and the tasks of the exit queue are neither current nor ready nor exiting on it.
pub scheduler-Single :
    (cpu old : ℕ) (s : Sched)
    → Single cpu s
    → s.current cpu ≡ some old
    → (given : List Release) × ((scheduler cpu s).released ≡ s.released ++ given)
      × GivesBack s.task (s.task_exitqueue cpu) given
      × Single cpu (scheduler cpu s)
      × ((t : ℕ) → 0 < tally t (s.task_exitqueue cpu) → tally t (places cpu (scheduler cpu s)) ≡ 0)
scheduler-Single cpu old s single c =
    let (shrinks, released) = scheduler-Shrinks cpu old s c in
    (
      release_all s.task (s.task_exitqueue cpu),
      released,
      release_all-GivesBack s.task (s.task_exitqueue cpu),
      (λ t. omega (arith, shrinks t, single t)),
      (λ t h. omega (arith, shrinks t, single t)),
    )
