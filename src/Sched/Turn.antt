-- ===== src/Sched/Turn.antt =====
-- Every task of a ready queue comes to run.
use rayos.Base.{
  ℕ, suc, ◌≡◌, refl, arith, none, some, List, [], ◌∷◌, ◌++◌, length, update, update_self, ◌∙◌, ap,
  sym, subst,
}
use rayos.Sched.{
  Status, Sched, set_status, enqueue_ready, reap, put_back, make_current, switch_from, scheduler,
}

-- What happens on a CPU: its scheduler runs, a task arrives in its ready queue (by a balanced
-- enqueue or a wake-up on any CPU), or the current task's status changes.
pub data Event : Type 0 where
  tick : Event
  arrive : ℕ → Event
  mark : Status → Event

abbrev pub apply : ℕ → Event → Sched → Sched
apply cpu Event.tick s = scheduler cpu s
apply cpu (Event.arrive t) s = enqueue_ready cpu t s
apply cpu (Event.mark status) s = elim (s.current cpu) [ none ↦ s | some t ↦ set_status t status s ]

abbrev pub run : ℕ → List Event → Sched → Sched
run cpu [] s = s
run cpu (e ∷ es) s = run cpu es (apply cpu e s)

-- How often the scheduler runs.
abbrev pub ticks : List Event → ℕ
ticks [] = 0
ticks (Event.tick ∷ es) = suc (ticks es)
ticks (Event.arrive t ∷ es) = ticks es
ticks (Event.mark status ∷ es) = ticks es

append_assoc : (xs ys zs : List ℕ) → (xs ++ ys) ++ zs ≡ xs ++ (ys ++ zs)
append_assoc [] ys zs = refl
append_assoc (x ∷ xs) ys zs = ap (λ r. x ∷ r) (append_assoc xs ys zs)

append_nil : (xs : List ℕ) → xs ++ [] ≡ xs
append_nil [] = refl
append_nil (x ∷ xs) = ap (λ r. x ∷ r) (append_nil xs)

-- The queue once the old task has been put back: more tasks may stand at its end.
put_back-ready :
    (cpu old : ℕ) (status : Status) (s : Sched)
    → (more : List ℕ) × ((put_back cpu old status s).task_readyqueue cpu
        ≡ s.task_readyqueue cpu ++ more)
      × ((put_back cpu old status s).current ≡ s.current)
unfolding put_back
put_back-ready cpu old Status.running s = (old ∷ [], update_self s.task_readyqueue cpu _, refl)
put_back-ready cpu old Status.exit s = ([], sym (append_nil _), refl)
put_back-ready cpu old Status.blocked s = ([], sym (append_nil _), refl)
put_back-ready cpu old Status.dead s = ([], sym (append_nil _), refl)
put_back-ready cpu old Status.ready s = ([], sym (append_nil _), refl)

-- The state in which the new task is taken from the queue and marked.
abbrev pub marked : ℕ → ℕ → List ℕ → Sched → Sched
marked cpu new rest s =
    let reaped : Sched = reap cpu s in
    set_status new Status.running
      (record reaped { task_readyqueue = update reaped.task_readyqueue cpu rest })

abbrev pub switched : ℕ → ℕ → ℕ → List ℕ → Sched → Sched
switched cpu old new rest s =
    let m : Sched = marked cpu new rest s in
    make_current cpu new (put_back cpu old (m.task old).status m)

pub scheduler-switched :
    (cpu old new : ℕ) (rest : List ℕ) (s : Sched)
    → s.current cpu ≡ some old
    → s.task_readyqueue cpu ≡ new ∷ rest
    → scheduler cpu s ≡ switched cpu old new rest s
unfolding scheduler switch_from reap
scheduler-switched cpu old new rest s c q =
    let runs : scheduler cpu s ≡ switch_from cpu old (s.task_readyqueue cpu) (reap cpu s) =
      rw (scheduler, c) refl in
    runs ∙ ap (λ (l : List ℕ). switch_from cpu old l (reap cpu s)) q

-- A run of the scheduler with a task at the front of the queue: it becomes the current one.
scheduler-next :
    (cpu old new : ℕ) (rest : List ℕ) (s : Sched)
    → s.current cpu ≡ some old
    → s.task_readyqueue cpu ≡ new ∷ rest
    → ((scheduler cpu s).current cpu ≡ some new)
      × ((more : List ℕ) × ((scheduler cpu s).task_readyqueue cpu ≡ rest ++ more))
unfolding reap
scheduler-next cpu old new rest s c q =
    let is : scheduler cpu s ≡ switched cpu old new rest s =
      scheduler-switched cpu old new rest s c q in
    let m : Sched = marked cpu new rest s in
    let (more, queue, same) = put_back-ready cpu old (m.task old).status m in
    (
      ap (λ (t : Sched). t.current cpu) is
          ∙ update_self (put_back cpu old (m.task old).status m).current cpu (some new),
      (
        more,
        ap (λ (t : Sched). t.task_readyqueue cpu) is
            ∙ queue
            ∙ ap (λ r. r ++ more) (update_self (reap cpu s).task_readyqueue cpu rest),
      ),
    )

-- The task `t` stands behind `before` in the CPU's ready queue, and a task is current there.
abbrev Waiting : ℕ → List ℕ → ℕ → Sched → Type 0
Waiting cpu before t s =
    ((after : List ℕ) × (s.task_readyqueue cpu ≡ before ++ (t ∷ after)))
    × ((c : ℕ) × (s.current cpu ≡ some c))

arrive-Waiting :
    (cpu t u : ℕ) (before : List ℕ) (s : Sched)
    → Waiting cpu before t s
    → Waiting cpu before t (enqueue_ready cpu u s)
arrive-Waiting cpu t u before s ((after, queue), c) = (
  (
    after ++ (u ∷ []),
    update_self s.task_readyqueue cpu _
        ∙ ap (λ q. q ++ (u ∷ [])) queue
        ∙ append_assoc before (t ∷ after) (u ∷ []),
  ),
  c,
)

mark-Waiting :
    (cpu t : ℕ) (status : Status) (before : List ℕ) (s : Sched)
    → Waiting cpu before t s
    → Waiting cpu before t (apply cpu (Event.mark status) s)
mark-Waiting cpu t status before s (queue, (c, current)) =
    let is : apply cpu (Event.mark status) s ≡ set_status c status s = rw (apply, current) refl in
    subst (λ (x : Sched). Waiting cpu before t x) (sym is) (queue, (c, current))

tick-Waiting :
    (cpu t b : ℕ) (before : List ℕ) (s : Sched)
    → Waiting cpu (b ∷ before) t s
    → Waiting cpu before t (scheduler cpu s)
tick-Waiting cpu t b before s ((after, queue), (c, current)) =
    let (now, (more, rest)) = scheduler-next cpu c b (before ++ (t ∷ after)) s current queue in
    ((after ++ more, rest ∙ append_assoc before (t ∷ after) more), (b, now))

-- A task that waits behind n others in a CPU's ready queue is the current one after the scheduler
-- has run n + 1 times there, whatever tasks arrive meanwhile and however the current tasks' status
-- changes. A task was current on the CPU at the start.
pub scheduler-turn :
    (cpu t c : ℕ) (before after : List ℕ) (es : List Event) (s : Sched)
    → s.task_readyqueue cpu ≡ before ++ (t ∷ after)
    → s.current cpu ≡ some c
    → ticks es ≡ length before
    → (scheduler cpu (run cpu es s)).current cpu ≡ some t
scheduler-turn cpu t c before after es s queue current count =
    turn es before s ((after, queue), (c, current)) count
  where
    turn :
        (es : List Event) (before : List ℕ) (s : Sched)
        → Waiting cpu before t s
        → ticks es ≡ length before
        → (scheduler cpu (run cpu es s)).current cpu ≡ some t
    turn [] [] s ((after, queue), (c, current)) n = (scheduler-next cpu c t after s current queue).0
    turn [] (b ∷ before) s w n = absurd (omega (arith, n))
    turn (Event.tick ∷ es) [] s w n = absurd (omega (arith, n))
    turn (Event.tick ∷ es) (b ∷ before) s w n =
        turn es before (scheduler cpu s) (tick-Waiting cpu t b before s w) (omega (arith, n))
    turn (Event.arrive u ∷ es) before s w n =
        turn es before (enqueue_ready cpu u s) (arrive-Waiting cpu t u before s w) n
    turn (Event.mark status ∷ es) before s w n =
        turn es before (apply cpu (Event.mark status) s) (mark-Waiting cpu t status before s w) n
