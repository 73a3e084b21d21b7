-- ===== src/Sched/Thread.antt =====
-- What `run_thread` leaves: a thread that is current, or ready in the least loaded queue.
use rayos.Base.{
  ℕ, ◌^◌, ◌<◌, ◌≡◌, ◌≢◌, ◌⊎◌, refl, arith, true, false, none, some, ◌==◌, [], ◌∷◌, ◌++◌, update,
  update_self, inl, inr, Option-cases, ◌∙◌,
}
use rayos.Algo.{min_cmp}
use rayos.Algo.Extreme.{IsExtreme}
use rayos.Sched.{Status, Task, Sched, flags_kern, load, set_status, enqueue_ready}
use rayos.Sched.Balance.{sched_enqueue_balanced-IsExtreme}
use rayos.Sched.Start.{Kernel, Blocks, Outcome, zero_task, enter, run_thread}
use rayos.Sched.Context.{FirstContext, kerntask_create-FirstContext}

-- The CPU had no current task: the new one is current and running, and the call jumps to its stack.
pub record Current (cpu t : ℕ) (k' : Kernel) (out : Outcome) : Type 0 where
  pub jumps : out ≡ Outcome.switched (k'.sched.task t).rsp
  pub current : k'.sched.current cpu ≡ some t
  pub running : (k'.sched.task t).status ≡ Status.running

-- The new task is ready, at the end of the queue whose id stands at the first index of a least load.
pub record Queued (max_cpus : ℕ) (ap_ids : ℕ → ℕ) (t : ℕ) (k k' : Kernel) (out : Outcome)
    : Type 0 where
  pub idx : ℕ
  pub least : IsExtreme min_cmp (load k.sched) max_cpus idx
  pub last :
      k'.sched.task_readyqueue (ap_ids idx) ≡ k.sched.task_readyqueue (ap_ids idx) ++ (t ∷ [])
  pub ready : (k'.sched.task t).status ≡ Status.ready
  pub returns : out ≡ Outcome.returned t
  pub interrupts : k'.irq_enabled ≡ true

module _ (cpu max_cpus : ℕ) (ap_ids : ℕ → ℕ) (cr3 : ℕ) (blocks : Blocks) (thread_func args : ℕ)
    (k : Kernel) (some_cpu : 0 < max_cpus) (small : max_cpus < 2 ^ 31) where
  abbrev pub Started : Type 0
  Started =
      (out : Outcome) × (k' : Kernel) × (run_thread cpu max_cpus ap_ids cr3 blocks thread_func args
          k
        ≡ some (out, k'))
      × (k'.run_thread_spinlock ≡ 0)
      × FirstContext (k'.sched.task blocks.object).rsp thread_func args k'.words k.words
      × (Current cpu blocks.object k' out ⊎ Queued max_cpus ap_ids blocks.object k k' out)

  -- The task and its memory are made, and the lock is held.
  module _ (task : Task) (words : ℕ → ℕ)
      (context : FirstContext task.rsp thread_func args words k.words) where
    abbrev ready : Task
    ready = record task { flags = flags_kern; status = Status.ready }

    abbrev sched : Sched
    sched = record k.sched { task = update k.sched.task blocks.object ready }

    abbrev made : Kernel
    made = record k { run_thread_spinlock = 1; irq_enabled = false; words = words; sched = sched }

    here : (blocks.object == blocks.object) ≡ true
    here = ground arith

    new_task : sched.task blocks.object ≡ ready
    new_task = rw here refl

    idle :
        k.sched.current cpu ≡ none
        → run_thread cpu max_cpus ap_ids cr3 blocks thread_func args k
          ≡ some (enter cpu max_cpus ap_ids blocks.object made)
        → Started
    unfolding enter
    idle nobody runs =
        let s : Sched = record sched {
          current = update k.sched.current cpu (some blocks.object);
        } in
        let same : (cpu == cpu) ≡ true = ground arith in
        (
          Outcome.switched (sched.task blocks.object).rsp,
          record made {
            sched = set_status blocks.object Status.running s;
            run_thread_spinlock = 0;
          },
          runs ∙ rw (enter, nobody) refl,
          refl,
          rw here context,
          inl (record { jumps = rw here refl; current = rw same refl; running = rw here refl }),
        )

    busy :
        (c : ℕ)
        → k.sched.current cpu ≡ some c
        → run_thread cpu max_cpus ap_ids cr3 blocks thread_func args k
          ≡ some (enter cpu max_cpus ap_ids blocks.object made)
        → Started
    unfolding enter
    busy c there runs =
        let (idx, goes, least) =
          sched_enqueue_balanced-IsExtreme max_cpus ap_ids blocks.object sched some_cpu small in
        (
          Outcome.returned blocks.object,
          record made {
            sched = enqueue_ready (ap_ids idx) blocks.object sched;
            run_thread_spinlock = 0;
            irq_enabled = true;
          },
          runs ∙ rw (enter, there, goes) refl,
          refl,
          rw here context,
          inr (record {
            idx = idx;
            least = least;
            last = update_self k.sched.task_readyqueue (ap_ids idx) _;
            ready = rw here refl;
            returns = refl;
            interrupts = refl;
          }),
        )

-- `run_thread` with its lock free and memory for the task and its stack: the lock is free again, the
-- new task's stack pointer leads to a context with the argument in rdi and, behind it, the thread's
-- function. On a CPU without a current task the new one becomes current and running, and the call
-- jumps to its stack; else it is ready at the end of the queue whose id stands at the first index
-- of a least load, and the call returns it with interrupts enabled. The number of CPUs is 1 to
-- 2^31 - 1.
pub run_thread-Started :
    (cpu max_cpus : ℕ) (ap_ids : ℕ → ℕ) (cr3 : ℕ) (blocks : Blocks) (thread_func args : ℕ)
    (k : Kernel) (some_cpu : 0 < max_cpus) (small : max_cpus < 2 ^ 31)
    → k.run_thread_spinlock ≡ 0
    → blocks.object ≢ 0
    → blocks.stack ≢ 0
    → Started cpu max_cpus ap_ids cr3 blocks thread_func args k some_cpu small
unfolding run_thread
run_thread-Started cpu max_cpus ap_ids cr3 blocks thread_func args k some_cpu small free object
      stack =
    let given : (blocks.object == 0) ≡ false = ground arith in
    let (task, words, creates, top, context) =
      kerntask_create-FirstContext cr3 blocks.stack blocks.rsp0_base thread_func args zero_task
        k.words stack in
    let runs : run_thread cpu max_cpus ap_ids cr3 blocks thread_func args k
        ≡ some (
            enter cpu max_cpus ap_ids blocks.object (
              made cpu max_cpus ap_ids cr3 blocks thread_func args k some_cpu small task words
                context)) =
      rw (free, run_thread, given, creates) refl in
    elim (Option-cases (k.sched.current cpu)) [
      | inl nobody ↦
          idle cpu max_cpus ap_ids cr3 blocks thread_func args k some_cpu small task words context
            nobody runs
      | inr (c, there) ↦
          busy cpu max_cpus ap_ids cr3 blocks thread_func args k some_cpu small task words context c
            there runs
    ]

-- `run_thread` without memory for the task returns NULL and keeps its lock, with interrupts
-- disabled, so that the next call of it does not return. The lock was free.
pub run_thread-refused :
    (cpu max_cpus : ℕ) (ap_ids : ℕ → ℕ) (cr3 : ℕ) (stack rsp0_base thread_func args : ℕ)
    (next : Blocks) (k : Kernel)
    → k.run_thread_spinlock ≡ 0
    → (k' : Kernel) × (run_thread cpu max_cpus ap_ids cr3
          (record { object = 0; stack = stack; rsp0_base = rsp0_base })
          thread_func
          args
          k
        ≡ some (Outcome.returned 0, k'))
      × (k'.irq_enabled ≡ false)
      × (run_thread cpu max_cpus ap_ids cr3 next thread_func args k' ≡ none)
unfolding run_thread
run_thread-refused cpu max_cpus ap_ids cr3 stack rsp0_base thread_func args next k free = (
  record k { run_thread_spinlock = 1; irq_enabled = false },
  rw (free, run_thread) refl,
  refl,
  refl,
)
