-- ===== src/Sched/Tests.antt =====
-- A CPU with a kernel task that runs, two that are ready and one that has ended, and the theorems of
-- the scheduler at it.
use rayos.Base.{
  List, ℕ, ◌+◌, ◌*◌, ◌^◌, ◌<◌, ◌≡◌, refl, arith, true, false, none, some, ◌==◌, if◌then◌else◌, [],
  ◌∷◌, ◌++◌,
}
use rayos.Algo.{min_cmp, find_extreme_index, extreme_loop}
use rayos.Algo.Extreme.{IsExtreme}
use rayos.Sched.Holding.{GivesBack}
use rayos.Sched.{
  Release, Status, Task, Frames, Release, Sched, load, enqueue_ready, sched_enqueue_balanced,
  calc_page_table_counts, scheduler, release_all, release_task, reap, switch_from, put_back,
}
use rayos.Sched.Turn.{Event, run, scheduler-turn}
use rayos.Sched.Single.{tally, places, Single, scheduler-Single}
use rayos.Sched.Start.{Kernel, Blocks, Outcome, run_thread}
use rayos.Sched.Thread.{Started, run_thread-Started, run_thread-refused}
use rayos.Sched.Balance.{
  JustHolds, sched_enqueue_balanced-IsExtreme, calc_page_table_counts-JustHolds,
}

abbrev nothing : Frames
nothing = record { phys = 0; order = 0 }

abbrev kernel_task : ℕ → Status → Task
kernel_task base status = record {
  flags = 2;
  rsp0 = base + 4096;
  rsp0_base = base;
  pml4 = 0x1000;
  rsp = base;
  stack = base + 8192;
  stack_frames = nothing;
  user_pml4 = nothing;
  user_pdpt = nothing;
  user_pd = nothing;
  user_pt = nothing;
  ls_addr = [];
  status = status;
}

abbrev sched : Sched
sched = record {
  task = λ t. kernel_task (t * 0x10000) (if t == 1 then Status.running else Status.ready);
  current = λ cpu. if cpu == 0 then some 1 else none;
  task_readyqueue = λ cpu. if cpu == 0 then 2 ∷ 3 ∷ [] else [];
  task_exitqueue = λ cpu. if cpu == 0 then 4 ∷ [] else [];
  released = [];
  cr3 = λ cpu. 0x1000;
  tss_rsp0 = λ cpu. 0;
}

-- The blocks of task 4 are given back, and task 2 runs.
released :
    (scheduler 0 sched).released
    ≡ Release.block 0x40000 ∷ Release.block 0x42000 ∷ Release.block 4 ∷ []
unfolding scheduler reap switch_from put_back release_all release_task
released = refl

-- The queue after it: the old task stands at the end.
queued : (scheduler 0 sched).task_readyqueue 0 ≡ 3 ∷ 1 ∷ []
unfolding scheduler reap switch_from put_back
queued = refl

scheduler-turn_example :
    (scheduler 0 (run 0 (Event.arrive 5 ∷ Event.tick ∷ Event.mark Status.exit ∷ []) sched)).current
      0
    ≡ some 3
scheduler-turn_example =
    scheduler-turn 0 3 1 (2 ∷ []) [] (Event.arrive 5 ∷ Event.tick ∷ Event.mark Status.exit ∷ [])
      sched refl refl refl

sched-Single : Single 0 sched
sched-Single t = ground arith

scheduler-Single_example :
    (given : List Release) × ((scheduler 0 sched).released ≡ [] ++ given)
    × GivesBack sched.task (4 ∷ []) given
    × Single 0 (scheduler 0 sched)
    × ((t : ℕ) → 0 < tally t (4 ∷ []) → tally t (places 0 (scheduler 0 sched)) ≡ 0)
scheduler-Single_example = scheduler-Single 0 1 sched sched-Single refl

-- CPU 0 has the id 6 and CPU 1 the id 0.
abbrev ap_ids : ℕ → ℕ
ap_ids i = if i == 0 then 6 else 0

balanced_example :
    (idx : ℕ) × (sched_enqueue_balanced 2 ap_ids 9 sched ≡ enqueue_ready (ap_ids idx) 9 sched)
    × IsExtreme min_cmp (load sched) 2 idx
balanced_example = sched_enqueue_balanced-IsExtreme 2 ap_ids 9 sched (omega arith) (omega arith)

-- The queue 1 is the shortest one, and the task goes to the queue 0, the longest.
to_longest : (sched_enqueue_balanced 2 ap_ids 9 sched).task_readyqueue 0 ≡ 2 ∷ 3 ∷ 9 ∷ []
unfolding sched_enqueue_balanced find_extreme_index extreme_loop min_cmp
to_longest = refl

counts_example :
    (pml4 : ℕ) × (pdpt : ℕ) × (pd : ℕ) × (calc_page_table_counts 513 ≡ (pml4, pdpt, pd, 513))
    × JustHolds pd 513
    × JustHolds pdpt pd
    × JustHolds pml4 pdpt
counts_example = calc_page_table_counts-JustHolds 513 (omega arith)

abbrev kernel : Kernel
kernel = record { sched = sched; words = λ a. 5; run_thread_spinlock = 0; irq_enabled = true }

abbrev blocks : Blocks
blocks = record { object = 9; stack = 0x90000; rsp0_base = 0xa0000 }

two : 0 < 2
two = omega arith

two_small : 2 < 2 ^ 31
two_small = omega arith

run_thread_example : Started 0 2 ap_ids 0x1000 blocks 0x7000 77 kernel two two_small
run_thread_example =
    run_thread-Started 0 2 ap_ids 0x1000 blocks 0x7000 77 kernel two two_small refl (omega arith)
      (omega arith)

run_thread-refused_example :
    (k' : Kernel) × (run_thread 0 2 ap_ids 0x1000
        (record { object = 0; stack = 1; rsp0_base = 1 })
        0x7000
        77
        kernel
      ≡ some (Outcome.returned 0, k'))
    × (k'.irq_enabled ≡ false)
    × (run_thread 0 2 ap_ids 0x1000 blocks 0x7000 77 k' ≡ none)
run_thread-refused_example = run_thread-refused 0 2 ap_ids 0x1000 1 1 0x7000 77 blocks kernel refl
