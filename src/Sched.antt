-- ===== src/Sched.antt =====
-- src/task.c and inc/task.h: tasks, the ready and exit queues of each CPU, and the scheduler.
-- A task is the address of its `task_struct`. A queue is the list of its tasks from the front on:
-- Queue.Run shows that the queue's operations are those of a list, and each is one step through the
-- queue's own lock. `switch_to` and `context_switch` go on in the code of the other task; what the
-- processor holds afterwards is `cr3` and the stack for interrupts. What the heap and the frames
-- get back is the list `released`.
pub mod Turn
pub mod Holding
pub mod Single
pub mod Balance
pub mod Start
pub mod Context
pub mod Thread
mod Tests
use rayos.Base.{
  ℕ, zero, suc, ◌+◌, ◌-◌, ◌*◌, ◌/◌, ◌%◌, ◌^◌, Bool, true, false, Option, none, some, ◌==◌, ltb,
  if◌then◌else◌, List, [], ◌∷◌, ◌++◌, length, update, ℤ, pos, negsuc, to_int,
}
use rayos.Algo.{find_extreme_index, min_cmp}

-- `enum task_status`
pub data Status : Type 0 where
  exit dead ready running blocked : Status

-- TASK_FLAGS_USER and TASK_FLAGS_KERN
abbrev pub flags_user : ℕ
flags_user = 1

abbrev pub flags_kern : ℕ
flags_kern = 2

-- `struct load_segment_address`, at its address; the list through `next` is a list.
pub record Segment : Type 0 where
  pub object : ℕ
  pub phys : ℕ
  pub order : ℕ

-- A block of frames: its first address and its order.
pub record Frames : Type 0 where
  pub phys : ℕ
  pub order : ℕ

-- `struct task_struct`, less its name and its list node.
pub record Task : Type 0 where
  pub flags : ℕ
  pub rsp0 : ℕ
  pub rsp0_base : ℕ
  pub pml4 : ℕ
  pub rsp : ℕ
  pub stack : ℕ
  pub stack_frames : Frames
  pub user_pml4 : Frames
  pub user_pdpt : Frames
  pub user_pd : Frames
  pub user_pt : Frames
  pub ls_addr : List Segment
  pub status : Status

-- A call of `kfree` or of `free_pages`.
pub data Release : Type 0 where
  block : ℕ → Release
  frames : Frames → Release

pub record Sched : Type 0 where
  pub task : ℕ → Task
  pub current : ℕ → Option ℕ
  pub task_readyqueue : ℕ → List ℕ
  pub task_exitqueue : ℕ → List ℕ
  pub released : List Release
  pub cr3 : ℕ → ℕ
  pub tss_rsp0 : ℕ → ℕ

-- The loop of `task_init`, at i with `n` rounds left.
unfoldable pub init_loop : ℕ → ℕ → Sched → Sched
init_loop zero i s = s
init_loop (suc n) i s = init_loop n (i + 1) (record s {
  current = update s.current i none;
  task_readyqueue = update s.task_readyqueue i [];
  task_exitqueue = update s.task_exitqueue i [];
})

unfoldable pub task_init : ℕ → Sched → Sched
unfolding init_loop
task_init max_cpus s = init_loop max_cpus 0 s

abbrev pub set_status : ℕ → Status → Sched → Sched
set_status t status s = record s { task = update s.task t (record (s.task t) { status = status }) }

-- `queue_enqueue(&task_readyqueue[cpu], &task->list)`
abbrev pub enqueue_ready : ℕ → ℕ → Sched → Sched
enqueue_ready cpu t s = record s {
  task_readyqueue = update s.task_readyqueue cpu (s.task_readyqueue cpu ++ (t ∷ []));
}

abbrev pub enqueue_exit : ℕ → ℕ → Sched → Sched
enqueue_exit cpu t s = record s {
  task_exitqueue = update s.task_exitqueue cpu (s.task_exitqueue cpu ++ (t ∷ []));
}

-- `loadlist[i] = task_readyqueue[i].nr_list`
abbrev pub load : Sched → ℕ → ℤ
load s i = to_int (length (s.task_readyqueue i))

-- The ids are taken to be below MAX_CPUS, the number of queues; with at least one CPU the index is not
-- negative.
unfoldable pub sched_enqueue_balanced : ℕ → (ℕ → ℕ) → ℕ → Sched → Sched
sched_enqueue_balanced max_cpus ap_ids t s =
    elim (find_extreme_index (some (load s)) (to_int max_cpus) min_cmp) [
      | negsuc i ↦ s
      | pos idx ↦ enqueue_ready (ap_ids idx) t s
    ]

-- The four numbers are those of pml4, pdpt, pd and pt.
unfoldable pub calc_page_table_counts : ℕ → ℕ × ℕ × ℕ × ℕ
calc_page_table_counts nr_pages =
    let pt = nr_pages in
    let pd = (pt + 511) % 2 ^ 64 / 512 in
    let pdpt = (pd + 511) % 2 ^ 64 / 512 in
    let pml4 = (pdpt + 511) % 2 ^ 64 / 512 in
    if nr_pages == 0 then (0, 0, 0, 0) else (pml4, pdpt, pd, pt)

-- `while (pos) { free_pages(...); ...; kfree(old); }`
unfoldable pub release_segments : List Segment → List Release
release_segments [] = []
release_segments (p ∷ rest) =
    Release.frames (record { phys = p.phys; order = p.order })
    ∷ Release.block p.object
    ∷ release_segments rest

-- What the switch on a dequeued task's flags gives back, in order.
unfoldable pub release_task : ℕ → Task → List Release
release_task t k =
    if k.flags == flags_kern
    then Release.block k.rsp0_base ∷ Release.block k.stack ∷ Release.block t ∷ []
    else (if k.flags == flags_user
        then Release.frames k.user_pml4
          ∷ Release.frames k.user_pdpt
          ∷ Release.frames k.user_pd
          ∷ Release.frames k.user_pt
          ∷ Release.frames k.stack_frames
          ∷ (release_segments k.ls_addr ++ (Release.block k.rsp0_base ∷ Release.block t ∷ []))
        else [])

unfoldable pub release_all : (ℕ → Task) → List ℕ → List Release
release_all task [] = []
release_all task (t ∷ rest) = release_task t (task t) ++ release_all task rest

-- `while (!queue_empty(&task_exitqueue[cpuid]))`: the queue is emptied.
unfoldable pub reap : ℕ → Sched → Sched
reap cpu s = record s {
  released = s.released ++ release_all s.task (s.task_exitqueue cpu);
  task_exitqueue = update s.task_exitqueue cpu [];
}

-- `switch (old_task->status)`
unfoldable pub put_back : ℕ → ℕ → Status → Sched → Sched
put_back cpu old Status.running s = enqueue_ready cpu old s
put_back cpu old Status.exit s = enqueue_exit cpu old s
put_back cpu old Status.blocked s = s
put_back cpu old Status.dead s = s
put_back cpu old Status.ready s = s

-- The new current task, its page table and its stack for interrupts.
abbrev pub make_current : ℕ → ℕ → Sched → Sched
make_current cpu new s = record s {
  current = update s.current cpu (some new);
  cr3 = update s.cr3 cpu (s.task new).pml4;
  tss_rsp0 = update s.tss_rsp0 cpu (s.task new).rsp0;
}

-- The switch from `old` to the first task of the ready queue.
unfoldable pub switch_from : ℕ → ℕ → List ℕ → Sched → Sched
unfolding put_back
switch_from cpu old [] s = s
switch_from cpu old (new ∷ rest) s =
    let taken : Sched = record s { task_readyqueue = update s.task_readyqueue cpu rest } in
    let marked : Sched = set_status new Status.running taken in
    make_current cpu new (put_back cpu old (marked.task old).status marked)

unfoldable pub scheduler : ℕ → Sched → Sched
unfolding switch_from reap
scheduler cpu s = elim (s.current cpu) [
  | none ↦ s
  | some old ↦
      let reaped : Sched = reap cpu s in switch_from cpu old (reaped.task_readyqueue cpu) reaped
]

-- `kerntask_exit` and `usertask_exit`; without a current task they follow NULL.
unfoldable pub task_exit : ℕ → Sched → Option Sched
task_exit cpu s = elim (s.current cpu) [
  | none ↦ none
  | some t ↦ some (scheduler cpu (set_status t Status.exit s))
]
