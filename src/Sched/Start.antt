-- ===== src/Sched/Start.antt =====
-- `run_thread`: the first stack of a kernel task, and its way into a queue or onto the CPU.
use rayos.Base.{
  ℕ, zero, suc, ◌+◌, ◌-◌, ◌%◌, ◌^◌, Bool, true, false, Option, none, some, ◌==◌, if◌then◌else◌, [],
  update, ℤ, pos, negsuc,
}
use rayos.Queue.{spinlock_lock, spinlock_unlock}
use rayos.Sched.{Status, Task, Sched, flags_kern, set_status, sched_enqueue_balanced}

abbrev pub krsp0_size : ℕ
krsp0_size = 4096

abbrev pub kstack_size : ℕ
kstack_size = 16384

-- sizeof(struct context): fifteen registers and the flags
abbrev pub sizeof_context : ℕ
sizeof_context = 128

-- What `run_thread` changes: the tasks and queues, the memory of stacks in 64-bit words by address, the lock
-- and whether interrupts are enabled on the CPU.
pub record Kernel : Type 0 where
  pub sched : Sched
  pub words : ℕ → ℕ
  pub run_thread_spinlock : ℕ
  pub irq_enabled : Bool

-- What three calls of `kzalloc` return, in order: the task, its stack and its stack for interrupts. The
-- memory of stacks is read as it is after these calls, when the new blocks hold zeros.
pub record Blocks : Type 0 where
  pub object : ℕ
  pub stack : ℕ
  pub rsp0_base : ℕ

-- `memset(context, 0, sizeof(struct context))`, with `n` words left.
unfoldable pub clear_context : ℕ → ℕ → (ℕ → ℕ) → ℕ → ℕ
clear_context at zero words = words
clear_context at (suc n) words = clear_context (at + 8) n (update words at 0)

-- The words of a new stack: the function, and below it a context whose rdi is the argument. rdi is
-- the tenth word and the flags are the sixteenth one.
unfoldable pub init_stack : ℕ → ℕ → ℕ → (ℕ → ℕ) → ℕ → ℕ
init_stack top thread_func args words =
    let context : ℕ = top - 8 - sizeof_context in
    let pushed : ℕ → ℕ = update words (top - 8) thread_func in
    let cleared : ℕ → ℕ = clear_context context 16 pushed in
    update (update cleared (context + 72) args) (context + 120) 0x202

-- A block from `kzalloc` as a task.
abbrev pub zero_task : Task
zero_task = record {
  flags = 0;
  rsp0 = 0;
  rsp0_base = 0;
  pml4 = 0;
  rsp = 0;
  stack = 0;
  stack_frames = record { phys = 0; order = 0 };
  user_pml4 = record { phys = 0; order = 0 };
  user_pdpt = record { phys = 0; order = 0 };
  user_pd = record { phys = 0; order = 0 };
  user_pt = record { phys = 0; order = 0 };
  ls_addr = [];
  status = Status.exit;
}

-- `__kerntask_create`: its result, the task and the memory.
unfoldable pub kerntask_create : ℕ → ℕ → ℕ → ℕ → ℕ → Task → (ℕ → ℕ) → ℤ × Task × (ℕ → ℕ)
kerntask_create cr3 stack rsp0_base thread_func args task words =
    if stack == 0 then (negsuc 0, record task { pml4 = cr3; stack = 0 }, words) else (
      pos 0,
      record task {
        pml4 = cr3;
        stack = stack;
        rsp0_base = rsp0_base;
        rsp0 = (rsp0_base + krsp0_size) % 2 ^ 64;
        rsp = stack + kstack_size - 8 - sizeof_context;
      },
      init_stack (stack + kstack_size) thread_func args words,
    )

-- `run_thread` returns a task or NULL (0), or jumps to the new task's stack.
pub data Outcome : Type 0 where
  returned : ℕ → Outcome
  switched : ℕ → Outcome

-- From `if (current[cpuid] == NULL)` on.
unfoldable pub enter : ℕ → ℕ → (ℕ → ℕ) → ℕ → Kernel → Outcome × Kernel
enter cpu max_cpus ap_ids object k = elim (k.sched.current cpu) [
  | none ↦
      let s : Sched = record k.sched { current = update k.sched.current cpu (some object) } in
      (
        Outcome.switched (s.task object).rsp,
        record k {
          sched = set_status object Status.running s;
          run_thread_spinlock = spinlock_unlock k.run_thread_spinlock;
        },
      )
  | some c ↦ (
    Outcome.returned object,
    record k {
      sched = sched_enqueue_balanced max_cpus ap_ids object k.sched;
      run_thread_spinlock = spinlock_unlock k.run_thread_spinlock;
      irq_enabled = true;
    },
  )
]

-- `cr3` is what `read_cr3` reads. The result of `__kerntask_create` is not looked at. `none` is a wait for the lock without end.
unfoldable pub run_thread :
    ℕ → ℕ → (ℕ → ℕ) → ℕ → Blocks → ℕ → ℕ → Kernel → Option (Outcome × Kernel)
run_thread cpu max_cpus ap_ids cr3 blocks thread_func args k =
    elim (spinlock_lock k.run_thread_spinlock) [
      | none ↦ none
      | some held ↦
          let off : Kernel = record k { run_thread_spinlock = held; irq_enabled = false } in
          if blocks.object == 0
          then some (Outcome.returned 0, off)
          else (let (ret, task, words) =
                kerntask_create cr3 blocks.stack blocks.rsp0_base thread_func args zero_task
                  off.words in
              let ready : Task = record task { flags = flags_kern; status = Status.ready } in
              some (
                enter cpu max_cpus ap_ids blocks.object (record off {
                  words = words;
                  sched = record off.sched { task = update off.sched.task blocks.object ready };
                })))
    ]
