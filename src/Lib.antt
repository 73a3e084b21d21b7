-- ===== src/Lib.antt =====
-- RayOS, a kernel for x86-64: its data structures, its memory management, its
-- scheduler and its file systems, in memory and on a FAT32 disk.
--
-- The parts and how they interact. A bitmap (src/bitmap.c) says which page frames are used. The page
-- code (src/page.c) takes frames from it and changes the four-level page tables, which the kernel
-- reaches through their own recursive slot. An object pool (src/mm/mempool.c) hands out objects of
-- one size from mapped pages. Intrusive lists (src/list.c) link the kernel's structures, and queues
-- (src/queue.c) are such lists behind a spinlock (src/spinlock.c), which stands on the atomic
-- operations (src/atomic.c). src/lib/string.c handles blocks of memory and texts, and src/algo.c
-- finds the least or the greatest of the CPUs' loads. The kernel heap (src/mm/mm.c) takes frames,
-- maps them at fixed addresses and records them in a list of objects from the pool, under one lock.
-- tmpfs (src/fs/tmpfs.c) keeps its files and directories in blocks of that heap; FAT32 (src/fs/fat32.c) keeps them in clusters of a disk. The scheduler
-- (src/task.c) moves tasks between the queues of each CPU, and a mutex (src/mutex.c) lets them sleep
-- in a queue of its own.
--
--   Base      what the modules share: tests, lists, C integers, memories, searches.
--   Bits      machine words by their binary digits: `&`, `|`, `~`, shifts, counting ones.
--   Bitmap    src/bitmap.c, inc/bitmap.h. `bitmap_x` is `x`: init, set, clear, set_atomic,
--             clear_atomic, test, find_first_zero, find_first_set, alloc_range, free_range,
--             set_range, clear_range, count_set, usage_percent.
--   ListHead  src/list.c, inc/list.h: INIT_LIST_HEAD (init_list_head), list_add, list_add_tail,
--             list_del, list_empty on a store of `next` and `prev` pointers.
--   Queue     src/queue.c, inc/queue.h: QUEUE_INIT (queue_init), queue_enqueue, queue_dequeue,
--             queue_empty, with spinlock_lock and spinlock_unlock of src/spinlock.c.
--   Mempool   src/mm/mempool.c, inc/mempool.h: pool_init, pool_alloc, pool_free.
--   Page      src/page.c, inc/page.h, inc/align.h: alloc_pages, free_pages, map_page_range,
--             unmap_page_range, get_physaddr; fls, size_to_order and pages_to_order (Page/Order);
--             ALIGN_UP (align_up), page_init, memused and memused_percent (Page/Setup). Physical
--             memory is words by frame and index; `walk` is the processor's translation.
--   Locks     src/atomic.c, src/spinlock.c, inc/atomic.h, inc/spinlock.h: the atomic_* operations, and
--             spinlock_lock (Step.call and Step.round), spinlock_trylock and spinlock_unlock in every
--             order of the CPUs' steps.
--   Algo      src/algo.c: find_extreme_index, min_cmp, max_cmp.
--   Heap      src/mm/mm.c, inc/mm.h: kmalloc, kzalloc, kfree, krealloc, mm_init, with __vmap_area_alloc
--             (vmap_area_alloc), __kmem_map (kmem_map) and __find_vmap_area (find_vmap_area).
--   Tmpfs     src/fs/tmpfs.c: tmpfs_lookup, tmpfs_creat, tmpfs_mkdir, tmpfs_alloc_dentry; the operations on
--             files and tmpfs_unlink (Tmpfs/Ops). The state is the store
--             of dentries and what the heap will grant.
--   Sched     src/task.c, inc/task.h: task_init, sched_enqueue_balanced, calc_page_table_counts,
--             scheduler, usertask_exit (task_exit); run_thread and __kerntask_create (Sched/Start).
--   Mutex     src/mutex.c, inc/mutex.h: mutex_trylock, mutex_lock (Step.call to run_again) and
--             mutex_unlock (Step.unlock to wake) in every order of the tasks' steps.
--   Fat32     src/fs/fat32.c, inc/fat32.h: short names and paths (fat32_get_parent is get_parent, and so
--             on), and __fat32_alloc_cluster and cluster_to_lba (Fat32/Cluster) on a disk of sectors;
--             fat32_read_cluster is read_cluster (Fat32/Chain), and Fat32/Bytes has the layout of the disk.
--   Strings   src/lib/string.c: mem*, str* and wcs* under their names, on a memory of elements.
--
-- State is passed explicitly. `size_t` and `uint64_t` are natural numbers with the wrap-around written
-- out; an `int` result is a ℤ by way of `to_int`. Pointers are numbers and memories are functions. A
-- fault of the processor is `none`: a page fault in Page, a division by zero in Bitmap and Mempool; and
-- so is a wait for a lock that is never released, in Queue, Heap, Tmpfs and Sched/Start. A
-- copy past a block of the heap that meets memory which is not mapped is `none` in Heap and Tmpfs.
--
-- Bounds and fuel. Counted loops recur on the rounds left. The loops that empty a word have fuel: 64
-- rounds for the set bits of a word in Bitmap, 65 for `fls`; the theorems show results, so the fuel is
-- enough. The functions that run to a terminator take their fuel as an argument, and the theorems say
-- which is enough: more than the length of the text. The loops of tmpfs over a path have the path's length as fuel, and the
-- theorems show that it is enough; the reading of a FAT32 file has one round more than its size. The number of CPUs (MAX_CPUS) is an argument, since the build sets it. Bitmaps are assumed to have less than 2^31 bits,
-- since their results are `int`s: 8 TB of memory.
--
-- Not modelled: the translation cache and its flushes, huge pages, the memory ordering between CPUs
-- (the calls of one queue are atomic through its lock; a step of the spinlock is one atomic
-- operation), load_pml4, printing, tmpfs_rename, the table by which tmpfs
-- registers its operations. User tasks (__usertask_create,
-- make_elf64_task, run_process), the virtual file system, and FAT32's directories, writes and open files
-- have no module here, and a failing read or write of the disk is left out; device drivers, assembly, and the copies of FatFs and of a printf library are outside its
-- scope.
pub mod Base
pub mod Bits
pub mod Bitmap
pub mod ListHead
pub mod Queue
pub mod Mempool
pub mod Page
pub mod Strings
pub mod Locks
pub mod Algo
pub mod Heap
pub mod Tmpfs
pub mod Sched
pub mod Mutex
pub mod Fat32
