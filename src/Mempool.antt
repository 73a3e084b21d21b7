-- ===== src/Mempool.antt =====
-- src/mm/mempool.c and inc/mempool.h: a pool of objects of one size whose free objects form a linked
-- list through their own first word.
-- The memory is a function from an address to the pointer stored there; 0 is NULL. Objects are at
-- least a pointer long (the pool of src/mm/mm.c holds 40-byte objects), so the words of two objects
-- do not overlap.
pub mod Slots
pub mod Laws
mod Tests
use rayos.Base.{
  ℕ, zero, suc, ◌+◌, ◌-◌, ◌*◌, ◌/◌, ◌%◌, ◌^◌, Option, none, some, ◌==◌, if◌then◌else◌, update, ℤ,
  pos, negsuc, to_int,
}

abbrev pub null : ℕ
null = 0

abbrev pub page_size : ℕ
page_size = 0x1000

-- `struct mem_pool`
pub record MemPool : Type 0 where
  pub free_list : ℕ
  pub obj_size : ℕ
  pub total : ℕ
  pub used : ℕ

-- `(char *)page + i * obj_size`
abbrev pub slot : ℕ → ℕ → ℕ → ℕ
slot page obj_size i = (page + i * obj_size) % 2 ^ 64

-- The loop of `pool_init` from i = n - 1 down to 0: the memory and the head of the list.
unfoldable pub link_slots : ℕ → ℕ → ℕ → (ℕ → ℕ) → ℕ → (ℕ → ℕ) × ℕ
link_slots page obj_size zero mem free_list = (mem, free_list)
link_slots page obj_size (suc i) mem free_list =
    link_slots page obj_size i (update mem (slot page obj_size i) free_list) (slot page obj_size i)

-- `int i = pool->total - 1; i >= 0`: how often the loop runs.
abbrev pub rounds : ℕ → ℕ
rounds total = elim (to_int ((total + 2 ^ 64 - 1) % 2 ^ 64)) [ pos i ↦ suc i | negsuc i ↦ 0 ]

-- `none` is the fault of a division by an object size of zero.
unfoldable pub pool_init : (ℕ → ℕ) → ℕ → ℕ → ℕ → Option ((ℕ → ℕ) × MemPool)
pool_init mem page nr_pages obj_size =
    let total = nr_pages * page_size % 2 ^ 64 / obj_size in
    let linked = link_slots page obj_size (rounds total) mem null in
    if obj_size == 0
    then none
    else some
        (linked.0, record { free_list = linked.1; obj_size = obj_size; total = total; used = 0 })

-- The object that `pool_alloc` returns; `none` is NULL.
unfoldable pub pool_alloc : (ℕ → ℕ) → MemPool → Option ℕ × MemPool
pool_alloc mem pool =
    if pool.free_list == null
    then (none, pool)
    else let obj = pool.free_list in
      (some obj, record pool { free_list = mem obj; used = (pool.used + 1) % 2 ^ 64 })

unfoldable pub pool_free : (ℕ → ℕ) → MemPool → ℕ → (ℕ → ℕ) × MemPool
pool_free mem pool obj = (
  update mem obj pool.free_list,
  record pool { free_list = obj; used = (pool.used + 2 ^ 64 - 1) % 2 ^ 64 },
)
