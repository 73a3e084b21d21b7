-- ===== src/Mempool/Laws.antt =====
-- What the pool promises: every object is free or handed out, and none is handed out twice.
use rayos.Base.{
  ℕ, zero, suc, ◌+◌, ◌*◌, ◌/◌, ◌%◌, ◌^◌, ◌≤◌, ◌<◌, ◌≡◌, ◌≢◌, refl, arith, true, false, ◌==◌, List,
  [], ◌∷◌, length, update, none, some, subst, sym, update_self,
}
use rayos.Mempool.{MemPool, null, page_size, link_slots, rounds, pool_init, pool_alloc, pool_free}
use rayos.Mempool.Slots.{has, Chain, Chain-frame, slots, slots-fit, length-slots, link_slots-Chain}

-- The pool's free objects are `free`, in the order in which it hands them out.
pub record Holds (mem : ℕ → ℕ) (pool : MemPool) (free : List ℕ) : Type 0 where
  pub chain : Chain mem pool.free_list free
  pub counted : pool.used + length free ≡ pool.total
  pub small : pool.total < 2 ^ 31

div-mul-le : (a b : ℕ) → 0 < b → a / b * b ≤ a
div-mul-le a b h = grind arith

rounds_lem : (total : ℕ) → total < 2 ^ 31 → rounds total ≡ total
rounds_lem zero h = refl
rounds_lem (suc n) h = ground arith

-- `pool_init` of pages that lie below the end of the address space returns a pool with no object in
-- use, whose objects fill the pages from the lowest address on, if an object is at least a pointer
-- long.
pub pool_init-Holds :
    (mem : ℕ → ℕ) (page nr_pages obj_size : ℕ)
    → 0 < page
    → 8 ≤ obj_size
    → page + nr_pages * page_size < 2 ^ 64
    → nr_pages * page_size / obj_size < 2 ^ 31
    → (new : ℕ → ℕ) × (pool : MemPool) × (pool_init mem page nr_pages obj_size ≡ some (new, pool))
      × Holds new pool (slots page obj_size (nr_pages * page_size / obj_size) 0)
      × (pool.used ≡ 0)
unfolding pool_init
pool_init-Holds mem page nr_pages obj_size space at_least fits small =
    let sized : 0 < obj_size = omega arith in
    let whole : nr_pages * page_size % 2 ^ 64 ≡ nr_pages * page_size = omega arith in
    let total = nr_pages * page_size / obj_size in
    let linked = link_slots page obj_size total mem null in
    let some_size : (obj_size == 0) ≡ false = ground arith in
    let start : total + 0 ≡ total = omega arith in
    (
      linked.0,
      record { free_list = linked.1; obj_size = obj_size; total = total; used = 0 },
      rw (whole, some_size, rounds_lem total small) refl,
      record {
        chain =
            subst (λ t. Chain linked.0 linked.1 (slots page obj_size t 0)) start
              (link_slots-Chain page obj_size space sized total 0 mem null
                (omega (arith, div-mul-le (nr_pages * page_size) obj_size sized)) refl);
        counted = omega (arith, length-slots page obj_size total 0);
        small = small;
      },
      refl,
    )

-- `pool_alloc` returns the first free object and leaves the others; of a pool with none it returns
-- NULL and changes nothing.
pub pool_alloc-Holds :
    (mem : ℕ → ℕ) (pool : MemPool) (x : ℕ) (free : List ℕ)
    → Holds mem pool (x ∷ free)
    → ((pool_alloc mem pool).0 ≡ some x)
      × Holds mem (pool_alloc mem pool).1 free
      × ((pool_alloc mem pool).1.used ≡ pool.used + 1)
unfolding pool_alloc
pool_alloc-Holds mem pool x free h =
    let some_object : (pool.free_list == null) ≡ false = ground (arith, h.chain) in
    rw some_object (
      ground (arith, h.chain),
      record {
        chain = subst (λ t. Chain mem (mem t) free) (sym h.chain.0) h.chain.3;
        counted = omega (arith, h.counted, h.small);
        small = h.small;
      },
      omega (arith, h.counted, h.small),
    )

pub pool_alloc-exhausted :
    (mem : ℕ → ℕ) (pool : MemPool) → Holds mem pool [] → pool_alloc mem pool ≡ (none, pool)
unfolding pool_alloc
pool_alloc-exhausted mem pool h = ground (arith, h.chain)

-- `pool_free` of an object in use puts it in front of the free ones, and the next `pool_alloc`
-- returns it again.
pub pool_alloc-pool_free :
    (mem : ℕ → ℕ) (pool : MemPool) (obj : ℕ) (free : List ℕ)
    → Holds mem pool free
    → obj ≢ null
    → has obj free ≡ false
    → 0 < pool.used
    → Holds (pool_free mem pool obj).0 (pool_free mem pool obj).1 (obj ∷ free)
      × ((pool_free mem pool obj).1.used + 1 ≡ pool.used)
      × ((pool_alloc (pool_free mem pool obj).0 (pool_free mem pool obj).1).0 ≡ some obj)
unfolding pool_free pool_alloc
pool_alloc-pool_free mem pool obj free h some_obj out in_use = (
  record {
    chain = (
      refl,
      some_obj,
      out,
      subst (λ t. Chain (update mem obj pool.free_list) t free)
          (sym (update_self mem obj pool.free_list))
          (Chain-frame mem _ pool.free_list free (λ k on. ground arith) h.chain),
    );
    counted = omega (arith, h.counted, h.small);
    small = h.small;
  },
  omega (arith, h.counted, h.small),
  ground arith,
)

-- The objects that the pool starts with lie in its pages.
pub pool_init-fits :
    (page nr_pages obj_size k : ℕ)
    → 0 < obj_size
    → has k (slots page obj_size (nr_pages * page_size / obj_size) 0) ≡ true
    → (page ≤ k) × (k + obj_size ≤ page + nr_pages * page_size)
pool_init-fits page nr_pages obj_size k sized on =
    let total = nr_pages * page_size / obj_size in
    let (lo, hi) = slots-fit page obj_size total 0 k on in
    let room = div-mul-le (nr_pages * page_size) obj_size sized in (omega arith, omega arith)
