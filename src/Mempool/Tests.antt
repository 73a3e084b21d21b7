-- ===== src/Mempool/Tests.antt =====
-- A pool of two pages with objects of 40 bytes, as the kernel's pool of `struct vmap_area`.
use rayos.Base.{ℕ, ◌+◌, ◌*◌, ◌/◌, ◌≡◌, refl, arith, ◌==◌, if◌then◌else◌, [], ◌∷◌, some}
use rayos.Mempool.{MemPool, page_size, pool_init, pool_alloc, pool_free}
use rayos.Mempool.Slots.{slots}
use rayos.Mempool.Laws.{Holds, pool_init-Holds, pool_alloc-pool_free}

-- Three objects of which one is handed out.
abbrev memory : ℕ → ℕ
memory k = if k == 100 then 180 else 0

abbrev pool : MemPool
pool = record { free_list = 100; obj_size = 40; total = 3; used = 1 }

pool-Holds : Holds memory pool (100 ∷ 180 ∷ [])
pool-Holds = record { chain = ground arith; counted = refl; small = omega arith }

pool_init_example :
    (new : ℕ → ℕ) × (p : MemPool) × (pool_init memory 0x1000 2 40 ≡ some (new, p))
    × Holds new p (slots 0x1000 40 (2 * page_size / 40) 0)
    × (p.used ≡ 0)
pool_init_example =
    pool_init-Holds memory 0x1000 2 40 (omega arith) (omega arith) (omega arith) (omega arith)

pool_free_example :
    Holds (pool_free memory pool 140).0 (pool_free memory pool 140).1 (140 ∷ 100 ∷ 180 ∷ [])
    × ((pool_free memory pool 140).1.used + 1 ≡ 1)
    × ((pool_alloc (pool_free memory pool 140).0 (pool_free memory pool 140).1).0 ≡ some 140)
pool_free_example =
    pool_alloc-pool_free memory pool 140 (100 ∷ 180 ∷ []) pool-Holds (omega arith) refl
      (omega arith)
