-- ===== src/Heap.antt =====
-- src/mm/mm.c and inc/mm.h: the kernel's heap over the page frames, the page tables, the pool of
-- `vmap_area` objects and the list of the areas in use.
-- An intrusive list is the list of its entries, from the front (ListHead shows that its operations
-- are those of a list). `bytes` is what the mapped memory holds, by virtual address. A call that
-- faults, or that waits for a lock that nobody will release, has no result: `none`.
pub mod Alloc
pub mod Kmalloc
pub mod Kfree
pub mod Roundtrip
mod Tests
use rayos.Base.{
  ℕ, zero, suc, not, ◌+◌, ◌*◌, ◌/◌, ◌%◌, ◌^◌, Bool, true, false, Option, none, some, ◌==◌, ltb, leb,
  if◌then◌else◌, List, [], ◌∷◌, ◌++◌, ℤ, pos, negsuc,
}
use rayos.Queue.{spinlock_lock, spinlock_unlock}
use rayos.Mempool.{MemPool, pool_alloc, pool_free, pool_init}
use rayos.Strings.{memset, memcpy}
use rayos.Page.{
  Machine, M, pure, ◌>>=◌, ◌>>◌, alloc_pages, free_pages, map_page_range, unmap_page_range, walk,
  get_physaddr, order_to_pages, of_int, page_size,
}
use rayos.Page.Order.{size_to_order, pages_to_order}

abbrev pub null : ℕ
null = 0

-- VMAP_AREA_POOL_NR_PAGES
abbrev pub vmap_area_pool_nr_pages : ℕ
vmap_area_pool_nr_pages = 32

-- KMEM_BASE
abbrev pub kmem_base : ℕ
kmem_base = 0xffff900000000000

-- MAP_KERN_RW: PTE_PRESENT and PTE_WRITABLE
abbrev pub map_kern_rw : ℕ
map_kern_rw = 3

-- sizeof(struct vmap_area): three numbers and two pointers
abbrev pub sizeof_vmap_area : ℕ
sizeof_vmap_area = 40

-- `struct vmap_area` at the address `object`.
pub record VmapArea : Type 0 where
  pub object : ℕ
  pub va_start : ℕ
  pub va_end : ℕ
  pub va_nrpages : ℕ

-- The static variables of mm.c, and what its calls change: the page tables and frames, the pool's
-- pointers (`links`) and the mapped memory.
pub record Heap : Type 0 where
  pub machine : Machine
  pub links : ℕ → ℕ
  pub bytes : ℕ → ℕ
  pub vmap_area_pool : MemPool
  pub vmap_area_list : List VmapArea
  pub mm_spinlock : ℕ

-- The new area goes to the end of the list; `none` is NULL.
unfoldable pub vmap_area_alloc : ℕ → ℕ → Heap → Option VmapArea × Heap
vmap_area_alloc start nr_pages h =
    let (obj, pool) = pool_alloc h.links h.vmap_area_pool in
    elim obj [
      | none ↦ (none, record h { vmap_area_pool = pool })
      | some object ↦
          let vm : VmapArea = record {
            object = object;
            va_start = start;
            va_end = (start + nr_pages * page_size) % 2 ^ 64;
            va_nrpages = nr_pages;
          } in
          (
            some vm,
            record h { vmap_area_pool = pool; vmap_area_list = h.vmap_area_list ++ (vm ∷ []) },
          )
    ]

unfoldable pub kmem_map : ℕ → M ℕ
kmem_map nr_order = do
  pa ← alloc_pages nr_order
  if leb (2 ^ 63) pa then pure 0 else (do
    ret ← map_page_range pa ((kmem_base + pa) % 2 ^ 64) map_kern_rw (order_to_pages nr_order)
    if ltb (of_int ret) (order_to_pages nr_order) then pure 0 else pure ((kmem_base + pa) % 2 ^ 64))

unfoldable pub find_vmap_area : ℕ → List VmapArea → Option VmapArea
find_vmap_area va [] = none
find_vmap_area va (vm ∷ rest) = if vm.va_start == va then some vm else find_vmap_area va rest

-- What follows `vm = __vmap_area_alloc(...)`.
unfoldable pub kmalloc_record : Option VmapArea × Heap → Option (ℕ × Heap)
kmalloc_record (none, h) = some (null, h)
kmalloc_record (some vm, h) =
    some (vm.va_start, record h { mm_spinlock = spinlock_unlock h.mm_spinlock })

-- `size` is not 0; the lock is held.
unfoldable pub kmalloc_pages : ℕ → Heap → Option (ℕ × Heap)
kmalloc_pages size h = elim (size_to_order size) [
  | none ↦ none
  | some nr_order ↦ elim (kmem_map nr_order h.machine) [
    | none ↦ none
    | some (va, machine) ↦
        let h' : Heap = record h { machine = machine } in
        if va == 0
        then some (null, h')
        else kmalloc_record (vmap_area_alloc va (order_to_pages nr_order) h')
  ]
]

unfoldable pub kmalloc : ℕ → Heap → Option (ℕ × Heap)
unfolding kmalloc_pages kmalloc_record
kmalloc size h = elim (spinlock_lock h.mm_spinlock) [
  | none ↦ none
  | some held ↦
      let h' : Heap = record h { mm_spinlock = held } in
      if size == 0 then some (null, h') else kmalloc_pages size h'
]

unfoldable pub kzalloc : ℕ → Heap → Option (ℕ × Heap)
kzalloc size h = elim (kmalloc size h) [
  | none ↦ none
  | some (ret_ptr, h') ↦
      if ret_ptr == null
      then some (ret_ptr, h')
      else some (ret_ptr, record h' { bytes = memset h'.bytes ret_ptr 0 size })
]

-- `list_del`: the entry of the object leaves the list.
unfoldable pub list_del_area : ℕ → List VmapArea → List VmapArea
list_del_area object [] = []
list_del_area object (vm ∷ rest) =
    if vm.object == object then rest else vm ∷ list_del_area object rest

-- What `kfree` does with the pages of an area.
unfoldable pub kfree_pages : ℕ → VmapArea → M (Unit {0})
kfree_pages virtaddr vm m = elim (size_to_order (vm.va_nrpages * page_size % 2 ^ 64)) [
  | none ↦ none
  | some order ↦
      (do
        physaddr ← get_physaddr virtaddr
        free_pages physaddr order
        ret ← unmap_page_range virtaddr vm.va_nrpages
        pure tt)
        m
]

unfoldable pub kfree : ℕ → Heap → Option (ℤ × Heap)
kfree virtaddr h = elim (spinlock_lock h.mm_spinlock) [
  | none ↦ none
  | some held ↦ elim (find_vmap_area virtaddr h.vmap_area_list) [
    | none ↦ some (negsuc 0, record h { mm_spinlock = held })
    | some vm ↦ elim (kfree_pages virtaddr vm h.machine) [
      | none ↦ none
      | some (unit, machine) ↦
          let (links, pool) = pool_free h.links h.vmap_area_pool vm.object in
          some (
            pos 0,
            record h {
              machine = machine;
              links = links;
              vmap_area_pool = pool;
              vmap_area_list = list_del_area vm.object h.vmap_area_list;
              mm_spinlock = spinlock_unlock held;
            },
          )
    ]
  ]
]

-- Whether the n pages from the page `vpn` on are mapped, so that their bytes can be read.
unfoldable pub readable : ℕ → ℕ → Machine → Bool
readable zero vpn m = true
readable (suc n) vpn m = elim (walk m.mem m.cr3 (vpn * 4096)) [
  | none ↦ false
  | some frame ↦ readable n (vpn + 1) m
]

-- The copy reads new_size bytes of the old block, and faults if one of them is not mapped.
unfoldable pub krealloc : ℕ → ℕ → Heap → Option (ℕ × Heap)
krealloc ptr new_size h = if ptr == null then some (null, h) else elim (kmalloc new_size h) [
  | none ↦ none
  | some (new, h') ↦
      if new == null
      then some (null, h')
      else if not (readable ((ptr % 4096 + new_size + 4095) / 4096) (ptr / 4096) h'.machine)
      then none
      else elim (kfree ptr (record h' { bytes = memcpy h'.bytes new ptr new_size })) [
        | none ↦ none
        | some (ret, h'') ↦ some (new, h'')
      ]
]

unfoldable pub mm_init : Heap → Option (Heap)
mm_init h = elim (pages_to_order vmap_area_pool_nr_pages) [
  | none ↦ none
  | some order ↦ elim (alloc_pages order h.machine) [
    | none ↦ none
    | some (pa, machine) ↦
        let va = (pa + kmem_base) % 2 ^ 64 in
        elim (map_page_range pa va map_kern_rw vmap_area_pool_nr_pages machine) [
          | none ↦ none
          | some (ret, mapped) ↦
              elim (pool_init h.links va vmap_area_pool_nr_pages sizeof_vmap_area) [
                | none ↦ none
                | some (links, pool) ↦ some (record h {
                  machine = mapped;
                  links = links;
                  vmap_area_pool = pool;
                  mm_spinlock = 0;
                })
              ]
        ]
  ]
]
