-- ===== src/Sched/Balance.antt =====
-- The queue that a new task goes to, and the page-table entries that a program needs.
use rayos.Base.{
  ℕ, zero, suc, ◌+◌, ◌*◌, ◌/◌, ◌%◌, ◌^◌, ◌≤◌, ◌<◌, ◌≡◌, refl, arith, false, ◌==◌, to_int_small,
}
use rayos.Algo.{min_cmp}
use rayos.Algo.Extreme.{IsExtreme, find_extreme_index-IsExtreme}
use rayos.Sched.{Sched, load, enqueue_ready, sched_enqueue_balanced, calc_page_table_counts}

-- `sched_enqueue_balanced` puts the task at the end of the ready queue of the CPU whose id stands at
-- the first index at which the queues' lengths, taken by index, are least. The number of CPUs is 1
-- to 2^31 - 1.
pub sched_enqueue_balanced-IsExtreme :
    (max_cpus : ℕ) (ap_ids : ℕ → ℕ) (t : ℕ) (s : Sched)
    → 0 < max_cpus
    → max_cpus < 2 ^ 31
    → (idx : ℕ) × (sched_enqueue_balanced max_cpus ap_ids t s ≡ enqueue_ready (ap_ids idx) t s)
      × IsExtreme min_cmp (load s) max_cpus idx
unfolding sched_enqueue_balanced
sched_enqueue_balanced-IsExtreme max_cpus ap_ids t s more small =
    let ((idx, found, least), _) = find_extreme_index-IsExtreme (load s) max_cpus more small in
    (idx, rw (sched_enqueue_balanced, to_int_small max_cpus small, found) refl, least)

-- `n` tables of 512 entries hold `entries`, and fewer do not.
abbrev pub JustHolds : ℕ → ℕ → Type 0
JustHolds n entries = (entries ≤ n * 512) × (n * 512 < entries + 512)

-- The numbers of `calc_page_table_counts` for up to 2^52 pages: an entry of the last level for each
-- page, and on each level above as many entries as there are tables below, each table with 512
-- entries; so that the numbers are the least ones for pages that begin at a table's first entry.
pub calc_page_table_counts-JustHolds :
    (nr_pages : ℕ)
    → nr_pages ≤ 2 ^ 52
    → (pml4 : ℕ) × (pdpt : ℕ) × (pd : ℕ) × (calc_page_table_counts nr_pages
        ≡ (pml4, pdpt, pd, nr_pages))
      × JustHolds pd nr_pages
      × JustHolds pdpt pd
      × JustHolds pml4 pdpt
unfolding calc_page_table_counts
calc_page_table_counts-JustHolds zero h = (
  0,
  0,
  0,
  refl,
  (omega arith, omega arith),
  (omega arith, omega arith),
  (omega arith, omega arith),
)
calc_page_table_counts-JustHolds (suc n) h =
    let pd : ℕ = (suc n + 511) / 512 in
    let pdpt : ℕ = (pd + 511) / 512 in
    let pml4 : ℕ = (pdpt + 511) / 512 in
    let a : (suc n + 511) % 2 ^ 64 ≡ suc n + 511 = omega arith in
    let b : (pd + 511) % 2 ^ 64 ≡ pd + 511 = omega arith in
    let c : (pdpt + 511) % 2 ^ 64 ≡ pdpt + 511 = omega arith in
    let some_pages : (suc n == 0) ≡ false = ground arith in
    (
      pml4,
      pdpt,
      pd,
      rw (some_pages, a, b, c) refl,
      (omega arith, omega arith),
      (omega arith, omega arith),
      (omega arith, omega arith),
    )
