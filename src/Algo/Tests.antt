-- ===== src/Algo/Tests.antt =====
-- The loads of three CPUs.
use rayos.Base.{ℕ, ◌≡◌, ◌==◌, refl, some, if◌then◌else◌, ℤ, pos}
use rayos.Algo.{find_extreme_index, extreme_loop, min_cmp}

abbrev loads : ℕ → ℤ
loads i = if i == 1 then pos 2 else pos 4

least : find_extreme_index (some loads) (pos 3) min_cmp ≡ pos 1
unfolding find_extreme_index extreme_loop min_cmp
least = refl
