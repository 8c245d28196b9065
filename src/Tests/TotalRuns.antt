-- ===== src/Tests/TotalRuns.antt =====
-- The totals of two groups.
use bc_duplicate.Prelude.{ℕ, ◌≡◌, refl, List, [], ◌∷◌, arith}
use bc_duplicate.Types.{Group}
use bc_duplicate.Totals.{totals, total_loop, extra_entries, totals-sums}

abbrev group : ℕ → ℕ → ℕ → Group
group start count size = record { start_index = start; entry_count = count; file_size = size }

abbrev groups : List Group
groups = group 0 3 10 ∷ group 3 2 7 ∷ []

counted : totals groups ≡ (3, 27)
unfolding totals total_loop extra_entries
counted = refl

totals-sums_example : totals groups ≡ (3, 27)
totals-sums_example =
    totals-sums groups ((omega arith, omega arith), ((omega arith, omega arith), tt)) (omega arith)
      (omega arith)
