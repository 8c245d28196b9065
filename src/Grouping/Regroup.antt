-- ===== src/Grouping/Regroup.antt =====
-- The loop that by_fast_hash and by_full_hash share: each group of the stage before is sorted in
-- place and scanned for runs of one hash.
pub mod Range
pub mod View
pub mod Classes
use bc_duplicate.Prelude.{ℕ, ◌+◌, Bool, List, [], ◌∷◌, ◌++◌, length, take, drop}
use bc_duplicate.Types.{Entry, Group}
use bc_duplicate.Outcome.{Outcome, done, ◌>>=◌}
use bc_duplicate.Core.{CoreLibrary}
use bc_duplicate.Grouping.Buffer.{GroupBuffer}
use bc_duplicate.Grouping.Runs.{scan_runs, duplicate_runs}
use bc_duplicate.Grouping.Runs.View.{members}

module _ (core : CoreLibrary) (less : Entry → Entry → Bool) where
  -- `bc_core_sort_with_compare(&entries[start], count, ...)`.
  unfoldable pub sort_range : List Entry → (start count : ℕ) → List Entry
  sort_range entries start count =
      take start entries
      ++ (core.sort Entry less (take count (drop start entries)) ++ drop (start + count) entries)

module _ (core : CoreLibrary) (less same : Entry → Entry → Bool) where
  module _ (grant : ℕ → Bool) where
    unfoldable pub regroup :
        List Group → List Entry → GroupBuffer → Outcome (List Entry × GroupBuffer)
    regroup [] entries b = done (entries, b)
    regroup (g ∷ gs) entries b =
        let sorted = sort_range core less entries g.start_index g.entry_count in
        scan_runs grant same (λ _. g.file_size) g.start_index g.entry_count 0 (members sorted g) b
        >>= regroup gs sorted

  -- The same on lists of entries: each list is sorted and split into its runs.
  unfoldable pub regrouped : List (ℕ × List Entry) → List (ℕ × List Entry)
  regrouped [] = []
  regrouped ((size, l) ∷ vs) =
      duplicate_runs same (λ _. size) (length l) (core.sort Entry less l) ++ regrouped vs
