-- ===== src/Application/Stages/Correct.antt =====
-- From the files that were found to the groups that are reported.
use bc_duplicate.Prelude.{ℕ, ◌≤◌, ◌≡◌, List, length, take, All, Some, select}
use mathlib.Core.List.Perm
use bc_duplicate.Types.{Entry, Group}
use bc_duplicate.Cli.{CliOptions}
use bc_duplicate.Grouping.Size.{same_size}
use bc_duplicate.Grouping.Size.Correct.{kept}
use bc_duplicate.Grouping.Runs.View.{view}
use bc_duplicate.Grouping.Runs.Layout.{IsLaidOut}
use bc_duplicate.Worker.Kept.{without_hashes}
use bc_duplicate.Worker.Full.{digest_size}
use bc_duplicate.Application.{RunEnvironment}
use bc_duplicate.Application.Stages.{StagesEnd}

-- The file is one of those found: the same but for hashes.
abbrev pub IsOneOf : List Entry → Entry → Type 0
IsOneOf found_entries e = ∥ Some (λ f. without_hashes f ≡ without_hashes e) found_entries ∥₁

module _ (env : RunEnvironment) (options : CliOptions) (input : List Entry) where
  -- A file of the input, of a given size.
  abbrev IsSized : ℕ → Entry → Type 0
  IsSized size e = (e.file_size ≡ size) × IsOneOf input e

  -- A group of files of one size, and of one size and fast hash.
  abbrev IsSizeGroup : ℕ × List Entry → Type 0
  IsSizeGroup v = All (IsSized v.0) v.1

  abbrev IsFastGroup : ℕ × List Entry → Type 0
  IsFastGroup v = (hash : ℕ) × All (λ e. IsSized v.0 e × (e.fast_hash ≡ hash)) v.1

  -- What is reported as a group of duplicates: two files or more of the input, of the size that
  -- stands with the group, with one fast hash and one digest.
  abbrev pub IsDuplicateGroup : ℕ × List Entry → Type 0
  IsDuplicateGroup v =
      (2 ≤ length v.1)
      × ((hash : ℕ) × (digest : List ℕ) × All
            (λ e.
              IsSized v.0 e
              × (e.fast_hash ≡ hash)
              × (take (digest_size options.algorithm) e.full_hash ≡ digest))
            v.1)

  -- Groups of duplicates that stand in the array of entries, one behind the other.
  abbrev pub AreDuplicates : List Entry → List Group → Type 0
  AreDuplicates entries groups =
      All IsDuplicateGroup (view entries groups) × IsLaidOut 0 (length entries) groups

  -- What the stages end with.
  abbrev pub IsEnd : StagesEnd → Type 0
  IsEnd StagesEnd.no_size_groups =
      (a : Entry)
      → length (select (same_size a) (kept env.core env.grant options.match_hardlinks input)) ≤ 1
  IsEnd (StagesEnd.found f) = AreDuplicates f.entries f.final_groups
