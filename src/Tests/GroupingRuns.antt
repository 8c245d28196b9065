-- ===== src/Tests/GroupingRuns.antt =====
-- The grouping stages on a handful of files.
use Prim.Native.Nat.{min}
use mathlib.Core.List.{Perm}
use bc_duplicate.Prelude.{
  ℕ, ◌≤◌, ◌+◌, ◌≡◌, refl, Bool, true, false, inl, List, [], ◌∷◌, arith, length, select,
}
use bc_duplicate.Types.{Entry, Group}
use bc_duplicate.Outcome.{Outcome, done, out_of_memory, Returns}
use bc_duplicate.Grouping.Buffer.{append_group, grow_if_full, store_group}
use bc_duplicate.Grouping.Runs.View.{view, total}
use bc_duplicate.Grouping.Size.{SizeGroups, group_by_size}
use bc_duplicate.Grouping.Size.Order.{same_link}
use bc_duplicate.Grouping.Size.Correct.{
  IsGroupedBySize, survivors, group_by_size-IsGroupedBySize, group_by_size-one_link,
  group_by_size-all_links,
}
use bc_duplicate.Grouping.Hash.{
  same_fast_hash, same_full_hash, group_by_fast_hash, group_by_full_hash,
}
use bc_duplicate.Grouping.Hash.Correct.{
  IsRefined, group_by_fast_hash-IsRefined, group_by_full_hash-IsRefined,
}
use bc_duplicate.Tests.PlainCore.{plain_core}

-- A file with its size, inode, fast hash and digest.
abbrev file : ℕ → ℕ → ℕ → List ℕ → Entry
file size inode hash digest = record {
  absolute_path = [];
  absolute_path_length = 0;
  file_size = size;
  device_id = 1;
  inode_number = inode;
  fast_hash = hash;
  full_hash = digest;
  fast_hash_computed = true;
  full_hash_computed = true;
  fast_hash_errno = 0;
  full_hash_errno = 0;
}

abbrev group : ℕ → ℕ → ℕ → Group
group start count size = record { start_index = start; entry_count = count; file_size = size }

abbrev all : ℕ → Bool
all n = true

-- Two links to inode 7, and a third file of that size.
abbrev files : List Entry
files =
    file 5 7 1 (9 ∷ [])
    ∷ file 8 1 2 (1 ∷ [])
    ∷ file 5 7 1 (9 ∷ [])
    ∷ file 5 3 1 (9 ∷ [])
    ∷ file 8 2 3 (2 ∷ [])
    ∷ []

size_stage : Outcome SizeGroups
size_stage = group_by_size plain_core all files false

groups_of : Outcome SizeGroups → List Group
groups_of (done r) = r.groups
groups_of x = []

size_stage_groups : groups_of size_stage ≡ group 0 2 8 ∷ group 2 2 5 ∷ []
unfolding size_stage groups_of group_by_size append_group grow_if_full store_group
size_stage_groups = refl

-- With no memory for the array of groups the stage fails.
size_stage_refused : group_by_size plain_core (λ n. false) files true ≡ out_of_memory
unfolding group_by_size
size_stage_refused = refl

group_by_size-IsGroupedBySize_example :
    Returns all (group_by_size plain_core all files false) IsGroupedBySize
group_by_size-IsGroupedBySize_example =
    group_by_size-IsGroupedBySize plain_core all files false
      (λ h. inl (λ array target source count below over inside. refl))

group_by_size-one_link_example : Returns all (group_by_size plain_core all files false) (λ r.
    ((a : Entry)
      → length (select (same_link a) (survivors r)) ≡ min 1 (length (select (same_link a) files)))
    × ((p : Entry → Bool) → length (select p (survivors r)) ≤ length (select p files))
    × (length (survivors r) + r.hardlinks_collapsed ≡ length files))
group_by_size-one_link_example =
    group_by_size-one_link plain_core all files
      (inl (λ array target source count below over inside. refl))

group_by_size-all_links_example :
    Returns all
      (group_by_size plain_core all files true)
      (λ r. Perm (survivors r) files × (r.hardlinks_collapsed ≡ 0))
group_by_size-all_links_example = group_by_size-all_links plain_core all files

abbrev size_groups : List Group
size_groups = group 0 2 8 ∷ group 2 2 5 ∷ []

abbrev sized : List Entry
sized = file 8 1 2 (1 ∷ []) ∷ file 8 2 3 (2 ∷ []) ∷ file 5 3 1 (9 ∷ []) ∷ file 5 7 1 (9 ∷ []) ∷ []

group_by_fast_hash-IsRefined_example :
    Returns all (group_by_fast_hash plain_core all sized size_groups) (λ r.
      IsRefined same_fast_hash sized size_groups r.entries r.groups
      × (r.candidate_count ≡ total (view r.entries r.groups)))
group_by_fast_hash-IsRefined_example =
    group_by_fast_hash-IsRefined plain_core all sized size_groups (omega arith)

group_by_full_hash-IsRefined_example :
    Returns all
      (group_by_full_hash plain_core all sized size_groups 8)
      (λ r. IsRefined (same_full_hash plain_core 8) sized size_groups r.0 r.1)
group_by_full_hash-IsRefined_example =
    group_by_full_hash-IsRefined plain_core all sized size_groups 8 (omega arith)
