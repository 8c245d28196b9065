-- ===== src/Grouping/Hash.antt =====
-- src/grouping/bc_duplicate_grouping_by_fast_hash.c and bc_duplicate_grouping_by_full_hash.c: each
-- group of the stage before is split by a hash of the files' content.
pub mod Order
pub mod Correct
use bc_duplicate.Prelude.{ℕ, Bool, List, [], length, ltb, ◌==◌, if◌then◌else◌}
use bc_duplicate.Types.{Entry, Group}
use bc_duplicate.Outcome.{Outcome, done, ◌>>=◌}
use bc_duplicate.Core.{CoreLibrary}
use bc_duplicate.Grouping.Buffer.{create_buffer}
use bc_duplicate.Grouping.Regroup.{regroup}

unfoldable pub fast_hash_less_than : Entry → Entry → Bool
fast_hash_less_than left right = ltb left.fast_hash right.fast_hash

-- `run_begin[cursor].fast_hash == current_hash`
abbrev pub same_fast_hash : Entry → Entry → Bool
same_fast_hash first entry = entry.fast_hash == first.fast_hash

pub record HashGroups : Type 0 where
  pub entries : List Entry
  pub groups : List Group
  pub candidate_count : ℕ

module _ (core : CoreLibrary) where
  unfoldable pub full_hash_less_than : ℕ → Entry → Entry → Bool
  full_hash_less_than digest_size left right =
      core.less_bytes left.full_hash right.full_hash digest_size

  -- `bc_core_equal(run_begin[cursor].full_hash, run_begin[sub_start].full_hash, ...)`
  abbrev pub same_full_hash : ℕ → Entry → Entry → Bool
  same_full_hash digest_size first entry =
      core.equal_bytes entry.full_hash first.full_hash digest_size

  module _ (grant : ℕ → Bool) where
    unfoldable pub group_by_fast_hash : List Entry → List Group → Outcome HashGroups
    group_by_fast_hash entries size_groups =
        if length size_groups == 0
        then done (record { entries = entries; groups = []; candidate_count = 0 })
        else (do
          b ← create_buffer grant (length size_groups)
          (sorted, b') ← regroup core fast_hash_less_than same_fast_hash grant size_groups entries b
          done (record {
            entries = sorted;
            groups = b'.groups;
            candidate_count = b'.candidate_count;
          }))

    -- This stage counts no candidates: its caller takes the entries and the groups only.
    unfoldable pub group_by_full_hash :
        List Entry → List Group → ℕ → Outcome (List Entry × List Group)
    group_by_full_hash entries fast_hash_groups digest_size =
        if length fast_hash_groups == 0 then done (entries, []) else (do
          b ← create_buffer grant (length fast_hash_groups)
          (sorted, b') ←
              regroup core (full_hash_less_than digest_size) (same_full_hash digest_size) grant
                fast_hash_groups entries b
          done (sorted, b'.groups))
