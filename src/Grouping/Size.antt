-- ===== src/Grouping/Size.antt =====
-- src/grouping/bc_duplicate_grouping_by_size.c: sort by size, drop further links to one inode, and
-- group the files of equal size.
pub mod Order
pub mod Links
pub mod Collapse
pub mod Compact
pub mod Correct
use bc_duplicate.Prelude.{
  ℕ, zero, suc, ◌+◌, ◌-◌, ◌*◌, Bool, List, [], ◌∷◌, length, take, drop, set, ltb, leb, ◌==◌, ◌&&◌,
  if◌then◌else◌,
}
use bc_duplicate.Types.{Entry, Group}
use bc_duplicate.Outcome.{Outcome, done, ◌>>=◌, read_at}
use bc_duplicate.Core.{CoreLibrary}
use bc_duplicate.Grouping.Buffer.{GroupBuffer, create_buffer}
use bc_duplicate.Grouping.Runs.{same_length, scan_runs}

-- Larger files first, then by device and inode.
unfoldable pub size_dev_ino_less_than : Entry → Entry → Bool
size_dev_ino_less_than left right =
    if left.file_size == right.file_size
    then (if left.device_id == right.device_id
        then ltb left.inode_number right.inode_number
        else ltb left.device_id right.device_id)
    else ltb right.file_size left.file_size

abbrev pub same_size : Entry → Entry → Bool
same_size a b = b.file_size == a.file_size

abbrev pub same_inode : Entry → Entry → Bool
same_inode a b = a.device_id == b.device_id && a.inode_number == b.inode_number

-- One round for each value of `read_index`; an entry that shares the inode of the last one kept is
-- skipped, another is moved down to `write_index`.
unfoldable pub collapse_loop :
    (rounds : ℕ) → List Entry → (read_index write_index collapsed : ℕ) → Outcome (List Entry × ℕ)
collapse_loop zero entries read_index write_index collapsed = done (entries, collapsed)
collapse_loop (suc rounds) entries read_index write_index collapsed = do
  entry ← read_at entries read_index
  last ← read_at entries (write_index - 1)
  let linked = same_inode entry last
  let moved = if write_index == read_index then entries else set entries write_index entry
  collapse_loop rounds (if linked then entries else moved) (suc read_index)
      (if linked then write_index else suc write_index)
      (if linked then suc collapsed else collapsed)

unfoldable pub collapse_hardlinks_in_run :
    List Entry → (run_start_index run_length : ℕ) → Outcome (List Entry × ℕ)
unfolding collapse_loop
collapse_hardlinks_in_run entries run_start_index run_length =
    if leb run_length 1
    then done (entries, 0)
    else collapse_loop (run_length - 1) entries (suc run_start_index) (suc run_start_index) 0

pub record Compacted : Type 0 where
  pub entries : List Entry
  pub entry_count : ℕ
  pub hardlinks_collapsed : ℕ

pub record SizeGroups : Type 0 where
  pub entries : List Entry
  pub groups : List Group
  pub candidate_count : ℕ
  pub hardlinks_collapsed : ℕ

abbrev pub no_size_groups : List Entry → SizeGroups
no_size_groups entries = record {
  entries = entries;
  groups = [];
  candidate_count = 0;
  hardlinks_collapsed = 0;
}

module _ (core : CoreLibrary) where
  open core use {sort, copy}

  -- The runs of equal size, moved down one after the other and freed of further links. A round
  -- takes at least one entry, so fuel equal to the number of entries is enough.
  unfoldable pub compact_runs :
      (fuel : ℕ) → List Entry → (run_start_index write_index collapsed : ℕ) → Outcome Compacted
  unfolding collapse_hardlinks_in_run
  compact_runs zero entries run_start_index write_index collapsed =
      done
        (record { entries = entries; entry_count = write_index; hardlinks_collapsed = collapsed })
  compact_runs (suc fuel) entries run_start_index write_index collapsed =
      if ltb run_start_index (length entries)
      then (do
        first ← read_at entries run_start_index
        let run_length = suc (same_length (same_size first) (drop (suc run_start_index) entries))
        let moved =
            if write_index == run_start_index
            then entries
            else copy Entry entries write_index run_start_index run_length
        (kept, links) ← collapse_hardlinks_in_run moved write_index run_length
        compact_runs fuel kept (run_start_index + run_length) (write_index + (run_length - links))
            (collapsed + links))
      else done
          (record { entries = entries; entry_count = write_index; hardlinks_collapsed = collapsed })

  unfoldable pub compact : Bool → List Entry → Outcome Compacted
  unfolding compact_runs
  compact match_hardlinks sorted =
      if match_hardlinks
      then done (record { entries = sorted; entry_count = length sorted; hardlinks_collapsed = 0 })
      else compact_runs (length sorted) sorted 0 0 0

  module _ (grant : ℕ → Bool) where
    unfoldable pub group_by_size : List Entry → Bool → Outcome SizeGroups
    unfolding size_dev_ino_less_than compact create_buffer scan_runs
    group_by_size entries match_hardlinks =
        if length entries == 0 then done (no_size_groups entries) else (do
          let sorted = sort Entry size_dev_ino_less_than entries
          c ← compact match_hardlinks sorted
          b ← create_buffer grant 16
          b' ←
              scan_runs grant same_size (λ e. e.file_size) 0 c.entry_count 0
                (take c.entry_count c.entries) b
          done (record {
            entries = c.entries;
            groups = b'.groups;
            candidate_count = b'.candidate_count;
            hardlinks_collapsed = c.hardlinks_collapsed;
          }))
