-- ===== src/Output/Simple.antt =====
-- src/output/bc_duplicate_output_simple.c: the summary. The groups are in Groups.
use Prim.Native.String.{String}
use bc_duplicate.Prelude.{ℕ, Option}
use bc_duplicate.Chain.{◌>>=◌}
use bc_duplicate.Types.{Statistics}
use bc_duplicate.Text.{codes}
use bc_duplicate.Output.{WriterLibrary}

abbrev pub newline : ℕ
newline = 10

module _ (lib : WriterLibrary) where
  open lib use {Writer, write_bytes, write_char, write_decimal}

  unfoldable pub write_labeled_uint : String → ℕ → Writer → Option Writer
  write_labeled_uint label value w = do
    w1 ← write_bytes w (codes label)
    w2 ← write_decimal w1 value
    write_char w2 newline

  unfoldable pub summary_write : Statistics → Writer → Option Writer
  summary_write s w = do
    w1 ← write_labeled_uint "Files scanned:        " s.files_scanned w
    w2 ← write_labeled_uint "Directories scanned:  " s.directories_scanned w1
    w3 ← write_labeled_uint "Files skipped:        " s.files_skipped w2
    w4 ← write_labeled_uint "Hardlinks collapsed:  " s.hardlinks_collapsed w3
    w5 ← write_labeled_uint "Size candidates:      " s.size_candidate_count w4
    w6 ← write_labeled_uint "Files hashed (fast):  " s.files_hashed_fast w5
    w7 ← write_labeled_uint "Files hashed (full):  " s.files_hashed_full w6
    w8 ← write_labeled_uint "Duplicate groups:     " s.duplicate_group_count w7
    w9 ← write_labeled_uint "Duplicate files:      " s.duplicate_file_count w8
    w10 ← write_labeled_uint "Wasted bytes:         " s.wasted_bytes w9
    write_labeled_uint "Wall ms:              " s.wall_ms w10
