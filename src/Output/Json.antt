-- ===== src/Output/Json.antt =====
-- src/output/bc_duplicate_output_json.c: strings and statistics. The groups are in Groups.
use Prim.Native.String.{String}
use bc_duplicate.Prelude.{ℕ, List, [], ◌∷◌, Option, some, ltb, ◌==◌, if◌then◌else◌}
use bc_duplicate.Chain.{◌>>=◌}
use bc_duplicate.Types.{Algorithm, Statistics}
use bc_duplicate.Text.{codes}
use bc_duplicate.Output.{WriterLibrary}

abbrev pub quote : ℕ
quote = 34

abbrev pub backslash : ℕ
backslash = 92

abbrev pub comma : ℕ
comma = 44

module _ (lib : WriterLibrary) where
  open lib use {Writer, write_bytes, write_char, write_decimal, write_hexadecimal_padded}

  -- One byte of a path: a short escape, a control character as four digits, or itself.
  unfoldable pub write_escaped_byte : ℕ → Writer → Option Writer
  write_escaped_byte byte w =
      if byte == quote
      then write_bytes w (backslash ∷ quote ∷ [])
      else if byte == backslash
      then write_bytes w (backslash ∷ backslash ∷ [])
      else if byte == 8
      then write_bytes w (backslash ∷ codes "b")
      else if byte == 12
      then write_bytes w (backslash ∷ codes "f")
      else if byte == 10
      then write_bytes w (backslash ∷ codes "n")
      else if byte == 13
      then write_bytes w (backslash ∷ codes "r")
      else if byte == 9
      then write_bytes w (backslash ∷ codes "t")
      else if ltb byte 32
      then (do w1 ← write_bytes w (backslash ∷ codes "u"); write_hexadecimal_padded w1 byte 4)
      else write_char w byte

  unfoldable pub write_escaped_bytes : List ℕ → Writer → Option Writer
  write_escaped_bytes [] w = some w
  write_escaped_bytes (byte ∷ bytes) w = do
    w1 ← write_escaped_byte byte w
    write_escaped_bytes bytes w1

  unfoldable pub write_escaped : List ℕ → Writer → Option Writer
  write_escaped input w = do
    w1 ← write_char w quote
    w2 ← write_escaped_bytes input w1
    write_char w2 quote

  unfoldable pub algorithm_name : Algorithm → String
  algorithm_name Algorithm.xxh3 = "xxh3"
  algorithm_name Algorithm.xxh128 = "xxh128"
  algorithm_name Algorithm.sha256 = "sha256"

  unfoldable pub write_stat_key_value : String → ℕ → Writer → Option Writer
  write_stat_key_value key value w = do
    w1 ← write_char w quote
    w2 ← write_bytes w1 (codes key)
    w3 ← write_bytes w2 (codes "\":")
    write_decimal w3 value

  unfoldable pub write_stats : Statistics → Writer → Option Writer
  write_stats s w = do
    a ← write_bytes w (codes "\"stats\":{")
    a1 ← write_stat_key_value "files_scanned" s.files_scanned a
    b1 ← write_char a1 comma
    a2 ← write_stat_key_value "directories_scanned" s.directories_scanned b1
    b2 ← write_char a2 comma
    a3 ← write_stat_key_value "files_skipped" s.files_skipped b2
    b3 ← write_char a3 comma
    a4 ← write_stat_key_value "hardlinks_collapsed" s.hardlinks_collapsed b3
    b4 ← write_char a4 comma
    a5 ← write_stat_key_value "size_candidates" s.size_candidate_count b4
    b5 ← write_char a5 comma
    a6 ← write_stat_key_value "files_hashed_fast" s.files_hashed_fast b5
    b6 ← write_char a6 comma
    a7 ← write_stat_key_value "files_hashed_full" s.files_hashed_full b6
    b7 ← write_char a7 comma
    a8 ← write_stat_key_value "duplicate_groups" s.duplicate_group_count b7
    b8 ← write_char a8 comma
    a9 ← write_stat_key_value "duplicate_files" s.duplicate_file_count b8
    b9 ← write_char a9 comma
    a10 ← write_stat_key_value "wasted_bytes" s.wasted_bytes b9
    b10 ← write_char a10 comma
    a11 ← write_stat_key_value "wall_ms" s.wall_ms b10
    write_char a11 125

  -- The comma in front of every round of a loop but the first.
  unfoldable pub separated : (index : ℕ) → Writer → Option Writer
  separated index w = if ltb 0 index then write_char w comma else some w
