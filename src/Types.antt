-- ===== src/Types.antt =====
-- include/internal/bc_duplicate_types_internal.h: the enumerations and structs that the parts of
-- the program exchange. A path or a digest is the list of its bytes.
use bc_duplicate.Prelude.{ℕ, Bool, List}

abbrev pub fast_hash_block_size : ℕ
fast_hash_block_size = 4096

abbrev pub max_digest_size : ℕ
max_digest_size = 32

pub data Algorithm : Type 0 where
  xxh3 xxh128 sha256 : Algorithm

pub data OutputFormat : Type 0 where
  simple json : OutputFormat

pub data ThreadsMode : Type 0 where
  auto mono explicit io : ThreadsMode

pub data OutputDestination : Type 0 where
  auto stdout file : OutputDestination

pub data Command : Type 0 where
  scan summary : Command

pub record Entry : Type 0 where
  pub absolute_path : List ℕ
  pub absolute_path_length : ℕ
  pub file_size : ℕ
  pub device_id : ℕ
  pub inode_number : ℕ
  pub fast_hash : ℕ
  pub full_hash : List ℕ
  pub fast_hash_computed : Bool
  pub full_hash_computed : Bool
  pub fast_hash_errno : ℕ
  pub full_hash_errno : ℕ

pub record Group : Type 0 where
  pub start_index : ℕ
  pub entry_count : ℕ
  pub file_size : ℕ

pub record Statistics : Type 0 where
  pub files_scanned : ℕ
  pub directories_scanned : ℕ
  pub files_skipped : ℕ
  pub hardlinks_collapsed : ℕ
  pub size_candidate_count : ℕ
  pub files_hashed_fast : ℕ
  pub files_hashed_full : ℕ
  pub duplicate_group_count : ℕ
  pub duplicate_file_count : ℕ
  pub wasted_bytes : ℕ
  pub wall_ms : ℕ
