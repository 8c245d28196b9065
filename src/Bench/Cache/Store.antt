-- ===== src/Bench/Cache/Store.antt =====
-- src/bench/bc_duplicate_throughput_cache.c: the writing of the cache file, its path, and the call that
-- measures only what is not cached.
use bc_duplicate.Prelude.{
  ℕ, ◌+◌, ◌-◌, ◌≡◌, Bool, true, false, not, List, [], ◌∷◌, ◌++◌, Option, none, some, length, ltb,
  ◌==◌, if◌then◌else◌,
}
use bc_duplicate.Chain.{◌>>=◌}
use bc_duplicate.Text.{codes}
use bc_duplicate.Core.{CoreLibrary}
use bc_duplicate.Output.{WriterLibrary}
use bc_duplicate.Output.Simple.{newline}
use bc_duplicate.Discovery.{slash}
use bc_duplicate.Bench.{FloatLibrary, ThroughputConstants}
use bc_duplicate.Bench.Cache.{eexist, line_capacity, Host, Signature, read_host_signature, load}

-- `bc_core_writer_write_double` with six decimals.
pub record DoubleWriter (float : FloatLibrary) (output : WriterLibrary) : Type 0 where
  pub decimals : float.Double → List ℕ
  pub write_double : output.Writer → float.Double → Option output.Writer
  pub write_double_adds :
      (w : output.Writer) (d : float.Double) (w' : output.Writer)
      → write_double w d ≡ some w'
      → output.contents w' ≡ output.contents w ++ decimals d

-- The part of a path in front of its last slash, if it has one.
unfoldable pub in_front_of_slash : List ℕ → Option (List ℕ)
in_front_of_slash [] = none
in_front_of_slash (c ∷ cs) = elim (in_front_of_slash cs) [
  | some front ↦ some (c ∷ front)
  | none ↦ if c == slash then some [] else none
]

-- `mkdir` answers with an errno, 0 for none. A path without a directory, or in the root, needs none.
unfoldable pub ensure_parent_directory : (mkdir : List ℕ → ℕ) → List ℕ → Bool
ensure_parent_directory mkdir path =
    if ltb line_capacity (length path + 1) then false else elim (in_front_of_slash path) [
      | none ↦ true
      | some directory ↦
          if length directory == 0
          then true
          else if mkdir directory == 0
          then true
          else mkdir directory == eexist
    ]

module _ (float : FloatLibrary) (output : WriterLibrary) (doubles : DoubleWriter float output) where
  open output use {Writer, write_bytes, write_char}

  unfoldable pub write_text_line : (key value : List ℕ) → Writer → Option Writer
  write_text_line key value w = do
    w1 ← write_bytes w key
    w2 ← write_bytes w1 value
    write_char w2 newline

  unfoldable pub write_double_line : (key : List ℕ) → float.Double → Writer → Option Writer
  write_double_line key value w = do
    w1 ← write_bytes w key
    w2 ← doubles.write_double w1 value
    write_char w2 newline

  unfoldable pub write_cache : Signature → ThroughputConstants float → Writer → Option Writer
  write_cache s constants w = do
    w1 ← write_text_line (codes "cpu_model=") s.cpu_model w
    w2 ← write_text_line (codes "microcode=") s.microcode w1
    w3 ← write_text_line (codes "kernel_version=") s.kernel_version w2
    w4 ← write_double_line (codes "xxh3_gbps=") constants.xxh3_gigabytes_per_second w3
    w5 ← write_double_line (codes "xxh128_gbps=") constants.xxh128_gigabytes_per_second w4
    w6 ← write_double_line (codes "sha256_gbps=") constants.sha256_gigabytes_per_second w5
    w7 ← write_double_line (codes "mem_bw_gbps=") constants.memory_bandwidth_gigabytes_per_second w6
    w8 ←
        write_double_line (codes "parallel_startup_us=")
          constants.parallel_startup_overhead_microseconds w7
    write_double_line (codes "per_file_cost_us=") constants.per_file_cost_warm_microseconds w8

  -- The writer for the file, if it can be opened, and whether flushing and closing succeed.
  module _ (core : CoreLibrary) (mkdir : List ℕ → ℕ) (open_file : List ℕ → Option Writer)
      (closes : Writer → Bool) where
    unfoldable pub store : Host → List ℕ → ThroughputConstants float → Option Writer
    store host path constants =
        if ensure_parent_directory mkdir path
        then (do
          s ← read_host_signature core host
          w ← open_file path
          w' ← write_cache s constants w
          if closes w' then some w' else none)
        else none

    -- What the environment says, and the writer into a buffer: what it holds after both writes.
    module _ (getenv : List ℕ → Option (List ℕ))
        (write_two : (room : ℕ) → List ℕ → List ℕ → Option (List ℕ)) where
      unfoldable pub compose_path : (path_capacity : ℕ) → (prefix suffix : List ℕ) → Option (List ℕ)
      compose_path path_capacity prefix suffix =
          if path_capacity == 0 then none else write_two (path_capacity - 1) prefix suffix

      abbrev pub is_set : Option (List ℕ) → Bool
      is_set none = false
      is_set (some value) = not (length value == 0)

      abbrev pub value_of : Option (List ℕ) → List ℕ
      value_of none = []
      value_of (some value) = value

      unfoldable pub default_path : (path_capacity : ℕ) → Option (List ℕ)
      default_path path_capacity =
          let xdg_cache_home = getenv (codes "XDG_CACHE_HOME") in
          let home = getenv (codes "HOME") in
          if is_set xdg_cache_home
          then compose_path path_capacity (value_of xdg_cache_home)
              (codes "/bc-duplicate/throughput.txt")
          else if is_set home
          then compose_path path_capacity (value_of home)
              (codes "/.cache/bc-duplicate/throughput.txt")
          else none

      -- The constants, and the file that was written, if one was. `read_file` gives the lines of a file.
      module _ (parse_double : List ℕ → Option float.Double)
          (read_file : List ℕ → Option (List (List ℕ)))
          (measure : Option (ThroughputConstants float)) where
        abbrev pub cached : Host → Option (List ℕ) → Option (ThroughputConstants float)
        cached host none = none
        cached host (some path) = load core float parse_double host (read_file path)

        abbrev pub written_to : Host → Option (List ℕ) → ThroughputConstants float → Option Writer
        written_to host none constants = none
        written_to host (some path) constants = store host path constants

        unfoldable pub get_or_measure : Host → Option (ThroughputConstants float × Option Writer)
        get_or_measure host =
            let path = default_path line_capacity in
            elim (cached host path) [
              | some constants ↦ some (constants, none)
              | none ↦ do constants ← measure; some (constants, written_to host path constants)
            ]
