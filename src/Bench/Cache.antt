-- ===== src/Bench/Cache.antt =====
-- src/bench/bc_duplicate_throughput_cache.c: the measured speeds in a file, for the host on which they
-- were measured. `strtod` and the writing of doubles are parameters, as are the files of the system;
-- a line is what the buffered reader gives for it, without its end.
pub mod Store
pub mod Lines
pub mod Loaded
pub mod Written
pub mod RoundTrip
use bc_duplicate.Prelude.{
  ℕ, zero, suc, ◌+◌, ◌-◌, ◌≡◌, Bool, true, false, not, ◌&&◌, ◌||◌, List, [], ◌∷◌, ◌++◌, Option,
  none, some, length, take, drop, ltb, leb, ◌==◌, if◌then◌else◌,
}
use bc_duplicate.Chain.{◌>>=◌}
use bc_duplicate.Text.{codes, strings_equal}
use bc_duplicate.Core.{CoreLibrary}
use bc_duplicate.Output.{WriterLibrary}
use bc_duplicate.Discovery.{slash}
use bc_duplicate.Bench.{FloatLibrary, ThroughputConstants}

abbrev pub signature_capacity : ℕ
signature_capacity = 256

abbrev pub line_capacity : ℕ
line_capacity = 512

abbrev pub eexist : ℕ
eexist = 17

-- What the kernel says of the host: the lines of /proc/cpuinfo, and the release of uname.
pub record Host : Type 0 where
  pub cpuinfo : Option (List (List ℕ))
  pub release : Option (List ℕ)

pub record Signature : Type 0 where
  pub cpu_model : List ℕ
  pub microcode : List ℕ
  pub kernel_version : List ℕ

unfoldable pub drop_blanks : List ℕ → List ℕ
drop_blanks [] = []
drop_blanks (c ∷ cs) = if c == 32 || c == 9 then drop_blanks cs else c ∷ cs

-- The value behind the colon, cut to its buffer.
unfoldable pub behind_colon : (value_capacity : ℕ) → List ℕ → Option (List ℕ)
behind_colon value_capacity [] = none
behind_colon value_capacity (c ∷ cs) =
    if c == 58 then some (take (value_capacity - 1) (drop_blanks cs)) else none

module _ (core : CoreLibrary) where
  unfoldable pub cpuinfo_line :
      (field_name : List ℕ) (value_capacity : ℕ) → List ℕ → Option (List ℕ)
  cpuinfo_line field_name value_capacity line =
      if ltb (length line) (length field_name)
      then none
      else if core.equal_bytes line field_name (length field_name)
      then behind_colon value_capacity (drop_blanks (drop (length field_name) line))
      else none

  -- The first line that gives a value.
  unfoldable pub cpuinfo_lines :
      (field_name : List ℕ) (value_capacity : ℕ) → List (List ℕ) → Option (List ℕ)
  cpuinfo_lines field_name value_capacity [] = none
  cpuinfo_lines field_name value_capacity (line ∷ lines) =
      elim (cpuinfo_line field_name value_capacity line) [
        | none ↦ cpuinfo_lines field_name value_capacity lines
        | some value ↦ some value
      ]

  unfoldable pub read_cpuinfo_field :
      Option (List (List ℕ)) → (field_name : List ℕ) (value_capacity : ℕ) → Option (List ℕ)
  read_cpuinfo_field none field_name value_capacity = none
  read_cpuinfo_field (some lines) field_name value_capacity =
      cpuinfo_lines field_name value_capacity lines

  abbrev pub or_empty : Option (List ℕ) → List ℕ
  or_empty none = []
  or_empty (some value) = value

  unfoldable pub read_host_signature : Host → Option Signature
  read_host_signature host = do
    model ← read_cpuinfo_field host.cpuinfo (codes "model name") signature_capacity
    release ← host.release
    some (record {
      cpu_model = model;
      microcode = or_empty (read_cpuinfo_field host.cpuinfo (codes "microcode") signature_capacity);
      kernel_version = take (signature_capacity - 1) release;
    })

  -- The line in front of its first `=` and behind it.
  unfoldable pub split_at_equals : List ℕ → Option (List ℕ × List ℕ)
  split_at_equals [] = none
  split_at_equals (c ∷ cs) =
      if c == 61
      then some ([], cs)
      else (do (key, value) ← split_at_equals cs; some (c ∷ key, value))

  module _ (float : FloatLibrary) (parse_double : List ℕ → Option float.Double) where
    -- What the lines have given so far. A speed is `none` unless its last line could be parsed.
    pub record CacheFields : Type 0 where
      pub signature : Signature
      pub xxh3 : Option float.Double
      pub xxh128 : Option float.Double
      pub sha256 : Option float.Double
      pub memory_bandwidth : Option float.Double
      pub parallel_startup : Option float.Double
      pub per_file_cost : Option float.Double

    abbrev pub no_fields : CacheFields
    no_fields = record {
      signature = record { cpu_model = []; microcode = []; kernel_version = [] };
      xxh3 = none;
      xxh128 = none;
      sha256 = none;
      memory_bandwidth = none;
      parallel_startup = none;
      per_file_cost = none;
    }

    abbrev pub cut_value : List ℕ → List ℕ
    cut_value value =
        take
          (if ltb signature_capacity (length value + 1)
            then signature_capacity - 1
            else length value)
          value

    -- `same` is the comparison of strings.
    unfoldable pub store_field :
        (same : List ℕ → List ℕ → Bool) → (key value : List ℕ) → CacheFields → CacheFields
    store_field same key value f =
        if same key (codes "cpu_model")
        then record f { signature = record f.signature { cpu_model = cut_value value } }
        else if same key (codes "microcode")
        then record f { signature = record f.signature { microcode = cut_value value } }
        else if same key (codes "kernel_version")
        then record f { signature = record f.signature { kernel_version = cut_value value } }
        else if same key (codes "xxh3_gbps")
        then record f { xxh3 = parse_double value }
        else if same key (codes "xxh128_gbps")
        then record f { xxh128 = parse_double value }
        else if same key (codes "sha256_gbps")
        then record f { sha256 = parse_double value }
        else if same key (codes "mem_bw_gbps")
        then record f { memory_bandwidth = parse_double value }
        else if same key (codes "parallel_startup_us")
        then record f { parallel_startup = parse_double value }
        else if same key (codes "per_file_cost_us")
        then record f { per_file_cost = parse_double value }
        else f

    unfoldable pub load_line : List ℕ → CacheFields → CacheFields
    load_line line f = if leb line_capacity (length line) then f else elim (split_at_equals line) [
      | none ↦ f
      | some p ↦ store_field (strings_equal core) p.0 p.1 f
    ]

    unfoldable pub load_lines : List (List ℕ) → CacheFields → CacheFields
    load_lines [] f = f
    load_lines (line ∷ lines) f = load_lines lines (load_line line f)

    unfoldable pub same_signature : Signature → Signature → Bool
    same_signature cached current =
        strings_equal core cached.cpu_model current.cpu_model
        && (strings_equal core cached.microcode current.microcode
            && strings_equal core cached.kernel_version current.kernel_version)

    unfoldable pub constants_of : CacheFields → Option (ThroughputConstants float)
    constants_of f = do
      xxh3 ← f.xxh3
      xxh128 ← f.xxh128
      sha256 ← f.sha256
      memory_bandwidth ← f.memory_bandwidth
      parallel_startup ← f.parallel_startup
      per_file_cost ← f.per_file_cost
      some (record {
        xxh3_gigabytes_per_second = xxh3;
        xxh128_gigabytes_per_second = xxh128;
        sha256_gigabytes_per_second = sha256;
        memory_bandwidth_gigabytes_per_second = memory_bandwidth;
        parallel_startup_overhead_microseconds = parallel_startup;
        per_file_cost_warm_microseconds = per_file_cost;
      })

    -- `lines`: what the cache file holds, if it can be read.
    unfoldable pub load :
        Host → (lines : Option (List (List ℕ))) → Option (ThroughputConstants float)
    load host lines = do
      l ← lines
      let f = load_lines l no_fields
      constants ← constants_of f
      current ← read_host_signature host
      if same_signature f.signature current then some constants else none
