-- ===== src/Tests/CacheRuns.antt =====
-- A cache file with doubles that are written as one byte.
use bc_duplicate.Prelude.{
  ℕ, ◌+◌, ◌-◌, ◌≡◌, refl, sym, ap, true, Bool-cases, inl, inr, List, [], ◌∷◌, ◌++◌, Option, none,
  some, arith, ◌==◌, if◌then◌else◌,
}
use mathlib.Core.Path.{subst}
use mathlib.Core.Option.{some-injective}
use bc_duplicate.Text.{codes}
use bc_duplicate.Output.Simple.{newline}
use bc_duplicate.Bench.{ThroughputConstants}
use bc_duplicate.Bench.Cache.{
  Host, Signature, drop_blanks, behind_colon, cpuinfo_line, cpuinfo_lines, read_cpuinfo_field,
  read_host_signature, load,
}
use bc_duplicate.Bench.Cache.Store.{
  DoubleWriter, ensure_parent_directory, in_front_of_slash, write_text_line, write_double_line,
  write_cache, store,
}
use bc_duplicate.Bench.Cache.Lines.{is_line, ReadsLines}
use bc_duplicate.Bench.Cache.RoundTrip.{ReadsDoubles, IsPlain, store-load}
use bc_duplicate.Tests.PlainCore.{plain_core}
use bc_duplicate.Tests.OutputRuns.{list_writer}
use bc_duplicate.Tests.ApplicationRuns.{whole_numbers}

abbrev one_byte : DoubleWriter whole_numbers list_writer
one_byte = record {
  decimals = λ n. (n + 48) ∷ [];
  write_double = λ w n. some (w ++ (n + 48) ∷ []);
  write_double_adds = λ w n w' h. sym (some-injective _ _ h);
}

abbrev parse_byte : List ℕ → Option ℕ
parse_byte [] = none
parse_byte (c ∷ cs) = some (c - 48)

one_byte-ReadsDoubles : ReadsDoubles whole_numbers list_writer one_byte parse_byte
one_byte-ReadsDoubles = record {
  rounded = λ n. n;
  parse_back = λ n. ap some (omega arith);
  one_line = λ n. ground arith;
  short = λ n. omega arith;
}

abbrev onto_first : ℕ → List (List ℕ) → List (List ℕ)
onto_first c [] = (c ∷ []) ∷ []
onto_first c (l ∷ ls) = (c ∷ l) ∷ ls

abbrev split_lines : List ℕ → List (List ℕ)
split_lines [] = []
split_lines (c ∷ cs) = if c == newline then [] ∷ split_lines cs else onto_first c (split_lines cs)

first_of_split :
    (line rest : List ℕ)
    → is_line line ≡ true
    → split_lines ((line ++ newline ∷ []) ++ rest) ≡ line ∷ split_lines rest
first_of_split [] rest h = refl
first_of_split (c ∷ line) rest h = elim (Bool-cases (c == newline)) [
  | inl ends ↦ ground (arith, rw ends at h)
  | inr more ↦ rw more (ap (onto_first c) (first_of_split line rest (rw more at h)))
]

split_lines-ReadsLines : ReadsLines split_lines
split_lines-ReadsLines = record {
  at_end = refl;
  first_line = λ line rest h short. first_of_split line rest h;
}

abbrev small_host : Host
small_host = record {
  cpuinfo = some (codes "processor : 0" ∷ codes "model name  : X=1" ∷ []);
  release = some (codes "6.1");
}

abbrev speeds : ThroughputConstants whole_numbers
speeds = record {
  xxh3_gigabytes_per_second = 1;
  xxh128_gigabytes_per_second = 2;
  sha256_gigabytes_per_second = 3;
  memory_bandwidth_gigabytes_per_second = 4;
  parallel_startup_overhead_microseconds = 5;
  per_file_cost_warm_microseconds = 6;
}

abbrev cache_text : List ℕ
cache_text =
    codes
      "cpu_model=X=1\nmicrocode=\nkernel_version=6.1\nxxh3_gbps=1\nxxh128_gbps=2\nsha256_gbps=3\nmem_bw_gbps=4\nparallel_startup_us=5\nper_file_cost_us=6\n"

host-IsPlain : (s : Signature) → read_host_signature plain_core small_host ≡ some s → IsPlain s
unfolding read_host_signature read_cpuinfo_field cpuinfo_lines cpuinfo_line behind_colon drop_blanks
host-IsPlain s h =
    subst IsPlain (some-injective _ _ h)
      (record { model_plain = refl; microcode_plain = refl; kernel_plain = refl })

stores :
    store whole_numbers list_writer one_byte plain_core
      (λ p. 0)
      (λ p. some [])
      (λ w. true)
      small_host
      (codes "/c/t")
      speeds
    ≡ some cache_text
unfolding store ensure_parent_directory in_front_of_slash write_cache write_text_line
    write_double_line read_host_signature read_cpuinfo_field cpuinfo_lines cpuinfo_line behind_colon
    drop_blanks
stores = refl

store-load_example :
    load plain_core whole_numbers parse_byte small_host (some (split_lines cache_text))
    ≡ some speeds
unfolding one_byte-ReadsDoubles
store-load_example =
    store-load whole_numbers list_writer one_byte plain_core parse_byte one_byte-ReadsDoubles
      (λ p. 0) (λ p. some []) (λ w. true) split_lines split_lines-ReadsLines small_host
      (codes "/c/t") speeds cache_text (λ w h. sym (some-injective _ _ h)) host-IsPlain stores
