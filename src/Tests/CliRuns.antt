-- ===== src/Tests/CliRuns.antt =====
-- The binding of the options of one scan, over a store that is an association list.
use bc_duplicate.Prelude.{
  ℕ, ◌+◌, ◌-◌, ◌≤◌, ◌≡◌, refl, true, false, List, [], ◌∷◌, ◌++◌, Option, none, some, arith, length,
  length-append, leb, if◌then◌else◌,
}
use bc_duplicate.Types.{Algorithm, ThreadsMode, OutputDestination, Command}
use bc_duplicate.Text.{codes, strings_equal}
use bc_duplicate.Cli.{
  CliOptions, CliLibrary, bind_threads, bind_options, parse_whole, bind_algorithm, bind_output,
  bind_minimum_size, bind_global_threads, bind_command_options, bind_destination, bind_command,
  format_command_key,
}
use bc_duplicate.Cli.Bind.{MeansThreads, bind_threads-MeansThreads}
use bc_duplicate.Cli.Options.{IsBound, bind_options-IsBound}
use bc_duplicate.Tests.PlainCore.{plain_core}

abbrev lookup : List (List ℕ × List ℕ) → List ℕ → Option (List ℕ)
lookup [] key = none
lookup ((k, v) ∷ rest) key =
    let found = lookup rest key in if strings_equal plain_core k key then some v else found

abbrev stored : List (List ℕ × List ℕ)
stored =
    (codes "global.threads", codes "8")
    ∷ (codes "scan.algorithm", codes "sha256")
    ∷ (codes "scan.minimum-size", codes "1")
    ∷ (codes "scan.output", codes "-")
    ∷ []

abbrev one_digit : List ℕ → Option (ℕ × ℕ)
one_digit [] = none
one_digit (c ∷ cs) = some (c - 48, 1)

abbrev room_for : ℕ → List ℕ → Option (List ℕ)
room_for room l = if leb (length l) room then some l else none

room_for-fits :
    (room : ℕ) (a b : List ℕ) → length a + length b ≤ room → room_for room (a ++ b) ≡ some (a ++ b)
room_for-fits room a b h =
    let fits : leb (length (a ++ b)) room ≡ true = ground (arith, h, length-append a b) in
    rw fits refl

abbrev plain_cli : CliLibrary
plain_cli = record {
  get_string = lookup stored;
  get_boolean = λ key. none;
  write_two = λ room a b. room_for room (a ++ b);
  write_two_fits = room_for-fits;
  parse_decimal = one_digit;
}

bind_threads-MeansThreads_example :
    MeansThreads plain_core plain_cli (codes "8") (ThreadsMode.explicit, 8)
unfolding bind_threads parse_whole strings_equal
bind_threads-MeansThreads_example =
    bind_threads-MeansThreads plain_core plain_cli (codes "8") (ThreadsMode.explicit, 8) refl

abbrev options : CliOptions
options = record {
  command = Command.scan;
  algorithm = Algorithm.sha256;
  threads_mode = ThreadsMode.explicit;
  explicit_worker_count = 8;
  minimum_file_size = 1;
  output_destination_mode = OutputDestination.stdout;
  output_destination_path = none;
  include_list = none;
  exclude_list = none;
  include_hidden = false;
  follow_symlinks = false;
  match_hardlinks = false;
  one_file_system = false;
  positional_argument_values = codes "/srv" ∷ [];
}

bind_options-IsBound_example :
    IsBound plain_core plain_cli (codes "scan") (codes "/srv" ∷ []) options
unfolding bind_options bind_threads parse_whole bind_algorithm bind_output bind_minimum_size
    bind_global_threads bind_command_options bind_destination bind_command format_command_key
    strings_equal
bind_options-IsBound_example =
    bind_options-IsBound plain_core plain_cli (codes "scan") (codes "/srv" ∷ []) options refl
