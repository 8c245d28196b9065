-- ===== src/Cli.antt =====
-- src/cli/bc_duplicate_cli_spec.c: from the values that the command-line parser stored to the
-- options of a run. The store, the writer into a buffer and the decimal parser belong to other
-- libraries and are parameters.
pub mod Bind
pub mod Options
use bc_duplicate.Prelude.{
  ℕ, ◌+◌, ◌-◌, ◌≤◌, ◌≡◌, Bool, true, false, List, [], ◌∷◌, ◌++◌, Option, none, some, length, ltb,
  ◌==◌, if◌then◌else◌,
}
use bc_duplicate.Chain.{◌>>=◌}
use bc_duplicate.Types.{Algorithm, ThreadsMode, OutputDestination, Command}
use bc_duplicate.Core.{CoreLibrary}
use bc_duplicate.Text.{codes, strings_equal}

pub record CliOptions : Type 0 where
  pub command : Command
  pub algorithm : Algorithm
  pub threads_mode : ThreadsMode
  pub explicit_worker_count : ℕ
  pub minimum_file_size : ℕ
  pub output_destination_mode : OutputDestination
  pub output_destination_path : Option (List ℕ)
  pub include_list : Option (List ℕ)
  pub exclude_list : Option (List ℕ)
  pub include_hidden : Bool
  pub follow_symlinks : Bool
  pub match_hardlinks : Bool
  pub one_file_system : Bool
  pub positional_argument_values : List (List ℕ)

-- What the binding calls in the runtime and core libraries.
pub record CliLibrary : Type 0 where
  -- `bc_runtime_config_store_get_string` and `..._get_boolean`.
  pub get_string : List ℕ → Option (List ℕ)
  pub get_boolean : List ℕ → Option Bool
  -- A writer over a buffer of `room` bytes: what it holds after both writes, if they succeed.
  pub write_two : (room : ℕ) → List ℕ → List ℕ → Option (List ℕ)
  pub write_two_fits :
      (room : ℕ) (a b : List ℕ) → length a + length b ≤ room → write_two room a b ≡ some (a ++ b)
  -- `bc_core_parse_unsigned_integer_64_decimal`: the value and the number of bytes consumed.
  pub parse_decimal : List ℕ → Option (ℕ × ℕ)

-- `none` is a refused value or a missing key; the message to standard error is left out.
module _ (core : CoreLibrary) (lib : CliLibrary) where
  open lib use {get_string, get_boolean, write_two, parse_decimal}

  unfoldable pub format_command_key : (capacity : ℕ) → List ℕ → List ℕ → Option (List ℕ)
  format_command_key capacity command_name suffix = write_two (capacity - 1) command_name suffix

  unfoldable pub bind_algorithm : List ℕ → Option Algorithm
  bind_algorithm value =
      if strings_equal core value (codes "xxh3")
      then some Algorithm.xxh3
      else if strings_equal core value (codes "xxh128")
      then some Algorithm.xxh128
      else if strings_equal core value (codes "sha256")
      then some Algorithm.sha256
      else none

  -- The number that the whole text stands for.
  unfoldable pub parse_whole : List ℕ → Option ℕ
  parse_whole value = if length value == 0 then none else (do
    (parsed_value, consumed) ← parse_decimal value
    if consumed == length value then some parsed_value else none)

  unfoldable pub bind_threads : List ℕ → Option (ThreadsMode × ℕ)
  bind_threads value =
      if strings_equal core value (codes "mono")
      then some (ThreadsMode.mono, 0)
      else if strings_equal core value (codes "auto")
      then some (ThreadsMode.auto, 0)
      else if strings_equal core value (codes "io")
      then some (ThreadsMode.io, 0)
      else (do
        n ← parse_whole value
        if n == 0 then some (ThreadsMode.mono, 0) else some (ThreadsMode.explicit, n))

  unfoldable pub bind_output : List ℕ → Option (OutputDestination × Option (List ℕ))
  bind_output value =
      if strings_equal core value (codes "auto")
      then some (OutputDestination.auto, none)
      else if strings_equal core value (codes "-")
      then some (OutputDestination.stdout, none)
      else if length value == 0
      then none
      else some (OutputDestination.file, some value)

  unfoldable pub bind_minimum_size : List ℕ → Option ℕ
  bind_minimum_size value = parse_whole value

  unfoldable pub bind_global_threads : Option (ThreadsMode × ℕ)
  bind_global_threads = do value ← get_string (codes "global.threads"); bind_threads value

  abbrev pub flag : Option Bool → Bool
  flag none = false
  flag (some b) = b

  -- The options that both commands share, written over those bound so far. The key buffer has 128
  -- bytes.
  unfoldable pub bind_command_options : List ℕ → CliOptions → Option CliOptions
  bind_command_options name o = do
    algorithm_key ← format_command_key 128 name (codes ".algorithm")
    algorithm_value ← get_string algorithm_key
    algorithm ← bind_algorithm algorithm_value
    size_key ← format_command_key 128 name (codes ".minimum-size")
    size_value ← get_string size_key
    minimum_file_size ← bind_minimum_size size_value
    include_key ← format_command_key 128 name (codes ".include")
    exclude_key ← format_command_key 128 name (codes ".exclude")
    hidden_key ← format_command_key 128 name (codes ".hidden")
    follow_key ← format_command_key 128 name (codes ".follow-symlinks")
    match_key ← format_command_key 128 name (codes ".match-hardlinks")
    one_key ← format_command_key 128 name (codes ".one-file-system")
    some (record o {
      algorithm = algorithm;
      minimum_file_size = minimum_file_size;
      include_list = get_string include_key;
      exclude_list = get_string exclude_key;
      include_hidden = flag (get_boolean hidden_key);
      follow_symlinks = flag (get_boolean follow_key);
      match_hardlinks = flag (get_boolean match_key);
      one_file_system = flag (get_boolean one_key);
    })

  -- The structure as `bc_core_zero` leaves it, with the threads and the command bound.
  abbrev pub cleared : Command → ThreadsMode × ℕ → CliOptions
  cleared command threads = record {
    command = command;
    algorithm = Algorithm.xxh3;
    threads_mode = threads.0;
    explicit_worker_count = threads.1;
    minimum_file_size = 0;
    output_destination_mode = OutputDestination.auto;
    output_destination_path = none;
    include_list = none;
    exclude_list = none;
    include_hidden = false;
    follow_symlinks = false;
    match_hardlinks = false;
    one_file_system = false;
    positional_argument_values = [];
  }

  unfoldable pub bind_destination : Command → Option (OutputDestination × Option (List ℕ))
  bind_destination Command.scan = do value ← get_string (codes "scan.output"); bind_output value
  bind_destination Command.summary = some (OutputDestination.stdout, none)

  unfoldable pub bind_command : List ℕ → Option Command
  bind_command name =
      if strings_equal core name (codes "scan")
      then some Command.scan
      else if strings_equal core name (codes "summary")
      then some Command.summary
      else none

  -- `none` for the command: the parser found none.
  unfoldable pub bind_options : Option (List ℕ) → List (List ℕ) → Option CliOptions
  bind_options command_name positional = do
    threads ← bind_global_threads
    name ← command_name
    command ← bind_command name
    o ← bind_command_options name (cleared command threads)
    (mode, path) ← bind_destination command
    some (record o {
      output_destination_mode = mode;
      output_destination_path = path;
      positional_argument_values = positional;
    })
