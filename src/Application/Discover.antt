-- ===== src/Application/Discover.antt =====
-- src/bc_duplicate_main.c, bc_duplicate_application_run: the discovery of a run, on one thread or on
-- many. `none` is a walk on one thread that has used up its fuel.
use bc_duplicate.Prelude.{ℕ, Bool, [], Option, some, if◌then◌else◌}
use bc_duplicate.Core.{CoreLibrary}
use bc_duplicate.Cli.{CliOptions}
use bc_duplicate.Filter.{Filter}
use bc_duplicate.Discovery.{DiscoveryOptions, Environment}
use bc_duplicate.Discovery.Serial.{expand}
use bc_duplicate.Discovery.Parallel.{WalkLibrary, expand_parallel}
use bc_duplicate.Application.Run.{Discovered}

abbrev pub discovery_options : CliOptions → DiscoveryOptions
discovery_options options = record {
  include_hidden = options.include_hidden;
  follow_symlinks = options.follow_symlinks;
  one_file_system = options.one_file_system;
  minimum_file_size = options.minimum_file_size;
}

module _ (env : Environment) (lib : WalkLibrary) (core : CoreLibrary) (filter : Option Filter)
    (options : CliOptions) where
  unfoldable pub discover : (fuel : ℕ) (parallel : Bool) → Option Discovered
  discover fuel parallel =
      let paths = options.positional_argument_values in
      let o = discovery_options options in
      if parallel
      then some (expand_parallel env lib filter o [] [] paths)
      else expand env filter o fuel core [] [] paths
