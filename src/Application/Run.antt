-- ===== src/Application/Run.antt =====
-- src/bc_duplicate_main.c, bc_duplicate_application_run: discovery, stages, statistics and output.
-- What is written to standard error is left out, and so are freeing and closing.
pub mod Correct
use bc_duplicate.Prelude.{
  ℕ, zero, suc, ◌+◌, ◌-◌, ◌*◌, ◌%◌, Bool, true, false, not, List, [], ◌∷◌, Option, none, some,
  length, leb, ◌==◌, if◌then◌else◌,
}
use bc_duplicate.Types.{Entry, Statistics, OutputFormat, OutputDestination, Command}
use bc_duplicate.Outcome.{Outcome, done, out_of_memory, out_of_bounds, ◌>>=◌}
use bc_duplicate.Cli.{CliOptions}
use bc_duplicate.Totals.{size_range, totals}
use bc_duplicate.Output.Simple.{summary_write}
use bc_duplicate.Output.Groups.{simple_write, json_write}
use bc_duplicate.Discovery.{WalkError}
use bc_duplicate.Application.{RunEnvironment}
use bc_duplicate.Application.Stages.{Found, StagesEnd, find_duplicates}

-- sizeof(bc_duplicate_file_entry_t)
abbrev pub entry_bytes : ℕ
entry_bytes = 96

-- What a discovery leaves: entries, errors, and whether it succeeded.
abbrev pub Discovered : Type 0
Discovered = (List Entry × List WalkError) × Bool

-- What stands in the output at the end: nothing, and an output file is not opened; what is left of a
-- report that failed, in a file that was emptied for it; or the whole report.
pub data Written (W : Type 0) : Type 0 where
  nothing : Written W
  incomplete : Written W
  complete : W → Written W

module _ (env : RunEnvironment) where
  -- How a run ends: the exit code, the result of the callback, and what was written.
  pub record RunEnd : Type 0 where
    pub exit_code : ℕ
    pub returned : Bool
    pub written : Written env.output.Writer

  abbrev pub quits : (exit_code : ℕ) (returned : Bool) → RunEnd
  quits exit_code returned = record {
    exit_code = exit_code;
    returned = returned;
    written = Written.nothing;
  }

  module _ (options : CliOptions) where
    unfoldable pub statistics_of : (entry_count : ℕ) → Found → Statistics
    statistics_of entry_count f =
        let (duplicate_file_count, wasted_bytes) = totals f.final_groups in
        record {
          files_scanned = entry_count;
          directories_scanned = 0;
          files_skipped = 0;
          hardlinks_collapsed = f.hardlinks_collapsed;
          size_candidate_count = f.size_candidate_count;
          files_hashed_fast = f.fast_files_hashed;
          files_hashed_full = f.full_files_hashed;
          duplicate_group_count = length f.final_groups;
          duplicate_file_count = duplicate_file_count;
          wasted_bytes = wasted_bytes;
          wall_ms = (env.ended_at_ms + (size_range - env.started_at_ms)) % size_range;
        }

    -- `none`: the output file cannot be opened.
    unfoldable pub choose_format : Command → OutputDestination → Option OutputFormat
    choose_format Command.summary destination = some OutputFormat.simple
    choose_format Command.scan OutputDestination.file =
        if env.opens_output then some OutputFormat.json else none
    choose_format Command.scan OutputDestination.auto =
        some (if env.stdout_is_terminal then OutputFormat.simple else OutputFormat.json)
    choose_format Command.scan OutputDestination.stdout = some OutputFormat.simple

    unfoldable pub write_groups_as :
        OutputFormat → Found → Statistics → env.output.Writer → Outcome (Option env.output.Writer)
    write_groups_as OutputFormat.json f statistics w =
        json_write env.output options.algorithm f.entries f.final_groups statistics w
    write_groups_as OutputFormat.simple f statistics w =
        simple_write env.output f.entries f.final_groups w

    unfoldable pub write_as :
        Command
        → OutputFormat
        → Found
        → Statistics
        → env.output.Writer
        → Outcome (Option env.output.Writer)
    write_as Command.summary format f statistics w = done (summary_write env.output statistics w)
    write_as Command.scan format f statistics w = write_groups_as format f statistics w

    -- The writer, if all of the output went through it and out of it.
    unfoldable pub write_result :
        OutputFormat → Found → Statistics → Outcome (Option env.output.Writer)
    write_result format f statistics = elim env.output_writer [
      | none ↦ done none
      | some w ↦ do
        r ← write_as options.command format f statistics w
        done (elim r [ none ↦ none | some w' ↦ if env.flushes w' then some w' else none ])
    ]

    abbrev pub reported : Option env.output.Writer → RunEnd
    reported none = record { exit_code = 1; returned = true; written = Written.incomplete }
    reported (some w) = record { exit_code = 0; returned = true; written = Written.complete w }

    unfoldable pub report : (entry_count : ℕ) → Found → Outcome RunEnd
    report entry_count f = elim (choose_format options.command options.output_destination_mode) [
      | none ↦ done (quits 1 false)
      | some format ↦ do r ← write_result format f (statistics_of entry_count f); done (reported r)
    ]

    unfoldable pub end_of_stages : (entry_count : ℕ) → StagesEnd → Outcome RunEnd
    end_of_stages entry_count StagesEnd.no_size_groups = done (quits 0 true)
    end_of_stages entry_count (StagesEnd.found f) = report entry_count f

    -- A stage that fails makes the run fail; an access out of bounds stays one.
    unfoldable pub finish : (entry_count : ℕ) → Outcome (Option StagesEnd) → Outcome (Option RunEnd)
    finish entry_count (done none) = done none
    finish entry_count (done (some e)) = do r ← end_of_stages entry_count e; done (some r)
    finish entry_count out_of_memory = done (some (quits 1 false))
    finish entry_count out_of_bounds = out_of_bounds

    -- From the entries on, which are copied to an array of their number.
    unfoldable pub run_stages : List Entry → List WalkError → Outcome (Option RunEnd)
    run_stages entries errors =
        if length entries == 0
        then done (some (quits (if length errors == 0 then 0 else 1) true))
        else if env.grant (length entries * entry_bytes)
        then finish (length entries) (find_duplicates env options entries)
        else done (some (quits 1 false))

    unfoldable pub after_discovery : Option Discovered → Outcome (Option RunEnd)
    after_discovery none = done none
    after_discovery (some ((entries, errors), discovery_ok)) =
        if discovery_ok
        then (if env.interrupted then done (some (quits 130 false)) else run_stages entries errors)
        else done (some (quits 1 false))

    -- `discover` is the walk, on many threads or on one.
    unfoldable pub application_run :
        (discover : (parallel : Bool) → Option Discovered) → Outcome (Option RunEnd)
    application_run discover =
        if env.has_memory
        then (if env.has_threads
            then after_discovery (discover (leb 2 env.effective_worker_count))
            else done (some (quits 1 false)))
        else done (some (quits 1 false))
