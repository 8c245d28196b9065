-- ===== src/Application/Run/Correct.antt =====
-- How a run ends, and what it has written by then.
use bc_duplicate.Prelude.{◌≡◌, ◌⊎◌, true, List, some, length}
use bc_duplicate.Types.{Entry, OutputFormat}
use bc_duplicate.Outcome.{Outcome, done}
use bc_duplicate.Cli.{CliOptions}
use bc_duplicate.Discovery.{WalkError}
use bc_duplicate.Application.{RunEnvironment}
use bc_duplicate.Application.Stages.{Found, StagesEnd}
use bc_duplicate.Application.Stages.Correct.{IsEnd}
use bc_duplicate.Application.Run.{Written, RunEnd, statistics_of, choose_format, write_result}

module _ (env : RunEnvironment) (options : CliOptions) (entries : List Entry)
    (errors : List WalkError) where
  -- The run succeeds without output: there was nothing to look for, or no two files have one size.
  abbrev IsQuiet : RunEnd env → Type 0
  IsQuiet e =
      (e.exit_code ≡ 0)
      × (e.written ≡ Written.nothing)
      × (((length entries ≡ 0) × (length errors ≡ 0))
          ⊎ IsEnd env options entries StagesEnd.no_size_groups)

  -- The run succeeds, and has written a report of groups of duplicates.
  abbrev IsReported : RunEnd env → Type 0
  IsReported e =
      (e.exit_code ≡ 0)
      × ((f : Found) × (format : OutputFormat) × (choose_format env options options.command
              options.output_destination_mode
            ≡ some format)
          × ((w : env.output.Writer) × (e.written ≡ Written.complete w)
              × (write_result env options format f (statistics_of env options (length entries) f)
                  ≡ done (some w)))
          × IsEnd env options entries (StagesEnd.found f))

  -- The run fails, and there is no whole report: nothing is written, or what was written is no report.
  abbrev IsFailed : RunEnd env → Type 0
  IsFailed e =
      (e.exit_code ≡ 1) × ((e.written ≡ Written.nothing) ⊎ (e.written ≡ Written.incomplete))

  -- The signal to stop came during the discovery.
  abbrev pub IsInterrupted : RunEnd env → Type 0
  IsInterrupted e = (e.exit_code ≡ 130) × (e.written ≡ Written.nothing) × (env.interrupted ≡ true)

  abbrev pub IsFinished : RunEnd env → Type 0
  IsFinished e = IsQuiet e ⊎ IsReported e ⊎ IsFailed e
