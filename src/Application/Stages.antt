-- ===== src/Application/Stages.antt =====
-- src/bc_duplicate_main.c, bc_duplicate_application_run: the stages between discovery and output,
-- over one array of entries. `done none` is a pass that asks the kernel for more answers than given.
pub mod Views
pub mod Correct
use bc_duplicate.Prelude.{
  ℕ, ◌+◌, ◌*◌, ◌%◌, Bool, true, false, not, List, [], ◌∷◌, Option, none, some, length, ◌==◌,
  if◌then◌else◌,
}
use bc_duplicate.Types.{Entry, Group, ThreadsMode}
use bc_duplicate.Outcome.{Outcome, done, ◌>>=◌}
use bc_duplicate.Cli.{CliOptions}
use bc_duplicate.Totals.{size_range}
use bc_duplicate.Bench.Dispatch.{should_go_multithread}
use bc_duplicate.Grouping.Size.{SizeGroups, group_by_size}
use bc_duplicate.Grouping.Hash.{group_by_fast_hash, group_by_full_hash}
use bc_duplicate.Worker.Fast.{fast_pass}
use bc_duplicate.Worker.Full.{digest_size}
use bc_duplicate.Worker.Full.Pass.{full_pass}
use bc_duplicate.Application.{RunEnvironment}

-- What the stages hand to the output.
pub record Found : Type 0 where
  pub entries : List Entry
  pub final_groups : List Group
  pub hardlinks_collapsed : ℕ
  pub size_candidate_count : ℕ
  pub fast_files_hashed : ℕ
  pub full_files_hashed : ℕ

pub data StagesEnd : Type 0 where
  -- No two files have the same size: the run ends here.
  no_size_groups : StagesEnd
  found : Found → StagesEnd

-- `full_pass_file_count` and `full_pass_total_bytes`.
unfoldable pub full_pass_totals : List Group → (file_count total_bytes : ℕ) → ℕ × ℕ
full_pass_totals [] file_count total_bytes = (file_count, total_bytes)
full_pass_totals (g ∷ groups) file_count total_bytes =
    full_pass_totals groups ((file_count + g.entry_count) % size_range)
      ((total_bytes + g.entry_count * g.file_size) % size_range)

module _ (env : RunEnvironment) (options : CliOptions) where
  abbrev pub dispatch_single : List Group → Bool
  dispatch_single groups = elim env.throughput [
    | none ↦ false
    | some constants ↦
        let (file_count, total_bytes) = full_pass_totals groups 0 0 in
        not (
          should_go_multithread env.float file_count total_bytes options.algorithm constants
            env.effective_worker_count)
  ]

  -- `full_pass_force_single_thread`
  unfoldable pub force_single_thread : List Group → Bool
  force_single_thread groups = elim options.threads_mode [
    | ThreadsMode.explicit ↦ false
    | ThreadsMode.mono ↦ false
    | ThreadsMode.auto ↦ dispatch_single groups
    | ThreadsMode.io ↦ dispatch_single groups
  ]

  abbrev pub run_fast_pass : List Entry → List Group → Outcome (List Entry × ℕ)
  run_fast_pass =
      fast_pass env.xxh3 env.fast_stops env.fast_files env.core env.grant env.fast_schedule

  abbrev pub run_full_pass : List Entry → List Group → Outcome (Option (List Entry × ℕ))
  run_full_pass entries groups =
      full_pass env.hashes env.full_files env.full_batches env.core env.grant env.full_registers
        env.full_schedule options.algorithm entries groups (force_single_thread groups)

  -- The part under `fast_hash_group_count > 0`: entries, groups and files hashed.
  unfoldable pub compare_contents :
      List Entry → List Group → Outcome (Option ((List Entry × List Group) × ℕ))
  compare_contents entries fast_hash_groups =
      if length fast_hash_groups == 0 then done (some ((entries, []), 0)) else (do
        r ← run_full_pass entries fast_hash_groups
        elim r [
          | none ↦ done none
          | some p ↦ do
            refined ←
                group_by_full_hash env.core env.grant p.0 fast_hash_groups
                  (digest_size options.algorithm)
            done (some (refined, p.1))
        ])

  -- The part behind by_size, if it leaves groups.
  unfoldable pub compare_files : SizeGroups → Outcome (Option StagesEnd)
  compare_files s = do
    fast ← run_fast_pass s.entries s.groups
    f ← group_by_fast_hash env.core env.grant fast.0 s.groups
    r ← compare_contents f.entries f.groups
    elim r [
      | none ↦ done none
      | some p ↦ done (
          some (
            StagesEnd.found (record {
              entries = p.0.0;
              final_groups = p.0.1;
              hardlinks_collapsed = s.hardlinks_collapsed;
              size_candidate_count = s.candidate_count;
              fast_files_hashed = fast.1;
              full_files_hashed = p.1;
            })))
    ]

  unfoldable pub find_duplicates : List Entry → Outcome (Option StagesEnd)
  find_duplicates entries = do
    s ← group_by_size env.core env.grant entries options.match_hardlinks
    if length s.groups == 0 then done (some StagesEnd.no_size_groups) else compare_files s
