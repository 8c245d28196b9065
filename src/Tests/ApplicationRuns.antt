-- ===== src/Tests/ApplicationRuns.antt =====
-- A run over three files of one size, of which two have the same content, read with `read` and hashed
-- by functions that keep the bytes they are given.
use bc_duplicate.Prelude.{
  ℕ, zero, suc, ◌+◌, ◌*◌, ◌++◌, ◌≤◌, ◌<◌, ◌≡◌, refl, Bool, true, false, List, [], ◌∷◌, Option, none,
  some, arith, length, map, take, drop, ltb, leb, ◌==◌, if◌then◌else◌,
}
use mathlib.Core.Option.{some-injective}
use bc_duplicate.Types.{Entry, Group, Algorithm, ThreadsMode, OutputDestination, Command}
use bc_duplicate.Text.{codes}
use bc_duplicate.Outcome.{done, Meets}
use bc_duplicate.Cli.{CliOptions}
use bc_duplicate.Bench.{FloatLibrary}
use bc_duplicate.Bench.Dispatch.{optimal_worker_count, optimal_worker_count-bounds}
use bc_duplicate.Worker.Reader.{OpenAnswer, ReadAnswer, open_read_only, consume_file, read_loop}
use bc_duplicate.Worker.Ring.{
  Item, fits_in_slot, Result, handle_cqe, handle_operation, handle_openat, handle_read,
  handle_probe, consume_buffer, decode_slot, decode_operation,
}
use bc_duplicate.Worker.Ring.Batch.{
  ChunkKernel, FileKernel, WaitAnswer, has_buffer, wait_loop, replicate, consume_batch, batch_loop,
  drive_chunk, submit_slots, fallback_chunk, needs_fallback, fallback_sync,
}
use bc_duplicate.Worker.Kept.{indices_of-below, without_hashes}
use bc_duplicate.Worker.Fast.{
  FastKernel, indices_of, fast_pass, run_iterations, fast_iteration, hash_prefix, combine_suffix,
  add_suffix, candidate_indices, sort_indices_less_than, sort_indices_by_size_desc,
}
use bc_duplicate.Worker.Fast.Safe.{RunsInRange, fast_pass-Meets}
use bc_duplicate.Worker.Full.{
  ConsumerState, process_batch, make_items, finish_entries, finish_entry, consumer_reset,
  consumer_callback, consumer_finalize, digest_size,
}
use bc_duplicate.Worker.Full.Pass.{
  BatchKernel, full_pass, run_batches, full_iter, full_iter_batch, batch_of, read_range,
  batches_for,
}
use bc_duplicate.Application.{RunEnvironment}
use bc_duplicate.Application.Start.{parallel_config, parallel_config-bounds}
use bc_duplicate.Application.Stages.{
  force_single_thread, full_pass_totals, compare_contents, compare_files, find_duplicates,
}
use bc_duplicate.Application.Run.{
  Discovered, Written, application_run, after_discovery, run_stages, finish, end_of_stages, report,
  write_result, write_as, write_groups_as, choose_format, statistics_of,
}
use bc_duplicate.Grouping.Size.{
  group_by_size, compact, compact_runs, collapse_hardlinks_in_run, collapse_loop,
  size_dev_ino_less_than,
}
use bc_duplicate.Grouping.Buffer.{create_buffer, append_group, grow_if_full, store_group}
use bc_duplicate.Grouping.Runs.{scan_runs}
use bc_duplicate.Grouping.Regroup.{regroup, sort_range}
use bc_duplicate.Grouping.Hash.{
  group_by_fast_hash, group_by_full_hash, fast_hash_less_than, full_hash_less_than,
}
use bc_duplicate.Totals.{totals, total_loop, extra_entries}
use bc_duplicate.Output.Groups.{simple_write, write_paths}
use bc_duplicate.Tests.PlainCore.{plain_core}
use bc_duplicate.Tests.OutputRuns.{list_writer}
use bc_duplicate.Tests.DigestRuns.{keeping, used}

-- Arithmetic on whole numbers stands for that of doubles.
abbrev pub whole_numbers : FloatLibrary
whole_numbers = record {
  Double = ℕ;
  of_nat = λ n. n;
  add = λ a b. a + b;
  multiply = λ a b. a;
  divide = λ a b. a;
  less = ltb;
  less_equal = leb;
  ceiling = λ a. a;
}

abbrev content : List ℕ → List ℕ
content path = elim path [ [] ↦ [] | ◌∷◌ c cs ↦ if c == 99 then 9 ∷ 9 ∷ [] else 7 ∷ 8 ∷ [] ]

abbrev first_byte : List ℕ → ℕ
first_byte [] = 0
first_byte (b ∷ bytes) = b

abbrev fast_file : List ℕ → FastKernel
fast_file path = record {
  with_noatime = OpenAnswer.opened;
  without_noatime = OpenAnswer.opened;
  pread = λ count offset. ReadAnswer.stored (take count (drop offset (content path)));
}

abbrev full_file : List ℕ → FileKernel
full_file path = record {
  with_noatime = OpenAnswer.opened;
  without_noatime = OpenAnswer.opened;
  answers = ReadAnswer.stored (content path) ∷ [];
}

-- The four completions of a slot whose file has two bytes.
abbrev completions : (slot_index : ℕ) → List WaitAnswer
completions slot_index =
    WaitAnswer.arrived (record { user_data = slot_index * 256; result = Result.transferred 0 })
    ∷ WaitAnswer.arrived
        (record { user_data = slot_index * 256 + 1; result = Result.transferred 2 })
    ∷ WaitAnswer.arrived
        (record { user_data = slot_index * 256 + 2; result = Result.transferred 0 })
    ∷ WaitAnswer.arrived
        (record { user_data = slot_index * 256 + 3; result = Result.transferred 0 })
    ∷ []

abbrev completed : (slot_count_used : ℕ) → List WaitAnswer
completed zero = []
completed (suc zero) = completions 0
completed (suc (suc zero)) = completions 0 ++ completions 1
completed (suc (suc (suc n))) = completions 0 ++ (completions 1 ++ completions 2)

-- A kernel that completes the requests of up to three files, each of which holds 7 and 8.
abbrev completing : ChunkKernel
completing = record {
  has_entries = λ n. true;
  submits = true;
  waits = completed;
  slot_buffers = λ n. 7 ∷ 8 ∷ [];
}

abbrev one_batch : ℕ → BatchKernel keeping
one_batch i = record { stops = false; slot = some (replicate 32 used); chunks = completing ∷ [] }

abbrev in_order : ℕ → Option (List ℕ)
in_order n = some (indices_of n 0)

abbrev small_run : RunEnvironment
small_run = record {
  core = plain_core;
  hashes = keeping;
  float = whole_numbers;
  output = list_writer;
  has_memory = true;
  has_threads = true;
  grant = λ n. true;
  effective_worker_count = 1;
  interrupted = false;
  xxh3 = first_byte;
  fast_stops = λ n. false;
  fast_files = fast_file;
  fast_schedule = in_order;
  full_files = full_file;
  full_batches = one_batch;
  full_registers = true;
  full_schedule = in_order;
  throughput = none;
  opens_output = true;
  stdout_is_terminal = true;
  output_writer = some [];
  flushes = λ w. true;
  started_at_ms = 5;
  ended_at_ms = 8;
}

abbrev small_options : CliOptions
small_options = record {
  command = Command.scan;
  algorithm = Algorithm.sha256;
  threads_mode = ThreadsMode.auto;
  explicit_worker_count = 0;
  minimum_file_size = 0;
  output_destination_mode = OutputDestination.auto;
  output_destination_path = none;
  include_list = none;
  exclude_list = none;
  include_hidden = false;
  follow_symlinks = false;
  match_hardlinks = false;
  one_file_system = false;
  positional_argument_values = [];
}

abbrev file : ℕ → List ℕ → Entry
file inode path = record {
  absolute_path = path;
  absolute_path_length = length path;
  file_size = 2;
  device_id = 1;
  inode_number = inode;
  fast_hash = 0;
  full_hash = replicate 32 0;
  fast_hash_computed = false;
  full_hash_computed = false;
  fast_hash_errno = 0;
  full_hash_errno = 0;
}

abbrev three_files : List Entry
three_files = file 1 (codes "a") ∷ file 2 (codes "c") ∷ file 3 (codes "b") ∷ []

abbrev three_found : (parallel : Bool) → Option Discovered
three_found parallel = some ((three_files, []), true)

in_order-RunsInRange : RunsInRange in_order
in_order-RunsInRange n order h = rw (some-injective _ _ h) at (indices_of-below n 0 n (omega arith))

prints_the_two :
    application_run small_run small_options three_found
    ≡ done (
        some
          (record { exit_code = 0; returned = true; written = Written.complete (codes "a\nb\n") }))
unfolding application_run after_discovery run_stages finish end_of_stages report write_result
    write_as write_groups_as choose_format statistics_of find_duplicates compare_files
    compare_contents force_single_thread full_pass_totals group_by_size compact compact_runs
    collapse_hardlinks_in_run collapse_loop size_dev_ino_less_than create_buffer append_group
    grow_if_full store_group scan_runs group_by_fast_hash group_by_full_hash fast_hash_less_than
    full_hash_less_than regroup sort_range fast_pass run_iterations fast_iteration hash_prefix
    combine_suffix add_suffix candidate_indices sort_indices_less_than sort_indices_by_size_desc
    full_pass run_batches full_iter full_iter_batch batch_of read_range batches_for process_batch
    make_items finish_entries finish_entry consumer_reset consumer_callback consumer_finalize
    digest_size consume_batch batch_loop drive_chunk submit_slots fits_in_slot has_buffer wait_loop
    handle_cqe handle_operation handle_openat handle_read handle_probe consume_buffer decode_slot
    decode_operation fallback_chunk needs_fallback fallback_sync consume_file read_loop
    open_read_only totals total_loop extra_entries simple_write write_paths
prints_the_two = refl

abbrev one_group : List Group
one_group = record { start_index = 0; entry_count = 3; file_size = 2 } ∷ []

fast_pass-Meets_example :
    Meets
      (fast_pass first_byte
        (λ n. false)
        fast_file
        plain_core
        (λ n. true)
        in_order
        three_files
        one_group)
      (λ r. map without_hashes r.0 ≡ map without_hashes three_files)
fast_pass-Meets_example =
    fast_pass-Meets first_byte (λ n. false) fast_file plain_core (λ n. true) in_order three_files
      one_group in_order-RunsInRange (omega arith, omega arith)

abbrev one_item : List (Item (ConsumerState keeping))
one_item =
    record {
      absolute_path = codes "a";
      file_size = 2;
      consumer = used;
      success = false;
      errno_value = 0;
    }
    ∷ []

parallel_config-bounds_example :
    (true ≡ true → 7 < 8)
    × (ThreadsMode.explicit ≡ ThreadsMode.explicit → 1 ≤ 8 → 7 + 1 ≡ 8)
    × (ThreadsMode.explicit ≡ ThreadsMode.auto → true ≡ false)
unfolding parallel_config
parallel_config-bounds_example =
    parallel_config-bounds ThreadsMode.explicit 8 8 4
      (record { worker_count_explicit = true; worker_count = 7; allow_oversubscribe = true })
      (omega arith) refl

optimal_worker_count-bounds_example :
    (1 ≤ optimal_worker_count whole_numbers 3 5 8)
    × (2 ≤ 8 → optimal_worker_count whole_numbers 3 5 8 < 8)
optimal_worker_count-bounds_example = optimal_worker_count-bounds whole_numbers 3 5 8
