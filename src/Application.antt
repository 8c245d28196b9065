-- ===== src/Application.antt =====
-- src/bc_duplicate_main.c: how a run is put together. `RunEnvironment` is what a run asks of other
-- libraries and of the kernel.
pub mod Start
pub mod Stages
pub mod Run
pub mod Discover
use bc_duplicate.Prelude.{ℕ, Bool, List, Option}
use bc_duplicate.Core.{CoreLibrary}
use bc_duplicate.Output.{WriterLibrary}
use bc_duplicate.Bench.{FloatLibrary, ThroughputConstants}
use bc_duplicate.Worker.Ring.Batch.{FileKernel}
use bc_duplicate.Worker.Fast.{FastKernel}
use bc_duplicate.Worker.Full.{HashLibrary}
use bc_duplicate.Worker.Full.Pass.{BatchKernel}

pub record RunEnvironment : Type 1 where
  pub core : CoreLibrary
  pub hashes : HashLibrary
  pub float : FloatLibrary
  pub output : WriterLibrary
  -- Whether the runtime has its memory and its thread context.
  pub has_memory : Bool
  pub has_threads : Bool
  -- Which requests the pool grants.
  pub grant : ℕ → Bool
  pub effective_worker_count : ℕ
  -- `bc_runtime_should_stop` behind the discovery.
  pub interrupted : Bool
  -- What the two passes find: see Worker.Fast and Worker.Full.Pass.
  pub xxh3 : List ℕ → ℕ
  pub fast_stops : ℕ → Bool
  pub fast_files : List ℕ → FastKernel
  pub fast_schedule : ℕ → Option (List ℕ)
  pub full_files : List ℕ → FileKernel
  pub full_batches : ℕ → BatchKernel hashes
  pub full_registers : Bool
  pub full_schedule : ℕ → Option (List ℕ)
  -- `bc_duplicate_throughput_get_or_measure`
  pub throughput : Option (ThroughputConstants float)
  -- Whether the output file can be opened, standard output is a terminal, the writer for either can
  -- be had, and the last of it can be flushed.
  pub opens_output : Bool
  pub stdout_is_terminal : Bool
  pub output_writer : Option output.Writer
  pub flushes : output.Writer → Bool
  -- The clock at the start and behind the stages.
  pub started_at_ms : ℕ
  pub ended_at_ms : ℕ
