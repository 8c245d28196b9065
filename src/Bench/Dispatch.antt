-- ===== src/Bench/Dispatch.antt =====
-- src/bench/bc_duplicate_dispatch_decision.c: whether the full pass runs on many threads, and on how
-- many.
use bc_duplicate.Prelude.{
  ℕ, ◌-◌, ◌≤◌, ◌<◌, Bool, true, false, ◌||◌, arith, ltb, leb, ◌==◌, if◌then◌else◌,
}
use bc_duplicate.Types.{Algorithm}
use bc_duplicate.Bench.{FloatLibrary, ThroughputConstants}

module _ (float : FloatLibrary) where
  open float use {Double, of_nat, add, multiply, divide, less, less_equal, ceiling}

  unfoldable pub algorithm_throughput : Algorithm → ThroughputConstants float → Double
  algorithm_throughput Algorithm.xxh3 constants = constants.xxh3_gigabytes_per_second
  algorithm_throughput Algorithm.xxh128 constants = constants.xxh128_gigabytes_per_second
  algorithm_throughput Algorithm.sha256 constants = constants.sha256_gigabytes_per_second

  -- The estimated times on one thread, and on `worker_count` of them.
  unfoldable pub mono_wall : ℕ → ℕ → Algorithm → ThroughputConstants float → Double
  mono_wall file_count total_bytes algorithm constants =
      let bytes_per_microsecond : Double =
        divide (multiply (algorithm_throughput algorithm constants) (of_nat 1000000000))
          (of_nat 1000000) in
      add (multiply (of_nat file_count) constants.per_file_cost_warm_microseconds)
        (divide (of_nat total_bytes) bytes_per_microsecond)

  unfoldable pub multi_wall : ThroughputConstants float → (worker_count : ℕ) → Double → Double
  multi_wall constants worker_count mono =
      add constants.parallel_startup_overhead_microseconds (divide mono (of_nat worker_count))

  unfoldable pub should_go_multithread :
      (file_count total_bytes : ℕ)
      → Algorithm
      → ThroughputConstants float
      → (worker_count : ℕ) → Bool
  should_go_multithread file_count total_bytes algorithm constants worker_count =
      if leb worker_count 1
      then false
      else if file_count == 0
      then false
      else if less_equal (algorithm_throughput algorithm constants) (of_nat 0)
      then true
      else (let mono = mono_wall file_count total_bytes algorithm constants in
          less (multi_wall constants worker_count mono) mono)

  unfoldable pub optimal_worker_count : Double → Double → (physical_core_count : ℕ) → ℕ
  optimal_worker_count single_thread memory_bandwidth physical_core_count =
      let compute_bound = if ltb 1 physical_core_count then physical_core_count - 1 else 1 in
      if less_equal single_thread (of_nat 0) || less_equal memory_bandwidth (of_nat 0)
      then compute_bound
      else (let memory_bound = ceiling (divide memory_bandwidth single_thread) in
          let memory_bound1 = if ltb memory_bound 1 then 1 else memory_bound in
          if ltb memory_bound1 compute_bound then memory_bound1 else compute_bound)

  -- A test between a limit and a number that is cut to it.
  chosen_bounds :
      (unknown : Bool) (n limit : ℕ)
      → 1 ≤ limit
      → (1 ≤ (
          if unknown
          then limit
          else (let n1 = if ltb n 1 then 1 else n in if ltb n1 limit then n1 else limit)))
        × ((if unknown
              then limit
              else (let n1 = if ltb n 1 then 1 else n in if ltb n1 limit then n1 else limit))
            ≤ limit)
  chosen_bounds true n limit h = (h, omega arith)
  chosen_bounds false n limit h = (ground (arith, h), ground (arith, h))

  -- Whatever the measured speeds, there is at least one worker, and of two physical cores or more
  -- one is left over.
  pub optimal_worker_count-bounds :
      (single_thread memory_bandwidth : Double) (physical_core_count : ℕ)
      → (1 ≤ optimal_worker_count single_thread memory_bandwidth physical_core_count)
        × (2 ≤ physical_core_count
            → optimal_worker_count single_thread memory_bandwidth physical_core_count
              < physical_core_count)
  unfolding optimal_worker_count
  optimal_worker_count-bounds single_thread memory_bandwidth physical_core_count =
      let limit = if ltb 1 physical_core_count then physical_core_count - 1 else 1 in
      let positive : 1 ≤ limit = ground arith in
      let bounds =
        chosen_bounds
          (less_equal single_thread (of_nat 0) || less_equal memory_bandwidth (of_nat 0))
          (ceiling (divide memory_bandwidth single_thread)) limit positive in
      let room : 2 ≤ physical_core_count → limit < physical_core_count = λ h. ground (arith, h) in
      (bounds.0, λ h. omega (arith, bounds.1, room h))
