-- ===== src/Bench.antt =====
-- src/bench: the measured speed of the host, which decides between one thread and many. Doubles are
-- the machine's, so that their arithmetic is a parameter.
pub mod Cache
pub mod Dispatch
use bc_duplicate.Prelude.{ℕ, Bool}

-- `less a b` is `a < b` and `less_equal a b` is `a <= b`; `ceiling` is `(size_t)ceil(a)`.
pub record FloatLibrary : Type 1 where
  pub Double : Type 0
  pub of_nat : ℕ → Double
  pub add : Double → Double → Double
  pub multiply : Double → Double → Double
  pub divide : Double → Double → Double
  pub less : Double → Double → Bool
  pub less_equal : Double → Double → Bool
  pub ceiling : Double → ℕ

pub record ThroughputConstants (float : FloatLibrary) : Type 0 where
  pub xxh3_gigabytes_per_second : float.Double
  pub xxh128_gigabytes_per_second : float.Double
  pub sha256_gigabytes_per_second : float.Double
  pub memory_bandwidth_gigabytes_per_second : float.Double
  pub parallel_startup_overhead_microseconds : float.Double
  pub per_file_cost_warm_microseconds : float.Double
