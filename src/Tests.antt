-- ===== src/Tests.antt =====
-- Runs on small inputs, and each theorem at a concrete input.
mod PlainCore
mod GroupingRuns
mod FilterRuns
mod CliRuns
mod WorkerRuns
mod OutputRuns
mod TotalRuns
mod DigestRuns
mod GlobRuns
mod DiscoveryRuns
mod ApplicationRuns
mod CacheRuns
