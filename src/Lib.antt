-- ===== src/Lib.antt =====
-- bc-duplicate finds files with the same content. It walks the given directories (src/discovery),
-- keeping the files whose basenames the filter accepts (src/filter); groups the files by size; hashes
-- the first and last block of each candidate (src/worker/bc_duplicate_worker_fast.c) and groups by
-- that hash; hashes the whole content of what is left (bc_duplicate_worker_full.c, which reads through
-- io_uring or with read) and groups by the digest; and writes the groups (src/output).
-- src/bc_duplicate_main.c runs these stages one after another, over one array of entries: a stage
-- rearranges the entries within the groups of the stage before, and hands on groups that are ranges of
-- the array.
--
-- Where each part is modelled:
--   Types        include/internal/bc_duplicate_types_internal.h: entries, groups, enumerations
--   Outcome      how a call ends: with a result, a refused allocation, or an access out of bounds
--   Chain        calls that fail by returning false
--   Core         the sort, copy and comparison of the bc-core library, as a record of laws
--   Text         include/internal/bc_duplicate_strings_internal.h
--   Grouping     src/grouping: Buffer is the growing array of groups, Runs the scan for runs that all
--                three functions share, Size is ..._by_size.c with the collapse of hard links, Regroup
--                the loop that ..._by_fast_hash.c and ..._by_full_hash.c share, Hash the two of them
--   Filter       src/filter/bc_duplicate_filter.c
--   Cli          src/cli/bc_duplicate_cli_spec.c: the binding of option values
--   Worker       src/worker: Reader is ..._reader.c, Ring ..._batch_uring.c (Ring/Batch its chunks and
--                second tries), Fast ..._fast.c and ..._sort.c, Full ..._full.c
--   Output       src/output: Simple and Json, and Groups the groups of both
--   Glob         src/discovery/bc_duplicate_discovery_glob.c
--   Discovery    src/discovery: Serial is bc_duplicate_discovery_walk.c, the walk on one thread, and
--                Parallel is bc_duplicate_discovery_walk_parallel.c around the walk of bc-io
--   Bench        src/bench: Dispatch is bc_duplicate_dispatch_decision.c, Cache is
--                bc_duplicate_throughput_cache.c (Cache/Store its writing, Cache/RoundTrip both)
--   Totals       the sums over the final groups in bc_duplicate_application_run
--   Application  src/bc_duplicate_main.c: Start is main and init, Discover the choice of the discovery,
--                Stages the stages between discovery and output, Run the whole of bc_duplicate_application_run
--   Tests        runs on small inputs, and each theorem at a concrete input
--   Prelude, Arrays and Permutation hold what the others share.
--
-- Functions keep the names of the C functions without the prefix bc_duplicate_ and the name of the
-- file. An array is a list, a C string the list of its bytes, an out-parameter part of the result;
-- size_t is written out modulo 2^64 where the code adds up (Totals) or subtracts an offset
-- (Worker/Full/Pass), and is a natural number where it counts entries of an array in memory.
--
-- Fuel: the scan for runs and the collapse of links take at least one entry in a round, and get as
-- much fuel as there are entries; their theorems have no hypothesis on fuel. Loops on the kernel take
-- its answers from a list, and end with none where the list is used up. The walk of directories takes
-- one unit of fuel for each directory it is inside of; it enters an inode once only, so that more fuel
-- than the file system has inodes is enough.
--
-- Parameters, since their code is not in the repository: bc-core (sort, copy, compare, writer, decimal
-- parser), the pool allocator (which requests it grants), the option store, fnmatch, xxHash and
-- SHA-256, doubles, the set of inodes and the joining of paths of bc-io, and the kernel (answers of
-- open, read, pread and io_uring, statuses and listings of directories). bc_core_copy is known for
-- ranges that do not overlap; by_size may call it for others, and its theorems say so. What the
-- theorems rely on is written as fields of the records CoreLibrary, CliLibrary, WriterLibrary,
-- InodeLibrary, WalkLibrary and IsIncremental, and as hypotheses.
--
-- Not modelled: the walk of one directory on many threads, which is a call of bc-io, the throughput
-- measurement, messages to standard error, and the release of memory. The file system does not change
-- during a walk.
pub mod Prelude
pub mod Types
pub mod Outcome
pub mod Chain
pub mod Output
pub mod Worker
pub mod Arrays
pub mod Permutation
pub mod Bench
pub mod Core
pub mod Filter
pub mod Text
pub mod Cli
pub mod Grouping
pub mod Totals
pub mod Glob
pub mod Discovery
pub mod Application
mod Tests
