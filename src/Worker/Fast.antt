-- ===== src/Worker/Fast.antt =====
-- src/worker/bc_duplicate_worker_fast.c and bc_duplicate_worker_sort.c: the hash of the first and
-- the last block of each candidate. `XXH3_64bits`, the kernel's answers and the stop signal are
-- given.
pub mod Content
pub mod Safe
use Prim.Native.Nat.{bit_xor}
use bc_duplicate.Prelude.{
  ℕ, zero, suc, ◌+◌, ◌-◌, ◌*◌, ◌≡◌, Bool, true, false, List, [], ◌∷◌, ◌++◌, Option, none, some,
  length, get_elem?, set, ltb, leb, ◌==◌, if◌then◌else◌,
}
use bc_duplicate.Types.{Entry, Group, fast_hash_block_size}
use bc_duplicate.Outcome.{Outcome, done, out_of_memory, ◌>>=◌, read_at}
use bc_duplicate.Core.{CoreLibrary}
use bc_duplicate.Worker.Reader.{OpenAnswer, ReadAnswer, open_read_only}

abbrev pub fast_dual_min_file_size : ℕ
fast_dual_min_file_size = fast_hash_block_size * 2

-- sizeof(size_t)
abbrev pub size_bytes : ℕ
size_bytes = 8

-- The kernel's answers for one file: to `open`, and to `pread` of `count` bytes from `offset` on.
pub record FastKernel : Type 0 where
  pub with_noatime : OpenAnswer
  pub without_noatime : OpenAnswer
  pub pread : (count offset : ℕ) → ReadAnswer

abbrev pub with_fast_hash : Entry → (hash errno : ℕ) → Entry
with_fast_hash entry hash errno = record entry {
  fast_hash = hash;
  fast_hash_computed = true;
  fast_hash_errno = errno;
}

module _ (xxh3 : List ℕ → ℕ) where
  -- The hash with the last block of a file that has two blocks or more. A block that could not be
  -- read, or is empty, does not count.
  unfoldable pub add_suffix : ReadAnswer → (hash : ℕ) → ℕ
  add_suffix (ReadAnswer.not_read e) hash = hash
  add_suffix (ReadAnswer.stored block) hash =
      if ltb 0 (length block) then bit_xor hash (xxh3 block) else hash

  unfoldable pub combine_suffix : (pread : (count offset : ℕ) → ReadAnswer) (file_size hash : ℕ) → ℕ
  combine_suffix pread file_size hash =
      if leb fast_dual_min_file_size file_size
      then add_suffix (pread fast_hash_block_size (file_size - fast_hash_block_size)) hash
      else hash

  -- What becomes of the entry with the answer to the read of its first block.
  unfoldable pub hash_prefix :
      (pread : (count offset : ℕ) → ReadAnswer) → ReadAnswer → Entry → Entry
  hash_prefix pread (ReadAnswer.not_read e) entry = with_fast_hash entry 0 e
  hash_prefix pread (ReadAnswer.stored block) entry =
      with_fast_hash entry (combine_suffix pread entry.file_size (xxh3 block)) 0

  unfoldable pub fast_iteration : (should_stop : Bool) → FastKernel → Entry → Entry
  fast_iteration true kernel entry = entry
  fast_iteration false kernel entry =
      elim (open_read_only kernel.with_noatime kernel.without_noatime) [
        | OpenAnswer.not_opened e ↦ with_fast_hash entry 0 e
        | OpenAnswer.opened ↦ hash_prefix kernel.pread (kernel.pread fast_hash_block_size 0) entry
      ]

abbrev pub total_entries : List Group → ℕ
total_entries [] = 0
total_entries (g ∷ groups) = g.entry_count + total_entries groups

abbrev pub indices_of : (count start : ℕ) → List ℕ
indices_of zero start = []
indices_of (suc count) start = start ∷ indices_of count (start + 1)

-- The candidates: the entries of the groups, one group behind the other.
unfoldable pub candidate_indices : List Group → List ℕ
candidate_indices [] = []
candidate_indices (g ∷ groups) = indices_of g.entry_count g.start_index ++ candidate_indices groups

abbrev pub size_at : List Entry → ℕ → ℕ
size_at entries i = elim (get_elem? entries i) [ none ↦ 0 | some e ↦ e.file_size ]

unfoldable pub sort_indices_less_than : List Entry → ℕ → ℕ → Bool
sort_indices_less_than entries left right = ltb (size_at entries right) (size_at entries left)

unfoldable pub sort_indices_by_size_desc : CoreLibrary → List Entry → List ℕ → List ℕ
sort_indices_by_size_desc core entries candidates =
    core.sort ℕ (sort_indices_less_than entries) candidates

module _ (xxh3 : List ℕ → ℕ) (stops : ℕ → Bool) (files : List ℕ → FastKernel) where
  -- The iterations in the order in which they are run; `stops` tells whether the signal stands at
  -- an iteration.
  unfoldable pub run_iterations :
      (order : List ℕ) → (candidates : List ℕ) → List Entry → Outcome (List Entry)
  run_iterations [] candidates entries = done entries
  run_iterations (i ∷ order) candidates entries = do
    index ← read_at candidates i
    entry ← read_at entries index
    run_iterations order candidates
        (set entries index (fast_iteration xxh3 (stops i) (files entry.absolute_path) entry))

  -- The entries, and how many were hashed. `schedule` is the order in which `bc_concurrency_for`
  -- runs that many iterations, or its failure, which the C function reports as it does a refused
  -- request: it returns false.
  unfoldable pub fast_pass :
      CoreLibrary
      → (grant : ℕ → Bool) → (schedule : ℕ → Option (List ℕ)) → List Entry
      → List Group
      → Outcome (List Entry × ℕ)
  fast_pass core grant schedule entries size_groups =
      let total_candidates = total_entries size_groups in
      if total_candidates == 0
      then done (entries, 0)
      else if grant (total_candidates * size_bytes)
      then elim (schedule total_candidates) [
        | none ↦ out_of_memory
        | some order ↦ do
          hashed ←
              run_iterations order
                (sort_indices_by_size_desc core entries (candidate_indices size_groups)) entries
          done (hashed, total_candidates)
      ]
      else out_of_memory
