-- ===== src/Worker/Full/Pass.antt =====
-- src/worker/bc_duplicate_worker_full.c: the candidates in batches, one after another or on the
-- threads of the pool. `done none` is a reader that asks the kernel for more answers than given.
pub mod Cover
pub mod Safe
use bc_duplicate.Prelude.{
  ℕ, zero, suc, ◌+◌, ◌-◌, ◌*◌, ◌/◌, ◌^◌, Bool, true, false, List, [], ◌∷◌, Option, none, some,
  length, take, drop, ltb, leb, ◌==◌, if◌then◌else◌,
}
use bc_duplicate.Types.{Algorithm, Entry, Group}
use bc_duplicate.Outcome.{Outcome, done, out_of_memory, out_of_bounds, ◌>>=◌}
use bc_duplicate.Core.{CoreLibrary}
use bc_duplicate.Worker.Ring.Batch.{ChunkKernel, FileKernel}
use bc_duplicate.Worker.Fast.{
  size_bytes, total_entries, candidate_indices, sort_indices_by_size_desc, indices_of,
}
use bc_duplicate.Worker.Full.{HashLibrary, ConsumerState, process_batch}

abbrev pub full_batch_item_capacity : ℕ
full_batch_item_capacity = 32

-- What a batch finds: whether the signal to stop stands, the hash states of its worker's slot, or
-- `none` if the slot could not be set up, and what the kernel does for its chunks.
pub record BatchKernel (lib : HashLibrary) : Type 0 where
  pub stops : Bool
  pub slot : Option (List (ConsumerState lib))
  pub chunks : List ChunkKernel

-- A difference of two numbers of 64 bits wraps around.
abbrev pub size_minus : ℕ → ℕ → ℕ
size_minus a b = if leb b a then a - b else a + 2 ^ 64 - b

-- `count` elements of an array from `start` on.
unfoldable pub read_range : List ℕ → (start count : ℕ) → Outcome (List ℕ)
read_range array start count =
    if leb (start + count) (length array)
    then done (take count (drop start array))
    else out_of_bounds

-- The candidates of batch `iteration_index`, of which there are some.
unfoldable pub batch_of : (candidates : List ℕ) → (iteration_index : ℕ) → Outcome (List ℕ)
batch_of candidates iteration_index =
    let batch_start = iteration_index * full_batch_item_capacity in
    let remaining = size_minus (length candidates) batch_start in
    let batch_count =
      if ltb remaining full_batch_item_capacity then remaining else full_batch_item_capacity in
    read_range candidates batch_start batch_count

-- How many batches there are.
unfoldable pub batches_for : (total_candidates : ℕ) → ℕ
batches_for total_candidates =
    (total_candidates + full_batch_item_capacity - 1) / full_batch_item_capacity

module _ (lib : HashLibrary) (files : List ℕ → FileKernel) (batches : ℕ → BatchKernel lib) where
  -- The candidates of a batch, if it has any.
  unfoldable pub full_iter_batch :
      Algorithm
      → (candidates : List ℕ) → (iteration_index : ℕ) → List Entry
      → List (ConsumerState lib)
      → Outcome (Option (List Entry))
  full_iter_batch algorithm candidates iteration_index entries states =
      let batch_start = iteration_index * full_batch_item_capacity in
      if leb (length candidates) batch_start then done (some entries) else (do
        batch ← batch_of candidates iteration_index
        process_batch lib files (batches iteration_index).chunks algorithm batch states entries)

  -- One iteration: nothing is done behind a signal, or without a slot.
  unfoldable pub full_iter :
      Algorithm
      → (candidates : List ℕ) → (iteration_index : ℕ) → List Entry
      → Outcome (Option (List Entry))
  full_iter algorithm candidates iteration_index entries =
      if (batches iteration_index).stops
      then done (some entries)
      else elim (batches iteration_index).slot [
        | none ↦ done (some entries)
        | some states ↦ full_iter_batch algorithm candidates iteration_index entries states
      ]

  -- The iterations in a given order.
  unfoldable pub run_batches :
      Algorithm
      → (candidates : List ℕ) → (order : List ℕ) → List Entry
      → Outcome (Option (List Entry))
  run_batches algorithm candidates [] entries = done (some entries)
  run_batches algorithm candidates (i ∷ order) entries = do
    r ← full_iter algorithm candidates i entries
    elim r [ none ↦ done none | some entries1 ↦ run_batches algorithm candidates order entries1 ]

  -- The batches in front of the first that finds the signal.
  unfoldable pub until_stop : (order : List ℕ) → List ℕ
  until_stop [] = []
  until_stop (i ∷ order) = let rest = until_stop order in if (batches i).stops then [] else i ∷ rest

  -- The entries, and how many were hashed. A refused request, a slot that cannot be registered and
  -- a failed dispatch all make the C function return false. `schedule` is the order in which the
  -- pool runs that many iterations.
  unfoldable pub full_pass :
      CoreLibrary
      → (grant : ℕ → Bool) → (registers : Bool) → (schedule : ℕ → Option (List ℕ)) → Algorithm
      → List Entry
      → List Group
      → (force_single_thread : Bool) → Outcome (Option (List Entry × ℕ))
  full_pass core grant registers schedule algorithm entries candidate_groups force_single_thread =
      let total_candidates = total_entries candidate_groups in
      if total_candidates == 0
      then done (some (entries, 0))
      else if grant (total_candidates * size_bytes)
      then (if registers
          then (let candidates =
                sort_indices_by_size_desc core entries (candidate_indices candidate_groups) in
              let batch_count = batches_for total_candidates in
              elim (if force_single_thread
                then some (until_stop (indices_of batch_count 0))
                else schedule batch_count) [
                  | none ↦ out_of_memory
                  | some order ↦ do
                    r ← run_batches algorithm candidates order entries
                    elim r [
                      | none ↦ done none
                      | some hashed ↦ done (some (hashed, total_candidates))
                    ]
                ])
          else out_of_memory)
      else out_of_memory
