-- ===== src/Worker/Full/Pass/Safe.antt =====
-- The full pass stays inside its arrays, and writes digests only.
use bc_duplicate.Prelude.{ℕ, ◌*◌, ◌≤◌, ◌≡◌, List, Option, none, some, map, length, take, drop, All}
use bc_duplicate.Types.{Algorithm, Entry}
use bc_duplicate.Outcome.{Outcome, done, ◌>>=◌}
use bc_duplicate.Worker.Ring.Batch.{FileKernel}
use bc_duplicate.Worker.Ring.Safe.{AnswersRequests}
use bc_duplicate.Worker.Full.{HashLibrary, ConsumerState}
use bc_duplicate.Worker.Full.Pass.{full_batch_item_capacity, BatchKernel, run_batches}
use bc_duplicate.Worker.Kept.{without_digest}

-- The same entries but for their digests.
abbrev pub SameButDigest : List Entry → List Entry → Type 0
SameButDigest entries hashed = map without_digest hashed ≡ map without_digest entries

module _ (lib : HashLibrary) where
  -- What the full pass relies on: a slot has a hash state for each file of a batch, and the kernel
  -- completes only requests that were submitted.
  pub record ServesBatches (batches : ℕ → BatchKernel lib) : Type 0 where
    pub has_states :
        (i : ℕ) (states : List (ConsumerState lib))
        → (batches i).slot ≡ some states
        → full_batch_item_capacity ≤ length states
    pub answers_requests : (i : ℕ) → All AnswersRequests (batches i).chunks

  module _ (files : List ℕ → FileKernel) (batches : ℕ → BatchKernel lib)
      (serves : ServesBatches batches) (algorithm : Algorithm) where
    abbrev cut : (candidates : List ℕ) → ℕ → List ℕ
    cut candidates i =
        take full_batch_item_capacity (drop (i * full_batch_item_capacity) candidates)

    -- What the pass does with an order of its batches.
    abbrev hash_in : ℕ → List ℕ → List Entry → List ℕ → Outcome (Option (List Entry × ℕ))
    hash_in n candidates entries order = do
      r ← run_batches lib files batches algorithm candidates order entries
      elim r [ none ↦ done none | some hashed ↦ done (some (hashed, n)) ]
