-- ===== src/Worker/Ring/Batch.antt =====
-- src/worker/bc_duplicate_worker_batch_uring.c: the chunks of a batch, and the files that are read
-- without the ring. `done none` is a loop that has used up the kernel's answers and asks for more.
use bc_duplicate.Prelude.{
  ℕ, zero, suc, ◌+◌, ◌-◌, ◌*◌, Bool, true, false, not, ◌&&◌, List, [], ◌∷◌, Option, none, some, map,
  length, set, ltb, leb, ◌==◌, if◌then◌else◌,
}
use bc_duplicate.Outcome.{Outcome, done, out_of_bounds, ◌>>=◌, read_at}
use bc_duplicate.Worker.{eintr, Consumer}
use bc_duplicate.Worker.Reader.{OpenAnswer, ReadAnswer, consume_file}
use bc_duplicate.Worker.Ring.{
  slot_count, slot_buffer_bytes, Item, Completion, Chunk, fits_in_slot, with_error, handle_cqe,
}

-- An answer of `io_uring_wait_cqe`.
pub data WaitAnswer : Type 0 where
  arrived : Completion → WaitAnswer
  wait_failed : (errno_value : ℕ) → WaitAnswer

-- What the kernel does for one chunk: whether there are four free entries for a slot, whether the
-- submission succeeds, the answers to the waits behind the submission of so many slots, and what
-- stands in the buffers.
pub record ChunkKernel : Type 0 where
  pub has_entries : ℕ → Bool
  pub submits : Bool
  pub waits : (slot_count_used : ℕ) → List WaitAnswer
  pub slot_buffers : ℕ → List ℕ

-- What the kernel does for a file that is read without the ring.
pub record FileKernel : Type 0 where
  pub with_noatime : OpenAnswer
  pub without_noatime : OpenAnswer
  pub answers : List ReadAnswer

abbrev pub replicate {ℓ} : {A : Type ℓ} → ℕ → A → List A
replicate zero a = []
replicate (suc n) a = a ∷ replicate n a

module _ {ℓ} {S : Type ℓ} where
  -- Whether the buffer of a slot exists and takes the bytes that a read of the item asks for.
  unfoldable pub has_buffer : (slot_index : ℕ) → Item S → Bool
  has_buffer slot_index item = ltb slot_index slot_count && leb item.file_size slot_buffer_bytes

  -- The items that get a slot, in order; `none` if there is no room in the queue. A read into a
  -- buffer that is too small is an access out of bounds.
  unfoldable pub submit_slots :
      (has_entries : ℕ → Bool) (count item_index submitted_slot_count : ℕ)
      → List (Item S)
      → Outcome (Option (List ℕ))
  submit_slots has_entries zero item_index submitted items = done (some [])
  submit_slots has_entries (suc count) item_index submitted items = do
    item ← read_at items item_index
    elim (fits_in_slot item) [
      | false ↦ submit_slots has_entries count (item_index + 1) submitted items
      | true ↦ elim (has_buffer submitted item) [
        | false ↦ out_of_bounds
        | true ↦ elim (has_entries submitted) [
          | false ↦ done none
          | true ↦ do
            rest ← submit_slots has_entries count (item_index + 1) (submitted + 1) items
            done (elim rest [ none ↦ none | some slots ↦ some (item_index ∷ slots) ])
        ]
      ]
    ]

  module _ (consumer_function : Consumer S) where
    -- `remaining` is how many completions have not been seen.
    unfoldable pub wait_loop :
        (slot_buffers : ℕ → List ℕ)
        → List WaitAnswer
        → (remaining : ℕ) → Chunk S
        → Outcome (Option (Chunk S × Bool))
    wait_loop slot_buffers waits zero c = done (some (c, true))
    wait_loop slot_buffers [] (suc n) c = done none
    wait_loop slot_buffers (WaitAnswer.arrived cqe ∷ waits) (suc n) c = do
      c1 ← handle_cqe consumer_function slot_buffers cqe c
      wait_loop slot_buffers waits n c1
    wait_loop slot_buffers (WaitAnswer.wait_failed e ∷ waits) (suc n) c = elim (e == eintr) [
      | true ↦ wait_loop slot_buffers waits (suc n) c
      | false ↦ done (some (c, false))
    ]

    -- The items behind the chunk, and whether it went through.
    unfoldable pub drive_chunk :
        ChunkKernel
        → List (Item S)
        → (chunk_start chunk_count : ℕ) → Outcome (Option (List (Item S) × Bool))
    drive_chunk kernel items chunk_start chunk_count = do
      submitted ← submit_slots kernel.has_entries chunk_count chunk_start 0 items
      elim submitted [
        | none ↦ done (some (items, false))
        | some slots ↦
            if length slots == 0
            then done (some (items, true))
            else if kernel.submits
            then (let start : Chunk S = record {
              items = items;
              slot_to_item = slots;
              slot_bytes_read = replicate slot_count 0;
            } in
                (do
                  r ←
                      wait_loop kernel.slot_buffers (kernel.waits (length slots)) (4 * length slots)
                        start
                  done (elim r [ none ↦ none | some p ↦ some (p.0.items, p.1) ])))
            else done (some (items, false))
      ]

    unfoldable pub fallback_sync : FileKernel → Item S → Option (Item S)
    fallback_sync file item =
        elim (consume_file consumer_function file.with_noatime file.without_noatime file.answers
          item.consumer) [
            | none ↦ none
            | some r ↦ some (record item {
              consumer = r.consumer;
              success = r.success;
              errno_value = if r.success then 0 else r.errno_value;
            })
          ]

    -- Whether the file is read once more: behind a chunk that went through, unless it was read or
    -- stands with an error of its slot; behind one that did not, if nothing is known of it.
    unfoldable pub needs_fallback : (driven : Bool) → Item S → Bool
    needs_fallback true item =
        if item.success
        then false
        else if fits_in_slot item && not (item.errno_value == 0)
        then false
        else true
    needs_fallback false item = not item.success && (item.errno_value == 0)

    unfoldable pub fallback_chunk :
        (files : List ℕ → FileKernel) (driven : Bool) (count item_index : ℕ)
        → List (Item S)
        → Outcome (Option (List (Item S)))
    fallback_chunk files driven zero item_index items = done (some items)
    fallback_chunk files driven (suc count) item_index items = do
      item ← read_at items item_index
      elim (needs_fallback driven item) [
        | false ↦ fallback_chunk files driven count (item_index + 1) items
        | true ↦ elim (fallback_sync (files item.absolute_path) item) [
          | none ↦ done none
          | some r ↦ fallback_chunk files driven count (item_index + 1) (set items item_index r)
        ]
      ]

    unfoldable pub batch_loop :
        (files : List ℕ → FileKernel)
        → List ChunkKernel
        → (processed : ℕ) → List (Item S)
        → Outcome (Option (List (Item S)))
    batch_loop files [] processed items =
        if ltb processed (length items) then done none else done (some items)
    batch_loop files (kernel ∷ kernels) processed items = elim (ltb processed (length items)) [
      | false ↦ done (some items)
      | true ↦
          let chunk_remaining = length items - processed in
          let chunk_count =
            if ltb chunk_remaining slot_count then chunk_remaining else slot_count in
          (do
            r ← drive_chunk kernel items processed chunk_count
            elim r [
              | none ↦ done none
              | some p ↦ do
                q ← fallback_chunk files p.1 chunk_count processed p.0
                elim q [
                  | none ↦ done none
                  | some items1 ↦ batch_loop files kernels (processed + chunk_count) items1
                ]
            ])
    ]

    unfoldable pub consume_batch :
        (files : List ℕ → FileKernel)
        → List ChunkKernel
        → List (Item S)
        → Outcome (Option (List (Item S)))
    consume_batch files kernels items =
        batch_loop files kernels 0 (map (λ item. with_error item 0) items)
