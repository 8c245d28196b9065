-- ===== src/Worker/Ring.antt =====
-- src/worker/bc_duplicate_worker_batch_uring.c: a batch of files read through io_uring, in chunks of
-- as many files as there are slots. What the kernel does is given: which completions come, in which
-- order, and what stands in the slots' buffers.
pub mod Slots
pub mod Batch
pub mod Outcomes
pub mod Safe
use bc_duplicate.Prelude.{
  ℕ, zero, suc, ◌+◌, ◌-◌, ◌*◌, ◌/◌, ◌%◌, ◌^◌, ◌≡◌, Bool, true, false, not, ◌&&◌, List, [], ◌∷◌,
  Option, none, some, length, get_elem?, set, take, ltb, leb, ◌==◌, if◌then◌else◌,
}
use bc_duplicate.Outcome.{Outcome, done, out_of_memory, out_of_bounds, ◌>>=◌, read_at}
use bc_duplicate.Worker.{eio, eintr, ecanceled, Consumer, Consumed}

abbrev pub slot_count : ℕ
slot_count = 32

abbrev pub slot_buffer_bytes : ℕ
slot_buffer_bytes = 262144

abbrev pub op_openat : ℕ
op_openat = 0

abbrev pub op_read : ℕ
op_read = 1

abbrev pub op_probe : ℕ
op_probe = 2

abbrev pub op_close : ℕ
op_close = 3

-- The low eight bits are free behind the shift, so `|` adds.
unfoldable pub encode_user_data : (slot_index operation_code : ℕ) → ℕ
encode_user_data slot_index operation_code = slot_index * 256 % 2 ^ 64 + operation_code

unfoldable pub decode_slot : ℕ → ℕ
decode_slot user_data = user_data / 256 % 2 ^ 32

unfoldable pub decode_operation : ℕ → ℕ
decode_operation user_data = user_data % 256

-- A file of the batch. The state of its consumer stands in it.
pub record Item {ℓ} (S : Type ℓ) : Type ℓ where
  pub absolute_path : List ℕ
  pub file_size : ℕ
  pub consumer : S
  pub success : Bool
  pub errno_value : ℕ

-- `res` of a completion: a negative errno, or a count.
pub data Result : Type 0 where
  failed : (errno_value : ℕ) → Result
  transferred : (count : ℕ) → Result

pub record Completion : Type 0 where
  pub user_data : ℕ
  pub result : Result

-- What a chunk works on: the items of the batch, and for each slot in use its item.
pub record Chunk {ℓ} (S : Type ℓ) : Type ℓ where
  pub items : List (Item S)
  pub slot_to_item : List ℕ
  pub slot_bytes_read : List ℕ

abbrev pub canceled_to_eio : ℕ → ℕ
canceled_to_eio e = if e == ecanceled then eio else e

module _ {ℓ} {S : Type ℓ} where
  abbrev pub with_error : Item S → ℕ → Item S
  with_error item e = record item { success = false; errno_value = e }

  unfoldable pub fits_in_slot : Item S → Bool
  fits_in_slot item = ltb 0 item.file_size && leb item.file_size slot_buffer_bytes

  -- The three cases of `handle_cqe` that do something: the item of the slot and the bytes that its
  -- read brought.
  unfoldable pub handle_openat : Result → Item S → Item S
  handle_openat (Result.failed e) item = with_error item e
  handle_openat (Result.transferred n) item = item

  unfoldable pub handle_read : Result → Item S × ℕ → Item S × ℕ
  handle_read (Result.failed e) (item, bytes_read) =
      if item.errno_value == 0
      then (with_error item (canceled_to_eio e), bytes_read)
      else (item, bytes_read)
  handle_read (Result.transferred n) (item, bytes_read) =
      if n == item.file_size then (item, n) else (with_error item eio, bytes_read)

  module _ (consumer_function : Consumer S) where
    unfoldable pub consume_buffer : List ℕ → Item S × ℕ → Item S
    consume_buffer buffer (item, bytes_read) =
        let (s, taken) = consumer_function item.consumer (take bytes_read buffer) in
        let fed : Item S = record item { consumer = s } in
        if taken then record fed { success = true; errno_value = 0 } else with_error fed eio

    unfoldable pub handle_probe : Result → List ℕ → Item S × ℕ → Item S
    handle_probe (Result.failed e) buffer (item, bytes_read) =
        if item.errno_value == 0 then with_error item (canceled_to_eio e) else item
    handle_probe (Result.transferred n) buffer (item, bytes_read) =
        if item.errno_value == 0
        then (if ltb 0 n
            then with_error item eio
            else if bytes_read == 0
            then with_error item eio
            else consume_buffer buffer (item, bytes_read))
        else item

    unfoldable pub handle_operation :
        (operation_code : ℕ) → Result → List ℕ → Item S × ℕ → Item S × ℕ
    handle_operation operation_code result buffer (item, bytes_read) =
        if operation_code == op_openat
        then (handle_openat result item, bytes_read)
        else if operation_code == op_read
        then handle_read result (item, bytes_read)
        else if operation_code == op_probe
        then (handle_probe result buffer (item, bytes_read), bytes_read)
        else (item, bytes_read)

  module _ (consumer_function : Consumer S) (slot_buffers : ℕ → List ℕ) where
    unfoldable pub handle_cqe : Completion → Chunk S → Outcome (Chunk S)
    handle_cqe cqe c = do
      let slot_index = decode_slot cqe.user_data
      item_index ← read_at c.slot_to_item slot_index
      item ← read_at c.items item_index
      bytes_read ← read_at c.slot_bytes_read slot_index
      let r =
          handle_operation consumer_function (decode_operation cqe.user_data) cqe.result
            (slot_buffers slot_index) (item, bytes_read)
      done (record c {
        items = set c.items item_index r.0;
        slot_bytes_read = set c.slot_bytes_read slot_index r.1;
      })

    -- The completions of a chunk, one after another.
    unfoldable pub handle_all : List Completion → Chunk S → Outcome (Chunk S)
    handle_all [] c = done c
    handle_all (cqe ∷ cqes) c = do c1 ← handle_cqe cqe c; handle_all cqes c1
