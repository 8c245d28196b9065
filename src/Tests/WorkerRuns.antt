-- ===== src/Tests/WorkerRuns.antt =====
-- Files that are read by `read` and through the ring, and the output of a path.
use bc_duplicate.Prelude.{
  ℕ, zero, suc, ◌≡◌, ◌⊎◌, refl, sym, false, inl, inr, List, [], ◌∷◌, ◌++◌, some, arith, length,
  take, drop,
}
use mathlib.Core.List.{append-nil, append_assoc}
use mathlib.Core.Option.{some-injective}
use bc_duplicate.Types.{Entry, Algorithm}
use bc_duplicate.Outcome.{done}
use bc_duplicate.Text.{codes}
use bc_duplicate.Worker.{eintr, eperm}
use bc_duplicate.Worker.Reader.{OpenAnswer, ReadAnswer, consume_file, open_read_only}
use bc_duplicate.Worker.Reader.Whole.{IsStreaming, taking, consumed, consume_file-whole}
use bc_duplicate.Worker.Ring.{
  encode_user_data, decode_slot, decode_operation, Item, Result, Completion, Chunk, handle_all,
}
use bc_duplicate.Worker.Ring.Slots.{
  HasSlot, IsSeparate, handle_own, encode_user_data-decode, handle_all-own,
}
use bc_duplicate.Worker.Ring.Outcomes.{in_slot, Succeeded, Failed, in_slot-ends}
use bc_duplicate.Worker.Ring.Batch.{replicate}
use bc_duplicate.Worker.Fast.{FastKernel, with_fast_hash, fast_iteration}
use bc_duplicate.Worker.Fast.Content.{content_hash, fast_iteration-content}
use bc_duplicate.Worker.Full.{HashLibrary, ConsumerState}

-- A consumer that keeps what it is given.
abbrev keep : List ℕ → List ℕ → List ℕ
keep seen chunk = seen ++ chunk

keep-IsStreaming : IsStreaming (taking keep) keep
keep-IsStreaming = record {
  takes = λ s chunk. refl;
  update_nothing = λ s. append-nil s;
  update_more = λ s a b. sym (append_assoc s a b);
}

consume_file-whole_example :
    consume_file
      (taking keep)
      (OpenAnswer.not_opened eperm)
      OpenAnswer.opened
      (ReadAnswer.not_read eintr ∷ ReadAnswer.stored (7 ∷ 8 ∷ []) ∷ [])
      []
    ≡ some (consumed (7 ∷ 8 ∷ []))
consume_file-whole_example =
    consume_file-whole (taking keep) keep keep-IsStreaming (OpenAnswer.not_opened eperm)
      OpenAnswer.opened (ReadAnswer.not_read eintr ∷ ReadAnswer.stored (7 ∷ 8 ∷ []) ∷ [])
      (7 ∷ 8 ∷ []) [] (inr (refl, refl)) (refl, (refl, inl (omega arith)))

encode_user_data-decode_example :
    (decode_slot (encode_user_data 31 2) ≡ 31) × (decode_operation (encode_user_data 31 2) ≡ 2)
encode_user_data-decode_example = encode_user_data-decode 31 2 (omega arith) (omega arith)

abbrev item : List ℕ → Item (List ℕ)
item path = record {
  absolute_path = path;
  file_size = 2;
  consumer = [];
  success = false;
  errno_value = 0;
}

abbrev chunk : Chunk (List ℕ)
chunk = record {
  items = item (codes "a") ∷ item (codes "b") ∷ [];
  slot_to_item = 0 ∷ 1 ∷ [];
  slot_bytes_read = 0 ∷ 0 ∷ [];
}

abbrev completion : ℕ → ℕ → Completion
completion tag count = record { user_data = tag; result = Result.transferred count }

abbrev buffers : ℕ → List ℕ
buffers slot = slot ∷ 9 ∷ 9 ∷ []

-- The reads of slots 1 and 0, then the probe of slot 1.
abbrev completions : List Completion
completions = completion 257 2 ∷ completion 1 2 ∷ completion 258 0 ∷ []

separate : IsSeparate chunk
separate zero zero i h k = refl
separate zero (suc zero) i h k = absurd (ground (arith, some-injective _ _ h, some-injective _ _ k))
separate (suc zero) zero i h k = absurd (ground (arith, some-injective _ _ h, some-injective _ _ k))
separate (suc zero) (suc zero) i h k = refl
separate zero (suc (suc t)) i h k = absurd (ground arith)
separate (suc zero) (suc (suc t)) i h k = absurd (ground arith)
separate (suc (suc s)) t i h k = absurd (ground arith)

first_slot : HasSlot chunk 0 (item (codes "a")) 0
first_slot = record { index = 0; index_at = refl; item_at = refl; bytes_at = refl }

second_slot : HasSlot chunk 1 (item (codes "b")) 0
second_slot = record { index = 1; index_at = refl; item_at = refl; bytes_at = refl }

handle_all-own_example :
    (c1 : Chunk (List ℕ)) × (handle_all (taking keep) buffers completions chunk ≡ done c1)
    × HasSlot c1 1
        (handle_own (taking keep) buffers 1 completions (item (codes "b"), 0)).0
        (handle_own (taking keep) buffers 1 completions (item (codes "b"), 0)).1
unfolding decode_slot
handle_all-own_example =
    handle_all-own (taking keep) buffers completions chunk 1 (item (codes "b"), 0) separate
      (
        (item (codes "b"), 0, second_slot),
        ((item (codes "a"), 0, first_slot), ((item (codes "b"), 0, second_slot), tt)),
      )
      second_slot

in_slot-ends_example :
    (let r =
        (in_slot
          (taking keep)
          (Result.transferred 0)
          (Result.transferred 2)
          (Result.transferred 0)
          (5 ∷ 6 ∷ 7 ∷ [])
          (item (codes "a"))).0 in
      Succeeded
        (taking keep)
        (Result.transferred 2)
        (Result.transferred 0)
        (5 ∷ 6 ∷ 7 ∷ [])
        (item (codes "a"))
        r
      ⊎ Failed (taking keep) r)
in_slot-ends_example =
    in_slot-ends (taking keep) (Result.transferred 0) (Result.transferred 2) (Result.transferred 0)
      (5 ∷ 6 ∷ 7 ∷ []) (item (codes "a")) tt tt tt (omega arith) refl refl

abbrev entry : List ℕ → Entry
entry digest = record {
  absolute_path = codes "a";
  absolute_path_length = 1;
  file_size = 2;
  device_id = 1;
  inode_number = 1;
  fast_hash = 0;
  full_hash = digest;
  fast_hash_computed = false;
  full_hash_computed = false;
  fast_hash_errno = 0;
  full_hash_errno = 0;
}

abbrev first_byte_hash : List ℕ → ℕ
first_byte_hash [] = 0
first_byte_hash (b ∷ bs) = b

-- A file of three blocks less one byte.
abbrev long_content : List ℕ
long_content = 1 ∷ replicate 12286 7

abbrev kernel : FastKernel
kernel = record {
  with_noatime = OpenAnswer.opened;
  without_noatime = OpenAnswer.opened;
  pread = λ count offset. ReadAnswer.stored (take count (drop offset long_content));
}

abbrev long_entry : Entry
long_entry = record (entry []) { file_size = length long_content }

fast_iteration-content_example :
    fast_iteration first_byte_hash false kernel long_entry
    ≡ with_fast_hash long_entry (content_hash first_byte_hash long_content) 0
unfolding open_read_only
fast_iteration-content_example =
    fast_iteration-content first_byte_hash kernel long_entry long_content
      (record { opens = refl; reads = λ count offset. refl; sized = refl })

-- Hash functions that keep the bytes that they are given.
abbrev keeping : HashLibrary
keeping = record {
  XxhState = List ℕ;
  Sha = List ℕ;
  reset_64 = λ s. [];
  reset_128 = λ s. [];
  update_64 = keep;
  update_128 = keep;
  digest_64 = λ s. s;
  digest_high = λ s. s;
  digest_low = λ s. [];
  sha_init = λ s. some [];
  sha_update = λ s b. some (s ++ b);
  sha_finalize = λ s. some s;
}

abbrev unread : Item (ConsumerState keeping)
unread = record {
  absolute_path = codes "a";
  file_size = 2;
  consumer = record {
    algorithm = Algorithm.xxh3;
    xxh_state = [];
    sha_context = [];
    failed = false;
  };
  success = false;
  errno_value = 13;
}
