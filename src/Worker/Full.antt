-- ===== src/Worker/Full.antt =====
-- src/worker/bc_duplicate_worker_full.c: the digest of each candidate's content. The hash
-- functions belong to xxHash and bc-core and are parameters.
pub mod Digest
pub mod Pass
use bc_duplicate.Prelude.{
  ℕ, zero, suc, ◌+◌, ◌-◌, ◌*◌, ◌/◌, ◌≡◌, Bool, true, false, not, ◌||◌, List, [], ◌∷◌, ◌++◌, Option,
  none, some, length, get_elem?, set, drop, ltb, leb, ◌==◌, if◌then◌else◌,
}
use bc_duplicate.Types.{Algorithm, Entry, Group, max_digest_size}
use bc_duplicate.Outcome.{Outcome, done, out_of_bounds, ◌>>=◌, read_at}
use bc_duplicate.Worker.{eio}
use bc_duplicate.Worker.Ring.{Item}
use bc_duplicate.Worker.Ring.Batch.{ChunkKernel, FileKernel, replicate, consume_batch}

unfoldable pub digest_size : Algorithm → ℕ
digest_size Algorithm.xxh3 = 8
digest_size Algorithm.xxh128 = 16
digest_size Algorithm.sha256 = 32

-- The two hash libraries. `none` is a call that returns false.
pub record HashLibrary : Type 1 where
  pub XxhState : Type 0
  pub Sha : Type 0
  pub reset_64 : XxhState → XxhState
  pub reset_128 : XxhState → XxhState
  pub update_64 : XxhState → List ℕ → XxhState
  pub update_128 : XxhState → List ℕ → XxhState
  -- The eight bytes of the digest, and of its high and its low half.
  pub digest_64 : XxhState → List ℕ
  pub digest_high : XxhState → List ℕ
  pub digest_low : XxhState → List ℕ
  pub sha_init : Sha → Option Sha
  pub sha_update : Sha → List ℕ → Option Sha
  pub sha_finalize : Sha → Option (List ℕ)

pub record ConsumerState (lib : HashLibrary) : Type 0 where
  pub algorithm : Algorithm
  pub xxh_state : lib.XxhState
  pub sha_context : lib.Sha
  pub failed : Bool

module _ (lib : HashLibrary) where
  -- The result of the call is not used by its caller, and is left out.
  unfoldable pub consumer_reset : ConsumerState lib → lib.XxhState → Algorithm → ConsumerState lib
  consumer_reset state xxh Algorithm.xxh3 = record state {
    algorithm = Algorithm.xxh3;
    failed = false;
    xxh_state = lib.reset_64 xxh;
  }
  consumer_reset state xxh Algorithm.xxh128 = record state {
    algorithm = Algorithm.xxh128;
    failed = false;
    xxh_state = lib.reset_128 xxh;
  }
  consumer_reset state xxh Algorithm.sha256 =
      let sha : lib.Sha = elim (lib.sha_init state.sha_context) [
        | none ↦ state.sha_context
        | some fresh ↦ fresh
      ] in
      record state {
        algorithm = Algorithm.sha256;
        failed = false;
        xxh_state = xxh;
        sha_context = sha;
      }

  unfoldable pub consumer_callback : ConsumerState lib → List ℕ → ConsumerState lib × Bool
  consumer_callback state chunk = elim state.algorithm [
    | Algorithm.xxh3 ↦ (record state { xxh_state = lib.update_64 state.xxh_state chunk }, true)
    | Algorithm.xxh128 ↦ (record state { xxh_state = lib.update_128 state.xxh_state chunk }, true)
    | Algorithm.sha256 ↦ elim (lib.sha_update state.sha_context chunk) [
      | none ↦ (record state { failed = true }, false)
      | some sha ↦ (record state { sha_context = sha }, true)
    ]
  ]

  -- The bytes at the front of a zeroed digest.
  abbrev pub padded : List ℕ → List ℕ
  padded bytes = bytes ++ drop (length bytes) (replicate max_digest_size 0)

  -- The digest, and whether the state stands as failed.
  unfoldable pub consumer_finalize : ConsumerState lib → List ℕ × Bool
  consumer_finalize state = elim state.algorithm [
    | Algorithm.xxh3 ↦ (padded (lib.digest_64 state.xxh_state), state.failed)
    | Algorithm.xxh128 ↦
        (padded (lib.digest_high state.xxh_state ++ lib.digest_low state.xxh_state), state.failed)
    | Algorithm.sha256 ↦ elim (lib.sha_finalize state.sha_context) [
      | none ↦ (padded [], true)
      | some digest ↦ (padded digest, state.failed)
    ]
  ]

  -- What is written to an entry behind the reading of its file.
  unfoldable pub finish_entry : Item (ConsumerState lib) → Entry → Entry
  finish_entry item entry =
      if not item.success || item.consumer.failed
      then record entry {
        full_hash_computed = true;
        full_hash_errno = if item.errno_value == 0 then eio else item.errno_value;
      }
      else (let (digest, failed) = consumer_finalize item.consumer in
          record entry {
            full_hash_computed = true;
            full_hash = digest;
            full_hash_errno = if failed then eio else 0;
          })

  -- The items of `count` candidates, and their entries finished.
  unfoldable pub make_items :
      Algorithm
      → (indices : List ℕ) → List (ConsumerState lib)
      → List Entry
      → Outcome (List (Item (ConsumerState lib)))
  make_items algorithm [] states entries = done []
  make_items algorithm (index ∷ indices) [] entries = out_of_bounds
  make_items algorithm (index ∷ indices) (state ∷ states) entries = do
    entry ← read_at entries index
    items ← make_items algorithm indices states entries
    let item : Item (ConsumerState lib) = record {
      absolute_path = entry.absolute_path;
      file_size = entry.file_size;
      consumer = consumer_reset state state.xxh_state algorithm;
      success = false;
      errno_value = 0;
    }
    done (item ∷ items)

  unfoldable pub finish_entries :
      (indices : List ℕ) → List (Item (ConsumerState lib)) → List Entry → Outcome (List Entry)
  finish_entries [] items entries = done entries
  finish_entries (index ∷ indices) [] entries = out_of_bounds
  finish_entries (index ∷ indices) (item ∷ items) entries = do
    entry ← read_at entries index
    finish_entries indices items (set entries index (finish_entry item entry))

  -- One batch: `indices` are its candidates and `states` the worker's hash states, one for each.
  unfoldable pub process_batch :
      (files : List ℕ → FileKernel)
      → List ChunkKernel
      → Algorithm
      → (indices : List ℕ) → List (ConsumerState lib)
      → List Entry
      → Outcome (Option (List Entry))
  process_batch files kernels algorithm indices states entries = do
    items ← make_items algorithm indices states entries
    r ← consume_batch consumer_callback files kernels items
    elim r [
      | none ↦ done none
      | some read ↦ do finished ← finish_entries indices read entries; done (some finished)
    ]
