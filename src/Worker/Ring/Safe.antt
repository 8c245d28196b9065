-- ===== src/Worker/Ring/Safe.antt =====
-- A batch stays inside its arrays, if every completion names a slot that was submitted.
use bc_duplicate.Prelude.{
  ℕ, zero, suc, ◌≤◌, ◌<◌, ◌≡◌, refl, ap, List, Option, none, some, length, All,
}
use bc_duplicate.Outcome.{Outcome, Meets}
use bc_duplicate.Worker.{Consumer}
use bc_duplicate.Worker.Ring.{slot_count, decode_slot, Item, Chunk}
use bc_duplicate.Worker.Ring.Batch.{WaitAnswer, ChunkKernel, replicate}

-- A completion names one of the first `n` slots.
abbrev pub NamesBelow : ℕ → WaitAnswer → Type 0
NamesBelow n (WaitAnswer.arrived cqe) = decode_slot cqe.user_data < n
NamesBelow n (WaitAnswer.wait_failed e) = Unit

-- The kernel completes only requests that were submitted.
abbrev pub AnswersRequests : ChunkKernel → Type 0
AnswersRequests kernel = (n : ℕ) → All (NamesBelow n) (kernel.waits n)

-- What holds of a value, if there is one.
abbrev pub Holds {ℓ} : {A : Type ℓ} → (A → Type 0) → Option A → Type 0
Holds P none = Unit
Holds P (some a) = P a

pub Holds-any {ℓ} : {A : Type ℓ} (o : Option A) → Holds (λ a. Unit {0}) o
Holds-any none = tt
Holds-any (some a) = tt

-- A call that goes on from an optional result.
pub Meets-elim {ℓ κ} :
    {A : Type ℓ} {B : Type κ} (o : Option A) (n : Outcome B) (f : A → Outcome B) (P : A → Type 0)
    (Q : B → Type 0)
    → Holds P o
    → Meets n Q
    → ((a : A) → P a → Meets (f a) Q)
    → Meets (elim o [ none ↦ n | some a ↦ f a ]) Q
Meets-elim none n f P Q h k g = k
Meets-elim (some a) n f P Q h k g = g a h

pub length-replicate {ℓ} : {A : Type ℓ} (n : ℕ) (a : A) → length (replicate n a) ≡ n
length-replicate zero a = refl
length-replicate (suc n) a = ap suc (length-replicate n a)

abbrev AreSlots : (count len : ℕ) → List ℕ → Type 0
AreSlots count len slots = (length slots ≤ count) × All (λ i. i < len) slots

module _ {ℓ} {S : Type ℓ} where
  -- A chunk whose slots are in use for items of the batch.
  pub record IsChunk (n len : ℕ) (c : Chunk S) : Type 0 where
    slots_used : length c.slot_to_item ≡ n
    in_batch : All (λ i. i < len) c.slot_to_item
    batch_length : length c.items ≡ len
    counts_length : length c.slot_bytes_read ≡ slot_count

  module _ (consumer_function : Consumer S) where
    -- A list of items as long as the batch.
    abbrev IsBatch : ℕ → List (Item S) → Type 0
    IsBatch len items = length items ≡ len

    abbrev start : List (Item S) → List ℕ → Chunk S
    start items slots = record {
      items = items;
      slot_to_item = slots;
      slot_bytes_read = replicate slot_count 0;
    }
