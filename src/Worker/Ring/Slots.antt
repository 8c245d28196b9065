-- ===== src/Worker/Ring/Slots.antt =====
-- The completions of the slots of a chunk do not disturb each other.
use bc_duplicate.Prelude.{
  ℕ, ◌^◌, ◌<◌, ◌≡◌, ◌≢◌, refl, sym, ap, ◌∙◌, true, false, Bool-cases, inl, inr, List, [], ◌∷◌, some,
  arith, get_elem?, set, ◌==◌, if◌then◌else◌, All, set-get_same, set-get_other,
}
use mathlib.Core.Path.{subst}
use mathlib.Core.Option.{some-injective}
use bc_duplicate.Outcome.{done, ◌>>=◌, read_at}
use bc_duplicate.Worker.{Consumer}
use bc_duplicate.Worker.Ring.{
  encode_user_data, decode_slot, decode_operation, Item, Completion, Chunk, handle_operation,
  handle_cqe, handle_all,
}

-- A slot number of 32 bits and an operation of 8 bits are read back from the user data.
pub encode_user_data-decode :
    (slot_index operation_code : ℕ)
    → slot_index < 2 ^ 32
    → operation_code < 256
    → (decode_slot (encode_user_data slot_index operation_code) ≡ slot_index)
      × (decode_operation (encode_user_data slot_index operation_code) ≡ operation_code)
unfolding encode_user_data decode_slot decode_operation
encode_user_data-decode slot_index operation_code h k = (omega arith, omega arith)

read_at-some {ℓ} :
    {A : Type ℓ} (l : List A) (i : ℕ) (x : A) → get_elem? l i ≡ some x → read_at l i ≡ done x
read_at-some l i x h = rw (read_at, h) refl

module _ {ℓ} {S : Type ℓ} where
  -- The slot `s` of the chunk is in use for `item`, and its read brought `n` bytes.
  pub record HasSlot (c : Chunk S) (s : ℕ) (item : Item S) (n : ℕ) : Type ℓ where
    pub index : ℕ
    pub index_at : get_elem? c.slot_to_item s ≡ some index
    pub item_at : get_elem? c.items index ≡ some item
    pub bytes_at : get_elem? c.slot_bytes_read s ≡ some n

  -- No two slots are in use for one item.
  abbrev pub IsSeparate : Chunk S → Type 0
  IsSeparate c =
      (s t i : ℕ)
      → get_elem? c.slot_to_item s ≡ some i
      → get_elem? c.slot_to_item t ≡ some i
      → s ≡ t

  module _ (consumer_function : Consumer S) (slot_buffers : ℕ → List ℕ) where
    -- One slot alone, fed the completions that are its own.
    abbrev pub handle_own : (s : ℕ) → List Completion → Item S × ℕ → Item S × ℕ
    handle_own s [] p = p
    handle_own s (cqe ∷ cqes) p = handle_own s cqes (
        if decode_slot cqe.user_data == s
        then handle_operation consumer_function (decode_operation cqe.user_data) cqe.result
            (slot_buffers s) p
        else p)

    -- The state behind one completion.
    abbrev after : Completion → Chunk S → ℕ → Item S → ℕ → Chunk S
    after cqe c i item n =
        let r =
          handle_operation consumer_function (decode_operation cqe.user_data) cqe.result
            (slot_buffers (decode_slot cqe.user_data)) (item, n) in
        record c {
          items = set c.items i r.0;
          slot_bytes_read = set c.slot_bytes_read (decode_slot cqe.user_data) r.1;
        }

    handle_cqe-after :
        (cqe : Completion) (c : Chunk S) (item : Item S) (n : ℕ)
        (h : HasSlot c (decode_slot cqe.user_data) item n)
        → handle_cqe consumer_function slot_buffers cqe c ≡ done (after cqe c h.index item n)
    unfolding handle_cqe
    handle_cqe-after cqe c item n h =
        rw
          (
            read_at-some c.slot_to_item _ _ h.index_at,
            read_at-some c.items _ _ h.item_at,
            read_at-some c.slot_bytes_read _ _ h.bytes_at,
          )
          refl

    own_slot :
        (cqe : Completion) (c : Chunk S) (item : Item S) (n : ℕ)
        (h : HasSlot c (decode_slot cqe.user_data) item n)
        → (let r =
              handle_operation consumer_function
                (decode_operation cqe.user_data)
                cqe.result
                (slot_buffers (decode_slot cqe.user_data))
                (item, n) in
            HasSlot (after cqe c h.index item n) (decode_slot cqe.user_data) r.0 r.1)
    own_slot cqe c item n h = record {
      index = h.index;
      index_at = h.index_at;
      item_at = set-get_same c.items h.index _ item h.item_at;
      bytes_at = set-get_same c.slot_bytes_read (decode_slot cqe.user_data) _ n h.bytes_at;
    }

    other_slot :
        (cqe : Completion) (c : Chunk S) (item : Item S) (n s : ℕ) (other : Item S) (m : ℕ)
        → IsSeparate c
        → (h : HasSlot c (decode_slot cqe.user_data) item n) → HasSlot c s other m
        → decode_slot cqe.user_data ≢ s
        → HasSlot (after cqe c h.index item n) s other m
    other_slot cqe c item n s other m separate h k apart =
        let apart_items : h.index ≢ k.index =
          λ e. apart (separate _ s k.index (h.index_at ∙ ap some e) k.index_at) in
        record {
          index = k.index;
          index_at = k.index_at;
          item_at = set-get_other c.items h.index k.index _ apart_items ∙ k.item_at;
          bytes_at = set-get_other c.slot_bytes_read _ s _ apart ∙ k.bytes_at;
        }

    -- The completion names a slot in use.
    abbrev pub IsUsed : Chunk S → Completion → Type ℓ
    IsUsed c cqe = (item : Item S) × (n : ℕ) × HasSlot c (decode_slot cqe.user_data) item n

    own_step :
        (cqe : Completion) (cqes : List Completion) (p : Item S × ℕ) (s : ℕ)
        → decode_slot cqe.user_data ≡ s
        → handle_own s (cqe ∷ cqes) p
          ≡ handle_own s cqes (
              handle_operation consumer_function
                (decode_operation cqe.user_data)
                cqe.result
                (slot_buffers s)
                p)
    own_step cqe cqes p s e =
        let same : (decode_slot cqe.user_data == s) ≡ true = ground (arith, e) in rw same refl

    other_step :
        (cqe : Completion) (cqes : List Completion) (p : Item S × ℕ) (s : ℕ)
        → decode_slot cqe.user_data ≢ s
        → handle_own s (cqe ∷ cqes) p ≡ handle_own s cqes p
    other_step cqe cqes p s e =
        let apart : (decode_slot cqe.user_data == s) ≡ false = ground (arith, e) in rw apart refl

    one_content :
        (c : Chunk S) (s : ℕ) (item : Item S) (n : ℕ) (p : Item S × ℕ)
        → HasSlot c s item n
        → HasSlot c s p.0 p.1
        → (item, n) ≡ p
    one_content c s item n p h k =
        let index : h.index ≡ k.index = some-injective _ _ (sym h.index_at ∙ k.index_at) in
        let first : item ≡ p.0 =
          some-injective _ _ (sym h.item_at ∙ ap (get_elem? c.items) index ∙ k.item_at) in
        let second : n ≡ p.1 = some-injective _ _ (sym h.bytes_at ∙ k.bytes_at) in
        λ i. (first i, second i)

    -- A slot after one completion, whichever slot it is for.
    abbrev pub Follows : Completion → Chunk S → ℕ → Item S × ℕ → Type ℓ
    Follows cqe c1 s p =
        (q : Item S × ℕ) × HasSlot c1 s q.0 q.1
        × ((cqes : List Completion) → handle_own s cqes q ≡ handle_own s (cqe ∷ cqes) p)

    same_slot :
        (cqe : Completion) (c : Chunk S) (item : Item S) (n : ℕ) (p : Item S × ℕ)
        (h : HasSlot c (decode_slot cqe.user_data) item n)
        → HasSlot c (decode_slot cqe.user_data) p.0 p.1
        → Follows cqe (after cqe c h.index item n) (decode_slot cqe.user_data) p
    same_slot cqe c item n p h k =
        let s = decode_slot cqe.user_data in
        (
          _,
          own_slot cqe c item n h,
          λ cqes.
              sym (own_step cqe cqes (item, n) s refl)
              ∙ ap (handle_own s (cqe ∷ cqes)) (one_content c s item n p h k),
        )

    after_slot :
        (cqe : Completion) (c : Chunk S) (item : Item S) (n s : ℕ) (p : Item S × ℕ)
        → IsSeparate c
        → (h : HasSlot c (decode_slot cqe.user_data) item n) → HasSlot c s p.0 p.1
        → Follows cqe (after cqe c h.index item n) s p
    after_slot cqe c item n s p separate h k = elim (Bool-cases (decode_slot cqe.user_data == s)) [
      | inl same ↦
          let here : decode_slot cqe.user_data ≡ s = ground (arith, same) in
          subst (λ t. HasSlot c t p.0 p.1 → Follows cqe (after cqe c h.index item n) t p) here
            (same_slot cqe c item n p h) k
      | inr apart ↦
          let away : decode_slot cqe.user_data ≢ s = λ e. ground (arith, apart, e) in
          (
            p,
            other_slot cqe c item n s p.0 p.1 separate h k away,
            λ cqes. sym (other_step cqe cqes p s away),
          )
    ]

    IsUsed-after :
        (cqe : Completion) (c : Chunk S) (item : Item S) (n : ℕ)
        → IsSeparate c
        → (h : HasSlot c (decode_slot cqe.user_data) item n) → (cqes : List Completion)
        → All (IsUsed c) cqes
        → All (IsUsed (after cqe c h.index item n)) cqes
    IsUsed-after cqe c item n separate h [] used = tt
    IsUsed-after cqe c item n separate h (d ∷ cqes) ((other, m, k), used) =
        let (q, at, same) =
          after_slot cqe c item n (decode_slot d.user_data) (other, m) separate h k in
        ((q.0, q.1, at), IsUsed-after cqe c item n separate h cqes used)

    -- If no two slots are in use for one item, and every completion names a slot in use, the
    -- completions of a chunk are all handled without a fault, and a slot ends with the item and
    -- the byte count that its own completions alone would have brought, however the completions
    -- of the slots are interleaved.
    pub handle_all-own :
        (cqes : List Completion) (c : Chunk S) (s : ℕ) (p : Item S × ℕ)
        → IsSeparate c
        → All (IsUsed c) cqes
        → HasSlot c s p.0 p.1
        → (c1 : Chunk S) × (handle_all consumer_function slot_buffers cqes c ≡ done c1)
          × HasSlot c1 s (handle_own s cqes p).0 (handle_own s cqes p).1
    unfolding handle_all
    handle_all-own [] c s p separate used k = (c, refl, k)
    handle_all-own (cqe ∷ cqes) c s p separate ((item, n, h), used) k =
        let step = handle_cqe-after cqe c item n h in
        let c1 = after cqe c h.index item n in
        let (q, at, same) = after_slot cqe c item n s p separate h k in
        let (c2, runs, ends) =
          handle_all-own cqes c1 s q separate (IsUsed-after cqe c item n separate h cqes used) at in
        (
          c2,
          ap (λ m. m >>= handle_all consumer_function slot_buffers cqes) step ∙ runs,
          subst (λ r. HasSlot c2 s r.0 r.1) (same cqes) ends,
        )
