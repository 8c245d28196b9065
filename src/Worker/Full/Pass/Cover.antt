-- ===== src/Worker/Full/Pass/Cover.antt =====
-- The batches are the candidates, cut into pieces.
use bc_duplicate.Prelude.{
  ℕ, zero, suc, ◌+◌, ◌-◌, ◌*◌, ◌≤◌, ◌<◌, ◌≡◌, refl, sym, ap, ◌∙◌, true, Bool-cases, inl, inr, List,
  [], ◌∷◌, ◌++◌, arith, length, length-drop, length-eq-zero, take, drop, take_full,
  take-append-drop, drop-add, ltb, leb, if◌then◌else◌,
}
use bc_duplicate.Outcome.{Outcome, done, ◌>>=◌}
use bc_duplicate.Worker.Fast.{indices_of}
use bc_duplicate.Worker.Full.Pass.{full_batch_item_capacity, read_range, batch_of, batches_for}

-- The batches of an order of iterations, one behind the other.
unfoldable pub joined_batches : (candidates : List ℕ) → (order : List ℕ) → Outcome (List ℕ)
joined_batches candidates [] = done []
joined_batches candidates (i ∷ order) = do
  batch ← batch_of candidates i
  later ← joined_batches candidates order
  done (batch ++ later)

take-capped :
    (xs : List ℕ) (size : ℕ)
    → take (if ltb (length xs) size then length xs else size) xs ≡ take size xs
take-capped xs size = elim (Bool-cases (ltb (length xs) size)) [
  | inl small ↦
      rw small
        (take_full (length xs) xs (omega arith) ∙ sym (take_full size xs (ground (arith, small))))
  | inr large ↦ rw large refl
]

-- A batch that begins inside the candidates stays inside them.
pub batch_of_lem :
    (candidates : List ℕ) (i : ℕ)
    → i * full_batch_item_capacity < length candidates
    → batch_of candidates i
      ≡ done (take full_batch_item_capacity (drop (i * full_batch_item_capacity) candidates))
unfolding batch_of read_range
batch_of_lem candidates i h =
    let start = i * full_batch_item_capacity in
    let left = length candidates - start in
    let count = if ltb left full_batch_item_capacity then left else full_batch_item_capacity in
    let forward : leb start (length candidates) ≡ true = ground (arith, h) in
    let inside : leb (start + count) (length candidates) ≡ true = ground (arith, h) in
    rw (batch_of, forward, read_range, inside)
      (ap
          (λ n. done (
            take (if ltb n full_batch_item_capacity then n else full_batch_item_capacity)
              (drop start candidates)))
          (sym (length-drop start candidates))
        ∙ ap done (take-capped (drop start candidates) full_batch_item_capacity))

next_start : (i : ℕ) → (i + 1) * 32 ≡ i * 32 + 32
next_start i = omega arith

-- With the last batch not empty, and all of the candidates reached.
joined_batches-drop :
    (candidates : List ℕ) (n i : ℕ)
    → length candidates ≤ (i + n) * 32
    → (i + n) * 32 < length candidates + 32
    → joined_batches candidates (indices_of n i) ≡ done (drop (i * 32) candidates)
unfolding joined_batches
joined_batches-drop candidates zero i h k =
    ap done (sym (length-eq-zero _ (length-drop (i * 32) candidates ∙ omega (arith, h))))
joined_batches-drop candidates (suc n) i h k =
    rw
      (
        batch_of_lem candidates i (omega (arith, k)),
        joined_batches-drop candidates n (i + 1) (omega (arith, h)) (omega (arith, k)),
        next_start i,
        drop-add (i * 32) 32 candidates,
      )
      (ap done (take-append-drop 32 (drop (i * 32) candidates)))

-- The batches of the full pass, in their order, are read inside the array of candidates and take
-- every candidate once: one behind the other, they are the candidates.
pub joined_batches-candidates :
    (candidates : List ℕ)
    → joined_batches candidates (indices_of (batches_for (length candidates)) 0) ≡ done candidates
unfolding batches_for
joined_batches-candidates candidates =
    joined_batches-drop candidates _ 0 (omega arith) (omega arith)
