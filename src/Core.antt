-- ===== src/Core.antt =====
-- What the program takes from the bc-core library, which is not part of the repository: the sort
-- behind `bc_core_sort_with_compare`, the copy behind `bc_core_copy`, and the comparison of bytes.
use bc_duplicate.Prelude.{
  ℕ, ◌+◌, ◌≤◌, ◌<◌, ◌≡◌, ◌⊎◌, Bool-cases, inl, inr, arith, leb, ◌↔◌, Bool, true, false, List, ◌++◌,
  length, take, drop,
}
use mathlib.Core.List.{Perm}
use bc_duplicate.Grouping.Runs.Clustered.{IsOrdered}

-- What a comparison function must be for a sort by it to make sense: a strict weak order.
pub record IsStrictOrder {A : Type 0} (less : A → A → Bool) : Type 0 where
  pub asym : (a b : A) → less a b ≡ true → less b a ≡ false
  pub not_less_trans : (a b c : A) → less b a ≡ false → less c b ≡ false → less c a ≡ false

-- No element is less than one that stands before it.
abbrev pub IsSorted : {A : Type 0} → (A → A → Bool) → List A → Type 0
IsSorted less = IsOrdered (λ x y. less y x ≡ false)

pub record CoreLibrary : Type 1 where
  -- A rearrangement that the comparison orders; equal elements may change places.
  pub sort : (A : Type 0) → (A → A → Bool) → List A → List A
  pub sort_ordered :
      (A : Type 0) (less : A → A → Bool) (l : List A)
      → IsStrictOrder less
      → IsSorted less (sort A less l)
  pub sort_perm : (A : Type 0) (less : A → A → Bool) (l : List A) → Perm (sort A less l) l
  -- Within an array, `count` elements from `source` are written from `target` on, where the two
  -- ranges do not overlap.
  pub copy : (A : Type 0) → List A → (target source count : ℕ) → List A
  pub copy_moves :
      (A : Type 0) (array : List A) (target source count : ℕ)
      → target + count ≤ source
      → source + count ≤ length array
      → copy A array target source count
        ≡ take target array ++ (take count (drop source array) ++ drop (target + count) array)
  -- `bc_core_compare` with a negative result, and `bc_core_equal`, over the first `count` bytes:
  -- an order that puts two blocks on a par exactly when they are equal.
  pub less_bytes : List ℕ → List ℕ → (count : ℕ) → Bool
  pub equal_bytes : List ℕ → List ℕ → (count : ℕ) → Bool
  pub less_bytes_order : (count : ℕ) → IsStrictOrder (λ a b. less_bytes a b count)
  pub equal_bytes_iff :
      (a b : List ℕ) (count : ℕ) → (equal_bytes a b count ≡ true) ↔ (take count a ≡ take count b)
  pub equal_bytes_not_less :
      (a b : List ℕ) (count : ℕ)
      → (equal_bytes a b count ≡ true)
        ↔ ((less_bytes a b count ≡ false) × (less_bytes b a count ≡ false))

module _ (core : CoreLibrary) (A : Type 0) where
  -- `bc_core_copy` moves elements down to a range that overlaps theirs, as `memmove` does. No text of
  -- the repository says so.
  abbrev pub MovesOverlaps : Type 0
  MovesOverlaps =
      (array : List A) (target source count : ℕ)
      → target ≤ source
      → source < target + count
      → source + count ≤ length array
      → core.copy A array target source count
        ≡ take target array ++ (take count (drop source array) ++ drop (target + count) array)

  pub copy_down :
      (array : List A) (target source count : ℕ)
      → MovesOverlaps ⊎ (target + count ≤ source)
      → target ≤ source
      → source + count ≤ length array
      → core.copy A array target source count
        ≡ take target array ++ (take count (drop source array) ++ drop (target + count) array)
  copy_down array target source count (inr apart) below inside =
      core.copy_moves A array target source count apart inside
  copy_down array target source count (inl overlaps) below inside =
      elim (Bool-cases (leb (target + count) source)) [
        | inl apart ↦ core.copy_moves A array target source count (ground (arith, apart)) inside
        | inr over ↦ overlaps array target source count below (ground (arith, over)) inside
      ]
