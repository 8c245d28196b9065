-- ===== src/Grouping/Runs.antt =====
-- The scan for runs that the three functions of src/grouping share: from `cursor`, the inner `while`
-- counts the entries that agree with the first one, and a run of two or more becomes a group.
pub mod View
pub mod Classes
pub mod Clustered
pub mod Layout
use bc_duplicate.Prelude.{
  ℕ, zero, suc, ◌+◌, Bool, List, [], ◌∷◌, length, take, drop, ltb, if◌then◌else◌,
}
use bc_duplicate.Types.{Entry, Group}
use bc_duplicate.Outcome.{Outcome, done, ◌>>=◌}
use bc_duplicate.Grouping.Buffer.{GroupBuffer, append_group}

-- How often the inner `while` advances the cursor.
abbrev pub same_length {ℓ} : {A : Type ℓ} → (A → Bool) → List A → ℕ
same_length same [] = 0
same_length same (x ∷ xs) = if same x then suc (same_length same xs) else 0

-- `base` is the start of the scanned range in the array of entries, `cursor` the position in the
-- range, `rest` the entries from there on. Each round takes at least one entry, so fuel equal to
-- the length of the range ends with nothing left. `tag` is the file size that a group records.
module _ (grant : ℕ → Bool) (same : Entry → Entry → Bool) (tag : Entry → ℕ) (base : ℕ) where
  unfoldable pub scan_runs : (fuel cursor : ℕ) → List Entry → GroupBuffer → Outcome GroupBuffer
  scan_runs zero cursor rest b = done b
  scan_runs (suc fuel) cursor [] b = done b
  scan_runs (suc fuel) cursor (x ∷ xs) b =
      let more = same_length (same x) xs in
      let run_length = suc more in
      let group : Group = record {
        start_index = base + cursor;
        entry_count = run_length;
        file_size = tag x;
      } in
      (if ltb run_length 2 then done b else append_group grant group b)
      >>= scan_runs fuel (cursor + run_length) (drop more xs)

-- The same runs as lists of entries, each with the recorded size: what the groups stand for.
module _ {ℓ} {A : Type ℓ} (same : A → A → Bool) (tag : A → ℕ) where
  unfoldable pub duplicate_runs : (fuel : ℕ) → List A → List (ℕ × List A)
  duplicate_runs zero rest = []
  duplicate_runs (suc fuel) [] = []
  duplicate_runs (suc fuel) (x ∷ xs) =
      let more = same_length (same x) xs in
      let later = duplicate_runs fuel (drop more xs) in
      if ltb (suc more) 2 then later else (tag x, x ∷ take more xs) ∷ later
