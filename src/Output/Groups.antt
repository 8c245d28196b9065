-- ===== src/Output/Groups.antt =====
-- src/output/: the groups, as blocks of lines (bc_duplicate_output_simple.c) and as the JSON document
-- (bc_duplicate_output_json.c). An entry that is read outside the array is an access out of bounds;
-- `done none` is a write that failed.
pub mod Inside
use bc_duplicate.Prelude.{
  ℕ, zero, suc, ◌+◌, List, [], ◌∷◌, Option, none, some, length, get_elem?, ltb, if◌then◌else◌,
}
use bc_duplicate.Types.{Algorithm, Entry, Group, Statistics}
use bc_duplicate.Outcome.{Outcome, done, out_of_memory, out_of_bounds}
use bc_duplicate.Text.{codes}
use bc_duplicate.Output.{WriterLibrary}
use bc_duplicate.Output.Simple.{newline}
use bc_duplicate.Output.Json.{separated, write_escaped, write_stats, algorithm_name}

-- A failed write ends a chain, and so does an access out of bounds.
infixl 5 ◌>>=◌
abbrev pub ◌>>=◌ {ℓ κ} :
    {A : Type ℓ} {B : Type κ} → Outcome (Option A) → (A → Outcome (Option B)) → Outcome (Option B)
done none >>= f = done none
done (some a) >>= f = f a
out_of_memory >>= f = out_of_memory
out_of_bounds >>= f = out_of_bounds

-- `entries[index]`
abbrev pub entry_at : List Entry → ℕ → Outcome (Option Entry)
entry_at entries index = elim (get_elem? entries index) [
  | none ↦ out_of_bounds
  | some e ↦ done (some e)
]

module _ (lib : WriterLibrary) where
  open lib use {Writer, write_bytes, write_char, write_decimal}

  -- The lines of `count` entries from `index` on.
  unfoldable pub write_paths :
      (count : ℕ) (index : ℕ) → List Entry → Writer → Outcome (Option Writer)
  write_paths zero index entries w = done (some w)
  write_paths (suc count) index entries w = do
    entry ← entry_at entries index
    w1 ← done (write_bytes w entry.absolute_path)
    w2 ← done (write_char w1 newline)
    write_paths count (index + 1) entries w2

  -- A blank line stands between two groups.
  unfoldable pub simple_write : List Entry → List Group → Writer → Outcome (Option Writer)
  simple_write entries [] w = done (some w)
  simple_write entries (g ∷ groups) w = do
    w1 ← write_paths g.entry_count g.start_index entries w
    w2 ← done (if ltb 0 (length groups) then write_char w1 newline else some w1)
    simple_write entries groups w2

  unfoldable pub write_files :
      (count : ℕ) (offset start : ℕ) → List Entry → Writer → Outcome (Option Writer)
  write_files zero offset start entries w = done (some w)
  write_files (suc count) offset start entries w = do
    w1 ← done (separated lib offset w)
    entry ← entry_at entries (start + offset)
    w2 ← done (write_escaped lib entry.absolute_path w1)
    write_files count (offset + 1) start entries w2

  unfoldable pub write_groups :
      (index : ℕ) → List Entry → List Group → Writer → Outcome (Option Writer)
  write_groups index entries [] w = done (some w)
  write_groups index entries (g ∷ groups) w = do
    w1 ← done (separated lib index w)
    w2 ← done (write_bytes w1 (codes "{\"size\":"))
    w3 ← done (write_decimal w2 g.file_size)
    w4 ← done (write_bytes w3 (codes ",\"files\":["))
    w5 ← write_files g.entry_count 0 g.start_index entries w4
    w6 ← done (write_bytes w5 (codes "]}"))
    write_groups (index + 1) entries groups w6

  unfoldable pub json_write :
      Algorithm → List Entry → List Group → Statistics → Writer → Outcome (Option Writer)
  json_write algorithm entries groups statistics w = do
    w1 ←
        done (
          write_bytes w (codes "{\"version\":\"1.0.0\",\"tool\":\"bc-duplicate\",\"algorithm\":\""))
    w2 ← done (write_bytes w1 (codes (algorithm_name lib algorithm)))
    w3 ← done (write_bytes w2 (codes "\","))
    w4 ← done (write_stats lib statistics w3)
    w5 ← done (write_bytes w4 (codes ",\"groups\":["))
    w6 ← write_groups 0 entries groups w5
    done (write_bytes w6 (codes "]}\n"))
