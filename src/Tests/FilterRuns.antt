-- ===== src/Tests/FilterRuns.antt =====
-- The filter on short lists of patterns, with a match that is equality of the first byte.
use bc_duplicate.Prelude.{
  ℕ, ◌≡◌, ◌↔◌, ◌⊎◌, refl, Bool, true, false, List, [], ◌∷◌, some, All, Some, ◌==◌,
}
use mathlib.Core.Option
use bc_duplicate.Outcome.{done}
use bc_duplicate.Text.{codes}
use bc_duplicate.Filter.{
  Filter, count_and_split, accepts_file, accepts_directory, basename_matches_any,
}
use bc_duplicate.Filter.Accept.{accepts_file_iff, accepts_directory_iff}

abbrev granted : ℕ → Bool
granted n = true

abbrev first_byte : List ℕ → List ℕ → Bool
first_byte (p ∷ ps) (b ∷ bs) = p == b
first_byte pattern basename = false

abbrev sources : Filter
sources = record {
  include_patterns = codes "c" ∷ codes "h" ∷ [];
  exclude_patterns = codes "x" ∷ [];
}

two_lines : count_and_split granted (some (codes "c\nh")) ≡ done (codes "c" ∷ codes "h" ∷ [])
unfolding count_and_split
two_lines = refl

accepted : accepts_file first_byte (some sources) (codes "home") ≡ true
unfolding accepts_file basename_matches_any
accepted = refl

refused : accepts_file first_byte (some sources) (codes "xhome") ≡ false
unfolding accepts_file basename_matches_any
refused = refl

accepts_file_iff_example : (accepts_file first_byte (some sources) (codes "home") ≡ true) ↔ (
    All (λ p. first_byte p (codes "home") ≡ false) sources.exclude_patterns
    × ((sources.include_patterns ≡ [])
        ⊎ Some (λ p. first_byte p (codes "home") ≡ true) sources.include_patterns))
accepts_file_iff_example = accepts_file_iff first_byte sources (codes "home")

accepts_directory_iff_example :
    (accepts_directory first_byte (some sources) (codes "xyz") ≡ true)
    ↔ All (λ p. first_byte p (codes "xyz") ≡ false) sources.exclude_patterns
accepts_directory_iff_example = accepts_directory_iff first_byte sources (codes "xyz")
