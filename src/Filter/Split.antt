-- ===== src/Filter/Split.antt =====
-- The patterns are the lines of the text, none lost: joined by newlines they give it back.
use bc_duplicate.Prelude.{ℕ, ◌+◌, ◌≡◌, ◌≢◌, List, [], ◌∷◌, ◌++◌, Option, length, All}
use mathlib.Core.Option
use bc_duplicate.Filter.{newline, count_patterns}

-- The words with a newline before each but the first.
abbrev pub join_lines : List ℕ → List (List ℕ) → List ℕ
join_lines word [] = word
join_lines word (w ∷ ws) = word ++ newline ∷ join_lines w ws

abbrev pub join : List (List ℕ) → List ℕ
join [] = []
join (w ∷ ws) = join_lines w ws

-- No newline stands in a word.
abbrev pub IsLine : List ℕ → Type 0
IsLine = All (λ c. c ≢ newline)

-- With room for every newline the words are the lines of the text.
record IsSplit (text : List ℕ) (r : List ℕ × List (List ℕ)) : Type 0 where
  joined : join_lines r.0 r.1 ≡ text
  counted : length r.1 + 1 ≡ count_patterns text
  first_line : IsLine r.0
  lines : All IsLine r.1
