-- ===== src/Filter.antt =====
-- src/filter/bc_duplicate_filter.c: the lists of include and exclude patterns, and which basenames
-- they accept. A C string is the list of its bytes; `fnmatch` is a parameter.
pub mod Split
pub mod Accept
use bc_duplicate.Prelude.{
  ℕ, suc, ◌+◌, ◌-◌, ◌*◌, Bool, true, false, not, ◌&&◌, List, [], ◌∷◌, Option, none, some, length,
  ltb, ◌==◌, if◌then◌else◌,
}
use bc_duplicate.Outcome.{Outcome, done, out_of_memory, ◌>>=◌}

abbrev pub newline : ℕ
newline = 10

-- sizeof(char*)
abbrev pub pointer_bytes : ℕ
pointer_bytes = 8

-- sizeof(bc_duplicate_filter_t)
abbrev pub filter_bytes : ℕ
filter_bytes = 48

pub record Filter : Type 0 where
  pub include_patterns : List (List ℕ)
  pub exclude_patterns : List (List ℕ)

-- `count` of the first pass: one more than the newlines.
unfoldable pub count_patterns : List ℕ → ℕ
count_patterns [] = 1
count_patterns (c ∷ cs) = if c == newline then suc (count_patterns cs) else count_patterns cs

-- The second pass ends a pattern at each newline. `room` is how many further pointers the array
-- holds; a pattern that finds no room is not stored.
unfoldable pub split_patterns : (room : ℕ) → List ℕ → List ℕ × List (List ℕ)
split_patterns room [] = ([], [])
split_patterns room (c ∷ cs) =
    let (word, words) = split_patterns (if c == newline then room - 1 else room) cs in
    if c == newline then ([], if ltb 0 room then word ∷ words else words) else (c ∷ word, words)

module _ (grant : ℕ → Bool) where
  -- `none` and the empty text give no patterns.
  unfoldable pub count_and_split : Option (List ℕ) → Outcome (List (List ℕ))
  unfolding count_patterns split_patterns
  count_and_split none = done []
  count_and_split (some []) = done []
  count_and_split (some (c ∷ cs)) =
      let text = c ∷ cs in
      let count = count_patterns text in
      if grant (length text + 1)
      then (if grant (count * pointer_bytes)
          then (let (word, words) = split_patterns (count - 1) text in done (word ∷ words))
          else out_of_memory)
      else out_of_memory

  unfoldable pub create : Option (List ℕ) → Option (List ℕ) → Outcome Filter
  unfolding count_and_split
  create include_list exclude_list =
      if grant filter_bytes
      then (do
        included ← count_and_split include_list
        excluded ← count_and_split exclude_list
        done (record { include_patterns = included; exclude_patterns = excluded }))
      else out_of_memory

-- `fnmatch(pattern, basename, 0) == 0`
module _ (fnmatch : List ℕ → List ℕ → Bool) where
  unfoldable pub basename_matches_any : List (List ℕ) → List ℕ → Bool
  basename_matches_any [] basename = false
  basename_matches_any (p ∷ ps) basename =
      let rest = basename_matches_any ps basename in if fnmatch p basename then true else rest

  -- `none` is the null filter of a run without patterns.
  unfoldable pub accepts_file : Option Filter → List ℕ → Bool
  accepts_file none basename = true
  accepts_file (some f) basename =
      if ltb 0 (length f.exclude_patterns) && basename_matches_any f.exclude_patterns basename
      then false
      else if ltb 0 (length f.include_patterns)
          && not (basename_matches_any f.include_patterns basename)
      then false
      else true

  unfoldable pub accepts_directory : Option Filter → List ℕ → Bool
  accepts_directory none basename = true
  accepts_directory (some f) basename =
      if ltb 0 (length f.exclude_patterns) && basename_matches_any f.exclude_patterns basename
      then false
      else true
