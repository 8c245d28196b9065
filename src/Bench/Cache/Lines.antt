-- ===== src/Bench/Cache/Lines.antt =====
-- The lines of a text, and the comparison of strings as one that computes.
use bc_duplicate.Prelude.{
  ℕ, ◌<◌, ◌≡◌, refl, sym, ap, ◌∙◌, Bool, true, false, not, ◌&&◌, Bool-cases, inl, inr, List, [],
  ◌∷◌, ◌++◌, arith, length, ◌==◌, All,
}
use mathlib.Core.List.{append_assoc}
use bc_duplicate.Text.{strings_equal, strings_equal_iff}
use bc_duplicate.Core.{CoreLibrary}
use bc_duplicate.Output.Simple.{newline}
use bc_duplicate.Bench.Cache.{line_capacity}

-- A text without a newline.
abbrev pub is_line : List ℕ → Bool
is_line [] = true
is_line (c ∷ cs) = not (c == newline) && is_line cs

abbrev pub unlines : List (List ℕ) → List ℕ
unlines [] = []
unlines (line ∷ lines) = (line ++ newline ∷ []) ++ unlines lines

-- What the buffered reader gives for the bytes of a file: its lines, if they fit.
pub record ReadsLines (read_lines : List ℕ → List (List ℕ)) : Type 0 where
  pub at_end : read_lines [] ≡ []
  pub first_line :
      (line rest : List ℕ)
      → is_line line ≡ true
      → length line < line_capacity
      → read_lines ((line ++ newline ∷ []) ++ rest) ≡ line ∷ read_lines rest

abbrev pub IsShortLine : List ℕ → Type 0
IsShortLine line = (is_line line ≡ true) × (length line < line_capacity)

pub read_lines-unlines :
    (read_lines : List ℕ → List (List ℕ)) (lines : List (List ℕ))
    → ReadsLines read_lines
    → All IsShortLine lines
    → read_lines (unlines lines) ≡ lines
read_lines-unlines read_lines [] r h = r.at_end
read_lines-unlines read_lines (line ∷ lines) r h =
    r.first_line line (unlines lines) h.0.0 h.0.1
    ∙ ap (λ l. line ∷ l) (read_lines-unlines read_lines lines r h.1)

pub is_line-append : (a b : List ℕ) → is_line a ≡ true → is_line b ≡ true → is_line (a ++ b) ≡ true
is_line-append [] b h k = k
is_line-append (c ∷ a) b h k = ground (arith, h, is_line-append a b)

pub unlines-append : (a b : List (List ℕ)) → unlines (a ++ b) ≡ unlines a ++ unlines b
unlines-append [] b = refl
unlines-append (line ∷ a) b =
    ap (λ t. (line ++ newline ∷ []) ++ t) (unlines-append a b)
    ∙ sym (append_assoc (line ++ newline ∷ []) (unlines a) (unlines b))

-- Comparison byte by byte, which computes.
abbrev pub bytes_equal : List ℕ → List ℕ → Bool
bytes_equal [] [] = true
bytes_equal [] (d ∷ ds) = false
bytes_equal (c ∷ cs) [] = false
bytes_equal (c ∷ cs) (d ∷ ds) = c == d && bytes_equal cs ds

bytes_equal_sound : (l r : List ℕ) → bytes_equal l r ≡ true → l ≡ r
bytes_equal_sound [] [] h = refl
bytes_equal_sound [] (d ∷ ds) h = ground arith
bytes_equal_sound (c ∷ cs) [] h = ground arith
bytes_equal_sound (c ∷ cs) (d ∷ ds) h = ground (arith, bytes_equal_sound cs ds)

bytes_equal_refl : (l : List ℕ) → bytes_equal l l ≡ true
bytes_equal_refl [] = refl
bytes_equal_refl (c ∷ cs) = ground (arith, bytes_equal_refl cs)

module _ (core : CoreLibrary) where
  pub strings_equal-bytes : (l r : List ℕ) → strings_equal core l r ≡ bytes_equal l r
  strings_equal-bytes l r = elim (Bool-cases (bytes_equal l r)) [
    | inl same ↦ (strings_equal_iff core l r).1 (bytes_equal_sound l r same) ∙ sym same
    | inr apart ↦ elim (Bool-cases (strings_equal core l r)) [
      | inr differ ↦ differ ∙ sym apart
      | inl same ↦
          let e = (strings_equal_iff core l r).0 same in
          ground (arith, apart, bytes_equal_refl l, ap (bytes_equal l) e)
    ]
  ]
