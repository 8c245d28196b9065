-- ===== src/Text.antt =====
-- C strings as lists of bytes: literals, and include/internal/bc_duplicate_strings_internal.h.
use Prim.Native.Char.{code}
use Prim.Native.String.{String}
use bc_duplicate.Prelude.{
  ℕ, ◌≡◌, ◌↔◌, sym, ap, ◌∙◌, Bool, true, false, Bool-cases, inl, inr, List, [], ◌∷◌, arith, length,
  take, take_full, ◌==◌, if◌then◌else◌,
}
use bc_duplicate.Core.{CoreLibrary}

abbrev pub codes : String → List ℕ
codes String.[] = []
codes (String.◌∷◌ c s) = code c ∷ codes s

module _ (core : CoreLibrary) where
  unfoldable pub strings_equal : List ℕ → List ℕ → Bool
  strings_equal left right =
      if length left == length right then core.equal_bytes left right (length left) else false

  pub strings_equal_iff : (l r : List ℕ) → (strings_equal l r ≡ true) ↔ (l ≡ r)
  unfolding strings_equal
  strings_equal_iff l r = elim (Bool-cases (length l == length r)) [
    | inl same ↦
        let whole : take (length l) r ≡ r = take_full (length l) r (ground arith) in
        let front : take (length l) l ≡ l = take_full (length l) l (omega arith) in
        let e = core.equal_bytes_iff l r (length l) in
        rw same (λ h. sym front ∙ e.0 h ∙ whole, λ h. e.1 (front ∙ h ∙ sym whole))
    | inr apart ↦ rw apart (λ h. ground arith, λ h. ground (arith, ap length h))
  ]
