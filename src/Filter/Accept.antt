-- ===== src/Filter/Accept.antt =====
-- Which basenames a filter accepts.
use bc_duplicate.Prelude.{
  ℕ, suc, ◌≡◌, ◌↔◌, ◌⊎◌, refl, Bool, true, false, not, inl, inr, List, [], ◌∷◌, some, arith, length,
  ltb, ap, ◌&&◌, if◌then◌else◌, All, Some,
}
use bc_duplicate.Filter.{Filter, basename_matches_any, accepts_file, accepts_directory}

some_patterns : (ps : List (List ℕ)) → ltb 0 (suc (length ps)) ≡ true
some_patterns ps = ground arith

not-eq-false : (b : Bool) → not b ≡ false → b ≡ true
not-eq-false true h = refl
not-eq-false false h = ground arith

one_guard : (a : Bool) → (if a then false else true) ≡ true → a ≡ false
one_guard true h = ground arith
one_guard false h = refl

two_guards :
    (a b : Bool)
    → (if a then false else if b then false else true) ≡ true
    → (a ≡ false) × (b ≡ false)
two_guards a b h = ground arith

module _ (fnmatch : List ℕ → List ℕ → Bool) where
  matches_any_iff :
      (ps : List (List ℕ)) (basename : List ℕ)
      → (basename_matches_any fnmatch ps basename ≡ true) ↔ Some (λ p. fnmatch p basename ≡ true) ps
  unfolding basename_matches_any
  matches_any_iff [] basename = ground arith
  matches_any_iff (p ∷ ps) basename = ground (arith, matches_any_iff ps basename)

  not_matches_iff :
      (ps : List (List ℕ)) (basename : List ℕ)
      → (basename_matches_any fnmatch ps basename ≡ false)
        ↔ All (λ p. fnmatch p basename ≡ false) ps
  unfolding basename_matches_any
  not_matches_iff [] basename = ground arith
  not_matches_iff (p ∷ ps) basename = ground (arith, not_matches_iff ps basename)

  exclude_test :
      (ps : List (List ℕ)) (basename : List ℕ)
      → (ltb 0 (length ps) && basename_matches_any fnmatch ps basename)
        ≡ basename_matches_any fnmatch ps basename
  unfolding basename_matches_any
  exclude_test [] basename = refl
  exclude_test (p ∷ ps) basename = rw (some_patterns ps) refl

  include_test_iff :
      (ps : List (List ℕ)) (basename : List ℕ)
      → ((ltb 0 (length ps) && not (basename_matches_any fnmatch ps basename)) ≡ false)
        ↔ ((ps ≡ []) ⊎ Some (λ p. fnmatch p basename ≡ true) ps)
  include_test_iff [] basename = (λ h. inl refl, λ h. refl)
  include_test_iff (p ∷ ps) basename =
      let m = matches_any_iff (p ∷ ps) basename in
      rw (some_patterns ps) (
        λ h. inr (m.0 (not-eq-false _ h)),
        λ h. elim h [ inl e ↦ absurd (ground arith) | inr s ↦ ap not (m.1 s) ],
      )

  -- A file is accepted exactly when no exclude pattern matches its basename and, if there are
  -- include patterns, one of them does.
  pub accepts_file_iff :
      (f : Filter) (basename : List ℕ)
      → (accepts_file fnmatch (some f) basename ≡ true) ↔ (
          All (λ p. fnmatch p basename ≡ false) f.exclude_patterns
          × ((f.include_patterns ≡ []) ⊎ Some (λ p. fnmatch p basename ≡ true) f.include_patterns))
  unfolding accepts_file
  accepts_file_iff f basename =
      let excluded = not_matches_iff f.exclude_patterns basename in
      let included = include_test_iff f.include_patterns basename in
      rw (exclude_test f.exclude_patterns basename) (
        λ h. let (out, in_) = two_guards _ _ h in (excluded.0 out, included.0 in_),
        λ h. rw (excluded.1 h.0, included.1 h.1) refl,
      )

  -- A directory is accepted exactly when no exclude pattern matches its basename; the include
  -- patterns do not count.
  pub accepts_directory_iff :
      (f : Filter) (basename : List ℕ)
      → (accepts_directory fnmatch (some f) basename ≡ true)
        ↔ All (λ p. fnmatch p basename ≡ false) f.exclude_patterns
  unfolding accepts_directory
  accepts_directory_iff f basename =
      let excluded = not_matches_iff f.exclude_patterns basename in
      rw (exclude_test f.exclude_patterns basename)
        (λ h. excluded.0 (one_guard _ h), λ h. rw (excluded.1 h) refl)
