-- ===== src/Cli/Bind.antt =====
-- What a successful binding says of the stored values.
use bc_duplicate.Prelude.{
  ℕ, ◌+◌, ◌≤◌, ◌<◌, ◌≡◌, ◌⊎◌, refl, sym, ap, ap₂, ◌∙◌, Bool-cases, inl, inr, List, ◌++◌, some,
  arith, length, ◌==◌, if◌then◌else◌,
}
use mathlib.Core.Path.{subst}
use mathlib.Core.Option.{some-injective}
use bc_duplicate.Chain.{◌>>=◌, >>=-eq-some}
use bc_duplicate.Types.{ThreadsMode}
use bc_duplicate.Core.{CoreLibrary}
use bc_duplicate.Text.{codes, strings_equal, strings_equal_iff}
use bc_duplicate.Cli.{CliLibrary, format_command_key, parse_whole, bind_threads}

module _ (core : CoreLibrary) (lib : CliLibrary) where
  -- The parser reads the number from all of the text, which is not empty.
  abbrev pub IsDecimal : List ℕ → ℕ → Type 0
  IsDecimal value n = (lib.parse_decimal value ≡ some (n, length value)) × (0 < length value)

  parse_whole-IsDecimal :
      (value : List ℕ) (n : ℕ) → parse_whole core lib value ≡ some n → IsDecimal value n
  unfolding parse_whole
  parse_whole-IsDecimal value n = elim (Bool-cases (length value == 0)) [
    | inl empty ↦ rw empty (λ h. ground (arith, h))
    | inr more ↦ rw more (λ h.
        let (r, e, k) = >>=-eq-some (lib.parse_decimal value) _ h in
        elim (Bool-cases (r.1 == length value)) [
          | inl whole ↦
              let q : r.0 ≡ n = some-injective _ _ (sym (rw whole refl) ∙ k) in
              let w : r.1 ≡ length value = ground (arith, whole) in
              (e ∙ ap some (ap₂ (λ a b. (a, b)) q w), ground (arith, more))
          | inr part ↦ ground (arith, rw part at k)
        ])
  ]

  -- What a thread mode and its count mean as an option value.
  abbrev pub MeansThreads : List ℕ → ThreadsMode × ℕ → Type 0
  MeansThreads value (ThreadsMode.auto, n) = (value ≡ codes "auto") × (n ≡ 0)
  MeansThreads value (ThreadsMode.io, n) = (value ≡ codes "io") × (n ≡ 0)
  MeansThreads value (ThreadsMode.mono, n) = ((value ≡ codes "mono") ⊎ IsDecimal value 0) × (n ≡ 0)
  MeansThreads value (ThreadsMode.explicit, n) = IsDecimal value n × (0 < n)

  numeric_threads :
      (value : List ℕ) (r : ThreadsMode × ℕ)
      → (parse_whole core lib value >>= λ n.
          if n == 0 then some (ThreadsMode.mono, 0) else some (ThreadsMode.explicit, n))
        ≡ some r
      → MeansThreads value r
  numeric_threads value r h =
      let (n, e, k) = >>=-eq-some (parse_whole core lib value) _ h in
      elim (Bool-cases (n == 0)) [
        | inl zero ↦
            let q : (ThreadsMode.mono, 0) ≡ r = some-injective _ _ (sym (rw zero refl) ∙ k) in
            let here : n ≡ 0 = ground (arith, zero) in
            subst (MeansThreads value) q
              (inr (subst (IsDecimal value) here (parse_whole-IsDecimal value n e)), refl)
        | inr positive ↦
            let q : (ThreadsMode.explicit, n) ≡ r =
              some-injective _ _ (sym (rw positive refl) ∙ k) in
            subst (MeansThreads value) q (parse_whole-IsDecimal value n e, ground (arith, positive))
      ]

  -- A bound --threads value means what its mode says: a keyword, or a number that the decimal
  -- parser reads from the whole text, positive for an explicit count and 0 for mono; no other mode has a count.
  pub bind_threads-MeansThreads :
      (value : List ℕ) (r : ThreadsMode × ℕ)
      → bind_threads core lib value ≡ some r
      → MeansThreads value r
  unfolding bind_threads
  bind_threads-MeansThreads value r = elim (Bool-cases (strings_equal core value (codes "mono"))) [
    | inl mono ↦ rw mono (λ h.
        subst (MeansThreads value) (some-injective _ _ h)
          (inl ((strings_equal_iff core _ _).0 mono), refl))
    | inr n1 ↦ rw n1 (elim (Bool-cases (strings_equal core value (codes "auto"))) [
      | inl auto ↦ rw auto (λ h.
          subst (MeansThreads value) (some-injective _ _ h)
            ((strings_equal_iff core _ _).0 auto, refl))
      | inr n2 ↦ rw n2 (elim (Bool-cases (strings_equal core value (codes "io"))) [
        | inl io ↦ rw io (λ h.
            subst (MeansThreads value) (some-injective _ _ h)
              ((strings_equal_iff core _ _).0 io, refl))
        | inr n3 ↦ rw n3 (numeric_threads value r)
      ])
    ])
  ]

  -- The key of an option is the command's name and the suffix.
  pub key_of :
      (name suffix : List ℕ)
      → length name + length suffix ≤ 127
      → format_command_key core lib 128 name suffix ≡ some (name ++ suffix)
  unfolding format_command_key
  key_of name suffix h = lib.write_two_fits 127 name suffix h
