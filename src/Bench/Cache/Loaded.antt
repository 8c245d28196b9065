-- ===== src/Bench/Cache/Loaded.antt =====
-- The signature of a host fits in its buffers, and what a line of the cache file sets.
use bc_duplicate.Prelude.{
  ℕ, ◌+◌, ◌<◌, ◌≡◌, ap, ◌∙◌, false, Bool-cases, Option-cases, inl, inr, List, [], ◌∷◌, Option, none,
  some, arith, length, drop, take_full, length-take, ltb, leb, ◌==◌,
}
use mathlib.Core.Path.{subst, fun_ext}
use mathlib.Core.Option.{some-injective}
use bc_duplicate.Chain.{>>=-eq-some}
use bc_duplicate.Text.{codes, strings_equal}
use bc_duplicate.Core.{CoreLibrary}
use bc_duplicate.Bench.{FloatLibrary}
use bc_duplicate.Bench.Cache.{
  signature_capacity, line_capacity, Host, Signature, drop_blanks, behind_colon, cpuinfo_line,
  cpuinfo_lines, read_cpuinfo_field, or_empty, read_host_signature, split_at_equals, CacheFields,
  cut_value, store_field, load_line, load_lines,
}
use bc_duplicate.Bench.Cache.Lines.{bytes_equal, strings_equal-bytes}

module _ (core : CoreLibrary) where
  abbrev Fits : Option (List ℕ) → Type 0
  Fits none = Unit
  Fits (some value) = length value < signature_capacity

  behind_colon-Fits : (rest : List ℕ) → Fits (behind_colon signature_capacity rest)
  unfolding behind_colon
  behind_colon-Fits [] = tt
  behind_colon-Fits (c ∷ cs) = elim (Bool-cases (c == 58)) [
    | inl colon ↦ rw colon (omega (arith, length-take 255 (drop_blanks cs)))
    | inr other ↦ rw other tt
  ]

  cpuinfo_line-Fits : (name line : List ℕ) → Fits (cpuinfo_line core name signature_capacity line)
  unfolding cpuinfo_line
  cpuinfo_line-Fits name line = elim (Bool-cases (ltb (length line) (length name))) [
    | inl short ↦ rw short tt
    | inr long ↦ rw long (elim (Bool-cases (core.equal_bytes line name (length name))) [
      | inl same ↦ rw same (behind_colon-Fits (drop_blanks (drop (length name) line)))
      | inr apart ↦ rw apart tt
    ])
  ]

  cpuinfo_lines-Fits :
      (name : List ℕ) (lines : List (List ℕ))
      → Fits (cpuinfo_lines core name signature_capacity lines)
  unfolding cpuinfo_lines
  cpuinfo_lines-Fits name [] = tt
  cpuinfo_lines-Fits name (line ∷ lines) =
      elim (Option-cases (cpuinfo_line core name signature_capacity line)) [
        | inl e ↦ rw (cpuinfo_lines, e) (cpuinfo_lines-Fits name lines)
        | inr (value, e) ↦ rw (cpuinfo_lines, e) (subst Fits e (cpuinfo_line-Fits name line))
      ]

  field-Fits :
      (lines : Option (List (List ℕ))) (name : List ℕ)
      → Fits (read_cpuinfo_field core lines name signature_capacity)
  unfolding read_cpuinfo_field
  field-Fits none name = tt
  field-Fits (some lines) name = cpuinfo_lines-Fits name lines

  or_empty-Fits : (o : Option (List ℕ)) → Fits o → length (or_empty core o) < signature_capacity
  or_empty-Fits none h = omega arith
  or_empty-Fits (some value) h = h

  -- The texts of a signature fit in their buffers.
  pub record IsFitting (s : Signature) : Type 0 where
    pub model_fits : length s.cpu_model < signature_capacity
    pub microcode_fits : length s.microcode < signature_capacity
    pub kernel_fits : length s.kernel_version < signature_capacity

  pub read_host_signature-IsFitting :
      (host : Host) (s : Signature) → read_host_signature core host ≡ some s → IsFitting s
  unfolding read_host_signature
  read_host_signature-IsFitting host s h =
      let model_of = read_cpuinfo_field core host.cpuinfo (codes "model name") signature_capacity in
      let (model, e, h1) = >>=-eq-some model_of _ h in
      let (release, e', h2) = >>=-eq-some host.release _ h1 in
      let microcode =
        or_empty core
          (read_cpuinfo_field core host.cpuinfo (codes "microcode") signature_capacity) in
      let made = some-injective _ _ h2 in
      subst IsFitting made (record {
        model_fits = subst Fits e (field-Fits host.cpuinfo (codes "model name"));
        microcode_fits = or_empty-Fits _ (field-Fits host.cpuinfo (codes "microcode"));
        kernel_fits = omega (arith, length-take 255 release);
      })

  module _ (float : FloatLibrary) (parse_double : List ℕ → Option float.Double) where
    pub cut_value-lem :
        (value : List ℕ)
        → length value < signature_capacity
        → cut_value core float parse_double value ≡ value
    cut_value-lem value h =
        let fits : ltb signature_capacity (length value + 1) ≡ false = ground (arith, h) in
        rw fits (take_full (length value) value (omega arith))

    -- A line that fits, with its key.
    pub load_line_lem :
        (line key value : List ℕ) (lines : List (List ℕ))
        (f g : CacheFields core float parse_double)
        → length line < line_capacity
        → split_at_equals core line ≡ some (key, value)
        → load_lines core float parse_double lines
            (store_field core float parse_double bytes_equal key value f)
          ≡ g
        → load_lines core float parse_double (line ∷ lines) f ≡ g
    unfolding load_lines load_line
    load_line_lem line key value lines f g short split h =
        let same : strings_equal core ≡ bytes_equal =
          fun_ext (λ l. fun_ext (λ r. strings_equal-bytes core l r)) in
        let fits : leb line_capacity (length line) ≡ false = ground (arith, short) in
        let step : load_line core float parse_double line f
            ≡ store_field core float parse_double bytes_equal key value f =
          rw (load_line, fits, split)
            (ap (λ t. store_field core float parse_double t key value f) same) in
        ap (load_lines core float parse_double lines) step ∙ h
