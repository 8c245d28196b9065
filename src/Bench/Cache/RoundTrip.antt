-- ===== src/Bench/Cache/RoundTrip.antt =====
-- The cache file that is stored for a host gives the stored speeds back on that host.
use bc_duplicate.Prelude.{
  ℕ, ◌≤◌, ◌≡◌, refl, sym, ap, ◌∙◌, Bool, true, Bool-cases, inl, inr, List, [], ◌++◌, Option, none,
  some, arith, length, length-append, if◌then◌else◌, All,
}
use mathlib.Core.Option.{some-injective}
use bc_duplicate.Chain.{◌>>=◌, >>=-eq-some}
use bc_duplicate.Text.{codes, strings_equal_iff}
use bc_duplicate.Core.{CoreLibrary}
use bc_duplicate.Output.{WriterLibrary}
use bc_duplicate.Bench.{FloatLibrary, ThroughputConstants}
use bc_duplicate.Bench.Cache.{
  Host, Signature, read_host_signature, split_at_equals, CacheFields, no_fields, cut_value,
  store_field, load_lines, same_signature, constants_of, load,
}
use bc_duplicate.Bench.Cache.Store.{DoubleWriter, write_cache, ensure_parent_directory, store}
use bc_duplicate.Bench.Cache.Lines.{
  is_line, unlines, ReadsLines, IsShortLine, read_lines-unlines, is_line-append,
}
use bc_duplicate.Bench.Cache.Loaded.{
  IsFitting, read_host_signature-IsFitting, cut_value-lem, load_line_lem,
}
use bc_duplicate.Bench.Cache.Written.{text_lines, double_lines, write_cache-Adds}

-- The texts of a signature hold no newline.
pub record IsPlain (s : Signature) : Type 0 where
  pub model_plain : is_line s.cpu_model ≡ true
  pub microcode_plain : is_line s.microcode ≡ true
  pub kernel_plain : is_line s.kernel_version ≡ true

module _ (float : FloatLibrary) (output : WriterLibrary) (doubles : DoubleWriter float output) where
  -- What is asked of the text of a double: it is one short line, and is read back, rounded.
  pub record ReadsDoubles (parse_double : List ℕ → Option float.Double) : Type 0 where
    pub rounded : float.Double → float.Double
    pub parse_back : (d : float.Double) → parse_double (doubles.decimals d) ≡ some (rounded d)
    pub one_line : (d : float.Double) → is_line (doubles.decimals d) ≡ true
    pub short : (d : float.Double) → length (doubles.decimals d) ≤ 400

  module _ (core : CoreLibrary) (parse_double : List ℕ → Option float.Double)
      (reads : ReadsDoubles parse_double) where
    abbrev pub rounded_constants : ThroughputConstants float → ThroughputConstants float
    rounded_constants c = record {
      xxh3_gigabytes_per_second = reads.rounded c.xxh3_gigabytes_per_second;
      xxh128_gigabytes_per_second = reads.rounded c.xxh128_gigabytes_per_second;
      sha256_gigabytes_per_second = reads.rounded c.sha256_gigabytes_per_second;
      memory_bandwidth_gigabytes_per_second = reads.rounded c.memory_bandwidth_gigabytes_per_second;
      parallel_startup_overhead_microseconds =
          reads.rounded c.parallel_startup_overhead_microseconds;
      per_file_cost_warm_microseconds = reads.rounded c.per_file_cost_warm_microseconds;
    }

    abbrev fields_of : Signature → ThroughputConstants float → CacheFields core float parse_double
    fields_of s c = record {
      signature = record {
        cpu_model = cut_value core float parse_double s.cpu_model;
        microcode = cut_value core float parse_double s.microcode;
        kernel_version = cut_value core float parse_double s.kernel_version;
      };
      xxh3 = parse_double (doubles.decimals c.xxh3_gigabytes_per_second);
      xxh128 = parse_double (doubles.decimals c.xxh128_gigabytes_per_second);
      sha256 = parse_double (doubles.decimals c.sha256_gigabytes_per_second);
      memory_bandwidth = parse_double (doubles.decimals c.memory_bandwidth_gigabytes_per_second);
      parallel_startup = parse_double (doubles.decimals c.parallel_startup_overhead_microseconds);
      per_file_cost = parse_double (doubles.decimals c.per_file_cost_warm_microseconds);
    }

    no_lines :
        (f : CacheFields core float parse_double) → load_lines core float parse_double [] f ≡ f
    unfolding load_lines
    no_lines f = refl

    load_lines-fields :
        (s : Signature) (c : ThroughputConstants float)
        → IsFitting core s
        → load_lines core float parse_double
            (text_lines float output doubles s ++ double_lines float output doubles c)
            (no_fields core float parse_double)
          ≡ fields_of s c
    unfolding split_at_equals store_field
    load_lines-fields s c fits =
        let line = load_line_lem core float parse_double in
        line _ _ _ _ _ _ (omega (arith, fits.model_fits)) refl (
          line _ _ _ _ _ _ (omega (arith, fits.microcode_fits)) refl (
            line _ _ _ _ _ _ (omega (arith, fits.kernel_fits)) refl (
              line _ _ _ _ _ _ (omega (arith, reads.short c.xxh3_gigabytes_per_second)) refl (
                line _ _ _ _ _ _ (omega (arith, reads.short c.xxh128_gigabytes_per_second)) refl (
                  line _ _ _ _ _ _ (omega (arith, reads.short c.sha256_gigabytes_per_second)) refl (
                    line _ _ _ _ _ _
                      (omega (arith, reads.short c.memory_bandwidth_gigabytes_per_second)) refl
                      (line _ _ _ _ _ _
                        (omega (arith, reads.short c.parallel_startup_overhead_microseconds)) refl
                        (line _ _ _ _ _ _
                          (omega (arith, reads.short c.per_file_cost_warm_microseconds)) refl
                          (no_lines (fields_of s c))))))))))

    lines-short :
        (s : Signature) (c : ThroughputConstants float)
        → IsFitting core s
        → IsPlain s
        → All IsShortLine (text_lines float output doubles s ++ double_lines float output doubles c)
    lines-short s c fits plain =
        let text = λ (key value : List ℕ) (k : is_line key ≡ true) (v : is_line value ≡ true).
          is_line-append key value k v in
        let double : (key : List ℕ)
            → is_line key ≡ true
            → length key ≤ 100
            → (d : float.Double) → IsShortLine (key ++ doubles.decimals d) =
          λ key k n d. (
            is_line-append key _ k (reads.one_line d),
            omega (arith, n, reads.short d, length-append key (doubles.decimals d)),
          ) in
        (
          (
            is_line-append (codes "cpu_model=") s.cpu_model refl plain.model_plain,
            omega (arith, fits.model_fits),
          ),
          (
            (
              is_line-append (codes "microcode=") s.microcode refl plain.microcode_plain,
              omega (arith, fits.microcode_fits),
            ),
            (
              (
                is_line-append (codes "kernel_version=") s.kernel_version refl plain.kernel_plain,
                omega (arith, fits.kernel_fits),
              ),
              (
                double (codes "xxh3_gbps=") refl (omega arith) c.xxh3_gigabytes_per_second,
                (
                  double (codes "xxh128_gbps=") refl (omega arith) c.xxh128_gigabytes_per_second,
                  (
                    double (codes "sha256_gbps=") refl (omega arith) c.sha256_gigabytes_per_second,
                    (
                      double (codes "mem_bw_gbps=") refl (omega arith)
                          c.memory_bandwidth_gigabytes_per_second,
                      (
                        double (codes "parallel_startup_us=") refl (omega arith)
                            c.parallel_startup_overhead_microseconds,
                        (
                          double (codes "per_file_cost_us=") refl (omega arith)
                              c.per_file_cost_warm_microseconds,
                          tt,
                        ),
                      ),
                    ),
                  ),
                ),
              ),
            ),
          ),
        )

    same_signature_refl : (s : Signature) → same_signature core float parse_double s s ≡ true
    unfolding same_signature
    same_signature_refl s =
        rw
          (
            (strings_equal_iff core s.cpu_model s.cpu_model).1 refl,
            (strings_equal_iff core s.microcode s.microcode).1 refl,
            (strings_equal_iff core s.kernel_version s.kernel_version).1 refl,
          )
          refl

    constants_of-fields :
        (s : Signature) (c : ThroughputConstants float)
        → constants_of core float parse_double (fields_of s c) ≡ some (rounded_constants c)
    unfolding constants_of
    constants_of-fields s c =
        rw
          (
            constants_of,
            reads.parse_back c.xxh3_gigabytes_per_second,
            reads.parse_back c.xxh128_gigabytes_per_second,
            reads.parse_back c.sha256_gigabytes_per_second,
            reads.parse_back c.memory_bandwidth_gigabytes_per_second,
            reads.parse_back c.parallel_startup_overhead_microseconds,
            reads.parse_back c.per_file_cost_warm_microseconds,
          )
          refl

    signature-fields :
        (s : Signature) (c : ThroughputConstants float)
        → IsFitting core s
        → (fields_of s c).signature ≡ s
    signature-fields s c fits =
        let cut = cut_value-lem core float parse_double in
        rw
          (
            cut s.cpu_model fits.model_fits,
            cut s.microcode fits.microcode_fits,
            cut s.kernel_version fits.kernel_fits,
          )
          refl

    -- What load does with the fields it has read.
    abbrev accept : Host → CacheFields core float parse_double → Option (ThroughputConstants float)
    accept host f = do
      constants ← constants_of core float parse_double f
      current ← read_host_signature core host
      if same_signature core float parse_double f.signature current then some constants else none

    load-back :
        (host : Host) (s : Signature) (c : ThroughputConstants float)
        → read_host_signature core host ≡ some s
        → load core float parse_double host
            (some (text_lines float output doubles s ++ double_lines float output doubles c))
          ≡ some (rounded_constants c)
    unfolding load
    load-back host s c h =
        let fits = read_host_signature-IsFitting core host s h in
        ap (accept host) (load_lines-fields s c fits)
        ∙ rw (constants_of-fields s c, h, signature-fields s c fits, same_signature_refl s) refl

    module _ (mkdir : List ℕ → ℕ) (open_file : List ℕ → Option output.Writer)
        (closes : output.Writer → Bool) (read_lines : List ℕ → List (List ℕ))
        (lines : ReadsLines read_lines) where
      -- If the texts of the host's signature hold no newline, doubles are written as one short line that
      -- is read back, the file is empty when it is opened, and its lines are read as they were written,
      -- then constants that were stored with success are loaded on the same host, rounded as their text
      -- is.
      pub store-load :
          (host : Host) (path : List ℕ) (c : ThroughputConstants float) (w' : output.Writer)
          → ((w : output.Writer) → open_file path ≡ some w → output.contents w ≡ [])
          → ((s : Signature) → read_host_signature core host ≡ some s → IsPlain s)
          → store float output doubles core mkdir open_file closes host path c ≡ some w'
          → load core float parse_double host (some (read_lines (output.contents w')))
            ≡ some (rounded_constants c)
      unfolding store
      store-load host path c w' empty plain h =
          elim (Bool-cases (ensure_parent_directory mkdir path)) [
            | inr missing ↦ ground (arith, rw missing at h)
            | inl present ↦
                let (s, host_is, h1) =
                  >>=-eq-some (read_host_signature core host) _ (rw present at h) in
                let (w, opened, h2) = >>=-eq-some (open_file path) _ h1 in
                let (w1, written, h3) = >>=-eq-some (write_cache float output doubles s c w) _ h2 in
                let fits = read_host_signature-IsFitting core host s host_is in
                let all =
                  text_lines float output doubles s ++ double_lines float output doubles c in
                let text : output.contents w1 ≡ unlines all =
                  (write_cache-Adds float output doubles s c w w1 written).added
                  ∙ ap (λ t. t ++ unlines all) (empty w opened) in
                elim (Bool-cases (closes w1)) [
                  | inr failed ↦ ground (arith, rw failed at h3)
                  | inl closed ↦
                      let same : w1 ≡ w' = some-injective _ _ (rw closed at h3) in
                      ap (λ l. load core float parse_double host (some l))
                        (ap read_lines (ap output.contents (sym same) ∙ text)
                          ∙ read_lines-unlines read_lines all lines
                              (lines-short s c fits (plain s host_is)))
                      ∙ load-back host s c host_is
                ]
          ]
