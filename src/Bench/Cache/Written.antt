-- ===== src/Bench/Cache/Written.antt =====
-- The text of a cache file.
use bc_duplicate.Prelude.{ℕ, ◌≡◌, sym, ap, ◌∙◌, List, [], ◌∷◌, ◌++◌, some}
use mathlib.Core.List.{append_assoc, append-nil}
use bc_duplicate.Chain.{>>=-eq-some}
use bc_duplicate.Text.{codes}
use bc_duplicate.Output.{WriterLibrary}
use bc_duplicate.Output.Simple.{newline}
use bc_duplicate.Bench.{FloatLibrary, ThroughputConstants}
use bc_duplicate.Bench.Cache.{Signature}
use bc_duplicate.Bench.Cache.Store.{DoubleWriter, write_text_line, write_double_line, write_cache}
use bc_duplicate.Bench.Cache.Lines.{unlines, unlines-append}

module _ (float : FloatLibrary) (output : WriterLibrary) (doubles : DoubleWriter float output) where
  -- The call has written these lines.
  pub record Adds (w : output.Writer) (lines : List (List ℕ)) (w' : output.Writer) : Type 0 where
    pub added : output.contents w' ≡ output.contents w ++ unlines lines

  Adds-trans :
      (w w1 w2 : output.Writer) (a b : List (List ℕ))
      → Adds w a w1
      → Adds w1 b w2
      → Adds w (a ++ b) w2
  Adds-trans w w1 w2 a b h k = record {
    added =
        k.added
        ∙ ap (λ t. t ++ unlines b) h.added
        ∙ append_assoc (output.contents w) (unlines a) (unlines b)
        ∙ ap (λ t. output.contents w ++ t) (sym (unlines-append a b));
  }

  line_text :
      (c key value : List ℕ)
      → ((c ++ key) ++ value) ++ newline ∷ [] ≡ c ++ unlines ((key ++ value) ∷ [])
  line_text c key value =
      ap (λ t. t ++ newline ∷ []) (append_assoc c key value)
      ∙ append_assoc c (key ++ value) (newline ∷ [])
      ∙ ap (λ t. c ++ t) (sym (append-nil ((key ++ value) ++ newline ∷ [])))

  write_text_line-Adds :
      (key value : List ℕ) (w w' : output.Writer)
      → write_text_line float output doubles key value w ≡ some w'
      → Adds w ((key ++ value) ∷ []) w'
  unfolding write_text_line
  write_text_line-Adds key value w w' h =
      let (w1, e1, h1) = >>=-eq-some (output.write_bytes w key) _ h in
      let (w2, e2, e3) = >>=-eq-some (output.write_bytes w1 value) _ h1 in
      record {
        added =
            output.write_char_adds w2 newline w' e3
            ∙ ap (λ t. t ++ newline ∷ [])
                (output.write_bytes_adds w1 value w2 e2
                  ∙ ap (λ t. t ++ value) (output.write_bytes_adds w key w1 e1))
            ∙ line_text (output.contents w) key value;
      }

  write_double_line-Adds :
      (key : List ℕ) (d : float.Double) (w w' : output.Writer)
      → write_double_line float output doubles key d w ≡ some w'
      → Adds w ((key ++ doubles.decimals d) ∷ []) w'
  unfolding write_double_line
  write_double_line-Adds key d w w' h =
      let (w1, e1, h1) = >>=-eq-some (output.write_bytes w key) _ h in
      let (w2, e2, e3) = >>=-eq-some (doubles.write_double w1 d) _ h1 in
      record {
        added =
            output.write_char_adds w2 newline w' e3
            ∙ ap (λ t. t ++ newline ∷ [])
                (doubles.write_double_adds w1 d w2 e2
                  ∙ ap (λ t. t ++ doubles.decimals d) (output.write_bytes_adds w key w1 e1))
            ∙ line_text (output.contents w) key (doubles.decimals d);
      }

  abbrev pub text_lines : Signature → List (List ℕ)
  text_lines s =
      (codes "cpu_model=" ++ s.cpu_model)
      ∷ (codes "microcode=" ++ s.microcode)
      ∷ (codes "kernel_version=" ++ s.kernel_version)
      ∷ []

  abbrev pub double_lines : ThroughputConstants float → List (List ℕ)
  double_lines c =
      (codes "xxh3_gbps=" ++ doubles.decimals c.xxh3_gigabytes_per_second)
      ∷ (codes "xxh128_gbps=" ++ doubles.decimals c.xxh128_gigabytes_per_second)
      ∷ (codes "sha256_gbps=" ++ doubles.decimals c.sha256_gigabytes_per_second)
      ∷ (codes "mem_bw_gbps=" ++ doubles.decimals c.memory_bandwidth_gigabytes_per_second)
      ∷ (codes "parallel_startup_us=" ++ doubles.decimals c.parallel_startup_overhead_microseconds)
      ∷ (codes "per_file_cost_us=" ++ doubles.decimals c.per_file_cost_warm_microseconds)
      ∷ []

  pub write_cache-Adds :
      (s : Signature) (c : ThroughputConstants float) (w w' : output.Writer)
      → write_cache float output doubles s c w ≡ some w'
      → Adds w (text_lines s ++ double_lines c) w'
  unfolding write_cache
  write_cache-Adds s c w w' h =
      let text = write_text_line float output doubles in
      let double = write_double_line float output doubles in
      let (w1, e1, h1) = >>=-eq-some (text (codes "cpu_model=") s.cpu_model w) _ h in
      let (w2, e2, h2) = >>=-eq-some (text (codes "microcode=") s.microcode w1) _ h1 in
      let (w3, e3, h3) = >>=-eq-some (text (codes "kernel_version=") s.kernel_version w2) _ h2 in
      let (w4, e4, h4) =
        >>=-eq-some (double (codes "xxh3_gbps=") c.xxh3_gigabytes_per_second w3) _ h3 in
      let (w5, e5, h5) =
        >>=-eq-some (double (codes "xxh128_gbps=") c.xxh128_gigabytes_per_second w4) _ h4 in
      let (w6, e6, h6) =
        >>=-eq-some (double (codes "sha256_gbps=") c.sha256_gigabytes_per_second w5) _ h5 in
      let (w7, e7, h7) =
        >>=-eq-some (double (codes "mem_bw_gbps=") c.memory_bandwidth_gigabytes_per_second w6) _
          h6 in
      let (w8, e8, e9) =
        >>=-eq-some
          (double (codes "parallel_startup_us=") c.parallel_startup_overhead_microseconds w7) _
          h7 in
      let add =
        λ (a : output.Writer) (b : output.Writer) (key : List ℕ) (d : float.Double)
            (e : double key d a ≡ some b).
          write_double_line-Adds key d a b e in
      let front = Adds-trans w w1 w3 _ _ (write_text_line-Adds _ _ w w1 e1) (
        Adds-trans w1 w2 w3 _ _ (write_text_line-Adds _ _ w1 w2 e2)
          (write_text_line-Adds _ _ w2 w3 e3)) in
      Adds-trans w w3 w' _ _ front (
        Adds-trans w3 w4 w' _ _ (add w3 w4 _ _ e4) (
          Adds-trans w4 w5 w' _ _ (add w4 w5 _ _ e5) (
            Adds-trans w5 w6 w' _ _ (add w5 w6 _ _ e6) (
              Adds-trans w6 w7 w' _ _ (add w6 w7 _ _ e7)
                (Adds-trans w7 w8 w' _ _ (add w7 w8 _ _ e8) (add w8 w' _ _ e9))))))
