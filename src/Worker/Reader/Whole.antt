-- ===== src/Worker/Reader/Whole.antt =====
-- A file that the kernel serves to its end reaches the consumer whole.
use Prim.Native.Nat.{min}
use bc_duplicate.Prelude.{
  ℕ, ◌≤◌, ◌<◌, ◌≡◌, ◌⊎◌, sym, ap, ◌∙◌, true, false, Bool-cases, inl, inr, List, [], ◌∷◌, ◌++◌, some,
  arith, length, length-take, length-eq-zero, take_full, take-append-drop, take, drop, ltb, ◌==◌,
}
use bc_duplicate.Worker.{eperm, eintr, Consumer, Consumed}
use bc_duplicate.Worker.Reader.{
  stream_buffer_size, OpenAnswer, ReadAnswer, open_read_only, read_loop, consume_file,
}

-- The answers of `read` on a regular file with `content` to come: interrupted calls, and calls
-- that store as much as the buffer takes. Behind a full buffer there is another answer.
abbrev pub Serves : List ℕ → List ReadAnswer → Type 0
Serves content [] = ⊥
Serves content (ReadAnswer.not_read e ∷ answers) = (e ≡ eintr) × Serves content answers
Serves content (ReadAnswer.stored chunk ∷ answers) =
    (chunk ≡ take stream_buffer_size content)
    × ((length content < stream_buffer_size) ⊎ Serves (drop stream_buffer_size content) answers)

-- A consumer that takes every chunk, and to which it makes no difference how the bytes are cut:
-- `update` is what it does to its state.
pub record IsStreaming {ℓ} {S : Type ℓ} (consumer_function : Consumer S) (update : S → List ℕ → S)
    : Type ℓ where
  pub takes : (s : S) (chunk : List ℕ) → consumer_function s chunk ≡ (update s chunk, true)
  pub update_nothing : (s : S) → update s [] ≡ s
  pub update_more : (s : S) (a b : List ℕ) → update s (a ++ b) ≡ update (update s a) b

-- A consumer that takes every chunk.
abbrev pub taking {ℓ} : {S : Type ℓ} → (S → List ℕ → S) → Consumer S
taking update s chunk = (update s chunk, true)

abbrev pub consumed {ℓ} : {S : Type ℓ} → S → Consumed S
consumed s = record { consumer = s; success = true; errno_value = 0 }

short_total : (size len total : ℕ) → ltb len size ≡ true → len ≡ min size total → total ≤ size
short_total size len total h e = ground (arith, h, e)

full_total : (size len total : ℕ) → ltb len size ≡ false → len ≡ min size total → size ≤ total
full_total size len total h e = ground (arith, h, e)

module _ {ℓ} {S : Type ℓ} (consumer_function : Consumer S) (update : S → List ℕ → S)
    (streaming : IsStreaming consumer_function update) where
  read_loop-Serves :
      (answers : List ReadAnswer) (content : List ℕ) (s : S)
      → Serves content answers
      → read_loop consumer_function answers s ≡ some (consumed (update s content))
  unfolding read_loop
  read_loop-Serves [] content s h = absurd h
  read_loop-Serves (ReadAnswer.not_read e ∷ answers) content s h =
      let interrupted : (e == eintr) ≡ true = ground (arith, h.0) in
      rw interrupted (read_loop-Serves answers content s h.1)
  read_loop-Serves (ReadAnswer.stored [] ∷ answers) content s h =
      let empty : length content ≡ 0 =
        omega (arith, length-take stream_buffer_size content, ap length h.0) in
      let nothing = length-eq-zero content empty in
      rw nothing (ap some (ap consumed (sym (streaming.update_nothing s))))
  read_loop-Serves (ReadAnswer.stored (c ∷ cs) ∷ answers) content s h =
      let size = ap length h.0 ∙ length-take stream_buffer_size content in
      elim (Bool-cases (ltb (length (c ∷ cs)) stream_buffer_size)) [
        | inl short ↦
            let whole : take stream_buffer_size content ≡ content =
              take_full stream_buffer_size content
                (short_total stream_buffer_size (length (c ∷ cs)) (length content) short size) in
            rw (streaming.takes s (c ∷ cs), short)
              (ap some (ap consumed (ap (update s) (h.0 ∙ whole))))
        | inr full ↦
            rw (streaming.takes s (c ∷ cs), full)
              (elim h.1 [
                | inl ends ↦ absurd (
                    omega (
                      arith,
                      ends,
                      full_total stream_buffer_size (length (c ∷ cs)) (length content) full size,
                    ))
                | inr more ↦
                    read_loop-Serves answers (drop stream_buffer_size content) (update s (c ∷ cs))
                      more
                    ∙ ap some (
                        ap consumed (
                          sym (streaming.update_more s (c ∷ cs) _)
                          ∙ ap (update s) (
                              ap (λ l. l ++ drop stream_buffer_size content) h.0
                              ∙ take-append-drop stream_buffer_size content)))
              ])
      ]

  -- A file that can be opened, with or without O_NOATIME, and that the kernel serves to its end,
  -- interrupted or not, reaches a streaming consumer whole: the call succeeds, and the consumer
  -- stands where one update with the content would have brought it.
  pub consume_file-whole :
      (first second : OpenAnswer) (answers : List ReadAnswer) (content : List ℕ) (s : S)
      → (first ≡ OpenAnswer.opened)
        ⊎ ((first ≡ OpenAnswer.not_opened eperm) × (second ≡ OpenAnswer.opened))
      → Serves content answers
      → consume_file consumer_function first second answers s ≡ some (consumed (update s content))
  unfolding consume_file open_read_only
  consume_file-whole first second answers content s opens h = elim opens [
    | inl e ↦ rw e (read_loop-Serves answers content s h)
    | inr (e1, e2) ↦ rw (e1, e2) (read_loop-Serves answers content s h)
  ]
