-- ===== src/Worker/Reader.antt =====
-- src/worker/bc_duplicate_worker_reader.c: one file, opened and read to its end. The answers of
-- `open` and `read` are the kernel's, and come as a list; `posix_fadvise` and `close` answer nothing.
pub mod Whole
use bc_duplicate.Prelude.{
  ◌≡◌, ◌⊎◌, refl, inl, inr, ℕ, ◌+◌, ◌≡◌, Bool, true, false, List, [], ◌∷◌, Option, none, some,
  length, ltb, ◌==◌, if◌then◌else◌,
}
use bc_duplicate.Worker.{eperm, eintr, eio, Consumer, Consumed}

abbrev pub stream_buffer_size : ℕ
stream_buffer_size = 131072

-- An answer of `open`: a descriptor or an errno.
pub data OpenAnswer : Type 0 where
  opened : OpenAnswer
  not_opened : (errno_value : ℕ) → OpenAnswer

pub OpenAnswer-cases :
    (a : OpenAnswer) → (a ≡ OpenAnswer.opened) ⊎ ((e : ℕ) × (a ≡ OpenAnswer.not_opened e))
OpenAnswer-cases OpenAnswer.opened = inl refl
OpenAnswer-cases (OpenAnswer.not_opened e) = inr (e, refl)

-- An answer of `read`: the bytes that it stored, none at the end of the file, or an errno.
pub data ReadAnswer : Type 0 where
  stored : List ℕ → ReadAnswer
  not_read : (errno_value : ℕ) → ReadAnswer

-- The answer without O_NOATIME counts if the one with it was a refusal of permission.
unfoldable pub open_read_only : (with_noatime without_noatime : OpenAnswer) → OpenAnswer
open_read_only OpenAnswer.opened second = OpenAnswer.opened
open_read_only (OpenAnswer.not_opened e) second =
    if e == eperm then second else OpenAnswer.not_opened e

module _ {ℓ} {S : Type ℓ} (consumer_function : Consumer S) where
  -- `none`: the answers are used up and the loop asks for another.
  unfoldable pub read_loop : List ReadAnswer → S → Option (Consumed S)
  read_loop [] s = none
  read_loop (ReadAnswer.not_read e ∷ answers) s =
      let again = read_loop answers s in
      if e == eintr then again else some (record { consumer = s; success = false; errno_value = e })
  read_loop (ReadAnswer.stored [] ∷ answers) s =
      some (record { consumer = s; success = true; errno_value = 0 })
  read_loop (ReadAnswer.stored (c ∷ cs) ∷ answers) s =
      let (s1, taken) = consumer_function s (c ∷ cs) in
      let again = read_loop answers s1 in
      if taken
      then (if ltb (length (c ∷ cs)) stream_buffer_size
          then some (record { consumer = s1; success = true; errno_value = 0 })
          else again)
      else some (record { consumer = s1; success = false; errno_value = eio })

  unfoldable pub consume_file :
      (with_noatime without_noatime : OpenAnswer) → List ReadAnswer → S → Option (Consumed S)
  consume_file first second answers s = elim (open_read_only first second) [
    | OpenAnswer.opened ↦ read_loop answers s
    | OpenAnswer.not_opened e ↦ some (record { consumer = s; success = false; errno_value = e })
  ]
