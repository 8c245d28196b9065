-- ===== src/Worker/Fast/Content.antt =====
-- The fast hash is a function of the content, for a file that the kernel serves.
use Prim.Native.Nat.{bit_xor}
use bc_duplicate.Prelude.{
  ℕ, ◌-◌, ◌≡◌, refl, ap, ◌∙◌, true, false, Bool-cases, inl, inr, List, arith, length, length-drop,
  take_full, take, drop, ltb, leb, if◌then◌else◌,
}
use bc_duplicate.Types.{Entry, fast_hash_block_size}
use bc_duplicate.Worker.Reader.{OpenAnswer, ReadAnswer, open_read_only}
use bc_duplicate.Worker.Fast.{
  FastKernel, fast_dual_min_file_size, with_fast_hash, add_suffix, combine_suffix, hash_prefix,
  fast_iteration,
}

-- The file can be opened, every read brings the bytes of the content that it asks for, as far as there
-- are any, and the size of the content is the entry's.
pub record IsServed (kernel : FastKernel) (entry : Entry) (content : List ℕ) : Type 0 where
  pub opens : open_read_only kernel.with_noatime kernel.without_noatime ≡ OpenAnswer.opened
  pub reads :
      (count offset : ℕ)
      → kernel.pread count offset ≡ ReadAnswer.stored (take count (drop offset content))
  pub sized : entry.file_size ≡ length content

module _ (xxh3 : List ℕ → ℕ) where
  -- The hash that a content has: that of its first block, with that of its last block if there
  -- are two.
  abbrev pub content_hash : List ℕ → ℕ
  content_hash content =
      if leb fast_dual_min_file_size (length content)
      then bit_xor (xxh3 (take fast_hash_block_size content))
          (xxh3 (drop (length content - fast_hash_block_size) content))
      else xxh3 (take fast_hash_block_size content)

  -- The read of the last block brings all of it.
  last_block :
      (content : List ℕ)
      → leb fast_dual_min_file_size (length content) ≡ true
      → take fast_hash_block_size (drop (length content - fast_hash_block_size) content)
        ≡ drop (length content - fast_hash_block_size) content
  last_block content large =
      take_full fast_hash_block_size (drop (length content - fast_hash_block_size) content)
        (omega (arith, length-drop (length content - fast_hash_block_size) content))

  last_block-not_empty :
      (content : List ℕ)
      → leb fast_dual_min_file_size (length content) ≡ true
      → ltb 0 (length (drop (length content - fast_hash_block_size) content)) ≡ true
  last_block-not_empty content large =
      rw (length-drop (length content - fast_hash_block_size) content) (ground (arith, large))

  combine_suffix-content :
      (pread : (count offset : ℕ) → ReadAnswer) (content : List ℕ)
      → ((count offset : ℕ)
          → pread count offset ≡ ReadAnswer.stored (take count (drop offset content)))
      → combine_suffix xxh3 pread (length content) (xxh3 (take fast_hash_block_size content))
        ≡ content_hash content
  unfolding combine_suffix add_suffix
  combine_suffix-content pread content reads =
      elim (Bool-cases (leb fast_dual_min_file_size (length content))) [
        | inl large ↦
            rw
              (
                combine_suffix,
                large,
                reads fast_hash_block_size (length content - fast_hash_block_size),
                last_block content large,
                add_suffix,
                last_block-not_empty content large,
              )
              refl
        | inr small ↦ rw (combine_suffix, small) refl
      ]

  opened_iteration :
      (kernel : FastKernel) (entry : Entry)
      → open_read_only kernel.with_noatime kernel.without_noatime ≡ OpenAnswer.opened
      → fast_iteration xxh3 false kernel entry
        ≡ hash_prefix xxh3 kernel.pread (kernel.pread fast_hash_block_size 0) entry
  unfolding fast_iteration
  opened_iteration kernel entry h = rw (fast_iteration, h) refl

  -- An iteration that is not stopped gives a file that the kernel serves the hash of its content,
  -- which is that of its first block, with that of its last block if it has two, and no error.
  pub fast_iteration-content :
      (kernel : FastKernel) (entry : Entry) (content : List ℕ)
      → IsServed kernel entry content
      → fast_iteration xxh3 false kernel entry ≡ with_fast_hash entry (content_hash content) 0
  unfolding hash_prefix
  fast_iteration-content kernel entry content served =
      opened_iteration kernel entry served.opens
      ∙ ap (λ a. hash_prefix xxh3 kernel.pread a entry) (served.reads fast_hash_block_size 0)
      ∙ ap (λ h. with_fast_hash entry h 0)
          (ap (λ n. combine_suffix xxh3 kernel.pread n (xxh3 (take fast_hash_block_size content)))
              served.sized
            ∙ combine_suffix-content kernel.pread content served.reads)
