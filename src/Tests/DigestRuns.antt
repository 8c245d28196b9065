-- ===== src/Tests/DigestRuns.antt =====
-- The batches of more candidates than one batch holds, and the digest of a file of two bytes, with hash
-- functions that keep the bytes they are given.
use bc_duplicate.Prelude.{ℕ, ◌≡◌, refl, sym, true, false, inl, List, [], ◌∷◌, ◌++◌, some, arith}
use mathlib.Core.List.{append-nil, append_assoc}
use bc_duplicate.Types.{Algorithm}
use bc_duplicate.Worker.{eintr}
use bc_duplicate.Worker.Reader.{OpenAnswer, ReadAnswer, consume_file}
use bc_duplicate.Worker.Reader.Whole.{consumed}
use bc_duplicate.Worker.Full.{
  HashLibrary, ConsumerState, consumer_reset, consumer_callback, consumer_finalize, padded,
}
use bc_duplicate.Outcome.{done}
use bc_duplicate.Worker.Ring.Batch.{replicate}
use bc_duplicate.Worker.Fast.{indices_of}
use bc_duplicate.Worker.Full.Pass.{batches_for}
use bc_duplicate.Worker.Full.Pass.Cover.{joined_batches, joined_batches-candidates}
use bc_duplicate.Worker.Full.Digest.{IsIncremental, consume_file-digest}

abbrev keep : List ℕ → List ℕ → List ℕ
keep seen chunk = seen ++ chunk

abbrev pub keeping : HashLibrary
keeping = record {
  XxhState = List ℕ;
  Sha = List ℕ;
  reset_64 = λ s. [];
  reset_128 = λ s. [];
  update_64 = keep;
  update_128 = keep;
  digest_64 = λ s. s;
  digest_high = λ s. s;
  digest_low = λ s. [];
  sha_init = λ s. some [];
  sha_update = λ s b. some (s ++ b);
  sha_finalize = λ s. some s;
}

abbrev keeping_laws : IsIncremental keeping keep
keeping_laws = record {
  blank_64 = [];
  reset_64_blank = λ s. refl;
  blank_128 = [];
  reset_128_blank = λ s. refl;
  fresh = [];
  sha_init_fresh = λ s. refl;
  nothing_64 = λ s. append-nil s;
  more_64 = λ s a b. sym (append_assoc s a b);
  nothing_128 = λ s. append-nil s;
  more_128 = λ s a b. sym (append_assoc s a b);
  sha_accepts = λ s a. refl;
  sha_nothing = λ s. append-nil s;
  sha_more = λ s a b. sym (append_assoc s a b);
}

-- A slot that was used before, by another algorithm.
abbrev pub used : ConsumerState keeping
used = record {
  algorithm = Algorithm.xxh3;
  xxh_state = 1 ∷ [];
  sha_context = 2 ∷ [];
  failed = true;
}

consume_file-digest_example :
    (after : ConsumerState keeping) × (consume_file
        (consumer_callback keeping)
        OpenAnswer.opened
        OpenAnswer.opened
        (ReadAnswer.not_read eintr ∷ ReadAnswer.stored (7 ∷ 8 ∷ []) ∷ [])
        (consumer_reset keeping used (1 ∷ []) Algorithm.sha256)
      ≡ some (consumed after))
    × (consumer_finalize keeping after ≡ (padded keeping (7 ∷ 8 ∷ []), false))
consume_file-digest_example =
    consume_file-digest keeping keep keeping_laws Algorithm.sha256 used (1 ∷ []) OpenAnswer.opened
      OpenAnswer.opened (ReadAnswer.not_read eintr ∷ ReadAnswer.stored (7 ∷ 8 ∷ []) ∷ [])
      (7 ∷ 8 ∷ []) (padded keeping (7 ∷ 8 ∷ [])) (inl refl) (refl, (refl, inl (omega arith))) refl

-- One candidate more than a batch holds.
abbrev many_candidates : List ℕ
many_candidates = 4 ∷ replicate 32 5

joined_batches-candidates_example :
    joined_batches many_candidates (indices_of (batches_for 33) 0) ≡ done many_candidates
joined_batches-candidates_example = joined_batches-candidates many_candidates

two_batches : batches_for 33 ≡ 2
unfolding batches_for
two_batches = refl
