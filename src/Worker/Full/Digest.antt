-- ===== src/Worker/Full/Digest.antt =====
-- The digest of a file that is read to its end is the digest of its content.
use bc_duplicate.Prelude.{
  ℕ, ◌≡◌, ◌⊎◌, refl, ap, ◌∙◌, Bool, true, false, List, [], ◌++◌, Option, some, Option-cases, inl,
  inr, arith, sym,
}
use mathlib.Core.Option
use mathlib.Core.Option.{some-injective}
use bc_duplicate.Types.{Algorithm}
use bc_duplicate.Worker.{eperm}
use bc_duplicate.Worker.Reader.{OpenAnswer, ReadAnswer, consume_file}
use bc_duplicate.Worker.Reader.Whole.{Serves, IsStreaming, consumed, consume_file-whole}
use bc_duplicate.Worker.Full.{
  HashLibrary, ConsumerState, consumer_reset, consumer_callback, consumer_finalize, padded,
}

-- What the hash libraries document: a reset forgets what was before, bytes may come in pieces, and
-- SHA-256 can be started and accepts them; `absorb` is what it does with them.
pub record IsIncremental (lib : HashLibrary) (absorb : lib.Sha → List ℕ → lib.Sha) : Type 0 where
  pub blank_64 : lib.XxhState
  pub reset_64_blank : (s : lib.XxhState) → lib.reset_64 s ≡ blank_64
  pub blank_128 : lib.XxhState
  pub reset_128_blank : (s : lib.XxhState) → lib.reset_128 s ≡ blank_128
  pub fresh : lib.Sha
  pub sha_init_fresh : (s : lib.Sha) → lib.sha_init s ≡ some fresh
  pub nothing_64 : (s : lib.XxhState) → lib.update_64 s [] ≡ s
  pub more_64 :
      (s : lib.XxhState) (a b : List ℕ)
      → lib.update_64 s (a ++ b) ≡ lib.update_64 (lib.update_64 s a) b
  pub nothing_128 : (s : lib.XxhState) → lib.update_128 s [] ≡ s
  pub more_128 :
      (s : lib.XxhState) (a b : List ℕ)
      → lib.update_128 s (a ++ b) ≡ lib.update_128 (lib.update_128 s a) b
  pub sha_accepts : (s : lib.Sha) (a : List ℕ) → lib.sha_update s a ≡ some (absorb s a)
  pub sha_nothing : (s : lib.Sha) → absorb s [] ≡ s
  pub sha_more : (s : lib.Sha) (a b : List ℕ) → absorb s (a ++ b) ≡ absorb (absorb s a) b

module _ (lib : HashLibrary) (absorb : lib.Sha → List ℕ → lib.Sha) where
  abbrev state_of : Algorithm → lib.XxhState → lib.Sha → Bool → ConsumerState lib
  state_of algorithm xxh sha failed = record {
    algorithm = algorithm;
    xxh_state = xxh;
    sha_context = sha;
    failed = failed;
  }

  abbrev absorb_at : Algorithm → lib.XxhState → lib.Sha → Bool → List ℕ → ConsumerState lib
  absorb_at Algorithm.xxh3 xxh sha failed chunk =
      state_of Algorithm.xxh3 (lib.update_64 xxh chunk) sha failed
  absorb_at Algorithm.xxh128 xxh sha failed chunk =
      state_of Algorithm.xxh128 (lib.update_128 xxh chunk) sha failed
  absorb_at Algorithm.sha256 xxh sha failed chunk =
      state_of Algorithm.sha256 xxh (absorb sha chunk) failed

  -- The state behind some bytes.
  abbrev pub absorb_state : ConsumerState lib → List ℕ → ConsumerState lib
  absorb_state s chunk = absorb_at s.algorithm s.xxh_state s.sha_context s.failed chunk

  module _ (laws : IsIncremental lib absorb) where
    takes_at :
        (algorithm : Algorithm) (xxh : lib.XxhState) (sha : lib.Sha) (failed : Bool)
        (chunk : List ℕ)
        → consumer_callback lib (state_of algorithm xxh sha failed) chunk
          ≡ (absorb_at algorithm xxh sha failed chunk, true)
    unfolding consumer_callback
    takes_at Algorithm.xxh3 xxh sha failed chunk = refl
    takes_at Algorithm.xxh128 xxh sha failed chunk = refl
    takes_at Algorithm.sha256 xxh sha failed chunk = rw (laws.sha_accepts sha chunk) refl

    nothing_at :
        (algorithm : Algorithm) (xxh : lib.XxhState) (sha : lib.Sha) (failed : Bool)
        → absorb_at algorithm xxh sha failed [] ≡ state_of algorithm xxh sha failed
    nothing_at Algorithm.xxh3 xxh sha failed =
        ap (λ x. state_of Algorithm.xxh3 x sha failed) (laws.nothing_64 xxh)
    nothing_at Algorithm.xxh128 xxh sha failed =
        ap (λ x. state_of Algorithm.xxh128 x sha failed) (laws.nothing_128 xxh)
    nothing_at Algorithm.sha256 xxh sha failed =
        ap (λ x. state_of Algorithm.sha256 xxh x failed) (laws.sha_nothing sha)

    more_at :
        (algorithm : Algorithm) (xxh : lib.XxhState) (sha : lib.Sha) (failed : Bool) (a b : List ℕ)
        → absorb_at algorithm xxh sha failed (a ++ b)
          ≡ absorb_state (absorb_at algorithm xxh sha failed a) b
    more_at Algorithm.xxh3 xxh sha failed a b =
        ap (λ x. state_of Algorithm.xxh3 x sha failed) (laws.more_64 xxh a b)
    more_at Algorithm.xxh128 xxh sha failed a b =
        ap (λ x. state_of Algorithm.xxh128 x sha failed) (laws.more_128 xxh a b)
    more_at Algorithm.sha256 xxh sha failed a b =
        ap (λ x. state_of Algorithm.sha256 xxh x failed) (laws.sha_more sha a b)

    consumer_callback-IsStreaming : IsStreaming (consumer_callback lib) absorb_state
    consumer_callback-IsStreaming = record {
      takes = λ s chunk. takes_at s.algorithm s.xxh_state s.sha_context s.failed chunk;
      update_nothing = λ s. nothing_at s.algorithm s.xxh_state s.sha_context s.failed;
      update_more = λ s a b. more_at s.algorithm s.xxh_state s.sha_context s.failed a b;
    }

    -- The digest of a content in one go: the bytes of the hash, and zeros behind them; `none` if
    -- SHA-256 cannot be ended.
    abbrev pub content_digest : Algorithm → List ℕ → Option (List ℕ)
    content_digest Algorithm.xxh3 content =
        some (padded lib (lib.digest_64 (lib.update_64 laws.blank_64 content)))
    content_digest Algorithm.xxh128 content =
        (let s = lib.update_128 laws.blank_128 content in
          some (padded lib (lib.digest_high s ++ lib.digest_low s)))
    content_digest Algorithm.sha256 content =
        Option.map (padded lib) (lib.sha_finalize (absorb laws.fresh content))

    abbrev start : ConsumerState lib → lib.XxhState → Algorithm → ConsumerState lib
    start s xxh Algorithm.xxh3 = state_of Algorithm.xxh3 laws.blank_64 s.sha_context false
    start s xxh Algorithm.xxh128 = state_of Algorithm.xxh128 laws.blank_128 s.sha_context false
    start s xxh Algorithm.sha256 = state_of Algorithm.sha256 xxh laws.fresh false

    consumer_reset-start :
        (s : ConsumerState lib) (xxh : lib.XxhState) (algorithm : Algorithm)
        → consumer_reset lib s xxh algorithm ≡ start s xxh algorithm
    unfolding consumer_reset
    consumer_reset-start s xxh Algorithm.xxh3 =
        ap (λ x. state_of Algorithm.xxh3 x s.sha_context false) (laws.reset_64_blank xxh)
    consumer_reset-start s xxh Algorithm.xxh128 =
        ap (λ x. state_of Algorithm.xxh128 x s.sha_context false) (laws.reset_128_blank xxh)
    consumer_reset-start s xxh Algorithm.sha256 = rw (laws.sha_init_fresh s.sha_context) refl

    finalize-start :
        (algorithm : Algorithm) (s : ConsumerState lib) (xxh : lib.XxhState)
        (content digest : List ℕ)
        → content_digest algorithm content ≡ some digest
        → consumer_finalize lib (absorb_state (start s xxh algorithm) content) ≡ (digest, false)
    unfolding consumer_finalize
    finalize-start Algorithm.xxh3 s xxh content digest e =
        ap (λ d. (d, false)) (some-injective _ _ e)
    finalize-start Algorithm.xxh128 s xxh content digest e =
        ap (λ d. (d, false)) (some-injective _ _ e)
    finalize-start Algorithm.sha256 s xxh content digest e =
        elim (Option-cases (lib.sha_finalize (absorb laws.fresh content))) [
          | inl none_left ↦ absurd (ground (arith, e, none_left))
          | inr (d, made) ↦ rw made (
              ap (λ x. (x, false))
                (some-injective _ _ (sym (ap (Option.map (padded lib)) made) ∙ e)))
        ]

    -- With hash libraries that keep to their laws, a file that can be opened, with or without
    -- O_NOATIME, and that the kernel serves to its end,
    -- is read with success by the consumer of the full pass, whatever state its slot was in; if
    -- the algorithm has a digest for the content, the state behind it finishes with that digest
    -- and without a failure.
    pub consume_file-digest :
        (algorithm : Algorithm) (s : ConsumerState lib) (xxh : lib.XxhState)
        (first second : OpenAnswer) (answers : List ReadAnswer) (content digest : List ℕ)
        → (first ≡ OpenAnswer.opened)
          ⊎ ((first ≡ OpenAnswer.not_opened eperm) × (second ≡ OpenAnswer.opened))
        → Serves content answers
        → content_digest algorithm content ≡ some digest
        → (after : ConsumerState lib) × (consume_file
              (consumer_callback lib)
              first
              second
              answers
              (consumer_reset lib s xxh algorithm)
            ≡ some (consumed after))
          × (consumer_finalize lib after ≡ (digest, false))
    consume_file-digest algorithm s xxh first second answers content digest opens served e = (
      absorb_state (consumer_reset lib s xxh algorithm) content,
      consume_file-whole (consumer_callback lib) absorb_state consumer_callback-IsStreaming first
          second answers content (consumer_reset lib s xxh algorithm) opens served,
      ap (λ t. consumer_finalize lib (absorb_state t content))
            (consumer_reset-start s xxh algorithm)
          ∙ finalize-start algorithm s xxh content digest e,
    )
