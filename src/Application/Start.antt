-- ===== src/Application/Start.antt =====
-- src/bc_duplicate_main.c: main up to the start of the runtime, and its callback init. The messages
-- and the release of memory are left out.
use bc_duplicate.Prelude.{
  ℕ, ◌+◌, ◌-◌, ◌≤◌, ◌<◌, ◌≡◌, sym, ap, Bool, true, false, Bool-cases, inl, inr, Option, none, some,
  arith, ltb, leb, if◌then◌else◌,
}
use mathlib.Core.Option.{some-injective}
use bc_duplicate.Types.{ThreadsMode}
use bc_duplicate.Outcome.{Outcome, done, ◌>>=◌}
use bc_duplicate.Cli.{CliOptions}
use bc_duplicate.Filter.{Filter}
use bc_duplicate.Filter

-- bc_runtime_cli_parse_status_t
pub data ParseStatus : Type 0 where
  parsed help_global help_command version parse_error : ParseStatus

-- bc_concurrency_config_t, as far as it is set.
pub record ParallelConfig : Type 0 where
  pub worker_count_explicit : Bool
  pub worker_count : ℕ
  pub allow_oversubscribe : Bool

-- `none` is a refusal: more threads than logical processors.
unfoldable pub parallel_config :
    ThreadsMode
    → (explicit_worker_count logical_processor_count physical_core_count : ℕ)
    → Option ParallelConfig
parallel_config ThreadsMode.mono explicit logical physical =
    some (record { worker_count_explicit = true; worker_count = 0; allow_oversubscribe = false })
parallel_config ThreadsMode.explicit explicit logical physical =
    if ltb logical explicit
    then none
    else some (record {
      worker_count_explicit = true;
      worker_count = if leb 1 explicit then explicit - 1 else 0;
      allow_oversubscribe = ltb physical explicit;
    })
parallel_config ThreadsMode.io explicit logical physical = some (record {
  worker_count_explicit = true;
  worker_count = if leb 2 logical then logical - 1 else 0;
  allow_oversubscribe = true;
})
parallel_config ThreadsMode.auto explicit logical physical =
    some (record { worker_count_explicit = false; worker_count = 0; allow_oversubscribe = false })

-- The program ends with an exit code, or the runtime starts.
pub data Start : Type 0 where
  exits : ℕ → Start
  runs : CliOptions → ParallelConfig → Start

-- Behind the parser: `bound` is what bc_duplicate_cli_bind_options gives.
unfoldable pub start :
    ParseStatus
    → (bound : Option CliOptions) → (logical_processor_count physical_core_count : ℕ) → Start
start ParseStatus.help_global bound logical physical = Start.exits 0
start ParseStatus.help_command bound logical physical = Start.exits 0
start ParseStatus.version bound logical physical = Start.exits 0
start ParseStatus.parse_error bound logical physical = Start.exits 2
start ParseStatus.parsed bound logical physical = elim bound [
  | none ↦ Start.exits 2
  | some options ↦
      elim (parallel_config options.threads_mode options.explicit_worker_count logical physical) [
        | none ↦ Start.exits 2
        | some config ↦ Start.runs options config
      ]
]

abbrev pub is_given {ℓ} : {A : Type ℓ} → Option A → Bool
is_given none = false
is_given (some a) = true

-- The filter of init; a run without lists has none.
unfoldable pub create_filter : (grant : ℕ → Bool) → CliOptions → Outcome (Option Filter)
create_filter grant options =
    if is_given options.include_list
    then (do f ← Filter.create grant options.include_list options.exclude_list; done (some f))
    else if is_given options.exclude_list
    then (do f ← Filter.create grant options.include_list options.exclude_list; done (some f))
    else done none

same_count : {a b : ParallelConfig} → some a ≡ some b → a.worker_count ≡ b.worker_count
same_count e = ap (λ c. c.worker_count) (some-injective _ _ e)

-- With a logical processor, a configuration that sets the number of workers leaves a processor for
-- the main thread: it asks for fewer workers than there are. An explicit count of threads is met by the
-- workers and the main thread together, and with `auto` the number is left to the runtime.
pub parallel_config-bounds :
    (mode : ThreadsMode) (explicit logical physical : ℕ) (config : ParallelConfig)
    → 1 ≤ logical
    → parallel_config mode explicit logical physical ≡ some config
    → (config.worker_count_explicit ≡ true → config.worker_count < logical)
      × (mode ≡ ThreadsMode.explicit → 1 ≤ explicit → config.worker_count + 1 ≡ explicit)
      × (mode ≡ ThreadsMode.auto → config.worker_count_explicit ≡ false)
unfolding parallel_config
parallel_config-bounds ThreadsMode.mono explicit logical physical config h e =
    let count = same_count e in
    (λ set. omega arith, λ k positive. ground arith, λ k. ground (arith, k))
parallel_config-bounds ThreadsMode.explicit explicit logical physical config h e =
    elim (Bool-cases (ltb logical explicit)) [
      | inl many ↦ ground (arith, rw many at e)
      | inr few ↦
          let count = same_count (rw few at e) in
          let below : explicit ≤ logical = ground (arith, few) in
          (λ set. ground arith, λ k positive. ground arith, λ k. ground (arith, k))
    ]
parallel_config-bounds ThreadsMode.io explicit logical physical config h e =
    let count = same_count e in
    (λ set. ground arith, λ k positive. ground arith, λ k. ground (arith, k))
parallel_config-bounds ThreadsMode.auto explicit logical physical config h e =
    let unset = sym (ap (λ c. c.worker_count_explicit) (some-injective _ _ e)) in
    (λ set. ground (arith, set, unset), λ k positive. ground (arith, k), λ k. unset)
