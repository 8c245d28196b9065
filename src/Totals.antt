-- ===== src/Totals.antt =====
-- The totals of a run, which bc_duplicate_application_run of src/bc_duplicate_main.c takes over the
-- final groups. A size_t has 64 bits.
use bc_duplicate.Prelude.{
  ℕ, ◌+◌, ◌-◌, ◌*◌, ◌%◌, ◌^◌, ◌≤◌, ◌<◌, ◌≡◌, ap₂, ◌∙◌, List, [], ◌∷◌, arith, All,
}
use bc_duplicate.Types.{Group}

abbrev pub size_range : ℕ
size_range = 2 ^ 64

-- `group.entry_count - 1`
unfoldable pub extra_entries : Group → ℕ
extra_entries g = (g.entry_count + (size_range - 1)) % size_range

unfoldable pub total_loop : List Group → (duplicate_file_count wasted_bytes : ℕ) → ℕ × ℕ
total_loop [] files bytes = (files, bytes)
total_loop (g ∷ groups) files bytes =
    total_loop groups ((files + extra_entries g) % size_range)
      ((bytes + extra_entries g * g.file_size) % size_range)

-- `duplicate_file_count` and `wasted_bytes`.
unfoldable pub totals : List Group → ℕ × ℕ
totals groups = total_loop groups 0 0

-- The entries of each group but one, and their bytes.
abbrev pub extras : List Group → ℕ
extras [] = 0
extras (g ∷ groups) = (g.entry_count - 1) + extras groups

abbrev pub waste : List Group → ℕ
waste [] = 0
waste (g ∷ groups) = (g.entry_count - 1) * g.file_size + waste groups

abbrev pub IsFilled : Group → Type 0
IsFilled g = (1 ≤ g.entry_count) × (g.entry_count < size_range)

extra_entries_lem : (g : Group) → IsFilled g → extra_entries g ≡ g.entry_count - 1
unfolding extra_entries
extra_entries_lem g h = omega (arith, h.0, h.1)

no_wrap : (a b rest : ℕ) → (a + (b + rest)) < size_range → (a + b) % size_range ≡ a + b
no_wrap a b rest h = omega (arith, h)

add_assoc : (a b c : ℕ) → (a + b) + c ≡ a + (b + c)
add_assoc a b c = omega arith

add_bound : (a b c : ℕ) → a + (b + c) < size_range → (a + b) + c < size_range
add_bound a b c h = omega (arith, h)

zero_add : (a : ℕ) → 0 + a ≡ a
zero_add a = omega arith

zero_bound : (a : ℕ) → a < size_range → 0 + a < size_range
zero_bound a h = omega (arith, h)

total_loop-sums :
    (groups : List Group) (files bytes : ℕ)
    → All IsFilled groups
    → files + extras groups < size_range
    → bytes + waste groups < size_range
    → total_loop groups files bytes ≡ (files + extras groups, bytes + waste groups)
unfolding total_loop
total_loop-sums [] files bytes filled h k = ap₂ (λ a b. (a, b)) (omega arith) (omega arith)
total_loop-sums (g ∷ groups) files bytes filled h k =
    let extra = g.entry_count - 1 in
    let size = extra * g.file_size in
    rw
      (
        extra_entries_lem g filled.0,
        no_wrap files extra (extras groups) h,
        no_wrap bytes size (waste groups) k,
      )
      (total_loop-sums groups (files + extra) (bytes + size) filled.1 (omega (arith, h))
          (add_bound bytes size (waste groups) k)
        ∙ ap₂ (λ a b. (a, b)) (omega arith) (add_assoc bytes size (waste groups)))

-- If the totals fit in 64 bits, and every group has an entry, nothing wraps around: the totals are
-- the number of the entries of each group but one, and the sum of their sizes.
pub totals-sums :
    (groups : List Group)
    → All IsFilled groups
    → extras groups < size_range
    → waste groups < size_range
    → totals groups ≡ (extras groups, waste groups)
unfolding totals
totals-sums groups filled h k =
    total_loop-sums groups 0 0 filled (zero_bound (extras groups) h) (zero_bound (waste groups) k)
    ∙ ap₂ (λ a b. (a, b)) (zero_add (extras groups)) (zero_add (waste groups))
