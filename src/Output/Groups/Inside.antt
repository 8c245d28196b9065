-- ===== src/Output/Groups/Inside.antt =====
-- The output reads entries inside the array only, if the groups are laid out in it.
use bc_duplicate.Prelude.{
  ℕ, zero, suc, ◌+◌, ◌≤◌, ◌<◌, List, [], ◌∷◌, Option, none, some, arith, length, ltb, if◌then◌else◌,
}
use bc_duplicate.Types.{Algorithm, Entry, Group, Statistics}
use bc_duplicate.Outcome.{Outcome, done, out_of_memory, out_of_bounds, Meets}
use bc_duplicate.Grouping.Runs.Layout.{IsLaidOut, end_index, IsLaidOut-le}
use bc_duplicate.Text.{codes}
use bc_duplicate.Output.{WriterLibrary}
use bc_duplicate.Output.Simple.{newline}
use bc_duplicate.Output.Json.{separated, write_escaped, write_stats, algorithm_name}
use bc_duplicate.Output.Groups.{
  ◌>>=◌, entry_at, write_paths, simple_write, write_files, write_groups, json_write,
}

-- The call makes no access out of bounds.
abbrev pub IsInside {ℓ} : {A : Type ℓ} → Outcome A → Type 0
IsInside m = Meets m (λ a. Unit {0})

IsInside->>= {ℓ κ} :
    {A : Type ℓ} {B : Type κ} (m : Outcome (Option A)) (f : A → Outcome (Option B))
    → IsInside m
    → ((a : A) → IsInside (f a))
    → IsInside (m >>= f)
IsInside->>= (done none) f h k = tt
IsInside->>= (done (some a)) f h k = k a
IsInside->>= out_of_memory f h k = tt
IsInside->>= out_of_bounds f h k = h

-- A write, whether it fails or not.
IsInside-write {ℓ κ} :
    {A : Type ℓ} {B : Type κ} (o : Option A) (f : A → Outcome (Option B))
    → ((a : A) → IsInside (f a))
    → IsInside (done o >>= f)
IsInside-write none f k = tt
IsInside-write (some a) f k = k a

written_or_not {ℓ} : {A : Type ℓ} (o : Option A) → IsInside (done o)
written_or_not o = tt

entry_at-IsInside :
    (entries : List Entry) (i : ℕ) → i < length entries → IsInside (entry_at entries i)
entry_at-IsInside [] i h = absurd (omega (arith, h))
entry_at-IsInside (e ∷ entries) zero h = tt
entry_at-IsInside (e ∷ entries) (suc i) h = entry_at-IsInside entries i (omega (arith, h))

module _ (lib : WriterLibrary) (entries : List Entry) where
  open lib use {Writer}

  write_paths-IsInside :
      (count index : ℕ) (w : Writer)
      → index + count ≤ length entries
      → IsInside (write_paths lib count index entries w)
  unfolding write_paths
  write_paths-IsInside zero index w h = tt
  write_paths-IsInside (suc count) index w h =
      IsInside->>= (entry_at entries index) _ (entry_at-IsInside entries index (omega (arith, h)))
        λ entry. IsInside-write (lib.write_bytes w entry.absolute_path) _ λ w1.
          IsInside-write (lib.write_char w1 newline) _
            λ w2. write_paths-IsInside count (index + 1) w2 (omega (arith, h))

  pub simple_write-IsInside :
      (from : ℕ) (groups : List Group) (w : Writer)
      → IsLaidOut from (length entries) groups
      → IsInside (simple_write lib entries groups w)
  unfolding simple_write
  simple_write-IsInside from [] w h = tt
  simple_write-IsInside from (g ∷ groups) w h =
      IsInside->>= (write_paths lib g.entry_count g.start_index entries w) _
        (write_paths-IsInside g.entry_count g.start_index w
          (IsLaidOut-le (end_index g) (length entries) groups h.1))
        λ w1.
          IsInside-write (if ltb 0 (length groups) then lib.write_char w1 newline else some w1) _
            λ w2. simple_write-IsInside (end_index g) groups w2 h.1

  write_files-IsInside :
      (count offset start : ℕ) (w : Writer)
      → start + offset + count ≤ length entries
      → IsInside (write_files lib count offset start entries w)
  unfolding write_files
  write_files-IsInside zero offset start w h = tt
  write_files-IsInside (suc count) offset start w h =
      IsInside-write (separated lib offset w) _ λ w1.
        IsInside->>= (entry_at entries (start + offset)) _
          (entry_at-IsInside entries (start + offset) (omega (arith, h)))
          λ entry.
            IsInside-write (write_escaped lib entry.absolute_path w1) _
              λ w2. write_files-IsInside count (offset + 1) start w2 (omega (arith, h))

  write_groups-IsInside :
      (index from : ℕ) (groups : List Group) (w : Writer)
      → IsLaidOut from (length entries) groups
      → IsInside (write_groups lib index entries groups w)
  unfolding write_groups
  write_groups-IsInside index from [] w h = tt
  write_groups-IsInside index from (g ∷ groups) w h =
      let fits = IsLaidOut-le (end_index g) (length entries) groups h.1 in
      IsInside-write (separated lib index w) _ λ w1.
        IsInside-write (lib.write_bytes w1 (codes "{\"size\":")) _ λ w2.
          IsInside-write (lib.write_decimal w2 g.file_size) _ λ w3.
            IsInside-write (lib.write_bytes w3 (codes ",\"files\":[")) _ λ w4.
              IsInside->>= (write_files lib g.entry_count 0 g.start_index entries w4) _
                (write_files-IsInside g.entry_count 0 g.start_index w4 (omega (arith, fits)))
                λ w5.
                  IsInside-write (lib.write_bytes w5 (codes "]}")) _
                    λ w6. write_groups-IsInside (index + 1) (end_index g) groups w6 h.1

  pub json_write-IsInside :
      (algorithm : Algorithm) (groups : List Group) (s : Statistics) (w : Writer)
      → IsLaidOut 0 (length entries) groups
      → IsInside (json_write lib algorithm entries groups s w)
  unfolding json_write
  json_write-IsInside algorithm groups s w h =
      IsInside-write
        (lib.write_bytes w
          (codes "{\"version\":\"1.0.0\",\"tool\":\"bc-duplicate\",\"algorithm\":\""))
        _
        λ w1. IsInside-write (lib.write_bytes w1 (codes (algorithm_name lib algorithm))) _ λ w2.
          IsInside-write (lib.write_bytes w2 (codes "\",")) _ λ w3.
            IsInside-write (write_stats lib s w3) _ λ w4.
              IsInside-write (lib.write_bytes w4 (codes ",\"groups\":[")) _ λ w5.
                IsInside->>= (write_groups lib 0 entries groups w5) _
                  (write_groups-IsInside 0 0 groups w5 h)
                  (λ w6. written_or_not (lib.write_bytes w6 (codes "]}\n")))
