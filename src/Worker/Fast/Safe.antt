-- ===== src/Worker/Fast/Safe.antt =====
-- The fast pass stays inside its arrays, and writes hashes only.
use bc_duplicate.Prelude.{
  ℕ, ◌*◌, ◌<◌, ◌≡◌, refl, sym, ◌∙◌, Bool, true, false, Bool-cases, Option-cases, inl, inr, List, [],
  ◌∷◌, Option, some, map, length, ◌==◌, All, length-same_map,
}
use bc_duplicate.Types.{Entry, Group}
use bc_duplicate.Outcome.{read_at, Meets, Meets->>=, Meets-imp, Meets-read_at}
use bc_duplicate.Core.{CoreLibrary}
use bc_duplicate.Grouping.Runs.Layout.{IsLaidOut}
use bc_duplicate.Worker.Reader.{OpenAnswer-cases, ReadAnswer, open_read_only}
use bc_duplicate.Worker.Fast.{
  FastKernel, hash_prefix, fast_iteration, total_entries, candidate_indices,
  sort_indices_by_size_desc, run_iterations, fast_pass, size_bytes,
}
use bc_duplicate.Worker.Kept.{
  without_hashes, map-set, sorted_candidates_below, length-sorted_candidates,
}

-- `bc_concurrency_for` runs iterations of its range only.
abbrev pub RunsInRange : (ℕ → Option (List ℕ)) → Type 0
RunsInRange schedule = (n : ℕ) (order : List ℕ) → schedule n ≡ some order → All (λ i. i < n) order

without_hashes-prefix :
    (xxh3 : List ℕ → ℕ) (pread : (count offset : ℕ) → ReadAnswer) (first : ReadAnswer)
    (entry : Entry)
    → without_hashes (hash_prefix xxh3 pread first entry) ≡ without_hashes entry
unfolding hash_prefix
without_hashes-prefix xxh3 pread (ReadAnswer.stored block) entry = refl
without_hashes-prefix xxh3 pread (ReadAnswer.not_read e) entry = refl

without_hashes-iteration :
    (xxh3 : List ℕ → ℕ) (stop : Bool) (kernel : FastKernel) (entry : Entry)
    → without_hashes (fast_iteration xxh3 stop kernel entry) ≡ without_hashes entry
unfolding fast_iteration
without_hashes-iteration xxh3 true kernel entry = refl
without_hashes-iteration xxh3 false kernel entry =
    elim (OpenAnswer-cases (open_read_only kernel.with_noatime kernel.without_noatime)) [
      | inl opened ↦ rw (fast_iteration, opened) (without_hashes-prefix xxh3 kernel.pread _ entry)
      | inr (e, failed) ↦ rw (fast_iteration, failed) refl
    ]

module _ (xxh3 : List ℕ → ℕ) (stops : ℕ → Bool) (files : List ℕ → FastKernel) where
  run_iterations-Meets :
      (order candidates : List ℕ) (entries : List Entry)
      → All (λ i. i < length candidates) order
      → All (λ i. i < length entries) candidates
      → Meets
          (run_iterations xxh3 stops files order candidates entries)
          (λ hashed. map without_hashes hashed ≡ map without_hashes entries)
  unfolding run_iterations
  run_iterations-Meets [] candidates entries h k = refl
  run_iterations-Meets (i ∷ order) candidates entries h k =
      Meets->>= (read_at candidates i) _ (λ index. index < length entries) _
        (Meets-read_at _ candidates i h.0 k)
        λ index below.
          Meets->>= (read_at entries index) _ _ _
            (map-set without_hashes (λ e. fast_iteration xxh3 (stops i) (files e.absolute_path) e)
              entries index below
              (λ e. without_hashes-iteration xxh3 (stops i) (files e.absolute_path) e))
            λ entry e.
              let same = length-same_map without_hashes _ entries e in
              Meets-imp (run_iterations xxh3 stops files order candidates _) _ _
                (λ hashed e'. e' ∙ e)
                (run_iterations-Meets order candidates _ h.1 (rw (sym same) at k))

  -- If the pool runs iterations of its range only, the fast pass over groups that are laid out in the
  -- array stays inside it, and changes nothing but hashes and their errors.
  pub fast_pass-Meets :
      (core : CoreLibrary) (grant : ℕ → Bool) (schedule : ℕ → Option (List ℕ))
      (entries : List Entry) (groups : List Group)
      → RunsInRange schedule
      → IsLaidOut 0 (length entries) groups
      → Meets
          (fast_pass xxh3 stops files core grant schedule entries groups)
          (λ r. map without_hashes r.0 ≡ map without_hashes entries)
  unfolding fast_pass
  fast_pass-Meets core grant schedule entries groups runs laid_out =
      let n = total_entries groups in
      elim (Bool-cases (n == 0)) [
        | inl idle ↦ rw idle refl
        | inr busy ↦ rw busy (elim (Bool-cases (grant (n * size_bytes))) [
          | inr refused ↦ rw refused tt
          | inl granted ↦ rw granted (elim (Option-cases (schedule n)) [
            | inl e ↦ rw e tt
            | inr (order, e) ↦ rw e (
                let candidates =
                  sort_indices_by_size_desc core entries (candidate_indices groups) in
                let count = length-sorted_candidates core entries groups in
                Meets->>= (run_iterations xxh3 stops files order candidates entries) _ _ _
                  (run_iterations-Meets order candidates entries
                    (rw (sym count) at (runs n order e))
                    (sorted_candidates_below core entries groups laid_out))
                  (λ hashed k. k))
          ])
        ])
      ]
