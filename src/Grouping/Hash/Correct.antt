-- ===== src/Grouping/Hash/Correct.antt =====
-- What the two hash stages return: each group split into its classes of equal hash.
use bc_duplicate.Prelude.{
  ℕ, ◌≡◌, refl, ◌∙◌, Bool, List, [], arith, length, ◌==◌, Bool-cases, inl, inr, All, length-eq-zero,
}
use bc_duplicate.Types.{Entry, Group}
use bc_duplicate.Outcome.{done, ◌>>=◌, Returns, Returns->>=}
use bc_duplicate.Core.{CoreLibrary}
use bc_duplicate.Grouping.Buffer.{GroupBuffer, IsRoomy, create_buffer, create_buffer_lem}
use bc_duplicate.Grouping.Runs.View.{view, total}
use bc_duplicate.Grouping.Runs.Layout.{IsLaidOut}
use bc_duplicate.Grouping.Regroup.{regroup, regrouped}
use bc_duplicate.Grouping.Regroup.View.{IsRegrouped, regroup-IsRegrouped}
use bc_duplicate.Grouping.Regroup.Classes.{
  IsPartOf, IsKeptTogether, regrouped-IsPartOf, regrouped-IsKeptTogether,
}
use bc_duplicate.Grouping.Hash.{
  fast_hash_less_than, same_fast_hash, full_hash_less_than, same_full_hash, group_by_fast_hash,
  group_by_full_hash,
}
use bc_duplicate.Grouping.Hash.Order.{
  fast_hash_less_than-IsStrictOrder, same_fast_hash-IsSameness, same_fast_hash-between,
  full_hash_less_than-IsStrictOrder, same_full_hash-IsSameness, same_full_hash-between,
}

-- The groups `gs` of `entries` refine the groups `gs'` of `entries'`: every group is a class of
-- `same` within one of `gs'`, with the same file size, and no such class of two or more is missing.
-- The groups stand in the array one behind the other.
pub record IsRefined (same : Entry → Entry → Bool) (entries' : List Entry) (gs' : List Group)
    (entries : List Entry) (gs : List Group) : Type 0 where
  pub parts : All (IsPartOf same (view entries' gs')) (view entries gs)
  pub together : All (IsKeptTogether same (view entries gs)) (view entries' gs')
  pub laid_out : IsLaidOut 0 (length entries) gs
  pub same_length_array : length entries ≡ length entries'

module _ (core : CoreLibrary) (grant : ℕ → Bool) (entries : List Entry) (gs : List Group) where
  IsRefined-regrouped :
      (less same : Entry → Entry → Bool) (b : GroupBuffer) (r : List Entry × GroupBuffer)
      → All (IsPartOf same (view entries gs)) (regrouped core less same (view entries gs))
      → All (IsKeptTogether same (regrouped core less same (view entries gs))) (view entries gs)
      → b.groups ≡ []
      → IsRegrouped entries b (regrouped core less same (view entries gs)) r
      → IsRefined same entries gs r.0 r.1.groups
  IsRefined-regrouped less same b r parts together empty i =
      let e : view r.0 r.1.groups ≡ regrouped core less same (view entries gs) =
        i.groups_view ∙ rw empty refl in
      record {
        parts = rw e parts;
        together = rw e together;
        laid_out = i.laid_out;
        same_length_array = i.same_length_array;
      }

  nothing-IsRefined :
      (same : Entry → Entry → Bool) → length gs ≡ 0 → IsRefined same entries gs entries []
  nothing-IsRefined same e =
      let none_left : gs ≡ [] = length-eq-zero gs e in
      record {
        parts = tt;
        together = rw none_left tt;
        laid_out = omega arith;
        same_length_array = refl;
      }

  -- Both stages are this call, with their own comparison and result.
  regrouped_stage {ℓ} :
      {R : Type ℓ} (less same : Entry → Entry → Bool) (b : GroupBuffer)
      (finish : List Entry × GroupBuffer → R) (Q : R → Type 0)
      → All (IsPartOf same (view entries gs)) (regrouped core less same (view entries gs))
      → All (IsKeptTogether same (regrouped core less same (view entries gs))) (view entries gs)
      → IsLaidOut 0 (length entries) gs
      → (b.groups ≡ []) × (b.candidate_count ≡ 0) × IsRoomy grant b
      → ((r : List Entry × GroupBuffer)
          → IsRefined same entries gs r.0 r.1.groups
          → r.1.candidate_count ≡ total (view r.0 r.1.groups)
          → Q (finish r))
      → Returns grant (regroup core less same grant gs entries b >>= λ r. done (finish r)) Q
  regrouped_stage less same b finish Q parts together laid_out empty k =
      Returns->>= grant (regroup core less same grant gs entries b) (λ r. done (finish r))
        (IsRegrouped entries b (regrouped core less same (view entries gs))) Q
        (regroup-IsRegrouped core less same grant gs entries b 0 laid_out
          (rw empty.0 (omega arith), empty.2))
        λ r i.
          k r (IsRefined-regrouped less same b r parts together empty.0 i)
            (i.counted ∙ rw (empty.1, i.groups_view, empty.0) (omega arith))

  -- The fast-hash stage returns, or a request was refused: its groups are the classes of equal fast
  -- hash, of two entries or more, within the given groups, with their file sizes; it drops no such
  -- class, counts the entries of its groups, and lays the groups out one behind the other.
  pub group_by_fast_hash-IsRefined :
      IsLaidOut 0 (length entries) gs
      → Returns grant (group_by_fast_hash core grant entries gs) (λ r.
        IsRefined same_fast_hash entries gs r.entries r.groups
        × (r.candidate_count ≡ total (view r.entries r.groups)))
  unfolding group_by_fast_hash
  group_by_fast_hash-IsRefined laid_out = elim (Bool-cases (length gs == 0)) [
    | inl empty ↦ rw empty (nothing-IsRefined same_fast_hash (ground arith), refl)
    | inr more ↦ rw more (
        Returns->>= grant (create_buffer grant (length gs)) _ _ _
          (create_buffer_lem grant (length gs) (ground (arith, more)))
          λ b e.
            regrouped_stage fast_hash_less_than same_fast_hash b
              (λ r. record {
                entries = r.0;
                groups = r.1.groups;
                candidate_count = r.1.candidate_count;
              })
              _
              (regrouped-IsPartOf core fast_hash_less_than same_fast_hash
                fast_hash_less_than-IsStrictOrder same_fast_hash-IsSameness same_fast_hash-between
                (view entries gs))
              (regrouped-IsKeptTogether core fast_hash_less_than same_fast_hash
                fast_hash_less_than-IsStrictOrder same_fast_hash-IsSameness same_fast_hash-between
                (view entries gs))
              laid_out e (λ r i c. (i, c)))
  ]

  -- The full-hash stage returns, or a request was refused: its groups are the classes of equal
  -- digest, of two entries or more, within the given groups, with their file sizes; it drops no such
  -- class and lays the groups out one behind the other.
  pub group_by_full_hash-IsRefined :
      (digest_size : ℕ)
      → IsLaidOut 0 (length entries) gs
      → Returns grant
          (group_by_full_hash core grant entries gs digest_size)
          (λ r. IsRefined (same_full_hash core digest_size) entries gs r.0 r.1)
  unfolding group_by_full_hash
  group_by_full_hash-IsRefined digest_size laid_out = elim (Bool-cases (length gs == 0)) [
    | inl empty ↦ rw empty (nothing-IsRefined (same_full_hash core digest_size) (ground arith))
    | inr more ↦ rw more (
        Returns->>= grant (create_buffer grant (length gs)) _ _ _
          (create_buffer_lem grant (length gs) (ground (arith, more)))
          λ b e.
            regrouped_stage (full_hash_less_than core digest_size) (same_full_hash core digest_size)
              b (λ r. (r.0, r.1.groups)) _
              (regrouped-IsPartOf core (full_hash_less_than core digest_size)
                (same_full_hash core digest_size)
                (full_hash_less_than-IsStrictOrder core digest_size)
                (same_full_hash-IsSameness core digest_size)
                (same_full_hash-between core digest_size) (view entries gs))
              (regrouped-IsKeptTogether core (full_hash_less_than core digest_size)
                (same_full_hash core digest_size)
                (full_hash_less_than-IsStrictOrder core digest_size)
                (same_full_hash-IsSameness core digest_size)
                (same_full_hash-between core digest_size) (view entries gs))
              laid_out e (λ r i c. i))
  ]
