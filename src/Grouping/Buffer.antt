-- ===== src/Grouping/Buffer.antt =====
-- The growing array of groups that the three functions of src/grouping fill.
use bc_duplicate.Prelude.{
  ℕ, ◌+◌, ◌*◌, ◌≤◌, ◌<◌, ◌≡◌, refl, Bool, true, Bool-cases, inl, inr, List, [], ◌∷◌, ◌++◌, arith,
  length, length-append, ltb, ◌==◌, if◌then◌else◌,
}
use bc_duplicate.Types.{Group}
use bc_duplicate.Outcome.{
  Outcome, done, out_of_memory, out_of_bounds, ◌>>=◌, Returns, Returns-granted,
}

-- sizeof(bc_duplicate_group_t)
abbrev pub group_bytes : ℕ
group_bytes = 24

-- `groups`, `group_capacity` and the counter behind `out_candidate_count`.
pub record GroupBuffer : Type 0 where
  pub groups : List Group
  pub group_capacity : ℕ
  pub candidate_count : ℕ

-- `grant n` tells whether the pool allocator serves a request for `n` bytes. Within one call the
-- requests grow strictly, so a function of the size describes every allocator.
module _ (grant : ℕ → Bool) where
  -- The array of the first `group_capacity` groups.
  unfoldable pub create_buffer : ℕ → Outcome GroupBuffer
  create_buffer group_capacity =
      if grant (group_capacity * group_bytes)
      then done (record { groups = []; group_capacity = group_capacity; candidate_count = 0 })
      else out_of_memory

  -- The capacity doubles when the array is full; a refused reallocation ends the call.
  unfoldable pub grow_if_full : GroupBuffer → Outcome GroupBuffer
  grow_if_full b =
      if length b.groups == b.group_capacity
      then (if grant (b.group_capacity * 2 * group_bytes)
          then done (record b { group_capacity = b.group_capacity * 2 })
          else out_of_memory)
      else done b

  -- `groups[group_count]` is written, inside the array or not.
  unfoldable pub store_group : Group → GroupBuffer → Outcome GroupBuffer
  store_group group b =
      if ltb (length b.groups) b.group_capacity
      then done (record b {
        groups = b.groups ++ group ∷ [];
        candidate_count = b.candidate_count + group.entry_count;
      })
      else out_of_bounds

  unfoldable pub append_group : Group → GroupBuffer → Outcome GroupBuffer
  append_group group b = do b1 ← grow_if_full b; store_group group b1

  -- The groups are inside the array, which can grow by doubling.
  pub record IsRoomy (b : GroupBuffer) : Type 0 where
    pub stored_inside : length b.groups ≤ b.group_capacity
    pub some_capacity : 0 < b.group_capacity

  abbrev pub IsAppended : Group → GroupBuffer → GroupBuffer → Type 0
  IsAppended group b b' =
      (b'.groups ≡ b.groups ++ group ∷ [])
      × (b'.candidate_count ≡ b.candidate_count + group.entry_count)
      × IsRoomy b'

  store_group_lem :
      (group : Group) (b : GroupBuffer)
      → length b.groups < b.group_capacity
      → Returns grant (store_group group b) (IsAppended group b)
  unfolding store_group
  store_group_lem group b h =
      let inside : ltb (length b.groups) b.group_capacity ≡ true = ground (arith, h) in
      rw inside (
        refl,
        refl,
        record {
          stored_inside = omega (arith, length-append {0} b.groups (group ∷ []), h);
          some_capacity = omega (arith, h);
        },
      )

  -- Appending stays inside the array, keeps what is stored, adds the group at the end and counts its
  -- entries.
  pub append_group_lem :
      (group : Group) (b : GroupBuffer)
      → IsRoomy b
      → Returns grant (append_group group b) (IsAppended group b)
  unfolding append_group grow_if_full
  append_group_lem group b h = elim (Bool-cases (length b.groups == b.group_capacity)) [
    | inl full ↦ rw full (elim (Bool-cases (grant (b.group_capacity * 2 * group_bytes))) [
      | inl served ↦ rw served (
          store_group_lem group (record b { group_capacity = b.group_capacity * 2 })
            (ground (arith, full, h.some_capacity)))
      | inr refused ↦ rw refused (_, refused)
    ])
    | inr room ↦ rw room (store_group_lem group b (ground (arith, room, h.stored_inside)))
  ]

  pub create_buffer_lem :
      (capacity : ℕ)
      → 0 < capacity
      → Returns grant
          (create_buffer capacity)
          (λ b. (b.groups ≡ []) × (b.candidate_count ≡ 0) × IsRoomy b)
  unfolding create_buffer
  create_buffer_lem capacity h =
      Returns-granted grant _ _ _
        (refl, refl, record { stored_inside = omega arith; some_capacity = h })
