-- ===== src/Grouping/Size/Correct.antt =====
-- What by_size returns: the classes of equal size among the entries that stay.
use bc_duplicate.Prelude.{
  ℕ, ◌+◌, ◌-◌, ◌≤◌, ◌≡◌, refl, sym, ap, ◌∙◌, Bool, true, false, List, [], ◌++◌, arith, length, take,
  drop, ◌==◌, if◌then◌else◌, Bool-cases, inl, inr, All, All-Unit, length-eq-zero, Some, select,
  take-append-drop, length-take, take-all,
}
use Prim.Native.Nat.{min}
use mathlib.Core.List.{Perm}
use bc_duplicate.Types.{Entry}
use bc_duplicate.Outcome.{done, ◌>>=◌, Returns, Returns->>=, Returns-imp, Returns-both}
use bc_duplicate.Permutation.{length-perm, select-perm}
use bc_duplicate.Core.{CoreLibrary}
use bc_duplicate.Grouping.Buffer.{GroupBuffer, IsRoomy, create_buffer, create_buffer_lem}
use bc_duplicate.Grouping.Runs.{scan_runs, duplicate_runs}
use bc_duplicate.Grouping.Runs.View.{view, total, scan_runs-view}
use bc_duplicate.Grouping.Runs.Classes.{
  IsClustered, IsClassRun, duplicate_runs-IsClassRun, duplicate_runs-Some,
}
use bc_duplicate.Grouping.Runs.Layout.{IsLaidOut, scan_runs-IsLaidOut}
use bc_duplicate.Grouping.Runs.Clustered.{IsOrdered-IsClustered}
use bc_duplicate.Grouping.Size.{
  SizeGroups, Compacted, no_size_groups, size_dev_ino_less_than, same_size, compact, group_by_size,
}
use bc_duplicate.Grouping.Size.Order.{
  size_dev_ino_less_than-IsStrictOrder, same_size-IsSameness, same_link, same_link-IsSameness,
  same_link-between, IsSorted-IsClustered,
}
use bc_duplicate.Grouping.Size.Links.{
  distinct, distinct-class, IsOrdered-distinct, length-select-distinct,
}
use bc_duplicate.Grouping.Size.Compact.{AreSafeCopies, compact-IsCompacted}

-- The entries that stay, in front of the array.
abbrev pub survivors : SizeGroups → List Entry
survivors r = take (length r.entries - r.hardlinks_collapsed) r.entries

-- The groups are the classes of equal size with two members or more, each with its size, and the
-- candidates are their members.
pub record IsGroupedBySize (r : SizeGroups) : Type 0 where
  pub groups_are_classes :
      All
        (IsClassRun same_size (λ e. e.file_size) (λ _. Unit {0}) (survivors r))
        (view r.entries r.groups)
  pub classes_are_groups :
      (a : Entry)
      → 2 ≤ length (select (same_size a) (survivors r))
      → Some
          (λ v. (v.0 ≡ a.file_size) × (v.1 ≡ select (same_size a) (survivors r)))
          (view r.entries r.groups)
  pub laid_out : IsLaidOut 0 (length r.entries - r.hardlinks_collapsed) r.groups
  pub candidates_counted : r.candidate_count ≡ total (view r.entries r.groups)

module _ (core : CoreLibrary) (grant : ℕ → Bool) where
  abbrev pub sorted : List Entry → List Entry
  sorted entries = core.sort Entry size_dev_ino_less_than entries

  -- The entries that stay, by the options: all, or the first link to each file.
  abbrev pub kept : Bool → List Entry → List Entry
  kept match_hardlinks entries =
      if match_hardlinks then sorted entries else distinct same_link (sorted entries)

  pub kept-IsClustered :
      (match_hardlinks : Bool) (entries : List Entry)
      → IsClustered same_size (kept match_hardlinks entries)
  kept-IsClustered true entries =
      IsSorted-IsClustered (sorted entries) (
        core.sort_ordered Entry size_dev_ino_less_than entries size_dev_ino_less_than-IsStrictOrder)
  kept-IsClustered false entries = IsSorted-IsClustered (distinct same_link (sorted entries)) (
      IsOrdered-distinct same_link _ (sorted entries) (
        core.sort_ordered Entry size_dev_ino_less_than entries
          size_dev_ino_less_than-IsStrictOrder))

  -- The compaction leaves the kept entries in front, and counts the others.
  abbrev IsKept : Bool → List Entry → Compacted → Type 0
  IsKept match_hardlinks entries c =
      (take c.entry_count c.entries ≡ kept match_hardlinks entries)
      × (c.entry_count + c.hardlinks_collapsed ≡ length c.entries)
      × (length c.entries ≡ length (sorted entries))

  compact-IsKept :
      (match_hardlinks : Bool) (entries : List Entry)
      → (match_hardlinks ≡ false → AreSafeCopies core (sorted entries))
      → Returns grant
          (compact core match_hardlinks (sorted entries))
          (IsKept match_hardlinks entries)
  unfolding compact
  compact-IsKept true entries safe = (take-all (sorted entries), omega arith, refl)
  compact-IsKept false entries safe =
      let (c, e, i) = compact-IsCompacted core (sorted entries) (safe refl) in
      rw e
        (i.live, omega (arith, i.live_count, i.counted, i.same_length_array), i.same_length_array)

  abbrev result : Compacted → GroupBuffer → SizeGroups
  result c b = record {
    entries = c.entries;
    groups = b.groups;
    candidate_count = b.candidate_count;
    hardlinks_collapsed = c.hardlinks_collapsed;
  }

  -- What by_size promises of its result.
  abbrev pub IsSizeResult : Bool → List Entry → SizeGroups → Type 0
  IsSizeResult match_hardlinks entries r =
      IsGroupedBySize r
      × (survivors r ≡ kept match_hardlinks entries)
      × (length (survivors r) + r.hardlinks_collapsed ≡ length (sorted entries))

  result-IsSizeResult :
      (match_hardlinks : Bool) (entries : List Entry) (c : Compacted) (b : GroupBuffer)
      → IsKept match_hardlinks entries c
      → (view c.entries b.groups
          ≡ duplicate_runs same_size
              (λ e. e.file_size)
              c.entry_count
              (take c.entry_count c.entries))
      → (b.candidate_count
          ≡ total (
              duplicate_runs same_size
                (λ e. e.file_size)
                c.entry_count
                (take c.entry_count c.entries)))
      → IsLaidOut 0 c.entry_count b.groups
      → IsSizeResult match_hardlinks entries (result c b)
  result-IsSizeResult match_hardlinks entries c b k seen counted laid_out =
      let l = kept match_hardlinks entries in
      let front : survivors (result c b) ≡ l =
        ap (λ n. take n c.entries)
          (let e : length c.entries - c.hardlinks_collapsed ≡ c.entry_count = omega arith in e)
        ∙ k.0 in
      let runs : view c.entries b.groups
          ≡ duplicate_runs same_size (λ e. e.file_size) c.entry_count l =
        seen ∙ ap (duplicate_runs same_size (λ e. e.file_size) c.entry_count) k.0 in
      let short : length l ≤ c.entry_count =
        omega (arith, ap length k.0, length-take {0} c.entry_count c.entries) in
      let clustered = kept-IsClustered match_hardlinks entries in
      (
        record {
          groups_are_classes =
              rw (front, runs)
                (duplicate_runs-IsClassRun same_size same_size-IsSameness (λ e. e.file_size)
                  c.entry_count l (λ _. Unit) short clustered (All-Unit l));
          classes_are_groups = λ a two.
              rw (front, runs)
                (duplicate_runs-Some same_size same_size-IsSameness (λ e. e.file_size) c.entry_count
                  l a (λ x e. ground arith) short clustered (rw front at two));
          laid_out =
              let e : length c.entries - c.hardlinks_collapsed ≡ c.entry_count = omega arith in
              rw e laid_out;
          candidates_counted = counted ∙ ap total (sym seen);
        },
        front,
        omega (arith, length-take {0} (length c.entries - c.hardlinks_collapsed) c.entries),
      )

  scan-IsSizeResult :
      (match_hardlinks : Bool) (entries : List Entry) (c : Compacted) (b : GroupBuffer)
      → IsKept match_hardlinks entries c
      → (b.groups ≡ []) × (b.candidate_count ≡ 0) × IsRoomy grant b
      → Returns grant
          (scan_runs grant same_size
              (λ e. e.file_size)
              0
              c.entry_count
              0
              (take c.entry_count c.entries)
              b
            >>= λ b'. done (result c b'))
          (IsSizeResult match_hardlinks entries)
  scan-IsSizeResult match_hardlinks entries c b k empty =
      let runs =
        duplicate_runs same_size (λ (e : Entry). e.file_size) c.entry_count
          (take c.entry_count c.entries) in
      Returns->>= grant
        (scan_runs grant same_size (λ e. e.file_size) 0 c.entry_count 0
          (take c.entry_count c.entries) b)
        (λ b'. done (result c b'))
        (λ b'.
          ((view c.entries b'.groups ≡ view c.entries b.groups ++ runs)
            × (b'.candidate_count ≡ b.candidate_count + total runs))
          × (IsLaidOut 0 (0 + (0 + length (take c.entry_count c.entries))) b'.groups
              × IsRoomy grant b'))
        (IsSizeResult match_hardlinks entries)
        (Returns-both grant _ _ _
          (scan_runs-view grant same_size (λ e. e.file_size) 0 c.entries
            (drop c.entry_count c.entries) c.entry_count 0 (take c.entry_count c.entries) b
            (sym (take-append-drop c.entry_count c.entries)) empty.2)
          (scan_runs-IsLaidOut grant same_size (λ e. e.file_size) 0 0 c.entry_count 0
            (take c.entry_count c.entries) b (rw empty.0 (omega arith), empty.2)))
        λ b' s.
          let all : 0 + (0 + length (take c.entry_count c.entries)) ≡ c.entry_count =
            omega (arith, length-take {0} c.entry_count c.entries) in
          result-IsSizeResult match_hardlinks entries c b' k (rw empty.0 at s.0.0) (omega arith)
            (rw all at s.1.0)

  sorted-nil : (entries : List Entry) → length entries ≡ 0 → sorted entries ≡ []
  sorted-nil entries e =
      length-eq-zero (sorted entries)
        (length-perm (core.sort_perm Entry size_dev_ino_less_than entries) ∙ e)

  kept-nil :
      (match_hardlinks : Bool) (entries : List Entry)
      → length entries ≡ 0
      → kept match_hardlinks entries ≡ []
  kept-nil true entries e = sorted-nil entries e
  kept-nil false entries e = ap (distinct same_link) (sorted-nil entries e)

  nothing-IsSizeResult :
      (match_hardlinks : Bool) (entries : List Entry)
      → length entries ≡ 0
      → IsSizeResult match_hardlinks entries (no_size_groups entries)
  nothing-IsSizeResult match_hardlinks entries e =
      let none_left : survivors (no_size_groups entries) ≡ [] =
        length-eq-zero _ (omega (arith, length-take {0} (length entries - 0) entries)) in
      (
        record {
          groups_are_classes = tt;
          classes_are_groups = λ a two. absurd (let h = rw none_left at two in omega arith);
          laid_out = omega arith;
          candidates_counted = refl;
        },
        none_left ∙ sym (kept-nil match_hardlinks entries e),
        omega (arith, ap length none_left, ap length (sorted-nil entries e)),
      )

  pub by_size-IsSizeResult :
      (entries : List Entry) (match_hardlinks : Bool)
      → (match_hardlinks ≡ false → AreSafeCopies core (sorted entries))
      → Returns grant
          (group_by_size core grant entries match_hardlinks)
          (IsSizeResult match_hardlinks entries)
  unfolding group_by_size
  by_size-IsSizeResult entries match_hardlinks safe = elim (Bool-cases (length entries == 0)) [
    | inl empty ↦ rw empty (nothing-IsSizeResult match_hardlinks entries (ground arith))
    | inr some_entries ↦ rw some_entries (
        Returns->>= grant (compact core match_hardlinks (sorted entries)) _
          (IsKept match_hardlinks entries) (IsSizeResult match_hardlinks entries)
          (compact-IsKept match_hardlinks entries safe)
          λ c k.
            Returns->>= grant (create_buffer grant 16) _
              (λ b. (b.groups ≡ []) × (b.candidate_count ≡ 0) × IsRoomy grant b)
              (IsSizeResult match_hardlinks entries) (create_buffer_lem grant 16 (omega arith))
              (λ b e. scan-IsSizeResult match_hardlinks entries c b k e))
  ]

  -- If links are matched, or no run overlaps the range that it is moved to, or `bc_core_copy` moves
  -- overlapping ranges as `memmove` does, by_size returns, or a request was refused: its groups are the classes of equal size, of two
  -- entries or more, among the entries that stay in front of the array; no such class is missing,
  -- the groups stand in that part one behind the other, and their entries are counted.
  pub group_by_size-IsGroupedBySize :
      (entries : List Entry) (match_hardlinks : Bool)
      → (match_hardlinks ≡ false → AreSafeCopies core (sorted entries))
      → Returns grant (group_by_size core grant entries match_hardlinks) IsGroupedBySize
  group_by_size-IsGroupedBySize entries match_hardlinks safe =
      Returns-imp grant _ (IsSizeResult match_hardlinks entries) IsGroupedBySize (λ r i. i.0)
        (by_size-IsSizeResult entries match_hardlinks safe)

  length-take_one : (l : List Entry) → length (take 1 l) ≡ min 1 (length l)
  length-take_one l = length-take 1 l

  class_kept :
      (entries : List Entry) (r : SizeGroups) (a : Entry)
      → IsSizeResult false entries r
      → length (select (same_link a) (survivors r)) ≡ min 1 (length (select (same_link a) entries))
  class_kept entries r a i =
      let clustered = IsOrdered-IsClustered _ same_link same_link-between (sorted entries) (
        core.sort_ordered Entry size_dev_ino_less_than entries
          size_dev_ino_less_than-IsStrictOrder) in
      let input =
        length-perm
          (select-perm (same_link a) (core.sort_perm Entry size_dev_ino_less_than entries)) in
      ap (λ l. length (select (same_link a) l)) i.1
      ∙ ap length (distinct-class same_link same_link-IsSameness a (sorted entries) clustered)
      ∙ length-take 1 (select (same_link a) (sorted entries))
      ∙ ap (min 1) input

  -- Without --match-hardlinks, and if no run overlaps the range that it is moved to or `bc_core_copy`
  -- moves overlapping ranges as `memmove` does, by_size returns or a request was refused: of all entries with one
  -- size, device and inode exactly one stays, each entry that stays passes for one of the input
  -- under every test, and the entries that do not stay are counted as collapsed.
  pub group_by_size-one_link :
      (entries : List Entry)
      → AreSafeCopies core (sorted entries)
      → Returns grant (group_by_size core grant entries false) (λ r.
        ((a : Entry)
          → length (select (same_link a) (survivors r))
            ≡ min 1 (length (select (same_link a) entries)))
        × ((p : Entry → Bool) → length (select p (survivors r)) ≤ length (select p entries))
        × (length (survivors r) + r.hardlinks_collapsed ≡ length entries))
  group_by_size-one_link entries safe =
      Returns-imp grant _ (IsSizeResult false entries) _
        (λ r i. (
          λ a. class_kept entries r a i,
          λ p. omega (
            arith,
            ap (λ l. length (select p l)) i.1,
            length-select-distinct same_link p (sorted entries),
            length-perm (select-perm p (core.sort_perm Entry size_dev_ino_less_than entries)),
          ),
          i.2 ∙ length-perm (core.sort_perm Entry size_dev_ino_less_than entries),
        ))
        (by_size-IsSizeResult entries false (λ h. safe))

  -- With --match-hardlinks, by_size returns or a request was refused: nothing is collapsed, and the
  -- entries that stay are the input, rearranged.
  pub group_by_size-all_links :
      (entries : List Entry)
      → Returns grant
          (group_by_size core grant entries true)
          (λ r. Perm (survivors r) entries × (r.hardlinks_collapsed ≡ 0))
  group_by_size-all_links entries =
      Returns-imp grant _ (IsSizeResult true entries) _
        (λ r i. (
          rw i.1 (core.sort_perm Entry size_dev_ino_less_than entries),
          omega (arith, i.2, ap length i.1),
        ))
        (by_size-IsSizeResult entries true (λ h. ground (arith, h)))
