-- ===== src/Grouping/Regroup/View.antt =====
-- The loop over the groups computes `regrouped`, whatever stands elsewhere in the array.
use bc_duplicate.Prelude.{
  ℕ, ◌+◌, ◌≤◌, ◌≡◌, refl, sym, ◌∙◌, Bool, List, [], ◌∷◌, ◌++◌, arith, length, drop, All,
  take-append-drop, length-take, length-drop,
}
use mathlib.Core.List.{append-nil, append_assoc}
use bc_duplicate.Types.{Entry, Group}
use bc_duplicate.Outcome.{Returns, Returns->>=, Returns-imp, Returns-both}
use bc_duplicate.Core.{CoreLibrary}
use bc_duplicate.Grouping.Buffer.{GroupBuffer, IsRoomy}
use bc_duplicate.Grouping.Runs.{scan_runs, duplicate_runs}
use bc_duplicate.Grouping.Runs.View.{members, view, total, scan_runs-view}
use bc_duplicate.Grouping.Runs.Layout.{
  IsLaidOut, end_index, IsLaidOut-le, IsLaidOut-ends, IsLaidOut-wider, scan_runs-IsLaidOut,
}
use bc_duplicate.Grouping.Regroup.{sort_range, regroup, regrouped}
use bc_duplicate.Grouping.Regroup.Range.{
  length-sort_range, members-sort_range, view-before, view-behind,
}

-- The loop adds groups that stand for `runs`, counts their entries, and keeps the layout.
pub record IsRegrouped (entries : List Entry) (b : GroupBuffer) (runs : List (ℕ × List Entry))
    (r : List Entry × GroupBuffer) : Type 0 where
  pub same_length_array : length r.0 ≡ length entries
  pub groups_view : view r.0 r.1.groups ≡ view entries b.groups ++ runs
  pub counted : r.1.candidate_count ≡ b.candidate_count + total runs
  pub laid_out : IsLaidOut 0 (length r.0) r.1.groups

total-append : (xs ys : List (ℕ × List Entry)) → total (xs ++ ys) ≡ total xs + total ys
total-append [] ys = omega arith
total-append (x ∷ xs) ys = omega (arith, total-append xs ys)

module _ (core : CoreLibrary) (less same : Entry → Entry → Bool) (grant : ℕ → Bool) where
  -- One round, seen from the array that it leaves.
  IsRegrouped-round :
      (g : Group) (entries : List Entry) (b b' : GroupBuffer) (runs later : List (ℕ × List Entry))
      (r : List Entry × GroupBuffer)
      → g.start_index + g.entry_count ≤ length entries
      → All (λ h. end_index h ≤ g.start_index) b.groups
      → (view (sort_range core less entries g.start_index g.entry_count) b'.groups
          ≡ view (sort_range core less entries g.start_index g.entry_count) b.groups ++ runs)
      → b'.candidate_count ≡ b.candidate_count + total runs
      → IsRegrouped (sort_range core less entries g.start_index g.entry_count) b' later r
      → IsRegrouped entries b (runs ++ later) r
  IsRegrouped-round g entries b b' runs later r fits before seen counted i =
      let front = view-before core less entries g.start_index g.entry_count fits b.groups before in
      record {
        same_length_array =
            i.same_length_array
            ∙ length-sort_range core less entries g.start_index g.entry_count fits;
        groups_view =
            i.groups_view ∙ rw (seen, front) (append_assoc (view entries b.groups) runs later);
        counted = omega (arith, i.counted, total-append runs later);
        laid_out = i.laid_out;
      }

  -- The scan of one sorted range: the groups it adds, and where they stand.
  scanned_range :
      (g : Group) (sorted : List Entry) (b : GroupBuffer) (from : ℕ)
      → g.start_index + g.entry_count ≤ length sorted
      → from ≤ g.start_index
      → (IsLaidOut 0 from b.groups × IsRoomy grant b)
      → Returns grant
          (scan_runs grant same
            (λ _. g.file_size)
            g.start_index
            g.entry_count
            0
            (members sorted g)
            b)
          (λ b'.
            ((view sorted b'.groups
                ≡ view sorted b.groups
                  ++ duplicate_runs same (λ _. g.file_size) g.entry_count (members sorted g))
              × (b'.candidate_count
                  ≡ b.candidate_count
                    + total
                        (duplicate_runs same (λ _. g.file_size) g.entry_count (members sorted g))))
            × (IsLaidOut 0 (end_index g) b'.groups × IsRoomy grant b'))
  scanned_range g sorted b from fits ahead k =
      let start : g.start_index + 0 ≡ g.start_index = omega arith in
      let stop : g.start_index + (0 + length (members sorted g)) ≡ end_index g = omega (
        arith,
        length-take {0} g.entry_count (drop g.start_index sorted),
        length-drop {0} g.start_index sorted,
      ) in
      Returns-both grant _ _ _
        (scan_runs-view grant same (λ _. g.file_size) g.start_index sorted
          (drop g.entry_count (drop g.start_index sorted)) g.entry_count 0 (members sorted g) b
          (rw start (sym (take-append-drop g.entry_count (drop g.start_index sorted)))) k.1)
        (rw stop at (
          scan_runs-IsLaidOut grant same (λ _. g.file_size) g.start_index 0 g.entry_count 0
            (members sorted g) b (IsLaidOut-wider 0 from _ b.groups (omega arith) k.0, k.1)))

  pub regroup-IsRegrouped :
      (gs : List Group) (entries : List Entry) (b : GroupBuffer) (from : ℕ)
      → IsLaidOut from (length entries) gs
      → (IsLaidOut 0 from b.groups × IsRoomy grant b)
      → Returns grant
          (regroup core less same grant gs entries b)
          (IsRegrouped entries b (regrouped core less same (view entries gs)))
  unfolding regroup regrouped
  regroup-IsRegrouped [] entries b from h k = record {
    same_length_array = refl;
    groups_view = sym (append-nil (view entries b.groups));
    counted = omega arith;
    laid_out = IsLaidOut-wider 0 from (length entries) b.groups h k.0;
  }
  regroup-IsRegrouped (g ∷ gs) entries b from h k =
      let sorted = sort_range core less entries g.start_index g.entry_count in
      let fits = IsLaidOut-le (end_index g) (length entries) gs h.1 in
      let same_array = length-sort_range core less entries g.start_index g.entry_count fits in
      let full : length (members entries g) ≡ g.entry_count = omega (
        arith,
        length-take {0} g.entry_count (drop g.start_index entries),
        length-drop {0} g.start_index entries,
      ) in
      let later =
        view-behind core less entries g.start_index g.entry_count fits gs (end_index g)
          (length entries) (omega arith) h.1 in
      let runs = duplicate_runs same (λ _. g.file_size) g.entry_count (members sorted g) in
      rw (full, ← members-sort_range core less entries g.start_index g.entry_count fits, ← later)
        (Returns->>= grant
          (scan_runs grant same (λ _. g.file_size) g.start_index g.entry_count 0 (members sorted g)
            b)
          (regroup core less same grant gs sorted)
          (λ b'.
            ((view sorted b'.groups ≡ view sorted b.groups ++ runs)
              × (b'.candidate_count ≡ b.candidate_count + total runs))
            × (IsLaidOut 0 (end_index g) b'.groups × IsRoomy grant b'))
          (IsRegrouped entries b (runs ++ regrouped core less same (view sorted gs)))
          (scanned_range g sorted b from (rw same_array fits) h.0 k)
          λ b' s.
            Returns-imp grant (regroup core less same grant gs sorted b')
              (IsRegrouped sorted b' (regrouped core less same (view sorted gs))) _
              (λ r i.
                IsRegrouped-round g entries b b' runs (regrouped core less same (view sorted gs)) r
                  fits
                  (IsLaidOut-ends 0 g.start_index b.groups
                    (IsLaidOut-wider 0 from _ b.groups h.0 k.0))
                  s.0.0 s.0.1 i)
              (regroup-IsRegrouped gs sorted b' (end_index g) (rw same_array h.1) s.1))
