-- ===== src/Grouping/Regroup/Range.antt =====
-- A sort of one range leaves the groups before and behind it as they were.
use bc_duplicate.Prelude.{
  ℕ, ◌+◌, ◌-◌, ◌≤◌, ◌≡◌, refl, sym, ap, ap₂, ◌∙◌, Bool, List, [], ◌∷◌, ◌++◌, arith, length, take,
  drop, All, take-append, drop-append, take_left, drop_left, drop-add, take-append-drop,
  length-take, length-drop, length-append,
}
use bc_duplicate.Types.{Entry, Group}
use bc_duplicate.Permutation.{length-perm}
use bc_duplicate.Core.{CoreLibrary}
use bc_duplicate.Grouping.Runs.View.{members, view}
use bc_duplicate.Grouping.Runs.Layout.{IsLaidOut, end_index}
use bc_duplicate.Grouping.Regroup.{sort_range}

module _ (core : CoreLibrary) (less : Entry → Entry → Bool) (entries : List Entry) (start count : ℕ)
    (fits : start + count ≤ length entries) where
  abbrev sorted : List Entry
  sorted = sort_range core less entries start count

  abbrev middle : List Entry
  middle = core.sort Entry less (take count (drop start entries))

  length-middle : length middle ≡ count
  length-middle =
      length-perm (core.sort_perm Entry less (take count (drop start entries)))
      ∙ omega (arith, length-take {0} count (drop start entries), length-drop {0} start entries)

  length-before : length (take start entries) ≡ start
  length-before = omega (arith, length-take {0} start entries)

  pub length-sort_range : length sorted ≡ length entries
  unfolding sort_range
  length-sort_range = omega (
    arith,
    length-append {0} (take start entries) (middle ++ drop (start + count) entries),
    length-append {0} middle (drop (start + count) entries),
    length-drop {0} (start + count) entries,
    length-middle,
    length-before,
  )

  drop-start : drop start sorted ≡ middle ++ drop (start + count) entries
  unfolding sort_range
  drop-start =
      ap (λ n. drop n sorted) (sym length-before)
      ∙ drop-append (take start entries) (middle ++ drop (start + count) entries)

  -- The range itself is sorted.
  pub members-sort_range : take count (drop start sorted) ≡ middle
  members-sort_range =
      ap (take count) drop-start
      ∙ ap (λ n. take n (middle ++ drop (start + count) entries)) (sym length-middle)
      ∙ take-append middle (drop (start + count) entries)

  drop-end : drop (start + count) sorted ≡ drop (start + count) entries
  drop-end =
      drop-add start count sorted
      ∙ ap (drop count) drop-start
      ∙ ap (λ n. drop n (middle ++ drop (start + count) entries)) (sym length-middle)
      ∙ drop-append middle (drop (start + count) entries)

  members-behind :
      (g : Group) → start + count ≤ g.start_index → members sorted g ≡ members entries g
  members-behind g h =
      let e : g.start_index ≡ start + count + (g.start_index - (start + count)) = omega arith in
      let gap = g.start_index - (start + count) in
      ap (take g.entry_count) (
        ap (λ n. drop n sorted) e
        ∙ drop-add (start + count) gap sorted
        ∙ ap (drop gap) drop-end
        ∙ sym (drop-add (start + count) gap entries)
        ∙ ap (λ n. drop n entries) (sym e))

  members_front :
      (g : Group) (rest : List Entry)
      → end_index g ≤ start
      → members (take start entries ++ rest) g ≡ members (take start entries) g
  members_front g rest h =
      ap (take g.entry_count)
        (drop_left g.start_index (take start entries) rest (omega (arith, length-before)))
      ∙ take_left g.entry_count (drop g.start_index (take start entries)) rest
          (omega (arith, length-before, length-drop {0} g.start_index (take start entries)))

  members-before : (g : Group) → end_index g ≤ start → members sorted g ≡ members entries g
  unfolding sort_range
  members-before g h =
      members_front g _ h
      ∙ sym (members_front g (drop start entries) h)
      ∙ ap (λ l. members l g) (take-append-drop start entries)

  pub view-before :
      (gs : List Group) → All (λ g. end_index g ≤ start) gs → view sorted gs ≡ view entries gs
  view-before [] h = refl
  view-before (g ∷ gs) h =
      ap₂ ◌∷◌ (ap (λ l. (g.file_size, l)) (members-before g h.0)) (view-before gs h.1)

  pub view-behind :
      (gs : List Group) (from to : ℕ)
      → start + count ≤ from
      → IsLaidOut from to gs
      → view sorted gs ≡ view entries gs
  view-behind [] from to h k = refl
  view-behind (g ∷ gs) from to h k =
      ap₂ ◌∷◌ (ap (λ l. (g.file_size, l)) (members-behind g (omega arith)))
        (view-behind gs (end_index g) to (omega arith) k.1)
