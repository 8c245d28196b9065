-- ===== src/Grouping/Size/Compact.antt =====
-- The compaction of by_size computes `distinct`, and never leaves the array.
use bc_duplicate.Prelude.{
  ℕ, zero, suc, ◌+◌, ◌-◌, ◌≤◌, ◌≡◌, ◌⊎◌, refl, sym, ap, ◌∙◌, true, false, List, [], ◌∷◌, ◌++◌,
  arith, length, take, drop, ltb, leb, ◌==◌, if◌then◌else◌, Bool-cases, inl, inr, drop-add,
  length-take, length-drop, length-append, take-append-drop, take-append, drop-append,
}
use bc_duplicate.Arrays.{read_at-drop, drop-cons-lt, drop-suc}
use mathlib.Core.List.{append_assoc, append-nil}
use bc_duplicate.Types.{Entry}
use bc_duplicate.Outcome.{done}
use bc_duplicate.Core.{CoreLibrary, MovesOverlaps, copy_down}
use bc_duplicate.Grouping.Runs.{same_length}
use bc_duplicate.Grouping.Runs.View.{same_length-le-length}
use bc_duplicate.Grouping.Size.{
  Compacted, same_size, collapse_loop, collapse_hardlinks_in_run, compact_runs, compact,
}
use bc_duplicate.Grouping.Size.Order.{same_link}
use bc_duplicate.Grouping.Size.Links.{
  collapse_after, distinct_after, distinct, distinct_after-append,
}
use bc_duplicate.Grouping.Size.Collapse.{IsCollapsed, collapse_loop-IsCollapsed}

-- A run is not moved, or as far as it is long or farther: its old range and its new one do not overlap.
abbrev pub IsApart : (gap run_length : ℕ) → Type 0
IsApart gap run_length = (gap ≡ 0) ⊎ (run_length ≤ gap)

-- No run overlaps the range that it is moved to. `gap` is how many links were collapsed in front.
abbrev pub AreApart : (fuel : ℕ) → List Entry → (gap : ℕ) → Type 0
AreApart zero unread gap = Unit
AreApart (suc fuel) [] gap = Unit
AreApart (suc fuel) (x ∷ xs) gap =
    IsApart gap (suc (same_length (same_size x) xs))
    × AreApart fuel (drop (same_length (same_size x) xs) xs) (
        gap
        + (same_length (same_size x) xs
            - length (collapse_after x (take (same_length (same_size x) xs) xs))))

-- `bc_core_copy` is called for ranges that do not overlap, or moves overlapping ones as `memmove` does.
abbrev pub AreSafeCopies : CoreLibrary → List Entry → Type 0
AreSafeCopies core sorted = MovesOverlaps core Entry ⊎ AreApart (length sorted) sorted 0

apart_run :
    (core : CoreLibrary) (k start write : ℕ)
    → MovesOverlaps core Entry ⊎ IsApart (start - write) (suc k)
    → write ≤ start
    → (write == start) ≡ false
    → MovesOverlaps core Entry ⊎ (write + suc k ≤ start)
apart_run core k start write (inl overlaps) below gap = inl overlaps
apart_run core k start write (inr (inl none_moved)) below gap =
    absurd (ground (arith, gap, none_moved, below))
apart_run core k start write (inr (inr far)) below gap = inr (omega (arith, far, below))

-- The run from `start` on, moved down to `write`.
module _ (core : CoreLibrary) (k start write : ℕ)
    (safe : MovesOverlaps core Entry ⊎ IsApart (start - write) (suc k))
    (entries kept xs : List Entry) (x : Entry) (at_kept : write ≡ length kept)
    (below : write ≤ start) (fits : k ≤ length xs) (front : take write entries ≡ kept)
    (behind : drop start entries ≡ x ∷ xs) where
  abbrev moved : List Entry
  moved = if write == start then entries else core.copy Entry entries write start (suc k)

  abbrev after : List Entry
  after = drop (write + suc k) entries

  drop-start : drop (start + suc k) entries ≡ drop k xs
  drop-start = drop-add start (suc k) entries ∙ ap (drop (suc k)) behind

  moved_lem : moved ≡ kept ++ ((x ∷ take k xs) ++ after)
  moved_lem = elim (Bool-cases (write == start)) [
    | inl here ↦
        let e : start ≡ write = ground arith in
        let unmoved : after ≡ drop k xs = rw (← e) drop-start in
        rw here (
          sym (take-append-drop write entries)
          ∙ rw (front, unmoved)
              (ap (λ l. kept ++ l)
                (ap (λ n. drop n entries) (sym e)
                  ∙ behind
                  ∙ ap (◌∷◌ x) (sym (take-append-drop k xs)))))
    | inr gap ↦ rw gap (
        copy_down core Entry entries write start (suc k)
          (apart_run core k start write safe below gap) below
          (omega (arith, ap length behind, length-drop start entries))
        ∙ rw (front, behind))
  ]

  length-moved : length moved ≡ length entries
  length-moved =
      ap length moved_lem
      ∙ omega (
        arith,
        length-append {0} kept ((x ∷ take k xs) ++ after),
        length-append {0} (take k xs) after,
        length-take {0} k xs,
        length-drop {0} (write + suc k) entries,
        length-drop {0} start entries,
        ap length behind,
      )

  split : moved ≡ (kept ++ x ∷ []) ++ (take k xs ++ after)
  split = moved_lem ∙ sym (append_assoc kept (x ∷ []) (take k xs ++ after))

  seam : suc write ≡ length (kept ++ x ∷ [])
  seam = omega (arith, length-append {0} kept (x ∷ []))

  take-moved : take (suc write) moved ≡ kept ++ x ∷ []
  take-moved = rw (split, seam) (take-append (kept ++ x ∷ []) (take k xs ++ after))

  drop-kept : drop (suc write) moved ≡ take k xs ++ after
  drop-kept = rw (split, seam) (drop-append (kept ++ x ∷ []) (take k xs ++ after))

  -- The collapse of the moved run, also where it is short and the code returns at once.
  in_run-IsCollapsed :
      (r : List Entry × ℕ) × (collapse_hardlinks_in_run moved write (suc k) ≡ done r)
      × IsCollapsed kept x (take k xs) after moved (suc write) (suc write) 0 r
  unfolding collapse_hardlinks_in_run
  in_run-IsCollapsed =
      let (r, e, c) =
        collapse_loop-IsCollapsed (take k xs) kept after moved x (suc write) (suc write) 0
          (omega arith) (omega arith) take-moved drop-kept in
      let rounds : length (take k xs) ≡ k = omega (arith, length-take {0} k xs) in
      let loop = λ (n : ℕ). collapse_loop n moved (suc write) (suc write) 0 in
      elim (Bool-cases (leb (suc k) 1)) [
        | inl short ↦
            let none_left : 0 ≡ length (take k xs) = ground (arith, rounds) in
            rw short (r, ap loop none_left ∙ e, c)
        | inr long ↦
            let all : suc k - 1 ≡ length (take k xs) = omega arith in
            rw long (r, ap loop all ∙ e, c)
      ]

  drop-moved :
      (l : List Entry) → drop (write + suc k) l ≡ after → drop (start + suc k) l ≡ drop k xs
  drop-moved l e =
      let sum : start + suc k ≡ write + suc k + (start - write) = omega arith in
      rw
        (
          sum,
          drop-add (write + suc k) (start - write) l,
          e,
          ← drop-add (write + suc k) (start - write) entries,
          ← sum,
        )
        drop-start

-- What the compaction has done when it ends: `kept` is followed by the first link to each file of
-- `unread`, and every other link is counted.
pub record IsCompacted (kept unread entries : List Entry) (collapsed : ℕ) (c : Compacted)
    : Type 0 where
  pub live : take c.entry_count c.entries ≡ kept ++ distinct same_link unread
  pub live_count : c.entry_count ≡ length kept + length (distinct same_link unread)
  pub counted :
      c.hardlinks_collapsed + length (distinct same_link unread) ≡ collapsed + length unread
  pub same_length_array : length c.entries ≡ length entries

nothing_left :
    (entries kept : List Entry) (write collapsed : ℕ)
    → write ≡ length kept
    → take write entries ≡ kept
    → IsCompacted kept [] entries collapsed
        (record { entries = entries; entry_count = write; hardlinks_collapsed = collapsed })
nothing_left entries kept write collapsed w front = record {
  live = front ∙ sym (append-nil kept);
  live_count = omega arith;
  counted = refl;
  same_length_array = refl;
}

-- The state after a round, and what the rest of the loop makes of it.
module _ (core : CoreLibrary) (entries kept xs : List Entry) (x : Entry) (start write collapsed : ℕ)
    (r : List Entry × ℕ) where
  abbrev run : List Entry
  run = take (same_length (same_size x) xs) xs

  abbrev rest : List Entry
  rest = drop (same_length (same_size x) xs) xs

  abbrev kept_now : List Entry
  kept_now = kept ++ x ∷ collapse_after x run

  length-run : length run ≡ same_length (same_size x) xs
  length-run = omega (
    arith,
    length-take {0} (same_length (same_size x) xs) xs,
    same_length-le-length {0} (same_size x) xs,
  )

  IsCompacted-round :
      (c : Compacted)
      → r.1 + length (collapse_after x run) ≡ length run
      → length r.0 ≡ length entries
      → IsCompacted kept_now rest r.0 (collapsed + r.1) c
      → IsCompacted kept (x ∷ xs) entries collapsed c
  IsCompacted-round c links same d =
      let whole : distinct_after same_link x xs ≡ collapse_after x run ++ distinct same_link rest =
        distinct_after-append x x xs refl in
      let sizes : length (distinct_after same_link x xs)
          ≡ length (collapse_after x run) + length (distinct same_link rest) =
        ap length whole ∙ length-append (collapse_after x run) (distinct same_link rest) in
      let cut = length-append {0} kept (x ∷ collapse_after x run) in
      record {
        live =
            d.live
            ∙ append_assoc kept (x ∷ collapse_after x run) (distinct same_link rest)
            ∙ ap (λ l. kept ++ x ∷ l) (sym whole);
        live_count = omega (arith, d.live_count);
        counted = omega (
          arith,
          d.counted,
          length-run,
          length-drop {0} (same_length (same_size x) xs) xs,
          same_length-le-length {0} (same_size x) xs,
        );
        same_length_array = d.same_length_array ∙ same;
      }

-- What is safe for all runs is so for the first and for the others.
first_safe :
    (core : CoreLibrary) (fuel : ℕ) (x : Entry) (xs : List Entry) (gap : ℕ)
    → MovesOverlaps core Entry ⊎ AreApart (suc fuel) (x ∷ xs) gap
    → MovesOverlaps core Entry ⊎ IsApart gap (suc (same_length (same_size x) xs))
first_safe core fuel x xs gap (inl overlaps) = inl overlaps
first_safe core fuel x xs gap (inr apart) = inr apart.0

others_safe :
    (core : CoreLibrary) (fuel : ℕ) (x : Entry) (xs : List Entry) (gap gap' : ℕ)
    → (gap'
        ≡ gap
          + (same_length (same_size x) xs
              - length (collapse_after x (take (same_length (same_size x) xs) xs))))
    → MovesOverlaps core Entry ⊎ AreApart (suc fuel) (x ∷ xs) gap
    → MovesOverlaps core Entry ⊎ AreApart fuel (drop (same_length (same_size x) xs) xs) gap'
others_safe core fuel x xs gap gap' e (inl overlaps) = inl overlaps
others_safe core fuel x xs gap gap' e (inr apart) = inr (rw e apart.1)

module _ (core : CoreLibrary) where
  compact_runs-IsCompacted :
      (fuel : ℕ) (unread entries kept : List Entry) (start write collapsed : ℕ)
      → length unread ≤ fuel
      → write ≡ length kept
      → write ≤ start
      → take write entries ≡ kept
      → drop start entries ≡ unread
      → MovesOverlaps core Entry ⊎ AreApart fuel unread (start - write)
      → (c : Compacted) × (compact_runs core fuel entries start write collapsed ≡ done c)
        × IsCompacted kept unread entries collapsed c
  unfolding compact_runs
  compact_runs-IsCompacted zero [] entries kept start write collapsed h w below front behind safe =
      (_, refl, nothing_left entries kept write collapsed w front)
  compact_runs-IsCompacted zero (x ∷ xs) entries kept start write collapsed h w below front behind
        safe =
      absurd (omega arith)
  compact_runs-IsCompacted (suc fuel) [] entries kept start write collapsed h w below front behind
        safe =
      let outside : ltb start (length entries) ≡ false =
        ground (arith, ap length behind, length-drop start entries) in
      rw outside (_, refl, nothing_left entries kept write collapsed w front)
  compact_runs-IsCompacted (suc fuel) (x ∷ xs) entries kept start write collapsed h w below front
        behind safe =
      let k = same_length (same_size x) xs in
      let now = first_safe core fuel x xs (start - write) safe in
      let fits = same_length-le-length (same_size x) xs in
      let inside : ltb start (length entries) ≡ true =
        ground (arith, drop-cons-lt start entries xs x behind) in
      let (r, e, i) =
        in_run-IsCollapsed core k start write now entries kept xs x w below fits front behind in
      let counted : length (take k xs) ≡ k =
        length-run core entries kept xs x start write collapsed r in
      let write' = write + (suc k - r.1) in
      let at_front : write' ≡ suc write + length (collapse_after x (take k xs)) =
        omega (arith, i.counted) in
      let at_back : suc write + length (take k xs) ≡ write + suc k = omega arith in
      let (c, ends, d) =
        compact_runs-IsCompacted fuel (drop k xs) r.0 (kept ++ x ∷ collapse_after x (take k xs))
          (start + suc k) write' (collapsed + r.1) (omega (arith, length-drop k xs))
          (omega (arith, length-append kept (x ∷ collapse_after x (take k xs)))) (omega arith)
          (ap (λ n. take n r.0) at_front ∙ i.front)
          (drop-moved core k start write now entries kept xs x w below fits front behind r.0
            (ap (λ n. drop n r.0) (sym at_back) ∙ i.behind))
          (others_safe core fuel x xs (start - write) (start + suc k - write')
            (omega (arith, i.counted, counted, below)) safe) in
      rw (inside, read_at-drop start entries xs x behind, drop-suc start entries xs x behind, e)
        (
          c,
          ends,
          IsCompacted-round core entries kept xs x start write collapsed r c
              (i.counted ∙ omega arith)
              (i.same_length_array
                ∙ length-moved core k start write now entries kept xs x w below fits front behind)
              d,
        )

  pub compact-IsCompacted :
      (sorted : List Entry)
      → AreSafeCopies core sorted
      → (c : Compacted) × (compact core false sorted ≡ done c) × IsCompacted [] sorted sorted 0 c
  unfolding compact
  compact-IsCompacted sorted safe =
      compact_runs-IsCompacted (length sorted) sorted sorted [] 0 0 0 (omega arith) refl
        (omega arith) refl refl safe
