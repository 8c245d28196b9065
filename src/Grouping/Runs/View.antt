-- ===== src/Grouping/Runs/View.antt =====
-- The groups that `scan_runs` stores stand for the runs that `duplicate_runs` lists.
use bc_duplicate.Prelude.{
  ℕ, zero, suc, ◌+◌, ◌≡◌, sym, ap, ◌∙◌, Bool, List, [], ◌∷◌, ◌++◌, map, arith, length, take, drop,
  ltb, ◌≤◌, Bool-cases, inl, inr, drop-add, take_left, drop_left, length-take,
}
use mathlib.Core.List.{map-append, append_assoc, append-nil}
use bc_duplicate.Types.{Entry, Group}
use bc_duplicate.Outcome.{Outcome, ◌>>=◌, Returns, Returns->>=, Returns-imp}
use bc_duplicate.Grouping.Buffer.{GroupBuffer, append_group, append_group_lem, IsRoomy, IsAppended}
use bc_duplicate.Grouping.Runs.{same_length, scan_runs, duplicate_runs}

-- The entries of a group, and what a list of groups stands for in an array of entries.
abbrev pub members : List Entry → Group → List Entry
members entries g = take g.entry_count (drop g.start_index entries)

abbrev pub view_group : List Entry → Group → ℕ × List Entry
view_group entries g = (g.file_size, members entries g)

abbrev pub view : List Entry → List Group → List (ℕ × List Entry)
view entries gs = map (view_group entries) gs

-- How many entries the runs hold.
abbrev pub total {ℓ} : {A : Type ℓ} → List (ℕ × List A) → ℕ
total [] = 0
total (r ∷ rs) = length r.1 + total rs

pub same_length-le-length {ℓ} :
    {A : Type ℓ} (p : A → Bool) (xs : List A) → same_length p xs ≤ length xs
same_length-le-length p [] = omega arith
same_length-le-length p (x ∷ xs) = ground (arith, same_length-le-length p xs)

module _ (grant : ℕ → Bool) (same : Entry → Entry → Bool) (tag : Entry → ℕ) (base : ℕ)
    (entries tail : List Entry) where
  -- What the scan has done when it ends: the new groups stand for the runs, and their entries are
  -- counted.
  abbrev Extends : GroupBuffer → List (ℕ × List Entry) → GroupBuffer → Type 0
  Extends b runs b' =
      (view entries b'.groups ≡ view entries b.groups ++ runs)
      × (b'.candidate_count ≡ b.candidate_count + total runs)

  advance :
      (cursor more : ℕ) (x : Entry) (xs : List Entry)
      → more ≤ length xs
      → drop (base + cursor) entries ≡ (x ∷ xs) ++ tail
      → drop (base + (cursor + suc more)) entries ≡ drop more xs ++ tail
  advance cursor more x xs h e =
      let sum : base + (cursor + suc more) ≡ base + cursor + suc more = omega arith in
      rw (sum, drop-add (base + cursor) (suc more) entries, e) (drop_left more xs tail h)

  stored_run :
      (cursor more : ℕ) (x : Entry) (xs : List Entry)
      → more ≤ length xs
      → drop (base + cursor) entries ≡ (x ∷ xs) ++ tail
      → take (suc more) (drop (base + cursor) entries) ≡ x ∷ take more xs
  stored_run cursor more x xs h e = rw e (ap (◌∷◌ x) (take_left more xs tail h))

  Extends-start :
      (cursor more : ℕ) (x : Entry) (xs : List Entry) (b b' : GroupBuffer)
      → more ≤ length xs
      → drop (base + cursor) entries ≡ (x ∷ xs) ++ tail
      → (b'.groups
          ≡ b.groups
            ++ record { start_index = base + cursor; entry_count = suc more; file_size = tag x }
              ∷ [])
      → b'.candidate_count ≡ b.candidate_count + suc more
      → Extends b ((tag x, x ∷ take more xs) ∷ []) b'
  Extends-start cursor more x xs b b' h e stored counted = (
    rw (stored, map-append)
        (ap (λ r. view entries b.groups ++ (tag x, r) ∷ []) (stored_run cursor more x xs h e)),
    omega (arith, length-take more xs),
  )

  Extends-trans :
      (b b' b'' : GroupBuffer) (r : ℕ × List Entry) (rs : List (ℕ × List Entry))
      → Extends b (r ∷ []) b'
      → Extends b' rs b''
      → Extends b (r ∷ rs) b''
  Extends-trans b b' b'' r rs h k =
      (k.0 ∙ rw h.0 (append_assoc (view entries b.groups) (r ∷ []) rs), omega arith)

  -- A round that stores a group, and whatever goes on from there.
  stored_round :
      (cursor more : ℕ) (x : Entry) (xs : List Entry) (b : GroupBuffer)
      (later : GroupBuffer → Outcome GroupBuffer) (rs : List (ℕ × List Entry))
      → more ≤ length xs
      → drop (base + cursor) entries ≡ (x ∷ xs) ++ tail
      → IsRoomy grant b
      → ((b' : GroupBuffer) → IsRoomy grant b' → Returns grant (later b') (Extends b' rs))
      → Returns grant
          (append_group grant
              (record { start_index = base + cursor; entry_count = suc more; file_size = tag x })
              b
            >>= later)
          (Extends b ((tag x, x ∷ take more xs) ∷ rs))
  stored_round cursor more x xs b later rs h e roomy k =
      let g : Group = record {
        start_index = base + cursor;
        entry_count = suc more;
        file_size = tag x;
      } in
      Returns->>= grant (append_group grant g b) later (IsAppended grant g b)
        (Extends b ((tag x, x ∷ take more xs) ∷ rs)) (append_group_lem grant g b roomy)
        λ b' s.
          Returns-imp grant (later b') (Extends b' rs) (Extends b ((tag x, x ∷ take more xs) ∷ rs))
            (λ b'' d.
              Extends-trans b b' b'' _ rs (Extends-start cursor more x xs b b' h e s.0 s.1) d)
            (k b' s.2)

  -- With the range from `cursor` on equal to `rest`, the scan ends, and the groups that it adds
  -- stand for the runs of `rest`.
  pub scan_runs-view :
      (fuel cursor : ℕ) (rest : List Entry) (b : GroupBuffer)
      → drop (base + cursor) entries ≡ rest ++ tail
      → IsRoomy grant b
      → Returns grant
          (scan_runs grant same tag base fuel cursor rest b)
          (Extends b (duplicate_runs same tag fuel rest))
  unfolding scan_runs duplicate_runs
  scan_runs-view zero cursor rest b e roomy = (sym (append-nil _), omega arith)
  scan_runs-view (suc fuel) cursor [] b e roomy = (sym (append-nil _), omega arith)
  scan_runs-view (suc fuel) cursor (x ∷ xs) b e roomy =
      let more = same_length (same x) xs in
      let h = same_length-le-length (same x) xs in
      let next = advance cursor more x xs h e in
      elim (Bool-cases (ltb (suc more) 2)) [
        | inl short ↦ rw short (scan_runs-view fuel (cursor + suc more) (drop more xs) b next roomy)
        | inr long ↦ rw long (
            stored_round cursor more x xs b
              (scan_runs grant same tag base fuel (cursor + suc more) (drop more xs))
              (duplicate_runs same tag fuel (drop more xs)) h e roomy
              (λ b' r. scan_runs-view fuel (cursor + suc more) (drop more xs) b' next r))
      ]
