-- ===== src/Grouping/Runs/Layout.antt =====
-- The groups of a scan stand one behind the other inside the scanned range.
use bc_duplicate.Prelude.{
  ℕ, zero, suc, ◌+◌, ◌≤◌, ◌≡◌, refl, Bool, List, [], ◌∷◌, ◌++◌, arith, length, drop, ltb,
  Bool-cases, inl, inr, length-drop, All,
}
use bc_duplicate.Types.{Entry, Group}
use bc_duplicate.Outcome.{Outcome, ◌>>=◌, Returns, Returns->>=}
use bc_duplicate.Grouping.Buffer.{GroupBuffer, append_group, append_group_lem, IsRoomy, IsAppended}
use bc_duplicate.Grouping.Runs.{same_length, scan_runs}
use bc_duplicate.Grouping.Runs.View.{same_length-le-length}

abbrev pub end_index : Group → ℕ
end_index g = g.start_index + g.entry_count

-- The groups fill ranges of [from, to) that do not overlap, in order.
abbrev pub IsLaidOut : (from to : ℕ) → List Group → Type 0
IsLaidOut from to [] = from ≤ to
IsLaidOut from to (g ∷ gs) = (from ≤ g.start_index) × IsLaidOut (end_index g) to gs

pub IsLaidOut-append :
    (from mid to : ℕ) (xs ys : List Group)
    → IsLaidOut from mid xs
    → IsLaidOut mid to ys
    → IsLaidOut from to (xs ++ ys)
IsLaidOut-append from mid to [] [] h k = omega arith
IsLaidOut-append from mid to [] (y ∷ ys) h k = (omega arith, k.1)
IsLaidOut-append from mid to (x ∷ xs) ys h k =
    (h.0, IsLaidOut-append (end_index x) mid to xs ys h.1 k)

pub IsLaidOut-wider :
    (from to to' : ℕ) (xs : List Group) → to ≤ to' → IsLaidOut from to xs → IsLaidOut from to' xs
IsLaidOut-wider from to to' [] h k = omega arith
IsLaidOut-wider from to to' (x ∷ xs) h k = (k.0, IsLaidOut-wider (end_index x) to to' xs h k.1)

-- A range ends before another begins.
pub IsLaidOut-le : (from to : ℕ) (xs : List Group) → IsLaidOut from to xs → from ≤ to
IsLaidOut-le from to [] h = h
IsLaidOut-le from to (x ∷ xs) h = omega (arith, IsLaidOut-le (end_index x) to xs h.1)

pub IsLaidOut-ends :
    (from to : ℕ) (xs : List Group) → IsLaidOut from to xs → All (λ g. end_index g ≤ to) xs
IsLaidOut-ends from to [] h = tt
IsLaidOut-ends from to (x ∷ xs) h =
    (IsLaidOut-le (end_index x) to xs h.1, IsLaidOut-ends (end_index x) to xs h.1)

module _ (grant : ℕ → Bool) (same : Entry → Entry → Bool) (tag : Entry → ℕ) (base from : ℕ) where
  -- The groups stand in the range, and the array of groups has room for them.
  abbrev pub IsStoredBelow : ℕ → GroupBuffer → Type 0
  IsStoredBelow to b = IsLaidOut from to b.groups × IsRoomy grant b

  stored_round :
      (cursor more to : ℕ) (g : Group) (b : GroupBuffer) (later : GroupBuffer → Outcome GroupBuffer)
      → g.start_index ≡ base + cursor
      → g.entry_count ≡ suc more
      → IsStoredBelow (base + cursor) b
      → ((b' : GroupBuffer)
          → IsStoredBelow (base + (cursor + suc more)) b'
          → Returns grant (later b') (IsStoredBelow to))
      → Returns grant (append_group grant g b >>= later) (IsStoredBelow to)
  stored_round cursor more to g b later at count h k =
      Returns->>= grant (append_group grant g b) later (IsAppended grant g b) (IsStoredBelow to)
        (append_group_lem grant g b h.1)
        λ b' s. k b' (
          rw s.0 (
              IsLaidOut-append from (base + cursor) (base + (cursor + suc more)) b.groups (g ∷ [])
                h.0 (omega arith, omega arith)),
          s.2,
        )

  pub scan_runs-IsLaidOut :
      (fuel cursor : ℕ) (rest : List Entry) (b : GroupBuffer)
      → IsStoredBelow (base + cursor) b
      → Returns grant
          (scan_runs grant same tag base fuel cursor rest b)
          (IsStoredBelow (base + (cursor + length rest)))
  unfolding scan_runs
  scan_runs-IsLaidOut zero cursor rest b h =
      (IsLaidOut-wider from _ _ b.groups (omega arith) h.0, h.1)
  scan_runs-IsLaidOut (suc fuel) cursor [] b h =
      (IsLaidOut-wider from _ _ b.groups (omega arith) h.0, h.1)
  scan_runs-IsLaidOut (suc fuel) cursor (x ∷ xs) b h =
      let more = same_length (same x) xs in
      let to = base + (cursor + length (x ∷ xs)) in
      let same_end : base + (cursor + suc more + length (drop more xs)) ≡ to =
        omega (arith, length-drop {0} more xs, same_length-le-length {0} (same x) xs) in
      let go = λ (b' : GroupBuffer) (k : IsStoredBelow (base + (cursor + suc more)) b').
        rw same_end at (scan_runs-IsLaidOut fuel (cursor + suc more) (drop more xs) b' k) in
      elim (Bool-cases (ltb (suc more) 2)) [
        | inl short ↦ rw short (go b (IsLaidOut-wider from _ _ b.groups (omega arith) h.0, h.1))
        | inr long ↦ rw long (stored_round cursor more to _ b _ refl refl h go)
      ]
