-- ===== src/Worker/Kept.antt =====
-- What the two hash passes leave alone: an entry changes in its hash and its errors only.
use bc_duplicate.Prelude.{
  ℕ, zero, suc, ◌+◌, ◌≤◌, ◌<◌, ◌≡◌, refl, ap, ap₂, ◌∙◌, false, true, List, [], ◌∷◌, arith, map,
  length, set, take, drop, All, All-append, All-map, ltb, ltb→lt, lt→ltb, length-append,
}
use bc_duplicate.Types.{Entry, Group}
use bc_duplicate.Outcome.{read_at, Meets, Meets-imp}
use bc_duplicate.Permutation.{length-perm, All-perm}
use mathlib.Core.List.Perm
use bc_duplicate.Core.{CoreLibrary}
use bc_duplicate.Grouping.Runs.Layout.{IsLaidOut, IsLaidOut-ends, end_index}
use bc_duplicate.Worker.Fast.{
  candidate_indices, indices_of, sort_indices_by_size_desc, sort_indices_less_than, total_entries,
}

-- The entry without what the full pass writes, and without what either pass writes.
abbrev pub without_digest : Entry → Entry
without_digest e = record e { full_hash = []; full_hash_computed = false; full_hash_errno = 0 }

abbrev pub without_hashes : Entry → Entry
without_hashes e = record (without_digest e) {
  fast_hash = 0;
  fast_hash_computed = false;
  fast_hash_errno = 0;
}

-- A write that keeps the value of `f` keeps the list of these values.
pub map-set :
    {A B : Type 0} (f : A → B) (g : A → A) (l : List A) (i : ℕ)
    → i < length l
    → ((x : A) → f (g x) ≡ f x)
    → Meets (read_at l i) (λ x. map f (set l i (g x)) ≡ map f l)
map-set f g [] i h k = absurd (omega (arith, h))
map-set f g (x ∷ l) zero h k = ap (λ y. y ∷ map f l) (k x)
map-set f g (x ∷ l) (suc i) h k =
    Meets-imp (read_at l i) _ _ (λ y e. ap (λ m. f x ∷ m) e) (map-set f g l i (omega (arith, h)) k)

pub All-take : {A : Type 0} (P : A → Type 0) (n : ℕ) (l : List A) → All P l → All P (take n l)
All-take P zero l h = tt
All-take P (suc n) [] h = tt
All-take P (suc n) (x ∷ l) h = (h.0, All-take P n l h.1)

pub All-drop : {A : Type 0} (P : A → Type 0) (n : ℕ) (l : List A) → All P l → All P (drop n l)
All-drop P zero l h = h
All-drop P (suc n) [] h = tt
All-drop P (suc n) (x ∷ l) h = All-drop P n l h.1

pub indices_of-below :
    (count start len : ℕ) → start + count ≤ len → All (λ i. i < len) (indices_of count start)
indices_of-below zero start len h = tt
indices_of-below (suc count) start len h =
    (omega (arith, h), indices_of-below count (start + 1) len (omega (arith, h)))

candidates_below :
    (len : ℕ) (groups : List Group)
    → All (λ g. end_index g ≤ len) groups
    → All (λ i. i < len) (candidate_indices groups)
unfolding candidate_indices
candidates_below len [] h = tt
candidates_below len (g ∷ groups) h =
    All-append (λ i. i < len) (indices_of g.entry_count g.start_index) (candidate_indices groups)
      (indices_of-below g.entry_count g.start_index len h.0) (candidates_below len groups h.1)

-- The candidates of groups that are laid out in an array stand in it, in whatever order.
pub sorted_candidates_below :
    (core : CoreLibrary) (entries : List Entry) (groups : List Group)
    → IsLaidOut 0 (length entries) groups
    → All
        (λ i. i < length entries)
        (sort_indices_by_size_desc core entries (candidate_indices groups))
unfolding sort_indices_by_size_desc
sorted_candidates_below core entries groups h =
    let len = length entries in
    let less = sort_indices_less_than entries in
    let below = candidates_below len groups (IsLaidOut-ends 0 len groups h) in
    All-map (λ i. ltb i len ≡ true) (λ i. i < len) (λ i. ltb→lt i len) _
      (All-perm (λ i. ltb i len) (Perm.symm (core.sort_perm ℕ less (candidate_indices groups)))
        (All-map (λ i. i < len) (λ i. ltb i len ≡ true) (λ i. lt→ltb i len) _ below))

length-indices_of : (count start : ℕ) → length (indices_of count start) ≡ count
length-indices_of zero start = refl
length-indices_of (suc count) start = ap suc (length-indices_of count (start + 1))

length-candidate_indices :
    (groups : List Group) → length (candidate_indices groups) ≡ total_entries groups
unfolding candidate_indices
length-candidate_indices [] = refl
length-candidate_indices (g ∷ groups) =
    length-append (indices_of g.entry_count g.start_index) (candidate_indices groups)
    ∙ ap₂ ◌+◌ (length-indices_of g.entry_count g.start_index) (length-candidate_indices groups)

pub length-sorted_candidates :
    (core : CoreLibrary) (entries : List Entry) (groups : List Group)
    → length (sort_indices_by_size_desc core entries (candidate_indices groups))
      ≡ total_entries groups
unfolding sort_indices_by_size_desc
length-sorted_candidates core entries groups =
    length-perm (core.sort_perm ℕ (sort_indices_less_than entries) (candidate_indices groups))
    ∙ length-candidate_indices groups
