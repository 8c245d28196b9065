-- ===== src/Grouping/Regroup/Classes.antt =====
-- What `regrouped` lists: of every list the classes of the hash with two or more members.
use bc_duplicate.Prelude.{
  ℕ, ◌≤◌, ◌≡◌, refl, Bool, false, List, [], ◌∷◌, ◌++◌, arith, length, All, All-append, All-map,
  All-Unit, Some, select, inl, inr,
}
use mathlib.Core.List.{Perm}
use bc_duplicate.Types.{Entry}
use bc_duplicate.Permutation.{length-perm, select-perm}
use bc_duplicate.Core.{CoreLibrary, IsStrictOrder}
use bc_duplicate.Grouping.Runs.{duplicate_runs}
use bc_duplicate.Grouping.Runs.Classes.{
  IsSameness, IsClustered, IsClassRun, duplicate_runs-IsClassRun, duplicate_runs-Some,
}
use bc_duplicate.Grouping.Runs.Clustered.{IsOrdered-IsClustered}
use bc_duplicate.Grouping.Regroup.{regrouped}

abbrev pub Views : Type 0
Views = List (ℕ × List Entry)

-- `v` is a part of one list of `vs`: all its entries that agree with one of them, two at least,
-- under the same size.
abbrev pub IsPartOf : (Entry → Entry → Bool) → Views → ℕ × List Entry → Type 0
IsPartOf same vs v =
    Some (λ u. (v.0 ≡ u.0) × (2 ≤ length v.1) × ((x : Entry) × Perm v.1 (select (same x) u.1))) vs

-- Two entries of one list that agree are listed together, with all others that agree with them.
abbrev pub IsKeptTogether : (Entry → Entry → Bool) → Views → ℕ × List Entry → Type 0
IsKeptTogether same vs u =
    (a : Entry)
    → 2 ≤ length (select (same a) u.1)
    → Some (λ v. (v.0 ≡ u.0) × Perm v.1 (select (same a) u.1)) vs

module _ {A : Type 0} (P : A → Type 0) where
  pub Some-left : (xs ys : List A) → Some P xs → Some P (xs ++ ys)
  Some-left [] ys h = absurd h
  Some-left (x ∷ xs) ys (inl h) = inl h
  Some-left (x ∷ xs) ys (inr h) = inr (Some-left xs ys h)

  pub Some-right : (xs ys : List A) → Some P ys → Some P (xs ++ ys)
  Some-right [] ys h = h
  Some-right (x ∷ xs) ys h = inr (Some-right xs ys h)

module _ {A : Type 0} (P Q : A → Type 0) where
  pub Some-map : ((a : A) → P a → Q a) → (xs : List A) → Some P xs → Some Q xs
  Some-map k [] h = absurd h
  Some-map k (x ∷ xs) (inl h) = inl (k x h)
  Some-map k (x ∷ xs) (inr h) = inr (Some-map k xs h)

module _ (core : CoreLibrary) (less same : Entry → Entry → Bool) (order : IsStrictOrder less)
    (s : IsSameness same)
    (between : (x y z : Entry)
      → less y x ≡ false
      → less z y ≡ false
      → same x y ≡ false
      → same x z ≡ false) where
  abbrev sort : List Entry → List Entry
  sort l = core.sort Entry less l

  sort-IsClustered : (l : List Entry) → IsClustered same (sort l)
  sort-IsClustered l =
      IsOrdered-IsClustered _ same between (sort l) (core.sort_ordered Entry less l order)

  class-perm : (l : List Entry) (a : Entry) → Perm (select (same a) (sort l)) (select (same a) l)
  class-perm l a = select-perm (same a) (core.sort_perm Entry less l)

  length-sort : (l : List Entry) → length (sort l) ≡ length l
  length-sort l = length-perm (core.sort_perm Entry less l)

  pub regrouped-IsPartOf : (vs : Views) → All (IsPartOf same vs) (regrouped core less same vs)
  unfolding regrouped
  regrouped-IsPartOf [] = tt
  regrouped-IsPartOf ((size, l) ∷ vs) =
      All-append (IsPartOf same ((size, l) ∷ vs))
        (duplicate_runs same (λ _. size) (length l) (sort l)) (regrouped core less same vs)
        (All-map (IsClassRun same (λ _. size) (λ _. Unit {0}) (sort l))
          (IsPartOf same ((size, l) ∷ vs)) (λ v c. inl (c.2, c.3, (c.0, rw c.4 (class-perm l c.0))))
          (duplicate_runs same (λ _. size) (length l) (sort l))
          (duplicate_runs-IsClassRun same s (λ _. size) (length l) (sort l) (λ _. Unit {0})
            (omega (arith, length-sort l)) (sort-IsClustered l) (All-Unit (sort l))))
        (All-map (IsPartOf same vs) (IsPartOf same ((size, l) ∷ vs)) (λ v h. inr h)
          (regrouped core less same vs) (regrouped-IsPartOf vs))

  together-weaken :
      (xs ys us : Views) → All (IsKeptTogether same ys) us → All (IsKeptTogether same (xs ++ ys)) us
  together-weaken xs ys us =
      All-map (IsKeptTogether same ys) (IsKeptTogether same (xs ++ ys))
        (λ u h a two. Some-right _ xs ys (h a two)) us

  pub regrouped-IsKeptTogether :
      (vs : Views) → All (IsKeptTogether same (regrouped core less same vs)) vs
  unfolding regrouped
  regrouped-IsKeptTogether [] = tt
  regrouped-IsKeptTogether ((size, l) ∷ vs) =
      let runs = duplicate_runs same (λ _. size) (length l) (sort l) in
      (
        λ a two. Some-left _ runs (regrouped core less same vs) (
            Some-map (λ v. (v.0 ≡ size) × (v.1 ≡ select (same a) (sort l))) _
              (λ v h. (h.0, rw h.1 (class-perm l a))) runs
              (duplicate_runs-Some same s (λ _. size) (length l) (sort l) a (λ x e. refl)
                (omega (arith, length-sort l)) (sort-IsClustered l)
                (omega (arith, length-perm (class-perm l a))))),
        together-weaken runs (regrouped core less same vs) vs (regrouped-IsKeptTogether vs),
      )
