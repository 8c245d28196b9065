-- ===== src/Grouping/Size/Links.antt =====
-- What the collapse of hard links means: of the entries for one file the first stays.
use bc_duplicate.Prelude.{
  ◌≤◌, ◌≡◌, refl, ap, ◌∙◌, Bool, true, false, List, [], ◌∷◌, ◌++◌, arith, length, take, drop, ◌==◌,
  if◌then◌else◌, Bool-cases, inl, inr, All, All-map, select, select-none,
}
use bc_duplicate.Types.{Entry}
use bc_duplicate.Grouping.Runs.{same_length}
use bc_duplicate.Grouping.Runs.Classes.{IsClustered, IsSameness}
use bc_duplicate.Grouping.Runs.Clustered.{IsOrdered}
use bc_duplicate.Grouping.Size.{same_size, same_inode}
use bc_duplicate.Grouping.Size.Order.{same_link}

-- Within a run: what stays behind the last entry kept.
abbrev pub collapse_after : Entry → List Entry → List Entry
collapse_after last [] = []
collapse_after last (x ∷ xs) =
    if same_inode x last then collapse_after last xs else x ∷ collapse_after x xs

-- The same over a whole list, by any test of sameness.
module _ {A : Type 0} (same : A → A → Bool) where
  abbrev pub distinct_after : A → List A → List A
  distinct_after last [] = []
  distinct_after last (x ∷ xs) =
      if same x last then distinct_after last xs else x ∷ distinct_after x xs

  abbrev pub distinct : List A → List A
  distinct [] = []
  distinct (x ∷ xs) = x ∷ distinct_after x xs

  -- Nothing is added.
  length-select-distinct_after :
      (p : A → Bool) (last : A) (xs : List A)
      → length (select p (distinct_after last xs)) ≤ length (select p xs)
  length-select-distinct_after p last [] = omega arith
  length-select-distinct_after p last (x ∷ xs) =
      ground (arith, length-select-distinct_after p last xs, length-select-distinct_after p x xs)

  pub length-select-distinct :
      (p : A → Bool) (xs : List A) → length (select p (distinct xs)) ≤ length (select p xs)
  length-select-distinct p [] = omega arith
  length-select-distinct p (x ∷ xs) = ground (arith, length-select-distinct_after p x xs)

  module _ (s : IsSameness same) where
    -- Of each class what is behind `last` keeps the first, unless `last` is in the class.
    distinct_after-class :
        (last a : A) (xs : List A)
        → All (λ y. same last y ≡ false) (drop (same_length (same last) xs) xs)
        → IsClustered same xs
        → select (same a) (distinct_after last xs)
          ≡ (if same a last then [] else take 1 (select (same a) xs))
    distinct_after-class last a [] h c = ground arith
    distinct_after-class last a (x ∷ xs) h c = elim (Bool-cases (same x last)) [
      | inl linked ↦
          let back = s.same_sym x last linked in
          let ih = distinct_after-class last a xs (rw back at h) c.1 in
          rw linked (ih ∙ ground (arith, s.same_trans a x last, linked))
      | inr apart ↦
          let ahead : same last x ≡ false = ground (arith, s.same_sym last x) in
          let behind = rw ahead at h in
          let ih = distinct_after-class x a xs c.0 c.1 in
          rw apart (elim (Bool-cases (same a last)) [
            | inl al ↦
                let gone = select-none (same a) xs (
                  All-map (λ y. same last y ≡ false) (λ y. same a y ≡ false)
                    (λ y e. ground (arith, s.same_sym a last al, s.same_trans last a y)) xs
                    behind.1) in
                let not_head : same a x ≡ false =
                  ground (arith, behind.0, s.same_sym a last al, s.same_trans last a x) in
                rw (al, not_head) (ih ∙ rw (not_head, gone) refl)
            | inr other ↦ rw other (ground (arith, ih))
          ])
    ]

    -- Of each class the first stays.
    pub distinct-class :
        (a : A) (xs : List A)
        → IsClustered same xs
        → select (same a) (distinct xs) ≡ take 1 (select (same a) xs)
    distinct-class a [] c = refl
    distinct-class a (x ∷ xs) c = ground (arith, distinct_after-class x a xs c.0 c.1)

module _ {A : Type 0} (same : A → A → Bool) (P : A → Type 0) where
  All-distinct_after : (last : A) (xs : List A) → All P xs → All P (distinct_after same last xs)
  All-distinct_after last [] h = tt
  All-distinct_after last (x ∷ xs) h = elim (Bool-cases (same x last)) [
    | inl linked ↦ rw linked (All-distinct_after last xs h.1)
    | inr apart ↦ rw apart (h.0, All-distinct_after x xs h.1)
  ]

  pub All-distinct : (xs : List A) → All P xs → All P (distinct same xs)
  All-distinct [] h = tt
  All-distinct (x ∷ xs) h = (h.0, All-distinct_after x xs h.1)

-- What stays is ordered as the whole was.
module _ {A : Type 0} (same : A → A → Bool) (rel : A → A → Type 0) where
  IsOrdered-distinct_after :
      (last : A) (xs : List A) → IsOrdered rel xs → IsOrdered rel (distinct_after same last xs)
  IsOrdered-distinct_after last [] o = tt
  IsOrdered-distinct_after last (x ∷ xs) o = elim (Bool-cases (same x last)) [
    | inl linked ↦ rw linked (IsOrdered-distinct_after last xs o.1)
    | inr apart ↦
        rw apart (All-distinct_after same (rel x) x xs o.0, IsOrdered-distinct_after x xs o.1)
  ]

  pub IsOrdered-distinct : (xs : List A) → IsOrdered rel xs → IsOrdered rel (distinct same xs)
  IsOrdered-distinct [] o = tt
  IsOrdered-distinct (x ∷ xs) o =
      (All-distinct_after same (rel x) x xs o.0, IsOrdered-distinct_after x xs o.1)

-- Run by run the collapse is the same as over the whole list.
pub distinct_after-append :
    (first last : Entry) (xs : List Entry)
    → last.file_size ≡ first.file_size
    → distinct_after same_link last xs
      ≡ collapse_after last (take (same_length (same_size first) xs) xs)
        ++ distinct same_link (drop (same_length (same_size first) xs) xs)
distinct_after-append first last [] e = refl
distinct_after-append first last (x ∷ xs) e = elim (Bool-cases (same_size first x)) [
  | inl agree ↦
      let size : (x.file_size == last.file_size) ≡ true = ground arith in
      let again : x.file_size ≡ first.file_size = ground arith in
      rw agree (elim (Bool-cases (same_inode x last)) [
        | inl linked ↦ rw (linked, size) (distinct_after-append first last xs e)
        | inr apart ↦ rw (apart, size) (ap (◌∷◌ x) (distinct_after-append first x xs again))
      ])
  | inr differ ↦
      let size : (x.file_size == last.file_size) ≡ false = ground arith in rw (differ, size) refl
]
