-- ===== src/Grouping/Runs/Classes.antt =====
-- On a clustered list the runs are the classes of the key with two or more members.
use bc_duplicate.Prelude.{
  ℕ, zero, suc, ◌≤◌, ◌≡◌, refl, sym, ap, ◌∙◌, Bool, true, false, List, [], ◌∷◌, arith, length, take,
  drop, ltb, Bool-cases, inl, inr, All, Some, select, select-append, select-none, select_full,
  take-append-drop, length-drop, length-take,
}
use mathlib.Core.List.{append-nil}
use bc_duplicate.Grouping.Runs.{same_length, duplicate_runs}
use bc_duplicate.Grouping.Runs.View.{same_length-le-length}

-- After the run of an element comes nothing that agrees with it.
abbrev pub IsClustered {ℓ} : {A : Type ℓ} → (A → A → Bool) → List A → Type 0
IsClustered same [] = Unit
IsClustered same (x ∷ xs) =
    All (λ y. same x y ≡ false) (drop (same_length (same x) xs) xs) × IsClustered same xs

-- `same` compares values of a key.
pub record IsSameness {ℓ} {A : Type ℓ} (same : A → A → Bool) : Type ℓ where
  pub same_refl : (a : A) → same a a ≡ true
  pub same_sym : (a b : A) → same a b ≡ true → same b a ≡ true
  pub same_trans : (a b c : A) → same a b ≡ true → same b c ≡ true → same a c ≡ true

module _ {ℓ} {A : Type ℓ} where
  take-same_length-All :
      (p : A → Bool) (xs : List A) → All (λ y. p y ≡ true) (take (same_length p xs) xs)
  take-same_length-All p [] = tt
  take-same_length-All p (x ∷ xs) = elim (Bool-cases (p x)) [
    | inl agree ↦ rw agree (agree, take-same_length-All p xs)
    | inr differ ↦ rw differ tt
  ]

  IsClustered-drop :
      (same : A → A → Bool) (n : ℕ) (xs : List A)
      → IsClustered same xs
      → IsClustered same (drop n xs)
  IsClustered-drop same zero xs c = c
  IsClustered-drop same (suc n) [] c = tt
  IsClustered-drop same (suc n) (x ∷ xs) c = IsClustered-drop same n xs c.1

  All-drop {κ} : (P : A → Type κ) (n : ℕ) (xs : List A) → All P xs → All P (drop n xs)
  All-drop P zero xs h = h
  All-drop P (suc n) [] h = tt
  All-drop P (suc n) (x ∷ xs) h = All-drop P n xs h.1

  All-zip {κ ι} :
      (P : A → Type κ) (Q : A → Type ι) (xs : List A)
      → All P xs
      → All Q xs
      → All (λ x. P x × Q x) xs
  All-zip P Q [] h k = tt
  All-zip P Q (x ∷ xs) h k = ((h.0, k.0), All-zip P Q xs h.1 k.1)

  All-imp {κ ι} :
      (P : A → Type κ) (Q : A → Type ι) (xs : List A) → ((x : A) → P x → Q x) → All P xs → All Q xs
  All-imp P Q [] k h = tt
  All-imp P Q (x ∷ xs) k h = (k x h.0, All-imp P Q xs k h.1)

module _ {ℓ} {A : Type ℓ} (same : A → A → Bool) (s : IsSameness same) where
  -- The class of the head is its run.
  select-head :
      (x : A) (xs : List A)
      → IsClustered same (x ∷ xs)
      → select (same x) (x ∷ xs) ≡ x ∷ take (same_length (same x) xs) xs
  select-head x xs c =
      let k = same_length (same x) xs in
      rw (s.same_refl x) (
        ap (◌∷◌ x) (
          ap (select (same x)) (sym (take-append-drop k xs))
          ∙ select-append (same x) (take k xs) (drop k xs)
          ∙ rw
              (
                select_full (same x) (take k xs) (take-same_length-All (same x) xs),
                select-none (same x) (drop k xs) c.0,
              )
              (append-nil _)))

  not-same : (a x y : A) → same a x ≡ false → same x y ≡ true → same a y ≡ false
  not-same a x y e h = ground (arith, s.same_sym x y, s.same_trans a y x)

  -- The other classes lie behind that run.
  select-other :
      (a x : A) (xs : List A)
      → same a x ≡ false
      → select (same a) (x ∷ xs) ≡ select (same a) (drop (same_length (same x) xs) xs)
  select-other a x xs e =
      let k = same_length (same x) xs in
      rw e (
        ap (select (same a)) (sym (take-append-drop k xs))
        ∙ select-append (same a) (take k xs) (drop k xs)
        ∙ rw (
            select-none (same a) (take k xs)
              (All-imp _ _ (take k xs) (λ y. not-same a x y e) (take-same_length-All (same x) xs))))

  select-same : (a x : A) (xs : List A) → same a x ≡ true → select (same a) xs ≡ select (same x) xs
  select-same a x [] e = refl
  select-same a x (y ∷ ys) e =
      ground
        (arith, select-same a x ys e, s.same_sym a x e, s.same_trans a x y e, s.same_trans x a y)

-- A run is the class of an element that has `P` (as all elements have), with that element's tag, and
-- has two members at least.
abbrev pub IsClassRun :
    {A : Type 0} → (A → A → Bool) → (A → ℕ) → (A → Type 0) → List A → ℕ × List A → Type 0
IsClassRun {A} same tag P l r =
    (x : A) × P x × (r.0 ≡ tag x) × (2 ≤ length r.1) × (r.1 ≡ select (same x) l)

module _ {A : Type 0} (same : A → A → Bool) (s : IsSameness same) (tag : A → ℕ) where
  IsClassRun-lift :
      (P : A → Type 0) (x : A) (xs : List A) (r : ℕ × List A)
      → IsClassRun same tag (λ y. P y × (same x y ≡ false)) (drop (same_length (same x) xs) xs) r
      → IsClassRun same tag P (x ∷ xs) r
  IsClassRun-lift P x xs r (y, py, tagged, long, e) =
      let differs : same y x ≡ false = ground (arith, s.same_sym y x, py.1) in
      (y, py.0, tagged, long, e ∙ sym (select-other same s y x xs differs))

  pub duplicate_runs-IsClassRun :
      (fuel : ℕ) (l : List A) (P : A → Type 0)
      → length l ≤ fuel
      → IsClustered same l
      → All P l
      → All (IsClassRun same tag P l) (duplicate_runs same tag fuel l)
  unfolding duplicate_runs
  duplicate_runs-IsClassRun zero l P h c p = tt
  duplicate_runs-IsClassRun (suc fuel) [] P h c p = tt
  duplicate_runs-IsClassRun (suc fuel) (x ∷ xs) P h c p =
      let k = same_length (same x) xs in
      let later =
        All-imp _ (IsClassRun same tag P (x ∷ xs)) (duplicate_runs same tag fuel (drop k xs))
          (IsClassRun-lift P x xs)
          (duplicate_runs-IsClassRun fuel (drop k xs) (λ y. P y × (same x y ≡ false))
            (omega (arith, length-drop k xs)) (IsClustered-drop same k xs c.1)
            (All-zip P _ (drop k xs) (All-drop P k xs p.1) c.0)) in
      elim (Bool-cases (ltb (suc k) 2)) [
        | inl short ↦ rw short later
        | inr long ↦ rw long (
          (
            x,
            p.0,
            refl,
            ground (arith, length-take k xs, same_length-le-length (same x) xs),
            sym (select-head same s x xs c),
          ),
          later,
        )
      ]

  pub duplicate_runs-Some :
      (fuel : ℕ) (l : List A) (a : A)
      → ((x : A) → same a x ≡ true → tag x ≡ tag a)
      → length l ≤ fuel
      → IsClustered same l
      → 2 ≤ length (select (same a) l)
      → Some (λ r. (r.0 ≡ tag a) × (r.1 ≡ select (same a) l)) (duplicate_runs same tag fuel l)
  unfolding duplicate_runs
  duplicate_runs-Some zero [] a t h c two = absurd (omega arith)
  duplicate_runs-Some zero (x ∷ xs) a t h c two = absurd (omega arith)
  duplicate_runs-Some (suc fuel) [] a t h c two = absurd (omega arith)
  duplicate_runs-Some (suc fuel) (x ∷ xs) a t h c two =
      let k = same_length (same x) xs in
      elim (Bool-cases (same a x)) [
        | inl agree ↦
            let e : select (same a) (x ∷ xs) ≡ x ∷ take k xs =
              select-same same s a x (x ∷ xs) agree ∙ select-head same s x xs c in
            let long : ltb (suc k) 2 ≡ false = ground (arith, length-take k xs, ap length e, two) in
            rw long (inl (t x agree, sym e))
        | inr differ ↦
            let e = select-other same s a x xs differ in
            let later =
              duplicate_runs-Some fuel (drop k xs) a t (omega (arith, length-drop k xs))
                (IsClustered-drop same k xs c.1) (rw e at two) in
            rw e (elim (Bool-cases (ltb (suc k) 2)) [
              | inl short ↦ rw short later
              | inr long ↦ rw long (inr later)
            ])
      ]
