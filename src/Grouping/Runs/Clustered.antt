-- ===== src/Grouping/Runs/Clustered.antt =====
-- A sorted list is clustered: what agrees on the key stands together.
use bc_duplicate.Prelude.{◌≡◌, Bool, false, List, [], ◌∷◌, drop, Bool-cases, inl, inr, All, All-map}
use bc_duplicate.Grouping.Runs.{same_length}
use bc_duplicate.Grouping.Runs.Classes.{IsClustered}

-- Each element stands in the relation to all that follow it.
abbrev pub IsOrdered {ℓ κ} : {A : Type ℓ} → (A → A → Type κ) → List A → Type κ
IsOrdered rel [] = Unit
IsOrdered rel (x ∷ xs) = All (rel x) xs × IsOrdered rel xs

pub IsOrdered-imp {ℓ κ ι} :
    {A : Type ℓ} (rel : A → A → Type κ) (rel' : A → A → Type ι) (xs : List A)
    → ((x y : A) → rel x y → rel' x y)
    → IsOrdered rel xs
    → IsOrdered rel' xs
IsOrdered-imp rel rel' [] k h = tt
IsOrdered-imp rel rel' (x ∷ xs) k h =
    (All-map (rel x) (rel' x) (k x) xs h.0, IsOrdered-imp rel rel' xs k h.1)

module _ {A : Type 0} (rel : A → A → Type 0) (same : A → A → Bool)
    (between : (x y z : A) → rel x y → rel y z → same x y ≡ false → same x z ≡ false) where
  cluster-ends :
      (x : A) (xs : List A)
      → All (rel x) xs
      → IsOrdered rel xs
      → All (λ y. same x y ≡ false) (drop (same_length (same x) xs) xs)
  cluster-ends x [] h o = tt
  cluster-ends x (y ∷ ys) h o = elim (Bool-cases (same x y)) [
    | inl agree ↦ rw agree (cluster-ends x ys h.1 o.1)
    | inr differ ↦
        rw differ (
          differ,
          All-map (rel y) (λ z. same x z ≡ false) (λ z r. between x y z h.0 r differ) ys o.0,
        )
  ]

  -- In an ordered list nothing that agrees on the key stands apart.
  pub IsOrdered-IsClustered : (xs : List A) → IsOrdered rel xs → IsClustered same xs
  IsOrdered-IsClustered [] o = tt
  IsOrdered-IsClustered (x ∷ xs) o = (cluster-ends x xs o.0 o.1, IsOrdered-IsClustered xs o.1)
