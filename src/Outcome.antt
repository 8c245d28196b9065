-- ===== src/Outcome.antt =====
-- How a call can end: with its results, with a refused allocation, or with an access outside an
-- array, which C leaves undefined.
use bc_duplicate.Prelude.{
  ℕ, zero, suc, ◌<◌, ◌≡◌, refl, Bool, true, false, List, [], ◌∷◌, arith, length, All, none, some,
  get_elem?, if◌then◌else◌, Bool-cases, inl, inr,
}

pub data Outcome {ℓ} (A : Type ℓ) : Type ℓ where
  done : A → Outcome A
  out_of_memory : Outcome A
  out_of_bounds : Outcome A

infixl 5 ◌>>=◌
abbrev pub ◌>>=◌ {ℓ κ} : {A : Type ℓ} {B : Type κ} → Outcome A → (A → Outcome B) → Outcome B
done a >>= f = f a
out_of_memory >>= f = out_of_memory
out_of_bounds >>= f = out_of_bounds

-- `array[index]`
abbrev pub read_at {ℓ} : {A : Type ℓ} → List A → ℕ → Outcome A
read_at l i = elim (get_elem? l i) [ none ↦ out_of_bounds | some a ↦ done a ]

-- The call ends with a result that satisfies `P`, or because the allocator refused a request.
abbrev pub Returns {ℓ} : {A : Type ℓ} → (ℕ → Bool) → Outcome A → (A → Type 0) → Type 0
Returns grant (done a) P = P a
Returns grant out_of_memory P = (bytes : ℕ) × (grant bytes ≡ false)
Returns grant out_of_bounds P = ⊥

-- A chain meets a condition if its first call returns, and the rest meets it at each result.
pub Returns->>= {ℓ κ} :
    {A : Type ℓ} {B : Type κ} (grant : ℕ → Bool) (m : Outcome A) (f : A → Outcome B)
    (P : A → Type 0) (Q : B → Type 0)
    → Returns grant m P
    → ((a : A) → P a → Returns grant (f a) Q)
    → Returns grant (m >>= f) Q
Returns->>= grant (done a) f P Q h k = k a h
Returns->>= grant out_of_memory f P Q h k = h
Returns->>= grant out_of_bounds f P Q h k = h

pub Returns-imp {ℓ} :
    {A : Type ℓ} (grant : ℕ → Bool) (m : Outcome A) (P Q : A → Type 0)
    → ((a : A) → P a → Q a)
    → Returns grant m P
    → Returns grant m Q
Returns-imp grant (done a) P Q k h = k a h
Returns-imp grant out_of_memory P Q k h = h
Returns-imp grant out_of_bounds P Q k h = h

-- A request that is served or ends the call.
pub Returns-granted {ℓ} :
    {A : Type ℓ} (grant : ℕ → Bool) (bytes : ℕ) (a : A) (P : A → Type 0)
    → P a
    → Returns grant (if grant bytes then done a else out_of_memory) P
Returns-granted grant bytes a P h = elim (Bool-cases (grant bytes)) [
  | inl served ↦ rw served h
  | inr refused ↦ rw refused (bytes, refused)
]

-- Two facts about one result.
pub Returns-both {ℓ} :
    {A : Type ℓ} (grant : ℕ → Bool) (m : Outcome A) (P Q : A → Type 0)
    → Returns grant m P
    → Returns grant m Q
    → Returns grant m (λ a. P a × Q a)
Returns-both grant (done a) P Q h k = (h, k)
Returns-both grant out_of_memory P Q h k = h
Returns-both grant out_of_bounds P Q h k = h

pub Returns-request {ℓ} :
    {A : Type ℓ} (grant : ℕ → Bool) (bytes : ℕ) (m : Outcome A) (P : A → Type 0)
    → Returns grant m P
    → Returns grant (if grant bytes then m else out_of_memory) P
Returns-request grant bytes m P h = elim (Bool-cases (grant bytes)) [
  | inl served ↦ rw served h
  | inr refused ↦ rw refused (bytes, refused)
]

-- The call stays inside its arrays, and its result, if it gives one, satisfies `P`.
abbrev pub Meets {ℓ} : {A : Type ℓ} → Outcome A → (A → Type 0) → Type 0
Meets (done a) P = P a
Meets out_of_memory P = Unit
Meets out_of_bounds P = ⊥

pub Meets->>= {ℓ κ} :
    {A : Type ℓ} {B : Type κ} (m : Outcome A) (f : A → Outcome B) (P : A → Type 0) (Q : B → Type 0)
    → Meets m P
    → ((a : A) → P a → Meets (f a) Q)
    → Meets (m >>= f) Q
Meets->>= (done a) f P Q h k = k a h
Meets->>= out_of_memory f P Q h k = tt
Meets->>= out_of_bounds f P Q h k = h

pub Meets-Returns {ℓ} :
    {A : Type ℓ} (grant : ℕ → Bool) (m : Outcome A) (P : A → Type 0) → Returns grant m P → Meets m P
Meets-Returns grant (done a) P h = h
Meets-Returns grant out_of_memory P h = tt
Meets-Returns grant out_of_bounds P h = h

-- A read inside the array finds what all its elements satisfy.
pub Meets-read_at {ℓ} :
    {A : Type ℓ} (P : A → Type 0) (l : List A) (i : ℕ)
    → i < length l
    → All P l
    → Meets (read_at l i) P
Meets-read_at P [] i h all = absurd (omega (arith, h))
Meets-read_at P (a ∷ l) zero h all = all.0
Meets-read_at P (a ∷ l) (suc i) h all = Meets-read_at P l i (omega (arith, h)) all.1

pub Meets-imp {ℓ} :
    {A : Type ℓ} (m : Outcome A) (P Q : A → Type 0) → ((a : A) → P a → Q a) → Meets m P → Meets m Q
Meets-imp (done a) P Q k h = k a h
Meets-imp out_of_memory P Q k h = tt
Meets-imp out_of_bounds P Q k h = h

-- A test, whose answer its branch may use.
pub Meets-if {ℓ} :
    {A : Type ℓ} (b : Bool) (m n : Outcome A) (P : A → Type 0)
    → (b ≡ true → Meets m P)
    → (b ≡ false → Meets n P)
    → Meets (if b then m else n) P
Meets-if true m n P h k = h refl
Meets-if false m n P h k = k refl
