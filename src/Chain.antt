-- ===== src/Chain.antt =====
-- Chains of calls that can fail without a reason: C functions that return false.
use bc_duplicate.Prelude.{◌≡◌, refl, Option, none, some, arith}

infixl 5 ◌>>=◌
abbrev pub ◌>>=◌ {ℓ κ} : {A : Type ℓ} {B : Type κ} → Option A → (A → Option B) → Option B
none >>= f = none
some a >>= f = f a

pub >>=-eq-some {ℓ κ} :
    {A : Type ℓ} {B : Type κ} (m : Option A) (f : A → Option B) {b : B}
    → (m >>= f) ≡ some b
    → (a : A) × (m ≡ some a) × (f a ≡ some b)
>>=-eq-some none f h = ground arith
>>=-eq-some (some a) f h = (a, refl, h)
