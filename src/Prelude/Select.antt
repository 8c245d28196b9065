-- ===== src/Prelude/Select.antt =====
-- The elements that pass a Boolean test, and how many there are.

use mathlib.Core.Path.{◌≡◌, refl}
use mathlib.Core.Bool.{Bool, true, false}
use mathlib.Core.List.{List, [], ◌∷◌, ◌++◌}
use native.Mathlib.Omega.{arith}
use bc_duplicate.Prelude.Tests.{if◌then◌else◌}
use bc_duplicate.Prelude.Lists.{All}

module _ {ℓ} {A : Type ℓ} where
  abbrev pub select : (A → Bool) → List A → List A
  select p [] = []
  select p (x ∷ xs) = if p x then x ∷ select p xs else select p xs

  pub select-append :
      (p : A → Bool) (xs ys : List A) → select p (xs ++ ys) ≡ select p xs ++ select p ys
  select-append p [] ys = refl
  select-append p (x ∷ xs) ys = ground (arith, select-append p xs ys)

  pub select-none : (p : A → Bool) (xs : List A) → All (λ x. p x ≡ false) xs → select p xs ≡ []
  select-none p [] h = refl
  select-none p (x ∷ xs) h = ground (arith, select-none p xs h.1)

  pub select_full : (p : A → Bool) (xs : List A) → All (λ x. p x ≡ true) xs → select p xs ≡ xs
  select_full p [] h = refl
  select_full p (x ∷ xs) h = ground (arith, select_full p xs h.1)

  pub select-All : (p : A → Bool) (xs : List A) → All (λ x. p x ≡ true) (select p xs)
  select-All p [] = tt
  select-All p (x ∷ xs) = ground (arith, select-All p xs)
