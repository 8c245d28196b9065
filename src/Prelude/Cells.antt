-- ===== src/Prelude/Cells.antt =====
-- A cell of a list after a write.
use Prim.Native.Nat.{ℕ, zero, suc}
use mathlib.Core.Path.{◌≡◌, refl}
use mathlib.Core.Logic.{◌≢◌}
use mathlib.Core.Option.{some}
use mathlib.Core.List.{List, [], ◌∷◌}
use native.Mathlib.Omega.{arith}
use bc_duplicate.Prelude.Lists.{get_elem?, set}

module _ {ℓ} {A : Type ℓ} where
  pub set-get_same :
      (xs : List A) (i : ℕ) (v x : A) → get_elem? xs i ≡ some x → get_elem? (set xs i v) i ≡ some v
  set-get_same [] i v x h = ground arith
  set-get_same (y ∷ ys) zero v x h = refl
  set-get_same (y ∷ ys) (suc i) v x h = set-get_same ys i v x h

  pub set-get_other :
      (xs : List A) (i j : ℕ) (v : A) → i ≢ j → get_elem? (set xs i v) j ≡ get_elem? xs j
  set-get_other [] i j v h = refl
  set-get_other (y ∷ ys) zero zero v h = absurd (h refl)
  set-get_other (y ∷ ys) zero (suc j) v h = refl
  set-get_other (y ∷ ys) (suc i) zero v h = refl
  set-get_other (y ∷ ys) (suc i) (suc j) v h = set-get_other ys i j v (λ e. h (ground arith))
