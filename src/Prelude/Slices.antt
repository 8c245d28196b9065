-- ===== src/Prelude/Slices.antt =====
-- Cutting lists: the laws of `take`, `drop` and `set` that the array code needs.
use Prim.Native.Nat.{ℕ, zero, suc, ◌+◌, ◌-◌, ◌≤◌, ◌<◌, min}
use mathlib.Core.Path.{◌≡◌, refl, ap, sym, ◌∙◌}
use mathlib.Core.List.{List, [], ◌∷◌, ◌++◌}
use native.Mathlib.Omega.{arith}
use bc_duplicate.Prelude.Lists.{length, take, drop, set}

module _ {ℓ} {A : Type ℓ} where
  pub take-append-drop : (n : ℕ) (xs : List A) → take n xs ++ drop n xs ≡ xs
  take-append-drop zero xs = refl
  take-append-drop (suc n) [] = refl
  take-append-drop (suc n) (x ∷ xs) = ap (◌∷◌ x) (take-append-drop n xs)

  pub length-take : (n : ℕ) (xs : List A) → length (take n xs) ≡ min n (length xs)
  length-take zero xs = omega arith
  length-take (suc n) [] = omega arith
  length-take (suc n) (x ∷ xs) = omega (arith, length-take n xs)

  pub length-drop : (n : ℕ) (xs : List A) → length (drop n xs) ≡ length xs - n
  length-drop zero xs = omega arith
  length-drop (suc n) [] = omega arith
  length-drop (suc n) (x ∷ xs) = omega (arith, length-drop n xs)

  -- Cutting at the seam of two lists gives the two lists back.
  pub take-append : (xs ys : List A) → take (length xs) (xs ++ ys) ≡ xs
  take-append [] ys = refl
  take-append (x ∷ xs) ys = ap (◌∷◌ x) (take-append xs ys)

  pub drop-append : (xs ys : List A) → drop (length xs) (xs ++ ys) ≡ ys
  drop-append [] ys = refl
  drop-append (x ∷ xs) ys = drop-append xs ys

  pub take-all : (xs : List A) → take (length xs) xs ≡ xs
  take-all [] = refl
  take-all (x ∷ xs) = ap (◌∷◌ x) (take-all xs)

  pub drop-nil : (n : ℕ) → drop {A = A} n [] ≡ []
  drop-nil zero = refl
  drop-nil (suc n) = refl

  pub drop-add : (m n : ℕ) (xs : List A) → drop (m + n) xs ≡ drop n (drop m xs)
  drop-add zero n xs = ap (λ k. drop k xs) (omega arith)
  drop-add (suc m) n [] = drop-nil (suc m + n) ∙ sym (drop-nil n)
  drop-add (suc m) n (x ∷ xs) =
      let e : suc m + n ≡ suc (m + n) = omega arith in rw e (drop-add m n xs)

  pub length-set : (xs : List A) (i : ℕ) (v : A) → length (set xs i v) ≡ length xs
  length-set [] i v = refl
  length-set (x ∷ xs) zero v = refl
  length-set (x ∷ xs) (suc i) v = ap suc (length-set xs i v)

  pub take_left : (n : ℕ) (xs ys : List A) → n ≤ length xs → take n (xs ++ ys) ≡ take n xs
  take_left zero xs ys h = refl
  take_left (suc n) [] ys h = absurd (omega arith)
  take_left (suc n) (x ∷ xs) ys h = ap (◌∷◌ x) (take_left n xs ys (omega arith))

  pub drop_left : (n : ℕ) (xs ys : List A) → n ≤ length xs → drop n (xs ++ ys) ≡ drop n xs ++ ys
  drop_left zero xs ys h = refl
  drop_left (suc n) [] ys h = absurd (omega arith)
  drop_left (suc n) (x ∷ xs) ys h = drop_left n xs ys (omega arith)

  pub take_full : (n : ℕ) (xs : List A) → length xs ≤ n → take n xs ≡ xs
  take_full zero [] h = refl
  take_full zero (x ∷ xs) h = absurd (omega arith)
  take_full (suc n) [] h = refl
  take_full (suc n) (x ∷ xs) h = ap (◌∷◌ x) (take_full n xs (omega arith))

  -- A write at `w` extends what stands before `w` by one element, and leaves what follows.
  pub take-set :
      (xs : List A) (w : ℕ) (v : A)
      → w < length xs
      → take (suc w) (set xs w v) ≡ take w xs ++ v ∷ []
  take-set [] w v h = absurd (omega arith)
  take-set (x ∷ xs) zero v h = refl
  take-set (x ∷ xs) (suc w) v h = ap (◌∷◌ x) (take-set xs w v (omega arith))

  pub drop-set : (xs : List A) (w r : ℕ) (v : A) → w < r → drop r (set xs w v) ≡ drop r xs
  drop-set [] w r v h = refl
  drop-set (x ∷ xs) w zero v h = absurd (omega arith)
  drop-set (x ∷ xs) zero (suc r) v h = refl
  drop-set (x ∷ xs) (suc w) (suc r) v h = drop-set xs w r v (omega arith)
