-- ===== src/Arrays.antt =====
-- Reading an array cell by cell, while `take n` is what has been done and `drop n` what is left.
use bc_duplicate.Prelude.{
  ℕ, zero, suc, ◌<◌, ◌≡◌, ap, List, [], ◌∷◌, ◌++◌, arith, length, take, drop,
}
use bc_duplicate.Outcome.{done, read_at}

module _ {A : Type 0} where
  pub read_at-drop :
      (n : ℕ) (xs rest : List A) (x : A) → drop n xs ≡ x ∷ rest → read_at xs n ≡ done x
  read_at-drop zero [] rest x e = ground arith
  read_at-drop zero (y ∷ ys) rest x e = ground arith
  read_at-drop (suc n) [] rest x e = ground arith
  read_at-drop (suc n) (y ∷ ys) rest x e = read_at-drop n ys rest x e

  pub read_at-take :
      (n : ℕ) (xs kept : List A) (x : A)
      → n ≡ length kept
      → take (suc n) xs ≡ kept ++ x ∷ []
      → read_at xs n ≡ done x
  read_at-take zero [] [] x h e = ground arith
  read_at-take zero (y ∷ ys) [] x h e = ground arith
  read_at-take zero [] (k ∷ kept) x h e = absurd (omega arith)
  read_at-take zero (y ∷ ys) (k ∷ kept) x h e = absurd (omega arith)
  read_at-take (suc n) [] [] x h e = ground arith
  read_at-take (suc n) [] (k ∷ kept) x h e = ground arith
  read_at-take (suc n) (y ∷ ys) [] x h e = absurd (omega arith)
  read_at-take (suc n) (y ∷ ys) (k ∷ kept) x h e =
      read_at-take n ys kept x (omega arith) (ground arith)

  pub drop-cons-lt : (n : ℕ) (xs rest : List A) (x : A) → drop n xs ≡ x ∷ rest → n < length xs
  drop-cons-lt zero [] rest x e = ground arith
  drop-cons-lt zero (y ∷ ys) rest x e = omega arith
  drop-cons-lt (suc n) [] rest x e = ground arith
  drop-cons-lt (suc n) (y ∷ ys) rest x e = omega (arith, drop-cons-lt n ys rest x e)

  pub drop-suc : (n : ℕ) (xs rest : List A) (x : A) → drop n xs ≡ x ∷ rest → drop (suc n) xs ≡ rest
  drop-suc zero [] rest x e = ground arith
  drop-suc zero (y ∷ ys) rest x e = ground arith
  drop-suc (suc n) [] rest x e = ground arith
  drop-suc (suc n) (y ∷ ys) rest x e = drop-suc n ys rest x e

  pub take-suc :
      (n : ℕ) (xs rest : List A) (x : A)
      → drop n xs ≡ x ∷ rest
      → take (suc n) xs ≡ take n xs ++ x ∷ []
  take-suc zero [] rest x e = ground arith
  take-suc zero (y ∷ ys) rest x e = ground arith
  take-suc (suc n) [] rest x e = ground arith
  take-suc (suc n) (y ∷ ys) rest x e = ap (◌∷◌ y) (take-suc n ys rest x e)
