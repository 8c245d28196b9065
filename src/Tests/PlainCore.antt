-- ===== src/Tests/PlainCore.antt =====
-- A plain bc-core library: insertion sort, a copy by cutting, and comparison byte by byte. It shows
-- that what the program relies on can be met, and lets the tests run.
use bc_duplicate.Prelude.{
  ℕ, ◌+◌, ◌≡◌, ◌↔◌, refl, Bool, true, false, ◌&&◌, Bool-cases, inl, inr, List, [], ◌∷◌, ◌++◌, arith,
  take, drop, ltb, ◌==◌, if◌then◌else◌, All, All-map,
}
use mathlib.Core.List.{Perm}
use mathlib.Core.List.Perm
use bc_duplicate.Core.{CoreLibrary, IsStrictOrder, IsSorted}

module _ (A : Type 0) (less : A → A → Bool) where
  abbrev pub insert : A → List A → List A
  insert x [] = x ∷ []
  insert x (y ∷ ys) = if less y x then y ∷ insert x ys else x ∷ y ∷ ys

  abbrev pub insertion_sort : List A → List A
  insertion_sort [] = []
  insertion_sort (x ∷ xs) = insert x (insertion_sort xs)

  insert-perm : (x : A) (l : List A) → Perm (insert x l) (x ∷ l)
  insert-perm x [] = Perm.rfl
  insert-perm x (y ∷ ys) = elim (Bool-cases (less y x)) [
    | inl before ↦ rw before (Perm.trans (Perm.cons y (insert-perm x ys)) (Perm.swap x y ys))
    | inr behind ↦ rw behind Perm.rfl
  ]

  pub insertion_sort-perm : (l : List A) → Perm (insertion_sort l) l
  insertion_sort-perm [] = Perm.rfl
  insertion_sort-perm (x ∷ xs) =
      Perm.trans (insert-perm x (insertion_sort xs)) (Perm.cons x (insertion_sort-perm xs))

  All-insert : (P : A → Type 0) (x : A) (l : List A) → P x → All P l → All P (insert x l)
  All-insert P x [] h k = (h, tt)
  All-insert P x (y ∷ ys) h k = elim (Bool-cases (less y x)) [
    | inl before ↦ rw before (k.0, All-insert P x ys h k.1)
    | inr behind ↦ rw behind (h, k)
  ]

  module _ (order : IsStrictOrder less) where
    insert-IsSorted : (x : A) (l : List A) → IsSorted less l → IsSorted less (insert x l)
    insert-IsSorted x [] s = (tt, tt)
    insert-IsSorted x (y ∷ ys) s = elim (Bool-cases (less y x)) [
      | inl before ↦ rw before (
        All-insert (λ z. less z y ≡ false) x ys (order.asym y x before) s.0,
        insert-IsSorted x ys s.1,
      )
      | inr behind ↦ rw behind (
        (
          behind,
          All-map (λ z. less z y ≡ false) (λ z. less z x ≡ false)
              (λ z h. order.not_less_trans x y z behind h) ys s.0,
        ),
        s,
      )
    ]

    pub insertion_sort-IsSorted : (l : List A) → IsSorted less (insertion_sort l)
    insertion_sort-IsSorted [] = tt
    insertion_sort-IsSorted (x ∷ xs) =
        insert-IsSorted x (insertion_sort xs) (insertion_sort-IsSorted xs)

abbrev pub less_lex : List ℕ → List ℕ → Bool
less_lex [] [] = false
less_lex [] (y ∷ ys) = true
less_lex (x ∷ xs) [] = false
less_lex (x ∷ xs) (y ∷ ys) = if x == y then less_lex xs ys else ltb x y

abbrev pub equal_lists : List ℕ → List ℕ → Bool
equal_lists [] [] = true
equal_lists [] (y ∷ ys) = false
equal_lists (x ∷ xs) [] = false
equal_lists (x ∷ xs) (y ∷ ys) = x == y && equal_lists xs ys

pub less_lex-asym : (a b : List ℕ) → less_lex a b ≡ true → less_lex b a ≡ false
less_lex-asym [] [] h = refl
less_lex-asym [] (y ∷ ys) h = refl
less_lex-asym (x ∷ xs) [] h = ground arith
less_lex-asym (x ∷ xs) (y ∷ ys) h = ground (arith, less_lex-asym xs ys)

pub less_lex-not_trans :
    (a b c : List ℕ) → less_lex b a ≡ false → less_lex c b ≡ false → less_lex c a ≡ false
less_lex-not_trans [] [] [] h k = refl
less_lex-not_trans [] [] (z ∷ zs) h k = refl
less_lex-not_trans [] (y ∷ ys) [] h k = ground arith
less_lex-not_trans [] (y ∷ ys) (z ∷ zs) h k = refl
less_lex-not_trans (x ∷ xs) [] c h k = ground arith
less_lex-not_trans (x ∷ xs) (y ∷ ys) [] h k = ground arith
less_lex-not_trans (x ∷ xs) (y ∷ ys) (z ∷ zs) h k = ground (arith, less_lex-not_trans xs ys zs)

pub equal_lists_iff : (a b : List ℕ) → (equal_lists a b ≡ true) ↔ (a ≡ b)
equal_lists_iff [] [] = (λ h. refl, λ h. refl)
equal_lists_iff [] (y ∷ ys) = ground arith
equal_lists_iff (x ∷ xs) [] = ground arith
equal_lists_iff (x ∷ xs) (y ∷ ys) = ground (arith, equal_lists_iff xs ys)

pub equal_lists_not_less :
    (a b : List ℕ) → (equal_lists a b ≡ true) ↔ ((less_lex a b ≡ false) × (less_lex b a ≡ false))
equal_lists_not_less [] [] = ground arith
equal_lists_not_less [] (y ∷ ys) = ground arith
equal_lists_not_less (x ∷ xs) [] = ground arith
equal_lists_not_less (x ∷ xs) (y ∷ ys) = ground (arith, equal_lists_not_less xs ys)

abbrev pub plain_core : CoreLibrary
plain_core = record {
  sort = insertion_sort;
  sort_ordered = λ A less l order. insertion_sort-IsSorted A less order l;
  sort_perm = insertion_sort-perm;
  copy = λ A array target source count.
      take target array ++ (take count (drop source array) ++ drop (target + count) array);
  copy_moves = λ A array target source count h k. refl;
  less_bytes = λ a b count. less_lex (take count a) (take count b);
  equal_bytes = λ a b count. equal_lists (take count a) (take count b);
  less_bytes_order = λ count. record {
    asym = λ a b h. less_lex-asym (take count a) (take count b) h;
    not_less_trans =
        λ a b c h k. less_lex-not_trans (take count a) (take count b) (take count c) h k;
  };
  equal_bytes_iff = λ a b count. equal_lists_iff (take count a) (take count b);
  equal_bytes_not_less = λ a b count. equal_lists_not_less (take count a) (take count b);
}
