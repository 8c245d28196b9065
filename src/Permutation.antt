-- ===== src/Permutation.antt =====
-- What a rearrangement keeps: the length, and how many elements pass a test.
use bc_duplicate.Prelude.{
  suc, ◌≤◌, ◌≡◌, refl, sym, ap, ◌∙◌, Bool, true, false, Bool-cases, inl, inr, List, [], ◌∷◌, length,
  select, select_full, All, arith,
}
use mathlib.Core.List.{Perm, Permᴰ}
use mathlib.Core.List.Permᴰ
use mathlib.Core.Path.{subst}
use mathlib.Core.Logic.{∥∥₁_elim, ∥∥₁_map}
use native.Mathlib.Nat.{ℕ_set}

module _ {A : Type 0} where
  length-permᴰ : {l r : List A} → Permᴰ l r → length l ≡ length r
  length-permᴰ Permᴰ.nil = refl
  length-permᴰ (Permᴰ.cons e d) = ap suc (length-permᴰ d)
  length-permᴰ (Permᴰ.swap e e') = refl
  length-permᴰ (Permᴰ.trans d d') = length-permᴰ d ∙ length-permᴰ d'

  pub length-perm : {l r : List A} → Perm l r → length l ≡ length r
  length-perm p = ∥∥₁_elim p (ℕ_set _ _) (λ d. length-permᴰ d)

  select-swap :
      (p : A → Bool) (a b : A) (l : List A) → Permᴰ (select p (a ∷ b ∷ l)) (select p (b ∷ a ∷ l))
  select-swap p a b l = elim (Bool-cases (p a)) [
    | inl pa ↦ elim (Bool-cases (p b)) [
      | inl pb ↦ rw (pa, pb) (Permᴰ.swap refl refl)
      | inr pb ↦ rw (pa, pb) (Permᴰ.refl _)
    ]
    | inr pa ↦ elim (Bool-cases (p b)) [
      | inl pb ↦ rw (pa, pb) (Permᴰ.refl _)
      | inr pb ↦ rw (pa, pb) (Permᴰ.refl _)
    ]
  ]

  -- The elements that pass a test are rearranged with the rest.
  select-permᴰ : {l r : List A} (p : A → Bool) → Permᴰ l r → Permᴰ (select p l) (select p r)
  select-permᴰ p Permᴰ.nil = Permᴰ.nil
  select-permᴰ p (Permᴰ.cons {a = a} {b = b} e d) = elim (Bool-cases (p a)) [
    | inl pass ↦
        let pass' : p b ≡ true = ap p (sym e) ∙ pass in
        rw (pass, pass') (Permᴰ.cons e (select-permᴰ p d))
    | inr fail ↦
        let fail' : p b ≡ false = ap p (sym e) ∙ fail in rw (fail, fail') (select-permᴰ p d)
  ]
  select-permᴰ p (Permᴰ.swap {a = a} {b = b} {a' = a'} {b' = b'} {l = l} e e') =
      rw (← e, ← e') (select-swap p a b l)
  select-permᴰ p (Permᴰ.trans d d') = Permᴰ.trans (select-permᴰ p d) (select-permᴰ p d')

  pub select-perm : {l r : List A} (p : A → Bool) → Perm l r → Perm (select p l) (select p r)
  select-perm {l} {r} p h = ∥∥₁_map {B = Permᴰ (select p l) (select p r)} h (select-permᴰ p)

  length-select-le : (p : A → Bool) (l : List A) → length (select p l) ≤ length l
  length-select-le p [] = omega arith
  length-select-le p (x ∷ l) = elim (Bool-cases (p x)) [
    | inl pass ↦ rw pass (omega (arith, length-select-le p l))
    | inr fail ↦ rw fail (omega (arith, length-select-le p l))
  ]

  passes_if_full :
      (p : A → Bool) (l : List A) → length (select p l) ≡ length l → All (λ x. p x ≡ true) l
  passes_if_full p [] h = tt
  passes_if_full p (x ∷ l) h = elim (Bool-cases (p x)) [
    | inl pass ↦ (pass, passes_if_full p l (omega (arith, rw pass at h)))
    | inr fail ↦ absurd (omega (arith, rw fail at h, length-select-le p l))
  ]

  All-permᴰ : (P : A → Type 0) {l r : List A} → Permᴰ l r → All P l → All P r
  All-permᴰ P Permᴰ.nil h = tt
  All-permᴰ P (Permᴰ.cons e d) h = (subst P e h.0, All-permᴰ P d h.1)
  All-permᴰ P (Permᴰ.swap e e') h = (subst P e' h.1.0, (subst P e h.0, h.1.1))
  All-permᴰ P (Permᴰ.trans d d') h = All-permᴰ P d' (All-permᴰ P d h)

  All-prop : {P : A → Type 0} → ((a : A) → IsProp (P a)) → (l : List A) → IsProp (All P l)
  All-prop p [] = hlevel
  All-prop p (x ∷ l) = hlevel (p x, All-prop p l)

  -- A property without content that all elements have, all have in another order.
  pub All-rearranged :
      {P : A → Type 0} {l r : List A} → ((a : A) → IsProp (P a)) → Perm l r → All P l → All P r
  All-rearranged {r = r} p h all = ∥∥₁_elim h (All-prop p r) (λ d. All-permᴰ _ d all)

  -- What all elements pass, all pass in another order.
  pub All-perm :
      {l r : List A} (p : A → Bool) → Perm l r → All (λ x. p x ≡ true) l → All (λ x. p x ≡ true) r
  All-perm {l} {r} p h all =
      passes_if_full p r
        (sym (length-perm (select-perm p h)) ∙ ap length (select_full p l all) ∙ length-perm h)
