-- ===== src/Application/Stages/Views.antt =====
-- What holds of the members of all groups: behind a pass that keeps it, and behind a regrouping.
use bc_duplicate.Prelude.{
  ℕ, zero, suc, ◌≤◌, ◌≡◌, refl, sym, ap, ◌∙◌, Bool, true, Bool-cases, inl, inr, List, [], ◌∷◌, map,
  length, take, drop, All, select, select-All,
}
use mathlib.Core.Path.{subst}
use mathlib.Core.List.{Perm}
use mathlib.Core.List.Perm
use bc_duplicate.Types.{Entry, Group}
use bc_duplicate.Permutation.{All-rearranged}
use bc_duplicate.Grouping.Runs.View.{view, view_group, members}
use bc_duplicate.Grouping.Regroup.Classes.{Views, IsPartOf}

module _ {A B : Type 0} (f : A → B) where
  map-take : (n : ℕ) (l : List A) → map f (take n l) ≡ take n (map f l)
  map-take zero l = refl
  map-take (suc n) [] = refl
  map-take (suc n) (x ∷ l) = ap (λ m. f x ∷ m) (map-take n l)

  map-drop : (n : ℕ) (l : List A) → map f (drop n l) ≡ drop n (map f l)
  map-drop zero l = refl
  map-drop (suc n) [] = refl
  map-drop (suc n) (x ∷ l) = map-drop n l

  All-values : (P : B → Type 0) (l : List A) → All (λ x. P (f x)) l → All P (map f l)
  All-values P [] h = tt
  All-values P (x ∷ l) h = (h.0, All-values P l h.1)

  holds_of_values : (P : B → Type 0) (l : List A) → All P (map f l) → All (λ x. P (f x)) l
  holds_of_values P [] h = tt
  holds_of_values P (x ∷ l) h = (h.0, holds_of_values P l h.1)

  -- Lists with the same values of `f` agree in what these values tell.
  All-same_map :
      (P : B → Type 0) (xs ys : List A)
      → map f ys ≡ map f xs
      → All (λ x. P (f x)) xs
      → All (λ x. P (f x)) ys
  All-same_map P xs ys e h = holds_of_values P ys (subst (All P) (sym e) (All-values P xs h))

-- A pass that keeps the values of `f` keeps what these values tell of the members of a group.
pub members-kept :
    (f : Entry → Entry) (P : Entry → Type 0) (entries hashed : List Entry) (g : Group)
    → map f hashed ≡ map f entries
    → All (λ x. P (f x)) (members entries g)
    → All (λ x. P (f x)) (members hashed g)
members-kept f P entries hashed g e h =
    let cut : (l : List Entry)
        → map f (members l g) ≡ take g.entry_count (drop g.start_index (map f l)) =
      λ l.
        map-take f g.entry_count (drop g.start_index l)
        ∙ ap (take g.entry_count) (map-drop f g.start_index l) in
    All-same_map f P (members entries g) (members hashed g)
      (cut hashed ∙ ap (λ l. take g.entry_count (drop g.start_index l)) e ∙ sym (cut entries)) h

pub view-kept :
    (R : ℕ × List Entry → Type 0) (entries hashed : List Entry) (gs : List Group)
    → ((g : Group) → R (view_group entries g) → R (view_group hashed g))
    → All R (view entries gs)
    → All R (view hashed gs)
view-kept R entries hashed [] k h = tt
view-kept R entries hashed (g ∷ gs) k h = (k g h.0, view-kept R entries hashed gs k h.1)

pub All-select :
    {A : Type 0} (P : A → Type 0) (p : A → Bool) (l : List A) → All P l → All P (select p l)
All-select P p [] h = tt
All-select P p (x ∷ l) h = elim (Bool-cases (p x)) [
  | inl pass ↦ rw pass (h.0, All-select P p l h.1)
  | inr fail ↦ rw fail (All-select P p l h.1)
]

pub All-and :
    {A : Type 0} (P Q : A → Type 0) (l : List A) → All P l → All Q l → All (λ x. P x × Q x) l
All-and P Q [] h k = tt
All-and P Q (x ∷ l) h k = ((h.0, k.0), All-and P Q l h.1 k.1)

-- A part of one of the lists takes over a property that all of them have.
pub part_of :
    (same : Entry → Entry → Bool) (R : ℕ × List Entry → Type 0) (us : Views) (v : ℕ × List Entry)
    → All R us
    → IsPartOf same us v
    → (u : ℕ × List Entry) × R u
      × (v.0 ≡ u.0)
      × (2 ≤ length v.1)
      × ((x : Entry) × Perm v.1 (select (same x) u.1))
part_of same R [] v all part = absurd part
part_of same R (u ∷ us) v all (inl p) = (u, all.0, p.0, p.1, p.2)
part_of same R (u ∷ us) v all (inr p) = part_of same R us v all.1 p

-- The members of a part are members of the whole, and agree with one entry.
pub part-All :
    (same : Entry → Entry → Bool) (P : Entry → Type 0) (l m : List Entry) (x : Entry)
    → ((e : Entry) → IsProp (P e))
    → Perm m (select (same x) l)
    → All P l
    → All (λ e. P e × (same x e ≡ true)) m
part-All same P l m x prop perm h =
    let p : (e : Entry) → IsProp (P e × (same x e ≡ true)) = λ e. hlevel (prop e) in
    All-rearranged p (Perm.symm perm)
      (All-and P _ (select (same x) l) (All-select P (same x) l h) (select-All (same x) l))
