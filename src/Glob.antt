-- ===== src/Glob.antt =====
-- src/discovery/bc_duplicate_discovery_glob.c: whether a path that is given on the command line is
-- a pattern, and whether it lies on a pseudo file system.
use bc_duplicate.Prelude.{
  ℕ, ◌≡◌, ◌≢◌, ◌↔◌, ◌⊎◌, refl, ap, ◌∙◌, Bool, true, false, Bool-cases, inl, inr, ◌||◌, List, [],
  ◌∷◌, ◌++◌, Option, none, some, arith, ◌==◌,
}

abbrev pub backslash : ℕ
backslash = 92

-- `*`, `?` or `[`
abbrev pub is_metacharacter : ℕ → Bool
is_metacharacter c = c == 42 || (c == 63 || c == 91)

unfoldable pub contains_metacharacter : (escaped : Bool) → List ℕ → Bool
contains_metacharacter escaped [] = false
contains_metacharacter true (c ∷ cs) = contains_metacharacter false cs
contains_metacharacter false (c ∷ cs) = elim (c == backslash) [
  | true ↦ contains_metacharacter true cs
  | false ↦ elim (is_metacharacter c) [ true ↦ true | false ↦ contains_metacharacter false cs ]
]

-- The `f_type` values that count as pseudo file systems, in the order of the source.
abbrev pub pseudo_filesystem_magics : List ℕ
pseudo_filesystem_magics =
    40864 ∷ 1650812274 ∷ 7377 ∷ 2613483 ∷ 1667723888 ∷ 3405662737 ∷ 1953653091 ∷ 1684170528
    ∷ 1935894131 ∷ 1634035564 ∷ 4185718668 ∷ 427819522 ∷ 1112100429 ∷ 391 ∷ []

abbrev pub is_magic : List ℕ → ℕ → Bool
is_magic [] f_type = false
is_magic (magic ∷ magics) f_type = f_type == magic || is_magic magics f_type

-- `none`: `statfs` failed. Its answer is the file system's `f_type`.
unfoldable pub path_is_pseudo_filesystem : Option ℕ → Option Bool
path_is_pseudo_filesystem none = none
path_is_pseudo_filesystem (some f_type) = some (is_magic pseudo_filesystem_magics f_type)

-- A text without an open metacharacter, read up to its end with nothing left to escape. The flag
-- tells whether the first character is escaped.
abbrev pub IsLiteral : Bool → List ℕ → Type 0
IsLiteral true [] = ⊥
IsLiteral false [] = Unit {0}
IsLiteral true (c ∷ cs) = IsLiteral false cs
IsLiteral false (c ∷ cs) =
    ((c ≡ backslash) × IsLiteral true cs)
    ⊎ ((c ≢ backslash) × (is_metacharacter c ≡ false) × IsLiteral false cs)

-- A metacharacter stands in the text behind a literal part.
abbrev pub HasOpen : Bool → List ℕ → Type 0
HasOpen escaped pattern =
    (front : List ℕ) × (c : ℕ) × (back : List ℕ) × (pattern ≡ front ++ c ∷ back)
    × IsLiteral escaped front
    × (is_metacharacter c ≡ true)

finds :
    (escaped : Bool) (pattern : List ℕ)
    → contains_metacharacter escaped pattern ≡ true
    → HasOpen escaped pattern
unfolding contains_metacharacter
finds escaped [] h = absurd (ground arith)
finds true (c ∷ cs) h =
    let (front, m, back, e, literal, meta) = finds false cs h in
    (c ∷ front, m, back, ap (◌∷◌ c) e, literal, meta)
finds false (c ∷ cs) h = elim (Bool-cases (c == backslash)) [
  | inl escapes ↦
      (let (front, m, back, e, literal, meta) =
          finds true cs (rw (contains_metacharacter, escapes) at h) in
        (c ∷ front, m, back, ap (◌∷◌ c) e, inl (ground (arith, escapes), literal), meta))
  | inr plain ↦ elim (Bool-cases (is_metacharacter c)) [
    | inl meta ↦ ([], c, cs, refl, tt, meta)
    | inr other ↦
        (let (front, m, back, e, literal, meta) =
            finds false cs (rw (contains_metacharacter, plain, other) at h) in
          (
            c ∷ front,
            m,
            back,
            ap (◌∷◌ c) e,
            inr (λ k. ground (arith, plain, k), other, literal),
            meta,
          ))
  ]
]

found :
    (escaped : Bool) (front : List ℕ) (c : ℕ) (back : List ℕ)
    → IsLiteral escaped front
    → is_metacharacter c ≡ true
    → contains_metacharacter escaped (front ++ c ∷ back) ≡ true
unfolding contains_metacharacter
found true [] c back literal meta = absurd literal
found false [] c back literal meta =
    let plain : (c == backslash) ≡ false = ground (arith, meta) in
    rw (contains_metacharacter, plain, meta) refl
found true (d ∷ front) c back literal meta = found false front c back literal meta
found false (d ∷ front) c back (inl (e, literal)) meta =
    let escapes : (d == backslash) ≡ true = ground (arith, e) in
    rw (contains_metacharacter, escapes) (found true front c back literal meta)
found false (d ∷ front) c back (inr (n, other, literal)) meta =
    let plain : (d == backslash) ≡ false = ground (arith, n) in
    rw (contains_metacharacter, plain, other) (found false front c back literal meta)

-- A path counts as a pattern exactly when one of `*`, `?` and `[` stands in it behind a literal
-- part: one that ends with no backslash open, and holds such a character only behind a backslash.
pub contains_metacharacter_iff :
    (pattern : List ℕ) → (contains_metacharacter false pattern ≡ true) ↔ HasOpen false pattern
contains_metacharacter_iff pattern = (
  finds false pattern,
  λ (front, c, back, e, literal, meta).
      ap (contains_metacharacter false) e ∙ found false front c back literal meta,
)
