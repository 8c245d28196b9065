-- ===== src/Discovery/Serial/Correct.antt =====
-- The serial discovery returns, and what it finds.
use bc_duplicate.Prelude.{
  ℕ, ◌≤◌, ◌<◌, ◌≡◌, ◌⊎◌, refl, sym, ap, ◌∙◌, Bool, true, false, Option-cases, inl, inr, List, [],
  ◌∷◌, ◌++◌, Option, none, some, arith, length, All, Some, Bool-cases,
}
use mathlib.Core.List.{append-nil}
use bc_duplicate.Types.{Entry}
use bc_duplicate.Core.{CoreLibrary}
use bc_duplicate.Filter.{Filter}
use bc_duplicate.Chain.{◌>>=◌}
use bc_duplicate.Discovery.{
  DiscoveryOptions, FileStatus, StatAnswer, InodeLibrary, Environment, WalkError, inode,
}
use bc_duplicate.Discovery.Serial.{WalkState, expand_inputs, expand}
use bc_duplicate.Discovery.Serial.Step.{unvisited, IsFound}
use bc_duplicate.Discovery.Serial.Inputs.{IsEnding-expand_inputs}

Some-imp {ℓ} :
    {A : Type ℓ} {P Q : A → Type 0} (l : List A) → ((a : A) → P a → Q a) → Some P l → Some Q l
Some-imp [] f h = h
Some-imp (a ∷ l) f (inl h) = inl (f a h)
Some-imp (a ∷ l) f (inr h) = inr (Some-imp l f h)

-- What holds of every member holds throughout.
holds_of_members :
    {A : Type 0} {P : A → Type 0} (l : List A) → ((a : A) → Some (λ b. b ≡ a) l → P a) → All P l
holds_of_members [] f = tt
holds_of_members (a ∷ l) f = (f a (inl refl), holds_of_members l (λ b m. f b (inr m)))

unvisited-le-length :
    (lib : InodeLibrary) (inodes : List (ℕ × ℕ)) (s : lib.InodeSet)
    → unvisited lib inodes s ≤ length inodes
unvisited-le-length lib [] s = omega arith
unvisited-le-length lib (i ∷ is) s = elim (Bool-cases (lib.contains s i)) [
  | inl old ↦ rw old (omega (arith, unvisited-le-length lib is s))
  | inr new ↦ rw new (omega (arith, unvisited-le-length lib is s))
]

module _ (env : Environment) (filter : Option Filter) (options : DiscoveryOptions)
    (input_paths : List (List ℕ)) where
  -- A path that is given, or that a given pattern matches.
  abbrev pub IsInput : List ℕ → Type 0
  IsInput path =
      Some
        (λ given.
          (given ≡ path)
          ⊎ ((paths : List (List ℕ)) × (env.glob given ≡ some paths)
              × Some (λ matched. matched ≡ path) paths))
        input_paths

  -- The path, and every match of it as a pattern, is given.
  abbrev pub IsGiven : List ℕ → Type 0
  IsGiven given =
      IsInput given × ((paths : List (List ℕ)) → env.glob given ≡ some paths → All IsInput paths)

  pub inputs-IsGiven : All IsGiven input_paths
  inputs-IsGiven = holds_of_members input_paths (λ given m. (
    Some-imp input_paths (λ g e. inl e) m,
    λ paths matched.
        holds_of_members paths
          (λ path k. Some-imp input_paths (λ g e. inr (paths, ap env.glob e ∙ matched, k)) m),
  ))

  module _ (inodes : List (ℕ × ℕ))
      (finite : (path : List ℕ) (s : FileStatus)
        → env.status options.follow_symlinks path ≡ StatAnswer.found s
        → Some (λ j. j ≡ inode s) inodes)
      (fuel : ℕ) (core : CoreLibrary) where
    -- The entries are those from before and further ones, each of them found.
    abbrev pub FindsMore : List Entry → List Entry → Type 0
    FindsMore before after =
        (more : List Entry) × (after ≡ before ++ more)
        × All (IsFound env filter options inodes IsInput) more

    abbrev start_state : List Entry → List WalkError → env.inodes.InodeSet → WalkState env
    start_state entries errors visited = record {
      entries = entries;
      errors = errors;
      visited_directories = visited;
      polls = 0;
      root_device_id = none;
    }

    expand-created :
        (entries : List Entry) (errors : List WalkError) (created : Option env.inodes.InodeSet)
        → env.inodes.create ≡ created
        → expand env filter options fuel core entries errors input_paths
          ≡ elim created as (λ o. Option ((List Entry × List WalkError) × Bool)) [
            | none ↦ some ((entries, errors), false)
            | some visited ↦
                expand_inputs env filter options fuel core input_paths
                  (start_state entries errors visited)
                >>= λ st. some ((st.entries, st.errors), true)
          ]
    unfolding expand
    expand-created entries errors created e =
        ap
          (λ o. elim o as (λ o. Option ((List Entry × List WalkError) × Bool)) [
            | none ↦ some ((entries, errors), false)
            | some visited ↦
                expand_inputs env filter options fuel core input_paths
                  (start_state entries errors visited)
                >>= λ st. some ((st.entries, st.errors), true)
          ])
          e

    -- If the file system has finitely many inodes, and the fuel is more than their number, the
    -- serial discovery returns: it keeps the entries it was given and appends only regular files,
    -- with the kernel's status, not below the minimum size, each of them given, matched by a given
    -- pattern, or found in a directory under a name that is not left out.
    pub expand-FindsMore :
        (entries : List Entry) (errors : List WalkError)
        → length inodes < fuel
        → (r : (List Entry × List WalkError) × Bool) × (expand env filter options fuel core entries
              errors input_paths
            ≡ some r)
          × FindsMore entries r.0.0
    expand-FindsMore entries errors h = elim (Option-cases env.inodes.create) [
      | inl e ↦ (_, expand-created entries errors none e, ([], sym (append-nil entries), tt))
      | inr (visited, e) ↦
          let (st, ends, step) =
            IsEnding-expand_inputs env filter options inodes IsInput finite fuel core input_paths
              (start_state entries errors visited) inputs-IsGiven
              (omega (arith, h, unvisited-le-length env.inodes inodes visited)) in
          (
            _,
            expand-created entries errors (some visited) e
                ∙ ap (λ m. m >>= λ st. some ((st.entries, st.errors), true)) ends,
            (step.more, step.entries_added, step.all_found),
          )
    ]
