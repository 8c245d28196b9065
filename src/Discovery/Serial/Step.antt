-- ===== src/Discovery/Serial/Step.antt =====
-- What any part of the serial walk does to its state: it appends files that were found, and inodes
-- that are visited stay so.
use bc_duplicate.Prelude.{
  ℕ, suc, ◌+◌, ◌≤◌, ◌<◌, ◌≡◌, ◌⊎◌, refl, sym, ap, ◌∙◌, Bool, true, false, Bool-cases, inl, inr,
  List, [], ◌∷◌, ◌++◌, Option, some, arith, length, ltb, if◌then◌else◌, All, Some, All-append,
}
use mathlib.Core.List.{append-nil, append_assoc}
use bc_duplicate.Types.{Entry}
use bc_duplicate.Filter.{Filter, accepts_file}
use bc_duplicate.Discovery.{
  DiscoveryOptions, FileKind, FileStatus, StatAnswer, InodeLibrary, Environment, new_entry,
}
use bc_duplicate.Discovery.Serial.{WalkState, log, append_entry, is_hidden_name}

-- The inodes of a list that are not in a set.
abbrev pub unvisited : (lib : InodeLibrary) → List (ℕ × ℕ) → lib.InodeSet → ℕ
unvisited lib [] s = 0
unvisited lib (i ∷ is) s = (if lib.contains s i then 0 else 1) + unvisited lib is s

module _ (lib : InodeLibrary) where
  keeps_contained :
      (s : lib.InodeSet) (i j : ℕ × ℕ) (r : lib.InodeSet × Bool)
      → lib.insert s i ≡ some r
      → lib.contains s j ≡ true
      → lib.contains r.0 j ≡ true
  keeps_contained s i j r h k = lib.insert_adds s i j r h ∙ rw k refl

  one_count : (a b : Bool) → (a ≡ true → b ≡ true) → (if b then 0 else 1) ≤ (if a then 0 else 1)
  one_count true b h = rw (h refl) (omega arith)
  one_count false true h = omega arith
  one_count false false h = omega arith

  pub unvisited-le :
      (is : List (ℕ × ℕ)) (s : lib.InodeSet) (i : ℕ × ℕ) (r : lib.InodeSet × Bool)
      → lib.insert s i ≡ some r
      → unvisited lib is r.0 ≤ unvisited lib is s
  unvisited-le [] s i r h = omega arith
  unvisited-le (j ∷ is) s i r h = omega (
    arith,
    unvisited-le is s i r h,
    one_count (lib.contains s j) (lib.contains r.0 j) (keeps_contained s i j r h),
  )

  now_contained :
      (s : lib.InodeSet) (i : ℕ × ℕ) (r : lib.InodeSet × Bool)
      → lib.insert s i ≡ some r
      → lib.contains r.0 i ≡ true
  now_contained s i r h = lib.insert_adds s i i r h ∙ ground arith

  -- An inode of the list that was not present is one fewer.
  pub unvisited-lt :
      (is : List (ℕ × ℕ)) (s : lib.InodeSet) (i : ℕ × ℕ) (r : lib.InodeSet × Bool)
      → lib.insert s i ≡ some r
      → r.1 ≡ false
      → Some (λ j. j ≡ i) is
      → unvisited lib is r.0 < unvisited lib is s
  unvisited-lt [] s i r h new m = absurd m
  unvisited-lt (j ∷ is) s i r h new (inl e) =
      let before : lib.contains s j ≡ false =
        ap (lib.contains s) e ∙ sym (lib.insert_tells s i r h) ∙ new in
      let after : lib.contains r.0 j ≡ true = ap (lib.contains r.0) e ∙ now_contained s i r h in
      rw (before, after) (omega (arith, unvisited-le is s i r h))
  unvisited-lt (j ∷ is) s i r h new (inr m) = omega (
    arith,
    unvisited-lt is s i r h new m,
    one_count (lib.contains s j) (lib.contains r.0 j) (keeps_contained s i j r h),
  )

module _ (env : Environment) (filter : Option Filter) (options : DiscoveryOptions)
    (inodes : List (ℕ × ℕ)) (IsInput : List ℕ → Type 0) where
  -- The path was made from a directory and a name that is not left out.
  abbrev pub FromDirectory : List ℕ → Type 0
  FromDirectory path =
      (directory : List ℕ) × (name : List ℕ) × (env.join directory name ≡ some path)
      × (accepts_file env.fnmatch filter name ≡ true)
      × ((options.include_hidden ≡ true) ⊎ (is_hidden_name name ≡ false))

  -- The entry is a regular file, not below the minimum size, with the status that the kernel gives.
  pub record IsFound (e : Entry) : Type 0 where
    pub file_status : FileStatus
    pub answered : env.status options.follow_symlinks e.absolute_path ≡ StatAnswer.found file_status
    pub kind_regular : file_status.kind ≡ FileKind.regular
    pub made : e ≡ new_entry e.absolute_path file_status
    pub large : options.minimum_file_size ≤ file_status.size
    pub origin : FromDirectory e.absolute_path ⊎ IsInput e.absolute_path

  pub record Step (st st' : WalkState env) : Type 0 where
    pub more : List Entry
    pub entries_added : st'.entries ≡ st.entries ++ more
    pub all_found : All IsFound more
    pub fewer :
        unvisited env.inodes inodes st'.visited_directories
        ≤ unvisited env.inodes inodes st.visited_directories

  pub Step-trans : {st st1 st2 : WalkState env} → Step st st1 → Step st1 st2 → Step st st2
  Step-trans {st} a b = record {
    more = a.more ++ b.more;
    entries_added =
        b.entries_added
        ∙ ap (λ l. l ++ b.more) a.entries_added
        ∙ append_assoc st.entries a.more b.more;
    all_found = All-append IsFound a.more b.more a.all_found b.all_found;
    fewer = omega (arith, a.fewer, b.fewer);
  }

  -- A state with the same entries, and as many inodes to visit or fewer.
  pub Step-same :
      (st st' : WalkState env)
      → st'.entries ≡ st.entries
      → unvisited env.inodes inodes st'.visited_directories
        ≤ unvisited env.inodes inodes st.visited_directories
      → Step st st'
  Step-same st st' e h = record {
    more = [];
    entries_added = e ∙ sym (append-nil st.entries);
    all_found = tt;
    fewer = h;
  }

  pub Step-refl : (st : WalkState env) → Step st st
  Step-refl st = Step-same st st refl (omega arith)

  pub Step-log :
      (st : WalkState env) (path stage : List ℕ) (e : ℕ) → Step st (log env st path stage e)
  Step-log st path stage e = Step-same st (log env st path stage e) refl (omega arith)

  pub Step-poll : (st : WalkState env) → Step st (record st { polls = suc st.polls })
  Step-poll st = Step-same st (record st { polls = suc st.polls }) refl (omega arith)

  pub Step-append_entry :
      (st : WalkState env) (path : List ℕ) (s : FileStatus)
      → env.status options.follow_symlinks path ≡ StatAnswer.found s
      → s.kind ≡ FileKind.regular
      → FromDirectory path ⊎ IsInput path
      → Step st (append_entry env filter options st path s).0
  unfolding append_entry
  Step-append_entry st path s answered regular origin =
      elim (Bool-cases (ltb s.size options.minimum_file_size)) [
        | inl small ↦ rw small (Step-refl st)
        | inr large ↦ rw large (elim (Bool-cases (env.grant (length path + 1))) [
          | inr refused ↦ rw refused (Step-log st path _ _)
          | inl granted ↦ rw granted (elim (Bool-cases (env.has_room (length st.entries))) [
            | inr full ↦ rw full (Step-log st path _ _)
            | inl room ↦ rw room (
                let new : IsFound (new_entry path s) = record {
                  file_status = s;
                  answered = answered;
                  kind_regular = regular;
                  made = refl;
                  large = ground (arith, large);
                  origin = origin;
                } in
                record {
                  more = new_entry path s ∷ [];
                  entries_added = refl;
                  all_found = (new, tt);
                  fewer = omega arith;
                })
          ])
        ])
      ]
