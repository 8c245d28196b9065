-- ===== src/Discovery/Serial/Inputs.antt =====
-- The serial walk of all the paths that are given.
use bc_duplicate.Prelude.{
  ℕ, suc, ◌<◌, ◌≡◌, refl, ap, ◌∙◌, Bool, true, false, ◌&&◌, Bool-cases, Option-cases, inl, inr,
  List, [], ◌∷◌, Option, some, arith, length, ◌==◌, if◌then◌else◌, All, Some,
}
use bc_duplicate.Text.{strings_equal}
use bc_duplicate.Core.{CoreLibrary}
use bc_duplicate.Filter.{Filter}
use bc_duplicate.Glob.{contains_metacharacter}
use bc_duplicate.Chain.{◌>>=◌}
use bc_duplicate.Discovery.{
  DiscoveryOptions, FileKind, FileStatus, StatAnswer, Environment, inode, is_pseudo,
}
use bc_duplicate.Discovery.Serial.{
  WalkState, trimmed, open_input, visit_input, known_root, process_kind, process_input_path,
  process_matches, expand_glob, expand_inputs,
}
use bc_duplicate.Discovery.Serial.Step.{
  unvisited, unvisited-le, Step-trans, Step-same, Step-refl, Step-log, Step-poll, Step-append_entry,
}
use bc_duplicate.Discovery.Serial.Ends.{StatAnswer-cases, Ends, EndsAlone, walk_directory-Ends}
use bc_duplicate.Worker.Reader.{OpenAnswer-cases}

module _ (env : Environment) (filter : Option Filter) (options : DiscoveryOptions)
    (inodes : List (ℕ × ℕ)) (IsInput : List ℕ → Type 0)
    (finite : (path : List ℕ) (s : FileStatus)
      → env.status options.follow_symlinks path ≡ StatAnswer.found s
      → Some (λ j. j ≡ inode s) inodes)
    (fuel : ℕ) where
  abbrev IsEnding : Option (WalkState env × Bool) → WalkState env → Type 0
  IsEnding = Ends env filter options inodes IsInput finite

  abbrev IsEndingAlone : Option (WalkState env) → WalkState env → Type 0
  IsEndingAlone = EndsAlone env filter options inodes IsInput finite

  abbrev IsFuelled : WalkState env → Type 0
  IsFuelled st = unvisited env.inodes inodes st.visited_directories < fuel

  IsEnding-open_input :
      (path : List ℕ) (st : WalkState env)
      → IsFuelled st
      → IsEnding (open_input env filter options fuel path st) st
  unfolding open_input
  IsEnding-open_input path st h =
      elim (OpenAnswer-cases (env.open_directory options.follow_symlinks path)) [
        | inl opened ↦
            rw (open_input, opened)
              (walk_directory-Ends env filter options inodes IsInput finite fuel path
                (trimmed env filter options path) st h)
        | inr (e, failed) ↦
            rw (open_input, failed)
              (_, refl, Step-log env filter options inodes IsInput st path _ e)
      ]

  IsEnding-visit_input :
      (path : List ℕ) (s : FileStatus) (st : WalkState env)
      → IsFuelled st
      → IsEnding (visit_input env filter options fuel path s st) st
  unfolding visit_input
  IsEnding-visit_input path s st h = elim (Bool-cases (is_pseudo env path)) [
    | inl pseudo ↦ rw pseudo (_, refl, Step-refl env filter options inodes IsInput st)
    | inr real ↦
        let st1 : WalkState env = record st {
          root_device_id = known_root env filter options fuel st.root_device_id s;
        } in
        rw real (elim (Option-cases (env.inodes.insert st.visited_directories (inode s))) [
          | inl e ↦ rw e (
            _,
            refl,
            Step-trans env filter options inodes IsInput
                (Step-same env filter options inodes IsInput st st1 refl (omega arith))
                (Step-log env filter options inodes IsInput st1 path _ _),
          )
          | inr ((visited, present), e) ↦
              let st2 : WalkState env = record st1 { visited_directories = visited } in
              let fewer =
                unvisited-le env.inodes inodes st.visited_directories (inode s) (visited, present)
                  e in
              let grown = Step-same env filter options inodes IsInput st st2 refl fewer in
              rw e (elim (Bool-cases present) [
                | inl old ↦ rw old (_, refl, grown)
                | inr new ↦ rw new (
                    let (r, ends, step) = IsEnding-open_input path st2 (omega (arith, fewer, h)) in
                    (r, ends, Step-trans env filter options inodes IsInput grown step))
              ])
        ])
  ]

  IsEnding-process_kind :
      (kind : FileKind) (path : List ℕ) (s : FileStatus) (st : WalkState env)
      → s.kind ≡ kind
      → env.status options.follow_symlinks path ≡ StatAnswer.found s
      → IsInput path
      → IsFuelled st
      → IsEnding (process_kind env filter options fuel kind path s st) st
  unfolding process_kind
  IsEnding-process_kind FileKind.symbolic_link path s st k answered given h =
      (_, refl, Step-log env filter options inodes IsInput st path _ _)
  IsEnding-process_kind FileKind.regular path s st k answered given h = (
    _,
    refl,
    Step-append_entry env filter options inodes IsInput st path s answered k (inr given),
  )
  IsEnding-process_kind FileKind.directory path s st k answered given h =
      IsEnding-visit_input path s st h
  IsEnding-process_kind FileKind.other path s st k answered given h =
      (_, refl, Step-log env filter options inodes IsInput st path _ _)

  IsEnding-process_input_path :
      (path : List ℕ) (st : WalkState env)
      → IsInput path
      → IsFuelled st
      → IsEnding (process_input_path env filter options fuel path st) st
  unfolding process_input_path
  IsEnding-process_input_path path st given h =
      elim (StatAnswer-cases (env.status options.follow_symlinks path)) [
        | inl (s, answered) ↦
            rw (process_input_path, answered)
              (IsEnding-process_kind s.kind path s st refl answered given h)
        | inr (e, failed) ↦
            rw (process_input_path, failed)
              (_, refl, Step-log env filter options inodes IsInput st path _ e)
      ]

  module _ (core : CoreLibrary) where
    IsEnding-process_matches :
        (pattern : List ℕ) (alone : Bool) (paths : List (List ℕ)) (st : WalkState env)
        (any_match : Bool)
        → All IsInput paths
        → IsFuelled st
        → IsEnding
            (process_matches env filter options fuel core pattern alone paths st any_match)
            st
    unfolding process_matches
    IsEnding-process_matches pattern alone [] st any_match given h =
        (_, refl, Step-refl env filter options inodes IsInput st)
    IsEnding-process_matches pattern alone (path ∷ paths) st any_match given h =
        elim (Bool-cases
          (strings_equal core path pattern && (contains_metacharacter false pattern && alone))) [
            | inl itself ↦
                rw (process_matches, itself)
                  (_, refl, Step-log env filter options inodes IsInput st pattern _ _)
            | inr real ↦
                rw (process_matches, real)
                  (let (r, ends, step) = IsEnding-process_input_path path st given.0 h in
                    let (r', ends', step') =
                      IsEnding-process_matches pattern alone paths r.0 true given.1
                        (omega (arith, step.fewer, h)) in
                    (
                      r',
                      ap
                            (λ m. m >>= λ r.
                              process_matches env filter options fuel core pattern alone paths r.0
                                true)
                            ends
                          ∙ ends',
                      Step-trans env filter options inodes IsInput step step',
                    ))
          ]

    -- The path itself, or every match of the pattern, is an input.
    abbrev pub IsAllowed : List ℕ → Type 0
    IsAllowed path =
        IsInput path × ((paths : List (List ℕ)) → env.glob path ≡ some paths → All IsInput paths)

    IsEnding-expand_glob :
        (pattern : List ℕ) (st : WalkState env)
        → IsAllowed pattern
        → IsFuelled st
        → IsEnding (expand_glob env filter options fuel core pattern st) st
    unfolding expand_glob
    IsEnding-expand_glob pattern st given h = elim (Option-cases (env.glob pattern)) [
      | inl failed ↦
          rw (expand_glob, failed)
            (_, refl, Step-log env filter options inodes IsInput st pattern _ _)
      | inr (paths, matched) ↦
          rw (expand_glob, matched)
            (IsEnding-process_matches pattern (length paths == 1) paths st false
              (given.1 paths matched) h)
    ]

    one_input :
        (path : List ℕ) (st : WalkState env)
        → IsAllowed path
        → IsFuelled st
        → IsEnding
            (if contains_metacharacter false path
              then expand_glob env filter options fuel core path st
              else process_input_path env filter options fuel path st)
            st
    one_input path st given h = elim (Bool-cases (contains_metacharacter false path)) [
      | inl pattern ↦ rw pattern (IsEnding-expand_glob path st given h)
      | inr plain ↦ rw plain (IsEnding-process_input_path path st given.0 h)
    ]

    pub IsEnding-expand_inputs :
        (input_paths : List (List ℕ)) (st : WalkState env)
        → All IsAllowed input_paths
        → IsFuelled st
        → IsEndingAlone (expand_inputs env filter options fuel core input_paths st) st
    unfolding expand_inputs
    IsEnding-expand_inputs [] st given h =
        (st, refl, Step-refl env filter options inodes IsInput st)
    IsEnding-expand_inputs (path ∷ paths) st given h =
        let st1 : WalkState env = record st { polls = suc st.polls } in
        let polled = Step-poll env filter options inodes IsInput st in
        elim (Bool-cases (env.stops st.polls)) [
          | inl stopped ↦ rw (expand_inputs, stopped) (st1, refl, polled)
          | inr going ↦
              rw (expand_inputs, going)
                (let (r, ends, step) = one_input path st1 given.0 h in
                  let (st3, ends', step') =
                    IsEnding-expand_inputs paths r.0 given.1 (omega (arith, step.fewer, h)) in
                  (
                    st3,
                    ap (λ m. m >>= λ r. expand_inputs env filter options fuel core paths r.0) ends
                        ∙ ends',
                    Step-trans env filter options inodes IsInput polled
                        (Step-trans env filter options inodes IsInput step step'),
                  ))
        ]
