-- ===== src/Discovery/Serial.antt =====
-- src/discovery/bc_duplicate_discovery_walk.c: the walk on one thread. Directories are nested as deep
-- as the file system has them, so the walk takes fuel: `none` is a walk that has used it up. The
-- results of calls that the C code does not look at are left out.
pub mod Step
pub mod Ends
pub mod Inputs
pub mod Correct
use mathlib.Core.List.{reverse}
use bc_duplicate.Prelude.{
  ℕ, zero, suc, ◌+◌, ◌≡◌, Bool, true, false, not, ◌&&◌, ◌||◌, List, [], ◌∷◌, ◌++◌, Option, none,
  some, length, ltb, ◌==◌, if◌then◌else◌,
}
use bc_duplicate.Types.{Entry}
use bc_duplicate.Text.{codes, strings_equal}
use bc_duplicate.Core.{CoreLibrary}
use bc_duplicate.Filter.{Filter, accepts_file, accepts_directory}
use bc_duplicate.Glob.{contains_metacharacter}
use bc_duplicate.Worker.Reader.{OpenAnswer}
use bc_duplicate.Chain.{◌>>=◌}
use bc_duplicate.Discovery.{
  enoent, enomem, einval, enametoolong, eloop, dot, DiscoveryOptions, FileKind, FileStatus,
  StatAnswer, Listing, InodeLibrary, Environment, WalkError, new_entry, inode, is_pseudo,
  drop_slashes,
}

-- bc_duplicate_walk_state_t: `polls` counts the questions for the signal to stop, and the root
-- device is `none` until it is known.
pub record WalkState (env : Environment) : Type 0 where
  pub entries : List Entry
  pub errors : List WalkError
  pub visited_directories : env.inodes.InodeSet
  pub polls : ℕ
  pub root_device_id : Option ℕ

abbrev pub is_dot_name : List ℕ → Bool
is_dot_name [] = false
is_dot_name (c ∷ []) = c == dot
is_dot_name (c ∷ d ∷ []) = c == dot && d == dot
is_dot_name (c ∷ d ∷ e ∷ cs) = false

abbrev pub is_hidden_name : List ℕ → Bool
is_hidden_name [] = false
is_hidden_name (c ∷ cs) = c == dot

module _ (env : Environment) where
  abbrev pub log : WalkState env → (path stage : List ℕ) → ℕ → WalkState env
  log st path stage errno = record st {
    errors = st.errors ++ record { path = path; stage = stage; errno_value = errno } ∷ [];
  }

  module _ (filter : Option Filter) (options : DiscoveryOptions) where
    unfoldable pub append_entry :
        WalkState env → (path : List ℕ) → FileStatus → WalkState env × Bool
    append_entry st path s =
        if ltb s.size options.minimum_file_size
        then (st, true)
        else if env.grant (length path + 1)
        then (if env.has_room (length st.entries)
            then (record st { entries = st.entries ++ new_entry path s ∷ [] }, true)
            else (log st path (codes "enqueue") enomem, false))
        else (log st path (codes "allocate") enomem, false)

    -- `options->one_file_system && state->root_device_id_known && st_dev != root_device_id`
    abbrev pub crosses : Option ℕ → FileStatus → Bool
    crosses none s = false
    crosses (some root) s = options.one_file_system && not (s.device_id == root)

    -- A walk of a directory: the path that an error names, and the one that children are joined to.
    module _
        (walk : (shown directory : List ℕ) → WalkState env → Option (WalkState env × Bool)) where
      unfoldable pub open_child : (path : List ℕ) → WalkState env → Option (WalkState env × Bool)
      open_child path st =
          if is_pseudo env path
          then some (st, true)
          else elim (env.open_directory options.follow_symlinks path) [
            | OpenAnswer.not_opened e ↦ some (log st path (codes "open") e, false)
            | OpenAnswer.opened ↦ walk path path st
          ]

      unfoldable pub visit_child :
          (path : List ℕ) → FileStatus → WalkState env → Option (WalkState env × Bool)
      visit_child path s st =
          if crosses st.root_device_id s
          then some (st, true)
          else elim (env.inodes.insert st.visited_directories (inode s)) [
            | none ↦ some (log st path (codes "dedup") enomem, false)
            | some (visited, was_already_present) ↦
                let st1 : WalkState env = record st { visited_directories = visited } in
                if was_already_present then some (st1, true) else open_child path st1
          ]

      unfoldable pub descend_child : (path : List ℕ) → WalkState env → Option (WalkState env × Bool)
      descend_child path st = elim (env.status options.follow_symlinks path) [
        | StatAnswer.not_found e ↦ some (log st path (codes "stat") e, false)
        | StatAnswer.found s ↦ visit_child path s st
      ]

      -- An entry whose status is known, by its kind.
      unfoldable pub handle_kind :
          FileKind → (name path : List ℕ) → FileStatus → WalkState env → Option (WalkState env)
      handle_kind FileKind.regular name path s st =
          if accepts_file env.fnmatch filter name then some (append_entry st path s).0 else some st
      handle_kind FileKind.directory name path s st =
          if accepts_directory env.fnmatch filter name
          then (descend_child path st >>= λ r. some r.0)
          else some st
      handle_kind FileKind.symbolic_link name path s st = some st
      handle_kind FileKind.other name path s st = some st

      unfoldable pub handle_status :
          (name path : List ℕ) → StatAnswer → WalkState env → Option (WalkState env)
      handle_status name path (StatAnswer.not_found e) st = some (log st path (codes "stat") e)
      handle_status name path (StatAnswer.found s) st = handle_kind s.kind name path s st

      unfoldable pub handle_entry :
          (shown directory name : List ℕ) → WalkState env → Option (WalkState env)
      handle_entry shown directory name st =
          if not options.include_hidden && is_hidden_name name
          then some st
          else elim (env.join directory name) [
            | none ↦ some (log st shown (codes "path-too-long") enametoolong)
            | some path ↦ handle_status name path (env.status options.follow_symlinks path) st
          ]

      -- The loop over `readdir`; the errno behind it counts if the loop was not left by the signal.
      unfoldable pub walk_names :
          (shown directory : List ℕ)
          → List (List ℕ)
          → (end_errno : ℕ) → WalkState env
          → Option (WalkState env)
      walk_names shown directory [] end_errno st =
          if end_errno == 0 then some st else some (log st shown (codes "readdir") end_errno)
      walk_names shown directory (name ∷ names) end_errno st =
          let st1 : WalkState env = record st { polls = suc st.polls } in
          elim (env.stops st.polls) [
            | true ↦ some st1
            | false ↦
                (if is_dot_name name then some st1 else handle_entry shown directory name st1)
                >>= walk_names shown directory names end_errno
          ]

    unfoldable pub walk_directory :
        (fuel : ℕ) → (shown directory : List ℕ) → WalkState env → Option (WalkState env × Bool)
    walk_directory zero shown directory st = none
    walk_directory (suc fuel) shown directory st = elim (env.duplicate shown) [
      | OpenAnswer.not_opened e ↦ some (log st shown (codes "dup") e, false)
      | OpenAnswer.opened ↦ elim (env.open_stream shown) [
        | OpenAnswer.not_opened e ↦ some (log st shown (codes "fdopendir") e, false)
        | OpenAnswer.opened ↦
            walk_names (walk_directory fuel) shown directory (env.listing shown).names
              (env.listing shown).end_errno st
            >>= λ st1. some (st1, true)
      ]
    ]

    -- The path without the slashes at its end; the first character stays.
    abbrev pub trimmed : List ℕ → List ℕ
    trimmed path = reverse (drop_slashes (reverse path))

    module _ (fuel : ℕ) where
      unfoldable pub open_input : (path : List ℕ) → WalkState env → Option (WalkState env × Bool)
      open_input path st = elim (env.open_directory options.follow_symlinks path) [
        | OpenAnswer.not_opened e ↦ some (log st path (codes "open") e, false)
        | OpenAnswer.opened ↦ walk_directory fuel path (trimmed path) st
      ]

      abbrev pub known_root : Option ℕ → FileStatus → Option ℕ
      known_root none s = some s.device_id
      known_root (some root) s = some root

      unfoldable pub visit_input :
          (path : List ℕ) → FileStatus → WalkState env → Option (WalkState env × Bool)
      visit_input path s st =
          if is_pseudo env path
          then some (st, true)
          else (let st1 : WalkState env = record st {
            root_device_id = known_root st.root_device_id s;
          } in
              elim (env.inodes.insert st1.visited_directories (inode s)) [
                | none ↦ some (log st1 path (codes "dedup") enomem, false)
                | some (visited, was_already_present) ↦
                    let st2 : WalkState env = record st1 { visited_directories = visited } in
                    if was_already_present then some (st2, true) else open_input path st2
              ])

      unfoldable pub process_kind :
          FileKind → (path : List ℕ) → FileStatus → WalkState env → Option (WalkState env × Bool)
      process_kind FileKind.symbolic_link path s st =
          some (log st path (codes "skip-symlink") eloop, false)
      process_kind FileKind.regular path s st = some (append_entry st path s)
      process_kind FileKind.directory path s st = visit_input path s st
      process_kind FileKind.other path s st = some (log st path (codes "skip-other") einval, false)

      unfoldable pub process_input_path :
          (path : List ℕ) → WalkState env → Option (WalkState env × Bool)
      process_input_path path st = elim (env.status options.follow_symlinks path) [
        | StatAnswer.not_found e ↦ some (log st path (codes "stat") e, false)
        | StatAnswer.found s ↦ process_kind s.kind path s st
      ]

      module _ (core : CoreLibrary) where
        -- The matches of a pattern; `alone` tells whether there is only one.
        unfoldable pub process_matches :
            (pattern : List ℕ) (alone : Bool)
            → List (List ℕ)
            → WalkState env
            → (any_match : Bool) → Option (WalkState env × Bool)
        process_matches pattern alone [] st any_match = some (st, any_match)
        process_matches pattern alone (path ∷ paths) st any_match =
            elim (strings_equal core path pattern
              && (contains_metacharacter false pattern && alone)) [
                | true ↦ some (log st pattern (codes "glob-no-match") enoent, any_match)
                | false ↦
                    process_input_path path st >>= λ r. process_matches pattern alone paths r.0 true
              ]

        unfoldable pub expand_glob :
            (pattern : List ℕ) → WalkState env → Option (WalkState env × Bool)
        expand_glob pattern st = elim (env.glob pattern) [
          | none ↦ some (log st pattern (codes "glob") einval, false)
          | some paths ↦ process_matches pattern (length paths == 1) paths st false
        ]

        unfoldable pub expand_inputs : List (List ℕ) → WalkState env → Option (WalkState env)
        expand_inputs [] st = some st
        expand_inputs (path ∷ paths) st =
            let st1 : WalkState env = record st { polls = suc st.polls } in
            elim (env.stops st.polls) [
              | true ↦ some st1
              | false ↦
                  (if contains_metacharacter false path
                    then expand_glob path st1
                    else process_input_path path st1)
                  >>= λ r. expand_inputs paths r.0
            ]

        -- The entries and the errors found, and whether the set of inodes could be made.
        unfoldable pub expand :
            List Entry
            → List WalkError
            → List (List ℕ)
            → Option ((List Entry × List WalkError) × Bool)
        expand entries errors input_paths = elim env.inodes.create [
          | none ↦ some ((entries, errors), false)
          | some visited ↦
              let start : WalkState env = record {
                entries = entries;
                errors = errors;
                visited_directories = visited;
                polls = 0;
                root_device_id = none;
              } in
              expand_inputs input_paths start >>= λ st. some ((st.entries, st.errors), true)
        ]
