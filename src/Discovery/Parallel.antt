-- ===== src/Discovery/Parallel.antt =====
-- src/discovery/bc_duplicate_discovery_walk_parallel.c: the discovery on many threads. The walk of a
-- directory is a call of the bc-io library, which asks the filter for each entry and hands the files
-- to `visit`, each on some worker; the calls come as a list, in any order of the workers.
pub mod Wanted
pub mod Correct
use bc_duplicate.Prelude.{
  ℕ, zero, suc, ◌+◌, ◌≤◌, ◌≡◌, Bool, true, false, not, ◌&&◌, List, [], ◌∷◌, ◌++◌, Option, none,
  some, length, get_elem?, set, ltb, leb, ◌==◌, if◌then◌else◌, All,
}
use bc_duplicate.Types.{Entry}
use bc_duplicate.Text.{codes}
use bc_duplicate.Filter.{Filter, accepts_file, accepts_directory}
use bc_duplicate.Glob.{contains_metacharacter}
use bc_duplicate.Worker.Ring.Batch.{replicate}
use bc_duplicate.Discovery.{
  enomem, einval, enametoolong, eloop, slash, DiscoveryOptions, FileKind, FileStatus, StatAnswer,
  Environment, WalkError, new_entry, is_pseudo,
}
use bc_duplicate.Discovery.Serial.{crosses, trimmed, known_root}

-- bc_io_walk_entry_t
pub record WalkEntry : Type 0 where
  pub absolute_path : List ℕ
  pub status : FileStatus

-- A call of `visit` or of `on_error`, and the worker that makes it.
pub data WalkEvent : Type 0 where
  visits : (worker : ℕ) → WalkEntry → WalkEvent
  fails : (worker : ℕ) → WalkError → WalkEvent

abbrev pub IsAccepted : (WalkEntry → Bool) → WalkEvent → Type 0
IsAccepted filter (WalkEvent.visits worker entry) = filter entry ≡ true
IsAccepted filter (WalkEvent.fails worker error) = Unit

-- bc-io and the worker slots of bc-concurrency. What is visited was accepted by the filter.
pub record WalkLibrary : Type 0 where
  pub worker_count : ℕ
  pub max_path_length : ℕ
  pub registers : Bool
  -- Whether the slot of a worker can be had, its pool grants a request, and its vector takes one more.
  pub has_slot : (worker : ℕ) → Bool
  pub worker_grant : (worker size : ℕ) → Bool
  pub worker_room : (worker entry_count : ℕ) → Bool
  pub walk : (root : List ℕ) → (filter : WalkEntry → Bool) → List WalkEvent
  pub visits_accepted :
      (root : List ℕ) (filter : WalkEntry → Bool) → All (IsAccepted filter) (walk root filter)

-- What stands behind the last slash, if there is one.
unfoldable pub behind_slash : List ℕ → Option (List ℕ)
behind_slash [] = none
behind_slash (c ∷ cs) = elim (behind_slash cs) [
  | some name ↦ some name
  | none ↦ if c == slash then some cs else none
]

unfoldable pub walk_basename : List ℕ → List ℕ
walk_basename path = elim (behind_slash path) [ none ↦ path | some name ↦ name ]

-- `slots` holds the entries of each worker, `worker_errors` what the workers have collected.
pub record ParallelState : Type 0 where
  pub entries : List Entry
  pub errors : List WalkError
  pub slots : List (List Entry)
  pub worker_errors : List WalkError
  pub root_device_id : Option ℕ

abbrev pub note : ParallelState → (path stage : List ℕ) → ℕ → ParallelState
note st path stage errno = record st {
  errors = st.errors ++ record { path = path; stage = stage; errno_value = errno } ∷ [];
}

module _ (env : Environment) (lib : WalkLibrary) (filter : Option Filter)
    (options : DiscoveryOptions) where
  unfoldable pub filter_kind : FileKind → (root_device_id : Option ℕ) → WalkEntry → Bool
  filter_kind FileKind.regular root entry =
      if accepts_file env.fnmatch filter (walk_basename entry.absolute_path)
      then not (ltb entry.status.size options.minimum_file_size)
      else false
  filter_kind FileKind.directory root entry =
      if accepts_directory env.fnmatch filter (walk_basename entry.absolute_path)
      then (if is_pseudo env entry.absolute_path
          then false
          else not (crosses env filter options root entry.status))
      else false
  filter_kind FileKind.symbolic_link root entry = false
  filter_kind FileKind.other root entry = false

  unfoldable pub walk_filter : (root_device_id : Option ℕ) → WalkEntry → Bool
  walk_filter root entry = filter_kind entry.status.kind root entry

  abbrev pub pushed :
      (worker : ℕ) → WalkEntry → List (List Entry) → Option (List Entry) → List (List Entry)
  pushed worker entry slots none = slots
  pushed worker entry slots (some l) =
      if lib.worker_room worker (length l)
      then set slots worker (l ++ new_entry entry.absolute_path entry.status ∷ [])
      else slots

  unfoldable pub visit_file : (worker : ℕ) → WalkEntry → List (List Entry) → List (List Entry)
  visit_file worker entry slots =
      if lib.has_slot worker
      then (if lib.worker_grant worker (length entry.absolute_path + 1)
          then pushed worker entry slots (get_elem? slots worker)
          else slots)
      else slots

  unfoldable pub walk_visit :
      FileKind → (worker : ℕ) → WalkEntry → List (List Entry) → List (List Entry)
  walk_visit FileKind.regular worker entry slots = visit_file worker entry slots
  walk_visit FileKind.directory worker entry slots = slots
  walk_visit FileKind.symbolic_link worker entry slots = slots
  walk_visit FileKind.other worker entry slots = slots

  unfoldable pub walk_event : WalkEvent → ParallelState → ParallelState
  walk_event (WalkEvent.visits worker entry) st = record st {
    slots = walk_visit entry.status.kind worker entry st.slots;
  }
  walk_event (WalkEvent.fails worker error) st =
      if lib.has_slot worker
      then record st { worker_errors = st.worker_errors ++ error ∷ [] }
      else st

  unfoldable pub walk_events : List WalkEvent → ParallelState → ParallelState
  walk_events [] st = st
  walk_events (event ∷ events) st = walk_events events (walk_event event st)

  unfoldable pub append_root_file : (path : List ℕ) → FileStatus → ParallelState → ParallelState
  append_root_file path s st =
      if ltb s.size options.minimum_file_size
      then st
      else if env.grant (length path + 1)
      then (if env.has_room (length st.entries)
          then record st { entries = st.entries ++ new_entry path s ∷ [] }
          else note st path (codes "enqueue") enomem)
      else note st path (codes "allocate") enomem

  unfoldable pub run_on_directory : (path : List ℕ) → ParallelState → ParallelState
  run_on_directory path st =
      let root = trimmed env filter options path in
      if leb lib.max_path_length (length root)
      then note st path (codes "path-too-long") enametoolong
      else walk_events (lib.walk root (walk_filter st.root_device_id)) st

  unfoldable pub root_kind : FileKind → (path : List ℕ) → FileStatus → ParallelState → ParallelState
  root_kind FileKind.regular path s st = append_root_file path s st
  root_kind FileKind.directory path s st =
      if is_pseudo env path
      then st
      else run_on_directory path
          (record st { root_device_id = known_root env filter options 0 st.root_device_id s })
  root_kind FileKind.symbolic_link path s st = note st path (codes "skip-symlink") eloop
  root_kind FileKind.other path s st = note st path (codes "skip-other") einval

  unfoldable pub process_root : (path : List ℕ) → ParallelState → ParallelState
  process_root path st = elim (env.status options.follow_symlinks path) [
    | StatAnswer.not_found e ↦ note st path (codes "stat") e
    | StatAnswer.found s ↦ root_kind s.kind path s st
  ]

  unfoldable pub process_roots : List (List ℕ) → ParallelState → ParallelState
  process_roots [] st = st
  process_roots (path ∷ paths) st = process_roots paths (process_root path st)

  unfoldable pub expand_pattern : (pattern : List ℕ) → ParallelState → ParallelState
  expand_pattern pattern st = elim (env.glob pattern) [
    | none ↦ note st pattern (codes "glob") einval
    | some paths ↦ process_roots paths st
  ]

  unfoldable pub expand_roots : List (List ℕ) → ParallelState → ParallelState
  expand_roots [] st = st
  expand_roots (path ∷ paths) st =
      expand_roots paths
        (if contains_metacharacter false path then expand_pattern path st else process_root path st)

  -- The entries of one worker, and of all, behind those in front; `false` if there was no room.
  unfoldable pub merge_worker_slot : List Entry → List Entry → List Entry × Bool
  merge_worker_slot [] entries = (entries, true)
  merge_worker_slot (e ∷ es) entries =
      let rest = merge_worker_slot es (entries ++ e ∷ []) in
      if env.has_room (length entries) then rest else (entries, false)

  unfoldable pub merge_slots : List (List Entry) → List Entry × Bool → List Entry × Bool
  merge_slots [] r = r
  merge_slots (slot ∷ slots) (entries, ok) =
      merge_slots slots (if ok then merge_worker_slot slot entries else (entries, false))

  unfoldable pub expand_parallel :
      List Entry → List WalkError → List (List ℕ) → (List Entry × List WalkError) × Bool
  expand_parallel entries errors input_paths =
      if lib.registers
      then (let st = expand_roots input_paths (record {
        entries = entries;
        errors = errors;
        slots = replicate lib.worker_count [];
        worker_errors = [];
        root_device_id = none;
      }) in
          let merged = merge_slots st.slots (st.entries, true) in ((merged.0, st.errors), merged.1))
      else ((entries, errors), false)
