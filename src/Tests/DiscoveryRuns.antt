-- ===== src/Tests/DiscoveryRuns.antt =====
-- The serial discovery on a file system of one directory with a file and a link back to it.
use bc_duplicate.Prelude.{
  ℕ, ◌≡◌, refl, sym, ap, Bool, true, false, ◌&&◌, ◌||◌, Bool-cases, inl, inr, List, [], ◌∷◌, ◌++◌,
  none, some, arith, length, ◌==◌, if◌then◌else◌, Some, All,
}
use mathlib.Core.Option.{some-injective}
use bc_duplicate.Types.{Entry}
use bc_duplicate.Text.{codes}
use bc_duplicate.Filter.{basename_matches_any, accepts_file, accepts_directory}
use bc_duplicate.Glob.{contains_metacharacter, path_is_pseudo_filesystem}
use bc_duplicate.Worker.Reader.{OpenAnswer}
use bc_duplicate.Discovery.{
  DiscoveryOptions, FileKind, FileStatus, StatAnswer, InodeLibrary, Environment, WalkError,
  new_entry, inode, is_pseudo, drop_slashes,
}
use bc_duplicate.Discovery.Serial.{
  WalkState, append_entry, open_child, visit_child, descend_child, handle_kind, handle_status,
  handle_entry, walk_names, walk_directory, open_input, visit_input, process_kind,
  process_input_path, process_matches, expand_glob, expand_inputs, expand,
}
use bc_duplicate.Discovery.Serial.Ends.{Ends, walk_directory-Ends}
use bc_duplicate.Discovery.Serial.Correct.{IsInput, FindsMore, expand-FindsMore}
use bc_duplicate.Discovery.Parallel.{
  WalkEntry, WalkEvent, WalkLibrary, IsAccepted, walk_basename, behind_slash, filter_kind,
  walk_filter, visit_file, walk_visit, walk_event, walk_events, append_root_file, run_on_directory,
  root_kind, process_root, process_roots, expand_pattern, expand_roots, merge_worker_slot,
  merge_slots, expand_parallel,
}
use bc_duplicate.Discovery.Parallel.Wanted.{IsWanted}
use bc_duplicate.Discovery.Parallel.Correct.{expand_parallel-IsWanted}
use bc_duplicate.Tests.PlainCore.{plain_core}

abbrev same_inode : ℕ × ℕ → ℕ × ℕ → Bool
same_inode i j = i.0 == j.0 && i.1 == j.1

abbrev list_contains : List (ℕ × ℕ) → ℕ × ℕ → Bool
list_contains [] j = false
list_contains (i ∷ is) j = list_contains is j || same_inode i j

abbrev inode_lists : InodeLibrary
inode_lists = record {
  InodeSet = List (ℕ × ℕ);
  create = some [];
  contains = list_contains;
  insert = λ s i. some (i ∷ s, list_contains s i);
  insert_tells = λ s i r h. sym (ap (λ p. p.1) (some-injective _ _ h));
  insert_adds = λ s i j r h. ap (λ p. list_contains p.0 j) (sym (some-injective _ _ h));
}

abbrev directory_status : FileStatus
directory_status = record { kind = FileKind.directory; device_id = 1; inode_number = 1; size = 0 }

abbrev file_status : FileStatus
file_status = record { kind = FileKind.regular; device_id = 1; inode_number = 2; size = 5 }

-- The directory is "d", its file "d/a" and the link to the directory "d/up".
abbrev small_status : List ℕ → StatAnswer
small_status path =
    if length path == 3 then StatAnswer.found file_status else StatAnswer.found directory_status

abbrev small_environment : Environment
small_environment = record {
  inodes = inode_lists;
  status = λ follow path. small_status path;
  open_directory = λ follow path. OpenAnswer.opened;
  duplicate = λ path. OpenAnswer.opened;
  open_stream = λ path. OpenAnswer.opened;
  listing = λ path. record {
    names = codes "." ∷ codes ".h" ∷ codes "a" ∷ codes "up" ∷ [];
    end_errno = 0;
  };
  statfs = λ path. none;
  glob = λ pattern. none;
  fnmatch = λ pattern name. false;
  join = λ directory name. some (directory ++ codes "/" ++ name);
  grant = λ size. true;
  has_room = λ count. true;
  stops = λ n. false;
}

abbrev small_options : DiscoveryOptions
small_options = record {
  include_hidden = false;
  follow_symlinks = true;
  one_file_system = false;
  minimum_file_size = 1;
}

abbrev small_inodes : List (ℕ × ℕ)
small_inodes = (1, 1) ∷ (1, 2) ∷ []

abbrev inputs : List (List ℕ)
inputs = codes "d" ∷ codes "d/up" ∷ []

finds_the_file :
    expand small_environment none small_options 3 plain_core [] [] inputs
    ≡ some ((new_entry (codes "d/a") file_status ∷ [], []), true)
unfolding expand expand_inputs expand_glob process_matches process_input_path process_kind
    visit_input open_input walk_directory walk_names handle_entry handle_status handle_kind
    descend_child visit_child open_child append_entry is_pseudo drop_slashes contains_metacharacter
    path_is_pseudo_filesystem accepts_file accepts_directory basename_matches_any
finds_the_file = refl

abbrev inode_of : StatAnswer → ℕ × ℕ
inode_of (StatAnswer.found s) = inode s
inode_of (StatAnswer.not_found e) = (0, 0)

small_finite :
    (path : List ℕ) (s : FileStatus)
    → small_status path ≡ StatAnswer.found s
    → Some (λ j. j ≡ inode s) small_inodes
small_finite path s h = elim (Bool-cases (length path == 3)) [
  | inl file ↦ inr (inl (ap inode_of (rw file at h)))
  | inr directory ↦ inl (ap inode_of (rw directory at h))
]

abbrev before : WalkState small_environment
before = record {
  entries = [];
  errors = [];
  visited_directories = (1, 1) ∷ [];
  polls = 0;
  root_device_id = some 1;
}

walk_directory-Ends_example :
    Ends small_environment none small_options small_inodes
      (λ path. Unit)
      small_finite
      (walk_directory small_environment none small_options 2 (codes "d") (codes "d") before)
      before
walk_directory-Ends_example =
    walk_directory-Ends small_environment none small_options small_inodes (λ path. Unit)
      small_finite 2 (codes "d") (codes "d") before (omega arith)

expand-FindsMore_example :
    (r : (List Entry × List WalkError) × Bool) × (expand small_environment none small_options 3
        plain_core [] [] inputs
      ≡ some r)
    × FindsMore small_environment none small_options inputs small_inodes small_finite 3 plain_core
        [] r.0.0
expand-FindsMore_example =
    expand-FindsMore small_environment none small_options inputs small_inodes small_finite 3
      plain_core [] [] (omega arith)

abbrev seen : WalkEntry
seen = record { absolute_path = codes "d/a"; status = file_status }

abbrev small_walk : (root : List ℕ) → (WalkEntry → Bool) → List WalkEvent
small_walk root filter = if filter seen then WalkEvent.visits 1 seen ∷ [] else []

small_walk-IsAccepted :
    (root : List ℕ) (filter : WalkEntry → Bool) → All (IsAccepted filter) (small_walk root filter)
small_walk-IsAccepted root filter = elim (Bool-cases (filter seen)) [
  | inl chosen ↦ rw chosen (chosen, tt)
  | inr left_out ↦ rw left_out tt
]

-- Two workers, of which the second finds the file.
abbrev two_workers : WalkLibrary
two_workers = record {
  worker_count = 2;
  max_path_length = 4096;
  registers = true;
  has_slot = λ worker. true;
  worker_grant = λ worker size. true;
  worker_room = λ worker count. true;
  walk = small_walk;
  visits_accepted = small_walk-IsAccepted;
}

finds_on_a_worker :
    expand_parallel small_environment two_workers none small_options [] [] inputs
    ≡ ((new_entry (codes "d/a") file_status ∷ new_entry (codes "d/a") file_status ∷ [], []), true)
unfolding expand_parallel expand_roots expand_pattern process_roots process_root root_kind
    run_on_directory append_root_file walk_events walk_event walk_visit visit_file walk_filter
    filter_kind merge_slots merge_worker_slot walk_basename behind_slash is_pseudo drop_slashes
    contains_metacharacter path_is_pseudo_filesystem accepts_file accepts_directory
    basename_matches_any
finds_on_a_worker = refl

expand_parallel-IsWanted_example :
    All
      (IsWanted small_environment two_workers none small_options
        (IsInput small_environment none small_options inputs))
      (expand_parallel small_environment two_workers none small_options [] [] inputs).0.0
expand_parallel-IsWanted_example =
    expand_parallel-IsWanted small_environment two_workers none small_options inputs [] [] tt
