-- ===== src/Discovery/Parallel/Correct.antt =====
-- What the parallel discovery finds, however the files are spread over the workers.
use bc_duplicate.Prelude.{
  ℕ, zero, suc, ◌≡◌, refl, Bool, true, false, Bool-cases, Option-cases, inl, inr, List, [], ◌∷◌,
  ◌++◌, Option, some, length, leb, if◌then◌else◌, All, All-append,
}
use bc_duplicate.Types.{Entry}
use bc_duplicate.Filter.{Filter}
use bc_duplicate.Glob.{contains_metacharacter}
use bc_duplicate.Worker.Ring.Batch.{replicate}
use bc_duplicate.Discovery.{
  DiscoveryOptions, FileKind, FileStatus, StatAnswer, Environment, WalkError, is_pseudo,
}
use bc_duplicate.Discovery.Serial.Correct.{IsInput, inputs-IsGiven}
use bc_duplicate.Discovery.Serial.{trimmed, known_root}
use bc_duplicate.Discovery.Serial.Ends.{StatAnswer-cases}
use bc_duplicate.Discovery.Parallel.{
  WalkLibrary, ParallelState, walk_filter, run_on_directory, root_kind, process_root, process_roots,
  expand_pattern, expand_roots, merge_worker_slot, merge_slots, expand_parallel,
}
use bc_duplicate.Discovery.Parallel.Wanted.{
  IsWanted, IsSound, walk_events-IsSound, note-IsSound, append_root_file-IsSound,
}

module _ {A : Type 0} (P : A → Type 0) where
  All-replicate : (n : ℕ) (x : A) → P x → All P (replicate n x)
  All-replicate zero x p = tt
  All-replicate (suc n) x p = (p, All-replicate n x p)

chosen : {A : Type 0} (P : A → Type 0) (b : Bool) (x y : A) → P x → P y → P (if b then x else y)
chosen P true x y p q = p
chosen P false x y p q = q

module _ (env : Environment) (lib : WalkLibrary) (filter : Option Filter)
    (options : DiscoveryOptions) (IsGiven : List ℕ → Type 0) where
  root_kind-IsSound :
      (kind : FileKind) (path : List ℕ) (s : FileStatus) (st : ParallelState)
      → env.status options.follow_symlinks path ≡ StatAnswer.found s
      → s.kind ≡ kind
      → IsGiven path
      → (IsSound env lib filter options IsGiven) st
      → (IsSound env lib filter options IsGiven) (root_kind env lib filter options kind path s st)
  unfolding root_kind run_on_directory
  root_kind-IsSound FileKind.regular path s st answered k given h =
      append_root_file-IsSound env lib filter options IsGiven path s st answered k given h
  root_kind-IsSound FileKind.directory path s st answered k given h =
      elim (Bool-cases (is_pseudo env path)) [
        | inl pseudo ↦ rw pseudo h
        | inr real ↦
            let root = known_root env filter options 0 st.root_device_id s in
            let st1 : ParallelState = record st { root_device_id = root } in
            let h1 : (IsSound env lib filter options IsGiven) st1 = record {
              own_wanted = h.own_wanted;
              slots_wanted = h.slots_wanted;
            } in
            let start = trimmed env filter options path in
            rw real (elim (Bool-cases (leb lib.max_path_length (length start))) [
              | inl long ↦ rw long (note-IsSound env lib filter options IsGiven st1 path _ _ h1)
              | inr short ↦ rw short (
                  walk_events-IsSound env lib filter options IsGiven root
                    (lib.walk start (walk_filter env lib filter options root)) st1
                    (lib.visits_accepted start (walk_filter env lib filter options root)) h1)
            ])
      ]
  root_kind-IsSound FileKind.symbolic_link path s st answered k given h =
      note-IsSound env lib filter options IsGiven st path _ _ h
  root_kind-IsSound FileKind.other path s st answered k given h =
      note-IsSound env lib filter options IsGiven st path _ _ h

  process_root-IsSound :
      (path : List ℕ) (st : ParallelState)
      → IsGiven path
      → (IsSound env lib filter options IsGiven) st
      → (IsSound env lib filter options IsGiven) (process_root env lib filter options path st)
  unfolding process_root
  process_root-IsSound path st given h =
      elim (StatAnswer-cases (env.status options.follow_symlinks path)) [
        | inl (s, answered) ↦
            rw (process_root, answered) (root_kind-IsSound s.kind path s st answered refl given h)
        | inr (e, failed) ↦
            rw (process_root, failed) (note-IsSound env lib filter options IsGiven st path _ e h)
      ]

  process_roots-IsSound :
      (paths : List (List ℕ)) (st : ParallelState)
      → All IsGiven paths
      → (IsSound env lib filter options IsGiven) st
      → (IsSound env lib filter options IsGiven) (process_roots env lib filter options paths st)
  unfolding process_roots
  process_roots-IsSound [] st given h = h
  process_roots-IsSound (path ∷ paths) st given h =
      process_roots-IsSound paths _ given.1 (process_root-IsSound path st given.0 h)

  abbrev IsAllowed : List ℕ → Type 0
  IsAllowed given =
      IsGiven given × ((paths : List (List ℕ)) → env.glob given ≡ some paths → All IsGiven paths)

  expand_pattern-IsSound :
      (pattern : List ℕ) (st : ParallelState)
      → IsAllowed pattern
      → (IsSound env lib filter options IsGiven) st
      → (IsSound env lib filter options IsGiven) (expand_pattern env lib filter options pattern st)
  unfolding expand_pattern
  expand_pattern-IsSound pattern st given h = elim (Option-cases (env.glob pattern)) [
    | inl failed ↦
        rw (expand_pattern, failed) (note-IsSound env lib filter options IsGiven st pattern _ _ h)
    | inr (paths, matched) ↦
        rw (expand_pattern, matched) (process_roots-IsSound paths st (given.1 paths matched) h)
  ]

  one_root-IsSound :
      (path : List ℕ) (st : ParallelState) (is_pattern : Bool)
      → IsAllowed path
      → (IsSound env lib filter options IsGiven) st
      → (IsSound env lib filter options IsGiven) (
          if is_pattern
          then expand_pattern env lib filter options path st
          else process_root env lib filter options path st)
  one_root-IsSound path st true given h = expand_pattern-IsSound path st given h
  one_root-IsSound path st false given h = process_root-IsSound path st given.0 h

  expand_roots-IsSound :
      (paths : List (List ℕ)) (st : ParallelState)
      → All IsAllowed paths
      → (IsSound env lib filter options IsGiven) st
      → (IsSound env lib filter options IsGiven) (expand_roots env lib filter options paths st)
  unfolding expand_roots
  expand_roots-IsSound [] st given h = h
  expand_roots-IsSound (path ∷ paths) st given h =
      expand_roots-IsSound paths _ given.1
        (one_root-IsSound path st (contains_metacharacter false path) given.0 h)

  merge_worker_slot-IsWanted :
      (slot entries : List Entry)
      → All (IsWanted env lib filter options IsGiven) slot
      → All (IsWanted env lib filter options IsGiven) entries
      → All
          (IsWanted env lib filter options IsGiven)
          (merge_worker_slot env lib filter options slot entries).0
  unfolding merge_worker_slot
  merge_worker_slot-IsWanted [] entries h k = k
  merge_worker_slot-IsWanted (e ∷ slot) entries h k =
      elim (Bool-cases (env.has_room (length entries))) [
        | inl room ↦
            rw (merge_worker_slot, room)
              (merge_worker_slot-IsWanted slot (entries ++ e ∷ []) h.1
                (All-append (IsWanted env lib filter options IsGiven) entries _ k (h.0, tt)))
        | inr full ↦ rw (merge_worker_slot, full) k
      ]

  merge_slots-IsWanted :
      (slots : List (List Entry)) (entries : List Entry) (ok : Bool)
      → All (All (IsWanted env lib filter options IsGiven)) slots
      → All (IsWanted env lib filter options IsGiven) entries
      → All
          (IsWanted env lib filter options IsGiven)
          (merge_slots env lib filter options slots (entries, ok)).0
  unfolding merge_slots
  merge_slots-IsWanted [] entries ok h k = k
  merge_slots-IsWanted (slot ∷ slots) entries true h k =
      let r = merge_worker_slot env lib filter options slot entries in
      merge_slots-IsWanted slots r.0 r.1 h.1 (merge_worker_slot-IsWanted slot entries h.0 k)
  merge_slots-IsWanted (slot ∷ slots) entries false h k =
      merge_slots-IsWanted slots entries false h.1 k

module _ (env : Environment) (lib : WalkLibrary) (filter : Option Filter)
    (options : DiscoveryOptions) (input_paths : List (List ℕ)) where
  abbrev IsWantedInput : Entry → Type 0
  IsWantedInput = IsWanted env lib filter options (IsInput env filter options input_paths)

  expand_roots-IsWanted :
      (st : ParallelState)
      → IsSound env lib filter options (IsInput env filter options input_paths) st
      → All IsWantedInput
          (merge_slots env lib filter options
            (expand_roots env lib filter options input_paths st).slots
            ((expand_roots env lib filter options input_paths st).entries, true)).0
  expand_roots-IsWanted st h =
      let given = IsInput env filter options input_paths in
      let sound =
        expand_roots-IsSound env lib filter options given input_paths st
          (inputs-IsGiven env filter options input_paths) h in
      merge_slots-IsWanted env lib filter options given _ _ true sound.slots_wanted sound.own_wanted

  -- However the files are spread over the workers, the parallel discovery keeps it true of all
  -- entries that they are not below the minimum size, and that the filter accepts their name or they
  -- are given, by a path or a pattern, and regular files of the kernel.
  pub expand_parallel-IsWanted :
      (entries : List Entry) (errors : List WalkError)
      → All IsWantedInput entries
      → All IsWantedInput (expand_parallel env lib filter options entries errors input_paths).0.0
  unfolding expand_parallel
  expand_parallel-IsWanted entries errors h =
      chosen (λ (r : (List Entry × List WalkError) × Bool). All IsWantedInput r.0.0) lib.registers _
        ((entries, errors), false)
        (expand_roots-IsWanted _ (record {
          own_wanted = h;
          slots_wanted = All-replicate (All IsWantedInput) lib.worker_count [] tt;
        }))
        h
