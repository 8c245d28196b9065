-- ===== src/Discovery/Parallel/Wanted.antt =====
-- Every entry that a worker or the main thread takes is one that was asked for.
use bc_duplicate.Prelude.{
  ℕ, zero, suc, ◌+◌, ◌≤◌, ◌≡◌, ◌⊎◌, refl, true, Bool-cases, inl, inr, List, [], ◌∷◌, Option, none,
  some, arith, length, get_elem?, set, ltb, All, All-append,
}
use mathlib.Core.Path.{subst}
use mathlib.Core.Option.{some-injective}
use bc_duplicate.Types.{Entry}
use bc_duplicate.Filter.{Filter, accepts_file}
use bc_duplicate.Discovery.{
  DiscoveryOptions, FileKind, FileStatus, StatAnswer, Environment, new_entry,
}
use bc_duplicate.Discovery.Parallel.{
  WalkEntry, WalkEvent, WalkLibrary, IsAccepted, walk_basename, ParallelState, note, filter_kind,
  walk_filter, pushed, visit_file, walk_visit, walk_event, walk_events, append_root_file,
}

module _ {A : Type 0} (P : A → Type 0) where
  All-set : (l : List A) (i : ℕ) (v : A) → P v → All P l → All P (set l i v)
  All-set [] i v p h = tt
  All-set (x ∷ l) zero v p h = (p, h.1)
  All-set (x ∷ l) (suc i) v p h = (h.0, All-set l i v p h.1)

  All-get_elem? : (l : List A) (i : ℕ) (x : A) → get_elem? l i ≡ some x → All P l → P x
  All-get_elem? [] i x e h = ground arith
  All-get_elem? (y ∷ l) zero x e h = subst P (some-injective _ _ e) h.0
  All-get_elem? (y ∷ l) (suc i) x e h = All-get_elem? l i x e h.1

module _ (env : Environment) (lib : WalkLibrary) (filter : Option Filter)
    (options : DiscoveryOptions) (IsGiven : List ℕ → Type 0) where
  -- The filter accepts the basename of the path, or the name that it was joined from.
  abbrev pub IsAcceptedPath : List ℕ → Type 0
  IsAcceptedPath path =
      (accepts_file env.fnmatch filter (walk_basename path) ≡ true)
      ⊎ ((directory : List ℕ) × (name : List ℕ) × (env.join directory name ≡ some path)
          × (accepts_file env.fnmatch filter name ≡ true))

  -- The path is given, and a regular file of the kernel.
  abbrev pub IsGivenFile : List ℕ → Type 0
  IsGivenFile path =
      IsGiven path
      × ((s : FileStatus) × (env.status options.follow_symlinks path ≡ StatAnswer.found s)
          × (s.kind ≡ FileKind.regular))

  -- The entry is not below the minimum size, and the filter accepts it or it is given.
  abbrev pub IsWanted : Entry → Type 0
  IsWanted e =
      (options.minimum_file_size ≤ e.file_size)
      × (IsAcceptedPath e.absolute_path ⊎ IsGivenFile e.absolute_path)

  pub record IsSound (st : ParallelState) : Type 0 where
    pub own_wanted : All IsWanted st.entries
    pub slots_wanted : All (All IsWanted) st.slots

  accepted-IsWanted :
      (root : Option ℕ) (entry : WalkEntry)
      → filter_kind env lib filter options FileKind.regular root entry ≡ true
      → IsWanted (new_entry entry.absolute_path entry.status)
  unfolding filter_kind
  accepted-IsWanted root entry h =
      elim (Bool-cases (accepts_file env.fnmatch filter (walk_basename entry.absolute_path))) [
        | inl chosen ↦ (ground (arith, rw chosen at h), inl (inl chosen))
        | inr left_out ↦ ground (arith, rw left_out at h)
      ]

  pushed-IsWanted :
      (worker : ℕ) (entry : WalkEntry) (slots : List (List Entry)) (slot : Option (List Entry))
      → get_elem? slots worker ≡ slot
      → IsWanted (new_entry entry.absolute_path entry.status)
      → All (All IsWanted) slots
      → All (All IsWanted) (pushed env lib filter options worker entry slots slot)
  pushed-IsWanted worker entry slots none e new h = h
  pushed-IsWanted worker entry slots (some l) e new h =
      elim (Bool-cases (lib.worker_room worker (length l))) [
        | inl room ↦ rw room (
            All-set (All IsWanted) slots worker _
              (All-append IsWanted l _ (All-get_elem? (All IsWanted) slots worker l e h) (new, tt))
              h)
        | inr full ↦ rw full h
      ]

  walk_visit-IsWanted :
      (kind : FileKind) (root : Option ℕ) (worker : ℕ) (entry : WalkEntry)
      (slots : List (List Entry))
      → filter_kind env lib filter options kind root entry ≡ true
      → All (All IsWanted) slots
      → All (All IsWanted) (walk_visit env lib filter options kind worker entry slots)
  unfolding walk_visit visit_file
  walk_visit-IsWanted FileKind.regular root worker entry slots accepted h =
      elim (Bool-cases (lib.has_slot worker)) [
        | inr no_slot ↦ rw no_slot h
        | inl slot ↦
            rw slot (elim (Bool-cases (lib.worker_grant worker (length entry.absolute_path + 1))) [
              | inr refused ↦ rw refused h
              | inl granted ↦ rw granted (
                  pushed-IsWanted worker entry slots (get_elem? slots worker) refl
                    (accepted-IsWanted root entry accepted) h)
            ])
      ]
  walk_visit-IsWanted FileKind.directory root worker entry slots accepted h = h
  walk_visit-IsWanted FileKind.symbolic_link root worker entry slots accepted h = h
  walk_visit-IsWanted FileKind.other root worker entry slots accepted h = h

  walk_event-IsSound :
      (root : Option ℕ) (event : WalkEvent) (st : ParallelState)
      → IsAccepted (walk_filter env lib filter options root) event
      → IsSound st
      → IsSound (walk_event env lib filter options event st)
  unfolding walk_event walk_filter
  walk_event-IsSound root (WalkEvent.visits worker entry) st accepted h = record {
    own_wanted = h.own_wanted;
    slots_wanted =
        walk_visit-IsWanted entry.status.kind root worker entry st.slots accepted h.slots_wanted;
  }
  walk_event-IsSound root (WalkEvent.fails worker error) st accepted h =
      elim (Bool-cases (lib.has_slot worker)) [
        | inl slot ↦ rw slot (record { own_wanted = h.own_wanted; slots_wanted = h.slots_wanted })
        | inr no_slot ↦ rw no_slot h
      ]

  pub walk_events-IsSound :
      (root : Option ℕ) (events : List WalkEvent) (st : ParallelState)
      → All (IsAccepted (walk_filter env lib filter options root)) events
      → IsSound st
      → IsSound (walk_events env lib filter options events st)
  unfolding walk_events
  walk_events-IsSound root [] st accepted h = h
  walk_events-IsSound root (event ∷ events) st accepted h =
      walk_events-IsSound root events _ accepted.1 (walk_event-IsSound root event st accepted.0 h)

  pub note-IsSound :
      (st : ParallelState) (path stage : List ℕ) (e : ℕ)
      → IsSound st
      → IsSound (note st path stage e)
  note-IsSound st path stage e h = record {
    own_wanted = h.own_wanted;
    slots_wanted = h.slots_wanted;
  }

  pub append_root_file-IsSound :
      (path : List ℕ) (s : FileStatus) (st : ParallelState)
      → env.status options.follow_symlinks path ≡ StatAnswer.found s
      → s.kind ≡ FileKind.regular
      → IsGiven path
      → IsSound st
      → IsSound (append_root_file env lib filter options path s st)
  unfolding append_root_file
  append_root_file-IsSound path s st answered regular given h =
      elim (Bool-cases (ltb s.size options.minimum_file_size)) [
        | inl small ↦ rw small h
        | inr large ↦ rw large (elim (Bool-cases (env.grant (length path + 1))) [
          | inr refused ↦ rw refused (note-IsSound st path _ _ h)
          | inl granted ↦ rw granted (elim (Bool-cases (env.has_room (length st.entries))) [
            | inr full ↦ rw full (note-IsSound st path _ _ h)
            | inl room ↦ rw room (record {
              own_wanted =
                  All-append IsWanted st.entries _ h.own_wanted
                    ((ground (arith, large), inr (given, (s, answered, regular))), tt);
              slots_wanted = h.slots_wanted;
            })
          ])
        ])
      ]
