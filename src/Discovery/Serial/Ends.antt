-- ===== src/Discovery/Serial/Ends.antt =====
-- The serial walk ends: it enters a directory only if its inode was not visited, so fuel for as many
-- directories as the file system has inodes is enough.
use bc_duplicate.Prelude.{
  ℕ, zero, suc, ◌≤◌, ◌<◌, ◌≡◌, ◌⊎◌, refl, ap, ◌∙◌, Bool, true, false, not, ◌&&◌, Bool-cases,
  Option-cases, inl, inr, List, [], ◌∷◌, Option, some, arith, ◌==◌, if◌then◌else◌, Some,
}
use bc_duplicate.Text.{codes}
use bc_duplicate.Filter.{Filter, accepts_file, accepts_directory}
use bc_duplicate.Worker.Reader.{OpenAnswer-cases}
use bc_duplicate.Chain.{◌>>=◌}
use bc_duplicate.Discovery.{
  DiscoveryOptions, FileKind, FileStatus, StatAnswer, Environment, inode, is_pseudo,
}
use bc_duplicate.Discovery.Serial.{
  WalkState, log, is_hidden_name, is_dot_name, crosses, open_child, visit_child, descend_child,
  handle_kind, handle_status, handle_entry, walk_names, walk_directory,
}
use bc_duplicate.Discovery.Serial.Step.{
  unvisited, unvisited-le, unvisited-lt, FromDirectory, Step, Step-trans, Step-same, Step-refl,
  Step-log, Step-poll, Step-append_entry,
}

pub StatAnswer-cases :
    (a : StatAnswer)
    → ((s : FileStatus) × (a ≡ StatAnswer.found s)) ⊎ ((e : ℕ) × (a ≡ StatAnswer.not_found e))
StatAnswer-cases (StatAnswer.found s) = inl (s, refl)
StatAnswer-cases (StatAnswer.not_found e) = inr (e, refl)

module _ (env : Environment) (filter : Option Filter) (options : DiscoveryOptions)
    (inodes : List (ℕ × ℕ)) (IsInput : List ℕ → Type 0)
    (finite : (path : List ℕ) (s : FileStatus)
      → env.status options.follow_symlinks path ≡ StatAnswer.found s
      → Some (λ j. j ≡ inode s) inodes) where
  -- How many inodes are left to visit.
  abbrev pub left_over : WalkState env → ℕ
  left_over st = unvisited env.inodes inodes st.visited_directories

  abbrev Steps : WalkState env → WalkState env → Type 0
  Steps = Step env filter options inodes IsInput

  -- The call ends, with a state that follows the one before.
  abbrev pub Ends : Option (WalkState env × Bool) → WalkState env → Type 0
  Ends m st = (r : WalkState env × Bool) × (m ≡ some r) × Steps st r.0

  abbrev pub EndsAlone : Option (WalkState env) → WalkState env → Type 0
  EndsAlone m st = (r : WalkState env) × (m ≡ some r) × Steps st r

  module _ (walk : (shown directory : List ℕ) → WalkState env → Option (WalkState env × Bool))
      (n : ℕ)
      (walks : (shown directory : List ℕ) (st : WalkState env)
        → left_over st < n
        → Ends (walk shown directory st) st) where
    open_child-Ends :
        (path : List ℕ) (st : WalkState env)
        → left_over st < n
        → Ends (open_child env filter options walk path st) st
    unfolding open_child
    open_child-Ends path st h = elim (Bool-cases (is_pseudo env path)) [
      | inl pseudo ↦ rw pseudo ((st, true), refl, Step-refl env filter options inodes IsInput st)
      | inr real ↦
          rw real (elim (OpenAnswer-cases (env.open_directory options.follow_symlinks path)) [
            | inl opened ↦ rw opened (walks path path st h)
            | inr (e, failed) ↦ rw failed (
              (log env st path (codes "open") e, false),
              refl,
              Step-log env filter options inodes IsInput st path _ e,
            )
          ])
    ]

    visit_child-Ends :
        (path : List ℕ) (s : FileStatus) (st : WalkState env)
        → env.status options.follow_symlinks path ≡ StatAnswer.found s
        → left_over st ≤ n
        → Ends (visit_child env filter options walk path s st) st
    unfolding visit_child
    visit_child-Ends path s st answered h =
        elim (Bool-cases (crosses env filter options st.root_device_id s)) [
          | inl away ↦ rw away ((st, true), refl, Step-refl env filter options inodes IsInput st)
          | inr here ↦
              rw here (elim (Option-cases (env.inodes.insert st.visited_directories (inode s))) [
                | inl e ↦ rw e (
                  (log env st path (codes "dedup") _, false),
                  refl,
                  Step-log env filter options inodes IsInput st path _ _,
                )
                | inr ((visited, present), e) ↦
                    let st1 : WalkState env = record st { visited_directories = visited } in
                    let grown = Step-same env filter options inodes IsInput st st1 refl (
                      unvisited-le env.inodes inodes st.visited_directories (inode s)
                        (visited, present) e) in
                    rw e (elim (Bool-cases present) [
                      | inl old ↦ rw old ((st1, true), refl, grown)
                      | inr new ↦ rw new (
                          let smaller =
                            unvisited-lt env.inodes inodes st.visited_directories (inode s)
                              (visited, present) e new (finite path s answered) in
                          let (r, ends, step) =
                            open_child-Ends path st1 (omega (arith, smaller, h)) in
                          (r, ends, Step-trans env filter options inodes IsInput grown step))
                    ])
              ])
        ]

    descend_child-Ends :
        (path : List ℕ) (st : WalkState env)
        → left_over st ≤ n
        → Ends (descend_child env filter options walk path st) st
    unfolding descend_child
    descend_child-Ends path st h =
        elim (StatAnswer-cases (env.status options.follow_symlinks path)) [
          | inl (s, answered) ↦ rw (descend_child, answered) (visit_child-Ends path s st answered h)
          | inr (e, failed) ↦
              rw (descend_child, failed)
                (
                  (log env st path (codes "stat") e, false),
                  refl,
                  Step-log env filter options inodes IsInput st path _ e,
                )
        ]

    first_of :
        (m : Option (WalkState env × Bool)) (st : WalkState env)
        → Ends m st
        → EndsAlone (m >>= λ r. some r.0) st
    first_of m st (r, e, step) = (r.0, ap (λ o. o >>= λ r. some r.0) e, step)

    handle_kind-Ends :
        (kind : FileKind) (name path : List ℕ) (s : FileStatus) (st : WalkState env)
        → s.kind ≡ kind
        → env.status options.follow_symlinks path ≡ StatAnswer.found s
        → (accepts_file env.fnmatch filter name ≡ true
            → FromDirectory env filter options inodes IsInput path)
        → left_over st ≤ n
        → EndsAlone (handle_kind env filter options walk kind name path s st) st
    unfolding handle_kind
    handle_kind-Ends FileKind.regular name path s st k answered chosen h =
        elim (Bool-cases (accepts_file env.fnmatch filter name)) [
          | inl yes_file ↦ rw yes_file (
            _,
            refl,
            Step-append_entry env filter options inodes IsInput st path s answered k
                (inl (chosen yes_file)),
          )
          | inr no_file ↦ rw no_file (st, refl, Step-refl env filter options inodes IsInput st)
        ]
    handle_kind-Ends FileKind.directory name path s st k answered chosen h =
        elim (Bool-cases (accepts_directory env.fnmatch filter name)) [
          | inl yes_directory ↦ rw yes_directory (first_of _ st (descend_child-Ends path st h))
          | inr no_directory ↦
              rw no_directory (st, refl, Step-refl env filter options inodes IsInput st)
        ]
    handle_kind-Ends FileKind.symbolic_link name path s st k answered chosen h =
        (st, refl, Step-refl env filter options inodes IsInput st)
    handle_kind-Ends FileKind.other name path s st k answered chosen h =
        (st, refl, Step-refl env filter options inodes IsInput st)

    handle_status-Ends :
        (name path : List ℕ) (st : WalkState env)
        → (accepts_file env.fnmatch filter name ≡ true
            → FromDirectory env filter options inodes IsInput path)
        → left_over st ≤ n
        → EndsAlone
            (handle_status env filter options walk name path
              (env.status options.follow_symlinks path)
              st)
            st
    unfolding handle_status
    handle_status-Ends name path st chosen h =
        elim (StatAnswer-cases (env.status options.follow_symlinks path)) [
          | inl (s, answered) ↦
              rw answered (handle_kind-Ends s.kind name path s st refl answered chosen h)
          | inr (e, failed) ↦
              rw failed (_, refl, Step-log env filter options inodes IsInput st path _ e)
        ]

    shown_name :
        (hidden name : Bool) → (not hidden && name) ≡ false → (hidden ≡ true) ⊎ (name ≡ false)
    shown_name hidden name h = ground arith

    handle_entry-Ends :
        (shown directory name : List ℕ) (st : WalkState env)
        → left_over st ≤ n
        → EndsAlone (handle_entry env filter options walk shown directory name st) st
    unfolding handle_entry
    handle_entry-Ends shown directory name st h =
        elim (Bool-cases (not options.include_hidden && is_hidden_name name)) [
          | inl hidden ↦ rw hidden (st, refl, Step-refl env filter options inodes IsInput st)
          | inr visible ↦ rw visible (elim (Option-cases (env.join directory name)) [
            | inl long ↦ rw long (_, refl, Step-log env filter options inodes IsInput st shown _ _)
            | inr (path, joined) ↦ rw joined (
                handle_status-Ends name path st
                  (λ accepted. (
                    directory,
                    name,
                    joined,
                    accepted,
                    shown_name options.include_hidden (is_hidden_name name) visible,
                  ))
                  h)
          ])
        ]

    one_name :
        (shown directory name : List ℕ) (st : WalkState env)
        → left_over st ≤ n
        → EndsAlone
            (if is_dot_name name
              then some st
              else handle_entry env filter options walk shown directory name st)
            st
    one_name shown directory name st h = elim (Bool-cases (is_dot_name name)) [
      | inl dots ↦ rw dots (st, refl, Step-refl env filter options inodes IsInput st)
      | inr proper ↦ rw proper (handle_entry-Ends shown directory name st h)
    ]

    walk_names-Ends :
        (shown directory : List ℕ) (names : List (List ℕ)) (end_errno : ℕ) (st : WalkState env)
        → left_over st ≤ n
        → EndsAlone (walk_names env filter options walk shown directory names end_errno st) st
    unfolding walk_names
    walk_names-Ends shown directory [] end_errno st h = elim (Bool-cases (end_errno == 0)) [
      | inl clean ↦ rw clean (st, refl, Step-refl env filter options inodes IsInput st)
      | inr failed ↦ rw failed (_, refl, Step-log env filter options inodes IsInput st shown _ _)
    ]
    walk_names-Ends shown directory (name ∷ names) end_errno st h =
        let st1 : WalkState env = record st { polls = suc st.polls } in
        let polled = Step-poll env filter options inodes IsInput st in
        elim (Bool-cases (env.stops st.polls)) [
          | inl stopped ↦ rw (walk_names, stopped) (st1, refl, polled)
          | inr going ↦
              rw (walk_names, going)
                (let (st2, ends, step) = one_name shown directory name st1 h in
                  let (st3, ends', step') =
                    walk_names-Ends shown directory names end_errno st2
                      (omega (arith, step.fewer, h)) in
                  (
                    st3,
                    ap
                          (λ m.
                            m
                            >>= walk_names env filter options walk shown directory names end_errno)
                          ends
                        ∙ ends',
                    Step-trans env filter options inodes IsInput polled
                        (Step-trans env filter options inodes IsInput step step'),
                  ))
        ]

  -- If the file system has finitely many inodes, and the fuel is more than the number of those not yet
  -- visited, the walk of a directory ends: it has appended found files only, and there are no more
  -- inodes to visit than before.
  pub walk_directory-Ends :
      (fuel : ℕ) (shown directory : List ℕ) (st : WalkState env)
      → left_over st < fuel
      → Ends (walk_directory env filter options fuel shown directory st) st
  unfolding walk_directory
  walk_directory-Ends zero shown directory st h = absurd (omega arith)
  walk_directory-Ends (suc fuel) shown directory st h =
      elim (OpenAnswer-cases (env.duplicate shown)) [
        | inr (e, failed) ↦
            rw (walk_directory, failed)
              (_, refl, Step-log env filter options inodes IsInput st shown _ e)
        | inl copied ↦
            rw (walk_directory, copied)
              (elim (OpenAnswer-cases (env.open_stream shown)) [
                | inr (e, failed) ↦
                    rw (walk_directory, failed)
                      (_, refl, Step-log env filter options inodes IsInput st shown _ e)
                | inl streamed ↦ rw streamed (
                    let (st1, ends, step) =
                      walk_names-Ends (walk_directory env filter options fuel) fuel
                        (walk_directory-Ends fuel) shown directory (env.listing shown).names
                        (env.listing shown).end_errno st (omega arith) in
                    ((st1, true), ap (λ m. m >>= λ st1. some (st1, true)) ends, step))
              ])
      ]
