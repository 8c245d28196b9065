-- ===== src/Cli/Options.antt =====
-- A successful binding reads each option of the command from its own key.
use bc_duplicate.Prelude.{
  ℕ, ◌≤◌, ◌≡◌, refl, sym, Bool-cases, Option-cases, inl, inr, List, ◌++◌, Option, some, arith,
  length,
}
use mathlib.Core.Path.{subst}
use mathlib.Core.Option.{some-injective}
use bc_duplicate.Chain.{>>=-eq-some}
use bc_duplicate.Types.{ThreadsMode, OutputDestination, Command}
use bc_duplicate.Core.{CoreLibrary}
use bc_duplicate.Text.{codes, strings_equal, strings_equal_iff}
use bc_duplicate.Cli.{
  CliOptions, CliLibrary, bind_algorithm, bind_minimum_size, bind_global_threads,
  bind_command_options, bind_destination, bind_command, bind_options, flag, cleared,
}
use bc_duplicate.Cli.Bind.{key_of}

-- The word of a command, which is also the front of its keys.
abbrev pub command_name : Command → List ℕ
command_name Command.scan = codes "scan"
command_name Command.summary = codes "summary"

module _ (core : CoreLibrary) (lib : CliLibrary) where
  -- The shared options of the command `name`, as they are stored.
  pub record IsRead (name : List ℕ) (o : CliOptions) : Type 0 where
    algorithm_text : List ℕ
    algorithm_stored : lib.get_string (name ++ codes ".algorithm") ≡ some algorithm_text
    algorithm_bound : bind_algorithm core lib algorithm_text ≡ some o.algorithm
    size_text : List ℕ
    size_stored : lib.get_string (name ++ codes ".minimum-size") ≡ some size_text
    size_bound : bind_minimum_size core lib size_text ≡ some o.minimum_file_size
    include_read : lib.get_string (name ++ codes ".include") ≡ o.include_list
    exclude_read : lib.get_string (name ++ codes ".exclude") ≡ o.exclude_list
    hidden_read : flag core lib (lib.get_boolean (name ++ codes ".hidden")) ≡ o.include_hidden
    follow_read :
        flag core lib (lib.get_boolean (name ++ codes ".follow-symlinks")) ≡ o.follow_symlinks
    match_read :
        flag core lib (lib.get_boolean (name ++ codes ".match-hardlinks")) ≡ o.match_hardlinks
    one_read :
        flag core lib (lib.get_boolean (name ++ codes ".one-file-system")) ≡ o.one_file_system

  -- What the shared options leave alone.
  pub record IsKept (o o' : CliOptions) : Type 0 where
    command_kept : o.command ≡ o'.command
    mode_kept : o.threads_mode ≡ o'.threads_mode
    count_kept : o.explicit_worker_count ≡ o'.explicit_worker_count

  bind_command_options-IsRead :
      (name : List ℕ) (o o' : CliOptions)
      → length name ≤ 10
      → bind_command_options core lib name o ≡ some o'
      → IsRead name o' × IsKept o o'
  unfolding bind_command_options
  bind_command_options-IsRead name o o' short =
      rw
        (
          key_of core lib name (codes ".algorithm") (omega arith),
          key_of core lib name (codes ".minimum-size") (omega arith),
          key_of core lib name (codes ".include") (omega arith),
          key_of core lib name (codes ".exclude") (omega arith),
          key_of core lib name (codes ".hidden") (omega arith),
          key_of core lib name (codes ".follow-symlinks") (omega arith),
          key_of core lib name (codes ".match-hardlinks") (omega arith),
          key_of core lib name (codes ".one-file-system") (omega arith),
        )
        (λ h.
          let (text, stored, h1) = >>=-eq-some _ _ h in
          let (algorithm, bound, h2) = >>=-eq-some _ _ h1 in
          let (digits, size_stored, h3) = >>=-eq-some _ _ h2 in
          let (size, size_bound, h4) = >>=-eq-some _ _ h3 in
          let made = some-injective _ _ h4 in
          subst (λ x. IsRead name x × IsKept o x) made
            (
              record {
                algorithm_text = text;
                algorithm_stored = stored;
                algorithm_bound = bound;
                size_text = digits;
                size_stored = size_stored;
                size_bound = size_bound;
                include_read = refl;
                exclude_read = refl;
                hidden_read = refl;
                follow_read = refl;
                match_read = refl;
                one_read = refl;
              },
              record { command_kept = refl; mode_kept = refl; count_kept = refl },
            ))

  bind_command-names :
      (name : List ℕ) (c : Command) → bind_command core lib name ≡ some c → name ≡ command_name c
  unfolding bind_command
  bind_command-names name c = elim (Bool-cases (strings_equal core name (codes "scan"))) [
    | inl scan ↦ rw scan (λ h.
        subst (λ x. name ≡ command_name x) (some-injective _ _ h)
          ((strings_equal_iff core _ _).0 scan))
    | inr n1 ↦ rw n1 (elim (Bool-cases (strings_equal core name (codes "summary"))) [
      | inl summary ↦ rw summary (λ h.
          subst (λ x. name ≡ command_name x) (some-injective _ _ h)
            ((strings_equal_iff core _ _).0 summary))
      | inr n2 ↦ rw n2 (λ h. ground arith)
    ])
  ]

  short_name : (c : Command) → length (command_name c) ≤ 10
  short_name Command.scan = omega arith
  short_name Command.summary = omega arith

  -- The options of a run, as the parser stored them for the command it found.
  pub record IsBound (name : List ℕ) (positional : List (List ℕ)) (o : CliOptions) : Type 0 where
    named : name ≡ command_name o.command
    read : IsRead name o
    threads_bound : bind_global_threads core lib ≡ some (o.threads_mode, o.explicit_worker_count)
    destination_bound :
        bind_destination core lib o.command
        ≡ some (o.output_destination_mode, o.output_destination_path)
    positional_kept : positional ≡ o.positional_argument_values

  -- The parts of the binding, put together.
  assemble :
      (name : List ℕ) (positional : List (List ℕ)) (o : CliOptions) (threads : ThreadsMode × ℕ)
      (command : Command) (shared : CliOptions) (destination : OutputDestination × Option (List ℕ))
      → bind_global_threads core lib ≡ some threads
      → bind_command core lib name ≡ some command
      → bind_command_options core lib name (cleared core lib command threads) ≡ some shared
      → bind_destination core lib command ≡ some destination
      → record shared {
        output_destination_mode = destination.0;
        output_destination_path = destination.1;
        positional_argument_values = positional;
      }
        ≡ o
      → IsBound name positional o
  assemble name positional o threads command shared destination threads_bound command_named bound
        destination_bound made =
      let named = bind_command-names name command command_named in
      let short : length name ≤ 10 = rw named (short_name command) in
      let (read, kept) = bind_command_options-IsRead name _ shared short bound in
      let o2 : CliOptions = record shared {
        output_destination_mode = destination.0;
        output_destination_path = destination.1;
        positional_argument_values = positional;
      } in
      let bound_here : IsBound name positional o2 = record {
        named = rw (sym kept.command_kept) named;
        read = record {
          algorithm_text = read.algorithm_text;
          algorithm_stored = read.algorithm_stored;
          algorithm_bound = read.algorithm_bound;
          size_text = read.size_text;
          size_stored = read.size_stored;
          size_bound = read.size_bound;
          include_read = read.include_read;
          exclude_read = read.exclude_read;
          hidden_read = read.hidden_read;
          follow_read = read.follow_read;
          match_read = read.match_read;
          one_read = read.one_read;
        };
        threads_bound = rw (sym kept.mode_kept, sym kept.count_kept) threads_bound;
        destination_bound = rw (sym kept.command_kept) destination_bound;
        positional_kept = refl;
      } in
      subst (IsBound name positional) made bound_here

  -- If the options of a run are bound, the command is the one the parser found, every option but
  -- the threads and the output is read from the key of its name behind the command's name, and
  -- the threads, the output and the positional arguments are those given.
  pub bind_options-IsBound :
      (name : List ℕ) (positional : List (List ℕ)) (o : CliOptions)
      → bind_options core lib (some name) positional ≡ some o
      → IsBound name positional o
  unfolding bind_options
  bind_options-IsBound name positional o = elim (Option-cases (bind_global_threads core lib)) [
    | inl e0 ↦ rw e0 (λ h. ground arith)
    | inr (threads, e0) ↦ rw e0 (elim (Option-cases (bind_command core lib name)) [
      | inl e1 ↦ rw e1 (λ h. ground arith)
      | inr (command, e1) ↦
          rw e1
            (elim (Option-cases
              (bind_command_options core lib name (cleared core lib command threads))) [
                | inl e2 ↦ rw e2 (λ h. ground arith)
                | inr (shared, e2) ↦
                    rw e2 (elim (Option-cases (bind_destination core lib command)) [
                      | inl e3 ↦ rw e3 (λ h. ground arith)
                      | inr (destination, e3) ↦ rw e3 (λ h.
                          assemble name positional o threads command shared destination e0 e1 e2 e3
                            (some-injective _ _ h))
                    ])
              ])
    ])
  ]
