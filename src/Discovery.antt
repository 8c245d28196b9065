-- ===== src/Discovery.antt =====
-- src/discovery: the files under the paths that are given on the command line. What the walks ask of
-- the kernel and of the other libraries is an `Environment`. The file system does not change during
-- a walk, so that a name in an open directory stands for the path that is joined to it.
pub mod Serial
pub mod Parallel
use bc_duplicate.Prelude.{
  ℕ, zero, suc, ◌+◌, ◌≡◌, Bool, true, false, ◌&&◌, ◌||◌, List, [], ◌∷◌, ◌++◌, Option, none, some,
  length, ltb, ◌==◌, if◌then◌else◌,
}
use bc_duplicate.Types.{Entry, max_digest_size}
use bc_duplicate.Text.{codes}
use bc_duplicate.Glob.{path_is_pseudo_filesystem}
use bc_duplicate.Worker.Reader.{OpenAnswer}
use bc_duplicate.Worker.Ring.Batch.{replicate}

abbrev pub enoent : ℕ
enoent = 2

abbrev pub enomem : ℕ
enomem = 12

abbrev pub einval : ℕ
einval = 22

abbrev pub enametoolong : ℕ
enametoolong = 36

abbrev pub eloop : ℕ
eloop = 40

abbrev pub slash : ℕ
slash = 47

abbrev pub dot : ℕ
dot = 46

pub record DiscoveryOptions : Type 0 where
  pub include_hidden : Bool
  pub follow_symlinks : Bool
  pub one_file_system : Bool
  pub minimum_file_size : ℕ

pub data FileKind : Type 0 where
  regular directory symbolic_link other : FileKind

-- `struct stat`, as far as it is read.
pub record FileStatus : Type 0 where
  pub kind : FileKind
  pub device_id : ℕ
  pub inode_number : ℕ
  pub size : ℕ

pub data StatAnswer : Type 0 where
  found : FileStatus → StatAnswer
  not_found : (errno_value : ℕ) → StatAnswer

-- The names that `readdir` returns, and the errno behind the last of them, 0 at the end.
pub record Listing : Type 0 where
  pub names : List (List ℕ)
  pub end_errno : ℕ

-- The set behind `bc_io_file_inode_set_insert`, which tells whether an inode was present.
pub record InodeLibrary : Type 1 where
  pub InodeSet : Type 0
  pub create : Option InodeSet
  pub contains : InodeSet → ℕ × ℕ → Bool
  pub insert : InodeSet → ℕ × ℕ → Option (InodeSet × Bool)
  pub insert_tells :
      (s : InodeSet) (i : ℕ × ℕ) (r : InodeSet × Bool) → insert s i ≡ some r → r.1 ≡ contains s i
  pub insert_adds :
      (s : InodeSet) (i j : ℕ × ℕ) (r : InodeSet × Bool)
      → insert s i ≡ some r
      → contains r.0 j ≡ (contains s j || (i.0 == j.0 && i.1 == j.1))

pub record Environment : Type 1 where
  pub inodes : InodeLibrary
  -- `fstatat`, `open` with O_DIRECTORY, `dup`, `fdopendir` and `readdir`, `statfs` and `glob`.
  pub status : (follow_symlinks : Bool) → List ℕ → StatAnswer
  pub open_directory : (follow_symlinks : Bool) → List ℕ → OpenAnswer
  pub duplicate : List ℕ → OpenAnswer
  pub open_stream : List ℕ → OpenAnswer
  pub listing : List ℕ → Listing
  pub statfs : List ℕ → Option ℕ
  pub glob : List ℕ → Option (List (List ℕ))
  pub fnmatch : List ℕ → List ℕ → Bool
  -- `bc_io_file_path_join` into a buffer: `none` if it has no room.
  pub join : (directory name : List ℕ) → Option (List ℕ)
  -- Whether the pool grants a request of so many bytes, and a vector takes one more entry.
  pub grant : ℕ → Bool
  pub has_room : (entry_count : ℕ) → Bool
  -- Whether the signal to stop stands when it is asked for the n-th time.
  pub stops : ℕ → Bool

-- What the error collector holds.
pub record WalkError : Type 0 where
  pub path : List ℕ
  pub stage : List ℕ
  pub errno_value : ℕ

-- The designated initialiser of an entry leaves every other field zero.
abbrev pub new_entry : (path : List ℕ) → FileStatus → Entry
new_entry path s = record {
  absolute_path = path;
  absolute_path_length = length path;
  file_size = s.size;
  device_id = s.device_id;
  inode_number = s.inode_number;
  fast_hash = 0;
  full_hash = replicate max_digest_size 0;
  fast_hash_computed = false;
  full_hash_computed = false;
  fast_hash_errno = 0;
  full_hash_errno = 0;
}

abbrev pub inode : FileStatus → ℕ × ℕ
inode s = (s.device_id, s.inode_number)

-- A path whose file system cannot be asked does not count as pseudo.
unfoldable pub is_pseudo : Environment → List ℕ → Bool
is_pseudo env path = elim (path_is_pseudo_filesystem (env.statfs path)) [
  | none ↦ false
  | some pseudo ↦ pseudo
]

unfoldable pub drop_slashes : (reversed : List ℕ) → List ℕ
drop_slashes [] = []
drop_slashes (c ∷ []) = c ∷ []
drop_slashes (c ∷ d ∷ cs) = if c == slash then drop_slashes (d ∷ cs) else c ∷ d ∷ cs
