-- ===== src/Fs/Descriptor.antt =====
-- kernel/fs/file_descriptor.cpp: the descriptor table of a process. The table is a list, its
-- length the `table_size`; a name is its characters before the terminating zero. The null pointers
-- that the functions refuse are not represented.
pub mod Lookup
pub mod Changes
pub mod Exit
pub mod Start
use uchos.Prelude.{
  ℕ, zero, suc, ◌+◌, Bool, true, false, ◌||◌, Option, none, some, List, [], ◌∷◌, length, get_elem?,
  take, set, ltb, leb, ◌==◌, if◌then◌else◌,
}
use uchos.Common.{
  ℤ, pos, negsuc, no_fd, invalid_id, shell_id, fs_fat32_id, ok, err_invalid_arg, err_invalid_fd,
}

pub data FdRoute : Type 0 where
  no_route console fs : FdRoute

pub record FileDescriptor : Type 0 where
  pub name : List ℕ
  pub route : FdRoute
  pub dest : ℤ
  pub handle : ℕ

abbrev pub is_unused : FileDescriptor → Bool
is_unused e = elim e.name [ [] ↦ true | c ∷ cs ↦ false ]

-- What `clear` leaves.
abbrev pub cleared : FileDescriptor
cleared = record { name = []; route = FdRoute.no_route; dest = invalid_id; handle = 0 }

-- The 12 characters that fit into `name`.
abbrev pub name_length : ℕ
name_length = 12

unfoldable pub clear_all : List FileDescriptor → List FileDescriptor
clear_all [] = []
clear_all (e ∷ es) = cleared ∷ clear_all es

unfoldable pub set_console : List FileDescriptor → ℕ → List ℕ → List FileDescriptor
set_console table fd name =
    if ltb fd (length table)
    then set table fd (record { name = name; route = FdRoute.console; dest = shell_id; handle = 0 })
    else table

-- "stdin", "stdout", "stderr".
abbrev pub stdin_name : List ℕ
stdin_name = 115 ∷ 116 ∷ 100 ∷ 105 ∷ 110 ∷ []

abbrev pub stdout_name : List ℕ
stdout_name = 115 ∷ 116 ∷ 100 ∷ 111 ∷ 117 ∷ 116 ∷ []

abbrev pub stderr_name : List ℕ
stderr_name = 115 ∷ 116 ∷ 100 ∷ 101 ∷ 114 ∷ 114 ∷ []

unfoldable pub init_process_fd_table : List FileDescriptor → List FileDescriptor
unfolding clear_all set_console
init_process_fd_table table =
    set_console (set_console (set_console (clear_all table) 0 stdin_name) 1 stdout_name) 2
      stderr_name

-- The first unused entry from `i` on.
unfoldable pub first_unused : List FileDescriptor → ℕ → ℤ
first_unused [] i = no_fd
first_unused (e ∷ es) i = let rest = first_unused es (i + 1) in if is_unused e then pos i else rest

-- The table afterwards and the descriptor.
unfoldable pub allocate_process_fd : List FileDescriptor → List ℕ → ℕ → List FileDescriptor × ℤ
unfolding first_unused
allocate_process_fd table name handle = elim (first_unused table 0) [
  | negsuc n ↦ (table, no_fd)
  | pos i ↦ (
    set table i (record {
      name = take name_length name;
      route = FdRoute.fs;
      dest = fs_fat32_id;
      handle = handle;
    }),
    pos i,
  )
]

unfoldable pub used_entry : FileDescriptor → Option FileDescriptor
used_entry e = if is_unused e then none else some e

unfoldable pub get_process_fd : List FileDescriptor → ℤ → Option FileDescriptor
unfolding used_entry
get_process_fd table (negsuc n) = none
get_process_fd table (pos fd) = elim (get_elem? table fd) [ none ↦ none | some e ↦ used_entry e ]

abbrev pub is_standard : ℕ → Bool
is_standard fd = fd == 0 || fd == 1 || fd == 2

unfoldable pub release_entry : List FileDescriptor → ℕ → FileDescriptor → List FileDescriptor × ℤ
release_entry table fd e =
    if is_standard fd
    then (table, err_invalid_fd)
    else if is_unused e
    then (table, err_invalid_fd)
    else (set table fd cleared, ok)

unfoldable pub release_process_fd : List FileDescriptor → ℤ → List FileDescriptor × ℤ
unfolding release_entry
release_process_fd table (negsuc n) = (table, err_invalid_arg)
release_process_fd table (pos fd) = elim (get_elem? table fd) [
  | none ↦ (table, err_invalid_arg)
  | some e ↦ release_entry table fd e
]

unfoldable pub dup_process_fd : List FileDescriptor → ℤ → ℤ → List FileDescriptor × ℤ
unfolding get_process_fd
dup_process_fd table oldfd newfd = elim (get_process_fd table oldfd) [
  | none ↦ (table, err_invalid_fd)
  | some e ↦ elim newfd [
    | negsuc n ↦ (table, err_invalid_fd)
    | pos fd ↦ if leb (length table) fd then (table, err_invalid_fd) else (set table fd e, ok)
  ]
]

-- The tables have one size, so every entry of `dest` is overwritten.
unfoldable pub copy_fd_table : List FileDescriptor → List FileDescriptor
copy_fd_table [] = []
copy_fd_table (e ∷ es) = (if is_unused e then cleared else e) ∷ copy_fd_table es

-- One round of the loop of `release_all_process_fds`.
unfoldable pub release_round : List FileDescriptor → ℕ → List FileDescriptor
unfolding release_process_fd
release_round table i = elim (get_elem? table i) [
  | none ↦ table
  | some e ↦ if is_standard i || is_unused e then table else (release_process_fd table (pos i)).0
]

unfoldable pub release_from : ℕ → ℕ → List FileDescriptor → List FileDescriptor
unfolding release_round
release_from zero i table = table
release_from (suc rounds) i table = release_from rounds (i + 1) (release_round table i)

unfoldable pub release_all_process_fds : List FileDescriptor → List FileDescriptor
unfolding release_from
release_all_process_fds table = release_from (length table) 0 table
