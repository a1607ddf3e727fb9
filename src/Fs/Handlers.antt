-- ===== src/Fs/Handlers.antt =====
-- kernel/fs/fat/file.cpp: the handlers that close and redirect a descriptor, over the table of the
-- sender, `none` when there is no such task, and the ledger of open files.
pub mod Accounting
pub mod Redirection
use uchos.Prelude.{
  ℕ, Bool, true, false, ◌&&◌, not, Option, none, some, List, get_elem?, ◌==◌, if◌then◌else◌,
}
use uchos.Common.{ℤ, pos, negsuc, ◌==ℤ◌, is_err, ok, err_invalid_task, err_invalid_fd}
use uchos.Fs.Descriptor.{
  FileDescriptor, is_unused, get_process_fd, release_process_fd, dup_process_fd,
}
use uchos.Fs.OpenFiles.{OpenFileRecord, open_file_addref, open_file_release}

-- The sender's table and the ledger.
abbrev pub Files : Type 0
Files = List FileDescriptor × List OpenFileRecord

unfoldable pub close_fd : List FileDescriptor → List OpenFileRecord → ℤ → Files
close_fd table files fd = (
  (release_process_fd table fd).0,
  elim (get_process_fd table fd) [ none ↦ files | some e ↦ open_file_release files e.handle ],
)

unfoldable pub handle_fs_close :
    Option (List FileDescriptor)
    → List OpenFileRecord
    → ℤ
    → Option (List FileDescriptor) × List OpenFileRecord
unfolding close_fd
handle_fs_close none files fd = (none, files)
handle_fs_close (some table) files fd =
    let (table', files') = close_fd table files fd in (some table', files')

-- The handle that the descriptor `newfd` is redirected from.
abbrev pub replaced_handle : List FileDescriptor → ℤ → ℕ
replaced_handle table (negsuc n) = 0
replaced_handle table (pos fd) = elim (get_elem? table fd) [
  | none ↦ 0
  | some e ↦ if is_unused e then 0 else e.handle
]

-- From the copy on.
unfoldable pub redirect :
    List FileDescriptor → List OpenFileRecord → FileDescriptor → ℤ → ℤ → Files × ℤ
redirect table files old oldfd newfd =
    let (table', err) = dup_process_fd table oldfd newfd in
    if is_err err then ((table', files), err) else (
      (table', open_file_release (open_file_addref files old.handle) (replaced_handle table newfd)),
      ok,
    )

unfoldable pub dup2 : List FileDescriptor → List OpenFileRecord → ℤ → ℤ → Files × ℤ
unfolding redirect
dup2 table files oldfd newfd =
    if not (newfd ==ℤ pos 1) && not (newfd ==ℤ pos 2)
    then ((table, files), err_invalid_fd)
    else elim (get_process_fd table oldfd) [
      | none ↦ ((table, files), err_invalid_fd)
      | some old ↦ redirect table files old oldfd newfd
    ]

-- The state afterwards and the result of the reply.
unfoldable pub handle_fs_dup2 :
    Option (List FileDescriptor)
    → List OpenFileRecord
    → ℤ
    → ℤ
    → (Option (List FileDescriptor) × List OpenFileRecord) × ℤ
unfolding dup2
handle_fs_dup2 none files oldfd newfd = ((none, files), err_invalid_task)
handle_fs_dup2 (some table) files oldfd newfd =
    let (state, err) = dup2 table files oldfd newfd in ((some state.0, state.1), err)
