-- ===== src/Fs/Handlers/Accounting.antt =====
-- The handlers account for the references of the ledger.
use uchos.Prelude.{ℕ, ◌-◌, ◌≡◌, ◌≢◌, refl, true, false, none, some, List}
use uchos.Common.{pos}
use uchos.Fs.Descriptor.{
  FileDescriptor, is_standard, get_process_fd, release_process_fd, release_entry,
}
use uchos.Fs.Descriptor.Changes.{get-entry, release_process_fd_lem}
use uchos.Fs.OpenFiles.{OpenFileRecord, open_file_get}
use uchos.Fs.OpenFiles.References.{references, Unique, open_file_release_lem}
use uchos.Fs.Handlers.{close_fd}

-- The references of a ledger after one of `h` has been dropped.
pub record Dropped (files files' : List OpenFileRecord) (h : ℕ) : Type 0 where
  pub fewer : references files' h ≡ references files h - 1
  pub others : (other : ℕ) → h ≢ other → open_file_get files' other ≡ open_file_get files other

close-Dropped :
    (table : List FileDescriptor) (files : List OpenFileRecord) (fd : ℕ) (e : FileDescriptor)
    → get_process_fd table (pos fd) ≡ some e
    → Unique files
    → Dropped files (close_fd table files (pos fd)).1 e.handle
unfolding close_fd
close-Dropped table files fd e h u =
    let (fewer, last, others) = open_file_release_lem files e.handle u in
    rw (h, close_fd) (record { fewer = fewer; others = others })

-- In a ledger with no handle twice, closing a used descriptor other than the standard ones leaves it
-- unused and every other descriptor as before, and drops exactly one reference, of its handle.
pub close_fd_lem :
    (table : List FileDescriptor) (files : List OpenFileRecord) (fd : ℕ) (e : FileDescriptor)
    → get_process_fd table (pos fd) ≡ some e
    → is_standard fd ≡ false
    → Unique files
    → (get_process_fd (close_fd table files (pos fd)).0 (pos fd) ≡ none)
      × ((m : ℕ)
          → fd ≢ m
          → get_process_fd (close_fd table files (pos fd)).0 (pos m) ≡ get_process_fd table (pos m))
      × Dropped files (close_fd table files (pos fd)).1 e.handle
unfolding close_fd
close_fd_lem table files fd e h plain u =
    let (done, gone, others) = release_process_fd_lem table fd e h plain in
    (gone, others, close-Dropped table files fd e h u)

-- Closing a used standard descriptor drops a reference of its handle although the descriptor stays
-- in the table, in a ledger with no handle twice.
pub close_fd-standard :
    (table : List FileDescriptor) (files : List OpenFileRecord) (fd : ℕ) (e : FileDescriptor)
    → get_process_fd table (pos fd) ≡ some e
    → is_standard fd ≡ true
    → Unique files
    → ((close_fd table files (pos fd)).0 ≡ table)
      × Dropped files (close_fd table files (pos fd)).1 e.handle
unfolding close_fd release_process_fd release_entry
close_fd-standard table files fd e h std u =
    let (at, used) = get-entry table fd e h in
    (rw (at, release_process_fd) (rw (std, release_entry) refl), close-Dropped table files fd e h u)
