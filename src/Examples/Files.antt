-- ===== src/Examples/Files.antt =====
-- kernel/fs at concrete inputs: a descriptor table whose entry 3 is an open file, and a ledger of
-- two slots.
use uchos.Prelude.{ℕ, ◌-◌, ◌≤◌, ◌≡◌, ◌≢◌, refl, none, List, [], ◌∷◌}
use uchos.Common.{pos, shell_id, fs_fat32_id}
use uchos.Fs.Descriptor.{FdRoute, FileDescriptor, cleared, get_process_fd, release_all_process_fds}
use uchos.Fs.Descriptor.Exit.{release_all_process_fds_lem}
use uchos.Fs.OpenFiles.{
  OpenFileRecord, Ledger, free_record, opened, open_file_get, find_handle, open_file_release,
}
use uchos.Fs.OpenFiles.References.{references, Unique, open_file_release_lem}

abbrev pub console : FileDescriptor
console = record { name = 115 ∷ []; route = FdRoute.console; dest = shell_id; handle = 0 }

abbrev file_7 : FileDescriptor
file_7 = record { name = 65 ∷ []; route = FdRoute.fs; dest = fs_fat32_id; handle = 7 }

abbrev pub table : List FileDescriptor
table = console ∷ console ∷ console ∷ file_7 ∷ cleared ∷ []

release_all_process_fds_lem_example : get_process_fd (release_all_process_fds table) (pos 3) ≡ none
release_all_process_fds_lem_example = release_all_process_fds_lem table 3

abbrev pub file_1 : OpenFileRecord
file_1 = record (opened 1 4096 (65 ∷ []) (pos 2)) { refcount = 2 }

abbrev pub ledger : Ledger
ledger = record { open_files = file_1 ∷ free_record ∷ []; next_handle = 2 }

pub ledger-Unique : Unique ledger.open_files
unfolding find_handle
ledger-Unique = ((λ ne. refl), ((λ ne. absurd (ne refl)), tt))

open_file_release_lem_example :
    (references (open_file_release ledger.open_files 1) 1 ≡ references ledger.open_files 1 - 1)
    × (references ledger.open_files 1 ≤ 1
        → open_file_get (open_file_release ledger.open_files 1) 1 ≡ none)
    × ((other : ℕ)
        → 1 ≢ other
        → open_file_get (open_file_release ledger.open_files 1) other
          ≡ open_file_get ledger.open_files other)
open_file_release_lem_example = open_file_release_lem ledger.open_files 1 ledger-Unique
