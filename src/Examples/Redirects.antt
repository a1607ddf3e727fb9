-- ===== src/Examples/Redirects.antt =====
-- Descriptors and the ledger together at concrete inputs: descriptor 3 has the handle 1.
use uchos.Prelude.{◌≡◌, refl, List, [], ◌∷◌, inr, arith}
use uchos.Common.{pos, fs_fat32_id}
use uchos.Fs.Descriptor.{FdRoute, FileDescriptor, cleared, get_process_fd, used_entry}
use uchos.Fs.OpenFiles.{find_handle, open_file_get}
use uchos.Fs.Handlers.{close_fd, dup2}
use uchos.Fs.Handlers.Accounting.{Dropped, close_fd-standard}
use uchos.Fs.Handlers.Redirection.{Redirected, dup2-Redirected}
use uchos.Examples.Files.{console, file_1, ledger, ledger-Unique}

abbrev routed_1 : FileDescriptor
routed_1 = record { name = 65 ∷ []; route = FdRoute.fs; dest = fs_fat32_id; handle = 1 }

abbrev sharing : List FileDescriptor
sharing = console ∷ routed_1 ∷ console ∷ routed_1 ∷ cleared ∷ []

close_fd-standard_example :
    ((close_fd sharing ledger.open_files (pos 1)).0 ≡ sharing)
    × Dropped ledger.open_files (close_fd sharing ledger.open_files (pos 1)).1 1
unfolding get_process_fd used_entry
close_fd-standard_example =
    close_fd-standard sharing ledger.open_files 1 routed_1 refl refl ledger-Unique

dup2-Redirected_example :
    Redirected ledger.open_files routed_1 2 0 (dup2 sharing ledger.open_files (pos 3) (pos 2))
unfolding get_process_fd used_entry open_file_get find_handle
dup2-Redirected_example =
    dup2-Redirected sharing ledger.open_files (pos 3) 2 routed_1 console file_1 (inr refl) refl refl
      refl (λ e. omega (arith, e)) ledger-Unique
