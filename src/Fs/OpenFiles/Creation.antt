-- ===== src/Fs/OpenFiles/Creation.antt =====
-- Opening a file: a handle that no record has.
use uchos.Prelude.{ℕ, ◌<◌, ◌≡◌, ◌≢◌, some, List, All}
use uchos.Common.{ℤ}
use uchos.Fs.OpenFiles.{OpenFileRecord, Ledger, opened, open_file_get}
use uchos.Fs.OpenFiles.References.{Unique}

-- Every handle is below `n`.
abbrev pub Below : ℕ → List OpenFileRecord → Type 0
Below n files = All (λ r. r.handle < n) files

pub record Sound (l : Ledger) : Type 0 where
  pub unique : Unique l.open_files
  pub below : Below l.next_handle l.open_files
  pub proper : l.next_handle ≢ 0

-- What a successful opening leaves: a sound ledger, in which the handle finds the new record.
pub record IsOpen (entry : ℕ) (name : List ℕ) (owner : ℤ) (r : Ledger × ℕ) : Type 0 where
  pub sound : Sound r.0
  pub proper : r.1 ≢ 0
  pub found : open_file_get r.0.open_files r.1 ≡ some (opened r.1 entry name owner)
