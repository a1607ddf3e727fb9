-- ===== src/Fs/OpenFiles.antt =====
-- kernel/fs/fat/open_files.cpp: the ledger of open files. A directory entry is its address. A
-- reference count is a natural number: it starts at 1, and a record whose count would be 0 or less
-- is freed.
pub mod References
pub mod Creation
use uchos.Prelude.{
  ℕ, zero, suc, ◌+◌, ◌-◌, ◌%◌, ◌^◌, Bool, true, false, ◌&&◌, not, Option, none, some, List, [], ◌∷◌,
  take, set, leb, ◌==◌, ◌!=◌, if◌then◌else◌,
}
use uchos.Common.{ℤ, pos, invalid_id}
use uchos.Task.State.{Kernel, Task}
use uchos.Task.Scheduler.{get_task}

pub record OpenFileRecord : Type 0 where
  pub handle : ℕ
  pub owner : ℤ
  pub entry : ℕ
  pub offset : ℕ
  pub refcount : ℕ
  pub name : List ℕ

-- `OpenFileRecord{}`.
abbrev pub free_record : OpenFileRecord
free_record = record {
  handle = 0;
  owner = invalid_id;
  entry = 0;
  offset = 0;
  refcount = 0;
  name = [];
}

pub record Ledger : Type 0 where
  pub open_files : List OpenFileRecord
  pub next_handle : ℕ

abbrev pub is_dead : Kernel → OpenFileRecord → Bool
is_dead k r = r.handle != 0 && elim (get_task k r.owner) [ none ↦ true | some t ↦ false ]

unfoldable pub sweep_dead_owners : Kernel → List OpenFileRecord → List OpenFileRecord
sweep_dead_owners k [] = []
sweep_dead_owners k (r ∷ rs) = (if is_dead k r then free_record else r) ∷ sweep_dead_owners k rs

-- The first free slot from `i` on.
unfoldable pub first_free : List OpenFileRecord → ℕ → Option ℕ
first_free [] i = none
first_free (r ∷ rs) i = let rest = first_free rs (i + 1) in if r.handle != 0 then rest else some i

-- The handle after `h`; 0 is skipped when the counter wraps.
unfoldable pub following : ℕ → ℕ
following h = let next = (h + 1) % 2 ^ 32 in if next == 0 then 1 else next

abbrev pub opened : ℕ → ℕ → List ℕ → ℤ → OpenFileRecord
opened handle entry name owner = record {
  handle = handle;
  owner = owner;
  entry = entry;
  offset = 0;
  refcount = 1;
  name = take 12 name;
}

-- One attempt of `open_file_create`.
unfoldable pub create_once : Ledger → ℕ → List ℕ → ℤ → Option (Ledger × ℕ)
unfolding first_free following
create_once l entry name owner = elim (first_free l.open_files 0) [
  | none ↦ none
  | some i ↦ some (
    record {
      open_files = set l.open_files i (opened l.next_handle entry name owner);
      next_handle = following l.next_handle;
    },
    l.next_handle,
  )
]

abbrev pub swept : Kernel → Ledger → Ledger
swept k l = record l { open_files = sweep_dead_owners k l.open_files }

-- The ledger afterwards and the handle, or 0.
unfoldable pub open_file_create : Kernel → Ledger → ℕ → List ℕ → ℤ → Ledger × ℕ
unfolding create_once
open_file_create k l entry name owner = elim (create_once l entry name owner) [
  | some r ↦ r
  | none ↦ elim (create_once (swept k l) entry name owner) [
    | some r ↦ r
    | none ↦ (swept k (swept k l), 0)
  ]
]

unfoldable pub find_handle : List OpenFileRecord → ℕ → Option OpenFileRecord
find_handle [] h = none
find_handle (r ∷ rs) h = let rest = find_handle rs h in if r.handle == h then some r else rest

unfoldable pub open_file_get : List OpenFileRecord → ℕ → Option OpenFileRecord
unfolding find_handle
open_file_get files h = if h == 0 then none else find_handle files h

-- What a write through the pointer of `open_file_get` leaves.
unfoldable pub write_record : List OpenFileRecord → ℕ → OpenFileRecord → List OpenFileRecord
write_record [] h new = []
write_record (r ∷ rs) h new =
    let rest = write_record rs h new in if r.handle == h then new ∷ rs else r ∷ rest

unfoldable pub open_file_addref : List OpenFileRecord → ℕ → List OpenFileRecord
unfolding open_file_get write_record
open_file_addref files h = elim (open_file_get files h) [
  | none ↦ files
  | some r ↦ write_record files h (record r { refcount = r.refcount + 1 })
]

unfoldable pub open_file_release : List OpenFileRecord → ℕ → List OpenFileRecord
unfolding open_file_get write_record
open_file_release files h = elim (open_file_get files h) [
  | none ↦ files
  | some r ↦
      if leb r.refcount 1
      then write_record files h free_record
      else write_record files h (record r { refcount = r.refcount - 1 })
]
