-- ===== src/Fs/Handlers/Redirection.antt =====
-- The redirection of a standard descriptor to an open file.
use uchos.Prelude.{
  ℕ, ◌+◌, ◌-◌, ◌<◌, ◌≡◌, ◌≢◌, ◌⊎◌, refl, sym, ap, subst, ◌∙◌, false, ◌&&◌, not, none, some, List,
  [], ◌∷◌, length, get_elem?-lt, ◌==◌, arith, Bool-cases, inl, inr,
}
use uchos.Common.{ℤ, pos, ◌==ℤ◌, ok}
use uchos.Fs.Descriptor.{FileDescriptor, get_process_fd}
use uchos.Fs.Descriptor.Lookup.{dup_process_fd_lem}
use uchos.Fs.Descriptor.Changes.{get-entry}
use uchos.Fs.OpenFiles.{OpenFileRecord, find_handle, open_file_get, write_record, open_file_addref}
use uchos.Fs.OpenFiles.References.{
  references, count_of, Unique, find-write_ne, get-some, open_file_addref_lem,
  open_file_release_lem,
}
use uchos.Fs.Handlers.{Files, dup2, redirect, replaced_handle}

Unique-write :
    (files : List OpenFileRecord) (h : ℕ) (new : OpenFileRecord)
    → new.handle ≡ h
    → Unique files
    → Unique (write_record files h new)
unfolding write_record
Unique-write [] h new e u = tt
Unique-write (x ∷ xs) h new e u = elim (Bool-cases (x.handle == h)) [
  | inl here ↦
      let same : x.handle ≡ new.handle = ground (arith, here, e) in
      rw here (subst (λ n. n ≢ 0 → find_handle xs n ≡ none) same u.0, u.1)
  | inr there ↦
      let apart : h ≢ x.handle = λ q. ground (arith, there, q) in
      rw there (
        λ ne. find-write_ne xs h x.handle new apart (λ q. apart (sym e ∙ q)) ∙ u.0 ne,
        Unique-write xs h new e u.1,
      )
]

-- A further reference keeps the handles apart.
Unique-addref :
    (files : List OpenFileRecord) (h : ℕ) (r : OpenFileRecord)
    → open_file_get files h ≡ some r
    → Unique files
    → Unique (open_file_addref files h)
unfolding open_file_addref
Unique-addref files h r g u =
    rw (g, open_file_addref)
      (Unique-write files h (record r { refcount = r.refcount + 1 }) (get-some files h r g).2 u)

-- The descriptor `newfd` answers as `old`, whose handle has one reference more; the handle
-- `replaced` has one fewer.
pub record Redirected (files : List OpenFileRecord) (old : FileDescriptor) (newfd replaced : ℕ)
    (r : Files × ℤ) : Type 0 where
  pub done : r.1 ≡ ok
  pub routed : get_process_fd r.0.0 (pos newfd) ≡ some old
  pub more : references r.0.1 old.handle ≡ references files old.handle + 1
  pub fewer : references r.0.1 replaced ≡ references files replaced - 1

module _ (table : List FileDescriptor) (files : List OpenFileRecord) (oldfd : ℤ) (newfd : ℕ)
    (old new : FileDescriptor) (r : OpenFileRecord) (from : get_process_fd table oldfd ≡ some old)
    (onto : get_process_fd table (pos newfd) ≡ some new)
    (opened : open_file_get files old.handle ≡ some r) (apart : old.handle ≢ new.handle)
    (unique : Unique files) where
  inside : newfd < length table
  inside = get_elem?-lt table newfd (get-entry table newfd new onto).0

  replaced : replaced_handle table (pos newfd) ≡ new.handle
  replaced =
      let (at, used) = get-entry table newfd new onto in rw (at, replaced_handle) (rw used refl)

  redirect-Redirected :
      Redirected files old newfd new.handle (redirect table files old oldfd (pos newfd))
  unfolding redirect
  redirect-Redirected =
      let (fine, copied, others) = dup_process_fd_lem table oldfd newfd old from inside in
      let added = open_file_addref_lem files old.handle r opened in
      let released =
        open_file_release_lem (open_file_addref files old.handle) new.handle
          (Unique-addref files old.handle r opened unique) in
      rw (fine, redirect)
        (rw replaced (record {
          done = refl;
          routed = copied ∙ from;
          more = ap count_of (released.2 old.handle (λ e. apart (sym e))) ∙ added.0;
          fewer = released.0 ∙ ap (λ o. count_of o - 1) (added.1 new.handle apart);
        }))

-- In a ledger with no handle twice, redirecting the used descriptor 1 or 2 to a descriptor with an
-- open handle, another one, succeeds: it answers as that one, whose handle has one reference more,
-- and the handle that it had before has one fewer.
pub dup2-Redirected :
    (table : List FileDescriptor) (files : List OpenFileRecord) (oldfd : ℤ) (newfd : ℕ)
    (old new : FileDescriptor) (r : OpenFileRecord)
    → (newfd ≡ 1) ⊎ (newfd ≡ 2)
    → get_process_fd table oldfd ≡ some old
    → get_process_fd table (pos newfd) ≡ some new
    → open_file_get files old.handle ≡ some r
    → old.handle ≢ new.handle
    → Unique files
    → Redirected files old newfd new.handle (dup2 table files oldfd (pos newfd))
unfolding dup2
dup2-Redirected table files oldfd newfd old new r output from onto opened apart unique =
    rw (allowed output, dup2)
      (rw from
        (redirect-Redirected table files oldfd newfd old new r from onto opened apart unique))
  where
    allowed :
        (newfd ≡ 1) ⊎ (newfd ≡ 2) → not (pos newfd ==ℤ pos 1) && not (pos newfd ==ℤ pos 2) ≡ false
    allowed (inl e) = ground (arith, e)
    allowed (inr e) = ground (arith, e)
