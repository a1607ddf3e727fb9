-- ===== src/Fs/OpenFiles/References.antt =====
-- The references of the ledger: a record lives exactly while a handle refers to it.
use uchos.Prelude.{
  ℕ, ◌+◌, ◌-◌, ◌≤◌, ◌≡◌, ◌≢◌, refl, sym, ap, ◌∙◌, Option, none, some, List, [], ◌∷◌, leb, ◌==◌,
  if◌then◌else◌, arith, Bool-cases, Option-cases, inl, inr,
}
use uchos.Fs.OpenFiles.{
  OpenFileRecord, free_record, find_handle, open_file_get, write_record, open_file_addref,
  open_file_release,
}

-- How many references a handle has.
abbrev pub count_of : Option OpenFileRecord → ℕ
count_of none = 0
count_of (some r) = r.refcount

abbrev pub references : List OpenFileRecord → ℕ → ℕ
references files h = count_of (open_file_get files h)

-- No handle is in two records.
abbrev pub Unique : List OpenFileRecord → Type 0
Unique [] = Unit
Unique (r ∷ rs) = (r.handle ≢ 0 → find_handle rs r.handle ≡ none) × Unique rs

find-write_self :
    (files : List OpenFileRecord) (h : ℕ) (r new : OpenFileRecord)
    → find_handle files h ≡ some r
    → new.handle ≡ h
    → find_handle (write_record files h new) h ≡ some new
unfolding find_handle write_record
find-write_self [] h r new f e = cc
find-write_self (x ∷ xs) h r new f e = elim (Bool-cases (x.handle == h)) [
  | inl here ↦ rw here (ground (arith, e))
  | inr there ↦ rw there (rw there (find-write_self xs h r new (ground (arith, f, there)) e))
]

-- Freeing the record of a handle.
find-write_free :
    (files : List OpenFileRecord) (h : ℕ)
    → Unique files
    → h ≢ 0
    → find_handle (write_record files h free_record) h ≡ none
unfolding find_handle write_record
find-write_free [] h u ne = refl
find-write_free (x ∷ xs) h u ne = elim (Bool-cases (x.handle == h)) [
  | inl here ↦ rw here (ground (arith, u.0, ne, here))
  | inr there ↦ rw there (rw there (find-write_free xs h u.1 ne))
]

pub find-write_ne :
    (files : List OpenFileRecord) (h other : ℕ) (new : OpenFileRecord)
    → h ≢ other
    → new.handle ≢ other
    → find_handle (write_record files h new) other ≡ find_handle files other
unfolding find_handle write_record
find-write_ne [] h other new ne ne' = refl
find-write_ne (x ∷ xs) h other new ne ne' = elim (Bool-cases (x.handle == h)) [
  | inl here ↦ rw here (ground (arith, here, ne, ne'))
  | inr there ↦
      rw there
        (ap (λ o. if x.handle == other then some x else o) (find-write_ne xs h other new ne ne'))
]

find-handle :
    (files : List OpenFileRecord) (h : ℕ) (r : OpenFileRecord)
    → find_handle files h ≡ some r
    → r.handle ≡ h
unfolding find_handle
find-handle [] h r f = cc f
find-handle (x ∷ xs) h r f = ground (arith, f, find-handle xs h r)

pub get-some :
    (files : List OpenFileRecord) (h : ℕ) (r : OpenFileRecord)
    → open_file_get files h ≡ some r
    → (h ≢ 0) × (find_handle files h ≡ some r) × (r.handle ≡ h)
unfolding open_file_get
get-some files h r g = elim (Bool-cases (h == 0)) [
  | inl zero_handle ↦ ground (arith, g, zero_handle)
  | inr proper ↦
      let found : find_handle files h ≡ some r = ground (arith, g, proper) in
      ((λ e. ground (arith, proper, e)), found, find-handle files h r found)
]

get-write_ne :
    (files : List OpenFileRecord) (h other : ℕ) (new : OpenFileRecord)
    → h ≢ other
    → (other ≢ 0 → new.handle ≢ other)
    → open_file_get (write_record files h new) other ≡ open_file_get files other
unfolding open_file_get
get-write_ne files h other new ne ne' = elim (Bool-cases (other == 0)) [
  | inl none_handle ↦ rw none_handle refl
  | inr proper ↦
      rw proper (find-write_ne files h other new ne (ne' (λ e. ground (arith, proper, e))))
]

pub get-write_self :
    (files : List OpenFileRecord) (h : ℕ) (r new : OpenFileRecord)
    → open_file_get files h ≡ some r
    → new.handle ≡ h
    → open_file_get (write_record files h new) h ≡ some new
unfolding open_file_get
get-write_self files h r new g e =
    let (ne, found, same) = get-some files h r g in
    ground (arith, ne, find-write_self files h r new found e)

get-write_free :
    (files : List OpenFileRecord) (h : ℕ)
    → Unique files
    → open_file_get (write_record files h free_record) h ≡ none
unfolding open_file_get
get-write_free files h u = elim (Bool-cases (h == 0)) [
  | inl none_handle ↦ rw none_handle refl
  | inr proper ↦ rw proper (find-write_free files h u (λ e. ground (arith, proper, e)))
]

-- One more reference to an open handle; every other handle is as before.
pub open_file_addref_lem :
    (files : List OpenFileRecord) (h : ℕ) (r : OpenFileRecord)
    → open_file_get files h ≡ some r
    → (references (open_file_addref files h) h ≡ references files h + 1)
      × ((other : ℕ)
          → h ≢ other
          → open_file_get (open_file_addref files h) other ≡ open_file_get files other)
unfolding open_file_addref
open_file_addref_lem files h r g =
    let (ne, found, same) = get-some files h r g in
    let r' = record r { refcount = r.refcount + 1 } in
    rw (g, open_file_addref)
      (
        ap count_of (get-write_self files h r r' g same),
        λ other apart. get-write_ne files h other r' apart (λ nz e. apart (sym same ∙ e)),
      )

-- In a ledger with no handle twice, a release drops one reference, and the last one frees the
-- record, so that the handle is not found any more; every other handle is as before.
pub open_file_release_lem :
    (files : List OpenFileRecord) (h : ℕ)
    → Unique files
    → (references (open_file_release files h) h ≡ references files h - 1)
      × (references files h ≤ 1 → open_file_get (open_file_release files h) h ≡ none)
      × ((other : ℕ)
          → h ≢ other
          → open_file_get (open_file_release files h) other ≡ open_file_get files other)
unfolding open_file_release
open_file_release_lem files h u = elim (Option-cases (open_file_get files h)) [
  | inl closed ↦
      rw (closed, open_file_release)
        (omega (arith, ap count_of closed), λ few. closed, λ other apart. refl)
  | inr (r, g) ↦
      let (ne, found, same) = get-some files h r g in
      let r' = record r { refcount = r.refcount - 1 } in
      rw (g, open_file_release)
        (elim (Bool-cases (leb r.refcount 1)) [
          | inl last ↦ rw last (
            ground (arith, ap count_of (get-write_free files h u), ap count_of g, last),
            λ few. get-write_free files h u,
            λ other apart. get-write_ne files h other free_record apart (λ nz e. nz (sym e)),
          )
          | inr more ↦ rw more (
            ap count_of (get-write_self files h r r' g same),
            λ few. absurd (ground (arith, more, few, ap count_of g)),
            λ other apart. get-write_ne files h other r' apart (λ nz e. apart (sym same ∙ e)),
          )
        ])
]
