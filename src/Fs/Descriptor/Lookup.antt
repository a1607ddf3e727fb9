-- ===== src/Fs/Descriptor/Lookup.antt =====
-- What each operation on a descriptor table does to every lookup.
use uchos.Prelude.{
  ℕ, zero, suc, ◌+◌, ◌<◌, ◌≡◌, ◌≢◌, refl, sym, ap, ◌∙◌, false, none, some, List, [], ◌∷◌, length,
  get_elem?, get_elem?-set_self, get_elem?-set_ne, set, leb, arith, Bool-cases, Option-cases, inl,
  inr,
}
use uchos.Common.{ℤ, pos, negsuc, ok}
use uchos.Fs.Descriptor.{
  FileDescriptor, is_unused, first_unused, used_entry, get_process_fd, dup_process_fd,
  copy_fd_table,
}

-- A write to one entry.
pub get-set_self :
    (t : List FileDescriptor) (fd : ℕ) (e : FileDescriptor)
    → fd < length t
    → get_process_fd (set t fd e) (pos fd) ≡ used_entry e
unfolding get_process_fd
get-set_self t fd e h = rw (get_elem?-set_self t fd e h, get_process_fd) refl

pub get-set_ne :
    (t : List FileDescriptor) (fd other : ℕ) (e : FileDescriptor)
    → fd ≢ other
    → get_process_fd (set t fd e) (pos other) ≡ get_process_fd t (pos other)
unfolding get_process_fd
get-set_ne t fd other e ne = rw (get_elem?-set_ne t {i = fd} {j = other} e ne, get_process_fd) refl

-- A copied table answers every lookup as the original does.
copy_at :
    (t : List FileDescriptor) (fd : ℕ)
    → get_process_fd (copy_fd_table t) (pos fd) ≡ get_process_fd t (pos fd)
unfolding get_process_fd copy_fd_table used_entry
copy_at [] fd = refl
copy_at (e ∷ es) zero = elim (Bool-cases (is_unused e)) [
  | inl unused ↦ rw unused refl
  | inr used ↦ rw used (rw used refl)
]
copy_at (e ∷ es) (suc fd) = copy_at es fd

-- The table that a forked child gets answers every lookup as its parent's does.
pub get_process_fd-copy_fd_table :
    (t : List FileDescriptor) (fd : ℤ) → get_process_fd (copy_fd_table t) fd ≡ get_process_fd t fd
unfolding get_process_fd
get_process_fd-copy_fd_table t (pos fd) = copy_at t fd
get_process_fd-copy_fd_table t (negsuc n) = refl

used-itself : (e u : FileDescriptor) → used_entry e ≡ some u → used_entry u ≡ some u
unfolding used_entry
used-itself e u h = ground arith

got-used :
    (t : List FileDescriptor) (fd : ℤ) (e : FileDescriptor)
    → get_process_fd t fd ≡ some e
    → used_entry e ≡ some e
unfolding get_process_fd
got-used t (negsuc n) e h = cc h
got-used t (pos fd) e h = elim (Option-cases (get_elem? t fd)) [
  | inl out ↦ absurd (cc)
  | inr (u, at) ↦
      used-itself u e (sym (ap (λ o. elim o [ none ↦ none | some x ↦ used_entry x ]) at) ∙ h)
]

-- `dup_process_fd` of a used descriptor onto one inside the table succeeds: the new descriptor
-- answers as the old one did, and every other one as before.
pub dup_process_fd_lem :
    (t : List FileDescriptor) (oldfd : ℤ) (newfd : ℕ) (e : FileDescriptor)
    → get_process_fd t oldfd ≡ some e
    → newfd < length t
    → ((dup_process_fd t oldfd (pos newfd)).1 ≡ ok)
      × (get_process_fd (dup_process_fd t oldfd (pos newfd)).0 (pos newfd) ≡ get_process_fd t oldfd)
      × ((other : ℕ)
          → newfd ≢ other
          → get_process_fd (dup_process_fd t oldfd (pos newfd)).0 (pos other)
            ≡ get_process_fd t (pos other))
unfolding dup_process_fd
dup_process_fd_lem t oldfd newfd e old h =
    let room : leb (length t) newfd ≡ false = ground (arith, h) in
    rw (old, room, dup_process_fd)
      (
        refl,
        get-set_self t newfd e h ∙ got-used t oldfd e old,
        λ other ne. get-set_ne t newfd other e ne,
      )

earlier :
    (e : FileDescriptor) (es : List FileDescriptor) (j : ℕ)
    → is_unused e ≡ false
    → ((m : ℕ) → m < j → get_process_fd es (pos m) ≢ none)
    → (m : ℕ) → m < suc j
    → get_process_fd (e ∷ es) (pos m) ≢ none
unfolding get_process_fd used_entry
earlier e es j used before zero lt = λ h. ground (arith, h, used)
earlier e es j used before (suc m) lt = before m (omega (arith, lt))

-- The search for an unused entry.
pub first_unused-pos :
    (t : List FileDescriptor) (i d : ℕ)
    → first_unused t i ≡ pos d
    → (j : ℕ) × (d ≡ i + j)
      × (j < length t)
      × (get_process_fd t (pos j) ≡ none)
      × ((m : ℕ) → m < j → get_process_fd t (pos m) ≢ none)
unfolding first_unused get_process_fd used_entry
first_unused-pos [] i d h = absurd (cc h)
first_unused-pos (e ∷ es) i d h = elim (Bool-cases (is_unused e)) [
  | inl unused ↦
      (0, ground (arith, h), omega arith, rw unused refl, λ m lt. absurd (omega (arith, lt)))
  | inr used ↦
      let (j, at, inside, free, before) = first_unused-pos es (i + 1) d (ground (arith, h)) in
      (suc j, omega (arith, at), omega (arith, inside), free, earlier e es j used before)
]

pub first_unused-none :
    (t : List FileDescriptor) (i n : ℕ)
    → first_unused t i ≡ negsuc n
    → (m : ℕ) → m < length t
    → get_process_fd t (pos m) ≢ none
unfolding first_unused get_process_fd used_entry
first_unused-none [] i n h m lt = absurd (omega (arith, lt))
first_unused-none (e ∷ es) i n h zero lt = λ g. ground (arith, g, h)
first_unused-none (e ∷ es) i n h (suc m) lt =
    first_unused-none es (i + 1) n (ground (arith, h)) m (omega (arith, lt))
