-- ===== src/Fs/Descriptor/Changes.antt =====
-- Allocating and releasing descriptors.
use uchos.Prelude.{
  ℕ, ◌<◌, ◌≡◌, ◌≢◌, ◌⊎◌, refl, subst, false, none, some, List, ◌∷◌, length, get_elem?, get_elem?-lt,
  take, set, arith, Option-cases, inl, inr,
}
use uchos.Common.{ℤ, pos, negsuc, no_fd, fs_fat32_id, ok}
use uchos.Fs.Descriptor.{
  FdRoute, FileDescriptor, is_unused, is_standard, cleared, name_length, first_unused,
  allocate_process_fd, used_entry, get_process_fd, release_entry, release_process_fd,
}
use uchos.Fs.Descriptor.Lookup.{get-set_self, get-set_ne, first_unused-pos, first_unused-none}

-- The entry that an allocation writes.
abbrev pub fs_entry : List ℕ → ℕ → FileDescriptor
fs_entry name handle = record {
  name = take name_length name;
  route = FdRoute.fs;
  dest = fs_fat32_id;
  handle = handle;
}

-- `t'` is `t` with the lowest unused descriptor, `d`, now used for the entry.
pub record Given (t t' : List FileDescriptor) (d : ℕ) (e : FileDescriptor) : Type 0 where
  pub inside : d < length t
  pub free : get_process_fd t (pos d) ≡ none
  pub lowest : (m : ℕ) → m < d → get_process_fd t (pos m) ≢ none
  pub stored : get_process_fd t' (pos d) ≡ some e
  pub others : (m : ℕ) → d ≢ m → get_process_fd t' (pos m) ≡ get_process_fd t (pos m)

-- Opening under a name that is not empty gives the lowest unused descriptor the new entry and leaves
-- the others; it fails, with the table as it was, exactly when every descriptor is used.
pub allocate_process_fd_lem :
    (t : List FileDescriptor) (c : ℕ) (cs : List ℕ) (handle : ℕ)
    → ((allocate_process_fd t (c ∷ cs) handle ≡ (t, no_fd))
        × ((m : ℕ) → m < length t → get_process_fd t (pos m) ≢ none))
      ⊎ ((d : ℕ) × (t' : List FileDescriptor) × (allocate_process_fd t (c ∷ cs) handle
            ≡ (t', pos d))
          × Given t t' d (fs_entry (c ∷ cs) handle))
unfolding allocate_process_fd used_entry
allocate_process_fd_lem t c cs handle = by_search (first_unused t 0) refl
  where
    by_search :
        (r : ℤ)
        → first_unused t 0 ≡ r
        → ((allocate_process_fd t (c ∷ cs) handle ≡ (t, no_fd))
            × ((m : ℕ) → m < length t → get_process_fd t (pos m) ≢ none))
          ⊎ ((d : ℕ) × (t' : List FileDescriptor) × (allocate_process_fd t (c ∷ cs) handle
                ≡ (t', pos d))
              × Given t t' d (fs_entry (c ∷ cs) handle))
    by_search (negsuc n) h = inl (rw (h, allocate_process_fd) refl, first_unused-none t 0 n h)
    by_search (pos d) h =
        let (j, at, inside, free, lowest) = first_unused-pos t 0 d h in
        let same : j ≡ d = omega (arith, at) in
        inr (
          d,
          set t d (fs_entry (c ∷ cs) handle),
          rw (h, allocate_process_fd) refl,
          record {
            inside = omega (arith, same, inside);
            free = subst (λ x. get_process_fd t (pos x) ≡ none) same free;
            lowest = subst (λ x. (m : ℕ) → m < x → get_process_fd t (pos m) ≢ none) same lowest;
            stored = get-set_self t d (fs_entry (c ∷ cs) handle) (omega (arith, same, inside));
            others = λ m ne. get-set_ne t d m (fs_entry (c ∷ cs) handle) ne;
          },
        )

-- A used descriptor is an entry of the table that is not unused.
pub get-entry :
    (t : List FileDescriptor) (fd : ℕ) (e : FileDescriptor)
    → get_process_fd t (pos fd) ≡ some e
    → (get_elem? t fd ≡ some e) × (is_unused e ≡ false)
unfolding get_process_fd used_entry
get-entry t fd e h = elim (Option-cases (get_elem? t fd)) [
  | inl out ↦ absurd (cc)
  | inr (u, at) ↦ ground (arith, at, h)
]

-- Releasing a used descriptor other than the standard ones succeeds: it is unused then, and every
-- other one is as before.
pub release_process_fd_lem :
    (t : List FileDescriptor) (fd : ℕ) (e : FileDescriptor)
    → get_process_fd t (pos fd) ≡ some e
    → is_standard fd ≡ false
    → ((release_process_fd t (pos fd)).1 ≡ ok)
      × (get_process_fd (release_process_fd t (pos fd)).0 (pos fd) ≡ none)
      × ((m : ℕ)
          → fd ≢ m
          → get_process_fd (release_process_fd t (pos fd)).0 (pos m) ≡ get_process_fd t (pos m))
unfolding release_process_fd release_entry used_entry
release_process_fd_lem t fd e h plain =
    let (at, used) = get-entry t fd e h in
    rw (at, release_process_fd)
      (rw (plain, used, release_entry)
        (
          refl,
          get-set_self t fd cleared (get_elem?-lt t fd at),
          λ m ne. get-set_ne t fd m cleared ne,
        ))
