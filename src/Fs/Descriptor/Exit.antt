-- ===== src/Fs/Descriptor/Exit.antt =====
-- The descriptors at the exit of a process.
use uchos.Prelude.{
  ℕ, zero, suc, ◌+◌, ◌<◌, ◌≤◌, ◌≡◌, ◌≢◌, ◌⊎◌, refl, sym, ap, subst, ◌∙◌, true, false, ◌||◌, none,
  some, List, [], ◌∷◌, length, length-set, get_elem?, get_elem?-lt, set, if◌then◌else◌, arith,
  Bool-cases, Option-cases, inl, inr, ℕ_discrete, dec_lt,
}
use uchos.Common.{pos}
use uchos.Fs.Descriptor.{
  FileDescriptor, is_unused, is_standard, cleared, used_entry, get_process_fd, release_entry,
  release_process_fd, release_round, release_from, release_all_process_fds,
}
use uchos.Fs.Descriptor.Lookup.{get-set_self, get-set_ne}

-- What a round does: the entry itself, unless it is standard, and every other one.
round-none :
    (t : List FileDescriptor) (i : ℕ) (e : FileDescriptor)
    → get_elem? t i ≡ some e
    → is_standard i || is_unused e ≡ true
    → release_round t i ≡ t
unfolding release_round
round-none t i e at h = rw (at, release_round) (rw h refl)

round-some :
    (t : List FileDescriptor) (i : ℕ) (e : FileDescriptor)
    → get_elem? t i ≡ some e
    → is_standard i || is_unused e ≡ false
    → release_round t i ≡ set t i cleared
unfolding release_round release_process_fd release_entry
round-some t i e at h =
    rw (at, release_round)
      (rw h (
        rw (at, release_process_fd)
          (let plain : is_standard i ≡ false = ground (arith, h) in
            let used : is_unused e ≡ false = ground (arith, h) in
            rw (plain, used, release_entry) refl)))

round-out : (t : List FileDescriptor) (i : ℕ) → get_elem? t i ≡ none → release_round t i ≡ t
unfolding release_round
round-out t i h = rw (h, release_round) refl

-- A round by its cases.
round-cases :
    (t : List FileDescriptor) (i : ℕ)
    → ((release_round t i ≡ t) × ((is_standard i ≡ true) ⊎ (get_process_fd t (pos i) ≡ none)))
      ⊎ ((release_round t i ≡ set t i cleared) × (i < length t) × (is_standard i ≡ false))
unfolding get_process_fd used_entry
round-cases t i = elim (Option-cases (get_elem? t i)) [
  | inl out ↦ inl (round-out t i out, inr (rw (out, get_process_fd) refl))
  | inr (e, at) ↦ elim (Bool-cases (is_standard i || is_unused e)) [
    | inr plain ↦ inr (round-some t i e at plain, get_elem?-lt t i at, ground (arith, plain))
    | inl kept ↦ inl (
      round-none t i e at kept,
      elim (Bool-cases (is_standard i)) [
        | inl std ↦ inl std
        | inr other ↦ inr (
            rw (at, get_process_fd)
              (let unused : is_unused e ≡ true = ground (arith, kept, other) in rw unused refl))
      ],
    )
  ]
]

round-keeps :
    (t : List FileDescriptor) (i m : ℕ)
    → (i ≢ m) ⊎ (is_standard m ≡ true)
    → get_process_fd (release_round t i) (pos m) ≡ get_process_fd t (pos m)
round-keeps t i m why = elim (round-cases t i) [
  | inl kept ↦ ap (λ x. get_process_fd x (pos m)) kept.0
  | inr gone ↦
      ap (λ x. get_process_fd x (pos m)) gone.0 ∙ get-set_ne t i m cleared (apart gone.2 why)
]
  where
    apart : is_standard i ≡ false → (i ≢ m) ⊎ (is_standard m ≡ true) → i ≢ m
    apart plain (inl ne) = ne
    apart plain (inr std) = λ e. absurd (cc)

round-clears :
    (t : List FileDescriptor) (i : ℕ)
    → is_standard i ≡ false
    → get_process_fd (release_round t i) (pos i) ≡ none
unfolding used_entry
round-clears t i plain = elim (round-cases t i) [
  | inl kept ↦ ap (λ x. get_process_fd x (pos i)) kept.0 ∙ unless_standard kept.1
  | inr gone ↦ ap (λ x. get_process_fd x (pos i)) gone.0 ∙ get-set_self t i cleared gone.1
]
  where
    unless_standard :
        (is_standard i ≡ true) ⊎ (get_process_fd t (pos i) ≡ none) → get_process_fd t (pos i) ≡ none
    unless_standard (inl std) = absurd (cc)
    unless_standard (inr free) = free

-- The rounds leave standard descriptors, and those outside their range, alone.
release_from-keeps :
    (rounds i : ℕ) (t : List FileDescriptor) (m : ℕ)
    → (m < i) ⊎ (is_standard m ≡ true)
    → get_process_fd (release_from rounds i t) (pos m) ≡ get_process_fd t (pos m)
unfolding release_from
release_from-keeps zero i t m why = refl
release_from-keeps (suc rounds) i t m why =
    release_from-keeps rounds (i + 1) (release_round t i) m (later why)
    ∙ round-keeps t i m (apart why)
  where
    later : (m < i) ⊎ (is_standard m ≡ true) → (m < i + 1) ⊎ (is_standard m ≡ true)
    later (inl lt) = inl (omega (arith, lt))
    later (inr std) = inr std

    apart : (m < i) ⊎ (is_standard m ≡ true) → (i ≢ m) ⊎ (is_standard m ≡ true)
    apart (inl lt) = inl (λ e. omega (arith, lt, e))
    apart (inr std) = inr std

release_from-clears :
    (rounds i : ℕ) (t : List FileDescriptor) (m : ℕ)
    → is_standard m ≡ false
    → i ≤ m
    → m < i + rounds
    → get_process_fd (release_from rounds i t) (pos m) ≡ none
unfolding release_from
release_from-clears zero i t m plain lo hi = absurd (omega (arith, lo, hi))
release_from-clears (suc rounds) i t m plain lo hi = elim (ℕ_discrete i m) [
  | yes same ↦
      release_from-keeps rounds (i + 1) (release_round t i) m (inl (omega (arith, same)))
      ∙ subst (λ x. get_process_fd (release_round t i) (pos x) ≡ none) same
          (round-clears t i (subst (λ x. is_standard x ≡ false) (sym same) plain))
  | no other ↦
      release_from-clears rounds (i + 1) (release_round t i) m plain (omega (arith, lo, other))
        (omega (arith, hi))
]

-- A descriptor outside the table is not used.
get-out : (t : List FileDescriptor) (m : ℕ) → length t ≤ m → get_process_fd t (pos m) ≡ none
unfolding get_process_fd
get-out [] m h = refl
get-out (e ∷ es) zero h = absurd (omega (arith, h))
get-out (e ∷ es) (suc m) h = get-out es m (omega (arith, h))

length-round : (t : List FileDescriptor) (i : ℕ) → length (release_round t i) ≡ length t
length-round t i = elim (round-cases t i) [
  | inl kept ↦ ap length kept.0
  | inr gone ↦ ap length gone.0 ∙ length-set t i cleared
]

length-release_from :
    (rounds i : ℕ) (t : List FileDescriptor) → length (release_from rounds i t) ≡ length t
unfolding release_from
length-release_from zero i t = refl
length-release_from (suc rounds) i t =
    length-release_from rounds (i + 1) (release_round t i) ∙ length-round t i

-- After the release of all descriptors only the standard ones can be used, and they are as before.
pub release_all_process_fds_lem :
    (t : List FileDescriptor) (fd : ℕ)
    → get_process_fd (release_all_process_fds t) (pos fd)
      ≡ (if is_standard fd then get_process_fd t (pos fd) else none)
unfolding release_all_process_fds
release_all_process_fds_lem t fd = elim (Bool-cases (is_standard fd)) [
  | inl std ↦ rw std (release_from-keeps (length t) 0 t fd (inr std))
  | inr plain ↦ rw plain (elim (dec_lt fd (length t)) [
    | yes inside ↦ release_from-clears (length t) 0 t fd plain (omega arith) (omega (arith, inside))
    | no outside ↦
        get-out (release_from (length t) 0 t) fd
          (omega (arith, outside, length-release_from (length t) 0 t))
  ])
]
