-- ===== src/Memory/Bootstrap/FirstFit.antt =====
-- `allocate` takes the first run of clear bits that is long enough.
use uchos.Prelude.{
  ℕ, zero, suc, ◌+◌, ◌*◌, ◌<◌, ◌≤◌, ◌≡◌, ◌≢◌, ◌⊎◌, inl, inr, refl, sym, ap, subst, ◌∙◌, true, false,
  Bool-cases, Option, none, some, List, length, ltb, leb, ◌==◌, ==_false, if◌then◌else◌, arith,
  ℕ_discrete, dec_lt,
}
use uchos.Memory.Page.{pages_for_bytes, ptr}
use uchos.Memory.Bootstrap.{
  BootstrapAllocator, entry_size, is_bit_set, set_bits, end_index, find_run, allocate,
}
use uchos.Memory.Bootstrap.Bitmap.{is_bit_set-set_bits, length-set_bits}

-- The `n` bits from `start` on are clear.
abbrev pub Clear : List ℕ → ℕ → ℕ → Type 0
Clear bitmap start n = (j : ℕ) → start ≤ j → j < start + n → is_bit_set bitmap j ≡ false

-- No run of `n` clear bits begins before `start`.
abbrev pub NoneBefore : List ℕ → ℕ → ℕ → Type 0
NoneBefore bitmap n start = (t : ℕ) → t < start → ¬ Clear bitmap t n

module _ (bitmap : List ℕ) (n : ℕ) where
  found_set :
      (rounds i start count : ℕ)
      → is_bit_set bitmap i ≡ true
      → find_run bitmap n (suc rounds) i start count ≡ find_run bitmap n rounds (i + 1) start 0
  unfolding find_run
  found_set rounds i start count e = rw (find_run, e) refl

  found_run :
      (rounds i start count : ℕ)
      → is_bit_set bitmap i ≡ false
      → count + 1 ≡ n
      → find_run bitmap n (suc rounds) i start count ≡ some (if count == 0 then i else start)
  unfolding find_run
  found_run rounds i start count e last = rw (find_run, e) (ground (arith, last))

  found_longer :
      (rounds i start count : ℕ)
      → is_bit_set bitmap i ≡ false
      → count + 1 ≢ n
      → find_run bitmap n (suc rounds) i start count
        ≡ find_run bitmap n rounds (i + 1) (if count == 0 then i else start) (count + 1)
  unfolding find_run
  found_longer rounds i start count e more = rw (find_run, e, ==_false (count + 1) n more) refl

  -- A set bit ends every run that has come up to it.
  none_through :
      (i first : ℕ)
      → NoneBefore bitmap n first
      → i < first + n
      → is_bit_set bitmap i ≡ true
      → NoneBefore bitmap n (i + 1)
  none_through i first earlier near is_set t lt clear = elim (dec_lt t first) [
    | yes before ↦ earlier t before clear
    | no after ↦
        let free = clear i (omega (arith, lt)) (omega (arith, after, near)) in
        let stuck : true ≡ false = sym is_set ∙ free in cc
  ]

  -- What the search promises: the first run up to the end, or none.
  abbrev Finds : ℕ → Option ℕ → Type 0
  Finds end result =
      ((result ≡ none) × ((t : ℕ) → t + n ≤ end → ¬ Clear bitmap t n))
      ⊎ ((start : ℕ) × (result ≡ some start)
          × (start + n ≤ end)
          × Clear bitmap start n
          × NoneBefore bitmap n start)

  -- The run so far begins at `first`.
  find_run-Finds :
      (rounds i start count first : ℕ)
      → first + count ≡ i
      → (count ≢ 0 → start ≡ first)
      → count < n
      → Clear bitmap first count
      → NoneBefore bitmap n first
      → Finds (i + rounds) (find_run bitmap n rounds i start count)
  unfolding find_run
  find_run-Finds zero i start count first at same short clear earlier = inl (
    refl,
    λ t fits run. elim (dec_lt t first) [
      | yes before ↦ earlier t before run
      | no after ↦ absurd (omega (arith, after, fits, at, short))
    ],
  )
  find_run-Finds (suc rounds) i start count first at same short clear earlier =
      let next : i + suc rounds ≡ i + 1 + rounds = omega arith in
      elim (Bool-cases (is_bit_set bitmap i)) [
        | inl is_set ↦
            rw (next, found_set rounds i start count is_set)
              (find_run-Finds rounds (i + 1) start 0 (i + 1) (omega arith) (λ ne. absurd (ne refl))
                (omega (arith, short)) (λ j ge lt. absurd (omega (arith, ge, lt)))
                (none_through i first earlier (omega (arith, at, short)) is_set))
        | inr is_clear ↦
            let begin : (if count == 0 then i else start) ≡ first = ground (arith, at, same) in
            let longer : Clear bitmap first (count + 1) = λ j ge lt. elim (ℕ_discrete j i) [
              | yes here ↦ ap (is_bit_set bitmap) here ∙ is_clear
              | no other ↦ clear j ge (omega (arith, lt, other, at))
            ] in
            elim (ℕ_discrete (count + 1) n) [
              | yes last ↦ inr (
                first,
                found_run rounds i start count is_clear last ∙ ap some begin,
                omega (arith, at, last),
                subst (Clear bitmap first) last longer,
                earlier,
              )
              | no more ↦
                  rw (next, found_longer rounds i start count is_clear more)
                    (find_run-Finds rounds (i + 1) (if count == 0 then i else start) (count + 1)
                      first (omega (arith, at)) (λ ne. begin) (omega (arith, short, more)) longer
                      earlier)
            ]
      ]

-- The result of an allocation of `n` pages: the first clear run, set, or null and no change.
abbrev pub TakesFirst : BootstrapAllocator → ℕ → BootstrapAllocator × ℕ → Type 0
TakesFirst a n result =
    (((t : ℕ) → t + n ≤ end_index a → ¬ Clear a.bitmap t n) × (result ≡ (a, 0)))
    ⊎ ((a' : BootstrapAllocator) × (start : ℕ) × (result ≡ (a', ptr start))
        × (start + n ≤ end_index a)
        × Clear a.bitmap start n
        × NoneBefore a.bitmap n start
        × (a'.memory_end ≡ a.memory_end)
        × (length a'.bitmap ≡ length a.bitmap)
        × ((j : ℕ)
            → is_bit_set a'.bitmap j ≡ (
                if leb start j
                then (if ltb j (start + n) then true else is_bit_set a.bitmap j)
                else is_bit_set a.bitmap j)))

-- For a size of at least one page, in an allocator whose bitmap reaches the end of memory: when no run
-- of that many clear bits lies before the end, `allocate` returns null and changes nothing; else it returns the
-- first page of the first such run, sets exactly the run's bits and leaves the end of memory.
pub allocate-TakesFirst :
    (a : BootstrapAllocator) (size : ℕ)
    → 0 < pages_for_bytes size
    → end_index a ≤ entry_size * length a.bitmap
    → TakesFirst a (pages_for_bytes size) (allocate a size)
unfolding allocate
allocate-TakesFirst a size pos within =
    let n = pages_for_bytes size in
    let whole : 0 + end_index a ≡ end_index a = omega arith in
    let found =
      find_run-Finds a.bitmap n (end_index a) 0 0 0 0 (omega arith) (λ ne. refl) pos
        (λ j ge lt. absurd (omega (arith, lt))) (λ t lt clear. omega (arith, lt)) in
    elim found [
      | inl (fails, no_run) ↦
          inl (λ t fits. no_run t (omega (arith, fits)), rw (allocate, fails) refl)
      | inr (start, found_at, fits, clear, earlier) ↦ inr (
        record a { bitmap = set_bits a.bitmap start n },
        start,
        rw (allocate, found_at) refl,
        omega (arith, fits),
        clear,
        earlier,
        refl,
        length-set_bits a.bitmap start n,
        λ j. is_bit_set-set_bits a.bitmap start n j (omega (arith, fits, within)),
      )
    ]
