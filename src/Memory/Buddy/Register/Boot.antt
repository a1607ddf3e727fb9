-- ===== src/Memory/Buddy/Register/Boot.antt =====
-- At boot the free pages become free blocks, and no other page does.
use uchos.Prelude.{
  ℕ, zero, suc, ◌+◌, ◌^◌, ◌<◌, ◌≤◌, ◌≡◌, ◌≢◌, refl, subst, Bool, true, false, List, [], ◌∷◌, length,
  get_or, ltb, lt→ltb, ◌==◌, if◌then◌else◌, arith, ℕ_discrete, ◌⊎◌, Bool-cases, inl, inr,
}
use uchos.Memory.Page.Status.{used}
use uchos.Memory.Buddy.{FreeLists, max_order, some, none}
use uchos.Memory.Buddy.Cover.{cover, cover_upto, WellFormed}
use uchos.Memory.Buddy.Allocate.{Inv}
use uchos.Memory.Buddy.Register.{
  register_memory_blocks, scan_pages, initialize_memory_manager, registered, pools_hold,
}
use uchos.Memory.Buddy.Register.Loop.{in_run, Registers, Registers-nil}
use uchos.Memory.Buddy.Register.Runs.{register_memory_blocks-Registers}

-- 1 for a free page among those from index `i` on, else 0.
abbrev frees : List Bool → ℕ → ℕ → ℕ
frees [] i p = 0
frees (is_used ∷ pages) i p =
    (if i == p then (if is_used then 0 else 1) else 0) + frees pages (i + 1) p

frees-below : (pages : List Bool) (i p : ℕ) → p < i → frees pages i p ≡ 0
frees-below [] i p lt = refl
frees-below (u ∷ pages) i p lt = ground (arith, lt, frees-below pages (i + 1) p (omega (arith, lt)))

frees-used :
    (pages : List Bool) (i k : ℕ)
    → k < length pages
    → frees pages i (i + k) + (if get_or pages k true then 1 else 0) ≡ 1
frees-used [] i k lt = absurd (omega (arith, lt))
frees-used (u ∷ pages) i zero lt =
    let above = frees-below pages (i + 1) (i + 0) (omega arith) in ground (arith, above)
frees-used (u ∷ pages) i (suc k) lt =
    let next : i + suc k ≡ i + 1 + k = omega arith in
    let rest = frees-used pages (i + 1) k (omega (arith, lt)) in rw next (ground (arith, rest))

cover_upto-nil : (n p : ℕ) → cover_upto n (λ order. []) p ≡ 0
cover_upto-nil zero p = refl
cover_upto-nil (suc n) p = omega (arith, cover_upto-nil n p)

cover-nil : (p : ℕ) → cover (λ order. []) p ≡ 0
unfolding cover
cover-nil p = cover_upto-nil max_order p

-- A run that may be empty.
flush-Registers :
    (pages n start : ℕ) (lists : FreeLists)
    → pages ≤ 2 ^ 20
    → (n ≢ 0 → start + n ≤ pages)
    → WellFormed pages lists
    → Registers pages lists
        (if ltb 0 n then register_memory_blocks lists n start else lists)
        start
        n
flush-Registers pages zero start lists size inside wf = Registers-nil pages start lists wf
flush-Registers pages (suc n) start lists size inside wf = rw (lt→ltb 0 (suc n) (omega arith)) (
    register_memory_blocks-Registers pages (suc n) start lists size (inside (λ e. omega (arith, e)))
      wf)

-- The scan covers the run before it and the free pages ahead.
record Scans (pages : ℕ) (lists lists' : FreeLists) (start n : ℕ) (ahead : List Bool) (i : ℕ)
    : Type 0 where
  well_formed : WellFormed pages lists'
  cover_after : (p : ℕ) → cover lists' p ≡ cover lists p + in_run start n p + frees ahead i p

scan_pages-Scans :
    (pages : ℕ) (ahead : List Bool) (i start n : ℕ) (lists : FreeLists)
    → pages ≤ 2 ^ 20
    → i + length ahead ≡ pages
    → (n ≢ 0 → start + n ≡ i)
    → WellFormed pages lists
    → Scans pages lists (scan_pages ahead i start n lists) start n ahead i
unfolding scan_pages
scan_pages-Scans pages [] i start n lists size whole run wf =
    let flushed =
      flush-Registers pages n start lists size (λ ne. omega (arith, run ne, whole)) wf in
    record {
      well_formed = flushed.well_formed;
      cover_after = λ p. omega (arith, flushed.cover_after p);
    }
scan_pages-Scans pages (true ∷ ahead) i start n lists size whole run wf =
    let flushed =
      flush-Registers pages n start lists size (λ ne. omega (arith, run ne, whole)) wf in
    let lists' : FreeLists = if ltb 0 n then register_memory_blocks lists n start else lists in
    let rest =
      scan_pages-Scans pages ahead (i + 1) start 0 lists' size (omega (arith, whole))
        (λ ne. absurd (ne refl)) flushed.well_formed in
    record {
      well_formed = rest.well_formed;
      cover_after = λ p.
          let none_left : in_run start 0 p ≡ 0 = ground arith in
          let here : frees (true ∷ ahead) i p ≡ frees ahead (i + 1) p = ground arith in
          omega (arith, here, none_left, flushed.cover_after p, rest.cover_after p);
    }
scan_pages-Scans pages (false ∷ ahead) i start n lists size whole run wf = elim (ℕ_discrete n 0) [
  | yes empty ↦
      let rest =
        scan_pages-Scans pages ahead (i + 1) i (n + 1) lists size (omega (arith, whole))
          (λ ne. omega (arith, empty)) wf in
      let first : (if n == 0 then i else start) ≡ i = ground (arith, empty) in
      rw first (record {
        well_formed = rest.well_formed;
        cover_after = λ p.
            let step : in_run i (n + 1) p + frees ahead (i + 1) p
                ≡ in_run start n p + frees (false ∷ ahead) i p =
              ground (arith, empty) in
            omega (arith, step, rest.cover_after p);
      })
  | no more ↦
      let rest =
        scan_pages-Scans pages ahead (i + 1) start (n + 1) lists size (omega (arith, whole))
          (λ ne. omega (arith, run more)) wf in
      let same : (if n == 0 then i else start) ≡ start = ground (arith, more) in
      let next = run more in
      rw same (record {
        well_formed = rest.well_formed;
        cover_after = λ p.
            let step : in_run start (n + 1) p + frees ahead (i + 1) p
                ≡ in_run start n p + frees (false ∷ ahead) i p =
              ground (arith, next) in
            omega (arith, step, rest.cover_after p);
      })
]

pub registered-Inv :
    (pages : List Bool)
    → length pages ≤ 2 ^ 20
    → Inv (registered pages) × ((registered pages).pages ≡ pages)
unfolding registered
registered-Inv pages size =
    let scans =
      scan_pages-Scans (length pages) pages 0 0 0 (λ order. []) size (omega arith)
        (λ ne. absurd (ne refl)) (λ order le. tt) in
    (
      record {
        well_formed = scans.well_formed;
        balanced = λ p lt.
            let none_left : in_run 0 0 p ≡ 0 = ground arith in
            let at_page : 0 + p ≡ p = omega arith in
            let all : frees pages 0 p + used pages p ≡ 1 =
              subst (λ k. frees pages 0 k + used pages p ≡ 1) at_page (frees-used pages 0 p lt) in
            omega (arith, none_left, all, cover-nil p, scans.cover_after p);
      },
      refl,
    )

pub initialize_memory_manager-some :
    (pages : List Bool)
    → pools_hold max_order (registered pages).free_lists ≡ true
    → initialize_memory_manager pages ≡ some (registered pages)
unfolding initialize_memory_manager
initialize_memory_manager-some pages hold = rw hold refl

-- For at most 2 ^ 20 pages, which is 4 GiB, whose free blocks need no more than 4096 nodes in any list:
-- `initialize_memory_manager` succeeds and sets up the invariant: each free page is in exactly one free
-- block, no used page is in any, and the blocks are aligned and inside the pages; the statuses are as they
-- were. When some list needs more nodes, it fails.
pub initialize_memory_manager-Inv :
    (pages : List Bool)
    → length pages ≤ 2 ^ 20
    → (pools_hold max_order (registered pages).free_lists ≡ true)
        × (initialize_memory_manager pages ≡ some (registered pages))
        × Inv (registered pages)
        × ((registered pages).pages ≡ pages)
      ⊎ (pools_hold max_order (registered pages).free_lists ≡ false)
        × (initialize_memory_manager pages ≡ none)
unfolding initialize_memory_manager
initialize_memory_manager-Inv pages size =
    elim (Bool-cases (pools_hold max_order (registered pages).free_lists)) [
      | inl hold ↦
          let r = registered-Inv pages size in
          inl (hold, initialize_memory_manager-some pages hold, r.0, r.1)
      | inr full ↦ inr (full, rw full refl)
    ]
