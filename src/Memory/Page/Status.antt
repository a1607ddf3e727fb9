-- ===== src/Memory/Page/Status.antt =====
-- The statuses after a run of writes, and the page of an aligned address.
use uchos.Prelude.{
  ℕ, zero, suc, ◌+◌, ◌*◌, ◌/◌, ◌<◌, ◌≤◌, ◌≡◌, refl, ap, ◌∙◌, Bool, true, none, some, List, [], ◌∷◌,
  length, get_elem?, get_or, set, length-set, get_or-set_self, get_or-set_ne, ltb, leb, ==_false,
  if◌then◌else◌, arith, ℕ_discrete,
}
use uchos.Memory.Page.{page_size, ptr, get_page, set_status}

-- 1 for a used page, and for one out of range.
abbrev pub used : List Bool → ℕ → ℕ
used pages p = if get_or pages p true then 1 else 0

pub length-set_status :
    (pages : List Bool) (i n : ℕ) (status : Bool)
    → length (set_status pages i n status) ≡ length pages
unfolding set_status
length-set_status pages i zero status = refl
length-set_status pages i (suc n) status =
    length-set_status (set pages i status) (i + 1) n status ∙ length-set pages i status

-- The pages of the run have the status, and the others keep theirs.
pub get_or-set_status :
    (pages : List Bool) (i n : ℕ) (status : Bool) (p : ℕ)
    → i + n ≤ length pages
    → get_or (set_status pages i n status) p true ≡ (
        if leb i p
        then if ltb p (i + n) then status else get_or pages p true
        else get_or pages p true)
unfolding set_status
get_or-set_status pages i zero status p h = ground arith
get_or-set_status pages i (suc n) status p h =
    let rest =
      get_or-set_status (set pages i status) (i + 1) n status p
        (omega (arith, h, length-set pages i status)) in
    elim (ℕ_discrete i p) [
      | yes same ↦
          let here = get_or-set_self pages i status true (omega (arith, h)) in
          let there = ap (λ j. get_or (set pages i status) j true) same in
          ground (arith, rest, here, there, same)
      | no other ↦ ground (arith, rest, other, get_or-set_ne pages i p status true other)
    ]

-- The page metadata of a page's own address.
pub get_page-ptr :
    (pages : List Bool) (i : ℕ) → 0 < i → i < length pages → get_page pages (ptr i) ≡ some i
unfolding get_page
get_page-ptr pages i pos lt =
    let quotient : i * page_size / page_size ≡ i = omega arith in
    rw (==_false (i * page_size) 0 (λ e. omega (arith, e, pos)), quotient) (ground (arith, lt))

pub get_page-zero : (pages : List Bool) → get_page pages (ptr 0) ≡ none
unfolding get_page
get_page-zero pages = refl

pub get_page-outside :
    (pages : List Bool) (i : ℕ) → length pages ≤ i → get_page pages (ptr i) ≡ none
unfolding get_page
get_page-outside pages i ge =
    let quotient : i * page_size / page_size ≡ i = omega arith in rw quotient (ground (arith, ge))

pub get_elem?-used :
    (pages : List Bool) (i : ℕ) → i < length pages → get_elem? pages i ≡ some (get_or pages i true)
get_elem?-used [] i lt = absurd (omega (arith, lt))
get_elem?-used (x ∷ xs) zero lt = refl
get_elem?-used (x ∷ xs) (suc i) lt = get_elem?-used xs i (omega (arith, lt))
