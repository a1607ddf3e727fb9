-- ===== src/Memory/Buddy/Merge.antt =====
-- The merging of a freed block with its free buddies.
use uchos.Prelude.{
  ℕ, zero, suc, ◌+◌, ◌*◌, ◌/◌, ◌%◌, ◌^◌, ◌≤◌, ◌≡◌, inl, inr, refl, sym, ap, subst, ◌∙◌, min,
  bit_xor, Bool, true, false, Bool-cases, some, Option-cases, List, [], ◌∷◌, ◌++◌, length, All,
  All-append, ◌==◌, ==_false, ==_refl, arith, dec_lt, ℕ_discrete,
}
use native.Mathlib.Nat.{pow-suc}
use uchos.Prelude.Bits.Xor.{bit_xor-one}
use uchos.Memory.Page.{ptr, get_page}
use uchos.Memory.Page.Status.{get_page-ptr, get_page-zero, get_page-outside}
use uchos.Memory.Buddy.{
  FreeLists, max_order, put_list, buddy_addr, holds, erase, push_back, Merged, merge,
}
use uchos.Memory.Buddy.Cover.{
  in_block, covers, cover, IsBlock, WellFormed, covers-append, cover-put, in_block-halves,
  WellFormed-put,
}
use uchos.Memory.Buddy.Split.{buddy_addr-page}

-- Taking a block that is there out of a list.
pub covers-erase :
    (o : ℕ) (xs : List ℕ) (b p : ℕ)
    → holds xs b ≡ true
    → covers o (erase xs b) p + in_block o b p ≡ covers o xs p
unfolding erase
covers-erase o [] b p held = cc
covers-erase o (x ∷ xs) b p held = elim (ℕ_discrete x b) [
  | yes same ↦
      let here : in_block o x p ≡ in_block o b p = ap (λ b. in_block o b p) same in
      rw same (rw (==_refl b) (omega arith))
  | no other ↦
      let differs = ==_false x b other in
      let later : holds xs b ≡ true = ground (arith, held, differs) in
      rw differs (omega (arith, covers-erase o xs b p later))
]

pub All-erase : (P : ℕ → Type 0) (xs : List ℕ) (b : ℕ) → All P xs → All P (erase xs b)
unfolding erase
All-erase P [] b all = tt
All-erase P (x ∷ xs) b all = elim (Bool-cases (x == b)) [
  | inl same ↦ rw same all.1
  | inr other ↦ rw other (all.0, All-erase P xs b all.1)
]

pub All-holds : (P : ℕ → Type 0) (xs : List ℕ) (b : ℕ) → holds xs b ≡ true → All P xs → P b
All-holds P [] b held all = cc
All-holds P (x ∷ xs) b held all = elim (ℕ_discrete x b) [
  | yes same ↦ subst P same all.0
  | no other ↦ All-holds P xs b (ground (arith, held, ==_false x b other)) all.1
]

-- A block and its buddy are the halves of a block of the next order.
pub record Halves (pages o start buddy : ℕ) : Type 0 where
  pub whole : IsBlock pages (suc o) (min start buddy)
  pub parts :
      (p : ℕ) → in_block (suc o) (min start buddy) p ≡ in_block o start p + in_block o buddy p

pub buddy-Halves :
    (pages o start buddy : ℕ) (block : IsBlock pages o start)
    → buddy ≡ bit_xor block.quotient 1 * 2 ^ o
    → IsBlock pages o buddy
    → Halves pages o start buddy
buddy-Halves pages o start buddy block toggled other =
    let q = block.quotient in
    let power : 2 ^ suc o ≡ 2 ^ o * 2 = pow-suc 2 o in
    elim (ℕ_discrete (q % 2) 0) [
      | yes even ↦
          let r = q / 2 in
          let twice : q ≡ r * 2 = omega (arith, even) in
          let next : bit_xor q 1 ≡ q + 1 = ground (arith, bit_xor-one q, even) in
          let upper : buddy ≡ start + 2 ^ o =
            omega (arith, toggled, block.aligned, ap (λ (t : ℕ). t * 2 ^ o) next) in
          let lower : min start buddy ≡ start = omega (arith, upper) in
          let parts = λ (p : ℕ).
            in_block-halves o start p ∙ ap (λ b. in_block o start p + in_block o b p) (sym upper) in
          record {
            whole = record {
              quotient = r;
              aligned = omega (
                arith,
                lower,
                block.aligned,
                ap (λ (t : ℕ). t * 2 ^ o) twice,
                ap (λ (t : ℕ). r * t) power,
              );
              inside = omega (arith, lower, upper, other.inside, power);
            };
            parts = rw lower parts;
          }
      | no odd ↦
          let r = q / 2 in
          let twice : q ≡ r * 2 + 1 = omega (arith, odd) in
          let next : bit_xor q 1 + 1 ≡ q = ground (arith, bit_xor-one q, odd) in
          let upper : start ≡ buddy + 2 ^ o =
            omega (arith, toggled, block.aligned, ap (λ (t : ℕ). t * 2 ^ o) next) in
          let lower : min start buddy ≡ buddy = omega (arith, upper) in
          let swapped = λ (p : ℕ). ap (λ b. in_block o buddy p + in_block o b p) (sym upper) in
          record {
            whole = record {
              quotient = r;
              aligned = omega (
                arith,
                lower,
                upper,
                block.aligned,
                ap (λ (t : ℕ). t * 2 ^ o) twice,
                ap (λ (t : ℕ). r * t) power,
              );
              inside = omega (arith, lower, upper, block.inside, power);
            };
            parts = λ p. rw lower (omega (arith, in_block-halves o buddy p, swapped p));
          }
    ]

-- What `get_page` gives for a page's address is the page.
get_page-same : (pages : List Bool) (i j : ℕ) → get_page pages (ptr i) ≡ some j → j ≡ i
get_page-same pages zero j found = let null = get_page-zero pages in cc
get_page-same pages (suc i) j found = elim (dec_lt (suc i) (length pages)) [
  | yes lt ↦
      let here = get_page-ptr pages (suc i) (omega arith) lt in
      let same : some j ≡ some (suc i) = sym found ∙ here in cc
  | no ge ↦ let null = get_page-outside pages (suc i) (omega (arith, ge)) in cc
]

-- What merging promises of the lists and the final block.
pub record Merges (pages : ℕ) (lists : FreeLists) (order start : ℕ) (m : Merged) : Type 0 where
  pub well_formed : WellFormed pages m.lists
  pub cover_after : (p : ℕ) → cover m.lists p ≡ cover lists p + in_block order start p
  pub is_block : IsBlock pages m.order m.start
  pub covered : (p : ℕ) → in_block m.order m.start p ≤ cover m.lists p
  pub around : (p : ℕ) → in_block order start p ≤ in_block m.order m.start p

pub push_back-Merges :
    (pages : ℕ) (lists : FreeLists) (order start : ℕ)
    → order ≤ max_order
    → WellFormed pages lists
    → IsBlock pages order start
    → Merges pages lists order start
        (record { lists = push_back lists order start; start = start; order = order })
push_back-Merges pages lists order start le wf block =
    let here = lists order in
    let added : (p : ℕ)
        → covers order (here ++ start ∷ []) p ≡ covers order here p + in_block order start p =
      λ p. omega (arith, covers-append order here (start ∷ []) p) in
    let put : (p : ℕ)
        → cover (push_back lists order start) p + covers order here p
          ≡ cover lists p + covers order (here ++ start ∷ []) p =
      λ p. cover-put order lists (here ++ start ∷ []) p le in
    record {
      well_formed =
          WellFormed-put pages order lists (here ++ start ∷ []) wf
            (All-append (IsBlock pages order) here (start ∷ []) (wf order le) (block, tt));
      cover_after = λ p. omega (arith, added p, put p);
      is_block = block;
      covered = λ p. omega (arith, added p, put p);
      around = λ p. omega arith;
    }

merge-found :
    (pages : List Bool) (rounds order start : ℕ) (lists : FreeLists) {buddy : ℕ}
    → get_page pages (buddy_addr order start) ≡ some buddy
    → holds (lists order) buddy ≡ true
    → merge pages (suc rounds) order start lists
      ≡ merge pages rounds
          (order + 1)
          (min start buddy)
          (put_list lists order (erase (lists order) buddy))
unfolding merge
merge-found pages rounds order start lists found held = rw (merge, found, held) refl

merge-stop :
    (pages : List Bool) (rounds order start : ℕ) (lists : FreeLists)
    → ((buddy : ℕ)
        → get_page pages (buddy_addr order start) ≡ some buddy
        → holds (lists order) buddy ≡ false)
    → merge pages (suc rounds) order start lists
      ≡ record { lists = push_back lists order start; start = start; order = order }
unfolding merge
merge-stop pages rounds order start lists stop =
    elim (Option-cases (get_page pages (buddy_addr order start))) [
      | inl null ↦ rw (merge, null) refl
      | inr (buddy, found) ↦ rw (merge, found) (rw (stop buddy found) refl)
    ]

-- The next round's result serves this one.
step-Merges :
    (pages : ℕ) (lists : FreeLists) (o start buddy : ℕ) (m : Merged)
    → suc o ≤ max_order
    → holds (lists o) buddy ≡ true
    → Halves pages o start buddy
    → Merges pages (put_list lists o (erase (lists o) buddy)) (suc o) (min start buddy) m
    → Merges pages lists o start m
step-Merges pages lists o start buddy m le held halves next =
    let taken = put_list lists o (erase (lists o) buddy) in
    record {
      well_formed = next.well_formed;
      cover_after = λ p.
          let put : cover taken p + covers o (lists o) p
              ≡ cover lists p + covers o (erase (lists o) buddy) p =
            cover-put o lists (erase (lists o) buddy) p (omega (arith, le)) in
          omega
            (arith, put, next.cover_after p, covers-erase o (lists o) buddy p held, halves.parts p);
      is_block = next.is_block;
      covered = next.covered;
      around = λ p. omega (arith, next.around p, halves.parts p);
    }

-- The only list that gets longer is that of the merged block, by this block.
pub merge-pushes :
    (pages : List Bool) (rounds order start : ℕ) (lists : FreeLists)
    → ((merge pages rounds order start lists).lists (merge pages rounds order start lists).order
        ≡ lists (merge pages rounds order start lists).order
          ++ (merge pages rounds order start lists).start ∷ [])
      × (order ≤ (merge pages rounds order start lists).order)
      × ((merge pages rounds order start lists).order ≤ rounds + order)
unfolding merge
merge-pushes pages zero order start lists = (rw (==_refl order) refl, omega arith, omega arith)
merge-pushes pages (suc rounds) order start lists =
    elim (Option-cases (get_page pages (buddy_addr order start))) [
      | inl null ↦
          rw (merge-stop pages rounds order start lists (λ b e. let stuck = sym null ∙ e in cc))
            (rw (==_refl order) refl, omega arith, omega arith)
      | inr (buddy, found) ↦ elim (Bool-cases (holds (lists order) buddy)) [
        | inr other ↦
            rw
              (merge-stop pages rounds order start lists
                (λ b e. let same = sym found ∙ e in ground (arith, same, other)))
              (rw (==_refl order) refl, omega arith, omega arith)
        | inl held ↦
            let taken = put_list lists order (erase (lists order) buddy) in
            let (pushed, lo, hi) = merge-pushes pages rounds (order + 1) (min start buddy) taken in
            let m = merge pages rounds (order + 1) (min start buddy) taken in
            let kept : taken m.order ≡ lists m.order =
              rw (==_false m.order order (λ e. omega (arith, e, lo))) refl in
            rw (merge-found pages rounds order start lists found held) (
              pushed ∙ ap (λ (t : List ℕ). t ++ m.start ∷ []) kept,
              omega (arith, lo),
              omega (arith, hi),
            )
      ]
    ]

pub merge-Merges :
    (pages : List Bool) (rounds order start : ℕ) (lists : FreeLists)
    → rounds + order ≡ max_order
    → WellFormed (length pages) lists
    → IsBlock (length pages) order start
    → Merges (length pages) lists order start (merge pages rounds order start lists)
unfolding merge
merge-Merges pages zero order start lists bound wf block =
    push_back-Merges (length pages) lists order start (omega (arith, bound)) wf block
merge-Merges pages (suc rounds) order start lists bound wf block =
    let le : order ≤ max_order = omega (arith, bound) in
    let pushed = push_back-Merges (length pages) lists order start le wf block in
    elim (Option-cases (get_page pages (buddy_addr order start))) [
      | inl null ↦
          rw (merge-stop pages rounds order start lists (λ b e. let stuck = sym null ∙ e in cc))
            pushed
      | inr (buddy, found) ↦ elim (Bool-cases (holds (lists order) buddy)) [
        | inr other ↦
            rw
              (merge-stop pages rounds order start lists
                (λ b e. let same = sym found ∙ e in ground (arith, same, other)))
              pushed
        | inl held ↦
            let toggled = get_page-same pages (bit_xor block.quotient 1 * 2 ^ order) buddy (
              ap (get_page pages) (sym (buddy_addr-page order block.quotient start block.aligned))
              ∙ found) in
            let buddy_block =
              All-holds (IsBlock (length pages) order) (lists order) buddy held (wf order le) in
            let halves = buddy-Halves (length pages) order start buddy block toggled buddy_block in
            let next : order + 1 ≡ suc order = omega arith in
            let taken = put_list lists order (erase (lists order) buddy) in
            let taken_wf =
              WellFormed-put (length pages) order lists (erase (lists order) buddy) wf
                (All-erase (IsBlock (length pages) order) (lists order) buddy (wf order le)) in
            let rest =
              merge-Merges pages rounds (suc order) (min start buddy) taken (omega (arith, bound))
                taken_wf halves.whole in
            rw (merge-found pages rounds order start lists found held, next)
              (step-Merges (length pages) lists order start buddy _ (omega (arith, bound)) held
                halves rest)
      ]
    ]
