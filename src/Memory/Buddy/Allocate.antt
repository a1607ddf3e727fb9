-- ===== src/Memory/Buddy/Allocate.antt =====
-- The invariant of the free lists and the page statuses, and allocation.
use uchos.Prelude.{
  ℕ, zero, suc, ◌+◌, ◌-◌, ◌^◌, ◌<◌, ◌≤◌, ◌≡◌, ◌⊎◌, inl, inr, refl, sym, ap, subst, ◌∙◌, true, false,
  Option, none, some, List, [], ◌∷◌, List-cases, length, get_elem?, get_or, All, ==_false, arith,
  dec_lt, ℕ_discrete,
}
use uchos.Prelude.Bits.Width.{pow-pos}
use uchos.Memory.BitUtils.{to_uint, bit_width_ceil}
use uchos.Memory.BitUtils.Width.{bit_width_ceil_lem}
use uchos.Memory.Page.{pages_for_bytes, ptr, set_status}
use uchos.Memory.Page.Status.{used, length-set_status, get_or-set_status, get_elem?-used}
use uchos.Memory.Buddy.{
  FreeLists, BuddySystem, max_order, put_list, calculate_order, find_order, split_down, take_block,
  allocate_order, allocate,
}
use uchos.Memory.Buddy.Cover.{
  in_block, covers, cover, IsBlock, WellFormed, cover-put, in_block_self, WellFormed-put,
}
use uchos.Memory.Buddy.Split.{SplitTo, split_down-SplitTo}

-- A page is free exactly when it lies in exactly one free block, and else it lies in none.
pub record Inv (s : BuddySystem) : Type 0 where
  pub well_formed : WellFormed (length s.pages) s.free_lists
  pub balanced : (p : ℕ) → p < length s.pages → cover s.free_lists p + used s.pages p ≡ 1

-- The block has been taken: it was in a free block, and its pages are used.
pub record Taken (s s' : BuddySystem) (order block : ℕ) : Type 0 where
  pub is_block : IsBlock (length s.pages) order block
  pub invariant : Inv s'
  pub same_length : length s'.pages ≡ length s.pages
  pub uncovered : (p : ℕ) → cover s.free_lists p ≡ cover s'.free_lists p + in_block order block p
  pub marked :
      (p : ℕ) → p < length s.pages → used s'.pages p ≡ used s.pages p + in_block order block p

split-Inv : (s s' : BuddySystem) (order : ℕ) → Inv s → SplitTo s s' order → Inv s'
split-Inv s s' order inv split =
    let same = split.same_pages in
    record {
      well_formed =
          subst (λ pages. WellFormed (length pages) s'.free_lists) (sym same) split.well_formed;
      balanced = λ p lt.
          let lt' : p < length s.pages = subst (λ pages. p < length pages) same lt in
          let statuses : used s'.pages p ≡ used s.pages p = ap (λ pages. used pages p) same in
          omega (arith, split.same_cover p, statuses, inv.balanced p lt');
    }

-- A split before the taking does not show.
split-Taken :
    (s s' s'' : BuddySystem) (order block : ℕ)
    → SplitTo s s' order
    → Taken s' s'' order block
    → Taken s s'' order block
split-Taken s s' s'' order block split taken =
    let same = split.same_pages in
    let size : length s'.pages ≡ length s.pages = ap length same in
    record {
      is_block = subst (λ pages. IsBlock (length pages) order block) same taken.is_block;
      invariant = taken.invariant;
      same_length = taken.same_length ∙ size;
      uncovered = λ p. sym (split.same_cover p) ∙ taken.uncovered p;
      marked = λ p lt.
          let statuses : used s'.pages p ≡ used s.pages p = ap (λ pages. used pages p) same in
          omega (arith, statuses, taken.marked p (omega (arith, size, lt)));
    }

module _ (s : BuddySystem) (inv : Inv s) (order block : ℕ) (rest : List ℕ) (le : order ≤ max_order)
    (front : s.free_lists order ≡ block ∷ rest) where
  abbrev after : BuddySystem
  after = record {
    pages = set_status s.pages block (2 ^ order) true;
    free_lists = put_list s.free_lists order rest;
  }

  front-IsBlock : IsBlock (length s.pages) order block
  front-IsBlock = (subst (All (IsBlock (length s.pages) order)) front (inv.well_formed order le)).0

  uncovered : (p : ℕ) → cover s.free_lists p ≡ cover after.free_lists p + in_block order block p
  uncovered p =
      let whole : covers order (s.free_lists order) p
          ≡ in_block order block p + covers order rest p =
        ap (λ bs. covers order bs p) front in
      let pop : cover after.free_lists p + covers order (s.free_lists order) p
          ≡ cover s.free_lists p + covers order rest p =
        cover-put order s.free_lists rest p le in
      omega (arith, whole, pop)

  free_before : (p : ℕ) → p < length s.pages → in_block order block p + used s.pages p ≤ 1
  free_before p lt = omega (arith, uncovered p, inv.balanced p lt)

  marked :
      (p : ℕ) → p < length s.pages → used after.pages p ≡ used s.pages p + in_block order block p
  marked p lt =
      let status = get_or-set_status s.pages block (2 ^ order) true p front-IsBlock.inside in
      ground (arith, status, free_before p lt)

  front-free : get_elem? s.pages block ≡ some false
  front-free =
      let inside : block < length s.pages = omega (arith, front-IsBlock.inside, pow-pos order) in
      let free : get_or s.pages block true ≡ false =
        ground (arith, free_before block inside, in_block_self order block) in
      get_elem?-used s.pages block inside ∙ ap some free

  take_block-front : take_block s order ≡ some (after, ptr block)
  unfolding take_block
  take_block-front = rw (take_block, front, front-free) refl

  after-Taken : Taken s after order block
  after-Taken =
      let same : length after.pages ≡ length s.pages =
        length-set_status s.pages block (2 ^ order) true in
      record {
        is_block = front-IsBlock;
        same_length = same;
        uncovered = uncovered;
        marked = marked;
        invariant = record {
          well_formed =
              subst (λ n. WellFormed n after.free_lists) (sym same)
                (WellFormed-put (length s.pages) order s.free_lists rest inv.well_formed
                  (subst (All (IsBlock (length s.pages) order)) front
                    (inv.well_formed order le)).1);
          balanced = λ p lt.
              let lt' : p < length s.pages = omega (arith, same, lt) in
              omega (arith, uncovered p, marked p lt', inv.balanced p lt');
        };
      }

-- The search for the next order.
find_order_lem :
    (lists : FreeLists) (rounds i : ℕ)
    → ((find_order lists rounds i ≡ none) × ((j : ℕ) → i ≤ j → j < i + rounds → lists j ≡ []))
      ⊎ ((k block : ℕ) × (rest : List ℕ) × (find_order lists rounds i ≡ some k)
          × (i ≤ k)
          × (k < i + rounds)
          × (lists k ≡ block ∷ rest))
unfolding find_order
find_order_lem lists zero i = inl (refl, λ j ge lt. absurd (omega (arith, ge, lt)))
find_order_lem lists (suc rounds) i = elim (List-cases (lists i)) [
  | inr (block, rest, here) ↦
      inr (i, block, rest, rw (find_order, here) refl, omega arith, omega arith, here)
  | inl empty ↦ elim (find_order_lem lists rounds (i + 1)) [
    | inl (stop, all) ↦ inl (
      rw (find_order, empty) stop,
      λ j ge lt. elim (ℕ_discrete i j) [
        | yes same ↦ subst (λ j. lists j ≡ []) same empty
        | no other ↦ all j (omega (arith, ge, other)) (omega (arith, lt))
      ],
    )
    | inr (k, block, rest, found, ge, lt, here) ↦
        inr
          (k, block, rest, rw (find_order, empty) found, omega (arith, ge), omega (arith, lt), here)
  ]
]

-- No order from the given one on has a free block.
abbrev pub Exhausted : BuddySystem → ℕ → Type 0
Exhausted s order = (i : ℕ) → order ≤ i → i ≤ max_order → s.free_lists i ≡ []

-- Null exactly when no block is large enough, and else a block that has been taken.
abbrev pub Allocates : BuddySystem → ℕ → Option (BuddySystem × ℕ) → Type 0
Allocates s order result =
    (Exhausted s order × (result ≡ some (s, 0)))
    ⊎ ((s' : BuddySystem) × (block : ℕ) × (¬ Exhausted s order)
        × (result ≡ some (s', ptr block))
        × Taken s s' order block)

not-Exhausted :
    (s : BuddySystem) (order i block : ℕ) (rest : List ℕ)
    → order ≤ i
    → i ≤ max_order
    → s.free_lists i ≡ block ∷ rest
    → ¬ Exhausted s order
not-Exhausted s order i block rest ge le front empty = let none_left = empty i ge le in cc

allocate_split :
    (s : BuddySystem) (order k : ℕ) {s' : BuddySystem}
    → s.free_lists order ≡ []
    → find_order s.free_lists (max_order - order) (order + 1) ≡ some k
    → split_down s (k - order) k ≡ some s'
    → allocate_order s order ≡ take_block s' order
unfolding allocate_order
allocate_split s order k empty found split = rw (allocate_order, empty, found, split) refl

pub allocate_order_lem :
    (s : BuddySystem) (order : ℕ)
    → Inv s
    → order ≤ max_order
    → Allocates s order (allocate_order s order)
unfolding allocate_order
allocate_order_lem s order inv le = elim (List-cases (s.free_lists order)) [
  | inr (block, rest, front) ↦ inr (
    after s inv order block rest le front,
    block,
    not-Exhausted s order order block rest (omega arith) le front,
    rw (allocate_order, front) (take_block-front s inv order block rest le front),
    after-Taken s inv order block rest le front,
  )
  | inl empty ↦ elim (find_order_lem s.free_lists (max_order - order) (order + 1)) [
    | inl (stop, all) ↦ inl (
      λ i ge top. elim (ℕ_discrete order i) [
        | yes same ↦ subst (λ i. s.free_lists i ≡ []) same empty
        | no other ↦ all i (omega (arith, ge, other)) (omega (arith, top, le))
      ],
      rw (allocate_order, empty, stop) refl,
    )
    | inr (k, block, rest, found, ge, lt, here) ↦
        let top : k ≤ max_order = omega (arith, lt, le) in
        let (s', run, split) =
          split_down-SplitTo s (k - order) k order block rest (omega (arith, ge)) top
            inv.well_formed here in
        let inv' = split-Inv s s' order inv split in
        let front = split.front in
        inr (
          after s' inv' order split.block split.rest le front,
          split.block,
          not-Exhausted s order k block rest (omega (arith, ge)) top here,
          allocate_split s order k empty found run
              ∙ take_block-front s' inv' order split.block split.rest le front,
          split-Taken s s' _ order split.block split
              (after-Taken s' inv' order split.block split.rest le front),
        )
  ]
]

-- The order of a page count of 32 bits.
pub calculate_order_lem :
    (n : ℕ)
    → n < 2 ^ 32
    → (((n ≡ 0) ⊎ (2 ^ max_order < n)) × (calculate_order n ≡ none))
      ⊎ ((order : ℕ) × (calculate_order n ≡ some order)
          × (0 < n)
          × (order ≤ max_order)
          × (n ≤ 2 ^ order)
          × ((k : ℕ) → n ≤ 2 ^ k → order ≤ k))
unfolding calculate_order
calculate_order_lem n lt = elim (ℕ_discrete n 0) [
  | yes zero_pages ↦ inl (inl zero_pages, rw zero_pages refl)
  | no ne ↦
      let cut : to_uint n ≡ n = omega (arith, lt) in
      let (enough, least) = bit_width_ceil_lem n (omega (arith, ne)) lt in
      elim (dec_lt max_order (bit_width_ceil n)) [
        | yes large ↦ inl (
          inr (elim (dec_lt (2 ^ max_order) n) [
            | yes more ↦ more
            | no fits ↦ absurd (omega (arith, large, least max_order (omega (arith, fits))))
          ]),
          rw (calculate_order, ==_false n 0 ne, cut) (ground (arith, large)),
        )
        | no small ↦ inr (
          bit_width_ceil n,
          rw (calculate_order, ==_false n 0 ne, cut) (ground (arith, small)),
          omega (arith, ne),
          omega (arith, small),
          enough,
          least,
        )
      ]
]

-- `allocate` never goes wrong in a system that keeps the invariant, for a size of fewer than 2 ^ 32
-- pages. With no pages, or more than `2 ^ MAX_ORDER`, it returns null and changes nothing. Else let
-- the order be the least one whose blocks hold the pages: when no list from that order on has a block
-- it returns null and changes nothing, and else it returns the address of an aligned block of that
-- order inside the pages, which was in exactly one free block and whose pages were free; they are used afterwards, the cover
-- of the other pages is as before, and the invariant holds again.
pub allocate_lem :
    (s : BuddySystem) (size : ℕ)
    → Inv s
    → pages_for_bytes size < 2 ^ 32
    → (((pages_for_bytes size ≡ 0) ⊎ (2 ^ max_order < pages_for_bytes size))
        × (allocate s size ≡ some (s, 0)))
      ⊎ ((order : ℕ) × (pages_for_bytes size ≤ 2 ^ order)
          × ((k : ℕ) → pages_for_bytes size ≤ 2 ^ k → order ≤ k)
          × Allocates s order (allocate s size))
unfolding allocate
allocate_lem s size inv lt = elim (calculate_order_lem (pages_for_bytes size) lt) [
  | inl (reason, fails) ↦ inl (reason, rw (allocate, fails) refl)
  | inr (order, found, pos, le, enough, least) ↦
      inr (order, enough, least, rw (allocate, found) (allocate_order_lem s order inv le))
]
