-- ===== src/Memory/Buddy/Free.antt =====
-- Freeing: a taken block goes back, and allocation followed by freeing changes no page.
use uchos.Prelude.{
  ◌∷◌, [], ℕ, ◌+◌, ◌-◌, ◌/◌, ◌^◌, ◌<◌, ◌≤◌, ◌≡◌, ◌≢◌, inl, inr, refl, sym, ap, subst, ◌∙◌, Bool,
  true, false, none, some, List, length, get_elem?, get_or, arith, dec_lt, length-append,
}
use uchos.Prelude.Bits.Width.{pow-pos}
use uchos.Memory.Page.{page_size, pages_for_bytes, ptr, set_status}
use uchos.Memory.Page.Status.{used, length-set_status, get_or-set_status, get_elem?-used}
use uchos.Memory.Buddy.{
  BuddySystem, max_order, calculate_order, merge, Merged, allocate, allocate_order, free_order,
  free, pool_size, ltb,
}
use uchos.Memory.Buddy.Cover.{in_block, cover, IsBlock, WellFormed, in_block_self}
use uchos.Memory.Buddy.Merge.{Merges, merge-Merges, merge-pushes}
use uchos.Memory.Buddy.Allocate.{Inv, Taken, Allocates, allocate_order_lem, calculate_order_lem}

-- Each list has a node left in its pool.
abbrev pub HasRoom : BuddySystem → Type 0
HasRoom s = (order : ℕ) → order ≤ max_order → length (s.free_lists order) < pool_size

-- The block has been given back.
pub record GivenBack (s s' : BuddySystem) (order block : ℕ) : Type 0 where
  pub invariant : Inv s'
  pub same_length : length s'.pages ≡ length s.pages
  pub covered : (p : ℕ) → cover s'.free_lists p ≡ cover s.free_lists p + in_block order block p
  pub marked :
      (p : ℕ) → p < length s.pages → used s.pages p ≡ used s'.pages p + in_block order block p

module _ (s : BuddySystem) (inv : Inv s) (order block : ℕ) (le : order ≤ max_order)
    (is_block : IsBlock (length s.pages) order block)
    (all_used : (p : ℕ) → in_block order block p ≤ used s.pages p) where
  abbrev merged : Merged
  merged = merge s.pages (max_order - order) order block s.free_lists

  merges : Merges (length s.pages) s.free_lists order block merged
  merges =
      merge-Merges s.pages (max_order - order) order block s.free_lists (omega (arith, le))
        inv.well_formed is_block

  abbrev statuses : List Bool
  statuses = set_status s.pages merged.start (2 ^ merged.order) false

  same_length : length statuses ≡ length s.pages
  same_length = length-set_status s.pages merged.start (2 ^ merged.order) false

  -- Every page keeps the balance.
  balanced : (p : ℕ) → p < length s.pages → cover merged.lists p + used statuses p ≡ 1
  balanced p lt =
      let status =
        get_or-set_status s.pages merged.start (2 ^ merged.order) false p merges.is_block.inside in
      ground (
        arith,
        status,
        merges.cover_after p,
        merges.covered p,
        merges.around p,
        inv.balanced p lt,
        all_used p,
      )

  abbrev given_back : BuddySystem
  given_back = record { pages = statuses; free_lists = merged.lists }

  free_order-some : HasRoom s → free_order s block order ≡ some given_back
  unfolding free_order
  free_order-some room =
      let (pushed, lo, hi) = merge-pushes s.pages (max_order - order) order block s.free_lists in
      let fits : ltb pool_size (length (merged.lists merged.order)) ≡ false = ground (
        arith,
        room merged.order (omega (arith, hi, le)),
        ap length pushed,
        length-append (s.free_lists merged.order) (merged.start ∷ []),
      ) in
      rw fits refl

  free_order-GivenBack : GivenBack s given_back order block
  free_order-GivenBack = record {
    invariant = record {
      well_formed = subst (λ n. WellFormed n merged.lists) (sym same_length) merges.well_formed;
      balanced = λ p lt. balanced p (omega (arith, same_length, lt));
    };
    same_length = same_length;
    covered = merges.cover_after;
    marked = λ p lt. omega (arith, balanced p lt, merges.cover_after p, inv.balanced p lt);
  }

-- When each free list has a node left in its pool, freeing a block of the size's order, aligned, inside
-- the pages and with every page used, never goes wrong: afterwards its pages, and no others, are free and lie in one more free block, and the invariant
-- holds again.
pub free_lem :
    (s : BuddySystem) (order block size : ℕ)
    → Inv s
    → HasRoom s
    → calculate_order (pages_for_bytes size) ≡ some order
    → order ≤ max_order
    → IsBlock (length s.pages) order block
    → ((p : ℕ) → in_block order block p ≤ used s.pages p)
    → (s' : BuddySystem) × (free s (ptr block) size ≡ some s') × GivenBack s s' order block
unfolding free
free_lem s order block size inv room found le is_block all_used =
    let page : ptr block / page_size ≡ block = omega arith in
    let inside : block < length s.pages = omega (arith, is_block.inside, pow-pos order) in
    let is_used : get_or s.pages block true ≡ true =
      ground (arith, all_used block, in_block_self order block) in
    let status = get_elem?-used s.pages block inside ∙ ap some is_used in
    (
      given_back s inv order block le is_block all_used,
      rw (free, page, status)
          (rw (found, page) (free_order-some s inv order block le is_block all_used room)),
      free_order-GivenBack s inv order block le is_block all_used,
    )

-- Freeing an address whose page is free changes nothing, whatever the size.
pub free_double :
    (s : BuddySystem) (addr size : ℕ)
    → get_elem? s.pages (addr / page_size) ≡ some false
    → free s addr size ≡ some s
unfolding free
free_double s addr size is_free = rw (free, is_free) refl

allocate_order-Taken :
    (s s' : BuddySystem) (order addr : ℕ)
    → addr ≢ 0
    → allocate_order s order ≡ some (s', addr)
    → Allocates s order (allocate_order s order)
    → (block : ℕ) × (addr ≡ ptr block) × Taken s s' order block
allocate_order-Taken s s' order addr ne returned (inl (empty, null)) =
    let same : some (s', addr) ≡ some (s, 0) = sym returned ∙ null in
    absurd (ne (ground (arith, same)))
allocate_order-Taken s s' order addr ne returned (inr (t, block, more, result, taken)) =
    let same : some (s', addr) ≡ some (t, ptr block) = sym returned ∙ result in
    let state : s' ≡ t = cc in
    let address : addr ≡ ptr block = cc in
    (block, address, subst (λ t. Taken s t order block) (sym state) taken)

-- The pages of a taken block are used.
Taken-used :
    (s s' : BuddySystem) (order block : ℕ)
    → Taken s s' order block
    → (p : ℕ) → in_block order block p ≤ used s'.pages p
Taken-used s s' order block taken p = elim (dec_lt p (length s.pages)) [
  | yes lt ↦ omega (arith, taken.marked p lt)
  | no ge ↦ ground (arith, ge, taken.is_block.inside)
]

calculated :
    (s : BuddySystem) (size order : ℕ)
    → calculate_order (pages_for_bytes size) ≡ some order
    → allocate s size ≡ allocate_order s order
unfolding allocate
calculated s size order found = rw (allocate, found) refl

calculated_none :
    (s : BuddySystem) (size : ℕ)
    → calculate_order (pages_for_bytes size) ≡ none
    → allocate s size ≡ some (s, 0)
unfolding allocate
calculated_none s size found = rw (allocate, found) refl

-- In a system that keeps the invariant, for a size of fewer than 2 ^ 32 pages: when `allocate` returns
-- an address that is not null and each free list has a node left in its pool then, freeing that address with the same size never goes wrong, every page has
-- its status and its cover again, and the invariant holds.
pub free-allocate :
    (s s' : BuddySystem) (size addr : ℕ)
    → Inv s
    → pages_for_bytes size < 2 ^ 32
    → addr ≢ 0
    → allocate s size ≡ some (s', addr)
    → HasRoom s'
    → (s'' : BuddySystem) × (free s' addr size ≡ some s'')
      × Inv s''
      × (length s''.pages ≡ length s.pages)
      × ((p : ℕ) → cover s''.free_lists p ≡ cover s.free_lists p)
      × ((p : ℕ) → p < length s.pages → used s''.pages p ≡ used s.pages p)
free-allocate s s' size addr inv lt ne returned room =
    elim (calculate_order_lem (pages_for_bytes size) lt) [
      | inl (reason, fails) ↦
          let same : some (s', addr) ≡ some (s, 0) = sym returned ∙ calculated_none s size fails in
          absurd (ne (ground (arith, same)))
      | inr (order, found, pos, le, enough, least) ↦
          let run = sym (calculated s size order found) ∙ returned in
          let (block, at_block, taken) =
            allocate_order-Taken s s' order addr ne run (allocate_order_lem s order inv le) in
          let is_block =
            subst (λ n. IsBlock n order block) (sym taken.same_length) taken.is_block in
          let (s'', freed, back) =
            free_lem s' order block size taken.invariant room found le is_block
              (Taken-used s s' order block taken) in
          (
            s'',
            ap (λ a. free s' a size) at_block ∙ freed,
            back.invariant,
            back.same_length ∙ taken.same_length,
            λ p. back.covered p ∙ sym (taken.uncovered p),
            λ p h.
                omega
                  (arith, taken.marked p h, back.marked p (omega (arith, taken.same_length, h))),
          )
    ]
