-- ===== src/Memory/Buddy/Split.antt =====
-- A split: the buddy is the upper half, and the lists cover what they covered.
use uchos.Prelude.{
  ℕ, zero, suc, ◌+◌, ◌-◌, ◌*◌, ◌^◌, ◌≤◌, ◌≡◌, refl, sym, ap, ap₂, subst, ◌∙◌, bit_xor, Bool, some,
  List, [], ◌∷◌, ◌++◌, length, All, All-append, arith,
}
use native.Mathlib.Nat.{pow-suc}
use uchos.Prelude.Bits.Xor.{bit_xor-one, bit_xor-pow}
use uchos.Prelude.Bits.Width.{pow-pos, pow_add}
use uchos.Memory.Page.{page_size, ptr, get_page}
use uchos.Memory.Page.Status.{get_page-ptr}
use uchos.Memory.Buddy.{
  FreeLists, BuddySystem, max_order, put_list, buddy_addr, split_lists, split_memory_block,
  split_down,
}
use uchos.Memory.Buddy.Cover.{
  in_block, covers, cover, IsBlock, WellFormed, covers-append, put_list_self, put_list-ne,
  cover-put, in_block-halves, WellFormed-put, IsBlock-lower, IsBlock-upper,
}

-- The buddy's address turns over one digit of the block's position.
pub buddy_addr-page :
    (o q block : ℕ) → block ≡ q * 2 ^ o → buddy_addr o block ≡ ptr (bit_xor q 1 * 2 ^ o)
buddy_addr-page o q block aligned =
    let power : 2 ^ (o + 12) ≡ 2 ^ o * page_size = pow_add o 12 in
    let address : ptr block ≡ q * 2 ^ (o + 12) =
      omega (arith, aligned, ap (λ (t : ℕ). q * t) power) in
    ap₂ bit_xor address (sym power)
    ∙ bit_xor-pow (o + 12) q
    ∙ omega (arith, ap (λ (t : ℕ). bit_xor q 1 * t) power)

upper_page :
    (pages : List Bool) (o block : ℕ)
    → IsBlock (length pages) (suc o) block
    → get_page pages (buddy_addr o block) ≡ some (block + 2 ^ o)
upper_page pages o block is_block =
    let q = is_block.quotient in
    let lower : block ≡ q * 2 * 2 ^ o =
      omega (arith, is_block.aligned, ap (λ (t : ℕ). q * t) (pow-suc 2 o)) in
    let toggled : bit_xor (q * 2) 1 ≡ q * 2 + 1 = ground (arith, bit_xor-one (q * 2)) in
    let upper : bit_xor (q * 2) 1 * 2 ^ o ≡ block + 2 ^ o =
      omega (arith, lower, ap (λ (t : ℕ). t * 2 ^ o) toggled) in
    ap (get_page pages) (buddy_addr-page o (q * 2) block lower ∙ ap ptr upper)
    ∙ get_page-ptr pages (block + 2 ^ o) (omega (arith, pow-pos o))
        (omega (arith, is_block.inside, pow-suc 2 o, pow-pos o))

pub split_memory_block-front :
    (s : BuddySystem) (o block : ℕ) (rest : List ℕ)
    → s.free_lists (suc o) ≡ block ∷ rest
    → IsBlock (length s.pages) (suc o) block
    → split_memory_block s (suc o)
      ≡ some
          (record s { free_lists = split_lists s.free_lists (suc o) o block rest (block + 2 ^ o) })
unfolding split_memory_block
split_memory_block-front s o block rest front is_block =
    let lower : suc o - 1 ≡ o = omega arith in
    rw (split_memory_block, front) (rw (lower, upper_page s.pages o block is_block, lower) refl)

module _ (lists : FreeLists) (o block : ℕ) (rest : List ℕ) (le : suc o ≤ max_order)
    (front : lists (suc o) ≡ block ∷ rest) where
  abbrev after : FreeLists
  after = split_lists lists (suc o) o block rest (block + 2 ^ o)

  abbrev popped : FreeLists
  popped = put_list lists (suc o) rest

  abbrev halves : List ℕ
  halves = block ∷ (block + 2 ^ o) ∷ []

  pub split_lists-lower : after o ≡ lists o ++ block ∷ (block + 2 ^ o) ∷ []
  split_lists-lower =
      put_list_self popped o (popped o ++ halves)
      ∙ ap (λ bs. bs ++ halves) (put_list-ne lists (suc o) o rest (λ e. omega (arith, e)))

  pub cover-split_lists : (p : ℕ) → cover after p ≡ cover lists p
  cover-split_lists p =
      let whole : covers (suc o) (lists (suc o)) p
          ≡ in_block (suc o) block p + covers (suc o) rest p =
        ap (λ bs. covers (suc o) bs p) front in
      let pop : cover popped p + covers (suc o) (lists (suc o)) p
          ≡ cover lists p + covers (suc o) rest p =
        cover-put (suc o) lists rest p le in
      let push : cover after p + covers o (popped o) p
          ≡ cover popped p + covers o (popped o ++ halves) p =
        cover-put o popped (popped o ++ halves) p (omega (arith, le)) in
      let two : covers o (popped o ++ halves) p ≡ covers o (popped o) p + covers o halves p =
        covers-append o (popped o) halves p in
      let parts : covers o halves p ≡ in_block (suc o) block p =
        omega (arith, in_block-halves o block p) in
      omega (arith, whole, pop, push, two, parts)

  pub WellFormed-split_lists : (pages : ℕ) → WellFormed pages lists → WellFormed pages after
  WellFormed-split_lists pages wf =
      let all = subst (All (IsBlock pages (suc o))) front (wf (suc o) le) in
      let popped_wf : WellFormed pages popped = WellFormed-put pages (suc o) lists rest wf all.1 in
      WellFormed-put pages o popped (popped o ++ halves) popped_wf (
        All-append (IsBlock pages o) (popped o) (halves) (popped_wf o (omega (arith, le)))
          (IsBlock-lower pages o block all.0, (IsBlock-upper pages o block all.0, tt)))

-- Splitting down from an order with a free block to a lower one.
pub record SplitTo (s s' : BuddySystem) (order : ℕ) : Type 0 where
  pub same_pages : s'.pages ≡ s.pages
  pub well_formed : WellFormed (length s.pages) s'.free_lists
  pub same_cover : (p : ℕ) → cover s'.free_lists p ≡ cover s.free_lists p
  pub block : ℕ
  pub rest : List ℕ
  pub front : s'.free_lists order ≡ block ∷ rest

-- Some block is in a list to which one has been added.
append-front :
    (xs : List ℕ) (y : ℕ) (ys : List ℕ) → (z : ℕ) × (zs : List ℕ) × (xs ++ y ∷ ys ≡ z ∷ zs)
append-front [] y ys = (y, ys, refl)
append-front (x ∷ xs) y ys = (x, xs ++ y ∷ ys, refl)

split_down-step :
    (s : BuddySystem) (rounds i : ℕ) {s' : BuddySystem}
    → split_memory_block s i ≡ some s'
    → split_down s (suc rounds) i ≡ split_down s' rounds (i - 1)
unfolding split_down
split_down-step s rounds i step = rw (split_down, step) refl

pub split_down-SplitTo :
    (s : BuddySystem) (rounds i order : ℕ) (block : ℕ) (rest : List ℕ)
    → i ≡ rounds + order
    → i ≤ max_order
    → WellFormed (length s.pages) s.free_lists
    → s.free_lists i ≡ block ∷ rest
    → (s' : BuddySystem) × (split_down s rounds i ≡ some s') × SplitTo s s' order
unfolding split_down
split_down-SplitTo s zero i order block rest at_order le wf front = (
  s,
  refl,
  record {
    same_pages = refl;
    well_formed = wf;
    same_cover = λ p. refl;
    block = block;
    rest = rest;
    front = subst (λ i. s.free_lists i ≡ block ∷ rest) (omega (arith, at_order)) front;
  },
)
split_down-SplitTo s (suc rounds) zero order block rest at_order le wf front =
    absurd (omega (arith, at_order))
split_down-SplitTo s (suc rounds) (suc o) order block rest at_order le wf front =
    let is_block = subst (All (IsBlock (length s.pages) (suc o))) front (wf (suc o) le) in
    let buddy = block + 2 ^ o in
    let once : BuddySystem = record s {
      free_lists = split_lists s.free_lists (suc o) o block rest buddy;
    } in
    let lower : suc o - 1 ≡ o = omega arith in
    let (block', rest', front') = append-front (s.free_lists o) block (buddy ∷ []) in
    let (s', run, reached) =
      split_down-SplitTo once rounds o order block' rest' (omega (arith, at_order))
        (omega (arith, le))
        (WellFormed-split_lists s.free_lists o block rest le front (length s.pages) wf)
        (split_lists-lower s.free_lists o block rest le front ∙ front') in
    (
      s',
      split_down-step s rounds (suc o) (split_memory_block-front s o block rest front is_block.0)
          ∙ ap (split_down once rounds) lower
          ∙ run,
      record {
        same_pages = reached.same_pages;
        well_formed = reached.well_formed;
        same_cover =
            λ p. reached.same_cover p ∙ cover-split_lists s.free_lists o block rest le front p;
        block = reached.block;
        rest = reached.rest;
        front = reached.front;
      },
    )
