-- ===== src/Memory/Buddy/Register.antt =====
-- `register_memory_blocks` and `initialize_memory_manager`: the free pages become free blocks.
pub mod Boot
pub mod Loop
pub mod Runs
use uchos.Prelude.{
  ℕ, zero, suc, ◌+◌, ◌-◌, ◌*◌, ◌/◌, ◌%◌, ◌^◌, Bool, true, false, List, [], ◌∷◌, length, ltb, ◌==◌,
  if◌then◌else◌, max, leb, ◌&&◌,
}
use uchos.Memory.BitUtils.{to_uint, bit_width, align_up}
use uchos.Memory.Page.{page_size, ptr}
use uchos.Memory.Buddy.{pool_size, FreeLists, BuddySystem, max_order, push_back, Option, some, none}

unfoldable pub calc_max_order : ℕ → ℕ
calc_max_order num_pages =
    if num_pages == 0
    then 0
    else let order = bit_width (to_uint num_pages) - 1 in
      if ltb max_order order then max_order else order

-- On `size_t`.
abbrev pub sub64 : ℕ → ℕ → ℕ
sub64 a b = (a + 2 ^ 64 - b) % 2 ^ 64

-- The loop; each round takes at least one page.
unfoldable pub push_blocks : ℕ → ℕ → ℕ → ℕ → FreeLists → FreeLists
push_blocks zero num_pages start order lists = lists
push_blocks (suc fuel) num_pages start order lists =
    let left = sub64 num_pages (2 ^ order) in
    let rest =
      push_blocks fuel left (start + 2 ^ order) (calc_max_order left)
        (push_back lists order start) in
    if num_pages == 0 then lists else rest

-- The pages up to the next multiple of the alignment.
unfoldable pub rounded_up : ℕ → ℕ → ℕ
rounded_up start order =
    let alignment_size = 2 ^ order * page_size in
    if ptr start % alignment_size == 0
    then 0
    else sub64 (align_up (to_uint (ptr start)) (to_uint alignment_size)) (ptr start) / page_size

-- The recursion, which is on fewer pages.
unfoldable pub register_blocks : ℕ → ℕ → ℕ → FreeLists → FreeLists
register_blocks zero num_pages start lists = lists
register_blocks (suc fuel) num_pages start lists =
    let order = calc_max_order num_pages in
    let rounded = rounded_up start order in
    let before = register_blocks fuel rounded start lists in
    let left = sub64 num_pages rounded in
    if num_pages == 0
    then lists
    else if ptr start % (2 ^ order * page_size) == 0
    then push_blocks num_pages num_pages start order lists
    else push_blocks left left (start + rounded) (calc_max_order left) before

abbrev pub register_memory_blocks : FreeLists → ℕ → ℕ → FreeLists
register_memory_blocks lists num_pages start = register_blocks (num_pages + 1) num_pages start lists

-- The loop over the pages from index `i`, with the run of free pages before it.
unfoldable pub scan_pages : List Bool → ℕ → ℕ → ℕ → FreeLists → FreeLists
scan_pages [] i start_index num_pages lists =
    if ltb 0 num_pages then register_memory_blocks lists num_pages start_index else lists
scan_pages (is_used ∷ pages) i start_index num_pages lists = elim is_used [
  | true ↦
      scan_pages pages (i + 1) start_index 0
        (if ltb 0 num_pages then register_memory_blocks lists num_pages start_index else lists)
  | false ↦
      scan_pages pages (i + 1) (if num_pages == 0 then i else start_index) (num_pages + 1) lists
]

-- All free pages registered.
unfoldable pub registered : List Bool → BuddySystem
registered pages = record { pages = pages; free_lists = scan_pages pages 0 0 0 (λ order. []) }

-- The lists up to an order have no more blocks than there are nodes.
unfoldable pub pools_hold : ℕ → FreeLists → Bool
pools_hold zero lists = leb (length (lists 0)) pool_size
pools_hold (suc order) lists = leb (length (lists (suc order))) pool_size && pools_hold order lists

-- Registering pushes only, so some push has no node exactly if a list ends up with more blocks than nodes.
unfoldable pub initialize_memory_manager : List Bool → Option BuddySystem
unfolding registered pools_hold
initialize_memory_manager pages =
    let s = registered pages in if pools_hold max_order s.free_lists then some s else none
