-- ===== src/Memory/Buddy.antt =====
-- kernel/memory/buddy_system.{hpp,cpp}. The free lists are a function of the order, of which the
-- orders up to `MAX_ORDER` are used. A result `none` is an access through a null pointer, to the
-- front of an empty list, or outside `pages`, or a push for which the pool of the list has no node; the
-- null pointer that `allocate` returns is 0. A split pushes onto lists that are empty, so it always has
-- nodes.
pub mod Allocate
pub mod Cover
pub mod Free
pub mod Merge
pub mod Register
pub mod Split
use uchos.Prelude.{
  ℕ, zero, suc, ◌+◌, ◌*◌, ◌-◌, ◌/◌, ◌%◌, ◌^◌, min, bit_xor, Bool, true, false, ◌||◌, Option, none,
  some, List, [], ◌∷◌, ◌++◌, length, get_elem?, get_or, ltb, ◌==◌, if◌then◌else◌,
}
use uchos.Memory.BitUtils.{to_uint, bit_width_ceil}
use uchos.Memory.Page.{page_size, pages_for_bytes, ptr, get_page, set_status}

abbrev pub max_order : ℕ
max_order = 18

-- The nodes of the pool from which a free list takes its own.
abbrev pub pool_size : ℕ
pool_size = 4096

abbrev pub FreeLists : Type 0
FreeLists = ℕ → List ℕ

-- A free block is its first page.
pub record BuddySystem : Type 0 where
  pub pages : List Bool
  pub free_lists : FreeLists

abbrev pub put_list : FreeLists → ℕ → List ℕ → FreeLists
put_list lists order blocks i = if i == order then blocks else lists i

-- `none` is -1.
unfoldable pub calculate_order : ℕ → Option ℕ
calculate_order num_pages =
    if num_pages == 0
    then none
    else let order = bit_width_ceil (to_uint num_pages) in
      if ltb max_order order then none else some order

abbrev pub buddy_addr : ℕ → ℕ → ℕ
buddy_addr order block = bit_xor (ptr block) (2 ^ order * page_size)

-- The lists once the front block of `order` is split.
abbrev pub split_lists : FreeLists → ℕ → ℕ → ℕ → List ℕ → ℕ → FreeLists
split_lists lists order lower_order block rest buddy =
    let popped = put_list lists order rest in
    put_list popped lower_order (popped lower_order ++ block ∷ buddy ∷ [])

unfoldable pub split_memory_block : BuddySystem → ℕ → Option BuddySystem
split_memory_block s order = elim (s.free_lists order) [
  | [] ↦ none
  | block ∷ rest ↦ elim (get_page s.pages (buddy_addr (order - 1) block)) [
    | none ↦ none
    | some buddy ↦
        some (record s { free_lists = split_lists s.free_lists order (order - 1) block rest buddy })
  ]
]

-- The first order from `i` on with a free block.
unfoldable pub find_order : FreeLists → ℕ → ℕ → Option ℕ
find_order lists zero i = none
find_order lists (suc rounds) i = elim (lists i) [
  | [] ↦ find_order lists rounds (i + 1)
  | block ∷ rest ↦ some i
]

-- The splits from order `i` down.
unfoldable pub split_down : BuddySystem → ℕ → ℕ → Option BuddySystem
split_down s zero i = some s
split_down s (suc rounds) i = elim (split_memory_block s i) [
  | none ↦ none
  | some s' ↦ split_down s' rounds (i - 1)
]

-- The front block of the order.
unfoldable pub take_block : BuddySystem → ℕ → Option (BuddySystem × ℕ)
take_block s order = elim (s.free_lists order) [
  | [] ↦ none
  | page ∷ rest ↦ elim (get_elem? s.pages page) [
    | none ↦ none
    | some is_used ↦
        if is_used
        then some (s, 0)
        else some (
          record {
            pages = set_status s.pages page (2 ^ order) true;
            free_lists = put_list s.free_lists order rest;
          },
          ptr page,
        )
  ]
]

unfoldable pub allocate_order : BuddySystem → ℕ → Option (BuddySystem × ℕ)
allocate_order s order = elim (s.free_lists order) [
  | block ∷ rest ↦ take_block s order
  | [] ↦ elim (find_order s.free_lists (max_order - order) (order + 1)) [
    | none ↦ some (s, 0)
    | some next_order ↦ elim (split_down s (next_order - order) next_order) [
      | none ↦ none
      | some s' ↦ take_block s' order
    ]
  ]
]

-- The system afterwards and the address.
unfoldable pub allocate : BuddySystem → ℕ → Option (BuddySystem × ℕ)
allocate s size = elim (calculate_order (pages_for_bytes size)) [
  | none ↦ some (s, 0)
  | some order ↦ allocate_order s order
]

-- `std::find` and the removal of what it found.
abbrev pub holds : List ℕ → ℕ → Bool
holds [] block = false
holds (x ∷ xs) block = x == block || holds xs block

unfoldable pub erase : List ℕ → ℕ → List ℕ
erase [] block = []
erase (x ∷ xs) block = let rest = erase xs block in if x == block then xs else x ∷ rest

abbrev pub push_back : FreeLists → ℕ → ℕ → FreeLists
push_back lists order block = put_list lists order (lists order ++ block ∷ [])

-- The merged block with its order, and the lists, to which it has been added.
pub record Merged : Type 0 where
  pub lists : FreeLists
  pub start : ℕ
  pub order : ℕ

-- The loop of `free`; the number is the orders left up to `MAX_ORDER`.
unfoldable pub merge : List Bool → ℕ → ℕ → ℕ → FreeLists → Merged
merge pages zero order start lists = record {
  lists = push_back lists order start;
  start = start;
  order = order;
}
merge pages (suc rounds) order start lists =
    let pushed : Merged = record {
      lists = push_back lists order start;
      start = start;
      order = order;
    } in
    elim (get_page pages (buddy_addr order start)) [
      | none ↦ pushed
      | some buddy ↦
          let merged =
            merge pages rounds (order + 1) (min start buddy)
              (put_list lists order (erase (lists order) buddy)) in
          if holds (lists order) buddy then merged else pushed
    ]

-- The merged block is pushed once, onto the list of its order; that needs a node.
unfoldable pub free_order : BuddySystem → ℕ → ℕ → Option BuddySystem
free_order s start order =
    let m = merge s.pages (max_order - order) order start s.free_lists in
    if ltb pool_size (length (m.lists m.order))
    then none
    else some
        (record { pages = set_status s.pages m.start (2 ^ m.order) false; free_lists = m.lists })

unfoldable pub free : BuddySystem → ℕ → ℕ → Option BuddySystem
free s addr size = elim (get_elem? s.pages (addr / page_size)) [
  | none ↦ none
  | some is_used ↦
      if is_used
      then elim (calculate_order (pages_for_bytes size)) [
        | none ↦ some s
        | some order ↦ free_order s (addr / page_size) order
      ]
      else some s
]
