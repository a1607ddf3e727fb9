-- ===== src/Memory/Init.antt =====
-- kernel/memory/page.cpp and the end of bootstrap_allocator.cpp: from the bitmap to the page statuses and
-- the free lists. `program_break` is 0 until the heap is there; the slab allocator, which comes last, is not
-- modelled.
pub mod Heap
use uchos.Prelude.{
  ℕ, zero, suc, ◌+◌, ◌-◌, ◌*◌, Bool, true, false, Option, none, some, List, [], ◌∷◌, length, ◌==◌,
  if◌then◌else◌,
}
use uchos.Memory.Page.{page_size}
use uchos.Memory.Bootstrap.{BootstrapAllocator, is_bit_set, end_index, allocate}
use uchos.Memory.Buddy.{BuddySystem}
use uchos.Memory.Buddy.Register.{initialize_memory_manager}

-- The statuses of `n` pages from index `i` on.
unfoldable pub page_statuses : List ℕ → ℕ → ℕ → List Bool
page_statuses bitmap i zero = []
page_statuses bitmap i (suc n) = is_bit_set bitmap i ∷ page_statuses bitmap (i + 1) n

unfoldable pub initialize_pages : BootstrapAllocator → List Bool
initialize_pages a = page_statuses a.bitmap 0 (end_index a)

abbrev pub count_free : List Bool → ℕ
count_free [] = 0
count_free (is_used ∷ pages) = (if is_used then 0 else 1) + count_free pages

-- The total and the used bytes.
unfoldable pub get_memory_usage : List Bool → ℕ × ℕ
get_memory_usage pages = (length pages * page_size, (length pages - count_free pages) * page_size)

abbrev pub heap_pages : ℕ
heap_pages = 32768

abbrev pub heap_size : ℕ
heap_size = heap_pages * page_size

pub record HeapBounds : Type 0 where
  pub program_break : ℕ
  pub program_break_end : ℕ

unfoldable pub initialize_heap : BootstrapAllocator → HeapBounds → BootstrapAllocator × HeapBounds
initialize_heap a bounds =
    let (a', heap) = allocate a heap_size in
    if heap == 0
    then (a', bounds)
    else (a', record { program_break = heap; program_break_end = heap + heap_size })

-- `boot_allocator` is null afterwards.
pub record Allocators : Type 0 where
  pub boot_allocator : Option BootstrapAllocator
  pub heap : HeapBounds
  pub manager : BuddySystem

-- `none` is what it is for the buddy system.
unfoldable pub initialize_allocators : BootstrapAllocator → HeapBounds → Option Allocators
initialize_allocators a bounds =
    let (a', heap) = initialize_heap a bounds in
    elim (initialize_memory_manager (initialize_pages a')) [
      | none ↦ none
      | some manager ↦ some (record { boot_allocator = none; heap = heap; manager = manager })
    ]
