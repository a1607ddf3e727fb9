-- ===== src/Memory/Init/Heap.antt =====
-- The heap that is carved out at boot is never in a free block.
use uchos.Prelude.{ℕ, ◌+◌, ◌<◌, ◌≤◌, ◌≡◌, ◌⊎◌, true, none, length, ltb, leb, if◌then◌else◌}
use uchos.Memory.Page.{ptr}
use uchos.Memory.Bootstrap.{BootstrapAllocator, is_bit_set, end_index}
use uchos.Memory.Bootstrap.FirstFit.{Clear}
use uchos.Memory.Buddy.{BuddySystem, max_order}
use uchos.Memory.Buddy.Cover.{cover}
use uchos.Memory.Buddy.Allocate.{Inv}
use uchos.Memory.Buddy.Register.{registered, pools_hold}
use uchos.Memory.Init.{initialize_pages, heap_pages, HeapBounds, initialize_heap, Allocators}

-- The free lists set up from a bitmap cover its clear bits.
pub record SetUp (a : BootstrapAllocator) (manager : BuddySystem) : Type 0 where
  pub invariant : Inv manager
  pub same_length : length manager.pages ≡ end_index a
  pub clear_covered :
      (j : ℕ)
      → j < end_index a
      → cover manager.free_lists j ≡ (if is_bit_set a.bitmap j then 0 else 1)

-- The heap is the run from `start` on.
abbrev pub HeapAt : BootstrapAllocator → Allocators → ℕ → Type 0
HeapAt a k start =
    (k.heap.program_break ≡ ptr start)
    × (k.heap.program_break_end ≡ ptr (start + heap_pages))
    × (start + heap_pages ≤ end_index a)
    × Clear a.bitmap start heap_pages
    × ((j : ℕ)
        → j < end_index a
        → cover k.manager.free_lists j ≡ (
            if leb start j
            then (if ltb j (start + heap_pages) then 0 else if is_bit_set a.bitmap j then 0 else 1)
            else if is_bit_set a.bitmap j
            then 0
            else 1))

-- The free blocks cover exactly the clear pages, but for a heap.
abbrev pub Boots : BootstrapAllocator → HeapBounds → Allocators → Type 0
Boots a bounds k =
    (k.boot_allocator ≡ none)
    × Inv k.manager
    × (length k.manager.pages ≡ end_index a)
    × ((((t : ℕ) → t + heap_pages ≤ end_index a → ¬ Clear a.bitmap t heap_pages)
          × (k.heap ≡ bounds)
          × ((j : ℕ)
              → j < end_index a
              → cover k.manager.free_lists j ≡ (if is_bit_set a.bitmap j then 0 else 1)))
        ⊎ ((start : ℕ) × HeapAt a k start))

-- The free blocks of what the bootstrap allocator leaves find nodes in the pools.
abbrev pub PoolsHold : BootstrapAllocator → HeapBounds → Type 0
PoolsHold a bounds =
    pools_hold max_order (registered (initialize_pages (initialize_heap a bounds).0)).free_lists
    ≡ true

-- What `initialize_allocators` gives when they do.
booted : BootstrapAllocator → HeapBounds → Allocators
booted a bounds = record {
  boot_allocator = none;
  heap = (initialize_heap a bounds).1;
  manager = registered (initialize_pages (initialize_heap a bounds).0);
}
