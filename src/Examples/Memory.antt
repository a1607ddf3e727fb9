-- ===== src/Examples/Memory.antt =====
-- The memory theorems at small memories.
use uchos.Prelude.{
  ℕ, zero, suc, ◌-◌, ◌^◌, ◌<◌, ◌≤◌, ◌≡◌, ◌⊎◌, refl, Bool, true, false, not, none, some, List, [],
  ◌∷◌, length, get_or, arith,
}
use uchos.Prelude.Bits.Width.{count_leading_zeros}
use uchos.Memory.BitUtils.{bit_width, bit_width_ceil}
use uchos.Memory.BitUtils.Width.{bit_width_ceil_lem}
use uchos.Memory.Page.{pages_for_bytes, ptr, get_page, set_status}
use uchos.Memory.Page.Status.{used}
use uchos.Memory.Buddy.{
  BuddySystem, max_order, calculate_order, find_order, split_memory_block, split_down, take_block,
  allocate_order, allocate, free,
}
use uchos.Memory.Buddy.Cover.{in_block, cover, IsBlock}
use uchos.Memory.Buddy.Allocate.{Inv, Allocates, allocate_lem}
use uchos.Memory.Buddy.Free.{HasRoom, GivenBack, free_lem, free-allocate}
use uchos.Memory.Buddy.Register.{
  calc_max_order, push_blocks, rounded_up, register_blocks, scan_pages, initialize_memory_manager,
  registered, pools_hold,
}
use uchos.Memory.Buddy.Register.Boot.{initialize_memory_manager-Inv, registered-Inv}
use uchos.Memory.Bootstrap.{
  BootstrapAllocator, MemoryDescriptor, is_bit_set, end_index, entry_size, mark_descriptors,
  mark_available, clear_bits, clear_bit, initialize,
}
use uchos.Memory.Bootstrap
use uchos.Memory.Bootstrap.FirstFit.{TakesFirst, allocate-TakesFirst}
use uchos.Memory.Bootstrap.Descriptors.{offered, initialize_lem}
use uchos.Memory.Init.{HeapBounds}

bit_width_ceil_example : (9 ≤ 2 ^ bit_width_ceil 9) × ((k : ℕ) → 9 ≤ 2 ^ k → bit_width_ceil 9 ≤ k)
bit_width_ceil_example = bit_width_ceil_lem 9 (omega arith) (omega arith)

-- The upper half of eight pages is free.
abbrev half_free : List Bool
half_free = true ∷ true ∷ true ∷ true ∷ false ∷ false ∷ false ∷ false ∷ []

abbrev half_system : BuddySystem
half_system = registered half_free

initialize_memory_manager_example :
    (pools_hold max_order half_system.free_lists ≡ true)
      × (initialize_memory_manager half_free ≡ some half_system)
      × Inv half_system
      × (half_system.pages ≡ half_free)
    ⊎ (pools_hold max_order half_system.free_lists ≡ false)
      × (initialize_memory_manager half_free ≡ none)
initialize_memory_manager_example = initialize_memory_manager-Inv half_free (omega arith)

half_system-Inv : Inv half_system
half_system-Inv = (registered-Inv half_free (omega arith)).0

allocate_example :
    (((pages_for_bytes 8192 ≡ 0) ⊎ (2 ^ max_order < pages_for_bytes 8192))
      × (allocate half_system 8192 ≡ some (half_system, 0)))
    ⊎ ((order : ℕ) × (pages_for_bytes 8192 ≤ 2 ^ order)
        × ((k : ℕ) → pages_for_bytes 8192 ≤ 2 ^ k → order ≤ k)
        × Allocates half_system order (allocate half_system 8192))
allocate_example = allocate_lem half_system 8192 half_system-Inv (omega arith)

-- One page, from the split block of four.
abbrev half_taken : BuddySystem
unfolding allocate
half_taken = elim (allocate half_system 4096) [ none ↦ half_system | some (s, addr) ↦ s ]

half_taken_test : allocate half_system 4096 ≡ some (half_taken, 16384)
unfolding allocate allocate_order calculate_order bit_width_ceil bit_width count_leading_zeros
    find_order split_down split_memory_block get_page take_block set_status registered scan_pages
    register_blocks rounded_up push_blocks calc_max_order
half_taken_test = refl

half_taken-HasRoom : HasRoom half_taken
unfolding allocate allocate_order calculate_order bit_width_ceil bit_width count_leading_zeros
    find_order split_down split_memory_block get_page take_block set_status registered scan_pages
    register_blocks rounded_up push_blocks calc_max_order
half_taken-HasRoom zero le = omega arith
half_taken-HasRoom (suc zero) le = omega arith
half_taken-HasRoom (suc (suc zero)) le = omega arith
half_taken-HasRoom (suc (suc (suc order))) le = ground arith

free-allocate_example :
    (s'' : BuddySystem) × (free half_taken 16384 4096 ≡ some s'')
    × Inv s''
    × (length s''.pages ≡ length half_system.pages)
    × ((p : ℕ) → cover s''.free_lists p ≡ cover half_system.free_lists p)
    × ((p : ℕ) → p < length half_system.pages → used s''.pages p ≡ used half_system.pages p)
free-allocate_example =
    free-allocate half_system half_taken 4096 16384 half_system-Inv (omega arith)
      (λ e. omega (arith, e)) half_taken_test half_taken-HasRoom

-- Four pages in use.
abbrev four_used : List Bool
four_used = true ∷ true ∷ true ∷ true ∷ []

abbrev full_system : BuddySystem
full_system = registered four_used

used-four_used : (p : ℕ) → get_or four_used p true ≡ true
used-four_used zero = refl
used-four_used (suc zero) = refl
used-four_used (suc (suc zero)) = refl
used-four_used (suc (suc (suc zero))) = refl
used-four_used (suc (suc (suc (suc p)))) = refl

full_system-used : (p : ℕ) → in_block 1 2 p ≤ used full_system.pages p
unfolding registered
full_system-used p = ground (arith, used-four_used p)

full_system-IsBlock : IsBlock (length full_system.pages) 1 2
unfolding registered
full_system-IsBlock = record { quotient = 1; aligned = refl; inside = omega arith }

order-two_pages : calculate_order (pages_for_bytes 8192) ≡ some 1
unfolding calculate_order bit_width_ceil bit_width count_leading_zeros
order-two_pages = refl

full_system-Inv : Inv full_system
full_system-Inv = (registered-Inv four_used (omega arith)).0

full_system-HasRoom : HasRoom full_system
unfolding registered scan_pages
full_system-HasRoom order le = omega arith

free_example :
    (s' : BuddySystem) × (free full_system (ptr 2) 8192 ≡ some s') × GivenBack full_system s' 1 2
free_example =
    free_lem full_system 1 2 8192 full_system-Inv full_system-HasRoom order-two_pages (omega arith)
      full_system-IsBlock full_system-used

-- A memory map: three pages of conventional memory from 4096 on, and a reserved one.
abbrev memory_map : List MemoryDescriptor
memory_map =
    record { type = 7; physical_start = 4096; number_of_pages = 3 }
    ∷ record { type = 0; physical_start = 16384; number_of_pages = 1 }
    ∷ []

initialize_example :
    (is_bit_set (initialize 1 memory_map).bitmap 2 ≡ not (offered memory_map 2))
    × (length (initialize 1 memory_map).bitmap ≡ 1)
initialize_example =
    initialize_lem 1 memory_map 2
      (
        record { aligned = refl; inside = omega arith; addressable = omega arith },
        (record { aligned = refl; inside = omega arith; addressable = omega arith }, tt),
      )
      (omega arith)

-- Of the pages up to the fifth, the second and the third are clear.
abbrev two_clear : BootstrapAllocator
two_clear = record { bitmap = (2 ^ 64 - 1 - 6) ∷ []; memory_end = 20480 }

allocate-TakesFirst_example :
    TakesFirst two_clear (pages_for_bytes 8192) (Bootstrap.allocate two_clear 8192)
allocate-TakesFirst_example = allocate-TakesFirst two_clear 8192 (omega arith) (omega arith)

abbrev no_heap : HeapBounds
no_heap = record { program_break = 0; program_break_end = 0 }
