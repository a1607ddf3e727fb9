-- ===== src/Memory/Bootstrap.antt =====
-- kernel/memory/bootstrap_allocator.{hpp,cpp} and UchLoaderPkg/memory_map.hpp: the allocator at boot,
-- one bit for each page, 1 for a used one. `bitmap_` is a list of 64-bit words, `memory_end_` an address.
pub mod Bitmap
pub mod Descriptors
pub mod FirstFit
use uchos.Prelude.{
  ℕ, zero, suc, ◌+◌, ◌-◌, ◌*◌, ◌/◌, ◌%◌, ◌^◌, max, bit_and, bit_or, Bool, true, false, not, ◌||◌,
  Option, none, some, List, [], ◌∷◌, get_or, set, replicate, ◌==◌, ◌!=◌, if◌then◌else◌,
}
use uchos.Memory.Page.{page_size, pages_for_bytes, ptr}

abbrev pub entry_size : ℕ
entry_size = 64

pub record BootstrapAllocator : Type 0 where
  pub bitmap : List ℕ
  pub memory_end : ℕ

-- The number of words is `TOTAL_PAGES / BITMAP_ENTRY_SIZE`.
abbrev pub new_allocator : ℕ → BootstrapAllocator
new_allocator words = record { bitmap = replicate words (2 ^ 64 - 1); memory_end = 0 }

abbrev pub word : List ℕ → ℕ → ℕ
word bitmap i = get_or bitmap (i / entry_size) 0

unfoldable pub is_bit_set : List ℕ → ℕ → Bool
is_bit_set bitmap i = bit_and (word bitmap i) (2 ^ (i % entry_size)) != 0

abbrev pub end_index : BootstrapAllocator → ℕ
end_index a = a.memory_end / page_size

unfoldable pub set_bit : List ℕ → ℕ → List ℕ
set_bit bitmap i = set bitmap (i / entry_size) (bit_or (word bitmap i) (2 ^ (i % entry_size)))

unfoldable pub clear_bit : List ℕ → ℕ → List ℕ
clear_bit bitmap i =
    set bitmap (i / entry_size) (bit_and (word bitmap i) (2 ^ 64 - 1 - 2 ^ (i % entry_size)))

-- `n` bits from `start` on.
unfoldable pub set_bits : List ℕ → ℕ → ℕ → List ℕ
set_bits bitmap start zero = bitmap
set_bits bitmap start (suc n) = set_bits (set_bit bitmap start) (start + 1) n

unfoldable pub clear_bits : List ℕ → ℕ → ℕ → List ℕ
clear_bits bitmap start zero = bitmap
clear_bits bitmap start (suc n) = clear_bits (clear_bit bitmap start) (start + 1) n

-- The search from bit `i` on, with the run of clear bits before it.
unfoldable pub find_run : List ℕ → ℕ → ℕ → ℕ → ℕ → ℕ → Option ℕ
find_run bitmap num_pages zero i start count = none
find_run bitmap num_pages (suc rounds) i start count = elim (is_bit_set bitmap i) [
  | true ↦ find_run bitmap num_pages rounds (i + 1) start 0
  | false ↦
      let start' = if count == 0 then i else start in
      let rest = find_run bitmap num_pages rounds (i + 1) start' (count + 1) in
      if count + 1 == num_pages then some start' else rest
]

-- The allocator afterwards and the address; 0 is the null pointer.
unfoldable pub allocate : BootstrapAllocator → ℕ → BootstrapAllocator × ℕ
allocate a size = elim (find_run a.bitmap (pages_for_bytes size) (end_index a) 0 0 0) [
  | none ↦ (a, 0)
  | some start ↦ (record a { bitmap = set_bits a.bitmap start (pages_for_bytes size) }, ptr start)
]

abbrev pub clear_range : List ℕ → ℕ → ℕ → List ℕ
clear_range bitmap addr size =
    let start = addr / page_size in
    clear_bits bitmap start ((addr + size) % 2 ^ 64 / page_size - start)

unfoldable pub free : BootstrapAllocator → ℕ → ℕ → BootstrapAllocator
free a addr size = record a { bitmap = clear_range a.bitmap addr size }

unfoldable pub mark_available : BootstrapAllocator → ℕ → ℕ → BootstrapAllocator
mark_available a addr size = record {
  bitmap = clear_range a.bitmap addr size;
  memory_end = max a.memory_end ((addr + size) % 2 ^ 64 / page_size * page_size);
}

pub record MemoryDescriptor : Type 0 where
  pub type : ℕ
  pub physical_start : ℕ
  pub number_of_pages : ℕ

-- Boot services' code, boot services' memory, and conventional memory.
abbrev pub is_available_memory : ℕ → Bool
is_available_memory type = type == 3 || type == 4 || type == 7

-- The descriptors of the memory map, in order.
unfoldable pub mark_descriptors : BootstrapAllocator → List MemoryDescriptor → BootstrapAllocator
mark_descriptors a [] = a
mark_descriptors a (desc ∷ descs) =
    mark_descriptors
      (if not (is_available_memory desc.type)
        then a
        else if desc.physical_start == 0
        then a
        else mark_available a desc.physical_start (desc.number_of_pages * page_size % 2 ^ 64))
      descs

unfoldable pub initialize : ℕ → List MemoryDescriptor → BootstrapAllocator
initialize words descs = mark_descriptors (new_allocator words) descs
