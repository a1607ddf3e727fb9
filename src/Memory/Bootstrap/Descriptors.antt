-- ===== src/Memory/Bootstrap/Descriptors.antt =====
-- After `initialize` the clear bits are the pages of the memory map's available descriptors.
use uchos.Prelude.{
  ℕ, ◌+◌, ◌-◌, ◌*◌, ◌/◌, ◌%◌, ◌^◌, ◌<◌, ◌≤◌, ◌≡◌, refl, sym, ap, subst, ◌∙◌, Bool, false, not, ◌&&◌,
  ◌||◌, List, [], ◌∷◌, length, length-replicate, All, ltb, leb, ◌==◌, ◌!=◌, if◌then◌else◌, arith,
}
use uchos.Memory.Page.{page_size}
use uchos.Memory.Bootstrap.{
  BootstrapAllocator, entry_size, new_allocator, is_bit_set, mark_available, MemoryDescriptor,
  is_available_memory, mark_descriptors, initialize,
}
use uchos.Memory.Bootstrap.Bitmap.{is_bit_set-clear_bits, length-clear_bits, is_bit_set-full}

-- The descriptor makes page `j` available.
abbrev pub offers : MemoryDescriptor → ℕ → Bool
offers desc j =
    is_available_memory desc.type
    && (desc.physical_start != 0)
    && leb (desc.physical_start / page_size) j
    && ltb j (desc.physical_start / page_size + desc.number_of_pages)

abbrev pub offered : List MemoryDescriptor → ℕ → Bool
offered [] j = false
offered (desc ∷ descs) j = offers desc j || offered descs j

-- The descriptor is aligned to pages and ends inside the bitmap of so many words.
pub record Describes (words : ℕ) (desc : MemoryDescriptor) : Type 0 where
  pub aligned : desc.physical_start % page_size ≡ 0
  pub inside : desc.physical_start / page_size + desc.number_of_pages ≤ entry_size * words
  pub addressable : desc.physical_start + desc.number_of_pages * page_size < 2 ^ 64

-- One descriptor.
abbrev marked : BootstrapAllocator → MemoryDescriptor → BootstrapAllocator
marked a desc =
    if not (is_available_memory desc.type)
    then a
    else if desc.physical_start == 0
    then a
    else mark_available a desc.physical_start (desc.number_of_pages * page_size % 2 ^ 64)

is_bit_set-mark_available :
    (a : BootstrapAllocator) (desc : MemoryDescriptor) (j : ℕ)
    → Describes (length a.bitmap) desc
    → is_bit_set
        (mark_available a desc.physical_start (desc.number_of_pages * page_size % 2 ^ 64)).bitmap
        j
      ≡ (if leb (desc.physical_start / page_size) j
          then if ltb j (desc.physical_start / page_size + desc.number_of_pages)
            then false
            else is_bit_set a.bitmap j
          else is_bit_set a.bitmap j)
unfolding mark_available
is_bit_set-mark_available a desc j d =
    let n = desc.number_of_pages in
    let start = desc.physical_start / page_size in
    let many : (desc.physical_start + n * page_size % 2 ^ 64) % 2 ^ 64 / page_size - start ≡ n =
      omega (arith, d.aligned, d.addressable) in
    rw many (is_bit_set-clear_bits a.bitmap start n j d.inside)

length-mark_available :
    (a : BootstrapAllocator) (addr size : ℕ)
    → length (mark_available a addr size).bitmap ≡ length a.bitmap
unfolding mark_available
length-mark_available a addr size = length-clear_bits a.bitmap (addr / page_size) _

is_bit_set-marked :
    (a : BootstrapAllocator) (desc : MemoryDescriptor) (j : ℕ)
    → Describes (length a.bitmap) desc
    → is_bit_set (marked a desc).bitmap j ≡ is_bit_set a.bitmap j && not (offers desc j)
is_bit_set-marked a desc j d =
    let bits = is_bit_set-mark_available a desc j d in ground (arith, bits)

length-marked :
    (a : BootstrapAllocator) (desc : MemoryDescriptor)
    → length (marked a desc).bitmap ≡ length a.bitmap
length-marked a desc =
    ground (
      arith,
      length-mark_available a desc.physical_start (desc.number_of_pages * page_size % 2 ^ 64),
    )

mark_descriptors-offered :
    (a : BootstrapAllocator) (descs : List MemoryDescriptor) (j : ℕ)
    → All (Describes (length a.bitmap)) descs
    → (is_bit_set (mark_descriptors a descs).bitmap j
        ≡ is_bit_set a.bitmap j && not (offered descs j))
      × (length (mark_descriptors a descs).bitmap ≡ length a.bitmap)
unfolding mark_descriptors
mark_descriptors-offered a [] j all = (ground arith, refl)
mark_descriptors-offered a (desc ∷ descs) j all =
    let same = length-marked a desc in
    let (bits, words) =
      mark_descriptors-offered (marked a desc) descs j
        (subst (λ n. All (Describes n) descs) (sym same) all.1) in
    let first = is_bit_set-marked a desc j all.0 in
    (bits ∙ ap (λ b. b && not (offered descs j)) first ∙ ground arith, words ∙ same)

-- For descriptors that are aligned to pages, that end inside a bitmap of the given words and below 2 ^ 64:
-- after `initialize` the bit of a page inside the bitmap is clear exactly when one of them offers
-- the page: it is of an available type, does not begin at address 0, and contains the page.
pub initialize_lem :
    (words : ℕ) (descs : List MemoryDescriptor) (j : ℕ)
    → All (Describes words) descs
    → j < entry_size * words
    → (is_bit_set (initialize words descs).bitmap j ≡ not (offered descs j))
      × (length (initialize words descs).bitmap ≡ words)
unfolding initialize
initialize_lem words descs j all lt =
    let same = length-replicate words (2 ^ 64 - 1) in
    let (bits, kept) =
      mark_descriptors-offered (new_allocator words) descs j
        (subst (λ n. All (Describes n) descs) (sym same) all) in
    let full = is_bit_set-full words j lt in
    (bits ∙ ap (λ b. b && not (offered descs j)) full, kept ∙ same)
