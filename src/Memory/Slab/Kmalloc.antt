-- ===== src/Memory/Slab/Kmalloc.antt =====
-- `alloc`, `free` and `is_slab_object_in_use` of kernel/memory/slab.cpp without heap debugging. The name of
-- a cache is the number in it: `alloc` makes no other names. A cache is its place in the chain, which it
-- keeps. The zeroing of the memory is not modelled.
use uchos.Prelude.{
  ℕ, ◌+◌, ◌*◌, ◌-◌, ◌%◌, ◌^◌, bit_and, Bool, false, ◌&&◌, Option, none, some, List, [], ◌∷◌, ◌++◌,
  length, get_elem?, set, ltb, ◌==◌, ◌!=◌, if◌then◌else◌,
}
use uchos.Memory.BitUtils.{to_uint, bit_width_ceil, align_up}
use uchos.Memory.Page.{page_size, get_page}
use uchos.Memory.Buddy.{BuddySystem, max_order}
use uchos.Memory.Slab.{MSlab, MCache, new_cache, cache_free, is_object_in_use}
use uchos.Memory.Slab.Alloc.{Owners, cache_alloc}

-- `aligned_to_raw_addr_map` is the list of its pairs; a key stands in it once.
pub record SlabAllocator : Type 0 where
  pub buddy : BuddySystem
  pub owners : Owners
  pub cache_chain : List MCache
  pub aligned_to_raw : List (ℕ × ℕ)

abbrev pub max_alloc_size : ℕ
max_alloc_size = 2 ^ max_order * page_size

-- The index of the first cache with the object size, counted from `i`.
unfoldable pub get_cache_in_chain : List MCache → ℕ → ℕ → Option ℕ
get_cache_in_chain [] size i = none
get_cache_in_chain (c ∷ cs) size i =
    let rest = get_cache_in_chain cs size (i + 1) in if c.object_size == size then some i else rest

abbrev pub m_cache_create : List MCache → ℕ → List MCache
m_cache_create chain obj_size = chain ++ new_cache (2 ^ bit_width_ceil (to_uint obj_size)) ∷ []

-- The chain with a cache for the size, and its place.
unfoldable pub cache_for : List MCache → ℕ → List MCache × ℕ
cache_for chain size = elim (get_cache_in_chain chain size 0) [
  | some id ↦ (chain, id)
  | none ↦ (m_cache_create chain size, length chain)
]

unfoldable pub find_raw : List (ℕ × ℕ) → ℕ → Option ℕ
find_raw [] addr = none
find_raw ((k, raw) ∷ rest) addr =
    let later = find_raw rest addr in if k == addr then some raw else later

unfoldable pub erase_raw : List (ℕ × ℕ) → ℕ → List (ℕ × ℕ)
erase_raw [] addr = []
erase_raw ((k, raw) ∷ rest) addr =
    let later = erase_raw rest addr in if k == addr then rest else (k, raw) ∷ later

-- `aligned_to_raw_addr_map[aligned_addr] = addr`.
abbrev pub put_raw : List (ℕ × ℕ) → ℕ → ℕ → List (ℕ × ℕ)
put_raw pairs aligned_addr addr = (aligned_addr, addr) ∷ erase_raw pairs aligned_addr

-- The alignment of an address that the cache gave.
unfoldable pub align_object : SlabAllocator → ℕ → ℕ → SlabAllocator × ℕ
align_object s addr align =
    let aligned_addr = align_up addr align in
    if align == 1
    then (s, addr)
    else if aligned_addr == addr
    then (s, addr)
    else (record s { aligned_to_raw = put_raw s.aligned_to_raw aligned_addr addr }, aligned_addr)

-- From the cache for the rounded size on.
unfoldable pub alloc_sized : SlabAllocator → ℕ → ℕ → Option (SlabAllocator × ℕ)
alloc_sized s size align =
    let (chain, id) = cache_for s.cache_chain size in
    elim (get_elem? chain id) [
      | none ↦ none
      | some c ↦ elim (cache_alloc (record { buddy = s.buddy; owners = s.owners; cache = c }) id) [
        | none ↦ none
        | some (g, addr) ↦
            let s' : SlabAllocator = record s {
              buddy = g.buddy;
              owners = g.owners;
              cache_chain = set chain id g.cache;
            } in
            if addr == 0 then some (s', 0) else some (align_object s' addr align)
      ]
    ]

-- On `size_t`; the alignment is an `int` of at least 0.
unfoldable pub alloc : SlabAllocator → ℕ → ℕ → Option (SlabAllocator × ℕ)
alloc s size align =
    if size == 0
    then some (s, 0)
    else if align != 1 && bit_and align (align - 1) != 0
    then some (s, 0)
    else if ltb ((max_alloc_size + 2 ^ 64 - (align + 2 ^ 64 - 1) % 2 ^ 64) % 2 ^ 64) size
    then some (s, 0)
    else alloc_sized s (2 ^ bit_width_ceil (to_uint (size + align + 2 ^ 64 - 1))) align

-- The slab with a base, in a list and in a cache.
unfoldable pub find_slab : List MSlab → ℕ → Option MSlab
find_slab [] base = none
find_slab (s ∷ ss) base =
    let rest = find_slab ss base in if s.base_addr == base then some s else rest

unfoldable pub slab_of : MCache → ℕ → Option MSlab
unfolding find_slab
slab_of c base = find_slab (c.slabs_full ++ c.slabs_partial ++ c.slabs_free) base

-- The address that the cache gave, and the map without it.
unfoldable pub raw_of : SlabAllocator → ℕ → SlabAllocator × ℕ
raw_of s addr = elim (find_raw s.aligned_to_raw addr) [
  | none ↦ (s, addr)
  | some raw ↦ (record s { aligned_to_raw = erase_raw s.aligned_to_raw addr }, raw)
]

-- The owners of the page of an address; `none` is an address without a page, or a page without owners.
unfoldable pub owners_of : SlabAllocator → ℕ → Option (ℕ × ℕ)
owners_of s addr = elim (get_page s.buddy.pages addr) [ none ↦ none | some page ↦ s.owners page ]

-- A free in the cache and the slab; `none` is a cache or a slab that is not there any more.
unfoldable pub free_in : SlabAllocator → ℕ → ℕ → ℕ → Option SlabAllocator
free_in s addr id base = elim (get_elem? s.cache_chain id) [
  | none ↦ none
  | some c ↦ elim (slab_of c base) [
    | none ↦ none
    | some slab ↦ elim (cache_free c slab addr) [
      | none ↦ some s
      | some c' ↦ some (record s { cache_chain = set s.cache_chain id c' })
    ]
  ]
]

unfoldable pub free_raw : SlabAllocator × ℕ → Option SlabAllocator
free_raw (s, addr) = elim (owners_of s addr) [
  | none ↦ some s
  | some (id, base) ↦ free_in s addr id base
]

unfoldable pub free : SlabAllocator → ℕ → Option SlabAllocator
free s addr = if addr == 0 then some s else free_raw (raw_of s addr)

unfoldable pub is_in_use : SlabAllocator → ℕ → ℕ → ℕ → Option Bool
is_in_use s addr id base = elim (get_elem? s.cache_chain id) [
  | none ↦ none
  | some c ↦ elim (slab_of c base) [
    | none ↦ none
    | some slab ↦ some (is_object_in_use slab addr c.object_size)
  ]
]

unfoldable pub is_slab_object_in_use : SlabAllocator → ℕ → Option Bool
is_slab_object_in_use s addr =
    let raw = (raw_of s addr).1 in
    let found : Option Bool = elim (owners_of s raw) [
      | none ↦ some false
      | some (id, base) ↦ is_in_use s raw id base
    ] in
    if addr == 0 then some false else found

-- The slabs of the caches that were there are not given back.
unfoldable pub initialize_slab_allocator : SlabAllocator → SlabAllocator
initialize_slab_allocator s = record s { cache_chain = []; aligned_to_raw = [] }
