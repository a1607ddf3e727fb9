-- ===== src/Memory/Slab/Alloc.antt =====
-- `MCache::grow` and `MCache::alloc` of kernel/memory/slab.cpp, which take slabs from the buddy system.
-- `none` is an access to the front of an empty list, or what it is for the buddy system.
use uchos.Prelude.{
  ℕ, zero, suc, ◌+◌, ◌*◌, ◌/◌, Bool, true, false, Option, none, some, List, [], ◌∷◌, ◌++◌, ◌==◌,
  if◌then◌else◌,
}
use uchos.Memory.Page.{page_size, get_page}
use uchos.Memory.Buddy.{BuddySystem}
use uchos.Memory.Buddy as Buddy
use uchos.Memory.Slab.{full, partial, MSlab, MCache, is_full, new_slab, alloc_object, move_list}

-- The page's `cache` and `slab`: the index of the cache in the chain, and the slab's base.
abbrev pub Owners : Type 0
Owners = ℕ → Option (ℕ × ℕ)

-- The loop over the pages of a slab; the Boolean is false when a page is not found.
unfoldable pub mark_pages : List Bool → ℕ → ℕ → ℕ → ℕ → Owners → Owners × Bool
mark_pages pages id base zero addr owners = (owners, true)
mark_pages pages id base (suc n) addr owners = elim (get_page pages addr) [
  | none ↦ (owners, false)
  | some page ↦
      mark_pages pages id base n (addr + page_size)
        (λ p. if p == page then some (id, base) else owners p)
]

-- What `grow` and `alloc` change: the buddy system, the owners of the pages, and the cache.
pub record Growing : Type 0 where
  pub buddy : BuddySystem
  pub owners : Owners
  pub cache : MCache

-- What follows the allocation of the pages.
unfoldable pub add_slab : Growing → ℕ → ℕ → ℕ → Option (Growing × Bool)
unfolding new_slab
add_slab s id bytes_per_slab addr =
    let (owners, found) =
      mark_pages s.buddy.pages id addr s.cache.num_pages_per_slab addr s.owners in
    let slab = new_slab addr (bytes_per_slab / s.cache.object_size) in
    let dropped : Option (Growing × Bool) = elim (Buddy.free s.buddy addr bytes_per_slab) [
      | none ↦ none
      | some buddy ↦ some (record s { buddy = buddy; owners = owners }, false)
    ] in
    if addr == 0
    then some (s, false)
    else if found
    then some (
      record s {
        owners = owners;
        cache = record s.cache { slabs_free = s.cache.slabs_free ++ slab ∷ [] };
      },
      true,
    )
    else dropped

-- The number is the index of the cache in the chain.
unfoldable pub grow : Growing → ℕ → Option (Growing × Bool)
grow s id =
    let bytes_per_slab = s.cache.num_pages_per_slab * page_size in
    elim (Buddy.allocate s.buddy bytes_per_slab) [
      | none ↦ none
      | some (buddy, addr) ↦ add_slab (record s { buddy = buddy }) id bytes_per_slab addr
    ]

-- From the front of the partial slabs on: the cache afterwards and the address, or 0.
unfoldable pub alloc_partial : MCache → Option (MCache × ℕ)
alloc_partial c = elim c.slabs_partial [
  | [] ↦ none
  | current_slab ∷ rest ↦ elim (alloc_object current_slab c.object_size) [
    | none ↦ some (c, 0)
    | some (slab, addr) ↦
        let c' = record c { slabs_partial = slab ∷ rest } in
        some (if is_full slab then move_list c' slab full else c', addr)
  ]
]

unfoldable pub take_free : MCache → Option MCache
take_free c = elim c.slabs_free [
  | [] ↦ none
  | free_slab ∷ rest ↦ some (move_list c free_slab partial)
]

-- With no partial slab: one of the free ones becomes partial.
unfoldable pub alloc_free : Growing → Option (Growing × ℕ)
alloc_free s = elim (take_free s.cache) [
  | none ↦ none
  | some c ↦ elim (alloc_partial c) [
    | none ↦ none
    | some (c', addr) ↦ some (record s { cache = c' }, addr)
  ]
]

unfoldable pub alloc_grown : Growing → ℕ → Option (Growing × ℕ)
alloc_grown s id = elim (grow s id) [
  | none ↦ none
  | some (s', grown) ↦ if grown then alloc_free s' else some (s', 0)
]

unfoldable pub alloc_front : Growing → Option (Growing × ℕ)
alloc_front s = elim (alloc_partial s.cache) [
  | none ↦ none
  | some (c, addr) ↦ some (record s { cache = c }, addr)
]

-- Which of the three ways is taken: the lists are those of the partial and the free slabs.
unfoldable pub choose {ℓ} : {A : Type ℓ} → List MSlab → List MSlab → A → A → A → A
choose (x ∷ xs) frees with_partial with_free with_none = with_partial
choose [] (x ∷ xs) with_partial with_free with_none = with_free
choose [] [] with_partial with_free with_none = with_none

-- `MCache::alloc`.
unfoldable pub cache_alloc : Growing → ℕ → Option (Growing × ℕ)
unfolding choose
cache_alloc s id =
    choose s.cache.slabs_partial s.cache.slabs_free (alloc_front s) (alloc_free s)
      (alloc_grown s id)
