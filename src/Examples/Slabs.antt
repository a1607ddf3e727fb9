-- ===== src/Examples/Slabs.antt =====
-- A cache with one slab of two objects, of which the first one is in use.
use uchos.Prelude.{
  ℕ, zero, suc, ◌≡◌, ◌≢◌, ◌⊎◌, refl, true, false, none, some, [], ◌∷◌, get_elem?, All, arith,
}
use uchos.Memory.Slab.{
  SlabStatus, full, partial, free, MSlab, MCache, cache_free, slab_list_for, same_status,
}
use uchos.Memory.Slab.Alloc.{Growing, cache_alloc}
use uchos.Memory.Slab.Occupancy.{count, vacant}
use uchos.Memory.Slab.Objects.{Released}
use uchos.Memory.Slab.Classes.{InClass, IsCache}
use uchos.Memory.Slab.Lists.{Served}
use uchos.Memory.Slab.Moves.{Stands, Settled}
use uchos.Memory.Slab.Release.{cache_free_lem}
use uchos.Memory.Slab.Kmalloc.{find_slab}
use uchos.Memory.Slab.Grow.{has_partial, cache_alloc_lem}

abbrev half_used : MSlab
half_used = record {
  objects =
      record { usage_count = 1; in_use = true } ∷ record { usage_count = 0; in_use = false } ∷ [];
  base_addr = 8192;
  num_in_use = 1;
  free_objects_index = 1 ∷ [];
  status = partial;
}

abbrev one_slab : MCache
one_slab = record {
  object_size = 2048;
  num_pages_per_slab = 1;
  slabs_full = [];
  slabs_partial = half_used ∷ [];
  slabs_free = [];
}

half_used-listed :
    (i : ℕ) → count i half_used.free_objects_index ≡ vacant (get_elem? half_used.objects i)
half_used-listed zero = refl
half_used-listed (suc zero) = refl
half_used-listed (suc (suc i)) = ground arith

half_used-InClass : InClass partial half_used
half_used-InClass = record {
  slab = record { listed = half_used-listed; counted = refl };
  status = refl;
  proper = omega arith;
  occupied = (omega arith, omega arith);
}

one_slab-IsCache : IsCache one_slab
one_slab-IsCache full = tt
one_slab-IsCache partial = (half_used-InClass, tt)
one_slab-IsCache free = tt

abbrev growing : Growing
growing = record {
  buddy = record { pages = []; free_lists = λ order. [] };
  owners = λ page. none;
  cache = one_slab;
}

cache_alloc_example : Served growing half_used [] [] (cache_alloc growing 0)
cache_alloc_example = cache_alloc_lem growing 0 (has_partial half_used [] refl) one_slab-IsCache

one_slab-Stands : Stands one_slab half_used
unfolding find_slab
one_slab-Stands = record { here = refl; only = only }
  where
    only :
        (st : SlabStatus)
        → same_status st partial ≡ false
        → All (λ x. x.base_addr ≢ 8192) (slab_list_for one_slab st)
    only full h = tt
    only partial h = absurd (cc h)
    only free h = tt

cache_free_example :
    (true ≡ false) × (cache_free one_slab half_used 8192 ≡ none)
    ⊎ (true ≡ true)
      × ((c' : MCache) × (s' : MSlab) × (cache_free one_slab half_used 8192 ≡ some c')
          × Released half_used s' 2048 0 (record { usage_count = 1; in_use = true })
          × Settled c' s')
cache_free_example =
    cache_free_lem one_slab half_used 0 (record { usage_count = 1; in_use = true }) one_slab-IsCache
      one_slab-Stands (record { sized = omega arith; below = omega arith }) refl
