-- ===== src/Memory/Slab.antt =====
-- kernel/memory/slab.{hpp,cpp} without heap debugging: slabs and caches. A slab is named by its base
-- address, which no other slab has while it exists; its place in a list of its cache is found by it.
pub mod Alloc
pub mod Kmalloc
pub mod Occupancy
pub mod Objects
pub mod Classes
pub mod Lists
pub mod Moves
pub mod Release
pub mod Grow
use uchos.Prelude.{
  ℕ, zero, suc, ◌+◌, ◌*◌, ◌-◌, ◌/◌, ◌%◌, ◌^◌, Bool, true, false, not, Option, none, some, List, [],
  ◌∷◌, ◌++◌, length, get_elem?, set, replicate, leb, ◌==◌, ◌!=◌, if◌then◌else◌,
}
use uchos.Memory.Page.{page_size}

pub data SlabStatus : Type 0 where
  full partial free : SlabStatus

pub record MObject : Type 0 where
  pub usage_count : ℕ
  pub in_use : Bool

pub record MSlab : Type 0 where
  pub objects : List MObject
  pub base_addr : ℕ
  pub num_in_use : ℕ
  pub free_objects_index : List ℕ
  pub status : SlabStatus

abbrev pub is_full : MSlab → Bool
is_full s = s.num_in_use == length s.objects

abbrev pub is_empty : MSlab → Bool
is_empty s = s.num_in_use == 0

-- The indices from `i` on.
unfoldable pub indices : ℕ → ℕ → List ℕ
indices zero i = []
indices (suc n) i = i ∷ indices n (i + 1)

-- The constructor, and the status that `grow` sets.
unfoldable pub new_slab : ℕ → ℕ → MSlab
unfolding indices
new_slab base_addr num_objs = record {
  objects = replicate num_objs (record { usage_count = 0; in_use = false });
  base_addr = base_addr;
  num_in_use = 0;
  free_objects_index = indices num_objs 0;
  status = free;
}

-- `increase_usage_count` and `set_in_use(true)`; the count is 32 bits wide.
abbrev pub taken_object : MObject → MObject
taken_object o = record { usage_count = (o.usage_count + 1) % 2 ^ 32; in_use = true }

-- `objects_[index]` with a write to it; outside the objects nothing happens here.
abbrev pub update_object : List MObject → ℕ → (MObject → MObject) → List MObject
update_object objects index f = elim (get_elem? objects index) [
  | none ↦ objects
  | some o ↦ set objects index (f o)
]

-- The slab afterwards and the address, if there is a free object.
unfoldable pub alloc_object : MSlab → ℕ → Option (MSlab × ℕ)
alloc_object s obj_size = elim s.free_objects_index [
  | [] ↦ none
  | obj_index ∷ rest ↦ some (
    record s {
      objects = update_object s.objects obj_index taken_object;
      num_in_use = s.num_in_use + 1;
      free_objects_index = rest;
    },
    s.base_addr + obj_index * obj_size,
  )
]

-- On `uintptr_t`.
abbrev pub offset_in : MSlab → ℕ → ℕ
offset_in s addr = (addr + 2 ^ 64 - s.base_addr) % 2 ^ 64

unfoldable pub in_use_at : MSlab → ℕ → Bool
in_use_at s index = elim (get_elem? s.objects index) [ none ↦ false | some o ↦ o.in_use ]

unfoldable pub is_object_in_use : MSlab → ℕ → ℕ → Bool
is_object_in_use s addr obj_size =
    if offset_in s addr % obj_size != 0 then false else in_use_at s (offset_in s addr / obj_size)

unfoldable pub free_at : MSlab → ℕ → Option MSlab
free_at s objs_index = elim (get_elem? s.objects objs_index) [
  | none ↦ none
  | some o ↦
      if o.in_use
      then some (record s {
        objects = set s.objects objs_index (record o { in_use = false });
        free_objects_index = s.free_objects_index ++ objs_index ∷ [];
        num_in_use = s.num_in_use - 1;
      })
      else none
]

-- The slab afterwards, if the address is that of an object in use.
unfoldable pub free_object : MSlab → ℕ → ℕ → Option MSlab
free_object s addr obj_size =
    if offset_in s addr % obj_size != 0 then none else free_at s (offset_in s addr / obj_size)

pub record MCache : Type 0 where
  pub object_size : ℕ
  pub num_pages_per_slab : ℕ
  pub slabs_full : List MSlab
  pub slabs_partial : List MSlab
  pub slabs_free : List MSlab

-- The constructor.
abbrev pub new_cache : ℕ → MCache
new_cache object_size = record {
  object_size = object_size;
  num_pages_per_slab = if leb object_size page_size then 1 else object_size / page_size;
  slabs_full = [];
  slabs_partial = [];
  slabs_free = [];
}

abbrev pub slab_list_for : MCache → SlabStatus → List MSlab
slab_list_for c free = c.slabs_free
slab_list_for c partial = c.slabs_partial
slab_list_for c full = c.slabs_full

abbrev pub put_slab_list : MCache → SlabStatus → List MSlab → MCache
put_slab_list c free slabs = record c { slabs_free = slabs }
put_slab_list c partial slabs = record c { slabs_partial = slabs }
put_slab_list c full slabs = record c { slabs_full = slabs }

abbrev pub same_status : SlabStatus → SlabStatus → Bool
same_status full full = true
same_status partial partial = true
same_status free free = true
same_status a b = false

unfoldable pub erase_slab : List MSlab → ℕ → List MSlab
erase_slab [] base = []
erase_slab (s ∷ ss) base =
    let rest = erase_slab ss base in if s.base_addr == base then ss else s ∷ rest

-- The slab is the one that stands in the list of its status.
unfoldable pub move_list : MCache → MSlab → SlabStatus → MCache
move_list c s to =
    let erased = put_slab_list c s.status (erase_slab (slab_list_for c s.status) s.base_addr) in
    if same_status s.status to
    then c
    else put_slab_list erased to (slab_list_for erased to ++ record s { status = to } ∷ [])

unfoldable pub replace_slab : List MSlab → MSlab → List MSlab
replace_slab [] new = []
replace_slab (s ∷ ss) new =
    let rest = replace_slab ss new in if s.base_addr == new.base_addr then new ∷ ss else s ∷ rest

-- The writes through the pointer to a slab.
abbrev pub write_slab : MCache → MSlab → MCache
write_slab c s = put_slab_list c s.status (replace_slab (slab_list_for c s.status) s)

-- After a free: a slab that is no longer full, and then one that is empty, with the cache.
unfoldable pub leave_full : MCache → MSlab → MCache × MSlab
leave_full c s =
    if same_status s.status full
    then (move_list c s partial, record s { status = partial })
    else (c, s)

unfoldable pub leave_partial : MCache × MSlab → MCache
leave_partial (c, s) = if is_empty s then move_list c s free else c

-- The rest of `free` once the cache and the slab are known: the cache, if the address was that of an
-- object in use.
unfoldable pub cache_free : MCache → MSlab → ℕ → Option MCache
cache_free c s addr = elim (free_object s addr c.object_size) [
  | none ↦ none
  | some s' ↦ some (leave_partial (leave_full (write_slab c s') s'))
]
