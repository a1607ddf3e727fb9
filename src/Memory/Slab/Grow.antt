-- ===== src/Memory/Slab/Grow.antt =====
-- An allocation from a cache, which may grow by a slab.
use uchos.Prelude.{
  ℕ, zero, suc, ◌+◌, ◌*◌, ◌/◌, ◌<◌, ◌≡◌, ◌≢◌, refl, sym, ap, ap₂, true, false, some, List, [], ◌∷◌,
  ◌++◌, get_elem?, replicate, length-replicate, All-append, ◌==◌, arith, ==_false,
}
use uchos.Memory.Page.{page_size}
use uchos.Memory.Buddy.{BuddySystem}
use uchos.Memory.Buddy as Buddy
use uchos.Memory.Slab.{partial, free, MObject, MSlab, indices, new_slab}
use uchos.Memory.Slab.Alloc.{
  mark_pages, Growing, add_slab, grow, alloc_free, alloc_front, alloc_grown, choose, cache_alloc,
}
use uchos.Memory.Slab.Occupancy.{count, vacant, used_count, IsSlab}
use uchos.Memory.Slab.Classes.{InClass, IsCache, IsCache-put}
use uchos.Memory.Slab.Lists.{Served, cache_alloc-partial, alloc_free_lem}

abbrev fresh : MObject
fresh = record { usage_count = 0; in_use = false }

count-indices_below : (n k j : ℕ) → j < k → count j (indices n k) ≡ 0
unfolding indices
count-indices_below zero k j h = refl
count-indices_below (suc n) k j h =
    rw (==_false k j (λ e. omega (arith, e, h)))
      (omega (arith, count-indices_below n (k + 1) j (omega (arith, h))))

count-indices : (n k i : ℕ) → count (k + i) (indices n k) ≡ vacant (get_elem? (replicate n fresh) i)
unfolding indices
count-indices zero k i = refl
count-indices (suc n) k zero =
    let e : (k == k + 0) ≡ true = ground arith in
    rw e (omega (arith, count-indices_below n (k + 1) (k + 0) (omega arith)))
count-indices (suc n) k (suc i) =
    let e : k + suc i ≡ (k + 1) + i = omega arith in
    rw (==_false k (k + suc i) (λ p. omega (arith, p)))
      (omega (arith, ap (λ (x : ℕ). count x (indices n (k + 1))) e, count-indices n (k + 1) i))

used_count-replicate : (n : ℕ) → used_count (replicate n fresh) ≡ 0
used_count-replicate zero = refl
used_count-replicate (suc n) = omega (arith, used_count-replicate n)

new_slab-IsSlab : (base n : ℕ) → IsSlab (new_slab base n)
unfolding new_slab
new_slab-IsSlab base n = record {
  listed = λ i.
      let e : 0 + i ≡ i = omega arith in
      let c : count (0 + i) (indices n 0) ≡ vacant (get_elem? (replicate n fresh) i) =
        count-indices n 0 i in
      rw e at c;
  counted = sym (used_count-replicate n);
}

-- Where an allocation can come from: the front partial slab; with none, the front free one; with none of
-- these either, a block of the buddy system whose pages are all known.
pub data Source (s : Growing) (id : ℕ) : Type 0 where
  has_partial : (x : MSlab) (xs : List MSlab) → s.cache.slabs_partial ≡ x ∷ xs → Source s id
  has_free :
      (x : MSlab) (xs : List MSlab)
      → s.cache.slabs_partial ≡ []
      → s.cache.slabs_free ≡ x ∷ xs
      → Source s id
  can_grow :
      (buddy : BuddySystem) (addr : ℕ)
      → s.cache.slabs_partial ≡ []
      → s.cache.slabs_free ≡ []
      → Buddy.allocate s.buddy (s.cache.num_pages_per_slab * page_size) ≡ some (buddy, addr)
      → addr ≢ 0
      → (mark_pages buddy.pages id addr s.cache.num_pages_per_slab addr s.owners).1 ≡ true
      → 0 < s.cache.num_pages_per_slab * page_size / s.cache.object_size
      → Source s id

-- The slab that a cache grows by, and the state with it.
abbrev grown_slab : Growing → ℕ → MSlab
grown_slab s addr = new_slab addr (s.cache.num_pages_per_slab * page_size / s.cache.object_size)

abbrev pub grown_state : Growing → ℕ → BuddySystem → ℕ → Growing
grown_state s id buddy addr = record {
  buddy = buddy;
  owners = (mark_pages buddy.pages id addr s.cache.num_pages_per_slab addr s.owners).0;
  cache = record s.cache { slabs_free = s.cache.slabs_free ++ grown_slab s addr ∷ [] };
}

-- The state in which the slab is there, and the slab as a partial one.
abbrev pub supplied : (s : Growing) (id : ℕ) → Source s id → Growing
supplied s id (has_partial x xs e) = s
supplied s id (has_free x xs e e') = s
supplied s id (can_grow buddy addr e e' a ne marked room) = grown_state s id buddy addr

abbrev pub front_slab : (s : Growing) (id : ℕ) → Source s id → MSlab
front_slab s id (has_partial x xs e) = x
front_slab s id (has_free x xs e e') = record x { status = partial }
front_slab s id (can_grow buddy addr e e' a ne marked room) = record (grown_slab s addr) {
  status = partial;
}

-- The partial and the free slabs besides it.
abbrev pub rest_partial : (s : Growing) (id : ℕ) → Source s id → List MSlab
rest_partial s id (has_partial x xs e) = xs
rest_partial s id (has_free x xs e e') = []
rest_partial s id (can_grow buddy addr e e' a ne marked room) = []

abbrev pub rest_free : (s : Growing) (id : ℕ) → Source s id → List MSlab
rest_free s id (has_partial x xs e) = s.cache.slabs_free
rest_free s id (has_free x xs e e') = xs
rest_free s id (can_grow buddy addr e e' a ne marked room) = []

add_slab-grown :
    (s : Growing) (id bytes addr : ℕ)
    → addr ≢ 0
    → (mark_pages s.buddy.pages id addr s.cache.num_pages_per_slab addr s.owners).1 ≡ true
    → add_slab s id bytes addr
      ≡ some (
        record s {
          owners = (mark_pages s.buddy.pages id addr s.cache.num_pages_per_slab addr s.owners).0;
          cache = record s.cache {
            slabs_free = s.cache.slabs_free ++ new_slab addr (bytes / s.cache.object_size) ∷ [];
          };
        },
        true,
      )
unfolding add_slab
add_slab-grown s id bytes addr ne marked = rw (==_false addr 0 ne, add_slab) (rw marked refl)

grow_lem :
    (s : Growing) (id : ℕ) (buddy : BuddySystem) (addr : ℕ)
    → Buddy.allocate s.buddy (s.cache.num_pages_per_slab * page_size) ≡ some (buddy, addr)
    → addr ≢ 0
    → (mark_pages buddy.pages id addr s.cache.num_pages_per_slab addr s.owners).1 ≡ true
    → grow s id ≡ some (grown_state s id buddy addr, true)
unfolding grow
grow_lem s id buddy addr a ne marked =
    rw (a, grow)
      (add_slab-grown (record s { buddy = buddy }) id (s.cache.num_pages_per_slab * page_size) addr
        ne marked)

cache_alloc-free :
    (s : Growing) (id : ℕ) (x : MSlab) (xs : List MSlab)
    → s.cache.slabs_partial ≡ []
    → s.cache.slabs_free ≡ x ∷ xs
    → cache_alloc s id ≡ alloc_free s
unfolding cache_alloc
cache_alloc-free s id x xs e e' =
    ap₂ (λ (ps fs : List MSlab). choose ps fs (alloc_front s) (alloc_free s) (alloc_grown s id)) e
      e'

cache_alloc-grow :
    (s : Growing) (id : ℕ)
    → s.cache.slabs_partial ≡ []
    → s.cache.slabs_free ≡ []
    → cache_alloc s id ≡ alloc_grown s id
unfolding cache_alloc
cache_alloc-grow s id e e' =
    ap₂ (λ (ps fs : List MSlab). choose ps fs (alloc_front s) (alloc_free s) (alloc_grown s id)) e
      e'

alloc_grown-free :
    (s s' : Growing) (id : ℕ) → grow s id ≡ some (s', true) → alloc_grown s id ≡ alloc_free s'
unfolding alloc_grown
alloc_grown-free s s' id e = rw (e, alloc_grown) refl

new_slab-InClass : (addr n : ℕ) → 0 < n → InClass free (new_slab addr n)
unfolding new_slab
new_slab-InClass addr n room = record {
  slab = new_slab-IsSlab addr n;
  status = refl;
  proper = omega (arith, room, length-replicate n fresh);
  occupied = refl;
}

-- In a cache whose slabs stand in the lists that their occupancy asks for, and which list and count what
-- is free in them: an allocation that has a partial or a free slab, or else a block that the buddy system
-- gives and whose pages are known, returns the address of an object of that slab that was not in use,
-- and leaves in the cache that slab with the object in use and every other object as it was, as the front
-- partial one or, when it is full, as the last full one; the other slabs are as they were, and all slabs
-- stand where they should.
pub cache_alloc_lem :
    (s : Growing) (id : ℕ) (source : Source s id)
    → IsCache s.cache
    → Served
        (supplied s id source)
        (front_slab s id source)
        (rest_partial s id source)
        (rest_free s id source)
        (cache_alloc s id)
cache_alloc_lem s id (has_partial x xs e) h = cache_alloc-partial s id x xs h e
cache_alloc_lem s id (has_free x xs e e') h =
    rw (cache_alloc-free s id x xs e e') (alloc_free_lem s x xs h e e')
cache_alloc_lem s id (can_grow buddy addr e e' a ne marked room) h =
    let s' = grown_state s id buddy addr in
    let slab = grown_slab s addr in
    let one : s.cache.slabs_free ++ slab ∷ [] ≡ slab ∷ [] = rw e' refl in
    let class =
      new_slab-InClass addr (s.cache.num_pages_per_slab * page_size / s.cache.object_size) room in
    let sound : IsCache s'.cache =
      IsCache-put s.cache free (s.cache.slabs_free ++ slab ∷ []) h
        (All-append (InClass free) s.cache.slabs_free (slab ∷ []) (h free) (class, tt)) in
    rw (cache_alloc-grow s id e e') (
      rw (alloc_grown-free s s' id (grow_lem s id buddy addr a ne marked))
        (alloc_free_lem s' slab [] sound e one))
