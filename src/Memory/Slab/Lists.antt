-- ===== src/Memory/Slab/Lists.antt =====
-- An allocation from the slabs of a cache.
use uchos.Prelude.{
  ℕ, ◌<◌, ◌≡◌, refl, ap, ◌∙◌, subst, inl, inr, Option, some, List, [], ◌∷◌, length, get_elem?-lt,
  All, arith, Bool-cases, if◌then◌else◌, ◌⊎◌, ◌++◌,
}
use uchos.Memory.Slab.{
  full, partial, free, MSlab, MCache, is_full, put_slab_list, erase_slab, move_list, false, true,
}
use uchos.Memory.Slab.Alloc.{
  alloc_partial, take_free, alloc_free, alloc_front, alloc_grown, choose, cache_alloc, Growing,
}
use uchos.Memory.Slab.Occupancy.{IsSlab, Allocated}
use uchos.Memory.Slab.Classes.{
  InClass, IsCache, IsCache-put, erase-front, move_list-put, move_list-IsCache, room-Allocated,
  used_count-le,
}

-- The slab that has been allocated from, in the list of partial slabs.
placed : MCache → List MSlab → MSlab → MCache
placed c rest s =
    let c' = put_slab_list c partial (s ∷ rest) in if is_full s then move_list c' s full else c'

placed-IsCache :
    (c : MCache) (rest : List MSlab) (s : MSlab)
    → IsCache (put_slab_list c partial rest)
    → IsSlab s
    → s.status ≡ partial
    → 0 < s.num_in_use
    → 0 < length s.objects
    → IsCache (placed c rest s)
unfolding placed
placed-IsCache c rest s h slab status used proper = elim (Bool-cases (is_full s)) [
  | inl filled ↦
      let all : s.num_in_use ≡ length s.objects = ground (arith, filled) in
      let erased : erase_slab (s ∷ rest) s.base_addr ≡ rest = erase-front s rest in
      rw filled (
        move_list-IsCache (put_slab_list c partial (s ∷ rest)) s partial full status refl
          (rw erased h)
          (record {
            slab = record { listed = slab.listed; counted = slab.counted };
            status = refl;
            proper = proper;
            occupied = all;
          }))
  | inr short ↦
      let less : s.num_in_use < length s.objects =
        ground (arith, short, slab.counted, used_count-le s.objects) in
      rw short (
        IsCache-put (put_slab_list c partial rest) partial (s ∷ rest) h (
          record { slab = slab; status = status; proper = proper; occupied = (used, less) },
          h partial,
        ))
]

-- Where the slabs stand afterwards: the one that has been allocated from is the front partial one, or the
-- last of the full ones, and the others are where they were.
pub record Placed (fulls rest frees : List MSlab) (slab : MSlab) (c : MCache) : Type 0 where
  pub frees_kept : c.slabs_free ≡ frees
  pub stands :
      (c.slabs_partial ≡ slab ∷ rest) × (c.slabs_full ≡ fulls) × (is_full slab ≡ false)
      ⊎ (c.slabs_partial ≡ rest)
        × (c.slabs_full ≡ fulls ++ record slab { status = full } ∷ [])
        × (is_full slab ≡ true)

placed-Placed :
    (c : MCache) (rest : List MSlab) (s : MSlab)
    → s.status ≡ partial
    → Placed c.slabs_full rest c.slabs_free s (placed c rest s)
unfolding placed
placed-Placed c rest s status = elim (Bool-cases (is_full s)) [
  | inl filled ↦
      let moved = move_list-put (put_slab_list c partial (s ∷ rest)) s partial full status refl in
      rw filled
        (rw moved (record { frees_kept = refl; stands = inr (erase-front s rest, refl, filled) }))
  | inr short ↦ rw short (record { frees_kept = refl; stands = inl (refl, refl, short) })
]

-- An allocation from the front slab of the partial ones, which has a free object.
alloc_partial_lem :
    (c : MCache) (s : MSlab) (rest : List MSlab)
    → c.slabs_partial ≡ s ∷ rest
    → IsCache (put_slab_list c partial rest)
    → IsSlab s
    → s.status ≡ partial
    → s.num_in_use < length s.objects
    → (c' : MCache) × (addr : ℕ) × (s' : MSlab) × (alloc_partial c ≡ some (c', addr))
      × Allocated s s' c.object_size addr
      × IsCache c'
      × Placed c.slabs_full rest c.slabs_free s' c'
unfolding alloc_partial placed
alloc_partial_lem c s rest e h slab status room =
    let (s', addr, done, a) = room-Allocated s c.object_size slab room in
    (
      placed c rest s',
      addr,
      s',
      rw (e, alloc_partial) (rw done refl),
      a,
      placed-IsCache c rest s' h a.sound (a.status ∙ status) (omega (arith, a.counted))
          (omega (arith, get_elem?-lt s'.objects a.index a.after)),
      placed-Placed c rest s' (a.status ∙ status),
    )

-- What an allocation from a slab leaves: the slab is in the cache, with the lists of the other slabs.
pub record Served (s : Growing) (front : MSlab) (rest frees : List MSlab) (r : Option (Growing × ℕ))
    : Type 0 where
  pub cache : MCache
  pub slab : MSlab
  pub addr : ℕ
  pub result : r ≡ some (record s { cache = cache }, addr)
  pub allocated : Allocated front slab s.cache.object_size addr
  pub sound : IsCache cache
  pub stands : Placed s.cache.slabs_full rest frees slab cache

cache_alloc-front :
    (s : Growing) (id : ℕ) (x : MSlab) (xs : List MSlab)
    → s.cache.slabs_partial ≡ x ∷ xs
    → cache_alloc s id ≡ alloc_front s
unfolding cache_alloc
cache_alloc-front s id x xs e =
    ap
      (λ (ps : List MSlab).
        choose ps s.cache.slabs_free (alloc_front s) (alloc_free s) (alloc_grown s id))
      e

pub cache_alloc-partial :
    (s : Growing) (id : ℕ) (x : MSlab) (xs : List MSlab)
    → IsCache s.cache
    → s.cache.slabs_partial ≡ x ∷ xs
    → Served s x xs s.cache.slabs_free (cache_alloc s id)
unfolding alloc_front
cache_alloc-partial s id x xs h e =
    let p : All (InClass partial) (x ∷ xs) = subst (All (InClass partial)) e (h partial) in
    let (c', addr, s', done, a, sound, stands) =
      alloc_partial_lem s.cache x xs e (IsCache-put s.cache partial xs h p.1) p.0.slab p.0.status
        p.0.occupied.1 in
    record {
      cache = c';
      slab = s';
      addr = addr;
      result = cache_alloc-front s id x xs e ∙ rw (done, alloc_front) refl;
      allocated = a;
      sound = sound;
      stands = stands;
    }

-- A free slab becomes the only partial one.
first_partial : MCache → MSlab → List MSlab → MCache
first_partial c x xs = record c {
  slabs_free = xs;
  slabs_partial = record x { status = partial } ∷ [];
}

take_free-first :
    (c : MCache) (x : MSlab) (xs : List MSlab)
    → c.slabs_free ≡ x ∷ xs
    → c.slabs_partial ≡ []
    → x.status ≡ free
    → take_free c ≡ some (first_partial c x xs)
unfolding take_free first_partial
take_free-first c x xs e none_partial status =
    let moved = move_list-put c x free partial status refl in
    rw (e, take_free) (ap some (moved ∙ rw (e, erase-front x xs, none_partial) refl))

pub alloc_free_lem :
    (s : Growing) (x : MSlab) (xs : List MSlab)
    → IsCache s.cache
    → s.cache.slabs_partial ≡ []
    → s.cache.slabs_free ≡ x ∷ xs
    → Served s (record x { status = partial }) [] xs (alloc_free s)
unfolding alloc_free first_partial
alloc_free_lem s x xs h none_partial e =
    let p : All (InClass free) (x ∷ xs) = subst (All (InClass free)) e (h free) in
    let c = first_partial s.cache x xs in
    let kept : IsCache (put_slab_list c partial []) =
      IsCache-put (record s.cache { slabs_partial = [] }) free xs
        (IsCache-put s.cache partial [] h tt) p.1 in
    let (c', addr, s', done, a, sound, stands) =
      alloc_partial_lem c (record x { status = partial }) [] refl kept
        (record { listed = p.0.slab.listed; counted = p.0.slab.counted }) refl
        (omega (arith, p.0.occupied, p.0.proper)) in
    record {
      cache = c';
      slab = s';
      addr = addr;
      result =
          rw (take_free-first s.cache x xs e none_partial p.0.status, alloc_free) (rw done refl);
      allocated = a;
      sound = sound;
      stands = stands;
    }
