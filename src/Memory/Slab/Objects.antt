-- ===== src/Memory/Slab/Objects.antt =====
-- A free of an object in one slab.
use uchos.Prelude.{
  ℕ, ◌+◌, ◌*◌, ◌-◌, ◌/◌, ◌%◌, ◌^◌, ◌<◌, ◌≤◌, ◌≡◌, ◌≢◌, refl, ap, ◌∙◌, subst, ◌⊎◌, inl, inr, true,
  false, none, some, [], ◌∷◌, ◌++◌, length, get_elem?, set, ◌!=◌, arith, length-set,
  get_elem?-set_self, get_elem?-set_ne, get_elem?-lt, ℕ_discrete, Bool-cases, ==_refl,
}
use uchos.Memory.Slab.{MObject, MSlab, offset_in, is_object_in_use, in_use_at, free_at, free_object}
use uchos.Memory.Slab.Occupancy.{count, vacant, IsSlab, used_count-set, count-append, count_behind}

-- Where the object of an index lies, as an offset: the addresses do not wrap.
offset_in_lem :
    (s : MSlab) (size index : ℕ)
    → s.base_addr + index * size < 2 ^ 64
    → offset_in s (s.base_addr + index * size) ≡ index * size
offset_in_lem s size index h = omega (arith, h)

div_lem : (size index : ℕ) → 0 < size → index * size / size ≡ index
div_lem size index h = grind arith

mod_lem : (size index : ℕ) → 0 < size → index * size % size ≡ 0
mod_lem size index h = grind arith

-- A slab whose objects lie below 2 ^ 64.
pub record Fits (s : MSlab) (obj_size : ℕ) : Type 0 where
  pub sized : 0 < obj_size
  pub below : s.base_addr + length s.objects * obj_size < 2 ^ 64

index-below :
    (s : MSlab) (size index : ℕ)
    → Fits s size
    → index < length s.objects
    → s.base_addr + index * size < 2 ^ 64
index-below s size index f lt =
    let h : index * size ≤ length s.objects * size = grind arith in omega (arith, h, f.below)

module _ (s : MSlab) (size index : ℕ) (f : Fits s size) (lt : index < length s.objects) where
  abbrev addr_of : ℕ
  addr_of = s.base_addr + index * size

  at_boundary : (offset_in s addr_of % size != 0) ≡ false
  at_boundary =
      let e = offset_in_lem s size index (index-below s size index f lt) in
      let m : offset_in s addr_of % size ≡ 0 = rw e (mod_lem size index f.sized) in rw m refl

  at_index : offset_in s addr_of / size ≡ index
  at_index =
      let e = offset_in_lem s size index (index-below s size index f lt) in
      rw e (div_lem size index f.sized)

  pub is_object_in_use-index :
      (o : MObject)
      → get_elem? s.objects index ≡ some o
      → is_object_in_use s addr_of size ≡ o.in_use
  unfolding is_object_in_use in_use_at
  is_object_in_use-index o e =
      rw (at_boundary, is_object_in_use) (rw at_index (rw (e, in_use_at) refl))

  free_object-free_at : free_object s addr_of size ≡ free_at s index
  unfolding free_object
  free_object-free_at = rw (at_boundary, free_object) (ap (free_at s) at_index)

freed : MSlab → ℕ → MObject → MSlab
freed s index o = record s {
  objects = set s.objects index (record o { in_use = false });
  free_objects_index = s.free_objects_index ++ index ∷ [];
  num_in_use = s.num_in_use - 1;
}

count_self : (i : ℕ) → count i (i ∷ []) ≡ 1
count_self i = rw (==_refl i) refl

module _ (s : MSlab) (index : ℕ) (o : MObject) (there : get_elem? s.objects index ≡ some o) where
  free_at-idle : o.in_use ≡ false → free_at s index ≡ none
  unfolding free_at
  free_at-idle idle = rw (there, free_at) (rw idle refl)

  free_at-used : o.in_use ≡ true → free_at s index ≡ some (freed s index o)
  unfolding free_at freed
  free_at-used used = rw (there, free_at) (rw used refl)

  in_use_unlisted : o.in_use ≡ true → IsSlab s → count index s.free_objects_index ≡ 0
  in_use_unlisted used h = h.listed index ∙ rw there (rw used refl)

  freed-IsSlab : o.in_use ≡ true → IsSlab s → IsSlab (freed s index o)
  unfolding freed
  freed-IsSlab used h =
      let inside = get_elem?-lt s.objects index there in
      let idle = record o { in_use = false } in
      record {
        listed = λ i. elim (ℕ_discrete index i) [
          | yes same ↦
              subst
                (λ (x : ℕ).
                  count x (s.free_objects_index ++ index ∷ [])
                  ≡ vacant (get_elem? (set s.objects index idle) x))
                same
                (rw (get_elem?-set_self s.objects index idle inside) (
                  rw (count-append index s.free_objects_index (index ∷ []))
                    (omega (arith, in_use_unlisted used h, count_self index))))
          | no ne ↦ rw (get_elem?-set_ne s.objects idle ne) (
              rw (count-append i s.free_objects_index (index ∷ []))
                (omega (arith, h.listed i, count_behind index i [] ne)))
        ];
        counted = ground (arith, h.counted, used_count-set s.objects index o idle there, used);
      }

-- What a free leaves, when the object was in use.
pub record Released (s s' : MSlab) (obj_size index : ℕ) (o : MObject) : Type 0 where
  pub idle : get_elem? s'.objects index ≡ some (record o { in_use = false })
  pub others : (i : ℕ) → index ≢ i → get_elem? s'.objects i ≡ get_elem? s.objects i
  pub counted : s'.num_in_use ≡ s.num_in_use - 1
  pub sound : IsSlab s'
  pub again : free_object s' (s.base_addr + index * obj_size) obj_size ≡ none
  pub base : s'.base_addr ≡ s.base_addr
  pub status : s'.status ≡ s.status

-- In such a slab, below 2 ^ 64, a free of the address of one of its objects is refused when the object is
-- not in use; else it leaves the object unused and every other one as it was, keeps the list and the
-- count right, and a second free of the address is refused.
pub free_object_lem :
    (s : MSlab) (obj_size index : ℕ) (o : MObject)
    → IsSlab s
    → Fits s obj_size
    → get_elem? s.objects index ≡ some o
    → (o.in_use ≡ false) × (free_object s (s.base_addr + index * obj_size) obj_size ≡ none)
      ⊎ (o.in_use ≡ true)
        × ((s' : MSlab) × (free_object s (s.base_addr + index * obj_size) obj_size ≡ some s')
            × Released s s' obj_size index o)
unfolding freed
free_object_lem s obj_size index o h f there =
    let inside = get_elem?-lt s.objects index there in
    let at = free_object-free_at s obj_size index f inside in
    let idle = record o { in_use = false } in
    elim (Bool-cases o.in_use) [
      | inr unused ↦ inl (unused, at ∙ free_at-idle s index o there unused)
      | inl used ↦ inr (
        used,
        (
          freed s index o,
          at ∙ free_at-used s index o there used,
          record {
            idle = get_elem?-set_self s.objects index idle inside;
            others = λ i ne. get_elem?-set_ne s.objects idle ne;
            counted = refl;
            sound = freed-IsSlab s index o there used h;
            again =
                free_object-free_at (freed s index o) obj_size index
                  (record { sized = f.sized; below = rw (length-set s.objects index idle) f.below })
                  (omega (arith, inside, length-set s.objects index idle))
                ∙ free_at-idle (freed s index o) index idle
                    (get_elem?-set_self s.objects index idle inside) refl;
            base = refl;
            status = refl;
          },
        ),
      )
    ]
