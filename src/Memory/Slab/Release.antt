-- ===== src/Memory/Slab/Release.antt =====
-- A free: the slab moves to the list that its occupancy then asks for.
use uchos.Prelude.{
  ℕ, zero, suc, ◌+◌, ◌*◌, ◌<◌, ◌≡◌, refl, ◌∙◌, subst, ◌⊎◌, inl, inr, true, false, none, some, List,
  [], ◌∷◌, length, get_elem?, get_elem?-lt, arith,
}
use uchos.Memory.Slab.{
  SlabStatus, full, partial, free, MObject, MSlab, MCache, slab_list_for, write_slab, leave_full,
  leave_partial, cache_free,
}
use uchos.Memory.Slab.Occupancy.{used_count}
use uchos.Memory.Slab.Objects.{Fits, Released, free_object_lem}
use uchos.Memory.Slab.Classes.{Occupied, InClass, IsCache, used_count-le}
use uchos.Memory.Slab.Moves.{
  find_slab-All, Stands, used-pos, Settled, Settled-partial, Settled-full,
}

idle-lt :
    (os : List MObject) (i : ℕ) (o : MObject)
    → get_elem? os i ≡ some o
    → o.in_use ≡ false
    → used_count os < length os
idle-lt [] i o h u = absurd (cc h)
idle-lt (x ∷ xs) zero o h u = ground (arith, h, u, used_count-le xs)
idle-lt (x ∷ xs) (suc i) o h u = ground (arith, idle-lt xs i o h u)

status_cases : (st : SlabStatus) → (st ≡ full) ⊎ (st ≡ partial) ⊎ (st ≡ free)
status_cases full = inl refl
status_cases partial = inr (inl refl)
status_cases free = inr (inr refl)

-- In a cache whose slabs stand in the lists that their occupancy asks for, for a slab below 2 ^ 64 that
-- stands in the list of its status and in no other: freeing the address of an object of the slab that is
-- not in use is refused. When the object is in use it is released, every other object is as it was, a
-- second free of the address is refused, and the slab stands among the free ones if it was the last
-- object in use and else among the partial ones; and all slabs stand where they should again.
pub cache_free_lem :
    (c : MCache) (s : MSlab) (index : ℕ) (o : MObject)
    → IsCache c
    → Stands c s
    → Fits s c.object_size
    → get_elem? s.objects index ≡ some o
    → (o.in_use ≡ false) × (cache_free c s (s.base_addr + index * c.object_size) ≡ none)
      ⊎ (o.in_use ≡ true)
        × ((c' : MCache) × (s' : MSlab) × (cache_free c s (s.base_addr + index * c.object_size)
              ≡ some c')
            × Released s s' c.object_size index o
            × Settled c' s')
unfolding cache_free
cache_free_lem c s index o h stands fits there =
    let p =
      find_slab-All (InClass s.status) (slab_list_for c s.status) s.base_addr s stands.here
        (h s.status) in
    elim (free_object_lem s c.object_size index o p.slab fits there) [
      | inl (idle, e) ↦ inl (idle, rw (e, cache_free) refl)
      | inr (used, (s', e, r)) ↦
          let inside = get_elem?-lt s'.objects index r.idle in
          let proper : 0 < length s'.objects = omega (arith, inside) in
          let fewer : s'.num_in_use < length s'.objects =
            omega (arith, r.sound.counted, idle-lt s'.objects index _ r.idle refl) in
          let settled : Settled (leave_partial (leave_full (write_slab c s') s')) s' =
            elim (status_cases s.status) [
              | inl e ↦ Settled-full c s s' h stands r.sound r.base proper fewer e (r.status ∙ e)
              | inr (inl e) ↦
                  Settled-partial c s s' h stands r.sound r.base proper fewer e (r.status ∙ e)
              | inr (inr e) ↦
                  let none_used : s.num_in_use ≡ 0 = subst (λ st. Occupied st s) e p.occupied in
                  absurd (
                    omega (arith, none_used, p.slab.counted, used-pos s.objects index o there used))
            ] in
          inr (
            used,
            (
              leave_partial (leave_full (write_slab c s') s'),
              s',
              rw (e, cache_free) refl,
              r,
              settled,
            ),
          )
    ]
