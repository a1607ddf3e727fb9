-- ===== src/Memory/Slab/Classes.antt =====
-- A cache: each slab stands in the list that its occupancy asks for.
use uchos.Prelude.{
  ℕ, suc, ◌<◌, ◌≤◌, ◌≡◌, ◌≢◌, refl, ap, inl, inr, true, false, some, List, [], ◌∷◌, ◌++◌, length,
  get_elem?, All, All-append, ◌==◌, arith, Bool-cases, ==_refl, ==_false,
}
use uchos.Memory.Slab.{
  SlabStatus, full, partial, free, MObject, MSlab, MCache, slab_list_for, put_slab_list,
  same_status, erase_slab, replace_slab, move_list, alloc_object,
}
use uchos.Memory.Slab.Occupancy.{IsSlab, used_count, weight, Allocated, alloc_object_lem}

-- How many objects of a slab are in use in each list.
abbrev pub Occupied : SlabStatus → MSlab → Type 0
Occupied full s = s.num_in_use ≡ length s.objects
Occupied partial s = (0 < s.num_in_use) × (s.num_in_use < length s.objects)
Occupied free s = s.num_in_use ≡ 0

pub record InClass (st : SlabStatus) (s : MSlab) : Type 0 where
  pub slab : IsSlab s
  pub status : s.status ≡ st
  pub proper : 0 < length s.objects
  pub occupied : Occupied st s

abbrev pub IsCache : MCache → Type 0
IsCache c = (st : SlabStatus) → All (InClass st) (slab_list_for c st)

pub IsCache-put :
    (c : MCache) (st : SlabStatus) (ss : List MSlab)
    → IsCache c
    → All (InClass st) ss
    → IsCache (put_slab_list c st ss)
IsCache-put c full ss h a full = a
IsCache-put c full ss h a partial = h partial
IsCache-put c full ss h a free = h free
IsCache-put c partial ss h a full = h full
IsCache-put c partial ss h a partial = a
IsCache-put c partial ss h a free = h free
IsCache-put c free ss h a full = h full
IsCache-put c free ss h a partial = h partial
IsCache-put c free ss h a free = a

pub put-put :
    (c : MCache) (st : SlabStatus) (xs ys : List MSlab)
    → put_slab_list (put_slab_list c st xs) st ys ≡ put_slab_list c st ys
put-put c full xs ys = refl
put-put c partial xs ys = refl
put-put c free xs ys = refl

pub list-put :
    (c : MCache) (st : SlabStatus) (xs : List MSlab) → slab_list_for (put_slab_list c st xs) st ≡ xs
list-put c full xs = refl
list-put c partial xs = refl
list-put c free xs = refl

pub All-erase_slab {κ} :
    (P : MSlab → Type κ) (ss : List MSlab) (base : ℕ) → All P ss → All P (erase_slab ss base)
unfolding erase_slab
All-erase_slab P [] base h = tt
All-erase_slab P (s ∷ ss) base h = elim (Bool-cases (s.base_addr == base)) [
  | inl this ↦ rw this h.1
  | inr other ↦ rw other (h.0, All-erase_slab P ss base h.1)
]

pub All-replace_slab {κ} :
    (P : MSlab → Type κ) (ss : List MSlab) (new : MSlab)
    → All P ss
    → P new
    → All P (replace_slab ss new)
unfolding replace_slab
All-replace_slab P [] new h p = tt
All-replace_slab P (s ∷ ss) new h p = elim (Bool-cases (s.base_addr == new.base_addr)) [
  | inl this ↦ rw this (p, h.1)
  | inr other ↦ rw other (h.0, All-replace_slab P ss new h.1 p)
]

pub erase-replace :
    (ss : List MSlab) (new : MSlab)
    → erase_slab (replace_slab ss new) new.base_addr ≡ erase_slab ss new.base_addr
unfolding erase_slab replace_slab
erase-replace [] new = refl
erase-replace (s ∷ ss) new = elim (Bool-cases (s.base_addr == new.base_addr)) [
  | inl this ↦ rw (this, replace_slab) (rw (==_refl new.base_addr, erase_slab) refl)
  | inr other ↦
      rw (other, replace_slab) (rw (other, erase_slab) (ap (◌∷◌ s) (erase-replace ss new)))
]

pub erase-last :
    (ss : List MSlab) (s : MSlab)
    → All (λ x. x.base_addr ≢ s.base_addr) ss
    → erase_slab (ss ++ s ∷ []) s.base_addr ≡ ss
unfolding erase_slab
erase-last [] s n = rw (==_refl s.base_addr) refl
erase-last (x ∷ xs) s n =
    rw (==_false x.base_addr s.base_addr n.0) (ap (◌∷◌ x) (erase-last xs s n.1))

pub erase-front : (s : MSlab) (ss : List MSlab) → erase_slab (s ∷ ss) s.base_addr ≡ ss
unfolding erase_slab
erase-front s ss = rw (==_refl s.base_addr) refl

-- A move between two lists.
pub move_list-put :
    (c : MCache) (s : MSlab) (st to : SlabStatus)
    → s.status ≡ st
    → same_status st to ≡ false
    → move_list c s to ≡ (
        let erased = put_slab_list c st (erase_slab (slab_list_for c st) s.base_addr) in
        put_slab_list erased to (slab_list_for erased to ++ record s { status = to } ∷ []))
unfolding move_list
move_list-put c s st to e other = rw (e, other, move_list) refl

pub move_list-IsCache :
    (c : MCache) (s : MSlab) (st to : SlabStatus)
    → s.status ≡ st
    → same_status st to ≡ false
    → IsCache (put_slab_list c st (erase_slab (slab_list_for c st) s.base_addr))
    → InClass to (record s { status = to })
    → IsCache (move_list c s to)
move_list-IsCache c s st to e other h p =
    let erased = put_slab_list c st (erase_slab (slab_list_for c st) s.base_addr) in
    rw (move_list-put c s st to e other) (
      IsCache-put erased to (slab_list_for erased to ++ record s { status = to } ∷ []) h (
        All-append (InClass to) (slab_list_for erased to) (record s { status = to } ∷ []) (h to)
          (p, tt)))

-- A slab with a free object.
all_used :
    (os : List MObject)
    → ((i : ℕ) (o : MObject) → get_elem? os i ≡ some o → o.in_use ≡ true)
    → used_count os ≡ length os
all_used [] h = refl
all_used (o ∷ os) h =
    let used : weight o ≡ 1 = rw (h 0 o refl) refl in
    omega (arith, used, all_used os (λ i x e. h (suc i) x e))

pub room-Allocated :
    (s : MSlab) (obj_size : ℕ)
    → IsSlab s
    → s.num_in_use < length s.objects
    → (s' : MSlab) × (addr : ℕ) × (alloc_object s obj_size ≡ some (s', addr))
      × Allocated s s' obj_size addr
room-Allocated s obj_size h room = elim (alloc_object_lem s obj_size h) [
  | inl r ↦ r
  | inr (e, all) ↦ absurd (omega (arith, room, h.counted, all_used s.objects all))
]

pub used_count-le : (os : List MObject) → used_count os ≤ length os
used_count-le [] = omega arith
used_count-le (o ∷ os) = ground (arith, used_count-le os)
