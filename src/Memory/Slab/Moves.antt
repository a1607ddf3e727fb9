-- ===== src/Memory/Slab/Moves.antt =====
-- The moves of a slab between the lists of its cache, after a free.
use uchos.Prelude.{
  ℕ, zero, suc, ◌<◌, ◌≡◌, ◌≢◌, refl, sym, ap, ◌∙◌, subst, inl, inr, true, false, some, List, [],
  ◌∷◌, ◌++◌, length, get_elem?, All, ◌==◌, arith, Bool-cases, ==_refl, ==_false, if◌then◌else◌,
}
use uchos.Memory.Slab.{
  SlabStatus, full, partial, free, MObject, MSlab, MCache, is_empty, slab_list_for, put_slab_list,
  same_status, erase_slab, replace_slab, write_slab, move_list, leave_full, leave_partial,
}
use uchos.Memory.Slab.Occupancy.{IsSlab, used_count}
use uchos.Memory.Slab.Classes.{
  InClass, IsCache, IsCache-put, put-put, list-put, All-erase_slab, All-replace_slab, erase-replace,
  erase-last, move_list-put, move_list-IsCache,
}
use uchos.Memory.Slab.Kmalloc.{find_slab}

pub find_slab-All {κ} :
    (P : MSlab → Type κ) (ss : List MSlab) (base : ℕ) (s : MSlab)
    → find_slab ss base ≡ some s
    → All P ss
    → P s
unfolding find_slab
find_slab-All P [] base s f h = absurd (cc f)
find_slab-All P (x ∷ xs) base s f h = elim (Bool-cases (x.base_addr == base)) [
  | inl this ↦ subst P (let e : x ≡ s = ground (arith, f, this) in e) h.0
  | inr other ↦ find_slab-All P xs base s (ground (arith, f, other)) h.1
]

find_slab-last :
    (ss : List MSlab) (s : MSlab)
    → All (λ x. x.base_addr ≢ s.base_addr) ss
    → find_slab (ss ++ s ∷ []) s.base_addr ≡ some s
unfolding find_slab
find_slab-last [] s n = rw (==_refl s.base_addr) refl
find_slab-last (x ∷ xs) s n = rw (==_false x.base_addr s.base_addr n.0) (find_slab-last xs s n.1)

find_slab-replace :
    (ss : List MSlab) (s new : MSlab)
    → find_slab ss new.base_addr ≡ some s
    → find_slab (replace_slab ss new) new.base_addr ≡ some new
unfolding find_slab replace_slab
find_slab-replace [] s new f = absurd (cc f)
find_slab-replace (x ∷ xs) s new f = elim (Bool-cases (x.base_addr == new.base_addr)) [
  | inl this ↦ rw (this, replace_slab) (rw (==_refl new.base_addr, find_slab) refl)
  | inr other ↦
      rw (other, replace_slab)
        (rw (other, find_slab) (find_slab-replace xs s new (ground (arith, f, other))))
]

-- The slab stands in the list of its status, and no other list has its base.
pub record Stands (c : MCache) (s : MSlab) : Type 0 where
  pub here : find_slab (slab_list_for c s.status) s.base_addr ≡ some s
  pub only :
      (st : SlabStatus)
      → same_status st s.status ≡ false
      → All (λ x. x.base_addr ≢ s.base_addr) (slab_list_for c st)

-- Where a slab belongs after a free.
abbrev pub status_after : MSlab → SlabStatus
status_after s = if is_empty s then free else partial

-- A slab in use is neither free nor without objects.
pub used-pos :
    (os : List MObject) (i : ℕ) (o : MObject)
    → get_elem? os i ≡ some o
    → o.in_use ≡ true
    → 0 < used_count os
used-pos [] i o h u = absurd (cc h)
used-pos (x ∷ xs) zero o h u = ground (arith, h, u)
used-pos (x ∷ xs) (suc i) o h u = omega (arith, used-pos xs i o h u)

-- What the cache is after a free of an object of `s`, which leaves `s'`.
pub record Settled (c' : MCache) (s' : MSlab) : Type 0 where
  pub sound : IsCache c'
  pub found :
      find_slab (slab_list_for c' (status_after s')) s'.base_addr
      ≡ some (record s' { status = status_after s' })

-- The slab with another status is as good.
restatus : (s : MSlab) (st : SlabStatus) → IsSlab s → IsSlab (record s { status = st })
restatus s st h = record { listed = h.listed; counted = h.counted }

module _ (c : MCache) (s s' : MSlab) (h : IsCache c) (stands : Stands c s) (slab : IsSlab s')
    (base : s'.base_addr ≡ s.base_addr) (proper : 0 < length s'.objects)
    (fewer : s'.num_in_use < length s'.objects) where
  -- The lists less the slab.
  erased-IsCache :
      (st : SlabStatus)
      → IsCache (
          put_slab_list (put_slab_list c st (replace_slab (slab_list_for c st) s')) st (
            erase_slab
              (slab_list_for (put_slab_list c st (replace_slab (slab_list_for c st) s')) st)
              s'.base_addr))
  erased-IsCache st =
      let xs = slab_list_for c st in
      rw (list-put c st (replace_slab xs s'), put-put c st (replace_slab xs s'))
        (rw (erase-replace xs s') (
          IsCache-put c st (erase_slab xs s'.base_addr) h
            (All-erase_slab (InClass st) xs s'.base_addr (h st))))

  -- A slab that stays partial.
  stays :
      s.status ≡ partial
      → s'.status ≡ partial
      → is_empty s' ≡ false
      → Settled (put_slab_list c partial (replace_slab c.slabs_partial s')) s'
  stays e e' used =
      let some_used : 0 < s'.num_in_use = ground (arith, used) in
      let here : find_slab c.slabs_partial s'.base_addr ≡ some s =
        rw base (subst (λ st. find_slab (slab_list_for c st) s.base_addr ≡ some s) e stands.here) in
      record {
        sound = IsCache-put c partial (replace_slab c.slabs_partial s') h (
            All-replace_slab (InClass partial) c.slabs_partial s' (h partial) (record {
              slab = slab;
              status = e';
              proper = proper;
              occupied = (some_used, fewer);
            }));
        found = rw used (
            find_slab-replace c.slabs_partial s s' here
            ∙ ap (λ st. some (record s' { status = st })) e');
      }

  -- The cache with the slab as it is now.
  abbrev written : SlabStatus → MCache
  written st = put_slab_list c st (replace_slab (slab_list_for c st) s')

  free-InClass : is_empty s' ≡ true → InClass free (record s' { status = free })
  free-InClass empty = record {
    slab = restatus s' free slab;
    status = refl;
    proper = proper;
    occupied = ground (arith, empty);
  }

  others :
      (st to : SlabStatus)
      → s.status ≡ st
      → same_status to st ≡ false
      → All (λ x. x.base_addr ≢ s'.base_addr) (slab_list_for c to)
  others st to e other =
      subst (λ b. All (λ x. x.base_addr ≢ b) (slab_list_for c to)) (sym base)
        (stands.only to (rw e other))

  -- A partial slab that becomes empty.
  empties :
      s.status ≡ partial
      → s'.status ≡ partial
      → is_empty s' ≡ true
      → Settled (move_list (written partial) s' free) s'
  empties e e' empty = record {
    sound =
        move_list-IsCache (written partial) s' partial free e' refl (erased-IsCache partial)
          (free-InClass empty);
    found = rw (move_list-put (written partial) s' partial free e' refl) (
        rw empty
          (find_slab-last c.slabs_free (record s' { status = free }) (others partial free e refl)));
  }

  -- A full slab that becomes partial.
  opens :
      s.status ≡ full
      → s'.status ≡ full
      → is_empty s' ≡ false
      → Settled (move_list (written full) s' partial) s'
  opens e e' used =
      let some_used : 0 < s'.num_in_use = ground (arith, used) in
      record {
        sound =
            move_list-IsCache (written full) s' full partial e' refl (erased-IsCache full) (record {
              slab = restatus s' partial slab;
              status = refl;
              proper = proper;
              occupied = (some_used, fewer);
            });
        found = rw (move_list-put (written full) s' full partial e' refl) (
            rw used (
              find_slab-last c.slabs_partial (record s' { status = partial })
                (others full partial e refl)));
      }

  -- A full slab of one object, which becomes partial and then free.
  abbrev reopened : MCache
  reopened =
      put_slab_list
        (put_slab_list (written full) full
          (erase_slab (slab_list_for (written full) full) s'.base_addr))
        partial (c.slabs_partial ++ record s' { status = partial } ∷ [])

  opens_empty :
      s.status ≡ full
      → s'.status ≡ full
      → is_empty s' ≡ true
      → Settled
          (move_list (move_list (written full) s' partial) (record s' { status = partial }) free)
          s'
  opens_empty e e' empty =
      let first : move_list (written full) s' partial ≡ reopened =
        move_list-put (written full) s' full partial e' refl in
      let gone : erase_slab (c.slabs_partial ++ record s' { status = partial } ∷ []) s'.base_addr
          ≡ c.slabs_partial =
        erase-last c.slabs_partial (record s' { status = partial }) (others full partial e refl) in
      rw first (record {
        sound =
            move_list-IsCache reopened (record s' { status = partial }) partial free refl refl
              (rw gone (
                IsCache-put
                  (put_slab_list (written full) full
                    (erase_slab (slab_list_for (written full) full) s'.base_addr))
                  partial c.slabs_partial (erased-IsCache full) (h partial)))
              (free-InClass empty);
        found =
            rw (move_list-put reopened (record s' { status = partial }) partial free refl refl) (
              rw empty (
                find_slab-last c.slabs_free (record s' { status = free })
                  (others full free e refl)));
      })

  write_slab-written : (st : SlabStatus) → s'.status ≡ st → write_slab c s' ≡ written st
  write_slab-written st e' = ap (λ st. put_slab_list c st (replace_slab (slab_list_for c st) s')) e'

  -- All that follows the release of the object, whichever list the slab was in.
  pub Settled-partial :
      s.status ≡ partial
      → s'.status ≡ partial
      → Settled (leave_partial (leave_full (write_slab c s') s')) s'
  unfolding leave_full leave_partial
  Settled-partial e e' =
      let stay : leave_full (written partial) s' ≡ (written partial, s') =
        rw (e', leave_full) refl in
      rw (write_slab-written partial e', stay)
        (elim (Bool-cases (is_empty s')) [
          | inl empty ↦ rw (empty, leave_partial) (empties e e' empty)
          | inr used ↦ rw (used, leave_partial) (stays e e' used)
        ])

  pub Settled-full :
      s.status ≡ full
      → s'.status ≡ full
      → Settled (leave_partial (leave_full (write_slab c s') s')) s'
  unfolding leave_full leave_partial
  Settled-full e e' =
      let leave : leave_full (written full) s'
          ≡ (move_list (written full) s' partial, record s' { status = partial }) =
        rw (e', leave_full) refl in
      rw (write_slab-written full e', leave)
        (elim (Bool-cases (is_empty s')) [
          | inl empty ↦ rw (empty, leave_partial) (opens_empty e e' empty)
          | inr used ↦ rw (used, leave_partial) (opens e e' used)
        ])
