-- ===== src/Memory/Slab/Occupancy.antt =====
-- One slab: what is free in it is what its list of free objects names, each once.
use uchos.Prelude.{
  ℕ, zero, suc, ◌+◌, ◌*◌, ◌≡◌, ◌≢◌, refl, sym, ap, ◌∙◌, subst, ◌⊎◌, inl, inr, true, false, Option,
  none, some, List, [], ◌∷◌, ◌++◌, get_elem?, set, ◌==◌, arith, get_elem?-set_self,
  get_elem?-set_ne, get_elem?-lt, ℕ_discrete, Bool-cases, List-cases, ==_refl, ==_false,
  if◌then◌else◌,
}
use uchos.Memory.Slab.{MObject, MSlab, taken_object, update_object, alloc_object}

-- How often an index stands in a list.
abbrev pub count : ℕ → List ℕ → ℕ
count i [] = 0
count i (j ∷ js) = (if j == i then 1 else 0) + count i js

-- 1 for an object that is there and not in use.
abbrev pub vacant : Option MObject → ℕ
vacant none = 0
vacant (some o) = if o.in_use then 0 else 1

abbrev pub weight : MObject → ℕ
weight o = if o.in_use then 1 else 0

abbrev pub used_count : List MObject → ℕ
used_count [] = 0
used_count (o ∷ os) = weight o + used_count os

pub record IsSlab (s : MSlab) : Type 0 where
  pub listed : (i : ℕ) → count i s.free_objects_index ≡ vacant (get_elem? s.objects i)
  pub counted : s.num_in_use ≡ used_count s.objects

pub used_count-set :
    (os : List MObject) (i : ℕ) (o v : MObject)
    → get_elem? os i ≡ some o
    → used_count (set os i v) + weight o ≡ used_count os + weight v
used_count-set [] i o v h = absurd (cc h)
used_count-set (x ∷ xs) zero o v h = ground (arith, h)
used_count-set (x ∷ xs) (suc i) o v h = omega (arith, used_count-set xs i o v h)

pub count-append : (i : ℕ) (xs ys : List ℕ) → count i (xs ++ ys) ≡ count i xs + count i ys
count-append i [] ys = omega arith
count-append i (x ∷ xs) ys = omega (arith, count-append i xs ys)

-- What a successful allocation does to the objects.
pub record Allocated (s s' : MSlab) (obj_size addr : ℕ) : Type 0 where
  pub index : ℕ
  pub object : MObject
  pub address : addr ≡ s.base_addr + index * obj_size
  pub before : get_elem? s.objects index ≡ some object
  pub vacant_before : object.in_use ≡ false
  pub after : get_elem? s'.objects index ≡ some (taken_object object)
  pub others : (i : ℕ) → index ≢ i → get_elem? s'.objects i ≡ get_elem? s.objects i
  pub counted : s'.num_in_use ≡ s.num_in_use + 1
  pub sound : IsSlab s'
  pub base : s'.base_addr ≡ s.base_addr
  pub status : s'.status ≡ s.status

-- An object that the list names first is there, and not in use.
front_vacant :
    (o : Option MObject) (n : ℕ)
    → 1 + n ≡ vacant o
    → (x : MObject) × (o ≡ some x) × (x.in_use ≡ false) × (n ≡ 0)
front_vacant none n h = absurd (omega (arith, h))
front_vacant (some x) n h = elim (Bool-cases x.in_use) [
  | inl used ↦ absurd (ground (arith, h, used))
  | inr idle ↦ (x, refl, idle, ground (arith, h, idle))
]

update_object-some :
    (objects : List MObject) (j : ℕ) (o : MObject) (f : MObject → MObject)
    → get_elem? objects j ≡ some o
    → update_object objects j f ≡ set objects j (f o)
update_object-some objects j o f e = rw (e, update_object) refl

pub count_behind : (j i : ℕ) (rest : List ℕ) → j ≢ i → count i rest ≡ count i (j ∷ rest)
count_behind j i rest ne = rw (==_false j i ne) (omega arith)

pub alloc_object-Allocated :
    (s : MSlab) (obj_size j : ℕ) (rest : List ℕ)
    → IsSlab s
    → s.free_objects_index ≡ j ∷ rest
    → (s' : MSlab) × (addr : ℕ) × (alloc_object s obj_size ≡ some (s', addr))
      × Allocated s s' obj_size addr
unfolding alloc_object
alloc_object-Allocated s obj_size j rest h e =
    let front : 1 + count j rest ≡ vacant (get_elem? s.objects j) =
      rw (← h.listed j) (rw (e, ==_refl j) refl) in
    let (o, there, idle, gone) = front_vacant (get_elem? s.objects j) (count j rest) front in
    let inside = get_elem?-lt s.objects j there in
    let put : update_object s.objects j taken_object ≡ set s.objects j (taken_object o) =
      update_object-some s.objects j o taken_object there in
    (
      record s {
        objects = update_object s.objects j taken_object;
        num_in_use = s.num_in_use + 1;
        free_objects_index = rest;
      },
      s.base_addr + j * obj_size,
      rw (e, alloc_object) refl,
      record {
        index = j;
        object = o;
        address = refl;
        before = there;
        vacant_before = idle;
        after = rw put (get_elem?-set_self s.objects j (taken_object o) inside);
        others = λ i ne. rw put (get_elem?-set_ne s.objects (taken_object o) ne);
        counted = refl;
        sound = record {
          listed = λ i. elim (ℕ_discrete j i) [
            | yes same ↦
                subst
                  (λ (x : ℕ).
                    count x rest ≡ vacant (get_elem? (update_object s.objects j taken_object) x))
                  same (rw (put, get_elem?-set_self s.objects j (taken_object o) inside) gone)
            | no ne ↦
                rw (put, get_elem?-set_ne s.objects (taken_object o) ne)
                  (count_behind j i rest ne ∙ ap (count i) (sym e) ∙ h.listed i)
          ];
          counted = rw put (
              ground (arith, h.counted, used_count-set s.objects j o (taken_object o) there, idle));
        };
        base = refl;
        status = refl;
      },
    )

-- With no free object listed, every object is in use.
none_vacant : (o : MObject) (x : Option MObject) → x ≡ some o → 0 ≡ vacant x → o.in_use ≡ true
none_vacant o x e h = ground (arith, e, h)

-- In a slab whose list of free objects names each object that is not in use once, and no other, and
-- which counts those in use: an allocation gives the address of an object that was not in use, uses it
-- once more, leaves every other object as it was and keeps all that; or it gives none, and then every
-- object is in use.
pub alloc_object_lem :
    (s : MSlab) (obj_size : ℕ)
    → IsSlab s
    → ((s' : MSlab) × (addr : ℕ) × (alloc_object s obj_size ≡ some (s', addr))
        × Allocated s s' obj_size addr)
      ⊎ (alloc_object s obj_size ≡ none)
        × ((i : ℕ) (o : MObject) → get_elem? s.objects i ≡ some o → o.in_use ≡ true)
unfolding alloc_object
alloc_object_lem s obj_size h = elim (List-cases s.free_objects_index) [
  | inr (j, rest, e) ↦ inl (alloc_object-Allocated s obj_size j rest h e)
  | inl e ↦ inr (
    rw (e, alloc_object) refl,
    λ i o there. none_vacant o (get_elem? s.objects i) there (
        let was : count i [] ≡ vacant (get_elem? s.objects i) = ap (count i) (sym e) ∙ h.listed i in
        was),
  )
]
