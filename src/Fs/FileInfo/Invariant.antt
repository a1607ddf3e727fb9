-- ===== src/Fs/FileInfo/Invariant.antt =====
-- What holds of the cache at all times: at most `MAX_FILE_CACHES` entries, and no path or id twice.
use uchos.Prelude.{
  ℕ, suc, ◌+◌, ◌<◌, ◌≤◌, ◌≡◌, refl, sym, ap, subst, ◌⊎◌, inl, inr, none, List, [], ◌∷◌, length,
  take, ltb, leb, ◌==◌, All, arith, Bool-cases, ltb→lt, ltb→le,
}
use uchos.Common.{ℤ}
use uchos.Fs.FileInfo.{
  FileCache, Caches, max_file_caches, str_eq, find_path, touch, oldest_of, erase_cache, evict,
  make_room, generate_fs_id, create_file_cache, remove_path, tick_after,
}
use uchos.Fs.FileInfo.Ids.{
  create_file_cache-created, NoId, UniqueIds, UniqueIds-touch, NoId-make_room, UniqueIds-make_room,
}
use uchos.Fs.FileInfo.Lru.{str_eq→eq, find_path-erase_cache, find_path-make_room, used}

abbrev pub UniquePaths : List FileCache → Type 0
UniquePaths [] = Unit
UniquePaths (c ∷ cs) = (find_path cs c.path ≡ none) × UniquePaths cs

pub record Sound (s : Caches) : Type 0 where
  pub ids : UniqueIds s.file_caches
  pub unique : UniquePaths s.file_caches
  pub bounded : length s.file_caches ≤ max_file_caches

find_path-touch_none :
    (cs : List FileCache) (path other : List ℕ) (tick : ℕ)
    → find_path cs other ≡ none
    → find_path (touch cs path tick) other ≡ none
unfolding find_path touch
find_path-touch_none [] path other tick h = refl
find_path-touch_none (c ∷ cs) path other tick h = elim (Bool-cases (str_eq c.path other)) [
  | inl same ↦ absurd (ground (arith, same, h))
  | inr ne ↦ elim (Bool-cases (str_eq c.path path)) [
    | inl this ↦ rw (this, touch) (rw (ne, find_path) (ground (arith, ne, h)))
    | inr further ↦
        rw (further, touch)
          (rw (ne, find_path) (find_path-touch_none cs path other tick (ground (arith, ne, h))))
  ]
]

UniquePaths-touch :
    (cs : List FileCache) (path : List ℕ) (tick : ℕ)
    → UniquePaths cs
    → UniquePaths (touch cs path tick)
unfolding touch
UniquePaths-touch [] path tick u = tt
UniquePaths-touch (c ∷ cs) path tick u = elim (Bool-cases (str_eq c.path path)) [
  | inl this ↦ rw this (u.0, u.1)
  | inr further ↦
      rw further (find_path-touch_none cs path c.path tick u.0, UniquePaths-touch cs path tick u.1)
]

length-touch :
    (cs : List FileCache) (path : List ℕ) (tick : ℕ) → length (touch cs path tick) ≡ length cs
unfolding touch
length-touch [] path tick = refl
length-touch (c ∷ cs) path tick = elim (Bool-cases (str_eq c.path path)) [
  | inl this ↦ rw this refl
  | inr further ↦ rw further (ap suc (length-touch cs path tick))
]

UniquePaths-erase_cache :
    (cs : List FileCache) (id : ℕ) → UniquePaths cs → UniquePaths (erase_cache cs id)
unfolding erase_cache
UniquePaths-erase_cache [] id u = tt
UniquePaths-erase_cache (c ∷ cs) id u = elim (Bool-cases (c.id == id)) [
  | inl this ↦ rw this u.1
  | inr further ↦
      rw further (find_path-erase_cache cs id c.path u.0, UniquePaths-erase_cache cs id u.1)
]

abbrev pub HasId : ℕ → List FileCache → Type 0
HasId id [] = ⊥
HasId id (c ∷ cs) = (c.id ≡ id) ⊎ HasId id cs

length-erase_cache :
    (cs : List FileCache) (id : ℕ) → HasId id cs → length (erase_cache cs id) + 1 ≡ length cs
unfolding erase_cache
length-erase_cache [] id h = absurd h
length-erase_cache (c ∷ cs) id h = elim (Bool-cases (c.id == id)) [
  | inl this ↦ rw this (omega arith)
  | inr further ↦ elim h [
    | inl e ↦ absurd (ground (arith, e, further))
    | inr there ↦ rw further (omega (arith, length-erase_cache cs id there))
  ]
]

-- The entry itself is in the cache.
abbrev pub Holds : FileCache → List FileCache → Type 0
Holds f [] = ⊥
Holds f (c ∷ cs) = (c ≡ f) ⊎ Holds f cs

Holds-HasId : (f : FileCache) (cs : List FileCache) → Holds f cs → HasId f.id cs
Holds-HasId f [] h = absurd h
Holds-HasId f (c ∷ cs) (inl e) = inl (ap (λ (x : FileCache). x.id) e)
Holds-HasId f (c ∷ cs) (inr there) = inr (Holds-HasId f cs there)

-- One of the entries that no other one was used before.
pub record IsOldest (cs : List FileCache) (r : FileCache) : Type 0 where
  pub held : Holds r cs
  pub least : All (λ c. r.last_used ≤ c.last_used) cs

oldest_of-next :
    (oldest c : FileCache) (cs : List FileCache)
    → (oldest_of oldest (c ∷ cs) ≡ oldest_of c cs) × (c.last_used < oldest.last_used)
      ⊎ (oldest_of oldest (c ∷ cs) ≡ oldest_of oldest cs) × (oldest.last_used ≤ c.last_used)
unfolding oldest_of
oldest_of-next oldest c cs = elim (Bool-cases (ltb c.last_used oldest.last_used)) [
  | inl older ↦ inl (rw older refl, ltb→lt c.last_used oldest.last_used older)
  | inr newer ↦ inr (rw newer refl, ltb→le c.last_used oldest.last_used newer)
]

after_first :
    (o c r : FileCache) (cs : List FileCache)
    → c.last_used < o.last_used
    → IsOldest (c ∷ cs) r
    → IsOldest (o ∷ c ∷ cs) r
after_first o c r cs lt h = record {
  held = inr h.held;
  least = (omega (arith, h.least.0, lt), h.least);
}

before_second :
    (o c r : FileCache) (cs : List FileCache)
    → o.last_used ≤ c.last_used
    → IsOldest (o ∷ cs) r
    → IsOldest (o ∷ c ∷ cs) r
before_second o c r cs le h = record {
  held = elim h.held [ inl e ↦ inl e | inr there ↦ inr (inr there) ];
  least = (h.least.0, (omega (arith, h.least.0, le), h.least.1));
}

oldest_of-IsOldest :
    (oldest : FileCache) (cs : List FileCache) → IsOldest (oldest ∷ cs) (oldest_of oldest cs)
unfolding oldest_of
oldest_of-IsOldest oldest [] = record { held = inl refl; least = (omega arith, tt) }
oldest_of-IsOldest oldest (c ∷ cs) = elim (oldest_of-next oldest c cs) [
  | inl (e, lt) ↦
      subst (IsOldest (oldest ∷ c ∷ cs)) (sym e)
        (after_first oldest c (oldest_of c cs) cs lt (oldest_of-IsOldest c cs))
  | inr (e, le) ↦
      subst (IsOldest (oldest ∷ c ∷ cs)) (sym e)
        (before_second oldest c (oldest_of oldest cs) cs le (oldest_of-IsOldest oldest cs))
]

-- What making room leaves: all, while there is room, and else all but one that is used least recently.
pub record MadeRoom (cs kept : List FileCache) : Type 0 where
  pub room : length kept < max_file_caches
  pub unique : UniquePaths kept
  pub evicted :
      (kept ≡ cs) × (length cs < max_file_caches)
      ⊎ ((f : FileCache) × (kept ≡ erase_cache cs f.id)
          × IsOldest cs f
          × (max_file_caches ≤ length cs))

make_room-MadeRoom :
    (cs : List FileCache)
    → UniquePaths cs
    → length cs ≤ max_file_caches
    → MadeRoom cs (make_room cs)
unfolding make_room evict
make_room-MadeRoom [] u h = record {
  room = omega arith;
  unique = tt;
  evicted = inl (refl, omega arith);
}
make_room-MadeRoom (c ∷ cs) u h =
    let f = oldest_of c cs in
    elim (Bool-cases (leb max_file_caches (length (c ∷ cs)))) [
      | inr room ↦
          let lt : length (c ∷ cs) < max_file_caches = ground (arith, room) in
          rw room (record { room = lt; unique = u; evicted = inl (refl, lt) })
      | inl full ↦
          let le : max_file_caches ≤ length (c ∷ cs) = ground (arith, full) in
          let oldest = oldest_of-IsOldest c cs in
          rw full (record {
            room =
                omega
                  (arith, h, length-erase_cache (c ∷ cs) f.id (Holds-HasId f (c ∷ cs) oldest.held));
            unique = UniquePaths-erase_cache (c ∷ cs) f.id u;
            evicted = inr (f, refl, oldest, le);
          })
    ]

-- A path of at most 12 characters that no entry has, in a cache with at most `MAX_FILE_CACHES` entries,
-- no path and no id twice, and no entry with the next id: creating a cache puts it in, with that path,
-- keeps the bound and lets no path and no id stand twice; what was there is kept while there is room, and
-- else all of it but one of the entries whose last use is not later than that of any other.
pub create_file_cache_lem :
    (s : Caches) (path : List ℕ) (total_size : ℕ) (requester : ℤ)
    → Sound s
    → NoId (generate_fs_id s.next_fs_id) s.file_caches
    → take 12 path ≡ path
    → find_path s.file_caches path ≡ none
    → (kept : List FileCache) × ((create_file_cache s path total_size requester).0.file_caches
        ≡ (create_file_cache s path total_size requester).1 ∷ kept)
      × ((create_file_cache s path total_size requester).1.path ≡ path)
      × MadeRoom s.file_caches kept
      × Sound (create_file_cache s path total_size requester).0
create_file_cache_lem s path total_size requester sound new fits absent =
    let m = make_room-MadeRoom s.file_caches sound.unique sound.bounded in
    rw (create_file_cache-created s path total_size requester new) (
      make_room s.file_caches,
      refl,
      fits,
      m,
      record {
        ids = (
          NoId-make_room s.file_caches (generate_fs_id s.next_fs_id) new,
          UniqueIds-make_room s.file_caches sound.ids,
        );
        unique = (rw fits (find_path-make_room s.file_caches path absent), m.unique);
        bounded = omega (arith, m.room);
      },
    )

-- After the removal of a path no entry has it.
pub find_path-remove_path :
    (cs : List FileCache) (path : List ℕ)
    → UniquePaths cs
    → find_path (remove_path cs path) path ≡ none
unfolding find_path remove_path
find_path-remove_path [] path u = refl
find_path-remove_path (c ∷ cs) path u = elim (Bool-cases (str_eq c.path path)) [
  | inl this ↦ rw this (subst (λ p. find_path cs p ≡ none) (str_eq→eq c.path path this) u.0)
  | inr further ↦
      rw (further, remove_path) (rw (further, find_path) (find_path-remove_path cs path u.1))
]

pub used-Sound : (s : Caches) (path : List ℕ) → Sound s → Sound (used s path)
used-Sound s path h = record {
  ids = UniqueIds-touch s.file_caches path (tick_after s.lru_tick) h.ids;
  unique = UniquePaths-touch s.file_caches path (tick_after s.lru_tick) h.unique;
  bounded = omega (arith, h.bounded, length-touch s.file_caches path (tick_after s.lru_tick));
}
