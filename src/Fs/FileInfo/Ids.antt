-- ===== src/Fs/FileInfo/Ids.antt =====
-- The ids in the cache of file contents, and what the changes to it do to them.
use uchos.Common.{ℤ}
use uchos.Prelude.{
  ℕ, ◌≡◌, refl, none, take, ==_false, ◌≢◌, List, [], ◌∷◌, length, leb, ◌==◌, All, Bool-cases, inl,
  inr, ap,
}
use uchos.Fs.FileInfo.{
  Caches, FileCache, new_file_cache, generate_fs_id, tick_after, find_id, emplace,
  create_file_cache, remove_path, max_file_caches, str_eq, touch, oldest_of, erase_cache, evict,
  make_room,
}

-- No entry has the id.
abbrev pub NoId : ℕ → List FileCache → Type 0
NoId id cs = All (λ c. c.id ≢ id) cs

abbrev pub UniqueIds : List FileCache → Type 0
UniqueIds [] = Unit
UniqueIds (c ∷ cs) = NoId c.id cs × UniqueIds cs

NoId-touch :
    (cs : List FileCache) (path : List ℕ) (tick id : ℕ) → NoId id cs → NoId id (touch cs path tick)
unfolding touch
NoId-touch [] path tick id h = tt
NoId-touch (c ∷ cs) path tick id h = elim (Bool-cases (str_eq c.path path)) [
  | inl this ↦ rw this (h.0, h.1)
  | inr further ↦ rw further (h.0, NoId-touch cs path tick id h.1)
]

pub UniqueIds-touch :
    (cs : List FileCache) (path : List ℕ) (tick : ℕ) → UniqueIds cs → UniqueIds (touch cs path tick)
unfolding touch
UniqueIds-touch [] path tick u = tt
UniqueIds-touch (c ∷ cs) path tick u = elim (Bool-cases (str_eq c.path path)) [
  | inl this ↦ rw this (u.0, u.1)
  | inr further ↦ rw further (NoId-touch cs path tick c.id u.0, UniqueIds-touch cs path tick u.1)
]

NoId-erase_cache : (cs : List FileCache) (id new : ℕ) → NoId new cs → NoId new (erase_cache cs id)
unfolding erase_cache
NoId-erase_cache [] id new h = tt
NoId-erase_cache (c ∷ cs) id new h = elim (Bool-cases (c.id == id)) [
  | inl this ↦ rw this h.1
  | inr further ↦ rw further (h.0, NoId-erase_cache cs id new h.1)
]

UniqueIds-erase_cache :
    (cs : List FileCache) (id : ℕ) → UniqueIds cs → UniqueIds (erase_cache cs id)
unfolding erase_cache
UniqueIds-erase_cache [] id u = tt
UniqueIds-erase_cache (c ∷ cs) id u = elim (Bool-cases (c.id == id)) [
  | inl this ↦ rw this u.1
  | inr further ↦ rw further (NoId-erase_cache cs id c.id u.0, UniqueIds-erase_cache cs id u.1)
]

pub NoId-make_room : (cs : List FileCache) (new : ℕ) → NoId new cs → NoId new (make_room cs)
unfolding make_room evict
NoId-make_room [] new h = tt
NoId-make_room (c ∷ cs) new h = elim (Bool-cases (leb max_file_caches (length (c ∷ cs)))) [
  | inl full ↦ rw full (NoId-erase_cache (c ∷ cs) (oldest_of c cs).id new h)
  | inr room ↦ rw room h
]

pub UniqueIds-make_room : (cs : List FileCache) → UniqueIds cs → UniqueIds (make_room cs)
unfolding make_room evict
UniqueIds-make_room [] u = tt
UniqueIds-make_room (c ∷ cs) u = elim (Bool-cases (leb max_file_caches (length (c ∷ cs)))) [
  | inl full ↦ rw full (UniqueIds-erase_cache (c ∷ cs) (oldest_of c cs).id u)
  | inr room ↦ rw room u
]

find_id-none : (cs : List FileCache) (id : ℕ) → NoId id cs → find_id cs id ≡ none
unfolding find_id
find_id-none [] id h = refl
find_id-none (c ∷ cs) id h = rw (==_false c.id id h.0) (find_id-none cs id h.1)

-- What a creation gives whose id is new.
abbrev pub created : Caches → List ℕ → ℕ → ℤ → Caches × FileCache
created s path total_size requester =
    let id = generate_fs_id s.next_fs_id in
    let tick = tick_after s.lru_tick in
    let cache = record (new_file_cache total_size id requester) {
      path = take 12 path;
      last_used = tick;
    } in
    (
      record { file_caches = cache ∷ make_room s.file_caches; next_fs_id = id; lru_tick = tick },
      cache,
    )

emplace-new :
    (cs : List FileCache) (cache : FileCache)
    → find_id cs cache.id ≡ none
    → emplace cs cache ≡ (cache ∷ cs, cache)
unfolding emplace
emplace-new cs cache absent = rw (absent, emplace) refl

pub create_file_cache-created :
    (s : Caches) (path : List ℕ) (total_size : ℕ) (requester : ℤ)
    → NoId (generate_fs_id s.next_fs_id) s.file_caches
    → create_file_cache s path total_size requester ≡ created s path total_size requester
unfolding create_file_cache
create_file_cache-created s path total_size requester new =
    let id = generate_fs_id s.next_fs_id in
    let absent : find_id (make_room s.file_caches) id ≡ none =
      find_id-none (make_room s.file_caches) id (NoId-make_room s.file_caches id new) in
    let tick = tick_after s.lru_tick in
    ap
      (λ (r : List FileCache × FileCache).
        (record { file_caches = r.0; next_fs_id = id; lru_tick = tick }, r.1))
      (emplace-new (make_room s.file_caches) (created s path total_size requester).1 absent)

pub NoId-remove_path :
    (cs : List FileCache) (path : List ℕ) (new : ℕ) → NoId new cs → NoId new (remove_path cs path)
unfolding remove_path
NoId-remove_path [] path new h = tt
NoId-remove_path (c ∷ cs) path new h = elim (Bool-cases (str_eq c.path path)) [
  | inl this ↦ rw this h.1
  | inr further ↦ rw further (h.0, NoId-remove_path cs path new h.1)
]
