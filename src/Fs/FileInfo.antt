-- ===== src/Fs/FileInfo.antt =====
-- kernel/fs/file_info.{hpp,cpp}: the cache of file contents. The map from ids to caches is the list of
-- its values, the newest first. The order in which the source's map is walked is not specified; it
-- matters only where two caches have one path or one tick, which the module Invariant excludes.
pub mod Ids
pub mod Lru
pub mod Invariant
use uchos.Prelude.{
  ℕ, zero, suc, ◌+◌, ◌-◌, ◌%◌, ◌^◌, Bool, true, false, ◌&&◌, Option, none, some, List, [], ◌∷◌,
  length, replicate, take, ltb, leb, ◌==◌, if◌then◌else◌,
}
use uchos.Common.{ℤ}

abbrev pub max_file_caches : ℕ
max_file_caches = 50

pub record FileCache : Type 0 where
  pub id : ℕ
  pub requester : ℤ
  pub buffer : List ℕ
  pub total_size : ℕ
  pub read_size : ℕ
  pub last_used : ℕ
  pub path : List ℕ

-- The constructor; `resize` fills the buffer with zeros.
abbrev pub new_file_cache : ℕ → ℕ → ℤ → FileCache
new_file_cache total_size id requester = record {
  id = id;
  requester = requester;
  buffer = replicate total_size 0;
  total_size = total_size;
  read_size = 0;
  last_used = 0;
  path = [];
}

-- The globals of the file.
pub record Caches : Type 0 where
  pub file_caches : List FileCache
  pub next_fs_id : ℕ
  pub lru_tick : ℕ

-- `strcmp` is 0: a path is the list of its characters, without the final zero.
unfoldable pub str_eq : List ℕ → List ℕ → Bool
str_eq [] [] = true
str_eq [] (b ∷ bs) = false
str_eq (a ∷ as_) [] = false
str_eq (a ∷ as_) (b ∷ bs) = a == b && str_eq as_ bs

abbrev pub tick_after : ℕ → ℕ
tick_after t = (t + 1) % 2 ^ 64

unfoldable pub find_path : List FileCache → List ℕ → Option FileCache
find_path [] path = none
find_path (c ∷ cs) path =
    let rest = find_path cs path in if str_eq c.path path then some c else rest

-- The write of a tick through the iterator.
unfoldable pub touch : List FileCache → List ℕ → ℕ → List FileCache
touch [] path tick = []
touch (c ∷ cs) path tick =
    let rest = touch cs path tick in
    if str_eq c.path path then record c { last_used = tick } ∷ cs else c ∷ rest

unfoldable pub find_file_cache_by_path : Caches → List ℕ → Caches × Option FileCache
find_file_cache_by_path s path = elim (find_path s.file_caches path) [
  | none ↦ (s, none)
  | some c ↦
      let tick = tick_after s.lru_tick in
      (
        record s { file_caches = touch s.file_caches path tick; lru_tick = tick },
        some (record c { last_used = tick }),
      )
]

-- The loop for the least recently used one.
unfoldable pub oldest_of : FileCache → List FileCache → FileCache
oldest_of oldest [] = oldest
oldest_of oldest (c ∷ cs) = oldest_of (if ltb c.last_used oldest.last_used then c else oldest) cs

-- `erase` of the entry with an id.
unfoldable pub erase_cache : List FileCache → ℕ → List FileCache
erase_cache [] id = []
erase_cache (c ∷ cs) id = let rest = erase_cache cs id in if c.id == id then cs else c ∷ rest

unfoldable pub evict : List FileCache → List FileCache
evict [] = []
evict (c ∷ cs) = erase_cache (c ∷ cs) (oldest_of c cs).id

unfoldable pub make_room : List FileCache → List FileCache
make_room cs = if leb max_file_caches (length cs) then evict cs else cs

unfoldable pub generate_fs_id : ℕ → ℕ
generate_fs_id next_fs_id = let next = tick_after next_fs_id in if next == 0 then 1 else next

unfoldable pub find_id : List FileCache → ℕ → Option FileCache
find_id [] id = none
find_id (c ∷ cs) id = let rest = find_id cs id in if c.id == id then some c else rest

-- The entries afterwards and the one with the id: an entry that has the id already stays.
unfoldable pub emplace : List FileCache → FileCache → List FileCache × FileCache
emplace cs cache = elim (find_id cs cache.id) [ none ↦ (cache ∷ cs, cache) | some c ↦ (cs, c) ]

unfoldable pub create_file_cache : Caches → List ℕ → ℕ → ℤ → Caches × FileCache
create_file_cache s path total_size requester =
    let kept = make_room s.file_caches in
    let id = generate_fs_id s.next_fs_id in
    let tick = tick_after s.lru_tick in
    let cache = record (new_file_cache total_size id requester) {
      path = take 12 path;
      last_used = tick;
    } in
    let (entries, entry) = emplace kept cache in
    (record { file_caches = entries; next_fs_id = id; lru_tick = tick }, entry)

unfoldable pub remove_path : List FileCache → List ℕ → List FileCache
remove_path [] path = []
remove_path (c ∷ cs) path =
    let rest = remove_path cs path in if str_eq c.path path then cs else c ∷ rest

-- Whether there was one is the result of the source, which no caller reads.
unfoldable pub remove_file_cache_by_path : Caches → List ℕ → Caches
remove_file_cache_by_path s path = record s { file_caches = remove_path s.file_caches path }

-- What writes through the pointer to a cache leave.
unfoldable pub write_cache : List FileCache → FileCache → List FileCache
write_cache [] new = []
write_cache (c ∷ cs) new =
    let rest = write_cache cs new in if c.id == new.id then new ∷ cs else c ∷ rest

-- The ids and the ticks go on.
unfoldable pub init_read_contexts : Caches → Caches
init_read_contexts s = record s { file_caches = [] }
