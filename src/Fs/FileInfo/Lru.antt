-- ===== src/Fs/FileInfo/Lru.antt =====
-- Lookups by path around the changes to the cache.
use uchos.Prelude.{
  ℕ, ◌≡◌, refl, ap₂, true, ◌==◌, none, some, List, [], ◌∷◌, arith, Bool-cases, inl, inr, ==_iff,
}
use uchos.Fs.FileInfo.{
  FileCache, Caches, find_file_cache_by_path, tick_after, str_eq, find_path, touch, oldest_of,
  erase_cache, evict, make_room,
}

pub str_eq_refl : (a : List ℕ) → str_eq a a ≡ true
unfolding str_eq
str_eq_refl [] = refl
str_eq_refl (x ∷ xs) = ground (arith, str_eq_refl xs)

pub str_eq→eq : (a b : List ℕ) → str_eq a b ≡ true → a ≡ b
unfolding str_eq
str_eq→eq [] [] h = refl
str_eq→eq [] (b ∷ bs) h = absurd (cc h)
str_eq→eq (a ∷ as_) [] h = absurd (cc h)
str_eq→eq (a ∷ as_) (b ∷ bs) h = elim (Bool-cases (a == b)) [
  | inr ne ↦ absurd (ground (arith, ne, h))
  | inl e ↦ ap₂ ◌∷◌ ((==_iff a b).0 e) (str_eq→eq as_ bs (ground (arith, e, h)))
]

pub find_path-erase_cache :
    (cs : List FileCache) (id : ℕ) (path : List ℕ)
    → find_path cs path ≡ none
    → find_path (erase_cache cs id) path ≡ none
unfolding find_path erase_cache
find_path-erase_cache [] id path h = refl
find_path-erase_cache (c ∷ cs) id path h = elim (Bool-cases (str_eq c.path path)) [
  | inl same ↦ absurd (ground (arith, same, h))
  | inr other ↦
      ground (arith, other, h, find_path-erase_cache cs id path (ground (arith, other, h)))
]

pub find_path-make_room :
    (cs : List FileCache) (path : List ℕ)
    → find_path cs path ≡ none
    → find_path (make_room cs) path ≡ none
unfolding make_room evict
find_path-make_room [] path h = h
find_path-make_room (c ∷ cs) path h =
    ground (arith, h, find_path-erase_cache (c ∷ cs) (oldest_of c cs).id path h)

pub find_path-touch :
    (cs : List FileCache) (path : List ℕ) (tick : ℕ) (f : FileCache)
    → find_path cs path ≡ some f
    → find_path (touch cs path tick) path ≡ some (record f { last_used = tick })
unfolding find_path touch
find_path-touch [] path tick f h = absurd (cc h)
find_path-touch (c ∷ cs) path tick f h = elim (Bool-cases (str_eq c.path path)) [
  | inl same ↦ ground (arith, same, h)
  | inr other ↦ ground (arith, other, h, find_path-touch cs path tick f (ground (arith, other, h)))
]

pub find_file_cache_by_path-none :
    (s : Caches) (path : List ℕ)
    → find_path s.file_caches path ≡ none
    → find_file_cache_by_path s path ≡ (s, none)
unfolding find_file_cache_by_path
find_file_cache_by_path-none s path h = rw (h, find_file_cache_by_path) refl

-- The cache that is found is marked as the one used last.
abbrev pub used : Caches → List ℕ → Caches
used s path = record s {
  file_caches = touch s.file_caches path (tick_after s.lru_tick);
  lru_tick = tick_after s.lru_tick;
}

pub find_file_cache_by_path-some :
    (s : Caches) (path : List ℕ) (f : FileCache)
    → find_path s.file_caches path ≡ some f
    → (find_file_cache_by_path s path
        ≡ (used s path, some (record f { last_used = tick_after s.lru_tick })))
      × (find_path (used s path).file_caches path
          ≡ some (record f { last_used = tick_after s.lru_tick }))
unfolding find_file_cache_by_path
find_file_cache_by_path-some s path f h = (
  rw (h, find_file_cache_by_path) refl,
  find_path-touch s.file_caches path (tick_after s.lru_tick) f h,
)
