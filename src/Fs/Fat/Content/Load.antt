-- ===== src/Fs/Fat/Content/Load.antt =====
-- What `load_file` puts into the cache.
use uchos.Prelude.{
  ℕ, ◌+◌, ◌<◌, ◌≤◌, ◌≡◌, refl, ap, true, none, some, List, [], ◌∷◌, length, take, arith, inl, inr,
  ◌⊎◌, length-take, take_self, replicate, length-replicate, Option, ==_refl, subst, ◌∙◌,
}
use uchos.Common.{ℤ}
use uchos.Fs.FileInfo.{
  FileCache, Caches, find_path, tick_after, make_room, find_file_cache_by_path, write_cache, str_eq,
}
use uchos.Fs.FileInfo.Ids.{NoId, created, create_file_cache-created}
use uchos.Fs.FileInfo.{generate_fs_id}
use uchos.Fs.FileInfo.Lru.{
  str_eq_refl, used, find_file_cache_by_path-none, find_file_cache_by_path-some,
}
use uchos.Fs.Fat.Clusters.{fat32_eoc_min}
use uchos.Fs.Fat.Clusters.Link.{Links}
use uchos.Fs.Fat.Content.{
  FileEntry, Geometry, c_string, entry_cache_key, BlockRead, filled, load_loop, finish_load,
  load_new, load_found, load_file,
}
use uchos.Fs.Fat.Content.Loop.{joined, Readable, load_loop-joined}

c_string-le : (bs : List ℕ) → length (c_string bs) ≤ length bs
unfolding c_string
c_string-le [] = omega arith
c_string-le (b ∷ bs) = ground (arith, c_string-le bs)

-- A key fits into the path of a cache.
entry_cache_key_fits : (name : List ℕ) → take 12 (entry_cache_key name) ≡ entry_cache_key name
entry_cache_key_fits name =
    take_self 12 (entry_cache_key name)
      (omega (arith, c_string-le (take 11 name), length-take 11 name))

-- `finish_load` on the entry that has just been made.
module _ (s : Caches) (entry : FileEntry) (requester : ℤ) where
  abbrev key : List ℕ
  key = entry_cache_key entry.name

  abbrev made : Caches × FileCache
  made = created s key entry.file_size requester

  made_path : str_eq made.1.path key ≡ true
  made_path = rw (entry_cache_key_fits entry.name) (str_eq_refl key)

  finish_load-filled :
      (bytes : List ℕ)
      → (s' : Caches) × (f : FileCache) × (finish_load made.0 key made.1 (filled bytes)
          ≡ some (s', some f))
        × (f.buffer ≡ bytes)
        × (f.total_size ≡ entry.file_size)
        × (find_path s'.file_caches key ≡ some f)
  unfolding finish_load write_cache find_path
  finish_load-filled bytes = (
    record made.0 { file_caches = full ∷ make_room s.file_caches },
    full,
    rw (==_refl made.1.id, write_cache) refl,
    refl,
    refl,
    rw (made_path, find_path) refl,
  )
    where
      full : FileCache
      full = record made.1 { buffer = bytes; read_size = made.1.total_size }

module _ (blk : BlockRead) (g : Geometry) (fat : List ℕ) where
  -- Where a file lies: its chain of clusters and what the device holds there.
  pub record IsOnDisk (entry : FileEntry) (contents : ℕ → List ℕ) (cs : List ℕ) : Type 0 where
    pub sized : 0 < g.bytes_per_cluster
    pub proper : entry.first_cluster < fat32_eoc_min
    pub links : Links fat entry.first_cluster cs
    pub readable : Readable blk g contents (entry.first_cluster ∷ cs)
    pub held : entry.file_size ≤ length (joined contents (entry.first_cluster ∷ cs))

  abbrev pub file_bytes : FileEntry → (ℕ → List ℕ) → List ℕ → List ℕ
  file_bytes entry contents cs = take entry.file_size (joined contents (entry.first_cluster ∷ cs))

  -- No entry of the cache has the id that the next one gets.
  abbrev pub NextIsNew : Caches → Type 0
  NextIsNew s = NoId (generate_fs_id s.next_fs_id) s.file_caches

  -- The cache does not hold the file, and the next id is new, or it holds these bytes.
  pub record Serves (s : Caches) (entry : FileEntry) (bytes : List ℕ) : Type 0 where
    pub cached :
        (find_path s.file_caches (entry_cache_key entry.name) ≡ none) × NextIsNew s
        ⊎ ((f : FileCache) × (find_path s.file_caches (entry_cache_key entry.name) ≡ some f)
            × (f.buffer ≡ bytes)
            × (f.total_size ≡ entry.file_size))

  -- What a load that succeeds gives.
  pub record Loaded (entry : FileEntry) (bytes : List ℕ) (r : Option (Caches × Option FileCache))
      : Type 0 where
    pub caches : Caches
    pub cache : FileCache
    pub result : r ≡ some (caches, some cache)
    pub buffer : cache.buffer ≡ bytes
    pub total_size : cache.total_size ≡ entry.file_size
    pub found : find_path caches.file_caches (entry_cache_key entry.name) ≡ some cache

  load_loop-file :
      (entry : FileEntry) (contents : ℕ → List ℕ) (cs : List ℕ)
      → IsOnDisk entry contents cs
      → load_loop blk g fat entry.file_size
          (entry.file_size + 1)
          0
          entry.first_cluster
          (replicate entry.file_size 0)
        ≡ filled (file_bytes entry contents cs)
  load_loop-file entry contents cs d =
      let zs = replicate {A = ℕ} entry.file_size 0 in
      let size : length zs ≡ entry.file_size = length-replicate entry.file_size 0 in
      let total : 0 + length zs ≡ entry.file_size = omega (arith, size) in
      let loop = λ (n : ℕ). load_loop blk g fat n (entry.file_size + 1) 0 entry.first_cluster zs in
      let held = joined contents (entry.first_cluster ∷ cs) in
      subst (λ (n : ℕ). loop n ≡ filled (take entry.file_size held)) total
        (subst (λ (n : ℕ). loop (0 + length zs) ≡ filled (take n held)) size
          (load_loop-joined blk g fat contents entry.first_cluster cs (entry.file_size + 1) [] zs
            d.sized (omega (arith, size)) d.proper d.links d.readable
            (omega (arith, size, d.held))))

  load_new-made :
      (s : Caches) (entry : FileEntry) (requester : ℤ)
      → NextIsNew s
      → load_new blk g fat s entry requester
        ≡ finish_load
            (made s entry requester).0
            (entry_cache_key entry.name)
            (made s entry requester).1
            (load_loop blk g fat entry.file_size
              (entry.file_size + 1)
              0
              entry.first_cluster
              (made s entry requester).1.buffer)
  unfolding load_new
  load_new-made s entry requester new =
      rw
        (
          create_file_cache-created s (entry_cache_key entry.name) entry.file_size requester new,
          load_new,
        )
        refl

  load_new-Loaded :
      (s : Caches) (entry : FileEntry) (requester : ℤ) (contents : ℕ → List ℕ) (cs : List ℕ)
      → NextIsNew s
      → IsOnDisk entry contents cs
      → Loaded entry (file_bytes entry contents cs) (load_new blk g fat s entry requester)
  load_new-Loaded s entry requester contents cs new d =
      let (s', f, e, b, t, p) =
        finish_load-filled s entry requester (file_bytes entry contents cs) in
      record {
        caches = s';
        cache = f;
        result = load_new-made s entry requester new ∙ rw (load_loop-file entry contents cs d) e;
        buffer = b;
        total_size = t;
        found = p;
      }

  load_file-absent :
      (s : Caches) (entry : FileEntry) (requester : ℤ)
      → find_path s.file_caches (entry_cache_key entry.name) ≡ none
      → load_file blk g fat s entry requester ≡ load_new blk g fat s entry requester
  unfolding load_file
  load_file-absent s entry requester h =
      ap (load_found blk g fat entry requester)
        (find_file_cache_by_path-none s (entry_cache_key entry.name) h)

  load_file-present :
      (s : Caches) (entry : FileEntry) (requester : ℤ) (f : FileCache)
      → find_path s.file_caches (entry_cache_key entry.name) ≡ some f
      → load_file blk g fat s entry requester
        ≡ some (
          used s (entry_cache_key entry.name),
          some (record f { last_used = tick_after s.lru_tick }),
        )
  unfolding load_file
  load_file-present s entry requester f h =
      ap (load_found blk g fat entry requester)
        (find_file_cache_by_path-some s (entry_cache_key entry.name) f h).0

  -- A file on a disk whose device gives its clusters, not in the cache or there with its bytes: loading
  -- it ends, and gives a cache that holds exactly the first `file_size` bytes of its clusters in the
  -- order of its chain, and that is found under its name from then on.
  pub load_file-Loaded :
      (s : Caches) (entry : FileEntry) (requester : ℤ) (contents : ℕ → List ℕ) (cs : List ℕ)
      → IsOnDisk entry contents cs
      → Serves s entry (file_bytes entry contents cs)
      → Loaded entry (file_bytes entry contents cs) (load_file blk g fat s entry requester)
  unfolding load_file find_file_cache_by_path
  load_file-Loaded s entry requester contents cs d h = elim h.cached [
    | inl (absent, new) ↦
        rw (load_file-absent s entry requester absent)
          (load_new-Loaded s entry requester contents cs new d)
    | inr (f, present, bytes, size) ↦ record {
      caches = used s (entry_cache_key entry.name);
      cache = record f { last_used = tick_after s.lru_tick };
      result = load_file-present s entry requester f present;
      buffer = bytes;
      total_size = size;
      found = (find_file_cache_by_path-some s (entry_cache_key entry.name) f present).1;
    }
  ]
