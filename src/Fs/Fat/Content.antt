-- ===== src/Fs/Fat/Content.antt =====
-- The reading of file contents in kernel/fs/fat/file.cpp, with `calc_start_sector` of utils.cpp.
-- `read_from_blk` is a call to the block device, and a parameter: the bytes of a sector on, if the
-- device gives them. Whether the memory for a reply can be had is a parameter too.
pub mod Loop
pub mod Load
pub mod Window
use uchos.Prelude.{
  ℕ, zero, suc, ◌+◌, ◌*◌, ◌-◌, ◌%◌, ◌^◌, min, Bool, true, false, ◌||◌, ◌&&◌, ltb, Option, none,
  some, List, [], ◌∷◌, length, take, drop, copy, leb, ◌==◌, if◌then◌else◌,
}
use uchos.Common.{ℤ, err_no_memory, err_invalid_fd, err_failed_read_from_device}
use uchos.Fs.FileInfo.{
  Caches, FileCache, find_file_cache_by_path, create_file_cache, remove_file_cache_by_path,
  write_cache,
}
use uchos.Fs.Fat.Clusters.{end_of_cluster_chain, next_cluster}
use uchos.Fs.OpenFiles.{OpenFileRecord, open_file_get, write_record}

-- What the functions use of a directory entry: `first_cluster` stands for its two halves.
pub record FileEntry : Type 0 where
  pub name : List ℕ
  pub first_cluster : ℕ
  pub file_size : ℕ

-- What they use of `VOLUME_BPB`, and the cluster size.
pub record Geometry : Type 0 where
  pub reserved_sector_count : ℕ
  pub num_fats : ℕ
  pub fat_size_32 : ℕ
  pub sectors_per_cluster : ℕ
  pub bytes_per_cluster : ℕ

-- On `cluster_t`, which is 64 bits wide, and then on `unsigned int`.
abbrev pub calc_start_sector : Geometry → ℕ → ℕ
calc_start_sector g cluster_id =
    (g.reserved_sector_count
      + g.num_fats * g.fat_size_32
      + (cluster_id + 2 ^ 64 - 2) * g.sectors_per_cluster)
    % 2 ^ 32

-- A C string: the bytes before the first zero.
unfoldable pub c_string : List ℕ → List ℕ
c_string [] = []
c_string (b ∷ bs) = let rest = c_string bs in if b == 0 then [] else b ∷ rest

abbrev pub entry_cache_key : List ℕ → List ℕ
entry_cache_key name = c_string (take 11 name)

abbrev pub BlockRead : Type 0
BlockRead = ℕ → ℕ → Option (List ℕ)

-- How the loop of `load_file` ends; `running` is out of fuel, `outside` an access outside the table or
-- behind the end of what the device gave.
pub data Loading : Type 0 where
  filled : List ℕ → Loading
  failed : Loading
  running : Loading
  outside : Loading

-- A round of the loop, and what follows it.
unfoldable pub load_loop : BlockRead → Geometry → List ℕ → ℕ → ℕ → ℕ → ℕ → List ℕ → Loading
load_loop blk g fat size zero offset cluster buffer = running
load_loop blk g fat size (suc fuel) offset cluster buffer =
    let round : Loading = elim (blk (calc_start_sector g cluster) g.bytes_per_cluster) [
      | none ↦ failed
      | some buf ↦
          let copy_len = min g.bytes_per_cluster (size - offset) in
          let rest =
            load_loop blk g fat size fuel (offset + copy_len) (next_cluster fat cluster)
              (copy buffer offset (take copy_len buf)) in
          if leb copy_len (length buf) && ltb cluster (length fat) then rest else outside
    ] in
    if cluster == end_of_cluster_chain || leb size offset then filled buffer else round

-- What the loop leaves in the cache that has been made for it.
unfoldable pub finish_load :
    Caches → List ℕ → FileCache → Loading → Option (Caches × Option FileCache)
finish_load s file_name cache (filled bytes) =
    let full = record cache { buffer = bytes; read_size = cache.total_size } in
    some (record s { file_caches = write_cache s.file_caches full }, some full)
finish_load s file_name cache failed = some (remove_file_cache_by_path s file_name, none)
finish_load s file_name cache running = none
finish_load s file_name cache outside = none

unfoldable pub load_new :
    BlockRead → Geometry → List ℕ → Caches → FileEntry → ℤ → Option (Caches × Option FileCache)
load_new blk g fat s entry requester =
    let file_name = entry_cache_key entry.name in
    let (made, cache) = create_file_cache s file_name entry.file_size requester in
    finish_load made file_name cache
      (load_loop blk g fat entry.file_size (entry.file_size + 1) 0 entry.first_cluster cache.buffer)

-- After the search for a cache.
unfoldable pub load_found :
    BlockRead
    → Geometry
    → List ℕ
    → FileEntry
    → ℤ
    → Caches × Option FileCache
    → Option (Caches × Option FileCache)
load_found blk g fat entry requester (s, some cache) = some (s, some cache)
load_found blk g fat entry requester (s, none) = load_new blk g fat s entry requester

-- The caches afterwards and the cache of the file, or none on failure. The whole is `none` for an access
-- outside the table or a buffer, or if the fuel, a round for each byte and one more, is not enough.
unfoldable pub load_file :
    BlockRead → Geometry → List ℕ → Caches → FileEntry → ℤ → Option (Caches × Option FileCache)
unfolding load_found
load_file blk g fat s entry requester =
    load_found blk g fat entry requester (find_file_cache_by_path s (entry_cache_key entry.name))

pub data Reply : Type 0 where
  error : ℤ → Reply
  file_data : List ℕ → Reply

-- The Boolean says whether there is memory for the copy.
unfoldable pub reply_file_data : Bool → List ℕ → Reply
reply_file_data memory [] = file_data []
reply_file_data memory (b ∷ bs) = if memory then file_data (b ∷ bs) else error err_no_memory

unfoldable pub reply_read_result :
    BlockRead → Geometry → List ℕ → Bool → Caches → FileEntry → ℤ → Option (Caches × Reply)
reply_read_result blk g fat memory s entry sender =
    let loaded : Option (Caches × Reply) = elim (load_file blk g fat s entry sender) [
      | none ↦ none
      | some (s', none) ↦ some (s', error err_failed_read_from_device)
      | some (s', some cache) ↦
          some (s', reply_file_data memory (take cache.total_size cache.buffer))
    ] in
    if entry.file_size == 0 || entry.first_cluster == 0
    then some (s, reply_file_data memory [])
    else loaded

-- The caches, the offset of the record and the reply.
unfoldable pub reply_read_window :
    BlockRead
    → Geometry
    → List ℕ
    → Bool
    → Caches
    → FileEntry
    → ℤ
    → ℕ
    → ℕ
    → Option (Caches × ℕ × Reply)
reply_read_window blk g fat memory s entry sender count offset =
    let loaded : Option (Caches × ℕ × Reply) = elim (load_file blk g fat s entry sender) [
      | none ↦ none
      | some (s', none) ↦ some (s', offset, error err_failed_read_from_device)
      | some (s', some cache) ↦
          let n = min count (entry.file_size - offset) in
          some (s', offset + n, reply_file_data memory (take n (drop offset cache.buffer)))
    ] in
    if entry.file_size == 0 || entry.first_cluster == 0 || leb entry.file_size offset
    then some (s, offset, reply_file_data memory [])
    else loaded

-- The caches and the ledger; the directory entries are named by their addresses.
pub record Server : Type 0 where
  pub caches : Caches
  pub open_files : List OpenFileRecord
  pub entries : ℕ → FileEntry

-- The first number is the handle, the second the count of the request.
unfoldable pub handle_fs_read :
    BlockRead → Geometry → List ℕ → Bool → Server → ℤ → ℕ → ℕ → Option (Server × Reply)
handle_fs_read blk g fat memory s sender handle count = elim (open_file_get s.open_files handle) [
  | none ↦ some (s, error err_invalid_fd)
  | some rec ↦
      elim (reply_read_window blk g fat memory s.caches (s.entries rec.entry) sender count
        rec.offset) [
          | none ↦ none
          | some (caches, offset, reply) ↦ some (
            record s {
              caches = caches;
              open_files = write_record s.open_files handle (record rec { offset = offset });
            },
            reply,
          )
        ]
]
