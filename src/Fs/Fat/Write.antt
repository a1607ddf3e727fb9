-- ===== src/Fs/Fat/Write.antt =====
-- The writing of files in kernel/fs/fat/file.cpp: `write_file_cluster`, `truncate_file` and
-- `handle_fs_write`. The error code with which the block device answers a write is a parameter, and so
-- is whether there is memory for the cluster. What is written to the device is a result; the writes of
-- the table and of the directory entry, whose outcome the source ignores, are not. `none` is what it is
-- for the cluster chains.
pub mod Truncate
pub mod Start
pub mod Fresh
use uchos.Prelude.{
  ℕ, zero, suc, ◌+◌, ◌-◌, ◌/◌, ◌%◌, min, Bool, true, false, ◌||◌, ◌&&◌, not, Option, none, some,
  List, [], ◌∷◌, length, take, copy, replicate, set, ltb, leb, ◌==◌, ◌!=◌, if◌then◌else◌,
}
use uchos.Common.{ℤ, ◌==ℤ◌, is_err, ok, err_no_memory, err_invalid_arg, err_invalid_fd}
use uchos.Fs.FileInfo.{Caches, remove_file_cache_by_path}
use uchos.Fs.Fat.Clusters.{end_of_cluster_chain, next_cluster, free_cluster_chain, to_u32}
use uchos.Fs.Fat.Growth.{DirectoryEntry, Volume, clusters_of, grow_file_if_needed}
use uchos.Fs.OpenFiles.{OpenFileRecord, open_file_get, write_record}
use uchos.Fs.Fat.Content.{FileEntry, Geometry, calc_start_sector, entry_cache_key, Server}

-- The clusters behind `cluster`, as many as the number, or to the end of the chain.
unfoldable pub walk : List ℕ → ℕ → ℕ → ℕ
walk fat zero cluster = cluster
walk fat (suc rounds) cluster =
    let rest = walk fat rounds (next_cluster fat cluster) in
    if cluster == end_of_cluster_chain then cluster else rest

-- What `write_to_blk` is given: the buffer, the first sector and the number of bytes.
pub record Block : Type 0 where
  pub buffer : List ℕ
  pub sector : ℕ
  pub len : ℕ

abbrev pub BlockWrite : Type 0
BlockWrite = Block → ℤ

-- The results of `write_file_cluster`: the caches, the block that went to the device, `*write_len` and
-- the error code.
pub record Written : Type 0 where
  pub caches : Caches
  pub block : Option Block
  pub write_len : ℕ
  pub err : ℤ

abbrev pub staged : Geometry → ℕ → List ℕ → ℕ → List ℕ
staged g offset_in_cluster bytes write_len =
    copy (replicate g.bytes_per_cluster 0) offset_in_cluster (take write_len bytes)

-- The block of a cluster.
abbrev pub cluster_block : Geometry → ℕ → ℕ → List ℕ → ℕ → Block
cluster_block g target_cluster offset_in_cluster bytes write_len = record {
  buffer = staged g offset_in_cluster bytes write_len;
  sector = calc_start_sector g target_cluster;
  len = g.bytes_per_cluster;
}

-- A return before the write.
abbrev pub refused : Caches → ℕ → ℤ → Written
refused s write_len e = record { caches = s; block = none; write_len = write_len; err = e }

-- `count` is the number of bytes of the list.
unfoldable pub write_file_cluster :
    BlockWrite → Geometry → List ℕ → Bool → Caches → FileEntry → ℕ → List ℕ → Written
write_file_cluster blk g fat memory s entry offset bytes =
    let cluster_offset = offset / g.bytes_per_cluster in
    let offset_in_cluster = offset % g.bytes_per_cluster in
    let write_len = min (length bytes) (g.bytes_per_cluster - offset_in_cluster) in
    let target_cluster = walk fat cluster_offset entry.first_cluster in
    let block = cluster_block g target_cluster offset_in_cluster bytes write_len in
    let written : Written = record {
      caches = remove_file_cache_by_path s (entry_cache_key entry.name);
      block = some block;
      write_len = write_len;
      err = blk block;
    } in
    if target_cluster == end_of_cluster_chain
    then refused s write_len err_invalid_arg
    else if not memory
    then refused s write_len err_no_memory
    else if (offset_in_cluster != 0 || ltb write_len g.bytes_per_cluster)
        && not (entry.file_size == 0 || offset == 0)
    then refused s write_len err_invalid_arg
    else written

-- The cluster that becomes the last one.
unfoldable pub cut_after : Volume → ℕ → Option Volume
cut_after v current =
    let next = next_cluster v.fat current in
    if current == end_of_cluster_chain || next == end_of_cluster_chain
    then some v
    else elim (free_cluster_chain v.fat next) [
      | none ↦ none
      | some fat ↦ some (record v { fat = set fat current end_of_cluster_chain })
    ]

unfoldable pub free_all : Volume → Option Volume
free_all v = elim (free_cluster_chain v.fat v.entry.first_cluster) [
  | none ↦ none
  | some fat ↦ some (record { fat = fat; entry = record v.entry { first_cluster = 0 } })
]

unfoldable pub truncate_file : Volume → ℕ → ℕ → Option Volume
truncate_file v bytes_per_cluster new_size =
    let current_clusters = clusters_of bytes_per_cluster v.entry.file_size in
    let new_clusters = clusters_of bytes_per_cluster new_size in
    if leb current_clusters new_clusters
    then some v
    else if new_clusters == 0
    then free_all v
    else cut_after v (walk v.fat (new_clusters - 1) v.entry.first_cluster)

-- The state of the service, with the table.
pub record Disk : Type 0 where
  pub server : Server
  pub fat : List ℕ

pub data WriteReply : Type 0 where
  error : ℤ → WriteReply
  wrote : ℕ → WriteReply

abbrev pub volume_of : List ℕ → FileEntry → Volume
volume_of fat entry = record {
  fat = fat;
  entry = record { first_cluster = entry.first_cluster; file_size = entry.file_size };
}

abbrev pub entry_of : FileEntry → Volume → FileEntry
entry_of entry v = record entry {
  first_cluster = v.entry.first_cluster;
  file_size = v.entry.file_size;
}

-- A write to a directory entry, and to the record of a handle.
abbrev pub put_entry : Server → ℕ → FileEntry → Server
put_entry s addr entry = record s { entries = λ a. if a == addr then entry else s.entries a }

abbrev pub put_offset : Server → ℕ → OpenFileRecord → ℕ → Server
put_offset s handle rec offset = record s {
  open_files = write_record s.open_files handle (record rec { offset = offset });
}

-- The size of the entry, of 32 bits, is brought to `new_size`, cutting the chain if it was larger.
unfoldable pub resize : Volume → ℕ → ℕ → Option Volume
resize v bytes_per_cluster new_size =
    let cut : Option Volume =
      if ltb new_size v.entry.file_size
      then truncate_file v bytes_per_cluster new_size
      else some v in
    elim cut [
      | none ↦ none
      | some v' ↦ some (record v' { entry = record v'.entry { file_size = to_u32 new_size } })
    ]

-- The results of a request: the state afterwards, what went to the device, and the reply.
pub record Request : Type 0 where
  pub disk : Disk
  pub block : Option Block
  pub reply : WriteReply

-- What follows the write of a cluster.
unfoldable pub finish_write :
    Geometry → Disk → Volume → ℕ → OpenFileRecord → FileEntry → ℕ → Written → Option Request
finish_write g d v handle rec entry new_size w =
    let server = record d.server { caches = w.caches } in
    if is_err w.err
    then some (record {
      disk = record { server = put_entry server rec.entry (entry_of entry v); fat = v.fat };
      block = w.block;
      reply = error w.err;
    })
    else elim (resize v g.bytes_per_cluster new_size) [
      | none ↦ none
      | some v' ↦ some (record {
        disk = record {
          server =
              put_offset (put_entry server rec.entry (entry_of entry v')) handle rec
                (rec.offset + w.write_len);
          fat = v'.fat;
        };
        block = w.block;
        reply = wrote w.write_len;
      })
    ]

unfoldable pub write_grown :
    BlockWrite
    → Geometry
    → Bool
    → Disk
    → ℕ
    → OpenFileRecord
    → FileEntry
    → List ℕ
    → Volume × ℤ
    → Option Request
write_grown blk g memory d handle rec entry bytes (v, grow_err) =
    if is_err grow_err
    then some (record {
      disk = record { server = put_entry d.server rec.entry (entry_of entry v); fat = v.fat };
      block = none;
      reply = error grow_err;
    })
    else finish_write g d v handle rec entry (rec.offset + length bytes)
        (write_file_cluster blk g v.fat memory d.server.caches (entry_of entry v) rec.offset bytes)

-- From the growth of the entry on. The bytes are the first `count` of the payload.
unfoldable pub write_entry_bytes :
    BlockWrite
    → Geometry
    → ℕ
    → Bool
    → Disk
    → ℕ
    → OpenFileRecord
    → FileEntry
    → List ℕ
    → Option Request
write_entry_bytes blk g total memory d handle rec entry bytes =
    elim (grow_file_if_needed (volume_of d.fat entry) total g.bytes_per_cluster
      (rec.offset + length bytes)) [
        | none ↦ none
        | some grown ↦ write_grown blk g memory d handle rec entry bytes grown
      ]

-- The payload of the request, and the length that its message gives. An empty list stands for no
-- payload.
unfoldable pub handle_fs_write :
    BlockWrite → Geometry → ℕ → Bool → Disk → ℕ → List ℕ → ℕ → Option Request
handle_fs_write blk g total memory d handle payload len =
    let served : Option Request = elim (open_file_get d.server.open_files handle) [
      | none ↦ some (record { disk = d; block = none; reply = error err_invalid_fd })
      | some rec ↦
          write_entry_bytes blk g total memory d handle rec (d.server.entries rec.entry)
            (take len payload)
    ] in
    if length payload == 0
    then some (record { disk = d; block = none; reply = error err_invalid_arg })
    else served
