-- ===== src/Examples/Contents.antt =====
-- The contents of files at concrete inputs: clusters of four bytes, and a file of ten bytes in the
-- clusters 2, 3 and 5 of the table.
use uchos.Prelude.{
  leb, ℕ, ◌+◌, ◌≡◌, ◌≢◌, ◌==◌, refl, true, inl, none, some, List, [], ◌∷◌, arith, if◌then◌else◌,
}
use uchos.Common.{pos, ok}
use uchos.Fs.FileInfo.{Caches, FileCache, find_path, create_file_cache}
use uchos.Fs.FileInfo.Invariant.{Sound, MadeRoom, create_file_cache_lem}
use uchos.Fs.OpenFiles.{OpenFileRecord, open_file_get, find_handle}
use uchos.Fs.Fat.Growth.{Volume}
use uchos.Fs.Fat.Content.{FileEntry, Geometry, BlockRead, Server, load_file}
use uchos.Fs.Fat.Content.Load.{IsOnDisk, Loaded}
use uchos.Fs.Fat.Content.Window.{StandsAt, read_all, read_all_lem}
use uchos.Fs.Fat.Write.{Block, BlockWrite, Disk, Request, truncate_file, handle_fs_write, wrote}
use uchos.Fs.Fat.Write.Truncate.{IsChain, Shortened, truncate_file_lem}
use uchos.Fs.Fat.Write.Fresh.{after_write, Fresh, load_file-handle_fs_write}
use uchos.Examples.Fat.{table, chain-Links, table-IsTable}

abbrev small : Geometry
small = record {
  reserved_sector_count = 0;
  num_fats = 0;
  fat_size_32 = 0;
  sectors_per_cluster = 1;
  bytes_per_cluster = 4;
}

abbrev held : ℕ → List ℕ
held c =
    if c == 2
    then 1 ∷ 2 ∷ 3 ∷ 4 ∷ []
    else if c == 3
    then 5 ∷ 6 ∷ 7 ∷ 8 ∷ []
    else 9 ∷ 10 ∷ 0 ∷ 0 ∷ []

abbrev disk_read : BlockRead
disk_read sector len = some (held (sector + 2))

abbrev ten_bytes : FileEntry
ten_bytes = record { name = 65 ∷ []; first_cluster = 2; file_size = 10 }

abbrev no_caches : Caches
no_caches = record { file_caches = []; next_fs_id = 0; lru_tick = 0 }

abbrev first_open : OpenFileRecord
first_open = record {
  handle = 1;
  owner = pos 7;
  entry = 0;
  offset = 0;
  refcount = 1;
  name = 65 ∷ [];
}

abbrev service : Server
service = record { caches = no_caches; open_files = first_open ∷ []; entries = λ a. ten_bytes }

ten_bytes-IsOnDisk : IsOnDisk disk_read small table ten_bytes held (3 ∷ 5 ∷ [])
ten_bytes-IsOnDisk = record {
  sized = omega arith;
  proper = omega arith;
  links = chain-Links;
  readable = ((refl, refl), ((refl, refl), ((refl, refl), tt)));
  held = omega arith;
}

used_first : ten_bytes.first_cluster ≢ 0
used_first e = omega (arith, e)

service-StandsAt :
    StandsAt disk_read small table ten_bytes held
      (3 ∷ 5 ∷ [])
      ten_bytes-IsOnDisk
      used_first
      service
      1
      first_open
unfolding open_file_get find_handle find_path
service-StandsAt = record {
  opened = refl;
  names = refl;
  serves = record { cached = inl (refl, tt) };
}

read_all_example :
    (s' : Server) × (read_all disk_read small table service (pos 7) 1 (4 ∷ 3 ∷ 9 ∷ [])
      ≡ some (s', 1 ∷ 2 ∷ 3 ∷ 4 ∷ 5 ∷ 6 ∷ 7 ∷ 8 ∷ 9 ∷ 10 ∷ []))
    × StandsAt disk_read small table ten_bytes held
        (3 ∷ 5 ∷ [])
        ten_bytes-IsOnDisk
        used_first
        s'
        1
        (record first_open { offset = 10 })
read_all_example =
    read_all_lem disk_read small table ten_bytes held (3 ∷ 5 ∷ []) ten_bytes-IsOnDisk used_first
      service (pos 7) 1 (4 ∷ 3 ∷ 9 ∷ []) first_open service-StandsAt

-- A device with four bytes in each sector, which is asked for no more.
abbrev whole_read : BlockRead
whole_read sector len = if leb len 4 then some (held (sector + 2)) else none

abbrev three_clusters : Volume
three_clusters = record { fat = table; entry = record { first_cluster = 2; file_size = 1536 } }

three-IsChain : IsChain table 2 (3 ∷ 5 ∷ [])
three-IsChain = record {
  low = omega arith;
  high = omega arith;
  links = chain-Links;
  distinct = (
    (λ e. omega (arith, e), (λ e. omega (arith, e), tt)),
    ((λ e. omega (arith, e), tt), (tt, tt)),
  );
  within = (omega arith, (omega arith, (omega arith, tt)));
  short = omega arith;
}

truncate_file_example :
    (fat : List ℕ) × (truncate_file three_clusters 512 512
      ≡ some (record three_clusters { fat = fat }))
    × Shortened table fat 2 [] 3 (5 ∷ [])
truncate_file_example =
    truncate_file_lem three_clusters 512 512 [] 3 (5 ∷ []) three-IsChain refl (omega arith)

no_caches-Sound : Sound no_caches
no_caches-Sound = record { ids = tt; unique = tt; bounded = omega arith }

create_file_cache_example :
    (kept : List FileCache) × ((create_file_cache no_caches (65 ∷ []) 10 (pos 7)).0.file_caches
      ≡ (create_file_cache no_caches (65 ∷ []) 10 (pos 7)).1 ∷ kept)
    × ((create_file_cache no_caches (65 ∷ []) 10 (pos 7)).1.path ≡ 65 ∷ [])
    × MadeRoom [] kept
    × Sound (create_file_cache no_caches (65 ∷ []) 10 (pos 7)).0
unfolding find_path
create_file_cache_example =
    create_file_cache_lem no_caches (65 ∷ []) 10 (pos 7) no_caches-Sound tt refl refl

-- An empty file, and a device that takes every block.
abbrev takes_all : BlockWrite
takes_all block = ok

abbrev empty_disk : Disk
empty_disk = record {
  server = record {
    caches = no_caches;
    open_files = first_open ∷ [];
    entries = λ a. record { name = 65 ∷ []; first_cluster = 0; file_size = 0 };
  };
  fat = table;
}

abbrev blank_device : BlockRead
blank_device sector len = some (0 ∷ 0 ∷ 0 ∷ 0 ∷ [])

empty_disk-Fresh :
    Fresh takes_all small empty_disk 8 1 first_open (65 ∷ []) (11 ∷ 12 ∷ 13 ∷ []) 3 4 6 (7 ∷ [])
unfolding open_file_get find_handle
empty_disk-Fresh = record {
  opened = refl;
  start = refl;
  empty = refl;
  table = table-IsTable;
  free = refl;
  given = omega arith;
  fits = omega arith;
  width = omega arith;
  unique = tt;
  new = tt;
  written = refl;
}

load_file-handle_fs_write_example :
    (r : Request) × (b : Block) × (handle_fs_write takes_all small 8 true empty_disk 1
        (11 ∷ 12 ∷ 13 ∷ [])
        3
      ≡ some r)
    × (r.reply ≡ wrote 3)
    × (r.block ≡ some b)
    × Loaded
        (after_write blank_device b)
        small
        r.disk.fat
        (r.disk.server.entries 0)
        (11 ∷ 12 ∷ 13 ∷ [])
        (load_file
          (after_write blank_device b)
          small
          r.disk.fat
          r.disk.server.caches
          (r.disk.server.entries 0)
          (pos 7))
load_file-handle_fs_write_example =
    load_file-handle_fs_write takes_all small empty_disk 8 1 first_open (65 ∷ [])
      (11 ∷ 12 ∷ 13 ∷ []) 3 4 6 (7 ∷ []) empty_disk-Fresh blank_device (0 ∷ 0 ∷ 0 ∷ 0 ∷ []) (pos 7)
      refl refl
