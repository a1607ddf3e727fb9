-- ===== src/Fs/Fat/Write/Start.antt =====
-- A write of at most a cluster at the start of a file of size 0.
use uchos.Prelude.{
  ℕ, ◌+◌, ◌-◌, ◌/◌, ◌%◌, ◌^◌, ◌<◌, ◌≤◌, ◌≡◌, ◌≢◌, refl, ap₂, true, false, some, List, ◌++◌, length,
  take, drop, replicate, min, ltb, arith, take_self, take-append_self, ==_false, inl, inr,
  Bool-cases, append_assoc, length-append, length-drop, length-replicate,
}
use uchos.Common.{ok}
use uchos.Fs.FileInfo.{Caches, remove_file_cache_by_path}
use uchos.Fs.OpenFiles.{OpenFileRecord}
use uchos.Fs.Fat.Clusters.{end_of_cluster_chain, to_u32}
use uchos.Fs.Fat.Growth.{clusters_of}
use uchos.Fs.Fat.Content.{FileEntry, Geometry, entry_cache_key}
use uchos.Fs.Fat.Write.{
  walk, BlockWrite, staged, cluster_block, write_file_cluster, resize, finish_write, Disk, Request,
  wrote, put_entry, put_offset,
}

pub one_cluster : (b s : ℕ) → 0 < s → s ≤ b → clusters_of b s ≡ 1
one_cluster b s lo hi = grind arith

pub no_cluster : (b : ℕ) → 0 < b → clusters_of b 0 ≡ 0
no_cluster b lo = grind arith

module _ (blk : BlockWrite) (g : Geometry) where
  -- A write at the start of a file of size 0.
  pub write_file_cluster-start :
      (fat : List ℕ) (s : Caches) (name : List ℕ) (c : ℕ) (bytes : List ℕ)
      → 0 < g.bytes_per_cluster
      → length bytes ≤ g.bytes_per_cluster
      → c ≢ end_of_cluster_chain
      → write_file_cluster blk g fat true s
          (record { name = name; first_cluster = c; file_size = 0 })
          0
          bytes
        ≡ record {
          caches = remove_file_cache_by_path s (entry_cache_key name);
          block = some (cluster_block g c 0 bytes (length bytes));
          write_len = length bytes;
          err = blk (cluster_block g c 0 bytes (length bytes));
        }
  unfolding write_file_cluster walk
  write_file_cluster-start fat s name c bytes sized fits proper =
      let b = g.bytes_per_cluster in
      let none_before : 0 / b ≡ 0 = grind arith in
      let aligned : 0 % b ≡ 0 = grind arith in
      let len : min (length bytes) (b - 0) ≡ length bytes = omega (arith, fits) in
      rw (none_before, aligned, len, ==_false c end_of_cluster_chain proper)
        (elim (Bool-cases (ltb (length bytes) b)) [ inl l ↦ rw l refl | inr l ↦ rw l refl ])

  -- The first bytes of what was staged are those that were given.
  pub staged_bytes :
      (bytes rest : List ℕ) → take (length bytes) (staged g 0 bytes (length bytes) ++ rest) ≡ bytes
  staged_bytes bytes rest =
      let all : take (length bytes) bytes ≡ bytes = take_self (length bytes) bytes (omega arith) in
      rw all (
        rw (append_assoc bytes (drop (0 + length bytes) (replicate g.bytes_per_cluster 0)) rest) (
          take-append_self bytes
            (drop (0 + length bytes) (replicate g.bytes_per_cluster 0) ++ rest)))

  pub length-staged :
      (bytes : List ℕ)
      → length bytes ≤ g.bytes_per_cluster
      → length (staged g 0 bytes (length bytes)) ≡ g.bytes_per_cluster
  length-staged bytes fits =
      let all : take (length bytes) bytes ≡ bytes = take_self (length bytes) bytes (omega arith) in
      rw all (
        omega (
          arith,
          fits,
          length-append bytes (drop (0 + length bytes) (replicate g.bytes_per_cluster 0)),
          length-drop (0 + length bytes) (replicate {A = ℕ} g.bytes_per_cluster 0),
          length-replicate {A = ℕ} g.bytes_per_cluster 0,
        ))

  -- The request once the file has grown to one cluster `c` and the device has taken the block.
  abbrev pub fresh_request :
      Disk → ℕ → OpenFileRecord → List ℕ → List ℕ → ℕ → List ℕ → ℕ → ℕ → Request
  fresh_request d handle rec name fat c bytes size offset =
      let server = record d.server {
        caches = remove_file_cache_by_path d.server.caches (entry_cache_key name);
      } in
      let entry : FileEntry = record { name = name; first_cluster = c; file_size = size } in
      record {
        disk = record {
          server = put_offset (put_entry server rec.entry entry) handle rec offset;
          fat = fat;
        };
        block = some (cluster_block g c 0 bytes (length bytes));
        reply = wrote (length bytes);
      }

  pub finish_write-fresh :
      (d : Disk) (handle : ℕ) (rec : OpenFileRecord) (name fat : List ℕ) (c : ℕ) (bytes : List ℕ)
      → rec.offset ≡ 0
      → length bytes < 2 ^ 32
      → finish_write g d
          (record { fat = fat; entry = record { first_cluster = c; file_size = 0 } })
          handle
          rec
          (record { name = name; first_cluster = 0; file_size = 0 })
          (rec.offset + length bytes)
          (record {
            caches = remove_file_cache_by_path d.server.caches (entry_cache_key name);
            block = some (cluster_block g c 0 bytes (length bytes));
            write_len = length bytes;
            err = ok;
          })
        ≡ some (fresh_request d handle rec name fat c bytes (length bytes) (length bytes))
  unfolding finish_write resize
  finish_write-fresh d handle rec name fat c bytes start width =
      let whole : rec.offset + length bytes ≡ length bytes = omega (arith, start) in
      let larger : ltb (rec.offset + length bytes) 0 ≡ false = ground arith in
      let stored : to_u32 (rec.offset + length bytes) ≡ length bytes =
        omega (arith, width, start) in
      rw larger
        (ap₂ (λ (n o : ℕ). some (fresh_request d handle rec name fat c bytes n o)) stored whole)
