-- ===== src/Fs/Fat/Write/Fresh.antt =====
-- The first write to an empty file, and what is read back.
use uchos.Prelude.{
  ℕ, ◌+◌, ◌^◌, ◌<◌, ◌≤◌, ◌≡◌, refl, ap, ◌∙◌, subst, true, false, some, List, [], ◌∷◌, length, take,
  if◌then◌else◌, take_self, Bool-cases, inr, ◌&&◌, ◌==◌, arith, ==_refl, inl, length-append,
  length-take,
}
use uchos.Common.{ℤ, ok}
use uchos.Fs.FileInfo.{Caches, remove_file_cache_by_path}
use uchos.Fs.FileInfo.{generate_fs_id}
use uchos.Fs.FileInfo.Ids.{NoId, NoId-remove_path}
use uchos.Fs.FileInfo.Invariant.{UniquePaths, find_path-remove_path}
use uchos.Fs.OpenFiles.{OpenFileRecord, open_file_get}
use uchos.Fs.Fat.Clusters.{fat32_eoc_min}
use uchos.Fs.Fat.Clusters.Extend.{free_clusters}
use uchos.Fs.Fat.Clusters.Allocate.{IsTable, first-Between}
use uchos.Fs.Fat.Clusters.Link.{Links}
use uchos.Fs.Fat.Growth.{Volume, grow_file_if_needed}
use uchos.Fs.Fat.Growth.Empty.{empty_file, grow_file_if_needed-empty}
use uchos.Fs.Fat.Content.{
  calc_start_sector, FileEntry, Geometry, BlockRead, entry_cache_key, load_file,
}
use uchos.Fs.Fat.Content.Loop.{joined, Readable}
use uchos.Fs.Fat.Content.Load.{IsOnDisk, Loaded, file_bytes, load_file-Loaded}
use uchos.Fs.Fat.Write.{
  BlockWrite, Block, Written, staged, cluster_block, write_file_cluster, finish_write, write_grown,
  write_entry_bytes, handle_fs_write, Disk, Request, wrote,
}
use uchos.Fs.Fat.Write.Start.{
  one_cluster, no_cluster, write_file_cluster-start, staged_bytes, fresh_request,
  finish_write-fresh, length-staged,
}

-- A device that has taken a block: the number of bytes that was written is there where the block went,
-- all else is as before.
abbrev pub after_write : BlockRead → Block → BlockRead
after_write device b sector len =
    if sector == b.sector && len == b.len then some (take len b.buffer) else device sector len

module _ (blk : BlockWrite) (g : Geometry) where
  -- What the request needs: an open handle at the start of an empty file, two free clusters, and a
  -- payload of at least one byte and at most a cluster.
  pub record Fresh (d : Disk) (total handle : ℕ) (rec : OpenFileRecord) (name payload : List ℕ)
      (len c x : ℕ) (fs : List ℕ) : Type 0 where
    pub opened : open_file_get d.server.open_files handle ≡ some rec
    pub start : rec.offset ≡ 0
    pub empty :
        d.server.entries rec.entry ≡ record { name = name; first_cluster = 0; file_size = 0 }
    pub table : IsTable d.fat total
    pub free : free_clusters d.fat total ≡ c ∷ x ∷ fs
    pub given : 0 < length (take len payload)
    pub fits : length (take len payload) ≤ g.bytes_per_cluster
    pub width : g.bytes_per_cluster < 2 ^ 32
    pub unique : UniquePaths d.server.caches.file_caches
    pub new : NoId (generate_fs_id d.server.caches.next_fs_id) d.server.caches.file_caches
    pub written : blk (cluster_block g c 0 (take len payload) (length (take len payload))) ≡ ok

  module _ (d : Disk) (total handle : ℕ) (rec : OpenFileRecord) (name payload : List ℕ)
      (len c x : ℕ) (fs : List ℕ) (h : Fresh d total handle rec name payload len c x fs) where
    abbrev bytes : List ℕ
    bytes = take len payload

    c_proper : c < fat32_eoc_min
    c_proper =
        let b = first-Between d.fat total 1 c (x ∷ fs) h.table h.free in
        omega (arith, b, h.table.numbered)

    grown :
        (fat' : List ℕ) × (grow_file_if_needed
            (empty_file d.fat)
            total
            g.bytes_per_cluster
            (length bytes)
          ≡ some (record { fat = fat'; entry = record { first_cluster = c; file_size = 0 } }, ok))
        × Links fat' c (x ∷ [])
    grown =
        let sized : 0 < g.bytes_per_cluster = omega (arith, h.given, h.fits) in
        let one = one_cluster g.bytes_per_cluster (length bytes) h.given h.fits in
        let r =
          grow_file_if_needed-empty d.fat total c (x ∷ fs) h.table h.free g.bytes_per_cluster
            (length bytes) (no_cluster g.bytes_per_cluster sized) (omega (arith, one))
            (omega (arith, one)) in
        (r.0, r.1, subst (λ (n : ℕ). Links r.0 c (take n (x ∷ fs))) one r.2)

    abbrev grown_volume : Volume
    grown_volume = record { fat = grown.0; entry = record { first_cluster = c; file_size = 0 } }

    abbrev empty_entry : FileEntry
    empty_entry = record { name = name; first_cluster = 0; file_size = 0 }

    abbrev cluster_written : Written
    cluster_written = record {
      caches = remove_file_cache_by_path d.server.caches (entry_cache_key name);
      block = some (cluster_block g c 0 bytes (length bytes));
      write_len = length bytes;
      err = ok;
    }

    served :
        handle_fs_write blk g total true d handle payload len
        ≡ write_entry_bytes blk g total true d handle rec (d.server.entries rec.entry) bytes
    unfolding handle_fs_write
    served =
        let test : (length payload == 0) ≡ false =
          ground (arith, h.given, length-take len payload) in
        rw (test, handle_fs_write) (rw h.opened refl)

    entry_grown :
        write_entry_bytes blk g total true d handle rec empty_entry bytes
        ≡ write_grown blk g true d handle rec empty_entry bytes (grown_volume, ok)
    unfolding write_entry_bytes
    entry_grown =
        let whole : rec.offset + length bytes ≡ length bytes = omega (arith, h.start) in
        rw (whole, write_entry_bytes) (rw grown.1 refl)

    cluster_lem :
        write_file_cluster blk g grown.0 true d.server.caches
          (record { name = name; first_cluster = c; file_size = 0 })
          rec.offset
          bytes
        ≡ cluster_written
    cluster_lem =
        ap
          (λ (o : ℕ).
            write_file_cluster blk g grown.0 true d.server.caches
              (record { name = name; first_cluster = c; file_size = 0 }) o bytes)
          h.start
        ∙ write_file_cluster-start blk g grown.0 d.server.caches name c bytes
            (omega (arith, h.given, h.fits)) h.fits (λ e. omega (arith, e, c_proper))
        ∙ ap (λ (e : ℤ). record cluster_written { err = e }) h.written

    abbrev request : Request
    request = fresh_request blk g d handle rec name grown.0 c bytes (length bytes) (length bytes)

    handle_fs_write-request : handle_fs_write blk g total true d handle payload len ≡ some request
    unfolding write_grown
    handle_fs_write-request =
        served
        ∙ ap (λ (e : FileEntry). write_entry_bytes blk g total true d handle rec e bytes) h.empty
        ∙ entry_grown
        ∙ ap (finish_write g d grown_volume handle rec empty_entry (rec.offset + length bytes))
            cluster_lem
        ∙ finish_write-fresh blk g d handle rec name grown.0 c bytes h.start
            (omega (arith, h.fits, h.width))

  module _ (device : BlockRead) (contents : ℕ → List ℕ) (fat : List ℕ) (s : Caches)
      (name bytes : List ℕ) (c x : ℕ) where
    abbrev new_entry : FileEntry
    new_entry = record { name = name; first_cluster = c; file_size = length bytes }

    bytes_back :
        contents c ≡ staged g 0 bytes (length bytes)
        → file_bytes device g fat new_entry contents (x ∷ []) ≡ bytes
    bytes_back back = rw back (staged_bytes blk g bytes (joined contents (x ∷ [])))

    -- What a load gives once the device gives the block back.
    Loaded-back :
        (requester : ℤ)
        → 0 < length bytes
        → length bytes ≤ g.bytes_per_cluster
        → c < fat32_eoc_min
        → Links fat c (x ∷ [])
        → Readable device g contents (c ∷ x ∷ [])
        → contents c ≡ staged g 0 bytes (length bytes)
        → UniquePaths s.file_caches
        → NoId (generate_fs_id s.next_fs_id) s.file_caches
        → Loaded device g fat new_entry bytes (
            load_file device g fat
              (remove_file_cache_by_path s (entry_cache_key name))
              new_entry
              requester)
    unfolding remove_file_cache_by_path
    Loaded-back requester given fits proper links readable back unique new =
        let e = bytes_back back in
        let kept = remove_file_cache_by_path s (entry_cache_key name) in
        let disk : IsOnDisk device g fat new_entry contents (x ∷ []) = record {
          sized = omega (arith, given, fits);
          proper = proper;
          links = links;
          readable = readable;
          held =
              omega
                (arith, fits, readable.0.1, length-append (contents c) (joined contents (x ∷ [])));
        } in
        subst
          (λ (b : List ℕ).
            Loaded device g fat new_entry b (load_file device g fat kept new_entry requester))
          e
          (load_file-Loaded device g fat kept new_entry requester contents (x ∷ []) disk (record {
            cached = inl (
              find_path-remove_path s.file_caches (entry_cache_key name) unique,
              NoId-remove_path s.file_caches (entry_cache_key name) _ new,
            );
          }))

  -- What the clusters hold after the write, by their sectors.
  abbrev contents_after : List ℕ → ℕ → List ℕ → ℕ → List ℕ
  contents_after bytes c other k =
      if calc_start_sector g k == calc_start_sector g c
      then staged g 0 bytes (length bytes)
      else other

  after_write-Readable :
      (device : BlockRead) (bytes other : List ℕ) (c x : ℕ)
      → length bytes ≤ g.bytes_per_cluster
      → device (calc_start_sector g x) g.bytes_per_cluster ≡ some other
      → length other ≡ g.bytes_per_cluster
      → Readable
          (after_write device (cluster_block g c 0 bytes (length bytes)))
          g
          (contents_after bytes c other)
          (c ∷ x ∷ [])
  after_write-Readable device bytes other c x fits read size =
      let long = length-staged blk g bytes fits in
      let whole =
        take_self g.bytes_per_cluster (staged g 0 bytes (length bytes)) (omega (arith, long)) in
      let b_self = ==_refl g.bytes_per_cluster in
      (
        rw (==_refl (calc_start_sector g c), b_self) (ap some whole, long),
        (
          elim (Bool-cases (calc_start_sector g x == calc_start_sector g c)) [
            | inl same ↦ rw (same, b_self) (ap some whole, long)
            | inr apart ↦ rw apart (read, size)
          ],
          tt,
        ),
      )

  -- A client that writes at most a cluster at the start of an empty file, in a cache with no path twice and no entry with the next id,
  -- with memory for the cluster, two free clusters, a device that takes the block and one that gives the
  -- second of these clusters: the request succeeds, reports all bytes as written and writes one block; and
  -- from the device with this block at the sector to which it went, loading the file gives exactly the
  -- bytes that were written.
  pub load_file-handle_fs_write :
      (d : Disk) (total handle : ℕ) (rec : OpenFileRecord) (name payload : List ℕ) (len c x : ℕ)
      (fs : List ℕ) (h : Fresh d total handle rec name payload len c x fs) (device : BlockRead)
      (other : List ℕ) (requester : ℤ)
      → device (calc_start_sector g x) g.bytes_per_cluster ≡ some other
      → length other ≡ g.bytes_per_cluster
      → (r : Request) × (b : Block) × (handle_fs_write blk g total true d handle payload len
          ≡ some r)
        × (r.reply ≡ wrote (length (take len payload)))
        × (r.block ≡ some b)
        × Loaded
            (after_write device b)
            g
            r.disk.fat
            (r.disk.server.entries rec.entry)
            (take len payload)
            (load_file
              (after_write device b)
              g
              r.disk.fat
              r.disk.server.caches
              (r.disk.server.entries rec.entry)
              requester)
  load_file-handle_fs_write d total handle rec name payload len c x fs h device other requester read
        size =
      let r = request d total handle rec name payload len c x fs h in
      let bytes = take len payload in
      let b = cluster_block g c 0 bytes (length bytes) in
      let contents = contents_after bytes c other in
      let back : contents c ≡ staged g 0 bytes (length bytes) =
        rw (==_refl (calc_start_sector g c)) refl in
      (
        r,
        b,
        handle_fs_write-request d total handle rec name payload len c x fs h,
        refl,
        refl,
        rw (==_refl rec.entry) (
            Loaded-back (after_write device b) contents r.disk.fat d.server.caches name
              (take len payload) c x requester h.given h.fits
              (c_proper d total handle rec name payload len c x fs h)
              (grown d total handle rec name payload len c x fs h).2
              (after_write-Readable device bytes other c x h.fits read size) back h.unique h.new),
      )
