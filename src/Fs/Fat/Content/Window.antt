-- ===== src/Fs/Fat/Content/Window.antt =====
-- `handle_fs_read`: reads one behind the other.
use uchos.Prelude.{
  ℕ, ◌+◌, ◌-◌, ◌<◌, ◌≤◌, ◌≡◌, ◌≢◌, refl, sym, ap, subst, ◌∙◌, true, false, ◌||◌, Option, none, some,
  List, [], ◌∷◌, ◌++◌, length, take, drop, min, leb, ◌==◌, arith, inr, length-take, length-drop,
  drop_all, take-min, take-nil, take-drop_add, dec_lt,
}
use uchos.Common.{ℤ}
use uchos.Fs.FileInfo.{Caches}
use uchos.Fs.OpenFiles.{OpenFileRecord, open_file_get, write_record}
use uchos.Fs.OpenFiles.References.{get-some, get-write_self}
use uchos.Fs.Fat.Content.{
  FileEntry, Geometry, BlockRead, Reply, error, file_data, Server, load_file, reply_file_data,
  reply_read_window, handle_fs_read,
}
use uchos.Fs.Fat.Content.Loop.{joined}
use uchos.Fs.Fat.Content.Load.{IsOnDisk, Serves, Loaded, file_bytes, load_file-Loaded}

reply_file_data_lem : (bytes : List ℕ) → reply_file_data true bytes ≡ file_data bytes
unfolding reply_file_data
reply_file_data_lem [] = refl
reply_file_data_lem (b ∷ bs) = refl

take-take-min :
    (n k : ℕ) (xs : List ℕ) → take (min n (length xs - k)) (drop k xs) ≡ take n (drop k xs)
take-take-min n k xs =
    let e : min n (length xs - k) ≡ min (length (drop k xs)) n = omega (arith, length-drop k xs) in
    rw e (take-min n (drop k xs))

-- The part of an array that two reads give, the second from where the first one stopped.
two_windows :
    (n m k : ℕ) (xs : List ℕ)
    → take n (drop k xs) ++ take m (drop (k + min n (length xs - k)) xs) ≡ take (n + m) (drop k xs)
two_windows n m k xs =
    let short = min n (length xs - k) in
    let e : min (length (drop k xs)) (short + m) ≡ min (length (drop k xs)) (n + m) =
      omega (arith, length-drop k xs) in
    ap (λ (t : List ℕ). t ++ take m (drop (k + short) xs)) (sym (take-take-min n k xs))
    ∙ take-drop_add short m k xs
    ∙ sym (take-min (short + m) (drop k xs))
    ∙ ap (λ (t : ℕ). take t (drop k xs)) e
    ∙ take-min (n + m) (drop k xs)

further :
    (o n m size : ℕ)
    → (o + min n (size - o)) + min m (size - (o + min n (size - o))) ≡ o + min (n + m) (size - o)
further o n m size = omega arith

abbrev pub total : List ℕ → ℕ
total [] = 0
total (n ∷ ns) = n + total ns

module _ (blk : BlockRead) (g : Geometry) (fat : List ℕ) where
  -- The data of several reads, one behind the other, or nothing if one of them fails.
  pub read_all : Server → ℤ → ℕ → List ℕ → Option (Server × List ℕ)
  read_all s sender handle [] = some (s, [])
  read_all s sender handle (count ∷ counts) =
      elim (handle_fs_read blk g fat true s sender handle count) [
        | none ↦ none
        | some (s', error e) ↦ none
        | some (s', file_data bytes) ↦ elim (read_all s' sender handle counts) [
          | none ↦ none
          | some (s'', rest) ↦ some (s'', bytes ++ rest)
        ]
      ]

  read_all-step :
      (s s' s'' : Server) (sender : ℤ) (handle count : ℕ) (counts bytes rest : List ℕ)
      → handle_fs_read blk g fat true s sender handle count ≡ some (s', file_data bytes)
      → read_all s' sender handle counts ≡ some (s'', rest)
      → read_all s sender handle (count ∷ counts) ≡ some (s'', bytes ++ rest)
  unfolding read_all
  read_all-step s s' s'' sender handle count counts bytes rest e h = rw (e, read_all) (rw h refl)

  pub length-file_bytes :
      (entry : FileEntry) (contents : ℕ → List ℕ) (cs : List ℕ)
      → IsOnDisk blk g fat entry contents cs
      → length (file_bytes blk g fat entry contents cs) ≡ entry.file_size
  length-file_bytes entry contents cs d =
      omega
        (arith, length-take entry.file_size (joined contents (entry.first_cluster ∷ cs)), d.held)

  -- A read of `count` bytes at `offset` that succeeds: the bytes from there on, up to the end.
  record Windowed (entry : FileEntry) (bytes : List ℕ) (count offset : ℕ)
      (r : Option (Caches × ℕ × Reply)) : Type 0 where
    caches : Caches
    result :
        r
        ≡ some (
          caches,
          offset + min count (length bytes - offset),
          file_data (take count (drop offset bytes)),
        )
    serves : Serves blk g fat caches entry bytes

  window_past :
      (entry : FileEntry) (bytes : List ℕ) (s : Caches) (sender : ℤ) (count offset : ℕ)
      → length bytes ≡ entry.file_size
      → Serves blk g fat s entry bytes
      → length bytes ≤ offset
      → Windowed entry bytes count offset
          (reply_read_window blk g fat true s entry sender count offset)
  unfolding reply_read_window reply_file_data
  window_past entry bytes s sender count offset size h past =
      let test : (entry.file_size == 0 || entry.first_cluster == 0 || leb entry.file_size offset)
          ≡ true =
        ground (arith, size, past) in
      let still : offset + min count (length bytes - offset) ≡ offset = omega (arith, past) in
      let rest : take count (drop offset bytes) ≡ [] =
        rw (drop_all offset bytes past) (take-nil ℕ count) in
      record { caches = s; result = rw (test, still, rest) refl; serves = h }

  window_within :
      (entry : FileEntry) (bytes : List ℕ) (s : Caches) (sender : ℤ) (count offset : ℕ)
      → length bytes ≡ entry.file_size
      → entry.first_cluster ≢ 0
      → Loaded blk g fat entry bytes (load_file blk g fat s entry sender)
      → offset < length bytes
      → Windowed entry bytes count offset
          (reply_read_window blk g fat true s entry sender count offset)
  unfolding reply_read_window
  window_within entry bytes s sender count offset size used l within =
      let test : (entry.file_size == 0 || entry.first_cluster == 0 || leb entry.file_size offset)
          ≡ false =
        ground (arith, size, within, used) in
      let slice : reply_file_data true
            (take (min count (entry.file_size - offset)) (drop offset l.cache.buffer))
          ≡ file_data (take count (drop offset bytes)) =
        rw (l.buffer, ← size, take-take-min count offset bytes)
          (reply_file_data_lem (take count (drop offset bytes))) in
      record {
        caches = l.caches;
        result = rw (test, reply_read_window) (rw l.result (rw (slice, size) refl));
        serves = record { cached = inr (l.cache, l.found, l.buffer, l.total_size) };
      }

  module _ (entry : FileEntry) (contents : ℕ → List ℕ) (cs : List ℕ)
      (disk : IsOnDisk blk g fat entry contents cs) (used : entry.first_cluster ≢ 0) where
    abbrev bytes : List ℕ
    bytes = file_bytes blk g fat entry contents cs

    window_lem :
        (s : Caches) (sender : ℤ) (count offset : ℕ)
        → Serves blk g fat s entry bytes
        → Windowed entry bytes count offset
            (reply_read_window blk g fat true s entry sender count offset)
    window_lem s sender count offset h =
        let size = length-file_bytes entry contents cs disk in
        elim (dec_lt offset (length bytes)) [
          | yes within ↦
              window_within entry bytes s sender count offset size used
                (load_file-Loaded blk g fat s entry sender contents cs disk h) within
          | no past ↦ window_past entry bytes s sender count offset size h (omega (arith, past))
        ]

    -- Where a handle stands in a file that the server can read.
    pub record StandsAt (s : Server) (handle : ℕ) (rec : OpenFileRecord) : Type 0 where
      pub opened : open_file_get s.open_files handle ≡ some rec
      pub names : s.entries rec.entry ≡ entry
      pub serves : Serves blk g fat s.caches entry bytes

    abbrev pub advanced : OpenFileRecord → ℕ → OpenFileRecord
    advanced rec count = record rec { offset = rec.offset + min count (length bytes - rec.offset) }

    handle_fs_read_lem :
        (s : Server) (sender : ℤ) (handle count : ℕ) (rec : OpenFileRecord)
        → StandsAt s handle rec
        → (s' : Server) × (handle_fs_read blk g fat true s sender handle count
            ≡ some (s', file_data (take count (drop rec.offset bytes))))
          × StandsAt s' handle (advanced rec count)
    unfolding handle_fs_read
    handle_fs_read_lem s sender handle count rec h =
        let w = window_lem s.caches sender count rec.offset h.serves in
        (
          record s {
            caches = w.caches;
            open_files = write_record s.open_files handle (advanced rec count);
          },
          rw (h.opened, handle_fs_read) (rw h.names (rw w.result refl)),
          record {
            opened =
                get-write_self s.open_files handle rec (advanced rec count) h.opened
                  (get-some s.open_files handle rec h.opened).2;
            names = h.names;
            serves = w.serves;
          },
        )

    -- Reading an open file on a disk whose device gives its clusters, with memory for the replies, and with
    -- the bytes of the file in the cache, or with neither the file nor the next id in it:
    -- however many reads of whatever counts succeed one behind the other, and together give exactly the
    -- bytes of the file from the offset of the handle on, as many as the counts sum up to or up to the
    -- end of the file; the offset moves on by as many, so that at the end the reads give no data.
    pub read_all_lem :
        (s : Server) (sender : ℤ) (handle : ℕ) (counts : List ℕ) (rec : OpenFileRecord)
        → StandsAt s handle rec
        → (s' : Server) × (read_all s sender handle counts
            ≡ some (s', take (total counts) (drop rec.offset bytes)))
          × StandsAt s' handle (advanced rec (total counts))
    unfolding read_all
    read_all_lem s sender handle [] rec h = (
      s,
      refl,
      subst (λ (o : ℕ). StandsAt s handle (record rec { offset = o }))
          (let e : rec.offset ≡ rec.offset + min 0 (length bytes - rec.offset) = omega arith in e)
          h,
    )
    read_all_lem s sender handle (count ∷ counts) rec h =
        let (s', e, h') = handle_fs_read_lem s sender handle count rec h in
        let (s'', e', h'') = read_all_lem s' sender handle counts (advanced rec count) h' in
        (
          s'',
          read_all-step s s' s'' sender handle count counts (take count (drop rec.offset bytes))
                (take (total counts) (drop (advanced rec count).offset bytes)) e e'
              ∙ ap (λ (t : List ℕ). some (s'', t))
                  (two_windows count (total counts) rec.offset bytes),
          subst (λ (o : ℕ). StandsAt s'' handle (record rec { offset = o }))
              (further rec.offset count (total counts) (length bytes)) h'',
        )
