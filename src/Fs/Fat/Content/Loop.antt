-- ===== src/Fs/Fat/Content/Loop.antt =====
-- The loop of `load_file`: what it reads, and that it ends.
use uchos.Prelude.{
  lt→ltb, dec_lt, get_or, ◌⊎◌, ℕ, zero, suc, ◌+◌, ◌-◌, ◌<◌, ◌≤◌, ◌≡◌, refl, sym, ap, ◌∙◌, true,
  false, ◌||◌, none, some, List, [], ◌∷◌, ◌++◌, length, take, drop, copy, min, All, leb, ◌==◌,
  arith, append_assoc, Bool-cases, inl, inr, length-append, length-take, length-drop, take-append,
  take-min, copy-append, drop_all, take-nil, Option-cases,
}
use uchos.Fs.Fat.Clusters.{end_of_cluster_chain, next_cluster, fat32_eoc_min}
use uchos.Fs.Fat.Clusters.Link.{Links}
use uchos.Fs.Fat.Content.{Geometry, calc_start_sector, BlockRead, filled, failed, load_loop}

-- The contents of a list of clusters, one behind the other.
abbrev pub joined : (ℕ → List ℕ) → List ℕ → List ℕ
joined contents [] = []
joined contents (c ∷ cs) = contents c ++ joined contents cs

next_cluster-end :
    (fat : List ℕ) (c : ℕ) → Links fat c [] → next_cluster fat c ≡ end_of_cluster_chain
unfolding next_cluster
next_cluster-end fat c l = ground (arith, l)

next_cluster-Links :
    (fat : List ℕ) (c d : ℕ) (ds : List ℕ) → Links fat c (d ∷ ds) → next_cluster fat c ≡ d
unfolding next_cluster
next_cluster-Links fat c d ds l = ground (arith, l.0, l.2)

get_or_beyond : (xs : List ℕ) (i : ℕ) → length xs ≤ i → get_or xs i 0 ≡ 0
get_or_beyond [] i h = refl
get_or_beyond (x ∷ xs) zero h = absurd (omega (arith, h))
get_or_beyond (x ∷ xs) (suc i) h = get_or_beyond xs i (omega (arith, h))

-- A cluster with a link is inside the table.
pub Links-lt : (fat : List ℕ) (c : ℕ) (cs : List ℕ) → Links fat c cs → c < length fat
Links-lt fat c [] l = elim (dec_lt c (length fat)) [
  | yes lt ↦ lt
  | no ge ↦ absurd (omega (arith, l, get_or_beyond fat c (omega (arith, ge))))
]
Links-lt fat c (d ∷ ds) l = elim (dec_lt c (length fat)) [
  | yes lt ↦ lt
  | no ge ↦ absurd (omega (arith, l.0, l.1, get_or_beyond fat c (omega (arith, ge))))
]

module _ (blk : BlockRead) (g : Geometry) where
  -- The device gives the contents of these clusters, each in full.
  abbrev pub Readable : (ℕ → List ℕ) → List ℕ → Type 0
  Readable contents cs =
      All
        (λ c.
          (blk (calc_start_sector g c) g.bytes_per_cluster ≡ some (contents c))
          × (length (contents c) ≡ g.bytes_per_cluster))
        cs

  module _ (fat : List ℕ) where
    load_loop-end :
        (size fuel offset cluster : ℕ) (buffer : List ℕ)
        → ((cluster == end_of_cluster_chain) || leb size offset) ≡ true
        → load_loop blk g fat size (suc fuel) offset cluster buffer ≡ filled buffer
    unfolding load_loop
    load_loop-end size fuel offset cluster buffer h = rw (h, load_loop) refl

    load_loop-step :
        (size fuel offset cluster : ℕ) (buffer buf : List ℕ)
        → ((cluster == end_of_cluster_chain) || leb size offset) ≡ false
        → blk (calc_start_sector g cluster) g.bytes_per_cluster ≡ some buf
        → g.bytes_per_cluster ≤ length buf
        → cluster < length fat
        → load_loop blk g fat size (suc fuel) offset cluster buffer
          ≡ load_loop blk g fat size fuel
              (offset + min g.bytes_per_cluster (size - offset))
              (next_cluster fat cluster)
              (copy buffer offset (take (min g.bytes_per_cluster (size - offset)) buf))
    unfolding load_loop
    load_loop-step size fuel offset cluster buffer buf more read long inside =
        let whole : leb (min g.bytes_per_cluster (size - offset)) (length buf) ≡ true =
          ground (arith, long) in
        rw (more, load_loop) (rw read (rw (whole, lt→ltb cluster (length fat) inside) refl))

    load_loop-failed :
        (size fuel offset cluster : ℕ) (buffer : List ℕ)
        → ((cluster == end_of_cluster_chain) || leb size offset) ≡ false
        → blk (calc_start_sector g cluster) g.bytes_per_cluster ≡ none
        → load_loop blk g fat size (suc fuel) offset cluster buffer ≡ failed
    unfolding load_loop
    load_loop-failed size fuel offset cluster buffer more read = rw (more, load_loop) (rw read refl)

    -- No link leads outside the table, and the device gives as many bytes as it is asked for.
    pub record Safe : Type 0 where
      pub linked :
          (c : ℕ)
          → c < length fat
          → (next_cluster fat c ≡ end_of_cluster_chain) ⊎ next_cluster fat c < length fat
      pub filling : (sector len : ℕ) (buf : List ℕ) → blk sector len ≡ some buf → len ≤ length buf

    -- The loop ends, with the file or a failure, and stays inside the table and the buffers.
    pub load_loop_ends :
        (size fuel offset cluster : ℕ) (buffer : List ℕ)
        → 0 < g.bytes_per_cluster
        → Safe
        → (cluster ≡ end_of_cluster_chain) ⊎ cluster < length fat
        → size - offset < fuel
        → (load_loop blk g fat size fuel offset cluster buffer ≡ failed)
          ⊎ ((bytes : List ℕ) × (load_loop blk g fat size fuel offset cluster buffer
                ≡ filled bytes))
    load_loop_ends size zero offset cluster buffer pos safe at h = absurd (omega (arith, h))
    load_loop_ends size (suc fuel) offset cluster buffer pos safe at h =
        elim (Bool-cases ((cluster == end_of_cluster_chain) || leb size offset)) [
          | inl done ↦ inr (buffer, load_loop-end size fuel offset cluster buffer done)
          | inr more ↦ elim (Option-cases (blk (calc_start_sector g cluster) g.bytes_per_cluster)) [
            | inl broken ↦ inl (load_loop-failed size fuel offset cluster buffer more broken)
            | inr (buf, read) ↦
                let left : offset < size = ground (arith, more) in
                let inside : cluster < length fat = elim at [
                  | inl e ↦ absurd (ground (arith, more, e))
                  | inr lt ↦ lt
                ] in
                rw
                  (load_loop-step size fuel offset cluster buffer buf more read
                    (safe.filling _ _ buf read) inside)
                  (load_loop_ends size fuel _ _ _ pos safe (safe.linked cluster inside)
                    (omega (arith, h, left, pos)))
          ]
        ]

    module _ (pre ys bytes : List ℕ) (full : length bytes ≡ g.bytes_per_cluster) where
      -- What has been read after a round, and what is left.
      abbrev after : List ℕ
      after = pre ++ take (length ys) bytes

      abbrev left : List ℕ
      left = drop (min g.bytes_per_cluster (length ys)) ys

      length-after : length after ≡ length pre + min g.bytes_per_cluster (length ys)
      length-after =
          omega
            (arith, length-append pre (take (length ys) bytes), length-take (length ys) bytes, full)

      length-left : length left ≡ length ys - g.bytes_per_cluster
      length-left = omega (arith, length-drop (min g.bytes_per_cluster (length ys)) ys)

      copied :
          copy (pre ++ ys) (length pre) (take (min g.bytes_per_cluster (length ys)) bytes)
          ≡ after ++ left
      copied =
          let cut : take (min g.bytes_per_cluster (length ys)) bytes ≡ take (length ys) bytes =
            rw (← full) (take-min (length ys) bytes) in
          let size : length (take (length ys) bytes) ≡ min g.bytes_per_cluster (length ys) =
            omega (arith, length-take (length ys) bytes, full) in
          rw cut (rw (← size) (copy-append pre ys (take (length ys) bytes)))

      round_lem :
          (c fuel : ℕ)
          → 0 < length ys
          → c < length fat
          → c < fat32_eoc_min
          → blk (calc_start_sector g c) g.bytes_per_cluster ≡ some bytes
          → load_loop blk g fat (length pre + length ys) (suc fuel) (length pre) c (pre ++ ys)
            ≡ load_loop blk g fat
                (length after + length left)
                fuel
                (length after)
                (next_cluster fat c)
                (after ++ left)
      round_lem c fuel some_left inside proper read =
          let more : ((c == end_of_cluster_chain) || leb (length pre + length ys) (length pre))
              ≡ false =
            ground (arith, proper, some_left) in
          let rest : length pre + length ys - length pre ≡ length ys = omega arith in
          let size : length pre + length ys ≡ length after + length left =
            omega (arith, length-after, length-left) in
          load_loop-step (length pre + length ys) fuel (length pre) c (pre ++ ys) bytes more read
            (omega (arith, full)) inside
          ∙ rw (rest, copied, size) (rw (← length-after) refl)

      joined_bytes :
          (rest : List ℕ)
          → after ++ take (length left) rest ≡ pre ++ take (length ys) (bytes ++ rest)
      joined_bytes rest =
          let e : length ys - length bytes ≡ length left = omega (arith, length-left, full) in
          rw (take-append (length ys) bytes rest, e)
            (append_assoc pre (take (length ys) bytes) (take (length left) rest))

    -- With `pre` read already, the loop reads what the clusters of the chain hold, up to the size.
    pub load_loop-joined :
        (contents : ℕ → List ℕ) (c : ℕ) (cs : List ℕ) (fuel : ℕ) (pre zs : List ℕ)
        → 0 < g.bytes_per_cluster
        → length zs < fuel
        → c < fat32_eoc_min
        → Links fat c cs
        → Readable contents (c ∷ cs)
        → length zs ≤ length (joined contents (c ∷ cs))
        → load_loop blk g fat (length pre + length zs) fuel (length pre) c (pre ++ zs)
          ≡ filled (pre ++ take (length zs) (joined contents (c ∷ cs)))
    load_loop-joined contents c cs zero pre zs pos h proper l r room = absurd (omega (arith, h))
    load_loop-joined contents c cs (suc fuel) pre [] pos h proper l r room =
        let done : ((c == end_of_cluster_chain) || leb (length pre + 0) (length pre)) ≡ true =
          ground (arith, proper) in
        load_loop-end (length pre + 0) fuel (length pre) c (pre ++ []) done
    load_loop-joined contents c [] (suc zero) pre (z ∷ zs) pos h proper l r room =
        absurd (omega (arith, h))
    load_loop-joined contents c [] (suc (suc fuel)) pre (z ∷ zs) pos h proper l r room =
        let ys = z ∷ zs in
        let bytes = contents c in
        let full = r.0.1 in
        let next : next_cluster fat c ≡ end_of_cluster_chain = next_cluster-end fat c l in
        let none_left : left pre ys bytes full ≡ [] =
          drop_all (min g.bytes_per_cluster (length ys)) ys
            (omega (arith, room, full, length-append bytes [])) in
        round_lem pre ys bytes full c (suc fuel) (omega arith) (Links-lt fat c [] l) proper r.0.0
        ∙ load_loop-end _ fuel _ _ _ (rw next refl)
        ∙ ap filled (
            ap (λ t. after pre ys bytes full ++ t)
              (none_left ∙ sym (take-nil ℕ (length (left pre ys bytes full))))
            ∙ joined_bytes pre ys bytes full [])
    load_loop-joined contents c (d ∷ ds) (suc fuel) pre (z ∷ zs) pos h proper l r room =
        let ys = z ∷ zs in
        let bytes = contents c in
        let full = r.0.1 in
        let next : next_cluster fat c ≡ d = next_cluster-Links fat c d ds l in
        round_lem pre ys bytes full c fuel (omega arith) (Links-lt fat c (d ∷ ds) l) proper r.0.0
        ∙ rw next (
            load_loop-joined contents d ds fuel (after pre ys bytes full) (left pre ys bytes full)
              pos (omega (arith, length-left pre ys bytes full, pos, h)) l.2 l.3 r.1
              (omega (
                arith,
                length-left pre ys bytes full,
                room,
                full,
                length-append bytes (joined contents (d ∷ ds)),
              )))
        ∙ ap filled (joined_bytes pre ys bytes full (joined contents (d ∷ ds)))
