-- ===== src/Fs/Fat/Write/Truncate.antt =====
-- What `truncate_file` leaves of a chain, and what it frees.
use uchos.Prelude.{
  ℕ, ◌+◌, ◌-◌, ◌<◌, ◌≤◌, ◌≡◌, ◌≢◌, refl, sym, ap, ◌∙◌, false, ◌||◌, some, List, [], ◌∷◌, ◌++◌,
  length, set, get_or, All, leb, ◌==◌, arith, ==_false, length-append, get_or-set_ne,
}
use uchos.Fs.Fat.Clusters.{end_of_cluster_chain, fat32_eoc_min, next_cluster}
use uchos.Fs.Fat.Clusters.Link.{Links, NotIn, Free, last_of}
use uchos.Fs.Fat.Clusters.Chain.{clear, Distinct, free_cluster_chain-clear}
use uchos.Fs.Fat.Clusters.Cut.{
  Leads, Links-Halves, Distinct-append, Leads-clear, last_of-NotIn, Leads-end, length-clear,
  get_or-clear_ne, Distinct-Free, Free-set, All-split, last_of-lt, NotIn-last_of,
}
use uchos.Fs.Fat.Growth.{Volume, clusters_of}
use uchos.Fs.Fat.Write.{walk, cut_after, truncate_file}

walk-last_of :
    (fat : List ℕ) (c : ℕ) (xs : List ℕ)
    → c < fat32_eoc_min
    → Leads fat c xs
    → walk fat (length xs) c ≡ last_of c xs
unfolding walk next_cluster
walk-last_of fat c [] top l = refl
walk-last_of fat c (x ∷ xs) top l =
    let step : next_cluster fat c ≡ x = ground (arith, l.0, l.2) in
    rw (step, ==_false c end_of_cluster_chain (λ e. omega (arith, e, top)))
      (walk-last_of fat x xs l.2 l.3)

-- A chain of distinct clusters inside the table.
pub record IsChain (fat : List ℕ) (c : ℕ) (cs : List ℕ) : Type 0 where
  pub low : 2 ≤ c
  pub high : c < fat32_eoc_min
  pub links : Links fat c cs
  pub distinct : Distinct (c ∷ cs)
  pub within : All (λ e. e < length fat) (c ∷ cs)
  pub short : length cs < length fat

-- What is left of the chain behind `c` when it is cut before `d`.
pub record Shortened (fat fat' : List ℕ) (c : ℕ) (xs : List ℕ) (d : ℕ) (ys : List ℕ) : Type 0 where
  pub kept : Links fat' c xs
  pub freed : Free fat' (d ∷ ys)
  pub others : (e : ℕ) → NotIn e (c ∷ xs ++ d ∷ ys) → get_or fat' e 0 ≡ get_or fat e 0

abbrev shortened : List ℕ → ℕ → List ℕ → ℕ → List ℕ → List ℕ
shortened fat c xs d ys = set (clear fat (d ∷ ys)) (last_of c xs) end_of_cluster_chain

Shortened_lem :
    (fat : List ℕ) (c : ℕ) (xs : List ℕ) (d : ℕ) (ys : List ℕ)
    → IsChain fat c (xs ++ d ∷ ys)
    → Shortened fat (shortened fat c xs d ys) c xs d ys
Shortened_lem fat c xs d ys h =
    let (front, back, apart) = Distinct-append (c ∷ xs) (d ∷ ys) h.distinct in
    let (inside, inside') = All-split (λ e. e < length fat) (c ∷ xs) (d ∷ ys) h.within in
    let halves = Links-Halves fat c xs d ys h.high h.links in
    let last = last_of c xs in
    let end_within : last < length (clear fat (d ∷ ys)) =
      omega (arith, last_of-lt (length fat) c xs inside, length-clear fat (d ∷ ys)) in
    record {
      kept =
          Leads-end (clear fat (d ∷ ys)) c xs front end_within
            (Leads-clear fat c xs (d ∷ ys) apart halves.leads);
      freed =
          Free-set (clear fat (d ∷ ys)) last end_of_cluster_chain (d ∷ ys)
            (NotIn-last_of c xs (d ∷ ys) apart) (Distinct-Free fat (d ∷ ys) inside' back);
      others = λ e n.
          let (n', n'') = All-split (λ x. e ≢ x) (c ∷ xs) (d ∷ ys) n in
          get_or-set_ne (clear fat (d ∷ ys)) last e end_of_cluster_chain 0
            (λ p. last_of-NotIn e c xs n' (sym p))
          ∙ get_or-clear_ne fat e (d ∷ ys) n'';
    }

cut_after_lem :
    (v : Volume) (c : ℕ) (xs : List ℕ) (d : ℕ) (ys : List ℕ)
    → IsChain v.fat c (xs ++ d ∷ ys)
    → cut_after v (last_of c xs) ≡ some (record v { fat = shortened v.fat c xs d ys })
unfolding cut_after next_cluster
cut_after_lem v c xs d ys h =
    let (front, back, apart) = Distinct-append (c ∷ xs) (d ∷ ys) h.distinct in
    let (inside, inside') = All-split (λ e. e < length v.fat) (c ∷ xs) (d ∷ ys) h.within in
    let halves = Links-Halves v.fat c xs d ys h.high h.links in
    let next : next_cluster v.fat (last_of c xs) ≡ d = ground (arith, halves.cut, halves.high) in
    let test : (last_of c xs == end_of_cluster_chain || d == end_of_cluster_chain) ≡ false =
      ground (arith, halves.high, halves.last_proper) in
    let freed =
      free_cluster_chain-clear v.fat d ys halves.low halves.high
        (omega (arith, h.short, length-append xs (d ∷ ys))) inside' back halves.tail in
    rw (next, test) (rw freed refl)

truncate_file-cut :
    (v : Volume) (bytes new_size n : ℕ)
    → clusters_of bytes new_size ≡ n + 1
    → n + 1 < clusters_of bytes v.entry.file_size
    → truncate_file v bytes new_size ≡ cut_after v (walk v.fat n v.entry.first_cluster)
unfolding truncate_file
truncate_file-cut v bytes new_size n e more =
    let keeps : leb (clusters_of bytes v.entry.file_size) (clusters_of bytes new_size) ≡ false =
      ground (arith, e, more) in
    let some_left : (clusters_of bytes new_size == 0) ≡ false = ground (arith, e) in
    let rounds : clusters_of bytes new_size - 1 ≡ n = omega (arith, e) in
    rw (keeps, truncate_file) (rw (some_left, rounds) refl)

-- A file whose chain of distinct clusters inside the table goes on behind the clusters that the new size
-- needs, at least one and fewer than its size needs: truncating it succeeds and leaves its entry as it
-- was; the clusters that the new size needs stay linked and end in an end mark, those behind them are
-- free, and every other entry of the table is as it was.
pub truncate_file_lem :
    (v : Volume) (bytes new_size : ℕ) (xs : List ℕ) (d : ℕ) (ys : List ℕ)
    → IsChain v.fat v.entry.first_cluster (xs ++ d ∷ ys)
    → clusters_of bytes new_size ≡ length xs + 1
    → length xs + 1 < clusters_of bytes v.entry.file_size
    → (fat : List ℕ) × (truncate_file v bytes new_size ≡ some (record v { fat = fat }))
      × Shortened v.fat fat v.entry.first_cluster xs d ys
truncate_file_lem v bytes new_size xs d ys h e more =
    let c = v.entry.first_cluster in
    let halves = Links-Halves v.fat c xs d ys h.high h.links in
    (
      shortened v.fat c xs d ys,
      truncate_file-cut v bytes new_size (length xs) e more
          ∙ ap (cut_after v) (walk-last_of v.fat c xs h.high halves.leads)
          ∙ cut_after_lem v c xs d ys h,
      Shortened_lem v.fat c xs d ys h,
    )
