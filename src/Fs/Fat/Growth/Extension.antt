-- ===== src/Fs/Fat/Growth/Extension.antt =====
-- A file grows by exactly the clusters that it needs.
use uchos.Prelude.{
  ℕ, zero, suc, ◌-◌, ◌<◌, ◌≤◌, ◌≡◌, ◌≢◌, refl, ◌∙◌, false, some, List, [], ◌∷◌, ◌++◌, length, take,
  ltb, leb, ==_false, arith, ◌^◌,
}
use uchos.Common.{ok}
use uchos.Fs.Fat.Clusters.{
  end_of_cluster_chain, next_cluster, count_free_clusters, extend_cluster_chain,
}
use uchos.Fs.Fat.Clusters.Link.{Links, last_of}
use uchos.Fs.Fat.Clusters.Extend.{Extendable, free_clusters}
use uchos.Fs.Fat.Clusters.Chain.{
  extend_cluster_chain-Links, extend_cluster_chain-count, count_free_clusters-le, to_int_small,
}
use uchos.Fs.Fat.Growth.{
  Volume, clusters_of, walk_to_end, give_first, add_clusters, grow_given, grow_file_if_needed,
}

-- The walk finds the last cluster of a chain.
walk_to_end-last_of :
    (fuel : ℕ) (fat : List ℕ) (c : ℕ) (cs : List ℕ)
    → length cs < fuel
    → Links fat c cs
    → walk_to_end fuel fat c ≡ some (last_of c cs)
unfolding walk_to_end next_cluster
walk_to_end-last_of zero fat c cs h l = absurd (omega (arith, h))
walk_to_end-last_of (suc fuel) fat c [] h l = ground (arith, l)
walk_to_end-last_of (suc fuel) fat c (d ∷ ds) h l =
    let ih = walk_to_end-last_of fuel fat d ds (omega (arith, h)) l.3 in
    let step : next_cluster fat c ≡ d = ground (arith, l.0, l.2) in
    rw step (rw (==_false d end_of_cluster_chain (λ e. omega (arith, e, l.2))) ih)

add_clusters-enough :
    (v : Volume) (total num last : ℕ)
    → num < 2 ^ 31
    → num ≤ count_free_clusters v.fat total
    → walk_to_end (length v.fat) v.fat v.entry.first_cluster ≡ some last
    → (extend_cluster_chain v.fat total last num).1 ≢ 0
    → add_clusters v total num
      ≡ some (record v { fat = (extend_cluster_chain v.fat total last num).0 }, ok)
unfolding add_clusters
add_clusters-enough v total num last small enough found done =
    let room : ltb (count_free_clusters v.fat total) num ≡ false = ground (arith, enough) in
    rw (room, add_clusters)
      (rw
        (
          found,
          to_int_small num small,
          ==_false (extend_cluster_chain v.fat total last num).1 0 done,
        )
        refl)

grow_given-add :
    (v : Volume) (total bytes size : ℕ)
    → v.entry.first_cluster ≢ 0
    → clusters_of bytes v.entry.file_size < clusters_of bytes size
    → grow_file_if_needed v total bytes size
      ≡ add_clusters v total (clusters_of bytes size - clusters_of bytes v.entry.file_size)
unfolding grow_file_if_needed give_first grow_given
grow_given-add v total bytes size ne more =
    let short : leb (clusters_of bytes size) (clusters_of bytes v.entry.file_size) ≡ false =
      ground (arith, more) in
    let given : give_first v total ≡ some (v, ok) =
      rw (==_false v.entry.first_cluster 0 ne, give_first) refl in
    rw (given, grow_file_if_needed) (rw (short, grow_given) refl)

-- A file with a chain, on a table that holds its numbered clusters, whose new size needs more clusters
-- than its size, no more of them than are free: growing it succeeds, leaves its entry as it was, and
-- appends exactly the clusters that it needs more to its chain.
pub grow_file_if_needed_lem :
    (v : Volume) (total bytes size : ℕ) (cs : List ℕ)
    → v.entry.first_cluster ≢ 0
    → Links v.fat v.entry.first_cluster cs
    → length cs < length v.fat
    → Extendable v.fat total (last_of v.entry.first_cluster cs)
    → clusters_of bytes v.entry.file_size < clusters_of bytes size
    → clusters_of bytes size - clusters_of bytes v.entry.file_size ≤ count_free_clusters v.fat total
    → (fat : List ℕ) × (grow_file_if_needed v total bytes size ≡ some (record v { fat = fat }, ok))
      × Links fat v.entry.first_cluster (
          cs
          ++ take
              (clusters_of bytes size - clusters_of bytes v.entry.file_size)
              (free_clusters v.fat total))
grow_file_if_needed_lem v total bytes size cs ne l short e more enough =
    let num = clusters_of bytes size - clusters_of bytes v.entry.file_size in
    let last = last_of v.entry.first_cluster cs in
    let counted = extend_cluster_chain-count v.fat total last num e in
    (
      (extend_cluster_chain v.fat total last num).0,
      grow_given-add v total bytes size ne more
          ∙ add_clusters-enough v total num last
              (omega (arith, enough, e.numbered, count_free_clusters-le v.fat total)) enough
              (walk_to_end-last_of (length v.fat) v.fat v.entry.first_cluster cs short l)
              (λ full. omega (arith, enough, counted.1.0 full)),
      extend_cluster_chain-Links v.fat total v.entry.first_cluster cs num e l,
    )
