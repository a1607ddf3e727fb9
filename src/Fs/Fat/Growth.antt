-- ===== src/Fs/Fat/Growth.antt =====
-- `grow_file_if_needed` of kernel/fs/fat/file.cpp over the table. The write of the table to the disk
-- is not modelled. A walk along a chain visits no more clusters than the table has entries; `none` is
-- a walk that does not end, or an access outside the table.
pub mod Extension
pub mod Empty
use uchos.Prelude.{
  ℕ, zero, suc, ◌+◌, ◌-◌, ◌/◌, Option, none, some, List, length, ltb, leb, ◌==◌, if◌then◌else◌,
}
use uchos.Common.{ℤ, ◌==ℤ◌, ok, err_no_memory}
use uchos.Fs.Fat.Clusters.{
  end_of_cluster_chain, next_cluster, allocate_cluster_chain, count_free_clusters,
  extend_cluster_chain, to_int,
}

-- What the function uses of a directory entry.
pub record DirectoryEntry : Type 0 where
  pub first_cluster : ℕ
  pub file_size : ℕ

pub record Volume : Type 0 where
  pub fat : List ℕ
  pub entry : DirectoryEntry

abbrev pub clusters_of : ℕ → ℕ → ℕ
clusters_of bytes_per_cluster size = (size + bytes_per_cluster - 1) / bytes_per_cluster

-- The last cluster of the chain.
unfoldable pub walk_to_end : ℕ → List ℕ → ℕ → Option ℕ
walk_to_end zero fat last_cluster = none
walk_to_end (suc fuel) fat last_cluster =
    let next = next_cluster fat last_cluster in
    let rest = walk_to_end fuel fat next in
    if next == end_of_cluster_chain then some last_cluster else rest

-- The first cluster of an empty file.
unfoldable pub give_first : Volume → ℕ → Option (Volume × ℤ)
give_first v total =
    if v.entry.first_cluster == 0
    then elim (allocate_cluster_chain v.fat total 1) [
      | none ↦ none
      | some (fat, new_cluster) ↦
          if new_cluster == 0
          then some (record v { fat = fat }, err_no_memory)
          else some
              (record { fat = fat; entry = record v.entry { first_cluster = new_cluster } }, ok)
    ]
    else some (v, ok)

-- From the count of free clusters on.
unfoldable pub add_clusters : Volume → ℕ → ℕ → Option (Volume × ℤ)
unfolding walk_to_end
add_clusters v total clusters_to_add =
    if ltb (count_free_clusters v.fat total) clusters_to_add
    then some (v, err_no_memory)
    else elim (walk_to_end (length v.fat) v.fat v.entry.first_cluster) [
      | none ↦ none
      | some last_cluster ↦
          let (fat, last) =
            extend_cluster_chain v.fat total last_cluster (to_int clusters_to_add) in
          if last == 0
          then some (record v { fat = fat }, err_no_memory)
          else some (record v { fat = fat }, ok)
    ]

unfoldable pub grow_given : Volume → ℕ → ℕ → ℕ → Option (Volume × ℤ)
unfolding add_clusters
grow_given v total bytes_per_cluster new_size =
    let current_clusters = clusters_of bytes_per_cluster v.entry.file_size in
    let needed_clusters = clusters_of bytes_per_cluster new_size in
    if leb needed_clusters current_clusters
    then some (v, ok)
    else add_clusters v total (needed_clusters - current_clusters)

-- The volume afterwards and the error code.
unfoldable pub grow_file_if_needed : Volume → ℕ → ℕ → ℕ → Option (Volume × ℤ)
unfolding give_first grow_given
grow_file_if_needed v total bytes_per_cluster new_size = elim (give_first v total) [
  | none ↦ none
  | some (v', err) ↦
      if err ==ℤ ok then grow_given v' total bytes_per_cluster new_size else some (v', err)
]
