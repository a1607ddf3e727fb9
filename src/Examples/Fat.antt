-- ===== src/Examples/Fat.antt =====
-- kernel/fs/fat/utils.cpp at concrete inputs: a table of eight entries, of which 2, 3 and 5 are a
-- chain and 4, 6 and 7 are free.
use uchos.Prelude.{ℕ, ◌≡◌, refl, some, List, [], ◌∷◌, arith}
use uchos.Fs.Fat.Clusters.{
  extend_cluster_chain, free_cluster_chain, allocate_cluster_chain, count_free_clusters, count_loop,
}
use uchos.Common.{ok}
use uchos.Fs.Fat.Clusters.Link.{Links}
use uchos.Fs.Fat.Growth.{Volume, grow_file_if_needed}
use uchos.Fs.Fat.Growth.Extension.{grow_file_if_needed_lem}
use uchos.Fs.Fat.Growth.Empty.{empty_file, grow_file_if_needed-empty}
use uchos.Fs.Fat.Clusters.Extend.{Extendable}
use uchos.Fs.Fat.Clusters.Chain.{extend_cluster_chain-Links, free_cluster_chain-clear}
use uchos.Fs.Fat.Clusters.Allocate.{IsTable}
use uchos.Fs.Fat.Clusters.Allocation.{
  Allocated, allocate_cluster_chain-full, allocate_cluster_chain-Allocated,
}

abbrev eoc : ℕ
eoc = 0x0FFFFFFF

abbrev pub table : List ℕ
table = eoc ∷ eoc ∷ 3 ∷ 5 ∷ 0 ∷ eoc ∷ 0 ∷ 0 ∷ []

pub table-IsTable : IsTable table 8
table-IsTable = record { reserved = omega arith; numbered = omega arith; stored = omega arith }

table-Extendable : Extendable table 8 5
table-Extendable = record {
  reserved = omega arith;
  numbered = omega arith;
  stored = omega arith;
  proper = omega arith;
  within = omega arith;
  in_use = λ e. omega (arith, e);
}

pub chain-Links : Links table 2 (3 ∷ 5 ∷ [])
chain-Links = (refl, omega arith, omega arith, (refl, omega arith, omega arith, omega arith))

extend_cluster_chain-Links_example :
    Links (extend_cluster_chain table 8 5 2).0 2 (3 ∷ 5 ∷ 4 ∷ 6 ∷ [])
extend_cluster_chain-Links_example =
    extend_cluster_chain-Links table 8 2 (3 ∷ 5 ∷ []) 2 table-Extendable chain-Links

free_cluster_chain-clear_example :
    free_cluster_chain table 2 ≡ some (eoc ∷ eoc ∷ 0 ∷ 0 ∷ 0 ∷ 0 ∷ 0 ∷ 0 ∷ [])
free_cluster_chain-clear_example =
    free_cluster_chain-clear table 2 (3 ∷ 5 ∷ []) (omega arith) (omega arith) (omega arith)
      (omega arith, (omega arith, (omega arith, tt)))
      (
        (λ e. omega (arith, e), (λ e. omega (arith, e), tt)),
        ((λ e. omega (arith, e), tt), (tt, tt)),
      )
      chain-Links

allocate_cluster_chain-full_example : allocate_cluster_chain table 8 4 ≡ some (table, 0)
unfolding count_free_clusters count_loop
allocate_cluster_chain-full_example =
    allocate_cluster_chain-full table 8 4 table-IsTable (omega arith) (omega arith)

allocate_cluster_chain-Allocated_example :
    (fat' : List ℕ) × (first : ℕ) × (allocate_cluster_chain table 8 3 ≡ some (fat', first))
    × Allocated table 8 3 fat' first
unfolding count_free_clusters count_loop
allocate_cluster_chain-Allocated_example =
    allocate_cluster_chain-Allocated table 8 3 table-IsTable (omega arith)

abbrev volume : Volume
volume = record { fat = table; entry = record { first_cluster = 2; file_size = 1536 } }

grow_file_if_needed_lem_example :
    (fat : List ℕ) × (grow_file_if_needed volume 8 512 2000
      ≡ some (record volume { fat = fat }, ok))
    × Links fat 2 (3 ∷ 5 ∷ 4 ∷ [])
unfolding count_free_clusters count_loop
grow_file_if_needed_lem_example =
    grow_file_if_needed_lem volume 8 512 2000 (3 ∷ 5 ∷ []) (λ e. omega (arith, e)) chain-Links
      (omega arith) table-Extendable (omega arith) (omega arith)

grow_file_if_needed-empty_example :
    (fat : List ℕ) × (grow_file_if_needed (empty_file table) 8 512 1000
      ≡ some (record { fat = fat; entry = record { first_cluster = 4; file_size = 0 } }, ok))
    × Links fat 4 (6 ∷ 7 ∷ [])
grow_file_if_needed-empty_example =
    grow_file_if_needed-empty table 8 4 (6 ∷ 7 ∷ []) table-IsTable refl 512 1000 refl (omega arith)
      (omega arith)
