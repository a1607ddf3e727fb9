-- ===== src/Fs/Fat/Clusters.antt =====
-- The cluster-chain routines of kernel/fs/fat/utils.cpp over an explicit table.
-- The table is the list of its 32-bit entries. A read outside the table gives 0 here, and a write
-- outside it changes nothing: the theorems keep every access inside. `free_cluster_chain` follows
-- links that it does not control, so there an access outside the table is `none`, and so is a walk
-- that does not end; a walk that ends visits no more than `length fat + 1` entries.
pub mod Link
pub mod Extend
pub mod Chain
pub mod Cut
pub mod Allocate
pub mod Allocation
use uchos.Prelude.{
  ℕ, zero, suc, ◌+◌, ◌-◌, ◌%◌, ◌^◌, Bool, ◌||◌, Option, none, some, List, [], ◌∷◌, length, get_or,
  set, ltb, leb, ◌==◌, ◌!=◌, if◌then◌else◌,
}

abbrev pub end_of_cluster_chain : ℕ
end_of_cluster_chain = 0x0FFFFFFF

abbrev pub fat32_eoc_min : ℕ
fat32_eoc_min = 0x0FFFFFF8

-- A `cluster_t` or `size_t` stored into a `uint32_t`.
abbrev pub to_u32 : ℕ → ℕ
to_u32 x = x % 2 ^ 32

-- A `size_t` passed as an `int`. A negative number of clusters does what 0 does, and is not represented.
unfoldable pub to_int : ℕ → ℕ
to_int n = let low = n % 2 ^ 32 in if ltb low (2 ^ 31) then low else 0

-- The parameter is the table, `FAT_TABLE[cluster_id]` in the source.
unfoldable pub next_cluster : List ℕ → ℕ → ℕ
next_cluster fat cluster_id =
    let next = get_or fat cluster_id 0 in
    if leb fat32_eoc_min next then end_of_cluster_chain else next

-- The loop variables of `extend_cluster_chain`.
pub record Extending : Type 0 where
  pub fat : List ℕ
  pub current_cluster : ℕ
  pub num_allocated : ℕ

extend_round : ℕ → Extending → Extending
extend_round i s = if get_or s.fat i 0 != 0 then s else record {
  fat = set s.fat s.current_cluster (to_u32 i);
  current_cluster = i;
  num_allocated = s.num_allocated + 1;
}

-- The first number is `num_clusters`, the second the rounds left up to `total_clusters`.
extend_loop : ℕ → ℕ → ℕ → Extending → Extending
extend_loop num_clusters zero i s = s
extend_loop num_clusters (suc rounds) i s =
    let rest = extend_loop num_clusters rounds (i + 1) (extend_round i s) in
    if ltb s.num_allocated num_clusters then rest else s

-- The table afterwards, and the new last cluster, or 0 on a full disk.
pub extend_cluster_chain : List ℕ → ℕ → ℕ → ℕ → List ℕ × ℕ
unfolding extend_loop extend_round
extend_cluster_chain fat total_clusters last_cluster num_clusters =
    let s =
      extend_loop num_clusters (total_clusters - 2) 2
        (record { fat = fat; current_cluster = last_cluster; num_allocated = 0 }) in
    let ended = set s.fat s.current_cluster (to_u32 end_of_cluster_chain) in
    if ltb s.num_allocated num_clusters then (ended, 0) else (ended, s.current_cluster)

-- `none`: outside the table, or out of fuel.
free_loop : ℕ → List ℕ → ℕ → Option (List ℕ)
free_loop zero fat current = none
free_loop (suc fuel) fat current =
    let rest = free_loop fuel (set fat current 0) (get_or fat current 0) in
    if ltb current fat32_eoc_min
    then (if ltb current (length fat) then rest else none)
    else some fat

pub free_cluster_chain : List ℕ → ℕ → Option (List ℕ)
unfolding free_loop
free_cluster_chain fat start_cluster =
    if start_cluster == 0 || leb fat32_eoc_min start_cluster
    then some fat
    else free_loop (length fat + 1) fat start_cluster

-- The first free cluster from `i` on, or the end of the range.
pub find_first : List ℕ → ℕ → ℕ → ℕ
find_first fat zero i = i
find_first fat (suc rounds) i =
    let rest = find_first fat rounds (i + 1) in if get_or fat i 0 != 0 then rest else i

-- A failed extension is rolled back, and reported as 0.
roll_back : List ℕ → ℕ → Option (List ℕ × ℕ)
roll_back fat first_cluster = elim (free_cluster_chain fat first_cluster) [
  | some freed ↦ some (freed, 0)
  | none ↦ none
]

pub allocate_cluster_chain : List ℕ → ℕ → ℕ → Option (List ℕ × ℕ)
unfolding find_first roll_back
allocate_cluster_chain fat total_clusters num_clusters =
    let first_cluster = find_first fat (total_clusters - 2) 2 in
    if leb total_clusters first_cluster
    then some (fat, 0)
    else let started = set fat first_cluster (to_u32 end_of_cluster_chain) in
      if ltb 1 num_clusters
      then (let (extended, last) =
            extend_cluster_chain started total_clusters first_cluster (to_int (num_clusters - 1)) in
          if last == 0 then roll_back extended first_cluster else some (extended, first_cluster))
      else some (started, first_cluster)

unfoldable pub count_loop : List ℕ → ℕ → ℕ → ℕ → ℕ
count_loop fat zero i free_count = free_count
count_loop fat (suc rounds) i free_count =
    count_loop fat rounds (i + 1) (if get_or fat i 0 == 0 then free_count + 1 else free_count)

unfoldable pub count_free_clusters : List ℕ → ℕ → ℕ
unfolding count_loop
count_free_clusters fat total_clusters = count_loop fat (total_clusters - 2) 2 0
