-- ===== src/Fs/Fat/Clusters/Allocation.antt =====
-- What a caller of `allocate_cluster_chain` may rely on.
use uchos.Prelude.{
  ℕ, suc, ◌+◌, ◌-◌, ◌≤◌, ◌<◌, ◌≡◌, ◌⊎◌, inl, inr, refl, sym, ap, ◌∙◌, List, [], ◌∷◌, some, length,
  take, drop, set, arith, lt→ltb, le→ltb, max, length-take, length-set, ◌^◌,
}
use uchos.Fs.Fat.Clusters.{
  end_of_cluster_chain, free_cluster_chain, allocate_cluster_chain, count_free_clusters,
}
use uchos.Fs.Fat.Clusters.Link.{link, Links, NotIn-Between, link-Links, link-set}
use uchos.Fs.Fat.Clusters.Extend.{free_clusters, Extendable, free_from-link}
use uchos.Fs.Fat.Clusters.Chain.{length-drop, count_free_clusters_lem, count_free_clusters-le}
use uchos.Fs.Fat.Clusters.Allocate.{
  IsTable, started-Extendable, started-free, first-Between, taken-Between, free-taken,
  find_first-none, allocate_cluster_chain-first,
}

List-cases : (xs : List ℕ) → (xs ≡ []) ⊎ ((y : ℕ) × (ys : List ℕ) × (xs ≡ y ∷ ys))
List-cases [] = inl refl
List-cases (y ∷ ys) = inr (y, ys, refl)

allocate-none :
    (fat : List ℕ) (total num : ℕ)
    → IsTable fat total
    → free_clusters fat total ≡ []
    → allocate_cluster_chain fat total num ≡ some (fat, 0)
unfolding allocate_cluster_chain
allocate-none fat total num t e = ground (arith, find_first-none fat (total - 2) 2 e)

-- On a table that holds its numbered clusters, with fewer free clusters than asked for (one, if
-- none is asked for), at most 2 ^ 31, nothing is allocated: the routine returns 0, and the partial chain is rolled
-- back to the very table that it started from.
pub allocate_cluster_chain-full :
    (fat : List ℕ) (total num : ℕ)
    → IsTable fat total
    → num ≤ 2 ^ 31
    → count_free_clusters fat total < max 1 num
    → allocate_cluster_chain fat total num ≡ some (fat, 0)
allocate_cluster_chain-full fat total num t small few =
    elim (List-cases (free_clusters fat total)) [
      | inl e ↦ allocate-none fat total num t e
      | inr (f, fs, e) ↦
          allocate_cluster_chain-first fat total num f fs t e small
          ∙ rw (
              lt→ltb (length fs) (num - 1)
                (omega (arith, count_free_clusters_lem fat total, ap length e)))
    ]

-- What an allocation of `n` clusters gives: the first cluster, at least 2, of a chain of `n`
-- clusters; `n` free clusters fewer; and freeing the chain restores the table.
pub record Allocated (fat : List ℕ) (total n : ℕ) (fat' : List ℕ) (first : ℕ) : Type 0 where
  pub chain : List ℕ
  pub proper : 2 ≤ first
  pub long : length chain + 1 ≡ n
  pub linked : Links fat' first chain
  pub counted : count_free_clusters fat' total + n ≡ count_free_clusters fat total
  pub restored : free_cluster_chain fat' first ≡ some fat

module _ (fat : List ℕ) (total num f : ℕ) (fs : List ℕ) (t : IsTable fat total)
    (e : free_clusters fat total ≡ f ∷ fs) (enough : num ≤ length fs + 1) where
  abbrev linked_table : List ℕ
  linked_table = link fat f (take (num - 1) fs)

  free-linked : free_clusters linked_table total ≡ drop (num - 1) fs
  free-linked =
      let g = set fat f end_of_cluster_chain in
      let rest = started-free fat total num f fs t e in
      let lt = first-Between fat total num f fs t e in
      ap (λ x. free_clusters x total)
        (sym (link-set fat f end_of_cluster_chain (take (num - 1) fs))
          ∙ ap (λ x. link g f (take (num - 1) x)) (sym rest))
      ∙ free_from-link g (num - 1) (total - 2) 2 total f (omega arith)
          (omega (arith, length-set fat f end_of_cluster_chain)) (omega arith)
          (omega (arith, length-set fat f end_of_cluster_chain, lt))
          (inr (Extendable.in_use (started-Extendable fat total num f fs t e)))
      ∙ ap (drop (num - 1)) rest

  allocated : Allocated fat total (max 1 num) linked_table f
  allocated =
      let lt = first-Between fat total num f fs t e in
      let b = taken-Between fat total num f fs t e in
      record {
        chain = take (num - 1) fs;
        proper = omega (arith, lt);
        long = omega (arith, length-take (num - 1) fs);
        linked =
            link-Links fat f (suc f) total (take (num - 1) fs) (omega (arith, lt)) t.stored
              t.numbered (omega (arith, lt)) (NotIn-Between f (suc f) total _ (omega arith) b.2)
              b.2;
        counted = omega (
          arith,
          count_free_clusters_lem fat total,
          count_free_clusters_lem linked_table total,
          ap length e,
          ap length free-linked,
          length-drop (num - 1) fs,
        );
        restored = free-taken fat total num f fs t e;
      }

-- On a table that holds its numbered clusters, with enough free clusters the allocation succeeds:
-- its result is `Allocated`, for the number of clusters asked for (one, if none is asked for).
pub allocate_cluster_chain-Allocated :
    (fat : List ℕ) (total num : ℕ)
    → IsTable fat total
    → max 1 num ≤ count_free_clusters fat total
    → (fat' : List ℕ) × (first : ℕ) × (allocate_cluster_chain fat total num ≡ some (fat', first))
      × Allocated fat total (max 1 num) fat' first
allocate_cluster_chain-Allocated fat total num t enough =
    elim (List-cases (free_clusters fat total)) [
      | inl e ↦ absurd (omega (arith, count_free_clusters_lem fat total, ap length e))
      | inr (f, fs, e) ↦
          let room : num ≤ length fs + 1 =
            omega (arith, count_free_clusters_lem fat total, ap length e) in
          (
            link fat f (take (num - 1) fs),
            f,
            allocate_cluster_chain-first fat total num f fs t e
                  (omega (arith, enough, t.numbered, count_free_clusters-le fat total))
                ∙ rw (le→ltb (length fs) (num - 1) (omega arith)),
            allocated fat total num f fs t e room,
          )
    ]
