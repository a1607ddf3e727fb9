-- ===== src/Fs/Fat/Growth/Empty.antt =====
-- The growth of an empty file that has no cluster yet.
use uchos.Prelude.{
  ℕ, ◌-◌, ◌<◌, ◌≤◌, ◌≡◌, refl, ap, subst, ◌∙◌, some, List, [], ◌∷◌, length, length-set, take,
  ==_false, arith, ltb, false,
}
use uchos.Common.{ok}
use uchos.Fs.Fat.Clusters.{end_of_cluster_chain, allocate_cluster_chain}
use uchos.Fs.Fat.Clusters.Link.{Links}
use uchos.Fs.Fat.Clusters.Extend.{free_clusters}
use uchos.Fs.Fat.Clusters.Chain.{count_free_clusters_lem}
use uchos.Fs.Fat.Clusters.Allocate.{
  IsTable, started, started-free, started-Extendable, first-Between, allocate_cluster_chain-first,
}
use uchos.Prelude.{get_or-set_self}
use uchos.Fs.Fat.Growth.{Volume, clusters_of, give_first, grow_file_if_needed}
use uchos.Fs.Fat.Growth.Extension.{grow_file_if_needed_lem}

abbrev pub empty_file : List ℕ → Volume
empty_file fat = record { fat = fat; entry = record { first_cluster = 0; file_size = 0 } }

module _ (fat : List ℕ) (total f : ℕ) (fs : List ℕ) (t : IsTable fat total)
    (e : free_clusters fat total ≡ f ∷ fs) where
  abbrev with_first : Volume
  with_first = record {
    fat = started fat total 1 f fs t e;
    entry = record { first_cluster = f; file_size = 0 };
  }

  bounds : (2 ≤ f) × (f < length fat)
  bounds =
      let b = first-Between fat total 1 f fs t e in (omega (arith, b), omega (arith, b, t.stored))

  one-first : allocate_cluster_chain fat total 1 ≡ some (started fat total 1 f fs t e, f)
  one-first =
      let enough : ltb (length fs) (1 - 1) ≡ false = ground arith in
      allocate_cluster_chain-first fat total 1 f fs t e (omega arith) ∙ rw enough refl

  first-given : give_first (empty_file fat) total ≡ some (with_first, ok)
  unfolding give_first
  first-given = rw (one-first, give_first) (rw (==_false f 0 (λ z. omega (arith, z, bounds))) refl)

  second-given : give_first with_first total ≡ some (with_first, ok)
  unfolding give_first
  second-given = rw (==_false f 0 (λ z. omega (arith, z, bounds)), give_first) refl

  then_as_given :
      (bytes size : ℕ)
      → grow_file_if_needed (empty_file fat) total bytes size
        ≡ grow_file_if_needed with_first total bytes size
  unfolding grow_file_if_needed
  then_as_given bytes size = rw (first-given, second-given, grow_file_if_needed) refl

  -- On a table that holds its numbered clusters, and with a cluster size for which 0 bytes need no
  -- cluster, a file of size 0 without a cluster, grown to a size of `n` clusters, at least one, with
  -- more than `n` free ones, gets `n + 1` clusters: the first free one, and then the next `n`.
  pub grow_file_if_needed-empty :
      (bytes size : ℕ)
      → clusters_of bytes 0 ≡ 0
      → 0 < clusters_of bytes size
      → clusters_of bytes size ≤ length fs
      → (fat' : List ℕ) × (grow_file_if_needed (empty_file fat) total bytes size
          ≡ some (record with_first { fat = fat' }, ok))
        × Links fat' f (take (clusters_of bytes size) fs)
  grow_file_if_needed-empty bytes size none_yet more enough =
      let free : free_clusters (started fat total 1 f fs t e) total ≡ fs =
        started-free fat total 1 f fs t e in
      let counted = count_free_clusters_lem (started fat total 1 f fs t e) total in
      let needed : clusters_of bytes size - clusters_of bytes 0 ≡ clusters_of bytes size =
        omega (arith, none_yet) in
      let grown =
        grow_file_if_needed_lem with_first total bytes size [] (λ z. omega (arith, z, bounds))
          (rw (get_or-set_self fat f end_of_cluster_chain 0 bounds.1) (omega arith))
          (omega (arith, bounds, length-set fat f end_of_cluster_chain))
          (started-Extendable fat total 1 f fs t e) (omega (arith, none_yet, more))
          (omega (arith, needed, counted, ap length free, enough)) in
      (
        grown.0,
        then_as_given bytes size ∙ grown.1,
        subst (λ n. Links grown.0 f (take n fs)) needed
            (subst (λ xs. Links grown.0 f (take (clusters_of bytes size - clusters_of bytes 0) xs))
              free grown.2),
      )
