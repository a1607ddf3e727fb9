-- ===== src/Fs/Fat/Clusters/Allocate.antt =====
-- `allocate_cluster_chain`: all or nothing, and undone by `free_cluster_chain`.
use uchos.Prelude.{
  ℕ, zero, suc, ◌+◌, ◌-◌, ◌≤◌, ◌<◌, ◌≡◌, ◌≢◌, inl, sym, ap, subst, ◌∙◌, List, [], ◌∷◌, some, length,
  take, get_or, set, All, arith, ltb, if◌then◌else◌, length-set, ℕ_discrete, dec_lt,
  get_or-set_self, get_or-set_ne, set-get_or, set-set, All-take, ◌^◌,
}
use uchos.Fs.Fat.Clusters.{
  fat32_eoc_min, end_of_cluster_chain, extend_cluster_chain, free_cluster_chain, find_first,
  roll_back, allocate_cluster_chain,
}
use uchos.Fs.Fat.Clusters.Link.{
  free_from, link, last_of, NotIn, Between, Free, set-link, link-Links, link-set, NotIn-Between,
  Between-take, Between-length, free_from-Between, free_from-Free, free_from-set, length-link,
}
use uchos.Fs.Fat.Clusters.Extend.{
  free_clusters, Extendable, extend_cluster_chain_lem, free_from_used, free_from_free,
}
use uchos.Fs.Fat.Clusters.Chain.{
  to_int_small, last_of-le, clear, Distinct, free_cluster_chain-clear,
}

-- Clearing a chain that was linked from free clusters restores the table.
clear-link :
    (fat : List ℕ) (c i n : ℕ) (ds : List ℕ)
    → get_or fat c 0 ≡ 0
    → NotIn c ds
    → Between i n ds
    → Free fat ds
    → clear (link fat c ds) (c ∷ ds) ≡ fat
clear-link fat c i n [] z notin b f =
    set-set fat c end_of_cluster_chain 0 ∙ ap (set fat c) (sym z) ∙ set-get_or fat c 0
clear-link fat c i n (d ∷ ds) z notin b f =
    ap (λ t. clear t (d ∷ ds))
      (set-link (set fat c d) d c 0 ds notin.0 notin.1
        ∙ ap (λ t. link t d ds) (set-set fat c d 0 ∙ ap (set fat c) (sym z) ∙ set-get_or fat c 0))
    ∙ clear-link fat d (suc d) n ds f.0 (NotIn-Between d (suc d) n ds (omega arith) b.2) b.2 f.1

Between-Distinct : (i n : ℕ) (ds : List ℕ) → Between i n ds → Distinct ds
Between-Distinct i n [] b = tt
Between-Distinct i n (d ∷ ds) b =
    (NotIn-Between d (suc d) n ds (omega arith) b.2, Between-Distinct (suc d) n ds b.2)

Between-All : (i n m : ℕ) (ds : List ℕ) → n ≤ m → Between i n ds → All (λ d. d < m) ds
Between-All i n m [] h b = tt
Between-All i n m (d ∷ ds) h b = (omega arith, Between-All (suc d) n m ds h b.2)

-- Free clusters linked into a chain, and the chain freed: the table is as before.
free_cluster_chain-link :
    (fat : List ℕ) (c n : ℕ) (ds : List ℕ)
    → n ≤ fat32_eoc_min
    → n ≤ length fat
    → 2 ≤ c
    → Between c n (c ∷ ds)
    → Free fat (c ∷ ds)
    → free_cluster_chain (link fat c ds) c ≡ some fat
free_cluster_chain-link fat c n ds top stored lo b f =
    let notin = NotIn-Between c (suc c) n ds (omega arith) b.2 in
    free_cluster_chain-clear (link fat c ds) c ds lo (omega arith)
      (omega (arith, length-link fat c ds, Between-length (suc c) n ds (omega arith) b.2))
      (Between-All c n _ (c ∷ ds) (omega (arith, length-link fat c ds)) b)
      (Between-Distinct c n (c ∷ ds) b)
      (link-Links fat c (suc c) n ds (omega arith) stored top (omega arith) notin b.2)
    ∙ ap some (clear-link fat c (suc c) n ds f.0 notin b.2 f.1)

-- The search for the first cluster, and what is free behind it.
pub find_first-none :
    (fat : List ℕ) (rounds i : ℕ)
    → free_from fat rounds i ≡ []
    → find_first fat rounds i ≡ i + rounds
unfolding find_first
find_first-none fat zero i h = omega arith
find_first-none fat (suc rounds) i h = ground (arith, find_first-none fat rounds (i + 1))

find_first-some :
    (fat : List ℕ) (rounds i f : ℕ) (fs : List ℕ)
    → free_from fat rounds i ≡ f ∷ fs
    → find_first fat rounds i ≡ f
unfolding find_first
find_first-some fat zero i f fs h = cc
find_first-some fat (suc rounds) i f fs h = ground (arith, find_first-some fat rounds (i + 1) f fs)

behind-first :
    (fat : List ℕ) (rounds i f v : ℕ) (fs : List ℕ)
    → i + rounds ≤ length fat
    → v ≢ 0
    → free_from fat rounds i ≡ f ∷ fs
    → free_from (set fat f v) rounds i ≡ fs
behind-first fat zero i f v fs h nz e = cc
behind-first fat (suc rounds) i f v fs h nz e = elim (ℕ_discrete (get_or fat i 0) 0) [
  | no used ↦
      let e' = sym (free_from_used fat rounds i used) ∙ e in
      later used e' (behind-first fat rounds (i + 1) f v fs (omega arith) nz e')
  | yes free ↦ now (sym (free_from_free fat rounds i free) ∙ e)
]
  where
    later :
        get_or fat i 0 ≢ 0
        → free_from fat rounds (i + 1) ≡ f ∷ fs
        → free_from (set fat f v) rounds (i + 1) ≡ fs
        → free_from (set fat f v) (suc rounds) i ≡ fs
    later used e' ih =
        let b : Between (i + 1) (length fat) (f ∷ fs) =
          subst (Between (i + 1) (length fat)) e'
            (free_from-Between fat rounds (i + 1) (length fat) (omega arith)) in
        free_from_used (set fat f v) rounds i (rw (get_or-set_ne fat f i v 0 (omega arith)) used)
        ∙ ih

    now : i ∷ free_from fat rounds (i + 1) ≡ f ∷ fs → free_from (set fat f v) (suc rounds) i ≡ fs
    now e' =
        let head : i ≡ f = cc in
        let rest : free_from fat rounds (i + 1) ≡ fs = cc in
        subst (λ x. free_from (set fat x v) (suc rounds) i ≡ fs) head
          (free_from_used (set fat i v) rounds i (rw (get_or-set_self fat i v 0 (omega arith)) nz)
            ∙ free_from-set fat rounds (i + 1) i v (omega arith) nz (inl (omega arith))
            ∙ rest)

-- A table that holds `total` numbered clusters.
pub record IsTable (fat : List ℕ) (total : ℕ) : Type 0 where
  pub reserved : 2 ≤ total
  pub numbered : total ≤ fat32_eoc_min
  pub stored : total ≤ length fat

module _ (fat : List ℕ) (total num f : ℕ) (fs : List ℕ) (t : IsTable fat total)
    (e : free_clusters fat total ≡ f ∷ fs) where
  abbrev pub started : List ℕ
  started = set fat f end_of_cluster_chain

  pub first-Between : Between 2 total (f ∷ fs)
  first-Between =
      subst (Between 2 total) e (free_from-Between fat (total - 2) 2 total (omega arith))

  pub first-Free : Free fat (f ∷ fs)
  first-Free = subst (Free fat) e (free_from-Free fat (total - 2) 2)

  pub started-free : free_clusters started total ≡ fs
  started-free =
      behind-first fat (total - 2) 2 f end_of_cluster_chain fs (omega arith) (omega arith) e

  pub started-Extendable : Extendable started total f
  started-Extendable = record {
    reserved = t.reserved;
    numbered = t.numbered;
    stored = omega (arith, length-set fat f end_of_cluster_chain);
    proper = omega (arith, first-Between);
    within = omega (arith, first-Between, length-set fat f end_of_cluster_chain);
    in_use =
        rw (get_or-set_self fat f end_of_cluster_chain 0 (omega (arith, first-Between)))
          (omega arith);
  }

  -- What the extension of the first cluster gives.
  extend-started : extend_cluster_chain started total f (num - 1) ≡ (
    link fat f (take (num - 1) fs),
    if ltb (length fs) (num - 1) then 0 else last_of f (take (num - 1) fs),
  )
  extend-started =
      extend_cluster_chain_lem started total f (num - 1) started-Extendable
      ∙ rw (started-free, link-set fat f end_of_cluster_chain (take (num - 1) fs))

  pub taken-Between : Between f total (f ∷ take (num - 1) fs)
  taken-Between =
      (omega arith, first-Between.1, Between-take (num - 1) (suc f) total fs first-Between.2)

  pub free-taken : free_cluster_chain (link fat f (take (num - 1) fs)) f ≡ some fat
  free-taken =
      free_cluster_chain-link fat f total (take (num - 1) fs) t.numbered t.stored first-Between.0
        taken-Between (first-Free.0, All-take _ (num - 1) fs first-Free.1)

  pub allocate_cluster_chain-first :
      num ≤ 2 ^ 31
      → allocate_cluster_chain fat total num ≡ (
          if ltb (length fs) (num - 1)
          then some (fat, 0)
          else some (link fat f (take (num - 1) fs), f))
  unfolding allocate_cluster_chain roll_back
  allocate_cluster_chain-first small = elim (dec_lt 1 num) [
    | yes many ↦
        let proper : 2 ≤ last_of f (take (num - 1) fs) =
          last_of-le (suc f) total f _ (omega (arith, first-Between)) (omega (arith, first-Between))
            taken-Between.2 in
        ground (
          arith,
          find_first-some fat (total - 2) 2 f fs e,
          to_int_small (num - 1) (omega (arith, small)),
          extend-started,
          free-taken,
          first-Between,
        )
    | no single ↦
        let none-more : num - 1 ≡ 0 = omega arith in
        rw none-more (ground (arith, find_first-some fat (total - 2) 2 f fs e, first-Between))
  ]
