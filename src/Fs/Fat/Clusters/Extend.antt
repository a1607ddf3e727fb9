-- ===== src/Fs/Fat/Clusters/Extend.antt =====
-- `extend_cluster_chain` takes the first free clusters of the table and links them, in ascending
-- order, behind the last cluster.
use uchos.Prelude.{
  ℕ, zero, suc, ◌+◌, ◌-◌, ◌≤◌, ◌<◌, ◌≡◌, ◌≢◌, ◌⊎◌, inl, inr, refl, sym, ap, subst, ◌∙◌, List, [],
  ◌∷◌, length, take, take-nil, get_or, set, drop, arith, ltb, if◌then◌else◌, length-set,
  length-take, min, dec_lt, ℕ_discrete, lt→ltb, le→ltb,
}
use uchos.Fs.Fat.Clusters.{
  fat32_eoc_min, end_of_cluster_chain, Extending, extend_round, extend_loop, extend_cluster_chain,
  to_u32,
}
use uchos.Fs.Fat.Clusters.Link.{
  free_from, link_open, link, last_of, Between, free_from-set, link-link_open, free_from-Between,
  get_or-link, link-used, NotIn-Between, Between-take,
}

-- The loop's state after linking `ds`.
abbrev extended : Extending → List ℕ → Extending
extended s ds = record {
  fat = link_open s.fat s.current_cluster ds;
  current_cluster = last_of s.current_cluster ds;
  num_allocated = s.num_allocated + length ds;
}

extended-nil : (s : Extending) → s ≡ extended s []
extended-nil s = ground arith

take_full : (m n : ℕ) (xs : List ℕ) → m ≤ n → take (m - n) xs ≡ []
take_full m n xs h = let e : m - n ≡ 0 = omega arith in rw e

take_more : (m n x : ℕ) (xs : List ℕ) → n < m → take (m - n) (x ∷ xs) ≡ x ∷ take (m - (n + 1)) xs
take_more m n x xs h = let e : m - n ≡ suc (m - (n + 1)) = omega arith in rw e

round_used : (i : ℕ) (s : Extending) → get_or s.fat i 0 ≢ 0 → extend_round i s ≡ s
unfolding extend_round
round_used i s h = ground arith

-- The state after cluster `i` is taken.
abbrev take_cluster : ℕ → Extending → Extending
take_cluster i s = record {
  fat = set s.fat s.current_cluster i;
  current_cluster = i;
  num_allocated = s.num_allocated + 1;
}

round_free :
    (i : ℕ) (s : Extending)
    → i < fat32_eoc_min
    → get_or s.fat i 0 ≡ 0
    → extend_round i s ≡ take_cluster i s
unfolding extend_round
round_free i s top h = let e : to_u32 i ≡ i = omega arith in ground arith

pub free_from_used :
    (fat : List ℕ) (rounds i : ℕ)
    → get_or fat i 0 ≢ 0
    → free_from fat (suc rounds) i ≡ free_from fat rounds (i + 1)
free_from_used fat rounds i h = ground arith

pub free_from_free :
    (fat : List ℕ) (rounds i : ℕ)
    → get_or fat i 0 ≡ 0
    → free_from fat (suc rounds) i ≡ i ∷ free_from fat rounds (i + 1)
free_from_free fat rounds i h = ground arith

module _ (num : ℕ) where
  abbrev taken : ℕ → ℕ → Extending → List ℕ
  taken rounds i s = take (num - s.num_allocated) (free_from s.fat rounds i)

  loop_stop :
      (rounds i : ℕ) (s : Extending) → num ≤ s.num_allocated → extend_loop num rounds i s ≡ s
  unfolding extend_loop
  loop_stop zero i s h = refl
  loop_stop (suc rounds) i s h = rw (le→ltb s.num_allocated num h)

  loop_next :
      (rounds i : ℕ) (s : Extending)
      → s.num_allocated < num
      → extend_loop num (suc rounds) i s ≡ extend_loop num rounds (i + 1) (extend_round i s)
  unfolding extend_loop
  loop_next rounds i s h = rw (lt→ltb s.num_allocated num h)

  -- The state that the rest of the loop leaves when cluster `i` was taken.
  extended_more :
      (rounds i : ℕ) (s : Extending)
      → s.num_allocated < num
      → s.current_cluster < length s.fat
      → 0 < i
      → (s.current_cluster < i) ⊎ (get_or s.fat s.current_cluster 0 ≢ 0)
      → get_or s.fat i 0 ≡ 0
      → extended (take_cluster i s) (taken rounds (i + 1) (take_cluster i s))
        ≡ extended s (taken (suc rounds) i s)
  extended_more rounds i s lt cur pos w free =
      rw
        (
          free_from_free s.fat rounds i free,
          take_more num s.num_allocated i (free_from s.fat rounds (i + 1)) lt,
          free_from-set s.fat rounds (i + 1) s.current_cluster i cur (omega arith) (weaken w),
        )
        (ground arith)
    where
      weaken :
          (s.current_cluster < i) ⊎ (get_or s.fat s.current_cluster 0 ≢ 0)
          → (s.current_cluster < i + 1) ⊎ (get_or s.fat s.current_cluster 0 ≢ 0)
      weaken (inl lt) = inl (omega arith)
      weaken (inr used) = inr used

  extend_loop_lem :
      (rounds i : ℕ) (s : Extending)
      → 0 < i
      → i + rounds ≤ fat32_eoc_min
      → s.current_cluster < length s.fat
      → i + rounds ≤ length s.fat
      → (s.current_cluster < i) ⊎ (get_or s.fat s.current_cluster 0 ≢ 0)
      → extend_loop num rounds i s ≡ extended s (taken rounds i s)
  unfolding extend_loop
  extend_loop_lem zero i s pos top cur len w =
      rw (take-nil ℕ (num - s.num_allocated)) (extended-nil s)
  extend_loop_lem (suc rounds) i s pos top cur len w = elim (dec_lt s.num_allocated num) [
    | no full ↦
        loop_stop (suc rounds) i s (omega arith)
        ∙ rw (take_full num s.num_allocated (free_from s.fat (suc rounds) i) (omega arith))
            (extended-nil s)
    | yes more ↦ loop_next rounds i s more ∙ elim (ℕ_discrete (get_or s.fat i 0) 0) [
      | no used ↦
          rw (round_used i s used, free_from_used s.fat rounds i used)
            (extend_loop_lem rounds (i + 1) s (omega arith) (omega arith) cur (omega arith)
              (pass w))
      | yes free ↦ rw (round_free i s (omega arith) free) (
          extend_loop_lem rounds (i + 1) (take_cluster i s) (omega arith) (omega arith)
            (omega (arith, length-set s.fat s.current_cluster i))
            (omega (arith, length-set s.fat s.current_cluster i)) (inl (omega arith))
          ∙ extended_more rounds i s more cur pos w free)
    ]
  ]
    where
      pass :
          (s.current_cluster < i) ⊎ (get_or s.fat s.current_cluster 0 ≢ 0)
          → (s.current_cluster < i + 1) ⊎ (get_or s.fat s.current_cluster 0 ≢ 0)
      pass (inl lt) = inl (omega arith)
      pass (inr used) = inr used

-- The free clusters of a table of `total` entries, in ascending order.
abbrev pub free_clusters : List ℕ → ℕ → List ℕ
free_clusters fat total = free_from fat (total - 2) 2

ltb-min : (n m : ℕ) → ltb (min n m) n ≡ ltb m n
ltb-min n m = ground arith

-- A chain's end can be extended: within the table, and its last cluster is in use.
pub record Extendable (fat : List ℕ) (total last : ℕ) : Type 0 where
  pub reserved : 2 ≤ total
  pub numbered : total ≤ fat32_eoc_min
  pub stored : total ≤ length fat
  pub proper : 2 ≤ last
  pub within : last < length fat
  pub in_use : get_or fat last 0 ≢ 0

module _ (fat : List ℕ) (total last num : ℕ) (e : Extendable fat total last) where
  -- `extend_cluster_chain` links the first `num` free clusters, or all of them if there are fewer,
  -- in ascending order behind `last`; it returns the new last cluster, or 0 if there were fewer.
  pub extend_cluster_chain_lem : extend_cluster_chain fat total last num ≡ (
    link fat last (take num (free_clusters fat total)),
    if ltb (length (free_clusters fat total)) num
        then 0
        else last_of last (take num (free_clusters fat total)),
  )
  unfolding extend_cluster_chain
  extend_cluster_chain_lem =
      rw
        (
          extend_loop_lem num (total - 2) 2
              (record { fat = fat; current_cluster = last; num_allocated = 0 }) (omega arith)
              (omega arith) e.within (omega arith) (inr e.in_use),
          minus-zero num,
          link-link_open fat last (take num (free_clusters fat total)),
          short,
        )
        (ground arith)
    where
      minus-zero : (n : ℕ) → n - 0 ≡ n
      minus-zero n = omega arith

      short :
          ltb (0 + length (take num (free_clusters fat total))) num
          ≡ ltb (length (free_clusters fat total)) num
      short = ground (arith, length-take num (free_clusters fat total))

widen :
    (fat : List ℕ) (c i : ℕ) → (c < i) ⊎ (get_or fat c 0 ≢ 0) → (c < i + 1) ⊎ (get_or fat c 0 ≢ 0)
widen fat c i (inl lt) = inl (omega arith)
widen fat c i (inr used) = inr used

-- The rest of a scan, all above `i`.
above :
    (fat : List ℕ) (k rounds i n : ℕ)
    → i + suc rounds ≤ n
    → Between (suc i) n (take k (free_from fat rounds (i + 1)))
above fat k rounds i n h =
    let e : i + 1 ≡ suc i = omega arith in
    Between-take k (suc i) n _ (
      subst (λ x. Between x n (free_from fat rounds (i + 1))) e
        (free_from-Between fat rounds (i + 1) n (omega arith)))

-- A cluster in use stays in use when clusters above it are linked.
link-keeps_used :
    (fat : List ℕ) (k rounds i n c : ℕ)
    → i + suc rounds ≤ n
    → 0 < i
    → c < length fat
    → (c < i) ⊎ (get_or fat c 0 ≢ 0)
    → get_or fat i 0 ≢ 0
    → get_or (link fat c (take k (free_from fat rounds (i + 1)))) i 0 ≢ 0
link-keeps_used fat k rounds i n c h pos cin w used = elim (ℕ_discrete i c) [
  | yes same ↦
      subst (λ x. get_or (link fat c (take k (free_from fat rounds (i + 1)))) x 0 ≢ 0) (sym same)
        (link-used fat c (suc i) n (take k (free_from fat rounds (i + 1))) cin (omega arith)
          (NotIn-Between c (suc i) n _ (omega arith) (above fat k rounds i n h))
          (above fat k rounds i n h))
  | no other ↦
      rw
        (get_or-link fat c i (take k (free_from fat rounds (i + 1))) other
          (NotIn-Between i (suc i) n _ (omega arith) (above fat k rounds i n h)))
        used
]

free-ne : (fat : List ℕ) (c i : ℕ) → (c < i) ⊎ (get_or fat c 0 ≢ 0) → get_or fat i 0 ≡ 0 → c ≢ i
free-ne fat c i (inl lt) z = omega arith
free-ne fat c i (inr used) z = λ e. used (ap (λ x. get_or fat x 0) e ∙ z)

-- Linking the first `num` free clusters leaves exactly the others free.
pub free_from-link :
    (fat : List ℕ) (num rounds i n c : ℕ)
    → i + rounds ≤ n
    → n ≤ length fat
    → 0 < i
    → c < length fat
    → (c < i) ⊎ (get_or fat c 0 ≢ 0)
    → free_from (link fat c (take num (free_from fat rounds i))) rounds i
      ≡ drop num (free_from fat rounds i)
free_from-link fat zero rounds i n c h stored pos cin w =
    free_from-set fat rounds i c end_of_cluster_chain cin (omega arith) w
free_from-link fat (suc num) zero i n c h stored pos cin w = refl
free_from-link fat (suc num) (suc rounds) i n c h stored pos cin w =
    elim (ℕ_discrete (get_or fat i 0) 0) [
      | no used ↦
          let skip = free_from_used fat rounds i used in
          ap (λ xs. free_from (link fat c (take (suc num) xs)) (suc rounds) i) skip
          ∙ free_from_used (link fat c (take (suc num) (free_from fat rounds (i + 1)))) rounds i
              (link-keeps_used fat (suc num) rounds i n c h pos cin w used)
          ∙ free_from-link fat (suc num) rounds (i + 1) n c (omega arith) stored (omega arith) cin
              (widen fat c i w)
          ∙ sym (ap (drop (suc num)) skip)
      | yes free ↦
          let g = set fat c i in
          let same : free_from g rounds (i + 1) ≡ free_from fat rounds (i + 1) =
            free_from-set fat rounds (i + 1) c i cin (omega arith) (widen fat c i w) in
          let head = free_from_free fat rounds i free in
          ap (λ xs. free_from (link fat c (take (suc num) xs)) (suc rounds) i) head
          ∙ ap (λ xs. free_from (link g i (take num xs)) (suc rounds) i) (sym same)
          ∙ free_from_used (link g i (take num (free_from g rounds (i + 1)))) rounds i (
              link-used g i (suc i) n (take num (free_from g rounds (i + 1)))
                (omega (arith, length-set fat c i)) (omega arith)
                (NotIn-Between i (suc i) n _ (omega arith) (above g num rounds i n h))
                (above g num rounds i n h))
          ∙ free_from-link g num rounds (i + 1) n i (omega arith)
              (omega (arith, length-set fat c i)) (omega arith) (omega (arith, length-set fat c i))
              (inl (omega arith))
          ∙ ap (drop num) same
          ∙ sym (ap (drop (suc num)) head)
    ]
