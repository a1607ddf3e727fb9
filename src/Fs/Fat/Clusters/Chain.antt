-- ===== src/Fs/Fat/Clusters/Chain.antt =====
-- Chains and free space before and after `extend_cluster_chain`, and `free_cluster_chain`.
use uchos.Prelude.{
  ◌==◌, ℕ, zero, suc, ◌+◌, ◌-◌, ◌≤◌, ◌<◌, ◌≡◌, ◌≢◌, ◌↔◌, inr, refl, ap, ◌∙◌, List, [], ◌∷◌, ◌++◌,
  some, length, take, drop, get_or, set, All, arith, ltb, if◌then◌else◌, length-set, All-take,
  get_or-set_ne, Bool-cases, ◌^◌, ◌%◌, lt→ltb, inl,
}
use uchos.Fs.Fat.Clusters.{
  fat32_eoc_min, extend_cluster_chain, free_loop, free_cluster_chain, count_loop,
  count_free_clusters, to_int,
}
use uchos.Fs.Fat.Clusters.Link.{
  free_from, link, last_of, Links, NotIn, Between, Free, get_or-link, link-Links, NotIn-Free,
  Between-take, free_from-Between, free_from-Free,
}
use uchos.Fs.Fat.Clusters.Extend.{
  free_clusters, Extendable, extend_cluster_chain_lem, free_from-link,
}

count_loop_lem :
    (fat : List ℕ) (rounds i k : ℕ)
    → count_loop fat rounds i k ≡ k + length (free_from fat rounds i)
unfolding count_loop
count_loop_lem fat zero i k = omega arith
count_loop_lem fat (suc rounds) i k =
    ground (arith, count_loop_lem fat rounds (i + 1) (k + 1), count_loop_lem fat rounds (i + 1) k)

pub count_free_clusters_lem :
    (fat : List ℕ) (total : ℕ) → count_free_clusters fat total ≡ length (free_clusters fat total)
unfolding count_free_clusters
count_free_clusters_lem fat total = omega (arith, count_loop_lem fat (total - 2) 2 0)

count_loop-le : (fat : List ℕ) (rounds i n : ℕ) → count_loop fat rounds i n ≤ n + rounds
unfolding count_loop
count_loop-le fat zero i n = omega arith
count_loop-le fat (suc rounds) i n = elim (Bool-cases (get_or fat i 0 == 0)) [
  | inl free ↦ rw free (omega (arith, count_loop-le fat rounds (i + 1) (n + 1)))
  | inr taken ↦ rw taken (omega (arith, count_loop-le fat rounds (i + 1) n))
]

pub count_free_clusters-le : (fat : List ℕ) (total : ℕ) → count_free_clusters fat total ≤ total
unfolding count_free_clusters
count_free_clusters-le fat total = omega (arith, count_loop-le fat (total - 2) 2 0)

-- A number of clusters that fits into an `int`.
pub to_int_small : (n : ℕ) → n < 2 ^ 31 → to_int n ≡ n
unfolding to_int
to_int_small n h = let low : n % 2 ^ 32 ≡ n = omega (arith, h) in rw (low, lt→ltb n (2 ^ 31) h) refl

pub length-drop : (n : ℕ) (xs : List ℕ) → length (drop n xs) ≡ length xs - n
length-drop zero xs = omega arith
length-drop (suc n) [] = omega arith
length-drop (suc n) (x ∷ xs) = omega (arith, length-drop n xs)

-- Every cluster of a chain has a link behind it, so it is in use.
Links-used : (fat : List ℕ) (c : ℕ) (cs : List ℕ) → Links fat c cs → get_or fat c 0 ≢ 0
Links-used fat c [] l = omega arith
Links-used fat c (d ∷ ds) l = omega (arith, l.0, l.1)

-- The cluster before the end is not the end.
before-last : (fat : List ℕ) (c d : ℕ) (ds : List ℕ) → Links fat c (d ∷ ds) → c ≢ last_of d ds
before-last fat c d ds l = λ e. absurd (clash (last-marked fat d ds l.3) e)
  where
    last-marked :
        (fat : List ℕ) (d : ℕ) (ds : List ℕ)
        → Links fat d ds
        → fat32_eoc_min ≤ get_or fat (last_of d ds) 0
    last-marked fat d [] l = l
    last-marked fat d (e ∷ es) l = last-marked fat e es l.3

    clash : fat32_eoc_min ≤ get_or fat (last_of d ds) 0 → c ≡ last_of d ds → ⊥
    clash m e = omega (arith, l.0, l.2, ap (λ x. get_or fat x 0) e)

Links-append :
    (fat : List ℕ) (c : ℕ) (cs ds : List ℕ)
    → Links fat c cs
    → Free fat ds
    → Links (link fat (last_of c cs) ds) (last_of c cs) ds
    → Links (link fat (last_of c cs) ds) c (cs ++ ds)
Links-append fat c [] ds l free tail = tail
Links-append fat c (d ∷ cs) ds l free tail = (
  get_or-link fat (last_of d cs) c ds (before-last fat c d cs l)
        (NotIn-Free fat c ds (Links-used fat c (d ∷ cs) l) free)
      ∙ l.0,
  l.1,
  l.2,
  Links-append fat d cs ds l.3 free tail,
)

last-used : (fat : List ℕ) (c : ℕ) (cs : List ℕ) → Links fat c cs → get_or fat (last_of c cs) 0 ≢ 0
last-used fat c [] l = omega arith
last-used fat c (d ∷ ds) l = last-used fat d ds l.3

-- On a table that holds its numbered clusters, extending a chain whose last cluster is in use and inside the table, by `num` clusters, keeps
-- its clusters in their order and appends the first `num` free ones, or all of them if there are
-- fewer; the chain still ends in an end mark.
pub extend_cluster_chain-Links :
    (fat : List ℕ) (total c : ℕ) (cs : List ℕ) (num : ℕ)
    → Extendable fat total (last_of c cs)
    → Links fat c cs
    → Links
        (extend_cluster_chain fat total (last_of c cs) num).0
        c
        (cs ++ take num (free_clusters fat total))
extend_cluster_chain-Links fat total c cs num e l =
    rw (extend_cluster_chain_lem fat total (last_of c cs) num e) (
      Links-append fat c cs ds l free (
        link-Links fat (last_of c cs) 2 total ds e.within e.stored e.numbered (omega arith)
          (NotIn-Free fat (last_of c cs) ds e.in_use free) between))
  where
    ds : List ℕ
    ds = take num (free_clusters fat total)

    free : Free fat ds
    free = All-take _ num _ (free_from-Free fat (total - 2) 2)

    between : Between 2 total ds
    between = Between-take num 2 total _ (free_from-Between fat (total - 2) 2 total (omega arith))

-- `last_of` is a cluster of the list, or the start.
pub last_of-le : (i n c : ℕ) (ds : List ℕ) → 2 ≤ c → 2 ≤ i → Between i n ds → 2 ≤ last_of c ds
last_of-le i n c [] hc hi b = hc
last_of-le i n c (d ∷ ds) hc hi b = last_of-le (suc d) n d ds (omega arith) (omega arith) b.2

zero_iff : (n m r : ℕ) → 2 ≤ r → ((if ltb n m then 0 else r) ≡ 0) ↔ (n < m)
zero_iff n m r h = (λ e. ground arith, λ lt. ground arith)

-- On a table that holds its numbered clusters, extending behind a cluster that is in use and inside the table takes exactly `num` clusters out
-- of the free ones, or all of them if there are fewer; the result is 0 exactly when there are
-- fewer.
pub extend_cluster_chain-count :
    (fat : List ℕ) (total last num : ℕ)
    → Extendable fat total last
    → (count_free_clusters (extend_cluster_chain fat total last num).0 total
        ≡ count_free_clusters fat total - num)
      × ((extend_cluster_chain fat total last num).1 ≡ 0 ↔ count_free_clusters fat total < num)
extend_cluster_chain-count fat total last num e =
    rw
      (
        extend_cluster_chain_lem fat total last num e,
        count_free_clusters_lem fat total,
        count_free_clusters_lem (link fat last (take num (free_clusters fat total))) total,
        free_from-link fat num (total - 2) 2 total last (omega arith) e.stored (omega arith)
            e.within (inr e.in_use),
        length-drop num (free_clusters fat total),
      )
      (refl, zero_iff (length (free_clusters fat total)) num _ proper)
  where
    proper : 2 ≤ last_of last (take num (free_clusters fat total))
    proper =
        last_of-le 2 total last _ e.proper (omega arith)
          (Between-take num 2 total _ (free_from-Between fat (total - 2) 2 total (omega arith)))

-- Every cluster of the list marked free.
abbrev pub clear : List ℕ → List ℕ → List ℕ
clear fat [] = fat
clear fat (c ∷ cs) = clear (set fat c 0) cs

abbrev pub Distinct : List ℕ → Type 0
Distinct [] = Unit
Distinct (c ∷ cs) = NotIn c cs × Distinct cs

Links-set :
    (fat : List ℕ) (e v c : ℕ) (cs : List ℕ)
    → NotIn e (c ∷ cs)
    → Links fat c cs
    → Links (set fat e v) c cs
Links-set fat e v c [] n l = rw (get_or-set_ne fat e c v 0 n.0) l
Links-set fat e v c (d ∷ ds) n l =
    (get_or-set_ne fat e c v 0 n.0 ∙ l.0, l.1, l.2, Links-set fat e v d ds n.1 l.3)

All-lt_set :
    (fat : List ℕ) (c v : ℕ) (cs : List ℕ)
    → All (λ d. d < length fat) cs
    → All (λ d. d < length (set fat c v)) cs
All-lt_set fat c v [] h = tt
All-lt_set fat c v (d ∷ ds) h = (omega (arith, length-set fat c v), All-lt_set fat c v ds h.1)

free_loop-end :
    (fuel : ℕ) (fat : List ℕ) (c : ℕ) → fat32_eoc_min ≤ c → free_loop (suc fuel) fat c ≡ some fat
unfolding free_loop
free_loop-end fuel fat c h = ground arith

free_loop-next :
    (fuel : ℕ) (fat : List ℕ) (c : ℕ)
    → c < fat32_eoc_min
    → c < length fat
    → free_loop (suc fuel) fat c ≡ free_loop fuel (set fat c 0) (get_or fat c 0)
unfolding free_loop
free_loop-next fuel fat c h lt = ground arith

free_loop_lem :
    (fuel : ℕ) (fat : List ℕ) (c : ℕ) (cs : List ℕ)
    → length cs + 2 ≤ fuel
    → c < fat32_eoc_min
    → All (λ d. d < length fat) (c ∷ cs)
    → Distinct (c ∷ cs)
    → Links fat c cs
    → free_loop fuel fat c ≡ some (clear fat (c ∷ cs))
free_loop_lem zero fat c cs f top within dist l = absurd (omega arith)
free_loop_lem (suc zero) fat c cs f top within dist l = absurd (omega arith)
free_loop_lem (suc (suc fuel)) fat c [] f top within dist l =
    free_loop-next (suc fuel) fat c top within.0
    ∙ free_loop-end fuel (set fat c 0) (get_or fat c 0) l
free_loop_lem (suc (suc fuel)) fat c (d ∷ ds) f top within dist l =
    free_loop-next (suc fuel) fat c top within.0
    ∙ ap (free_loop (suc fuel) (set fat c 0)) l.0
    ∙ free_loop_lem (suc fuel) (set fat c 0) d ds (omega arith) l.2
        (All-lt_set fat c 0 (d ∷ ds) within.1) dist.1 (Links-set fat c 0 d ds dist.0 l.3)

-- Freeing a chain of distinct clusters inside the table, fewer than its entries, ends, and marks
-- exactly its clusters free.
pub free_cluster_chain-clear :
    (fat : List ℕ) (c : ℕ) (cs : List ℕ)
    → 2 ≤ c
    → c < fat32_eoc_min
    → length cs < length fat
    → All (λ d. d < length fat) (c ∷ cs)
    → Distinct (c ∷ cs)
    → Links fat c cs
    → free_cluster_chain fat c ≡ some (clear fat (c ∷ cs))
unfolding free_cluster_chain
free_cluster_chain-clear fat c cs lo top len within dist l =
    ground (arith, free_loop_lem (length fat + 1) fat c cs)
