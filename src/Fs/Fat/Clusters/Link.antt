-- ===== src/Fs/Fat/Clusters/Link.antt =====
-- What the routines of utils.cpp do, said without loops: the free clusters in ascending order, and
-- the writing of a list of clusters as a chain.
use uchos.Prelude.{
  ℕ, zero, suc, ◌+◌, ◌≤◌, ◌<◌, ◌≡◌, ◌≢◌, ◌⊎◌, inl, inr, refl, sym, ap, ◌∙◌, List, [], ◌∷◌, length,
  get_or, set, All, arith, ◌==◌, Bool-cases, ℕ_discrete, if◌then◌else◌, get_or-set_self,
  get_or-set_ne, set_comm, set-set, take, length-set,
}
use uchos.Fs.Fat.Clusters.{end_of_cluster_chain, fat32_eoc_min}

-- The free clusters among the `rounds` clusters from `i` on.
abbrev pub free_from : List ℕ → ℕ → ℕ → List ℕ
free_from fat zero i = []
free_from fat (suc rounds) i =
    if get_or fat i 0 == 0 then i ∷ free_from fat rounds (i + 1) else free_from fat rounds (i + 1)

-- Links the clusters of a list behind `c`; the last one is left open.
abbrev pub link_open : List ℕ → ℕ → List ℕ → List ℕ
link_open fat c [] = fat
link_open fat c (d ∷ ds) = link_open (set fat c d) d ds

abbrev pub last_of : ℕ → List ℕ → ℕ
last_of c [] = c
last_of c (d ∷ ds) = last_of d ds

-- The same with the end-of-chain mark behind the last one.
abbrev pub link : List ℕ → ℕ → List ℕ → List ℕ
link fat c [] = set fat c end_of_cluster_chain
link fat c (d ∷ ds) = link (set fat c d) d ds

-- From `c` the table leads through exactly these clusters, each a cluster number proper, to an
-- end-of-chain mark.
abbrev pub Links : List ℕ → ℕ → List ℕ → Type 0
Links fat c [] = fat32_eoc_min ≤ get_or fat c 0
Links fat c (d ∷ ds) = (get_or fat c 0 ≡ d) × (2 ≤ d) × (d < fat32_eoc_min) × Links fat d ds

abbrev pub NotIn : ℕ → List ℕ → Type 0
NotIn c ds = All (λ d. c ≢ d) ds

-- Strictly ascending from `i` on, and below `n`.
abbrev pub Between : ℕ → ℕ → List ℕ → Type 0
Between i n [] = Unit
Between i n (d ∷ ds) = (i ≤ d) × (d < n) × Between (suc d) n ds

-- Every cluster of the list is free.
abbrev pub Free : List ℕ → List ℕ → Type 0
Free fat ds = All (λ d. get_or fat d 0 ≡ 0) ds

pub Between-mono : (i j n : ℕ) (ds : List ℕ) → j ≤ i → Between i n ds → Between j n ds
Between-mono i j n [] h b = tt
Between-mono i j n (d ∷ ds) h b = (omega arith, b.1, b.2)

pub NotIn-Between : (c i n : ℕ) (ds : List ℕ) → c < i → Between i n ds → NotIn c ds
NotIn-Between c i n [] h b = tt
NotIn-Between c i n (d ∷ ds) h b = (omega arith, NotIn-Between c (suc d) n ds (omega arith) b.2)

pub free_from-Between :
    (fat : List ℕ) (rounds i n : ℕ) → i + rounds ≤ n → Between i n (free_from fat rounds i)
free_from-Between fat zero i n h = tt
free_from-Between fat (suc rounds) i n h = elim (Bool-cases (get_or fat i 0 == 0)) [
  | inl free ↦ rw free (
    omega arith,
    omega arith,
    rw (← suc-eq i) (free_from-Between fat rounds (i + 1) n (omega arith)),
  )
  | inr used ↦ rw used (
      Between-mono (i + 1) i n _ (omega arith)
        (free_from-Between fat rounds (i + 1) n (omega arith)))
]
  where
    suc-eq : (i : ℕ) → i + 1 ≡ suc i
    suc-eq i = omega arith

pub free_from-Free : (fat : List ℕ) (rounds i : ℕ) → Free fat (free_from fat rounds i)
free_from-Free fat zero i = tt
free_from-Free fat (suc rounds) i = ground (arith, free_from-Free fat rounds (i + 1))

-- A write of a link into a cluster that the scan has passed, or that was in use, frees nothing and
-- takes nothing.
pub free_from-set :
    (fat : List ℕ) (rounds i c v : ℕ)
    → c < length fat
    → v ≢ 0
    → (c < i) ⊎ (get_or fat c 0 ≢ 0)
    → free_from (set fat c v) rounds i ≡ free_from fat rounds i
free_from-set fat zero i c v h nz w = refl
free_from-set fat (suc rounds) i c v h nz w =
    let ih = free_from-set fat rounds (i + 1) c v h nz (weaken w) in
    elim (ℕ_discrete c i) [
      | yes same ↦ ground (arith, ih, get_or-set_self fat i v 0)
      | no other ↦ ground (arith, ih, get_or-set_ne fat c i v 0 other)
    ]
  where
    weaken : (c < i) ⊎ (get_or fat c 0 ≢ 0) → (c < i + 1) ⊎ (get_or fat c 0 ≢ 0)
    weaken (inl lt) = inl (omega arith)
    weaken (inr used) = inr used

pub link-link_open :
    (fat : List ℕ) (c : ℕ) (ds : List ℕ)
    → set (link_open fat c ds) (last_of c ds) end_of_cluster_chain ≡ link fat c ds
link-link_open fat c [] = refl
link-link_open fat c (d ∷ ds) = link-link_open (set fat c d) d ds

pub length-link : (fat : List ℕ) (c : ℕ) (ds : List ℕ) → length (link fat c ds) ≡ length fat
length-link fat c [] = length-set fat c end_of_cluster_chain
length-link fat c (d ∷ ds) = length-link (set fat c d) d ds ∙ length-set fat c d

-- Linking leaves every other cluster alone.
pub get_or-link :
    (fat : List ℕ) (c e : ℕ) (ds : List ℕ)
    → e ≢ c
    → NotIn e ds
    → get_or (link fat c ds) e 0 ≡ get_or fat e 0
get_or-link fat c e [] h n = get_or-set_ne fat c e end_of_cluster_chain 0 (λ p. h (sym p))
get_or-link fat c e (d ∷ ds) h n =
    get_or-link (set fat c d) d e ds n.0 n.1 ∙ get_or-set_ne fat c e d 0 (λ p. h (sym p))

-- And commutes with a write to another cluster.
pub set-link :
    (fat : List ℕ) (c e v : ℕ) (ds : List ℕ)
    → e ≢ c
    → NotIn e ds
    → set (link fat c ds) e v ≡ link (set fat e v) c ds
set-link fat c e v [] h n = set_comm fat c e end_of_cluster_chain v (λ p. h (sym p))
set-link fat c e v (d ∷ ds) h n =
    set-link (set fat c d) d e v ds n.0 n.1
    ∙ ap (λ t. link t d ds) (set_comm fat c e d v (λ p. h (sym p)))

-- What was linked is a chain.
pub link-Links :
    (fat : List ℕ) (c i n : ℕ) (ds : List ℕ)
    → c < length fat
    → n ≤ length fat
    → n ≤ fat32_eoc_min
    → 2 ≤ i
    → NotIn c ds
    → Between i n ds
    → Links (link fat c ds) c ds
link-Links fat c i n [] h hn top lo notin b =
    rw (get_or-set_self fat c end_of_cluster_chain 0 h) (omega arith)
link-Links fat c i n (d ∷ ds) h hn top lo notin b = (
  get_or-link (set fat c d) d c ds notin.0 notin.1 ∙ get_or-set_self fat c d 0 h,
  omega arith,
  omega arith,
  link-Links (set fat c d) d (suc d) n ds (omega (arith, length-set fat c d))
      (omega (arith, length-set fat c d)) top (omega arith)
      (NotIn-Between d (suc d) n ds (omega arith) b.2) b.2,
)

-- Its first cluster is in use.
pub link-used :
    (fat : List ℕ) (c i n : ℕ) (ds : List ℕ)
    → c < length fat
    → 0 < i
    → NotIn c ds
    → Between i n ds
    → get_or (link fat c ds) c 0 ≢ 0
link-used fat c i n [] h lo notin b =
    rw (get_or-set_self fat c end_of_cluster_chain 0 h) (omega arith)
link-used fat c i n (d ∷ ds) h lo notin b =
    rw (get_or-link (set fat c d) d c ds notin.0 notin.1, get_or-set_self fat c d 0 h) (omega arith)

-- A first write to the cluster is covered by the linking.
pub link-set : (fat : List ℕ) (c v : ℕ) (ds : List ℕ) → link (set fat c v) c ds ≡ link fat c ds
link-set fat c v [] = set-set fat c v end_of_cluster_chain
link-set fat c v (d ∷ ds) = ap (λ t. link t d ds) (set-set fat c v d)

pub Between-length : (i n : ℕ) (ds : List ℕ) → i ≤ n → Between i n ds → length ds + i ≤ n
Between-length i n [] h b = omega arith
Between-length i n (d ∷ ds) h b = omega (arith, Between-length (suc d) n ds (omega arith) b.2)

pub Between-take : (k i n : ℕ) (ds : List ℕ) → Between i n ds → Between i n (take k ds)
Between-take zero i n ds b = tt
Between-take (suc k) i n [] b = tt
Between-take (suc k) i n (d ∷ ds) b = (b.0, b.1, Between-take k (suc d) n ds b.2)

-- Clusters in use are not among the free ones.
pub NotIn-Free :
    (fat : List ℕ) (c : ℕ) (ds : List ℕ) → get_or fat c 0 ≢ 0 → Free fat ds → NotIn c ds
NotIn-Free fat c [] h f = tt
NotIn-Free fat c (d ∷ ds) h f =
    (λ e. h (ap (λ x. get_or fat x 0) e ∙ f.0), NotIn-Free fat c ds h f.1)
