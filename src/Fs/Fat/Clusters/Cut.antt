-- ===== src/Fs/Fat/Clusters/Cut.antt =====
-- A chain cut in two: the clusters before the cut stay linked, those behind it are cleared.
use uchos.Prelude.{
  ℕ, ◌<◌, ◌≤◌, ◌≡◌, ◌≢◌, refl, sym, ◌∙◌, List, [], ◌∷◌, ◌++◌, length, set, get_or, All, arith,
  length-set, get_or-set_self, get_or-set_ne,
}
use uchos.Fs.Fat.Clusters.{end_of_cluster_chain, fat32_eoc_min}
use uchos.Fs.Fat.Clusters.Link.{Links, NotIn, Free, last_of}
use uchos.Fs.Fat.Clusters.Chain.{clear, Distinct}

-- The links of a chain, without its end.
abbrev pub Leads : List ℕ → ℕ → List ℕ → Type 0
Leads fat c [] = Unit
Leads fat c (d ∷ ds) = (get_or fat c 0 ≡ d) × (2 ≤ d) × (d < fat32_eoc_min) × Leads fat d ds

-- A chain that is cut before `d`.
pub record Halves (fat : List ℕ) (c : ℕ) (xs : List ℕ) (d : ℕ) (ys : List ℕ) : Type 0 where
  pub leads : Leads fat c xs
  pub last_proper : last_of c xs < fat32_eoc_min
  pub cut : get_or fat (last_of c xs) 0 ≡ d
  pub low : 2 ≤ d
  pub high : d < fat32_eoc_min
  pub tail : Links fat d ys

pub Links-Halves :
    (fat : List ℕ) (c : ℕ) (xs : List ℕ) (d : ℕ) (ys : List ℕ)
    → c < fat32_eoc_min
    → Links fat c (xs ++ d ∷ ys)
    → Halves fat c xs d ys
Links-Halves fat c [] d ys top l = record {
  leads = tt;
  last_proper = top;
  cut = l.0;
  low = l.1;
  high = l.2;
  tail = l.3;
}
Links-Halves fat c (x ∷ xs) d ys top l =
    let h = Links-Halves fat x xs d ys l.2 l.3 in
    record {
      leads = (l.0, l.1, l.2, h.leads);
      last_proper = h.last_proper;
      cut = h.cut;
      low = h.low;
      high = h.high;
      tail = h.tail;
    }

-- Two parts of a list of distinct clusters.
pub Distinct-append :
    (as_ bs : List ℕ)
    → Distinct (as_ ++ bs)
    → Distinct as_ × Distinct bs × All (λ e. NotIn e as_) bs
Distinct-append [] bs h = (tt, h, none_in bs)
  where
    none_in : (bs : List ℕ) → All (λ e. NotIn e []) bs
    none_in [] = tt
    none_in (b ∷ bs) = (tt, none_in bs)
Distinct-append (a ∷ as_) bs h =
    let (d, d', n) = Distinct-append as_ bs h.1 in
    ((first as_ bs h.0, d), d', both bs (second as_ bs h.0) n)
  where
    first : (as_ bs : List ℕ) → NotIn a (as_ ++ bs) → NotIn a as_
    first [] bs n = tt
    first (x ∷ xs) bs n = (n.0, first xs bs n.1)

    second : (as_ bs : List ℕ) → NotIn a (as_ ++ bs) → NotIn a bs
    second [] bs n = n
    second (x ∷ xs) bs n = second xs bs n.1

    both : (bs : List ℕ) → NotIn a bs → All (λ e. NotIn e as_) bs → All (λ e. NotIn e (a ∷ as_)) bs
    both [] n m = tt
    both (b ∷ bs) n m = (((λ e. n.0 (sym e)), m.0), both bs n.1 m.1)

pub Leads-set :
    (fat : List ℕ) (e v c : ℕ) (xs : List ℕ)
    → NotIn e (c ∷ xs)
    → Leads fat c xs
    → Leads (set fat e v) c xs
Leads-set fat e v c [] n l = tt
Leads-set fat e v c (x ∷ xs) n l =
    (get_or-set_ne fat e c v 0 n.0 ∙ l.0, l.1, l.2, Leads-set fat e v x xs n.1 l.3)

pub Leads-clear :
    (fat : List ℕ) (c : ℕ) (xs ds : List ℕ)
    → All (λ e. NotIn e (c ∷ xs)) ds
    → Leads fat c xs
    → Leads (clear fat ds) c xs
Leads-clear fat c xs [] n l = l
Leads-clear fat c xs (d ∷ ds) n l =
    Leads-clear (set fat d 0) c xs ds n.1 (Leads-set fat d 0 c xs n.0 l)

pub last_of-NotIn : (c d : ℕ) (xs : List ℕ) → NotIn c (d ∷ xs) → c ≢ last_of d xs
last_of-NotIn c d [] n = n.0
last_of-NotIn c d (x ∷ xs) n = last_of-NotIn c x xs n.1

-- An end mark at the last cluster makes it a chain.
pub Leads-end :
    (fat : List ℕ) (c : ℕ) (xs : List ℕ)
    → Distinct (c ∷ xs)
    → last_of c xs < length fat
    → Leads fat c xs
    → Links (set fat (last_of c xs) end_of_cluster_chain) c xs
Leads-end fat c [] dist within l =
    let e : get_or (set fat c end_of_cluster_chain) c 0 ≡ end_of_cluster_chain =
      get_or-set_self fat c end_of_cluster_chain 0 within in
    rw e (omega arith)
Leads-end fat c (x ∷ xs) dist within l = (
  get_or-set_ne fat (last_of x xs) c end_of_cluster_chain 0
        (λ e. last_of-NotIn c x xs dist.0 (sym e))
      ∙ l.0,
  l.1,
  l.2,
  Leads-end fat x xs dist.1 within l.3,
)

pub length-clear : (fat ds : List ℕ) → length (clear fat ds) ≡ length fat
length-clear fat [] = refl
length-clear fat (d ∷ ds) = length-clear (set fat d 0) ds ∙ length-set fat d 0

pub get_or-clear_ne :
    (fat : List ℕ) (e : ℕ) (ds : List ℕ) → NotIn e ds → get_or (clear fat ds) e 0 ≡ get_or fat e 0
get_or-clear_ne fat e [] n = refl
get_or-clear_ne fat e (d ∷ ds) n =
    get_or-clear_ne (set fat d 0) e ds n.1 ∙ get_or-set_ne fat d e 0 0 (λ p. n.0 (sym p))

pub Distinct-Free :
    (fat ds : List ℕ) → All (λ d. d < length fat) ds → Distinct ds → Free (clear fat ds) ds
Distinct-Free fat [] w dist = tt
Distinct-Free fat (d ∷ ds) w dist = (
  get_or-clear_ne (set fat d 0) d ds dist.0 ∙ get_or-set_self fat d 0 0 w.0,
  Distinct-Free (set fat d 0) ds (shifted fat d ds w.1) dist.1,
)
  where
    shifted :
        (fat : List ℕ) (d : ℕ) (ds : List ℕ)
        → All (λ e. e < length fat) ds
        → All (λ e. e < length (set fat d 0)) ds
    shifted fat d [] w = tt
    shifted fat d (e ∷ es) w = (omega (arith, w.0, length-set fat d 0), shifted fat d es w.1)

pub Free-set :
    (fat : List ℕ) (e v : ℕ) (ds : List ℕ) → NotIn e ds → Free fat ds → Free (set fat e v) ds
Free-set fat e v [] n f = tt
Free-set fat e v (d ∷ ds) n f = (get_or-set_ne fat e d v 0 n.0 ∙ f.0, Free-set fat e v ds n.1 f.1)

pub All-split {κ} : (P : ℕ → Type κ) (as_ bs : List ℕ) → All P (as_ ++ bs) → All P as_ × All P bs
All-split P [] bs h = (tt, h)
All-split P (a ∷ as_) bs h = let (l, r) = All-split P as_ bs h.1 in ((h.0, l), r)

pub last_of-lt : (n c : ℕ) (xs : List ℕ) → All (λ e. e < n) (c ∷ xs) → last_of c xs < n
last_of-lt n c [] h = h.0
last_of-lt n c (x ∷ xs) h = last_of-lt n x xs h.1

pub NotIn-last_of :
    (c : ℕ) (xs bs : List ℕ) → All (λ e. NotIn e (c ∷ xs)) bs → NotIn (last_of c xs) bs
NotIn-last_of c xs [] n = tt
NotIn-last_of c xs (b ∷ bs) n = ((λ e. last_of-NotIn b c xs n.0 (sym e)), NotIn-last_of c xs bs n.1)
