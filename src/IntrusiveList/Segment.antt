-- ===== src/IntrusiveList/Segment.antt =====
-- Chains of nodes in the memory.
use uchos.Prelude.{
  ℕ, zero, suc, ◌+◌, ◌<◌, ◌≡◌, ◌≢◌, refl, sym, ap, ◌∙◌, Bool, false, ◌||◌, some, List, [], ◌∷◌,
  ◌++◌, All, length, ◌==◌, ==_refl, ==_false, arith,
}
use uchos.IntrusiveList.{Links, contains_from, size_from}

-- The nodes `xs` lie between `a` and `b`, linked both ways.
abbrev pub Seg : Links → ℕ → List ℕ → ℕ → Type 0
Seg s a [] b = (s.next a ≡ b) × (s.prev b ≡ a)
Seg s a (x ∷ xs) b = (s.next a ≡ x) × (s.prev x ≡ a) × Seg s x xs b

abbrev pub Fresh : ℕ → List ℕ → Type 0
Fresh a xs = All (λ x. x ≢ a) xs

abbrev pub Distinct : List ℕ → Type 0
Distinct [] = Unit
Distinct (x ∷ xs) = Fresh x xs × Distinct xs

abbrev pub member : List ℕ → ℕ → Bool
member [] e = false
member (x ∷ xs) e = x == e || member xs e

-- The last of the nodes, or `a`.
abbrev pub last_from : ℕ → List ℕ → ℕ
last_from a [] = a
last_from a (x ∷ xs) = last_from x xs

pub prev-last : (s : Links) (a : ℕ) (xs : List ℕ) (b : ℕ) → Seg s a xs b → s.prev b ≡ last_from a xs
prev-last s a [] b seg = seg.1
prev-last s a (x ∷ xs) b seg = prev-last s x xs b seg.2

pub last_from-ne : (a x : ℕ) (xs : List ℕ) → x ≢ a → Fresh a xs → last_from x xs ≢ a
last_from-ne a x [] ne fresh = ne
last_from-ne a x (y ∷ ys) ne fresh = last_from-ne a y ys fresh.0 fresh.1

-- A write at the ends leaves a chain that does not begin at `h` and has no link back from `y`.
pub Seg-frame :
    (s s' : Links) (h y a : ℕ) (xs : List ℕ) (b : ℕ)
    → ((i : ℕ) → i ≢ h → s'.next i ≡ s.next i)
    → ((i : ℕ) → i ≢ y → s'.prev i ≡ s.prev i)
    → a ≢ h
    → Fresh h xs
    → Fresh y xs
    → b ≢ y
    → Seg s a xs b
    → Seg s' a xs b
Seg-frame s s' h y a [] b nexts prevs ah fh fy by seg = (nexts a ah ∙ seg.0, prevs b by ∙ seg.1)
Seg-frame s s' h y a (x ∷ xs) b nexts prevs ah fh fy by seg = (
  nexts a ah ∙ seg.0,
  prevs x fy.0 ∙ seg.1,
  Seg-frame s s' h y x xs b nexts prevs fh.0 fh.1 fy.1 by seg.2,
)

-- What the four writes of a push do to the chain.
pub Seg-push :
    (s s' : Links) (h e a : ℕ) (xs : List ℕ)
    → s'.next e ≡ h
    → s'.prev h ≡ e
    → s'.next (last_from a xs) ≡ e
    → s'.prev e ≡ last_from a xs
    → ((i : ℕ) → i ≢ e → i ≢ last_from a xs → s'.next i ≡ s.next i)
    → ((i : ℕ) → i ≢ e → i ≢ h → s'.prev i ≡ s.prev i)
    → a ≢ e
    → Fresh e xs
    → Fresh h xs
    → Fresh a xs
    → Distinct xs
    → Seg s a xs h
    → Seg s' a (xs ++ e ∷ []) h
Seg-push s s' h e a [] ne ph nl pe nexts prevs ae fe fh fa d seg = (nl, pe, (ne, ph))
Seg-push s s' h e a (x ∷ xs) ne ph nl pe nexts prevs ae fe fh fa d seg = (
  nexts a ae (λ same. last_from-ne a x xs fa.0 fa.1 (sym same)) ∙ seg.0,
  prevs x fe.0 fh.0 ∙ seg.1,
  Seg-push s s' h e x xs ne ph nl pe nexts prevs fe.0 fe.1 fh.1 d.0 d.1 seg.2,
)

-- The walks from the node behind `a`.
pub contains_from-Seg :
    (fuel : ℕ) (s : Links) (h e a : ℕ) (xs : List ℕ)
    → length xs < fuel
    → Fresh h xs
    → Seg s a xs h
    → contains_from fuel s h e (s.next a) ≡ some (member xs e)
unfolding contains_from
contains_from-Seg zero s h e a xs enough fresh seg = absurd (omega (arith, enough))
contains_from-Seg (suc fuel) s h e a [] enough fresh seg = rw (seg.0, ==_refl h) refl
contains_from-Seg (suc fuel) s h e a (x ∷ xs) enough fresh seg =
    let rest = contains_from-Seg fuel s h e x xs (omega (arith, enough)) fresh.1 seg.2 in
    rw (seg.0, ==_false x h fresh.0) (ground (arith, rest))

pub size_from-Seg :
    (fuel : ℕ) (s : Links) (h a : ℕ) (xs : List ℕ) (size : ℕ)
    → length xs < fuel
    → Fresh h xs
    → Seg s a xs h
    → size_from fuel s h (s.next a) size ≡ some (size + length xs)
unfolding size_from
size_from-Seg zero s h a xs size enough fresh seg = absurd (omega (arith, enough))
size_from-Seg (suc fuel) s h a [] size enough fresh seg =
    rw (seg.0, ==_refl h) (ap some (omega arith))
size_from-Seg (suc fuel) s h a (x ∷ xs) size enough fresh seg =
    let rest = size_from-Seg fuel s h x xs (size + 1) (omega (arith, enough)) fresh.1 seg.2 in
    rw (seg.0, ==_false x h fresh.0) (rest ∙ ap some (omega arith))
