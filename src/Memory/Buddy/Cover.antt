-- ===== src/Memory/Buddy/Cover.antt =====
-- How many free blocks a page lies in, and the well-formedness of the lists.
use uchos.Prelude.{
  ℕ, zero, suc, ◌+◌, ◌*◌, ◌^◌, ◌<◌, ◌≤◌, ◌≡◌, ◌≢◌, sym, ap, subst, List, [], ◌∷◌, ◌++◌, All, ltb,
  leb, if◌then◌else◌, arith, ℕ_discrete,
}
use native.Mathlib.Nat.{pow-suc}
use uchos.Prelude.Bits.Width.{pow-pos}
use uchos.Memory.Buddy.{FreeLists, max_order, put_list}

-- 1 for a page of the block, else 0.
abbrev pub in_block : ℕ → ℕ → ℕ → ℕ
in_block order block p = if leb block p then (if ltb p (block + 2 ^ order) then 1 else 0) else 0

abbrev pub covers : ℕ → List ℕ → ℕ → ℕ
covers order [] p = 0
covers order (b ∷ bs) p = in_block order b p + covers order bs p

abbrev pub cover_upto : ℕ → FreeLists → ℕ → ℕ
cover_upto zero lists p = covers 0 (lists 0) p
cover_upto (suc n) lists p = covers (suc n) (lists (suc n)) p + cover_upto n lists p

-- The number of free blocks that a page lies in.
unfoldable pub cover : FreeLists → ℕ → ℕ
cover lists p = cover_upto max_order lists p

-- A block of the order, inside the pages.
pub record IsBlock (pages order block : ℕ) : Type 0 where
  pub quotient : ℕ
  pub aligned : block ≡ quotient * 2 ^ order
  pub inside : block + 2 ^ order ≤ pages

abbrev pub WellFormed : ℕ → FreeLists → Type 0
WellFormed pages lists = (order : ℕ) → order ≤ max_order → All (IsBlock pages order) (lists order)

pub covers-append :
    (order : ℕ) (xs ys : List ℕ) (p : ℕ)
    → covers order (xs ++ ys) p ≡ covers order xs p + covers order ys p
covers-append order [] ys p = omega arith
covers-append order (x ∷ xs) ys p = omega (arith, covers-append order xs ys p)

pub put_list_self : (lists : FreeLists) (o : ℕ) (xs : List ℕ) → put_list lists o xs o ≡ xs
put_list_self lists o xs = ground arith

pub put_list-ne :
    (lists : FreeLists) (o i : ℕ) (xs : List ℕ) → i ≢ o → put_list lists o xs i ≡ lists i
put_list-ne lists o i xs ne = ground (arith, ne)

cover_upto-above :
    (n o : ℕ) (lists : FreeLists) (xs : List ℕ) (p : ℕ)
    → n < o
    → cover_upto n (put_list lists o xs) p ≡ cover_upto n lists p
cover_upto-above zero o lists xs p h =
    ap (λ bs. covers 0 bs p) (put_list-ne lists o 0 xs (λ e. omega (arith, h, e)))
cover_upto-above (suc n) o lists xs p h =
    let same =
      ap (λ bs. covers (suc n) bs p) (put_list-ne lists o (suc n) xs (λ e. omega (arith, h, e))) in
    omega (arith, same, cover_upto-above n o lists xs p (omega (arith, h)))

cover_upto-put :
    (n o : ℕ) (lists : FreeLists) (xs : List ℕ) (p : ℕ)
    → o ≤ n
    → cover_upto n (put_list lists o xs) p + covers o (lists o) p
      ≡ cover_upto n lists p + covers o xs p
cover_upto-put zero zero lists xs p h = omega arith
cover_upto-put zero (suc o) lists xs p h = absurd (omega (arith, h))
cover_upto-put (suc n) o lists xs p h = elim (ℕ_discrete o (suc n)) [
  | yes top ↦
      subst
        (λ o.
          cover_upto (suc n) (put_list lists o xs) p + covers o (lists o) p
          ≡ cover_upto (suc n) lists p + covers o xs p)
        (sym top)
        (let same = ap (λ bs. covers (suc n) bs p) (put_list_self lists (suc n) xs) in
          omega (arith, same, cover_upto-above n (suc n) lists xs p (omega arith)))
  | no other ↦
      let same =
        ap (λ bs. covers (suc n) bs p) (put_list-ne lists o (suc n) xs (λ e. other (sym e))) in
      omega (arith, same, cover_upto-put n o lists xs p (omega (arith, h, other)))
]

-- What a change of one list does to the cover.
pub cover-put :
    (o : ℕ) (lists : FreeLists) (xs : List ℕ) (p : ℕ)
    → o ≤ max_order
    → cover (put_list lists o xs) p + covers o (lists o) p ≡ cover lists p + covers o xs p
unfolding cover
cover-put o lists xs p h = cover_upto-put max_order o lists xs p h

cover_upto-le :
    (n o : ℕ) (lists : FreeLists) (p : ℕ) → o ≤ n → covers o (lists o) p ≤ cover_upto n lists p
cover_upto-le zero zero lists p h = omega arith
cover_upto-le zero (suc o) lists p h = absurd (omega (arith, h))
cover_upto-le (suc n) o lists p h = elim (ℕ_discrete o (suc n)) [
  | yes top ↦ subst (λ o. covers o (lists o) p ≤ cover_upto (suc n) lists p) (sym top) (omega arith)
  | no other ↦ omega (arith, cover_upto-le n o lists p (omega (arith, h, other)))
]

pub cover-le :
    (o : ℕ) (lists : FreeLists) (p : ℕ) → o ≤ max_order → covers o (lists o) p ≤ cover lists p
unfolding cover
cover-le o lists p h = cover_upto-le max_order o lists p h

-- A block of the next order is two blocks.
pub in_block-halves : (o b p : ℕ) → in_block (suc o) b p ≡ in_block o b p + in_block o (b + 2 ^ o) p
in_block-halves o b p = ground (arith, pow-suc 2 o, pow-pos o)

pub in_block_self : (o b : ℕ) → in_block o b b ≡ 1
in_block_self o b = ground (arith, pow-pos o)

-- Well-formed lists stay so when one list is replaced by well-formed blocks.
pub WellFormed-put :
    (pages o : ℕ) (lists : FreeLists) (xs : List ℕ)
    → WellFormed pages lists
    → All (IsBlock pages o) xs
    → WellFormed pages (put_list lists o xs)
WellFormed-put pages o lists xs wf all i le = elim (ℕ_discrete i o) [
  | yes same ↦
      subst (λ i. All (IsBlock pages i) (put_list lists o xs i)) (sym same)
        (subst (All (IsBlock pages o)) (sym (put_list_self lists o xs)) all)
  | no other ↦ subst (All (IsBlock pages i)) (sym (put_list-ne lists o i xs other)) (wf i le)
]

-- The two halves of a block, of which one is its start.
pub IsBlock-lower : (pages o b : ℕ) → IsBlock pages (suc o) b → IsBlock pages o b
IsBlock-lower pages o b block = record {
  quotient = block.quotient * 2;
  aligned = omega (arith, block.aligned, ap (λ (t : ℕ). block.quotient * t) (pow-suc 2 o));
  inside = omega (arith, block.inside, pow-suc 2 o);
}

pub IsBlock-upper : (pages o b : ℕ) → IsBlock pages (suc o) b → IsBlock pages o (b + 2 ^ o)
IsBlock-upper pages o b block = record {
  quotient = block.quotient * 2 + 1;
  aligned = omega (arith, block.aligned, ap (λ (t : ℕ). block.quotient * t) (pow-suc 2 o));
  inside = omega (arith, block.inside, pow-suc 2 o);
}
