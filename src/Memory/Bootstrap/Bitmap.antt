-- ===== src/Memory/Bootstrap/Bitmap.antt =====
-- The bitmap's bits after one write and after a run of them.
use uchos.Prelude.{
  ℕ, zero, suc, ◌+◌, ◌-◌, ◌*◌, ◌/◌, ◌%◌, ◌^◌, ◌<◌, ◌≤◌, ◌≡◌, ◌≢◌, refl, sym, ap, ◌∙◌, bit_and, true,
  false, List, length, get_or, set, length-set, replicate, get_or-set_self, get_or-set_ne, ltb, leb,
  ◌==◌, ◌!=◌, if◌then◌else◌, arith, ℕ_discrete,
}
use uchos.Prelude.Bits.Digits.{
  digit, digit-bit_and, digit-bit_or, digit-lt, digit-pow, digit-complement, bit_and-digit,
  digit-all,
}
use uchos.Prelude.Bits.Width.{pow-pos}
use uchos.Memory.Bootstrap.{entry_size, word, is_bit_set, set_bit, clear_bit, set_bits, clear_bits}

abbrev bit : List ℕ → ℕ → ℕ
bit bitmap i = digit (word bitmap i) (i % entry_size)

digit-test : (x c : ℕ) → (bit_and x (2 ^ c) != 0) ≡ (digit x c == 1)
digit-test x c = elim (ℕ_discrete (digit x c) 0) [
  | yes clear ↦
      let none_left : bit_and x (2 ^ c) ≡ 0 =
        omega (arith, bit_and-digit c x, ap (λ (t : ℕ). t * 2 ^ c) clear) in
      ground (arith, none_left, clear)
  | no is_set ↦
      let one : digit x c ≡ 1 = omega (arith, is_set, digit-lt x c) in
      let some_left : 0 < bit_and x (2 ^ c) =
        omega (arith, bit_and-digit c x, ap (λ (t : ℕ). t * 2 ^ c) one, pow-pos c) in
      ground (arith, some_left, one)
]

is_bit_set-bit : (bitmap : List ℕ) (i : ℕ) → is_bit_set bitmap i ≡ (bit bitmap i == 1)
unfolding is_bit_set
is_bit_set-bit bitmap i = digit-test (word bitmap i) (i % entry_size)

-- A bit after a write of word `i / 64`, by what the write does to the digit.
bit-set :
    (bitmap : List ℕ) (i j v new : ℕ)
    → i / entry_size < length bitmap
    → new < 2
    → ((c : ℕ)
        → c < 64
        → digit v c ≡ (if i % entry_size == c then new else digit (word bitmap i) c))
    → bit (set bitmap (i / entry_size) v) j ≡ (if i == j then new else bit bitmap j)
bit-set bitmap i j v new lt small digits = elim (ℕ_discrete (i / entry_size) (j / entry_size)) [
  | no other ↦
      let kept : word (set bitmap (i / entry_size) v) j ≡ word bitmap j =
        get_or-set_ne bitmap (i / entry_size) (j / entry_size) v 0 other in
      let differs : i ≢ j = λ e. other (ap (λ k. k / entry_size) e) in
      ap (λ w. digit w (j % entry_size)) kept ∙ ground (arith, differs)
  | yes same ↦
      let written : word (set bitmap (i / entry_size) v) j ≡ v =
        sym (ap (λ k. get_or (set bitmap (i / entry_size) v) k 0) same)
        ∙ get_or-set_self bitmap (i / entry_size) v 0 lt in
      let before : digit (word bitmap i) (j % entry_size) ≡ bit bitmap j =
        ap (λ k. digit (get_or bitmap k 0) (j % entry_size)) same in
      let after = digits (j % entry_size) (omega arith) in
      ap (λ w. digit w (j % entry_size)) written ∙ ground (arith, after, before, same)
]

pub bit-set_bit :
    (bitmap : List ℕ) (i j : ℕ)
    → i / entry_size < length bitmap
    → bit (set_bit bitmap i) j ≡ (if i == j then 1 else bit bitmap j)
unfolding set_bit
bit-set_bit bitmap i j lt = bit-set bitmap i j _ 1 lt (omega arith) (λ c h.
    let old = digit-bit_or c (word bitmap i) (2 ^ (i % entry_size)) in
    ground (arith, old, digit-pow (i % entry_size) c, digit-lt (word bitmap i) c))

pub bit-clear_bit :
    (bitmap : List ℕ) (i j : ℕ)
    → i / entry_size < length bitmap
    → bit (clear_bit bitmap i) j ≡ (if i == j then 0 else bit bitmap j)
unfolding clear_bit
bit-clear_bit bitmap i j lt = bit-set bitmap i j _ 0 lt (omega arith) (λ c h.
    let old = digit-bit_and c (word bitmap i) (2 ^ 64 - 1 - 2 ^ (i % entry_size)) in
    let mask = digit-complement 64 (i % entry_size) c (omega arith) h in
    ground (arith, old, mask, digit-lt (word bitmap i) c))

length-set_bit : (bitmap : List ℕ) (i : ℕ) → length (set_bit bitmap i) ≡ length bitmap
unfolding set_bit
length-set_bit bitmap i = length-set bitmap (i / entry_size) _

length-clear_bit : (bitmap : List ℕ) (i : ℕ) → length (clear_bit bitmap i) ≡ length bitmap
unfolding clear_bit
length-clear_bit bitmap i = length-set bitmap (i / entry_size) _

bit-set_bits :
    (bitmap : List ℕ) (start n j : ℕ)
    → start + n ≤ entry_size * length bitmap
    → bit (set_bits bitmap start n) j
      ≡ (if leb start j then (if ltb j (start + n) then 1 else bit bitmap j) else bit bitmap j)
unfolding set_bits
bit-set_bits bitmap start zero j inside = ground arith
bit-set_bits bitmap start (suc n) j inside =
    let here = bit-set_bit bitmap start j (omega (arith, inside)) in
    let rest =
      bit-set_bits (set_bit bitmap start) (start + 1) n j
        (omega (arith, inside, length-set_bit bitmap start)) in
    rest ∙ ground (arith, here)

bit-clear_bits :
    (bitmap : List ℕ) (start n j : ℕ)
    → start + n ≤ entry_size * length bitmap
    → bit (clear_bits bitmap start n) j
      ≡ (if leb start j then (if ltb j (start + n) then 0 else bit bitmap j) else bit bitmap j)
unfolding clear_bits
bit-clear_bits bitmap start zero j inside = ground arith
bit-clear_bits bitmap start (suc n) j inside =
    let here = bit-clear_bit bitmap start j (omega (arith, inside)) in
    let rest =
      bit-clear_bits (clear_bit bitmap start) (start + 1) n j
        (omega (arith, inside, length-clear_bit bitmap start)) in
    rest ∙ ground (arith, here)

pub length-set_bits :
    (bitmap : List ℕ) (start n : ℕ) → length (set_bits bitmap start n) ≡ length bitmap
unfolding set_bits
length-set_bits bitmap start zero = refl
length-set_bits bitmap start (suc n) =
    length-set_bits (set_bit bitmap start) (start + 1) n ∙ length-set_bit bitmap start

pub length-clear_bits :
    (bitmap : List ℕ) (start n : ℕ) → length (clear_bits bitmap start n) ≡ length bitmap
unfolding clear_bits
length-clear_bits bitmap start zero = refl
length-clear_bits bitmap start (suc n) =
    length-clear_bits (clear_bit bitmap start) (start + 1) n ∙ length-clear_bit bitmap start

-- A run of bits is set, and the others stay.
pub is_bit_set-set_bits :
    (bitmap : List ℕ) (start n j : ℕ)
    → start + n ≤ entry_size * length bitmap
    → is_bit_set (set_bits bitmap start n) j ≡ (
        if leb start j
        then (if ltb j (start + n) then true else is_bit_set bitmap j)
        else is_bit_set bitmap j)
is_bit_set-set_bits bitmap start n j inside =
    is_bit_set-bit (set_bits bitmap start n) j
    ∙ ap (λ b. b == 1) (bit-set_bits bitmap start n j inside)
    ∙ ground (arith, is_bit_set-bit bitmap j)

-- A run of bits is cleared, and the others stay.
pub is_bit_set-clear_bits :
    (bitmap : List ℕ) (start n j : ℕ)
    → start + n ≤ entry_size * length bitmap
    → is_bit_set (clear_bits bitmap start n) j ≡ (
        if leb start j
        then (if ltb j (start + n) then false else is_bit_set bitmap j)
        else is_bit_set bitmap j)
is_bit_set-clear_bits bitmap start n j inside =
    is_bit_set-bit (clear_bits bitmap start n) j
    ∙ ap (λ b. b == 1) (bit-clear_bits bitmap start n j inside)
    ∙ ground (arith, is_bit_set-bit bitmap j)

get_or-replicate : (n k v d : ℕ) → k < n → get_or (replicate n v) k d ≡ v
get_or-replicate zero k v d lt = absurd (omega (arith, lt))
get_or-replicate (suc n) zero v d lt = refl
get_or-replicate (suc n) (suc k) v d lt = get_or-replicate n k v d (omega (arith, lt))

-- All the bits of a new bitmap are set.
pub is_bit_set-full :
    (words j : ℕ) → j < entry_size * words → is_bit_set (replicate words (2 ^ 64 - 1)) j ≡ true
is_bit_set-full words j lt =
    let here : word (replicate words (2 ^ 64 - 1)) j ≡ 2 ^ 64 - 1 =
      get_or-replicate words (j / entry_size) (2 ^ 64 - 1) 0 (omega (arith, lt)) in
    let one : bit (replicate words (2 ^ 64 - 1)) j ≡ 1 =
      ap (λ w. digit w (j % entry_size)) here ∙ digit-all 64 (j % entry_size) (omega arith) in
    is_bit_set-bit (replicate words (2 ^ 64 - 1)) j ∙ ap (λ b. b == 1) one
