-- ===== src/Prelude/Bits.antt =====
-- Laws of the bit operations at variables, from the recursion on binary digits.
pub mod Digits
pub mod Mask
pub mod Xor
pub mod Width
use Prim.Native.Nat.{
  ℕ, zero, suc, ◌+◌, ◌-◌, ◌*◌, ◌/◌, ◌%◌, ◌^◌, ◌≤◌, ◌<◌, min, max, bit_and, bit_or, digits,
  bit_and-bitwise, bit_or-bitwise,
}
use mathlib.Core.Path.{◌≡◌, refl, sym, ap, ◌∙◌}
use mathlib.Core.Logic.{inl, inr}
use uchos.Prelude.Tests.{◌==◌, if◌then◌else◌, Bool-cases}
use native.Mathlib.Nat.{pow-suc}
use native.Mathlib.Omega.{arith}

-- The recursion on digits behind a native bit operation, with fuel to spare.
module _ (rest : ℕ → ℕ) (op : ℕ → ℕ → ℕ) where
  digits-fuel :
      (x y gas more : ℕ) → x ≤ gas → x ≤ more → digits rest op gas x y ≡ digits rest op more x y
  digits-fuel x y gas more h h' = by_gas gas more x y h h'
    where
      by_gas :
          (gas more x y : ℕ) → x ≤ gas → x ≤ more → digits rest op gas x y ≡ digits rest op more x y
      by_gas zero more (suc x) y h h' = absurd (omega (arith, h))
      by_gas (suc gas) zero (suc x) y h h' = absurd (omega (arith, h'))
      by_gas zero zero zero y h h' = refl
      by_gas zero (suc more) zero y h h' = refl
      by_gas (suc gas) zero zero y h h' = refl
      by_gas (suc gas) (suc more) zero y h h' = refl
      by_gas (suc gas) (suc more) (suc x) y h h' =
          ap (λ d. d * 2 + op (suc x % 2) (y % 2))
            (by_gas gas more (suc x / 2) (y / 2) (omega (arith, h)) (omega (arith, h')))

  pub digits_step :
      (x y : ℕ)
      → digits rest op (suc x) (suc x) y
        ≡ digits rest op (suc x / 2) (suc x / 2) (y / 2) * 2 + op (suc x % 2) (y % 2)
  digits_step x y =
      ap (λ d. d * 2 + op (suc x % 2) (y % 2))
        (digits-fuel (suc x / 2) (y / 2) x (suc x / 2) (omega arith) (omega arith))

-- `&` and `|` digit by digit.
pub bit_and_step : (x y : ℕ) → bit_and x y ≡ bit_and (x / 2) (y / 2) * 2 + min (x % 2) (y % 2)
bit_and_step zero y = bit_and-bitwise 0 y ∙ omega (arith, bit_and-bitwise 0 (y / 2))
bit_and_step (suc x) y =
    bit_and-bitwise (suc x) y
    ∙ digits_step (λ z. zero) min x y
    ∙ ap (λ d. d * 2 + min (suc x % 2) (y % 2)) (sym (bit_and-bitwise (suc x / 2) (y / 2)))

pub bit_or_step : (x y : ℕ) → bit_or x y ≡ bit_or (x / 2) (y / 2) * 2 + max (x % 2) (y % 2)
bit_or_step zero y = bit_or-bitwise 0 y ∙ omega (arith, bit_or-bitwise 0 (y / 2))
bit_or_step (suc x) y =
    bit_or-bitwise (suc x) y
    ∙ digits_step (λ z. z) max x y
    ∙ ap (λ d. d * 2 + max (suc x % 2) (y % 2)) (sym (bit_or-bitwise (suc x / 2) (y / 2)))

bit_and-div : (a b : ℕ) → bit_and a b / 2 ≡ bit_and (a / 2) (b / 2)
bit_and-div a b = omega (arith, bit_and_step a b)

bit_and-mod : (a b : ℕ) → bit_and a b % 2 ≡ min (a % 2) (b % 2)
bit_and-mod a b = omega (arith, bit_and_step a b)

bit_or-div : (a b : ℕ) → bit_or a b / 2 ≡ bit_or (a / 2) (b / 2)
bit_or-div a b = omega (arith, bit_or_step a b)

bit_or-mod : (a b : ℕ) → bit_or a b % 2 ≡ max (a % 2) (b % 2)
bit_or-mod a b = omega (arith, bit_or_step a b)

eq_of_digits : (a b : ℕ) → a / 2 ≡ b / 2 → a % 2 ≡ b % 2 → a ≡ b
eq_of_digits a b p q = omega arith

-- A mask bounds what it lets through.
bit_and-mask_bound : (bound x mask : ℕ) → x ≤ bound → bit_and x mask ≤ mask
bit_and-mask_bound bound zero mask h = omega (arith, bit_and-bitwise 0 mask)
bit_and-mask_bound zero (suc x) mask h = absurd (omega (arith, h))
bit_and-mask_bound (suc bound) (suc x) mask h =
    let halves = bit_and-mask_bound bound (suc x / 2) (mask / 2) (omega (arith, h)) in
    omega (arith, bit_and_step (suc x) mask, halves)

pub bit_and-zero : (x : ℕ) → bit_and x 0 ≡ 0
bit_and-zero x = omega (arith, bit_and-mask_bound x x 0 (omega arith))

bit_and-swap_bound : (bound x y : ℕ) → x ≤ bound → bit_and x y ≡ bit_and y x
bit_and-swap_bound bound zero y h = bit_and-bitwise 0 y ∙ sym (bit_and-zero y)
bit_and-swap_bound zero (suc x) y h = absurd (omega (arith, h))
bit_and-swap_bound (suc bound) (suc x) y h =
    let halves = bit_and-swap_bound bound (suc x / 2) (y / 2) (omega (arith, h)) in
    omega (arith, bit_and_step (suc x) y, bit_and_step y (suc x), halves)

pub bit_and_comm : (x y : ℕ) → bit_and x y ≡ bit_and y x
bit_and_comm x y = bit_and-swap_bound x x y (omega arith)

-- `(a | b) & m`, by induction on a bound of the mask.
or_mask_fuel : (n a b m : ℕ) → m ≤ n → bit_and (bit_or a b) m ≡ bit_or (bit_and a m) (bit_and b m)
or_mask_fuel n a b zero h = rw (bit_and-zero (bit_or a b), bit_and-zero a, bit_and-zero b)
or_mask_fuel zero a b (suc m) h = absurd (omega arith)
or_mask_fuel (suc n) a b (suc m) h =
    eq_of_digits _ _ (halves (or_mask_fuel n (a / 2) (b / 2) (suc m / 2) (omega arith))) lowest
  where
    halves :
        bit_and (bit_or (a / 2) (b / 2)) (suc m / 2)
          ≡ bit_or (bit_and (a / 2) (suc m / 2)) (bit_and (b / 2) (suc m / 2))
        → bit_and (bit_or a b) (suc m) / 2 ≡ bit_or (bit_and a (suc m)) (bit_and b (suc m)) / 2
    halves ih =
        rw
          (
            bit_and-div (bit_or a b) (suc m),
            bit_or-div a b,
            bit_or-div (bit_and a (suc m)) (bit_and b (suc m)),
            bit_and-div a (suc m),
            bit_and-div b (suc m),
          )
          ih

    lowest : bit_and (bit_or a b) (suc m) % 2 ≡ bit_or (bit_and a (suc m)) (bit_and b (suc m)) % 2
    lowest = omega (
      arith,
      bit_and-mod (bit_or a b) (suc m),
      bit_or-mod a b,
      bit_or-mod (bit_and a (suc m)) (bit_and b (suc m)),
      bit_and-mod a (suc m),
      bit_and-mod b (suc m),
    )

-- `&` distributes over `|`.
pub bit_and-bit_or : (a b m : ℕ) → bit_and (bit_or a b) m ≡ bit_or (bit_and a m) (bit_and b m)
bit_and-bit_or a b m = or_mask_fuel m a b m (omega arith)

bit_and-same_bound : (bound x : ℕ) → x ≤ bound → bit_and x x ≡ x
bit_and-same_bound bound zero h = bit_and-zero 0
bit_and-same_bound zero (suc x) h = absurd (omega (arith, h))
bit_and-same_bound (suc bound) (suc x) h =
    let halves = bit_and-same_bound bound (suc x / 2) (omega (arith, h)) in
    omega (arith, bit_and_step (suc x) (suc x), halves)

pub bit_and_self : (a : ℕ) → bit_and a a ≡ a
bit_and_self a = bit_and-same_bound a a (omega arith)

pub bit_and-le : (a b : ℕ) → bit_and a b ≤ a
bit_and-le a b = omega (arith, bit_and_comm a b, bit_and-mask_bound b b a (omega arith))

-- `x & (x - 1)` on an odd and on an even number.
bit_and-pred_odd : (x : ℕ) → x % 2 ≡ 1 → bit_and x (x - 1) ≡ x - 1
bit_and-pred_odd x h =
    let e : (x - 1) / 2 ≡ x / 2 = omega arith in
    omega (arith, bit_and_step x (x - 1), ap (bit_and (x / 2)) e, bit_and_self (x / 2))

bit_and-pred_even :
    (x : ℕ) → x % 2 ≡ 0 → 0 < x → bit_and x (x - 1) ≡ 2 * bit_and (x / 2) (x / 2 - 1)
bit_and-pred_even x h pos =
    let e : (x - 1) / 2 ≡ x / 2 - 1 = omega arith in
    omega (arith, bit_and_step x (x - 1), ap (bit_and (x / 2)) e)

-- The index of the lowest set bit (`__builtin_ctz`, which is undefined at 0; here 0 gives `width`).
unfoldable pub count_trailing_zeros : ℕ → ℕ → ℕ
count_trailing_zeros zero x = 0
count_trailing_zeros (suc width) x =
    let rest = count_trailing_zeros width (x / 2) in if x % 2 == 1 then 0 else rest + 1

pub count_trailing_zeros-le : (width x : ℕ) → count_trailing_zeros width x ≤ width
unfolding count_trailing_zeros
count_trailing_zeros-le zero x = omega arith
count_trailing_zeros-le (suc width) x = ground (arith, count_trailing_zeros-le width (x / 2))

-- `x & (x - 1)` takes away exactly the lowest set bit.
pub bit_and-pred_lowest :
    (width x : ℕ) → 0 < x → x < 2 ^ width → bit_and x (x - 1) + 2 ^ count_trailing_zeros width x ≡ x
unfolding count_trailing_zeros
bit_and-pred_lowest zero x pos lt = absurd (omega arith)
bit_and-pred_lowest (suc width) x pos lt = elim (Bool-cases (x % 2 == 1)) [
  | inl odd ↦ rw odd (ground (arith, bit_and-pred_odd x))
  | inr even ↦ rw even (
      ground (
        arith,
        bit_and-pred_even x,
        pow-suc 2 width,
        pow-suc 2 (count_trailing_zeros width (x / 2)),
        bit_and-pred_lowest width (x / 2),
      ))
]
