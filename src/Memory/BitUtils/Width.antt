-- ===== src/Memory/BitUtils/Width.antt =====
-- `bit_width` and `bit_width_ceil` are the logarithm to base 2, rounded down plus one, and rounded up.
use uchos.Prelude.{
  ℕ, ◌-◌, ◌^◌, ◌≤◌, ◌<◌, ◌≡◌, ◌≢◌, refl, ap, ◌∙◌, bit_and, ==_false, arith, dec_lt, ℕ_discrete, suc,
}
use native.Mathlib.Nat.{pow-suc, pow-le-pow_right}
use uchos.Prelude.Bits.{count_trailing_zeros, bit_and-pred_lowest}
use uchos.Prelude.Bits.Width.{count_leading_zeros_lem, pow-lt, pow-pos, bit_and-pred_pow}
use uchos.Memory.BitUtils.{bit_width, bit_width_ceil}

-- A number that is not 0 has as many digits as `bit_width` says.
pub bit_width_lem :
    (x : ℕ)
    → 0 < x
    → x < 2 ^ 32
    → (0 < bit_width x) × (bit_width x ≤ 32) × (2 ^ (bit_width x - 1) ≤ x) × (x < 2 ^ bit_width x)
unfolding bit_width
bit_width_lem x pos lt =
    let (below, lo, hi) = count_leading_zeros_lem 32 x pos lt in
    rw (==_false x 0 (λ e. omega (arith, e, pos))) (omega (arith, below), omega arith, lo, hi)

-- A power of two takes one digit less.
power-of_digits : (x : ℕ) → 0 < x → x < 2 ^ 32 → bit_and x (x - 1) ≡ 0 → x ≡ 2 ^ (bit_width x - 1)
power-of_digits x pos lt clear =
    let lowest = bit_and-pred_lowest 32 x pos lt in
    let (some_digit, width, lo, hi) = bit_width_lem x pos lt in
    let power : x ≡ 2 ^ count_trailing_zeros 32 x = omega (arith, clear, lowest) in
    let below : count_trailing_zeros 32 x < bit_width x = pow-lt _ _ (omega (arith, power, hi)) in
    let le : 2 ^ count_trailing_zeros 32 x ≤ 2 ^ (bit_width x - 1) =
      pow-le-pow_right (omega arith) (omega (arith, below)) in
    omega (arith, power, le, lo)

ceil_power : (x : ℕ) → x ≢ 0 → bit_and x (x - 1) ≡ 0 → bit_width_ceil x ≡ bit_width x - 1
unfolding bit_width_ceil
ceil_power x ne clear = rw (==_false x 0 ne, clear) refl

ceil_other : (x : ℕ) → x ≢ 0 → bit_and x (x - 1) ≢ 0 → bit_width_ceil x ≡ bit_width x
unfolding bit_width_ceil
ceil_other x ne more = rw (==_false x 0 ne, ==_false (bit_and x (x - 1)) 0 more) refl

-- For a number of 32 bits that is not 0, `bit_width_ceil` is the least exponent whose power of two is
-- not below it.
pub bit_width_ceil_lem :
    (x : ℕ)
    → 0 < x
    → x < 2 ^ 32
    → (x ≤ 2 ^ bit_width_ceil x) × ((k : ℕ) → x ≤ 2 ^ k → bit_width_ceil x ≤ k)
bit_width_ceil_lem x pos lt =
    let (some_digit, width, lo, hi) = bit_width_lem x pos lt in
    let ne : x ≢ 0 = λ e. omega (arith, e, pos) in
    elim (ℕ_discrete (bit_and x (x - 1)) 0) [
      | yes clear ↦
          let power = power-of_digits x pos lt clear in
          rw (ceil_power x ne clear) (
            omega (arith, power),
            λ k le.
                let next : 2 ^ (bit_width x - 1) < 2 ^ suc k =
                  omega (arith, power, le, pow-suc 2 k, pow-pos k) in
                omega (arith, pow-lt (bit_width x - 1) (suc k) next),
          )
      | no more ↦ rw (ceil_other x ne more) (
        omega (arith, hi),
        λ k le. elim (dec_lt k (bit_width x)) [
          | no ge ↦ omega (arith, ge)
          | yes few ↦
              let shorter : 2 ^ k ≤ 2 ^ (bit_width x - 1) =
                pow-le-pow_right (omega arith) (omega (arith, few)) in
              let power : x ≡ 2 ^ k = omega (arith, shorter, lo, le) in
              absurd (more (ap (λ n. bit_and n (n - 1)) power ∙ bit_and-pred_pow k))
        ],
      )
    ]
