-- ===== src/Prelude/Bits/Xor.antt =====
-- `^` by one power of two, which turns over one binary digit.
use Prim.Native.Nat.{
  ℕ, zero, suc, ◌+◌, ◌-◌, ◌*◌, ◌/◌, ◌%◌, ◌^◌, ◌≤◌, ◌<◌, bit_xor, bit_xor-bitwise, differ,
}
use mathlib.Core.Path.{◌≡◌, refl, sym, ap, ◌∙◌}
use native.Mathlib.Nat.{pow-suc}
use native.Mathlib.Omega.{arith}
use uchos.Prelude.Tests.{◌==◌, if◌then◌else◌}
use uchos.Prelude.Bits.{digits_step}

bit_xor_step : (x y : ℕ) → bit_xor x y ≡ bit_xor (x / 2) (y / 2) * 2 + differ (x % 2) (y % 2)
bit_xor_step zero y =
    let low : differ 0 (y % 2) ≡ y % 2 = refl in
    bit_xor-bitwise 0 y ∙ omega (arith, bit_xor-bitwise 0 (y / 2), low)
bit_xor_step (suc x) y =
    bit_xor-bitwise (suc x) y
    ∙ digits_step (λ z. z) differ x y
    ∙ ap (λ d. d * 2 + differ (suc x % 2) (y % 2)) (sym (bit_xor-bitwise (suc x / 2) (y / 2)))

differ_zero : (x : ℕ) → differ x 0 ≡ x
differ_zero zero = refl
differ_zero (suc x) = refl

xor-zero_bound : (bound x : ℕ) → x ≤ bound → bit_xor x 0 ≡ x
xor-zero_bound bound zero h = bit_xor-bitwise 0 0
xor-zero_bound zero (suc x) h = absurd (omega (arith, h))
xor-zero_bound (suc bound) (suc x) h = omega (
  arith,
  bit_xor_step (suc x) 0,
  xor-zero_bound bound (suc x / 2) (omega (arith, h)),
  differ_zero (suc x % 2),
)

differ_one : (x : ℕ) → x < 2 → differ x 1 ≡ 1 - x
differ_one zero h = refl
differ_one (suc zero) h = refl
differ_one (suc (suc x)) h = absurd (omega (arith, h))

-- The digit of weight 1.
pub bit_xor-one : (x : ℕ) → bit_xor x 1 ≡ (if x % 2 == 0 then x + 1 else x - 1)
bit_xor-one x = ground (arith, bit_xor_step x 1, xor-zero_bound (x / 2) (x / 2), differ_one (x % 2))

-- A multiple of the power is toggled as its quotient is.
pub bit_xor-pow : (k q : ℕ) → bit_xor (q * 2 ^ k) (2 ^ k) ≡ bit_xor q 1 * 2 ^ k
bit_xor-pow zero q = let same : q * 2 ^ 0 ≡ q = omega arith in rw same (omega arith)
bit_xor-pow (suc k) q =
    let twice : q * 2 ^ suc k ≡ q * 2 ^ k * 2 =
      omega (arith, ap (λ (p : ℕ). q * p) (pow-suc 2 k)) in
    let weight : 2 ^ suc k ≡ 2 ^ k * 2 = pow-suc 2 k in
    let left : q * 2 ^ suc k / 2 ≡ q * 2 ^ k = omega (arith, twice) in
    let right : 2 ^ suc k / 2 ≡ 2 ^ k = omega (arith, weight) in
    let low : q * 2 ^ suc k % 2 ≡ 0 = omega (arith, twice) in
    let low' : 2 ^ suc k % 2 ≡ 0 = omega (arith, weight) in
    bit_xor_step (q * 2 ^ suc k) (2 ^ suc k)
    ∙ rw (left, right, low, low')
        (omega (arith, bit_xor-pow k q, ap (λ (p : ℕ). bit_xor q 1 * p) weight))
