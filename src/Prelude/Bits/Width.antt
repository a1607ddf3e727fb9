-- ===== src/Prelude/Bits/Width.antt =====
-- The highest set bit, and powers of two.
use Prim.Native.Nat.{ℕ, zero, suc, ◌+◌, ◌-◌, ◌*◌, ◌/◌, ◌%◌, ◌^◌, ◌≤◌, ◌<◌, bit_and}
use mathlib.Core.Path.{◌≡◌, refl, ap}
use native.Mathlib.Nat.{pow-suc, pow-le-pow_right, div-eq_of_lt, div-eq_of_lt-le}
use native.Mathlib.Decide.{dec_lt}
use native.Mathlib.Omega.{arith}
use uchos.Prelude.Tests.{◌==◌, if◌then◌else◌}
use uchos.Prelude.Bits.{count_trailing_zeros, bit_and-pred_lowest}

-- The zeros above the highest set bit (`__builtin_clz`, which is undefined at 0; here 0 gives `width`).
unfoldable pub count_leading_zeros : ℕ → ℕ → ℕ
count_leading_zeros zero x = 0
count_leading_zeros (suc width) x =
    let rest = count_leading_zeros width x in if x / 2 ^ width == 0 then rest + 1 else 0

pub pow-pos : (k : ℕ) → 0 < 2 ^ k
pow-pos zero = omega arith
pow-pos (suc k) = omega (arith, pow-suc 2 k, pow-pos k)

pub pow_add : (a b : ℕ) → 2 ^ (a + b) ≡ 2 ^ a * 2 ^ b
pow_add a zero = let same : a + 0 ≡ a = omega arith in rw same (omega arith)
pow_add a (suc b) =
    let next : a + suc b ≡ suc (a + b) = omega arith in
    rw next (omega (arith, pow-suc 2 (a + b), pow_add a b, ap (λ (p : ℕ). 2 ^ a * p) (pow-suc 2 b)))

clz_small :
    (width x : ℕ)
    → x < 2 ^ width
    → count_leading_zeros (suc width) x ≡ count_leading_zeros width x + 1
unfolding count_leading_zeros
clz_small width x small = ground (arith, div-eq_of_lt small)

clz_large :
    (width x : ℕ) → 2 ^ width ≤ x → x < 2 ^ suc width → count_leading_zeros (suc width) x ≡ 0
unfolding count_leading_zeros
clz_large width x large lt =
    let quotient : x / 2 ^ width ≡ 1 =
      div-eq_of_lt-le (2 ^ width) (omega (arith, large)) (omega (arith, lt, pow-suc 2 width)) in
    rw quotient refl

-- The number of digits is `width` less them.
pub count_leading_zeros_lem :
    (width x : ℕ)
    → 0 < x
    → x < 2 ^ width
    → (count_leading_zeros width x < width)
      × (2 ^ (width - count_leading_zeros width x - 1) ≤ x)
      × (x < 2 ^ (width - count_leading_zeros width x))
count_leading_zeros_lem zero x pos lt = absurd (omega (arith, pos, lt))
count_leading_zeros_lem (suc width) x pos lt = elim (dec_lt x (2 ^ width)) [
  | yes small ↦
      let (below, lo, hi) = count_leading_zeros_lem width x pos small in
      let left : suc width - (count_leading_zeros width x + 1)
          ≡ width - count_leading_zeros width x =
        omega arith in
      rw (clz_small width x small, left) (omega (arith, below), lo, hi)
  | no large ↦
      let left : suc width - 0 - 1 ≡ width = omega arith in
      let all : suc width - 0 ≡ suc width = omega arith in
      rw (clz_large width x (omega (arith, large)) lt, left, all)
        (omega arith, omega (arith, large), lt)
]

-- An order of powers is one of exponents.
pub pow-lt : (i j : ℕ) → 2 ^ i < 2 ^ j → i < j
pow-lt i j h = elim (dec_lt i j) [
  | yes lt ↦ lt
  | no ge ↦
      let le : 2 ^ j ≤ 2 ^ i = pow-le-pow_right (omega arith) (omega (arith, ge)) in
      absurd (omega (arith, h, le))
]

ctz-pow : (width k : ℕ) → k < width → count_trailing_zeros width (2 ^ k) ≡ k
unfolding count_trailing_zeros
ctz-pow zero k h = absurd (omega (arith, h))
ctz-pow (suc width) zero h = refl
ctz-pow (suc width) (suc k) h =
    let half : 2 ^ suc k / 2 ≡ 2 ^ k = omega (arith, pow-suc 2 k) in
    let even : 2 ^ suc k % 2 ≡ 0 = omega (arith, pow-suc 2 k) in
    rw (half, even) (omega (arith, ctz-pow width k (omega (arith, h))))

-- `x & (x - 1)` is 0 at the powers of two alone.
pub bit_and-pred_pow : (k : ℕ) → bit_and (2 ^ k) (2 ^ k - 1) ≡ 0
bit_and-pred_pow k = omega (
  arith,
  bit_and-pred_lowest (suc k) (2 ^ k) (pow-pos k) (omega (arith, pow-suc 2 k, pow-pos k)),
  ap (λ (n : ℕ). 2 ^ n) (ctz-pow (suc k) k (omega arith)),
)
