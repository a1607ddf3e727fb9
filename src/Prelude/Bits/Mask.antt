-- ===== src/Prelude/Bits/Mask.antt =====
-- `&` by a mask of the upper digits, and division with remainder by a power of two.
use Prim.Native.Nat.{ℕ, zero, suc, ◌+◌, ◌-◌, ◌*◌, ◌/◌, ◌%◌, ◌^◌, ◌≤◌, ◌<◌, bit_and}
use mathlib.Core.Path.{◌≡◌, ap, ◌∙◌}
use native.Mathlib.Nat.{pow-suc, div-eq_of_lt-le, mod-eq-sub-div-mul}
use native.Mathlib.Omega.{arith}
use uchos.Prelude.Bits.{bit_and_step, bit_and-zero}
use uchos.Prelude.Bits.Width.{pow-pos}

bit_and-all : (w x : ℕ) → x < 2 ^ w → bit_and x (2 ^ w - 1) ≡ x
bit_and-all zero x lt = omega (arith, lt, bit_and-zero x)
bit_and-all (suc w) x lt =
    let power : 2 ^ suc w ≡ 2 ^ w * 2 = pow-suc 2 w in
    let high : (2 ^ suc w - 1) / 2 ≡ 2 ^ w - 1 = omega (arith, power, pow-pos w) in
    let low : (2 ^ suc w - 1) % 2 ≡ 1 = omega (arith, power, pow-pos w) in
    bit_and_step x (2 ^ suc w - 1)
    ∙ rw (high, low) (omega (arith, bit_and-all w (x / 2) (omega (arith, lt, power))))

-- The mask of the digits from `k` on clears the others.
pub bit_and-upper :
    (w k q r : ℕ)
    → k ≤ w
    → r < 2 ^ k
    → q * 2 ^ k + r < 2 ^ w
    → bit_and (q * 2 ^ k + r) (2 ^ w - 2 ^ k) ≡ q * 2 ^ k
bit_and-upper w zero q r le small lt =
    let none_left : q * 2 ^ 0 + r ≡ q = omega (arith, small) in
    let same : q * 2 ^ 0 ≡ q = omega arith in
    rw (none_left, same) (bit_and-all w q (omega (arith, lt, none_left)))
bit_and-upper zero (suc k) q r le small lt = absurd (omega (arith, le))
bit_and-upper (suc w) (suc k) q r le small lt =
    let power : 2 ^ suc w ≡ 2 ^ w * 2 = pow-suc 2 w in
    let weight : 2 ^ suc k ≡ 2 ^ k * 2 = pow-suc 2 k in
    let twice : q * 2 ^ suc k ≡ q * 2 ^ k * 2 = omega (arith, ap (λ (t : ℕ). q * t) weight) in
    let high : (2 ^ suc w - 2 ^ suc k) / 2 ≡ 2 ^ w - 2 ^ k = omega (arith, power, weight) in
    let low : (2 ^ suc w - 2 ^ suc k) % 2 ≡ 0 = omega (arith, power, weight) in
    let half : (q * 2 ^ suc k + r) / 2 ≡ q * 2 ^ k + r / 2 = omega (arith, twice) in
    let rest =
      bit_and-upper w k q (r / 2) (omega (arith, le)) (omega (arith, small, weight))
        (omega (arith, lt, twice, power)) in
    bit_and_step (q * 2 ^ suc k + r) (2 ^ suc w - 2 ^ suc k)
    ∙ rw (high, low, half) (omega (arith, rest, twice))

-- The remainder of a number written by its quotient.
pub mod_of : (m q r : ℕ) → r < m → (q * m + r) % m ≡ r
mod_of m q r lt =
    let quotient : (q * m + r) / m ≡ q = div-eq_of_lt-le m (omega arith) (omega (arith, lt)) in
    mod-eq-sub-div-mul (q * m + r) m ∙ rw quotient (omega arith)
