-- ===== src/Prelude/Bits/Digits.antt =====
-- The binary digits of a number, and what `&`, `|` and the masks of one digit do to them.
use Prim.Native.Nat.{ℕ, zero, suc, ◌-◌, ◌*◌, ◌/◌, ◌%◌, ◌^◌, ◌≤◌, ◌<◌, bit_and, bit_or, min, max}
use mathlib.Core.Path.{◌≡◌, refl, ap, ◌∙◌}
use native.Mathlib.Nat.{pow-suc, pow-le-pow_right}
use native.Mathlib.Omega.{arith}
use uchos.Prelude.Tests.{◌==◌, if◌then◌else◌}
use uchos.Prelude.Bits.{bit_and_step, bit_or_step, bit_and-zero}
use uchos.Prelude.Bits.Width.{pow-pos}

-- The digit of weight 2 ^ c.
pub digit : ℕ → ℕ → ℕ
digit x zero = x % 2
digit x (suc c) = digit (x / 2) c

pub digit-bit_and : (c x y : ℕ) → digit (bit_and x y) c ≡ min (digit x c) (digit y c)
unfolding digit
digit-bit_and zero x y = omega (arith, bit_and_step x y)
digit-bit_and (suc c) x y =
    let half : bit_and x y / 2 ≡ bit_and (x / 2) (y / 2) = omega (arith, bit_and_step x y) in
    rw half (digit-bit_and c (x / 2) (y / 2))

pub digit-bit_or : (c x y : ℕ) → digit (bit_or x y) c ≡ max (digit x c) (digit y c)
unfolding digit
digit-bit_or zero x y = omega (arith, bit_or_step x y)
digit-bit_or (suc c) x y =
    let half : bit_or x y / 2 ≡ bit_or (x / 2) (y / 2) = omega (arith, bit_or_step x y) in
    rw half (digit-bit_or c (x / 2) (y / 2))

pub digit-lt : (x c : ℕ) → digit x c < 2
unfolding digit
digit-lt x zero = omega arith
digit-lt x (suc c) = digit-lt (x / 2) c

digit-zero : (c : ℕ) → digit 0 c ≡ 0
unfolding digit
digit-zero zero = refl
digit-zero (suc c) = digit-zero c

pub digit-pow : (b c : ℕ) → digit (2 ^ b) c ≡ (if b == c then 1 else 0)
unfolding digit
digit-pow zero zero = refl
digit-pow zero (suc c) = digit-zero c ∙ ground arith
digit-pow (suc b) zero = ground (arith, pow-suc 2 b)
digit-pow (suc b) (suc c) =
    let half : 2 ^ suc b / 2 ≡ 2 ^ b = omega (arith, pow-suc 2 b) in
    rw half (digit-pow b c ∙ ground arith)

pub digit-all : (w c : ℕ) → c < w → digit (2 ^ w - 1) c ≡ 1
unfolding digit
digit-all zero c lt = absurd (omega (arith, lt))
digit-all (suc w) zero lt = omega (arith, pow-suc 2 w, pow-pos w)
digit-all (suc w) (suc c) lt =
    let half : (2 ^ suc w - 1) / 2 ≡ 2 ^ w - 1 = omega (arith, pow-suc 2 w, pow-pos w) in
    rw half (digit-all w c (omega (arith, lt)))

pow-lt-pow : (w b : ℕ) → b < w → 2 ^ b < 2 ^ w
pow-lt-pow w b lt =
    let le : 2 ^ suc b ≤ 2 ^ w = pow-le-pow_right (omega arith) lt in
    omega (arith, le, pow-suc 2 b, pow-pos b)

-- The complement of one digit, on `w` bits.
pub digit-complement :
    (w b c : ℕ) → b < w → c < w → digit (2 ^ w - 1 - 2 ^ b) c ≡ (if b == c then 0 else 1)
unfolding digit
digit-complement zero b c bl cl = absurd (omega (arith, bl))
digit-complement (suc w) zero zero bl cl = ground (arith, pow-suc 2 w, pow-pos w)
digit-complement (suc w) zero (suc c) bl cl =
    let half : (2 ^ suc w - 1 - 2 ^ 0) / 2 ≡ 2 ^ w - 1 = omega (arith, pow-suc 2 w, pow-pos w) in
    rw half (digit-all w c (omega (arith, cl)) ∙ ground arith)
digit-complement (suc w) (suc b) zero bl cl =
    ground (arith, pow-suc 2 w, pow-suc 2 b, pow-lt-pow w b (omega (arith, bl)))
digit-complement (suc w) (suc b) (suc c) bl cl =
    let half : (2 ^ suc w - 1 - 2 ^ suc b) / 2 ≡ 2 ^ w - 1 - 2 ^ b =
      omega (arith, pow-suc 2 w, pow-suc 2 b, pow-lt-pow w b (omega (arith, bl))) in
    rw half (digit-complement w b c (omega (arith, bl)) (omega (arith, cl)) ∙ ground arith)

-- The test of one digit.
pub bit_and-digit : (c x : ℕ) → bit_and x (2 ^ c) ≡ digit x c * 2 ^ c
unfolding digit
bit_and-digit zero x = omega (arith, bit_and_step x 1, bit_and-zero (x / 2))
bit_and-digit (suc c) x =
    let half : 2 ^ suc c / 2 ≡ 2 ^ c = omega (arith, pow-suc 2 c) in
    let low : 2 ^ suc c % 2 ≡ 0 = omega (arith, pow-suc 2 c) in
    bit_and_step x (2 ^ suc c)
    ∙ rw (half, low)
        (omega (arith, bit_and-digit c (x / 2), ap (λ (t : ℕ). digit (x / 2) c * t) (pow-suc 2 c)))
