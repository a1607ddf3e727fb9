-- ===== src/Memory/BitUtils/Align.antt =====
-- `align_up` to a power of two.
use uchos.Prelude.{ℕ, ◌+◌, ◌-◌, ◌*◌, ◌^◌, ◌≤◌, ◌<◌, ◌≡◌, ap₂, ◌∙◌, bit_and, arith}
use uchos.Prelude.Bits.Mask.{bit_and-upper}
use uchos.Prelude.Bits.Width.{pow-lt}
use uchos.Memory.BitUtils.{to_uint, align_up}

-- A value that is not a multiple goes to the next one, when that is below 2 ^ 32.
pub align_up_lem :
    (k q r : ℕ)
    → 0 < r
    → r < 2 ^ k
    → (q * 2 ^ k + r) + 2 ^ k ≤ 2 ^ 32
    → align_up (q * 2 ^ k + r) (2 ^ k) ≡ (q + 1) * 2 ^ k
unfolding align_up
align_up_lem k q r pos small fits =
    let short : k < 32 = pow-lt k 32 (omega (arith, pos, fits)) in
    let value : to_uint (q * 2 ^ k + r + 2 ^ k + (2 ^ 32 - 1)) ≡ (q + 1) * 2 ^ k + (r - 1) =
      omega (arith, pos, fits) in
    let mask : 2 ^ 32 - 1 - to_uint (2 ^ k + (2 ^ 32 - 1)) ≡ 2 ^ 32 - 2 ^ k =
      omega (arith, pos, small, fits) in
    ap₂ bit_and value mask
    ∙ bit_and-upper 32 k (q + 1) (r - 1) (omega (arith, short)) (omega (arith, pos, small))
        (omega (arith, pos, fits))
