-- ===== src/Memory/BitUtils.antt =====
-- kernel/bit_utils.cpp: arguments and results are `unsigned int`, so a wider argument is cut to 32
-- bits at the call.
pub mod Align
pub mod Width
use uchos.Prelude.{ℕ, ◌+◌, ◌-◌, ◌%◌, ◌^◌, bit_and, ◌==◌, if◌then◌else◌}
use uchos.Prelude.Bits.Width.{count_leading_zeros}

abbrev pub to_uint : ℕ → ℕ
to_uint x = x % 2 ^ 32

unfoldable pub bit_width : ℕ → ℕ
bit_width x = if x == 0 then 0 else 32 - count_leading_zeros 32 x

unfoldable pub bit_width_ceil : ℕ → ℕ
unfolding bit_width
bit_width_ceil x =
    if x == 0 then 0 else if bit_and x (x - 1) == 0 then bit_width x - 1 else bit_width x

-- `~(alignment - 1)` is taken on 32 bits.
unfoldable pub align_up : ℕ → ℕ → ℕ
align_up value alignment =
    bit_and (to_uint (value + alignment + (2 ^ 32 - 1)))
      (2 ^ 32 - 1 - to_uint (alignment + (2 ^ 32 - 1)))
