-- ===== src/Net/Checksum.antt =====
-- kernel/net/checksum.cpp. The bytes are read in pairs as little-endian words; `& 0xFFFF` and `>> 16` on 32
-- bits are the remainder and the quotient by 2 ^ 16.
pub mod Verify
use uchos.Prelude.{ℕ, zero, suc, ◌+◌, ◌-◌, ◌*◌, ◌/◌, ◌%◌, ◌^◌, List, [], ◌∷◌, ◌==◌, if◌then◌else◌}

-- The sum so far, and the bytes left.
unfoldable pub sum_words : ℕ → List ℕ → ℕ
sum_words sum [] = sum
sum_words sum (last ∷ []) = (sum + last * 256) % 2 ^ 32
sum_words sum (low ∷ high ∷ bytes) = sum_words ((sum + (low + high * 256)) % 2 ^ 32) bytes

-- The carry is folded in until there is none: two rounds are enough for 32 bits.
unfoldable pub fold : ℕ → ℕ → ℕ
fold zero sum = sum
fold (suc rounds) sum = if sum / 2 ^ 16 == 0 then sum else fold rounds (sum % 2 ^ 16 + sum / 2 ^ 16)

unfoldable pub calculate_checksum : List ℕ → ℕ
calculate_checksum bytes = (2 ^ 32 - 1 - fold 2 (sum_words 0 bytes)) % 2 ^ 16
