-- ===== src/Net/Checksum/Verify.antt =====
-- A packet that carries its checksum has the checksum 0.
use uchos.Prelude.{
  ℕ, ◌+◌, ◌-◌, ◌*◌, ◌/◌, ◌%◌, ◌^◌, ◌<◌, ◌≤◌, ◌≡◌, ◌∙◌, List, [], ◌∷◌, ◌++◌, length, length-append,
  All, arith,
}
use uchos.Net.Checksum.{sum_words, fold, calculate_checksum}

-- The sum of the words of a packet with an even number of bytes.
abbrev plain_sum : List ℕ → ℕ
plain_sum [] = 0
plain_sum (last ∷ []) = 0
plain_sum (low ∷ high ∷ bytes) = low + high * 256 + plain_sum bytes

abbrev pub Bytes : List ℕ → Type 0
Bytes bytes = All (λ b. b < 256) bytes

plain_sum-le : (bytes : List ℕ) → Bytes bytes → plain_sum bytes ≤ 65535 * length bytes
plain_sum-le [] all = omega arith
plain_sum-le (last ∷ []) all = omega arith
plain_sum-le (low ∷ high ∷ bytes) all =
    let rest = plain_sum-le bytes all.1.1 in
    let l = all.0 in let h = all.1.0 in omega (arith, rest, l, h)

sum_words-plain :
    (bytes : List ℕ) (sum : ℕ)
    → length bytes % 2 ≡ 0
    → sum + plain_sum bytes < 2 ^ 32
    → sum_words sum bytes ≡ sum + plain_sum bytes
unfolding sum_words
sum_words-plain [] sum even small = omega arith
sum_words-plain (last ∷ []) sum even small = absurd (omega (arith, even))
sum_words-plain (low ∷ high ∷ bytes) sum even small =
    let now : (sum + (low + high * 256)) % 2 ^ 32 ≡ sum + (low + high * 256) =
      omega (arith, small) in
    rw now (
      sum_words-plain bytes (sum + (low + high * 256)) (omega (arith, even)) (omega (arith, small))
      ∙ omega arith)

plain_sum-append :
    (bytes more : List ℕ)
    → length bytes % 2 ≡ 0
    → plain_sum (bytes ++ more) ≡ plain_sum bytes + plain_sum more
plain_sum-append [] more even = omega arith
plain_sum-append (last ∷ []) more even = absurd (omega (arith, even))
plain_sum-append (low ∷ high ∷ bytes) more even =
    omega (arith, plain_sum-append bytes more (omega (arith, even)))

-- After two rounds there is no carry; folding keeps the remainder by 2 ^ 16 - 1, and gives 0 for 0 alone.
fold-mod :
    (sum : ℕ)
    → sum < 2 ^ 32
    → (fold 2 sum < 2 ^ 16)
      × (fold 2 sum % 65535 ≡ sum % 65535)
      × (fold 2 sum ≤ sum)
      × (0 < sum → 0 < fold 2 sum)
unfolding fold
fold-mod sum small = (ground arith, ground arith, ground arith, λ pos. ground arith)

calculate_checksum-plain :
    (bytes : List ℕ)
    → length bytes % 2 ≡ 0
    → plain_sum bytes < 2 ^ 32
    → calculate_checksum bytes ≡ 2 ^ 16 - 1 - fold 2 (plain_sum bytes)
unfolding calculate_checksum
calculate_checksum-plain bytes even small =
    let (short, same, le, pos) = fold-mod (plain_sum bytes) small in
    let sum : sum_words 0 bytes ≡ plain_sum bytes =
      sum_words-plain bytes 0 even (omega (arith, small)) ∙ omega arith in
    rw sum (omega (arith, short))

-- For an even number of bytes, at most 2 ^ 16 of them: with their checksum behind them, low byte first, the
-- checksum of the whole is 0.
pub calculate_checksum-append :
    (bytes : List ℕ)
    → Bytes bytes
    → length bytes % 2 ≡ 0
    → length bytes ≤ 2 ^ 16
    → calculate_checksum
        (bytes ++ calculate_checksum bytes % 256 ∷ calculate_checksum bytes / 256 ∷ [])
      ≡ 0
calculate_checksum-append bytes all even short =
    let sum = plain_sum bytes in
    let bound = plain_sum-le bytes all in
    let first = calculate_checksum-plain bytes even (omega (arith, bound, short)) in
    let (r_short, r_same, r_le, r_pos) = fold-mod sum (omega (arith, bound, short)) in
    let c = calculate_checksum bytes in
    let tail = c % 256 ∷ c / 256 ∷ [] in
    let whole : plain_sum (bytes ++ tail) ≡ sum + c =
      omega (arith, plain_sum-append bytes tail even) in
    let small : plain_sum (bytes ++ tail) < 2 ^ 32 = omega (arith, whole, first, bound, short) in
    let (w_short, w_same, w_le, w_pos) = fold-mod (plain_sum (bytes ++ tail)) small in
    let positive : 0 < plain_sum (bytes ++ tail) = omega (arith, whole, first, r_le) in
    let full = w_pos positive in
    let all_ones : fold 2 (plain_sum (bytes ++ tail)) ≡ 65535 =
      omega (arith, whole, first, r_same, r_short, w_same, w_short, full) in
    calculate_checksum-plain (bytes ++ tail) (omega (arith, length-append bytes tail, even)) small
    ∙ omega (arith, all_ones)
