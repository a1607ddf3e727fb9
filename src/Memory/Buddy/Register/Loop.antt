-- ===== src/Memory/Buddy/Register/Loop.antt =====
-- The loop of `register_memory_blocks` covers its pages once with aligned blocks.
use uchos.Prelude.{
  ℕ, zero, suc, ◌+◌, ◌-◌, ◌*◌, ◌^◌, ◌<◌, ◌≤◌, ◌≡◌, ◌≢◌, inl, inr, refl, ap, ◌∙◌, Bool-cases, leb,
  ltb, ltb→le, ==_false, if◌then◌else◌, arith, dec_lt,
}
use native.Mathlib.Nat.{pow-le-pow_right}
use uchos.Prelude.Bits.Width.{pow-pos, pow-lt, pow_add}
use uchos.Memory.BitUtils.{to_uint, bit_width}
use uchos.Memory.BitUtils.Width.{bit_width_lem}
use uchos.Memory.Buddy.{FreeLists, max_order, push_back}
use uchos.Memory.Buddy.Cover.{cover, IsBlock, WellFormed}
use uchos.Memory.Buddy.Merge.{push_back-Merges}
use uchos.Memory.Buddy.Register.{calc_max_order, sub64, push_blocks}

-- 1 for a page of the run, else 0.
abbrev pub in_run : ℕ → ℕ → ℕ → ℕ
in_run start n p = if leb start p then (if ltb p (start + n) then 1 else 0) else 0

-- The greatest order, up to `MAX_ORDER`, of a block that the pages hold.
pub calc_max_order_lem :
    (n : ℕ)
    → 0 < n
    → n < 2 ^ 32
    → (calc_max_order n ≤ max_order)
      × (2 ^ calc_max_order n ≤ n)
      × (calc_max_order n < max_order → n < 2 ^ suc (calc_max_order n))
unfolding calc_max_order
calc_max_order_lem n pos lt =
    let cut : to_uint n ≡ n = omega (arith, lt) in
    let (digits, width, lo, hi) = bit_width_lem n pos lt in
    rw (calc_max_order, ==_false n 0 (λ e. omega (arith, e, pos)), cut)
      (elim (Bool-cases (ltb max_order (bit_width n - 1))) [
        | inl large ↦
            let order_lt : max_order < bit_width n - 1 = ground (arith, large) in
            let power : 2 ^ max_order ≤ 2 ^ (bit_width n - 1) =
              pow-le-pow_right (omega arith) {i = max_order} (omega (arith, order_lt)) in
            rw large (omega arith, omega (arith, power, lo), λ h. absurd (omega (arith, h)))
        | inr fits ↦
            let order_le : bit_width n - 1 ≤ max_order = ltb→le max_order (bit_width n - 1) fits in
            let next : suc (bit_width n - 1) ≡ bit_width n = omega (arith, digits) in
            rw (fits, next) (order_le, lo, λ h. hi)
      ])

-- Fewer pages do not hold a larger block.
pub calc_max_order-le : (m n : ℕ) → 0 < m → m ≤ n → n < 2 ^ 32 → calc_max_order m ≤ calc_max_order n
calc_max_order-le m n pos le lt =
    let (top, fits, next) = calc_max_order_lem n (omega (arith, pos, le)) lt in
    let (top', fits', next') = calc_max_order_lem m pos (omega (arith, le, lt)) in
    elim (dec_lt (calc_max_order n) max_order) [
      | no ge ↦ omega (arith, ge, top')
      | yes small ↦ omega (
        arith,
        pow-lt (calc_max_order m) (suc (calc_max_order n)) (omega (arith, fits', le, next small)),
      )
    ]

-- A multiple of a power of two.
pub record Multiple (order start : ℕ) : Type 0 where
  pub quotient : ℕ
  pub aligned : start ≡ quotient * 2 ^ order

pub Multiple-lower : (o o' start : ℕ) → o' ≤ o → Multiple o start → Multiple o' start
Multiple-lower o o' start le m =
    let power : 2 ^ o ≡ 2 ^ o' * 2 ^ (o - o') =
      ap (λ n. 2 ^ n) (omega (arith, le)) ∙ pow_add o' (o - o') in
    record {
      quotient = m.quotient * 2 ^ (o - o');
      aligned = omega (arith, m.aligned, ap (λ (t : ℕ). m.quotient * t) power);
    }

pub Multiple-next : (o start : ℕ) → Multiple o start → Multiple o (start + 2 ^ o)
Multiple-next o start m = record { quotient = m.quotient + 1; aligned = omega (arith, m.aligned) }

-- What registering a run promises of the lists.
pub record Registers (pages : ℕ) (lists lists' : FreeLists) (start n : ℕ) : Type 0 where
  pub well_formed : WellFormed pages lists'
  pub cover_after : (p : ℕ) → cover lists' p ≡ cover lists p + in_run start n p

pub Registers-nil :
    (pages start : ℕ) (lists : FreeLists)
    → WellFormed pages lists
    → Registers pages lists lists start 0
Registers-nil pages start lists wf = record { well_formed = wf; cover_after = λ p. ground arith }

-- Two runs, one behind the other.
pub Registers-append :
    (pages start m n : ℕ) (lists lists' lists'' : FreeLists)
    → m ≤ n
    → Registers pages lists lists' start m
    → Registers pages lists' lists'' (start + m) (n - m)
    → Registers pages lists lists'' start n
Registers-append pages start m n lists lists' lists'' le first second = record {
  well_formed = second.well_formed;
  cover_after = λ p.
      let split : in_run start n p ≡ in_run start m p + in_run (start + m) (n - m) p =
        ground (arith, le) in
      omega (arith, split, first.cover_after p, second.cover_after p);
}

push_blocks-nil :
    (fuel start order : ℕ) (lists : FreeLists) → push_blocks fuel 0 start order lists ≡ lists
unfolding push_blocks
push_blocks-nil zero start order lists = refl
push_blocks-nil (suc fuel) start order lists = refl

push_blocks-step :
    (fuel n start order : ℕ) (lists : FreeLists)
    → n ≢ 0
    → 2 ^ order ≤ n
    → n < 2 ^ 32
    → push_blocks (suc fuel) n start order lists
      ≡ push_blocks fuel
          (n - 2 ^ order)
          (start + 2 ^ order)
          (calc_max_order (n - 2 ^ order))
          (push_back lists order start)
unfolding push_blocks
push_blocks-step fuel n start order lists ne le lt =
    let exact : sub64 n (2 ^ order) ≡ n - 2 ^ order = omega (arith, le, lt) in
    rw (push_blocks, ==_false n 0 ne, exact) refl

pub push_blocks-Registers :
    (pages fuel n start : ℕ) (lists : FreeLists)
    → n ≤ fuel
    → n < 2 ^ 32
    → start + n ≤ pages
    → (0 < n → Multiple (calc_max_order n) start)
    → WellFormed pages lists
    → Registers pages lists (push_blocks fuel n start (calc_max_order n) lists) start n
push_blocks-Registers pages fuel zero start lists enough lt inside multiple wf =
    rw (push_blocks-nil fuel start (calc_max_order 0) lists) (Registers-nil pages start lists wf)
push_blocks-Registers pages zero (suc n) start lists enough lt inside multiple wf =
    absurd (omega (arith, enough))
push_blocks-Registers pages (suc fuel) (suc n) start lists enough lt inside multiple wf =
    let order = calc_max_order (suc n) in
    let (top, fits, next) = calc_max_order_lem (suc n) (omega arith) lt in
    let here = multiple (omega arith) in
    let left = suc n - 2 ^ order in
    let block : IsBlock pages order start = record {
      quotient = here.quotient;
      aligned = here.aligned;
      inside = omega (arith, inside, fits);
    } in
    let pushed = push_back-Merges pages lists order start top wf block in
    let first : Registers pages lists (push_back lists order start) start (2 ^ order) = record {
      well_formed = pushed.well_formed;
      cover_after = pushed.cover_after;
    } in
    let rest =
      push_blocks-Registers pages fuel left (start + 2 ^ order) (push_back lists order start)
        (omega (arith, enough, pow-pos order)) (omega (arith, lt)) (omega (arith, inside, fits))
        (λ pos.
          Multiple-lower order (calc_max_order left) (start + 2 ^ order)
            (calc_max_order-le left (suc n) pos (omega arith) lt) (Multiple-next order start here))
        pushed.well_formed in
    rw (push_blocks-step fuel (suc n) start order lists (λ e. omega (arith, e)) fits lt) (
      Registers-append pages start (2 ^ order) (suc n) lists (push_back lists order start) _ fits
        first rest)
