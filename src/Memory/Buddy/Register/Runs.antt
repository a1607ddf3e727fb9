-- ===== src/Memory/Buddy/Register/Runs.antt =====
-- `register_memory_blocks` registers its run: the pages before the first multiple, by recursion, and
-- the others, by the loop.
use uchos.Prelude.{
  ℕ, zero, suc, ◌+◌, ◌-◌, ◌*◌, ◌/◌, ◌%◌, ◌^◌, ◌<◌, ◌≤◌, ◌≡◌, ◌≢◌, refl, ap, ap₂, ◌∙◌, ==_false,
  arith, ℕ_discrete,
}
use native.Mathlib.Nat.{mod-lt, div-add-mod}
use uchos.Prelude.Bits.Width.{pow-pos, pow_add}
use uchos.Prelude.Bits.Mask.{mod_of}
use uchos.Memory.BitUtils.{to_uint, align_up}
use uchos.Memory.BitUtils.Align.{align_up_lem}
use uchos.Memory.Page.{page_size, ptr}
use uchos.Memory.Buddy.{FreeLists}
use uchos.Memory.Buddy.Cover.{WellFormed}
use uchos.Memory.Buddy.Register.{
  calc_max_order, sub64, push_blocks, rounded_up, register_blocks, register_memory_blocks,
}
use uchos.Memory.Buddy.Register.Loop.{
  calc_max_order_lem, calc_max_order-le, Multiple-lower, Registers, Registers-nil, Registers-append,
  push_blocks-Registers,
}

-- A page by its position among the blocks of an order.
module _ (o q r : ℕ) (small : r < 2 ^ o) where
  -- The address's remainder is the page's.
  offset : ptr (q * 2 ^ o + r) % (2 ^ o * page_size) ≡ r * page_size
  offset =
      ap (λ a. a % (2 ^ o * page_size)) (omega arith)
      ∙ mod_of (2 ^ o * page_size) q (r * page_size) (omega (arith, small))

  rounded_up_lem :
      0 < r
      → ptr (q * 2 ^ o + r) + 2 ^ o * page_size ≤ 2 ^ 32
      → rounded_up (q * 2 ^ o + r) o ≡ 2 ^ o - r
  unfolding rounded_up
  rounded_up_lem pos fits =
      let power : 2 ^ (o + 12) ≡ 2 ^ o * page_size = pow_add o 12 in
      let scaled : q * 2 ^ (o + 12) ≡ q * (2 ^ o * page_size) = ap (λ (t : ℕ). q * t) power in
      let next : (q + 1) * 2 ^ (o + 12) ≡ (q + 1) * (2 ^ o * page_size) =
        ap (λ (t : ℕ). (q + 1) * t) power in
      let address : to_uint (ptr (q * 2 ^ o + r)) ≡ q * 2 ^ (o + 12) + r * page_size =
        omega (arith, scaled, fits, pow-pos o) in
      let alignment : to_uint (2 ^ o * page_size) ≡ 2 ^ (o + 12) =
        omega (arith, power, pos, fits) in
      let aligned =
        ap₂ align_up address alignment
        ∙ align_up_lem (o + 12) q (r * page_size) (omega (arith, pos)) (omega (arith, power, small))
            (omega (arith, scaled, power, fits)) in
      let distance : sub64 (align_up (to_uint (ptr (q * 2 ^ o + r))) (to_uint (2 ^ o * page_size)))
              (ptr (q * 2 ^ o + r))
            / page_size
          ≡ 2 ^ o - r =
        omega (arith, aligned, next, small, fits) in
      let unaligned = ==_false (r * page_size) 0 (λ e. omega (arith, e, pos)) in
      rw (offset, unaligned) distance

register_blocks-nil :
    (fuel start : ℕ) (lists : FreeLists) → register_blocks fuel 0 start lists ≡ lists
unfolding register_blocks
register_blocks-nil zero start lists = refl
register_blocks-nil (suc fuel) start lists = refl

module _ (fuel n start : ℕ) (lists : FreeLists) (ne : n ≢ 0) where
  abbrev order : ℕ
  order = calc_max_order n

  register_blocks-aligned :
      ptr start % (2 ^ order * page_size) ≡ 0
      → register_blocks (suc fuel) n start lists ≡ push_blocks n n start order lists
  unfolding register_blocks
  register_blocks-aligned e = rw (register_blocks, ==_false n 0 ne, e) refl

  register_blocks-other :
      (rounded : ℕ)
      → rounded_up start order ≡ rounded
      → ptr start % (2 ^ order * page_size) ≢ 0
      → rounded ≤ n
      → n < 2 ^ 32
      → register_blocks (suc fuel) n start lists
        ≡ push_blocks
            (n - rounded)
            (n - rounded)
            (start + rounded)
            (calc_max_order (n - rounded))
            (register_blocks fuel rounded start lists)
  unfolding register_blocks
  register_blocks-other rounded e other le lt =
      let exact : sub64 n rounded ≡ n - rounded = omega (arith, le, lt) in
      rw (register_blocks, ==_false n 0 ne, e, ==_false _ 0 other, exact) refl

-- A run inside memory of at most 4 GiB.
pub register_blocks-Registers :
    (pages fuel n start : ℕ) (lists : FreeLists)
    → n < fuel
    → pages ≤ 2 ^ 20
    → start + n ≤ pages
    → WellFormed pages lists
    → Registers pages lists (register_blocks fuel n start lists) start n
register_blocks-Registers pages zero n start lists enough size inside wf =
    absurd (omega (arith, enough))
register_blocks-Registers pages (suc fuel) zero start lists enough size inside wf =
    rw (register_blocks-nil (suc fuel) start lists) (Registers-nil pages start lists wf)
register_blocks-Registers pages (suc fuel) (suc n) start lists enough size inside wf =
    let o = calc_max_order (suc n) in
    let (top, fits, next) =
      calc_max_order_lem (suc n) (omega arith) (omega (arith, inside, size)) in
    let q = start / 2 ^ o in
    let r = start % 2 ^ o in
    let small : r < 2 ^ o = mod-lt start (pow-pos o) in
    let parts : start ≡ q * 2 ^ o + r = omega (arith, div-add-mod start (2 ^ o)) in
    let offset' : ptr start % (2 ^ o * page_size) ≡ r * page_size =
      ap (λ s. ptr s % (2 ^ o * page_size)) parts ∙ offset o q r small in
    let ne : suc n ≢ 0 = λ e. omega (arith, e) in
    elim (ℕ_discrete r 0) [
      | yes aligned ↦
          rw (register_blocks-aligned fuel (suc n) start lists ne (omega (arith, offset', aligned)))
            (push_blocks-Registers pages (suc n) (suc n) start lists (omega arith)
              (omega (arith, inside, size)) inside
              (λ pos. record { quotient = q; aligned = omega (arith, parts, aligned) }) wf)
      | no other ↦
          let rounded = 2 ^ o - r in
          let rounding : rounded_up start o ≡ rounded =
            ap (λ s. rounded_up s o) parts
            ∙ rounded_up_lem o q r small (omega (arith, other))
                (omega (arith, parts, fits, inside, size)) in
          let before =
            register_blocks-Registers pages fuel rounded start lists
              (omega (arith, enough, fits, other)) size (omega (arith, inside, fits)) wf in
          let left = suc n - rounded in
          let after =
            push_blocks-Registers pages left left (start + rounded)
              (register_blocks fuel rounded start lists) (omega arith) (omega (arith, inside, size))
              (omega (arith, inside, fits))
              (λ pos.
                Multiple-lower o (calc_max_order left) (start + rounded)
                  (calc_max_order-le left (suc n) pos (omega arith) (omega (arith, inside, size)))
                  (record { quotient = q + 1; aligned = omega (arith, parts, small) }))
              before.well_formed in
          rw
            (register_blocks-other fuel (suc n) start lists ne rounded rounding
              (λ e. omega (arith, e, offset', other)) (omega (arith, fits))
              (omega (arith, inside, size)))
            (Registers-append pages start rounded (suc n) lists _ _ (omega (arith, fits)) before
              after)
    ]

pub register_memory_blocks-Registers :
    (pages n start : ℕ) (lists : FreeLists)
    → pages ≤ 2 ^ 20
    → start + n ≤ pages
    → WellFormed pages lists
    → Registers pages lists (register_memory_blocks lists n start) start n
register_memory_blocks-Registers pages n start lists size inside wf =
    register_blocks-Registers pages (n + 1) n start lists (omega arith) size inside wf
