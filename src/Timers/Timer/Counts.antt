-- ===== src/Timers/Timer/Counts.antt =====
-- Laws of counting, and the tests on timer events.
use uchos.Prelude.{
  ℕ, ◌+◌, ◌^◌, ◌<◌, ◌≤◌, ◌≡◌, ◌≢◌, inl, inr, refl, ap, ◌∙◌, Bool, false, ◌&&◌, ◌||◌, not,
  Bool-cases, List, [], ◌∷◌, All, ltb, leb, ◌==◌, if◌then◌else◌, arith,
}
use uchos.Common.{ℤ}
use uchos.Timers.Timer.{TimerEvent, count, ignores, erase_id, calculate_timeout_ticks}

module _ {ℓ} {A : Type ℓ} where
  pub count-agree :
      (left right apart : A → Bool) (xs : List A)
      → ((x : A) → apart x ≡ false → left x ≡ right x)
      → count apart xs ≡ 0
      → count left xs ≡ count right xs
  count-agree left right apart [] same none_apart = refl
  count-agree left right apart (x ∷ xs) same none_apart = elim (Bool-cases (apart x)) [
    | inl h ↦ absurd (let whole = none_apart in ground (arith, h, whole))
    | inr h ↦
        let here = same x h in
        let none_left : count apart xs ≡ 0 = ground (arith, h, none_apart) in
        let rest = count-agree left right apart xs same none_left in
        ap (λ b. (if b then 1 else 0) + count left xs) here
        ∙ ap (λ n. (if right x then 1 else 0) + n) rest
  ]

  pub count-none :
      (test wider : A → Bool) (xs : List A)
      → ((x : A) → wider x ≡ false → test x ≡ false)
      → count wider xs ≡ 0
      → count test xs ≡ 0
  count-none test wider [] narrower none_left = refl
  count-none test wider (x ∷ xs) narrower none_left =
      let outside : wider x ≡ false = ground (arith, none_left) in
      let here = narrower x outside in
      let rest = count-none test wider xs narrower (ground (arith, none_left, outside)) in
      ground (arith, here, rest)

-- The event has expired.
abbrev pub due : ℕ → TimerEvent → Bool
due tick e = leb e.timeout tick

-- It has expired, and its expiry rings a task that passes the test.
abbrev pub rings : ℕ → List ℕ → (ℤ → Bool) → TimerEvent → Bool
rings tick ignored test e =
    due tick e && (not (ignores ignored e.id) && (not e.switch_task && test e.task_id))

abbrev pub switches : ℕ → List ℕ → TimerEvent → Bool
switches tick ignored e = due tick e && (not (ignores ignored e.id) && e.switch_task)

-- It has expired, and has the id.
abbrev pub due_id : ℕ → ℕ → TimerEvent → Bool
due_id tick id e = due tick e && e.id == id

-- A periodic event whose period, of 32 bits, is shorter than a tick.
abbrev pub hasty : TimerEvent → Bool
hasty e = not e.switch_task && (e.periodical && (ltb e.period 10 || leb (2 ^ 32) e.period))

-- Only events that do not come before `least`.
pub count-due :
    (tick least : ℕ) (xs : List TimerEvent)
    → tick < least
    → All (λ x. least ≤ x.timeout) xs
    → count (due tick) xs ≡ 0
count-due tick least [] lt all = refl
count-due tick least (x ∷ xs) lt all =
    let rest = count-due tick least xs lt all.1 in
    let here = all.0 in ground (arith, rest, here, lt)

pub ignores-erase_id :
    (ignored : List ℕ) (id other : ℕ)
    → other ≢ id
    → ignores (erase_id ignored id) other ≡ ignores ignored other
ignores-erase_id [] id other ne = refl
ignores-erase_id (x ∷ xs) id other ne = ground (arith, ne, ignores-erase_id xs id other ne)

-- A period of at least 10 ms is a tick or more.
pub calculate_timeout_ticks-later :
    (tick millisec : ℕ)
    → 10 ≤ millisec
    → millisec < 2 ^ 32
    → tick + 2 ^ 32 ≤ 2 ^ 64
    → tick < calculate_timeout_ticks tick millisec
calculate_timeout_ticks-later tick millisec long narrow early = omega (arith, long, narrow, early)
