-- ===== src/Timers/Timer/Forever.antt =====
-- A periodic event with a period under a tick is due again as soon as it has expired.
use uchos.Prelude.{
  ℕ, zero, suc, ◌+◌, ◌%◌, ◌^◌, ◌<◌, ◌≤◌, ◌≡◌, inl, inr, refl, ap, ◌∙◌, Bool, true, false, ◌&&◌, not,
  Bool-cases, none, some, Option-cases, List, [], ◌∷◌, leb, ltb, arith,
}
use uchos.Common.{ℤ}
use uchos.Memory.BitUtils.{to_uint}
use uchos.Timers.Timer.{
  TimerEvent, EventQueue, KernelTimer, Ticking, count, ignores, erase_id, calculate_timeout_ticks,
  add_periodic_timer_event, expire, expire_events, increment_tick,
}
use uchos.Timers.Timer.Counts.{count-none, due, count-due}
use uchos.Timers.Timer.Tick.{expire_events-due}

-- It has expired, is periodic, and is due again at once.
abbrev pub stuck : ℕ → List ℕ → TimerEvent → Bool
stuck tick ignored e =
    due tick e
    && (not (ignores ignored e.id) && (not e.switch_task && (e.periodical && ltb e.period 10)))

ignores-erase_false :
    (ignored : List ℕ) (id other : ℕ)
    → ignores ignored other ≡ false
    → ignores (erase_id ignored id) other ≡ false
ignores-erase_false [] id other h = refl
ignores-erase_false (x ∷ xs) id other h =
    let tail : ignores xs other ≡ false = ground (arith, h) in
    ground (arith, h, ignores-erase_false xs id other tail)

stuck-erase :
    (tick : ℕ) (ignored : List ℕ) (id : ℕ) (events : List TimerEvent)
    → count (stuck tick ignored) events ≤ count (stuck tick (erase_id ignored id)) events
stuck-erase tick ignored id [] = omega arith
stuck-erase tick ignored id (x ∷ xs) =
    let rest = stuck-erase tick ignored id xs in
    elim (Bool-cases (ignores ignored x.id)) [
      | inl h ↦ ground (arith, rest, h)
      | inr h ↦ let kept = ignores-erase_false ignored id x.id h in ground (arith, rest, h, kept)
    ]

-- Some event is stuck.
abbrev Stuck : Ticking → Type 0
Stuck s = 0 < count (stuck s.timer.tick s.timer.ignore_events) s.timer.events

expire-Stuck :
    (s : Ticking) (e : TimerEvent) (rest : List TimerEvent)
    → s.timer.tick < 2 ^ 64
    → 0 < count (stuck s.timer.tick s.timer.ignore_events) (e ∷ rest)
    → Stuck (expire s e rest)
unfolding expire
expire-Stuck s e rest small some_stuck =
    let ignored = s.timer.ignore_events in
    elim (Bool-cases (ignores ignored e.id)) [
      | inl h ↦
          let more = stuck-erase s.timer.tick ignored e.id rest in
          rw h (ground (arith, h, more, some_stuck))
      | inr h ↦ elim (Bool-cases e.switch_task) [
        | inl is_switch ↦ rw (h, is_switch) (ground (arith, some_stuck, is_switch))
        | inr no_switch ↦ elim (Bool-cases (e.periodical && ltb e.period 10)) [
          | inl fast ↦
              let again : calculate_timeout_ticks s.timer.tick e.period ≡ s.timer.tick =
                ground (arith, fast, small) in
              ground (arith, h, no_switch, fast, again)
          | inr slow ↦ ground (arith, h, no_switch, slow, some_stuck)
        ]
      ]
    ]

-- While an event is stuck, the queue gives an expired event.
Stuck-due :
    (queue : EventQueue) (s : Ticking) (e : TimerEvent) (rest : List TimerEvent)
    → queue.pop s.timer.events ≡ some (e, rest)
    → Stuck s
    → leb e.timeout s.timer.tick ≡ true
Stuck-due queue s e rest popped some_stuck = elim (Bool-cases (leb e.timeout s.timer.tick)) [
  | inl now ↦ now
  | inr later ↦
      let tick = s.timer.tick in
      let none_left =
        count-due tick e.timeout rest (ground (arith, later))
          (queue.pop-least s.timer.events e rest popped) in
      let same = queue.pop-same s.timer.events e rest popped (due tick) in
      let none_due : count (due tick) s.timer.events ≡ 0 = ground (arith, same, later, none_left) in
      let none_stuck =
        count-none (stuck tick s.timer.ignore_events) (due tick) s.timer.events
          (λ x h. ground (arith, h)) none_due in
      absurd (omega (arith, none_stuck, some_stuck))
]

expire-tick :
    (s : Ticking) (e : TimerEvent) (rest : List TimerEvent)
    → (expire s e rest).timer.tick ≡ s.timer.tick
unfolding expire
expire-tick s e rest = ground arith

expire_events-Stuck :
    (queue : EventQueue) (fuel : ℕ) (s : Ticking)
    → s.timer.tick < 2 ^ 64
    → Stuck s
    → expire_events queue fuel s ≡ none
unfolding expire_events
expire_events-Stuck queue zero s small some_stuck = refl
expire_events-Stuck queue (suc fuel) s small some_stuck =
    elim (Option-cases (queue.pop s.timer.events)) [
      | inl empty ↦
          let nothing = queue.pop-none s.timer.events empty in
          let none_stuck = ap (count (stuck s.timer.tick s.timer.ignore_events)) nothing in
          absurd (omega (arith, none_stuck, some_stuck))
      | inr ((e, rest), popped) ↦
          let now = Stuck-due queue s e rest popped some_stuck in
          let same =
            queue.pop-same s.timer.events e rest popped
              (stuck s.timer.tick s.timer.ignore_events) in
          let next = expire-Stuck s e rest small (omega (arith, same, some_stuck)) in
          expire_events-due queue fuel s e rest popped now
          ∙ expire_events-Stuck queue fuel (expire s e rest)
              (omega (arith, expire-tick s e rest, small)) next
    ]

increment_tick-stuck :
    (queue : EventQueue) (fuel : ℕ) (t : KernelTimer)
    → t.tick + 1 < 2 ^ 64
    → 0 < count (stuck (t.tick + 1) t.ignore_events) t.events
    → increment_tick queue fuel t ≡ none
unfolding increment_tick
increment_tick-stuck queue fuel t small some_stuck =
    let next : (t.tick + 1) % 2 ^ 64 ≡ t.tick + 1 = omega (arith, small) in
    rw next (
      expire_events-Stuck queue fuel
        (record { timer = record t { tick = t.tick + 1 }; need_switch_task = false; notified = [] })
        small some_stuck)

-- Whichever event of the least timeout the queue takes first, on a timer before tick 2 ^ 64 - 1: once a
-- periodic event with a period under 10 ms has been added with a new id that is not among the removed ones,
-- the next `increment_tick` never ends, whatever the fuel.
pub increment_tick-add_periodic_timer_event :
    (queue : EventQueue) (fuel : ℕ) (t : KernelTimer) (millisec : ℕ) (task_id : ℤ)
    → millisec < 10
    → t.tick + 1 < 2 ^ 64
    → ignores t.ignore_events t.last_id ≡ false
    → increment_tick queue fuel (add_periodic_timer_event t millisec task_id 0).0 ≡ none
unfolding add_periodic_timer_event
increment_tick-add_periodic_timer_event queue fuel t millisec task_id short small fresh =
    increment_tick-stuck queue fuel (add_periodic_timer_event t millisec task_id 0).0 small (
      let now : calculate_timeout_ticks t.tick millisec ≡ t.tick = omega (arith, short, small) in
      let cut : to_uint millisec ≡ millisec = omega (arith, short) in
      ground (arith, now, cut, short, fresh))
