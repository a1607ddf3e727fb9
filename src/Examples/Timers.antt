-- ===== src/Examples/Timers.antt =====
-- The timer theorems with a queue that looks for the least timeout.
use uchos.Prelude.{
  ℕ, ◌≤◌, ◌≡◌, ◌↔◌, inl, inr, refl, sym, subst, ◌∙◌, Bool, true, false, Bool-cases, Option, none,
  some, Option-cases, List, [], ◌∷◌, All, leb, if◌then◌else◌, arith,
}
use uchos.Common.{ℤ, pos}
use uchos.Timers.Timer.{
  TimerEvent, EventQueue, KernelTimer, Ticking, new_timer, count, add_periodic_timer_event,
  increment_tick,
}
use uchos.Timers.Timer.Counts.{due, rings, switches}
use uchos.Timers.Timer.Tick.{increment_tick_lem}
use uchos.Timers.Timer.Forever.{increment_tick-add_periodic_timer_event}

abbrev pop_least : List TimerEvent → Option (TimerEvent × List TimerEvent)
pop_least [] = none
pop_least (x ∷ xs) = elim (pop_least xs) [
  | none ↦ some (x, [])
  | some (y, ys) ↦ if leb x.timeout y.timeout then some (x, y ∷ ys) else some (y, x ∷ ys)
]

pop_least-none : (events : List TimerEvent) → pop_least events ≡ none → events ≡ []
pop_least-none [] h = refl
pop_least-none (x ∷ xs) h = elim (Option-cases (pop_least xs)) [
  | inl e ↦ absurd (ground (arith, h, e))
  | inr ((y, ys), e) ↦ absurd (ground (arith, h, e))
]

pop_least-same :
    (events : List TimerEvent) (e : TimerEvent) (rest : List TimerEvent)
    → pop_least events ≡ some (e, rest)
    → (test : TimerEvent → Bool) → count test events ≡ count test (e ∷ rest)
pop_least-same [] e rest h test = cc
pop_least-same (x ∷ xs) e rest h test = elim (Option-cases (pop_least xs)) [
  | inl empty ↦ let nothing = pop_least-none xs empty in ground (arith, h, empty, nothing)
  | inr ((y, ys), found) ↦
      let ih = pop_least-same xs y ys found test in ground (arith, h, found, ih)
]

All-le :
    (least greater : ℕ) (xs : List TimerEvent)
    → least ≤ greater
    → All (λ x. greater ≤ x.timeout) xs
    → All (λ x. least ≤ x.timeout) xs
All-le least greater [] le all = tt
All-le least greater (x ∷ xs) le all =
    let here = all.0 in (omega (arith, le, here), All-le least greater xs le all.1)

abbrev Least : TimerEvent × List TimerEvent → Type 0
Least (e, rest) = All (λ x. e.timeout ≤ x.timeout) rest

same-Least :
    (o : Option (TimerEvent × List TimerEvent)) (p q : TimerEvent × List TimerEvent)
    → o ≡ some p
    → o ≡ some q
    → Least p
    → Least q
same-Least o p q at_p at_q least =
    let same : some p ≡ some q = sym at_p ∙ at_q in
    let pairs : p ≡ q = cc in subst Least pairs least

pop_least-least :
    (events : List TimerEvent) (e : TimerEvent) (rest : List TimerEvent)
    → pop_least events ≡ some (e, rest)
    → All (λ x. e.timeout ≤ x.timeout) rest
pop_least-least [] e rest h = cc
pop_least-least (x ∷ xs) e rest h = elim (Option-cases (pop_least xs)) [
  | inl empty ↦ same-Least (pop_least (x ∷ xs)) (x, []) (e, rest) (rw empty refl) h tt
  | inr ((y, ys), found) ↦
      let below = pop_least-least xs y ys found in
      elim (Bool-cases (leb x.timeout y.timeout)) [
        | inl first ↦
            let le : x.timeout ≤ y.timeout = ground (arith, first) in
            same-Least (pop_least (x ∷ xs)) (x, y ∷ ys) (e, rest) (rw found (rw first refl)) h
              (le, All-le x.timeout y.timeout ys le below)
        | inr later ↦
            let le : y.timeout ≤ x.timeout = ground (arith, later) in
            same-Least (pop_least (x ∷ xs)) (y, x ∷ ys) (e, rest) (rw found (rw later refl)) h
              (le, below)
      ]
]

abbrev least_queue : EventQueue
least_queue = record {
  pop = pop_least;
  pop-none = pop_least-none;
  pop-same = pop_least-same;
  pop-least = pop_least-least;
}

-- At tick 4 an event of task 7, a switch event that was removed, and a later event.
abbrev three_events : KernelTimer
three_events = record {
  tick = 4;
  last_id = 4;
  events =
      (record {
        id = 1;
        task_id = pos 7;
        timeout = 5;
        period = 50;
        periodical = true;
        switch_task = false;
      })
      ∷ (record {
        id = 2;
        task_id = pos 0;
        timeout = 5;
        period = 0;
        periodical = false;
        switch_task = true;
      })
      ∷ (record {
        id = 3;
        task_id = pos 8;
        timeout = 9;
        period = 20;
        periodical = false;
        switch_task = false;
      })
      ∷ [];
  ignore_events = 2 ∷ [];
}

increment_tick_example :
    (s' : Ticking) × (increment_tick least_queue 3 three_events ≡ some s')
    × (s'.timer.tick ≡ 5)
    × (count (due 5) s'.timer.events ≡ 0)
    × ((test : ℤ → Bool)
        → count test s'.notified
          ≡ count (rings 5 three_events.ignore_events test) three_events.events)
    × ((s'.need_switch_task ≡ false)
        ↔ (count (switches 5 three_events.ignore_events) three_events.events ≡ 0))
increment_tick_example =
    increment_tick_lem least_queue 3 three_events (omega arith) (omega arith) (λ id. ground arith)
      refl

increment_tick-add_periodic_timer_event_example :
    increment_tick least_queue 1000 (add_periodic_timer_event new_timer 5 (pos 7) 0).0 ≡ none
increment_tick-add_periodic_timer_event_example =
    increment_tick-add_periodic_timer_event least_queue 1000 new_timer 5 (pos 7) (omega arith)
      (omega arith) refl
