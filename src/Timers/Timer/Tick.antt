-- ===== src/Timers/Timer/Tick.antt =====
-- A whole tick: the loop over the expired events.
use uchos.Prelude.{
  ℕ, zero, suc, ◌+◌, ◌%◌, ◌^◌, ◌<◌, ◌≤◌, ◌≡◌, ◌↔◌, inl, inr, refl, sym, ap, subst, ◌∙◌, Bool, true,
  false, Bool-cases, none, some, Option-cases, List, [], ◌∷◌, leb, arith,
}
use uchos.Common.{ℤ}
use uchos.Timers.Timer.{
  TimerEvent, EventQueue, KernelTimer, Ticking, count, expire, expire_events, increment_tick,
}
use uchos.Timers.Timer.Counts.{count-none, due, rings, switches, due_id, hasty, count-due}
use uchos.Timers.Timer.Expiry.{Distinct, pending, Dealt, expire-Dealt}

-- What the loop has done when it ends.
pub record Ended (s s' : Ticking) : Type 0 where
  pub same_tick : s'.timer.tick ≡ s.timer.tick
  pub none_due : count (due s.timer.tick) s'.timer.events ≡ 0
  pub calm : count hasty s'.timer.events ≡ 0
  pub rung :
      (test : ℤ → Bool)
      → count test s'.notified
        ≡ count test s.notified
          + count (rings s.timer.tick s.timer.ignore_events test) s.timer.events
  pub switched :
      (s'.need_switch_task ≡ false)
      ↔ (pending s (count (switches s.timer.tick s.timer.ignore_events) s.timer.events) ≡ 0)

-- Nothing has expired.
idle-Ended :
    (s : Ticking)
    → count (due s.timer.tick) s.timer.events ≡ 0
    → count hasty s.timer.events ≡ 0
    → Ended s s
idle-Ended s none_due calm =
    let tick = s.timer.tick in
    let ignored = s.timer.ignore_events in
    let no_switch : count (switches tick ignored) s.timer.events ≡ 0 =
      count-none (switches tick ignored) (due tick) s.timer.events (λ x h. ground (arith, h))
        none_due in
    record {
      same_tick = refl;
      none_due = none_due;
      calm = calm;
      rung = λ test.
          let none_left =
            count-none (rings tick ignored test) (due tick) s.timer.events
              (λ x h. ground (arith, h)) none_due in
          omega (arith, none_left);
      switched = (λ h. ground (arith, h, no_switch), λ h. ground (arith, h));
    }

-- The next rounds' result serves this one.
step-Ended :
    (queue : EventQueue) (s s1 s' : Ticking) (e : TimerEvent) (rest : List TimerEvent)
    → queue.pop s.timer.events ≡ some (e, rest)
    → Dealt s s1 e rest
    → Ended s1 s'
    → Ended s s'
step-Ended queue s s1 s' e rest popped dealt ended =
    let tick = s.timer.tick in
    let same = dealt.same_tick in
    record {
      same_tick = ended.same_tick ∙ same;
      none_due = subst (λ tick. count (due tick) s'.timer.events ≡ 0) same ended.none_due;
      calm = ended.calm;
      rung = λ test.
          let later : count test s'.notified
              ≡ count test s1.notified
                + count (rings tick s1.timer.ignore_events test) s1.timer.events =
            subst
              (λ tick.
                count test s'.notified
                ≡ count test s1.notified
                  + count (rings tick s1.timer.ignore_events test) s1.timer.events)
              same (ended.rung test) in
          let left =
            dealt.left (rings tick s1.timer.ignore_events test) (λ x h. ground (arith, h)) in
          let whole =
            queue.pop-same s.timer.events e rest popped (rings tick s.timer.ignore_events test) in
          omega (arith, later, left, whole, dealt.rung test);
      switched =
          let later =
            subst
              (λ tick.
                (s'.need_switch_task ≡ false)
                ↔ (pending s1 (count (switches tick s1.timer.ignore_events) s1.timer.events) ≡ 0))
              same ended.switched in
          let left = dealt.left (switches tick s1.timer.ignore_events) (λ x h. ground (arith, h)) in
          let whole =
            queue.pop-same s.timer.events e rest popped (switches tick s.timer.ignore_events) in
          (
            λ h.
                let none1 = later.0 h in
                let none = dealt.switched.0 (omega (arith, none1, left)) in
                omega (arith, none, whole),
            λ h.
                let none = dealt.switched.1 (omega (arith, h, whole)) in
                later.1 (omega (arith, none, left)),
          );
    }

module _ (queue : EventQueue) where
  expire_events-empty :
      (fuel : ℕ) (s : Ticking)
      → queue.pop s.timer.events ≡ none
      → expire_events queue (suc fuel) s ≡ some s
  unfolding expire_events
  expire_events-empty fuel s e = rw (expire_events, e) refl

  expire_events-later :
      (fuel : ℕ) (s : Ticking) (e : TimerEvent) (rest : List TimerEvent)
      → queue.pop s.timer.events ≡ some (e, rest)
      → leb e.timeout s.timer.tick ≡ false
      → expire_events queue (suc fuel) s ≡ some s
  unfolding expire_events
  expire_events-later fuel s e rest popped later = rw (expire_events, popped) (rw later refl)

  pub expire_events-due :
      (fuel : ℕ) (s : Ticking) (e : TimerEvent) (rest : List TimerEvent)
      → queue.pop s.timer.events ≡ some (e, rest)
      → leb e.timeout s.timer.tick ≡ true
      → expire_events queue (suc fuel) s ≡ expire_events queue fuel (expire s e rest)
  unfolding expire_events
  expire_events-due fuel s e rest popped now = rw (expire_events, popped) (rw now refl)

  expire_events-Ended :
      (fuel : ℕ) (s : Ticking)
      → count (due s.timer.tick) s.timer.events < fuel
      → s.timer.tick + 2 ^ 32 ≤ 2 ^ 64
      → Distinct s.timer.tick s.timer.events
      → count hasty s.timer.events ≡ 0
      → (s' : Ticking) × (expire_events queue fuel s ≡ some s') × Ended s s'
  expire_events-Ended zero s enough early distinct calm = absurd (omega (arith, enough))
  expire_events-Ended (suc fuel) s enough early distinct calm =
      let tick = s.timer.tick in
      let events = s.timer.events in
      elim (Option-cases (queue.pop events)) [
        | inl empty ↦
            let none_due = ap (count (due tick)) (queue.pop-none events empty) in
            (s, expire_events-empty fuel s empty, idle-Ended s none_due calm)
        | inr ((e, rest), popped) ↦
            let same = queue.pop-same events e rest popped in
            elim (Bool-cases (leb e.timeout tick)) [
              | inr later ↦
                  let none_left =
                    count-due tick e.timeout rest (ground (arith, later))
                      (queue.pop-least events e rest popped) in
                  let all = same (due tick) in
                  (
                    s,
                    expire_events-later fuel s e rest popped later,
                    idle-Ended s (ground (arith, all, later, none_left)) calm,
                  )
              | inl now ↦
                  let distinct' : Distinct tick (e ∷ rest) = λ id.
                    let d = distinct id in let w = same (due_id tick id) in omega (arith, d, w) in
                  let calm' = sym (same hasty) ∙ calm in
                  let dealt = expire-Dealt s e rest early (ground (arith, now)) distinct' calm' in
                  let s1 = expire s e rest in
                  let due_left : count (due s1.timer.tick) s1.timer.events ≡ count (due tick) rest =
                    ap (λ t. count (due t) s1.timer.events) dealt.same_tick
                    ∙ dealt.left (due tick) (λ x h. h) in
                  let all : count (due tick) events ≡ count (due tick) (e ∷ rest) =
                    same (due tick) in
                  let one : count (due tick) (e ∷ rest) ≡ 1 + count (due tick) rest =
                    ground (arith, now) in
                  let distinct1 : Distinct s1.timer.tick s1.timer.events = λ id.
                    let left : count (due_id s1.timer.tick id) s1.timer.events
                        ≡ count (due_id tick id) rest =
                      ap (λ t. count (due_id t id) s1.timer.events) dealt.same_tick
                      ∙ dealt.left (due_id tick id) (λ x h. ground (arith, h)) in
                    let d : count (due_id tick id) (e ∷ rest) ≤ 1 = distinct' id in
                    omega (arith, left, d) in
                  let (s', run, ended) =
                    expire_events-Ended fuel s1 (omega (arith, due_left, all, one, enough))
                      (omega (arith, dealt.same_tick, early)) distinct1 dealt.calm in
                  (
                    s',
                    expire_events-due fuel s e rest popped now ∙ run,
                    step-Ended queue s s1 s' e rest popped dealt ended,
                  )
            ]
      ]

-- Whichever event of the least timeout the queue takes first: on a timer before 2 ^ 64 - 2 ^ 32 ticks, in which
-- no periodic event has a period under 10 ms or of more than 32 bits and no two events that expire at the
-- next tick have the same id, `increment_tick` ends, with any fuel above the number of those events. Then
-- the tick is one more and no expired event is queued; each task has been notified as often as events of its own
-- expired that were neither removed nor task switches; and a switch is asked for exactly when a
-- switch event expired that was not removed.
pub increment_tick_lem :
    (queue : EventQueue) (fuel : ℕ) (t : KernelTimer)
    → count (due (t.tick + 1)) t.events < fuel
    → t.tick + 1 + 2 ^ 32 ≤ 2 ^ 64
    → Distinct (t.tick + 1) t.events
    → count hasty t.events ≡ 0
    → (s' : Ticking) × (increment_tick queue fuel t ≡ some s')
      × (s'.timer.tick ≡ t.tick + 1)
      × (count (due (t.tick + 1)) s'.timer.events ≡ 0)
      × ((test : ℤ → Bool)
          → count test s'.notified ≡ count (rings (t.tick + 1) t.ignore_events test) t.events)
      × ((s'.need_switch_task ≡ false)
          ↔ (count (switches (t.tick + 1) t.ignore_events) t.events ≡ 0))
unfolding increment_tick
increment_tick_lem queue fuel t enough early distinct calm =
    let next : (t.tick + 1) % 2 ^ 64 ≡ t.tick + 1 = omega (arith, early) in
    let start : Ticking = record {
      timer = record t { tick = t.tick + 1 };
      need_switch_task = false;
      notified = [];
    } in
    let (s', run, ended) = expire_events-Ended queue fuel start enough early distinct calm in
    rw next (
      s',
      run,
      ended.same_tick,
      ended.none_due,
      λ test. omega (arith, ended.rung test),
      (
        λ h. let none_left = ended.switched.0 h in omega (arith, none_left),
        λ h. ended.switched.1 (omega (arith, h)),
      ),
    )
