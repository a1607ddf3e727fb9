-- ===== src/Timers/Timer/Expiry.antt =====
-- What a tick does, when no periodic event is shorter than a tick: it ends, leaves no expired event, and rings
-- exactly the tasks whose events expired.
use uchos.Prelude.{
  ℕ, ◌+◌, ◌^◌, ◌<◌, ◌≤◌, ◌≡◌, ◌≢◌, ◌↔◌, inl, inr, refl, Bool, true, false, Bool-cases, List, ◌∷◌,
  if◌then◌else◌, arith,
}
use uchos.Common.{ℤ}
use uchos.Timers.Timer.{
  TimerEvent, KernelTimer, Ticking, count, ignores, erase_id, calculate_timeout_ticks,
  switch_task_millisec, expire,
}
use uchos.Timers.Timer.Counts.{
  count-agree, due, rings, switches, due_id, hasty, ignores-erase_id, calculate_timeout_ticks-later,
}

-- No two expired events have the same id.
abbrev pub Distinct : ℕ → List TimerEvent → Type 0
Distinct tick events = (id : ℕ) → count (due_id tick id) events ≤ 1

-- The switch asked for so far, and those to come.
abbrev pub pending : Ticking → ℕ → ℕ
pending s more = (if s.need_switch_task then 1 else 0) + more

-- One event has been dealt with: the expired events of `rest` are left.
pub record Dealt (s s' : Ticking) (e : TimerEvent) (rest : List TimerEvent) : Type 0 where
  pub same_tick : s'.timer.tick ≡ s.timer.tick
  pub left :
      (test : TimerEvent → Bool)
      → ((x : TimerEvent) → due s.timer.tick x ≡ false → test x ≡ false)
      → count test s'.timer.events ≡ count test rest
  pub calm : count hasty s'.timer.events ≡ 0
  pub rung :
      (test : ℤ → Bool)
      → count test s'.notified + count (rings s.timer.tick s'.timer.ignore_events test) rest
        ≡ count test s.notified + count (rings s.timer.tick s.timer.ignore_events test) (e ∷ rest)
  pub switched :
      (pending s' (count (switches s.timer.tick s'.timer.ignore_events) rest) ≡ 0)
      ↔ (pending s (count (switches s.timer.tick s.timer.ignore_events) (e ∷ rest)) ≡ 0)

module _ (s : Ticking) (e : TimerEvent) (rest : List TimerEvent)
    (early : s.timer.tick + 2 ^ 32 ≤ 2 ^ 64) (is_due : e.timeout ≤ s.timer.tick)
    (distinct : Distinct s.timer.tick (e ∷ rest)) (calm : count hasty (e ∷ rest) ≡ 0) where
  abbrev t : KernelTimer
  t = s.timer

  none_same : count (due_id t.tick e.id) rest ≡ 0
  none_same = let once = distinct e.id in ground (arith, once, is_due)

  calm_rest : count hasty rest ≡ 0
  calm_rest = ground (arith, calm)

  -- An id that is no longer ignored is no other expired event's.
  same_ignored :
      (x : TimerEvent)
      → due_id t.tick e.id x ≡ false
      → due t.tick x ≡ true
      → ignores (erase_id t.ignore_events e.id) x.id ≡ ignores t.ignore_events x.id
  same_ignored x apart x_due =
      let ne : x.id ≢ e.id = λ same. ground (arith, same, apart, x_due) in
      ignores-erase_id t.ignore_events e.id x.id ne

  expire-ignored : ignores t.ignore_events e.id ≡ true → Dealt s (expire s e rest) e rest
  unfolding expire
  expire-ignored ignored = rw ignored (record {
    same_tick = refl;
    left = λ test h. refl;
    calm = calm_rest;
    rung = λ test.
        let same =
          count-agree (rings t.tick (erase_id t.ignore_events e.id) test)
            (rings t.tick t.ignore_events test) (due_id t.tick e.id) rest
            (λ x apart. elim (Bool-cases (due t.tick x)) [
              | inl x_due ↦ let kept = same_ignored x apart x_due in ground (arith, kept)
              | inr later ↦ ground (arith, later)
            ])
            none_same in
        ground (arith, same, ignored);
    switched =
        let same =
          count-agree (switches t.tick (erase_id t.ignore_events e.id))
            (switches t.tick t.ignore_events) (due_id t.tick e.id) rest
            (λ x apart. elim (Bool-cases (due t.tick x)) [
              | inl x_due ↦ let kept = same_ignored x apart x_due in ground (arith, kept)
              | inr later ↦ ground (arith, later)
            ])
            none_same in
        (
          λ none_left. ground (arith, same, ignored, none_left),
          λ none_left. ground (arith, same, ignored, none_left),
        );
  })

  -- An event that is queued again is not due.
  again :
      (later : TimerEvent) (test : TimerEvent → Bool)
      → t.tick < later.timeout
      → ((x : TimerEvent) → due t.tick x ≡ false → test x ≡ false)
      → count test (later ∷ rest) ≡ count test rest
  again later test lt h = let none_here = h later (ground (arith, lt)) in ground (arith, none_here)

  expire-switch :
      ignores t.ignore_events e.id ≡ false → e.switch_task ≡ true → Dealt s (expire s e rest) e rest
  unfolding expire
  expire-switch kept is_switch =
      let lt =
        calculate_timeout_ticks-later t.tick switch_task_millisec (omega arith) (omega arith)
          early in
      rw (kept, is_switch)
        (record {
          same_tick = refl;
          left = λ test h.
              again
                (record e {
                  timeout = calculate_timeout_ticks t.tick switch_task_millisec;
                  switch_task = true;
                })
                test lt h;
          calm = ground (arith, calm_rest, is_switch);
          rung = λ test. ground (arith, is_switch);
          switched = (
            λ none_left. absurd (omega (arith, none_left)),
            λ none_left. ground (arith, none_left, kept, is_switch, is_due),
          );
        })

  expire-ring :
      ignores t.ignore_events e.id ≡ false
      → e.switch_task ≡ false
      → Dealt s (expire s e rest) e rest
  unfolding expire
  expire-ring kept no_switch = elim (Bool-cases e.periodical) [
    | inr once ↦
        rw (kept, no_switch, once)
          (record {
            same_tick = refl;
            left = λ test h. refl;
            calm = calm_rest;
            rung = λ test. ground (arith, kept, no_switch, is_due);
            switched = (
              λ none_left. ground (arith, none_left, no_switch),
              λ none_left. ground (arith, none_left, no_switch),
            );
          })
    | inl periodic ↦
        let (long, narrow) : (10 ≤ e.period) × (e.period < 2 ^ 32) =
          (ground (arith, calm, no_switch, periodic), ground (arith, calm, no_switch, periodic)) in
        let lt = calculate_timeout_ticks-later t.tick e.period long narrow early in
        rw (kept, no_switch, periodic)
          (record {
            same_tick = refl;
            left = λ test h.
                again
                  (record e {
                    timeout = calculate_timeout_ticks t.tick e.period;
                    periodical = true;
                    switch_task = false;
                  })
                  test lt h;
            calm = ground (arith, calm_rest, long, narrow);
            rung = λ test. ground (arith, kept, no_switch, is_due);
            switched = (
              λ none_left. ground (arith, none_left, no_switch),
              λ none_left. ground (arith, none_left, no_switch),
            );
          })
  ]

  pub expire-Dealt : Dealt s (expire s e rest) e rest
  expire-Dealt = elim (Bool-cases (ignores t.ignore_events e.id)) [
    | inl ignored ↦ expire-ignored ignored
    | inr kept ↦ elim (Bool-cases e.switch_task) [
      | inl is_switch ↦ expire-switch kept is_switch
      | inr no_switch ↦ expire-ring kept no_switch
    ]
  ]
