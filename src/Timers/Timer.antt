-- ===== src/Timers/Timer.antt =====
-- kernel/timers/timer.{hpp,cpp}. `ignore_events_` is a list of ids with none twice; a run that stops for
-- want of fuel is `none`.
pub mod Counts
pub mod Expiry
pub mod Forever
pub mod Tick
use uchos.Prelude.{
  ℕ, zero, suc, ◌+◌, ◌*◌, ◌/◌, ◌%◌, ◌^◌, ◌≤◌, ◌≡◌, Bool, true, false, ◌&&◌, ◌||◌, not, Option, none,
  some, List, [], ◌∷◌, All, ltb, leb, ◌==◌, if◌then◌else◌,
}
use uchos.Memory.BitUtils.{to_uint}
use uchos.Common.{ℤ, pos, ok, err_invalid_arg}

abbrev pub timer_frequency : ℕ
timer_frequency = 100

abbrev pub switch_task_millisec : ℕ
switch_task_millisec = 20

-- `period` has 32 bits; `periodical` is 0 or 1 in the source.
pub record TimerEvent : Type 0 where
  pub id : ℕ
  pub task_id : ℤ
  pub timeout : ℕ
  pub period : ℕ
  pub periodical : Bool
  pub switch_task : Bool

-- How many elements pass a test.
abbrev pub count {ℓ} : {A : Type ℓ} → (A → Bool) → List A → ℕ
count test [] = 0
count test (x ∷ xs) = (if test x then 1 else 0) + count test xs

-- `std::priority_queue<TimerEvent>`: `top` and `pop` take an event of the least timeout, and which of
-- several is open.
pub record EventQueue : Type 0 where
  pub pop : List TimerEvent → Option (TimerEvent × List TimerEvent)
  pub pop-none : (events : List TimerEvent) → pop events ≡ none → events ≡ []
  pub pop-same :
      (events : List TimerEvent) (e : TimerEvent) (rest : List TimerEvent)
      → pop events ≡ some (e, rest)
      → (test : TimerEvent → Bool) → count test events ≡ count test (e ∷ rest)
  pub pop-least :
      (events : List TimerEvent) (e : TimerEvent) (rest : List TimerEvent)
      → pop events ≡ some (e, rest)
      → All (λ x. e.timeout ≤ x.timeout) rest

pub record KernelTimer : Type 0 where
  pub tick : ℕ
  pub last_id : ℕ
  pub events : List TimerEvent
  pub ignore_events : List ℕ

abbrev pub new_timer : KernelTimer
new_timer = record { tick = 0; last_id = 1; events = []; ignore_events = [] }

-- On 64 bits.
abbrev pub calculate_timeout_ticks : ℕ → ℕ → ℕ
calculate_timeout_ticks tick millisec = (tick + millisec * timer_frequency % 2 ^ 64 / 1000) % 2 ^ 64

abbrev pub following_id : ℕ → ℕ
following_id id = (id + 1) % 2 ^ 64

unfoldable pub add_timer_event : KernelTimer → ℕ → ℤ → KernelTimer × ℕ
add_timer_event t millisec task_id = (
  record t {
    last_id = following_id t.last_id;
    events =
        (record {
          id = t.last_id;
          task_id = task_id;
          timeout = calculate_timeout_ticks t.tick millisec;
          period = to_uint millisec;
          periodical = false;
          switch_task = false;
        })
        ∷ t.events;
  },
  t.last_id,
)

abbrev pub periodic_event : KernelTimer → ℕ → ℤ → ℕ → TimerEvent
periodic_event t millisec task_id id = record {
  id = id;
  task_id = task_id;
  timeout = calculate_timeout_ticks t.tick millisec;
  period = to_uint millisec;
  periodical = true;
  switch_task = false;
}

unfoldable pub add_periodic_timer_event : KernelTimer → ℕ → ℤ → ℕ → KernelTimer × ℕ
add_periodic_timer_event t millisec task_id id =
    if id == 0
    then (
      record t {
        last_id = following_id t.last_id;
        events = periodic_event t millisec task_id t.last_id ∷ t.events;
      },
      t.last_id,
    )
    else if ltb t.last_id id
    then (t, 0)
    else (record t { events = periodic_event t millisec task_id id ∷ t.events }, id)

unfoldable pub add_switch_task_event : KernelTimer → ℕ → KernelTimer × ℕ
add_switch_task_event t millisec = (
  record t {
    last_id = following_id t.last_id;
    events =
        (record {
          id = t.last_id;
          task_id = pos 0;
          timeout = calculate_timeout_ticks t.tick millisec;
          period = 0;
          periodical = false;
          switch_task = true;
        })
        ∷ t.events;
  },
  t.last_id,
)

abbrev pub ignores : List ℕ → ℕ → Bool
ignores [] id = false
ignores (x ∷ xs) id = x == id || ignores xs id

unfoldable pub remove_timer_event : KernelTimer → ℕ → KernelTimer × ℤ
remove_timer_event t id = if id == 0 || ltb t.last_id id then (t, err_invalid_arg) else (
  record t {
    ignore_events = if ignores t.ignore_events id then t.ignore_events else id ∷ t.ignore_events;
  },
  ok,
)

abbrev pub erase_id : List ℕ → ℕ → List ℕ
erase_id [] id = []
erase_id (x ∷ xs) id = let rest = erase_id xs id in if x == id then rest else x ∷ rest

-- The timer so far, whether to switch, and the tasks whose doorbell has been rung, the last one first.
pub record Ticking : Type 0 where
  pub timer : KernelTimer
  pub need_switch_task : Bool
  pub notified : List ℤ

-- The event that has been taken, the others being `rest`.
unfoldable pub expire : Ticking → TimerEvent → List TimerEvent → Ticking
expire s e rest =
    let t = s.timer in
    if ignores t.ignore_events e.id
    then record s {
      timer = record t { events = rest; ignore_events = erase_id t.ignore_events e.id };
    }
    else if e.switch_task
    then record s {
      timer = record t {
        events =
            (record e { timeout = calculate_timeout_ticks t.tick switch_task_millisec }) ∷ rest;
      };
      need_switch_task = true;
    }
    else record s {
      timer = record t {
        events =
            if e.periodical
            then (record e { timeout = calculate_timeout_ticks t.tick e.period }) ∷ rest
            else rest;
      };
      notified = e.task_id ∷ s.notified;
    }

module _ (queue : EventQueue) where
  unfoldable pub expire_events : ℕ → Ticking → Option Ticking
  expire_events zero s = none
  expire_events (suc fuel) s = elim (queue.pop s.timer.events) [
    | none ↦ some s
    | some (e, rest) ↦
        let next = expire_events fuel (expire s e rest) in
        if leb e.timeout s.timer.tick then next else some s
  ]

  unfoldable pub increment_tick : ℕ → KernelTimer → Option Ticking
  increment_tick fuel t = expire_events fuel (record {
    timer = record t { tick = (t.tick + 1) % 2 ^ 64 };
    need_switch_task = false;
    notified = [];
  })
