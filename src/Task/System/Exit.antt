-- ===== src/Task/System/Exit.antt =====
-- The exit of the current task, which is not well formed until the switch has taken it out of its
-- slot, and the creation of a task.
use uchos.Prelude.{
  ℕ, ◌+◌, ◌≡◌, ◌≢◌, refl, sym, ap, subst, ◌∙◌, true, false, ◌&&◌, Option, none, some, length-set,
  get_elem?-set_self, get_elem?-set_ne, set, leb, if◌then◌else◌, arith, Bool-cases, Option-cases,
  inl, inr, ℕ_discrete, set-set,
}
use uchos.Common.{ℤ, pos, ◌==ℤ◌, invalid_id}
use uchos.Task.WaitReason.{WaitReason, is_child}
use uchos.Task.State.{
  Task, running, ready, waiting, exited, is_waiting, Kernel, task_at, put, slot_of, contains,
  max_child_exit_records,
}
use uchos.Task.Scheduler.{
  schedule_task, enqueue, vacate, leave, switch_task, record_child_exit, pick_next_task,
}
use uchos.Task.Children.{exit_task, tell_parent, mark_exited, finish_exit}
use uchos.Task.System.{IsRunning}
use uchos.Task.System.Slots.{task_at-put_self, task_at-put_ne, task_at-lt}
use uchos.Task.System.Invariant.{
  Quiet, TaskOk, SlotOk, Inv, Woken, queue-Inv, Afterwards, task-ok, put-Inv, schedule_task-put,
}
use uchos.Task.System.Delivery.{kept-ok}
use uchos.Task.System.Switching.{pick_next_task-Inv}

pub task_at-enqueue : (k : Kernel) (d e : ℕ) → task_at (enqueue k d) e ≡ task_at k e
unfolding enqueue
task_at-enqueue k d e = elim (Bool-cases (contains k.run_queue d)) [
  | inl old ↦ rw (old, enqueue) refl
  | inr new ↦ rw (new, enqueue) refl
]

current-enqueue : (k : Kernel) (d : ℕ) → (enqueue k d).current ≡ k.current
unfolding enqueue
current-enqueue k d = ground arith

-- What an operation on some task keeps: the invariant, and the running task.
record Keeps (k k' : Kernel) : Type 0 where
  inv : Inv k'
  same : k'.current ≡ k.current
  still : (t : Task) → task_at k k.current ≡ some t → t.state ≡ running → IsRunning k'

Keeps-refl : (k : Kernel) → Inv k → Keeps k k
Keeps-refl k v = record {
  inv = v;
  same = refl;
  still = λ t at was. record { task = t; there = at; active = was };
}

module _ (k : Kernel) (d : ℕ) (t : Task) (v : Inv k) (there : task_at k d ≡ some t) where
  -- Recording an exit on the parent in slot `d`, whose count only grows.
  child-calm :
      (r : WaitReason) (t' : Task)
      → is_child r ≡ false
      → t'.pending_notifications ≡ t.pending_notifications
      → t'.messages ≡ t.messages
      → t'.wait_notify_mask ≡ t.wait_notify_mask
      → t'.reply_pending ≡ t.reply_pending
      → Quiet r t
      → Quiet r t'
  child-calm WaitReason.none t' h n m w p q = tt
  child-calm WaitReason.receive t' h n m w p q = (n ∙ q.0, ap (λ x. x.count) m ∙ q.1)
  child-calm WaitReason.notify t' h n m w p q = rw (n, w) q
  child-calm WaitReason.reply t' h n m w p q = p ∙ q
  child-calm WaitReason.child t' h n m w p q = cc h

  put-Keeps : (t' : Task) → TaskOk k.run_queue d t' → t'.state ≡ t.state → Keeps k (put k d t')
  put-Keeps t' good same-state = record {
    inv = put-Inv k d t v there t' good;
    same = refl;
    still = λ u at was. elim (ℕ_discrete d k.current) [
      | yes here ↦ record {
        task = t';
        there =
            subst (λ x. task_at (put k d t') x ≡ some t') here
              (task_at-put_self k d t' (task_at-lt k d there));
        active = same-state ∙ one u here at ∙ was;
      }
      | no other ↦ record {
        task = u;
        there = task_at-put_ne k d t' k.current other ∙ at;
        active = was;
      }
    ];
  }
    where
      one : (u : Task) → d ≡ k.current → task_at k k.current ≡ some u → t.state ≡ u.state
      one u here at = cc

  -- Waking a task that waits does not touch the running one.
  wake-Keeps :
      (t' : Task) → Woken d t' → t.state ≡ waiting → Keeps k (schedule_task (put k d t') (pos d))
  wake-Keeps t' w asleep = subst (Keeps k) (sym (schedule_task-put k d t v there t')) (record {
    inv = queue-Inv k d t v there t' w;
    same = current-enqueue (put k d r) d;
    still = λ u at was. record {
      task = u;
      there =
          ap (task_at (enqueue (put k d r) d)) (current-enqueue (put k d r) d)
          ∙ task_at-enqueue (put k d r) d k.current
          ∙ task_at-put_ne k d r k.current (apart u at was)
          ∙ at;
      active = was;
    };
  })
    where
      r : Task
      r = record t' { state = ready }

      apart : (u : Task) → task_at k k.current ≡ some u → u.state ≡ running → d ≢ k.current
      apart u at was here = absurd (cc)

  -- An exit parked on the parent in slot `d`.
  park-Keeps :
      (t' : Task)
      → t'.id ≡ t.id
      → t'.state ≡ t.state
      → (is_child t.wait_reason ≡ false → Quiet t.wait_reason t → Quiet t'.wait_reason t')
      → (t'.reply_pending ≡ true
          → t'.call_correlation ≢ 0
          → t'.reply_slot.correlation ≡ t'.call_correlation)
      → Keeps k (
          if is_waiting t.state && is_child t.wait_reason
          then schedule_task (put k d t') t.id
          else put k d t')
  park-Keeps t' same-id same-state calm answered =
      let good = task-ok k d t v there in
      elim (Bool-cases (is_waiting t.state && is_child t.wait_reason)) [
        | inl asleep ↦ rw asleep (
            subst (λ i. Keeps k (schedule_task (put k d t') i)) (sym good.named)
              (wake-Keeps t' (record { named = same-id ∙ good.named; answered = answered })
                (ground arith)))
        | inr other ↦ rw other (
            put-Keeps t'
              (kept-ok k d t v there t' same-id same-state (λ w. calm (ground arith) (good.calm w))
                answered)
              same-state)
      ]

record_child_exit-Keeps :
    (k : Kernel) (d : ℕ) (child status : ℤ) → Inv k → Keeps k (record_child_exit k d child status)
unfolding record_child_exit
record_child_exit-Keeps k d child status v = elim (Option-cases (task_at k d)) [
  | inl gone ↦ rw (gone, record_child_exit) (Keeps-refl k v)
  | inr (t, there) ↦
      rw (there, record_child_exit)
        (elim (Bool-cases (leb max_child_exit_records t.num_exit_records)) [
          | inl full ↦ rw full (Keeps-refl k v)
          | inr room ↦ rw room (
              park-Keeps k d t v there
                (record t {
                  exit_records =
                      set t.exit_records t.num_exit_records
                        (record { pid = child; status = status });
                  num_exit_records = t.num_exit_records + 1;
                })
                refl refl (λ h q. child-calm k d t v there t.wait_reason _ h refl refl refl refl q)
                (task-ok k d t v there).answered)
        ])
]

tell_parent-Keeps : (k : Kernel) (t : Task) (status : ℤ) → Inv k → Keeps k (tell_parent k t status)
unfolding tell_parent
tell_parent-Keeps k t status v = elim (Bool-cases (t.parent_id ==ℤ invalid_id)) [
  | inl orphan ↦ rw (orphan, tell_parent) (Keeps-refl k v)
  | inr child ↦
      rw (child, tell_parent)
        (elim (Option-cases (slot_of t.parent_id)) [
          | inl out ↦ rw out (Keeps-refl k v)
          | inr (d, at) ↦ rw at (record_child_exit-Keeps k d t.id status v)
        ])
]

pub tell_parent-Inv : (k : Kernel) (t : Task) (status : ℤ) → Inv k → Inv (tell_parent k t status)
tell_parent-Inv k t status v = (tell_parent-Keeps k t status v).inv

-- A slot that is not on the run queue may be emptied.
clear-Inv :
    (k : Kernel) (d : ℕ) (t : Task) (o : Option Task)
    → Inv k
    → task_at k d ≡ some t
    → contains k.run_queue d ≡ false
    → Inv (record k { task_pending_reap = o; tasks = set k.tasks d none })
clear-Inv k d t o v there off = record {
  slots = λ e. elim (ℕ_discrete d e) [
    | yes same ↦
        subst
          (λ x.
            SlotOk k.run_queue x
              (task_at (record k { task_pending_reap = o; tasks = set k.tasks d none }) x))
          same (rw (get_elem?-set_self k.tasks d none (task_at-lt k d there), task_at) off)
    | no other ↦ rw (get_elem?-set_ne k.tasks {i = d} {j = e} none other, task_at) (v.slots e)
  ];
  distinct = v.distinct;
  sized = length-set k.tasks d none ∙ v.sized;
}

switch_task-at :
    (k : Kernel) (t : Task)
    → task_at k k.current ≡ some t
    → switch_task k ≡ elim (leave (record k { task_pending_reap = none }) t) [
      | none ↦ none
      | some k' ↦ pick_next_task k'
    ]
unfolding switch_task
switch_task-at k t there =
    ap
      (λ o. elim o [
        | none ↦ none
        | some u ↦ elim (leave (record k { task_pending_reap = none }) u) [
          | none ↦ none
          | some k' ↦ pick_next_task k'
        ]
      ])
      there

leave-exited :
    (k : Kernel) (t : Task) (d : ℕ)
    → t.id ≡ pos d
    → t.state ≡ exited
    → leave k t ≡ some (record k { task_pending_reap = task_at k d; tasks = set k.tasks d none })
unfolding leave vacate
leave-exited k t d named gone = rw (gone, leave) (rw (named, vacate) refl)

-- The switch out of an exited task.
switch_exited-Inv :
    (k : Kernel) (t : Task)
    → Inv k
    → task_at k k.current ≡ some t
    → t.state ≡ running
    → k.current ≢ 0
    → Afterwards Inv (switch_task (put k k.current (record t { state = exited })))
switch_exited-Inv k t v there was ne =
    subst (Afterwards Inv)
      (sym (
        switch_task-at x u (task_at-put_self k c u (task_at-lt k c there))
        ∙ ap (λ o. elim o [ none ↦ none | some k' ↦ pick_next_task k' ])
            (leave-exited (record x { task_pending_reap = none }) u c good.named refl)))
      (pick_next_task-Inv _ (
        subst (λ slots. Inv (record k { task_pending_reap = task_at x c; tasks = slots }))
          (sym (set-set k.tasks c (some u) none))
          (clear-Inv k c t (task_at x c) v there (good.unqueued was ne))))
  where
    c : ℕ
    c = k.current

    u : Task
    u = record t { state = exited }

    x : Kernel
    x = put k c u

    good : TaskOk k.run_queue c t
    good = task-ok k c t v there

pub finish_exit-Inv :
    (k : Kernel) → Inv k → IsRunning k → k.current ≢ 0 → Afterwards Inv (finish_exit k)
unfolding finish_exit mark_exited
finish_exit-Inv k v r ne =
    rw (r.there, finish_exit, mark_exited) (switch_exited-Inv k r.task v r.there r.active ne)

-- The exit of a running task keeps the invariant.
pub exit_task-Inv :
    (k : Kernel) (status : ℤ)
    → Inv k
    → IsRunning k
    → k.current ≢ 0
    → Afterwards Inv (exit_task k status)
unfolding exit_task
exit_task-Inv k status v r ne =
    let kept = tell_parent-Keeps k r.task status v in
    rw (r.there, exit_task)
      (finish_exit-Inv (tell_parent k r.task status) kept.inv (kept.still r.task r.there r.active)
        (λ e. ne (sym kept.same ∙ e)))
