-- ===== src/Task/System/Switching.antt =====
-- Scheduling, switching, exits and creation keep the invariant.
use uchos.Prelude.{
  ℕ, ◌≡◌, ◌≢◌, refl, subst, ◌∙◌, false, Option, none, some, List, [], ◌∷◌, length-set, arith,
  Bool-cases, Option-cases, inl, inr, ℕ_discrete,
}
use uchos.Common.{ℤ}
use uchos.Task.State.{
  Task, TaskState, running, ready, waiting, exited, is_waiting, is_exited, Kernel, task_at, put,
  slot_of,
}
use uchos.Task.Scheduler.{schedule_task, make_ready, pick_from, pick_next_task, leave, switch_task}
use uchos.Task.System.Slots.{task_at-put_self, task_at-put_ne, task_at-lt}
use uchos.Task.System.Invariant.{
  TaskOk, SlotOk, Inv, Distinct, Afterwards, task-ok, SlotOk-queue, queue-Inv,
}

-- `schedule_task` of an occupied slot.
make_ready-Inv : (k : Kernel) (d : ℕ) → Inv k → Inv (make_ready k d)
unfolding make_ready
make_ready-Inv k d v = elim (Option-cases (task_at k d)) [
  | inl gone ↦ rw (gone, make_ready) v
  | inr (t, there) ↦
      let good = task-ok k d t v there in
      rw (there, make_ready)
        (queue-Inv k d t v there t (record { named = good.named; answered = good.answered }))
]

pub schedule_task-Inv : (k : Kernel) (id : ℤ) → Inv k → Inv (schedule_task k id)
unfolding schedule_task
schedule_task-Inv k id v = elim (Option-cases (slot_of id)) [
  | inl out ↦ rw (out, schedule_task) v
  | inr (d, at) ↦ rw (at, schedule_task) (make_ready-Inv k d v)
]

-- The reaped task is not part of the invariant.
reap-Inv : (k : Kernel) (o : Option Task) → Inv k → Inv (record k { task_pending_reap = o })
reap-Inv k o v = record { slots = v.slots; distinct = v.distinct; sized = v.sized }

-- The front of the run queue is taken and runs.
pick-Inv :
    (k : Kernel) (d : ℕ) (rest : List ℕ) (t : Task)
    → k.run_queue ≡ d ∷ rest
    → Inv k
    → task_at k d ≡ some t
    → Inv (record (put k d (record t { state = running })) { run_queue = rest; current = d })
pick-Inv k d rest t front v there = record {
  slots = λ e. elim (ℕ_discrete d e) [
    | yes same ↦
        subst (λ x. SlotOk rest x (task_at (put k d t') x)) same
          (rw (task_at-put_self k d t' (task_at-lt k d there)) (record {
            named = good.named;
            calm = λ w. cc w;
            queued = λ w. cc w;
            unqueued = λ w ne. left.0;
            alive = λ w. cc w;
            answered = good.answered;
          }))
    | no other ↦ rw (task_at-put_ne k d t' e other) (
        SlotOk-queue (d ∷ rest) rest e (task_at k e) (ground arith)
          (subst (λ q. SlotOk q e (task_at k e)) front (v.slots e)))
  ];
  distinct = left.1;
  sized = length-set k.tasks d (some t') ∙ v.sized;
}
  where
    t' : Task
    t' = record t { state = running }

    good : TaskOk k.run_queue d t
    good = task-ok k d t v there

    left : Distinct (d ∷ rest)
    left = subst Distinct front v.distinct

pick_from-Inv : (k : Kernel) (q : List ℕ) → k.run_queue ≡ q → Inv k → Afterwards Inv (pick_from k q)
unfolding pick_from
pick_from-Inv k [] e v = record { slots = v.slots; distinct = v.distinct; sized = v.sized }
pick_from-Inv k (d ∷ rest) e v = elim (Option-cases (task_at k d)) [
  | inl gone ↦ rw (gone, pick_from) tt
  | inr (t, there) ↦ rw (there, pick_from) (pick-Inv k d rest t e v there)
]

pub pick_next_task-Inv : (k : Kernel) → Inv k → Afterwards Inv (pick_next_task k)
unfolding pick_next_task
pick_next_task-Inv k v = pick_from-Inv k k.run_queue refl v

-- Leaving a task that has not exited.
leave-Inv : (k : Kernel) (t : Task) → Inv k → is_exited t.state ≡ false → Afterwards Inv (leave k t)
unfolding leave
leave-Inv k t v h = rw h (elim (Bool-cases (is_waiting t.state)) [
  | inl asleep ↦ rw asleep v
  | inr awake ↦ rw awake (schedule_task-Inv k t.id v)
])

-- Picking after leaving.
then_pick-Inv :
    (o : Option Kernel)
    → Afterwards Inv o
    → Afterwards Inv (elim o [ none ↦ none | some k' ↦ pick_next_task k' ])
then_pick-Inv none v = tt
then_pick-Inv (some k) v = pick_next_task-Inv k v

not_exited : (s : TaskState) → s ≢ exited → is_exited s ≡ false
not_exited running h = refl
not_exited ready h = refl
not_exited waiting h = refl
not_exited exited h = absurd (h refl)

pub switch_task-Inv : (k : Kernel) → Inv k → Afterwards Inv (switch_task k)
unfolding switch_task
switch_task-Inv k v = elim (Option-cases (task_at k k.current)) [
  | inl gone ↦ rw (gone, switch_task) tt
  | inr (t, there) ↦
      rw (there, switch_task)
        (then_pick-Inv (leave (record k { task_pending_reap = none }) t) (
          leave-Inv (record k { task_pending_reap = none }) t (reap-Inv k none v)
            (not_exited t.state (task-ok k k.current t v there).alive)))
]
