-- ===== src/Task/System/Invariant.antt =====
-- The invariant of the task table and the run queue, and the two writes that every operation is
-- made of: a task written back as it may stand, and a task woken.
use uchos.Prelude.{
  ℕ, ◌≡◌, ◌≢◌, refl, ap, subst, ◌∙◌, Bool, true, false, Option, none, some, List, [], ◌∷◌, ◌++◌,
  length, length-set, bit_and, lt→ltb, if◌then◌else◌, arith, Bool-cases, ℕ_discrete, inl, inr,
}
use uchos.Common.{pos}
use uchos.Task.WaitReason.{WaitReason}
use uchos.Task.State.{
  Task, running, ready, waiting, exited, Kernel, task_at, put, slot_of, contains, max_tasks,
}
use uchos.Task.Scheduler.{schedule_task, make_ready, enqueue}
use uchos.Task.System.Slots.{task_at-lt, task_at-put_self, task_at-put_ne, put-put}

-- What a task that waits for `reason` waits for is not there.
abbrev pub Quiet : WaitReason → Task → Type 0
Quiet WaitReason.none t = Unit
Quiet WaitReason.receive t = (t.pending_notifications ≡ 0) × (t.messages.count ≡ 0)
Quiet WaitReason.notify t = bit_and t.pending_notifications t.wait_notify_mask ≡ 0
Quiet WaitReason.reply t = t.reply_pending ≡ false
Quiet WaitReason.child t = t.num_exit_records ≡ 0

-- The task in slot `d`, with the run queue `queue`.
pub record TaskOk (queue : List ℕ) (d : ℕ) (t : Task) : Type 0 where
  pub named : t.id ≡ pos d
  pub calm : t.state ≡ waiting → Quiet t.wait_reason t
  pub queued : t.state ≡ ready → contains queue d ≡ true
  pub unqueued : t.state ≡ running → d ≢ 0 → contains queue d ≡ false
  pub alive : t.state ≢ exited
  pub answered :
      t.reply_pending ≡ true
      → t.call_correlation ≢ 0
      → t.reply_slot.correlation ≡ t.call_correlation

abbrev pub SlotOk : List ℕ → ℕ → Option Task → Type 0
SlotOk queue d none = contains queue d ≡ false
SlotOk queue d (some t) = TaskOk queue d t

abbrev pub Distinct : List ℕ → Type 0
Distinct [] = Unit
Distinct (d ∷ ds) = (contains ds d ≡ false) × Distinct ds

pub record Inv (k : Kernel) : Type 0 where
  pub slots : (d : ℕ) → SlotOk k.run_queue d (task_at k d)
  pub distinct : Distinct k.run_queue
  pub sized : length k.tasks ≡ max_tasks

-- A property of the kernel that an operation leaves, if it is defined.
abbrev pub After : {A : Type 0} → (Kernel → Type 0) → Option (Kernel × A) → Type 0
After P none = Unit
After P (some (k, a)) = P k

-- A branch keeps what both its sides keep.
pub After-if :
    {A : Type 0} (P : Kernel → Type 0) (b : Bool) (x y : Option (Kernel × A))
    → (b ≡ true → After P x)
    → (b ≡ false → After P y)
    → After P (if b then x else y)
After-if P true x y p q = p refl
After-if P false x y p q = q refl

abbrev pub Afterwards : (Kernel → Type 0) → Option Kernel → Type 0
Afterwards P none = Unit
Afterwards P (some k) = P k

module _ (k : Kernel) (d : ℕ) (t : Task) (v : Inv k) (there : task_at k d ≡ some t) where
  -- The task in an occupied slot.
  pub task-ok : TaskOk k.run_queue d t
  task-ok = subst (SlotOk k.run_queue d) there (v.slots d)

  pub slot_of-there : slot_of (pos d) ≡ some d
  slot_of-there = rw (lt→ltb d max_tasks (omega (arith, task_at-lt k d there, v.sized)))

  -- Writing the task back.
  pub put-Inv : (t' : Task) → TaskOk k.run_queue d t' → Inv (put k d t')
  put-Inv t' good = record {
    slots = λ e. elim (ℕ_discrete d e) [
      | yes same ↦
          subst (λ x. SlotOk k.run_queue x (task_at (put k d t') x)) same
            (rw (task_at-put_self k d t' (task_at-lt k d there)) good)
      | no other ↦ rw (task_at-put_ne k d t' e other) (v.slots e)
    ];
    distinct = v.distinct;
    sized = length-set k.tasks d (some t') ∙ v.sized;
  }

contains-snoc_self : (q : List ℕ) (d : ℕ) → contains (q ++ d ∷ []) d ≡ true
contains-snoc_self [] d = ground arith
contains-snoc_self (x ∷ q) d = ground (arith, contains-snoc_self q d)

contains-snoc_ne : (q : List ℕ) (d e : ℕ) → d ≢ e → contains (q ++ d ∷ []) e ≡ contains q e
contains-snoc_ne [] d e ne = ground arith
contains-snoc_ne (x ∷ q) d e ne = ground (arith, contains-snoc_ne q d e ne)

Distinct-snoc : (q : List ℕ) (d : ℕ) → contains q d ≡ false → Distinct q → Distinct (q ++ d ∷ [])
Distinct-snoc [] d h s = (refl, tt)
Distinct-snoc (x ∷ q) d h s =
    (contains-snoc_ne q d x (ground arith) ∙ s.0, Distinct-snoc q d (ground arith) s.1)

-- A run queue that answers alike for a slot.
pub SlotOk-queue :
    (p q : List ℕ) (d : ℕ) (o : Option Task)
    → contains q d ≡ contains p d
    → SlotOk p d o
    → SlotOk q d o
SlotOk-queue p q d none e s = e ∙ s
SlotOk-queue p q d (some t) e s = record {
  named = s.named;
  calm = s.calm;
  queued = λ h. e ∙ s.queued h;
  unqueued = λ h ne. e ∙ s.unqueued h ne;
  alive = s.alive;
  answered = s.answered;
}

-- A task that becomes ready.
pub record Woken (d : ℕ) (t : Task) : Type 0 where
  pub named : t.id ≡ pos d
  pub answered :
      t.reply_pending ≡ true
      → t.call_correlation ≢ 0
      → t.reply_slot.correlation ≡ t.call_correlation

ready-ok :
    (q : List ℕ) (d : ℕ) (t : Task)
    → contains q d ≡ true
    → Woken d t
    → TaskOk q d (record t { state = ready })
ready-ok q d t h w = record {
  named = w.named;
  calm = λ e. cc e;
  queued = λ e. h;
  unqueued = λ e. cc e;
  alive = λ e. cc e;
  answered = w.answered;
}

module _ (k : Kernel) (d : ℕ) (t : Task) (v : Inv k) (there : task_at k d ≡ some t) where
  pub queue-Inv :
      (t' : Task) (w : Woken d t') → Inv (enqueue (put k d (record t' { state = ready })) d)
  unfolding enqueue
  queue-Inv t' w = elim (Bool-cases (contains k.run_queue d)) [
    | inl old ↦ rw old (put-Inv k d t v there ready' (ready-ok k.run_queue d t' old w))
    | inr new ↦ rw new (record {
      slots = λ e. elim (ℕ_discrete d e) [
        | yes same ↦
            subst (λ x. SlotOk (k.run_queue ++ d ∷ []) x (task_at (put k d ready') x)) same
              (rw (task_at-put_self k d ready' (task_at-lt k d there))
                (ready-ok (k.run_queue ++ d ∷ []) d t' (contains-snoc_self k.run_queue d) w))
        | no other ↦ rw (task_at-put_ne k d ready' e other) (
            SlotOk-queue k.run_queue (k.run_queue ++ d ∷ []) e (task_at k e)
              (contains-snoc_ne k.run_queue d e other) (v.slots e))
      ];
      distinct = Distinct-snoc k.run_queue d new v.distinct;
      sized = length-set k.tasks d (some ready') ∙ v.sized;
    })
  ]
    where
      ready' : Task
      ready' = record t' { state = ready }

  -- `schedule_task` after a write to the task.
  pub schedule_task-put :
      (t' : Task)
      → schedule_task (put k d t') (pos d) ≡ enqueue (put k d (record t' { state = ready })) d
  unfolding schedule_task make_ready
  schedule_task-put t' =
      ap (λ o. elim o [ none ↦ put k d t' | some e ↦ make_ready (put k d t') e ])
        (slot_of-there k d t v there)
      ∙ ap
          (λ o. elim o [
            | none ↦ put k d t'
            | some u ↦ enqueue (put (put k d t') d (record u { state = ready })) d
          ])
          (task_at-put_self k d t' (task_at-lt k d there))
      ∙ ap (λ k'. enqueue k' d) (put-put k d t' (record t' { state = ready }))

  -- Waking the task, with what was written to it before.
  pub wake-Inv : (t' : Task) → Woken d t' → Inv (schedule_task (put k d t') (pos d))
  wake-Inv t' w = rw (schedule_task-put t') (queue-Inv t' w)
