-- ===== src/Task/System/Safety.antt =====
-- Every step keeps the invariant, so every kernel that is reached has it; what it says of a task.
use uchos.Prelude.{ℕ, ◌≡◌, ◌≢◌, sym, subst, true, false, none, some}
use uchos.Task.State.{Task, running, ready, waiting, Kernel, task_at, contains}
use uchos.Task.System.{
  Step, Reach, sends, opens_call, ends_call, awaits, replies, receives, waits_notification,
  waits_child, sleeps, tells_parent, finishes, notifies, schedules, switches, creates, here, next,
}
use uchos.Task.System.Invariant.{Quiet, Inv, After, Afterwards, Distinct, SlotOk, task-ok}
use uchos.Task.System.Delivery.{send_message-Inv, notify-Inv}
use uchos.Task.System.Rounds.{
  open_call-Inv, end_call-Inv, call_round-Inv, reply-Inv, receive_round-Inv,
  wait_notification_round-Inv, wait_round-Inv, sleep_current-Inv,
}
use uchos.Task.System.Switching.{schedule_task-Inv, switch_task-Inv}
use uchos.Task.System.Exit.{tell_parent-Inv, finish_exit-Inv}
use uchos.Task.System.Creation.{create_task-Inv}

-- Every step of the kernel keeps the invariant of the task table and the run queue.
pub Step-Inv : {k k' : Kernel} → Step k k' → Inv k → Inv k'
Step-Inv {k} (sends dst m e r h) v = subst (After Inv) h (send_message-Inv k v dst m)
Step-Inv {k} (opens_call r h) v = subst Inv (sym h) (open_call-Inv k r.task v r.there r.active)
Step-Inv {k} (ends_call r h) v = subst (Afterwards Inv) h (end_call-Inv k r.task v r.there r.active)
Step-Inv {k} (awaits out r h) v = subst (After Inv) h (call_round-Inv k r.task v r.there r.active)
Step-Inv {k} (replies req resp e r h) v =
    subst (After Inv) h (reply-Inv k r.task v r.there req resp)
Step-Inv {k} (receives out r h) v =
    subst (After Inv) h (receive_round-Inv k r.task v r.there r.active)
Step-Inv {k} (waits_notification mask done r h) v =
    subst (After Inv) h (wait_notification_round-Inv k r.task v r.there mask r.active)
Step-Inv {k} (waits_child out r h) v =
    subst (After Inv) h (wait_round-Inv k r.task v r.there r.active)
Step-Inv {k} (sleeps r h) v = subst (Afterwards Inv) h (sleep_current-Inv k r.task v r.there)
Step-Inv {k} (tells_parent r status h) v = subst Inv (sym h) (tell_parent-Inv k r.task status v)
Step-Inv {k} (finishes r ne h) v = subst (Afterwards Inv) h (finish_exit-Inv k v r ne)
Step-Inv {k} (notifies dst type h) v = subst Inv (sym h) (notify-Inv k v dst type)
Step-Inv {k} (schedules id h) v = subst Inv (sym h) (schedule_task-Inv k id v)
Step-Inv {k} (switches h) v = subst (Afterwards Inv) h (switch_task-Inv k v)
Step-Inv {k} (creates name given made h) v = create_task-Inv k name given v h

-- Every kernel that is reached from a well-formed one is well formed.
pub Reach-Inv : {k k' : Kernel} → Inv k → Reach k k' → Inv k'
Reach-Inv v here = v
Reach-Inv v (next run step) = Step-Inv step (Reach-Inv v run)

-- In every kernel reached from a well-formed one, whatever a waiting task waits for is not there: no
-- message or doorbell for a task in a receive, no doorbell of its mask, no reply, no exit record.
pub no_lost_wakeup :
    {k k' : Kernel} (v : Inv k) (run : Reach k k') (d : ℕ) (t : Task)
    → task_at k' d ≡ some t
    → t.state ≡ waiting
    → Quiet t.wait_reason t
no_lost_wakeup {k} {k'} v run d t there asleep =
    (task-ok k' d t (Reach-Inv v run) there).calm asleep

-- In every kernel reached from a well-formed one, a ready task is on the run queue, and a running
-- task other than the boot task is not.
pub ready_queued :
    {k k' : Kernel} (v : Inv k) (run : Reach k k') (d : ℕ) (t : Task)
    → task_at k' d ≡ some t
    → (t.state ≡ ready → contains k'.run_queue d ≡ true)
      × (t.state ≡ running → d ≢ 0 → contains k'.run_queue d ≡ false)
ready_queued {k} {k'} v run d t there =
    let good = task-ok k' d t (Reach-Inv v run) there in (good.queued, good.unqueued)

-- In every kernel reached from a well-formed one, a reply that is pending while its task has a call
-- outstanding carries the correlation of that call.
pub reply_matches :
    {k k' : Kernel} (v : Inv k) (run : Reach k k') (d : ℕ) (t : Task)
    → task_at k' d ≡ some t
    → t.reply_pending ≡ true
    → t.call_correlation ≢ 0
    → t.reply_slot.correlation ≡ t.call_correlation
reply_matches {k} {k'} v run d t there pending outstanding =
    (task-ok k' d t (Reach-Inv v run) there).answered pending outstanding

-- In every kernel reached from a well-formed one the run queue names no slot twice and no empty slot.
pub run_queue_lem :
    {k k' : Kernel} (v : Inv k) (run : Reach k k')
    → Distinct k'.run_queue × ((d : ℕ) → task_at k' d ≡ none → contains k'.run_queue d ≡ false)
run_queue_lem {k} {k'} v run =
    let w = Reach-Inv v run in
    (w.distinct, λ d empty. subst (SlotOk k'.run_queue d) empty (w.slots d))
