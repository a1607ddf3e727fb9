-- ===== src/Examples/Tasks.antt =====
-- kernel/task at concrete inputs: three tasks, of which the first runs, the second waits in a
-- receive and the third waits for the reply to its call 7.
use uchos.Prelude.{
  ℕ, zero, suc, ◌≡◌, ◌≢◌, refl, sym, subst, true, false, Option, none, some, List, [], ◌∷◌,
  replicate, get_elem?, arith, ◌++◌,
}
use uchos.Common.{ℤ, pos, negsuc, Message}
use uchos.Task.MessageQueue.{init}
use uchos.Task.MessageQueue.Fifo.{put, get, run, fifo_run, run_refines, init-Holds}
use uchos.Task.WaitReason.{WaitReason}
use uchos.Task.State.{Task, running, ready, waiting, Kernel, task_at, NotifyType}
use uchos.Task.Scheduler.{blank, schedule_task, make_ready, enqueue, TaskMemory}
use uchos.Task.Ipc.{send_message, deliver, deliver_reply, notify, ring_doorbell}
use uchos.Task.Boot.{initialize, scheduler_tasks}
use uchos.Task.Boot.Spawning.{empty_slots}
use uchos.Task.Boot.Invariant.{initialize-Inv, Booted}
use uchos.Task.System.{IsRunning, Reach, here, next, notifies, sends}
use uchos.Task.System.Invariant.{Quiet, TaskOk, SlotOk, Inv}
use uchos.Task.System.Safety.{no_lost_wakeup, ready_queued, reply_matches}

abbrev pub ring : Option (List Message)
ring = some (replicate 64 blank)

abbrev pub fresh : ℤ → Task
fresh id = record {
  id = id;
  parent_id = negsuc 0;
  name = [];
  state = waiting;
  messages = record { ring = ring; head = 0; count = 0 };
  pending_notifications = 0;
  wait_reason = WaitReason.none;
  wait_notify_mask = 0;
  next_correlation = 0;
  call_correlation = 0;
  reply_pending = false;
  reply_slot = blank;
  exit_records = replicate 8 (record { pid = pos 0; status = pos 0 });
  num_exit_records = 0;
}

abbrev pub main_task : Task
main_task = record (fresh (pos 0)) { state = running }

abbrev pub server_task : Task
server_task = record (fresh (pos 1)) { wait_reason = WaitReason.receive }

abbrev pub client_task : Task
client_task = record (fresh (pos 2)) {
  wait_reason = WaitReason.reply;
  call_correlation = 7;
  next_correlation = 7;
}

abbrev pub three_tasks : Kernel
three_tasks = record {
  tasks = some main_task ∷ some server_task ∷ some client_task ∷ replicate 97 none;
  run_queue = [];
  current = 0;
  idle = 1;
  task_pending_reap = none;
}

main_task-ok : TaskOk [] 0 main_task
main_task-ok = record {
  named = refl;
  calm = λ e. cc;
  queued = λ e. cc e;
  unqueued = λ e ne. refl;
  alive = λ e. cc e;
  answered = λ e. cc;
}

server_task-ok : TaskOk [] 1 server_task
server_task-ok = record {
  named = refl;
  calm = λ e. (refl, refl);
  queued = λ e. cc e;
  unqueued = λ e ne. refl;
  alive = λ e. cc e;
  answered = λ e. cc;
}

client_task-ok : TaskOk [] 2 client_task
client_task-ok = record {
  named = refl;
  calm = λ e. refl;
  queued = λ e. cc e;
  unqueued = λ e ne. refl;
  alive = λ e. cc e;
  answered = λ e. cc e;
}

three_tasks-slots : (d : ℕ) → SlotOk [] d (task_at three_tasks d)
three_tasks-slots zero = main_task-ok
three_tasks-slots (suc zero) = server_task-ok
three_tasks-slots (suc (suc zero)) = client_task-ok
three_tasks-slots (suc (suc (suc d))) =
    subst (λ o. SlotOk [] (suc (suc (suc d))) o)
      (sym (empty_slots 97 d (get_elem? (replicate 97 none) d) refl)) refl

pub three_tasks-Inv : Inv three_tasks
three_tasks-Inv = record { slots = three_tasks-slots; distinct = tt; sized = refl }

main_runs : IsRunning three_tasks
main_runs = record { task = main_task; there = refl; active = refl }

abbrev pub answer : Message
answer = record blank { correlation = 7; flags = 1 }

-- The doorbell of the server, then the reply to the client.
abbrev rung : Kernel
rung = record three_tasks {
  tasks =
      some main_task
      ∷ some (record server_task { pending_notifications = 16; state = ready })
      ∷ some client_task
      ∷ replicate 97 none;
  run_queue = 1 ∷ [];
}

abbrev answered : Kernel
answered = record three_tasks {
  tasks =
      some main_task
      ∷ some server_task
      ∷ some (record client_task { state = ready; reply_pending = true; reply_slot = answer })
      ∷ replicate 97 none;
  run_queue = 2 ∷ [];
}

ringing : Reach three_tasks rung
unfolding notify ring_doorbell schedule_task make_ready enqueue
ringing = next here (notifies (pos 1) NotifyType.timer refl)

answering : Reach three_tasks answered
unfolding send_message deliver deliver_reply schedule_task make_ready enqueue
answering = next here (sends (pos 2) answer (pos 0) main_runs refl)

no_lost_wakeup_example : Quiet WaitReason.receive server_task
no_lost_wakeup_example = no_lost_wakeup three_tasks-Inv answering 1 server_task refl refl

ready_queued_example :
    (ready ≡ ready → true ≡ true) × (ready ≡ running → ◌≢◌ {A = ℕ} 1 0 → true ≡ false)
ready_queued_example =
    ready_queued three_tasks-Inv ringing 1
      (record server_task { pending_notifications = 16; state = ready }) refl

reply_matches_example : answer.correlation ≡ 7
reply_matches_example =
    reply_matches three_tasks-Inv answering 2
      (record client_task { state = ready; reply_pending = true; reply_slot = answer }) refl refl
      (λ e. omega (arith, e))

abbrev memory : TaskMemory
memory = record { task = true; ring = ring }

initialize-Inv_example :
    (k : Kernel) × (initialize memory memory [] ≡ some k)
    × Inv k
    × (k.current ≡ 0)
    × (k.idle ≡ 1)
    × Booted (scheduler_tasks memory memory ++ []) k
initialize-Inv_example = initialize-Inv memory memory [] refl refl tt (omega arith)

run_refines_example :
    run {A = ℕ} (init (some (replicate 64 0))) (get ∷ put 5 ∷ put 6 ∷ get ∷ [])
    ≡ fifo_run {A = ℕ} [] (get ∷ put 5 ∷ put 6 ∷ get ∷ [])
run_refines_example =
    run_refines (get ∷ put 5 ∷ put 6 ∷ get ∷ []) (init (some (replicate 64 0))) []
      (init-Holds (replicate 64 0) refl)
