-- ===== src/Task/System.antt =====
-- The tasks together: every section of kernel/task that runs with interrupts off, in any order that
-- the kernel allows. The task context runs while the current task is RUNNING (a task that has
-- declared itself waiting does nothing but the switch); an interrupt may ring a doorbell or switch
-- at any time. `call` is several steps: it opens the call, sends, ends the call if the send failed, and
-- awaits the reply; an exit tells the parent and finishes. Slot 0 is the boot task, which never exits.
pub mod Slots
pub mod Invariant
pub mod Delivery
pub mod Rounds
pub mod Switching
pub mod Exit
pub mod Creation
pub mod Safety
use uchos.Prelude.{ℕ, ◌≡◌, ◌≢◌, Bool, true, Option, none, some, List}
use uchos.Common.{ℤ, Message}
use uchos.Task.State.{Task, running, NotifyType, Kernel, task_at, ChildExitRecord}
use uchos.Task.Scheduler.{
  schedule_task, switch_task, sleep_current, record_child_exit, create_task, TaskMemory,
}
use uchos.Task.Ipc.{
  send_message, open_call, end_call, call_round, reply, notify, receive_round,
  wait_notification_round,
}
use uchos.Task.Children.{wait_round, tell_parent, finish_exit}

-- The current task is in its slot and running.
pub record IsRunning (k : Kernel) : Type 0 where
  pub task : Task
  pub there : task_at k k.current ≡ some task
  pub active : task.state ≡ running

pub data Step (k : Kernel) (k' : Kernel) : Type 0 where
  sends :
      (dst : ℤ) (m : Message) (e : ℤ)
      → IsRunning k
      → send_message k dst m ≡ some (k', e)
      → Step k k'
  opens_call : (r : IsRunning k) → k' ≡ open_call k r.task → Step k k'
  ends_call : IsRunning k → end_call k ≡ some k' → Step k k'
  awaits : (out : Option Message) → IsRunning k → call_round k ≡ some (k', out) → Step k k'
  replies : (req resp : Message) (e : ℤ) → IsRunning k → reply k req resp ≡ some (k', e) → Step k k'
  receives : (out : Option Message) → IsRunning k → receive_round k ≡ some (k', out) → Step k k'
  waits_notification :
      (mask : ℕ) (done : Bool)
      → IsRunning k
      → wait_notification_round k mask ≡ some (k', done)
      → Step k k'
  waits_child :
      (out : Option ChildExitRecord) → IsRunning k → wait_round k ≡ some (k', out) → Step k k'
  sleeps : IsRunning k → sleep_current k ≡ some k' → Step k k'
  tells_parent : (r : IsRunning k) (status : ℤ) → k' ≡ tell_parent k r.task status → Step k k'
  finishes : IsRunning k → k.current ≢ 0 → finish_exit k ≡ some k' → Step k k'
  notifies : (dst : ℤ) (type : NotifyType) → k' ≡ notify k dst type → Step k k'
  schedules : (id : ℤ) → k' ≡ schedule_task k id → Step k k'
  switches : switch_task k ≡ some k' → Step k k'
  creates :
      (name : List ℕ) (given : TaskMemory) (made : Option ℕ)
      → create_task k name given ≡ some (k', made)
      → Step k k'

-- Any run of the kernel from `k`.
pub data Reach (k : Kernel) : Kernel → Type 0 where
  here : Reach k k
  next : {j i : Kernel} → Reach k j → Step j i → Reach k i
