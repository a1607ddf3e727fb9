-- ===== src/Task/State.antt =====
-- kernel/task/task.hpp and ipc.hpp: the task structure and the scheduler's globals.
-- Left out of a task: its stack, CPU context and page table, the handler table, the region table of
-- out-of-line buffers and the descriptor table, which none of the modelled operations reads.
use uchos.Prelude.{
  ℕ, ◌^◌, Bool, true, false, ◌||◌, Option, none, some, List, [], ◌∷◌, get_elem?, set, ltb, ◌==◌,
  if◌then◌else◌,
}
use uchos.Common.{ℤ, pos, negsuc, Message}
use uchos.Task.MessageQueue.{MessageQueue}
use uchos.Task.WaitReason.{WaitReason}

pub data TaskState : Type 0 where
  running ready waiting exited : TaskState

abbrev pub is_waiting : TaskState → Bool
is_waiting waiting = true
is_waiting s = false

abbrev pub is_exited : TaskState → Bool
is_exited exited = true
is_exited s = false

pub data NotifyType : Type 0 where
  xhci virtio_blk virtio_net_rx virtio_net_tx timer : NotifyType

abbrev pub notify_index : NotifyType → ℕ
notify_index xhci = 0
notify_index virtio_blk = 1
notify_index virtio_net_rx = 2
notify_index virtio_net_tx = 3
notify_index timer = 4

abbrev pub notify_bit : NotifyType → ℕ
notify_bit type = 2 ^ notify_index type

pub record ChildExitRecord : Type 0 where
  pub pid : ℤ
  pub status : ℤ

pub record Task : Type 0 where
  pub id : ℤ
  pub parent_id : ℤ
  pub name : List ℕ
  pub state : TaskState
  pub messages : MessageQueue Message
  pub pending_notifications : ℕ
  pub wait_reason : WaitReason
  pub wait_notify_mask : ℕ
  pub next_correlation : ℕ
  pub call_correlation : ℕ
  pub reply_pending : Bool
  pub reply_slot : Message
  pub exit_records : List ChildExitRecord
  pub num_exit_records : ℕ

abbrev pub max_child_exit_records : ℕ
max_child_exit_records = 8

abbrev pub max_tasks : ℕ
max_tasks = 100

-- The globals of task.cpp. A task is named by its slot of `tasks`, so `run_queue`, which links the
-- nodes inside the tasks, is the list of their slots, and `current` and `idle` are slots.
pub record Kernel : Type 0 where
  pub tasks : List (Option Task)
  pub run_queue : List ℕ
  pub current : ℕ
  pub idle : ℕ
  pub task_pending_reap : Option Task

-- `tasks[d]`: the task in a slot, if there is one.
abbrev pub task_at : Kernel → ℕ → Option Task
task_at k d = elim (get_elem? k.tasks d) [ none ↦ none | some slot ↦ slot ]

-- What writing through the pointer `tasks[d]` leaves.
abbrev pub put : Kernel → ℕ → Task → Kernel
put k d t = record k { tasks = set k.tasks d (some t) }

-- The slot that a raw id stands for, if it is one.
abbrev pub slot_of : ℤ → Option ℕ
slot_of (pos n) = if ltb n max_tasks then some n else none
slot_of (negsuc n) = none

-- list.cpp: `list_contains` on the run queue.
abbrev pub contains : List ℕ → ℕ → Bool
contains [] d = false
contains (x ∷ xs) d = x == d || contains xs d
