-- ===== src/Task/Scheduler.antt =====
-- kernel/task/task.cpp: task slots, the run queue and the switch between tasks.
-- A result `none` stands for a read through a null pointer or outside `tasks`.
use uchos.Prelude.{
  ℕ, ◌+◌, false, ◌&&◌, Option, none, some, List, [], ◌∷◌, ◌++◌, take, replicate, set, leb,
  if◌then◌else◌, Bool,
}
use uchos.Common.{ℤ, pos, negsuc, invalid_id, Message, MsgType, no_ool, empty, ok}
use uchos.Task.MessageQueue.{MessageQueue}
use uchos.Task.MessageQueue
use uchos.Task.WaitReason.{WaitReason, is_child}
use uchos.Task.State.{
  Task, TaskState, running, ready, waiting, is_waiting, is_exited, max_child_exit_records, Kernel,
  task_at, put, slot_of, contains,
}

-- The first slot from `i` on that is empty.
unfoldable pub first_empty : List (Option Task) → ℕ → ℤ
first_empty [] i = invalid_id
first_empty (none ∷ slots) i = pos i
first_empty (some t ∷ slots) i = first_empty slots (i + 1)

unfoldable pub get_available_task_id : Kernel → ℤ
unfolding first_empty
get_available_task_id k = first_empty k.tasks 0

unfoldable pub get_task : Kernel → ℤ → Option Task
get_task k id = elim (slot_of id) [ none ↦ none | some d ↦ task_at k d ]

-- A message whose fields are all zero.
abbrev pub blank : Message
blank = record {
  type = MsgType.notify_xhci;
  sender = invalid_id;
  correlation = 0;
  flags = 0;
  result = ok;
  ool = no_ool;
  body = empty;
}

-- The constructor of `Task`, less what the model leaves out. The parameter `storage` is what the
-- allocator gave for the message ring.
unfoldable pub new_task : ℤ → List ℕ → TaskState → Option (List Message) → Task
new_task id name state storage = record {
  id = id;
  parent_id = invalid_id;
  name = take 31 name;
  state = state;
  messages = MessageQueue.init storage;
  pending_notifications = 0;
  wait_reason = WaitReason.none;
  wait_notify_mask = 0;
  next_correlation = 0;
  call_correlation = 0;
  reply_pending = false;
  reply_slot = blank;
  exit_records = replicate max_child_exit_records (record { pid = pos 0; status = pos 0 });
  num_exit_records = 0;
}

-- What the allocator gives for a new task: whether there is memory for the task itself, and the storage
-- of its ring.
pub record TaskMemory : Type 0 where
  pub task : Bool
  pub ring : Option (List Message)

-- The kernel afterwards, and the slot of the new task. The whole is `none` when `Task::operator new`
-- gives null, on which the constructor runs all the same.
unfoldable pub create_task : Kernel → List ℕ → TaskMemory → Option (Kernel × Option ℕ)
create_task k name given = elim (get_available_task_id k) [
  | negsuc n ↦ some (k, none)
  | pos d ↦
      if given.task then some (put k d (new_task (pos d) name waiting given.ring), some d) else none
]

unfoldable pub enqueue : Kernel → ℕ → Kernel
enqueue k d = if contains k.run_queue d then k else record k { run_queue = k.run_queue ++ d ∷ [] }

unfoldable pub make_ready : Kernel → ℕ → Kernel
unfolding enqueue
make_ready k d = elim (task_at k d) [
  | none ↦ k
  | some t ↦ enqueue (put k d (record t { state = ready })) d
]

unfoldable pub schedule_task : Kernel → ℤ → Kernel
unfolding make_ready
schedule_task k id = elim (slot_of id) [ none ↦ k | some d ↦ make_ready k d ]

-- `LIST_POP_FRONT` on the run queue, or the idle task.
unfoldable pub pick_from : Kernel → List ℕ → Option Kernel
pick_from k [] = some (record k { current = k.idle })
pick_from k (d ∷ rest) = elim (task_at k d) [
  | none ↦ none
  | some t ↦
      some (record (put k d (record t { state = running })) { run_queue = rest; current = d })
]

unfoldable pub pick_next_task : Kernel → Option Kernel
unfolding pick_from
pick_next_task k = pick_from k k.run_queue

-- The exited task leaves its slot and waits for the next switch to be deleted.
unfoldable pub vacate : Kernel → Task → Option Kernel
vacate k t = elim t.id [
  | negsuc n ↦ none
  | pos d ↦ some (record k { task_pending_reap = task_at k d; tasks = set k.tasks d none })
]

-- What `switch_task` does with the task that it leaves.
unfoldable pub leave : Kernel → Task → Option Kernel
unfolding vacate
leave k t =
    if is_exited t.state
    then vacate k t
    else if is_waiting t.state
    then some k
    else some (schedule_task k t.id)

-- The saved and restored CPU contexts are not modelled.
unfoldable pub switch_task : Kernel → Option Kernel
unfolding leave
switch_task k =
    let reaped = record k { task_pending_reap = none } in
    elim (task_at reaped k.current) [
      | none ↦ none
      | some t ↦ elim (leave reaped t) [ none ↦ none | some k' ↦ pick_next_task k' ]
    ]

-- The part of `switch_next_task` before the interrupt, when `sleep_current_task` is set.
unfoldable pub sleep_current : Kernel → Option Kernel
sleep_current k = elim (task_at k k.current) [
  | none ↦ none
  | some t ↦ some (put k k.current (record t { wait_reason = WaitReason.none; state = waiting }))
]

-- The parent is given by its slot.
unfoldable pub record_child_exit : Kernel → ℕ → ℤ → ℤ → Kernel
record_child_exit k d child status = elim (task_at k d) [
  | none ↦ k
  | some parent ↦
      if leb max_child_exit_records parent.num_exit_records
      then k
      else let parent' = record parent {
        exit_records =
            set parent.exit_records parent.num_exit_records
              (record { pid = child; status = status });
        num_exit_records = parent.num_exit_records + 1;
      } in
        if is_waiting parent.state && is_child parent.wait_reason
        then schedule_task (put k d parent') parent.id
        else put k d parent'
]
