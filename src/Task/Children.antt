-- ===== src/Task/Children.antt =====
-- The exit of a task and its parent's wait: `exit_task` of kernel/task/task.cpp and the loop of
-- `sys_wait` of kernel/syscall/handler.cpp. What `exit_task` releases, descriptors and out-of-line
-- buffers, is not modelled here.
pub mod Fifo
use uchos.Prelude.{
  ℕ, zero, suc, ◌+◌, ◌-◌, Option, none, some, List, get_or, set, ltb, if◌then◌else◌,
}
use uchos.Common.{ℤ, pos, ◌==ℤ◌, invalid_id}
use uchos.Task.WaitReason.{WaitReason}
use uchos.Task.State.{
  Task, running, waiting, exited, ChildExitRecord, Kernel, task_at, put, slot_of,
}
use uchos.Task.Scheduler.{record_child_exit, switch_task}

-- `for (i = 1; i < n; ++i) records[i - 1] = records[i]`.
unfoldable pub shift_down : List ChildExitRecord → ℕ → ℕ → List ChildExitRecord
shift_down records zero i = records
shift_down records (suc rounds) i =
    shift_down (set records (i - 1) (get_or records i (record { pid = pos 0; status = pos 0 })))
      rounds (i + 1)

-- One round of the loop of `sys_wait`: the oldest record, or the task is set waiting for one.
unfoldable pub wait_round : Kernel → Option (Kernel × Option ChildExitRecord)
unfolding shift_down
wait_round k = elim (task_at k k.current) [
  | none ↦ none
  | some t ↦
      if ltb 0 t.num_exit_records
      then some (
        put k k.current (record t {
          exit_records = shift_down t.exit_records (t.num_exit_records - 1) 1;
          num_exit_records = t.num_exit_records - 1;
          state = running;
          wait_reason = WaitReason.none;
        }),
        some (get_or t.exit_records 0 (record { pid = pos 0; status = pos 0 })),
      )
      else some
          (put k k.current (record t { wait_reason = WaitReason.child; state = waiting }), none)
]

-- The exit is parked on the parent, if there is one.
unfoldable pub tell_parent : Kernel → Task → ℤ → Kernel
tell_parent k t status =
    if t.parent_id ==ℤ invalid_id
    then k
    else elim (slot_of t.parent_id) [ none ↦ k | some p ↦ record_child_exit k p t.id status ]

unfoldable pub mark_exited : Kernel → Option Kernel
mark_exited k = elim (task_at k k.current) [
  | none ↦ none
  | some t ↦ some (put k k.current (record t { state = exited }))
]

-- The end of `exit_task`: the state is set and the switch made at once.
unfoldable pub finish_exit : Kernel → Option Kernel
unfolding mark_exited
finish_exit k = elim (mark_exited k) [ none ↦ none | some k' ↦ switch_task k' ]

unfoldable pub exit_task : Kernel → ℤ → Option Kernel
unfolding tell_parent finish_exit
exit_task k status = elim (task_at k k.current) [
  | none ↦ none
  | some t ↦ finish_exit (tell_parent k t status)
]
