-- ===== src/Examples/Queues.antt =====
-- The queues of kernel/task at concrete inputs: messages, doorbells and exit records.
use uchos.Prelude.{
  ℕ, ◌+◌, ◌<◌, ◌^◌, ◌≡◌, ◌≢◌, refl, some, [], ◌∷◌, length, replicate, arith, get_elem?,
}
use uchos.Common.{ℤ, pos, Message, err_queue_full}
use uchos.Task.MessageQueue.{capacity}
use uchos.Task.MessageQueue.Fifo.{Holds}
use uchos.Task.State.{Task, running, ChildExitRecord, Kernel, put}
use uchos.Task.Scheduler.{blank}
use uchos.Task.Children.{wait_round}
use uchos.Task.Children.Fifo.{Parked, wait_round_refines}
use uchos.Task.Ipc.{send_message, try_receive, synthesized, fresh_correlation, notify_message_types}
use uchos.Task.Ipc.Mailbox.{Sent, send_message_refines}
use uchos.Task.Ipc.Doorbell.{lowest, try_receive_lem, fresh_correlation_lem}
use uchos.Examples.Tasks.{main_task, server_task, client_task, three_tasks, three_tasks-Inv}

server_task-Holds : Holds server_task.messages []
server_task-Holds = record {
  slots = replicate 64 blank;
  allocated = refl;
  long = refl;
  head_in = omega arith;
  bounded = omega arith;
  counted = refl;
  items = refl;
}

send_message_refines_example :
    (length {A = Message} [] ≡ capacity
      → send_message three_tasks (pos 1) blank ≡ some (three_tasks, err_queue_full))
    × (length {A = Message} [] < capacity
        → (r : Kernel × ℤ) × (send_message three_tasks (pos 1) blank ≡ some r)
          × Sent 1 server_task (blank ∷ []) r)
send_message_refines_example =
    send_message_refines three_tasks 1 server_task three_tasks-Inv refl [] blank refl
      server_task-Holds

abbrev rung_twice : Task
rung_twice = record server_task { pending_notifications = 20 }

try_receive_lem_example :
    (left : ℕ) × (try_receive rung_twice
      ≡ some (record rung_twice { pending_notifications = left }, synthesized (lowest rung_twice)))
    × (left + 2 ^ lowest rung_twice ≡ 20)
    × (get_elem? notify_message_types (lowest rung_twice)
        ≡ some (synthesized (lowest rung_twice)).type)
try_receive_lem_example = try_receive_lem rung_twice (omega arith) (omega arith)

fresh_correlation_lem_example :
    (fresh_correlation 0xFFFF_FFFF ≢ 0)
    × (fresh_correlation 0xFFFF_FFFF < 2 ^ 32)
    × (fresh_correlation 0xFFFF_FFFF ≢ 0xFFFF_FFFF)
fresh_correlation_lem_example = fresh_correlation_lem 0xFFFF_FFFF (omega arith)

abbrev exit_5 : ChildExitRecord
exit_5 = record { pid = pos 5; status = pos 0 }

abbrev exit_6 : ChildExitRecord
exit_6 = record { pid = pos 6; status = pos 1 }

abbrev parent_task : Task
parent_task = record main_task {
  exit_records = exit_5 ∷ exit_6 ∷ replicate 6 (record { pid = pos 0; status = pos 0 });
  num_exit_records = 2;
}

parent_task-Parked : Parked parent_task (exit_5 ∷ exit_6 ∷ [])
parent_task-Parked = record { long = refl; bounded = omega arith; counted = refl; items = refl }

wait_round_refines_example :
    (t' : Task) × (wait_round (put three_tasks 0 parent_task)
      ≡ some (put (put three_tasks 0 parent_task) 0 t', some exit_5))
    × Parked t' (exit_6 ∷ [])
    × (t'.state ≡ running)
wait_round_refines_example =
    wait_round_refines (put three_tasks 0 parent_task) parent_task exit_5 (exit_6 ∷ []) refl
      parent_task-Parked

client_task-Parked : Parked client_task []
client_task-Parked = record { long = refl; bounded = omega arith; counted = refl; items = refl }
