-- ===== src/Task/Boot.antt =====
-- kernel/task/task.cpp: `initialize` and the tasks that it spawns from the manifest. The entry
-- points and contexts of the tasks are not modelled; `given` is what the allocator gives for each task.
-- `none` is what it is for the creation of a task, or a null slot 0.
pub mod Spawning
pub mod Invariant
use uchos.Prelude.{ℕ, Option, none, some, List, [], ◌∷◌, replicate}
use uchos.Common.{pos, Message}
use uchos.Task.State.{Task, running, Kernel, task_at, put, max_tasks}
use uchos.Task.Scheduler.{create_task, schedule_task, TaskMemory}

pub record InitialTaskInfo : Type 0 where
  pub name : List ℕ
  pub given : TaskMemory

-- The globals before any task: no slot is taken.
abbrev pub no_tasks : Kernel
no_tasks = record {
  tasks = replicate max_tasks none;
  run_queue = [];
  current = 0;
  idle = 0;
  task_pending_reap = none;
}

-- A slot other than the one the manifest expects is only logged.
unfoldable pub spawn_initial_task : Kernel → InitialTaskInfo → Option Kernel
spawn_initial_task k info = elim (create_task k info.name info.given) [
  | none ↦ none
  | some (k', none) ↦ some k'
  | some (k', some d) ↦ some (schedule_task k' (pos d))
]

unfoldable pub spawn_all : Kernel → List InitialTaskInfo → Option Kernel
unfolding spawn_initial_task
spawn_all k [] = some k
spawn_all k (info ∷ rest) = elim (spawn_initial_task k info) [
  | none ↦ none
  | some k' ↦ spawn_all k' rest
]

-- "main" and "idle".
abbrev pub main_name : List ℕ
main_name = 109 ∷ 97 ∷ 105 ∷ 110 ∷ []

abbrev pub idle_name : List ℕ
idle_name = 105 ∷ 100 ∷ 108 ∷ 101 ∷ []

abbrev pub scheduler_tasks : TaskMemory → TaskMemory → List InitialTaskInfo
scheduler_tasks main idle =
    record { name = main_name; given = main } ∷ record { name = idle_name; given = idle } ∷ []

-- The last statements: the boot flow becomes the running task of slot 0.
unfoldable pub adopt : Kernel → Option Kernel
adopt k = elim (task_at k 0) [
  | none ↦ none
  | some t ↦ some (record (put k 0 (record t { state = running })) { current = 0; idle = 1 })
]

unfoldable pub initialize : TaskMemory → TaskMemory → List InitialTaskInfo → Option Kernel
unfolding spawn_all adopt
initialize main idle services = elim (spawn_all no_tasks (scheduler_tasks main idle)) [
  | none ↦ none
  | some k ↦ elim (spawn_all k services) [ none ↦ none | some k' ↦ adopt k' ]
]
