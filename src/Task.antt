-- ===== src/Task.antt =====
-- kernel/task: tasks, their scheduler and the messages between them.
pub mod MessageQueue
pub mod WaitReason
pub mod State
pub mod Scheduler
pub mod Ipc
pub mod Children
pub mod System
pub mod Boot
