-- ===== src/Timers.antt =====
-- kernel/timers.
pub mod Timer
