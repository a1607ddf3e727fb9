-- ===== src/Examples.antt =====
-- The theorems at concrete inputs.
pub mod Fat
pub mod Lists
pub mod Memory
pub mod Tasks
pub mod Timers
pub mod Net
pub mod Queues
pub mod Files
pub mod Redirects
pub mod Contents
pub mod Slabs
