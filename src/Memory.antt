-- ===== src/Memory.antt =====
-- kernel/memory: page metadata, the allocator used at boot and the one used after it.
pub mod BitUtils
pub mod Bootstrap
pub mod Buddy
pub mod Init
pub mod Page
pub mod Slab
