-- ===== src/Net.antt =====
-- kernel/net.
pub mod Arp
pub mod Checksum
