-- ===== src/Fs/Fat.antt =====
-- kernel/fs/fat: the FAT32 service.
pub mod Clusters
pub mod Growth
pub mod Content
pub mod Write
