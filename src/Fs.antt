-- ===== src/Fs.antt =====
-- kernel/fs: files.
pub mod FileInfo
pub mod Fat
pub mod Descriptor
pub mod OpenFiles
pub mod Handlers
