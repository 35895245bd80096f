-- ===== src/Fs.antt =====
-- The file systems, crate `kernel_fs`.
pub mod Pipe
pub mod Vfs
pub mod Tmpfs
