-- ===== src/Task.antt =====
-- The task manager, crate `kernel_task`.
pub mod Fd
pub mod WaitQueue
pub mod RunQueue
