-- ===== src/Syscall.antt =====
-- The crate kernel_syscall, as far as it is modelled.
pub mod UserPtr
