-- ===== src/Mm.antt =====
-- The memory manager, crate `mm`.
pub mod Vma
pub mod Paging
pub mod Rmap
pub mod Mapping
pub mod Heap
pub mod Space
pub mod Frame
