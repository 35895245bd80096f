-- ===== src/Mm/Vma/Area.antt =====
-- `MemoryArea` of mm/src/memory_set/vma_tree.rs. A `VirtAddr` is the `u64` that it wraps, and
-- `PageTableFlags` is its word of bits.
use old_boruixkernel.Common.{ℕ, ◌-◌, Bool, ◌&&◌, ltb, leb, ◌≤◌, ◌<◌, ◌≡◌, true, arith}

pub data Backing : Type 0 where
  anonymous file : Backing

pub record MemoryArea : Type 0 where
  pub start : ℕ
  pub end : ℕ
  pub flags : ℕ
  pub backing : Backing

unfoldable pub new : ℕ → ℕ → ℕ → MemoryArea
new start end flags = record { start = start; end = end; flags = flags; backing = anonymous }

-- The subtraction does not underflow on the areas of a tree, which are not empty.
unfoldable pub size : MemoryArea → ℕ
size a = a.end - a.start

unfoldable pub contains : MemoryArea → ℕ → Bool
contains a addr = leb a.start addr && ltb addr a.end

pub contains_bounds :
    (a : MemoryArea) (addr : ℕ) → contains a addr ≡ true → (a.start ≤ addr) × (addr < a.end)
unfolding contains
contains_bounds a addr h = ground arith

pub contains_yes :
    (a : MemoryArea) (addr : ℕ) → a.start ≤ addr → addr < a.end → contains a addr ≡ true
unfolding contains
contains_yes a addr h g = ground arith
