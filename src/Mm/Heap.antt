-- ===== src/Mm/Heap.antt =====
-- mm/src/heap_allocator.rs. The heaps of the crate `buddy_system_allocator` are a parameter: `store` is
-- their state outside the memory of the heap, and heap 8 is the global one. A null pointer is 0. The memory of the program is a function
-- from addresses to bytes, in which the header of a block stands as the machine lays it out; the bytes
-- of a page that is not mapped yet are those that its frame brings. The pages
-- are those of Mm/Mapping, with the frames that `allocate_frame` hands out. `none` is a panic. The
-- messages, and `dump_heap_walk`, which only writes them, are left out.
pub mod Header
pub mod Grow
pub mod Stats
pub mod Blocks
pub mod Calls
pub mod Null
pub mod Fallback
mod Examples
use old_boruixkernel.Common.{
  ℕ, zero, suc, ◌+◌, ◌-◌, ◌*◌, ◌/◌, ◌%◌, ◌^◌, Bool, true, false, Option, none, some, List, [], ◌∷◌,
  ltb, leb, ◌==◌, ◌&&◌, ◌||◌, if◌then◌else◌, max, min, bit_or,
}
use old_boruixkernel.Mm.Paging.{present, writable}
use old_boruixkernel.Mm.Mapping.{Memory, MapError, Ending, done, failed, panicked, map_page}

abbrev pub heap_shards : ℕ
heap_shards = 8

-- 2 MiB.
abbrev pub heap_grow_chunk : ℕ
heap_grow_chunk = 0x200000

abbrev pub header_magic : ℕ
header_magic = 0x4D4D4845

abbrev pub header_size : ℕ
header_size = 24

-- `Layout` of the library of the language.
pub record Layout : Type 0 where
  pub size : ℕ
  pub align : ℕ

unfoldable pub power_below : ℕ → ℕ → Bool
power_below zero n = false
power_below (suc k) n = let rest = power_below k n in if n == 2 ^ k then true else rest

-- `Layout::from_size_align`: the alignment is a power of two, and the size, rounded up to it, is at most
-- the largest `isize`.
unfoldable pub from_size_align : ℕ → ℕ → Option Layout
unfolding power_below
from_size_align size align =
    if power_below 64 align && leb (size + align) (2 ^ 63)
    then some (record { size = size; align = align })
    else none

-- `AllocHeader`, without its unused field.
pub record AllocHeader : Type 0 where
  pub magic : ℕ
  pub shard : ℕ
  pub base : ℕ
  pub size : ℕ
  pub align : ℕ

-- A number in the bytes from an address on, the lowest first.
unfoldable pub write_le : ℕ → ℕ → ℕ → (ℕ → ℕ) → ℕ → ℕ
write_le zero at v bytes = bytes
write_le (suc n) at v bytes =
    write_le n (at + 1) (v / 256) (λ i. if i == at then v % 256 else bytes i)

unfoldable pub read_le : ℕ → ℕ → (ℕ → ℕ) → ℕ
read_le zero at bytes = 0
read_le (suc n) at bytes = bytes at + 256 * read_le n (at + 1) bytes

-- `write_unaligned` and `read_unaligned` of a header.
unfoldable pub write_header : ℕ → AllocHeader → (ℕ → ℕ) → ℕ → ℕ
unfolding write_le
write_header at h bytes = write_le 4 (at + 20) h.align (
    write_le 4 (at + 16) h.size (
      write_le 8 (at + 8) h.base
        (write_le 2 (at + 6) 0 (write_le 2 (at + 4) h.shard (write_le 4 at h.magic bytes)))))

unfoldable pub read_header : ℕ → (ℕ → ℕ) → AllocHeader
unfolding read_le
read_header at bytes = record {
  magic = read_le 4 at bytes;
  shard = read_le 2 (at + 4) bytes;
  base = read_le 8 (at + 8) bytes;
  size = read_le 4 (at + 16) bytes;
  align = read_le 4 (at + 20) bytes;
}

-- `ShardedHeap`, the memory and the pages.
pub record ShardedHeap (H : Type 0) : Type 0 where
  pub store : H
  pub bytes : ℕ → ℕ
  pub pages : Memory
  pub alloc_calls : ℕ
  pub alloc_fallback_global : ℕ
  pub alloc_fallback_other : ℕ
  pub alloc_fail : ℕ
  pub dealloc_calls : ℕ
  pub grow_attempts : ℕ
  pub grow_success : ℕ
  pub heap_start : ℕ
  pub heap_end : ℕ
  pub heap_max : ℕ

-- What the crate provides for heap number i. Its lists of free blocks are linked through the blocks, so each
-- operation takes the bytes of the memory and gives them back as it leaves them.
pub record Buddy (H : Type 0) : Type 0 where
  pub heap_alloc : ℕ → Layout → H → (ℕ → ℕ) → ℕ × H × (ℕ → ℕ)
  pub heap_dealloc : ℕ → ℕ → Layout → H → (ℕ → ℕ) → H × (ℕ → ℕ)
  pub add_to_heap : ℕ → ℕ → ℕ → H → (ℕ → ℕ) → H × (ℕ → ℕ)
  pub free_lists : ℕ → H → (ℕ → ℕ) → List ℕ

abbrev pub count : ℕ → ℕ
count n = (n + 1) % 2 ^ 64

abbrev pub local_shard : ℕ → ℕ
local_shard cpu = cpu % heap_shards

-- `max(layout.align(), align_of::<AllocHeader>())`.
abbrev pub wide_align : Layout → ℕ
wide_align layout = max layout.align 8

-- `checked_add`, and the layout with room for a header.
unfoldable pub wide_layout : Layout → Option Layout
unfolding from_size_align
wide_layout layout =
    let new_size = layout.size + (header_size + wide_align layout) in
    if ltb new_size (2 ^ 64) then from_size_align new_size (wide_align layout) else none

-- `x & !(align - 1)`, where the alignment is a power of two.
abbrev pub clear_low : ℕ → ℕ → ℕ
clear_low align x = x - x % align

-- Where the block of the caller starts.
abbrev pub user_start : ℕ → ℕ → ℕ
user_start align base = clear_low align ((base + header_size + (align - 1)) % 2 ^ 64)

module _ {H : Type 0} (buddy : Buddy H) where
  abbrev pub header_of : ℕ → Layout → ℕ → AllocHeader
  header_of shard layout base = record {
    magic = header_magic;
    shard = shard;
    base = base;
    size = layout.size % 2 ^ 32;
    align = layout.align % 2 ^ 32;
  }

  -- What follows the call of the heap.
  abbrev pub place : ℕ → Layout → ShardedHeap H → ℕ × H × (ℕ → ℕ) → ℕ × ShardedHeap H
  place shard layout w (base, s, b) =
      if base == 0 then (0, record w { store = s; bytes = b }) else (
        user_start layout.align base,
        record w {
          store = s;
          bytes =
              write_header (user_start layout.align base - header_size)
                (header_of shard layout base) b;
        },
      )

  unfoldable pub alloc_with_header : ℕ → Layout → ShardedHeap H → ℕ × ShardedHeap H
  unfolding wide_layout write_header
  alloc_with_header shard layout w = elim (wide_layout layout) [
    | none ↦ (0, w)
    | some l ↦ place shard l w (buddy.heap_alloc shard l w.store w.bytes)
  ]

  -- A shard above the last heap is a panic.
  abbrev pub give_back : AllocHeader → Layout → ShardedHeap H → Option (ShardedHeap H)
  give_back header layout w =
      if leb header.shard heap_shards
      then (let r = buddy.heap_dealloc header.shard header.base layout w.store w.bytes in
          some (record w { store = r.0; bytes = r.1 }))
      else none

  -- What follows the reading of the header.
  unfoldable pub dealloc_header : AllocHeader → ShardedHeap H → Option (ShardedHeap H)
  unfolding from_size_align
  dealloc_header header w =
      if header.magic == header_magic
      then elim (from_size_align header.size header.align) [
        | none ↦ some w
        | some layout ↦ give_back header layout w
      ]
      else some w

  unfoldable pub dealloc_with_header : ℕ → ShardedHeap H → Option (ShardedHeap H)
  unfolding read_header dealloc_header
  dealloc_with_header ptr w =
      if ptr == 0 then some w else dealloc_header (read_header (ptr - header_size) w.bytes) w
