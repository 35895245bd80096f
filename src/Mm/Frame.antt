-- ===== src/Mm/Frame.antt =====
-- The physical frame allocator, mm/src/frame_allocator: this file has its state. A frame is its number,
-- the metadata of all frames is a function, and so are the heads of the free lists (by order and
-- shard) and of the caches (by CPU and order). `BF_MIGRATABLE` is the only flag. The lists run through
-- the metadata, by `next` and `prev`. Locks leave no trace, and counters that are atomics wrap.
-- `get_frame` in a block that has no metadata is undefined in the code; here it reads some frame.
pub mod Links
pub mod Erase
pub mod Buddy
pub mod Uninit
pub mod Pools
pub mod Calls
use old_boruixkernel.Common.{
  ℕ, zero, suc, Bool, true, false, Option, none, some, List, [], ◌∷◌, ◌==◌, if◌then◌else◌, bump,
}

pub data FrameState : Type 0 where
  allocated free_global free_per_cpu : FrameState

pub record BuddyFrame : Type 0 where
  pub order : ℕ
  pub state : FrameState
  pub migratable : Bool
  pub next : Option ℕ
  pub prev : Option ℕ

unfoldable pub new_frame : BuddyFrame
new_frame = record { order = 0; state = allocated; migratable = true; next = none; prev = none }

abbrev pub Frames : Type 0
Frames = ℕ → BuddyFrame

abbrev pub max_order : ℕ
max_order = 19

abbrev pub shard_count : ℕ
shard_count = 8

abbrev pub max_cpus : ℕ
max_cpus = 64

pub record UninitRegion : Type 0 where
  pub start_pfn : ℕ
  pub end_pfn : ℕ

-- The counters of `LazyBuddyAllocator`.
pub record Counters : Type 0 where
  pub allocated_frames : ℕ
  pub alloc_calls : ℕ
  pub alloc_hit_percpu : ℕ
  pub alloc_refill : ℕ
  pub alloc_hit_global : ℕ
  pub alloc_hit_uninit : ℕ
  pub alloc_fail : ℕ
  pub alloc_fail_by_order : ℕ → ℕ
  pub dealloc_calls : ℕ
  pub global_list_ops : ℕ
  pub compact_calls : ℕ
  pub compact_drained : ℕ
  pub compact_success : ℕ
  pub compact_last_before : ℕ
  pub compact_last_after : ℕ
  pub compact_last_alloc_call : ℕ

-- The allocator, with `FREE_LISTS` (`heads`) and `PER_CPU`. `has_block` says which blocks of
-- `frames_per_block` frames have metadata.
pub record Pmm : Type 0 where
  pub total_frames : ℕ
  pub frames_per_block : ℕ
  pub has_block : ℕ → Bool
  pub frames : Frames
  pub heads : ℕ → ℕ → Option ℕ
  pub cache_heads : ℕ → ℕ → Option ℕ
  pub cache_counts : ℕ → ℕ → ℕ
  pub reserve_head : Option ℕ
  pub reserve_count : ℕ
  pub regions : List (Option UninitRegion)
  pub last_uninit_idx : ℕ
  pub counters : Counters

abbrev pub set_head : ℕ → ℕ → Option ℕ → (ℕ → ℕ → Option ℕ) → ℕ → ℕ → Option ℕ
set_head order shard head heads o s =
    if o == order then (if s == shard then head else heads o s) else heads o s

abbrev pub set_frame : ℕ → BuddyFrame → Frames → Frames
set_frame pfn f fs j = if j == pfn then f else fs j

abbrev pub set_next : ℕ → Option ℕ → Frames → Frames
set_next pfn link fs = set_frame pfn (record (fs pfn) { next = link }) fs

abbrev pub set_prev : ℕ → Option ℕ → Frames → Frames
set_prev pfn link fs = set_frame pfn (record (fs pfn) { prev = link }) fs

-- The four assignments by which a frame leaves a list.
abbrev pub claim : ℕ → Frames → Frames
claim pfn fs =
    set_frame pfn
      (record (fs pfn) { state = allocated; migratable = true; next = none; prev = none }) fs

-- The same with the order set.
abbrev pub claim_as : ℕ → ℕ → Frames → Frames
claim_as pfn order fs =
    set_frame pfn
      (record { order = order; state = allocated; migratable = true; next = none; prev = none }) fs

-- The two `if let` of `remove_from_list_with_list`: the neighbour's link, or the head.
abbrev pub link_prev : Option ℕ → Option ℕ → Frames × Option ℕ → Frames × Option ℕ
link_prev none next_idx (fs, head) = (fs, next_idx)
link_prev (some prev) next_idx (fs, head) = (set_next prev next_idx fs, head)

abbrev pub link_next : Option ℕ → Option ℕ → Frames × Option ℕ → Frames × Option ℕ
link_next none prev_idx (fs, head) = (fs, head)
link_next (some next) prev_idx (fs, head) = (set_prev next prev_idx fs, head)

-- `remove_from_list_with_list`, on the metadata and the head of the list.
unfoldable pub remove_from_list : ℕ → Frames × Option ℕ → Frames × Option ℕ
remove_from_list pfn (fs, head) =
    let prev_idx = (fs pfn).prev in
    let next_idx = (fs pfn).next in
    link_next next_idx prev_idx (
      link_prev prev_idx next_idx
        (set_frame pfn (record (fs pfn) { next = none; prev = none }) fs, head))

-- What `push_to_global` writes, on the metadata and the head of the list.
abbrev pub relink_head : ℕ → Option ℕ → Frames → Frames
relink_head pfn none fs = fs
relink_head pfn (some head) fs = set_prev head (some pfn) fs

unfoldable pub push_list : ℕ → ℕ → Frames × Option ℕ → Frames × Option ℕ
push_list pfn order (fs, head) = (
  relink_head pfn head (
      set_frame pfn
        (record { order = order; state = free_global; migratable = true; next = head; prev = none })
        fs),
  some pfn,
)
