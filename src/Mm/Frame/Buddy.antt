-- ===== src/Mm/Frame/Buddy.antt =====
-- The buddy system of mm/src/frame_allocator/allocator_core.rs: the global free lists, the split of a
-- larger block in `alloc_from_list`, and `free_and_merge`.
pub mod Lists
pub mod Detach
pub mod Blocks
pub mod Merge
pub mod Split
pub mod Alloc
pub mod FromList
use old_boruixkernel.Common.{
  ℕ, zero, suc, ◌+◌, ◌-◌, ◌/◌, ◌%◌, ◌^◌, Bool, true, false, Option, none, some, ltb, leb, ◌==◌,
  ◌&&◌, if◌then◌else◌, min, bump,
}
use old_boruixkernel.Mm.Frame.{
  FrameState, allocated, free_global, free_per_cpu, Frames, max_order, shard_count, Pmm, set_head,
  claim, claim_as, remove_from_list, push_list,
}

abbrev pub count_list_op : Pmm → Pmm
count_list_op m = record m {
  counters = record (m.counters) { global_list_ops = bump m.counters.global_list_ops };
}

abbrev pub count_hit_global : Pmm → Pmm
count_hit_global m = record m {
  counters = record (m.counters) { alloc_hit_global = bump m.counters.alloc_hit_global };
}

abbrev pub is_global : FrameState → Bool
is_global free_global = true
is_global _ = false

-- `push_to_global`; the shard is `shard_for_pfn`.
unfoldable pub push_to_global : ℕ → ℕ → Pmm → Pmm
push_to_global pfn order m =
    let (fs, head) = push_list pfn order (m.frames, m.heads order (pfn % shard_count)) in
    count_list_op
      (record m { frames = fs; heads = set_head order (pfn % shard_count) head m.heads })

-- `remove_from_list_with_list` on the list of a shard, and the assignments that follow it.
unfoldable pub detach : ℕ → ℕ → ℕ → Pmm → Pmm
detach order shard pfn m =
    let (fs, head) = remove_from_list pfn (m.frames, m.heads order shard) in
    record m { frames = claim pfn fs; heads = set_head order shard head m.heads }

-- The loop of `pop_from_global` over the shards, with `n` rounds left.
unfoldable pub pop_shards : ℕ → ℕ → ℕ → ℕ → Pmm → Option ℕ × Pmm
pop_shards order start zero offset m = (none, m)
pop_shards order start (suc n) offset m =
    let shard = (start + offset) % shard_count in
    elim (m.heads order shard) [
      | none ↦ pop_shards order start n (offset + 1) (count_list_op m)
      | some idx ↦ (some idx, detach order shard idx (count_list_op m))
    ]

unfoldable pub pop_from_global : ℕ → ℕ → Pmm → Option ℕ × Pmm
pop_from_global order cpu m = pop_shards order (cpu % shard_count) shard_count 0 m

-- `for j in (order..order + n).rev()`: the upper half goes back, and the lower half is split on.
unfoldable pub split_down : ℕ → ℕ → ℕ → Pmm → Pmm
split_down order zero idx m = m
split_down order (suc n) idx m =
    let j = order + n in
    let buddy_idx = idx + 2 ^ j in
    split_down order n idx
      (push_to_global buddy_idx j (record m { frames = claim_as buddy_idx j m.frames }))

-- A search that goes on where it has found nothing: `if let Some(idx) = … { found }` and what follows.
abbrev pub or_else :
    Option ℕ × Pmm → (ℕ → Pmm → Option ℕ × Pmm) → (Pmm → Option ℕ × Pmm) → Option ℕ × Pmm
or_else (none, m) found rest = rest m
or_else (some idx, m) found rest = found idx m

-- `for higher in higher..MAX_ORDER`, with `n` rounds left.
unfoldable pub try_higher : ℕ → ℕ → ℕ → ℕ → Pmm → Option ℕ × Pmm
try_higher order cpu zero higher m = (none, m)
try_higher order cpu (suc n) higher m =
    or_else (pop_from_global higher cpu m)
      (λ idx m'.
        let split = split_down order (higher - order) idx (count_hit_global m') in
        (some idx, record split { frames = claim_as idx order split.frames }))
      (λ m'. try_higher order cpu n (higher + 1) m')

unfoldable pub alloc_from_list : ℕ → ℕ → Pmm → Option ℕ × Pmm
alloc_from_list order cpu m =
    or_else (pop_from_global order cpu m) (λ idx m'. (some idx, count_hit_global m'))
      (try_higher order cpu (max_order - (order + 1)) (order + 1))

-- `pfn ^ (1 << order)`: the bit is set or cleared.
abbrev pub buddy_of : ℕ → ℕ → ℕ
buddy_of pfn order = if (pfn / 2 ^ order) % 2 == 0 then pfn + 2 ^ order else pfn - 2 ^ order

-- The loop of `free_and_merge` with `n` rounds left: `order + n` is `MAX_ORDER - 1` at the start.
unfoldable pub merge_up : ℕ → ℕ → ℕ → Pmm → Pmm
merge_up zero pfn order m = push_to_global pfn order m
merge_up (suc n) pfn order m =
    let buddy_pfn = buddy_of pfn order in
    let counted = count_list_op m in
    let merged =
      merge_up n (if ltb buddy_pfn pfn then buddy_pfn else pfn) (order + 1)
        (detach order (buddy_pfn % shard_count) buddy_pfn counted) in
    if leb m.total_frames buddy_pfn
    then push_to_global pfn order m
    else if is_global (m.frames buddy_pfn).state && ((m.frames buddy_pfn).order == order)
    then merged
    else push_to_global pfn order counted

unfoldable pub free_and_merge : ℕ → ℕ → Pmm → Pmm
free_and_merge pfn order m = merge_up (max_order - 1 - order) pfn order m
