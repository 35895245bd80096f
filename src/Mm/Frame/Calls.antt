-- ===== src/Mm/Frame/Calls.antt =====
-- `allocate` and `deallocate` of mm/src/frame_allocator/allocator_core.rs, and `compact`, the last resort
-- of `allocate`. The CPU of the caller is an argument. The walks of lists of different frames have fuel
-- for each frame. Messages leave no trace.
pub mod Twice
mod Examples
use old_boruixkernel.Common.{
  ℕ, zero, suc, ◌+◌, ◌-◌, ◌*◌, ◌/◌, ◌%◌, ◌^◌, Bool, true, false, Option, none, some, List, [], ◌∷◌,
  ltb, leb, ◌==◌, if◌then◌else◌, not, min, max, bump, word_mod,
}
use old_boruixkernel.Mm.Frame.{
  FrameState, allocated, free_global, free_per_cpu, BuddyFrame, Frames, Pmm, Counters, max_order,
  max_cpus, shard_count,
}
use old_boruixkernel.Mm.Frame.Buddy.{free_and_merge, or_else}
use old_boruixkernel.Mm.Frame.Pools.{
  count, percpu_pop_raw, percpu_pop, percpu_push, percpu_refill, alloc_global, reserve_pop,
  reserve_push,
}

abbrev pub is_allocated : FrameState → Bool
is_allocated allocated = true
is_allocated _ = false

-- The first four sources of `allocate`.
unfoldable pub take_block : ℕ → ℕ → Pmm → Option ℕ × Pmm
take_block cpu order m =
    let found : ℕ → Pmm → Option ℕ × Pmm = λ idx m'. (some idx, m') in
    or_else (percpu_pop cpu order m) found (λ m1. or_else (percpu_refill cpu order m1) found (λ m2.
      or_else (alloc_global order cpu m2) found
        (λ m3. if order == 0 then reserve_pop m3 else (none, m3))))

abbrev pub count_taken : ℕ → Pmm → Pmm
count_taken order =
    count λ c. record c { allocated_frames = (c.allocated_frames + 2 ^ order) % word_mod }

abbrev pub count_failed : ℕ → Pmm → Pmm
count_failed order = count λ c. record c {
  alloc_fail = bump c.alloc_fail;
  alloc_fail_by_order =
      λ o. if o == order then bump (c.alloc_fail_by_order o) else c.alloc_fail_by_order o;
}

-- `while let Some(pfn) = cur`: the length of a list.
unfoldable pub list_length : Frames → ℕ → Option ℕ → ℕ
list_length fs zero cur = 0
list_length fs (suc fuel) none = 0
list_length fs (suc fuel) (some pfn) = suc (list_length fs fuel (fs pfn).next)

unfoldable pub sum_to : ℕ → (ℕ → ℕ) → ℕ
sum_to zero f = 0
sum_to (suc n) f = sum_to n f + f n

-- `free_global[order]` and `free_percpu[order]` of `max_free_order`.
unfoldable pub free_at : ℕ → Pmm → ℕ
unfolding list_length sum_to
free_at order m =
    sum_to shard_count (λ shard. list_length m.frames m.total_frames (m.heads order shard))
    + sum_to max_cpus (λ cpu. m.cache_counts cpu order)

-- `for order in (0..n).rev()`.
unfoldable pub highest : ℕ → Pmm → ℕ
unfolding free_at
highest zero m = 0
highest (suc n) m = let rest = highest n m in if ltb 0 (free_at n m) then n else rest

abbrev pub max_free_order : Pmm → ℕ
max_free_order m = highest max_order m

-- The inner loop of `drain_percpu_all`.
unfoldable pub drain_cache : ℕ → ℕ → ℕ → Pmm × ℕ → Pmm × ℕ
drain_cache cpu order zero (m, drained) = (m, drained)
drain_cache cpu order (suc fuel) (m, drained) = elim (m.cache_heads (cpu % max_cpus) order) [
  | none ↦ (m, drained)
  | some pfn ↦
      drain_cache cpu order fuel
        (free_and_merge pfn order (percpu_pop_raw cpu order m).1, drained + 1)
]

-- `for order in 0..n` and `for cpu in 0..n`.
unfoldable pub drain_orders : ℕ → ℕ → Pmm × ℕ → Pmm × ℕ
unfolding drain_cache
drain_orders cpu zero (m, drained) = (m, drained)
drain_orders cpu (suc n) (m, drained) =
    let (m', drained') = drain_orders cpu n (m, drained) in
    drain_cache cpu n m'.total_frames (m', drained')

unfoldable pub drain_cpus : ℕ → Pmm × ℕ → Pmm × ℕ
unfolding drain_orders
drain_cpus zero (m, drained) = (m, drained)
drain_cpus (suc n) (m, drained) =
    let (m', drained') = drain_cpus n (m, drained) in drain_orders n max_order (m', drained')

unfoldable pub drain_percpu_all : Pmm → Pmm × ℕ
unfolding drain_cpus
drain_percpu_all m = drain_cpus max_cpus (m, 0)

unfoldable pub compact : Pmm → Pmm
unfolding highest drain_percpu_all
compact m =
    let before = max_free_order m in
    let (emptied, drained) =
      drain_percpu_all (count (λ c. record c { compact_calls = bump c.compact_calls }) m) in
    let after = max_free_order emptied in
    count
      (λ c. record c {
        compact_drained = (c.compact_drained + drained) % word_mod;
        compact_last_before = before;
        compact_last_after = after;
        compact_success = if ltb before after then bump c.compact_success else c.compact_success;
      })
      emptied

-- The second attempt of `allocate`, for an order above 0.
unfoldable pub after_compact : ℕ → ℕ → Pmm → Option ℕ × Pmm
unfolding compact highest
after_compact cpu order m =
    let now = m.counters.alloc_calls in
    if leb 1024 (now - m.counters.compact_last_alloc_call)
    then if ltb (max_free_order m) order
      then alloc_global order cpu
          (compact (count (λ c. record c { compact_last_alloc_call = now }) m))
      else (none, m)
    else (none, m)

unfoldable pub allocate : ℕ → ℕ → Pmm → Option ℕ × Pmm
unfolding take_block after_compact
allocate cpu order m =
    let called = count (λ c. record c { alloc_calls = bump c.alloc_calls }) m in
    let found : ℕ → Pmm → Option ℕ × Pmm = λ idx m'. (some idx, count_taken order m') in
    let failed : Pmm → Option ℕ × Pmm = λ m'. (none, count_failed order m') in
    if leb max_order order
    then (none, m)
    else or_else (take_block cpu order called) found
        (λ m'. if order == 0 then failed m' else or_else (after_compact cpu order m') found failed)

-- `deallocate` after its checks. The warnings leave no trace.
unfoldable pub give_back : ℕ → ℕ → ℕ → Pmm → Pmm
give_back cpu pfn order m =
    let back =
      if order == 0
      then if ltb m.reserve_count 32 then reserve_push pfn m else percpu_push cpu pfn order m
      else percpu_push cpu pfn order m in
    count
      (λ c. record c { allocated_frames = (c.allocated_frames + word_mod - 2 ^ order) % word_mod })
      back

unfoldable pub deallocate : ℕ → ℕ → Pmm → Pmm
deallocate cpu pfn m =
    let called = count (λ c. record c { dealloc_calls = bump c.dealloc_calls }) m in
    if leb m.total_frames pfn
    then called
    else if m.has_block (pfn / m.frames_per_block)
    then if is_allocated (m.frames pfn).state
      then give_back cpu pfn (m.frames pfn).order called
      else called
    else called
