-- ===== src/Mm/Heap/Grow.antt =====
-- `grow_heap`, `alloc` and `dealloc` of mm/src/heap_allocator.rs, and `init_heap`. `has` stands for
-- `|entry, flags| entry.flags().contains(flags)`, `p4` is the table that the machine uses, and `mapper_p4`
-- that of the mapper that `init_heap` is given. A loop over a range in steps of a page takes a unit for
-- each page.
use old_boruixkernel.Common.{
  ℕ, zero, suc, ◌+◌, ◌-◌, ◌*◌, ◌/◌, Bool, true, false, Option, none, some, List, [], ◌∷◌, leb, ◌==◌,
  if◌then◌else◌, bit_or,
}
use old_boruixkernel.Mm.Paging.{
  present, writable, huge_page, entry_addr, p4_index, p3_index, p2_index, p1_index, align_down,
}
use old_boruixkernel.Mm.Mapping.{
  Memory, frame_allocation_failed, Ending, done, failed, panicked, map_page,
}
use old_boruixkernel.Mm.Heap.{
  heap_shards, heap_grow_chunk, Layout, ShardedHeap, Buddy, count, local_shard, alloc_with_header,
  dealloc_with_header,
}

-- `(start..end).step_by(4096)`.
abbrev pub page_count : ℕ → ℕ → ℕ
page_count start end = (end - start + 4095) / 4096

-- What `grow_heap` does with a page, and its loop; `some false` is a return.
abbrev pub page_mapped :
    Memory × Ending (Unit {0}) → (Memory → Memory × Option Bool) → Memory × Option Bool
page_mapped (m, done _) rest = rest m
page_mapped (m, failed e) rest = (m, some false)
page_mapped (m, panicked) rest = (m, none)

unfoldable pub grow_pages : (ℕ → ℕ → Bool) → ℕ → ℕ → ℕ → Memory → Memory × Option Bool
grow_pages has p4 zero page m = (m, some true)
grow_pages has p4 (suc n) page m = elim m.free [
  | [] ↦ (m, some false)
  | phys ∷ free ↦
      page_mapped (map_page has p4 page phys (bit_or present writable) (record m { free = free }))
        (grow_pages has p4 n (page + 4096))
]

module _ {H : Type 0} (buddy : Buddy H) (has : ℕ → ℕ → Bool) (p4 : ℕ) where
  abbrev pub grow_size : ShardedHeap H → ℕ
  grow_size w =
      if leb heap_grow_chunk (w.heap_max - w.heap_end)
      then heap_grow_chunk
      else w.heap_max - w.heap_end

  -- What follows the loop.
  abbrev pub grown_to : ℕ → ShardedHeap H → Memory × Option Bool → Option Bool × ShardedHeap H
  grown_to end w (m, some true) =
      let r = buddy.add_to_heap heap_shards w.heap_end end w.store w.bytes in
      (
        some true,
        record w {
          pages = m;
          store = r.0;
          bytes = r.1;
          heap_end = end;
          grow_success = count w.grow_success;
        },
      )
  grown_to end w (m, some false) = (some false, record w { pages = m })
  grown_to end w (m, none) = (none, record w { pages = m })

  unfoldable pub grow_heap : ShardedHeap H → Option Bool × ShardedHeap H
  unfolding grow_pages
  grow_heap before =
      let w = record before { grow_attempts = count before.grow_attempts } in
      if leb w.heap_max w.heap_end
      then (some false, w)
      else let end = w.heap_end + grow_size w in
        grown_to end w (grow_pages has p4 (page_count w.heap_end end) w.heap_end w.pages)

  -- `if !ptr.is_null() { return ptr; }`, and what comes after it.
  abbrev pub or_else :
      ℕ × ShardedHeap H → (ShardedHeap H → Option ℕ × ShardedHeap H) → Option ℕ × ShardedHeap H
  or_else (p, w) next = elim (p == 0) [ true ↦ next w | false ↦ (some p, w) ]

  abbrev pub give_up : ShardedHeap H → Option ℕ × ShardedHeap H
  give_up w = (some 0, record w { alloc_fail = count w.alloc_fail })

  -- The end of `alloc`, from the test of `grow_heap` on.
  abbrev pub after_grow : Layout → Option Bool × ShardedHeap H → Option ℕ × ShardedHeap H
  after_grow layout (none, w) = (none, w)
  after_grow layout (some false, w) = give_up w
  after_grow layout (some true, w) = or_else (alloc_with_header buddy heap_shards layout w) give_up

  -- The loop over the other heaps, from number `other` on.
  unfoldable pub try_others : ℕ → Layout → ℕ → ℕ → ShardedHeap H → Option ℕ × ShardedHeap H
  unfolding grow_heap alloc_with_header
  try_others shard layout zero other w = after_grow layout (grow_heap w)
  try_others shard layout (suc n) other w = elim (other == shard) [
    | true ↦ try_others shard layout n (other + 1) w
    | false ↦
        or_else
          (alloc_with_header buddy other layout
            (record w { alloc_fallback_other = count w.alloc_fallback_other }))
          (try_others shard layout n (other + 1))
  ]

  unfoldable pub try_global : ℕ → Layout → ShardedHeap H → Option ℕ × ShardedHeap H
  unfolding try_others alloc_with_header
  try_global shard layout w =
      or_else
        (alloc_with_header buddy heap_shards layout
          (record w { alloc_fallback_global = count w.alloc_fallback_global }))
        (try_others shard layout heap_shards 0)

  unfoldable pub alloc : ℕ → Layout → ShardedHeap H → Option ℕ × ShardedHeap H
  unfolding try_global alloc_with_header
  alloc cpu layout w =
      or_else
        (alloc_with_header buddy (local_shard cpu) layout
          (record w { alloc_calls = count w.alloc_calls }))
        (try_global (local_shard cpu) layout)

  unfoldable pub dealloc : ℕ → ShardedHeap H → Option (ShardedHeap H)
  unfolding dealloc_with_header
  dealloc ptr w = dealloc_with_header buddy ptr (record w { dealloc_calls = count w.dealloc_calls })

-- `validate_heap_mapping`, which panics where this is false.
unfoldable pub validate_heap_mapping : (ℕ → ℕ → Bool) → ℕ → ℕ → Memory → Bool
validate_heap_mapping has p4 page m =
    let e4 = m.entries p4 (p4_index page) in
    let e3 = m.entries (entry_addr e4) (p3_index page) in
    let e2 = m.entries (entry_addr e3) (p2_index page) in
    let e1 = m.entries (entry_addr e2) (p1_index page) in
    if has e4 present
    then if has e3 present
      then if has e3 huge_page
        then true
        else if has e2 present
        then if has e2 huge_page then true else has e1 present
        else false
      else false
    else false

-- What the loop of `init_heap` does with a page; `first` is `first_page`.
abbrev pub page_ready :
    (ℕ → ℕ → Bool)
    → ℕ
    → ℕ
    → Bool
    → Memory × Ending (Unit {0})
    → (Memory → Memory × Ending (Unit {0}))
    → Memory × Ending (Unit {0})
page_ready has p4 page true (m, done _) rest =
    if validate_heap_mapping has p4 page m then rest m else (m, panicked)
page_ready has p4 page false (m, done _) rest = rest m
page_ready has p4 page first (m, failed e) rest = (m, failed e)
page_ready has p4 page first (m, panicked) rest = (m, panicked)

unfoldable pub init_pages :
    (ℕ → ℕ → Bool) → ℕ → ℕ → ℕ → ℕ → Bool → Memory → Memory × Ending (Unit {0})
unfolding validate_heap_mapping
init_pages has p4 mapper_p4 zero page first m = (m, done tt)
init_pages has p4 mapper_p4 (suc n) page first m = elim m.free [
  | [] ↦ (m, failed frame_allocation_failed)
  | phys ∷ free ↦
      if phys == 0
      then (record m { free = free }, panicked)
      else page_ready has p4 page first
          (map_page has mapper_p4 page phys (bit_or present writable) (record m { free = free }))
          (init_pages has p4 mapper_p4 n (page + 4096) false)
]

-- The ranges that the heaps are given: the number of the heap, the start and the end.
abbrev pub shard_range : ℕ → ℕ → ℕ → ℕ → ℕ × ℕ × ℕ
shard_range start size per_shard i =
    let global_size = size * 1 / 2 in
    let from = start + global_size + i * per_shard in
    (
      i,
      from,
      from + (if i + 1 == heap_shards then size - (global_size + i * per_shard) else per_shard),
    )

unfoldable pub shard_ranges : ℕ → ℕ → ℕ → ℕ → List (ℕ × ℕ × ℕ)
shard_ranges start size zero i = []
shard_ranges start size (suc n) i =
    shard_range start size ((size - size * 1 / 2) / heap_shards) i
    ∷ shard_ranges start size n (i + 1)

unfoldable pub heap_ranges : ℕ → ℕ → List (ℕ × ℕ × ℕ)
unfolding shard_ranges
heap_ranges start size =
    (heap_shards, start, start + size * 1 / 2) ∷ shard_ranges start size heap_shards 0

abbrev pub add_ranges : {H : Type 0} → Buddy H → List (ℕ × ℕ × ℕ) → H → (ℕ → ℕ) → H × (ℕ → ℕ)
add_ranges buddy [] s b = (s, b)
add_ranges buddy ((i, from, to) ∷ rs) s b =
    let r = buddy.add_to_heap i from to s b in add_ranges buddy rs r.0 r.1

-- What follows the loop.
abbrev pub init_ranges :
    {H : Type 0}
    → Buddy H
    → ℕ
    → ℕ
    → ℕ
    → ShardedHeap H
    → Memory × Ending (Unit {0})
    → ShardedHeap H × Ending (Unit {0})
init_ranges buddy start size limit w (m, done _) =
    let r = add_ranges buddy (heap_ranges start size) w.store w.bytes in
    (
      record w {
        pages = m;
        store = r.0;
        bytes = r.1;
        heap_start = start;
        heap_end = start + size;
        heap_max = start + limit;
      },
      done tt,
    )
init_ranges buddy start size limit w (m, failed e) = (record w { pages = m }, failed e)
init_ranges buddy start size limit w (m, panicked) = (record w { pages = m }, panicked)

-- `init_heap`, with the start, the size and the limit of the configuration, which keep the test that the
-- limit is no less than the size true.
unfoldable pub init_heap :
    {H : Type 0}
    → Buddy H
    → (ℕ → ℕ → Bool)
    → ℕ
    → ℕ
    → ℕ
    → ℕ
    → ℕ
    → ShardedHeap H
    → ShardedHeap H × Ending (Unit {0})
unfolding init_pages heap_ranges
init_heap buddy has p4 mapper_p4 start size limit w =
    let first = align_down start in
    let last = align_down (start + size + 4095) in
    init_ranges buddy start size limit w
      (init_pages has p4 mapper_p4 (page_count first last) first true w.pages)
