-- ===== src/Mm/Heap/Examples.antt =====
-- A heap that gives the addresses in their order up to 1 MiB, and never takes a block back.
use old_boruixkernel.Common.{
  ℕ, ◌+◌, ◌≤◌, ◌<◌, ◌≡◌, refl, sym, ap, ◌∙◌, Bool, none, some, [], ltb, leb, ◌==◌, ◌&&◌,
  if◌then◌else◌, arith, bit_and, Bool-cases, inl, inr,
}
use old_boruixkernel.Mm.Mapping.{Memory}
use old_boruixkernel.Mm.Heap.{
  heap_shards, Layout, power_below, from_size_align, ShardedHeap, Buddy, wide_layout,
  alloc_with_header, dealloc_with_header,
}
use old_boruixkernel.Mm.Heap.Blocks.{
  InMemory, Placed, alloc_with_header-Placed, dealloc_with_header-alloc_with_header,
}
use old_boruixkernel.Mm.Heap.Calls.{
  KeepsOnFailure, Tiles, heap_ranges-Tiles, Grown, grow_heap-Grown,
}
use old_boruixkernel.Mm.Heap.Fallback.{IsStuck, alloc-IsStuck}
use old_boruixkernel.Mm.Heap.Grow.{heap_ranges, grow_heap, try_others, try_global, alloc}

abbrev bump_limit : ℕ
bump_limit = 0x100000

abbrev bump : Buddy ℕ
bump = record {
  heap_alloc =
      λ i l s b. if ltb 0 s && leb (s + l.size) bump_limit then (s, s + l.size, b) else (0, s, b);
  heap_dealloc = λ i base l s b. (s, b);
  add_to_heap = λ i from to s b. (s, b);
  free_lists = λ i s b. [];
}

bump-InMemory : InMemory bump
bump-InMemory i l s s' b b' base e h = elim (Bool-cases (ltb 0 s && leb (s + l.size) bump_limit)) [
  | inl room ↦
      let k : bump.heap_alloc i l s b ≡ (s, s + l.size, b) = rw room refl in
      let same : s ≡ base = ap (λ r. r.0) (sym k ∙ e) in
      let le : s + l.size ≤ bump_limit = ground arith in omega (arith, le, same)
  | inr full ↦
      let k : bump.heap_alloc i l s b ≡ (0, s, b) = rw full refl in
      absurd (h (ap (λ r. r.0) (sym e ∙ k)))
]

bump-KeepsOnFailure : KeepsOnFailure bump
bump-KeepsOnFailure i l s s' b b' e = elim (Bool-cases (ltb 0 s && leb (s + l.size) bump_limit)) [
  | inl room ↦
      let k : bump.heap_alloc i l s b ≡ (s, s + l.size, b) = rw room refl in
      let same : s ≡ 0 = ap (λ r. r.0) (sym k ∙ e) in
      let lt : 0 < s = ground arith in absurd (omega (arith, same, lt))
  | inr full ↦
      let k : bump.heap_alloc i l s b ≡ (0, s, b) = rw full refl in
      (ap (λ r. r.1) (sym e ∙ k), ap (λ r. r.2) (sym e ∙ k))
]

abbrev no_pages : Memory
no_pages = record {
  entries = λ t i. 0;
  counts = none;
  free = [];
  freed = [];
  rmap = record {
    frames = [];
    stats = record { adds = 0; removes = 0; lookups = 0; mig_read = 0; mig_write = 0 };
  };
}

-- The heap whose next address is given; its end has reached the limit.
abbrev at : ℕ → ShardedHeap ℕ
at s = record {
  store = s;
  bytes = λ i. 0;
  pages = no_pages;
  alloc_calls = 0;
  alloc_fallback_global = 0;
  alloc_fallback_other = 0;
  alloc_fail = 0;
  dealloc_calls = 0;
  grow_attempts = 0;
  grow_success = 0;
  heap_start = 0;
  heap_end = bump_limit;
  heap_max = bump_limit;
}

abbrev wanted : Layout
wanted = record { size = 100; align = 16 }

abbrev served : ShardedHeap ℕ
served = (alloc_with_header bump 3 wanted (at 4096)).1

serves : alloc_with_header bump 3 wanted (at 4096) ≡ (4128, served)
unfolding alloc_with_header wide_layout from_size_align power_below
serves = refl

alloc_with_header-Placed_example : Placed bump 3 wanted (at 4096) 4128 served
alloc_with_header-Placed_example =
    alloc_with_header-Placed bump 3 wanted (at 4096) 4128 served bump-InMemory serves
      (λ e. omega (arith, e))

dealloc_with_header-alloc_with_header_example :
    (whole : Layout) × (base : ℕ) × (left : ℕ → ℕ) × (bump.heap_alloc 3 whole 4096 (λ i. 0)
      ≡ (base, served.store, left))
    × (dealloc_with_header bump 4128 served
        ≡ some (record served {
          store = (bump.heap_dealloc 3 base whole served.store served.bytes).0;
          bytes = (bump.heap_dealloc 3 base whole served.store served.bytes).1;
        }))
dealloc_with_header-alloc_with_header_example =
    dealloc_with_header-alloc_with_header bump 3 wanted (at 4096) 4128 served served bump-InMemory
      (omega arith) (omega arith) serves (λ e. omega (arith, e)) (λ i a b. refl)

heap_ranges-Tiles_example : Tiles 0x1000 0x1100 (heap_ranges 0x1000 0x100)
heap_ranges-Tiles_example = heap_ranges-Tiles 0x1000 0x100

abbrev has : ℕ → ℕ → Bool
has flags required = bit_and flags required == required

grow_heap-Grown_example :
    Grown bump has 0 (grow_heap bump has 0 (at 4096)).0 (at 4096) (grow_heap bump has 0 (at 4096)).1
grow_heap-Grown_example = grow_heap-Grown bump has 0 (at 4096) (omega arith)

abbrev refused : ShardedHeap ℕ
refused = (alloc bump has 0 5 wanted (at bump_limit)).1

refuses : alloc bump has 0 5 wanted (at bump_limit) ≡ (some 0, refused)
unfolding alloc try_global try_others grow_heap alloc_with_header wide_layout from_size_align
    power_below
refuses = refl

alloc-IsStuck_example :
    ((i : ℕ) → i ≤ heap_shards → (alloc_with_header bump i wanted (at bump_limit)).0 ≡ 0)
    × IsStuck bump bump-InMemory bump-KeepsOnFailure has 0 wanted (at bump_limit) refused
alloc-IsStuck_example =
    alloc-IsStuck bump bump-InMemory bump-KeepsOnFailure has 0 wanted 5 (at bump_limit) refused
      refuses
