-- ===== src/Mm/Heap/Stats.antt =====
-- The figures on free blocks of mm/src/heap_allocator.rs. For a heap, `free_lists` gives the lengths of its lists, the
-- blocks of 2 to the power i in list i.
use old_boruixkernel.Common.{
  ℕ, zero, suc, ◌+◌, ◌-◌, ◌^◌, List, [], ◌∷◌, ltb, ◌==◌, if◌then◌else◌, min,
}
use old_boruixkernel.Mm.Heap.{heap_shards, ShardedHeap, Buddy}

abbrev pub saturating_add : ℕ → ℕ → ℕ
saturating_add a b = min (a + b) (2 ^ 64 - 1)

-- A list of n blocks adds one for each; (the number of blocks, the largest).
unfoldable pub list_stats : ℕ → List ℕ → ℕ × ℕ → ℕ × ℕ
list_stats i [] r = r
list_stats i (n ∷ ns) (blocks, largest) = list_stats (i + 1) ns (
  saturating_add blocks n,
  (if n == 0 then largest else if ltb largest (2 ^ i) then 2 ^ i else largest),
)

abbrev pub heap_free_stats : List ℕ → ℕ × ℕ
heap_free_stats lists = list_stats 0 lists (0, 0)

abbrev pub add_stats : ℕ × ℕ → ℕ × ℕ → ℕ × ℕ
add_stats (blocks, largest) (b, l) =
    (saturating_add blocks b, (if ltb largest l then l else largest))

unfoldable pub shard_stats : {H : Type 0} → Buddy H → ℕ → ℕ → H → (ℕ → ℕ) → ℕ × ℕ → ℕ × ℕ
unfolding list_stats
shard_stats buddy zero i s b r = r
shard_stats buddy (suc n) i s b r =
    shard_stats buddy n (i + 1) s b (add_stats r (heap_free_stats (buddy.free_lists i s b)))

unfoldable pub heap_frag_stats : {H : Type 0} → Buddy H → H → (ℕ → ℕ) → ℕ × ℕ
unfolding shard_stats list_stats
heap_frag_stats buddy s b =
    add_stats (shard_stats buddy heap_shards 0 s b (0, 0))
      (heap_free_stats (buddy.free_lists heap_shards s b))

-- `HeapStats`.
pub record HeapStats : Type 0 where
  pub alloc_calls : ℕ
  pub alloc_fallback_global : ℕ
  pub alloc_fallback_other : ℕ
  pub alloc_fail : ℕ
  pub dealloc_calls : ℕ
  pub grow_attempts : ℕ
  pub grow_success : ℕ
  pub free_blocks : ℕ
  pub max_free : ℕ

unfoldable pub heap_stats : {H : Type 0} → Buddy H → ShardedHeap H → HeapStats
unfolding heap_frag_stats
heap_stats buddy w =
    let (free_blocks, max_free) = heap_frag_stats buddy w.store w.bytes in
    record {
      alloc_calls = w.alloc_calls;
      alloc_fallback_global = w.alloc_fallback_global;
      alloc_fallback_other = w.alloc_fallback_other;
      alloc_fail = w.alloc_fail;
      dealloc_calls = w.dealloc_calls;
      grow_attempts = w.grow_attempts;
      grow_success = w.grow_success;
      free_blocks = free_blocks;
      max_free = max_free;
    }

unfoldable pub reset_heap_stats : {H : Type 0} → ShardedHeap H → ShardedHeap H
reset_heap_stats w = record w {
  alloc_calls = 0;
  alloc_fallback_global = 0;
  alloc_fallback_other = 0;
  alloc_fail = 0;
  dealloc_calls = 0;
  grow_attempts = 0;
  grow_success = 0;
}
