-- ===== src/Mm/Heap/Calls.antt =====
-- `alloc`, `grow_heap` and the ranges of `init_heap`.
use old_boruixkernel.Common.{
  ℕ, zero, suc, ◌+◌, ◌-◌, ◌*◌, ◌/◌, ◌≤◌, ◌<◌, ◌≡◌, ◌≢◌, refl, sym, ap, subst, Bool, true, false,
  Option, none, some, List, [], ◌∷◌, leb, ◌==◌, min, arith, Bool-cases, inl, inr, leb→gt,
}
use old_boruixkernel.Mm.Mapping.{Memory}
use old_boruixkernel.Mm.Heap.{heap_shards, heap_grow_chunk, Layout, ShardedHeap, Buddy, count}
use old_boruixkernel.Mm.Heap.Grow.{
  page_count, grow_pages, grow_size, grown_to, grow_heap, shard_ranges, heap_ranges,
}

-- A heap that has no block for a layout stays as it is, and so does the memory.
abbrev pub KeepsOnFailure : {H : Type 0} → Buddy H → Type 0
KeepsOnFailure {H} buddy =
    (i : ℕ) (l : Layout) (s s' : H) (b b' : ℕ → ℕ)
    → buddy.heap_alloc i l s b ≡ (0, s', b')
    → (s' ≡ s) × (b' ≡ b)

-- Ranges that follow each other from one address to another.
abbrev pub Tiles : ℕ → ℕ → List (ℕ × ℕ × ℕ) → Type 0
Tiles from to [] = from ≡ to
Tiles from to ((i, a, b) ∷ rs) = (a ≡ from) × (a ≤ b) × Tiles b to rs

shard_ranges-Tiles :
    (start size n i : ℕ)
    → i + suc n ≡ heap_shards
    → Tiles
        (start + size * 1 / 2 + i * ((size - size * 1 / 2) / heap_shards))
        (start + size)
        (shard_ranges start size (suc n) i)
unfolding shard_ranges
shard_ranges-Tiles start size zero i h =
    let last : (i + 1 == heap_shards) ≡ true = ground arith in
    let e : i ≡ 7 = omega arith in
    let many = ap (λ z. z * ((size - size * 1 / 2) / heap_shards)) e in
    (omega arith, rw last (omega (arith, many)), rw last (omega (arith, many)))
shard_ranges-Tiles start size (suc n) i h =
    let more : (i + 1 == heap_shards) ≡ false = ground arith in
    let rest = shard_ranges-Tiles start size n (i + 1) (omega arith) in
    (
      omega arith,
      rw more (omega arith),
      rw more (
          subst (λ z. Tiles z (start + size) (shard_ranges start size (suc n) (i + 1)))
            (omega arith) rest),
    )

-- The ranges that `init_heap` gives to the global heap and the eight others follow each other from the start
-- of the heap to its end, so no byte is given twice and none is left out.
pub heap_ranges-Tiles : (start size : ℕ) → Tiles start (start + size) (heap_ranges start size)
unfolding heap_ranges
heap_ranges-Tiles start size =
    let rest = shard_ranges-Tiles start size 7 0 (omega arith) in
    (
      refl,
      omega arith,
      subst (λ z. Tiles z (start + size) (shard_ranges start size heap_shards 0)) (omega arith)
          rest,
    )

module _ {H : Type 0} (buddy : Buddy H) (has : ℕ → ℕ → Bool) (p4 : ℕ) where
  -- The outcomes of `grow_heap`.
  pub record Grown (r : Option Bool) (w w' : ShardedHeap H) : Type 0 where
    pub same_limit : w'.heap_max ≡ w.heap_max
    pub within : w'.heap_end ≤ w'.heap_max
    pub counted : w'.grow_attempts ≡ count w.grow_attempts
    pub success :
        r ≡ some true
        → (w'.heap_end ≡ w.heap_end + min heap_grow_chunk (w.heap_max - w.heap_end))
          × (w.heap_end < w'.heap_end)
          × (w'.store ≡ (buddy.add_to_heap heap_shards w.heap_end w'.heap_end w.store w.bytes).0)
          × (w'.bytes ≡ (buddy.add_to_heap heap_shards w.heap_end w'.heap_end w.store w.bytes).1)
    pub failure :
        r ≢ some true → (w'.heap_end ≡ w.heap_end) × (w'.store ≡ w.store) × (w'.bytes ≡ w.bytes)

  pub grow_size_lem :
      (w : ShardedHeap H) → grow_size buddy has p4 w ≡ min heap_grow_chunk (w.heap_max - w.heap_end)
  grow_size_lem w = ground arith

  grown_to-Grown :
      (w : ShardedHeap H) (m : Memory) (r : Option Bool)
      → w.heap_end < w.heap_max
      → let v = record w { grow_attempts = count w.grow_attempts } in
        let end = w.heap_end + grow_size buddy has p4 w in
        Grown r w (grown_to buddy has p4 end v (m, r)).1
  grown_to-Grown w m none lt = record {
    same_limit = refl;
    within = omega arith;
    counted = refl;
    success = λ e. absurd (cc);
    failure = λ e. (refl, refl, refl);
  }
  grown_to-Grown w m (some false) lt = record {
    same_limit = refl;
    within = omega arith;
    counted = refl;
    success = λ e. absurd (cc);
    failure = λ e. (refl, refl, refl);
  }
  grown_to-Grown w m (some true) lt =
      let size = grow_size_lem w in
      record {
        same_limit = refl;
        within = omega (arith, size);
        counted = refl;
        success = λ e. (ap (λ z. w.heap_end + z) size, omega (arith, size), refl, refl);
        failure = λ e. absurd (e refl);
      }

  grown_to_result :
      (end : ℕ) (v : ShardedHeap H) (g : Memory × Option Bool)
      → (grown_to buddy has p4 end v g).0 ≡ g.1
  grown_to_result end v (m, none) = refl
  grown_to_result end v (m, some false) = refl
  grown_to_result end v (m, some true) = refl

  -- `grow_heap` never takes the end of the heap past its limit. A success gives the global heap the next 2 MiB,
  -- or what is left to the limit, and moves the end there; without one the heaps, the memory and the end stay as they were.
  pub grow_heap-Grown :
      (w : ShardedHeap H)
      → w.heap_end ≤ w.heap_max
      → Grown (grow_heap buddy has p4 w).0 w (grow_heap buddy has p4 w).1
  unfolding grow_heap
  grow_heap-Grown w le = elim (Bool-cases (leb w.heap_max w.heap_end)) [
    | inl full ↦
        rw (grow_heap, full)
          (record {
            same_limit = refl;
            within = le;
            counted = refl;
            success = λ e. absurd (cc);
            failure = λ e. (refl, refl, refl);
          })
    | inr room ↦
        let v = record w { grow_attempts = count w.grow_attempts } in
        let end = w.heap_end + grow_size buddy has p4 w in
        let g = grow_pages has p4 (page_count w.heap_end end) w.heap_end w.pages in
        let k : grown_to buddy has p4 end v g ≡ grow_heap buddy has p4 w =
          rw (grow_heap, room) refl in
        let lt = leb→gt w.heap_max w.heap_end room in
        subst (λ z. Grown z.0 w z.1) k
          (subst (λ r. Grown r w (grown_to buddy has p4 end v g).1) (sym (grown_to_result end v g))
            (grown_to-Grown w g.0 g.1 lt))
  ]
