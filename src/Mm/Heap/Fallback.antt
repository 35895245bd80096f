-- ===== src/Mm/Heap/Fallback.antt =====
-- The heaps that `alloc` asks before it gives up.
use old_boruixkernel.Common.{
  ℕ, zero, suc, ◌+◌, ◌-◌, ◌≤◌, ◌<◌, ◌≡◌, ◌≢◌, ◌⊎◌, refl, sym, ap, ◌∙◌, subst, Bool, false, true,
  Option, none, some, ◌==◌, ==_iff, leb, leb→le, leb→gt, min, arith, Bool-cases, inl, inr,
}
use old_boruixkernel.Mm.Mapping.{Memory}
use old_boruixkernel.Mm.Heap.{
  heap_shards, heap_grow_chunk, Layout, ShardedHeap, Buddy, count, local_shard, alloc_with_header,
}
use old_boruixkernel.Mm.Heap.Blocks.{InMemory}
use old_boruixkernel.Mm.Heap.Calls.{KeepsOnFailure, grow_size_lem}
use old_boruixkernel.Mm.Heap.Grow.{
  page_count, grow_pages, grow_size, grown_to, grow_heap, or_else, give_up, after_grow, try_others,
  try_global, alloc,
}
use old_boruixkernel.Mm.Heap.Null.{alloc_with_header_null, alloc_with_header_pointer, or_else_null}

number_differs : (a b : ℕ) → (a == b) ≡ false → a ≢ b
number_differs a b h e = ground arith

module _ {H : Type 0} (buddy : Buddy H) (in_memory : InMemory buddy)
    (keeps : KeepsOnFailure buddy) where
  module _ (has : ℕ → ℕ → Bool) (p4 : ℕ) (layout : Layout) where
    abbrev Refuses : ℕ → ShardedHeap H → Type 0
    Refuses i w = (alloc_with_header buddy i layout w).0 ≡ 0

    -- The heaps, the memory, the pages and the end of the heap.
    abbrev Has : ShardedHeap H → H × (ℕ → ℕ) → Memory → ℕ → Type 0
    Has w r m end = (w.store ≡ r.0) × (w.bytes ≡ r.1) × (w.pages ≡ m) × (w.heap_end ≡ end)

    -- The heap is at its limit, or the pages up to `end` cannot all be mapped, or the global heap has no block
    -- when it has been given what is up to there.
    abbrev StuckAt : ℕ → ShardedHeap H → ShardedHeap H → Type 0
    StuckAt end w w' =
        let g = grow_pages has p4 (page_count w.heap_end end) w.heap_end w.pages in
        let r = buddy.add_to_heap heap_shards w.heap_end end w.store w.bytes in
        ((w.heap_max ≤ w.heap_end) × Has w' (w.store, w.bytes) w.pages w.heap_end)
        ⊎ ((w.heap_end < w.heap_max)
            × (((g.1 ≡ some false) × Has w' (w.store, w.bytes) g.0 w.heap_end)
                ⊎ ((g.1 ≡ some true)
                    × ((u : ShardedHeap H) → u.store ≡ r.0 → u.bytes ≡ r.1 → Refuses heap_shards u)
                    × Has w' r g.0 end)))

    -- The heap cannot grow by 2 MiB, or by what is left to its limit, and serve the layout then.
    abbrev pub IsStuck : ShardedHeap H → ShardedHeap H → Type 0
    IsStuck w w' = StuckAt (w.heap_end + min heap_grow_chunk (w.heap_max - w.heap_end)) w w'

    give_up-Has :
        (v w' : ShardedHeap H)
        → give_up buddy has p4 v ≡ (some 0, w')
        → Has w' (v.store, v.bytes) v.pages v.heap_end
    give_up-Has v w' e = (
      ap (λ z. z.1.store) (sym e),
      ap (λ z. z.1.bytes) (sym e),
      ap (λ z. z.1.pages) (sym e),
      ap (λ z. z.1.heap_end) (sym e),
    )

    after_pages :
        (end : ℕ) (v w' : ShardedHeap H) (g : Memory × Option Bool)
        → v.heap_end < v.heap_max
        → grow_pages has p4 (page_count v.heap_end end) v.heap_end v.pages ≡ g
        → after_grow buddy has p4 layout (grown_to buddy has p4 end v g) ≡ (some 0, w')
        → StuckAt end v w'
    after_pages end v w' (m, none) lt k e = absurd (let z = ap (λ z. z.0) e in cc)
    after_pages end v w' (m, some false) lt k e =
        let (a, b, c, d) = give_up-Has (record v { pages = m }) w' e in
        inr (lt, inl (ap (λ z. z.1) k, (a, b, c ∙ ap (λ z. z.0) (sym k), d)))
    after_pages end v w' (m, some true) lt k e =
        let u = (grown_to buddy has p4 end v (m, some true)).1 in
        let (null, f) =
          or_else_null buddy in_memory keeps has p4 (alloc_with_header buddy heap_shards layout u)
            (give_up buddy has p4) w' e in
        let same = alloc_with_header_null buddy in_memory keeps heap_shards layout u null in
        let (a, b, c, d) = give_up-Has u w' (ap (λ z. give_up buddy has p4 z) (sym same) ∙ f) in
        inr (
          lt,
          inr (
            ap (λ z. z.1) k,
            (λ x s y.
                alloc_with_header_pointer buddy in_memory keeps heap_shards layout x u s y ∙ null),
            (a, b, c ∙ ap (λ z. z.0) (sym k), d),
          ),
        )

    grow_heap-IsStuck :
        (v w' : ShardedHeap H)
        → after_grow buddy has p4 layout (grow_heap buddy has p4 v) ≡ (some 0, w')
        → IsStuck v w'
    unfolding grow_heap
    grow_heap-IsStuck v w' e = elim (Bool-cases (leb v.heap_max v.heap_end)) [
      | inl full ↦
          let v1 = record v { grow_attempts = count v.grow_attempts } in
          let k : grow_heap buddy has p4 v ≡ (some false, v1) = rw (grow_heap, full) refl in
          let f = ap (λ z. after_grow buddy has p4 layout z) (sym k) ∙ e in
          inl (leb→le v.heap_max v.heap_end full, give_up-Has v1 w' f)
      | inr room ↦
          let v1 = record v { grow_attempts = count v.grow_attempts } in
          let end = v.heap_end + grow_size buddy has p4 v in
          let g = grow_pages has p4 (page_count v.heap_end end) v.heap_end v.pages in
          let k : grown_to buddy has p4 end v1 g ≡ grow_heap buddy has p4 v =
            rw (grow_heap, room) refl in
          let stuck =
            after_pages end v1 w' g (leb→gt v.heap_max v.heap_end room) refl
              (ap (λ z. after_grow buddy has p4 layout z) k ∙ e) in
          subst (λ z. StuckAt (v.heap_end + z) v w') (grow_size_lem buddy has p4 v) stuck
    ]

    try_others_null :
        (shard n other : ℕ) (w w' : ShardedHeap H)
        → try_others buddy has p4 shard layout n other w ≡ (some 0, w')
        → ((i : ℕ) → other ≤ i → i < other + n → i ≢ shard → Refuses i w) × IsStuck w w'
    unfolding try_others
    try_others_null shard zero other w w' e =
        ((λ i a b c. absurd (omega arith)), grow_heap-IsStuck w w' e)
    try_others_null shard (suc n) other w w' e = elim (Bool-cases (other == shard)) [
      | inl this ↦
          let k : try_others buddy has p4 shard layout n (other + 1) w
              ≡ try_others buddy has p4 shard layout (suc n) other w =
            rw (try_others, this) refl in
          let (all, last) = try_others_null shard n (other + 1) w w' (k ∙ e) in
          (
            (λ i a b c. all i (omega (arith, a, c, (==_iff other shard).0 this)) (omega arith) c),
            last,
          )
      | inr else_where ↦
          let w0 = record w { alloc_fallback_other = count w.alloc_fallback_other } in
          let r = alloc_with_header buddy other layout w0 in
          let next = try_others buddy has p4 shard layout n (other + 1) in
          let k : or_else buddy has p4 r next
              ≡ try_others buddy has p4 shard layout (suc n) other w =
            rw (try_others, else_where) refl in
          let (null, f) = or_else_null buddy in_memory keeps has p4 r next w' (k ∙ e) in
          let same = alloc_with_header_null buddy in_memory keeps other layout w0 null in
          let (all, last) = try_others_null shard n (other + 1) w0 w' (ap next (sym same) ∙ f) in
          (
            (λ i a b c. elim (Bool-cases (i == other)) [
              | inl at ↦
                  let q = (==_iff i other).0 at in
                  subst (λ j. Refuses j w) (sym q)
                    (alloc_with_header_pointer buddy in_memory keeps other layout w w0 refl refl
                      ∙ null)
              | inr past ↦
                  alloc_with_header_pointer buddy in_memory keeps i layout w w0 refl refl
                  ∙ all i (omega (arith, a, number_differs i other past)) (omega arith) c
            ]),
            last,
          )
    ]

    -- `alloc` gives a null pointer only where each of the nine heaps, as they are at the call, has no block
    -- for the layout, and where the heap, as it is at the call, is at its limit, or cannot map the pages of
    -- the next 2 MiB or of what is left to the limit, or has no block in the global heap when that is given
    -- them. The heaps and the memory change only in the last case. A heap without a block stays as it is,
    -- and the blocks of the heap lie in memory.
    pub alloc-IsStuck :
        (cpu : ℕ) (w w' : ShardedHeap H)
        → alloc buddy has p4 cpu layout w ≡ (some 0, w')
        → ((i : ℕ) → i ≤ heap_shards → (alloc_with_header buddy i layout w).0 ≡ 0) × IsStuck w w'
    unfolding alloc try_global
    alloc-IsStuck cpu w w' e =
        let own = local_shard cpu in
        let w0 = record w { alloc_calls = count w.alloc_calls } in
        let r = alloc_with_header buddy own layout w0 in
        let (null, f) =
          or_else_null buddy in_memory keeps has p4 r (try_global buddy has p4 own layout) w' e in
        let same = alloc_with_header_null buddy in_memory keeps own layout w0 null in
        let w1 = record w0 { alloc_fallback_global = count w0.alloc_fallback_global } in
        let f' : try_global buddy has p4 own layout w0 ≡ (some 0, w') =
          ap (try_global buddy has p4 own layout) (sym same) ∙ f in
        let g = alloc_with_header buddy heap_shards layout w1 in
        let next = try_others buddy has p4 own layout heap_shards 0 in
        let (null_g, h) = or_else_null buddy in_memory keeps has p4 g next w' f' in
        let same_g = alloc_with_header_null buddy in_memory keeps heap_shards layout w1 null_g in
        let (all, last) = try_others_null own heap_shards 0 w1 w' (ap next (sym same_g) ∙ h) in
        (
          (λ i le. elim (Bool-cases (i == own)) [
            | inl at ↦
                let q = (==_iff i own).0 at in
                subst (λ j. Refuses j w) (sym q)
                  (alloc_with_header_pointer buddy in_memory keeps own layout w w0 refl refl ∙ null)
            | inr other ↦ elim (Bool-cases (i == heap_shards)) [
              | inl global ↦
                  let q = (==_iff i heap_shards).0 global in
                  subst (λ j. Refuses j w) (sym q)
                    (alloc_with_header_pointer buddy in_memory keeps heap_shards layout w w1 refl
                        refl
                      ∙ null_g)
              | inr shard ↦
                  alloc_with_header_pointer buddy in_memory keeps i layout w w1 refl refl
                  ∙ all i (omega arith) (omega (arith, le, number_differs i heap_shards shard))
                      (number_differs i own other)
            ]
          ]),
          last,
        )
