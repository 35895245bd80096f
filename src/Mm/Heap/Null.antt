-- ===== src/Mm/Heap/Null.antt =====
-- A call for a block that gives a null pointer.
use old_boruixkernel.Common.{
  ℕ, ◌≡◌, refl, sym, ap, ap₂, ◌∙◌, Bool, Option, some, ◌==◌, arith, Bool-cases, Option-cases, inl,
  inr,
}
use old_boruixkernel.Mm.Heap.{
  Layout, ShardedHeap, Buddy, user_start, wide_layout, place, alloc_with_header,
}
use old_boruixkernel.Mm.Heap.Blocks.{InMemory, user_start_lem}
use old_boruixkernel.Mm.Heap.Calls.{KeepsOnFailure}
use old_boruixkernel.Mm.Heap.Grow.{or_else}

module _ {H : Type 0} (buddy : Buddy H) (in_memory : InMemory buddy)
    (keeps : KeepsOnFailure buddy) where
  -- A null pointer comes from a null block only.
  place_null :
      (shard : ℕ) (layout l : Layout) (w : ShardedHeap H) (base : ℕ) (s : H) (b : ℕ → ℕ)
      → wide_layout layout ≡ some l
      → buddy.heap_alloc shard l w.store w.bytes ≡ (base, s, b)
      → (place buddy shard l w (base, s, b)).0 ≡ 0
      → (place buddy shard l w (base, s, b)).1 ≡ w
  place_null shard layout l w base s b is g h = elim (Bool-cases (base == 0)) [
    | inl null ↦
        let z : base ≡ 0 = ground arith in
        let (same, bytes) = keeps shard l w.store s w.bytes b (g ∙ ap (λ n. (n, s, b)) z) in
        rw null (ap₂ (λ x y. record w { store = x; bytes = y }) same bytes)
    | inr full ↦
        let fits = in_memory shard l w.store s w.bytes b base g (λ z. ground arith) in
        let (a, after, _) = user_start_lem layout l base is fits in
        let k : (place buddy shard l w (base, s, b)).0 ≡ user_start l.align base = rw full refl in
        absurd (omega (arith, k, h, after))
  ]

  -- A call that gives no block changes nothing.
  pub alloc_with_header_null :
      (shard : ℕ) (layout : Layout) (w : ShardedHeap H)
      → (alloc_with_header buddy shard layout w).0 ≡ 0
      → (alloc_with_header buddy shard layout w).1 ≡ w
  unfolding alloc_with_header
  alloc_with_header_null shard layout w h = elim (Option-cases (wide_layout layout)) [
    | inl too_big ↦ rw (alloc_with_header, too_big) refl
    | inr (l, is) ↦
        let r = buddy.heap_alloc shard l w.store w.bytes in
        let k : place buddy shard l w r ≡ alloc_with_header buddy shard layout w =
          rw (alloc_with_header, is) refl in
        ap (λ z. z.1) (sym k)
        ∙ place_null shard layout l w r.0 r.1 r.2 is refl (ap (λ z. z.0) k ∙ h)
  ]

  place_pointer :
      (shard : ℕ) (l : Layout) (w v : ShardedHeap H) (r : ℕ × H × (ℕ → ℕ))
      → (place buddy shard l w r).0 ≡ (place buddy shard l v r).0
  place_pointer shard l w v (base, s, b) = elim (Bool-cases (base == 0)) [
    | inl e ↦ rw e refl
    | inr e ↦ rw e refl
  ]

  -- The pointer depends on the state of the heaps and the memory only.
  pub alloc_with_header_pointer :
      (shard : ℕ) (layout : Layout) (w v : ShardedHeap H)
      → w.store ≡ v.store
      → w.bytes ≡ v.bytes
      → (alloc_with_header buddy shard layout w).0 ≡ (alloc_with_header buddy shard layout v).0
  unfolding alloc_with_header
  alloc_with_header_pointer shard layout w v e b = elim (Option-cases (wide_layout layout)) [
    | inl too_big ↦ rw (alloc_with_header, too_big) refl
    | inr (l, is) ↦
        let step = λ (u : ShardedHeap H).
          let k : place buddy shard l u (buddy.heap_alloc shard l u.store u.bytes)
              ≡ alloc_with_header buddy shard layout u =
            rw (alloc_with_header, is) refl in
          k in
        ap (λ z. z.0) (sym (step w))
        ∙ place_pointer shard l w v (buddy.heap_alloc shard l w.store w.bytes)
        ∙ ap₂ (λ s y. (place buddy shard l v (buddy.heap_alloc shard l s y)).0) e b
        ∙ ap (λ z. z.0) (step v)
  ]

  pub or_else_null :
      (has : ℕ → ℕ → Bool) (p4 : ℕ) (r : ℕ × ShardedHeap H)
      (next : ShardedHeap H → Option ℕ × ShardedHeap H) (w' : ShardedHeap H)
      → or_else buddy has p4 r next ≡ (some 0, w')
      → (r.0 ≡ 0) × (next r.1 ≡ (some 0, w'))
  or_else_null has p4 (p, w) next w' e = elim (Bool-cases (p == 0)) [
    | inl null ↦
        let k : or_else buddy has p4 (p, w) next ≡ next w = rw (or_else, null) refl in
        (ground arith, sym k ∙ e)
    | inr full ↦
        let k : or_else buddy has p4 (p, w) next ≡ (some p, w) = rw (or_else, full) refl in
        let same : some p ≡ some 0 = ap (λ z. z.0) (sym k ∙ e) in
        let z : p ≡ 0 = cc in absurd (ground arith)
  ]
