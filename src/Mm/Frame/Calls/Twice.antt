-- ===== src/Mm/Frame/Calls/Twice.antt =====
-- A frame that is freed into the reserve, and freed again.
use old_boruixkernel.Common.{
  ℕ, ◌+◌, ◌/◌, ◌≤◌, ◌<◌, ◌≡◌, refl, true, false, some, ◌==◌, ==_refl, ltb, leb, arith, bump,
  Bool-cases, inl, inr, ap, ◌∙◌,
}
use old_boruixkernel.Mm.Frame.{Pmm, allocated, free_per_cpu}
use old_boruixkernel.Mm.Frame.Pools.{
  count, cache_of, per_cpu_limit, percpu_push_raw, drain, reserve_push,
}
use old_boruixkernel.Mm.Frame.Pools.Limit.{pushed_count, pushed_head, push_drains, limit_small}
use old_boruixkernel.Mm.Frame.Calls.{is_allocated, give_back, deallocate}

-- A frame that `deallocate` takes for one in use.
abbrev pub InUse : ℕ → Pmm → Type 0
InUse pfn m =
    (pfn < m.total_frames)
    × (m.has_block (pfn / m.frames_per_block) ≡ true)
    × ((m.frames pfn).state ≡ allocated)

reserved :
    (cpu pfn : ℕ) (m : Pmm)
    → InUse pfn m
    → (m.frames pfn).order ≡ 0
    → m.reserve_count < 32
    → let m' = deallocate cpu pfn m in
      InUse pfn m'
      × ((m'.frames pfn).order ≡ 0)
      × (m'.reserve_head ≡ some pfn)
      × ((m'.frames pfn).next ≡ m.reserve_head)
      × (m'.reserve_count ≡ m.reserve_count + 1)
unfolding deallocate give_back reserve_push
reserved cpu pfn m (lt, block, state) order room =
    let a : leb m.total_frames pfn ≡ false = ground arith in
    let b : ltb m.reserve_count 32 ≡ true = ground arith in
    rw (deallocate, a, block, state, order, give_back, b, reserve_push, ==_refl pfn)
      ((lt, block, refl), refl, refl, refl, omega (arith, room))

-- A frame of order 0 in use that is freed twice while the reserve has room is in the reserve twice: it
-- is the head, its link leads to itself, and the reserve counts two frames more.
pub deallocate_twice :
    (cpu cpu' pfn : ℕ) (m : Pmm)
    → InUse pfn m
    → (m.frames pfn).order ≡ 0
    → m.reserve_count < 31
    → let m' = deallocate cpu' pfn (deallocate cpu pfn m) in
      (m'.reserve_head ≡ some pfn)
      × ((m'.frames pfn).next ≡ some pfn)
      × (m'.reserve_count ≡ m.reserve_count + 2)
deallocate_twice cpu cpu' pfn m used order room =
    let m1 = deallocate cpu pfn m in
    let (used1, order1, head1, next1, count1) = reserved cpu pfn m used order (omega arith) in
    let (used2, order2, head2, next2, count2) =
      reserved cpu' pfn m1 used1 order1 (omega (arith, count1, room)) in
    (head2, next2 ∙ head1, count2 ∙ omega (arith, count1))

-- The check of `deallocate` refuses a frame that is free.
refuse_free :
    (cpu pfn : ℕ) (m : Pmm)
    → is_allocated (m.frames pfn).state ≡ false
    → deallocate cpu pfn m ≡ count (λ c. record c { dealloc_calls = bump c.dealloc_calls }) m
unfolding deallocate
refuse_free cpu pfn m free = elim (Bool-cases (leb m.total_frames pfn)) [
  | inl out ↦ rw (out) refl
  | inr within ↦ elim (Bool-cases (m.has_block (pfn / m.frames_per_block))) [
    | inl there ↦ rw (within, there, free) refl
    | inr hole ↦ rw (within, hole) refl
  ]
]

pushed_state :
    (cpu pfn o : ℕ) (m : Pmm) → ((percpu_push_raw cpu pfn o m).frames pfn).state ≡ free_per_cpu
unfolding percpu_push_raw
pushed_state cpu pfn o m = rw (==_refl pfn) refl

-- Where the reserve is not the place for the block and the cache has room, the block goes to the cache.
to_cache :
    (cpu pfn o : ℕ) (m : Pmm)
    → (o ≡ 0 → 32 ≤ m.reserve_count)
    → m.cache_counts (cache_of cpu) o < per_cpu_limit o
    → let m' = give_back cpu pfn o m in
      (m'.cache_heads (cache_of cpu) o ≡ some pfn) × ((m'.frames pfn).state ≡ free_per_cpu)
unfolding give_back drain
to_cache cpu pfn o m big room =
    let kept =
      push_drains cpu pfn o m 0 (omega (arith, pushed_count cpu pfn o m, limit_small o, room)) in
    let head = pushed_head cpu pfn o m in
    let at = pushed_state cpu pfn o m in
    elim (Bool-cases (o == 0)) [
      | inl least ↦
          let full : ltb m.reserve_count 32 ≡ false = ground (arith, big (ground arith)) in
          rw (least, full, kept, drain) (head, at)
      | inr more ↦ rw (more, kept, drain) (head, at)
    ]

passes :
    (cpu pfn : ℕ) (m : Pmm)
    → InUse pfn m
    → deallocate cpu pfn m
      ≡ give_back cpu pfn
          (m.frames pfn).order
          (count (λ c. record c { dealloc_calls = bump c.dealloc_calls }) m)
unfolding deallocate
passes cpu pfn m (lt, block, state) =
    let a : leb m.total_frames pfn ≡ false = ground arith in rw (deallocate, a, block, state) refl

-- A block in use that is freed to the cache of a CPU, where the cache has room, is in it after the call,
-- and a second call to free it, by any CPU, changes only the count of calls.
pub deallocate_again :
    (cpu cpu' pfn : ℕ) (m : Pmm)
    → InUse pfn m
    → ((m.frames pfn).order ≡ 0 → 32 ≤ m.reserve_count)
    → m.cache_counts (cache_of cpu) (m.frames pfn).order < per_cpu_limit (m.frames pfn).order
    → let m' = deallocate cpu pfn m in
      (m'.cache_heads (cache_of cpu) (m.frames pfn).order ≡ some pfn)
      × (deallocate cpu' pfn m' ≡ count (λ c. record c { dealloc_calls = bump c.dealloc_calls }) m')
deallocate_again cpu cpu' pfn m (lt, block, state) big room =
    let o = (m.frames pfn).order in
    let called = count (λ c. record c { dealloc_calls = bump c.dealloc_calls }) m in
    let e = passes cpu pfn m (lt, block, state) in
    let (head, at) = to_cache cpu pfn o called big room in
    (
      ap (λ z. z.cache_heads (cache_of cpu) o) e ∙ head,
      refuse_free cpu' pfn (deallocate cpu pfn m) (rw (e, at) refl),
    )
