-- ===== src/Mm/Frame/Pools/Limit.antt =====
-- The limits of the caches of the CPUs.
use old_boruixkernel.Common.{
  ℕ, ◌+◌, ◌-◌, ◌≤◌, ◌<◌, ◌≡◌, ◌⊎◌, refl, ap, ◌∙◌, some, ◌==◌, ==_refl, if◌then◌else◌, ltb, min,
  ltb→lt, ltb→ge, arith, Bool-cases, inl, inr,
}
use old_boruixkernel.Mm.Frame.{Pmm}
use old_boruixkernel.Mm.Frame.Buddy.{free_and_merge}
use old_boruixkernel.Mm.Frame.Pools.{
  per_cpu_limit, cache_of, percpu_pop_raw, percpu_push_raw, drain, percpu_push,
}
use old_boruixkernel.Mm.Frame.Pools.Kept.{free_and_merge-IsKept}

-- No cache counts more blocks than its limit.
abbrev pub Within : Pmm → Type 0
Within m = (c o : ℕ) → m.cache_counts c o ≤ per_cpu_limit o

pub limit_small : (o : ℕ) → (1 ≤ per_cpu_limit o) × (per_cpu_limit o ≤ 64)
limit_small o = ground arith

pop_counts :
    (cpu order : ℕ) (n : Pmm) (p : ℕ)
    → n.cache_heads (cache_of cpu) order ≡ some p
    → (m' : Pmm) × (percpu_pop_raw cpu order n ≡ (some p, m'))
      × ((c o : ℕ)
          → m'.cache_counts c o ≡ (
              if c == cache_of cpu
              then (if o == order then n.cache_counts c o - 1 else n.cache_counts c o)
              else n.cache_counts c o))
unfolding percpu_pop_raw
pop_counts cpu order n p e = (
  (percpu_pop_raw cpu order n).1,
  rw (percpu_pop_raw, e) refl,
  λ c o. rw (percpu_pop_raw, e) refl,
)

module _ (cpu pfn order : ℕ) (m : Pmm) where
  abbrev pub old : ℕ
  old = m.cache_counts (cache_of cpu) order

  abbrev pub pushed : Pmm
  pushed = percpu_push_raw cpu pfn order m

  pub pushed_count : pushed.cache_counts (cache_of cpu) order ≡ min (old + 1) 0xffff
  unfolding percpu_push_raw
  pushed_count = rw (==_refl (cache_of cpu), ==_refl order) refl

  pub pushed_counts :
      (c o : ℕ) → pushed.cache_counts c o ≡ m.cache_counts c o ⊎ ((c ≡ cache_of cpu) × (o ≡ order))
  unfolding percpu_push_raw
  pushed_counts c o = elim (Bool-cases (c == cache_of cpu)) [
    | inr other ↦ inl (rw other refl)
    | inl self ↦ elim (Bool-cases (o == order)) [
      | inr other ↦ inl (rw (self, other) refl)
      | inl both ↦ inr (ground arith, ground arith)
    ]
  ]

  pub pushed_head : pushed.cache_heads (cache_of cpu) order ≡ some pfn
  unfolding percpu_push_raw
  pushed_head = rw (==_refl (cache_of cpu), ==_refl order) refl

  -- The block that was pushed last comes off first.
  pop_pushed :
      old < 0xffff
      → (m' : Pmm) × (percpu_pop_raw cpu order pushed ≡ (some pfn, m'))
        × ((c o : ℕ) → m'.cache_counts c o ≡ m.cache_counts c o)
  pop_pushed small =
      let (m', e, law) = pop_counts cpu order pushed pfn pushed_head in
      (m', e, λ c o. law c o ∙ ground (arith, pushed_count, pushed_counts c o))

  pub push_drains :
      (n : ℕ)
      → pushed.cache_counts (cache_of cpu) order - per_cpu_limit order ≡ n
      → percpu_push cpu pfn order m ≡ drain cpu order n pushed
  unfolding percpu_push
  push_drains n e = ap (λ n. drain cpu order n pushed) e

  drain_one :
      (m' : Pmm)
      → percpu_pop_raw cpu order pushed ≡ (some pfn, m')
      → drain cpu order 1 pushed ≡ free_and_merge pfn order m'
  unfolding drain
  drain_one m' k = rw (k, drain) refl

  -- A push onto a full cache takes the block off again, and one onto another raises its count.
  pub percpu_push_count :
      old ≤ per_cpu_limit order
      → (c o : ℕ)
      → ((percpu_push cpu pfn order m).cache_counts c o ≡ m.cache_counts c o)
        ⊎ ((c ≡ cache_of cpu)
            × (o ≡ order)
            × (old < per_cpu_limit order)
            × ((percpu_push cpu pfn order m).cache_counts c o ≡ old + 1))
  unfolding drain
  percpu_push_count w c o =
      let small = limit_small order in
      elim (Bool-cases (ltb old (per_cpu_limit order))) [
        | inl less ↦
            let room = ltb→lt old (per_cpu_limit order) less in
            rw (push_drains 0 (omega (arith, pushed_count, small, room)))
              (elim (pushed_counts c o) [
                | inl x ↦ inl x
                | inr (x, y) ↦
                    inr (x, y, room, rw (x, y) (pushed_count ∙ omega (arith, small, room)))
              ])
        | inr full ↦
            let (m', k, law) = pop_pushed (omega (arith, small)) in
            let e =
              push_drains 1
                (omega (arith, pushed_count, small, ltb→ge old (per_cpu_limit order) full))
              ∙ drain_one m' k in
            rw e (inl (ap (λ f. f c o) (free_and_merge-IsKept pfn order m').cache_counts ∙ law c o))
      ]

-- `percpu_push` leaves no cache above its limit, where none was.
pub percpu_push-Within :
    (cpu pfn order : ℕ) (m : Pmm) → Within m → Within (percpu_push cpu pfn order m)
percpu_push-Within cpu pfn order m w c o =
    elim (percpu_push_count cpu pfn order m (w (cache_of cpu) order) c o) [
      | inl e ↦ rw e (w c o)
      | inr (x, y, room, e) ↦ rw (e, y) (omega arith)
    ]
