-- ===== src/Mm/Frame/Pools/Refill.antt =====
-- The caches of the CPUs that `percpu_refill` fills.
use old_boruixkernel.Common.{
  ℕ, zero, suc, ◌+◌, ◌-◌, ◌%◌, ◌^◌, ◌≤◌, ◌≡◌, refl, ◌∙◌, Option, some, none, ltb, length, get_or,
  arith, Bool-cases, Option-cases, inl, inr, subst,
}
use old_boruixkernel.Mm.Frame.{Pmm, claim_as}
use old_boruixkernel.Mm.Frame.Buddy.{free_and_merge, alloc_from_list}
use old_boruixkernel.Mm.Frame.Uninit.{
  order_gap, fill_gap, align_to, region_fits, scan_regions, alloc_from_uninit,
}
use old_boruixkernel.Mm.Frame.Pools.{
  per_cpu_limit, per_cpu_batch, cache_of, percpu_push_raw, alloc_global, refill, percpu_refill,
}
use old_boruixkernel.Mm.Frame.Pools.Kept.{free_and_merge-IsKept, alloc_from_list-IsKept}
use old_boruixkernel.Mm.Frame.Pools.Limit.{Within, pushed_count, pushed_counts}

fill_gap_counts :
    (fuel cursor stop : ℕ) (m : Pmm) → (fill_gap fuel cursor stop m).cache_counts ≡ m.cache_counts
unfolding fill_gap
fill_gap_counts zero cursor stop m = refl
fill_gap_counts (suc fuel) cursor stop m =
    let order = order_gap cursor (stop - cursor) in
    let claimed = record m { frames = claim_as cursor order m.frames } in
    let next = free_and_merge cursor order claimed in
    elim (Bool-cases (ltb cursor stop)) [
      | inl more ↦ rw (more) (
          fill_gap_counts fuel (cursor + 2 ^ order) stop next
          ∙ (free_and_merge-IsKept cursor order claimed).cache_counts)
      | inr done ↦ rw (done) refl
    ]

scan_regions_counts :
    (o n offset : ℕ) (m : Pmm) → (scan_regions o n offset m).1.cache_counts ≡ m.cache_counts
unfolding scan_regions
scan_regions_counts o zero offset m = refl
scan_regions_counts o (suc n) offset m =
    let i = (m.last_uninit_idx + offset) % length m.regions in
    elim (Option-cases (get_or m.regions i none)) [
      | inl empty ↦ rw (scan_regions, empty) (scan_regions_counts o n (offset + 1) m)
      | inr (r, at) ↦ elim (Bool-cases (region_fits o r)) [
        | inr small ↦ rw (scan_regions, at, small) (scan_regions_counts o n (offset + 1) m)
        | inl fits ↦
            rw (scan_regions, at, fits)
              (fill_gap_counts (2 ^ o) r.start_pfn (align_to (2 ^ o) r.start_pfn) m)
      ]
    ]

data Outcome (r : Option ℕ × Pmm) : Type 0 where
  found : (p : ℕ) (m' : Pmm) → r ≡ (some p, m') → Outcome r
  not_found : (m' : Pmm) → r ≡ (none, m') → Outcome r

outcome : (r : Option ℕ × Pmm) → Outcome r
outcome (none, m') = not_found m' refl
outcome (some p, m') = found p m' refl

alloc_global_counts : (o cpu : ℕ) (m : Pmm) → (alloc_global o cpu m).1.cache_counts ≡ m.cache_counts
unfolding alloc_global alloc_from_uninit
alloc_global_counts o cpu m =
    let kept = (alloc_from_list-IsKept o cpu m).cache_counts in
    elim (outcome (alloc_from_list o cpu m)) [
      | found p m' e ↦ rw (alloc_global, e) (subst (λ r. r.1.cache_counts ≡ m.cache_counts) e kept)
      | not_found n e ↦
          let before : n.cache_counts ≡ m.cache_counts =
            subst (λ r. r.1.cache_counts ≡ m.cache_counts) e kept in
          let cut = scan_regions_counts o (length n.regions) 0 n in
          elim (outcome (alloc_from_uninit o n)) [
            | found p m' k ↦
                rw (alloc_global, e, k)
                  (subst (λ r. r.1.cache_counts ≡ n.cache_counts) k cut ∙ before)
            | not_found m' k ↦
                rw (alloc_global, e, k)
                  (subst (λ r. r.1.cache_counts ≡ n.cache_counts) k cut ∙ before)
          ]
    ]

-- The count of a cache has `n` below its limit.
refill-Within :
    (cpu o n : ℕ) (first : Option ℕ) (m : Pmm)
    → Within m
    → m.cache_counts (cache_of cpu) o + n ≤ per_cpu_limit o
    → Within (refill cpu o n first m).1
unfolding refill
refill-Within cpu o zero first m w room = w
refill-Within cpu o (suc n) first m w room =
    let kept = alloc_global_counts o cpu m in
    elim (outcome (alloc_global o cpu m)) [
      | not_found m' e ↦
          let k : m'.cache_counts ≡ m.cache_counts =
            subst (λ r. r.1.cache_counts ≡ m.cache_counts) e kept in
          rw (refill, e) (λ c i. rw k (w c i))
      | found p m' e ↦
          let k : m'.cache_counts ≡ m.cache_counts =
            subst (λ r. r.1.cache_counts ≡ m.cache_counts) e kept in
          let w' : Within m' = λ c i. rw k (w c i) in
          let room' : m'.cache_counts (cache_of cpu) o + suc n ≤ per_cpu_limit o = rw k room in
          elim (Option-cases first) [
            | inl q ↦ rw (refill, e, q) (refill-Within cpu o n (some p) m' w' (omega arith))
            | inr (f, q) ↦
                rw (refill, e, q)
                  (refill-Within cpu o n (some f) (percpu_push_raw cpu p o m')
                    (λ c i. elim (pushed_counts cpu p o m' c i) [
                      | inl x ↦ rw x (w' c i)
                      | inr (x, y) ↦ rw (x, y) (omega (arith, pushed_count cpu p o m', room'))
                    ])
                    (omega (arith, pushed_count cpu p o m', room')))
          ]
    ]

-- `percpu_refill` leaves no cache above its limit, where none was and the cache that it fills was empty.
pub percpu_refill-Within :
    (cpu o : ℕ) (m : Pmm)
    → Within m
    → m.cache_counts (cache_of cpu) o ≡ 0
    → Within (percpu_refill cpu o m).1
unfolding percpu_refill
percpu_refill-Within cpu o m w empty =
    let done = refill-Within cpu o (per_cpu_batch o) none m w (omega arith) in
    elim (outcome (refill cpu o (per_cpu_batch o) none m)) [
      | found p m' e ↦ rw (percpu_refill, e) (subst (λ r. Within r.1) e done)
      | not_found m' e ↦ rw (percpu_refill, e) (subst (λ r. Within r.1) e done)
    ]
