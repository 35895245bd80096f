-- ===== src/Mm/Frame/Pools.antt =====
-- The caches of the CPUs and the reserve of mm/src/frame_allocator/allocator_core.rs, and
-- `alloc_global`. The CPU of the caller is an argument.
pub mod Kept
pub mod Global
pub mod Owners
pub mod Fresh
pub mod Limit
pub mod Refill
use old_boruixkernel.Common.{
  ℕ, zero, suc, ◌+◌, ◌-◌, ◌*◌, ◌/◌, ◌%◌, ◌^◌, Bool, true, false, Option, none, some, List, [], ◌∷◌,
  ltb, leb, ◌==◌, if◌then◌else◌, not, min, max, bump, word_mod,
}
use old_boruixkernel.Mm.Frame.{
  FrameState, allocated, free_global, free_per_cpu, BuddyFrame, Frames, Pmm, Counters, max_order,
  max_cpus, set_head, set_frame, claim, claim_as,
}
use old_boruixkernel.Mm.Frame.Buddy.{free_and_merge, alloc_from_list, or_else}
use old_boruixkernel.Mm.Frame.Uninit.{alloc_from_uninit}

abbrev pub per_cpu_limit : ℕ → ℕ
per_cpu_limit order =
    if leb order 1
    then 64
    else if leb order 4
    then 32
    else if leb order 8
    then 16
    else if leb order 12
    then 8
    else if leb order 16
    then 4
    else 2

abbrev pub per_cpu_batch : ℕ → ℕ
per_cpu_batch order = min (per_cpu_limit order) 8

-- A change of the counters.
abbrev pub count : (Counters → Counters) → Pmm → Pmm
count f m = record m { counters = f m.counters }

-- `with_cache` takes the CPU modulo `MAX_CPUS`.
abbrev pub cache_of : ℕ → ℕ
cache_of cpu = cpu % max_cpus

unfoldable pub percpu_pop_raw : ℕ → ℕ → Pmm → Option ℕ × Pmm
percpu_pop_raw cpu order m = elim (m.cache_heads (cache_of cpu) order) [
  | none ↦ (none, m)
  | some head ↦ (
    some head,
    record m {
      frames = claim head m.frames;
      cache_heads = set_head (cache_of cpu) order (m.frames head).next m.cache_heads;
      cache_counts = λ c o.
          if c == cache_of cpu
          then (if o == order then m.cache_counts c o - 1 else m.cache_counts c o)
          else m.cache_counts c o;
    },
  )
]

unfoldable pub percpu_pop : ℕ → ℕ → Pmm → Option ℕ × Pmm
percpu_pop cpu order m =
    or_else (percpu_pop_raw cpu order m)
      (λ idx m'.
        (some idx, count (λ c. record c { alloc_hit_percpu = bump c.alloc_hit_percpu }) m'))
      (λ m'. (none, m'))

-- The counts are `u16` and saturate.
unfoldable pub percpu_push_raw : ℕ → ℕ → ℕ → Pmm → Pmm
percpu_push_raw cpu pfn order m = record m {
  frames =
      set_frame pfn
        (record {
          order = order;
          state = free_per_cpu;
          migratable = true;
          next = m.cache_heads (cache_of cpu) order;
          prev = none;
        })
        m.frames;
  cache_heads = set_head (cache_of cpu) order (some pfn) m.cache_heads;
  cache_counts = λ c o.
      if c == cache_of cpu
      then (if o == order then min (m.cache_counts c o + 1) 0xffff else m.cache_counts c o)
      else m.cache_counts c o;
}

-- `while to_drain > 0`.
unfoldable pub drain : ℕ → ℕ → ℕ → Pmm → Pmm
drain cpu order zero m = m
drain cpu order (suc n) m =
    (or_else (percpu_pop_raw cpu order m)
      (λ pfn m'. (none, drain cpu order n (free_and_merge pfn order m'))) (λ m'. (none, m'))).1

unfoldable pub percpu_push : ℕ → ℕ → ℕ → Pmm → Pmm
unfolding drain
percpu_push cpu pfn order m =
    let pushed = percpu_push_raw cpu pfn order m in
    drain cpu order (pushed.cache_counts (cache_of cpu) order - per_cpu_limit order) pushed

unfoldable pub alloc_global : ℕ → ℕ → Pmm → Option ℕ × Pmm
alloc_global order cpu m =
    or_else (alloc_from_list order cpu m) (λ idx m'. (some idx, m'))
      (λ m'.
        or_else (alloc_from_uninit order m')
          (λ idx m''. (
            some idx,
            count (λ c. record c { alloc_hit_uninit = bump c.alloc_hit_uninit })
                (record m'' { frames = claim_as idx order m''.frames }),
          ))
          (λ m''. (none, m'')))

-- `for _ in 0..batch`, with `n` rounds left.
unfoldable pub refill : ℕ → ℕ → ℕ → Option ℕ → Pmm → Option ℕ × Pmm
refill cpu order zero first m = (first, m)
refill cpu order (suc n) first m =
    or_else (alloc_global order cpu m)
      (λ pfn m'. elim first [
        | none ↦ refill cpu order n (some pfn) m'
        | some f ↦ refill cpu order n (some f) (percpu_push_raw cpu pfn order m')
      ])
      (λ m'. (first, m'))

unfoldable pub percpu_refill : ℕ → ℕ → Pmm → Option ℕ × Pmm
unfolding refill
percpu_refill cpu order m =
    or_else (refill cpu order (per_cpu_batch order) none m)
      (λ idx m'. (some idx, count (λ c. record c { alloc_refill = bump c.alloc_refill }) m'))
      (λ m'. (none, m'))

unfoldable pub reserve_pop : Pmm → Option ℕ × Pmm
reserve_pop m = elim m.reserve_head [
  | none ↦ (none, m)
  | some head ↦ (
    some head,
    record m {
      frames = claim head m.frames;
      reserve_head = (m.frames head).next;
      reserve_count = (m.reserve_count + word_mod - 1) % word_mod;
    },
  )
]

unfoldable pub reserve_push : ℕ → Pmm → Pmm
reserve_push pfn m = record m {
  frames =
      set_frame pfn
        (record {
          order = 0;
          state = allocated;
          migratable = true;
          next = m.reserve_head;
          prev = none;
        })
        m.frames;
  reserve_head = some pfn;
  reserve_count = bump m.reserve_count;
}

-- `while added < pages`, without the messages.
unfoldable pub init_reserve : ℕ → Pmm → Pmm
init_reserve zero m = m
init_reserve (suc pages) m =
    (or_else (alloc_global 0 0 m) (λ pfn m'. (none, init_reserve pages (reserve_push pfn m')))
      (λ m'. (none, m'))).1
