-- ===== src/Mm/Frame/Pools/Kept.antt =====
-- What the buddy system leaves alone: the regions and the caches.
use old_boruixkernel.Common.{
  ℕ, zero, suc, ◌+◌, ◌-◌, ◌%◌, ◌^◌, ◌≡◌, refl, ◌∙◌, Option, some, none, ◌==◌, ◌&&◌, if◌then◌else◌,
  ltb, leb, Bool-cases, Option-cases, inl, inr,
}
use old_boruixkernel.Mm.Frame.{Pmm, shard_count, max_order, claim_as}
use old_boruixkernel.Mm.Frame.Buddy.{
  is_global, count_list_op, count_hit_global, push_to_global, detach, pop_shards, pop_from_global,
  split_down, try_higher, alloc_from_list, buddy_of, merge_up, free_and_merge,
}

-- The parts of the state that are not the buddy system's.
pub record IsKept (m m' : Pmm) : Type 0 where
  pub regions : m'.regions ≡ m.regions
  pub last : m'.last_uninit_idx ≡ m.last_uninit_idx
  pub cache_heads : m'.cache_heads ≡ m.cache_heads
  pub cache_counts : m'.cache_counts ≡ m.cache_counts
  pub reserve_head : m'.reserve_head ≡ m.reserve_head
  pub reserve_count : m'.reserve_count ≡ m.reserve_count

pub IsKept-refl : (m : Pmm) → IsKept m m
IsKept-refl m = record {
  regions = refl;
  last = refl;
  cache_heads = refl;
  cache_counts = refl;
  reserve_head = refl;
  reserve_count = refl;
}

pub IsKept-trans : (m n k : Pmm) → IsKept m n → IsKept n k → IsKept m k
IsKept-trans m n k a b = record {
  regions = b.regions ∙ a.regions;
  last = b.last ∙ a.last;
  cache_heads = b.cache_heads ∙ a.cache_heads;
  cache_counts = b.cache_counts ∙ a.cache_counts;
  reserve_head = b.reserve_head ∙ a.reserve_head;
  reserve_count = b.reserve_count ∙ a.reserve_count;
}

push_to_global-IsKept : (p o : ℕ) (m : Pmm) → IsKept m (push_to_global p o m)
unfolding push_to_global
push_to_global-IsKept p o m = record {
  regions = refl;
  last = refl;
  cache_heads = refl;
  cache_counts = refl;
  reserve_head = refl;
  reserve_count = refl;
}

detach-IsKept : (o s p : ℕ) (m : Pmm) → IsKept m (detach o s p (count_list_op m))
unfolding detach
detach-IsKept o s p m = record {
  regions = refl;
  last = refl;
  cache_heads = refl;
  cache_counts = refl;
  reserve_head = refl;
  reserve_count = refl;
}

merge_up-IsKept : (n p o : ℕ) (m : Pmm) → IsKept m (merge_up n p o m)
unfolding merge_up
merge_up-IsKept zero p o m = push_to_global-IsKept p o m
merge_up-IsKept (suc n) p o m =
    let b = buddy_of p o in
    let low = if ltb b p then b else p in
    let taken = detach o (b % shard_count) b (count_list_op m) in
    elim (Bool-cases (leb m.total_frames b)) [
      | inl past ↦ rw (merge_up, past) (push_to_global-IsKept p o m)
      | inr within ↦ elim (Bool-cases (is_global (m.frames b).state && ((m.frames b).order == o))) [
        | inl free ↦
            rw (merge_up, within, free)
              (IsKept-trans m taken (merge_up n low (o + 1) taken)
                (detach-IsKept o (b % shard_count) b m) (merge_up-IsKept n low (o + 1) taken))
        | inr used ↦
            let k = push_to_global-IsKept p o (count_list_op m) in
            rw (merge_up, within, used)
              (record {
                regions = k.regions;
                last = k.last;
                cache_heads = k.cache_heads;
                cache_counts = k.cache_counts;
                reserve_head = k.reserve_head;
                reserve_count = k.reserve_count;
              })
      ]
    ]

pub free_and_merge-IsKept : (p o : ℕ) (m : Pmm) → IsKept m (free_and_merge p o m)
unfolding free_and_merge
free_and_merge-IsKept p o m = merge_up-IsKept (max_order - 1 - o) p o m

split_down-IsKept : (o n p : ℕ) (m : Pmm) → IsKept m (split_down o n p m)
unfolding split_down
split_down-IsKept o zero p m = IsKept-refl m
split_down-IsKept o (suc n) p m =
    let j = o + n in
    let upper = p + 2 ^ j in
    let claimed = record m { frames = claim_as upper j m.frames } in
    let k = push_to_global-IsKept upper j claimed in
    IsKept-trans m (push_to_global upper j claimed)
      (split_down o n p (push_to_global upper j claimed))
      (record {
        regions = k.regions;
        last = k.last;
        cache_heads = k.cache_heads;
        cache_counts = k.cache_counts;
        reserve_head = k.reserve_head;
        reserve_count = k.reserve_count;
      })
      (split_down-IsKept o n p (push_to_global upper j claimed))

-- The same of the state that a search returns.
pop_shards-IsKept : (o start n offset : ℕ) (m : Pmm) → IsKept m (pop_shards o start n offset m).1
unfolding pop_shards
pop_shards-IsKept o start zero offset m = IsKept-refl m
pop_shards-IsKept o start (suc n) offset m =
    let shard = (start + offset) % shard_count in
    elim (Option-cases (m.heads o shard)) [
      | inr (p, e) ↦ rw (pop_shards, e) (detach-IsKept o shard p m)
      | inl e ↦
          let k = pop_shards-IsKept o start n (offset + 1) (count_list_op m) in
          rw (pop_shards, e)
            (record {
              regions = k.regions;
              last = k.last;
              cache_heads = k.cache_heads;
              cache_counts = k.cache_counts;
              reserve_head = k.reserve_head;
              reserve_count = k.reserve_count;
            })
    ]

pop_from_global-IsKept : (o cpu : ℕ) (m : Pmm) → IsKept m (pop_from_global o cpu m).1
unfolding pop_from_global
pop_from_global-IsKept o cpu m = pop_shards-IsKept o (cpu % shard_count) shard_count 0 m

-- The two ends of a search.
data Ends (m : Pmm) (r : Option ℕ × Pmm) : Type 0 where
  hit : (p : ℕ) (m' : Pmm) → r ≡ (some p, m') → IsKept m m' → Ends m r
  miss : (m' : Pmm) → r ≡ (none, m') → IsKept m m' → Ends m r

ends : (m : Pmm) (r : Option ℕ × Pmm) → IsKept m r.1 → Ends m r
ends m (none, m') k = miss m' refl k
ends m (some p, m') k = hit p m' refl k

try_higher-IsKept : (o cpu n higher : ℕ) (m : Pmm) → IsKept m (try_higher o cpu n higher m).1
unfolding try_higher
try_higher-IsKept o cpu zero higher m = IsKept-refl m
try_higher-IsKept o cpu (suc n) higher m =
    elim (ends m (pop_from_global higher cpu m) (pop_from_global-IsKept higher cpu m)) [
      | miss m' e k ↦
          rw (try_higher, e)
            (IsKept-trans m m' (try_higher o cpu n (higher + 1) m').1 k
              (try_higher-IsKept o cpu n (higher + 1) m'))
      | hit p m' e k ↦
          let s = split_down-IsKept o (higher - o) p (count_hit_global m') in
          rw (try_higher, e)
            (record {
              regions = s.regions ∙ k.regions;
              last = s.last ∙ k.last;
              cache_heads = s.cache_heads ∙ k.cache_heads;
              cache_counts = s.cache_counts ∙ k.cache_counts;
              reserve_head = s.reserve_head ∙ k.reserve_head;
              reserve_count = s.reserve_count ∙ k.reserve_count;
            })
    ]

pub alloc_from_list-IsKept : (o cpu : ℕ) (m : Pmm) → IsKept m (alloc_from_list o cpu m).1
unfolding alloc_from_list
alloc_from_list-IsKept o cpu m =
    elim (ends m (pop_from_global o cpu m) (pop_from_global-IsKept o cpu m)) [
      | miss m' e k ↦
          let rest = try_higher o cpu (max_order - (o + 1)) (o + 1) m' in
          rw (alloc_from_list, e)
            (IsKept-trans m m' rest.1 k (try_higher-IsKept o cpu (max_order - (o + 1)) (o + 1) m'))
      | hit p m' e k ↦
          rw (alloc_from_list, e)
            (record {
              regions = k.regions;
              last = k.last;
              cache_heads = k.cache_heads;
              cache_counts = k.cache_counts;
              reserve_head = k.reserve_head;
              reserve_count = k.reserve_count;
            })
    ]
