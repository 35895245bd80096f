-- ===== src/Mm/Frame/Calls/Examples.antt =====
-- The theorems on the frame allocator at a small memory of 64 frames, of which the frames from 3 on
-- are in a region.
use old_boruixkernel.Common.{
  ℕ, zero, suc, ◌≡◌, refl, true, false, some, none, [], ◌∷◌, get_or, arith, bump,
}
use old_boruixkernel.Mm.Frame.{Pmm, Counters, UninitRegion, new_frame, max_order}
use old_boruixkernel.Mm.Frame.Buddy.{
  pop_shards, pop_from_global, try_higher, alloc_from_list, free_and_merge,
}
use old_boruixkernel.Mm.Frame.Buddy.Blocks.{Blocks, Fits, add, drop}
use old_boruixkernel.Mm.Frame.Buddy.Lists.{is_free}
use old_boruixkernel.Mm.Frame.Buddy.Merge.{IsBuddy, Gains, free_and_merge-Gains}
use old_boruixkernel.Mm.Frame.Buddy.Alloc.{Taken}
use old_boruixkernel.Mm.Frame.Buddy.FromList.{NoneBetween, alloc_from_list-Taken}
use old_boruixkernel.Mm.Frame.Uninit.{scan_regions, alloc_from_uninit}
use old_boruixkernel.Mm.Frame.Uninit.Scan.{Cut, alloc_from_uninit-Cut}
use old_boruixkernel.Mm.Frame.Pools.{alloc_global, count, cache_of}
use old_boruixkernel.Mm.Frame.Pools.Global.{Served, alloc_global-Served}
use old_boruixkernel.Mm.Frame.Pools.Owners.{IsOwned, Run, done, also, take, give, Sound, run-Sound}
use old_boruixkernel.Mm.Frame.Pools.Fresh.{fresh-IsOwned}
use old_boruixkernel.Mm.Frame.Calls.{deallocate}
use old_boruixkernel.Mm.Frame.Calls.Twice.{deallocate_twice, deallocate_again}

abbrev no_calls : Counters
no_calls = record {
  allocated_frames = 0;
  alloc_calls = 0;
  alloc_hit_percpu = 0;
  alloc_refill = 0;
  alloc_hit_global = 0;
  alloc_hit_uninit = 0;
  alloc_fail = 0;
  alloc_fail_by_order = λ o. 0;
  dealloc_calls = 0;
  global_list_ops = 0;
  compact_calls = 0;
  compact_drained = 0;
  compact_success = 0;
  compact_last_before = 0;
  compact_last_after = 0;
  compact_last_alloc_call = 0;
}

-- The reserve counts `reserved` frames.
abbrev memory : ℕ → Pmm
memory reserved = record {
  total_frames = 64;
  frames_per_block = 32;
  has_block = λ b. true;
  frames = λ p. new_frame;
  heads = λ o s. none;
  cache_heads = λ c o. none;
  cache_counts = λ c o. 0;
  reserve_head = none;
  reserve_count = reserved;
  regions = some (record { start_pfn = 3; end_pfn = 64 }) ∷ [];
  last_uninit_idx = 0;
  counters = no_calls;
}

abbrev nothing_out : Blocks
nothing_out p o = false

first_region : (i : ℕ) (r : UninitRegion) → get_or (memory 0).regions i none ≡ some r → i ≡ 0
first_region zero r e = refl
first_region (suc i) r e = ground arith

memory-IsOwned : IsOwned (memory 0) nothing_out
unfolding new_frame
memory-IsOwned =
    fresh-IsOwned (memory 0) (λ o s. refl) (λ p. refl)
      (λ a i j r s e k x y. omega (arith, first_region i r e, first_region j s k))

abbrev after_take : Pmm
after_take = (alloc_global 2 0 (memory 0)).1

took : alloc_global 2 0 (memory 0) ≡ (some 4, after_take)
unfolding alloc_global alloc_from_list pop_from_global pop_shards try_higher alloc_from_uninit
    scan_regions
took = refl

some_run : Run (memory 0) nothing_out (free_and_merge 4 2 after_take) (drop 4 (add 4 2 nothing_out))
some_run =
    also after_take (free_and_merge 4 2 after_take) (add 4 2 nothing_out)
      (drop 4 (add 4 2 nothing_out))
      (also (memory 0) after_take nothing_out (add 4 2 nothing_out) done
        (take 2 0 4 after_take took))
      (give 4 2 refl)

run-Sound_example :
    Sound (memory 0) nothing_out (free_and_merge 4 2 after_take) (drop 4 (add 4 2 nothing_out))
run-Sound_example =
    run-Sound (memory 0) nothing_out (free_and_merge 4 2 after_take) (drop 4 (add 4 2 nothing_out))
      memory-IsOwned some_run

alloc_global-Served_example : Served 2 (memory 0) (alloc_global 2 0 (memory 0))
alloc_global-Served_example = alloc_global-Served 2 0 (memory 0) memory-IsOwned.stocked

alloc_from_uninit-Cut_example : Cut 2 (memory 0) (alloc_from_uninit 2 (memory 0))
alloc_from_uninit-Cut_example = alloc_from_uninit-Cut 2 (memory 0) memory-IsOwned.stocked

-- No block is free.
all_fit : (p o : ℕ) → Fits (is_free (memory 0).frames) p o
unfolding new_frame
all_fit p o q i h = ground arith

free_and_merge-Gains_example : Gains 8 1 (memory 0) (free_and_merge 8 1 (memory 0))
free_and_merge-Gains_example =
    free_and_merge-Gains 8 1 (memory 0) memory-IsOwned.stocked.buddy (all_fit 8 1)

-- A memory with one free block of four frames.
abbrev one_block : Pmm
one_block = free_and_merge 8 2 (memory 0)

one_block-IsBuddy : IsBuddy one_block
one_block-IsBuddy =
    (free_and_merge-Gains 8 2 (memory 0) memory-IsOwned.stocked.buddy (all_fit 8 2)).buddy

alloc_from_list-Taken_example :
    Taken 0 one_block (NoneBetween 0 max_order one_block) (alloc_from_list 0 0 one_block)
alloc_from_list-Taken_example = alloc_from_list-Taken 0 0 one_block one_block-IsBuddy

deallocate_twice_example :
    let m' = deallocate 1 8 (deallocate 0 8 (memory 5)) in
    (m'.reserve_head ≡ some 8) × ((m'.frames 8).next ≡ some 8) × (m'.reserve_count ≡ 7)
unfolding new_frame
deallocate_twice_example =
    deallocate_twice 0 1 8 (memory 5) (omega arith, refl, refl) refl (omega arith)

deallocate_again_example :
    let m' = deallocate 0 8 (memory 32) in
    (m'.cache_heads (cache_of 0) 0 ≡ some 8)
    × (deallocate 1 8 m' ≡ count (λ c. record c { dealloc_calls = bump c.dealloc_calls }) m')
unfolding new_frame
deallocate_again_example =
    deallocate_again 0 1 8 (memory 32) (omega arith, refl, refl) (λ e. omega arith) (omega arith)
