-- ===== src/Mm/Frame/Uninit.antt =====
-- `alloc_from_uninit` of mm/src/frame_allocator/allocator_core.rs: memory that the buddy system has not
-- seen yet is cut from the start of a region, and what lies before the aligned start is freed.
pub mod Gap
pub mod Regions
pub mod Cut
pub mod Scan
use old_boruixkernel.Common.{
  ℕ, zero, suc, ◌+◌, ◌-◌, ◌*◌, ◌/◌, ◌%◌, ◌^◌, Bool, true, false, Option, none, some, List, [], ◌∷◌,
  ltb, leb, ◌==◌, if◌then◌else◌, min, length, get_or, set,
}
use old_boruixkernel.Mm.Frame.{Frames, Pmm, UninitRegion, max_order, claim_as}
use old_boruixkernel.Mm.Frame.Buddy.{free_and_merge}

-- `usize::BITS - 1 - n.leading_zeros()`, over at most `w` bits.
unfoldable pub log2 : ℕ → ℕ → ℕ
log2 zero n = 0
log2 (suc w) n = let rest = log2 w (n / 2) in if ltb n 2 then 0 else suc rest

-- `n.trailing_zeros()` over `w` bits.
unfoldable pub trailing_zeros : ℕ → ℕ → ℕ
trailing_zeros zero n = 0
trailing_zeros (suc w) n = let rest = trailing_zeros w (n / 2) in if n % 2 == 0 then suc rest else 0

abbrev pub order_gap : ℕ → ℕ → ℕ
order_gap cursor remaining =
    min (min (log2 64 remaining) (max_order - 1)) (trailing_zeros 64 cursor)

-- `while cursor < aligned_start`, on fuel: each round moves the cursor by one frame at least.
unfoldable pub fill_gap : ℕ → ℕ → ℕ → Pmm → Pmm
fill_gap zero cursor stop m = m
fill_gap (suc fuel) cursor stop m =
    let order = order_gap cursor (stop - cursor) in
    let rest =
      fill_gap fuel (cursor + 2 ^ order) stop
        (free_and_merge cursor order (record m { frames = claim_as cursor order m.frames })) in
    if ltb cursor stop then rest else m

-- `(start + size - 1) & !(size - 1)` for a power of two.
abbrev pub align_to : ℕ → ℕ → ℕ
align_to size start = (start + size - 1) / size * size

-- What the loop does at region `i` where the block fits. The gap is shorter than the block.
abbrev pub cut_region : ℕ → ℕ → UninitRegion → Pmm → Option ℕ × Pmm
cut_region order i region m =
    let size = 2 ^ order in
    let start = align_to size region.start_pfn in
    let filled = fill_gap size region.start_pfn start m in
    let left =
      if start + size == region.end_pfn
      then none
      else some (record region { start_pfn = start + size }) in
    (some start, record filled { regions = set m.regions i left; last_uninit_idx = i })

abbrev pub region_fits : ℕ → UninitRegion → Bool
region_fits order region = leb (align_to (2 ^ order) region.start_pfn + 2 ^ order) region.end_pfn

-- `for offset in 0..len`, with `n` rounds left.
unfoldable pub scan_regions : ℕ → ℕ → ℕ → Pmm → Option ℕ × Pmm
unfolding fill_gap
scan_regions order zero offset m = (none, m)
scan_regions order (suc n) offset m =
    let i = (m.last_uninit_idx + offset) % length m.regions in
    let rest = scan_regions order n (offset + 1) m in
    elim (get_or m.regions i none) [
      | none ↦ rest
      | some region ↦ if region_fits order region then cut_region order i region m else rest
    ]

unfoldable pub alloc_from_uninit : ℕ → Pmm → Option ℕ × Pmm
unfolding scan_regions
alloc_from_uninit order m = scan_regions order (length m.regions) 0 m
