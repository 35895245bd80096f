-- ===== src/Mm/Frame/Uninit/Regions.antt =====
-- The frames that are free in the buddy system or lie in a region that it has not seen.
use old_boruixkernel.Common.{ℕ, ◌+◌, ◌^◌, ◌≤◌, ◌<◌, ◌≡◌, ◌⊎◌, ◌↔◌, Option, none, some, List, get_or}
use old_boruixkernel.Mm.Frame.{Pmm, UninitRegion}
use old_boruixkernel.Mm.Frame.Buddy.Lists.{is_free}
use old_boruixkernel.Mm.Frame.Buddy.Blocks.{InBlock, Covered}
use old_boruixkernel.Mm.Frame.Buddy.Merge.{IsBuddy}

abbrev pub InRegion : ℕ → UninitRegion → Type 0
InRegion a r = (r.start_pfn ≤ a) × (a < r.end_pfn)

abbrev pub Unused : List (Option UninitRegion) → ℕ → Type 0
Unused rs a = (i : ℕ) × (r : UninitRegion) × (get_or rs i none ≡ some r) × InRegion a r

-- A frame is free in the buddy system or in a region.
abbrev pub Stock : Pmm → ℕ → Type 0
Stock m a = Covered (is_free m.frames) a ⊎ Unused m.regions a

-- The regions meet neither each other nor the free blocks.
pub record IsStocked (m : Pmm) : Type 0 where
  pub buddy : IsBuddy m
  pub one_region :
      (a i j : ℕ) (r s : UninitRegion)
      → get_or m.regions i none ≡ some r
      → get_or m.regions j none ≡ some s
      → InRegion a r
      → InRegion a s
      → i ≡ j
  pub outside :
      (a i : ℕ) (r : UninitRegion)
      → Covered (is_free m.frames) a
      → get_or m.regions i none ≡ some r
      → (a < r.start_pfn) ⊎ (r.end_pfn ≤ a)

-- A block has left the stock.
pub record Leaves (p o : ℕ) (m m' : Pmm) : Type 0 where
  pub stocked : IsStocked m'
  pub clear : (a : ℕ) → Stock m' a → (a < p) ⊎ (p + 2 ^ o ≤ a)
  pub stock : (a : ℕ) → Stock m a ↔ (Stock m' a ⊎ InBlock a p o)
