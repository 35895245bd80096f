-- ===== src/Mm/Vma/Examples.antt =====
-- Tests of the tree of memory areas, and its theorems at concrete trees.
use old_boruixkernel.Common.{
  ℕ, ◌+◌, ◌≤◌, ◌≡◌, refl, Bool, true, false, some, [], ◌∷◌, arith, inr, length, ◌==◌, ◌⊎◌, ◌↔◌, ◌<◌,
  word_max,
}
use old_boruixkernel.Mm.Vma.Area.{MemoryArea, anonymous}
use old_boruixkernel.Mm.Vma.{Tree, leaf, insert_node, areas, splitmix64}
use old_boruixkernel.Mm.Vma.Shape.{IsSound, insert_node-IsSound}
use old_boruixkernel.Mm.Vma.Order.{Chain}
use old_boruixkernel.Mm.Vma.Lookup.{find_containing, find_next}
use old_boruixkernel.Mm.Vma.Containing.{scan, find_containing-scan}
use old_boruixkernel.Mm.Vma.Overlap.{overlaps, flags_at, cover}
use old_boruixkernel.Mm.Vma.Insert.{Vma, insert_area, ok, invalid_access}
use old_boruixkernel.Mm.Vma.Insertion.{IsValid, insert_area-accepts, insert_area-refuses}
use old_boruixkernel.Mm.Vma.Range.{check_range}
use old_boruixkernel.Mm.Vma.RangeProofs.{Mapped}
use old_boruixkernel.Mm.Vma.Checked.{check_range-Mapped}
use old_boruixkernel.Mm.Vma.Lost.{insert_area_loses}

abbrev low : MemoryArea
low = record { start = 0x1000; end = 0x2000; flags = 7; backing = anonymous }

abbrev high : MemoryArea
high = record { start = 0x2800; end = 0x4000; flags = 7; backing = anonymous }

abbrev fresh : MemoryArea
fresh = record { start = 0x2000; end = 0x2800; flags = 5; backing = anonymous }

abbrev greedy : MemoryArea
greedy = record { start = 0x2000; end = 0x3000; flags = 7; backing = anonymous }

abbrev pair : Tree
pair = insert_node (insert_node leaf high) low

abbrev small : Vma
small = record { root = pair; stats = record { inserts = 2; merges = 0; overlap_rejects = 0 } }

pair-areas : areas pair ≡ low ∷ high ∷ []
unfolding insert_node splitmix64
pair-areas = refl

pair-IsSound : IsSound pair
pair-IsSound = insert_node-IsSound (insert_node leaf high) low (insert_node-IsSound leaf high tt)

pair-Chain : Chain 0 word_max (areas pair)
pair-Chain = rw pair-areas (omega arith)

small-IsValid : IsValid small
small-IsValid = record { sound = pair-IsSound; ordered = pair-Chain }

few : length (areas pair) < 5
few = rw pair-areas (omega arith)

insert_area-accepts_example :
    (v' : Vma) × (insert_area 5 small fresh ≡ some (v', ok))
    × IsValid v'
    × ((addr : ℕ) → flags_at addr (areas v'.root) ≡ cover addr fresh (areas pair))
unfolding overlaps
insert_area-accepts_example =
    insert_area-accepts 5 small fresh small-IsValid (omega arith) few (omega arith)
      (rw pair-areas refl)

insert_area-refuses_example : (v' : Vma) × (insert_area 5 small greedy ≡ some (v', invalid_access))
unfolding overlaps
insert_area-refuses_example =
    insert_area-refuses 5 small greedy small-IsValid (omega arith) few (inr (rw pair-areas refl))

insert_area_loses_example :
    (v' : Vma) × (insert_area 5 small greedy ≡ some (v', invalid_access))
    × (areas v'.root ≡ high ∷ [])
insert_area_loses_example =
    insert_area_loses 4 small greedy low high [] [] small-IsValid pair-areas refl refl (omega arith)
      (omega arith)

abbrev any_flags : ℕ → Bool
any_flags f = f == 7

check_range-Mapped_example :
    (b : Bool) × (check_range 4 any_flags pair 0x1800 0x100 ≡ some b)
    × ((b ≡ true) ↔ (
        (◌≡◌ {A = ℕ} 0x100 0)
        ⊎ ((0x1800 + 0x100 ≤ word_max) × Mapped any_flags (areas pair) 0x1800 (0x1800 + 0x100))))
check_range-Mapped_example =
    check_range-Mapped any_flags pair pair-IsSound pair-Chain 4 0x1800 0x100
      (rw pair-areas (omega arith))

check_range_runs :
    (check_range 4 any_flags pair 0x1800 0x100 ≡ some true)
    × (check_range 4 any_flags pair 0x1800 0x1000 ≡ some false)
unfolding check_range insert_node splitmix64 find_containing find_next
check_range_runs = (refl, refl)

find_containing-scan_example : find_containing pair 0x2900 ≡ scan 0x2900 (areas pair)
find_containing-scan_example = find_containing-scan pair 0x2900 0 word_max pair-IsSound pair-Chain
