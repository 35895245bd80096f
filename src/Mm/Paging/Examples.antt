-- ===== src/Mm/Paging/Examples.antt =====
-- The theorems on walks at concrete tables.
use old_boruixkernel.Common.{
  ℕ, ◌+◌, ◌≤◌, ◌<◌, ◌≡◌, ◌⊎◌, ◌↔◌, refl, Bool, true, some, arith, bit_and, ◌==◌, length, word_max,
}
use old_boruixkernel.Mm.Vma.Area.{MemoryArea, anonymous}
use old_boruixkernel.Mm.Vma.{Tree, leaf, insert_node, areas, splitmix64}
use old_boruixkernel.Mm.Vma.Shape.{IsSound, insert_node-IsSound}
use old_boruixkernel.Mm.Vma.Order.{Chain}
use old_boruixkernel.Mm.Vma.Range.{check_range}
use old_boruixkernel.Mm.Vma.Lookup.{find_containing, find_next}
use old_boruixkernel.Mm.Vma.RangeProofs.{Mapped}
use old_boruixkernel.Mm.Paging.{
  Tables, page_access_ok, page_loop, check_pages, check_range_mapped, translate, align_down,
}
use old_boruixkernel.Mm.Paging.Backed.{check_range_mapped-Mapped, check_range_mapped-translate}

abbrev has : ℕ → ℕ → Bool
has flags required = bit_and flags required == required

abbrev area : MemoryArea
area = record { start = 0x1000; end = 0x4000; flags = 7; backing = anonymous }

abbrev root : Tree
root = insert_node leaf area

-- Every entry is present, writable and for the user, and leads back to the first table.
abbrev tables : Tables
tables = record { read = λ table i. 0x5007; phys_offset = some 0; p4_phys = 0x5000 }

root-IsSound : IsSound root
root-IsSound = insert_node-IsSound leaf area tt

root-Chain : Chain 0 word_max (areas root)
unfolding insert_node splitmix64
root-Chain = omega arith

few : length (areas root) + 1 < 9
unfolding insert_node splitmix64
few = omega arith

check_range_mapped-Mapped_example :
    (b : Bool) × (check_range_mapped 9 has root tables 0x1800 0x1000 6 ≡ some b)
    × ((b ≡ true) ↔ (
        (◌≡◌ {A = ℕ} 0x1000 0)
        ⊎ ((0x2800 ≤ word_max)
            × Mapped (λ flags. has flags 6) (areas root) 0x1800 0x2800
            × ((a : ℕ)
                → 0x1800 ≤ a
                → a < 0x2800
                → page_access_ok has tables (align_down a) 6 6 ≡ true))))
check_range_mapped-Mapped_example =
    check_range_mapped-Mapped has root tables root-IsSound root-Chain 9 0x1800 0x1000 6 few
      (omega arith)

accepted : check_range_mapped 9 has root tables 0x1800 0x1000 6 ≡ some true
unfolding check_range_mapped check_pages page_loop page_access_ok check_range find_containing
    find_next insert_node splitmix64
accepted = refl

check_range_mapped-translate_example : (phys : ℕ) × (translate has tables 0x1999 ≡ some phys)
check_range_mapped-translate_example =
    check_range_mapped-translate has root tables root-IsSound root-Chain 9 0x1800 0x1000 6 0x1999
      few (omega arith) accepted (omega arith) (omega arith)
