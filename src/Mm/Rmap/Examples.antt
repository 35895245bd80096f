-- ===== src/Mm/Rmap/Examples.antt =====
-- The theorems on the reverse map at a concrete map.
use old_boruixkernel.Common.{[], ◌∷◌, arith}
use old_boruixkernel.Mm.Rmap.{RmapEntry, Rmap}
use old_boruixkernel.Mm.Rmap.Entries.{IsSorted}

abbrev shared : RmapEntry
shared = record { p4_phys = 0x1000; vaddr = 0x4000; flags = 7 }

abbrev rmap : Rmap
rmap = record {
  frames = (0x3000, shared ∷ []) ∷ (0x7000, shared ∷ shared ∷ []) ∷ [];
  stats = record { adds = 3; removes = 0; lookups = 0; mig_read = 0; mig_write = 0 };
}

rmap-IsSorted : IsSorted 0 rmap.frames
rmap-IsSorted = (omega arith, omega arith, (omega arith, omega arith, tt))
