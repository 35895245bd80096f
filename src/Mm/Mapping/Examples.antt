-- ===== src/Mm/Mapping/Examples.antt =====
-- The theorems on mapping and unmapping at concrete memories, and a page that is mapped.
use old_boruixkernel.Common.{ℕ, ◌≡◌, refl, Bool, some, [], ◌∷◌, bit_and, ◌==◌}
use old_boruixkernel.Mm.Mapping.{
  Memory, get_next_table, new_table, set_addr, map_page, map_page_inner,
}

abbrev has : ℕ → ℕ → Bool
has flags required = bit_and flags required == required

-- An empty first table at 0x1000, and five free frames.
abbrev fresh : Memory
fresh = record {
  entries = λ t i. 0;
  counts = some (16, λ i. 0);
  free = 0x2000 ∷ 0x3000 ∷ 0x4000 ∷ 0x5000 ∷ 0x6000 ∷ [];
  freed = [];
  rmap = record {
    frames = [];
    stats = record { adds = 0; removes = 0; lookups = 0; mig_read = 0; mig_write = 0 };
  };
}

-- The entry of a mapped page.
mapped : (map_page has 0x1000 0x7000 0x8000 4 fresh).0.entries 0x4000 7 ≡ 0x8005
unfolding map_page map_page_inner get_next_table new_table set_addr
mapped = refl

-- Every table is counted to hold two entries.
abbrev busy : Memory
busy = record fresh { entries = λ t i. 0x8005; counts = some (16, λ i. 2) }
