-- ===== src/Mm/Vma/Range.antt =====
-- `MemorySet::check_range` of mm/src/memory_set/address_space.rs, over the tree of the set.
-- `permits` stands for `|flags| flags.contains(required)`, the test that the `bitflags` crate
-- generates; nothing is assumed of it. The loop takes fuel, one unit for each area that it looks at.
use old_boruixkernel.Common.{
  ℕ, zero, suc, ◌+◌, Bool, true, false, Option, none, some, ltb, leb, ◌==◌, if◌then◌else◌, min,
  word_max,
}
use old_boruixkernel.Mm.Vma.Area.{MemoryArea}
use old_boruixkernel.Mm.Vma.{Tree}
use old_boruixkernel.Mm.Vma.Lookup.{find_containing, find_next}

-- `while cur < end`. After an area that does not reach `end` the next one is looked up.
unfoldable pub check_loop : ℕ → (ℕ → Bool) → Tree → ℕ → ℕ → Option MemoryArea → Option Bool
check_loop zero permits root cur end current = none
check_loop (suc fuel) permits root cur end none = some (if ltb cur end then false else true)
check_loop (suc fuel) permits root cur end (some area) =
    let next = min end area.end in
    let rest =
      check_loop fuel permits root next end
        (if ltb next end then find_next root next else some area) in
    if ltb cur end
    then if ltb cur area.start then some false else if permits area.flags then rest else some false
    else some true

abbrev pub or_next : Tree → ℕ → Option MemoryArea → Option MemoryArea
or_next root cur none = find_next root cur
or_next root cur (some area) = some area

unfoldable pub check_range : ℕ → (ℕ → Bool) → Tree → ℕ → ℕ → Option Bool
unfolding check_loop
check_range fuel permits root addr size =
    if size == 0
    then some true
    else if leb (addr + size) word_max
    then check_loop fuel permits root addr (addr + size)
        (or_next root addr (find_containing root addr))
    else some false
