-- ===== src/Mm/Mapping/Unmap.antt =====
-- `OffsetMapper::unmap_page_inner` of mm/src/mapper.rs.
pub mod Kept
use old_boruixkernel.Common.{
  ℕ, zero, suc, ◌+◌, ◌-◌, ◌/◌, ◌%◌, ◌^◌, Bool, true, false, Option, none, some, List, [], ◌∷◌, ltb,
  ◌==◌, ◌&&◌, if◌then◌else◌,
}
use old_boruixkernel.Mm.Rmap.{rmap_remove, migration_read_lock}
use old_boruixkernel.Mm.Paging.{
  p4_index, p3_index, p2_index, p1_index, present, user_accessible, huge_page, entry_addr,
}
use old_boruixkernel.Mm.Mapping.{Memory, Counts, Ending, done, failed, page_not_mapped, table_count}

unfoldable pub dec_table_count : ℕ → Counts → Counts
dec_table_count phys none = none
dec_table_count phys (some (len, counts)) =
    if ltb (phys / 4096) len
    then some (len, λ i. if i == phys / 4096 then (counts i + 2 ^ 16 - 1) % 2 ^ 16 else counts i)
    else some (len, counts)

-- `PageTable::used_count`, over the first `n` entries.
unfoldable pub used_count : (ℕ → ℕ → Bool) → (ℕ → ℕ) → ℕ → ℕ
used_count has entries zero = 0
used_count has entries (suc n) =
    (if has (entries n) present then 1 else 0) + used_count has entries n

unfoldable pub table_empty : (ℕ → ℕ → Bool) → ℕ → Memory → Bool
unfolding used_count table_count
table_empty has table m = elim (table_count table m.counts) [
  | none ↦ used_count has (m.entries table) 512 == 0
  | some n ↦ n == 0
]

-- `set_unused` and the count that goes with it.
abbrev pub clear_entry : ℕ → ℕ → Memory → Memory
clear_entry table index m = record m {
  entries = λ t i. if (t == table) && (i == index) then 0 else m.entries t i;
  counts = dec_table_count table m.counts;
}

-- The frame of an empty table goes back, and so does its entry in the table above.
abbrev pub free_table : (ℕ → ℕ → Bool) → ℕ → ℕ → ℕ → Memory → Memory × Bool
free_table has table parent index m =
    if table_empty has table m
    then (
      clear_entry parent index (record m { freed = entry_addr (m.entries parent index) ∷ m.freed }),
      true,
    )
    else (m, false)

abbrev pub then_free : Memory × Bool → (Memory → Memory) → Memory
then_free (m, true) f = f m
then_free (m, false) f = m

abbrev pub free_p3 : (ℕ → ℕ → Bool) → ℕ → ℕ → ℕ → Memory → Memory
free_p3 has p4 page p3 m = (free_table has p3 p4 (p4_index page) m).0

abbrev pub free_p2 : (ℕ → ℕ → Bool) → ℕ → ℕ → ℕ → ℕ → Memory → Memory
free_p2 has p4 page p3 p2 m =
    then_free (free_table has p2 p3 (p3_index page) m) (free_p3 has p4 page p3)

abbrev pub free_p1 : (ℕ → ℕ → Bool) → ℕ → ℕ → ℕ → ℕ → ℕ → Memory → Memory
free_p1 has p4 page p3 p2 p1 m =
    then_free (free_table has p1 p2 (p2_index page) m) (free_p2 has p4 page p3 p2)

unfoldable pub unmap_p1 : (ℕ → ℕ → Bool) → ℕ → ℕ → ℕ → ℕ → ℕ → Memory → Memory × Ending ℕ
unfolding table_empty
unmap_p1 has p4 page p3 p2 p1 m =
    let entry = m.entries p1 (p1_index page) in
    if has entry present
    then (let m' = clear_entry p1 (p1_index page) m in
        (
          free_p1 has p4 page p3 p2 p1 (
              if has entry user_accessible
              then record m' { rmap = rmap_remove (entry_addr entry) p4 page m'.rmap }
              else m'),
          done (entry_addr entry),
        ))
    else (m, failed page_not_mapped)

unfoldable pub unmap_p2 : (ℕ → ℕ → Bool) → ℕ → ℕ → ℕ → ℕ → Memory → Memory × Ending ℕ
unfolding table_empty unmap_p1
unmap_p2 has p4 page p3 p2 m =
    let entry = m.entries p2 (p2_index page) in
    if has entry present
    then if has entry huge_page
      then (free_p2 has p4 page p3 p2 (clear_entry p2 (p2_index page) m), done (entry_addr entry))
      else unmap_p1 has p4 page p3 p2 (entry_addr entry) m
    else (m, failed page_not_mapped)

unfoldable pub unmap_p3 : (ℕ → ℕ → Bool) → ℕ → ℕ → ℕ → Memory → Memory × Ending ℕ
unfolding table_empty unmap_p2
unmap_p3 has p4 page p3 m =
    let entry = m.entries p3 (p3_index page) in
    if has entry present
    then if has entry huge_page
      then (free_p3 has p4 page p3 (clear_entry p3 (p3_index page) m), done (entry_addr entry))
      else unmap_p2 has p4 page p3 (entry_addr entry) m
    else (m, failed page_not_mapped)

unfoldable pub unmap_page_inner : (ℕ → ℕ → Bool) → ℕ → ℕ → Memory → Memory × Ending ℕ
unfolding unmap_p3
unmap_page_inner has p4 page m =
    let entry = m.entries p4 (p4_index page) in
    if has entry present
    then unmap_p3 has p4 page (entry_addr entry) m
    else (m, failed page_not_mapped)

-- `unmap_page` and `unmap_page_noflush`.
unfoldable pub unmap_page : (ℕ → ℕ → Bool) → ℕ → ℕ → Memory → Memory × Ending ℕ
unfolding unmap_page_inner
unmap_page has p4 page m =
    unmap_page_inner has p4 page (record m { rmap = migration_read_lock m.rmap })
