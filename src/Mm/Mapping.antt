-- ===== src/Mm/Mapping.antt =====
-- `OffsetMapper::map_page_inner` of mm/src/mapper.rs and the counts of entries of mm/src/page_table.rs.
-- A table is named by its physical address. The frames that `allocate_frame` will hand out and those given
-- to `deallocate_frame` are lists,
-- and `has` stands for `|entry, flags| entry.flags().contains(flags)` as in the walks. The flushes leave
-- no trace.
pub mod NewTable
pub mod Unmap
mod Examples
use old_boruixkernel.Common.{
  ℕ, zero, suc, ◌+◌, ◌/◌, ◌%◌, ◌^◌, Bool, true, false, Option, none, some, List, [], ◌∷◌, ltb, ◌==◌,
  ◌&&◌, if◌then◌else◌, bit_or,
}
use old_boruixkernel.Mm.Rmap.{Rmap, rmap_add, migration_read_lock}
use old_boruixkernel.Mm.Paging.{
  p4_index, p3_index, p2_index, p1_index, present, writable, user_accessible, huge_page, entry_addr,
}

-- `MapError`, less what no function returns here.
pub data MapError : Type 0 where
  frame_allocation_failed page_already_mapped parent_entry_huge_page huge_page_not_aligned
        page_not_mapped invalid_access :
      MapError

-- The side table of counts, if it is there: its length, and the counts by frame number.
abbrev pub Counts : Type 0
Counts = Option (ℕ × (ℕ → ℕ))

pub record Memory : Type 0 where
  pub entries : ℕ → ℕ → ℕ
  pub counts : Counts
  pub free : List ℕ
  pub freed : List ℕ
  pub rmap : Rmap

unfoldable pub inc_table_count : ℕ → Counts → Counts
inc_table_count phys none = none
inc_table_count phys (some (len, counts)) =
    if ltb (phys / 4096) len
    then some (len, λ i. if i == phys / 4096 then (counts i + 1) % 2 ^ 16 else counts i)
    else some (len, counts)

unfoldable pub table_count : ℕ → Counts → Option ℕ
table_count phys none = none
table_count phys (some (len, counts)) =
    if ltb (phys / 4096) len then some (counts (phys / 4096)) else none

-- A call ends with a result, an error or a panic.
pub data Ending {ℓ} (A : Type ℓ) : Type ℓ where
  done : A → Ending A
  failed : MapError → Ending A
  panicked : Ending A

-- `entry.set_addr`, which asserts that the address is aligned.
unfoldable pub set_addr : ℕ → ℕ → ℕ → ℕ → Memory → Memory × Ending (Unit {0})
set_addr table index addr flags m =
    if addr % 4096 == 0
    then (
      record m {
        entries = λ t i. if (t == table) && (i == index) then bit_or addr flags else m.entries t i;
      },
      done tt,
    )
    else (m, panicked)

abbrev pub zero_table : ℕ → Memory → Memory
zero_table table m = record m { entries = λ t i. if t == table then 0 else m.entries t i }

abbrev pub count_entry : ℕ → Memory → Memory
count_entry table m = record m { counts = inc_table_count table m.counts }

abbrev pub then_do {ℓ ℓ'} :
    {A : Type ℓ} {B : Type ℓ'}
    → Memory × Ending A
    → (A → Memory → Memory × Ending B)
    → Memory × Ending B
then_do (m, done a) f = f a m
then_do (m, failed e) f = (m, failed e)
then_do (m, panicked) f = (m, panicked)

-- The branch of `get_next_table_by_index` that makes a table. The variable `table` is the new table
-- by the time that `table_phys(table)` is counted.
unfoldable pub new_table : ℕ → ℕ → List ℕ → Memory → Memory × Ending ℕ
unfolding set_addr
new_table table index [] m = (m, failed frame_allocation_failed)
new_table table index (phys ∷ free) m =
    if phys == 0
    then (record m { free = free }, panicked)
    else then_do
        (set_addr table index phys (bit_or (bit_or present writable) user_accessible)
          (zero_table phys (record m { free = free })))
        (λ _ m'. (count_entry phys m', done phys))

unfoldable pub get_next_table : (ℕ → ℕ → Bool) → ℕ → ℕ → Memory → Memory × Ending ℕ
unfolding new_table
get_next_table has table index m =
    let entry = m.entries table index in
    if has entry present
    then if has entry huge_page
      then (m, failed parent_entry_huge_page)
      else (m, done (entry_addr entry))
    else new_table table index m.free m

-- The end of each branch: the entry is set if it is unused, and counted.
abbrev pub set_counted : ℕ → ℕ → ℕ → ℕ → Memory → Memory × Ending (Unit {0})
set_counted table index frame flags m =
    then_do (set_addr table index frame flags m) (λ _ m'. (count_entry table m', done tt))

abbrev pub map_p1 : (ℕ → ℕ → Bool) → ℕ → ℕ → ℕ → ℕ → ℕ → Memory → Memory × Ending (Unit {0})
map_p1 has p4_phys page frame flags p1 m =
    if m.entries p1 (p1_index page) == 0
    then then_do (set_counted p1 (p1_index page) frame (bit_or flags present) m) (λ _ m'. (
      if has flags user_accessible
          then record m' { rmap = rmap_add frame p4_phys page flags m'.rmap }
          else m',
      done tt,
    ))
    else (m, failed page_already_mapped)

abbrev pub map_p2 : (ℕ → ℕ → Bool) → ℕ → ℕ → ℕ → ℕ → ℕ → Memory → Memory × Ending (Unit {0})
map_p2 has p4_phys page frame flags p2 m =
    if has flags huge_page
    then if m.entries p2 (p2_index page) == 0
      then if (page % 0x200_000 == 0) && (frame % 0x200_000 == 0)
        then set_counted p2 (p2_index page) frame (bit_or (bit_or flags present) huge_page) m
        else (m, failed huge_page_not_aligned)
      else (m, failed page_already_mapped)
    else then_do (get_next_table has p2 (p2_index page) m) (map_p1 has p4_phys page frame flags)

abbrev pub map_p3 : (ℕ → ℕ → Bool) → ℕ → ℕ → ℕ → ℕ → ℕ → Memory → Memory × Ending (Unit {0})
map_p3 has p4_phys page frame flags p3 m =
    if has flags huge_page && ((page % 0x4000_0000 == 0) && (frame % 0x4000_0000 == 0))
    then if m.entries p3 (p3_index page) == 0
      then set_counted p3 (p3_index page) frame (bit_or (bit_or flags present) huge_page) m
      else (m, failed page_already_mapped)
    else then_do (get_next_table has p3 (p3_index page) m) (map_p2 has p4_phys page frame flags)

unfoldable pub map_page_inner : (ℕ → ℕ → Bool) → ℕ → ℕ → ℕ → ℕ → Memory → Memory × Ending (Unit {0})
map_page_inner has p4_phys page frame flags m =
    then_do (get_next_table has p4_phys (p4_index page) m) (map_p3 has p4_phys page frame flags)

-- `map_page` and `map_page_noflush`.
unfoldable pub map_page : (ℕ → ℕ → Bool) → ℕ → ℕ → ℕ → ℕ → Memory → Memory × Ending (Unit {0})
unfolding map_page_inner
map_page has p4_phys page frame flags m =
    map_page_inner has p4_phys page frame flags (record m { rmap = migration_read_lock m.rmap })
