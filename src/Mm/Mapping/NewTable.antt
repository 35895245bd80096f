-- ===== src/Mm/Mapping/NewTable.antt =====
-- What the creation of a table does to the entries and the counts.
use old_boruixkernel.Common.{
  ℕ, ◌+◌, ◌/◌, ◌%◌, ◌^◌, ◌<◌, ◌≡◌, ◌≢◌, refl, Bool, true, false, some, List, ◌∷◌, ltb, ◌==◌, bit_or,
  arith,
}
use old_boruixkernel.Mm.Paging.{present, writable, user_accessible}
use old_boruixkernel.Mm.Mapping.{
  Memory, inc_table_count, table_count, set_addr, new_table, get_next_table, done,
}

-- Where the entry is not present and a frame is free, `get_next_table` makes an empty table there and
-- sets the entry. It raises the count of the new table, which has no entry, and not that of the table
-- whose entry it set.
pub get_next_table_counts :
    (has : ℕ → ℕ → Bool) (table index phys : ℕ) (free : List ℕ) (len : ℕ) (counts : ℕ → ℕ)
    (m : Memory)
    → has (m.entries table index) present ≡ false
    → m.free ≡ phys ∷ free
    → m.counts ≡ some (len, counts)
    → phys ≢ 0
    → phys % 4096 ≡ 0
    → phys / 4096 < len
    → table / 4096 < len
    → table / 4096 ≢ phys / 4096
    → let (m', r) = get_next_table has table index m in
      (r ≡ done phys)
      × (m'.entries table index ≡ bit_or phys (bit_or (bit_or present writable) user_accessible))
      × ((i : ℕ) → m'.entries phys i ≡ 0)
      × (table_count phys m'.counts ≡ some ((counts (phys / 4096) + 1) % 2 ^ 16))
      × (table_count table m'.counts ≡ some (counts (table / 4096)))
unfolding get_next_table new_table set_addr inc_table_count table_count
get_next_table_counts has table index phys free len counts m absent f c nonzero aligned in_range
      table_in_range apart =
    let real : (phys == 0) ≡ false = ground arith in
    let on_page : (phys % 4096 == 0) ≡ true = ground arith in
    let below : ltb (phys / 4096) len ≡ true = ground arith in
    let table_below : ltb (table / 4096) len ≡ true = ground arith in
    rw (absent, f, real)
      (rw (set_addr, on_page)
        (rw c (
          refl,
          ground arith,
          (λ i. ground arith),
          (rw (inc_table_count, below) (rw (table_count, below) (ground arith))),
          (rw (inc_table_count, below) (rw (table_count, table_below) (ground arith))),
        )))
