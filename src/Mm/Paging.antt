-- ===== src/Mm/Paging.antt =====
-- Walks through the page tables: `translate` and `check_range_mapped` of
-- mm/src/memory_set/address_space.rs and `translate` of mm/src/mapper.rs. The tables are a function
-- from the virtual address of a table, which is its physical address and `PHYS_OFFSET`, and an index
-- to an entry. `has` stands for `|entry, required| entry.flags().contains(required)`, which the
-- `bitflags` crate generates, on entries and on the flags of areas; nothing is assumed of it.
pub mod Pages
pub mod Backed
mod Examples
use old_boruixkernel.Common.{
  ℕ, zero, suc, ◌+◌, ◌-◌, ◌*◌, ◌/◌, ◌%◌, ◌^◌, Bool, true, false, Option, none, some, leb, ◌==◌,
  ◌&&◌, if◌then◌else◌, bit_and, word_max,
}
use old_boruixkernel.Mm.Vma.{Tree}
use old_boruixkernel.Mm.Vma.Range.{check_range}

-- `VirtAddr::p4_index` to `VirtAddr::p1_index`.
abbrev pub p4_index : ℕ → ℕ
p4_index a = (a / 2 ^ 39) % 512

abbrev pub p3_index : ℕ → ℕ
p3_index a = (a / 2 ^ 30) % 512

abbrev pub p2_index : ℕ → ℕ
p2_index a = (a / 2 ^ 21) % 512

abbrev pub p1_index : ℕ → ℕ
p1_index a = (a / 2 ^ 12) % 512

-- `align_down(4096)`, which clears the low 12 bits.
abbrev pub align_down : ℕ → ℕ
align_down a = a / 4096 * 4096

abbrev pub present : ℕ
present = 1

abbrev pub writable : ℕ
writable = 2

abbrev pub user_accessible : ℕ
user_accessible = 4

abbrev pub huge_page : ℕ
huge_page = 128

-- `PageTableEntry::addr`.
abbrev pub entry_addr : ℕ → ℕ
entry_addr e = bit_and e 0x000f_ffff_ffff_f000

-- The state that a walk reads: the tables, `PHYS_OFFSET`, and the address of the first table.
pub record Tables : Type 0 where
  pub read : ℕ → ℕ → ℕ
  pub phys_offset : Option ℕ
  pub p4_phys : ℕ

-- The last level of `translate`.
abbrev pub translate_p1 : (ℕ → ℕ → Bool) → Tables → ℕ → ℕ → ℕ → Option ℕ
translate_p1 has t offset addr p2_entry =
    let p1_entry = t.read (entry_addr p2_entry + offset) (p1_index addr) in
    if has p1_entry present then some (entry_addr p1_entry + bit_and addr 0xfff) else none

abbrev pub translate_p2 : (ℕ → ℕ → Bool) → Tables → ℕ → ℕ → ℕ → Option ℕ
translate_p2 has t offset addr p3_entry =
    let p2_entry = t.read (entry_addr p3_entry + offset) (p2_index addr) in
    if has p2_entry present
    then if has p2_entry huge_page
      then some (entry_addr p2_entry + bit_and addr 0x1f_ffff)
      else translate_p1 has t offset addr p2_entry
    else none

abbrev pub translate_p3 : (ℕ → ℕ → Bool) → Tables → ℕ → ℕ → ℕ → Option ℕ
translate_p3 has t offset addr p4_entry =
    let p3_entry = t.read (entry_addr p4_entry + offset) (p3_index addr) in
    if has p3_entry present
    then if has p3_entry huge_page
      then some (entry_addr p3_entry + bit_and addr 0x3fff_ffff)
      else translate_p2 has t offset addr p3_entry
    else none

-- `OffsetMapper::translate`, from the first table at `p4`.
unfoldable pub walk : (ℕ → ℕ → Bool) → Tables → ℕ → ℕ → ℕ → Option ℕ
walk has t offset p4 addr =
    let p4_entry = t.read p4 (p4_index addr) in
    if has p4_entry present then translate_p3 has t offset addr p4_entry else none

-- `MemorySet::translate`.
unfoldable pub translate : (ℕ → ℕ → Bool) → Tables → ℕ → Option ℕ
unfolding walk
translate has t addr = elim t.phys_offset [
  | none ↦ none
  | some offset ↦ walk has t offset (t.p4_phys + offset) addr
]

abbrev pub entry_allows : (ℕ → ℕ → Bool) → ℕ → ℕ → Bool
entry_allows has e required = has e present && has e required

abbrev pub access_p2 : (ℕ → ℕ → Bool) → Tables → ℕ → ℕ → ℕ → ℕ → ℕ → Bool
access_p2 has t offset page hierarchy leaf_required p3_entry =
    let p2_entry = t.read (entry_addr p3_entry + offset) (p2_index page) in
    let p1_entry = t.read (entry_addr p2_entry + offset) (p1_index page) in
    if entry_allows has p2_entry hierarchy
    then if has p2_entry huge_page
      then entry_allows has p2_entry leaf_required
      else entry_allows has p1_entry leaf_required
    else false

abbrev pub access_p3 : (ℕ → ℕ → Bool) → Tables → ℕ → ℕ → ℕ → ℕ → ℕ → Bool
access_p3 has t offset page hierarchy leaf_required p4_entry =
    let p3_entry = t.read (entry_addr p4_entry + offset) (p3_index page) in
    if entry_allows has p3_entry hierarchy
    then if has p3_entry huge_page
      then entry_allows has p3_entry leaf_required
      else access_p2 has t offset page hierarchy leaf_required p3_entry
    else false

unfoldable pub page_access_ok : (ℕ → ℕ → Bool) → Tables → ℕ → ℕ → ℕ → Bool
page_access_ok has t page hierarchy leaf_required = elim t.phys_offset [
  | none ↦ false
  | some offset ↦
      let p4_entry = t.read (t.p4_phys + offset) (p4_index page) in
      if entry_allows has p4_entry hierarchy
      then access_p3 has t offset page hierarchy leaf_required p4_entry
      else false
]

-- The `loop` of `check_range_mapped` over the pages, on fuel; `ok` is the test of a page, and `none`
-- means that the fuel ran out.
unfoldable pub page_loop : ℕ → (ℕ → Bool) → ℕ → ℕ → Option Bool
page_loop zero ok page last = none
page_loop (suc fuel) ok page last =
    let rest = page_loop fuel ok (page + 4096) last in
    if ok page then if page == last then some true else rest else some false

-- What `check_range_mapped` does where `check_range` has answered.
unfoldable pub check_pages : ℕ → (ℕ → ℕ → Bool) → Tables → ℕ → ℕ → ℕ → Bool → Option Bool
unfolding page_loop
check_pages fuel has t addr size required false = some false
check_pages fuel has t addr size required true =
    let hierarchy = bit_and required (user_accessible + writable) in
    if size == 0
    then some true
    else if leb (addr + size) word_max
    then page_loop fuel (λ page. page_access_ok has t page hierarchy required) (align_down addr)
        (align_down (addr + size - 1))
    else some false

unfoldable pub check_range_mapped : ℕ → (ℕ → ℕ → Bool) → Tree → Tables → ℕ → ℕ → ℕ → Option Bool
unfolding check_pages
check_range_mapped fuel has root t addr size required =
    elim (check_range fuel (λ flags. has flags required) root addr size) [
      | none ↦ none
      | some b ↦ check_pages fuel has t addr size required b
    ]
