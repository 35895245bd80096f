-- ===== src/Mm/Space.antt =====
-- The memory of a task: `MemorySet` of mm/src/memory_set/address_space.rs with its page fault handler,
-- mm/src/memory_set/fault.rs. `has` stands for `|flags, required| flags.contains(required)`. The bytes of
-- a frame are found at its address and their offset; those of a table are its entries, and `put_memory`
-- writes them where the tables change. `PHYS_OFFSET` is set. `insert_area` takes the fuel,
-- and `none` means that it ran out. A frame that is given back is added to `freed`.
pub mod Areas
pub mod Fork
pub mod Faults
pub mod Growth
pub mod Handler
mod Examples
use old_boruixkernel.Common.{
  ℕ, zero, suc, ◌+◌, ◌-◌, ◌*◌, ◌/◌, ◌%◌, ◌^◌, Bool, true, false, Option, none, some, List, [], ◌∷◌,
  ◌++◌, ltb, leb, ◌==◌, ◌&&◌, ◌||◌, not, if◌then◌else◌, bit_or, get_or, length, take,
}
use old_boruixkernel.Mm.Vma.Area.{MemoryArea, new as new_area}
use old_boruixkernel.Mm.Vma.Insert.{Vma, Outcome, ok, insert_area}
use old_boruixkernel.Mm.Vma.Lookup.{find_containing}
use old_boruixkernel.Mm.Paging.{align_down, present, writable, user_accessible}
use old_boruixkernel.Mm.Mapping.{
  Memory, MapError, frame_allocation_failed, invalid_access, Ending, done, failed, panicked,
  map_page,
}
use old_boruixkernel.Mm.Mapping.Unmap.{unmap_page}

pub record MemorySet : Type 0 where
  pub p4_phys : ℕ
  pub vma : Vma
  pub stack_bottom : Option ℕ
  pub stack_top : Option ℕ
  pub stack_limit : Option ℕ

-- A set, the memory, and the bytes of the frames.
pub record Space : Type 0 where
  pub set : MemorySet
  pub memory : Memory
  pub bytes : ℕ → ℕ → ℕ

-- The bits of `PageFaultErrorCode` that the handler reads.
pub record FaultCode : Type 0 where
  pub protection_violation : Bool
  pub caused_by_write : Bool
  pub user_mode : Bool
  pub instruction_fetch : Bool

-- Whether a number is in a list.
unfoldable pub is_in : ℕ → List ℕ → Bool
is_in x [] = false
is_in x (y ∷ ys) = if x == y then true else is_in x ys

-- Bit 63.
abbrev pub no_execute : ℕ
no_execute = 2 ^ 63

-- The frames that have left the list of the free ones.
abbrev pub taken : Memory → Memory → List ℕ
taken before after = take (length before.free - length after.free) before.free

-- Whether a byte belongs to a table: its frame has become one, or its entry has been written.
abbrev pub in_table : Memory → Memory → ℕ → ℕ → Bool
in_table before after f i =
    ltb i 4096
    && (is_in f (taken before after) || not (after.entries f (i / 8) == before.entries f (i / 8)))

-- Byte `i` of a table: an entry has 8, the lowest first.
abbrev pub entry_byte : Memory → ℕ → ℕ → ℕ
entry_byte m f i = (m.entries f (i / 8) / 256 ^ (i % 8)) % 256

-- The memory after calls that take frames for tables and write entries, with the bytes of those.
abbrev pub put_memory : Memory → Space → Space
put_memory m s = record s {
  memory = m;
  bytes = λ f i. if in_table s.memory m f i then entry_byte m f i else s.bytes f i;
}

abbrev pub with_memory : Space → Memory × Ending (Unit {0}) → Space × Ending (Unit {0})
with_memory s (m, r) = (put_memory m s, r)

-- `write_bytes(0, 4096)`.
abbrev pub zero_frame : ℕ → Space → Space
zero_frame phys s = record s { bytes = λ f i. if (f == phys) && ltb i 4096 then 0 else s.bytes f i }

-- A new frame, zeroed and mapped; a frame that cannot be mapped is not given back.
unfoldable pub map_zeroed : (ℕ → ℕ → Bool) → ℕ → ℕ → Space → Space × Ending (Unit {0})
map_zeroed has page flags s = elim s.memory.free [
  | [] ↦ (s, failed frame_allocation_failed)
  | phys ∷ free ↦
      let s1 = zero_frame phys (record s { memory = record (s.memory) { free = free } }) in
      with_memory s1 (map_page has s1.set.p4_phys page phys flags s1.memory)
]

-- `deallocate_frame` of the frame that contains an address.
abbrev pub give_frame : ℕ → Memory → Memory
give_frame phys m = record m { freed = align_down phys ∷ m.freed }

-- `if let Ok(p) = mapper.unmap_page(page) { deallocate_frame(…) }`.
abbrev pub free_unmapped : Memory × Ending ℕ → Memory × Ending (Unit {0})
free_unmapped (m, done p) = (give_frame p m, done tt)
free_unmapped (m, failed e) = (m, done tt)
free_unmapped (m, panicked) = (m, panicked)

unfoldable pub unmap_and_free : (ℕ → ℕ → Bool) → ℕ → ℕ → Memory → Memory × Ending (Unit {0})
unmap_and_free has p4 page m = free_unmapped (unmap_page has p4 page m)

-- The stack of the set, where all three bounds are known: bottom, top and limit.
abbrev pub stack_of : MemorySet → Option (ℕ × ℕ × ℕ)
stack_of set = elim set.stack_bottom [
  | none ↦ none
  | some bottom ↦ elim set.stack_top [
    | none ↦ none
    | some top ↦ elim set.stack_limit [ none ↦ none | some limit ↦ some (bottom, top, limit) ]
  ]
]

-- The end of `try_grow_stack`, from `insert_area` on.
abbrev pub after_insert :
    (ℕ → ℕ → Bool) → ℕ → Space → Option (Vma × Outcome) → Option (Space × Ending Bool)
after_insert has page s none = none
after_insert has page s (some (vma, ok)) =
    some (record s { set = record (s.set) { vma = vma; stack_bottom = some page } }, done true)
after_insert has page s (some (vma, _)) =
    let (m, r) = unmap_and_free has s.set.p4_phys page s.memory in
    some (
      put_memory m (record s { set = record (s.set) { vma = vma } }),
      elim r [ panicked ↦ panicked | _ ↦ failed invalid_access ],
    )

abbrev pub stack_flags : ℕ
stack_flags = bit_or (bit_or present writable) user_accessible

abbrev pub grow_mapped :
    ℕ → (ℕ → ℕ → Bool) → ℕ → ℕ → Space × Ending (Unit {0}) → Option (Space × Ending Bool)
grow_mapped fuel has page bottom (s, done _) =
    after_insert has page s (insert_area fuel s.set.vma (new_area page bottom stack_flags))
grow_mapped fuel has page bottom (s, failed e) = some (s, failed e)
grow_mapped fuel has page bottom (s, panicked) = some (s, panicked)

-- The growth itself, after the tests.
unfoldable pub grow_stack : ℕ → (ℕ → ℕ → Bool) → ℕ → ℕ → Space → Option (Space × Ending Bool)
unfolding map_zeroed
grow_stack fuel has page bottom s =
    grow_mapped fuel has page bottom (map_zeroed has page stack_flags s)

-- Whether an address lies where the stack may grow.
abbrev pub may_grow : ℕ → ℕ × ℕ × ℕ → Bool
may_grow addr (bottom, top, limit) =
    if leb top addr || (ltb addr limit || leb bottom addr)
    then false
    else if ltb (align_down addr) limit
    then false
    else true

unfoldable pub try_grow_stack :
    ℕ → (ℕ → ℕ → Bool) → FaultCode → ℕ → Space → Option (Space × Ending Bool)
unfolding grow_stack
try_grow_stack fuel has code addr s =
    if code.user_mode
    then elim (stack_of s.set) [
      | none ↦ some (s, done false)
      | some stack ↦
          let grown = grow_stack fuel has (align_down addr) stack.0 s in
          if may_grow addr stack then grown else some (s, done false)
    ]
    else some (s, done false)

-- The three tests of an access against the flags of its area.
abbrev pub allows : (ℕ → ℕ → Bool) → FaultCode → ℕ → Bool
allows has code flags =
    if code.caused_by_write && not (has flags writable)
    then false
    else if code.user_mode && not (has flags user_accessible)
    then false
    else if code.instruction_fetch && has flags no_execute
    then false
    else true

abbrev pub fault_outside : Option (Space × Ending Bool) → Option (Space × Ending (Unit {0}))
fault_outside none = none
fault_outside (some (s, done true)) = some (s, done tt)
fault_outside (some (s, done false)) = some (s, failed invalid_access)
fault_outside (some (s, failed e)) = some (s, failed e)
fault_outside (some (s, panicked)) = some (s, panicked)

unfoldable pub handle_page_fault :
    ℕ → (ℕ → ℕ → Bool) → FaultCode → ℕ → Space → Option (Space × Ending (Unit {0}))
unfolding map_zeroed try_grow_stack
handle_page_fault fuel has code addr s =
    if code.protection_violation
    then some (s, failed invalid_access)
    else elim (find_containing s.set.vma.root addr) [
      | none ↦ fault_outside (try_grow_stack fuel has code addr s)
      | some area ↦
          if allows has code area.flags
          then some (map_zeroed has (align_down addr) (bit_or area.flags present) s)
          else some (s, failed invalid_access)
    ]
