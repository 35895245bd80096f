-- ===== src/Syscall/UserPtr/Examples.antt =====
-- The theorems on the checks of user pointers at a memory of one area.
use old_boruixkernel.Common.{
  ℕ, Bool, true, false, Option, some, List, [], arith, bit_and, ◌==◌, if◌then◌else◌,
}
use old_boruixkernel.Mm.Vma.Area.{MemoryArea, anonymous}
use old_boruixkernel.Mm.Vma.{leaf, insert_node, splitmix64}
use old_boruixkernel.Mm.Vma.Shape.{insert_node-IsSound}
use old_boruixkernel.Syscall.UserPtr.{Space, validate_user_range, read_cstring_from_user}
use old_boruixkernel.Syscall.UserPtr.Reach.{
  IsSpace, Reachable, Answers, Reads, validate_user_range-Reachable, read_cstring_from_user-Reads,
}

abbrev has : ℕ → ℕ → Bool
has flags required = bit_and flags required == required

abbrev area : MemoryArea
area = record { start = 0x1000; end = 0x4000; flags = 7; backing = anonymous }

-- Every entry is present, writable and for the user, and leads back to the first table.
abbrev space : Option Space
space = some (record {
  root = insert_node leaf area;
  tables = record { read = λ table i. 0x5007; phys_offset = some 0; p4_phys = 0x5000 };
})

-- The bytes of a string of three letters at the address 0x1ffe, over the end of a page.
abbrev byte : ℕ → ℕ
byte a = if a == 0x2001 then 0 else 65

memory-IsSpace : IsSpace 9 space
unfolding insert_node splitmix64
memory-IsSpace = (insert_node-IsSound leaf area tt, omega arith, omega arith)

validate_user_range-Reachable_example :
    Answers has space 0x1ffe 0x100 (validate_user_range 9 has space 0x1ffe 0x100 true)
validate_user_range-Reachable_example =
    validate_user_range-Reachable 9 has space 0x1ffe 0x100 true memory-IsSpace (omega arith)

abbrev all_valid : List ℕ → Option (List ℕ)
all_valid bytes = some bytes

read_cstring_from_user-Reads_example :
    Reads all_valid []
      (λ a. validate_user_range 9 has space a 1 false)
      (Reachable has space)
      byte
      0x1ffe
      16
      (read_cstring_from_user all_valid [] 9 has space byte 0x1ffe 16)
read_cstring_from_user-Reads_example =
    read_cstring_from_user-Reads all_valid [] 9 has space byte 0x1ffe 16 memory-IsSpace
      (omega arith)
