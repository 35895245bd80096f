-- ===== src/Task/Fd/Examples.antt =====
-- The theorems on the descriptor table at concrete tables.
use old_boruixkernel.Common.{
  ◌+◌, ◌≡◌, refl, true, false, none, some, [], ◌∷◌, arith, ◌==◌, if◌then◌else◌,
}
use old_boruixkernel.Task.Fd.{
  FdTable, ok, err, invalid, Refs, get_fd, flag_at, alloc_fd, dup, close_fd, release_entry,
}
use old_boruixkernel.Task.Fd.Slots.{IsValid, close_fd_lem}
use old_boruixkernel.Task.Fd.Alloc.{Allocated, alloc_fd-Allocated}
use old_boruixkernel.Task.Fd.Counts.{IsCounted, count, close_fd-IsCounted, dup_overcounts}

-- Handle 3 is open as 0 and 2, and handle 5 as 3, which is closed on exec.
abbrev table : FdTable
table = record {
  entries = some 3 ∷ none ∷ some 3 ∷ some 5 ∷ [];
  cloexec = false ∷ false ∷ false ∷ true ∷ [];
}

abbrev refs : Refs
refs h = if h == 3 then 2 else if h == 5 then 1 else 0

refs-IsCounted : IsCounted refs table
unfolding count
refs-IsCounted = record { exact = λ h. ground arith; small = λ h. ground arith }

alloc_fd-Allocated_example : Allocated 0 9 false table (alloc_fd 6 0 9 false table)
alloc_fd-Allocated_example =
    alloc_fd-Allocated 6 0 9 false table refl (omega arith) (omega arith) (omega arith)

open_2 : get_fd table 2 ≡ some 3
unfolding get_fd
open_2 = refl

close_fd_lem_example :
    let (refs', t', r) = close_fd 3 refs table in
    IsValid t'
    × (get_fd t' 0 ≡ get_fd table 0)
    × (flag_at t' 0 ≡ false)
    × (refs' ≡ release_entry (get_fd table 3) refs)
    × (r ≡ ok tt)
close_fd_lem_example = close_fd_lem 3 refs table 0 refl

close_fd-IsCounted_example : IsCounted (close_fd 2 refs table).0 (close_fd 2 refs table).1
close_fd-IsCounted_example = close_fd-IsCounted 2 refs table refs-IsCounted

three_twice : count 3 table.entries ≡ 2
unfolding count
three_twice = refl

dup_overcounts_example :
    (refs' : Refs) × (dup 1 2 1_000_001 false refs table ≡ some (refs', table, err invalid))
    × (refs' 3 ≡ count 3 table.entries + 1)
dup_overcounts_example =
    dup_overcounts 1 2 1_000_001 3 false refs table refs-IsCounted open_2 (omega arith)
