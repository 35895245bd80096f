-- ===== src/Mm/Space/Areas.antt =====
-- `push`, `map_user_range`, `push_lazy`, `new_bare`, `fork` and `drop` of
-- mm/src/memory_set/address_space.rs. The loops over the pages of an area take a unit for each page, and
-- the areas of a set in order are the `areas` of its tree. The flushes leave no trace.
use old_boruixkernel.Common.{
  ℕ, zero, suc, ◌+◌, ◌-◌, ◌/◌, ◌%◌, ◌^◌, Bool, Option, none, some, List, [], ◌∷◌, ltb, leb, ◌==◌,
  ◌&&◌, if◌then◌else◌, get_or, length,
}
use old_boruixkernel.Mm.Vma.Area.{MemoryArea, new as new_area}
use old_boruixkernel.Mm.Vma.{areas}
use old_boruixkernel.Mm.Vma.Insert.{Vma, VmaStats, Outcome, ok, insert_area, new as new_vma}
use old_boruixkernel.Mm.Paging.{align_down, present, p4_index}
use old_boruixkernel.Mm.Mapping.{
  Memory, MapError, frame_allocation_failed, invalid_access, Ending, done, failed, panicked,
  map_page,
}
use old_boruixkernel.Mm.Mapping.Unmap.{unmap_page}
use old_boruixkernel.Mm.Space.{MemorySet, Space, put_memory, zero_frame, give_frame, unmap_and_free}

-- `(start_page..end_page).step_by(4096)` of an area: its first page, and the number of pages.
abbrev pub first_page : MemoryArea → ℕ
first_page area = align_down area.start

abbrev pub pages_of : MemoryArea → ℕ
pages_of area = (align_down (area.end + 4095) - first_page area + 4095) / 4096

-- The copy of the content of an area to the frame of one of its pages. The offset is a `u64`, which
-- wraps where the area starts inside its first page.
abbrev pub copy_content : Option (List ℕ) → ℕ → ℕ → ℕ → Space → Space
copy_content none start page phys s = s
copy_content (some content) start page phys s =
    let offset = (page + 2 ^ 64 - start) % 2 ^ 64 in
    if ltb offset (length content)
    then record s {
      bytes = λ f i.
          if (f == phys) && (ltb i 4096 && ltb (offset + i) (length content))
          then get_or content (offset + i) 0
          else s.bytes f i;
    }
    else s

abbrev pub rollback_step :
    ℕ → Memory × Ending ℕ → (Memory → Memory × Ending (Unit {0})) → Memory × Ending (Unit {0})
rollback_step phys (m, done _) rest = rest (give_frame phys m)
rollback_step phys (m, failed e) rest = rest m
rollback_step phys (m, panicked) rest = (m, panicked)

-- `rollback`, over the pages that have been mapped, the last first.
unfoldable pub rollback : (ℕ → ℕ → Bool) → ℕ → List (ℕ × ℕ) → Memory → Memory × Ending (Unit {0})
rollback has p4 [] m = (m, done tt)
rollback has p4 ((page, phys) ∷ mapped) m =
    rollback_step phys (unmap_page has p4 page m) (rollback has p4 mapped)

-- The error is returned once the pages are unmapped.
abbrev pub rolled_back : MapError → Space → Memory × Ending (Unit {0}) → Space × Ending (Unit {0})
rolled_back e s (m, panicked) = (put_memory m s, panicked)
rolled_back e s (m, _) = (put_memory m s, failed e)

-- What `push` does with a page, once `map_page_noflush` has answered.
abbrev pub pushed_page :
    (ℕ → ℕ → Bool)
    → Option (List ℕ)
    → ℕ
    → ℕ
    → ℕ
    → List (ℕ × ℕ)
    → Space
    → Memory × Ending (Unit {0})
    → (List (ℕ × ℕ) → Space → Space × Ending (Unit {0}))
    → Space × Ending (Unit {0})
pushed_page has content start page phys mapped s (m, done _) rest =
    rest ((page, phys) ∷ mapped)
      (copy_content content start page phys (zero_frame phys (put_memory m s)))
pushed_page has content start page phys mapped s (m, failed e) rest =
    rolled_back e s (rollback has s.set.p4_phys mapped m)
pushed_page has content start page phys mapped s (m, panicked) rest = (put_memory m s, panicked)

-- The loop of `push`; the pages that have been mapped are at hand for the rollback.
unfoldable pub push_pages :
    (ℕ → ℕ → Bool)
    → MemoryArea
    → Option (List ℕ)
    → ℕ
    → ℕ
    → List (ℕ × ℕ)
    → Space
    → Space × Ending (Unit {0})
unfolding rollback
push_pages has area content zero page mapped s = (s, done tt)
push_pages has area content (suc n) page mapped s = elim s.memory.free [
  | [] ↦ (s, failed frame_allocation_failed)
  | phys ∷ free ↦
      let popped = record s { memory = record (s.memory) { free = free } } in
      pushed_page has content area.start page phys mapped popped
        (map_page has s.set.p4_phys page phys area.flags popped.memory)
        (λ mapped s1. push_pages has area content n (page + 4096) mapped s1)
]

abbrev pub inserted : Space → Option (Vma × Outcome) → Option (Space × Ending (Unit {0}))
inserted s none = none
inserted s (some (vma, ok)) = some (record s { set = record (s.set) { vma = vma } }, done tt)
inserted s (some (vma, _)) =
    some (record s { set = record (s.set) { vma = vma } }, failed invalid_access)

abbrev pub push_mapped :
    ℕ → MemoryArea → Space × Ending (Unit {0}) → Option (Space × Ending (Unit {0}))
push_mapped fuel area (s, done _) = inserted s (insert_area fuel s.set.vma area)
push_mapped fuel area (s, failed e) = some (s, failed e)
push_mapped fuel area (s, panicked) = some (s, panicked)

unfoldable pub push :
    ℕ → (ℕ → ℕ → Bool) → MemoryArea → Option (List ℕ) → Space → Option (Space × Ending (Unit {0}))
unfolding push_pages
push fuel has area content s =
    push_mapped fuel area (push_pages has area content (pages_of area) (first_page area) [] s)

unfoldable pub map_user_range :
    ℕ → (ℕ → ℕ → Bool) → ℕ → ℕ → ℕ → Space → Option (Space × Ending (Unit {0}))
unfolding push
map_user_range fuel has start end flags s =
    if leb end start then some (s, done tt) else push fuel has (new_area start end flags) none s

-- `push_lazy`, which panics where the area is refused.
abbrev pub must_insert : Space × Ending (Unit {0}) → Space × Ending (Unit {0})
must_insert (s, done _) = (s, done tt)
must_insert (s, _) = (s, panicked)

unfoldable pub push_lazy : ℕ → MemoryArea → Space → Option (Space × Ending (Unit {0}))
push_lazy fuel area s = elim (inserted s (insert_area fuel s.set.vma area)) [
  | none ↦ none
  | some r ↦ some (must_insert r)
]

-- `new_bare` once `KERNEL_P4_PHYS` or the machine has said which table is the kernel's: a table whose
-- upper half is that of the kernel. The direct map of the physical memory must be in it. An error has no
-- space.
unfoldable pub new_bare : (ℕ → ℕ → Bool) → ℕ → ℕ → VmaStats → Memory → Memory × Ending MemorySet
new_bare has kernel_p4 phys_offset stats m = elim m.free [
  | [] ↦ (m, failed frame_allocation_failed)
  | phys ∷ free ↦
      let made = record m {
        free = free;
        entries = λ t i.
            if t == phys
            then (if leb 256 i && ltb i 512 then m.entries kernel_p4 i else 0)
            else m.entries t i;
      } in
      if has (made.entries phys (p4_index phys_offset)) present
      then (
        made,
        done (record {
          p4_phys = phys;
          vma = new_vma stats;
          stack_bottom = none;
          stack_top = none;
          stack_limit = none;
        }),
      )
      else (made, panicked)
]

-- The pages of an area are unmapped and their frames given back, where that succeeds.
abbrev pub next_page :
    Memory × Ending (Unit {0}) → (Memory → Memory × Ending (Unit {0})) → Memory × Ending (Unit {0})
next_page (m, done _) rest = rest m
next_page (m, failed e) rest = (m, failed e)
next_page (m, panicked) rest = (m, panicked)

unfoldable pub unmap_pages : (ℕ → ℕ → Bool) → ℕ → ℕ → ℕ → Memory → Memory × Ending (Unit {0})
unfolding unmap_and_free
unmap_pages has p4 zero page m = (m, done tt)
unmap_pages has p4 (suc n) page m =
    next_page (unmap_and_free has p4 page m) (λ m'. unmap_pages has p4 n (page + 4096) m')

unfoldable pub unmap_areas :
    (ℕ → ℕ → Bool) → ℕ → List MemoryArea → Memory → Memory × Ending (Unit {0})
unfolding unmap_pages
unmap_areas has p4 [] m = (m, done tt)
unmap_areas has p4 (area ∷ rest) m =
    next_page (unmap_pages has p4 (pages_of area) (first_page area) m)
      (λ m'. unmap_areas has p4 rest m')

-- `drop`, after which only the memory is left.
unfoldable pub drop_set : (ℕ → ℕ → Bool) → MemorySet → Memory → Memory × Ending (Unit {0})
unfolding unmap_areas
drop_set has set m = next_page (unmap_areas has set.p4_phys (areas set.vma.root) m) (λ m'.
    if set.p4_phys % 4096 == 0
    then (record m' { freed = set.p4_phys ∷ m'.freed }, done tt)
    else (m', done tt))
