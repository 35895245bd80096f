-- ===== src/Mm/Space/Fork.antt =====
-- `fork` of mm/src/memory_set/address_space.rs. In the loops the set of the space is the new one, and `src`
-- is the one that is copied. The counters of the trees are global, so the old set has those of the new one
-- afterwards. A new set that is given up is dropped.
use old_boruixkernel.Common.{
  ℕ, zero, suc, ◌+◌, ◌%◌, Bool, Option, none, some, List, [], ◌∷◌, ltb, ◌==◌, ◌&&◌, if◌then◌else◌,
}
use old_boruixkernel.Mm.Vma.Area.{MemoryArea}
use old_boruixkernel.Mm.Vma.{areas}
use old_boruixkernel.Mm.Paging.{align_down, Tables, translate}
use old_boruixkernel.Mm.Mapping.{
  Memory, MapError, frame_allocation_failed, Ending, done, failed, panicked, map_page,
}
use old_boruixkernel.Mm.Space.{MemorySet, Space, put_memory, zero_frame}
use old_boruixkernel.Mm.Space.Areas.{first_page, pages_of, push_lazy, new_bare, drop_set}

-- The tables of a set, which `translate` reads at their physical addresses.
abbrev pub tables_of : MemorySet → Memory → Tables
tables_of set m = record { phys_offset = some 0; p4_phys = set.p4_phys; read = m.entries }

-- `copy_nonoverlapping`, or zeros where the page is not mapped.
abbrev pub copy_frame : Option ℕ → ℕ → Space → Space
copy_frame none dst s = zero_frame dst s
copy_frame (some src) dst s = record s {
  bytes = λ f i.
      if (f == dst) && ltb i 4096 then s.bytes (align_down src) (src % 4096 + i) else s.bytes f i;
}

abbrev pub forked_page :
    (ℕ → ℕ → Bool)
    → MemorySet
    → ℕ
    → ℕ
    → Space
    → Memory × Ending (Unit {0})
    → (Space → Space × Ending (Unit {0}))
    → Space × Ending (Unit {0})
forked_page has src page phys s (m, done _) rest =
    rest (copy_frame (translate has (tables_of src m) page) phys (put_memory m s))
forked_page has src page phys s (m, failed e) rest = (put_memory m s, failed e)
forked_page has src page phys s (m, panicked) rest = (put_memory m s, panicked)

unfoldable pub fork_pages :
    (ℕ → ℕ → Bool) → MemorySet → ℕ → ℕ → ℕ → Space → Space × Ending (Unit {0})
fork_pages has src flags zero page s = (s, done tt)
fork_pages has src flags (suc n) page s = elim s.memory.free [
  | [] ↦ (s, failed frame_allocation_failed)
  | phys ∷ free ↦
      let popped = record s { memory = record (s.memory) { free = free } } in
      forked_page has src page phys popped
        (map_page has s.set.p4_phys page phys flags popped.memory)
        (fork_pages has src flags n (page + 4096))
]

abbrev pub next_area :
    Space × Ending (Unit {0}) → (Space → Space × Ending (Unit {0})) → Space × Ending (Unit {0})
next_area (s, done _) rest = rest s
next_area (s, failed e) rest = (s, failed e)
next_area (s, panicked) rest = (s, panicked)

unfoldable pub fork_areas :
    (ℕ → ℕ → Bool) → MemorySet → List MemoryArea → Space → Space × Ending (Unit {0})
unfolding fork_pages
fork_areas has src [] s = (s, done tt)
fork_areas has src (area ∷ rest) s =
    next_area (fork_pages has src area.flags (pages_of area) (first_page area) s)
      (fork_areas has src rest)

-- The calls of `push_lazy`.
abbrev pub then_push :
    Option (Space × Ending (Unit {0}))
    → (Space → Option (Space × Ending (Unit {0})))
    → Option (Space × Ending (Unit {0}))
then_push none rest = none
then_push (some (s, done _)) rest = rest s
then_push (some (s, failed e)) rest = some (s, failed e)
then_push (some (s, panicked)) rest = some (s, panicked)

unfoldable pub push_areas : ℕ → List MemoryArea → Space → Option (Space × Ending (Unit {0}))
unfolding push_lazy
push_areas fuel [] s = some (s, done tt)
push_areas fuel (area ∷ rest) s = then_push (push_lazy fuel area s) (push_areas fuel rest)

abbrev pub with_stats : MemorySet → MemorySet → MemorySet
with_stats set other = record set { vma = record (set.vma) { stats = other.vma.stats } }

-- The set that is given up is dropped, and the error goes on.
abbrev pub drop_forked :
    MemorySet → Space → MapError → Memory × Ending (Unit {0}) → Space × Ending MemorySet
drop_forked src s e (m, panicked) =
    (put_memory m (record s { set = with_stats src s.set }), panicked)
drop_forked src s e (m, _) = (put_memory m (record s { set = with_stats src s.set }), failed e)

abbrev pub forked :
    (ℕ → ℕ → Bool) → MemorySet → Space × Ending (Unit {0}) → Space × Ending MemorySet
forked has src (s, done _) = (record s { set = with_stats src s.set }, done s.set)
forked has src (s, failed e) = drop_forked src s e (drop_set has s.set s.memory)
forked has src (s, panicked) = (record s { set = with_stats src s.set }, panicked)

abbrev pub fork_into :
    ℕ → (ℕ → ℕ → Bool) → Space → Memory × Ending MemorySet → Option (Space × Ending MemorySet)
fork_into fuel has s (m, failed e) = some (put_memory m s, failed e)
fork_into fuel has s (m, panicked) = some (put_memory m s, panicked)
fork_into fuel has s (m, done new_set) =
    let set = record new_set {
      stack_bottom = s.set.stack_bottom;
      stack_top = s.set.stack_top;
      stack_limit = s.set.stack_limit;
    } in
    elim (then_push (push_areas fuel (areas s.set.vma.root) (record (put_memory m s) { set = set }))
      (λ s1. some (fork_areas has s.set (areas s.set.vma.root) s1))) [
        | none ↦ none
        | some r ↦ some (forked has s.set r)
      ]

unfoldable pub fork : ℕ → (ℕ → ℕ → Bool) → ℕ → ℕ → Space → Option (Space × Ending MemorySet)
unfolding new_bare push_areas fork_areas drop_set
fork fuel has kernel_p4 phys_offset s =
    fork_into fuel has s (new_bare has kernel_p4 phys_offset s.set.vma.stats s.memory)
