-- ===== src/Mm/Space/Examples.antt =====
-- A task with an area from 0x8000 to 0x9000, a stack that ends at 0x20000, and its first table at 0x1000.
use old_boruixkernel.Common.{
  ℕ, ◌≡◌, refl, Bool, true, false, Option, none, some, [], ◌∷◌, bit_and, ◌==◌,
}
use old_boruixkernel.Mm.Vma.Area.{new as new_area}
use old_boruixkernel.Mm.Vma.Insert.{
  reset_vma_stats, insert_area, insert_loop, absorb_round, absorb_prev, absorb_next, new as new_vma,
}
use old_boruixkernel.Mm.Vma.Lookup.{
  find_containing, find_prev, find_prev_from, find_next, find_next_from,
}
use old_boruixkernel.Mm.Mapping.{
  Memory, Ending, done, map_page, map_page_inner, get_next_table, new_table, set_addr,
}
use old_boruixkernel.Mm.Space.{
  Space, FaultCode, map_zeroed, grow_stack, try_grow_stack, handle_page_fault,
}
use old_boruixkernel.Mm.Space.Handler.{Handled, handle_page_fault-Handled}

abbrev has : ℕ → ℕ → Bool
has flags required = bit_and flags required == required

abbrev memory : Memory
memory = record {
  entries = λ t i. 0;
  counts = none;
  free = 0x2000 ∷ 0x3000 ∷ 0x4000 ∷ 0x5000 ∷ 0x6000 ∷ [];
  freed = [];
  rmap = record {
    frames = [];
    stats = record { adds = 0; removes = 0; lookups = 0; mig_read = 0; mig_write = 0 };
  };
}

abbrev task : Space
task = record {
  set = record {
    p4_phys = 0x1000;
    vma = new_vma reset_vma_stats;
    stack_bottom = some 0x1F000;
    stack_top = some 0x20000;
    stack_limit = some 0x10000;
  };
  memory = memory;
  bytes = λ f i. 7;
}

abbrev user_write : FaultCode
user_write = record {
  protection_violation = false;
  caused_by_write = true;
  user_mode = true;
  instruction_fetch = false;
}

abbrev result : Option (Space × Ending (Unit {0}))
result = handle_page_fault 5 has user_write 0x1E010 task

abbrev grown : Space
grown = elim result [ none ↦ task | some r ↦ r.0 ]

grows : handle_page_fault 5 has user_write 0x1E010 task ≡ some (grown, done tt)
unfolding handle_page_fault try_grow_stack grow_stack map_zeroed map_page map_page_inner
    get_next_table new_table set_addr insert_area insert_loop absorb_round absorb_prev absorb_next
    find_prev find_prev_from find_next find_next_from find_containing new_vma new_area
grows = refl

handle_page_fault-Handled_example : Handled has user_write 0x1E010 task (done tt) grown
handle_page_fault-Handled_example =
    handle_page_fault-Handled has 5 user_write 0x1E010 task (done tt) grown grows

-- The new bottom.
new_bottom : grown.set.stack_bottom ≡ some 0x1E000
unfolding handle_page_fault try_grow_stack grow_stack map_zeroed map_page map_page_inner
    get_next_table new_table set_addr insert_area insert_loop absorb_round absorb_prev absorb_next
    find_prev find_prev_from find_next find_next_from find_containing new_vma new_area
new_bottom = refl
