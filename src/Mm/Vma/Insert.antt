-- ===== src/Mm/Vma/Insert.antt =====
-- `VmaTree::insert_area` of mm/src/memory_set/vma_tree.rs, with the counters of the module. The
-- counters are atomics that wrap. The `loop` takes fuel, one unit for each round.
use old_boruixkernel.Common.{
  ℕ, zero, suc, Bool, true, false, Option, none, some, ◌&&◌, leb, ltb, ◌==◌, if◌then◌else◌, bump,
}
use old_boruixkernel.Mm.Vma.Area.{MemoryArea}
use old_boruixkernel.Mm.Vma.{Tree, leaf, insert_node, remove_node}
use old_boruixkernel.Mm.Vma.Lookup.{find_prev, find_next}

pub record VmaStats : Type 0 where
  pub inserts : ℕ
  pub merges : ℕ
  pub overlap_rejects : ℕ

unfoldable pub reset_vma_stats : VmaStats
reset_vma_stats = record { inserts = 0; merges = 0; overlap_rejects = 0 }

-- A `VmaTree` beside the counters.
pub record Vma : Type 0 where
  pub root : Tree
  pub stats : VmaStats

unfoldable pub new : VmaStats → Vma
new stats = record { root = leaf; stats = stats }

unfoldable pub clear : Vma → Vma
clear v = record v { root = leaf }

-- The one error that `insert_area` returns is `MapError::InvalidAccess`.
pub data Outcome : Type 0 where
  ok invalid_access : Outcome

-- How one half of the loop's body ends: with the error, or with the area and `merged`.
pub data Half : Type 0 where
  rejected : Vma → Half
  settled : Vma → MemoryArea → Bool → Half

abbrev count_reject : Vma → Vma
count_reject v = record v {
  stats = record (v.stats) { overlap_rejects = bump v.stats.overlap_rejects };
}

abbrev take_out : Vma → ℕ → Vma
take_out v key = record {
  root = (remove_node v.root key).0;
  stats = record (v.stats) { merges = bump v.stats.merges };
}

abbrev pub absorb_prev_at : Vma → MemoryArea → Option MemoryArea → Half
absorb_prev_at v area none = settled v area false
absorb_prev_at v area (some prev) =
    if ltb area.start prev.end
    then rejected (count_reject v)
    else if (prev.end == area.start) && (prev.flags == area.flags)
    then settled (take_out v prev.start) (record area { start = prev.start }) true
    else settled v area false

-- The first `if let` of the loop's body.
unfoldable pub absorb_prev : Vma → MemoryArea → Half
absorb_prev v area = absorb_prev_at v area (find_prev v.root area.start)

abbrev pub absorb_next_at : Vma → MemoryArea → Bool → Option MemoryArea → Half
absorb_next_at v area merged none = settled v area merged
absorb_next_at v area merged (some next) =
    if ltb next.start area.end
    then rejected (count_reject v)
    else if (next.start == area.end) && (next.flags == area.flags)
    then settled (take_out v next.start) (record area { end = next.end }) true
    else settled v area merged

-- The second one, which also finds what the first has set.
unfoldable pub absorb_next : Vma → MemoryArea → Bool → Half
absorb_next v area merged = absorb_next_at v area merged (find_next v.root area.start)

abbrev pub then_next : Half → Half
then_next (rejected v) = rejected v
then_next (settled v area merged) = absorb_next v area merged

unfoldable pub absorb_round : Vma → MemoryArea → Half
unfolding absorb_prev absorb_next
absorb_round v area = then_next (absorb_prev v area)

-- The `loop`, and the insertion after it. `none` means that the fuel ran out.
unfoldable pub insert_loop : ℕ → Vma → MemoryArea → Option (Vma × Outcome)
unfolding absorb_round
insert_loop zero v area = none
insert_loop (suc fuel) v area = elim (absorb_round v area) [
  | rejected v' ↦ some (v', invalid_access)
  | settled v' area' true ↦ insert_loop fuel v' area'
  | settled v' area' false ↦ some (record v' { root = insert_node v'.root area' }, ok)
]

unfoldable pub insert_area : ℕ → Vma → MemoryArea → Option (Vma × Outcome)
unfolding insert_loop
insert_area fuel v area =
    if leb area.end area.start
    then some (v, invalid_access)
    else insert_loop fuel (record v { stats = record (v.stats) { inserts = bump v.stats.inserts } })
        area
