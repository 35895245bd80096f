-- ===== src/Mm/Vma.antt =====
-- The tree of virtual memory areas, mm/src/memory_set/vma_tree.rs: an interval treap. This file has
-- its nodes and the operations on them, the children have the lookups, the insertion and the proofs.
pub mod Area
pub mod Shape
pub mod Lookup
pub mod Order
pub mod Containing
pub mod Contents
pub mod Insert
pub mod Overlap
pub mod Absorb
pub mod AbsorbNext
pub mod Insertion
pub mod Walk
pub mod Range
pub mod RangeProofs
pub mod Checked
pub mod Lost
mod Examples
use old_boruixkernel.Common.{
  ℕ, ◌+◌, ◌*◌, ◌/◌, ◌%◌, ◌^◌, bit_xor, Bool, true, false, Option, none, some, List, [], ◌∷◌, ◌++◌,
  ltb, leb, ◌==◌, if◌then◌else◌, word_mod, word_max,
}
use Area.{MemoryArea}

unfoldable pub splitmix64 : ℕ → ℕ
splitmix64 x =
    let y = (x + 0x9E3779B97F4A7C15) % word_mod in
    let z = bit_xor y (y / 2 ^ 30) * 0xBF58476D1CE4E5B9 % word_mod in
    let w = bit_xor z (z / 2 ^ 27) * 0x94D049BB133111EB % word_mod in bit_xor w (w / 2 ^ 31)

-- `Option<Box<IntervalNode>>`. A node's fields are key, area, max_end, prio, left and right.
pub data Tree : Type 0 where
  leaf : Tree
  node : ℕ → MemoryArea → ℕ → ℕ → Tree → Tree → Tree

-- `IntervalNode::new`.
unfoldable pub new_node : MemoryArea → Tree
new_node area = node area.start area area.end (splitmix64 area.start) leaf leaf

-- One of the two tests of `recalc`: a child's `max_end` replaces a smaller one.
abbrev pub raise : Tree → ℕ → ℕ
raise leaf m = m
raise (node _ _ child_max _ _ _) m = if ltb m child_max then child_max else m

unfoldable pub recalc : Tree → Tree
recalc leaf = leaf
recalc (node k a m p l r) = node k a (raise r (raise l a.end)) p l r

unfoldable pub merge : Tree → Tree → Tree
unfolding recalc
merge leaf r = r
merge (node lk la lm lp ll lr) leaf = node lk la lm lp ll lr
merge (node lk la lm lp ll lr) (node rk ra rm rp rl rr) = elim (leb rp lp) [
  | true ↦ recalc (node lk la lm lp ll (merge lr (node rk ra rm rp rl rr)))
  | false ↦ recalc (node rk ra rm rp (merge (node lk la lm lp ll lr) rl) rr)
]

unfoldable pub split : Tree → ℕ → Tree × Tree
unfolding recalc
split leaf key = (leaf, leaf)
split (node k a m p l r) key = elim (leb key k) [
  | true ↦ let (low, high) = split l key in (low, recalc (node k a m p high r))
  | false ↦ let (low, high) = split r key in (recalc (node k a m p l low), high)
]

-- The code reads the key of the node that it is given: `node.key` of a fresh node.
unfoldable pub insert_node : Tree → MemoryArea → Tree
unfolding merge split new_node
insert_node leaf area = new_node area
insert_node (node k a m p l r) area =
    let (low, high) = split (node k a m p l r) area.start in merge (merge low (new_node area)) high

-- `n.map(|n| n.area)`.
abbrev pub root_area : Tree → Option MemoryArea
root_area leaf = none
root_area (node k a m p l r) = some a

unfoldable pub remove_node : Tree → ℕ → Tree × Option MemoryArea
unfolding merge split
remove_node root key =
    let (l, r) = split root key in
    if key == word_max
    then (l, root_area r)
    else let (mid, r2) = split r (key + 1) in (merge l r2, root_area mid)

-- The areas of a tree, in order.
abbrev pub areas : Tree → List MemoryArea
areas leaf = []
areas (node k a m p l r) = areas l ++ (a ∷ areas r)
