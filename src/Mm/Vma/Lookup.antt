-- ===== src/Mm/Vma/Lookup.antt =====
-- The searches and the traversals of mm/src/memory_set/vma_tree.rs. A `while let Some(node) = cur`
-- that only descends is a recursion on the tree. A traversal with a stack of its own takes fuel, one
-- unit for each node that it pops.
use old_boruixkernel.Common.{
  ℕ, zero, suc, ◌+◌, Bool, true, false, Option, none, some, List, [], ◌∷◌, ◌++◌, ltb, leb,
  if◌then◌else◌,
}
use old_boruixkernel.Mm.Vma.Area.{MemoryArea}
use old_boruixkernel.Mm.Vma.{Tree, leaf, node}

-- The loop of `find_prev`, from `cur` and `res`.
unfoldable pub find_prev_from : Tree → ℕ → Option MemoryArea → Option MemoryArea
find_prev_from leaf key res = res
find_prev_from (node k a m p l r) key res = elim (ltb key k) [
  | true ↦ find_prev_from l key res
  | false ↦ find_prev_from r key (some a)
]

unfoldable pub find_prev : Tree → ℕ → Option MemoryArea
unfolding find_prev_from
find_prev root key = find_prev_from root key none

unfoldable pub find_next_from : Tree → ℕ → Option MemoryArea → Option MemoryArea
find_next_from leaf key res = res
find_next_from (node k a m p l r) key res = elim (leb key k) [
  | true ↦ find_next_from l key (some a)
  | false ↦ find_next_from r key res
]

unfoldable pub find_next : Tree → ℕ → Option MemoryArea
unfolding find_next_from
find_next root key = find_next_from root key none

-- Whether a left child has `max_end` above the address.
abbrev pub reaches : Tree → ℕ → Bool
reaches leaf addr = false
reaches (node _ _ m _ _ _) addr = ltb addr m

unfoldable pub find_containing : Tree → ℕ → Option MemoryArea
find_containing leaf addr = none
find_containing (node k a m p l r) addr = elim (reaches l addr) [
  | true ↦ find_containing l addr
  | false ↦ elim (ltb addr a.start) [
    | true ↦ find_containing r addr
    | false ↦ elim (leb a.end addr) [ true ↦ find_containing r addr | false ↦ some a ]
  ]
]

-- `VmaTree::debug_vma_lookup`.
unfoldable pub debug_vma_lookup :
    Tree → ℕ → Option MemoryArea × Option MemoryArea × Option MemoryArea
unfolding find_containing find_prev find_next
debug_vma_lookup root addr = (find_containing root addr, find_prev root addr, find_next root addr)

-- The inner loop of a traversal, which pushes a left spine. The top of the stack is its head.
unfoldable pub push_left : Tree → List Tree → List Tree
push_left leaf stack = stack
push_left (node k a m p l r) stack = push_left l (node k a m p l r ∷ stack)

-- The areas that `f` is called on, in the order of the calls. `none` means that the fuel ran out.
-- `stack.pop().unwrap()` finds a node, since only nodes are pushed: a leaf has no clause of its own
-- that the code could reach.
unfoldable pub visit : ℕ → List Tree → List MemoryArea → Option (List MemoryArea)
unfolding push_left
visit fuel [] seen = some seen
visit zero (t ∷ stack) seen = none
visit (suc fuel) (leaf ∷ stack) seen = none
visit (suc fuel) (node k a m p l r ∷ stack) seen = visit fuel (push_left r stack) (seen ++ (a ∷ []))

unfoldable pub for_each_in_order : ℕ → Tree → Option (List MemoryArea)
unfolding visit
for_each_in_order fuel root = visit fuel (push_left root []) []

unfoldable pub count_from : ℕ → List Tree → ℕ → Option ℕ
unfolding push_left
count_from fuel [] count = some count
count_from zero (t ∷ stack) count = none
count_from (suc fuel) (leaf ∷ stack) count = none
count_from (suc fuel) (node k a m p l r ∷ stack) count =
    count_from fuel (push_left r stack) (count + 1)

unfoldable pub node_count : ℕ → Tree → Option ℕ
unfolding count_from
node_count fuel root = count_from fuel (push_left root []) 0

-- `if let Some(ref l) = node.left { stack.push((l, depth + 1)); }`.
abbrev pub push_child : Tree → ℕ → List (Tree × ℕ) → List (Tree × ℕ)
push_child leaf depth stack = stack
push_child (node k a m p l r) depth stack = (node k a m p l r, depth) ∷ stack

unfoldable pub depth_from : ℕ → List (Tree × ℕ) → ℕ → Option ℕ
depth_from fuel [] max = some max
depth_from zero (t ∷ stack) max = none
depth_from (suc fuel) ((leaf, depth) ∷ stack) max = none
depth_from (suc fuel) ((node k a m p l r, depth) ∷ stack) max =
    depth_from fuel (push_child r (depth + 1) (push_child l (depth + 1) stack))
      (if ltb max depth then depth else max)

unfoldable pub max_depth : ℕ → Tree → Option ℕ
unfolding depth_from
max_depth fuel root = depth_from fuel (push_child root 1 []) 0
