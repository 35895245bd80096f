-- ===== src/Mm/Vma/Shape.antt =====
-- The structure of the treap: what `merge`, `split` and their clients keep at every node, and the
-- areas that they hold, in order.
use old_boruixkernel.Common.{
  ℕ, ◌+◌, ◌≤◌, ◌≡◌, refl, sym, ◌∷◌, ◌++◌, arith, append_assoc, append-nil,
}
use old_boruixkernel.Mm.Vma.Area.{MemoryArea}
use old_boruixkernel.Mm.Vma.{
  Tree, leaf, node, raise, merge, split, insert_node, remove_node, areas, splitmix64,
}

-- The priority at the root is at most `b`.
abbrev pub Under : ℕ → Tree → Type 0
Under b leaf = Unit {0}
Under b (node k a m p l r) = p ≤ b

-- Each node's key is the start of its area, its priority is the hash of the key and is no less than
-- its children's, and `max_end` is computed from the children.
abbrev pub IsSound : Tree → Type 0
IsSound leaf = Unit {0}
IsSound (node k a m p l r) =
    (k ≡ a.start)
    × (p ≡ splitmix64 k)
    × (m ≡ raise r (raise l a.end))
    × Under p l
    × Under p r
    × IsSound l
    × IsSound r

Under-merge : (b : ℕ) (x y : Tree) → Under b x → Under b y → Under b (merge x y)
unfolding merge
Under-merge b leaf y h k = k
Under-merge b (node lk la lm lp ll lr) leaf h k = h
Under-merge b (node lk la lm lp ll lr) (node rk ra rm rp rl rr) h k = ground arith

pub merge-IsSound : (x y : Tree) → IsSound x → IsSound y → IsSound (merge x y)
unfolding merge
merge-IsSound leaf y h k = k
merge-IsSound (node lk la lm lp ll lr) leaf h k = h
merge-IsSound (node lk la lm lp ll lr) (node rk ra rm rp rl rr) h k = ground (
  arith,
  merge-IsSound lr (node rk ra rm rp rl rr) h.6 k,
  merge-IsSound (node lk la lm lp ll lr) rl h k.5,
  Under-merge lp lr (node rk ra rm rp rl rr) h.4,
  Under-merge rp (node lk la lm lp ll lr) rl,
)

pub areas-merge : (x y : Tree) → areas (merge x y) ≡ areas x ++ areas y
unfolding merge
areas-merge leaf y = refl
areas-merge (node lk la lm lp ll lr) leaf = sym (append-nil _)
areas-merge (node lk la lm lp ll lr) (node rk ra rm rp rl rr) =
    let x = node lk la lm lp ll lr in
    let y = node rk ra rm rp rl rr in
    ground (
      arith,
      areas-merge lr (node rk ra rm rp rl rr),
      areas-merge (node lk la lm lp ll lr) rl,
      append_assoc (areas ll) (la ∷ areas lr) (areas y),
      append_assoc (areas x) (areas rl) (ra ∷ areas rr),
    )

Under-mono : (b c : ℕ) (t : Tree) → b ≤ c → Under b t → Under c t
Under-mono b c leaf h u = tt
Under-mono b c (node k a m p l r) h u = omega arith

Under-split :
    (b : ℕ) (t : Tree) (key : ℕ)
    → Under b t
    → IsSound t
    → Under b (split t key).0 × Under b (split t key).1
unfolding split
Under-split b leaf key h s = (tt, tt)
Under-split b (node k a m p l r) key h s = ground (
  arith,
  Under-split b l key (Under-mono p b l h s.3) s.5,
  Under-split b r key (Under-mono p b r h s.4) s.6,
)

pub split-IsSound :
    (t : Tree) (key : ℕ) → IsSound t → IsSound (split t key).0 × IsSound (split t key).1
unfolding split
split-IsSound leaf key s = (tt, tt)
split-IsSound (node k a m p l r) key s = ground (
  arith,
  split-IsSound l key s.5,
  split-IsSound r key s.6,
  Under-split p l key s.3 s.5,
  Under-split p r key s.4 s.6,
)

pub areas-split : (t : Tree) (key : ℕ) → areas (split t key).0 ++ areas (split t key).1 ≡ areas t
unfolding split
areas-split leaf key = refl
areas-split (node k a m p l r) key = ground (
  arith,
  areas-split l key,
  areas-split r key,
  append_assoc (areas (split l key).0) (areas (split l key).1) (a ∷ areas r),
  append_assoc (areas l) (a ∷ areas (split r key).0) (areas (split r key).1),
)

pub insert_node-IsSound : (t : Tree) (area : MemoryArea) → IsSound t → IsSound (insert_node t area)
unfolding insert_node
insert_node-IsSound leaf area s = (refl, refl, refl, tt, tt, tt, tt)
insert_node-IsSound (node k a m p l r) area s =
    let (low, high) = split-IsSound (node k a m p l r) area.start s in
    merge-IsSound _ _ (merge-IsSound _ _ low (refl, refl, refl, tt, tt, tt, tt)) high

pub remove_node-IsSound : (t : Tree) (key : ℕ) → IsSound t → IsSound (remove_node t key).0
unfolding remove_node
remove_node-IsSound t key s =
    let (low, high) = split-IsSound t key s in
    ground (
      arith,
      merge-IsSound (split t key).0 (split (split t key).1 (key + 1)).1 low
          (split-IsSound (split t key).1 (key + 1) high).1,
    )
