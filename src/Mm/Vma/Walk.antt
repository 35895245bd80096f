-- ===== src/Mm/Vma/Walk.antt =====
-- The traversals with a stack of their own, beside the recursion on the tree.
use old_boruixkernel.Common.{
  ℕ, zero, suc, ◌+◌, ◌-◌, ◌≤◌, ◌<◌, ◌≡◌, refl, sym, ap, ◌∙◌, some, List, [], ◌∷◌, ◌++◌, arith, ltb,
  if◌then◌else◌, length, length-append, append_assoc, append-nil, max,
}
use old_boruixkernel.Mm.Vma.Area.{MemoryArea}
use old_boruixkernel.Mm.Vma.{Tree, leaf, node, areas}
use old_boruixkernel.Mm.Vma.Lookup.{
  push_left, visit, for_each_in_order, count_from, node_count, push_child, depth_from, max_depth,
}

-- What is left to visit under a stack: each node on it and its right subtree.
pub pending : List Tree → List MemoryArea
pending [] = []
pending (leaf ∷ stack) = pending stack
pending (node k a m p l r ∷ stack) = a ∷ (areas r ++ pending stack)

-- Only nodes are pushed.
abbrev pub AllNodes : List Tree → Type 0
AllNodes [] = Unit {0}
AllNodes (leaf ∷ stack) = ⊥
AllNodes (node k a m p l r ∷ stack) = AllNodes stack

push_left-AllNodes : (t : Tree) (stack : List Tree) → AllNodes stack → AllNodes (push_left t stack)
unfolding push_left
push_left-AllNodes leaf stack h = h
push_left-AllNodes (node k a m p l r) stack h = push_left-AllNodes l (node k a m p l r ∷ stack) h

pending-push_left :
    (t : Tree) (stack : List Tree) → pending (push_left t stack) ≡ areas t ++ pending stack
unfolding push_left pending
pending-push_left leaf stack = refl
pending-push_left (node k a m p l r) stack =
    pending-push_left l (node k a m p l r ∷ stack)
    ∙ sym (append_assoc (areas l) (a ∷ areas r) (pending stack))

visit-pending :
    (fuel : ℕ) (stack : List Tree) (seen : List MemoryArea)
    → AllNodes stack
    → length (pending stack) ≤ fuel
    → visit fuel stack seen ≡ some (seen ++ pending stack)
unfolding visit pending
visit-pending zero [] seen h f = rw append-nil
visit-pending (suc fuel) [] seen h f = rw append-nil
visit-pending zero (leaf ∷ stack) seen h f = absurd h
visit-pending zero (node k a m p l r ∷ stack) seen h f = absurd (omega arith)
visit-pending (suc fuel) (leaf ∷ stack) seen h f = absurd h
visit-pending (suc fuel) (node k a m p l r ∷ stack) seen h f =
    let e = pending-push_left r stack in
    visit-pending fuel (push_left r stack) (seen ++ (a ∷ [])) (push_left-AllNodes r stack h)
      (omega (arith, ap length e))
    ∙ ap some (ap (λ xs. (seen ++ (a ∷ [])) ++ xs) e ∙ append_assoc seen (a ∷ []) _)

count_from-pending :
    (fuel : ℕ) (stack : List Tree) (count : ℕ)
    → AllNodes stack
    → length (pending stack) ≤ fuel
    → count_from fuel stack count ≡ some (count + length (pending stack))
unfolding count_from pending
count_from-pending zero [] count h f = ap some (omega arith)
count_from-pending (suc fuel) [] count h f = ap some (omega arith)
count_from-pending zero (leaf ∷ stack) count h f = absurd h
count_from-pending zero (node k a m p l r ∷ stack) count h f = absurd (omega arith)
count_from-pending (suc fuel) (leaf ∷ stack) count h f = absurd h
count_from-pending (suc fuel) (node k a m p l r ∷ stack) count h f =
    let e = pending-push_left r stack in
    count_from-pending fuel (push_left r stack) (count + 1) (push_left-AllNodes r stack h)
      (omega (arith, ap length e))
    ∙ ap some (omega (arith, ap length e))

pending_root : (t : Tree) → pending (push_left t []) ≡ areas t
unfolding pending
pending_root t = pending-push_left t [] ∙ append-nil (areas t)

-- With fuel for every node, `for_each_in_order` calls its function on the areas of the tree, each
-- once and in order.
pub for_each_in_order-areas :
    (fuel : ℕ) (t : Tree) → length (areas t) ≤ fuel → for_each_in_order fuel t ≡ some (areas t)
unfolding for_each_in_order
for_each_in_order-areas fuel t f =
    let e = pending_root t in
    visit-pending fuel (push_left t []) [] (push_left-AllNodes t [] tt) (omega (arith, ap length e))
    ∙ ap some e

-- With fuel for every node, `node_count` is the number of areas.
pub node_count-length :
    (fuel : ℕ) (t : Tree) → length (areas t) ≤ fuel → node_count fuel t ≡ some (length (areas t))
unfolding node_count
node_count-length fuel t f =
    let e = pending_root t in
    count_from-pending fuel (push_left t []) 0 (push_left-AllNodes t [] tt)
      (omega (arith, ap length e))
    ∙ ap some (omega (arith, ap length e))

-- The number of nodes on a longest way down.
pub height : Tree → ℕ
height leaf = 0
height (node k a m p l r) = suc (max (height l) (height r))

-- The greatest depth under a stack, above `top`.
reach : List (Tree × ℕ) → ℕ → ℕ
reach [] top = top
reach ((t, depth) ∷ stack) top = reach stack (max top (depth + height t - 1))

size : List (Tree × ℕ) → ℕ
size [] = 0
size ((t, depth) ∷ stack) = length (areas t) + size stack

abbrev Deep : List (Tree × ℕ) → Type 0
Deep [] = Unit {0}
Deep ((leaf, depth) ∷ stack) = ⊥
Deep ((node k a m p l r, depth) ∷ stack) = (0 < depth) × Deep stack

push_child-Deep :
    (t : Tree) (d : ℕ) (stack : List (Tree × ℕ)) → 0 < d → Deep stack → Deep (push_child t d stack)
push_child-Deep leaf d stack h g = g
push_child-Deep (node k a m p l r) d stack h g = (h, g)

push_child-size :
    (t : Tree) (d : ℕ) (stack : List (Tree × ℕ))
    → size (push_child t d stack) ≡ length (areas t) + size stack
unfolding size
push_child-size leaf d stack = omega arith
push_child-size (node k a m p l r) d stack = refl

push_child-reach :
    (t : Tree) (d : ℕ) (stack : List (Tree × ℕ)) (top : ℕ)
    → d ≤ suc top
    → reach (push_child t d stack) top ≡ reach stack (max top (d + height t - 1))
unfolding reach height
push_child-reach leaf d stack top h = ap (reach stack) (omega arith)
push_child-reach (node k a m p l r) d stack top h = refl

depth_from-reach :
    (fuel : ℕ) (stack : List (Tree × ℕ)) (top : ℕ)
    → Deep stack
    → size stack ≤ fuel
    → depth_from fuel stack top ≡ some (reach stack top)
unfolding depth_from reach size height
depth_from-reach zero [] top h f = refl
depth_from-reach (suc fuel) [] top h f = refl
depth_from-reach zero ((leaf, d) ∷ stack) top h f = absurd h
depth_from-reach zero ((node k a m p l r, d) ∷ stack) top h f =
    absurd (omega (arith, length-append (areas l) (a ∷ areas r)))
depth_from-reach (suc fuel) ((leaf, d) ∷ stack) top h f = absurd h
depth_from-reach (suc fuel) ((node k a m p l r, d) ∷ stack) top h f =
    let top' = if ltb top d then d else top in
    let e' : top' ≡ max top d = ground arith in
    let inner = push_child l (d + 1) stack in
    let deep =
      push_child-Deep r (d + 1) inner (omega arith)
        (push_child-Deep l (d + 1) stack (omega arith) h.1) in
    let sizes = push_child-size r (d + 1) inner in
    let sizes' = push_child-size l (d + 1) stack in
    depth_from-reach fuel (push_child r (d + 1) inner) top' deep
      (omega (arith, sizes, sizes', length-append (areas l) (a ∷ areas r)))
    ∙ ap some (
        push_child-reach r (d + 1) inner top' (omega arith)
        ∙ push_child-reach l (d + 1) stack (max top' (d + 1 + height r - 1)) (omega arith)
        ∙ ap (reach stack) (omega arith))

-- With fuel for every node, `max_depth` is the height of the tree.
pub max_depth-height :
    (fuel : ℕ) (t : Tree) → length (areas t) ≤ fuel → max_depth fuel t ≡ some (height t)
unfolding max_depth reach size height
max_depth-height fuel leaf f = depth_from-reach fuel [] 0 tt (omega arith)
max_depth-height fuel (node k a m p l r) f =
    depth_from-reach fuel ((node k a m p l r, 1) ∷ []) 0 (omega arith, tt) (omega arith)
    ∙ ap some (omega arith)
