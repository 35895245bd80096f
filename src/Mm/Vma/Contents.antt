-- ===== src/Mm/Vma/Contents.antt =====
-- What `split`, `insert_node` and `remove_node` do to the areas in order.
use old_boruixkernel.Common.{
  ℕ, ◌+◌, ◌≤◌, ◌<◌, ◌≡◌, refl, ap, subst, ◌∙◌, Bool, true, false, some, List, [], ◌∷◌, ◌++◌, arith,
  All, All-imp, ltb, leb, Bool-cases, inl, inr, lt→ltb, ge→ltb, le→leb, gt→leb, leb→le, leb→gt,
  keep, keep-append, keep_every, keep_nothing, word_max, append_assoc, append-nil,
}
use old_boruixkernel.Mm.Vma.Area.{MemoryArea}
use old_boruixkernel.Mm.Vma.{
  Tree, leaf, node, areas, split, merge, insert_node, remove_node, new_node, root_area,
}
use old_boruixkernel.Mm.Vma.Shape.{IsSound, areas-merge, split-IsSound}
use old_boruixkernel.Mm.Vma.Order.{Chain, Chain-cut, Chain-le, Within, Chain-Within}

abbrev starts_before : ℕ → MemoryArea → Bool
starts_before key a = ltb a.start key

abbrev starts_from : ℕ → MemoryArea → Bool
starts_from key a = leb key a.start

before_every :
    (key : ℕ) (xs : List MemoryArea)
    → All (λ b. b.start < key) xs
    → (keep (starts_before key) xs ≡ xs) × (keep (starts_from key) xs ≡ [])
before_every key xs h = (
  keep_every (starts_before key) xs (
      All-imp (λ b. b.start < key) (λ b. starts_before key b ≡ true) (λ b. lt→ltb b.start key) xs
        h),
  keep_nothing (starts_from key) xs (
      All-imp (λ b. b.start < key) (λ b. starts_from key b ≡ false) (λ b. gt→leb key b.start) xs h),
)

from_every :
    (key : ℕ) (xs : List MemoryArea)
    → All (λ b. key ≤ b.start) xs
    → (keep (starts_before key) xs ≡ []) × (keep (starts_from key) xs ≡ xs)
from_every key xs h = (
  keep_nothing (starts_before key) xs (
      All-imp (λ b. key ≤ b.start) (λ b. starts_before key b ≡ false) (λ b. ge→ltb b.start key) xs
        h),
  keep_every (starts_from key) xs
      (All-imp (λ b. key ≤ b.start) (λ b. starts_from key b ≡ true) (λ b. le→leb key b.start) xs h),
)

-- `split` divides the areas by the start of each.
areas-split-keep :
    (t : Tree) (key lo hi : ℕ)
    → IsSound t
    → Chain lo hi (areas t)
    → (areas (split t key).0 ≡ keep (starts_before key) (areas t))
      × (areas (split t key).1 ≡ keep (starts_from key) (areas t))
unfolding split keep
areas-split-keep leaf key lo hi s c = (refl, refl)
areas-split-keep (node k a m p l r) key lo hi s c =
    let (cl, ca, cr) = Chain-cut lo hi (areas l) a (areas r) c in
    elim (Bool-cases (leb key k)) [
      | inl e ↦
          let le : key ≤ a.start = omega (arith, leb→le key k e, s.0) in
          let tail = from_every key (a ∷ areas r) (
            le,
            All-imp (Within a.end hi) (λ b. key ≤ b.start) (λ b w. omega arith) (areas r)
                (Chain-Within a.end hi (areas r) cr),
          ) in
          let (ih0, ih1) = areas-split-keep l key lo a.start s.5 cl in
          ground (
            arith,
            keep-append (starts_before key) (areas l) (a ∷ areas r),
            keep-append (starts_from key) (areas l) (a ∷ areas r),
            append-nil (keep (starts_before key) (areas l)),
          )
      | inr e ↦
          let lt : a.start < key = omega (arith, leb→gt key k e, s.0) in
          let front = before_every key (areas l) (
            All-imp (Within lo a.start) (λ b. b.start < key) (λ b w. omega arith) (areas l)
              (Chain-Within lo a.start (areas l) cl)) in
          let (ih0, ih1) = areas-split-keep r key a.end hi s.6 cr in
          ground (
            arith,
            keep-append (starts_before key) (areas l) (a ∷ areas r),
            keep-append (starts_from key) (areas l) (a ∷ areas r),
          )
    ]

module _ (t : Tree) (key lo hi : ℕ) (ls rs : List MemoryArea) (s : IsSound t)
    (c : Chain lo hi (areas t)) (e : areas t ≡ ls ++ rs) (h : All (λ b. b.start < key) ls)
    (g : All (λ b. key ≤ b.start) rs) where
  -- Where the areas are cut at the key, `split` gives the two parts.
  pub areas-split_cut : (areas (split t key).0 ≡ ls) × (areas (split t key).1 ≡ rs)
  areas-split_cut =
      let (low, high) = areas-split-keep t key lo hi s c in
      let (ls_low, ls_high) = before_every key ls h in
      let (rs_low, rs_high) = from_every key rs g in
      (
        rw (low, e, keep-append (starts_before key) ls rs, ls_low, rs_low, append-nil ls),
        rw (high, e, keep-append (starts_from key) ls rs, ls_high, rs_high),
      )

single :
    (xs : List MemoryArea) (b : MemoryArea) (ys : List MemoryArea) (a : MemoryArea)
    → xs ++ (b ∷ ys) ≡ a ∷ []
    → b ≡ a
single [] b ys a e = cc
single (x ∷ []) b ys a e = cc
single (x ∷ (x' ∷ xs)) b ys a e = cc

root_area_single : (t : Tree) (a : MemoryArea) → areas t ≡ a ∷ [] → root_area t ≡ some a
root_area_single leaf a e = cc
root_area_single (node k b m p l r) a e = ap some (single (areas l) b (areas r) a e)

-- A node goes between the areas before and after it.
pub areas-insert_node :
    (t : Tree) (area : MemoryArea) (lo hi : ℕ) (ls rs : List MemoryArea)
    → IsSound t
    → Chain lo hi (areas t)
    → areas t ≡ ls ++ rs
    → All (λ b. b.start < area.start) ls
    → All (λ b. area.start ≤ b.start) rs
    → areas (insert_node t area) ≡ ls ++ (area ∷ rs)
unfolding insert_node
areas-insert_node leaf area lo hi [] [] s c e h g = refl
areas-insert_node leaf area lo hi [] (y ∷ rs) s c e h g = cc
areas-insert_node leaf area lo hi (x ∷ ls) rs s c e h g = cc
areas-insert_node (node k a m p l r) area lo hi ls rs s c e h g =
    let (low, high) = areas-split_cut (node k a m p l r) area.start lo hi ls rs s c e h g in
    let parts = areas-merge (split (node k a m p l r) area.start).0 (new_node area) in
    let whole =
      areas-merge (merge (split (node k a m p l r) area.start).0 (new_node area))
        (split (node k a m p l r) area.start).1 in
    whole ∙ rw (parts, low, high) (append_assoc ls (area ∷ []) rs)

-- The area that starts at the key is taken out and handed back.
pub areas-remove_node :
    (t : Tree) (lo hi : ℕ) (ls : List MemoryArea) (a : MemoryArea) (rs : List MemoryArea)
    → IsSound t
    → Chain lo hi (areas t)
    → hi ≤ word_max
    → areas t ≡ ls ++ (a ∷ rs)
    → (areas (remove_node t a.start).0 ≡ ls ++ rs) × ((remove_node t a.start).1 ≡ some a)
unfolding remove_node
areas-remove_node t lo hi ls a rs s c top e =
    let (cl, ca, cr) = Chain-cut lo hi ls a rs (subst (Chain lo hi) e c) in
    let r = (split t a.start).1 in
    let on_right : Chain a.start hi (a ∷ rs) = (omega arith, ca, cr) in
    let inside = Chain-le a.end hi rs cr in
    let low =
      All-imp (Within lo a.start) (λ b. b.start < a.start) (λ b w. omega arith) ls
        (Chain-Within lo a.start ls cl) in
    let high =
      All-imp (Within a.end hi) (λ b. a.start + 1 ≤ b.start) (λ b w. omega arith) rs
        (Chain-Within a.end hi rs cr) in
    let first = areas-split_cut t a.start lo hi ls (a ∷ rs) s c e low (
      omega arith,
      All-imp (λ b. a.start + 1 ≤ b.start) (λ b. a.start ≤ b.start) (λ b w. omega arith) rs high,
    ) in
    let second =
      areas-split_cut r (a.start + 1) a.start hi (a ∷ []) rs (split-IsSound t a.start s).1
        (rw first.1 on_right) first.1 (omega arith, tt) high in
    let parts = areas-merge (split t a.start).0 (split r (a.start + 1)).1 in
    let joined = rw (first.0, second.1) at parts in
    let found = root_area_single (split r (a.start + 1)).0 a second.0 in
    ground (arith, joined, found)

-- A list is cut in one way between the areas that start before the key and those that do not.
pub cut_unique :
    (key : ℕ) (ls rs ms ps : List MemoryArea)
    → ls ++ rs ≡ ms ++ ps
    → All (λ b. b.start < key) ls
    → All (λ b. key ≤ b.start) rs
    → All (λ b. b.start < key) ms
    → All (λ b. key ≤ b.start) ps
    → (ls ≡ ms) × (rs ≡ ps)
cut_unique key [] rs [] ps e hl hr hm hp = (refl, e)
cut_unique key [] [] (m ∷ ms) ps e hl hr hm hp = cc
cut_unique key [] (r ∷ rs) (m ∷ ms) ps e hl hr hm hp = absurd (ground arith)
cut_unique key (l ∷ ls) rs [] [] e hl hr hm hp = cc
cut_unique key (l ∷ ls) rs [] (p ∷ ps) e hl hr hm hp = absurd (ground arith)
cut_unique key (l ∷ ls) rs (m ∷ ms) ps e hl hr hm hp =
    let (lefts, rights) = cut_unique key ls rs ms ps (cc) hl.1 hr hm.1 hp in (cc, rights)
