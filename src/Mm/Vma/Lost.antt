-- ===== src/Mm/Vma/Lost.antt =====
-- The refusals of `insert_area` that come after the area before the new one has been taken out for
-- the merge.
use old_boruixkernel.Common.{
  ℕ, suc, ◌≤◌, ◌<◌, ◌≡◌, sym, ap, ◌∙◌, subst, Option, none, some, List, [], ◌∷◌, ◌++◌, arith, All,
  All-imp, All-append, All-right, word_max, append_assoc, bump,
}
use old_boruixkernel.Mm.Vma.Area.{MemoryArea}
use old_boruixkernel.Mm.Vma.{Tree, areas, remove_node}
use old_boruixkernel.Mm.Vma.Shape.{IsSound, remove_node-IsSound}
use old_boruixkernel.Mm.Vma.Order.{
  Chain, Chain-cut, Chain-join, Within, Chain-Within, PrevOf, no_prev, prev, find_prev-PrevOf,
}
use old_boruixkernel.Mm.Vma.Contents.{cut_unique, areas-remove_node}
use old_boruixkernel.Mm.Vma.Lookup.{find_prev, find_prev_from, find_next}
use old_boruixkernel.Mm.Vma.Insert.{
  Vma, absorb_prev, absorb_next, absorb_round, insert_loop, insert_area, invalid_access,
}
use old_boruixkernel.Mm.Vma.Insertion.{IsValid}
use old_boruixkernel.Mm.Vma.RangeProofs.{find_next_cut}

snoc_inj : (xs ys : List MemoryArea) (a b : MemoryArea) → xs ++ (a ∷ []) ≡ ys ++ (b ∷ []) → a ≡ b
snoc_inj [] [] a b e = cc
snoc_inj [] (y ∷ []) a b e = cc
snoc_inj [] (y ∷ (y' ∷ ys)) a b e = cc
snoc_inj (x ∷ []) [] a b e = cc
snoc_inj (x ∷ (x' ∷ xs)) [] a b e = cc
snoc_inj (x ∷ xs) (y ∷ ys) a b e = snoc_inj xs ys a b (cc)

-- Where the areas are cut after the key, `find_prev` is the last of the earlier ones.
pub find_prev_cut :
    (t : Tree) (key hi : ℕ) (ls : List MemoryArea) (p : MemoryArea) (rs : List MemoryArea)
    → IsSound t
    → Chain 0 hi (areas t)
    → areas t ≡ ls ++ (p ∷ rs)
    → p.start ≤ key
    → All (λ b. key < b.start) rs
    → find_prev t key ≡ some p
unfolding find_prev
find_prev_cut t key hi ls p rs s c e h g =
    go (find_prev_from t key none) (find_prev-PrevOf t key 0 hi none s c)
  where
    front :
        (ms : List MemoryArea) (q : MemoryArea) (qs : List MemoryArea)
        → areas t ≡ ms ++ (q ∷ qs)
        → q.start ≤ key
        → All (λ b. b.start < suc key) (ms ++ (q ∷ []))
    front ms q qs e' le =
        let (cm, cq, cqs) = Chain-cut 0 hi ms q qs (subst (Chain 0 hi) e' c) in
        All-append (λ b. b.start < suc key) ms (q ∷ [])
          (All-imp (Within 0 q.start) (λ b. b.start < suc key) (λ b k. omega arith) ms
            (Chain-Within 0 q.start ms cm))
          (omega arith, tt)

    go : (found : Option MemoryArea) → PrevOf key none (areas t) found → found ≡ some p
    go found (no_prev f all) =
        let late =
          (All-right (λ b. key < b.start) ls (p ∷ rs) (subst (All (λ b. key < b.start)) e all)).0 in
        absurd (omega arith)
    go found (prev ms q qs e' f le all) =
        let both = append_assoc ms (q ∷ []) qs ∙ sym e' ∙ e ∙ sym (append_assoc ls (p ∷ []) rs) in
        let cut =
          cut_unique (suc key) (ms ++ (q ∷ [])) qs (ls ++ (p ∷ [])) rs both (front ms q qs e' le)
            all (front ls p rs e h) g in
        f ∙ ap some (snoc_inj ms ls q p cut.0)

module _ (fuel : ℕ) (v : Vma) (area p n : MemoryArea) (ls rs : List MemoryArea) (valid : IsValid v)
    (e : areas v.root ≡ ls ++ (p ∷ (n ∷ rs))) (joint : p.end ≡ area.start)
    (same : p.flags ≡ area.flags) (gap : area.start < n.start) (clash : n.start < area.end) where
  -- If an area ends where the new one starts, with the same flags, and the next one starts within
  -- the new one, then `insert_area` returns its error and the first of the two is gone.
  pub insert_area_loses :
      (v' : Vma) × (insert_area (suc fuel) v area ≡ some (v', invalid_access))
      × (areas v'.root ≡ ls ++ (n ∷ rs))
  unfolding insert_area insert_loop absorb_round absorb_prev absorb_next
  insert_area_loses =
      let c = subst (Chain 0 word_max) e valid.ordered in
      let (cl, cp, cr) = Chain-cut 0 word_max ls p (n ∷ rs) c in
      let t = (remove_node v.root p.start).0 in
      let gone =
        (areas-remove_node v.root 0 word_max ls p (n ∷ rs) valid.sound valid.ordered (omega arith)
          e).0 in
      let before : find_prev v.root area.start ≡ some p =
        find_prev_cut v.root area.start word_max ls p (n ∷ rs) valid.sound valid.ordered e
          (omega arith)
          (
            gap,
            All-imp (Within n.end word_max) (λ b. area.start < b.start) (λ b k. omega arith) rs
                (Chain-Within n.end word_max rs cr.2),
          ) in
      let chain : Chain 0 word_max (areas t) = rw gone (
        Chain-join 0 p.start n.start word_max ls (n ∷ rs) cl (omega arith)
          (omega arith, cr.1, cr.2)) in
      let after : find_next t p.start ≡ some n =
        find_next_cut t p.start word_max ls (n ∷ rs)
          (remove_node-IsSound v.root p.start valid.sound) chain gone
          (All-imp (Within 0 p.start) (λ b. b.start < p.start) (λ b k. omega arith) ls
            (Chain-Within 0 p.start ls cl))
          (
            omega arith,
            All-imp (Within n.end word_max) (λ b. p.start ≤ b.start) (λ b k. omega arith) rs
                (Chain-Within n.end word_max rs cr.2),
          ) in
      let left : Vma = record {
        root = t;
        stats = record {
          inserts = bump v.stats.inserts;
          merges = bump v.stats.merges;
          overlap_rejects = bump v.stats.overlap_rejects;
        };
      } in
      (left, ground (arith, before, after), gone)
