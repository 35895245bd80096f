-- ===== src/Mm/Vma/AbsorbNext.antt =====
-- The other half of the loop of `insert_area`, which looks at the area after the new one.
use old_boruixkernel.Common.{
  suc, ◌+◌, ◌≤◌, ◌<◌, ◌≡◌, refl, sym, ap, ◌∙◌, subst, Bool, true, Option, none, some, List, [], ◌∷◌,
  ◌++◌, arith, All, All-imp, ltb, ◌==◌, ◌&&◌, Bool-cases, inl, inr, word_max, length, length-append,
  append-nil, ltb→lt, ltb→ge,
}
use old_boruixkernel.Mm.Vma.Area.{MemoryArea, contains}
use old_boruixkernel.Mm.Vma.{areas, remove_node}
use old_boruixkernel.Mm.Vma.Shape.{IsSound, remove_node-IsSound}
use old_boruixkernel.Mm.Vma.Order.{
  Chain, Chain-cut, Chain-join, Within, Chain-Within, NextOf, no_next, next,
}
use old_boruixkernel.Mm.Vma.Contents.{areas-remove_node, cut_unique}
use old_boruixkernel.Mm.Vma.Overlap.{
  overlaps, overlaps_hit, overlaps_past, overlaps_clear, cover_joined,
}
use old_boruixkernel.Mm.Vma.Insert.{Vma, Half, rejected, settled, absorb_next_at}
use old_boruixkernel.Mm.Vma.Absorb.{Same, Same-refl, taken}

-- Both halves are done: the area fits between those before it and those after it.
pub data NextDone (v : Vma) (area : MemoryArea) (merged : Bool) (h : Half) : Type 0 where
  next_clash :
      (v' : Vma)
      → h ≡ rejected v'
      → overlaps area.start area.end (areas v.root) ≡ true
      → NextDone v area merged h
  fits :
      (v' : Vma) (area' : MemoryArea) (merged' : Bool) (ls rs : List MemoryArea)
      → h ≡ settled v' area' merged'
      → IsSound v'.root
      → areas v'.root ≡ ls ++ rs
      → Chain 0 area'.start ls
      → area'.start < area'.end
      → Chain area'.end word_max rs
      → Same area area' (areas v.root) (areas v'.root)
      → length (areas v'.root) + taken merged' ≤ length (areas v.root) + taken merged
      → NextDone v area merged h

module _ (area p : MemoryArea) (ls rs : List MemoryArea) (ends : All (λ b. b.end ≤ area.start) ls)
    (later : All (λ b. p.end ≤ b.start) rs) (solid : p.start < p.end) (joint : p.start ≡ area.end)
    (n : area.start < area.end) (same : p.flags ≡ area.flags) where
  -- Absorbing the area just after changes neither the map nor the clashes.
  absorb_next-Same : Same area (record area { end = p.end }) (ls ++ (p ∷ rs)) (ls ++ rs)
  unfolding contains overlaps
  absorb_next-Same = record {
    flags = refl;
    covers = λ addr. sym (
        cover_joined addr ls p rs area (record area { end = p.end })
          (All-imp (λ b. b.end ≤ area.start) (λ b. b.end ≤ p.start) (λ b w. omega arith) ls ends)
          same refl (ground arith));
    clashes =
        overlaps_past area.start p.end ls rs ends
        ∙ overlaps_clear area.start p.end rs later
        ∙ sym (
            overlaps_past area.start area.end ls (p ∷ rs) ends
            ∙ ground (
              arith,
              overlaps_clear area.start area.end rs (
                  All-imp (λ b. p.end ≤ b.start) (λ b. area.end ≤ b.start) (λ b w. omega arith) rs
                    later),
            ));
  }

module _ (v : Vma) (area : MemoryArea) (merged : Bool) (ls rs : List MemoryArea)
    (s : IsSound v.root) (e : areas v.root ≡ ls ++ rs) (cl : Chain 0 area.start ls)
    (n : area.start < area.end) (w : area.end ≤ word_max)
    (cr : Chain (suc area.start) word_max rs) where
  starts : All (λ b. b.start < area.start) ls
  starts =
      All-imp (Within 0 area.start) (λ b. b.start < area.start) (λ b k. omega arith) ls
        (Chain-Within 0 area.start ls cl)

  later_starts : All (λ b. area.start ≤ b.start) rs
  later_starts =
      All-imp (Within (suc area.start) word_max) (λ b. area.start ≤ b.start) (λ b k. omega arith) rs
        (Chain-Within (suc area.start) word_max rs cr)

  chain : Chain 0 word_max (areas v.root)
  chain = rw e (Chain-join 0 area.start (suc area.start) word_max ls rs cl (omega arith) cr)

  next_missing : rs ≡ [] → NextDone v area merged (settled v area merged)
  next_missing none_left =
      fits v area merged ls rs refl s e cl n (rw none_left w) (Same-refl area (areas v.root))
        (omega arith)

  module _ (p : MemoryArea) (ps : List MemoryArea) (r : rs ≡ p ∷ ps) where
    next_apart : area.end ≤ p.start → NextDone v area merged (settled v area merged)
    next_apart h =
        let c = subst (Chain (suc area.start) word_max) r cr in
        let after : Chain area.end word_max (p ∷ ps) = (h, c.1, c.2) in
        fits v area merged ls rs refl s e cl n (rw r after) (Same-refl area (areas v.root))
          (omega arith)

    next_merge :
        (v' : Vma)
        → p.start ≡ area.end
        → p.flags ≡ area.flags
        → v'.root ≡ (remove_node v.root p.start).0
        → NextDone v area merged (settled v' (record area { end = p.end }) true)
    next_merge v' h f q =
        let c = subst (Chain (suc area.start) word_max) r cr in
        let whole : areas v.root ≡ ls ++ (p ∷ ps) = rw e (ap (λ xs. ls ++ xs) r) in
        let gone : areas v'.root ≡ ls ++ ps =
          ap areas q
          ∙ (areas-remove_node v.root 0 word_max ls p ps s chain (omega arith) whole).0 in
        let ends =
          All-imp (Within 0 area.start) (λ b. b.end ≤ area.start) (λ b k. k.2) ls
            (Chain-Within 0 area.start ls cl) in
        let later =
          All-imp (Within p.end word_max) (λ b. p.end ≤ b.start) (λ b k. k.0) ps
            (Chain-Within p.end word_max ps c.2) in
        let same : Same area (record area { end = p.end }) (areas v.root) (areas v'.root) =
          rw (whole, gone) (absorb_next-Same area p ls ps ends later c.1 h n f) in
        fits v' (record area { end = p.end }) true ls ps refl
          (rw q (remove_node-IsSound v.root p.start s)) gone cl (omega arith) c.2 same
          (omega (
            arith,
            ap length gone,
            ap length whole,
            length-append ls ps,
            length-append ls (p ∷ ps),
          ))

    next_found : NextDone v area merged (absorb_next_at v area merged (some p))
    next_found =
        let c = subst (Chain (suc area.start) word_max) r cr in
        elim (Bool-cases (ltb p.start area.end)) [
          | inl hit ↦ rw hit (
              next_clash _ refl (
                rw (e, r)
                  (overlaps_hit area.start area.end ls p ps (ltb→lt p.start area.end hit)
                    (omega arith))))
          | inr apart ↦
              rw apart (elim (Bool-cases ((p.start == area.end) && (p.flags == area.flags))) [
                | inl join ↦ rw join (next_merge _ (ground arith) (ground arith) refl)
                | inr other ↦ rw other (next_apart (ltb→ge p.start area.end apart))
              ])
        ]

  pub next_done :
      (found : Option MemoryArea)
      → NextOf area.start none (areas v.root) found
      → NextDone v area merged (absorb_next_at v area merged found)
  next_done found (no_next f all) =
      let before = subst (All (λ b. b.start < area.start)) e all in
      let none_left =
        (cut_unique area.start ls rs (ls ++ rs) [] (sym (append-nil (ls ++ rs))) starts later_starts
          before tt).1 in
      rw f (next_missing none_left)
  next_done found (next ms p ps e' f le all) =
      let (cm, cp, cps) = Chain-cut 0 word_max ms p ps (subst (Chain 0 word_max) e' chain) in
      let tail : All (λ b. area.start ≤ b.start) ps =
        All-imp (Within p.end word_max) (λ b. area.start ≤ b.start) (λ b k. omega arith) ps
          (Chain-Within p.end word_max ps cps) in
      let rest =
        (cut_unique area.start ls rs ms (p ∷ ps) (sym e ∙ e') starts later_starts all
          (le, tail)).1 in
      rw f (next_found p ps rest)
