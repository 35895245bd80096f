-- ===== src/Mm/Vma/Absorb.antt =====
-- One half of the loop of `insert_area`, which looks at the area before the new one.
use old_boruixkernel.Common.{
  ℕ, suc, ◌+◌, ◌≤◌, ◌<◌, ◌≡◌, refl, sym, ap, ◌∙◌, subst, Bool, true, false, Option, none, List, [],
  ◌∷◌, ◌++◌, arith, All, All-imp, ltb, ◌==◌, ◌&&◌, Bool-cases, inl, inr, word_max, length,
  length-append, append_assoc, ltb→lt, ltb→ge,
}
use old_boruixkernel.Mm.Vma.Area.{MemoryArea, contains}
use old_boruixkernel.Mm.Vma.{areas, remove_node}
use old_boruixkernel.Mm.Vma.Shape.{IsSound, remove_node-IsSound}
use old_boruixkernel.Mm.Vma.Order.{
  Chain, Chain-cut, Chain-join, Within, Chain-Within, PrevOf, no_prev, prev,
}
use old_boruixkernel.Mm.Vma.Contents.{areas-remove_node}
use old_boruixkernel.Mm.Vma.Overlap.{
  overlaps, overlaps_hit, overlaps_past, overlaps_start, cover, cover_joined,
}
use old_boruixkernel.Mm.Vma.Insert.{Vma, Half, rejected, settled, absorb_prev_at}

-- An area over some areas maps as another one does over others, and clashes with as many.
pub record Same (area area' : MemoryArea) (xs xs' : List MemoryArea) : Type 0 where
  pub flags : area'.flags ≡ area.flags
  pub covers : (addr : ℕ) → cover addr area' xs' ≡ cover addr area xs
  pub clashes : overlaps area'.start area'.end xs' ≡ overlaps area.start area.end xs

pub Same-refl : (area : MemoryArea) (xs : List MemoryArea) → Same area area xs xs
Same-refl area xs = record { flags = refl; covers = λ addr. refl; clashes = refl }

pub Same-trans :
    (a b c : MemoryArea) (xs ys zs : List MemoryArea)
    → Same a b xs ys
    → Same b c ys zs
    → Same a c xs zs
Same-trans a b c xs ys zs p q = record {
  flags = q.flags ∙ p.flags;
  covers = λ addr. q.covers addr ∙ p.covers addr;
  clashes = q.clashes ∙ p.clashes;
}

-- What a merge takes off the number of areas.
abbrev pub taken : Bool → ℕ
taken true = 1
taken false = 0

Chain-from :
    (lo lo' hi : ℕ) (xs : List MemoryArea)
    → lo' ≤ hi
    → All (λ b. lo' ≤ b.start) xs
    → Chain lo hi xs
    → Chain lo' hi xs
Chain-from lo lo' hi [] h all c = h
Chain-from lo lo' hi (a ∷ xs) h all c = (all.0, c.1, c.2)

-- The first half is done: all areas before the new one end in time, all others start later.
pub data PrevDone (v : Vma) (area : MemoryArea) (h : Half) : Type 0 where
  prev_clash :
      (v' : Vma)
      → h ≡ rejected v'
      → overlaps area.start area.end (areas v.root) ≡ true
      → PrevDone v area h
  prev_cut :
      (v' : Vma) (area' : MemoryArea) (merged : Bool) (ls rs : List MemoryArea)
      → h ≡ settled v' area' merged
      → IsSound v'.root
      → areas v'.root ≡ ls ++ rs
      → Chain 0 area'.start ls
      → area'.start < area'.end
      → area'.end ≤ word_max
      → Chain (suc area'.start) word_max rs
      → Same area area' (areas v.root) (areas v'.root)
      → length (areas v'.root) + taken merged ≤ length (areas v.root)
      → PrevDone v area h

module _ (area p : MemoryArea) (ls rs : List MemoryArea) (ends : All (λ b. b.end ≤ p.start) ls)
    (later : All (λ b. area.start < b.end) rs) (solid : p.start < p.end)
    (joint : p.end ≡ area.start) (n : area.start < area.end) (same : p.flags ≡ area.flags) where
  -- Absorbing the area just before changes neither the map nor the clashes.
  absorb_prev-Same : Same area (record area { start = p.start }) (ls ++ (p ∷ rs)) (ls ++ rs)
  unfolding contains overlaps
  absorb_prev-Same = record {
    flags = refl;
    covers = λ addr. sym (
        cover_joined addr ls p rs area (record area { start = p.start }) ends same refl
          (ground arith));
    clashes =
        overlaps_past p.start area.end ls rs ends
        ∙ overlaps_start p.start area.start area.end rs (
            All-imp (λ b. area.start < b.end) (λ b. (p.start < b.end) × (area.start < b.end))
              (λ b w. omega arith) rs later)
        ∙ sym (
            overlaps_past area.start area.end ls (p ∷ rs) (
              All-imp (λ b. b.end ≤ p.start) (λ b. b.end ≤ area.start) (λ b w. omega arith) ls ends)
            ∙ ground arith);
  }

module _ (v : Vma) (area : MemoryArea) (s : IsSound v.root) (c : Chain 0 word_max (areas v.root))
    (n : area.start < area.end) (w : area.end ≤ word_max) where
  prev_missing :
      All (λ b. area.start < b.start) (areas v.root) → PrevDone v area (settled v area false)
  prev_missing all =
      prev_cut v area false [] (areas v.root) refl s refl (omega arith) n w
        (Chain-from 0 (suc area.start) word_max (areas v.root) (omega arith) all c)
        (Same-refl area (areas v.root)) (omega arith)

  module _ (ls : List MemoryArea) (p : MemoryArea) (rs : List MemoryArea)
      (e : areas v.root ≡ ls ++ (p ∷ rs)) (all : All (λ b. area.start < b.start) rs) where
    prev_apart : p.end ≤ area.start → PrevDone v area (settled v area false)
    prev_apart h =
        let (cl, cp, cr) = Chain-cut 0 word_max ls p rs (subst (Chain 0 word_max) e c) in
        prev_cut v area false (ls ++ (p ∷ [])) rs refl s (e ∙ sym (append_assoc ls (p ∷ []) rs))
          (Chain-join 0 p.start p.start area.start ls (p ∷ []) cl (omega arith)
            (omega arith, cp, h))
          n w (Chain-from p.end (suc area.start) word_max rs (omega arith) all cr)
          (Same-refl area (areas v.root)) (omega arith)

    prev_merge :
        (v' : Vma)
        → p.end ≡ area.start
        → p.flags ≡ area.flags
        → v'.root ≡ (remove_node v.root p.start).0
        → PrevDone v area (settled v' (record area { start = p.start }) true)
    prev_merge v' h f r =
        let (cl, cp, cr) = Chain-cut 0 word_max ls p rs (subst (Chain 0 word_max) e c) in
        let gone : areas v'.root ≡ ls ++ rs =
          ap areas r ∙ (areas-remove_node v.root 0 word_max ls p rs s c (omega arith) e).0 in
        let ends =
          All-imp (Within 0 p.start) (λ b. b.end ≤ p.start) (λ b k. k.2) ls
            (Chain-Within 0 p.start ls cl) in
        let later =
          All-imp (Within p.end word_max) (λ b. area.start < b.end) (λ b k. omega arith) rs
            (Chain-Within p.end word_max rs cr) in
        let same : Same area (record area { start = p.start }) (areas v.root) (areas v'.root) =
          rw (e, gone) (absorb_prev-Same area p ls rs ends later cp h n f) in
        prev_cut v' (record area { start = p.start }) true ls rs refl
          (rw r (remove_node-IsSound v.root p.start s)) gone cl (omega arith) w
          (Chain-from p.end (suc p.start) word_max rs (omega arith)
            (All-imp (Within p.end word_max) (λ b. suc p.start ≤ b.start) (λ b k. omega arith) rs
              (Chain-Within p.end word_max rs cr))
            cr)
          same
          (omega
            (arith, ap length gone, ap length e, length-append ls rs, length-append ls (p ∷ rs)))

  pub prev_done :
      (found : Option MemoryArea)
      → PrevOf area.start none (areas v.root) found
      → PrevDone v area (absorb_prev_at v area found)
  prev_done found (no_prev e all) = rw e (prev_missing all)
  prev_done found (prev ls p rs e f le all) = rw f (elim (Bool-cases (ltb area.start p.end)) [
    | inl hit ↦ rw hit (
        prev_clash _ refl (
          rw e
            (overlaps_hit area.start area.end ls p rs (omega arith) (ltb→lt area.start p.end hit))))
    | inr apart ↦ rw apart (elim (Bool-cases ((p.end == area.start) && (p.flags == area.flags))) [
      | inl join ↦ rw join (prev_merge ls p rs e all _ (ground arith) (ground arith) refl)
      | inr other ↦ rw other (prev_apart ls p rs e all (ltb→ge area.start p.end apart))
    ])
  ])
