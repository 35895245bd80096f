-- ===== src/Mm/Vma/Insertion.antt =====
-- `insert_area` beside its specification: the overlaps of an area with the others, and the flags of
-- each address.
use old_boruixkernel.Common.{
  bump, gt→leb, ℕ, zero, suc, ◌+◌, ◌≤◌, ◌<◌, ◌≡◌, refl, sym, ◌∙◌, Bool, true, false, Option, none,
  some, List, ◌∷◌, ◌++◌, arith, All, All-imp, leb, Bool-cases, inl, inr, word_max, length, ◌⊎◌,
  leb→gt,
}
use old_boruixkernel.Mm.Vma.Area.{MemoryArea}
use old_boruixkernel.Mm.Vma.{areas, insert_node}
use old_boruixkernel.Mm.Vma.Shape.{IsSound, insert_node-IsSound}
use old_boruixkernel.Mm.Vma.Order.{
  Chain, Chain-le, Chain-join, Within, Chain-Within, find_prev-PrevOf, find_next-NextOf,
}
use old_boruixkernel.Mm.Vma.Lookup.{find_prev, find_next}
use old_boruixkernel.Mm.Vma.Contents.{areas-insert_node}
use old_boruixkernel.Mm.Vma.Overlap.{
  overlaps, cover, flags_at, flags_at-cover, overlaps_past, overlaps_clear,
}
use old_boruixkernel.Mm.Vma.Insert.{
  Vma, Half, absorb_prev, absorb_next, absorb_round, then_next, insert_loop, insert_area, Outcome,
  ok, invalid_access,
}
use old_boruixkernel.Mm.Vma.Absorb.{
  Same, Same-trans, taken, PrevDone, prev_clash, prev_cut, prev_done,
}
use old_boruixkernel.Mm.Vma.AbsorbNext.{NextDone, next_clash, fits, next_done}

-- The invariant of a `VmaTree`: the treap is sound, and its areas lie in order without overlap.
pub record IsValid (v : Vma) : Type 0 where
  pub sound : IsSound v.root
  pub ordered : Chain 0 word_max (areas v.root)

onward :
    (v v' : Vma) (area area' : MemoryArea) (merged : Bool) (h : Half)
    → Same area area' (areas v.root) (areas v'.root)
    → length (areas v'.root) + taken merged ≤ length (areas v.root)
    → NextDone v' area' merged h
    → NextDone v area false h
onward v v' area area' merged h same len (next_clash w e hit) =
    next_clash w e (sym same.clashes ∙ hit)
onward v v' area area' merged h same len (fits w b m ls rs e s c cl n cr same' len') =
    fits w b m ls rs e s c cl n cr
      (Same-trans area area' b (areas v.root) (areas v'.root) (areas w.root) same same')
      (omega arith)

-- A round of the loop ends in the error only where the area clashes; else it leaves an area that
-- fits, as a part of the same map, and where it merged there are fewer areas.
round_done :
    (v : Vma) (area : MemoryArea)
    → IsValid v
    → area.start < area.end
    → area.end ≤ word_max
    → NextDone v area false (absorb_round v area)
unfolding absorb_round find_prev find_next
round_done v area valid n w = go (absorb_prev v area) (
    prev_done v area valid.sound valid.ordered n w _
      (find_prev-PrevOf v.root area.start 0 word_max none valid.sound valid.ordered))
  where
    go : (h : Half) → PrevDone v area h → NextDone v area false (then_next h)
    go h (prev_clash v' e hit) = rw e (next_clash v' refl hit)
    go h (prev_cut v' b merged ls rs e s c cl n' w' cr same len) =
        let chain : Chain 0 word_max (areas v'.root) =
          rw c (Chain-join 0 b.start (suc b.start) word_max ls rs cl (omega arith) cr) in
        rw e (
          onward v v' area b merged (absorb_next v' b merged) same len (
            next_done v' b merged ls rs s c cl n' w' cr _
              (find_next-NextOf v'.root b.start 0 word_max none s chain)))

-- How the loop ends.
pub data LoopDone (v : Vma) (area : MemoryArea) (r : Option (Vma × Outcome)) : Type 0 where
  refused :
      (v' : Vma)
      → r ≡ some (v', invalid_access)
      → overlaps area.start area.end (areas v.root) ≡ true
      → LoopDone v area r
  inserted :
      (v' : Vma)
      → r ≡ some (v', ok)
      → overlaps area.start area.end (areas v.root) ≡ false
      → IsValid v'
      → ((addr : ℕ) → flags_at addr (areas v'.root) ≡ cover addr area (areas v.root))
      → LoopDone v area r

module _ (v : Vma) (area : MemoryArea) (ls rs : List MemoryArea) (s : IsSound v.root)
    (c : areas v.root ≡ ls ++ rs) (cl : Chain 0 area.start ls) (n : area.start < area.end)
    (cr : Chain area.end word_max rs) where
  ends : All (λ b. b.end ≤ area.start) ls
  ends =
      All-imp (Within 0 area.start) (λ b. b.end ≤ area.start) (λ b k. k.2) ls
        (Chain-Within 0 area.start ls cl)

  fits_clear : overlaps area.start area.end (areas v.root) ≡ false
  fits_clear = rw c (
      overlaps_past area.start area.end ls rs ends
      ∙ overlaps_clear area.start area.end rs (
          All-imp (Within area.end word_max) (λ b. area.end ≤ b.start) (λ b k. k.0) rs
            (Chain-Within area.end word_max rs cr)))

  fits_contents : areas (insert_node v.root area) ≡ ls ++ (area ∷ rs)
  fits_contents =
      areas-insert_node v.root area 0 word_max ls rs s
        (rw c (Chain-join 0 area.start area.end word_max ls rs cl (omega arith) cr)) c
        (All-imp (Within 0 area.start) (λ b. b.start < area.start) (λ b k. omega arith) ls
          (Chain-Within 0 area.start ls cl))
        (All-imp (Within area.end word_max) (λ b. area.start ≤ b.start) (λ b k. omega arith) rs
          (Chain-Within area.end word_max rs cr))

  fits-IsValid : IsValid (record v { root = insert_node v.root area })
  fits-IsValid = record {
    sound = insert_node-IsSound v.root area s;
    ordered = rw fits_contents (
        Chain-join 0 area.start area.start word_max ls (area ∷ rs) cl (omega arith)
          (omega arith, n, cr));
  }

  fits_map :
      (addr : ℕ) → flags_at addr (areas (insert_node v.root area)) ≡ cover addr area (areas v.root)
  fits_map addr = rw (fits_contents, c) (flags_at-cover addr ls area rs ends)

again :
    (v v' : Vma) (area b : MemoryArea) (fuel : ℕ)
    → Same area b (areas v.root) (areas v'.root)
    → LoopDone v' b (insert_loop fuel v' b)
    → LoopDone v area (insert_loop fuel v' b)
again v v' area b fuel same (refused w e hit) = refused w e (sym same.clashes ∙ hit)
again v v' area b fuel same (inserted w e clear valid covers) =
    inserted w e (sym same.clashes ∙ clear) valid (λ addr. covers addr ∙ same.covers addr)

loop_done :
    (fuel : ℕ) (v : Vma) (area : MemoryArea)
    → IsValid v
    → area.start < area.end
    → area.end ≤ word_max
    → length (areas v.root) < fuel
    → LoopDone v area (insert_loop fuel v area)
unfolding insert_loop
loop_done zero v area valid n w more = absurd (omega arith)
loop_done (suc fuel) v area valid n w more = elim (round_done v area valid n w) [
  | next_clash v' e hit ↦ rw (e, insert_loop) (refused v' refl hit)
  | fits v' b true ls rs e s c cl n' cr same len ↦
      let valid' : IsValid v' = record {
        sound = s;
        ordered = rw c (Chain-join 0 b.start b.end word_max ls rs cl (omega arith) cr);
      } in
      rw (e, insert_loop)
        (again v v' area b fuel same
          (loop_done fuel v' b valid' n' (Chain-le b.end word_max rs cr) (omega arith)))
  | fits v' b false ls rs e s c cl n' cr same len ↦
      rw (e, insert_loop)
        (inserted _ refl (sym same.clashes ∙ fits_clear v' b ls rs s c cl n' cr)
          (fits-IsValid v' b ls rs s c cl n' cr)
          (λ addr. fits_map v' b ls rs s c cl n' cr addr ∙ same.covers addr))
]

module _ (fuel : ℕ) (v : Vma) (area : MemoryArea) (valid : IsValid v) (w : area.end ≤ word_max)
    (enough : length (areas v.root) < fuel) where
  counted : Vma
  counted = record v { stats = record (v.stats) { inserts = bump v.stats.inserts } }

  start_done : area.start < area.end → LoopDone v area (insert_area fuel v area)
  unfolding insert_area counted
  start_done n =
      let test = gt→leb area.end area.start n in
      let begun : IsValid counted = record { sound = valid.sound; ordered = valid.ordered } in
      rw (test)
        (restart (insert_loop fuel counted area) (loop_done fuel counted area begun n w enough))
    where
      restart : (r : Option (Vma × Outcome)) → LoopDone counted area r → LoopDone v area r
      restart r (refused v' e hit) = refused v' e hit
      restart r (inserted v' e clear valid' covers) = inserted v' e clear valid' covers

  -- `insert_area` accepts an area that is not empty and meets no other. The tree stays valid, each
  -- address of the area has the area's flags, and every other address has the flags that it had.
  pub insert_area-accepts :
      area.start < area.end
      → overlaps area.start area.end (areas v.root) ≡ false
      → (v' : Vma) × (insert_area fuel v area ≡ some (v', ok))
        × IsValid v'
        × ((addr : ℕ) → flags_at addr (areas v'.root) ≡ cover addr area (areas v.root))
  insert_area-accepts n clear = elim (start_done n) [
    | refused v' e hit ↦ cc
    | inserted v' e c valid' covers ↦ (v', e, valid', covers)
  ]

  -- `insert_area` refuses an area that is empty or that meets another.
  pub insert_area-refuses :
      (area.end ≤ area.start) ⊎ (overlaps area.start area.end (areas v.root) ≡ true)
      → (v' : Vma) × (insert_area fuel v area ≡ some (v', invalid_access))
  unfolding insert_area
  insert_area-refuses h = elim (Bool-cases (leb area.end area.start)) [
    | inl empty ↦ (v, rw empty)
    | inr solid ↦
        let n : area.start < area.end = leb→gt area.end area.start solid in
        elim (start_done n) [
          | refused v' e hit ↦ (v', e)
          | inserted v' e clear valid' covers ↦ absurd (ground arith)
        ]
  ]
