-- ===== src/Mm/Frame/Buddy/FromList.antt =====
-- `alloc_from_list` over the set of free blocks.
use old_boruixkernel.Common.{
  ℕ, zero, suc, ◌+◌, ◌-◌, ◌≤◌, ◌<◌, ◌≡◌, ◌⊎◌, ◌↔◌, refl, sym, ◌∙◌, false, ◌==◌, arith, Bool-cases,
  inl, inr, subst,
}
use old_boruixkernel.Mm.Frame.{Pmm, max_order, claim_as}
use old_boruixkernel.Mm.Frame.Buddy.{count_hit_global, split_down, try_higher, alloc_from_list}
use old_boruixkernel.Mm.Frame.Buddy.Lists.{is_free}
use old_boruixkernel.Mm.Frame.Buddy.Blocks.{InBlock, Fits, Covered}
use old_boruixkernel.Mm.Frame.Buddy.Merge.{IsBuddy, not_free}
use old_boruixkernel.Mm.Frame.Buddy.Split.{
  Splits, split_down-Splits, claim_as-view, claim_as-IsBuddy,
}
use old_boruixkernel.Mm.Frame.Buddy.Alloc.{
  Takes, Taken, one, nothing, NoneOf, pop_from_global-Taken,
}

-- A larger block that has been taken and split leaves the lower part as the block taken.
split-Takes :
    (o p higher : ℕ) (m m1 : Pmm)
    → o ≤ higher
    → Takes p higher m m1
    → let split = split_down o (higher - o) p (count_hit_global m1) in
      Takes p o m (record split { frames = claim_as p o split.frames })
split-Takes o p higher m m1 le t =
    let counted = count_hit_global m1 in
    let whole : o + (higher - o) ≡ higher = omega arith in
    let s : Splits p o (o + (higher - o)) counted (split_down o (higher - o) p counted) =
      split_down-Splits o (higher - o) p counted
        (record { linked = t.buddy.linked; blocks = t.buddy.blocks })
        (subst (λ z. Fits (is_free m1.frames) p z) (sym whole) t.fits) in
    let m2 = split_down o (higher - o) p counted in
    let taken = not_free m2.frames p o s.fits in
    let view = claim_as-view m2 s.buddy p o taken in
    record {
      buddy = claim_as-IsBuddy m2 s.buddy p o taken;
      fits = subst (λ v. Fits v p o) (sym view) s.fits;
      covered = λ a.
          let (to, from) = s.covered a in
          let (out, back) = t.covered a in
          (
            λ c.
                elim (to (elim (out c) [
                  | inl x ↦ inl x
                  | inr x ↦ inr (subst (λ z. InBlock a p z) (sym whole) x)
                ])) [ inl x ↦ inl (subst (λ v. Covered v a) (sym view) x) | inr x ↦ inr x ],
            λ s'.
                back
                  (elim (from
                    (elim s' [ inl x ↦ inl (subst (λ v. Covered v a) view x) | inr x ↦ inr x ])) [
                      | inl x ↦ inl x
                      | inr x ↦ inr (subst (λ z. InBlock a p z) whole x)
                    ]),
          );
      state_at = ground arith;
    }

-- Only the frames and the heads count for a block that is taken.
same-Takes : (p o : ℕ) (m n m' : Pmm) → n.frames ≡ m.frames → Takes p o n m' → Takes p o m m'
same-Takes p o m n m' e t = record {
  buddy = t.buddy;
  fits = t.fits;
  covered = λ a.
      subst (λ fs. Covered (is_free fs) a ↔ (Covered (is_free m'.frames) a ⊎ InBlock a p o)) e
        (t.covered a);
  state_at = t.state_at;
}

same-IsBuddy : (m n : Pmm) → n.frames ≡ m.frames → n.heads ≡ m.heads → IsBuddy m → IsBuddy n
same-IsBuddy m n e k b = record { linked = rw (e, k) b.linked; blocks = rw e b.blocks }

-- No block of the orders from `low` to below `high` is free.
abbrev pub NoneBetween : ℕ → ℕ → Pmm → Type 0
NoneBetween low high m = (i : ℕ) → low ≤ i → i < high → NoneOf i m

try_higher-Taken :
    (o cpu n higher : ℕ) (m : Pmm)
    → o ≤ higher
    → IsBuddy m
    → Taken o m (NoneBetween higher (higher + n) m) (try_higher o cpu n higher m)
unfolding try_higher
try_higher-Taken o cpu zero higher m le b = nothing m refl refl refl (λ i x y. absurd (omega arith))
try_higher-Taken o cpu (suc n) higher m le b = elim (pop_from_global-Taken higher cpu m b) [
  | one p m1 q t ↦
      let split = split_down o (higher - o) p (count_hit_global m1) in
      one p (record split { frames = claim_as p o split.frames }) (rw (q, try_higher) refl)
        (split-Takes o p higher m m1 le t)
  | nothing m1 q fs hs none_here ↦
      elim (try_higher-Taken o cpu n (higher + 1) m1 (omega arith) (same-IsBuddy m m1 fs hs b)) [
        | one p m' r t ↦ one p m' (rw (q, try_higher) r) (same-Takes p o m m1 m' fs t)
        | nothing m' r fs' hs' clear ↦
            nothing m' (rw (q, try_higher) r) (fs' ∙ fs) (hs' ∙ hs) (λ i x y p.
              elim (Bool-cases (i == higher)) [
                | inl here ↦
                    let at : higher ≡ i = ground arith in
                    subst (λ z. is_free m.frames p z ≡ false) at (none_here p)
                | inr above ↦
                    subst (λ fs. is_free fs p i ≡ false) fs (clear i (ground arith) (omega arith) p)
              ])
      ]
]

-- `alloc_from_list` takes a block of the order out of the free ones, whatever larger block it splits,
-- or none where no block of the order or a higher one is free. The block meets none that stays free,
-- the free frames of before are those of after and the block's, and the lists stay in order.
pub alloc_from_list-Taken :
    (o cpu : ℕ) (m : Pmm)
    → IsBuddy m
    → Taken o m (NoneBetween o max_order m) (alloc_from_list o cpu m)
unfolding alloc_from_list
alloc_from_list-Taken o cpu m b = elim (pop_from_global-Taken o cpu m b) [
  | one p m1 q t ↦ one p (count_hit_global m1) (rw (alloc_from_list, q) refl) (record {
    buddy = record { linked = t.buddy.linked; blocks = t.buddy.blocks };
    fits = t.fits;
    covered = t.covered;
    state_at = t.state_at;
  })
  | nothing m1 q fs hs none_here ↦
      elim (try_higher-Taken o cpu (max_order - (o + 1)) (o + 1) m1 (omega arith)
        (same-IsBuddy m m1 fs hs b)) [
          | one p m' r t ↦ one p m' (rw (alloc_from_list, q) r) (same-Takes p o m m1 m' fs t)
          | nothing m' r fs' hs' clear ↦
              nothing m' (rw (alloc_from_list, q) r) (fs' ∙ fs) (hs' ∙ hs) (λ i x y p.
                elim (Bool-cases (i == o)) [
                  | inl here ↦
                      let at : o ≡ i = ground arith in
                      subst (λ z. is_free m.frames p z ≡ false) at (none_here p)
                  | inr above ↦
                      subst (λ fs. is_free fs p i ≡ false) fs
                        (clear i (ground arith) (omega arith) p)
                ])
        ]
]
