-- ===== src/Mm/Frame/Pools/Global.antt =====
-- `alloc_global` over the frames that are free or in a region.
use old_boruixkernel.Common.{
  ℕ, ◌+◌, ◌^◌, ◌≤◌, ◌<◌, ◌≡◌, ◌⊎◌, refl, sym, Option, some, none, arith, inl, inr, subst, get_or,
  bump,
}
use old_boruixkernel.Mm.Frame.{Pmm, Counters, max_order, claim_as}
use old_boruixkernel.Mm.Frame.Buddy.Lists.{is_free}
use old_boruixkernel.Mm.Frame.Buddy.Blocks.{Covered, side, clear-Fits, outside_of_Fits}
use old_boruixkernel.Mm.Frame.Buddy.Merge.{not_free}
use old_boruixkernel.Mm.Frame.Buddy.Split.{claim_as-view, claim_as-IsBuddy}
use old_boruixkernel.Mm.Frame.Buddy.Alloc.{Takes, one, nothing}
use old_boruixkernel.Mm.Frame.Buddy.FromList.{NoneBetween, alloc_from_list-Taken}
use old_boruixkernel.Mm.Frame.Uninit.Regions.{Unused, Stock, IsStocked, Leaves}
use old_boruixkernel.Mm.Frame.Uninit.Scan.{one, nothing, alloc_from_uninit-Cut}
use old_boruixkernel.Mm.Frame.Pools.{alloc_global, count}
use old_boruixkernel.Mm.Frame.Pools.Kept.{alloc_from_list-IsKept}

-- How `alloc_global` ends: with a block out of the stock, or with the stock as it was.
pub data Served (o : ℕ) (m : Pmm) (r : Option ℕ × Pmm) : Type 0 where
  served : (p : ℕ) (m' : Pmm) → r ≡ (some p, m') → Leaves p o m m' → Served o m r
  refused :
      (m' : Pmm)
      → r ≡ (none, m')
      → m'.frames ≡ m.frames
      → m'.heads ≡ m.heads
      → m'.regions ≡ m.regions
      → NoneBetween o max_order m
      → Served o m r

module _ (m m' : Pmm) (regions : m'.regions ≡ m.regions) where
  unused : (a : ℕ) → Unused m'.regions a → Unused m.regions a
  unused a u = subst (λ rs. Unused rs a) regions u

  -- A block of the free lists is one of the stock, and the regions stay.
  Takes-Leaves : (p o : ℕ) → IsStocked m → Takes p o m m' → Leaves p o m m'
  Takes-Leaves p o w t =
      let away : (a : ℕ) → Unused m.regions a → (a < p) ⊎ (p + 2 ^ o ≤ a) = λ a u.
        elim (side a p (p + 2 ^ o)) [
          | inr away ↦ away
          | inl inside ↦
              let (i, r, e, (lo, hi)) = u in
              let (out, back) = t.covered a in
              elim (w.outside a i r (back (inr inside)) e) [
                | inl x ↦ absurd (omega arith)
                | inr x ↦ absurd (omega arith)
              ]
        ] in
      record {
        stocked = record {
          buddy = t.buddy;
          one_region = λ a i j r s e k.
              w.one_region a i j r s (subst (λ rs. get_or rs i none ≡ some r) regions e)
                (subst (λ rs. get_or rs j none ≡ some s) regions k);
          outside = λ a i r c e.
              let (out, back) = t.covered a in
              w.outside a i r (back (inl c)) (subst (λ rs. get_or rs i none ≡ some r) regions e);
        };
        clear = λ a s. elim s [
          | inl c ↦ outside_of_Fits (is_free m'.frames) p o t.fits a c
          | inr u ↦ away a (unused a u)
        ];
        stock = λ a.
            let (out, back) = t.covered a in
            (
              (λ s. elim s [
                | inl c ↦ elim (out c) [ inl x ↦ inl (inl x) | inr x ↦ inr x ]
                | inr u ↦ inl (inr (subst (λ rs. Unused rs a) (sym regions) u))
              ]),
              λ s. elim s [
                | inr x ↦ inl (back (inr x))
                | inl x ↦ elim x [ inl c ↦ inl (back (inl c)) | inr u ↦ inr (unused a u) ]
              ],
            );
      }

-- The stock is the metadata's, the heads' and the regions'.
pub same-IsStocked :
    (m n : Pmm)
    → n.frames ≡ m.frames
    → n.heads ≡ m.heads
    → n.regions ≡ m.regions
    → IsStocked m
    → IsStocked n
same-IsStocked m n e k g w = record {
  buddy = record { linked = rw (e, k) w.buddy.linked; blocks = rw e w.buddy.blocks };
  one_region = λ a i j r s x y.
      w.one_region a i j r s (subst (λ rs. get_or rs i none ≡ some r) g x)
        (subst (λ rs. get_or rs j none ≡ some s) g y);
  outside = λ a i r c x.
      w.outside a i r (subst (λ fs. Covered (is_free fs) a) e c)
        (subst (λ rs. get_or rs i none ≡ some r) g x);
}

-- `alloc_global` writes the metadata of the block that has left the regions.
claimed-Leaves :
    (p o : ℕ) (m n m1 : Pmm) (cs : Counters)
    → n.frames ≡ m.frames
    → n.regions ≡ m.regions
    → Leaves p o n m1
    → Leaves p o m (record m1 { frames = claim_as p o m1.frames; counters = cs })
claimed-Leaves p o m n m1 cs e g l =
    let fits = clear-Fits (is_free m1.frames) p o (λ a c. l.clear a (inl c)) in
    let taken = not_free m1.frames p o fits in
    let view = claim_as-view m1 l.stocked.buddy p o taken in
    let b = claim_as-IsBuddy m1 l.stocked.buddy p o taken in
    let f = record m1 { frames = claim_as p o m1.frames; counters = cs } in
    let to : (a : ℕ) → Stock f a → Stock m1 a =
      λ a s. elim s [ inl c ↦ inl (subst (λ v. Covered v a) view c) | inr u ↦ inr u ] in
    let from : (a : ℕ) → Stock m1 a → Stock f a =
      λ a s. elim s [ inl c ↦ inl (subst (λ v. Covered v a) (sym view) c) | inr u ↦ inr u ] in
    let before : (a : ℕ) → Stock n a → Stock m a = λ a s. elim s [
      | inl c ↦ inl (subst (λ fs. Covered (is_free fs) a) e c)
      | inr u ↦ inr (subst (λ rs. Unused rs a) g u)
    ] in
    let after : (a : ℕ) → Stock m a → Stock n a = λ a s. elim s [
      | inl c ↦ inl (subst (λ fs. Covered (is_free fs) a) (sym e) c)
      | inr u ↦ inr (subst (λ rs. Unused rs a) (sym g) u)
    ] in
    record {
      stocked = record {
        buddy = record { linked = b.linked; blocks = b.blocks };
        one_region = l.stocked.one_region;
        outside = λ a i r c. l.stocked.outside a i r (subst (λ v. Covered v a) view c);
      };
      clear = λ a s. l.clear a (to a s);
      stock = λ a.
          let (out, back) = l.stock a in
          (
            (λ s. elim (out (after a s)) [ inl x ↦ inl (from a x) | inr x ↦ inr x ]),
            λ s. before a (back (elim s [ inl x ↦ inl (to a x) | inr x ↦ inr x ])),
          );
    }

-- `alloc_global` takes a block out of the frames that are free or in a region, whatever list, larger
-- block or region it comes from: the stock of before is that of after and the block's, the block is in
-- none of it, and the lists, the free blocks and the regions stay apart. Or it changes no frame and no
-- region, and no block of the order or a higher one was free.
pub alloc_global-Served : (o cpu : ℕ) (m : Pmm) → IsStocked m → Served o m (alloc_global o cpu m)
unfolding alloc_global
alloc_global-Served o cpu m w = elim (alloc_from_list-Taken o cpu m w.buddy) [
  | one p m' e t ↦
      let kept = alloc_from_list-IsKept o cpu m in
      served p m' (rw (alloc_global, e) refl)
        (Takes-Leaves m m' (subst (λ r. r.1.regions ≡ m.regions) e kept.regions) p o w t)
  | nothing n e fs hs clear ↦
      let kept = alloc_from_list-IsKept o cpu m in
      let regions : n.regions ≡ m.regions = subst (λ r. r.1.regions ≡ m.regions) e kept.regions in
      elim (alloc_from_uninit-Cut o n (same-IsStocked m n fs hs regions w)) [
        | one p i m1 k _ l ↦
            served p
              (count (λ c. record c { alloc_hit_uninit = bump c.alloc_hit_uninit })
                (record m1 { frames = claim_as p o m1.frames }))
              (rw (alloc_global, e, k) refl)
              (claimed-Leaves p o m n m1
                (record (m1.counters) { alloc_hit_uninit = bump m1.counters.alloc_hit_uninit }) fs
                regions l)
        | nothing k _ ↦ refused n (rw (alloc_global, e, k) refl) fs hs regions clear
      ]
]
