-- ===== src/Mm/Frame/Buddy/Split.antt =====
-- The split of a free block: what goes back to the lists, and the lower part that is kept.
use old_boruixkernel.Common.{
  ℕ, zero, suc, ◌+◌, ◌^◌, ◌≡◌, ◌≢◌, ◌⊎◌, ◌↔◌, sym, fun_ext, false, none, arith, Bool-cases, inl,
  inr, subst, ltb, ltb→lt, ltb→ge,
}
use old_boruixkernel.Mm.Frame.{Pmm, claim_as}
use old_boruixkernel.Mm.Frame.Links.{Chain-frame}
use old_boruixkernel.Mm.Frame.Buddy.{is_global, push_to_global, split_down}
use old_boruixkernel.Mm.Frame.Buddy.Lists.{is_free, absent}
use old_boruixkernel.Mm.Frame.Buddy.Blocks.{
  Blocks, InBlock, Fits, Apart, Covered, pow_pos, pow_double, clear-Fits, outside_of_Fits,
}
use old_boruixkernel.Mm.Frame.Buddy.Merge.{IsBuddy, Gains, push_to_global-Gains, not_free}

-- A frame that is not free is claimed with an order: no free block and no list sees it.
module _ (m : Pmm) (b : IsBuddy m) (p o : ℕ) (taken : is_global (m.frames p).state ≡ false) where
  pub claim_as-view : is_free (claim_as p o m.frames) ≡ is_free m.frames
  claim_as-view = fun_ext λ q. fun_ext λ i. ground arith

  pub claim_as-IsBuddy : IsBuddy (record m { frames = claim_as p o m.frames })
  claim_as-IsBuddy = record {
    linked = record {
      lists = b.linked.lists;
      chain = λ i s.
          Chain-frame m.frames (claim_as p o m.frames) none (m.heads i s) (b.linked.lists i s)
            (λ j h.
              let out = absent m.frames m.heads b.linked p o taken i s in
              let ne : j ≢ p = λ z. ground arith in (ground arith, ground arith))
            (b.linked.chain i s);
      distinct = b.linked.distinct;
      members = λ i s q. ground (arith, b.linked.members i s q);
    };
    blocks = subst Apart (sym claim_as-view) b.blocks;
  }

-- A block has been kept out of another: the free blocks and it are those of before and the whole.
pub record Splits (p o whole : ℕ) (m m' : Pmm) : Type 0 where
  pub buddy : IsBuddy m'
  pub fits : Fits (is_free m'.frames) p o
  pub covered :
      (a : ℕ)
      → (Covered (is_free m.frames) a ⊎ InBlock a p whole)
        ↔ (Covered (is_free m'.frames) a ⊎ InBlock a p o)

-- The upper half of a block that fits.
upper-Fits : (free : Blocks) (p j : ℕ) → Fits free p (j + 1) → Fits free (p + 2 ^ j) j
upper-Fits free p j f q i h = elim (f q i h) [
  | inl x ↦ inl (omega (arith, pow_double j))
  | inr x ↦ inr (omega (arith, pow_pos j))
]

lower_half-Fits : (free : Blocks) (p j : ℕ) → Fits free p (j + 1) → Fits free p j
lower_half-Fits free p j f q i h = elim (f q i h) [
  | inl x ↦ inl (omega (arith, pow_double j))
  | inr x ↦ inr x
]

halves : (a p j : ℕ) → InBlock a p (j + 1) ↔ (InBlock a p j ⊎ InBlock a (p + 2 ^ j) j)
halves a p j = (
  λ h. elim (Bool-cases (ltb a (p + 2 ^ j))) [
    | inl l ↦ inl (h.0, ltb→lt a (p + 2 ^ j) l)
    | inr g ↦ inr (ltb→ge a (p + 2 ^ j) g, omega (arith, pow_double j))
  ],
  λ h. elim h [
    | inl (x, y) ↦ (x, omega (arith, pow_double j))
    | inr (x, y) ↦ (omega arith, omega (arith, pow_double j))
  ],
)

pub split_down-Splits :
    (o n p : ℕ) (m : Pmm)
    → IsBuddy m
    → Fits (is_free m.frames) p (o + n)
    → Splits p o (o + n) m (split_down o n p m)
unfolding split_down
split_down-Splits o zero p m b f =
    let e : o + 0 ≡ o = omega arith in
    rw e (record {
      buddy = b;
      fits = subst (λ z. Fits (is_free m.frames) p z) e f;
      covered = λ a. (λ x. x, λ x. x);
    })
split_down-Splits o (suc n) p m b f =
    let j = o + n in
    let e : o + suc n ≡ j + 1 = omega arith in
    let free = is_free m.frames in
    let f' : Fits free p (j + 1) = subst (λ z. Fits free p z) e f in
    let up = upper-Fits free p j f' in
    let taken = not_free m.frames (p + 2 ^ j) j up in
    let m1 = record m { frames = claim_as (p + 2 ^ j) j m.frames } in
    let b1 : IsBuddy m1 = claim_as-IsBuddy m b (p + 2 ^ j) j taken in
    let view : is_free m1.frames ≡ free = claim_as-view m b (p + 2 ^ j) j taken in
    let g : Gains (p + 2 ^ j) j m1 (push_to_global (p + 2 ^ j) j m1) =
      push_to_global-Gains m1 b1 (p + 2 ^ j) j (subst (λ v. Fits v (p + 2 ^ j) j) (sym view) up) in
    let pushed = push_to_global (p + 2 ^ j) j m1 in
    let fits : Fits (is_free pushed.frames) p j = clear-Fits (is_free pushed.frames) p j (λ a c.
      elim ((g.covered a).0 c) [
        | inl x ↦
            outside_of_Fits free p j (lower_half-Fits free p j f') a
              (subst (λ v. Covered v a) view x)
        | inr x ↦ inr x.0
      ]) in
    let rest = split_down-Splits o n p pushed g.buddy fits in
    record {
      buddy = rest.buddy;
      fits = rest.fits;
      covered = λ a.
          let (split, join) = halves a p j in
          let (to, from) = rest.covered a in
          let whole : InBlock a p (o + suc n) → InBlock a p (j + 1) =
            subst (λ z. InBlock a p z) e in
          let whole' : InBlock a p (j + 1) → InBlock a p (o + suc n) =
            subst (λ z. InBlock a p z) (sym e) in
          (
            λ s. to (elim s [
              | inl c ↦ inl ((g.covered a).1 (inl (subst (λ v. Covered v a) (sym view) c)))
              | inr x ↦ elim (split (whole x)) [
                | inl y ↦ inr y
                | inr y ↦ inl ((g.covered a).1 (inr y))
              ]
            ]),
            λ s. elim (from s) [
              | inl c ↦ elim ((g.covered a).0 c) [
                | inl x ↦ inl (subst (λ v. Covered v a) view x)
                | inr x ↦ inr (whole' (join (inr x)))
              ]
              | inr x ↦ inr (whole' (join (inl x)))
            ],
          );
    }
