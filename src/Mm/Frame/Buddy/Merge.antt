-- ===== src/Mm/Frame/Buddy/Merge.antt =====
-- `free_and_merge` over the set of free blocks.
use old_boruixkernel.Common.{
  ℕ, zero, suc, ◌+◌, ◌-◌, ◌%◌, ◌^◌, ◌≡◌, ◌≢◌, ◌⊎◌, ◌↔◌, refl, sym, ◌∙◌, fun_ext, true, false, ◌==◌,
  if◌then◌else◌, arith, Bool-cases, inl, inr, subst, ==_refl, ltb, leb, ltb→lt, ltb→ge,
}
use old_boruixkernel.Mm.Frame.{Frames, Pmm, shard_count, max_order, push_list}
use old_boruixkernel.Mm.Frame.Links.{push_list-Pushed, has}
use old_boruixkernel.Mm.Frame.Erase.{is_link-clear}
use old_boruixkernel.Mm.Frame.Buddy.{
  is_global, push_to_global, detach, count_list_op, buddy_of, merge_up, free_and_merge,
}
use old_boruixkernel.Mm.Frame.Buddy.Lists.{is_free, Linked, push_list-Linked, head_clear}
use old_boruixkernel.Mm.Frame.Buddy.Detach.{detached, unlinked, detach-Linked}
use old_boruixkernel.Mm.Frame.Buddy.Blocks.{
  Blocks, InBlock, Fits, Apart, Covered, add, drop, add-Apart, add-Covered, drop-Apart, drop-Fits,
  drop-Covered, buddy_of_cases, pow_pos, pow_double,
}

-- The lists are in order, and the free blocks do not meet.
pub record IsBuddy (m : Pmm) : Type 0 where
  pub linked : Linked m.frames m.heads
  pub blocks : Apart (is_free m.frames)

-- The free blocks of one state are those of another and the block at `p`.
pub record Gains (p o : ℕ) (m m' : Pmm) : Type 0 where
  pub buddy : IsBuddy m'
  pub covered :
      (a : ℕ) → Covered (is_free m'.frames) a ↔ (Covered (is_free m.frames) a ⊎ InBlock a p o)

pub free_one : (fs : Frames) (p o o' : ℕ) → is_free fs p o ≡ true → is_free fs p o' ≡ true → o ≡ o'
free_one fs p o o' h k = ground arith

-- A block that fits does not start at a free one.
pub not_free : (fs : Frames) (p o : ℕ) → Fits (is_free fs) p o → is_global (fs p).state ≡ false
not_free fs p o f = elim (Bool-cases (is_global (fs p).state)) [
  | inr no_one ↦ no_one
  | inl here ↦ ground (arith, f p (fs p).order, pow_pos o, pow_pos (fs p).order)
]

module _ (m : Pmm) (b : IsBuddy m) (p o : ℕ) where
  push_view :
      is_global (m.frames p).state ≡ false
      → is_free (push_list p o (m.frames, m.heads o (p % shard_count))).0
        ≡ add p o (is_free m.frames)
  push_view taken =
      let head = m.heads o (p % shard_count) in
      let u =
        push_list-Pushed p o head m.frames
          (is_link-clear head p (head_clear m.frames m.heads b.linked p o taken)) in
      fun_ext λ q. fun_ext λ i. elim (Bool-cases (q == p)) [
        | inl self ↦
            let at : q ≡ p = ground arith in
            rw (at, ==_refl p) (ground (arith, u.state_at, u.order_at))
        | inr other ↦
            let ne : q ≢ p = λ z. ground arith in
            rw other (ground (arith, u.same_state q ne, u.same_order q ne))
      ]

  pub push_to_global-Gains : Fits (is_free m.frames) p o → Gains p o m (push_to_global p o m)
  unfolding push_to_global push_list
  push_to_global-Gains f =
      let taken = not_free m.frames p o f in
      let view = push_view taken in
      record {
        buddy = record {
          linked = push_list-Linked m.frames m.heads b.linked p o taken;
          blocks = subst Apart (sym view) (add-Apart (is_free m.frames) p o b.blocks f);
        };
        covered = λ a.
            subst (λ v. Covered v a ↔ (Covered (is_free m.frames) a ⊎ InBlock a p o)) (sym view)
              (add-Covered (is_free m.frames) p o f a);
      }

  -- The removal of a free block.
  pub detach_lem :
      is_free m.frames p o ≡ true
      → let m' = detach o (p % shard_count) p m in
        IsBuddy m' × (is_free m'.frames ≡ drop p (is_free m.frames))
  unfolding detach detached
  detach_lem h =
      let inside : has p (b.linked.lists o (p % shard_count)) ≡ true =
        b.linked.members o (p % shard_count) p ∙ rw (h, ==_refl (p % shard_count)) refl in
      let u = unlinked m.frames m.heads b.linked p o (p % shard_count) inside in
      let view : is_free (detach o (p % shard_count) p m).frames ≡ drop p (is_free m.frames) =
        fun_ext λ q. fun_ext λ i. elim (Bool-cases (q == p)) [
          | inl self ↦ rw self (ground arith)
          | inr other ↦
              let ne : q ≢ p = λ z. ground arith in
              rw other (ground (arith, u.same_state q ne, u.same_order q ne))
        ] in
      (
        record {
          linked = detach-Linked m.frames m.heads b.linked p o (p % shard_count) inside;
          blocks = subst Apart (sym view) (drop-Apart (is_free m.frames) p o b.blocks);
        },
        view,
      )

-- The lower of two blocks that stand side by side, with the upper one.
abbrev lower : ℕ → ℕ → ℕ
lower p b = if ltb b p then b else p

module _ (p b o : ℕ) (adjacent : (b ≡ p + 2 ^ o) ⊎ (b + 2 ^ o ≡ p)) where
  lower_cases : ((lower p b ≡ p) × (b ≡ p + 2 ^ o)) ⊎ ((lower p b ≡ b) × (b + 2 ^ o ≡ p))
  lower_cases = elim adjacent [
    | inl e ↦ let t : ltb b p ≡ false = ground arith in inl (rw t refl, e)
    | inr e ↦ let t : ltb b p ≡ true = ground (arith, pow_pos o) in inr (rw t refl, e)
  ]

  two_blocks : (a : ℕ) → InBlock a (lower p b) (o + 1) ↔ (InBlock a p o ⊎ InBlock a b o)
  two_blocks a = elim lower_cases [
    | inl (e, k) ↦ rw e (halves p b k)
    | inr (e, k) ↦ rw e (
      λ h. elim ((halves b p (sym k)).0 h) [ inl x ↦ inr x | inr x ↦ inl x ],
      λ h. (halves b p (sym k)).1 (elim h [ inl x ↦ inr x | inr x ↦ inl x ]),
    )
  ]
    where
      halves : (x y : ℕ) → y ≡ x + 2 ^ o → InBlock a x (o + 1) ↔ (InBlock a x o ⊎ InBlock a y o)
      halves x y e = (
        λ h. elim (Bool-cases (ltb a y)) [
          | inl l ↦ inl (h.0, omega (arith, ltb→lt a y l))
          | inr g ↦ inr (ltb→ge a y g, omega (arith, pow_double o))
        ],
        λ h. elim h [
          | inl (x, y) ↦ (x, omega (arith, pow_double o))
          | inr (x, y) ↦ (omega arith, omega (arith, pow_double o))
        ],
      )

  lower-Fits : (free : Blocks) → Fits free p o → Fits free b o → Fits free (lower p b) (o + 1)
  lower-Fits free f g q o' h = elim lower_cases [
    | inl (e, k) ↦ rw e (elim (g q o' h) [
      | inl x ↦ inl (omega (arith, pow_double o))
      | inr x ↦ elim (f q o' h) [ inl y ↦ absurd (omega (arith, pow_pos o')) | inr y ↦ inr y ]
    ])
    | inr (e, k) ↦ rw e (elim (f q o' h) [
      | inl x ↦ inl (omega (arith, pow_double o))
      | inr x ↦ elim (g q o' h) [ inl y ↦ absurd (omega (arith, pow_pos o')) | inr y ↦ inr y ]
    ])
  ]

-- The gain of a merged block is that of the block alone, since its buddy was free.
merged-Gains :
    (p o b : ℕ) (m m1 m' : Pmm)
    → IsBuddy m
    → is_free m.frames b o ≡ true
    → is_free m1.frames ≡ drop b (is_free m.frames)
    → (b ≡ p + 2 ^ o) ⊎ (b + 2 ^ o ≡ p)
    → Gains (lower p b) (o + 1) m1 m'
    → Gains p o m m'
merged-Gains p o b m m1 m' w here view adjacent g = record {
  buddy = g.buddy;
  covered = λ a.
      let (from, to) = g.covered a in
      let (split, join) = drop-Covered (is_free m.frames) b o w.blocks here a in
      let (apart, both) = two_blocks p b o adjacent a in
      let there : Covered (is_free m1.frames) a → Covered (drop b (is_free m.frames)) a =
        subst (λ v. Covered v a) view in
      let back : Covered (drop b (is_free m.frames)) a → Covered (is_free m1.frames) a =
        subst (λ v. Covered v a) (sym view) in
      (
        λ c. elim (from c) [
          | inl x ↦ inl (join (inl (there x)))
          | inr x ↦ elim (apart x) [ inl y ↦ inr y | inr y ↦ inl (join (inr y)) ]
        ],
        λ s. to (elim s [
          | inl c ↦ elim (split c) [ inl x ↦ inl (back x) | inr y ↦ inr (both (inr y)) ]
          | inr y ↦ inr (both (inl y))
        ]),
      );
}

counted : (m : Pmm) → IsBuddy m → IsBuddy (count_list_op m)
counted m b = record { linked = b.linked; blocks = b.blocks }

merge_up-Gains :
    (n p o : ℕ) (m : Pmm) → IsBuddy m → Fits (is_free m.frames) p o → Gains p o m (merge_up n p o m)
unfolding merge_up
merge_up-Gains zero p o m w f = push_to_global-Gains m w p o f
merge_up-Gains (suc n) p o m w f = elim (Bool-cases (leb m.total_frames (buddy_of p o))) [
  | inl beyond ↦ rw (merge_up, beyond) (push_to_global-Gains m w p o f)
  | inr within ↦ elim (Bool-cases (is_free m.frames (buddy_of p o) o)) [
    | inr busy ↦
        rw (merge_up, within, busy)
          (let g = push_to_global-Gains (count_list_op m) (counted m w) p o f in
            record { buddy = g.buddy; covered = g.covered })
    | inl here ↦
        let b = buddy_of p o in
        let m1 = detach o (b % shard_count) b (count_list_op m) in
        let adjacent = buddy_of_cases p o in
        let (w1, view) = detach_lem (count_list_op m) (counted m w) b o here in
        let fits : Fits (is_free m1.frames) (lower p b) (o + 1) =
          subst (λ v. Fits v (lower p b) (o + 1)) (sym view)
            (lower-Fits p b o adjacent (drop b (is_free m.frames)) (λ q i h. f q i (ground arith))
              (drop-Fits (is_free m.frames) b o w.blocks here)) in
        rw (merge_up, within, here)
          (merged-Gains p o b m m1 (merge_up n (lower p b) (o + 1) m1) w here view adjacent
            (merge_up-Gains n (lower p b) (o + 1) m1 w1 fits))
  ]
]

-- `free_and_merge` gives a block back that meets no free one: the lists stay in order, the free blocks
-- stay apart, and the free frames are those that were free and the frames of the block, whatever it
-- is merged with.
pub free_and_merge-Gains :
    (p o : ℕ) (m : Pmm)
    → IsBuddy m
    → Fits (is_free m.frames) p o
    → Gains p o m (free_and_merge p o m)
unfolding free_and_merge
free_and_merge-Gains p o m w f = merge_up-Gains (max_order - 1 - o) p o m w f
