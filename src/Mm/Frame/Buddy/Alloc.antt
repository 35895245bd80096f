-- ===== src/Mm/Frame/Buddy/Alloc.antt =====
-- `pop_from_global` and `alloc_from_list` over the set of free blocks.
use mathlib.Core.List.{[], ◌∷◌}
use old_boruixkernel.Common.{
  ℕ, zero, suc, ◌+◌, ◌-◌, ◌%◌, ◌<◌, ◌≡◌, ◌⊎◌, ◌↔◌, refl, sym, ap, ◌∙◌, true, false, Option, some,
  none, List, ◌==◌, arith, Bool-cases, Option-cases, inl, inr, subst,
}
use old_boruixkernel.Mm.Frame.{Frames, Pmm, allocated, shard_count}
use old_boruixkernel.Mm.Frame.Links.{has, Chain}
use old_boruixkernel.Mm.Frame.Buddy.{detach, count_list_op, pop_shards, pop_from_global}
use old_boruixkernel.Mm.Frame.Buddy.Lists.{is_free, head-has}
use old_boruixkernel.Mm.Frame.Buddy.Blocks.{InBlock, Fits, Covered, drop-Fits, drop-Covered}
use old_boruixkernel.Mm.Frame.Buddy.Merge.{IsBuddy, detach_lem}

-- A block has left the free ones: it meets none that is left, and with them it makes those of before.
pub record Takes (p o : ℕ) (m m' : Pmm) : Type 0 where
  pub buddy : IsBuddy m'
  pub fits : Fits (is_free m'.frames) p o
  pub covered :
      (a : ℕ) → Covered (is_free m.frames) a ↔ (Covered (is_free m'.frames) a ⊎ InBlock a p o)
  pub state_at : (m'.frames p).state ≡ allocated

-- How an allocation ends: with a block, or with the free blocks as they were.
pub data Taken (o : ℕ) (m : Pmm) (NoneFree : Type 0) (r : Option ℕ × Pmm) : Type 0 where
  one : (p : ℕ) (m' : Pmm) → r ≡ (some p, m') → Takes p o m m' → Taken o m NoneFree r
  nothing :
      (m' : Pmm)
      → r ≡ (none, m')
      → m'.frames ≡ m.frames
      → m'.heads ≡ m.heads
      → NoneFree
      → Taken o m NoneFree r

claimed : (o s p : ℕ) (m : Pmm) → ((detach o s p m).frames p).state ≡ allocated
unfolding detach
claimed o s p m = ground arith

detach-Takes :
    (m : Pmm) (b : IsBuddy m) (p o : ℕ)
    → is_free m.frames p o ≡ true
    → Takes p o m (detach o (p % shard_count) p m)
detach-Takes m b p o h =
    let m' = detach o (p % shard_count) p m in
    let (b', view) = detach_lem m b p o h in
    record {
      buddy = b';
      fits = subst (λ v. Fits v p o) (sym view) (drop-Fits (is_free m.frames) p o b.blocks h);
      covered = λ a.
          subst (λ v. Covered (is_free m.frames) a ↔ (Covered v a ⊎ InBlock a p o)) (sym view)
            (drop-Covered (is_free m.frames) p o b.blocks h a);
      state_at = claimed o (p % shard_count) p m;
    }

-- A chain without a first frame is empty.
empty-has :
    (fs : Frames) (back cur : Option ℕ) (xs : List ℕ) (p : ℕ)
    → Chain fs back cur xs
    → cur ≡ none
    → has p xs ≡ false
empty-has fs back cur [] p c e = refl
empty-has fs back cur (x ∷ xs) p (a, b, c) e = cc

-- The shards from `start + offset` on, `n` of them, have no free block of the order.
abbrev NoneIn : ℕ → ℕ → ℕ → ℕ → Pmm → Type 0
NoneIn o start n offset m =
    (p i : ℕ)
    → i < n
    → p % shard_count ≡ (start + (offset + i)) % shard_count
    → is_free m.frames p o ≡ false

pop_shards-Taken :
    (o start n offset : ℕ) (m : Pmm)
    → IsBuddy m
    → Taken o m (NoneIn o start n offset m) (pop_shards o start n offset m)
unfolding pop_shards
pop_shards-Taken o start zero offset m b = nothing m refl refl refl (λ p i h. absurd (omega arith))
pop_shards-Taken o start (suc n) offset m b =
    let shard = (start + offset) % shard_count in
    elim (Option-cases (m.heads o shard)) [
      | inr (p, e) ↦
          let there =
            head-has m.frames none (m.heads o shard) (b.linked.lists o shard) p
              (b.linked.chain o shard) e in
          let h : is_free m.frames p o ≡ true = ground (arith, b.linked.members o shard p) in
          let at : p % shard_count ≡ shard = ground (arith, b.linked.members o shard p) in
          let t =
            detach-Takes (count_list_op m) (record { linked = b.linked; blocks = b.blocks }) p o
              h in
          one p (detach o shard p (count_list_op m)) (rw (pop_shards, e) refl) (
            subst (λ s. Takes p o m (detach o s p (count_list_op m))) at
              (record {
                buddy = t.buddy;
                fits = t.fits;
                covered = t.covered;
                state_at = t.state_at;
              }))
      | inl e ↦
          elim (pop_shards-Taken o start n (offset + 1) (count_list_op m)
            (record { linked = b.linked; blocks = b.blocks })) [
              | one p m' q t ↦ one p m' (rw (pop_shards, e) q) (record {
                buddy = t.buddy;
                fits = t.fits;
                covered = t.covered;
                state_at = t.state_at;
              })
              | nothing m' q fs hs clear ↦ nothing m' (rw (pop_shards, e) q) fs hs (λ p i h k.
                  elim (Bool-cases (i == 0)) [
                    | inl z ↦
                        let at : p % shard_count ≡ shard =
                          k ∙ ap (λ x. (start + x) % shard_count) (ground arith) in
                        ground (
                          arith,
                          b.linked.members o shard p,
                          empty-has m.frames none (m.heads o shard) (b.linked.lists o shard) p
                              (b.linked.chain o shard) e,
                        )
                    | inr z ↦
                        clear p (i - 1) (ground arith)
                          (k ∙ ap (λ x. (start + x) % shard_count) (ground arith))
                  ])
            ]
    ]

-- No block of the order is free.
abbrev pub NoneOf : ℕ → Pmm → Type 0
NoneOf o m = (p : ℕ) → is_free m.frames p o ≡ false

pub pop_from_global-Taken :
    (o cpu : ℕ) (m : Pmm) → IsBuddy m → Taken o m (NoneOf o m) (pop_from_global o cpu m)
unfolding pop_from_global
pop_from_global-Taken o cpu m b = elim (pop_shards-Taken o (cpu % shard_count) shard_count 0 m b) [
  | one p m' q t ↦ one p m' q t
  | nothing m' q fs hs clear ↦ nothing m' q fs hs (λ p.
      clear p ((p % shard_count + shard_count - cpu % shard_count) % shard_count) (omega arith)
        (omega arith))
]
