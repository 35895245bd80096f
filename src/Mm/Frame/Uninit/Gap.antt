-- ===== src/Mm/Frame/Uninit/Gap.antt =====
-- The gap before an aligned block is freed frame for frame.
use old_boruixkernel.Common.{
  ℕ, zero, suc, ◌+◌, ◌-◌, ◌/◌, ◌^◌, ◌≤◌, ◌<◌, ◌≡◌, ◌⊎◌, ◌↔◌, sym, arith, ltb, Bool-cases, inl, inr,
  subst, ltb→lt, ltb→ge,
}
use old_boruixkernel.Mm.Frame.{Pmm, claim_as}
use old_boruixkernel.Mm.Frame.Buddy.{free_and_merge}
use old_boruixkernel.Mm.Frame.Buddy.Lists.{is_free}
use old_boruixkernel.Mm.Frame.Buddy.Blocks.{InBlock, Fits, Covered, pow_pos, clear-Fits}
use old_boruixkernel.Mm.Frame.Buddy.Merge.{IsBuddy, Gains, free_and_merge-Gains, not_free}
use old_boruixkernel.Mm.Frame.Buddy.Split.{claim_as-view, claim_as-IsBuddy}
use old_boruixkernel.Mm.Frame.Uninit.{log2, order_gap, fill_gap, align_to}

pow_log2 : (w n : ℕ) → 0 < n → 2 ^ log2 w n ≤ n
unfolding log2
pow_log2 zero n h = omega arith
pow_log2 (suc w) n h = elim (Bool-cases (ltb n 2)) [
  | inl small ↦ rw small (omega arith)
  | inr big ↦
      let two = ltb→ge n 2 big in
      let half = pow_log2 w (n / 2) (omega arith) in
      let step : 2 ^ suc (log2 w (n / 2)) ≤ n = omega arith in rw (log2, big) step
]

pow_mono : (i j : ℕ) → i ≤ j → 2 ^ i ≤ 2 ^ j
pow_mono zero j h = omega (arith, pow_pos j)
pow_mono (suc i) zero h = absurd (omega arith)
pow_mono (suc i) (suc j) h = omega (arith, pow_mono i j (omega arith))

-- A piece of the gap ends in the gap.
piece : (cursor n : ℕ) → 0 < n → 2 ^ order_gap cursor n ≤ n
piece cursor n h =
    omega (arith, pow_log2 64 n h, pow_mono (order_gap cursor n) (log2 64 n) (omega arith))

pub align_to_bounds :
    (o start : ℕ) → (start ≤ align_to (2 ^ o) start) × (align_to (2 ^ o) start < start + 2 ^ o)
align_to_bounds o start = (omega (arith, pow_pos o), omega (arith, pow_pos o))

-- The frames from `low` to below `high` have become free.
pub record Fills (low high : ℕ) (m m' : Pmm) : Type 0 where
  pub buddy : IsBuddy m'
  pub covered :
      (a : ℕ)
      → Covered (is_free m'.frames) a ↔ (Covered (is_free m.frames) a ⊎ ((low ≤ a) × (a < high)))

pub fill_gap-Fills :
    (fuel cursor stop : ℕ) (m : Pmm)
    → IsBuddy m
    → cursor ≤ stop
    → stop ≤ cursor + fuel
    → ((a : ℕ) → Covered (is_free m.frames) a → (a < cursor) ⊎ (stop ≤ a))
    → Fills cursor stop m (fill_gap fuel cursor stop m)
unfolding fill_gap
fill_gap-Fills zero cursor stop m b le enough out = record {
  buddy = b;
  covered = λ a. (λ c. inl c, λ s. elim s [ inl c ↦ c | inr (x, y) ↦ absurd (omega arith) ]);
}
fill_gap-Fills (suc fuel) cursor stop m b le enough out = elim (Bool-cases (ltb cursor stop)) [
  | inr done ↦
      let end = ltb→ge cursor stop done in
      rw (fill_gap, done)
        (record {
          buddy = b;
          covered =
              λ a. (λ c. inl c, λ s. elim s [ inl c ↦ c | inr (x, y) ↦ absurd (omega arith) ]);
        })
  | inl more ↦
      let lt = ltb→lt cursor stop more in
      let o = order_gap cursor (stop - cursor) in
      let short : 2 ^ o ≤ stop - cursor = piece cursor (stop - cursor) (omega arith) in
      let free = is_free m.frames in
      let fits : Fits free cursor o =
        clear-Fits free cursor o
          (λ a c. elim (out a c) [ inl x ↦ inl x | inr x ↦ inr (omega arith) ]) in
      let taken = not_free m.frames cursor o fits in
      let m1 = record m { frames = claim_as cursor o m.frames } in
      let view : is_free m1.frames ≡ free = claim_as-view m b cursor o taken in
      let g : Gains cursor o m1 (free_and_merge cursor o m1) =
        free_and_merge-Gains cursor o m1 (claim_as-IsBuddy m b cursor o taken)
          (subst (λ v. Fits v cursor o) (sym view) fits) in
      let m2 = free_and_merge cursor o m1 in
      let to : (a : ℕ) → Covered (is_free m2.frames) a → Covered free a ⊎ InBlock a cursor o =
        λ a c. elim ((g.covered a).0 c) [
          | inl x ↦ inl (subst (λ v. Covered v a) view x)
          | inr x ↦ inr x
        ] in
      let from : (a : ℕ) → Covered free a ⊎ InBlock a cursor o → Covered (is_free m2.frames) a =
        λ a s.
          (g.covered a).1
            (elim s [ inl x ↦ inl (subst (λ v. Covered v a) (sym view) x) | inr x ↦ inr x ]) in
      let rest =
        fill_gap-Fills fuel (cursor + 2 ^ o) stop m2 g.buddy (omega arith)
          (omega (arith, pow_pos o))
          (λ a c. elim (to a c) [
            | inl x ↦ elim (out a x) [ inl y ↦ inl (omega arith) | inr y ↦ inr y ]
            | inr x ↦ inl x.1
          ]) in
      rw (fill_gap, more)
        (record {
          buddy = rest.buddy;
          covered = λ a. (
            λ c. elim ((rest.covered a).0 c) [
              | inl x ↦ elim (to a x) [ inl y ↦ inl y | inr y ↦ inr (y.0, omega (arith, y.1)) ]
              | inr x ↦ inr (omega (arith, x.0), x.1)
            ],
            λ s. (rest.covered a).1 (elim s [
              | inl x ↦ inl (from a (inl x))
              | inr (x, y) ↦ elim (Bool-cases (ltb a (cursor + 2 ^ o))) [
                | inl early ↦ inl (from a (inr (x, ltb→lt a (cursor + 2 ^ o) early)))
                | inr late ↦ inr (ltb→ge a (cursor + 2 ^ o) late, y)
              ]
            ]),
          );
        })
]
