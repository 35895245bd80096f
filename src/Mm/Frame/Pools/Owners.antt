-- ===== src/Mm/Frame/Pools/Owners.antt =====
-- Runs of `alloc_global` and `free_and_merge`, with the blocks that are out.
use old_boruixkernel.Common.{
  ℕ, ◌+◌, ◌^◌, ◌≤◌, ◌<◌, ◌≡◌, ◌⊎◌, ◌↔◌, sym, true, Option, some, none, ◌==◌, arith, Bool-cases, inl,
  inr, subst, get_or,
}
use old_boruixkernel.Mm.Frame.{Pmm}
use old_boruixkernel.Mm.Frame.Buddy.{free_and_merge}
use old_boruixkernel.Mm.Frame.Buddy.Lists.{is_free}
use old_boruixkernel.Mm.Frame.Buddy.Blocks.{
  Blocks, InBlock, Covered, Fits, Apart, side, add, drop, clear-Fits, add-Apart, add-Covered,
  drop-Apart, drop-Covered,
}
use old_boruixkernel.Mm.Frame.Buddy.Merge.{free_and_merge-Gains}
use old_boruixkernel.Mm.Frame.Uninit.Regions.{Unused, Stock, IsStocked, Leaves}
use old_boruixkernel.Mm.Frame.Pools.{alloc_global}
use old_boruixkernel.Mm.Frame.Pools.Kept.{free_and_merge-IsKept}
use old_boruixkernel.Mm.Frame.Pools.Global.{served, refused, alloc_global-Served, same-IsStocked}

-- The blocks that are out meet neither each other nor the stock.
pub record IsOwned (m : Pmm) (out : Blocks) : Type 0 where
  pub stocked : IsStocked m
  pub apart : Apart out
  pub clear : (p o : ℕ) → out p o ≡ true → (a : ℕ) → Stock m a → (a < p) ⊎ (p + 2 ^ o ≤ a)

-- A call, with the blocks that are out before and after it.
pub data Step (m : Pmm) (out : Blocks) : Pmm → Blocks → Type 0 where
  take :
      (o cpu p : ℕ) (m' : Pmm) → alloc_global o cpu m ≡ (some p, m') → Step m out m' (add p o out)
  fail : (o cpu : ℕ) (m' : Pmm) → alloc_global o cpu m ≡ (none, m') → Step m out m' out
  give : (p o : ℕ) → out p o ≡ true → Step m out (free_and_merge p o m) (drop p out)

pub data Run (m : Pmm) (out : Blocks) : Pmm → Blocks → Type 0 where
  done : Run m out m out
  also :
      (m1 m2 : Pmm) (out1 out2 : Blocks)
      → Run m out m1 out1
      → Step m1 out1 m2 out2
      → Run m out m2 out2

-- The frames of the stock and of the blocks that are out.
abbrev pub Known : Pmm → Blocks → ℕ → Type 0
Known m out a = Stock m a ⊎ Covered out a

-- What a step or a run keeps.
abbrev pub Sound : Pmm → Blocks → Pmm → Blocks → Type 0
Sound m out m' out' = IsOwned m' out' × ((a : ℕ) → Known m out a ↔ Known m' out' a)

module _ (m : Pmm) (out : Blocks) (w : IsOwned m out) (p o : ℕ) where
  take-Sound : (m' : Pmm) → Leaves p o m m' → Sound m out m' (add p o out)
  take-Sound m' l =
      let fits : Fits out p o = clear-Fits out p o (λ a c.
        let (q, i, h, b) = c in
        let (away, back) = l.stock a in
        elim (side a p (p + 2 ^ o)) [
          | inr far ↦ far
          | inl inside ↦ elim (w.clear q i h a (back (inr inside))) [
            | inl x ↦ absurd (omega (arith, b))
            | inr x ↦ absurd (omega (arith, b))
          ]
        ]) in
      (
        record {
          stocked = l.stocked;
          apart = add-Apart out p o w.apart fits;
          clear = λ q i h a s. elim (Bool-cases (q == p)) [
            | inl self ↦
                let e : p ≡ q = ground arith in
                let k : o ≡ i = ground arith in
                subst (λ z. (a < z) ⊎ (z + 2 ^ i ≤ a)) e
                  (subst (λ z. (a < p) ⊎ (p + 2 ^ z ≤ a)) k (l.clear a s))
            | inr other ↦
                let (away, back) = l.stock a in w.clear q i (ground arith) a (back (inl s))
          ];
        },
        λ a.
            let (away, back) = l.stock a in
            let (to, from) = add-Covered out p o fits a in
            (
              (λ k. elim k [
                | inl s ↦ elim (away s) [ inl x ↦ inl x | inr x ↦ inr (from (inr x)) ]
                | inr c ↦ inr (from (inl c))
              ]),
              λ k. elim k [
                | inl s ↦ inl (back (inl s))
                | inr c ↦ elim (to c) [ inl x ↦ inr x | inr x ↦ inl (back (inr x)) ]
              ],
            ),
      )

  give-Sound : out p o ≡ true → Sound m out (free_and_merge p o m) (drop p out)
  give-Sound h =
      let g =
        free_and_merge-Gains p o m w.stocked.buddy
          (clear-Fits (is_free m.frames) p o (λ a c. w.clear p o h a (inl c))) in
      let m' = free_and_merge p o m in
      let regions = (free_and_merge-IsKept p o m).regions in
      let to : (a : ℕ) → Stock m' a → Stock m a ⊎ InBlock a p o = λ a s. elim s [
        | inl c ↦ let (x, y) = g.covered a in elim (x c) [ inl k ↦ inl (inl k) | inr k ↦ inr k ]
        | inr u ↦ inl (inr (subst (λ rs. Unused rs a) regions u))
      ] in
      let from : (a : ℕ) → Stock m a ⊎ InBlock a p o → Stock m' a = λ a s. elim s [
        | inr k ↦ let (x, y) = g.covered a in inl (y (inr k))
        | inl k ↦ elim k [
          | inl c ↦ let (x, y) = g.covered a in inl (y (inl c))
          | inr u ↦ inr (subst (λ rs. Unused rs a) (sym regions) u)
        ]
      ] in
      (
        record {
          stocked = record {
            buddy = g.buddy;
            one_region = λ a i j r s e k.
                w.stocked.one_region a i j r s (subst (λ rs. get_or rs i none ≡ some r) regions e)
                  (subst (λ rs. get_or rs j none ≡ some s) regions k);
            outside = λ a i r c e.
                let before = subst (λ rs. get_or rs i none ≡ some r) regions e in
                let (x, y) = g.covered a in
                elim (x c) [
                  | inl k ↦ w.stocked.outside a i r k before
                  | inr b ↦ elim (side a r.start_pfn r.end_pfn) [
                    | inr far ↦ far
                    | inl inside ↦ elim (w.clear p o h a (inr (i, r, before, inside))) [
                      | inl x ↦ absurd (omega (arith, b))
                      | inr x ↦ absurd (omega (arith, b))
                    ]
                  ]
                ];
          };
          apart = drop-Apart out p o w.apart;
          clear = λ q i k a s. elim (to a s) [
            | inl z ↦ w.clear q i (ground arith) a z
            | inr b ↦ elim (w.apart.apart p o q i h (ground arith) (λ e. ground arith)) [
              | inl x ↦ inl (omega (arith, b))
              | inr x ↦ inr (omega (arith, b))
            ]
          ];
        },
        λ a.
            let (x, y) = drop-Covered out p o w.apart h a in
            (
              (λ k. elim k [
                | inl s ↦ inl (from a (inl s))
                | inr c ↦ elim (x c) [ inl z ↦ inr z | inr z ↦ inl (from a (inr z)) ]
              ]),
              λ k. elim k [
                | inl s ↦ elim (to a s) [ inl z ↦ inl z | inr z ↦ inr (y (inr z)) ]
                | inr c ↦ inr (y (inl c))
              ],
            ),
      )

fail-Sound :
    (m m' : Pmm) (out : Blocks)
    → IsOwned m out
    → m'.frames ≡ m.frames
    → m'.heads ≡ m.heads
    → m'.regions ≡ m.regions
    → Sound m out m' out
fail-Sound m m' out w fs hs rs =
    let to : (a : ℕ) → Stock m' a → Stock m a = λ a s. elim s [
      | inl c ↦ inl (subst (λ f. Covered (is_free f) a) fs c)
      | inr u ↦ inr (subst (λ r. Unused r a) rs u)
    ] in
    let from : (a : ℕ) → Stock m a → Stock m' a = λ a s. elim s [
      | inl c ↦ inl (subst (λ f. Covered (is_free f) a) (sym fs) c)
      | inr u ↦ inr (subst (λ r. Unused r a) (sym rs) u)
    ] in
    (
      record {
        stocked = same-IsStocked m m' fs hs rs w.stocked;
        apart = w.apart;
        clear = λ p o h a s. w.clear p o h a (to a s);
      },
      λ a. (
        (λ k. elim k [ inl s ↦ inl (from a s) | inr c ↦ inr c ]),
        λ k. elim k [ inl s ↦ inl (to a s) | inr c ↦ inr c ],
      ),
    )

-- What an allocation keeps, by its result.
abbrev After : Pmm → Blocks → ℕ → Option ℕ × Pmm → Type 0
After m out o (none, m') = Sound m out m' out
After m out o (some p, m') = Sound m out m' (add p o out)

alloc_global-After :
    (m : Pmm) (out : Blocks) → IsOwned m out → (o cpu : ℕ) → After m out o (alloc_global o cpu m)
alloc_global-After m out w o cpu = elim (alloc_global-Served o cpu m w.stocked) [
  | served p m' e l ↦ subst (After m out o) (sym e) (take-Sound m out w p o m' l)
  | refused m' e fs hs rs clear ↦ subst (After m out o) (sym e) (fail-Sound m m' out w fs hs rs)
]

step-Sound :
    (m m' : Pmm) (out out' : Blocks) → IsOwned m out → Step m out m' out' → Sound m out m' out'
step-Sound m _ out _ w (give p o h) = give-Sound m out w p o h
step-Sound m _ out _ w (take o cpu p m' e) =
    subst (After m out o) e (alloc_global-After m out w o cpu)
step-Sound m _ out _ w (fail o cpu m' e) =
    subst (After m out o) e (alloc_global-After m out w o cpu)

-- Whatever blocks are allocated and freed: no frame is in two blocks that are out, none of theirs is
-- free or in a region, and no frame is lost: those that are free, in a region or in a block that is out
-- are the same after the run as before it.
pub run-Sound :
    (m : Pmm) (out : Blocks) (m' : Pmm) (out' : Blocks)
    → IsOwned m out
    → Run m out m' out'
    → Sound m out m' out'
run-Sound m out _ _ w done = (w, λ a. ((λ k. k), λ k. k))
run-Sound m out _ _ w (also m1 m2 out1 out2 r s) =
    let (w1, k1) = run-Sound m out m1 out1 w r in
    let (w2, k2) = step-Sound m1 m2 out1 out2 w1 s in
    (w2, λ a. let (x, y) = k1 a in let (x', y') = k2 a in ((λ k. x' (x k)), λ k. y (y' k)))
