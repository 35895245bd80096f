-- ===== src/Mm/Frame/Uninit/Cut.antt =====
-- What `cut_region` does to the frames that are free or in a region.
use old_boruixkernel.Common.{
  ℕ, ◌+◌, ◌^◌, ◌≤◌, ◌<◌, ◌≡◌, ◌≢◌, ◌⊎◌, ◌↔◌, refl, sym, ap, ◌∙◌, true, false, Option, none, some,
  List, arith, ltb, if◌then◌else◌, ◌==◌, Bool-cases, inl, inr, subst, ltb→lt, ltb→ge, leb→le,
  length, get_or, get_or-set, get_or_beyond, ==_refl,
}
use old_boruixkernel.Mm.Frame.{Pmm, UninitRegion}
use old_boruixkernel.Mm.Frame.Buddy.Lists.{is_free}
use old_boruixkernel.Mm.Frame.Buddy.Blocks.{InBlock, Covered, pow_pos}
use old_boruixkernel.Mm.Frame.Uninit.{fill_gap, align_to, cut_region, region_fits}
use old_boruixkernel.Mm.Frame.Uninit.Gap.{align_to_bounds, Fills, fill_gap-Fills}
use old_boruixkernel.Mm.Frame.Uninit.Regions.{InRegion, Stock, IsStocked, Leaves}

pub in_list :
    (rs : List (Option UninitRegion)) (i : ℕ) (r : UninitRegion)
    → get_or rs i none ≡ some r
    → i < length rs
in_list rs i r e = elim (Bool-cases (ltb i (length rs))) [
  | inl y ↦ ltb→lt i (length rs) y
  | inr n ↦
      let past = get_or_beyond rs i none (ltb→ge i (length rs) n) in
      absurd (ground (arith, sym past ∙ e))
]

start_of : Option UninitRegion → ℕ
start_of none = 0
start_of (some r) = r.start_pfn

end_of : Option UninitRegion → ℕ
end_of none = 0
end_of (some r) = r.end_pfn

module _ (m : Pmm) (w : IsStocked m) (o i : ℕ) (r : UninitRegion)
    (at : get_or m.regions i none ≡ some r) (fits : region_fits o r ≡ true) where
  abbrev size : ℕ
  size = 2 ^ o

  abbrev start : ℕ
  start = align_to (2 ^ o) r.start_pfn

  abbrev filled : Pmm
  filled = fill_gap (2 ^ o) r.start_pfn start m

  abbrev after : Pmm
  after = (cut_region o i r m).1

  pub within : (r.start_pfn ≤ start) × (start < r.start_pfn + 2 ^ o) × (start + 2 ^ o ≤ r.end_pfn)
  within =
      let (x, y) = align_to_bounds o r.start_pfn in (x, y, leb→le (start + 2 ^ o) r.end_pfn fits)

  gap : Fills r.start_pfn start m filled
  gap =
      let (x, y, z) = within in
      fill_gap-Fills (2 ^ o) r.start_pfn start m w.buddy x (omega arith) (λ a c.
        elim (w.outside a i r c at) [ inl l ↦ inl l | inr l ↦ inr (omega (arith, pow_pos o)) ])

  -- What a slot holds after the cut.
  data Slot (j : ℕ) (s : UninitRegion) : Type 0 where
    same : j ≢ i → get_or m.regions j none ≡ some s → Slot j s
    cut : j ≡ i → s.start_pfn ≡ start + 2 ^ o → s.end_pfn ≡ r.end_pfn → Slot j s

  slot : (j : ℕ) (s : UninitRegion) → get_or after.regions j none ≡ some s → Slot j s
  unfolding start_of end_of
  slot j s e =
      let law =
        get_or-set m.regions i j
          (if start + 2 ^ o == r.end_pfn
            then none
            else some (record r { start_pfn = start + 2 ^ o }))
          none (in_list m.regions i r at) in
      elim (Bool-cases (j == i)) [
        | inr other ↦ same (λ z. ground arith) (rw other at (sym law ∙ e))
        | inl here ↦ elim (Bool-cases (start + 2 ^ o == r.end_pfn)) [
          | inl whole ↦ absurd (ground (arith, sym law ∙ e))
          | inr part ↦
              let left : some (record r { start_pfn = start + 2 ^ o }) ≡ some s =
                rw (here, part) at (sym law ∙ e) in
              cut (ground arith) (sym (ap start_of left)) (sym (ap end_of left))
        ]
      ]

  slot_same :
      (j : ℕ) (s : UninitRegion)
      → j ≢ i
      → get_or m.regions j none ≡ some s
      → get_or after.regions j none ≡ some s
  slot_same j s ne e =
      let law =
        get_or-set m.regions i j
          (if start + 2 ^ o == r.end_pfn
            then none
            else some (record r { start_pfn = start + 2 ^ o }))
          none (in_list m.regions i r at) in
      let other : (j == i) ≡ false = ground arith in law ∙ rw other e

  slot_cut :
      start + 2 ^ o ≢ r.end_pfn
      → get_or after.regions i none ≡ some (record r { start_pfn = start + 2 ^ o })
  slot_cut ne =
      let law =
        get_or-set m.regions i i
          (if start + 2 ^ o == r.end_pfn
            then none
            else some (record r { start_pfn = start + 2 ^ o }))
          none (in_list m.regions i r at) in
      let part : (start + 2 ^ o == r.end_pfn) ≡ false = ground arith in
      law ∙ rw (==_refl i, part) refl

  -- Where a frame of the old slots is, after the cut.
  old_slot :
      (a j : ℕ) (s : UninitRegion)
      → get_or after.regions j none ≡ some s
      → InRegion a s
      → (t : UninitRegion) × (get_or m.regions j none ≡ some t)
        × InRegion a t
        × ((j ≡ i) → start + 2 ^ o ≤ a)
  old_slot a j s e (x, y) = elim (slot j s e) [
    | same ne k ↦ (s, k, (x, y), λ z. absurd (ne z))
    | cut here b k ↦
        let (u, v, z) = within in (r, rw here at, (omega arith, omega arith), λ q. omega arith)
  ]

  -- A frame of another region is not in this one.
  apart_from :
      (a j : ℕ) (s : UninitRegion)
      → j ≢ i
      → get_or m.regions j none ≡ some s
      → InRegion a r
      → (a < s.start_pfn) ⊎ (s.end_pfn ≤ a)
  apart_from a j s ne e inside = elim (Bool-cases (ltb a s.start_pfn)) [
    | inl early ↦ inl (ltb→lt a s.start_pfn early)
    | inr reached ↦ elim (Bool-cases (ltb a s.end_pfn)) [
      | inr late ↦ inr (ltb→ge a s.end_pfn late)
      | inl there ↦ absurd (
          ne (
            w.one_region a j i s r e at (ltb→ge a s.start_pfn reached, ltb→lt a s.end_pfn there)
              inside))
    ]
  ]

  cut_outside :
      (a j : ℕ) (s : UninitRegion)
      → Covered (is_free after.frames) a
      → get_or after.regions j none ≡ some s
      → (a < s.start_pfn) ⊎ (s.end_pfn ≤ a)
  cut_outside a j s c e =
      let (x, y, z) = within in
      elim ((gap.covered a).0 c) [
        | inl before ↦ elim (slot j s e) [
          | same ne k ↦ w.outside a j s before k
          | cut here b k ↦ elim (w.outside a i r before at) [
            | inl l ↦ inl (omega arith)
            | inr l ↦ inr (omega arith)
          ]
        ]
        | inr (low, high) ↦ elim (slot j s e) [
          | same ne k ↦ apart_from a j s ne k (low, omega arith)
          | cut here b k ↦ inl (omega arith)
        ]
      ]

  cut-IsStocked : IsStocked after
  cut-IsStocked = record {
    buddy = record { linked = gap.buddy.linked; blocks = gap.buddy.blocks };
    one_region = λ a j k s t e f x y.
        let (s', e', x', _) = old_slot a j s e x in
        let (t', f', y', _) = old_slot a k t f y in w.one_region a j k s' t' e' f' x' y';
    outside = λ a j s c e. cut_outside a j s c e;
  }

  cut_clear : (a : ℕ) → Stock after a → (a < start) ⊎ (start + 2 ^ o ≤ a)
  cut_clear a (inl c) =
      let (x, y, z) = within in
      elim ((gap.covered a).0 c) [
        | inl before ↦ elim (w.outside a i r before at) [
          | inl l ↦ inl (omega arith)
          | inr l ↦ inr (omega arith)
        ]
        | inr (low, high) ↦ inl high
      ]
  cut_clear a (inr (j, s, e, h)) =
      let (x, y, z) = within in
      let (t, f, h', past) = old_slot a j s e h in
      elim (Bool-cases (j == i)) [
        | inl here ↦ inr (past (ground arith))
        | inr other ↦ elim (Bool-cases (ltb a start)) [
          | inl early ↦ inl (ltb→lt a start early)
          | inr reached ↦ elim (Bool-cases (ltb a (start + 2 ^ o))) [
            | inr late ↦ inr (ltb→ge a (start + 2 ^ o) late)
            | inl there ↦
                let low = ltb→ge a start reached in
                let high = ltb→lt a (start + 2 ^ o) there in
                absurd (ground (arith, w.one_region a j i t r f at h' (omega arith, omega arith)))
          ]
        ]
      ]

  -- The frames of the region: those of the gap, of the block and of what is left.
  cut_region_frame : (a : ℕ) → InRegion a r → Stock after a ⊎ InBlock a start o
  cut_region_frame a (low, high) = elim (Bool-cases (ltb a start)) [
    | inl early ↦ inl (inl ((gap.covered a).1 (inr (low, ltb→lt a start early))))
    | inr reached ↦ elim (Bool-cases (ltb a (start + 2 ^ o))) [
      | inl there ↦ inr (ltb→ge a start reached, ltb→lt a (start + 2 ^ o) there)
      | inr late ↦
          let past = ltb→ge a (start + 2 ^ o) late in
          inl (
            inr (
              i,
              record r { start_pfn = start + 2 ^ o },
              slot_cut (λ z. omega arith),
              (past, high),
            ))
    ]
  ]

  cut-Stock : (a : ℕ) → Stock m a ↔ (Stock after a ⊎ InBlock a start o)
  unfolding start_of end_of
  cut-Stock a =
      let (x, y, z) = within in
      (
        λ s. elim s [
          | inl c ↦ inl (inl ((gap.covered a).1 (inl c)))
          | inr (j, t, e, h) ↦ elim (Bool-cases (j == i)) [
            | inr other ↦ inl (inr (j, t, slot_same j t (λ q. ground arith) e, h))
            | inl here ↦
                let k : get_or m.regions i none ≡ some t =
                  subst (λ n. get_or m.regions n none ≡ some t) (ground arith) e in
                let from : t.start_pfn ≡ r.start_pfn = ap start_of (sym k ∙ at) in
                let to : t.end_pfn ≡ r.end_pfn = ap end_of (sym k ∙ at) in
                cut_region_frame a (omega arith, omega arith)
          ]
        ],
        λ s. elim s [
          | inl (inl c) ↦ elim ((gap.covered a).0 c) [
            | inl before ↦ inl before
            | inr (low, high) ↦ inr (i, r, at, (low, omega arith))
          ]
          | inl (inr (j, t, e, h)) ↦ let (t', f, h', _) = old_slot a j t e h in inr (j, t', f, h')
          | inr (low, high) ↦ inr (i, r, at, (omega arith, omega arith))
        ],
      )

  pub cut-Leaves : Leaves start o m after
  cut-Leaves = record { stocked = cut-IsStocked; clear = cut_clear; stock = cut-Stock }
