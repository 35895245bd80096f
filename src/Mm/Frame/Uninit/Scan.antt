-- ===== src/Mm/Frame/Uninit/Scan.antt =====
-- `alloc_from_uninit` over the frames that are free or in a region.
use old_boruixkernel.Common.{
  ℕ, zero, suc, ◌+◌, ◌-◌, ◌*◌, ◌/◌, ◌%◌, ◌^◌, ◌≤◌, ◌<◌, ◌≡◌, refl, sym, ap, ◌∙◌, false, Option,
  none, some, Bool-cases, Option-cases, inl, inr, ltb, ltb→lt, ltb→ge, subst, arith, length, get_or,
}
use native.Mathlib.Nat.{
  add-mod-mod, add-mul-mod_self_left, mod-eq_of_lt, mod-lt, mul-mod_left, lt_of_mul-lt-mul_right,
  mul-le-mul_right, div-add-mod',
}
use old_boruixkernel.Mm.Frame.{Pmm, UninitRegion}
use old_boruixkernel.Mm.Frame.Buddy.Blocks.{pow_pos}
use old_boruixkernel.Mm.Frame.Uninit.{
  align_to, cut_region, region_fits, scan_regions, alloc_from_uninit,
}
use old_boruixkernel.Mm.Frame.Uninit.Regions.{IsStocked, Leaves}
use old_boruixkernel.Mm.Frame.Uninit.Cut.{in_list, within, cut-Leaves}

-- The block of the order at `p` lies in region `i`, and its start is a multiple of its size.
pub record IsPlaced (p o i : ℕ) (m : Pmm) : Type 0 where
  pub aligned : p % 2 ^ o ≡ 0
  pub inside :
      (r : UninitRegion) × (get_or m.regions i none ≡ some r)
      × (r.start_pfn ≤ p)
      × (p + 2 ^ o ≤ r.end_pfn)

-- Every block of the order that starts in region `i` at a multiple of its size ends beyond the region.
abbrev pub NoRoom : ℕ → ℕ → Pmm → Type 0
NoRoom o i m =
    (r : UninitRegion) (p : ℕ)
    → get_or m.regions i none ≡ some r
    → p % 2 ^ o ≡ 0
    → r.start_pfn ≤ p
    → r.end_pfn < p + 2 ^ o

-- How an allocation from the regions ends.
pub data Cut (o : ℕ) (m : Pmm) (r : Option ℕ × Pmm) : Type 0 where
  one : (p i : ℕ) (m' : Pmm) → r ≡ (some p, m') → IsPlaced p o i m → Leaves p o m m' → Cut o m r
  nothing : r ≡ (none, m) → ((i : ℕ) → NoRoom o i m) → Cut o m r

-- The first multiple of a size from `start` on is below every other.
align_to_least : (s start p : ℕ) → 0 < s → p % s ≡ 0 → start ≤ p → align_to s start ≤ p
align_to_least s start p pos e le =
    let k = p / s in
    let q = (start + s - 1) / s in
    let whole : k * s ≡ p = omega (arith, div-add-mod' p s) in
    let low : q * s + (start + s - 1) % s ≡ start + s - 1 = div-add-mod' (start + s - 1) s in
    let next : (k + 1) * s ≡ k * s + s = omega arith in
    let lt : q < k + 1 =
      lt_of_mul-lt-mul_right s {m = q} {n = k + 1} (omega (arith, whole, low, next)) in
    let mono : q * s ≤ k * s = mul-le-mul_right s (omega arith) in omega (arith, whole, mono)

start_of : Option UninitRegion → ℕ → ℕ
start_of none d = d
start_of (some r) d = r.start_pfn

end_of : Option UninitRegion → ℕ → ℕ
end_of none d = d
end_of (some r) d = r.end_pfn

-- A region where the test fails has no room.
small-NoRoom :
    (o i : ℕ) (m : Pmm) (r : UninitRegion)
    → get_or m.regions i none ≡ some r
    → region_fits o r ≡ false
    → NoRoom o i m
unfolding start_of end_of
small-NoRoom o i m r at small s p e aligned le =
    let from : r.start_pfn ≡ s.start_pfn = ap (λ z. start_of z 0) (sym at ∙ e) in
    let to : r.end_pfn ≡ s.end_pfn = ap (λ z. end_of z 0) (sym at ∙ e) in
    let least = align_to_least (2 ^ o) r.start_pfn p (pow_pos o) aligned (omega arith) in
    let past : r.end_pfn < align_to (2 ^ o) r.start_pfn + 2 ^ o = ground (arith, small) in
    omega (arith, least, past)

empty-NoRoom : (o i : ℕ) (m : Pmm) → get_or m.regions i none ≡ none → NoRoom o i m
empty-NoRoom o i m empty r p e aligned le = absurd (ground (arith, sym empty ∙ e))

-- The offset at which the scan comes to index `i`.
offset_of : (last i len : ℕ) → i < len → (j : ℕ) × (j < len) × ((last + j) % len ≡ i)
offset_of last i len lt =
    let l = last % len in
    let below : l < len = mod-lt last (omega arith) in
    let x = i + len - l in
    let parts : last + x ≡ i + len * (last / len + 1) = omega (arith, div-add-mod' last len) in
    (
      x % len,
      mod-lt x (omega arith),
      add-mod-mod last x len
          ∙ ap (λ z. z % len) parts
          ∙ add-mul-mod_self_left i len (last / len + 1)
          ∙ mod-eq_of_lt lt,
    )

-- The regions that the scan has passed.
abbrev Passed : ℕ → ℕ → Pmm → Type 0
Passed o offset m = (j : ℕ) → j < offset → NoRoom o ((m.last_uninit_idx + j) % length m.regions) m

next-Passed :
    (o offset : ℕ) (m : Pmm)
    → Passed o offset m
    → NoRoom o ((m.last_uninit_idx + offset) % length m.regions) m
    → Passed o (offset + 1) m
next-Passed o offset m passed here j lt = elim (Bool-cases (ltb j offset)) [
  | inl early ↦ passed j (ltb→lt j offset early)
  | inr late ↦
      let e : offset ≡ j = omega (arith, ltb→ge j offset late) in
      subst (λ z. NoRoom o ((m.last_uninit_idx + z) % length m.regions) m) e here
]

every_region : (o : ℕ) (m : Pmm) → Passed o (length m.regions) m → (i : ℕ) → NoRoom o i m
every_region o m passed i r p e =
    let (j, lt, k) = offset_of m.last_uninit_idx i (length m.regions) (in_list m.regions i r e) in
    subst (λ z. NoRoom o z m) k (passed j lt) r p e

scan_regions-Cut :
    (o n offset : ℕ) (m : Pmm)
    → IsStocked m
    → offset + n ≡ length m.regions
    → Passed o offset m
    → Cut o m (scan_regions o n offset m)
unfolding scan_regions
scan_regions-Cut o zero offset m w all passed =
    let e : offset ≡ length m.regions = omega arith in
    nothing refl (every_region o m (subst (λ z. Passed o z m) e passed))
scan_regions-Cut o (suc n) offset m w all passed =
    let i = (m.last_uninit_idx + offset) % length m.regions in
    let go = λ (here : NoRoom o i m).
      scan_regions-Cut o n (offset + 1) m w (omega arith) (next-Passed o offset m passed here) in
    elim (Option-cases (get_or m.regions i none)) [
      | inl empty ↦ rw (scan_regions, empty) (go (empty-NoRoom o i m empty))
      | inr (r, at) ↦ elim (Bool-cases (region_fits o r)) [
        | inr small ↦ rw (scan_regions, at, small) (go (small-NoRoom o i m r at small))
        | inl fits ↦
            let (low, _, high) = within m w o i r at fits in
            rw (scan_regions, at, fits)
              (one (align_to (2 ^ o) r.start_pfn) i (cut_region o i r m).1 refl
                (record {
                  aligned = mul-mod_left ((r.start_pfn + 2 ^ o - 1) / 2 ^ o) (2 ^ o);
                  inside = (r, at, low, high);
                })
                (cut-Leaves m w o i r at fits))
      ]
    ]

-- `alloc_from_uninit` takes a block out of a region, at a multiple of its size. The gap before the
-- block is freed: the frames that were free or in a region are those that are after it and the
-- block's, the block is in none of them, and the lists, the free blocks and the regions stay apart.
-- Or it changes nothing, and then no region has room for a block of the order at a multiple of its
-- size.
pub alloc_from_uninit-Cut : (o : ℕ) (m : Pmm) → IsStocked m → Cut o m (alloc_from_uninit o m)
unfolding alloc_from_uninit
alloc_from_uninit-Cut o m w =
    scan_regions-Cut o (length m.regions) 0 m w (omega arith) (λ j lt. absurd (omega arith))
