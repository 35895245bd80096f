-- ===== src/Mm/Vma/Checked.antt =====
-- `check_range` beside its specification: the flags of every address in a range.
use old_boruixkernel.Common.{
  ℕ, ◌+◌, ◌≤◌, ◌<◌, ◌≡◌, ◌↔◌, refl, sym, ap, ◌∙◌, subst, Bool, true, false, Option, none, some,
  List, [], ◌∷◌, ◌++◌, arith, All, All-imp, leb, ◌==◌, Bool-cases, Option-cases, inl, inr, word_max,
  length, length-append, append-nil, leb→le, leb→gt, ◌⊎◌, ==_iff,
}
use old_boruixkernel.Mm.Vma.Area.{MemoryArea, contains, contains_bounds}
use old_boruixkernel.Mm.Vma.{Tree, areas}
use old_boruixkernel.Mm.Vma.Shape.{IsSound}
use old_boruixkernel.Mm.Vma.Order.{
  Chain, Chain-cut, Within, Chain-Within, NextOf, no_next, next, find_next-NextOf,
}
use old_boruixkernel.Mm.Vma.Containing.{scan, find_containing-scan}
use old_boruixkernel.Mm.Vma.Lookup.{find_containing, find_next}
use old_boruixkernel.Mm.Vma.RangeProofs.{Mapped, first, Ahead, loop_Answers}
use old_boruixkernel.Mm.Vma.Range.{check_range, or_next}

scan_split :
    (addr : ℕ) (xs : List MemoryArea) {a : MemoryArea}
    → scan addr xs ≡ some a
    → (ls rs : List MemoryArea) × (xs ≡ ls ++ (a ∷ rs)) × (contains a addr ≡ true)
unfolding scan
scan_split addr [] e = cc
scan_split addr (x ∷ xs) {a} e = elim (Bool-cases (contains x addr)) [
  | inl y ↦ ([], xs, ground arith, ground arith)
  | inr n ↦
      let (ls, rs, q, w) = scan_split addr xs {a = a} (ground arith) in
      (x ∷ ls, rs, ap (λ ys. x ∷ ys) q, w)
]

scan-none_past :
    (addr : ℕ) (xs ys : List MemoryArea)
    → scan addr (xs ++ ys) ≡ none
    → All (λ b. b.start ≤ addr) xs
    → All (λ b. b.end ≤ addr) xs
unfolding scan contains
scan-none_past addr [] ys e h = tt
scan-none_past addr (x ∷ xs) ys e h = (ground arith, scan-none_past addr xs ys (ground arith) h.1)

module _ (permits : ℕ → Bool) (t : Tree) (s : IsSound t) (c : Chain 0 word_max (areas t)) where
  seen : (addr : ℕ) → find_containing t addr ≡ scan addr (areas t)
  seen addr = find_containing-scan t addr 0 word_max s c

  missed :
      (addr : ℕ)
      → scan addr (areas t) ≡ none
      → (found : Option MemoryArea) → NextOf addr none (areas t) found
      → (ls rs : List MemoryArea) × (areas t ≡ ls ++ rs)
        × (found ≡ first rs)
        × All (λ b. b.end ≤ addr) ls
        × Ahead addr rs
  missed addr e found (no_next f all) = (
    areas t,
    [],
    sym (append-nil (areas t)),
    f,
    scan-none_past addr (areas t) [] (rw (append-nil (areas t)) e)
        (All-imp (λ b. b.start < addr) (λ b. b.start ≤ addr) (λ b k. omega arith) (areas t) all),
    tt,
  )
  missed addr e found (next ls a rs q f le all) =
      let (cl, ca, cr) = Chain-cut 0 word_max ls a rs (subst (Chain 0 word_max) q c) in
      (
        ls,
        a ∷ rs,
        q,
        f,
        scan-none_past addr ls (a ∷ rs) (rw q at e)
            (All-imp (λ b. b.start < addr) (λ b. b.start ≤ addr) (λ b k. omega arith) ls all),
        omega arith,
      )

  -- The first lookups of `check_range` find the first area that ends after the address.
  first_lookup :
      (addr : ℕ)
      → (ls rs : List MemoryArea) × (areas t ≡ ls ++ rs)
        × (or_next t addr (find_containing t addr) ≡ first rs)
        × All (λ b. b.end ≤ addr) ls
        × Ahead addr rs
  unfolding find_next
  first_lookup addr = elim (Option-cases (find_containing t addr)) [
    | inr (a, e) ↦
        let (ls, rs, q, w) = scan_split addr (areas t) (sym (seen addr) ∙ e) in
        let (cl, ca, cr) = Chain-cut 0 word_max ls a rs (subst (Chain 0 word_max) q c) in
        let (low, high) = contains_bounds a addr w in
        (
          ls,
          a ∷ rs,
          q,
          rw e refl,
          All-imp (Within 0 a.start) (λ b. b.end ≤ addr) (λ b k. omega arith) ls
              (Chain-Within 0 a.start ls cl),
          high,
        )
    | inl e ↦
        rw e (missed addr (sym (seen addr) ∙ e) _ (find_next-NextOf t addr 0 word_max none s c))
  ]

  -- With fuel for every area and two units more, `check_range` answers, and it answers true exactly
  -- if the range is empty, or if it ends within the address space and every address in it is mapped
  -- with flags that are permitted.
  pub check_range-Mapped :
      (fuel addr size : ℕ)
      → length (areas t) + 1 < fuel
      → (b : Bool) × (check_range fuel permits t addr size ≡ some b)
        × ((b ≡ true) ↔ (
            (size ≡ 0) ⊎ ((addr + size ≤ word_max) × Mapped permits (areas t) addr (addr + size))))
  unfolding check_range
  check_range-Mapped fuel addr size f = elim (Bool-cases (size == 0)) [
    | inl empty ↦ rw empty (true, refl, (λ _. inl ((==_iff size 0).0 empty), λ _. refl))
    | inr some_left ↦ elim (Bool-cases (leb (addr + size) word_max)) [
      | inr out ↦
          rw (some_left, out)
            (
              false,
              refl,
              (λ e. cc, λ h. absurd (ground (arith, leb→gt (addr + size) word_max out))),
            )
      | inl fits ↦
          let (ls, rs, e, head, past, ahead) = first_lookup addr in
          let n : addr < addr + size = ground arith in
          let (b, q, both) =
            loop_Answers permits t word_max s c fuel addr (addr + size) ls rs n e past ahead
              (omega (arith, ap length e, length-append ls rs)) in
          rw (some_left, fits, head)
            (
              b,
              q,
              (
                λ y. inr (leb→le (addr + size) word_max fits, both.0 y),
                λ h. elim h [ inl z ↦ absurd (ground arith) | inr k ↦ both.1 k.1 ],
              ),
            )
    ]
  ]
