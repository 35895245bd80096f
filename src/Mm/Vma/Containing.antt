-- ===== src/Mm/Vma/Containing.antt =====
-- `find_containing` beside a scan of the areas in order.
use old_boruixkernel.Common.{
  ℕ, ◌≤◌, ◌<◌, ◌≡◌, refl, ap, sym, ◌∙◌, true, false, Option, none, some, List, [], ◌∷◌, ◌++◌, arith,
  All, All-append, All-imp, if◌then◌else◌, ltb, leb, Bool-cases, inl, inr, ltb→lt, ltb→ge,
}
use old_boruixkernel.Mm.Vma.Area.{MemoryArea, contains}
use old_boruixkernel.Mm.Vma.{Tree, leaf, node, areas, raise}
use old_boruixkernel.Mm.Vma.Lookup.{find_containing, reaches}
use old_boruixkernel.Mm.Vma.Shape.{IsSound}
use old_boruixkernel.Mm.Vma.Order.{Chain, Chain-cut, Chain-le, Within, Chain-Within}

-- The first area that contains the address.
unfoldable pub scan : ℕ → List MemoryArea → Option MemoryArea
scan addr [] = none
scan addr (a ∷ xs) = if contains a addr then some a else scan addr xs

-- The areas that lie wholly before the address are skipped.
pub scan_past :
    (addr : ℕ) (xs ys : List MemoryArea)
    → All (λ b. b.end ≤ addr) xs
    → scan addr (xs ++ ys) ≡ scan addr ys
unfolding scan contains
scan_past addr [] ys h = refl
scan_past addr (x ∷ xs) ys h = ground (arith, scan_past addr xs ys h.1)

pub scan_before :
    (addr : ℕ) (xs : List MemoryArea) → All (λ b. addr < b.start) xs → scan addr xs ≡ none
unfolding scan contains
scan_before addr [] h = refl
scan_before addr (x ∷ xs) h = ground (arith, scan_before addr xs h.1)

pub scan-append_none :
    (addr : ℕ) (xs ys : List MemoryArea) → scan addr ys ≡ none → scan addr (xs ++ ys) ≡ scan addr xs
unfolding scan
scan-append_none addr [] ys h = h
scan-append_none addr (x ∷ xs) ys h = ground (arith, scan-append_none addr xs ys h)

-- The `max_end` of the root is at most `b`.
abbrev Capped : ℕ → Tree → Type 0
Capped b leaf = Unit {0}
Capped b (node k a m p l r) = m ≤ b

Capped-mono : (b c : ℕ) (t : Tree) → Capped b t → b ≤ c → Capped c t
Capped-mono b c leaf h le = tt
Capped-mono b c (node k a m p l r) h le = omega arith

raise_le : (b m : ℕ) (t : Tree) → Capped b t → m ≤ b → raise t m ≤ b
raise_le b m leaf h le = le
raise_le b m (node _ _ x _ _ _) h le = ground arith

le-raise : (m : ℕ) (t : Tree) → m ≤ raise t m
le-raise m leaf = omega arith
le-raise m (node _ _ x _ _ _) = ground arith

Capped-raise : (m : ℕ) (t : Tree) → Capped (raise t m) t
Capped-raise m leaf = tt
Capped-raise m (node _ _ x _ _ _) = ground arith

-- A bound on the `max_end` of the root bounds the end of every area.
Capped-All : (b : ℕ) (t : Tree) → Capped b t → IsSound t → All (λ a. a.end ≤ b) (areas t)
Capped-All b leaf h s = tt
Capped-All b (node k a m p l r) h s =
    let on_left : raise l a.end ≤ b = omega (arith, le-raise (raise l a.end) r, s.2) in
    let on_right : raise r (raise l a.end) ≤ b = omega (arith, s.2) in
    All-append (λ a. a.end ≤ b) (areas l) (a ∷ areas r)
      (Capped-All b l (Capped-mono _ b l (Capped-raise a.end l) on_left) s.5)
      (
        omega (arith, le-raise a.end l),
        Capped-All b r (Capped-mono _ b r (Capped-raise (raise l a.end) r) on_right) s.6,
      )

-- `max_end` is no more than the bound of the areas.
Chain-Capped : (lo hi : ℕ) (t : Tree) → IsSound t → Chain lo hi (areas t) → Capped hi t
Chain-Capped lo hi leaf s c = tt
Chain-Capped lo hi (node k a m p l r) s c =
    let (cl, ca, cr) = Chain-cut lo hi (areas l) a (areas r) c in
    let end : a.end ≤ hi = Chain-le a.end hi (areas r) cr in
    let left = Capped-mono a.start hi l (Chain-Capped lo a.start l s.5 cl) (omega arith) in
    let top =
      raise_le hi (raise l a.end) r (Chain-Capped a.end hi r s.6 cr)
        (raise_le hi a.end l left end) in
    omega (arith, top, s.2)

reaches_lt : (b addr : ℕ) (t : Tree) → Capped b t → reaches t addr ≡ true → addr < b
reaches_lt b addr leaf h e = cc
reaches_lt b addr (node k a m p l r) h e = omega (arith, ltb→lt addr m e)

unreached : (addr : ℕ) (t : Tree) → reaches t addr ≡ false → Capped addr t
unreached addr leaf e = tt
unreached addr (node k a m p l r) e = ltb→ge addr m e

module _ (addr : ℕ) (a : MemoryArea) (ys : List MemoryArea) where
  scan_tail : contains a addr ≡ false → scan addr (a ∷ ys) ≡ scan addr ys
  unfolding scan
  scan_tail e = rw e

  scan_head : contains a addr ≡ true → scan addr (a ∷ ys) ≡ some a
  unfolding scan
  scan_head e = rw e

-- No area from `a` on contains an address before `a`.
pub scan_later :
    (addr hi : ℕ) (a : MemoryArea) (ys : List MemoryArea)
    → addr < a.start
    → a.start < a.end
    → Chain a.end hi ys
    → scan addr (a ∷ ys) ≡ none
scan_later addr hi a ys h ca c = scan_before addr (a ∷ ys) (
  h,
  All-imp (Within a.end hi) (λ b. addr < b.start) (λ b w. omega arith) ys
      (Chain-Within a.end hi ys c),
)

-- The tests of `find_containing` at a node, once the left child is ruled out.
abbrev here_or_right : ℕ → MemoryArea → Option MemoryArea → Option MemoryArea
here_or_right addr a right = elim (ltb addr a.start) [
  | true ↦ right
  | false ↦ elim (leb a.end addr) [ true ↦ right | false ↦ some a ]
]

here_or_right-scan :
    (addr hi : ℕ) (a : MemoryArea) (ys : List MemoryArea)
    → a.start < a.end
    → Chain a.end hi ys
    → here_or_right addr a (scan addr ys) ≡ scan addr (a ∷ ys)
here_or_right-scan addr hi a ys ca c = elim (Bool-cases (contains a addr)) [
  | inl e ↦ rw (scan_head addr a ys e) (unfold contains in ground arith)
  | inr e ↦ rw (scan_tail addr a ys e) (unfold contains in ground arith)
]

-- In a sound tree of areas in order, `find_containing` is the scan of the areas in order.
pub find_containing-scan :
    (t : Tree) (addr lo hi : ℕ)
    → IsSound t
    → Chain lo hi (areas t)
    → find_containing t addr ≡ scan addr (areas t)
unfolding find_containing
find_containing-scan leaf addr lo hi s c = unfold scan in refl
find_containing-scan (node k a m p l r) addr lo hi s c =
    let (cl, ca, cr) = Chain-cut lo hi (areas l) a (areas r) c in
    let on_left = find_containing-scan l addr lo a.start s.5 cl in
    let on_right = find_containing-scan r addr a.end hi s.6 cr in
    elim (Bool-cases (reaches l addr)) [
      | inl e ↦
          let before : addr < a.start =
            reaches_lt a.start addr l (Chain-Capped lo a.start l s.5 cl) e in
          ground (
            arith,
            scan-append_none addr (areas l) (a ∷ areas r)
                (scan_later addr hi a (areas r) before ca cr),
          )
      | inr e ↦
          let past =
            scan_past addr (areas l) (a ∷ areas r) (Capped-All addr l (unreached addr l e) s.5) in
          let step : find_containing (node k a m p l r) addr
              ≡ here_or_right addr a (find_containing r addr) =
            rw (e, find_containing) in
          step
          ∙ ap (here_or_right addr a) on_right
          ∙ here_or_right-scan addr hi a (areas r) ca cr
          ∙ sym past
    ]
