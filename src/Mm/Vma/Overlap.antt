-- ===== src/Mm/Vma/Overlap.antt =====
-- Whether a range meets the areas, and the flags of an address: the view of the tree that
-- `insert_area` is specified by.
use old_boruixkernel.Common.{
  ℕ, ◌≤◌, ◌<◌, ◌≡◌, refl, Bool, true, false, Option, none, some, List, [], ◌∷◌, ◌++◌, arith, All,
  if◌then◌else◌, ltb, ◌&&◌, ◌||◌, Bool-cases, All-imp, inl, inr,
}
use old_boruixkernel.Mm.Vma.Area.{MemoryArea, contains, contains_bounds}
use old_boruixkernel.Mm.Vma.Containing.{scan, scan_past}

-- The range from `s` to `e` meets one of the areas.
unfoldable pub overlaps : ℕ → ℕ → List MemoryArea → Bool
overlaps s e [] = false
overlaps s e (b ∷ xs) = (ltb b.start e && ltb s b.end) || overlaps s e xs

pub overlaps_hit :
    (s e : ℕ) (ls : List MemoryArea) (a : MemoryArea) (rs : List MemoryArea)
    → a.start < e
    → s < a.end
    → overlaps s e (ls ++ (a ∷ rs)) ≡ true
unfolding overlaps
overlaps_hit s e [] a rs h g = ground arith
overlaps_hit s e (x ∷ ls) a rs h g = ground (arith, overlaps_hit s e ls a rs h g)

pub overlaps_past :
    (s e : ℕ) (ls rs : List MemoryArea)
    → All (λ b. b.end ≤ s) ls
    → overlaps s e (ls ++ rs) ≡ overlaps s e rs
unfolding overlaps
overlaps_past s e [] rs h = refl
overlaps_past s e (x ∷ ls) rs h = ground (arith, overlaps_past s e ls rs h.1)

pub overlaps_clear :
    (s e : ℕ) (xs : List MemoryArea) → All (λ b. e ≤ b.start) xs → overlaps s e xs ≡ false
unfolding overlaps
overlaps_clear s e [] h = refl
overlaps_clear s e (x ∷ xs) h = ground (arith, overlaps_clear s e xs h.1)

-- The start of the range does not matter to the areas that end after both starts.
pub overlaps_start :
    (s s' e : ℕ) (xs : List MemoryArea)
    → All (λ b. (s < b.end) × (s' < b.end)) xs
    → overlaps s e xs ≡ overlaps s' e xs
unfolding overlaps
overlaps_start s s' e [] h = refl
overlaps_start s s' e (x ∷ xs) h = ground (arith, overlaps_start s s' e xs h.1)

-- The flags under which an address is mapped.
abbrev pub flags_of : Option MemoryArea → Option ℕ
flags_of none = none
flags_of (some a) = some a.flags

unfoldable pub flags_at : ℕ → List MemoryArea → Option ℕ
flags_at addr xs = flags_of (scan addr xs)

-- The same, where an area lies over the others.
unfoldable pub cover : ℕ → MemoryArea → List MemoryArea → Option ℕ
cover addr a xs = if contains a addr then some a.flags else flags_at addr xs

scan_skip :
    (addr : ℕ) (ls : List MemoryArea) (a : MemoryArea) (rs : List MemoryArea)
    → contains a addr ≡ false
    → scan addr (ls ++ (a ∷ rs)) ≡ scan addr (ls ++ rs)
unfolding scan
scan_skip addr [] a rs e = rw e
scan_skip addr (x ∷ ls) a rs e = ground (arith, scan_skip addr ls a rs e)

pub scan_hit :
    (addr : ℕ) (ls : List MemoryArea) (a : MemoryArea) (rs : List MemoryArea)
    → All (λ b. b.end ≤ addr) ls
    → contains a addr ≡ true
    → scan addr (ls ++ (a ∷ rs)) ≡ some a
unfolding scan
scan_hit addr ls a rs h e = rw (scan_past addr ls (a ∷ rs) h, e)

-- An area among the others covers its addresses, if those before it end in time.
pub flags_at-cover :
    (addr : ℕ) (ls : List MemoryArea) (a : MemoryArea) (rs : List MemoryArea)
    → All (λ b. b.end ≤ a.start) ls
    → flags_at addr (ls ++ (a ∷ rs)) ≡ cover addr a (ls ++ rs)
unfolding flags_at cover
flags_at-cover addr ls a rs h = elim (Bool-cases (contains a addr)) [
  | inl e ↦
      let start = (contains_bounds a addr e).0 in
      let past = All-imp (λ b. b.end ≤ a.start) (λ b. b.end ≤ addr) (λ b w. omega arith) ls h in
      rw (scan_hit addr ls a rs past e, e) refl
  | inr e ↦ rw (scan_skip addr ls a rs e, e) refl
]

-- Two neighbours of the same flags map the same addresses as the area that they make up.
module _ (addr : ℕ) (ls : List MemoryArea) (a : MemoryArea) (rs : List MemoryArea)
    (area whole : MemoryArea) (h : All (λ b. b.end ≤ a.start) ls) (f : a.flags ≡ area.flags)
    (g : whole.flags ≡ area.flags) where
  pub cover_joined :
      contains whole addr ≡ contains area addr || contains a addr
      → cover addr area (ls ++ (a ∷ rs)) ≡ cover addr whole (ls ++ rs)
  unfolding cover flags_at
  cover_joined e = elim (Bool-cases (contains area addr)) [
    | inl y ↦ ground arith
    | inr n ↦ elim (Bool-cases (contains a addr)) [
      | inl y ↦
          let start = (contains_bounds a addr y).0 in
          let past = All-imp (λ b. b.end ≤ a.start) (λ b. b.end ≤ addr) (λ b w. omega arith) ls h in
          ground (arith, scan_hit addr ls a rs past y)
      | inr m ↦ ground (arith, scan_skip addr ls a rs m)
    ]
  ]
