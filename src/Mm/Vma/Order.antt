-- ===== src/Mm/Vma/Order.antt =====
-- The order of the areas: one after the other, without overlap. The searches are read off it.
use old_boruixkernel.Common.{
  ℕ, ◌≤◌, ◌<◌, ◌≡◌, refl, subst, Option, some, List, [], ◌∷◌, ◌++◌, arith, append_assoc, All,
  All-append, All-imp, ltb, leb, Bool-cases, inl, inr, ltb→lt, ltb→ge, leb→le, leb→gt,
}
use old_boruixkernel.Mm.Vma.Area.{MemoryArea}
use old_boruixkernel.Mm.Vma.{Tree, leaf, node, areas}
use old_boruixkernel.Mm.Vma.Lookup.{find_prev_from, find_next_from}
use old_boruixkernel.Mm.Vma.Shape.{IsSound}

-- The areas lie between `lo` and `hi`, none is empty, and each ends before the next starts.
abbrev pub Chain : ℕ → ℕ → List MemoryArea → Type 0
Chain lo hi [] = lo ≤ hi
Chain lo hi (a ∷ xs) = (lo ≤ a.start) × (a.start < a.end) × Chain a.end hi xs

pub Chain-le : (lo hi : ℕ) (xs : List MemoryArea) → Chain lo hi xs → lo ≤ hi
Chain-le lo hi [] c = c
Chain-le lo hi (a ∷ xs) c = omega (arith, Chain-le a.end hi xs c.2)

-- A chain is cut at each of its areas, and two chains are joined by an area between them.
pub Chain-cut :
    (lo hi : ℕ) (xs : List MemoryArea) (a : MemoryArea) (ys : List MemoryArea)
    → Chain lo hi (xs ++ (a ∷ ys))
    → Chain lo a.start xs × (a.start < a.end) × Chain a.end hi ys
Chain-cut lo hi [] a ys c = c
Chain-cut lo hi (x ∷ xs) a ys c =
    let rest = Chain-cut x.end hi xs a ys c.2 in ((c.0, c.1, rest.0), rest.1, rest.2)

pub Chain-join :
    (lo mid next hi : ℕ) (xs ys : List MemoryArea)
    → Chain lo mid xs
    → mid ≤ next
    → Chain next hi ys
    → Chain lo hi (xs ++ ys)
Chain-join lo mid next hi [] [] c h d = omega arith
Chain-join lo mid next hi [] (y ∷ ys) c h d = (omega arith, d.1, d.2)
Chain-join lo mid next hi (x ∷ xs) ys c h d = (c.0, c.1, Chain-join x.end mid next hi xs ys c.2 h d)

abbrev pub Within : ℕ → ℕ → MemoryArea → Type 0
Within lo hi a = (lo ≤ a.start) × (a.start < a.end) × (a.end ≤ hi)

pub Chain-Within : (lo hi : ℕ) (xs : List MemoryArea) → Chain lo hi xs → All (Within lo hi) xs
Chain-Within lo hi [] c = tt
Chain-Within lo hi (a ∷ xs) c = (
  (c.0, c.1, Chain-le a.end hi xs c.2),
  All-imp (Within a.end hi) (Within lo hi) (λ b w. omega arith) xs (Chain-Within a.end hi xs c.2),
)

-- What `find_prev` finds: the last area that starts at or before the key.
pub data PrevOf (key : ℕ) (res : Option MemoryArea) (xs : List MemoryArea)
    (found : Option MemoryArea) : Type 0 where
  no_prev : found ≡ res → All (λ b. key < b.start) xs → PrevOf key res xs found
  prev :
      (ls : List MemoryArea) (a : MemoryArea) (rs : List MemoryArea)
      → xs ≡ ls ++ (a ∷ rs)
      → found ≡ some a
      → a.start ≤ key
      → All (λ b. key < b.start) rs
      → PrevOf key res xs found

above :
    (key lo hi : ℕ) (xs : List MemoryArea) → key < lo → Chain lo hi xs → All (λ b. key < b.start) xs
above key lo hi xs h c =
    All-imp (Within lo hi) (λ b. key < b.start) (λ b w. omega arith) xs (Chain-Within lo hi xs c)

PrevOf-left :
    (key : ℕ) (res found : Option MemoryArea) (xs : List MemoryArea) (a : MemoryArea)
    (ys : List MemoryArea)
    → key < a.start
    → All (λ b. key < b.start) ys
    → PrevOf key res xs found
    → PrevOf key res (xs ++ (a ∷ ys)) found
PrevOf-left key res found xs a ys h u (no_prev e all) =
    no_prev e (All-append (λ b. key < b.start) xs (a ∷ ys) all (h, u))
PrevOf-left key res found xs a ys h u (prev ls b rs e f le all) =
    prev ls b (rs ++ (a ∷ ys)) (rw (e, append_assoc)) f le
      (All-append (λ b. key < b.start) rs (a ∷ ys) all (h, u))

PrevOf-right :
    (key : ℕ) (res found : Option MemoryArea) (xs : List MemoryArea) (a : MemoryArea)
    (ys : List MemoryArea)
    → a.start ≤ key
    → PrevOf key (some a) ys found
    → PrevOf key res (xs ++ (a ∷ ys)) found
PrevOf-right key res found xs a ys h (no_prev e all) = prev xs a ys refl e h all
PrevOf-right key res found xs a ys h (prev ls b rs e f le all) =
    prev (xs ++ (a ∷ ls)) b rs (rw (e, append_assoc)) f le all

pub find_prev-PrevOf :
    (t : Tree) (key lo hi : ℕ) (res : Option MemoryArea)
    → IsSound t
    → Chain lo hi (areas t)
    → PrevOf key res (areas t) (find_prev_from t key res)
unfolding find_prev_from
find_prev-PrevOf leaf key lo hi res s c = no_prev refl tt
find_prev-PrevOf (node k a m p l r) key lo hi res s c =
    let (cl, ca, cr) = Chain-cut lo hi (areas l) a (areas r) c in
    let on_left = find_prev-PrevOf l key lo a.start res s.5 cl in
    let on_right = find_prev-PrevOf r key a.end hi (some a) s.6 cr in
    elim (Bool-cases (ltb key k)) [
      | inl e ↦
          let low : key < a.start = omega (arith, ltb→lt key k e, s.0) in
          let step : find_prev_from l key res ≡ find_prev_from (node k a m p l r) key res =
            ground arith in
          subst (PrevOf key res (areas (node k a m p l r))) step (
            PrevOf-left key res _ (areas l) a (areas r) low
              (above key a.end hi (areas r) (omega arith) cr) on_left)
      | inr e ↦
          let high : a.start ≤ key = omega (arith, ltb→ge key k e, s.0) in
          let step : find_prev_from r key (some a) ≡ find_prev_from (node k a m p l r) key res =
            ground arith in
          subst (PrevOf key res (areas (node k a m p l r))) step
            (PrevOf-right key res _ (areas l) a (areas r) high on_right)
    ]

-- What `find_next` finds: the first area that starts at or after the key.
pub data NextOf (key : ℕ) (res : Option MemoryArea) (xs : List MemoryArea)
    (found : Option MemoryArea) : Type 0 where
  no_next : found ≡ res → All (λ b. b.start < key) xs → NextOf key res xs found
  next :
      (ls : List MemoryArea) (a : MemoryArea) (rs : List MemoryArea)
      → xs ≡ ls ++ (a ∷ rs)
      → found ≡ some a
      → key ≤ a.start
      → All (λ b. b.start < key) ls
      → NextOf key res xs found

below :
    (key lo hi : ℕ) (xs : List MemoryArea) → hi ≤ key → Chain lo hi xs → All (λ b. b.start < key) xs
below key lo hi xs h c =
    All-imp (Within lo hi) (λ b. b.start < key) (λ b w. omega arith) xs (Chain-Within lo hi xs c)

NextOf-right :
    (key : ℕ) (res found : Option MemoryArea) (xs : List MemoryArea) (a : MemoryArea)
    (ys : List MemoryArea)
    → a.start < key
    → All (λ b. b.start < key) xs
    → NextOf key res ys found
    → NextOf key res (xs ++ (a ∷ ys)) found
NextOf-right key res found xs a ys h u (no_next e all) =
    no_next e (All-append (λ b. b.start < key) xs (a ∷ ys) u (h, all))
NextOf-right key res found xs a ys h u (next ls b rs e f le all) =
    next (xs ++ (a ∷ ls)) b rs (rw (e, append_assoc)) f le
      (All-append (λ b. b.start < key) xs (a ∷ ls) u (h, all))

NextOf-left :
    (key : ℕ) (res found : Option MemoryArea) (xs : List MemoryArea) (a : MemoryArea)
    (ys : List MemoryArea)
    → key ≤ a.start
    → NextOf key (some a) xs found
    → NextOf key res (xs ++ (a ∷ ys)) found
NextOf-left key res found xs a ys h (no_next e all) = next xs a ys refl e h all
NextOf-left key res found xs a ys h (next ls b rs e f le all) =
    next ls b (rs ++ (a ∷ ys)) (rw (e, append_assoc)) f le all

pub find_next-NextOf :
    (t : Tree) (key lo hi : ℕ) (res : Option MemoryArea)
    → IsSound t
    → Chain lo hi (areas t)
    → NextOf key res (areas t) (find_next_from t key res)
unfolding find_next_from
find_next-NextOf leaf key lo hi res s c = no_next refl tt
find_next-NextOf (node k a m p l r) key lo hi res s c =
    let (cl, ca, cr) = Chain-cut lo hi (areas l) a (areas r) c in
    let on_left = find_next-NextOf l key lo a.start (some a) s.5 cl in
    let on_right = find_next-NextOf r key a.end hi res s.6 cr in
    elim (Bool-cases (leb key k)) [
      | inl e ↦
          let high : key ≤ a.start = omega (arith, leb→le key k e, s.0) in
          let step : find_next_from l key (some a) ≡ find_next_from (node k a m p l r) key res =
            ground arith in
          subst (NextOf key res (areas (node k a m p l r))) step
            (NextOf-left key res _ (areas l) a (areas r) high on_left)
      | inr e ↦
          let low : a.start < key = omega (arith, leb→gt key k e, s.0) in
          let step : find_next_from r key res ≡ find_next_from (node k a m p l r) key res =
            ground arith in
          subst (NextOf key res (areas (node k a m p l r))) step (
            NextOf-right key res _ (areas l) a (areas r) low
              (below key lo a.start (areas l) (omega arith) cl) on_right)
    ]
