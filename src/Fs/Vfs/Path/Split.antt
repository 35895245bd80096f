-- ===== src/Fs/Vfs/Path/Split.antt =====
-- `split` and `join`.
use old_boruixkernel.Common.{
  ℕ, ◌≡◌, ◌≢◌, refl, ap, ◌∙◌, List, [], ◌∷◌, ◌++◌, ◌==◌, arith, Bool-cases, inl, inr, All,
}
use old_boruixkernel.Fs.Vfs.Path.{Bytes, slash, split, join, before_first}

abbrev pub Lacks : Bytes → Type 0
Lacks p = All (λ c. c ≢ slash) p

split-ne-nil : (s : Bytes) → split s ≢ []
unfolding split
split-ne-nil [] e = cc
split-ne-nil (c ∷ s) e = ground (arith, split-ne-nil s)

before_first-Lacks :
    (c : ℕ) (ps : List Bytes) → c ≢ slash → All Lacks ps → All Lacks (before_first c ps)
before_first-Lacks c [] h k = ((h, tt), tt)
before_first-Lacks c (p ∷ ps) h k = ((h, k.0), k.1)

-- No part holds a slash.
pub split-Lacks : (s : Bytes) → All Lacks (split s)
unfolding split
split-Lacks [] = (tt, tt)
split-Lacks (c ∷ s) = elim (Bool-cases (c == slash)) [
  | inl cut ↦ rw cut (tt, split-Lacks s)
  | inr more ↦ rw more (before_first-Lacks c (split s) (λ e. ground arith) (split-Lacks s))
]

split-part : (p s : Bytes) → Lacks p → split (p ++ (slash ∷ s)) ≡ p ∷ split s
unfolding split
split-part [] s h = ground arith
split-part (c ∷ p) s h = ground (arith, split-part p s h.1)

split-whole : (p : Bytes) → Lacks p → split p ≡ p ∷ []
unfolding split
split-whole [] h = refl
split-whole (c ∷ p) h = ground (arith, split-whole p h.1)

-- Splitting a join gives the parts back, if there is a part and none holds a slash.
pub split-join : (p : Bytes) (ps : List Bytes) → All Lacks (p ∷ ps) → split (join (p ∷ ps)) ≡ p ∷ ps
unfolding join
split-join p [] h = split-whole p h.0
split-join p (q ∷ ps) h = split-part p (join (q ∷ ps)) h.0 ∙ ap (λ z. p ∷ z) (split-join q ps h.1)
