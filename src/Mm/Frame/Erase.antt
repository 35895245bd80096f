-- ===== src/Mm/Frame/Erase.antt =====
-- `remove_from_list` takes its frame out of the chain, wherever in it the frame stands.
use old_boruixkernel.Common.{
  ℕ, ◌≡◌, ◌≢◌, refl, sym, ◌∙◌, true, false, Option, none, some, List, [], ◌∷◌, ◌==◌, if◌then◌else◌,
  arith, Bool-cases, inl, inr, subst, ==_refl,
}
use old_boruixkernel.Mm.Frame.{Frames}
use old_boruixkernel.Mm.Frame.Links.{
  has, Distinct, Chain, erase, Chain-frame, starts, next-has, before, first, later, is_link,
  Unlinked,
}

pub has-erase :
    (p q : ℕ) (xs : List ℕ)
    → Distinct xs
    → has q (erase p xs) ≡ (if q == p then false else has q xs)
unfolding erase
has-erase p q [] d = ground arith
has-erase p q (x ∷ xs) d = ground (arith, has-erase p q xs d.1)

pub Distinct-erase : (p : ℕ) (xs : List ℕ) → Distinct xs → Distinct (erase p xs)
unfolding erase
Distinct-erase p [] d = tt
Distinct-erase p (x ∷ xs) d = elim (Bool-cases (x == p)) [
  | inl same ↦ rw same d.1
  | inr other ↦ rw other (ground (arith, has-erase p x xs d.1), Distinct-erase p xs d.1)
]

pub is_link-clear :
    (link : Option ℕ) (j : ℕ)
    → ((n : ℕ) → link ≡ some n → (n == j) ≡ false)
    → is_link link j ≡ false
is_link-clear none j h = refl
is_link-clear (some n) j h = h n refl

module _ (fs fs' : Frames) (p : ℕ) (u : Unlinked p fs fs') where
  -- The rest of a chain whose first frame is taken out.
  rest-Chain :
      (back : Option ℕ) (xs : List ℕ)
      → Chain fs (some p) (fs p).next xs
      → Distinct (p ∷ xs)
      → (fs p).prev ≡ back
      → ((q : ℕ) → back ≡ some q → has q (p ∷ xs) ≡ false)
      → Chain fs' back (fs p).next xs
  rest-Chain back [] c d e out = c
  rest-Chain back (y ∷ ys) (a, b, c) d e out =
      let ne : y ≢ p = λ z. ground arith in
      let away : is_link (fs p).prev y ≡ false =
        is_link-clear (fs p).prev y (λ q z. ground (arith, out q (sym e ∙ z))) in
      let prev : (fs' y).prev ≡ back = u.prev_links y ne ∙ rw (a, ==_refl y) e in
      let next : (fs' y).next ≡ (fs y).next = u.next_links y ne ∙ rw away refl in
      (
        a,
        prev,
        subst (λ n. Chain fs' (some y) n ys) (sym next)
            (Chain-frame fs fs' (some y) (fs y).next ys
              (λ j h.
                let apart : j ≢ p = λ z. ground arith in
                let clear : is_link (fs p).prev j ≡ false =
                  is_link-clear (fs p).prev j (λ q z. ground (arith, out q (sym e ∙ z))) in
                let other : is_link (fs p).next j ≡ false =
                  is_link-clear (fs p).next j (λ q z. ground (arith, sym a ∙ z)) in
                (u.next_links j apart ∙ rw clear refl, u.prev_links j apart ∙ rw other refl))
              c),
      )

  link_here :
      (x : ℕ) (xs : List ℕ)
      → Chain fs (some x) (fs x).next xs
      → Distinct (x ∷ xs)
      → has p xs ≡ true
      → (if is_link (fs p).prev x then (fs p).next else (fs x).next)
        ≡ (if starts p xs then (fs p).next else (fs x).next)
  link_here x xs c d inside = elim (before fs (some x) (fs x).next xs p c inside) [
    | first e k ↦ rw (k, e, ==_refl x) refl
    | later q e k i ↦ let apart : (q == x) ≡ false = ground arith in rw (k, e, apart) refl
  ]

  -- A chain that its frame `p` is taken out of, where nothing in it leads back to `back`.
  pub Chain-erase :
      (back cur : Option ℕ) (xs : List ℕ)
      → Chain fs back cur xs
      → Distinct xs
      → has p xs ≡ true
      → ((q : ℕ) → back ≡ some q → has q xs ≡ false)
      → Chain fs' back (if starts p xs then (fs p).next else cur) (erase p xs)
  unfolding erase
  Chain-erase back cur [] c d h out = cc
  Chain-erase back cur (x ∷ xs) (a, b, c) d h out = elim (Bool-cases (x == p)) [
    | inl same ↦
        let at : x ≡ p = ground arith in
        rw same (
          rest-Chain back xs (subst (λ z. Chain fs (some z) (fs z).next xs) at c)
            (subst (λ z. Distinct (z ∷ xs)) at d) (subst (λ z. (fs z).prev ≡ back) at b)
            (subst (λ z. (q : ℕ) → back ≡ some q → has q (z ∷ xs) ≡ false) at out))
    | inr other ↦
        let ne : x ≢ p = λ z. ground arith in
        let inside : has p xs ≡ true = ground arith in
        let no_next : is_link (fs p).next x ≡ false =
          is_link-clear (fs p).next x
            (λ n z. ground (arith, next-has fs (some x) (fs x).next xs p n c inside z)) in
        let next : (fs' x).next ≡ (if starts p xs then (fs p).next else (fs x).next) =
          u.next_links x ne ∙ link_here x xs c d inside in
        rw other (
          a,
          u.prev_links x ne ∙ rw no_next b,
          subst (λ n. Chain fs' (some x) n (erase p xs)) (sym next)
              (Chain-erase (some x) (fs x).next xs c d.1 inside (λ q z. ground (arith, z))),
        )
  ]
