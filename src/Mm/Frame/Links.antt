-- ===== src/Mm/Frame/Links.antt =====
-- The free lists as lists of frames: what `push_list` and `remove_from_list` do to the one that runs
-- through the metadata.
use old_boruixkernel.Common.{
  ℕ, ◌≡◌, ◌≢◌, refl, sym, ◌∙◌, Bool, true, false, Option, none, some, List, [], ◌∷◌, ◌==◌, ◌||◌,
  if◌then◌else◌, arith, Bool-cases, Option-cases, inl, inr, subst,
}
use old_boruixkernel.Mm.Frame.{free_global, Frames, remove_from_list, push_list}

abbrev pub has : ℕ → List ℕ → Bool
has p [] = false
has p (x ∷ xs) = (x == p) || has p xs

abbrev pub Distinct : List ℕ → Type 0
Distinct [] = Unit {0}
Distinct (x ∷ xs) = (has x xs ≡ false) × Distinct xs

-- From `cur` the `next` links lead through the frames `xs`, and the `prev` links back to `back`.
abbrev pub Chain : Frames → Option ℕ → Option ℕ → List ℕ → Type 0
Chain fs back cur [] = cur ≡ none
Chain fs back cur (x ∷ xs) =
    (cur ≡ some x) × ((fs x).prev ≡ back) × Chain fs (some x) (fs x).next xs

unfoldable pub erase : ℕ → List ℕ → List ℕ
erase p [] = []
erase p (x ∷ xs) = let rest = erase p xs in if x == p then xs else x ∷ rest

-- A chain survives a change that spares the links of its frames.
pub Chain-frame :
    (fs fs' : Frames) (back cur : Option ℕ) (xs : List ℕ)
    → ((p : ℕ) → has p xs ≡ true → ((fs' p).next ≡ (fs p).next) × ((fs' p).prev ≡ (fs p).prev))
    → Chain fs back cur xs
    → Chain fs' back cur xs
Chain-frame fs fs' back cur [] same c = c
Chain-frame fs fs' back cur (x ∷ xs) same (e, k, c) =
    let (next, prev) = same x (ground arith) in
    (
      e,
      prev ∙ k,
      subst (λ n. Chain fs' (some x) n xs) (sym next)
          (Chain-frame fs fs' (some x) (fs x).next xs (λ p h. same p (ground arith)) c),
    )

abbrev pub starts : ℕ → List ℕ → Bool
starts p [] = false
starts p (x ∷ xs) = x == p

-- The frame after one of a chain is in the chain.
pub next-has :
    (fs : Frames) (back cur : Option ℕ) (xs : List ℕ) (p n : ℕ)
    → Chain fs back cur xs
    → has p xs ≡ true
    → (fs p).next ≡ some n
    → has n xs ≡ true
next-has fs back cur [] p n c h e = cc
next-has fs back cur (x ∷ []) p n (a, b, c) h e = ground arith
next-has fs back cur (x ∷ y ∷ ys) p n (a, b, (d, k, c)) h e = elim (Bool-cases (x == p)) [
  | inl same ↦ ground arith
  | inr other ↦
      ground (arith, next-has fs (some x) (fs x).next (y ∷ ys) p n (d, k, c) (ground arith) e)
]

-- The frame before one of a chain is in the chain, but for that of the first.
pub data Before (fs : Frames) (back : Option ℕ) (xs : List ℕ) (p : ℕ) : Type 0 where
  first : starts p xs ≡ true → (fs p).prev ≡ back → Before fs back xs p
  later :
      (q : ℕ) → starts p xs ≡ false → (fs p).prev ≡ some q → has q xs ≡ true → Before fs back xs p

pub before :
    (fs : Frames) (back cur : Option ℕ) (xs : List ℕ) (p : ℕ)
    → Chain fs back cur xs
    → has p xs ≡ true
    → Before fs back xs p
before fs back cur [] p c h = cc
before fs back cur (x ∷ xs) p (a, b, c) h = elim (Bool-cases (x == p)) [
  | inl same ↦ let at : x ≡ p = ground arith in first same (subst (λ y. (fs y).prev ≡ back) at b)
  | inr other ↦ elim (before fs (some x) (fs x).next xs p c (ground arith)) [
    | first e k ↦ later x other k (ground arith)
    | later q e k i ↦ later q other k (ground arith)
  ]
]

abbrev pub is_link : Option ℕ → ℕ → Bool
is_link none j = false
is_link (some q) j = q == j

-- What a removal does to each of the other frames.
pub record Unlinked (p : ℕ) (fs fs' : Frames) : Type 0 where
  pub same_state : (j : ℕ) → j ≢ p → (fs' j).state ≡ (fs j).state
  pub same_order : (j : ℕ) → j ≢ p → (fs' j).order ≡ (fs j).order
  pub next_links :
      (j : ℕ) → j ≢ p → (fs' j).next ≡ (if is_link (fs p).prev j then (fs p).next else (fs j).next)
  pub prev_links :
      (j : ℕ) → j ≢ p → (fs' j).prev ≡ (if is_link (fs p).next j then (fs p).prev else (fs j).prev)

pub remove_from_list-Unlinked :
    (p : ℕ) (fs : Frames) (head : Option ℕ) → Unlinked p fs (remove_from_list p (fs, head)).0
unfolding remove_from_list
remove_from_list-Unlinked p fs head = elim (Option-cases (fs p).prev) [
  | inl a ↦ elim (Option-cases (fs p).next) [
    | inl b ↦
        rw (a, b)
          (record {
            same_state = λ j ne. ground arith;
            same_order = λ j ne. ground arith;
            next_links = λ j ne. ground arith;
            prev_links = λ j ne. ground arith;
          })
    | inr (n, b) ↦
        rw (a, b)
          (record {
            same_state = λ j ne. ground arith;
            same_order = λ j ne. ground arith;
            next_links = λ j ne. ground arith;
            prev_links = λ j ne. ground arith;
          })
  ]
  | inr (q, a) ↦ elim (Option-cases (fs p).next) [
    | inl b ↦
        rw (a, b)
          (record {
            same_state = λ j ne. ground arith;
            same_order = λ j ne. ground arith;
            next_links = λ j ne. ground arith;
            prev_links = λ j ne. ground arith;
          })
    | inr (n, b) ↦
        rw (a, b)
          (record {
            same_state = λ j ne. ground arith;
            same_order = λ j ne. ground arith;
            next_links = λ j ne. ground arith;
            prev_links = λ j ne. ground arith;
          })
  ]
]

-- What a push does to each frame.
pub record Pushed (p order : ℕ) (head : Option ℕ) (fs fs' : Frames) : Type 0 where
  pub state_at : (fs' p).state ≡ free_global
  pub order_at : (fs' p).order ≡ order
  pub next_at : (fs' p).next ≡ head
  pub prev_at : (fs' p).prev ≡ none
  pub same_state : (j : ℕ) → j ≢ p → (fs' j).state ≡ (fs j).state
  pub same_order : (j : ℕ) → j ≢ p → (fs' j).order ≡ (fs j).order
  pub next_links : (j : ℕ) → j ≢ p → (fs' j).next ≡ (fs j).next
  pub prev_links : (j : ℕ) → j ≢ p → (fs' j).prev ≡ (if is_link head j then some p else (fs j).prev)

pub push_list-Pushed :
    (p order : ℕ) (head : Option ℕ) (fs : Frames)
    → is_link head p ≡ false
    → Pushed p order head fs (push_list p order (fs, head)).0
unfolding push_list
push_list-Pushed p order none fs h = record {
  state_at = ground arith;
  order_at = ground arith;
  next_at = ground arith;
  prev_at = ground arith;
  same_state = λ j ne. ground arith;
  same_order = λ j ne. ground arith;
  next_links = λ j ne. ground arith;
  prev_links = λ j ne. ground arith;
}
push_list-Pushed p order (some q) fs h = record {
  state_at = ground arith;
  order_at = ground arith;
  next_at = ground arith;
  prev_at = ground arith;
  same_state = λ j ne. ground arith;
  same_order = λ j ne. ground arith;
  next_links = λ j ne. ground arith;
  prev_links = λ j ne. ground arith;
}

-- The head of a list after a removal.
pub remove_from_list-head :
    (p : ℕ) (fs : Frames) (head : Option ℕ)
    → (remove_from_list p (fs, head)).1 ≡ elim (fs p).prev [ none ↦ (fs p).next | some _ ↦ head ]
unfolding remove_from_list
remove_from_list-head p fs head = elim (Option-cases (fs p).prev) [
  | inl a ↦ elim (Option-cases (fs p).next) [ inl b ↦ rw (a, b) refl | inr (n, b) ↦ rw (a, b) refl ]
  | inr (q, a) ↦ elim (Option-cases (fs p).next) [
    | inl b ↦ rw (a, b) refl
    | inr (n, b) ↦ rw (a, b) refl
  ]
]
