-- ===== src/Mm/Frame/Buddy/Blocks.antt =====
-- Sets of blocks: a block of an order `o` is `2 ^ o` frames, and a set of blocks is a Boolean function
-- of the first frame and the order. The buddy system adds blocks and takes them out.
use old_boruixkernel.Common.{
  ℕ, zero, suc, ◌+◌, ◌/◌, ◌%◌, ◌^◌, ◌≤◌, ◌<◌, ◌≡◌, ◌≢◌, ◌⊎◌, ◌↔◌, refl, Bool, true, false, ◌==◌,
  if◌then◌else◌, arith, Bool-cases, inl, inr, subst, ltb, ltb→lt, ltb→ge,
}
use old_boruixkernel.Mm.Frame.Buddy.{buddy_of}

pub pow_pos : (o : ℕ) → 0 < 2 ^ o
pow_pos zero = omega arith
pow_pos (suc o) = omega (arith, pow_pos o)

pub pow_double : (o : ℕ) → 2 ^ (o + 1) ≡ 2 ^ o + 2 ^ o
pow_double o = let e : o + 1 ≡ suc o = omega arith in rw e (omega arith)

abbrev pub Blocks : Type 0
Blocks = ℕ → ℕ → Bool

abbrev pub InBlock : ℕ → ℕ → ℕ → Type 0
InBlock a p o = (p ≤ a) × (a < p + 2 ^ o)

-- A number is in a half-open range, below it or beyond it.
pub side : (a x y : ℕ) → ((x ≤ a) × (a < y)) ⊎ ((a < x) ⊎ (y ≤ a))
side a x y = elim (Bool-cases (ltb a x)) [
  | inl below ↦ inr (inl (ltb→lt a x below))
  | inr at ↦ elim (Bool-cases (ltb a y)) [
    | inl inside ↦ inl (ltb→ge a x at, ltb→lt a y inside)
    | inr beyond ↦ inr (inr (ltb→ge a y beyond))
  ]
]

-- The block at `p` meets none of the set.
abbrev pub Fits : Blocks → ℕ → ℕ → Type 0
Fits free p o = (q o' : ℕ) → free q o' ≡ true → (p + 2 ^ o ≤ q) ⊎ (q + 2 ^ o' ≤ p)

-- A frame is the first of at most one block, and the blocks do not meet.
pub record Apart (free : Blocks) : Type 0 where
  pub one : (p o o' : ℕ) → free p o ≡ true → free p o' ≡ true → o ≡ o'
  pub apart :
      (p o q o' : ℕ)
      → free p o ≡ true
      → free q o' ≡ true
      → p ≢ q
      → (p + 2 ^ o ≤ q) ⊎ (q + 2 ^ o' ≤ p)

abbrev pub Covered : Blocks → ℕ → Type 0
Covered free a = (p : ℕ) × (o : ℕ) × (free p o ≡ true) × InBlock a p o

abbrev pub add : ℕ → ℕ → Blocks → Blocks
add p o free q o' = if q == p then o == o' else free q o'

abbrev pub drop : ℕ → Blocks → Blocks
drop p free q o' = if q == p then false else free q o'

module _ (free : Blocks) (p o : ℕ) where
  pub add-Apart : Apart free → Fits free p o → Apart (add p o free)
  add-Apart w f = record {
    one = λ q i j h k. ground (arith, w.one q i j);
    apart = λ q i r j h k ne. elim (Bool-cases (q == p)) [
      | inl here ↦ elim (Bool-cases (r == p)) [
        | inl both ↦ absurd (ground arith)
        | inr there ↦
            let at : p ≡ q = ground arith in
            let same : o ≡ i = ground arith in
            subst (λ z. (z + 2 ^ i ≤ r) ⊎ (r + 2 ^ j ≤ z)) at
              (subst (λ z. (p + 2 ^ z ≤ r) ⊎ (r + 2 ^ j ≤ p)) same (f r j (ground arith)))
      ]
      | inr away ↦ elim (Bool-cases (r == p)) [
        | inl here ↦
            let at : p ≡ r = ground arith in
            let same : o ≡ j = ground arith in
            subst (λ z. (q + 2 ^ i ≤ z) ⊎ (z + 2 ^ j ≤ q)) at
              (subst (λ z. (q + 2 ^ i ≤ p) ⊎ (p + 2 ^ z ≤ q)) same
                (elim (f q i (ground arith)) [ inl x ↦ inr x | inr x ↦ inl x ]))
        | inr there ↦ w.apart q i r j (ground arith) (ground arith) ne
      ]
    ];
  }

  moved : (a q i : ℕ) → InBlock a q i → q ≡ p → i ≡ o → InBlock a p o
  moved a q i b e k = subst (λ z. InBlock a z o) e (subst (λ z. InBlock a q z) k b)

  pub add-Covered :
      Fits free p o → (a : ℕ) → Covered (add p o free) a ↔ (Covered free a ⊎ InBlock a p o)
  add-Covered f a = (
    (λ c.
        let (q, i, h, b) = c in
        elim (Bool-cases (q == p)) [
          | inl here ↦ inr (moved a q i b (ground arith) (ground arith))
          | inr there ↦ inl (q, i, ground arith, b)
        ]),
    λ s. elim s [
      | inl c ↦
          let (q, i, h, b) = c in
          (
            q,
            i,
            let out : (q == p) ≡ false = ground (arith, f q i h, pow_pos o, pow_pos i) in rw out h,
            b,
          )
      | inr b ↦ (p, o, ground arith, b)
    ],
  )

  pub drop-Apart : Apart free → Apart (drop p free)
  drop-Apart w = record {
    one = λ q i j h k. ground (arith, w.one q i j);
    apart = λ q i r j h k ne. w.apart q i r j (ground arith) (ground arith) ne;
  }

  pub drop-Fits : Apart free → free p o ≡ true → Fits (drop p free) p o
  drop-Fits w here q o' h = w.apart p o q o' here (ground arith) (λ e. ground arith)

  pub drop-Covered :
      Apart free
      → free p o ≡ true
      → (a : ℕ) → Covered free a ↔ (Covered (drop p free) a ⊎ InBlock a p o)
  drop-Covered w here a = (
    (λ c.
        let (q, i, h, b) = c in
        elim (Bool-cases (q == p)) [
          | inl self ↦ inr (
              moved a q i b (ground arith)
                (w.one q i o h (subst (λ z. free z o ≡ true) (ground arith) here)))
          | inr there ↦ inl (q, i, ground arith, b)
        ]),
    λ s. elim s [
      | inl c ↦ let (q, i, h, b) = c in (q, i, ground arith, b)
      | inr b ↦ (p, o, here, b)
    ],
  )

pow_le : (p o : ℕ) → 1 ≤ p / 2 ^ o → 2 ^ o ≤ p
pow_le p o h = grind arith

-- The block meets none of the set exactly if no covered frame is in it.
pub clear-Fits :
    (free : Blocks) (p o : ℕ)
    → ((a : ℕ) → Covered free a → (a < p) ⊎ (p + 2 ^ o ≤ a))
    → Fits free p o
clear-Fits free p o out q i h = elim (Bool-cases (ltb q p)) [
  | inl below ↦ elim (Bool-cases (ltb p (q + 2 ^ i))) [
    | inl meets ↦
        elim (out p (q, i, h, (omega (arith, ltb→lt q p below), ltb→lt p (q + 2 ^ i) meets))) [
          | inl x ↦ absurd (omega arith)
          | inr x ↦ absurd (omega (arith, pow_pos o))
        ]
    | inr clear ↦ inr (ltb→ge p (q + 2 ^ i) clear)
  ]
  | inr above ↦ elim (out q (q, i, h, (omega arith, omega (arith, pow_pos i)))) [
    | inl x ↦ absurd (omega (arith, ltb→ge q p above))
    | inr x ↦ inl x
  ]
]

pub outside_of_Fits :
    (free : Blocks) (p o : ℕ) → Fits free p o → (a : ℕ) → Covered free a → (a < p) ⊎ (p + 2 ^ o ≤ a)
outside_of_Fits free p o f a (q, i, h, (x, y)) = elim (f q i h) [
  | inl l ↦ inr (omega arith)
  | inr l ↦ inl (omega arith)
]

-- The buddy stands right after the block or right before it.
pub buddy_of_cases : (p o : ℕ) → (buddy_of p o ≡ p + 2 ^ o) ⊎ (buddy_of p o + 2 ^ o ≡ p)
buddy_of_cases p o = elim (Bool-cases ((p / 2 ^ o) % 2 == 0)) [
  | inl even ↦ inl (rw even refl)
  | inr odd ↦
      let k : 1 ≤ p / 2 ^ o = ground arith in
      let le : 2 ^ o ≤ p = pow_le p o k in inr (rw odd (omega arith))
]
