-- ===== src/Task/RunQueue/Busiest.antt =====
-- The choice of the CPU to steal from.
use old_boruixkernel.Common.{
  ℕ, zero, suc, ◌+◌, ◌≤◌, ◌<◌, ◌≡◌, ◌≢◌, refl, false, Option, none, some, arith, subst, ltb, ◌==◌,
  if◌then◌else◌, Bool-cases, inl, inr, ltb→lt, ltb→ge,
}
use old_boruixkernel.Task.RunQueue.{busiest, get_ready}

-- Where the CPU that the loop has chosen stands: among the first `i`, and not the caller's own.
pub IsFound : ℕ → (ℕ → ℕ) → ℕ → Option ℕ → ℕ → Type 0
IsFound cpu counts i none most = most ≡ 0
IsFound cpu counts i (some v) most = (v ≢ cpu) × (v < i) × (get_ready v counts ≡ most)

-- The first `i` CPUs other than the caller's own have at most `most` ready tasks, and that is the count
-- of the one chosen.
pub record IsBusiest (cpu : ℕ) (counts : ℕ → ℕ) (i : ℕ) (best : Option ℕ) (most : ℕ) : Type 0 where
  pub found : IsFound cpu counts i best most
  pub most_of : (j : ℕ) → j < i → j ≢ cpu → get_ready j counts ≤ most

later :
    (cpu : ℕ) (counts : ℕ → ℕ) (i : ℕ) (best : Option ℕ) (most : ℕ)
    → IsFound cpu counts i best most
    → IsFound cpu counts (i + 1) best most
unfolding IsFound
later cpu counts i none most f = f
later cpu counts i (some v) most (apart, lt, e) = (apart, omega arith, e)

round-IsBusiest :
    (cpu : ℕ) (counts : ℕ → ℕ) (i : ℕ) (best : Option ℕ) (most : ℕ)
    → IsBusiest cpu counts i best most
    → let better = if i == cpu then false else ltb most (get_ready i counts) in
      IsBusiest cpu counts
        (i + 1)
        (if better then some i else best)
        (if better then get_ready i counts else most)
unfolding IsFound
round-IsBusiest cpu counts i best most b = elim (Bool-cases (i == cpu)) [
  | inl own ↦ rw own (record {
    found = later cpu counts i best most b.found;
    most_of = λ j lt ne. elim (Bool-cases (j == i)) [
      | inl y ↦ ground arith
      | inr n ↦ b.most_of j (ground arith) ne
    ];
  })
  | inr other ↦ elim (Bool-cases (ltb most (get_ready i counts))) [
    | inl y ↦
        rw (other, y)
          (record {
            found = (λ e. ground arith, omega arith, refl);
            most_of = λ j lt ne. elim (Bool-cases (j == i)) [
              | inl same ↦
                  let at : i ≡ j = ground arith in
                  subst (λ x. get_ready x counts ≤ get_ready i counts) at (omega arith)
              | inr n ↦
                  omega (arith, b.most_of j (ground arith) ne, ltb→lt most (get_ready i counts) y)
            ];
          })
    | inr n ↦
        rw (other, n)
          (record {
            found = later cpu counts i best most b.found;
            most_of = λ j lt ne. elim (Bool-cases (j == i)) [
              | inl same ↦
                  let at : i ≡ j = ground arith in
                  subst (λ x. get_ready x counts ≤ most) at (ltb→ge most (get_ready i counts) n)
              | inr m ↦ b.most_of j (ground arith) ne
            ];
          })
  ]
]

rounds-IsBusiest :
    (cpu n i : ℕ) (counts : ℕ → ℕ) (best : Option ℕ) (most : ℕ)
    → IsBusiest cpu counts i best most
    → IsBusiest cpu counts
        (i + n)
        (busiest cpu n i counts best most).0
        (busiest cpu n i counts best most).1
unfolding busiest
rounds-IsBusiest cpu zero i counts best most b =
    subst (λ x. IsBusiest cpu counts x best most) (omega arith) b
rounds-IsBusiest cpu (suc n) i counts best most b =
    let better = if i == cpu then false else ltb most (get_ready i counts) in
    let best' = if better then some i else best in
    let most' = if better then get_ready i counts else most in
    subst
      (λ x.
        IsBusiest cpu counts x (busiest cpu n (i + 1) counts best' most').0
          (busiest cpu n (i + 1) counts best' most').1)
      (omega arith)
      (rounds-IsBusiest cpu n (i + 1) counts best' most' (round-IsBusiest cpu counts i best most b))

-- The loop chooses a CPU other than the caller's whose count of ready tasks is the greatest, and none
-- only where all the counts are 0.
pub busiest-IsBusiest :
    (cpu n : ℕ) (counts : ℕ → ℕ)
    → IsBusiest cpu counts n (busiest cpu n 0 counts none 0).0 (busiest cpu n 0 counts none 0).1
unfolding IsFound
busiest-IsBusiest cpu n counts =
    subst
      (λ x.
        IsBusiest cpu counts x (busiest cpu n 0 counts none 0).0 (busiest cpu n 0 counts none 0).1)
      (omega arith)
      (rounds-IsBusiest cpu n 0 counts none 0
        (record { found = refl; most_of = λ j lt ne. omega arith }))
