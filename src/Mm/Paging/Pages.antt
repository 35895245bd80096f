-- ===== src/Mm/Paging/Pages.antt =====
-- The loop of `check_range_mapped` over the pages of a range.
use old_boruixkernel.Common.{
  ℕ, zero, suc, ◌+◌, ◌-◌, ◌*◌, ◌/◌, ◌≤◌, ◌<◌, ◌≡◌, ◌≢◌, max, ◌↔◌, refl, sym, ap, ap₂, ◌∙◌, Bool,
  true, false, some, ◌==◌, arith, Bool-cases, inl, inr, subst,
}
use old_boruixkernel.Mm.Paging.{page_loop, align_down}

-- With fuel for the pages the loop answers, and it answers true exactly if it accepts all of them.
pages_lem :
    (ok : ℕ → Bool) (fuel k n : ℕ)
    → n < fuel
    → (b : Bool) × (page_loop fuel ok (k * 4096) ((k + n) * 4096) ≡ some b)
      × ((b ≡ true) ↔ ((j : ℕ) → j ≤ n → ok ((k + j) * 4096) ≡ true))
unfolding page_loop
pages_lem ok zero k n h = ground arith
pages_lem ok (suc fuel) k n h =
    let first : (k + 0) * 4096 ≡ k * 4096 = omega arith in
    elim (Bool-cases (ok (k * 4096))) [
      | inr bad ↦ (
        false,
        rw (bad, page_loop) refl,
        (λ e. cc, λ all_ok. sym bad ∙ ap ok (sym first) ∙ all_ok 0 (omega arith)),
      )
      | inl good ↦ elim (Bool-cases (n == 0)) [
        | inl done ↦
            let only : (j : ℕ) → j ≤ n → ok ((k + j) * 4096) ≡ true = λ j le.
              let at : k * 4096 ≡ (k + j) * 4096 = ground arith in
              subst (λ x. ok x ≡ true) at good in
            let ends : (k * 4096 == (k + n) * 4096) ≡ true = ground arith in
            (true, rw (good, ends, page_loop) refl, (λ _. only, λ _. refl))
        | inr more ↦
            let (b, e, both) = pages_lem ok fuel (k + 1) (n - 1) (ground arith) in
            let on : (k * 4096 == (k + n) * 4096) ≡ false = ground arith in
            let step : (k + 1) * 4096 ≡ k * 4096 + 4096 = omega arith in
            let same : (k + 1 + (n - 1)) * 4096 ≡ (k + n) * 4096 = ground arith in
            (
              b,
              rw (good, on, page_loop)
                  (ap₂ (λ x y. page_loop fuel ok x y) (sym step) (sym same) ∙ e),
              (
                λ q j le. elim (Bool-cases (j == 0)) [
                  | inl z ↦
                      let at : k * 4096 ≡ (k + j) * 4096 = ground arith in
                      subst (λ x. ok x ≡ true) at good
                  | inr nz ↦
                      let at : (k + 1 + (j - 1)) * 4096 ≡ (k + j) * 4096 = ground arith in
                      subst (λ x. ok x ≡ true) at (both.0 q (j - 1) (ground arith))
                ],
                λ all_ok. both.1 (λ j le.
                    let at : (k + (j + 1)) * 4096 ≡ (k + 1 + j) * 4096 = omega arith in
                    subst (λ x. ok x ≡ true) at (all_ok (j + 1) (ground arith))),
              ),
            )
      ]
    ]

-- The pages of a range that is not empty are those of its addresses.
pub pages_of_range :
    (ok : ℕ → Bool) (fuel addr size : ℕ)
    → size ≢ 0
    → size / 4096 + 1 < fuel
    → (b : Bool) × (page_loop fuel ok (align_down addr) (align_down (addr + size - 1)) ≡ some b)
      × ((b ≡ true) ↔ ((a : ℕ) → addr ≤ a → a < addr + size → ok (align_down a) ≡ true))
pages_of_range ok fuel addr size some_left enough =
    let k = addr / 4096 in
    let n = (addr + size - 1) / 4096 - k in
    let whole : (k + n) * 4096 ≡ align_down (addr + size - 1) = omega arith in
    let (b, e, both) = pages_lem ok fuel k n (omega arith) in
    (
      b,
      ap (λ x. page_loop fuel ok (align_down addr) x) (sym whole) ∙ e,
      (
        λ q a from to.
            let at : (k + (a / 4096 - k)) * 4096 ≡ align_down a = omega arith in
            subst (λ x. ok x ≡ true) at (both.0 q (a / 4096 - k) (omega arith)),
        λ all_ok. both.1 (λ j le.
            let at : align_down (max addr ((k + j) * 4096)) ≡ (k + j) * 4096 = omega arith in
            subst (λ x. ok x ≡ true) at
              (all_ok (max addr ((k + j) * 4096)) (omega arith) (omega arith))),
      ),
    )
