-- ===== src/Mm/Space/Faults.antt =====
-- What the page fault handler lets through.
use old_boruixkernel.Common.{
  ℕ, ◌<◌, ◌≡◌, ◌≢◌, ◌⊎◌, refl, sym, ap, ap₂, ◌∙◌, subst, Bool, true, false, Option, none, some,
  List, [], ◌∷◌, ltb, ◌==◌, ==_refl, arith, inl, inr,
}
use old_boruixkernel.Mm.Paging.{writable, user_accessible}
use old_boruixkernel.Mm.Mapping.{frame_allocation_failed, done, failed, map_page}
use old_boruixkernel.Mm.Space.{
  Space, FaultCode, no_execute, zero_frame, in_table, put_memory, with_memory, map_zeroed, allows,
}

List-cases : (xs : List ℕ) → (xs ≡ []) ⊎ ((x : ℕ) × (rest : List ℕ) × (xs ≡ x ∷ rest))
List-cases [] = inl refl
List-cases (x ∷ xs) = inr (x, xs, refl)

-- The parts of a result.
pub results_same :
    {A B : Type 0} (a a' : A) (b b' : B)
    → (let x : Option (A × B) = some (a, b) in x ≡ some (a', b'))
    → (a ≡ a') × (b ≡ b')
results_same a a' b b' e =
    (ap (λ o. elim o [ none ↦ a | some r ↦ r.0 ]) e, ap (λ o. elim o [ none ↦ b | some r ↦ r.1 ]) e)

-- `map_page` has mapped a frame that was free at the page. Of the bytes outside the tables that this has
-- made or written those of the frame are zero now, and those of the others are kept.
abbrev pub NewPage : (ℕ → ℕ → Bool) → ℕ → ℕ → Space → Space → Type 0
NewPage has page flags s s' =
    (phys : ℕ) × (free : List ℕ) × (s.memory.free ≡ phys ∷ free)
    × (let popped = record (s.memory) { free = free } in
        (map_page has s.set.p4_phys page phys flags popped ≡ (s'.memory, done tt))
        × ((i : ℕ) → i < 4096 → in_table popped s'.memory phys i ≡ false → s'.bytes phys i ≡ 0)
        × ((f i : ℕ)
            → f ≢ phys
            → in_table popped s'.memory f i ≡ false
            → s'.bytes f i ≡ s.bytes f i))

module _ (has : ℕ → ℕ → Bool) where
  pub map_zeroed-set : (page flags : ℕ) (s : Space) → (map_zeroed has page flags s).0.set ≡ s.set
  unfolding map_zeroed
  map_zeroed-set page flags s = elim (List-cases s.memory.free) [
    | inl out ↦ rw (map_zeroed, out) refl
    | inr (phys, free, e) ↦ rw (map_zeroed, e) refl
  ]

  pub map_zeroed_lem :
      (page flags : ℕ) (s s' : Space)
      → map_zeroed has page flags s ≡ (s', done tt)
      → NewPage has page flags s s'
  unfolding map_zeroed
  map_zeroed_lem page flags s s' h = elim (List-cases s.memory.free) [
    | inl out ↦ absurd (
        let k : (map_zeroed has page flags s).1 ≡ failed frame_allocation_failed =
          rw (map_zeroed, out) refl in
        let c : done tt ≡ failed frame_allocation_failed = ap (λ r. r.1) (sym h) ∙ k in cc)
    | inr (phys, free, e) ↦
        let s1 = zero_frame phys (record s { memory = record (s.memory) { free = free } }) in
        let k : with_memory s1 (map_page has s1.set.p4_phys page phys flags s1.memory)
            ≡ map_zeroed has page flags s =
          rw (map_zeroed, e) refl in
        let g = map_page has s1.set.p4_phys page phys flags s1.memory in
        let memory : g.0 ≡ s'.memory = ap (λ r. r.0.memory) (k ∙ h) in
        let ending : g.1 ≡ done tt = ap (λ r. r.1) (k ∙ h) in
        let bytes : (put_memory g.0 s1).bytes ≡ s'.bytes = ap (λ r. r.0.bytes) (k ∙ h) in
        let old = λ (f i : ℕ) (out : in_table s1.memory s'.memory f i ≡ false).
          let o : in_table s1.memory g.0 f i ≡ false =
            subst (λ z. in_table s1.memory z f i ≡ false) (sym memory) out in
          let q : (put_memory g.0 s1).bytes f i ≡ s1.bytes f i = rw o refl in
          ap (λ z. z f i) (sym bytes) ∙ q in
        (
          phys,
          free,
          e,
          (
            ap₂ (λ x y. (x, y)) memory ending,
            (λ i lt out.
                let b : ltb i 4096 ≡ true = ground arith in
                old phys i out ∙ rw (==_refl phys, b) refl),
            (λ f i ne out. let b : (f == phys) ≡ false = ground arith in old f i out ∙ rw b refl),
          ),
        )
  ]

  -- The access and the flags of the area agree.
  abbrev pub Permitted : FaultCode → ℕ → Type 0
  Permitted code flags =
      (code.caused_by_write ≡ true → has flags writable ≡ true)
      × (code.user_mode ≡ true → has flags user_accessible ≡ true)
      × (code.instruction_fetch ≡ true → has flags no_execute ≡ false)

  pub allows-Permitted :
      (code : FaultCode) (flags : ℕ) → allows has code flags ≡ true → Permitted code flags
  allows-Permitted code flags h =
      ((λ e. ground (arith, h, e)), (λ e. ground (arith, h, e)), (λ e. ground (arith, h, e)))
