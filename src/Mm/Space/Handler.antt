-- ===== src/Mm/Space/Handler.antt =====
-- `handle_page_fault` as a whole.
use old_boruixkernel.Common.{
  ℕ, ◌≡◌, ◌≢◌, ◌⊎◌, refl, sym, ap, ◌∙◌, subst, Bool, true, false, Option, none, some, Bool-cases,
  Option-cases, inl, inr, bit_or,
}
use old_boruixkernel.Mm.Vma.Area.{MemoryArea}
use old_boruixkernel.Mm.Vma.Lookup.{find_containing}
use old_boruixkernel.Mm.Paging.{align_down, present}
use old_boruixkernel.Mm.Mapping.{invalid_access, Ending, done, failed, panicked}
use old_boruixkernel.Mm.Space.{
  MemorySet, Space, FaultCode, stack_flags, map_zeroed, try_grow_stack, allows, fault_outside,
  handle_page_fault,
}
use old_boruixkernel.Mm.Space.Faults.{
  NewPage, results_same, map_zeroed-set, map_zeroed_lem, Permitted, allows-Permitted,
}
use old_boruixkernel.Mm.Space.Growth.{Grew, Tried, try_grow_stack-Tried}

module _ (has : ℕ → ℕ → Bool) where
  -- The address lies in an area that permits the access, or the stack has grown down to its page.
  abbrev pub Reason : FaultCode → ℕ → Space → Space → Type 0
  Reason code addr s s' =
      ((area : MemoryArea) × (find_containing s.set.vma.root addr ≡ some area)
        × Permitted has code area.flags
        × (s'.set ≡ s.set)
        × NewPage has (align_down addr) (bit_or area.flags present) s s')
      ⊎ (find_containing s.set.vma.root addr ≡ none)
        × (code.user_mode ≡ true)
        × Grew has addr s.set s'.set
        × NewPage has (align_down addr) stack_flags s s'

  abbrev pub SameStack : MemorySet → MemorySet → Type 0
  SameStack set set' =
      (set'.stack_bottom ≡ set.stack_bottom)
      × (set'.stack_top ≡ set.stack_top)
      × (set'.stack_limit ≡ set.stack_limit)

  -- The two ways in which the handler ends.
  abbrev pub Handled : FaultCode → ℕ → Space → Ending (Unit {0}) → Space → Type 0
  Handled code addr s r s' =
      (r ≡ done tt) × (code.protection_violation ≡ false) × Reason code addr s s'
      ⊎ (r ≢ done tt) × SameStack s.set s'.set

  Ending-cases : (r : Ending (Unit {0})) → (r ≡ done tt) ⊎ (r ≢ done tt)
  Ending-cases (done u) = inl refl
  Ending-cases (failed e) = inr (λ e. cc)
  Ending-cases panicked = inr (λ e. cc)

  refused :
      (code : FaultCode) (addr : ℕ) (s : Space) (r : Ending (Unit {0})) (s' : Space)
      → (let x : Option (Space × Ending (Unit {0})) = some (s, failed invalid_access) in
          x ≡ some (s', r))
      → Handled code addr s r s'
  refused code addr s r s' e =
      let (same, result) = results_same s s' (failed invalid_access) r e in
      inr (
        (λ q. let z : failed invalid_access ≡ done tt = result ∙ q in cc),
        (
          ap (λ z. z.set.stack_bottom) (sym same),
          ap (λ z. z.set.stack_top) (sym same),
          ap (λ z. z.set.stack_limit) (sym same),
        ),
      )

  -- The stack has not grown.
  kept :
      (code : FaultCode) (addr : ℕ) (s : Space) (tried : Ending Bool) (s1 : Space)
      (r : Ending (Unit {0})) (s' : Space)
      → Tried has code addr s tried s1
      → tried ≢ done true
      → s1 ≡ s'
      → r ≢ done tt
      → Handled code addr s r s'
  kept code addr s tried s1 r s' t not_grown same no_success = elim t.bounds [
    | inl (grown, user, grew, zeroed) ↦ absurd (not_grown grown)
    | inr (no_, bottom, top, limit) ↦
        subst (λ z. Handled code addr s r z) same (inr (no_success, (bottom, top, limit)))
  ]

  -- The address lies in no area.
  outside :
      (fuel : ℕ) (code : FaultCode) (addr : ℕ) (s : Space) (o : Option (Space × Ending Bool))
      (r : Ending (Unit {0})) (s' : Space)
      → code.protection_violation ≡ false
      → find_containing s.set.vma.root addr ≡ none
      → try_grow_stack fuel has code addr s ≡ o
      → fault_outside o ≡ some (s', r)
      → Handled code addr s r s'
  outside fuel code addr s none r s' fine away q e = absurd (cc)
  outside fuel code addr s (some (s1, done true)) r s' fine away q e =
      let (same, result) = results_same s1 s' (done tt) r e in
      let t = try_grow_stack-Tried has fuel code addr s (done true) s1 q in
      elim t.bounds [
        | inr (no_, bottom, top, limit) ↦ absurd (no_ refl)
        | inl (yes_, user, grew, zeroed) ↦
            subst (λ z. Handled code addr s r z) same
              (inl (sym result, fine, inr (away, user, grew, zeroed)))
      ]
  outside fuel code addr s (some (s1, done false)) r s' fine away q e =
      let (same, result) = results_same s1 s' (failed invalid_access) r e in
      kept code addr s (done false) s1 r s'
        (try_grow_stack-Tried has fuel code addr s (done false) s1 q) (λ x. cc) same
        (λ x. let z : failed invalid_access ≡ done tt = result ∙ x in cc)
  outside fuel code addr s (some (s1, failed y)) r s' fine away q e =
      let (same, result) = results_same s1 s' (failed y) r e in
      kept code addr s (failed y) s1 r s'
        (try_grow_stack-Tried has fuel code addr s (failed y) s1 q) (λ x. cc) same
        (λ x. let z : failed y ≡ done tt = result ∙ x in cc)
  outside fuel code addr s (some (s1, panicked)) r s' fine away q e =
      let (same, result) = results_same s1 s' panicked r e in
      kept code addr s panicked s1 r s' (try_grow_stack-Tried has fuel code addr s panicked s1 q)
        (λ x. cc) same (λ x. let z : panicked ≡ done tt = result ∙ x in cc)

  -- The address lies in an area that allows the access.
  allowed :
      (code : FaultCode) (addr : ℕ) (s : Space) (area : MemoryArea) (r : Ending (Unit {0}))
      (s' : Space)
      → code.protection_violation ≡ false
      → find_containing s.set.vma.root addr ≡ some area
      → allows has code area.flags ≡ true
      → some (map_zeroed has (align_down addr) (bit_or area.flags present) s) ≡ some (s', r)
      → Handled code addr s r s'
  allowed code addr s area r s' fine found permits e =
      let page = align_down addr in
      let flags = bit_or area.flags present in
      let z = map_zeroed has page flags s in
      let (same, result) = results_same z.0 s' z.1 r e in
      let set : s'.set ≡ s.set = ap (λ x. x.set) (sym same) ∙ map_zeroed-set has page flags s in
      elim (Ending-cases r) [
        | inl yes_ ↦
            let whole : z ≡ (s', done tt) =
              ap (λ x. (x, z.1)) same ∙ ap (λ x. (s', x)) (result ∙ yes_) in
            inl (
              yes_,
              fine,
              inl (
                area,
                found,
                allows-Permitted has code area.flags permits,
                set,
                map_zeroed_lem has page flags s s' whole,
              ),
            )
        | inr no_ ↦ inr (
          no_,
          (ap (λ x. x.stack_bottom) set, ap (λ x. x.stack_top) set, ap (λ x. x.stack_limit) set),
        )
      ]

  -- Where `handle_page_fault` succeeds, the fault was no violation of a protection, the address lies in an
  -- area whose flags permit the access, or a user program has reached below its stack and no further than
  -- the limit, and then the page of the address is the new bottom. `map_page` has mapped a frame that was free
  -- at that page, with the flags of the area or those of a stack. Outside the tables that it has made or
  -- written the frame is zero, and the bytes of the others are kept. Without success the bounds of the stack stay as they were.
  pub handle_page_fault-Handled :
      (fuel : ℕ) (code : FaultCode) (addr : ℕ) (s : Space) (r : Ending (Unit {0})) (s' : Space)
      → handle_page_fault fuel has code addr s ≡ some (s', r)
      → Handled code addr s r s'
  unfolding handle_page_fault
  handle_page_fault-Handled fuel code addr s r s' e = elim (Bool-cases code.protection_violation) [
    | inl violation ↦
        let k : handle_page_fault fuel has code addr s ≡ some (s, failed invalid_access) =
          rw (handle_page_fault, violation) refl in
        refused code addr s r s' (sym k ∙ e)
    | inr fine ↦ elim (Option-cases (find_containing s.set.vma.root addr)) [
      | inl away ↦
          let k : handle_page_fault fuel has code addr s
              ≡ fault_outside (try_grow_stack fuel has code addr s) =
            rw (handle_page_fault, fine, away) refl in
          outside fuel code addr s (try_grow_stack fuel has code addr s) r s' fine away refl
            (sym k ∙ e)
      | inr (area, found) ↦ elim (Bool-cases (allows has code area.flags)) [
        | inr denied ↦
            let k : handle_page_fault fuel has code addr s ≡ some (s, failed invalid_access) =
              rw (handle_page_fault, fine, found, denied) refl in
            refused code addr s r s' (sym k ∙ e)
        | inl permits ↦
            let k : handle_page_fault fuel has code addr s
                ≡ some (map_zeroed has (align_down addr) (bit_or area.flags present) s) =
              rw (handle_page_fault, fine, found, permits) refl in
            allowed code addr s area r s' fine found permits (sym k ∙ e)
      ]
    ]
  ]
