-- ===== src/Mm/Space/Growth.antt =====
-- The growth of the stack.
use old_boruixkernel.Common.{
  ℕ, ◌≤◌, ◌<◌, ◌≡◌, ◌≢◌, ◌⊎◌, refl, sym, ap, ◌∙◌, subst, Bool, true, false, Option, none, some, ltb,
  leb, ◌||◌, arith, Bool-cases, Option-cases, inl, inr, ltb→ge,
}
use old_boruixkernel.Mm.Vma.Area.{new as new_area}
use old_boruixkernel.Mm.Vma.Insert.{Vma, Outcome, ok, invalid_access as refused, insert_area}
use old_boruixkernel.Mm.Paging.{align_down}
use old_boruixkernel.Mm.Mapping.{invalid_access, Ending, done, failed, panicked}
use old_boruixkernel.Mm.Space.{
  MemorySet, Space, FaultCode, in_table, put_memory, map_zeroed, stack_of, stack_flags,
  after_insert, unmap_and_free, grow_mapped, grow_stack, may_grow, try_grow_stack,
}
use old_boruixkernel.Mm.Space.Faults.{results_same, NewPage, map_zeroed-set, map_zeroed_lem}

module _ (has : ℕ → ℕ → Bool) where
  may_grow_lem :
      (addr bottom top limit : ℕ)
      → may_grow addr (bottom, top, limit) ≡ true
      → (limit ≤ align_down addr) × (addr < bottom) × (addr < top)
  may_grow_lem addr bottom top limit h =
      let a : (leb top addr || (ltb addr limit || leb bottom addr)) ≡ false = ground (arith, h) in
      let b : ltb (align_down addr) limit ≡ false = ground (arith, h) in
      (ltb→ge (align_down addr) limit b, ground (arith, a), ground (arith, a))

  -- A growth of the stack: the bounds before, and the bottom after.
  abbrev pub Grew : ℕ → MemorySet → MemorySet → Type 0
  Grew addr set set' =
      (bottom : ℕ) × (top : ℕ) × (limit : ℕ) × (stack_of set ≡ some (bottom, top, limit))
      × (limit ≤ align_down addr)
      × (addr < bottom)
      × (addr < top)
      × (set'.stack_bottom ≡ some (align_down addr))
      × (set'.stack_top ≡ set.stack_top)
      × (set'.stack_limit ≡ set.stack_limit)

  -- The bounds of the stack after an attempt to make `page` its bottom.
  record Bounds (page : ℕ) (s : Space) (r : Ending Bool) (s' : Space) : Type 0 where
    same_top : s'.set.stack_top ≡ s.set.stack_top
    same_limit : s'.set.stack_limit ≡ s.set.stack_limit
    success : r ≡ done true → s'.set.stack_bottom ≡ some page
    failure : r ≢ done true → s'.set.stack_bottom ≡ s.set.stack_bottom

  no_success :
      (x : Ending (Unit {0}))
      → (elim x as (λ z. Ending Bool) [ panicked ↦ panicked | _ ↦ failed invalid_access ])
        ≢ done true
  no_success (done u) e = cc
  no_success (failed y) e = cc
  no_success panicked e = cc

  after_insert-Bounds :
      (page : ℕ) (s : Space) (o : Option (Vma × Outcome)) (r : Ending Bool) (s' : Space)
      → after_insert has page s o ≡ some (s', r)
      → Bounds page s r s' × (r ≡ done true → (s'.bytes ≡ s.bytes) × (s'.memory ≡ s.memory))
  after_insert-Bounds page s none r s' e = absurd (cc)
  after_insert-Bounds page s (some (vma, ok)) r s' e =
      let v = record s { set = record (s.set) { vma = vma; stack_bottom = some page } } in
      let (same, result) = results_same v s' (done true) r e in
      (
        record {
          same_top = ap (λ z. z.set.stack_top) (sym same);
          same_limit = ap (λ z. z.set.stack_limit) (sym same);
          success = λ q. ap (λ z. z.set.stack_bottom) (sym same);
          failure = λ q. absurd (q (sym result));
        },
        (λ q. (ap (λ z. z.bytes) (sym same), ap (λ z. z.memory) (sym same))),
      )
  after_insert-Bounds page s (some (vma, refused)) r s' e =
      let (m, x) = unmap_and_free has s.set.p4_phys page s.memory in
      let v = put_memory m (record s { set = record (s.set) { vma = vma } }) in
      let last : Ending (Unit {0}) → Ending Bool =
        λ y. elim y [ panicked ↦ panicked | _ ↦ failed invalid_access ] in
      let (same, result) = results_same v s' (last x) r e in
      (
        record {
          same_top = ap (λ z. z.set.stack_top) (sym same);
          same_limit = ap (λ z. z.set.stack_limit) (sym same);
          success = λ q. absurd (no_success x (result ∙ q));
          failure = λ q. ap (λ z. z.set.stack_bottom) (sym same);
        },
        (λ q. absurd (no_success x (result ∙ q))),
      )

  grow_mapped-Bounds :
      (fuel page bottom : ℕ) (s : Space) (o : Ending (Unit {0})) (r : Ending Bool) (s' : Space)
      → grow_mapped fuel has page bottom (s, o) ≡ some (s', r)
      → Bounds page s r s'
        × (r ≡ done true → (o ≡ done tt) × (s'.bytes ≡ s.bytes) × (s'.memory ≡ s.memory))
  grow_mapped-Bounds fuel page bottom s (done u) r s' e =
      let (b, kept) =
        after_insert-Bounds page s (insert_area fuel s.set.vma (new_area page bottom stack_flags)) r
          s' e in
      (b, (λ q. let (bytes, memory) = kept q in (refl, bytes, memory)))
  grow_mapped-Bounds fuel page bottom s (failed x) r s' e =
      let (same, result) = results_same s s' (failed x) r e in
      let never : r ≢ done true = λ q. let z : failed x ≡ done true = result ∙ q in cc in
      (
        record {
          same_top = ap (λ z. z.set.stack_top) (sym same);
          same_limit = ap (λ z. z.set.stack_limit) (sym same);
          success = λ q. absurd (never q);
          failure = λ q. ap (λ z. z.set.stack_bottom) (sym same);
        },
        (λ q. absurd (never q)),
      )
  grow_mapped-Bounds fuel page bottom s panicked r s' e =
      let (same, result) = results_same s s' panicked r e in
      let never : r ≢ done true = λ q. let z : panicked ≡ done true = result ∙ q in cc in
      (
        record {
          same_top = ap (λ z. z.set.stack_top) (sym same);
          same_limit = ap (λ z. z.set.stack_limit) (sym same);
          success = λ q. absurd (never q);
          failure = λ q. ap (λ z. z.set.stack_bottom) (sym same);
        },
        (λ q. absurd (never q)),
      )

  same_NewPage :
      (page flags : ℕ) (s z s' : Space)
      → s'.bytes ≡ z.bytes
      → s'.memory ≡ z.memory
      → NewPage has page flags s z
      → NewPage has page flags s s'
  same_NewPage page flags s z s' bytes memory (phys, free, e, (mapped, zero_, others)) =
      let popped = record (s.memory) { free = free } in
      let tables = λ (f i : ℕ) (out : in_table popped s'.memory f i ≡ false).
        subst (λ x. in_table popped x f i ≡ false) memory out in
      (
        phys,
        free,
        e,
        (
          mapped ∙ ap (λ x. (x, done tt)) (sym memory),
          (λ i lt out. ap (λ x. x phys i) bytes ∙ zero_ i lt (tables phys i out)),
          (λ f i ne out. ap (λ x. x f i) bytes ∙ others f i ne (tables f i out)),
        ),
      )

  -- A growth that succeeds has mapped a frame that was free.
  grow_stack-Bounds :
      (fuel page bottom : ℕ) (s : Space) (r : Ending Bool) (s' : Space)
      → grow_stack fuel has page bottom s ≡ some (s', r)
      → Bounds page s r s' × (r ≡ done true → NewPage has page stack_flags s s')
  unfolding grow_stack
  grow_stack-Bounds fuel page bottom s r s' e =
      let z = map_zeroed has page stack_flags s in
      let (b, ended) = grow_mapped-Bounds fuel page bottom z.0 z.1 r s' e in
      let same = map_zeroed-set has page stack_flags s in
      (
        record {
          same_top = b.same_top ∙ ap (λ x. x.stack_top) same;
          same_limit = b.same_limit ∙ ap (λ x. x.stack_limit) same;
          success = λ q. b.success q;
          failure = λ q. b.failure q ∙ ap (λ x. x.stack_bottom) same;
        },
        (λ q.
            let (mapped, bytes, memory) = ended q in
            let whole : z ≡ (z.0, done tt) = ap (λ x. (z.0, x)) mapped in
            let page_lem : NewPage has page stack_flags s z.0 =
              map_zeroed_lem has page stack_flags s z.0 whole in
            same_NewPage page stack_flags s z.0 s' bytes memory page_lem),
      )

  -- What an attempt to grow the stack has done.
  pub record Tried (code : FaultCode) (addr : ℕ) (s : Space) (r : Ending Bool) (s' : Space)
      : Type 0 where
    pub bounds :
        (r ≡ done true)
          × (code.user_mode ≡ true)
          × Grew addr s.set s'.set
          × NewPage has (align_down addr) stack_flags s s'
        ⊎ (r ≢ done true)
          × (s'.set.stack_bottom ≡ s.set.stack_bottom)
          × (s'.set.stack_top ≡ s.set.stack_top)
          × (s'.set.stack_limit ≡ s.set.stack_limit)

  Ending-cases : (r : Ending Bool) → (r ≡ done true) ⊎ (r ≢ done true)
  Ending-cases (done true) = inl refl
  Ending-cases (done false) = inr (λ e. cc)
  Ending-cases (failed e) = inr (λ e. cc)
  Ending-cases panicked = inr (λ e. cc)

  stays :
      (code : FaultCode) (addr : ℕ) (s : Space) (r : Ending Bool) (s' : Space)
      → (let x : Option (Space × Ending Bool) = some (s, done false) in x ≡ some (s', r))
      → Tried code addr s r s'
  stays code addr s r s' e =
      let (same, result) = results_same s s' (done false) r e in
      record {
        bounds = inr (
          (λ q. let z : done false ≡ done true = result ∙ q in cc),
          ap (λ z. z.set.stack_bottom) (sym same),
          ap (λ z. z.set.stack_top) (sym same),
          ap (λ z. z.set.stack_limit) (sym same),
        );
      }

  pub try_grow_stack-Tried :
      (fuel : ℕ) (code : FaultCode) (addr : ℕ) (s : Space) (r : Ending Bool) (s' : Space)
      → try_grow_stack fuel has code addr s ≡ some (s', r)
      → Tried code addr s r s'
  unfolding try_grow_stack
  try_grow_stack-Tried fuel code addr s r s' e = elim (Bool-cases code.user_mode) [
    | inr kernel ↦
        let k : try_grow_stack fuel has code addr s ≡ some (s, done false) =
          rw (try_grow_stack, kernel) refl in
        stays code addr s r s' (sym k ∙ e)
    | inl user ↦ elim (Option-cases (stack_of s.set)) [
      | inl unknown ↦
          let k : try_grow_stack fuel has code addr s ≡ some (s, done false) =
            rw (try_grow_stack, user, unknown) refl in
          stays code addr s r s' (sym k ∙ e)
      | inr ((bottom, top, limit), known) ↦ elim (Bool-cases (may_grow addr (bottom, top, limit))) [
        | inr outside ↦
            let k : try_grow_stack fuel has code addr s ≡ some (s, done false) =
              rw (try_grow_stack, user, known, outside) refl in
            stays code addr s r s' (sym k ∙ e)
        | inl within ↦
            let k : try_grow_stack fuel has code addr s
                ≡ grow_stack fuel has (align_down addr) bottom s =
              rw (try_grow_stack, user, known, within) refl in
            let (b, zeroed) = grow_stack-Bounds fuel (align_down addr) bottom s r s' (sym k ∙ e) in
            let (low, below, under) = may_grow_lem addr bottom top limit within in
            elim (Ending-cases r) [
              | inl yes_ ↦ record {
                bounds = inl (
                  yes_,
                  user,
                  (
                    bottom,
                    top,
                    limit,
                    known,
                    low,
                    below,
                    under,
                    b.success yes_,
                    b.same_top,
                    b.same_limit,
                  ),
                  zeroed yes_,
                );
              }
              | inr no_ ↦ record { bounds = inr (no_, b.failure no_, b.same_top, b.same_limit) }
            ]
      ]
    ]
  ]
