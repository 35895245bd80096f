-- ===== src/Task/Fd/Alloc.antt =====
-- The descriptor that `alloc_fd` takes.
use old_boruixkernel.Common.{
  get_or-set, ℕ, zero, suc, ◌+◌, ◌≤◌, ◌<◌, ◌≡◌, refl, sym, ap, ◌∙◌, Bool, false, Option, none, some,
  arith, ltb, ◌==◌, if◌then◌else◌, Bool-cases, Option-cases, inl, inr, length, get_or, length-set,
  get_or_beyond, ltb→lt, ltb→ge, ge→ltb, ==_iff,
}
use old_boruixkernel.Task.Fd.{
  FdTable, FdResult, ok, err, no_space, ensure_len, put, get_fd, alloc_loop, alloc_fd, flag_at,
  max_fd,
}
use old_boruixkernel.Task.Fd.Slots.{IsValid, Grown, ensure_len-Grown}

-- A descriptor in use.
abbrev pub IsOpen : FdTable → ℕ → Type 0
IsOpen t i = (h : ℕ) × (get_fd t i ≡ some h)

-- How an allocation from `low` on ends: with the lowest free descriptor, or with none free.
pub data Allocated (low handle : ℕ) (flag : Bool) (t : FdTable) (r : Option (FdTable × FdResult ℕ))
    : Type 0 where
  found :
      (t' : FdTable) (i : ℕ)
      → r ≡ some (t', ok i)
      → low ≤ i
      → i ≤ max_fd
      → get_fd t i ≡ none
      → ((j : ℕ) → low ≤ j → j < i → IsOpen t j)
      → IsValid t'
      → ((j : ℕ) → get_fd t' j ≡ (if j == i then some handle else get_fd t j))
      → ((j : ℕ) → flag_at t' j ≡ (if j == i then flag else flag_at t j))
      → Allocated low handle flag t r
  full :
      (t' : FdTable)
      → r ≡ some (t', err no_space)
      → ((j : ℕ) → low ≤ j → j ≤ max_fd → IsOpen t j)
      → IsValid t'
      → ((j : ℕ) → get_fd t' j ≡ get_fd t j)
      → ((j : ℕ) → flag_at t' j ≡ flag_at t j)
      → Allocated low handle flag t r

module _ (handle : ℕ) (flag : Bool) (t : FdTable) (idx : ℕ) (h : ℕ) (w : FdTable)
    (g : Grown (idx + 1) t w) where
  -- The slots before a later one are taken if this one and those between are.
  taken_from :
      (i : ℕ)
      → get_or t.entries idx none ≡ some h
      → ((j : ℕ) → idx + 1 ≤ j → j < i → IsOpen w j)
      → (j : ℕ) → idx ≤ j
      → j < i
      → IsOpen t j
  unfolding get_fd
  taken_from i e all j l k = elim (Bool-cases (j == idx)) [
    | inl q ↦ (h, rw ((==_iff j idx).0 q) e)
    | inr n ↦ let (h', e') = all j (ground arith) k in (h', sym (g.entry j) ∙ e')
  ]

  onward :
      (r : Option (FdTable × FdResult ℕ))
      → get_or t.entries idx none ≡ some h
      → Allocated (idx + 1) handle flag w r
      → Allocated idx handle flag t r
  unfolding get_fd
  onward r e (found t' i q l m f all v gets flags) =
      found t' i q (omega arith) m (sym (g.entry i) ∙ f) (taken_from i e all) v
        (λ j. gets j ∙ ap (λ x. if j == i then some handle else x) (g.entry j))
        (λ j. flags j ∙ ap (λ x. if j == i then flag else x) (g.flag j))
  onward r e (full t' q all v gets flags) =
      full t' q
        (λ j l k. taken_from (suc max_fd) e (λ j' l' k'. all j' l' (omega arith)) j l (omega arith))
        v (λ j. gets j ∙ g.entry j) (λ j. flags j ∙ g.flag j)

in_range : (t : FdTable) (i h : ℕ) → get_or t.entries i none ≡ some h → i < length t.entries
in_range t i h e = elim (Bool-cases (ltb i (length t.entries))) [
  | inl k ↦ ltb→lt i (length t.entries) k
  | inr n ↦ let gone = get_or_beyond t.entries i none (ltb→ge i (length t.entries) n) in cc
]

alloc_loop-Allocated :
    (fuel idx handle : ℕ) (flag : Bool) (t : FdTable)
    → IsValid t
    → idx ≤ max_fd
    → 0 < fuel
    → length t.entries < fuel + idx
    → Allocated idx handle flag t (alloc_loop fuel idx handle flag t)
unfolding alloc_loop get_fd
alloc_loop-Allocated zero idx handle flag t v m p f = absurd (omega arith)
alloc_loop-Allocated (suc fuel) idx handle flag t v m p f =
    let w = ensure_len (idx + 1) t in
    let g = ensure_len-Grown (idx + 1) t v in
    elim (Option-cases (get_or w.entries idx none)) [
      | inl free ↦
          rw (free, alloc_loop)
            (found (put idx (some handle) flag w) idx refl (omega arith) m
              (sym (g.entry idx) ∙ free) (λ j l k. absurd (omega arith))
              (length-set w.cloexec idx flag
                ∙ g.valid
                ∙ sym (length-set w.entries idx (some handle)))
              (λ j.
                get_or-set w.entries idx j (some handle) none (omega (arith, g.room))
                ∙ ap (λ x. if j == idx then some handle else x) (g.entry j))
              (λ j.
                get_or-set w.cloexec idx j flag false (omega (arith, g.room, g.valid))
                ∙ ap (λ x. if j == idx then flag else x) (g.flag j)))
      | inr (h, taken) ↦
          let here = sym (g.entry idx) ∙ taken in
          let inside : idx < length t.entries = in_range t idx h here in
          let same = g.kept (omega arith) in
          elim (Bool-cases (ltb max_fd (idx + 1))) [
            | inl last ↦
                let k = ltb→lt max_fd (idx + 1) last in
                rw (taken, last, alloc_loop)
                  (full w refl
                    (λ j l k'.
                      taken_from handle flag t idx h w g (suc max_fd) here
                        (λ j' l' k''. absurd (omega arith)) j l (omega arith))
                    g.valid g.entry g.flag)
            | inr more ↦
                let k = ltb→ge max_fd (idx + 1) more in
                rw (taken, more, alloc_loop)
                  (onward handle flag t idx h w g _ here (
                    alloc_loop-Allocated fuel (idx + 1) handle flag w g.valid k (omega arith)
                      (omega arith)))
          ]
    ]

module _ (fuel min_fd handle : ℕ) (flag : Bool) (t : FdTable) (v : IsValid t) (p : 0 < fuel)
    (f : length t.entries < fuel + min_fd) where
  -- With fuel for the descriptors in use, `alloc_fd` ends. Up to the limit it gives the handle the
  -- lowest free descriptor from `min_fd` on and changes no other; where none is free it fails and
  -- changes none.
  pub alloc_fd-Allocated :
      min_fd ≤ max_fd → Allocated min_fd handle flag t (alloc_fd fuel min_fd handle flag t)
  unfolding alloc_fd
  alloc_fd-Allocated m =
      rw (ge→ltb max_fd min_fd m) (alloc_loop-Allocated fuel min_fd handle flag t v m p f)
