-- ===== src/Task/Fd/Dup.antt =====
-- `dup2`, which shares a handle between two descriptors.
use old_boruixkernel.Common.{
  get_or-set, ℕ, ◌+◌, ◌<◌, ◌≡◌, ◌≢◌, refl, sym, ◌∙◌, Bool, false, none, some, arith, ltb, ◌==◌,
  if◌then◌else◌, length, length-set, Bool-cases, Option-cases, inl, inr, gt→leb, word_max, lt→ltb,
}
use old_boruixkernel.Task.Fd.{
  FdTable, ok, get_fd, close_fd, flag_at, Refs, dup2, retain, ensure_len, put,
}
use old_boruixkernel.Task.Fd.Slots.{IsValid, Grown, ensure_len-Grown, close_fd_lem}

module _ (w t : FdTable) (newfd h : ℕ) (flag : Bool) (v : IsValid w)
    (room : newfd < length w.entries) where
  put-IsValid : IsValid (put newfd (some h) flag w)
  put-IsValid = length-set w.cloexec newfd flag ∙ v ∙ sym (length-set w.entries newfd (some h))

  put-entry :
      (j : ℕ) → get_fd (put newfd (some h) flag w) j ≡ (if j == newfd then some h else get_fd w j)
  unfolding get_fd
  put-entry j = get_or-set w.entries newfd j (some h) none room

  put-flag :
      (j : ℕ) → flag_at (put newfd (some h) flag w) j ≡ (if j == newfd then flag else flag_at w j)
  put-flag j = get_or-set w.cloexec newfd j flag false (omega arith)

Grown-entry : (n : ℕ) (t w : FdTable) → Grown n t w → (j : ℕ) → get_fd w j ≡ get_fd t j
unfolding get_fd
Grown-entry n t w g j = g.entry j

closed_room :
    (i : ℕ) (refs : Refs) (t : FdTable) → length (close_fd i refs t).1.entries ≡ length t.entries
unfolding close_fd
closed_room i refs t = elim (Bool-cases (ltb i (length t.entries))) [
  | inl k ↦ rw k (length-set t.entries i none)
  | inr k ↦ rw k refl
]

module _ (oldfd newfd h : ℕ) (flag : Bool) (refs : Refs) (t : FdTable) (v : IsValid t)
    (e : get_fd t oldfd ≡ some h) (apart : oldfd ≢ newfd) (small : newfd < word_max) where
  -- `dup2` of an open descriptor makes the new one, open before or not, another name of its handle,
  -- with the flag that it is given, and leaves all others as they were.
  pub dup2_lem :
      (refs' : Refs) × (t' : FdTable) × (dup2 oldfd newfd flag refs t ≡ some (refs', t', ok newfd))
      × IsValid t'
      × ((j : ℕ) → get_fd t' j ≡ (if j == newfd then some h else get_fd t j))
      × ((j : ℕ) → flag_at t' j ≡ (if j == newfd then flag else flag_at t j))
  unfolding dup2
  dup2_lem =
      let w = ensure_len (newfd + 1) t in
      let g = ensure_len-Grown (newfd + 1) t v in
      let other : (oldfd == newfd) ≡ false = ground arith in
      let fits = gt→leb word_max newfd small in
      let wider = Grown-entry (newfd + 1) t w g in
      elim (Option-cases (get_fd w newfd)) [
        | inl free ↦ (
          retain h refs,
          put newfd (some h) flag w,
          rw (e, dup2, fits, other, free) refl,
          put-IsValid w t newfd h flag g.valid (omega (arith, g.room)),
          λ j.
              ground (arith, put-entry w t newfd h flag g.valid (omega (arith, g.room)) j, wider j),
          λ j.
              ground (arith, put-flag w t newfd h flag g.valid (omega (arith, g.room)) j, g.flag j),
        )
        | inr (k, taken) ↦
            let c = close_fd newfd refs w in
            let kept = closed_room newfd refs w in
            let room : newfd < length c.1.entries = omega (arith, g.room) in
            let closed = (close_fd_lem newfd refs w newfd g.valid) in
            let done : c.2 ≡ ok tt =
              closed.4 ∙ rw (lt→ltb newfd (length w.entries) (omega (arith, g.room))) refl in
            (
              retain h c.0,
              put newfd (some h) flag c.1,
              rw (e, dup2, fits, other, taken, done) refl,
              put-IsValid c.1 t newfd h flag closed.0 room,
              λ j. ground (
                arith,
                put-entry c.1 t newfd h flag closed.0 room j,
                (close_fd_lem newfd refs w j g.valid).1,
                wider j,
              ),
              λ j. ground (
                arith,
                put-flag c.1 t newfd h flag closed.0 room j,
                (close_fd_lem newfd refs w j g.valid).2,
                g.flag j,
              ),
            )
      ]
