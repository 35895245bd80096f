-- ===== src/Task/Fd/Slots.antt =====
-- The slots of a table of file descriptors: what growing, writing and closing do to each of them.
use old_boruixkernel.Common.{
  ℕ, ◌+◌, ◌-◌, ◌≤◌, ◌≡◌, refl, sym, ap, ◌∙◌, false, none, List, ◌++◌, arith, ltb, ◌==◌,
  if◌then◌else◌, Bool-cases, inl, inr, length, get_or, replicate, length-append, length-replicate,
  length-set, get_or-set, get_or_beyond, get_or-append-replicate, take_all, ltb→lt, ltb→ge,
}
use old_boruixkernel.Task.Fd.{
  FdTable, ok, err, not_found, ensure_len, get_fd, close_fd, flag_at, resize, Refs, release_entry,
}

-- A table has a flag for each entry.
abbrev pub IsValid : FdTable → Type 0
IsValid t = length t.cloexec ≡ length t.entries

module _ {ℓ} {A : Type ℓ} (n : ℕ) (d : A) (xs : List A) (h : length xs ≤ n) where
  resize_lem : resize n d xs ≡ xs ++ replicate (n - length xs) d
  resize_lem = ap (λ ys. ys ++ replicate (n - length xs) d) (take_all n xs h)

  length-resize : length (resize n d xs) ≡ n
  length-resize =
      ap length resize_lem
      ∙ length-append xs (replicate (n - length xs) d)
      ∙ omega (arith, length-replicate (n - length xs) d)

  get_or-resize : (i : ℕ) → get_or (resize n d xs) i d ≡ get_or xs i d
  get_or-resize i =
      ap (λ ys. get_or ys i d) resize_lem ∙ get_or-append-replicate xs (n - length xs) i d

-- A table that has grown has the slots asked for, and all its slots as they were.
pub record Grown (n : ℕ) (t t' : FdTable) : Type 0 where
  pub valid : IsValid t'
  pub room : n ≤ length t'.entries
  pub within : length t'.entries ≤ length t.entries + n
  pub kept : n ≤ length t.entries → length t'.entries ≡ length t.entries
  pub entry : (i : ℕ) → get_or t'.entries i none ≡ get_or t.entries i none
  pub flag : (i : ℕ) → flag_at t' i ≡ flag_at t i

pub ensure_len-Grown : (n : ℕ) (t : FdTable) → IsValid t → Grown n t (ensure_len n t)
unfolding ensure_len
ensure_len-Grown n t v = elim (Bool-cases (ltb (length t.entries) n)) [
  | inl short ↦
      let h : length t.entries ≤ n = omega (arith, ltb→lt (length t.entries) n short) in
      let h' : length t.cloexec ≤ n = omega arith in
      rw short record {
        valid = length-resize n false t.cloexec h' ∙ sym (length-resize n none t.entries h);
        room = omega (arith, length-resize n none t.entries h);
        within = omega (arith, length-resize n none t.entries h);
        kept =
            λ k. omega (arith, length-resize n none t.entries h, ltb→lt (length t.entries) n short);
        entry = get_or-resize n none t.entries h;
        flag = get_or-resize n false t.cloexec h';
      }
  | inr long ↦ rw long record {
    valid = v;
    room = ltb→ge (length t.entries) n long;
    within = omega arith;
    kept = λ k. refl;
    entry = λ i. refl;
    flag = λ i. refl;
  }
]

-- `close_fd` empties a slot in range, clears its flag, and gives up a count of the handle; out of
-- range it fails and changes nothing.
pub close_fd_lem :
    (fd : ℕ) (refs : Refs) (t : FdTable) (i : ℕ)
    → IsValid t
    → let (refs', t', r) = close_fd fd refs t in
      IsValid t'
      × (get_fd t' i ≡ (if i == fd then none else get_fd t i))
      × (flag_at t' i ≡ (if i == fd then false else flag_at t i))
      × (refs' ≡ release_entry (get_fd t fd) refs)
      × (r ≡ (if ltb fd (length t.entries) then ok tt else err not_found))
unfolding close_fd
close_fd_lem fd refs t i v = elim (Bool-cases (ltb fd (length t.entries))) [
  | inl h ↦
      let k = ltb→lt fd (length t.entries) h in
      rw h (
        length-set t.cloexec fd false ∙ v ∙ sym (length-set t.entries fd none),
        get_or-set t.entries fd i none none k,
        get_or-set t.cloexec fd i false false (omega arith),
        refl,
        refl,
      )
  | inr h ↦
      let k = ltb→ge fd (length t.entries) h in
      let e = get_or_beyond t.entries fd none k in
      let f = get_or_beyond t.cloexec fd false (omega arith) in
      rw h (v, ground (arith, e), ground (arith, f), ground (arith, e), refl)
]
