-- ===== src/Task/Fd/Closing.antt =====
-- `close_on_exec` and `close_all`: the loops over `close_fd`, slot by slot.
use old_boruixkernel.Common.{
  ℕ, zero, suc, ◌+◌, ◌≡◌, Bool, false, none, arith, ltb, leb, if◌then◌else◌, ◌&&◌, length,
  Bool-cases, inl, inr, get_or_beyond,
}
use old_boruixkernel.Task.Fd.{
  FdTable, get_fd, close_fd, flag_at, Refs, close_flagged, close_on_exec, close_from, close_all,
}
use old_boruixkernel.Task.Fd.Slots.{IsValid, close_fd_lem}

abbrev between : ℕ → ℕ → ℕ → Bool
between i n j = leb i j && ltb j (i + n)

close_flagged_lem :
    (n i : ℕ) (refs : Refs) (t : FdTable) (j : ℕ)
    → IsValid t
    → let t' = (close_flagged n i refs t).1 in
      IsValid t'
      × (get_fd t' j ≡ (if between i n j && flag_at t j then none else get_fd t j))
      × (flag_at t' j ≡ (if between i n j then false else flag_at t j))
unfolding close_flagged
close_flagged_lem zero i refs t j v = (v, ground arith, ground arith)
close_flagged_lem (suc n) i refs t j v = elim (Bool-cases (flag_at t i)) [
  | inl y ↦
      let (refs', t', r) = close_fd i refs t in
      let (v', g, f, _, _) = close_fd_lem i refs t j v in
      let (v'', g', f') =
        close_flagged_lem n (i + 1) (close_fd i refs t).0 (close_fd i refs t).1 j v' in
      rw (y, close_flagged) (v'', ground arith, ground arith)
  | inr no_flag ↦
      let (v'', g', f') = close_flagged_lem n (i + 1) refs t j v in
      rw (no_flag, close_flagged) (v'', ground arith, ground arith)
]

close_from_lem :
    (n i : ℕ) (refs : Refs) (t : FdTable) (j : ℕ)
    → IsValid t
    → let t' = (close_from n i refs t).1 in
      IsValid t' × (get_fd t' j ≡ (if between i n j then none else get_fd t j))
unfolding close_from
close_from_lem zero i refs t j v = (v, ground arith)
close_from_lem (suc n) i refs t j v =
    let (v', g, f, _, _) = close_fd_lem i refs t j v in
    let (v'', g') = close_from_lem n (i + 1) (close_fd i refs t).0 (close_fd i refs t).1 j v' in
    (v'', ground arith)

module _ (refs : Refs) (t : FdTable) (v : IsValid t) where
  -- `close_on_exec` closes exactly the descriptors that are marked, leaves all others as they were,
  -- and no mark is left.
  pub close_on_exec_lem :
      (j : ℕ)
      → let t' = (close_on_exec refs t).1 in
        (get_fd t' j ≡ (if flag_at t j then none else get_fd t j)) × (flag_at t' j ≡ false)
  unfolding close_on_exec
  close_on_exec_lem j =
      let (v', g, f) = close_flagged_lem (length t.entries) 0 refs t j v in
      let beyond = get_or_beyond t.cloexec j false in
      (ground (arith, beyond), ground (arith, beyond))

  -- After `close_all` no descriptor is open.
  pub close_all_lem : (j : ℕ) → get_fd (close_all refs t).1 j ≡ none
  unfolding close_all get_fd
  close_all_lem j =
      let (v', g) = close_from_lem (length t.entries) 0 refs t j v in
      ground (arith, get_or_beyond t.entries j none)
