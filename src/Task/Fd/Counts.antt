-- ===== src/Task/Fd/Counts.antt =====
-- The counts of the handles: how many slots hold a handle, against its `refcount`.
use old_boruixkernel.Common.{
  ℕ, zero, suc, ◌+◌, ◌%◌, ◌<◌, ◌≡◌, ap, ◌∙◌, Bool, Option, none, some, List, [], ◌∷◌, arith, ltb,
  ◌==◌, if◌then◌else◌, length, get_or, set, Bool-cases, inl, inr, word_mod, ltb→lt, lt→ltb,
}
use old_boruixkernel.Task.Fd.{
  FdTable, err, get_fd, close_fd, Refs, release_entry, retain, retain_all, fork_clone, dup,
  alloc_fd, max_fd, invalid,
}

abbrev pub holds : ℕ → Option ℕ → ℕ
holds h none = 0
holds h (some k) = if h == k then 1 else 0

unfoldable pub count : ℕ → List (Option ℕ) → ℕ
count h [] = 0
count h (e ∷ es) = holds h e + count h es

count-set :
    (h : ℕ) (xs : List (Option ℕ)) (i : ℕ) (v : Option ℕ)
    → i < length xs
    → count h (set xs i v) + holds h (get_or xs i none) ≡ count h xs + holds h v
unfolding count
count-set h [] i v k = elim k [ ]
count-set h (x ∷ xs) zero v k = omega arith
count-set h (x ∷ xs) (suc i) v k = omega (arith, count-set h xs i v (omega arith))

-- Each `refcount` is the number of slots that hold the handle, and fits a word.
pub record IsCounted (refs : Refs) (t : FdTable) : Type 0 where
  pub exact : (h : ℕ) → refs h ≡ count h t.entries
  pub small : (h : ℕ) → count h t.entries + 1 < word_mod

-- `close_fd` keeps the counts exact.
pub close_fd-IsCounted :
    (fd : ℕ) (refs : Refs) (t : FdTable)
    → IsCounted refs t
    → IsCounted (close_fd fd refs t).0 (close_fd fd refs t).1
unfolding close_fd get_fd
close_fd-IsCounted fd refs t c = elim (Bool-cases (ltb fd (length t.entries))) [
  | inr out ↦ rw out c
  | inl inside ↦
      let k = ltb→lt fd (length t.entries) inside in
      rw inside record {
        exact = λ h.
            released h (get_or t.entries fd none) (count-set h t.entries fd none k) (c.exact h)
              (c.small h);
        small = λ h. omega (arith, count-set h t.entries fd none k, c.small h);
      }
]
  where
    released :
        (h : ℕ) (e : Option ℕ)
        → count h (set t.entries fd none) + holds h e ≡ count h t.entries + 0
        → refs h ≡ count h t.entries
        → count h t.entries + 1 < word_mod
        → release_entry e refs h ≡ count h (set t.entries fd none)
    released h none q r s = omega arith
    released h (some g) q r s = ground arith

-- `fork_clone` copies the table and adds to each `refcount` the slots of the copy.
retain_all_lem :
    (es : List (Option ℕ)) (refs : Refs) (h : ℕ)
    → refs h < word_mod
    → retain_all es refs h ≡ (refs h + count h es) % word_mod
unfolding retain_all count
retain_all_lem [] refs h s = omega arith
retain_all_lem (none ∷ es) refs h s =
    retain_all_lem es refs h s ∙ ap (λ x. x % word_mod) (omega arith)
retain_all_lem (some g ∷ es) refs h s =
    retain_all_lem es (retain g refs) h (ground arith) ∙ ground arith

-- After `fork_clone` each `refcount` is the number of slots in the two tables that hold the handle.
pub fork_clone_counts :
    (refs : Refs) (t : FdTable) (h : ℕ)
    → IsCounted refs t
    → count h t.entries + count h t.entries < word_mod
    → (fork_clone refs t).0 h ≡ count h t.entries + count h (fork_clone refs t).1.entries
unfolding fork_clone
fork_clone_counts refs t h c s =
    let e = c.exact h in retain_all_lem t.entries refs h (omega arith) ∙ omega arith

alloc_beyond :
    (fuel min_fd h : ℕ) (flag : Bool) (t : FdTable)
    → max_fd < min_fd
    → alloc_fd fuel min_fd h flag t ≡ some (t, err invalid)
unfolding alloc_fd
alloc_beyond fuel min_fd h flag t k = rw (lt→ltb max_fd min_fd k)

-- `dup` counts its handle before it asks for a descriptor: past the limit it fails, the table is as
-- before, and the `refcount` of the handle is one too many.
pub dup_overcounts :
    (fuel fd min_fd h : ℕ) (flag : Bool) (refs : Refs) (t : FdTable)
    → IsCounted refs t
    → get_fd t fd ≡ some h
    → max_fd < min_fd
    → (refs' : Refs) × (dup fuel fd min_fd flag refs t ≡ some (refs', t, err invalid))
      × (refs' h ≡ count h t.entries + 1)
unfolding dup
dup_overcounts fuel fd min_fd h flag refs t c e k =
    let exact = c.exact h in
    let small = c.small h in
    (retain h refs, ground (arith, alloc_beyond fuel min_fd h flag t k), ground arith)
