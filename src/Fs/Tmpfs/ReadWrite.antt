-- ===== src/Fs/Tmpfs/ReadWrite.antt =====
-- A read after a write.
use old_boruixkernel.Common.{
  ℕ, zero, suc, ◌+◌, ◌-◌, ◌^◌, ◌<◌, ◌≡◌, ◌≢◌, refl, sym, ap, ◌∙◌, true, false, some, List, [], ◌∷◌,
  ◌++◌, ltb, leb, ◌==◌, ==_refl, if◌then◌else◌, min, length, take, drop, arith, Bool-cases, inl,
  inr, leb→le, lt→ltb,
}
use old_boruixkernel.Fs.Vfs.{ok, World}
use old_boruixkernel.Fs.Tmpfs.{Boxes, file_kind, grown, patched, tmpfs_read, tmpfs_write}
use old_boruixkernel.Fs.Tmpfs.Bytes.{length-grown, front, size_lem}

take_left : (n : ℕ) (xs ys : List ℕ) → length xs ≡ n → take n (xs ++ ys) ≡ xs
take_left zero [] ys h = refl
take_left zero (x ∷ xs) ys h = absurd (omega arith)
take_left (suc n) [] ys h = absurd (omega arith)
take_left (suc n) (x ∷ xs) ys h = ap (λ z. x ∷ z) (take_left n xs ys (omega arith))

drop_left : (n : ℕ) (xs ys : List ℕ) → length xs ≡ n → drop n (xs ++ ys) ≡ ys
drop_left zero [] ys h = refl
drop_left zero (x ∷ xs) ys h = absurd (omega arith)
drop_left (suc n) [] ys h = absurd (omega arith)
drop_left (suc n) (x ∷ xs) ys h = drop_left n xs ys (omega arith)

nil_of_length : (xs : List ℕ) → length xs ≡ 0 → xs ≡ []
nil_of_length [] h = refl
nil_of_length (x ∷ xs) h = absurd (omega arith)

-- What `tmpfs_read` finds in the content that a write has made.
abbrev found : ℕ → ℕ → List ℕ → List ℕ
found offset len bytes =
    if leb (length bytes) offset
    then []
    else take (min (length bytes) (offset + len) - offset) (drop offset bytes)

found-patched :
    (offset : ℕ) (buf bytes : List ℕ) → found offset (length buf) (patched offset buf bytes) ≡ buf
unfolding patched
found-patched offset buf bytes =
    let g = grown (offset + length buf) bytes in
    let (a, b, c) = length-grown (offset + length buf) bytes in
    let n = size_lem offset buf bytes in
    elim (Bool-cases (leb (length (patched offset buf bytes)) offset)) [
      | inl short ↦ rw short (sym (nil_of_length buf (omega (arith, n, b, leb→le _ _ short))))
      | inr long ↦
          let k : min (length (patched offset buf bytes)) (offset + length buf) - offset
              ≡ length buf =
            omega (arith, n, b) in
          rw
            (
              long,
              k,
              drop_left offset (take offset g) (buf ++ drop (offset + length buf) g)
                  (front offset buf bytes),
            )
            (take_left (length buf) buf (drop (offset + length buf) g) refl)
    ]

reads :
    (node offset len : ℕ) (w : World Boxes) (h : ℕ)
    → (w.nodes node).handle ≡ some h
    → (w.store.files h).kind ≡ file_kind
    → (tmpfs_read node offset len w).0 ≡ ok (found offset len (w.store.files h).bytes)
unfolding tmpfs_read
reads node offset len w h e k = elim (Bool-cases (leb (length (w.store.files h).bytes) offset)) [
  | inl past ↦ rw (tmpfs_read, e, k, past) refl
  | inr within ↦ rw (tmpfs_read, e, k, within) refl
]

writes :
    (node offset : ℕ) (buf : List ℕ) (w : World Boxes) (h : ℕ)
    → (w.nodes node).handle ≡ some h
    → (w.store.files h).kind ≡ file_kind
    → offset + length buf < 2 ^ 63
    → let w' = (tmpfs_write node offset buf w).1 in
      ((w'.nodes node).handle ≡ some h)
      × ((w'.store.files h).kind ≡ file_kind)
      × ((w'.store.files h).bytes ≡ patched offset buf (w.store.files h).bytes)
      × ((j : ℕ) → j ≢ h → w'.store.files j ≡ w.store.files j)
unfolding tmpfs_write
writes node offset buf w h e k lt =
    let short : ltb (offset + length buf) (2 ^ 63) ≡ true =
      lt→ltb (offset + length buf) (2 ^ 63) lt in
    (
      rw (tmpfs_write, e, k, short, ==_refl node) e,
      rw (tmpfs_write, e, k, short, ==_refl h) refl,
      rw (tmpfs_write, e, k, short, ==_refl h) refl,
      (λ j ne.
          let other : (j == h) ≡ false = ground arith in rw (tmpfs_write, e, k, short, other) refl),
    )

-- A write to a file that ends below the largest `isize` and a read of the same range give the bytes
-- back, and no other box changes.
pub tmpfs_read-tmpfs_write :
    (node offset : ℕ) (buf : List ℕ) (w : World Boxes) (h : ℕ)
    → (w.nodes node).handle ≡ some h
    → (w.store.files h).kind ≡ file_kind
    → offset + length buf < 2 ^ 63
    → let w' = (tmpfs_write node offset buf w).1 in
      ((tmpfs_write node offset buf w).0 ≡ ok (length buf))
      × ((tmpfs_read node offset (length buf) w').0 ≡ ok buf)
      × ((j : ℕ) → j ≢ h → w'.store.files j ≡ w.store.files j)
unfolding tmpfs_write
tmpfs_read-tmpfs_write node offset buf w h e k lt =
    let (handle, kind, bytes, others) = writes node offset buf w h e k lt in
    let short : ltb (offset + length buf) (2 ^ 63) ≡ true =
      lt→ltb (offset + length buf) (2 ^ 63) lt in
    (
      rw (tmpfs_write, e, k, short) refl,
      reads node offset (length buf) (tmpfs_write node offset buf w).1 h handle kind
          ∙ ap (λ z. ok (found offset (length buf) z)) bytes
          ∙ ap ok (found-patched offset buf (w.store.files h).bytes),
      others,
    )
