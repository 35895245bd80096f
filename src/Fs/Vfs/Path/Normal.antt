-- ===== src/Fs/Vfs/Path/Normal.antt =====
-- What `normalize_path` makes of a path.
use old_boruixkernel.Common.{
  ℕ, zero, suc, ◌+◌, ◌-◌, ◌≡◌, ◌≢◌, refl, sym, ap, ◌∙◌, Bool, true, false, List, [], ◌∷◌, ◌++◌,
  append_assoc, append-nil, ◌==◌, if◌then◌else◌, arith, Bool-cases, inl, inr, All, All-imp,
  bytes_eq, bytes_eq_iff,
}
use old_boruixkernel.Fs.Vfs.Path.{
  Bytes, slash, here, parent, split, join, drop_last, is_blank, normal_parts, or_root, is_absolute,
  normalize_path,
}
use old_boruixkernel.Fs.Vfs.Path.Split.{Lacks, split-Lacks, split-join}

-- The parts read from the right: how many of the parts before the path are to be dropped, and what stays.
unfoldable pub from_right : List Bytes → ℕ × List Bytes
from_right [] = (0, [])
from_right (p ∷ ps) =
    let (dropped, kept) = from_right ps in
    if is_blank p
    then (dropped, kept)
    else if bytes_eq p parent
    then (dropped + 1, kept)
    else if dropped == 0
    then (0, p ∷ kept)
    else (dropped - 1, kept)

unfoldable drop_lasts : ℕ → List Bytes → List Bytes
drop_lasts zero ps = ps
drop_lasts (suc n) ps = drop_lasts n (drop_last ps)

drop_last-append : (ps : List Bytes) (p : Bytes) → drop_last (ps ++ (p ∷ [])) ≡ ps
unfolding drop_last
drop_last-append [] p = refl
drop_last-append (q ∷ []) p = refl
drop_last-append (q ∷ r ∷ ps) p = ap (λ z. q ∷ z) (drop_last-append (r ∷ ps) p)

normal_parts-from_right :
    (parts ps : List Bytes)
    → let (dropped, kept) = from_right ps in
      normal_parts parts ps ≡ drop_lasts dropped parts ++ kept
unfolding from_right drop_lasts normal_parts
normal_parts-from_right parts [] = sym (append-nil parts)
normal_parts-from_right parts (p ∷ ps) = elim (Bool-cases (is_blank p)) [
  | inl blank ↦ rw (blank, normal_parts) (normal_parts-from_right parts ps)
  | inr name ↦ elim (Bool-cases (bytes_eq p parent)) [
    | inl up ↦
        rw (name, up, normal_parts)
          (let e : (from_right ps).0 + 1 ≡ suc (from_right ps).0 = omega arith in
            rw e (normal_parts-from_right (drop_last parts) ps))
    | inr down ↦ elim (Bool-cases ((from_right ps).0 == 0)) [
      | inl stays ↦
          rw (name, down, normal_parts, stays)
            (let z : (from_right ps).0 ≡ 0 = ground arith in
              normal_parts-from_right (parts ++ (p ∷ [])) ps
              ∙ ap (λ n. drop_lasts n (parts ++ (p ∷ [])) ++ (from_right ps).1) z
              ∙ append_assoc parts (p ∷ []) (from_right ps).1)
      | inr goes ↦
          rw (name, down, normal_parts, goes)
            (let z : (from_right ps).0 ≡ suc ((from_right ps).0 - 1) = ground arith in
              normal_parts-from_right (parts ++ (p ∷ [])) ps
              ∙ ap (λ n. drop_lasts n (parts ++ (p ∷ [])) ++ (from_right ps).1) z
              ∙ ap (λ q. drop_lasts ((from_right ps).0 - 1) q ++ (from_right ps).1)
                  (drop_last-append parts p))
    ]
  ]
]

-- A name: not empty, neither `.` nor `..`, and with no slash.
abbrev pub IsName : Bytes → Type 0
IsName p = (p ≢ []) × (p ≢ here) × (p ≢ parent) × Lacks p

not_blank : (p : Bytes) → is_blank p ≡ false → (p ≢ []) × (p ≢ here)
not_blank p h = ((λ e. ground (arith, bytes_eq_iff p [])), λ e. ground (arith, bytes_eq_iff p here))

from_right-IsName : (ps : List Bytes) → All Lacks ps → All IsName (from_right ps).1
unfolding from_right
from_right-IsName [] h = tt
from_right-IsName (p ∷ ps) h = elim (Bool-cases (is_blank p)) [
  | inl blank ↦ rw blank (from_right-IsName ps h.1)
  | inr name ↦ elim (Bool-cases (bytes_eq p parent)) [
    | inl up ↦ rw (name, up) (from_right-IsName ps h.1)
    | inr down ↦ elim (Bool-cases ((from_right ps).0 == 0)) [
      | inl stays ↦
          let (a, b) = not_blank p name in
          rw (name, down, stays)
            ((a, b, (λ e. ground (arith, bytes_eq_iff p parent)), h.0), from_right-IsName ps h.1)
      | inr goes ↦ rw (name, down, goes) (from_right-IsName ps h.1)
    ]
  ]
]

name_tests : (p : Bytes) → IsName p → (is_blank p ≡ false) × (bytes_eq p parent ≡ false)
name_tests p (a, b, c, l) = (
  ground (arith, bytes_eq_iff p [], bytes_eq_iff p here, a, b),
  ground (arith, bytes_eq_iff p parent, c),
)

from_right_names : (ps : List Bytes) → All IsName ps → from_right ps ≡ (0, ps)
unfolding from_right
from_right_names [] h = refl
from_right_names (p ∷ ps) h =
    let (a, b) = name_tests p h.0 in rw (a, b, from_right_names ps h.1) refl

drop_lasts-nil : (n : ℕ) → drop_lasts n [] ≡ []
unfolding drop_lasts drop_last
drop_lasts-nil zero = refl
drop_lasts-nil (suc n) = drop_lasts-nil n

-- The path of the names, with a slash in front or not; the empty one is the root.
unfoldable pub render : Bool → List Bytes → Bytes
unfolding join
render absolute ps = or_root (if absolute then slash ∷ join ps else join ps)

loop_lem : (ps : List Bytes) → normal_parts [] ps ≡ (from_right ps).1
loop_lem ps =
    normal_parts-from_right [] ps
    ∙ ap (λ q. q ++ (from_right ps).1) (drop_lasts-nil (from_right ps).0)

-- The result of `normalize_path` is the path of the parts that a reading from the right keeps, absolute
-- where the path is: each `..` drops the nearest name before it that is not dropped yet, and parts that
-- are empty or `.` go. All parts of the result are names.
pub normalize_path-from_right :
    (s : Bytes)
    → let ps = (from_right (split s)).1 in
      (normalize_path s ≡ render (is_absolute s) ps) × All IsName ps
unfolding normalize_path render
normalize_path-from_right [] =
    (unfold split from_right join bytes_eq in refl, from_right-IsName (split []) (split-Lacks []))
normalize_path-from_right (c ∷ s) = (
  ap (λ z. or_root (if c == slash then slash ∷ join z else join z)) (loop_lem (split (c ∷ s))),
  from_right-IsName (split (c ∷ s)) (split-Lacks (c ∷ s)),
)

without_slashes : (ps : List Bytes) → All IsName ps → All Lacks ps
without_slashes ps h = All-imp IsName Lacks (λ p n. let (a, b, c, l) = n in l) ps h

split_slash : (s : Bytes) → split (slash ∷ s) ≡ [] ∷ split s
unfolding split
split_slash s = refl

blank_first : (ps : List Bytes) → from_right ([] ∷ ps) ≡ from_right ps
unfolding from_right bytes_eq
blank_first ps = refl

join_name :
    (p : Bytes) (ps : List Bytes)
    → IsName p
    → (c : ℕ) × (s : Bytes) × (join (p ∷ ps) ≡ c ∷ s) × (c ≢ slash)
unfolding join
join_name [] ps (a, b, c, l) = absurd (a refl)
join_name (c ∷ p) [] (x, y, z, l) = (c, p, refl, l.0)
join_name (c ∷ p) (q ∷ ps) (x, y, z, l) = (c, p ++ (slash ∷ join (q ∷ ps)), refl, l.0)

root_fixed : normalize_path (slash ∷ []) ≡ slash ∷ []
unfolding normalize_path split normal_parts join bytes_eq
root_fixed = refl

module _ (p : Bytes) (ps : List Bytes) (h : All IsName (p ∷ ps)) where
  abbrev joined : Bytes
  joined = join (p ∷ ps)

  parts_back : (from_right (split joined)).1 ≡ p ∷ ps
  parts_back =
      ap (λ z. (from_right z).1) (split-join p ps (without_slashes (p ∷ ps) h))
      ∙ ap (λ (z : ℕ × List Bytes). z.1) (from_right_names (p ∷ ps) h)

  parts_back_slash : (from_right (split (slash ∷ joined))).1 ≡ p ∷ ps
  parts_back_slash =
      ap (λ z. (from_right z).1) (split_slash joined)
      ∙ ap (λ (z : ℕ × List Bytes). z.1) (blank_first (split joined))
      ∙ parts_back

  absolute_back : normalize_path (slash ∷ joined) ≡ slash ∷ joined
  absolute_back =
      (normalize_path-from_right (slash ∷ joined)).0
      ∙ ap (λ z. render true z) parts_back_slash
      ∙ unfold render in refl

  relative_back : normalize_path (or_root joined) ≡ or_root joined
  relative_back =
      let (c, s, e, ne) = join_name p ps h.0 in
      let whole : or_root joined ≡ joined = rw e refl in
      let open_start : is_absolute joined ≡ false = rw e (ground (arith, ne)) in
      ap (λ z. normalize_path z) whole
      ∙ (normalize_path-from_right joined).0
      ∙ ap (λ b. render b (from_right (split joined)).1) open_start
      ∙ ap (λ z. render false z) parts_back
      ∙ unfold render in refl

-- Reading a path that is made of names gives it back.
read_back :
    (absolute : Bool) (ps : List Bytes)
    → All IsName ps
    → normalize_path (render absolute ps) ≡ render absolute ps
unfolding render
read_back true [] h = unfold join in root_fixed
read_back true (p ∷ ps) h = absolute_back p ps h
read_back false [] h = unfold join in root_fixed
read_back false (p ∷ ps) h = relative_back p ps h

-- A path that `normalize_path` has made stays as it is.
pub normalize_path_twice : (s : Bytes) → normalize_path (normalize_path s) ≡ normalize_path s
normalize_path_twice s =
    let (e, names) = normalize_path-from_right s in
    rw e (read_back (is_absolute s) (from_right (split s)).1 names)
