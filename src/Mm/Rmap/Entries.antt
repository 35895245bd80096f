-- ===== src/Mm/Rmap/Entries.antt =====
-- What the reverse map holds after an addition and after a removal.
use old_boruixkernel.Common.{
  ℕ, ◌+◌, ◌≤◌, ◌<◌, ◌≡◌, ◌↔◌, refl, ap, ◌∙◌, false, none, List, [], ◌∷◌, ◌++◌, ltb, ◌==◌,
  if◌then◌else◌, length, arith, Bool-cases, inl, inr, length-append, ==_refl,
}
use old_boruixkernel.Mm.Rmap.{
  RmapEntry, Frames, push_entry, get_entries, maps, retain_others, put_back, remove_entries,
  count_entries, Rmap, rmap_add, rmap_remove, rmap_lookup, rmap_any, rmap_count, RmapStats,
}

-- The keys rise from `low` on, and no value is empty.
abbrev pub IsSorted : ℕ → Frames → Type 0
IsSorted low [] = Unit {0}
IsSorted low ((k, es) ∷ m) = (low ≤ k) × (0 < length es) × IsSorted (k + 1) m

lower : (low low' : ℕ) (m : Frames) → low ≤ low' → IsSorted low' m → IsSorted low m
lower low low' [] h s = tt
lower low low' ((k, es) ∷ m) h (le, full, s) = (omega arith, full, s)

absent : (low key : ℕ) (m : Frames) → IsSorted low m → key < low → get_entries key m ≡ []
unfolding get_entries
absent low key [] s h = refl
absent low key ((k, es) ∷ m) (le, full, s) h =
    let other : (key == k) ≡ false = ground arith in rw other (absent (k + 1) key m s (omega arith))

push_entry-IsSorted :
    (low key : ℕ) (e : RmapEntry) (m : Frames)
    → low ≤ key
    → IsSorted low m
    → IsSorted low (push_entry key e m)
unfolding push_entry
push_entry-IsSorted low key e [] h s = (h, omega arith, tt)
push_entry-IsSorted low key e ((k, es) ∷ m) h (le, full, s) = elim (Bool-cases (key == k)) [
  | inl same ↦ rw same (le, omega (arith, length-append es (e ∷ [])), s)
  | inr other ↦ elim (Bool-cases (ltb key k)) [
    | inl before ↦ rw (other, before) (h, omega arith, (ground arith, full, s))
    | inr after ↦ rw (other, after) (le, full, push_entry-IsSorted (k + 1) key e m (ground arith) s)
  ]
]

get_entries-push_entry :
    (low key : ℕ) (e : RmapEntry) (m : Frames) (i : ℕ)
    → IsSorted low m
    → get_entries i (push_entry key e m)
      ≡ (if i == key then get_entries key m ++ (e ∷ []) else get_entries i m)
unfolding push_entry get_entries
get_entries-push_entry low key e [] i s = ground arith
get_entries-push_entry low key e ((k, es) ∷ m) i (le, full, s) =
    ground (arith, get_entries-push_entry (k + 1) key e m i s, absent (k + 1) key m s)

put_back-IsSorted :
    (low k : ℕ) (es : List RmapEntry) (m : Frames)
    → low ≤ k
    → IsSorted (k + 1) m
    → IsSorted low (put_back k es m)
put_back-IsSorted low k [] m h s = lower low (k + 1) m (omega arith) s
put_back-IsSorted low k (e ∷ es) m h s = (h, omega arith, s)

remove_entries-IsSorted :
    (low key p v : ℕ) (m : Frames) → IsSorted low m → IsSorted low (remove_entries key p v m)
unfolding remove_entries
remove_entries-IsSorted low key p v [] s = tt
remove_entries-IsSorted low key p v ((k, es) ∷ m) (le, full, s) = elim (Bool-cases (key == k)) [
  | inl same ↦ rw same (put_back-IsSorted low k (retain_others p v es) m le s)
  | inr other ↦ rw other (le, full, remove_entries-IsSorted (k + 1) key p v m s)
]

get_entries-put_back :
    (k : ℕ) (es : List RmapEntry) (m : Frames) (i : ℕ)
    → IsSorted (k + 1) m
    → get_entries i (put_back k es m) ≡ (if i == k then es else get_entries i m)
unfolding get_entries
get_entries-put_back k [] m i s = ground (arith, absent (k + 1) i m s)
get_entries-put_back k (e ∷ es) m i s = refl

get_entries-remove_entries :
    (low key p v : ℕ) (m : Frames) (i : ℕ)
    → IsSorted low m
    → get_entries i (remove_entries key p v m)
      ≡ (if i == key then retain_others p v (get_entries key m) else get_entries i m)
unfolding remove_entries get_entries retain_others
get_entries-remove_entries low key p v [] i s = ground arith
get_entries-remove_entries low key p v ((k, es) ∷ m) i (le, full, s) = ground (
  arith,
  get_entries-remove_entries (k + 1) key p v m i s,
  get_entries-put_back k (retain_others p v es) m i s,
)

-- `rmap_add` appends its entry to those of its frame and leaves the other frames as they were.
pub rmap_add_lem :
    (phys p4_phys vaddr flags : ℕ) (r : Rmap) (i : ℕ)
    → IsSorted 0 r.frames
    → let r' = rmap_add phys p4_phys vaddr flags r in
      let e : RmapEntry = record { p4_phys = p4_phys; vaddr = vaddr; flags = flags } in
      IsSorted 0 r'.frames
      × ((rmap_lookup i r').1
          ≡ (if i == phys then (rmap_lookup phys r).1 ++ (e ∷ []) else (rmap_lookup i r).1))
unfolding rmap_add rmap_lookup
rmap_add_lem phys p4_phys vaddr flags r i s =
    let e : RmapEntry = record { p4_phys = p4_phys; vaddr = vaddr; flags = flags } in
    (
      push_entry-IsSorted 0 phys e r.frames (omega arith) s,
      get_entries-push_entry 0 phys e r.frames i s,
    )

-- `rmap_remove` takes out the entries of its frame for the page, all of them, and leaves the other
-- frames as they were.
pub rmap_remove_lem :
    (phys p4_phys vaddr : ℕ) (r : Rmap) (i : ℕ)
    → IsSorted 0 r.frames
    → let r' = rmap_remove phys p4_phys vaddr r in
      IsSorted 0 r'.frames
      × ((rmap_lookup i r').1 ≡ (
          if i == phys
          then retain_others p4_phys vaddr (rmap_lookup phys r).1
          else (rmap_lookup i r).1))
unfolding rmap_remove rmap_lookup
rmap_remove_lem phys p4_phys vaddr r i s = (
  remove_entries-IsSorted 0 phys p4_phys vaddr r.frames s,
  get_entries-remove_entries 0 phys p4_phys vaddr r.frames i s,
)

-- No entry is one for the page.
abbrev pub IsFree : ℕ → ℕ → List RmapEntry → Type 0
IsFree p v [] = Unit {0}
IsFree p v (e ∷ es) = (maps p v e ≡ false) × IsFree p v es

retain_others-append :
    (p v : ℕ) (es : List RmapEntry) (flags : ℕ)
    → IsFree p v es
    → retain_others p v (es ++ (record { p4_phys = p; vaddr = v; flags = flags } ∷ [])) ≡ es
unfolding retain_others
retain_others-append p v [] flags h = ground arith
retain_others-append p v (e ∷ es) flags (other, h) =
    rw other (ap (λ xs. e ∷ xs) (retain_others-append p v es flags h))

-- Where no entry of the frame is for the page, adding the page and removing it gives every frame the
-- entries it had.
pub rmap_remove-rmap_add :
    (phys p4_phys vaddr flags : ℕ) (r : Rmap) (i : ℕ)
    → IsSorted 0 r.frames
    → IsFree p4_phys vaddr (rmap_lookup phys r).1
    → (rmap_lookup i (rmap_remove phys p4_phys vaddr (rmap_add phys p4_phys vaddr flags r))).1
      ≡ (rmap_lookup i r).1
rmap_remove-rmap_add phys p4_phys vaddr flags r i s free =
    let (s', added) = rmap_add_lem phys p4_phys vaddr flags r i s in
    let (_, added_here) = rmap_add_lem phys p4_phys vaddr flags r phys s in
    let (_, removed) =
      rmap_remove_lem phys p4_phys vaddr (rmap_add phys p4_phys vaddr flags r) i s' in
    let here = added_here ∙ rw (==_refl phys) refl in
    let clean =
      ap (retain_others p4_phys vaddr) here
      ∙ retain_others-append p4_phys vaddr (rmap_lookup phys r).1 flags free in
    elim (Bool-cases (i == phys)) [
      | inr other ↦ removed ∙ rw other (added ∙ rw other refl)
      | inl same ↦
          let at : phys ≡ i = ground arith in
          removed ∙ rw same (clean ∙ ap (λ x. (rmap_lookup x r).1) at)
    ]

any_of-count :
    (m : Frames) (stats : RmapStats)
    → IsSorted 0 m
    → (rmap_any (record { frames = m; stats = stats }) ≡ none) ↔ (count_entries m ≡ 0)
unfolding rmap_any count_entries
any_of-count [] stats s = (λ _. refl, λ _. refl)
any_of-count ((k, []) ∷ m) stats s = absurd (ground arith)
any_of-count ((k, e ∷ es) ∷ m) stats s = (λ q. cc, λ q. ground arith)

-- `rmap_any` finds an entry exactly where `rmap_count` is not 0.
pub rmap_any-rmap_count :
    (r : Rmap) → IsSorted 0 r.frames → (rmap_any r ≡ none) ↔ (rmap_count r ≡ 0)
unfolding rmap_count
rmap_any-rmap_count r s = any_of-count r.frames r.stats s
