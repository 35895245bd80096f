-- ===== src/Fs/Tmpfs/Bytes.antt =====
-- Reading what has been written.
use old_boruixkernel.Common.{
  ℕ, zero, suc, ◌+◌, ◌-◌, ◌≤◌, ◌<◌, ◌≡◌, ◌⊎◌, refl, ap, ◌∙◌, true, false, List, [], ◌∷◌, ◌++◌, ltb,
  leb, ◌&&◌, if◌then◌else◌, length, take, drop, replicate, get_or, arith, Bool-cases, inl, inr,
  length-append, length-take, length-replicate, get_or-append-replicate, ltb→lt, ltb→ge,
}
use old_boruixkernel.Fs.Tmpfs.{grown, patched}

length-drop : (n : ℕ) (xs : List ℕ) → length (drop n xs) ≡ length xs - n
length-drop zero xs = omega arith
length-drop (suc n) [] = omega arith
length-drop (suc n) (x ∷ xs) = omega (arith, length-drop n xs)

get_or-take : (n i : ℕ) (xs : List ℕ) (d : ℕ) → i < n → get_or (take n xs) i d ≡ get_or xs i d
get_or-take zero i xs d h = absurd (omega arith)
get_or-take (suc n) i [] d h = refl
get_or-take (suc n) zero (x ∷ xs) d h = refl
get_or-take (suc n) (suc i) (x ∷ xs) d h = get_or-take n i xs d (omega arith)

get_or-drop : (n i : ℕ) (xs : List ℕ) (d : ℕ) → get_or (drop n xs) i d ≡ get_or xs (n + i) d
get_or-drop zero i xs d = let e : 0 + i ≡ i = omega arith in rw e refl
get_or-drop (suc n) i [] d = refl
get_or-drop (suc n) i (x ∷ xs) d =
    let e : suc n + i ≡ suc (n + i) = omega arith in rw e (get_or-drop n i xs d)

get_or-append :
    (xs ys : List ℕ) (i d : ℕ)
    → get_or (xs ++ ys) i d
      ≡ (if ltb i (length xs) then get_or xs i d else get_or ys (i - length xs) d)
get_or-append [] ys i d = ground arith
get_or-append (x ∷ xs) ys zero d = ground arith
get_or-append (x ∷ xs) ys (suc i) d = elim (Bool-cases (ltb i (length xs))) [
  | inl left ↦ ground (arith, get_or-append xs ys i d)
  | inr right ↦
      let e : suc i - suc (length xs) ≡ i - length xs = omega arith in
      ground (arith, get_or-append xs ys i d, e)
]

pub length-grown :
    (end : ℕ) (bytes : List ℕ)
    → (length bytes ≤ length (grown end bytes))
      × (end ≤ length (grown end bytes))
      × ((length (grown end bytes) ≡ length bytes) ⊎ (length (grown end bytes) ≡ end))
length-grown end bytes = elim (Bool-cases (ltb (length bytes) end)) [
  | inl short ↦
      let more = length-append bytes (replicate (end - length bytes) 0) in
      let pad = length-replicate {A = ℕ} (end - length bytes) 0 in
      rw short (
        omega (arith, more, pad),
        omega (arith, more, pad),
        inr (omega (arith, more, pad, ltb→lt (length bytes) end short)),
      )
  | inr long ↦ rw long (omega arith, ltb→ge (length bytes) end long, inl refl)
]

get_or-grown : (end : ℕ) (bytes : List ℕ) (i : ℕ) → get_or (grown end bytes) i 0 ≡ get_or bytes i 0
get_or-grown end bytes i = elim (Bool-cases (ltb (length bytes) end)) [
  | inl short ↦ rw short (get_or-append-replicate bytes (end - length bytes) i 0)
  | inr long ↦ rw long refl
]

module _ (offset : ℕ) (buf bytes : List ℕ) where
  abbrev pub end : ℕ
  end = offset + length buf

  abbrev pub whole : List ℕ
  whole = grown end bytes

  pub front : length (take offset whole) ≡ offset
  front = let (a, b, c) = length-grown end bytes in omega (arith, length-take offset whole, b)

  at_front :
      (i : ℕ)
      → i < offset
      → get_or (take offset whole ++ (buf ++ drop end whole)) i 0 ≡ get_or bytes i 0
  at_front i h =
      let e : ltb i (length (take offset whole)) ≡ true = ground (arith, front) in
      get_or-append (take offset whole) (buf ++ drop end whole) i 0
      ∙ rw e (get_or-take offset i whole 0 h ∙ get_or-grown end bytes i)

  behind :
      (i : ℕ)
      → offset ≤ i
      → get_or (take offset whole ++ (buf ++ drop end whole)) i 0
        ≡ get_or (buf ++ drop end whole) (i - offset) 0
  behind i h =
      let e : ltb i (length (take offset whole)) ≡ false = ground (arith, front) in
      get_or-append (take offset whole) (buf ++ drop end whole) i 0
      ∙ rw e (ap (λ n. get_or (buf ++ drop end whole) (i - n) 0) front)

  inside :
      (i : ℕ)
      → offset ≤ i
      → i < end
      → get_or (buf ++ drop end whole) (i - offset) 0 ≡ get_or buf (i - offset) 0
  inside i h k =
      let e : ltb (i - offset) (length buf) ≡ true = ground arith in
      get_or-append buf (drop end whole) (i - offset) 0 ∙ rw e refl

  beyond : (i : ℕ) → end ≤ i → get_or (buf ++ drop end whole) (i - offset) 0 ≡ get_or bytes i 0
  beyond i h =
      let e : ltb (i - offset) (length buf) ≡ false = ground arith in
      let k : end + (i - offset - length buf) ≡ i = omega arith in
      get_or-append buf (drop end whole) (i - offset) 0
      ∙ rw e (
          get_or-drop end (i - offset - length buf) whole 0
          ∙ ap (λ n. get_or whole n 0) k
          ∙ get_or-grown end bytes i)

  pub size_lem : length (take offset whole ++ (buf ++ drop end whole)) ≡ length whole
  size_lem =
      let (a, b, c) = length-grown end bytes in
      omega (
        arith,
        length-append (take offset whole) (buf ++ drop end whole),
        length-append buf (drop end whole),
        length-drop end whole,
        front,
        b,
      )

-- A write changes the bytes in its range to those written, keeps the others, fills a gap with zeros, and
-- makes the file as long as the old content and the end of the range ask for.
pub patched_lem :
    (offset : ℕ) (buf bytes : List ℕ)
    → ((i : ℕ)
        → get_or (patched offset buf bytes) i 0 ≡ (
            if leb offset i && ltb i (offset + length buf)
            then get_or buf (i - offset) 0
            else get_or bytes i 0))
      × (length (patched offset buf bytes) ≡ (
          if ltb (length bytes) (offset + length buf) then offset + length buf else length bytes))
unfolding patched
patched_lem offset buf bytes =
    let (a, b, c) = length-grown (offset + length buf) bytes in
    (
      (λ i. elim (Bool-cases (leb offset i)) [
        | inr low ↦ rw low (at_front offset buf bytes i (ground arith))
        | inl high ↦ elim (Bool-cases (ltb i (offset + length buf))) [
          | inl k ↦
              rw (high, k)
                (behind offset buf bytes i (ground arith)
                  ∙ inside offset buf bytes i (ground arith) (ltb→lt i (offset + length buf) k))
          | inr k ↦
              rw (high, k)
                (behind offset buf bytes i (ground arith)
                  ∙ beyond offset buf bytes i (ltb→ge i (offset + length buf) k))
        ]
      ]),
      size_lem offset buf bytes
          ∙ ground (
            arith,
            length-replicate {A = ℕ} (offset + length buf - length bytes) 0,
            length-append bytes (replicate (offset + length buf - length bytes) 0),
          ),
    )
