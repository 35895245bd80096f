-- ===== src/Drivers/Keyboard/Queue.antt =====
-- The ring of scancodes as a queue.
use old_boruixkernel.Common.{
  ℕ, zero, suc, ◌+◌, ◌-◌, ◌%◌, ◌^◌, ◌<◌, ◌≡◌, ◌≢◌, refl, sym, ap, ◌∙◌, ◌⊎◌, false, none, some, List,
  [], ◌∷◌, ◌++◌, ◌==◌, ==_refl, ==_iff, if◌then◌else◌, arith, Bool-cases, inl, inr,
}
use old_boruixkernel.Drivers.Keyboard.{Keyboard, buf_size, push_scancode, pop_scancode}

-- The indices lie in the buffer.
pub record InRange (k : Keyboard) : Type 0 where
  pub head_low : k.head < buf_size
  pub tail_low : k.tail < buf_size

abbrev pub waiting : Keyboard → ℕ
waiting k = (k.head + buf_size - k.tail) % buf_size

-- The scancodes from an index on, n of them.
unfoldable pub codes_from : (ℕ → ℕ) → ℕ → ℕ → List ℕ
codes_from buf zero i = []
codes_from buf (suc n) i = buf (i % buf_size) ∷ codes_from buf n (i + 1)

abbrev pub codes : Keyboard → List ℕ
codes k = codes_from k.buf (waiting k) k.tail

codes_from_last :
    (buf : ℕ → ℕ) (n i : ℕ)
    → codes_from buf (suc n) i ≡ codes_from buf n i ++ (buf ((i + n) % buf_size) ∷ [])
unfolding codes_from
codes_from_last buf zero i = let e : i + 0 ≡ i = omega arith in rw e refl
codes_from_last buf (suc n) i =
    let e : i + 1 + n ≡ i + suc n = omega arith in
    ap (λ z. buf (i % buf_size) ∷ z)
      (codes_from_last buf n (i + 1)
        ∙ ap (λ j. codes_from buf n (i + 1) ++ (buf (j % buf_size) ∷ [])) e)

-- A write to a place that is not read.
codes_from_write :
    (buf : ℕ → ℕ) (h v n i : ℕ)
    → ((j : ℕ) → j < n → (i + j) % buf_size ≢ h)
    → codes_from (λ x. if x == h then v else buf x) n i ≡ codes_from buf n i
unfolding codes_from
codes_from_write buf h v zero i away = refl
codes_from_write buf h v (suc n) i away =
    let here : (i % buf_size == h) ≡ false = elim (Bool-cases (i % buf_size == h)) [
      | inr e ↦ e
      | inl e ↦
          let q = (==_iff (i % buf_size) h).0 e in
          let z : i + 0 ≡ i = omega arith in
          absurd (away 0 (omega arith) (ap (λ j. j % buf_size) z ∙ q))
    ] in
    let rest = codes_from_write buf h v n (i + 1) (λ j lt e.
      let q : i + 1 + j ≡ i + suc j = omega arith in
      away (suc j) (omega arith) (ap (λ x. x % buf_size) (sym q) ∙ e)) in
    rw (here, rest) refl

-- The first code does not depend on how its index is written.
codes_from_wrap :
    (buf : ℕ → ℕ) (n i j : ℕ)
    → i % buf_size ≡ j % buf_size
    → codes_from buf n i ≡ codes_from buf n j
unfolding codes_from
codes_from_wrap buf zero i j e = refl
codes_from_wrap buf (suc n) i j e =
    let rest = codes_from_wrap buf n (i + 1) (j + 1) (omega arith) in rw (e, rest) refl

-- `push_scancode` adds a scancode at the end of the queue if fewer than 255 wait, and otherwise changes only
-- the count of those that are lost.
pub push_scancode_lem :
    (sc : ℕ) (k : Keyboard)
    → InRange k
    → InRange (push_scancode sc k)
      × (waiting k < 255 → codes (push_scancode sc k) ≡ codes k ++ (sc ∷ []))
      × (waiting k ≡ 255 → push_scancode sc k ≡ record k { dropped = (k.dropped + 1) % 2 ^ 64 })
unfolding push_scancode
push_scancode_lem sc k r =
    let h = r.head_low in
    let t = r.tail_low in
    let next = (k.head + 1) % buf_size in
    elim (Bool-cases (next == k.tail)) [
      | inl full ↦
          let e = (==_iff next k.tail).0 full in
          (
            rw (push_scancode, full) (record { head_low = h; tail_low = t }),
            (λ lt. absurd (omega (arith, e, lt, h, t))),
            (λ w. rw (push_scancode, full) refl),
          )
      | inr room ↦
          let ne : next ≢ k.tail = λ e. ground (arith, room, (==_iff next k.tail).1 e) in
          let n = waiting k in
          let more : (next + buf_size - k.tail) % buf_size ≡ suc n = omega (arith, ne, h, t) in
          let last : (k.tail + n) % buf_size ≡ k.head = omega (arith, h, t) in
          let buf = λ (x : ℕ). if x == k.head then sc else k.buf x in
          let here : buf k.head ≡ sc = rw (==_refl k.head) refl in
          let all : codes_from buf ((next + buf_size - k.tail) % buf_size) k.tail
              ≡ codes k ++ (sc ∷ []) =
            ap (λ m. codes_from buf m k.tail) more
            ∙ codes_from_last buf n k.tail
            ∙ ap (λ z. codes_from buf n k.tail ++ (z ∷ [])) (ap buf last ∙ here)
            ∙ ap (λ z. z ++ (sc ∷ []))
                (codes_from_write k.buf k.head sc n k.tail
                  (λ j lt e. omega (arith, h, t, e, lt))) in
          (
            rw (push_scancode, room) (record { head_low = omega arith; tail_low = t }),
            (λ lt. rw (push_scancode, room) all),
            (λ w. absurd (omega (arith, ne, w, h, t))),
          )
    ]

-- `pop_scancode` gives the first scancode of the queue and keeps the others in order, or nothing where the
-- queue is empty.
pub pop_scancode_lem :
    (k : Keyboard)
    → InRange k
    → (codes k ≡ []) × (pop_scancode k ≡ none)
      ⊎ (sc : ℕ) × (k' : Keyboard) × (pop_scancode k ≡ some (sc, k'))
        × (codes k ≡ sc ∷ codes k')
        × InRange k'
        × (suc (waiting k') ≡ waiting k)
unfolding pop_scancode codes_from
pop_scancode_lem k r =
    let h = r.head_low in
    let t = r.tail_low in
    elim (Bool-cases (k.tail == k.head)) [
      | inl empty ↦
          let e = (==_iff k.tail k.head).0 empty in
          let n : waiting k ≡ 0 = omega (arith, e, t) in
          inl (ap (λ m. codes_from k.buf m k.tail) n, rw (pop_scancode, empty) refl)
      | inr some_code ↦
          let ne : k.tail ≢ k.head = λ e. ground (arith, some_code, (==_iff k.tail k.head).1 e) in
          let next = (k.tail + 1) % buf_size in
          let k' = record k { tail = next } in
          let less : suc (waiting k') ≡ waiting k = omega (arith, ne, h, t) in
          let low : k.tail % buf_size ≡ k.tail = omega (arith, t) in
          inr (
            k.buf k.tail,
            k',
            rw (pop_scancode, some_code) refl,
            ap (λ m. codes_from k.buf m k.tail) (sym less)
                ∙ ap (λ i. k.buf i ∷ codes_from k.buf (waiting k') (k.tail + 1)) low
                ∙ ap (λ z. k.buf k.tail ∷ z)
                    (codes_from_wrap k.buf (waiting k') (k.tail + 1) next (omega arith)),
            record { head_low = h; tail_low = omega arith },
            less,
          )
    ]
