-- ===== src/Drivers/Keyboard/Reading.antt =====
-- `read_bytes` ends.
use old_boruixkernel.Common.{
  ℕ, zero, suc, ◌+◌, ◌%◌, ◌≤◌, ◌<◌, ◌≡◌, ◌≢◌, ◌⊎◌, refl, subst, Bool, false, Option, none, some,
  List, [], ◌∷◌, leb, ◌==◌, ==_iff, ◌&&◌, ◌||◌, arith, Bool-cases, inl, inr, length,
}
use old_boruixkernel.Drivers.Keyboard.{
  Keyboard, buf_size, pop_scancode, reset_input_state, handle_key_release, press, decode, emit,
  room_after, read_loop, read_bytes,
}
use old_boruixkernel.Drivers.Keyboard.Queue.{InRange, waiting, pop_scancode_lem}

-- The queue is as it was, or empty.
record Keeps (k k' : Keyboard) : Type 0 where
  same_head : k'.head ≡ k.head
  tail_of : (k'.tail ≡ k.tail) ⊎ (k'.tail ≡ k.head)

press-Keeps : (sc : ℕ) (k : Keyboard) → Keeps k (press sc k).0
unfolding press reset_input_state
press-Keeps sc k = elim (Bool-cases ((sc == 0x2A) || (sc == 0x36))) [
  | inl a ↦ rw (press, a) (record { same_head = refl; tail_of = inl refl })
  | inr a ↦ elim (Bool-cases (sc == 0x3A)) [
    | inl b ↦ rw (press, a, b) (record { same_head = refl; tail_of = inl refl })
    | inr b ↦ elim (Bool-cases (sc == 0x1D)) [
      | inl c ↦ rw (press, a, b, c) (record { same_head = refl; tail_of = inl refl })
      | inr c ↦ elim (Bool-cases ((sc == 0x13) && k.ctrl)) [
        | inl d ↦ rw (press, a, b, c, d) (record { same_head = refl; tail_of = inr refl })
        | inr d ↦ rw (press, a, b, c, d) (record { same_head = refl; tail_of = inl refl })
      ]
    ]
  ]
]

release-Keeps : (code : ℕ) (k : Keyboard) → Keeps k (handle_key_release code k)
unfolding handle_key_release
release-Keeps code k = record { same_head = refl; tail_of = inl refl }

decode-Keeps : (saw : Bool) (sc : ℕ) (k : Keyboard) → Keeps k (decode saw sc k).1
unfolding decode
decode-Keeps saw sc k = elim (Bool-cases ((sc == 0xE0) || (sc == 0xE1))) [
  | inl a ↦ rw (decode, a) (record { same_head = refl; tail_of = inl refl })
  | inr a ↦ elim (Bool-cases saw) [
    | inl b ↦ rw (decode, a, b) (release-Keeps sc k)
    | inr b ↦ elim (Bool-cases (sc == 0xF0)) [
      | inl c ↦ rw (decode, a, b, c) (record { same_head = refl; tail_of = inl refl })
      | inr c ↦ elim (Bool-cases (leb 0x80 (sc % 0x100))) [
        | inl d ↦ rw (decode, a, b, c, d) (release-Keeps (sc % 0x80) k)
        | inr d ↦ elim (Bool-cases (k.last_make == sc)) [
          | inl e ↦ rw (decode, a, b, c, d, e) (record { same_head = refl; tail_of = inl refl })
          | inr e ↦
              let p = press-Keeps sc (record k { last_make = sc }) in
              rw (decode, a, b, c, d, e) (record { same_head = p.same_head; tail_of = p.tail_of })
        ]
      ]
    ]
  ]
]

queue_after : (k k' : Keyboard) → Keeps k k' → InRange k → InRange k' × (waiting k' ≤ waiting k)
queue_after k k' s r =
    let h = r.head_low in
    let t = r.tail_low in
    let e = s.same_head in
    elim s.tail_of [
      | inl same ↦ (
        record { head_low = omega (arith, e); tail_low = omega (arith, same) },
        omega (arith, e, same),
      )
      | inr all ↦ (
        record { head_low = omega (arith, e); tail_low = omega (arith, all) },
        omega (arith, e, all),
      )
    ]

-- What a call gives: at most so many characters, and fewer only where no scancode is left.
abbrev pub Read : ℕ → Option (List ℕ × Keyboard) → Type 0
Read room r =
    (out : List ℕ) × (k' : Keyboard) × (r ≡ some (out, k'))
    × (length out ≤ room)
    × InRange k'
    × (length out < room → waiting k' ≡ 0)

emit-Read :
    (c : Option ℕ) (room : ℕ) (r : Option (List ℕ × Keyboard))
    → room ≢ 0
    → Read (room_after c room) r
    → Read room (emit c r)
emit-Read none room r some_room (out, k', e, n, i, w) = (out, k', rw e refl, n, i, w)
emit-Read (some c) room r some_room (out, k', e, n, i, w) = (
  c ∷ out,
  k',
  rw e refl,
  omega (arith, n, some_room),
  i,
  (λ lt. w (omega (arith, lt, some_room))),
)

no_codes : (k : Keyboard) → pop_scancode k ≡ none → waiting k ≡ 0
unfolding pop_scancode
no_codes k e = elim (Bool-cases (k.tail == k.head)) [
  | inl same ↦ omega (arith, (==_iff k.tail k.head).0 same)
  | inr differ ↦ absurd (
      let q : pop_scancode k ≡ some (k.buf k.tail, record k { tail = (k.tail + 1) % buf_size }) =
        rw (pop_scancode, differ) refl in
      cc)
]

read_loop-Read :
    (fuel room : ℕ) (saw : Bool) (k : Keyboard)
    → InRange k
    → waiting k < fuel
    → Read room (read_loop fuel room saw k)
unfolding read_loop
read_loop-Read zero room saw k r lt = absurd (omega arith)
read_loop-Read (suc fuel) room saw k r lt = elim (Bool-cases (room == 0)) [
  | inl full ↦
      let z = (==_iff room 0).0 full in
      ([], k, rw (read_loop, full) refl, omega arith, r, (λ l. absurd (omega (arith, l, z))))
  | inr space ↦
      let some_room : room ≢ 0 = λ e. ground (arith, space, (==_iff room 0).1 e) in
      elim (pop_scancode_lem k r) [
        | inl (empty, is_none) ↦
            ([], k, rw (read_loop, space, is_none) refl, omega arith, r, (λ l. no_codes k is_none))
        | inr (sc, k1, popped, first, r1, less) ↦
            let d = decode saw sc k1 in
            let (r2, fewer) = queue_after k1 d.1 (decode-Keeps saw sc k1) r1 in
            let step : emit d.2 (read_loop fuel (room_after d.2 room) d.0 d.1)
                ≡ read_loop (suc fuel) room saw k =
              rw (read_loop, space, popped) refl in
            subst (λ z. Read room z) step
              (emit-Read d.2 room (read_loop fuel (room_after d.2 room) d.0 d.1) some_room (
                read_loop-Read fuel (room_after d.2 room) d.0 d.1 r2
                  (omega (arith, fewer, less, lt))))
      ]
]

-- `read_bytes` ends: its loop takes no more than 256 rounds. It gives at most as many characters as there is
-- room for, and fewer only where it leaves no scancode.
pub read_bytes-Read : (room : ℕ) (k : Keyboard) → InRange k → Read room (read_bytes room k)
unfolding read_bytes
read_bytes-Read room k r = read_loop-Read buf_size room false k r (omega arith)
