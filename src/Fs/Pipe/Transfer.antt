-- ===== src/Fs/Pipe/Transfer.antt =====
-- A pipe as a queue of bytes: what a round of `read` takes and a round of `write` adds, and what comes
-- out of a pipe after any sequence of rounds.
use old_boruixkernel.Common.{
  ℕ, ◌+◌, ◌-◌, ◌≤◌, ◌<◌, ◌≡◌, ◌≢◌, ◌⊎◌, refl, sym, ap, ap₂, ◌∙◌, Bool, true, false, List, [], ◌∷◌,
  ◌++◌, arith, ltb, ◌==◌, min, length, take, length-take, append_assoc, lt→ltb, Bool-cases, inl,
  inr, ltb→lt, ltb→ge, length-replicate,
}
use old_boruixkernel.Fs.Pipe.{
  PipeInner, pipe_capacity, create_pair, read_round, ReadRound, got, write_round, WriteRound, wrote,
  close, read_bytes, write_bytes,
}
use old_boruixkernel.Fs.Pipe.Ring.{
  ring, length-ring, read_bytes-ring, ring-split, ring-mod, write_bytes-ring, length-write_bytes,
}

pub record IsValid (p : PipeInner) : Type 0 where
  pub full : length p.buf ≡ pipe_capacity
  pub head : p.head < pipe_capacity
  pub len : p.len ≤ pipe_capacity

-- The bytes in the pipe, the next to be read first.
pub contents : PipeInner → List ℕ
contents p = ring p.buf p.head p.len

-- A round of `read` on a pipe that holds bytes returns the first of them, as many as the buffer takes
-- and the pipe has, and leaves the rest.
pub read_round_lem :
    (want : ℕ) (p : PipeInner)
    → IsValid p
    → 0 < p.len
    → let p' = (read_round false want p).0 in
      (bytes : List ℕ) × ((read_round false want p).1 ≡ got bytes)
      × (contents p ≡ bytes ++ contents p')
      × (length bytes ≡ min want p.len)
      × IsValid p'
      × (p'.readers ≡ p.readers)
      × (p'.writers ≡ p.writers)
unfolding read_round contents
read_round_lem want p v some_there =
    let n = min want p.len in
    let (bytes, last) = read_bytes-ring n p.buf p.head v.head in
    let whole : n + (p.len - n) ≡ p.len = omega arith in
    rw (lt→ltb 0 p.len some_there) (
      (read_bytes n p.buf p.head).0,
      refl,
      ap (ring p.buf p.head) (sym whole)
          ∙ ring-split p.buf p.head n (p.len - n)
          ∙ ap₂ (λ xs ys. xs ++ ys) (sym bytes)
              (sym (
                ap (λ x. ring p.buf x (p.len - n)) last ∙ ring-mod p.buf (p.head + n) (p.len - n))),
      ap length bytes ∙ length-ring p.buf p.head n,
      record { full = v.full; head = omega arith; len = omega arith },
      refl,
      refl,
    )

-- A round of `write` on a pipe with room and a reader takes as many bytes as there is room for, and
-- puts them after those in the pipe.
pub write_round_lem :
    (bytes : List ℕ) (p : PipeInner)
    → IsValid p
    → p.readers ≢ 0
    → p.len < pipe_capacity
    → let p' = (write_round true bytes p).0 in
      let n = min (pipe_capacity - p.len) (length bytes) in
      ((write_round true bytes p).1 ≡ wrote n)
      × (contents p' ≡ contents p ++ take n bytes)
      × IsValid p'
      × (p'.readers ≡ p.readers)
      × (p'.writers ≡ p.writers)
unfolding write_round contents
write_round_lem bytes p v heard room =
    let n = min (pipe_capacity - p.len) (length bytes) in
    let reader : (p.readers == 0) ≡ false = ground arith in
    let space : (pipe_capacity - p.len == 0) ≡ false = ground arith in
    let count : length (take n bytes) ≡ n = omega (arith, length-take n bytes) in
    let added =
      write_bytes-ring (take n bytes) (p.head + p.len) 0 p.head p.len p.buf v.full (omega arith)
        (omega arith) in
    rw (reader, space)
      (
        refl,
        ap (ring (write_bytes (take n bytes) (p.head + p.len) 0 p.buf) p.head) (omega arith)
            ∙ added,
        record {
          full = length-write_bytes (take n bytes) (p.head + p.len) 0 p.buf ∙ v.full;
          head = v.head;
          len = omega arith;
        },
        refl,
        refl,
      )

-- What the processes on the two ends do, a round at a time and in any order.
pub data Act : Type 0 where
  reads : ℕ → Act
  writes : List ℕ → Act
  closes : Bool → Act

-- A pipe with the bytes that have gone into it and those that have come out.
pub record Traffic : Type 0 where
  pub pipe : PipeInner
  pub sent : List ℕ
  pub received : List ℕ

abbrev after_read : Traffic → PipeInner × ReadRound → Traffic
after_read t (p, got bytes) = record t { pipe = p; received = t.received ++ bytes }
after_read t (p, _) = record t { pipe = p }

abbrev after_write : Traffic → List ℕ → PipeInner × WriteRound → Traffic
after_write t bytes (p, wrote n) = record t { pipe = p; sent = t.sent ++ take n bytes }
after_write t bytes (p, _) = record t { pipe = p }

pub step : Traffic → Act → Traffic
step t (reads want) = after_read t (read_round false want t.pipe)
step t (writes bytes) = after_write t bytes (write_round true bytes t.pipe)
step t (closes end) = record t { pipe = close end t.pipe }

pub run : Traffic → List Act → Traffic
run t [] = t
run t (a ∷ acts) = run (step t a) acts

-- Every byte that went in has come out or is in the pipe, in order.
pub record IsFifo (t : Traffic) : Type 0 where
  pub valid : IsValid t.pipe
  pub order : t.sent ≡ t.received ++ contents t.pipe

-- The rounds that move no byte.
read_round_idle :
    (want : ℕ) (t : Traffic) → t.pipe.len ≡ 0 → after_read t (read_round false want t.pipe) ≡ t
unfolding read_round
read_round_idle want t e = ground arith

write_round_idle :
    (bytes : List ℕ) (t : Traffic)
    → (t.pipe.readers ≡ 0) ⊎ (pipe_capacity ≤ t.pipe.len)
    → after_write t bytes (write_round true bytes t.pipe) ≡ t
unfolding write_round
write_round_idle bytes t e = ground arith

close-IsFifo : (t : Traffic) (end : Bool) → IsFifo t → IsFifo (record t { pipe = close end t.pipe })
unfolding close contents
close-IsFifo t true f = elim (Bool-cases (ltb 0 t.pipe.writers)) [
  | inl y ↦ rw y (record {
    valid = record { full = f.valid.full; head = f.valid.head; len = f.valid.len };
    order = f.order;
  })
  | inr n ↦ rw n (record { valid = f.valid; order = f.order })
]
close-IsFifo t false f = elim (Bool-cases (ltb 0 t.pipe.readers)) [
  | inl y ↦ rw y (record {
    valid = record { full = f.valid.full; head = f.valid.head; len = f.valid.len };
    order = f.order;
  })
  | inr n ↦ rw n (record { valid = f.valid; order = f.order })
]

step-IsFifo : (t : Traffic) (a : Act) → IsFifo t → IsFifo (step t a)
unfolding step
step-IsFifo t (reads want) f = elim (Bool-cases (ltb 0 t.pipe.len)) [
  | inr n ↦ rw (read_round_idle want t (omega (arith, ltb→ge 0 t.pipe.len n))) f
  | inl y ↦
      let (bytes, e, c, k, v, _, _) = read_round_lem want t.pipe f.valid (ltb→lt 0 t.pipe.len y) in
      rw e (record {
        valid = v;
        order = f.order ∙ ap (λ xs. t.received ++ xs) c ∙ sym (append_assoc t.received bytes _);
      })
]
step-IsFifo t (writes bytes) f = elim (Bool-cases (t.pipe.readers == 0)) [
  | inl y ↦ rw (write_round_idle bytes t (inl (ground arith))) f
  | inr n ↦ elim (Bool-cases (ltb t.pipe.len pipe_capacity)) [
    | inr m ↦ rw (write_round_idle bytes t (inr (ltb→ge t.pipe.len pipe_capacity m))) f
    | inl room ↦
        let (e, c, v, _, _) =
          write_round_lem bytes t.pipe f.valid (λ q. ground arith)
            (ltb→lt t.pipe.len pipe_capacity room) in
        rw e (record {
          valid = v;
          order =
              ap (λ xs. xs ++ take (min (pipe_capacity - t.pipe.len) (length bytes)) bytes) f.order
              ∙ append_assoc t.received (contents t.pipe) _
              ∙ ap (λ xs. t.received ++ xs) (sym c);
        })
  ]
]
step-IsFifo t (closes end) f = close-IsFifo t end f

-- Over any sequence of rounds, by any readers and writers, the bytes that have come out followed by
-- those in the pipe are the bytes that have gone in, and the ring stays within its buffer.
pub run-IsFifo : (acts : List Act) (t : Traffic) → IsFifo t → IsFifo (run t acts)
unfolding run
run-IsFifo [] t f = f
run-IsFifo (a ∷ acts) t f = run-IsFifo acts (step t a) (step-IsFifo t a f)

-- A pipe as `pipefs_create_pair` makes it.
pub create_pair-IsFifo : IsFifo (record { pipe = create_pair; sent = []; received = [] })
unfolding create_pair contents ring
create_pair-IsFifo = record {
  valid = record {
    full = length-replicate {A = ℕ} pipe_capacity 0;
    head = omega arith;
    len = omega arith;
  };
  order = refl;
}
