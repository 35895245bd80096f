-- ===== src/Fs/Pipe.antt =====
-- Pipes, kernel_fs/src/fs/pipefs.rs. `PipeFs::read` and `PipeFs::write` hold the lock for one round of
-- their loops at a time; such a round is an operation here, and `must_wait` is where the round ends in
-- `wait()` on a wait queue. A buffer that is read into is the list of the bytes read.
pub mod Ring
pub mod Transfer
mod Examples
use old_boruixkernel.Common.{
  ℕ, zero, suc, ◌+◌, ◌-◌, ◌%◌, Bool, true, false, List, [], ◌∷◌, ◌++◌, ltb, ◌==◌, if◌then◌else◌,
  min, length, get_or, set, take, drop, replicate,
}

abbrev pub pipe_capacity : ℕ
pipe_capacity = 4096

pub record PipeInner : Type 0 where
  pub buf : List ℕ
  pub head : ℕ
  pub len : ℕ
  pub readers : ℕ
  pub writers : ℕ

unfoldable pub new : PipeInner
new = record { buf = replicate pipe_capacity 0; head = 0; len = 0; readers = 0; writers = 0 }

-- `pipefs_create_pair`, without the two nodes.
unfoldable pub create_pair : PipeInner
unfolding new
create_pair = record new { readers = 1; writers = 1 }

-- The `for` loop of `read`, from `inner.head` with `n` rounds left: the bytes and the new head.
unfoldable pub read_bytes : ℕ → List ℕ → ℕ → List ℕ × ℕ
read_bytes zero buf head = ([], head)
read_bytes (suc n) buf head =
    let (rest, last) = read_bytes n buf ((head + 1) % pipe_capacity) in
    (get_or buf head 0 ∷ rest, last)

-- The `for` loop of `write`: `base` is `inner.head + inner.len`, and `i` the round.
unfoldable pub write_bytes : List ℕ → ℕ → ℕ → List ℕ → List ℕ
write_bytes [] base i buf = buf
write_bytes (b ∷ bs) base i buf =
    write_bytes bs base (i + 1) (set buf ((base + i) % pipe_capacity) b)

pub data ReadRound : Type 0 where
  got : List ℕ → ReadRound
  eof must_wait wrong_end : ReadRound

-- One round of `read` at an end of the pipe (`write` says which) into a buffer of `want` bytes.
unfoldable pub read_round : Bool → ℕ → PipeInner → PipeInner × ReadRound
unfolding read_bytes
read_round true want p = (p, wrong_end)
read_round false want p =
    if ltb 0 p.len
    then (let n = min want p.len in
        let (bytes, last) = read_bytes n p.buf p.head in
        (record p { head = last; len = p.len - n }, got bytes))
    else if p.writers == 0
    then (p, eof)
    else (p, must_wait)

pub data WriteRound : Type 0 where
  wrote : ℕ → WriteRound
  io_error must_wait wrong_end : WriteRound

-- One round of `write` with the bytes that are left.
unfoldable pub write_round : Bool → List ℕ → PipeInner → PipeInner × WriteRound
unfolding write_bytes
write_round false bytes p = (p, WriteRound.wrong_end)
write_round true bytes p =
    if p.readers == 0
    then (p, io_error)
    else (let avail = pipe_capacity - p.len in
        if avail == 0
        then (p, WriteRound.must_wait)
        else (let n = min avail (length bytes) in
            (
              record p {
                buf = write_bytes (take n bytes) (p.head + p.len) 0 p.buf;
                len = p.len + n;
              },
              wrote n,
            )))

-- `close`, without the wake-ups.
unfoldable pub close : Bool → PipeInner → PipeInner
close true p = if ltb 0 p.writers then record p { writers = p.writers - 1 } else p
close false p = if ltb 0 p.readers then record p { readers = p.readers - 1 } else p
