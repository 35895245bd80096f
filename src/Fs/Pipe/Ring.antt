-- ===== src/Fs/Pipe/Ring.antt =====
-- The ring buffer as a queue: the bytes between `head` and `head + len`, modulo the capacity.
use old_boruixkernel.Common.{
  ℕ, zero, suc, ◌+◌, ◌%◌, ◌≤◌, ◌<◌, ◌≡◌, ◌≢◌, refl, sym, ap, ap₂, ◌∙◌, List, [], ◌∷◌, ◌++◌, arith,
  length, get_or, set, length-set, get_or-set_self, append-nil, append_assoc, get_or-set_ne,
}
use old_boruixkernel.Fs.Pipe.{pipe_capacity, read_bytes, write_bytes}

-- The `n` bytes of the ring from `head` on.
unfoldable pub ring : List ℕ → ℕ → ℕ → List ℕ
ring buf head zero = []
ring buf head (suc n) = get_or buf (head % pipe_capacity) 0 ∷ ring buf (head + 1) n

pub length-ring : (buf : List ℕ) (head n : ℕ) → length (ring buf head n) ≡ n
unfolding ring
length-ring buf head zero = refl
length-ring buf head (suc n) = ap suc (length-ring buf (head + 1) n)

pub ring-mod : (buf : List ℕ) (head n : ℕ) → ring buf (head % pipe_capacity) n ≡ ring buf head n
unfolding ring
ring-mod buf head zero = refl
ring-mod buf head (suc n) =
    let here : (head % pipe_capacity) % pipe_capacity ≡ head % pipe_capacity = omega arith in
    let next : (head % pipe_capacity + 1) % pipe_capacity ≡ (head + 1) % pipe_capacity =
      omega arith in
    ap₂ (λ x xs. get_or buf x 0 ∷ xs) here
      (sym (ring-mod buf (head % pipe_capacity + 1) n)
        ∙ ap (λ x. ring buf x n) next
        ∙ ring-mod buf (head + 1) n)

-- Reading gives the bytes of the ring, and the head moves on.
pub read_bytes-ring :
    (n : ℕ) (buf : List ℕ) (head : ℕ)
    → head < pipe_capacity
    → ((read_bytes n buf head).0 ≡ ring buf head n)
      × ((read_bytes n buf head).1 ≡ (head + n) % pipe_capacity)
unfolding read_bytes ring
read_bytes-ring zero buf head h = (refl, omega arith)
read_bytes-ring (suc n) buf head h =
    let (bytes, last) = read_bytes-ring n buf ((head + 1) % pipe_capacity) (omega arith) in
    let here : head % pipe_capacity ≡ head = omega arith in
    (
      ap₂ (λ x xs. get_or buf x 0 ∷ xs) (sym here) (bytes ∙ ring-mod buf (head + 1) n),
      last ∙ omega arith,
    )

-- The ring splits at each place.
pub ring-split :
    (buf : List ℕ) (head m n : ℕ) → ring buf head (m + n) ≡ ring buf head m ++ ring buf (head + m) n
unfolding ring
ring-split buf head zero n = ap₂ (ring buf) (omega arith) (omega arith)
ring-split buf head (suc m) n =
    let e : suc m + n ≡ suc (m + n) = omega arith in
    let k : head + 1 + m ≡ head + suc m = omega arith in
    rw e (
      ap (λ xs. get_or buf (head % pipe_capacity) 0 ∷ xs)
        (ring-split buf (head + 1) m n ∙ ap (λ x. ring buf (head + 1) m ++ ring buf x n) k))

-- A write outside a part of the ring leaves that part.
ring-set :
    (buf : List ℕ) (head n i b : ℕ)
    → head + n ≤ i
    → i < head + pipe_capacity
    → ring (set buf (i % pipe_capacity) b) head n ≡ ring buf head n
unfolding ring
ring-set buf head zero i b h k = refl
ring-set buf head (suc n) i b h k =
    ap₂ (λ x xs. x ∷ xs)
      (get_or-set_ne buf (i % pipe_capacity) (head % pipe_capacity) b 0
        (apart head i (omega arith) (omega arith)))
      (ring-set buf (head + 1) n i b (omega arith) (omega arith))
  where
    apart : (x y : ℕ) → x < y → y < x + pipe_capacity → y % pipe_capacity ≢ x % pipe_capacity
    apart x y u v e = omega arith

-- Writing behind the first `n` bytes of the ring keeps those and puts the new ones after them.
pub write_bytes-ring :
    (bs : List ℕ) (base i head n : ℕ) (buf : List ℕ)
    → length buf ≡ pipe_capacity
    → head + n ≡ base + i
    → n + length bs ≤ pipe_capacity
    → ring (write_bytes bs base i buf) head (n + length bs) ≡ ring buf head n ++ bs
unfolding write_bytes
write_bytes-ring [] base i head n buf full at fits =
    ap (ring buf head) (omega arith) ∙ sym (append-nil (ring buf head n))
write_bytes-ring (b ∷ bs) base i head n buf full at fits =
    let buf' = set buf ((base + i) % pipe_capacity) b in
    let full' : length buf' ≡ pipe_capacity =
      length-set buf ((base + i) % pipe_capacity) b ∙ full in
    let ih = write_bytes-ring bs base (i + 1) head (n + 1) buf' full' (omega arith) (omega arith) in
    let old : ring buf' head n ≡ ring buf head n =
      ring-set buf head n (base + i) b (omega arith) (omega arith) in
    let last : get_or buf' ((head + n) % pipe_capacity) 0 ≡ b =
      rw at (get_or-set_self buf ((base + i) % pipe_capacity) b 0 (omega arith)) in
    let one : ring buf' (head + n) 1 ≡ b ∷ [] = unfold ring in ap (λ x. x ∷ []) last in
    let k : n + length (b ∷ bs) ≡ n + 1 + length bs = omega arith in
    ap (ring (write_bytes bs base (i + 1) buf') head) k
    ∙ ih
    ∙ ap (λ xs. xs ++ bs) (ring-split buf' head n 1 ∙ ap₂ (λ xs ys. xs ++ ys) old one)
    ∙ append_assoc (ring buf head n) (b ∷ []) bs

pub length-write_bytes :
    (bs : List ℕ) (base i : ℕ) (buf : List ℕ) → length (write_bytes bs base i buf) ≡ length buf
unfolding write_bytes
length-write_bytes [] base i buf = refl
length-write_bytes (b ∷ bs) base i buf =
    length-write_bytes bs base (i + 1) (set buf ((base + i) % pipe_capacity) b)
    ∙ length-set buf ((base + i) % pipe_capacity) b
