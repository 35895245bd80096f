-- ===== src/Mm/Heap/Header.antt =====
-- Numbers and headers in the memory.
use old_boruixkernel.Common.{
  ℕ, zero, suc, ◌+◌, ◌/◌, ◌%◌, ◌^◌, ◌≤◌, ◌<◌, ◌≡◌, ◌⊎◌, refl, ◌∙◌, false, ◌==◌, ==_refl,
  if◌then◌else◌, arith, inl, inr,
}
use old_boruixkernel.Mm.Heap.{AllocHeader, write_le, read_le, write_header, read_header}

-- A write changes no byte outside its range.
pub write_le_beside :
    (n at v : ℕ) (bytes : ℕ → ℕ) (i : ℕ)
    → (i < at) ⊎ (at + n ≤ i)
    → write_le n at v bytes i ≡ bytes i
unfolding write_le
write_le_beside zero at v bytes i h = refl
write_le_beside (suc n) at v bytes i h =
    let other : (i == at) ≡ false = ground arith in
    write_le_beside n (at + 1) (v / 256) (λ j. if j == at then v % 256 else bytes j) i
      (elim h [ inl a ↦ inl (omega arith) | inr b ↦ inr (omega arith) ])
    ∙ rw other refl

-- A read depends on the bytes of its range only.
pub read_le_same :
    (n at : ℕ) (f g : ℕ → ℕ)
    → ((i : ℕ) → at ≤ i → i < at + n → f i ≡ g i)
    → read_le n at f ≡ read_le n at g
unfolding read_le
read_le_same zero at f g h = refl
read_le_same (suc n) at f g h =
    let rest = read_le_same n (at + 1) f g (λ i a b. h i (omega arith) (omega arith)) in
    let here = h at (omega arith) (omega arith) in omega (arith, rest, here)

pub read_le-write_le :
    (n at v : ℕ) (bytes : ℕ → ℕ) → v < 256 ^ n → read_le n at (write_le n at v bytes) ≡ v
unfolding read_le write_le
read_le-write_le zero at v bytes h = omega arith
read_le-write_le (suc n) at v bytes h =
    let after = λ (j : ℕ). if j == at then v % 256 else bytes j in
    let rest = read_le-write_le n (at + 1) (v / 256) after (omega arith) in
    let here : write_le n (at + 1) (v / 256) after at ≡ v % 256 =
      write_le_beside n (at + 1) (v / 256) after at (inl (omega arith)) ∙ rw (==_refl at) refl in
    omega (arith, rest, here)

-- A read beside a write.
read_le_beside :
    (n at k b v : ℕ) (bytes : ℕ → ℕ)
    → (at + n ≤ b) ⊎ (b + k ≤ at)
    → read_le n at (write_le k b v bytes) ≡ read_le n at bytes
read_le_beside n at k b v bytes h = read_le_same n at (write_le k b v bytes) bytes λ i x y.
    write_le_beside k b v bytes i (elim h [ inl a ↦ inl (omega arith) | inr a ↦ inr (omega arith) ])

-- Headers that fit the fields of the machine.
pub record Fits (h : AllocHeader) : Type 0 where
  pub magic_fits : h.magic < 256 ^ 4
  pub shard_fits : h.shard < 256 ^ 2
  pub base_fits : h.base < 256 ^ 8
  pub size_fits : h.size < 256 ^ 4
  pub align_fits : h.align < 256 ^ 4

pub read_header-write_header :
    (at : ℕ) (h : AllocHeader) (bytes : ℕ → ℕ)
    → Fits h
    → read_header at (write_header at h bytes) ≡ h
unfolding read_header write_header
read_header-write_header at h bytes f =
    let b1 = write_le 4 at h.magic bytes in
    let b2 = write_le 2 (at + 4) h.shard b1 in
    let b3 = write_le 2 (at + 6) 0 b2 in
    let b4 = write_le 8 (at + 8) h.base b3 in
    let b5 = write_le 4 (at + 16) h.size b4 in
    let last = λ (n a : ℕ) (o : (a + n ≤ at + 20) ⊎ (at + 20 + 4 ≤ a)).
      read_le_beside n a 4 (at + 20) h.align b5 o in
    let fifth = λ (n a : ℕ) (o : (a + n ≤ at + 16) ⊎ (at + 16 + 4 ≤ a)).
      read_le_beside n a 4 (at + 16) h.size b4 o in
    let fourth = λ (n a : ℕ) (o : (a + n ≤ at + 8) ⊎ (at + 8 + 8 ≤ a)).
      read_le_beside n a 8 (at + 8) h.base b3 o in
    let third =
      λ (n a : ℕ) (o : (a + n ≤ at + 6) ⊎ (at + 6 + 2 ≤ a)). read_le_beside n a 2 (at + 6) 0 b2 o in
    let e_align = read_le-write_le 4 (at + 20) h.align b5 f.align_fits in
    let e_size =
      last 4 (at + 16) (inl (omega arith)) ∙ read_le-write_le 4 (at + 16) h.size b4 f.size_fits in
    let e_base =
      last 8 (at + 8) (inl (omega arith))
      ∙ fifth 8 (at + 8) (inl (omega arith))
      ∙ read_le-write_le 8 (at + 8) h.base b3 f.base_fits in
    let e_shard =
      last 2 (at + 4) (inl (omega arith))
      ∙ fifth 2 (at + 4) (inl (omega arith))
      ∙ fourth 2 (at + 4) (inl (omega arith))
      ∙ third 2 (at + 4) (inl (omega arith))
      ∙ read_le-write_le 2 (at + 4) h.shard b1 f.shard_fits in
    let e_magic =
      last 4 at (inl (omega arith))
      ∙ fifth 4 at (inl (omega arith))
      ∙ fourth 4 at (inl (omega arith))
      ∙ third 4 at (inl (omega arith))
      ∙ read_le_beside 4 at 2 (at + 4) h.shard b1 (inl (omega arith))
      ∙ read_le-write_le 4 at h.magic bytes f.magic_fits in
    rw (e_align, e_size, e_base, e_shard, e_magic) refl

-- A header depends on its 24 bytes only.
pub read_header_same :
    (at : ℕ) (f g : ℕ → ℕ)
    → ((i : ℕ) → at ≤ i → i < at + 24 → f i ≡ g i)
    → read_header at f ≡ read_header at g
unfolding read_header
read_header_same at f g h =
    let part = λ (n k : ℕ) (o : k + n ≤ 24).
      read_le_same n (at + k) f g (λ i a b. h i (omega arith) (omega arith)) in
    let first = read_le_same 4 at f g (λ i a b. h i (omega arith) (omega arith)) in
    rw
      (
        first,
        part 2 4 (omega arith),
        part 8 8 (omega arith),
        part 4 16 (omega arith),
        part 4 20 (omega arith),
      )
      refl

-- A header that is written changes no byte outside its 24.
pub write_header_beside :
    (at : ℕ) (h : AllocHeader) (bytes : ℕ → ℕ) (i : ℕ)
    → (i < at) ⊎ (at + 24 ≤ i)
    → write_header at h bytes i ≡ bytes i
unfolding write_header
write_header_beside at h bytes i o =
    let b1 = write_le 4 at h.magic bytes in
    let b2 = write_le 2 (at + 4) h.shard b1 in
    let b3 = write_le 2 (at + 6) 0 b2 in
    let b4 = write_le 8 (at + 8) h.base b3 in
    let b5 = write_le 4 (at + 16) h.size b4 in
    let skip = λ (n k v : ℕ) (b : ℕ → ℕ) (le : k + n ≤ 24).
      write_le_beside n (at + k) v b i
        (elim o [ inl x ↦ inl (omega arith) | inr x ↦ inr (omega arith) ]) in
    skip 4 20 h.align b5 (omega arith)
    ∙ skip 4 16 h.size b4 (omega arith)
    ∙ skip 8 8 h.base b3 (omega arith)
    ∙ skip 2 6 0 b2 (omega arith)
    ∙ skip 2 4 h.shard b1 (omega arith)
    ∙ write_le_beside 4 at h.magic bytes i
        (elim o [ inl x ↦ inl (omega arith) | inr x ↦ inr (omega arith) ])
