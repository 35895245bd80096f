-- ===== src/Mm/Heap/Blocks.antt =====
-- The block of the caller, and the header before it.
use native.Mathlib.Nat.{mul-mod_right, div-add-mod}
use old_boruixkernel.Common.{
  ℕ, ◌+◌, ◌-◌, ◌*◌, ◌/◌, ◌%◌, ◌^◌, ◌≤◌, ◌<◌, ◌≡◌, ◌≢◌, ◌⊎◌, refl, sym, ap, ◌∙◌, subst, true, false,
  none, some, ltb, leb, ◌==◌, ◌&&◌, arith, Bool-cases, Option-cases, inl, inr,
}
use old_boruixkernel.Mm.Heap.{
  heap_shards, header_size, Layout, power_below, from_size_align, write_header, read_header,
  ShardedHeap, Buddy, wide_align, wide_layout, clear_low, user_start, header_of, place,
  alloc_with_header, dealloc_with_header, dealloc_header,
}
use old_boruixkernel.Mm.Heap.Header.{
  Fits, read_header-write_header, read_header_same, write_header_beside,
}

clear_low_lem :
    (a x : ℕ) → 0 < a → (clear_low a x % a ≡ 0) × (clear_low a x ≤ x) × (x < clear_low a x + a)
clear_low_lem a x h =
    let e : clear_low a x ≡ a * (x / a) = omega (arith, div-add-mod x a) in
    (ap (λ z. z % a) e ∙ mul-mod_right a (x / a), omega arith, omega arith)

from_size_align_same :
    (size align : ℕ) (l : Layout)
    → from_size_align size align ≡ some l
    → (l.size ≡ size) × (l.align ≡ align) × (from_size_align l.size l.align ≡ some l)
unfolding from_size_align
from_size_align_same size align l e =
    elim (Bool-cases (power_below 64 align && leb (size + align) (2 ^ 63))) [
      | inr bad ↦
          absurd (let k : from_size_align size align ≡ none = rw (from_size_align, bad) refl in cc)
      | inl good ↦
          let k : from_size_align size align ≡ some (record { size = size; align = align }) =
            rw (from_size_align, good) refl in
          let same : record { size = size; align = align } ≡ l = cc in
          (
            ap (λ z. z.size) (sym same),
            ap (λ z. z.align) (sym same),
            subst (λ z. from_size_align z.size z.align ≡ some z) same k,
          )
    ]

pub wide_layout_lem :
    (layout l : Layout)
    → wide_layout layout ≡ some l
    → (l.size ≡ layout.size + (header_size + wide_align layout))
      × (l.align ≡ wide_align layout)
      × (from_size_align l.size l.align ≡ some l)
unfolding wide_layout
wide_layout_lem layout l e =
    elim (Bool-cases (ltb (layout.size + (header_size + wide_align layout)) (2 ^ 64))) [
      | inr bad ↦ absurd (let k : wide_layout layout ≡ none = rw (wide_layout, bad) refl in cc)
      | inl good ↦
          let k : from_size_align (layout.size + (header_size + wide_align layout))
                (wide_align layout)
              ≡ wide_layout layout =
            rw (wide_layout, good) refl in
          from_size_align_same (layout.size + (header_size + wide_align layout)) (wide_align layout)
            l (k ∙ e)
    ]

-- A block that the crate gives lies in the addresses of the machine.
abbrev pub InMemory : {H : Type 0} → Buddy H → Type 0
InMemory {H} buddy =
    (i : ℕ) (l : Layout) (s s' : H) (b b' : ℕ → ℕ) (base : ℕ)
    → buddy.heap_alloc i l s b ≡ (base, s', b')
    → base ≢ 0
    → base + l.size ≤ 2 ^ 64

-- Where the block of the caller lies in that of the heap.
pub user_start_lem :
    (layout l : Layout) (base : ℕ)
    → wide_layout layout ≡ some l
    → base + l.size ≤ 2 ^ 64
    → let p = user_start l.align base in
      (p % wide_align layout ≡ 0) × (base + header_size ≤ p) × (p + layout.size ≤ base + l.size)
user_start_lem layout l base e fits =
    let (size, align, f) = wide_layout_lem layout l e in
    let wide : 8 ≤ l.align = omega (arith, align) in
    let x : (base + header_size + (l.align - 1)) % 2 ^ 64 ≡ base + header_size + (l.align - 1) =
      omega (arith, size, align) in
    let (m, below, above) =
      clear_low_lem l.align (base + header_size + (l.align - 1)) (omega arith) in
    rw x (
      subst (λ a. clear_low l.align (base + header_size + (l.align - 1)) % a ≡ 0) align m,
      omega arith,
      omega (arith, size, align),
    )

module _ {H : Type 0} (buddy : Buddy H) where
  -- What a success of `alloc_with_header` has done.
  pub record Placed (shard : ℕ) (layout : Layout) (w : ShardedHeap H) (p : ℕ) (w' : ShardedHeap H)
      : Type 0 where
    pub whole : Layout
    pub base : ℕ
    pub is_whole : wide_layout layout ≡ some whole
    pub left : ℕ → ℕ
    pub given : buddy.heap_alloc shard whole w.store w.bytes ≡ (base, w'.store, left)
    pub place_of : p ≡ user_start whole.align base
    pub aligned : p % wide_align layout ≡ 0
    pub after_header : base + header_size ≤ p
    pub inside : p + layout.size ≤ base + whole.size
    pub below : base + whole.size ≤ 2 ^ 64
    pub header : w'.bytes ≡ write_header (p - header_size) (header_of buddy shard whole base) left
    pub beside : (i : ℕ) → (i < p - header_size) ⊎ (p ≤ i) → w'.bytes i ≡ left i

  placed :
      (shard : ℕ) (layout l : Layout) (w : ShardedHeap H) (p : ℕ) (w' : ShardedHeap H) (base : ℕ)
      (s : H) (b : ℕ → ℕ)
      → InMemory buddy
      → wide_layout layout ≡ some l
      → buddy.heap_alloc shard l w.store w.bytes ≡ (base, s, b)
      → place buddy shard l w (base, s, b) ≡ (p, w')
      → p ≢ 0
      → Placed shard layout w p w'
  placed shard layout l w p w' base s b laws e g h some_p = elim (Bool-cases (base == 0)) [
    | inl null ↦ absurd (
        let k : place buddy shard l w (base, s, b) ≡ (0, record w { store = s; bytes = b }) =
          rw null refl in
        some_p (ap (λ r. r.0) (sym h ∙ k)))
    | inr full ↦
        let at = user_start l.align base in
        let bytes = write_header (at - header_size) (header_of buddy shard l base) b in
        let k : place buddy shard l w (base, s, b) ≡ (at, record w { store = s; bytes = bytes }) =
          rw full refl in
        let q : at ≡ p = ap (λ r. r.0) (sym k ∙ h) in
        let v : record w { store = s; bytes = bytes } ≡ w' = ap (λ r. r.1) (sym k ∙ h) in
        let below = laws shard l w.store s w.bytes b base g (λ z. ground arith) in
        let (multiple, after, within) = user_start_lem layout l base e below in
        record {
          whole = l;
          base = base;
          is_whole = e;
          left = b;
          given = g ∙ ap (λ z. (base, z, b)) (ap (λ z. z.store) v);
          place_of = sym q;
          aligned = subst (λ z. z % wide_align layout ≡ 0) q multiple;
          after_header = omega (arith, q, after);
          inside = omega (arith, q, within);
          below = below;
          header =
              ap (λ z. z.bytes) (sym v)
              ∙ ap (λ z. write_header (z - header_size) (header_of buddy shard l base) b) q;
          beside = λ i o.
              ap (λ z. z.bytes i) (sym v)
              ∙ write_header_beside (at - header_size) (header_of buddy shard l base) b i (elim o [
                | inl x ↦ inl (omega (arith, q))
                | inr x ↦ inr (omega (arith, q, after))
              ]);
        }
  ]

  -- A pointer that `alloc_with_header` gives is a multiple of the alignment, and of 8 at least. The block of
  -- the caller and the header before it lie in the block that the heap has given. The header is written over
  -- the memory as the call of the heap leaves it, and no other byte of that changes. The blocks of the heap
  -- lie in memory.
  pub alloc_with_header-Placed :
      (shard : ℕ) (layout : Layout) (w : ShardedHeap H) (p : ℕ) (w' : ShardedHeap H)
      → InMemory buddy
      → alloc_with_header buddy shard layout w ≡ (p, w')
      → p ≢ 0
      → Placed shard layout w p w'
  unfolding alloc_with_header
  alloc_with_header-Placed shard layout w p w' laws e some_p =
      elim (Option-cases (wide_layout layout)) [
        | inl too_big ↦ absurd (
            let k : alloc_with_header buddy shard layout w ≡ (0, w) =
              rw (alloc_with_header, too_big) refl in
            some_p (ap (λ r. r.0) (sym e ∙ k)))
        | inr (l, is) ↦
            let r = buddy.heap_alloc shard l w.store w.bytes in
            let k : place buddy shard l w r ≡ alloc_with_header buddy shard layout w =
              rw (alloc_with_header, is) refl in
            placed shard layout l w p w' r.0 r.1 r.2 laws is refl (k ∙ e) some_p
      ]

  -- A pointer that `alloc_with_header` has given, passed to `dealloc_with_header` at any later time with the 24
  -- bytes of the header as they were, gives back to the same heap the block that it gave, with the layout
  -- that it was asked for. The block is shorter than 4 GiB, and the blocks of the heap lie in memory.
  pub dealloc_with_header-alloc_with_header :
      (shard : ℕ) (layout : Layout) (w : ShardedHeap H) (p : ℕ) (w' later : ShardedHeap H)
      → InMemory buddy
      → shard ≤ heap_shards
      → layout.size + (header_size + wide_align layout) < 2 ^ 32
      → alloc_with_header buddy shard layout w ≡ (p, w')
      → p ≢ 0
      → ((i : ℕ) → p - header_size ≤ i → i < p → later.bytes i ≡ w'.bytes i)
      → (whole : Layout) × (base : ℕ) × (left : ℕ → ℕ) × (buddy.heap_alloc shard whole w.store
            w.bytes
          ≡ (base, w'.store, left))
        × (dealloc_with_header buddy p later
            ≡ some (record later {
              store = (buddy.heap_dealloc shard base whole later.store later.bytes).0;
              bytes = (buddy.heap_dealloc shard base whole later.store later.bytes).1;
            }))
  unfolding dealloc_with_header dealloc_header
  dealloc_with_header-alloc_with_header shard layout w p w' later laws known short e some_p kept =
      let r = alloc_with_header-Placed shard layout w p w' laws e some_p in
      let (size, align, valid) = wide_layout_lem layout r.whole r.is_whole in
      let h = header_of buddy shard r.whole r.base in
      let fits : Fits h = record {
        magic_fits = omega arith;
        shard_fits = omega (arith, known);
        base_fits = omega (arith, r.below, size);
        size_fits = omega arith;
        align_fits = omega arith;
      } in
      let reads : read_header (p - header_size) later.bytes ≡ h =
        read_header_same (p - header_size) later.bytes w'.bytes
          (λ i a b. kept i a (omega (arith, r.after_header)))
        ∙ ap (λ z. read_header (p - header_size) z) r.header
        ∙ read_header-write_header (p - header_size) h r.left fits in
      let full : (p == 0) ≡ false = ground arith in
      let s : r.whole.size % 2 ^ 32 ≡ r.whole.size = omega (arith, size) in
      let a : r.whole.align % 2 ^ 32 ≡ r.whole.align = omega (arith, align) in
      let k : leb shard heap_shards ≡ true = ground arith in
      let first : dealloc_header buddy (read_header (p - header_size) later.bytes) later
          ≡ dealloc_with_header buddy p later =
        rw (dealloc_with_header, full) refl in
      let back : dealloc_header buddy h later
          ≡ some (record later {
            store = (buddy.heap_dealloc shard r.base r.whole later.store later.bytes).0;
            bytes = (buddy.heap_dealloc shard r.base r.whole later.store later.bytes).1;
          }) =
        rw (dealloc_header, s, a, valid, k) refl in
      (
        r.whole,
        r.base,
        r.left,
        r.given,
        sym first ∙ ap (λ z. dealloc_header buddy z later) reads ∙ back,
      )
