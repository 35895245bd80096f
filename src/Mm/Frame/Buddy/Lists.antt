-- ===== src/Mm/Frame/Buddy/Lists.antt =====
-- The free lists hold exactly the frames whose metadata says so, and `push_to_global` and the removal
-- of a frame keep that.
use old_boruixkernel.Common.{
  ℕ, ◌%◌, ◌≡◌, ◌≢◌, refl, sym, ◌∙◌, Bool, true, false, Option, none, some, List, [], ◌∷◌, ◌==◌,
  ◌&&◌, if◌then◌else◌, arith, Bool-cases, inl, inr, subst, ==_refl,
}
use old_boruixkernel.Mm.Frame.{Frames, shard_count, set_head, push_list}
use old_boruixkernel.Mm.Frame.Links.{
  has, Distinct, Chain, Chain-frame, is_link, Pushed, push_list-Pushed,
}
use old_boruixkernel.Mm.Frame.Erase.{is_link-clear}
use old_boruixkernel.Mm.Frame.Buddy.{is_global}

-- A frame is the first of a free block of the order.
abbrev pub is_free : Frames → ℕ → ℕ → Bool
is_free fs p order = is_global (fs p).state && ((fs p).order == order)

-- Each list runs through distinct frames, which are those that are free with its order in its shard.
pub record Linked (fs : Frames) (heads : ℕ → ℕ → Option ℕ) : Type 0 where
  pub lists : ℕ → ℕ → List ℕ
  pub chain : (o s : ℕ) → Chain fs none (heads o s) (lists o s)
  pub distinct : (o s : ℕ) → Distinct (lists o s)
  pub members : (o s p : ℕ) → has p (lists o s) ≡ (is_free fs p o && (p % shard_count == s))

module _ (fs fs' : Frames) (p order : ℕ) (head : Option ℕ) (u : Pushed p order head fs fs') where
  -- The list of the push.
  pushed-Chain :
      (xs : List ℕ)
      → Chain fs none head xs
      → Distinct xs
      → has p xs ≡ false
      → Chain fs' none (some p) (p ∷ xs)
  pushed-Chain [] e d out = (refl, u.prev_at, u.next_at ∙ e)
  pushed-Chain (x ∷ xs) (e, k, c) d out =
      let apart : x ≢ p = λ z. ground arith in
      let prev : (fs' x).prev ≡ some p = u.prev_links x apart ∙ rw (e, ==_refl x) refl in
      let next : (fs' x).next ≡ (fs x).next = u.next_links x apart in
      (
        refl,
        u.prev_at,
        (
          u.next_at ∙ e,
          prev,
          subst (λ n. Chain fs' (some x) n xs) (sym next)
              (Chain-frame fs fs' (some x) (fs x).next xs
                (λ j h.
                  let other : j ≢ p = λ z. ground arith in
                  let clear : is_link head j ≡ false =
                    is_link-clear head j (λ q z. ground (arith, sym e ∙ z)) in
                  (u.next_links j other, u.prev_links j other ∙ rw clear refl))
                c),
        ),
      )

  -- A list that the push does not touch.
  spared-Chain :
      (cur : Option ℕ) (xs : List ℕ)
      → Chain fs none cur xs
      → has p xs ≡ false
      → ((q : ℕ) → head ≡ some q → has q xs ≡ false)
      → Chain fs' none cur xs
  spared-Chain cur xs c out away =
      Chain-frame fs fs' none cur xs
        (λ j h.
          let other : j ≢ p = λ z. ground arith in
          let clear : is_link head j ≡ false =
            is_link-clear head j (λ q z. ground (arith, away q z)) in
          (u.next_links j other, u.prev_links j other ∙ rw clear refl))
        c

-- The head of a chain is in it.
pub head-has :
    (fs : Frames) (back cur : Option ℕ) (xs : List ℕ) (q : ℕ)
    → Chain fs back cur xs
    → cur ≡ some q
    → has q xs ≡ true
head-has fs back cur [] q c e = cc
head-has fs back cur (x ∷ xs) q (a, b, c) e = ground (arith, sym a ∙ e)

abbrev pushed_lists : ℕ → ℕ → (ℕ → ℕ → List ℕ) → ℕ → ℕ → List ℕ
pushed_lists p order lists o s =
    if o == order then (if s == p % shard_count then p ∷ lists o s else lists o s) else lists o s

module _ (fs : Frames) (heads : ℕ → ℕ → Option ℕ) (l : Linked fs heads) (p order : ℕ)
    (taken : is_global (fs p).state ≡ false) where
  pub absent : (o s : ℕ) → has p (l.lists o s) ≡ false
  absent o s = ground (arith, l.members o s p)

  -- A frame of one list is in no other.
  elsewhere :
      (o s o' s' q : ℕ)
      → has q (l.lists o s) ≡ true
      → (o == o') && (s == s') ≡ false
      → has q (l.lists o' s') ≡ false
  elsewhere o s o' s' q h ne = ground (arith, l.members o s q, l.members o' s' q)

  pub head_clear : (q : ℕ) → heads order (p % shard_count) ≡ some q → (q == p) ≡ false
  head_clear q e = ground (
    arith,
    head-has fs none (heads order (p % shard_count)) (l.lists order (p % shard_count)) q
        (l.chain order (p % shard_count)) e,
    absent order (p % shard_count),
  )

  -- A push keeps the lists.
  pub push_list-Linked :
      Linked
        (push_list p order (fs, heads order (p % shard_count))).0
        (set_head order (p % shard_count) (some p) heads)
  push_list-Linked =
      let shard = p % shard_count in
      let head = heads order shard in
      let xs = l.lists order shard in
      let fs' = (push_list p order (fs, head)).0 in
      let u : Pushed p order head fs fs' =
        push_list-Pushed p order head fs (is_link-clear head p head_clear) in
      record {
        lists = pushed_lists p order l.lists;
        chain = λ o s. elim (Bool-cases ((o == order) && (s == shard))) [
          | inl here ↦
              let oe : o ≡ order = ground arith in
              let se : s ≡ shard = ground arith in
              rw (oe, se, ==_refl order, ==_refl shard)
                (pushed-Chain fs fs' p order head u xs (l.chain order shard)
                  (l.distinct order shard) (absent order shard))
          | inr there ↦
              let eh : set_head order shard (some p) heads o s ≡ heads o s = ground arith in
              let el : pushed_lists p order l.lists o s ≡ l.lists o s = ground arith in
              subst (λ z. Chain fs' none (set_head order shard (some p) heads o s) z) (sym el)
                (subst (λ z. Chain fs' none z (l.lists o s)) (sym eh)
                  (spared-Chain fs fs' p order head u (heads o s) (l.lists o s) (l.chain o s)
                    (absent o s)
                    (λ q e.
                      elsewhere order shard o s q
                        (head-has fs none head xs q (l.chain order shard) e) (ground arith))))
        ];
        distinct = λ o s. ground (arith, l.distinct o s, absent o s);
        members = λ o s q. elim (Bool-cases (q == p)) [
          | inl self ↦
              let at : q ≡ p = ground arith in
              rw at (ground (arith, u.state_at, u.order_at, absent o s))
          | inr other ↦
              let ne : q ≢ p = λ z. ground arith in
              ground (arith, u.same_state q ne, u.same_order q ne, l.members o s q)
        ];
      }
