-- ===== src/Mm/Frame/Buddy/Detach.antt =====
-- `detach` takes a frame out of its free list and keeps the others.
use old_boruixkernel.Common.{
  ℕ, ◌≡◌, ◌≢◌, refl, sym, ◌∙◌, true, false, Option, none, List, ◌==◌, ◌&&◌, if◌then◌else◌, arith,
  Bool-cases, inl, inr, subst, ==_refl,
}
use old_boruixkernel.Mm.Frame.{Frames, set_head, claim, remove_from_list}
use old_boruixkernel.Mm.Frame.Links.{
  has, Chain, erase, Chain-frame, starts, next-has, before, first, later, is_link, Unlinked,
  remove_from_list-Unlinked, remove_from_list-head,
}
use old_boruixkernel.Mm.Frame.Erase.{has-erase, Distinct-erase, Chain-erase, is_link-clear}
use old_boruixkernel.Mm.Frame.Buddy.Lists.{Linked}

abbrev erased_lists : ℕ → ℕ → ℕ → (ℕ → ℕ → List ℕ) → ℕ → ℕ → List ℕ
erased_lists p order shard lists o s =
    if o == order then (if s == shard then erase p (lists o s) else lists o s) else lists o s

-- The claim of the frame that has left its list.
pub claim-Unlinked : (p : ℕ) (fs fs' : Frames) → Unlinked p fs fs' → Unlinked p fs (claim p fs')
claim-Unlinked p fs fs' u = record {
  same_state = λ j ne. ground (arith, u.same_state j ne);
  same_order = λ j ne. ground (arith, u.same_order j ne);
  next_links = λ j ne. ground (arith, u.next_links j ne);
  prev_links = λ j ne. ground (arith, u.prev_links j ne);
}

module _ (fs : Frames) (heads : ℕ → ℕ → Option ℕ) (l : Linked fs heads) (p order shard : ℕ)
    (inside : has p (l.lists order shard) ≡ true) where
  unfoldable pub detached : Frames
  detached = claim p (remove_from_list p (fs, heads order shard)).0

  pub unlinked : Unlinked p fs detached
  unfolding detached
  unlinked =
      claim-Unlinked p fs (remove_from_list p (fs, heads order shard)).0
        (remove_from_list-Unlinked p fs (heads order shard))

  new_head :
      (remove_from_list p (fs, heads order shard)).1
      ≡ (if starts p (l.lists order shard) then (fs p).next else heads order shard)
  new_head =
      remove_from_list-head p fs (heads order shard)
      ∙ elim (before fs none (heads order shard) (l.lists order shard) p (l.chain order shard)
          inside) [ first e k ↦ rw (e, k) refl | later q e k i ↦ rw (e, k) refl ]

  -- A list without the frame.
  other-Chain :
      (cur : Option ℕ) (xs : List ℕ)
      → Chain fs none cur xs
      → ((j : ℕ) → has j xs ≡ true → has j (l.lists order shard) ≡ false)
      → Chain detached none cur xs
  other-Chain cur xs c apart =
      Chain-frame fs detached none cur xs
        (λ j h.
          let out = apart j h in
          let ne : j ≢ p = λ z. ground arith in
          let chain = l.chain order shard in
          let no_next : is_link (fs p).next j ≡ false = is_link-clear (fs p).next j (λ q z. ground (
            arith,
            next-has fs none (heads order shard) (l.lists order shard) p q chain inside z,
          )) in
          let no_prev : is_link (fs p).prev j ≡ false = is_link-clear (fs p).prev j (λ q z.
            elim (before fs none (heads order shard) (l.lists order shard) p chain inside) [
              | first e k ↦ ground (arith, sym k ∙ z)
              | later q' e k i ↦ ground (arith, sym k ∙ z)
            ]) in
          (unlinked.next_links j ne ∙ rw no_prev refl, unlinked.prev_links j ne ∙ rw no_next refl))
        c

  -- The removal of a frame keeps the lists.
  pub detach-Linked :
      Linked detached (set_head order shard (remove_from_list p (fs, heads order shard)).1 heads)
  unfolding detached
  detach-Linked = record {
    lists = erased_lists p order shard l.lists;
    chain = λ o s. elim (Bool-cases ((o == order) && (s == shard))) [
      | inl here ↦
          let oe : o ≡ order = ground arith in
          let se : s ≡ shard = ground arith in
          rw (oe, se, ==_refl order, ==_refl shard, new_head)
            (Chain-erase fs detached p unlinked none (heads order shard) (l.lists order shard)
              (l.chain order shard) (l.distinct order shard) inside (λ q z. cc))
      | inr there ↦
          let eh : set_head order shard (remove_from_list p (fs, heads order shard)).1 heads o s
              ≡ heads o s =
            ground arith in
          let el : erased_lists p order shard l.lists o s ≡ l.lists o s = ground arith in
          subst
            (λ z.
              Chain detached none
                (set_head order shard (remove_from_list p (fs, heads order shard)).1 heads o s) z)
            (sym el)
            (subst (λ z. Chain detached none z (l.lists o s)) (sym eh)
              (other-Chain (heads o s) (l.lists o s) (l.chain o s)
                (λ j h. ground (arith, l.members o s j, l.members order shard j))))
    ];
    distinct = λ o s. ground (arith, l.distinct o s, Distinct-erase p (l.lists o s));
    members = λ o s q. elim (Bool-cases (q == p)) [
      | inl self ↦
          let at : q ≡ p = ground arith in
          rw at (
            ground (
              arith,
              has-erase p p (l.lists o s) (l.distinct o s),
              l.members o s p,
              l.members order shard p,
            ))
      | inr other ↦
          let ne : q ≢ p = λ z. ground arith in
          ground (
            arith,
            unlinked.same_state q ne,
            unlinked.same_order q ne,
            has-erase p q (l.lists o s) (l.distinct o s),
            l.members o s q,
          )
    ];
  }
