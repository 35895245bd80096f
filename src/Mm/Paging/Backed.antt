-- ===== src/Mm/Paging/Backed.antt =====
-- The range check over the page tables, `check_range_mapped`, beside the walk of `translate`.
use old_boruixkernel.Common.{
  ℕ, ◌+◌, ◌/◌, ◌≤◌, ◌<◌, ◌≡◌, ◌⊎◌, ◌↔◌, refl, sym, ap, ◌∙◌, Bool, true, false, Option, none, some,
  leb, ◌==◌, bit_and, word_max, arith, Bool-cases, Option-cases, inl, inr, length,
}
use old_boruixkernel.Mm.Vma.{Tree, areas}
use old_boruixkernel.Mm.Vma.Range.{check_range}
use old_boruixkernel.Mm.Vma.RangeProofs.{Mapped}
use old_boruixkernel.Mm.Vma.Shape.{IsSound}
use old_boruixkernel.Mm.Vma.Order.{Chain}
use old_boruixkernel.Mm.Vma.Checked.{check_range-Mapped}
use old_boruixkernel.Mm.Paging.Pages.{pages_of_range}
use old_boruixkernel.Mm.Paging.{
  Tables, walk, translate, page_access_ok, check_pages, check_range_mapped, align_down,
  user_accessible, writable, p4_index, p3_index, p2_index, p1_index, access_p2, access_p3,
  translate_p2, translate_p3, entry_addr,
}

-- The addresses of a page have the indices of the page.
page_index :
    (a : ℕ)
    → (p4_index (align_down a) ≡ p4_index a)
      × (p3_index (align_down a) ≡ p3_index a)
      × (p2_index (align_down a) ≡ p2_index a)
      × (p1_index (align_down a) ≡ p1_index a)
page_index a = (omega arith, omega arith, omega arith, omega arith)

is_some : Option ℕ → Bool
is_some none = false
is_some (some _) = true

found : (o : Option ℕ) → is_some o ≡ true → (phys : ℕ) × (o ≡ some phys)
unfolding is_some
found none e = cc
found (some phys) e = (phys, refl)

module _ (has : ℕ → ℕ → Bool) (t : Tables) (offset addr hierarchy required : ℕ) where
  translate_p2-is_some :
      (e : ℕ)
      → access_p2 has t offset (align_down addr) hierarchy required e ≡ true
      → is_some (translate_p2 has t offset addr e) ≡ true
  unfolding is_some
  translate_p2-is_some e h =
      let (_, _, i2, i1) = page_index addr in let h' = rw (i2, i1) at h in ground (arith, h')

  translate_p3-is_some :
      (e : ℕ)
      → access_p3 has t offset (align_down addr) hierarchy required e ≡ true
      → is_some (translate_p3 has t offset addr e) ≡ true
  unfolding is_some
  translate_p3-is_some e h =
      let (_, i3, _, _) = page_index addr in
      let e3 = t.read (entry_addr e + offset) (p3_index addr) in
      let h' = rw i3 at h in ground (arith, h', translate_p2-is_some e3)

  walk-is_some :
      t.phys_offset ≡ some offset
      → page_access_ok has t (align_down addr) hierarchy required ≡ true
      → is_some (walk has t offset (t.p4_phys + offset) addr) ≡ true
  unfolding page_access_ok walk is_some
  walk-is_some at_offset h =
      let (i4, _, _, _) = page_index addr in
      let e4 = t.read (t.p4_phys + offset) (p4_index addr) in
      let h' = rw (at_offset, i4) at h in ground (arith, h', translate_p3-is_some e4)

-- An address whose page `page_access_ok` accepts, whatever it requires, has a translation.
pub page_access_ok-translate :
    (has : ℕ → ℕ → Bool) (t : Tables) (addr hierarchy required : ℕ)
    → page_access_ok has t (align_down addr) hierarchy required ≡ true
    → (phys : ℕ) × (translate has t addr ≡ some phys)
unfolding page_access_ok translate
page_access_ok-translate has t addr hierarchy required h = elim (Option-cases t.phys_offset) [
  | inl missing ↦ cc
  | inr (offset, e) ↦
      rw (e, translate) (found _ (walk-is_some has t offset addr hierarchy required e h))
]

module _ (has : ℕ → ℕ → Bool) (root : Tree) (t : Tables) (s : IsSound root)
    (c : Chain 0 word_max (areas root)) where
  -- With fuel for the areas and for the pages `check_range_mapped` answers. It answers true exactly if
  -- the range is empty, or if it ends within the address space, every address in it is in an area that
  -- has the flags asked for, and its page passes `page_access_ok` with them.
  pub check_range_mapped-Mapped :
      (fuel addr size required : ℕ)
      → length (areas root) + 1 < fuel
      → size / 4096 + 1 < fuel
      → (b : Bool) × (check_range_mapped fuel has root t addr size required ≡ some b)
        × ((b ≡ true) ↔ (
            (size ≡ 0)
            ⊎ ((addr + size ≤ word_max)
                × Mapped (λ flags. has flags required) (areas root) addr (addr + size)
                × ((a : ℕ)
                    → addr ≤ a
                    → a < addr + size
                    → page_access_ok has t
                        (align_down a)
                        (bit_and required (user_accessible + writable))
                        required
                      ≡ true))))
  unfolding check_pages check_range_mapped
  check_range_mapped-Mapped fuel addr size required f g =
      let hierarchy = bit_and required (user_accessible + writable) in
      let (b, e, both) =
        check_range-Mapped (λ flags. has flags required) root s c fuel addr size f in
      elim (Bool-cases b) [
        | inr refused ↦
            let e' : check_range fuel (λ flags. has flags required) root addr size ≡ some false =
              e ∙ ap some refused in
            (
              false,
              rw (e', check_range_mapped) refl,
              (
                λ q. cc,
                λ x.
                    sym refused
                    ∙ both.1
                        (elim x [ inl z ↦ inl z | inr (fits, mapped, _) ↦ inr (fits, mapped) ]),
              ),
            )
        | inl accepted ↦
            let e' : check_range fuel (λ flags. has flags required) root addr size ≡ some true =
              e ∙ ap some accepted in
            elim (Bool-cases (size == 0)) [
              | inl empty ↦ (
                true,
                rw (e', check_range_mapped, empty) refl,
                (λ _. inl (ground arith), λ _. refl),
              )
              | inr some_left ↦ elim (both.0 accepted) [
                | inl z ↦ absurd (ground arith)
                | inr (fits, mapped) ↦
                    let within : leb (addr + size) word_max ≡ true = ground arith in
                    let (b', q, pages) =
                      pages_of_range (λ page. page_access_ok has t page hierarchy required) fuel
                        addr size (λ z. ground arith) g in
                    (
                      b',
                      rw (e', check_range_mapped, some_left, within) q,
                      (
                        λ y. inr (fits, mapped, pages.0 y),
                        λ x. elim x [
                          | inl z ↦ absurd (ground arith)
                          | inr (_, _, all_ok) ↦ pages.1 all_ok
                        ],
                      ),
                    )
              ]
            ]
      ]

  -- A range that `check_range_mapped` accepts translates at every address.
  pub check_range_mapped-translate :
      (fuel addr size required a : ℕ)
      → length (areas root) + 1 < fuel
      → size / 4096 + 1 < fuel
      → check_range_mapped fuel has root t addr size required ≡ some true
      → addr ≤ a
      → a < addr + size
      → (phys : ℕ) × (translate has t a ≡ some phys)
  check_range_mapped-translate fuel addr size required a f g e from to =
      let (b, q, both) = check_range_mapped-Mapped fuel addr size required f g in
      let same : some b ≡ some true = sym q ∙ e in
      let accepted : b ≡ true = cc in
      elim (both.0 accepted) [
        | inl z ↦ absurd (omega arith)
        | inr (_, _, all_ok) ↦
            page_access_ok-translate has t a (bit_and required (user_accessible + writable))
              required (all_ok a from to)
      ]
