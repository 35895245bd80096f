-- ===== src/Mm/Mapping/Unmap/Kept.antt =====
-- A page that is unmapped from a table that other pages are counted in.
use old_boruixkernel.Common.{
  ℕ, ◌+◌, ◌/◌, ◌^◌, ◌<◌, ◌≡◌, refl, ap, ◌∙◌, Bool, true, false, some, ltb, ◌==◌, ◌&&◌,
  if◌then◌else◌, arith, Bool-cases, inl, inr,
}
use old_boruixkernel.Mm.Paging.{p1_index, present, user_accessible, entry_addr}
use old_boruixkernel.Mm.Rmap.{rmap_remove}
use old_boruixkernel.Mm.Mapping.{Memory, done, table_count}
use old_boruixkernel.Mm.Mapping.Unmap.{dec_table_count, table_empty, clear_entry, unmap_p1, free_p1}

-- A table that is counted to hold an entry is not freed.
nothing_freed :
    (has : ℕ → ℕ → Bool) (p4 page p3 p2 p1 n : ℕ) (m : Memory)
    → table_count p1 m.counts ≡ some (n + 1)
    → free_p1 has p4 page p3 p2 p1 m ≡ m
unfolding table_empty
nothing_freed has p4 page p3 p2 p1 n m e =
    let more : (n + 1 == 0) ≡ false = ground arith in
    let kept : table_empty has p1 m ≡ false = rw (e, table_empty) more in rw kept refl

counted_down :
    (p1 len n : ℕ) (counts : ℕ → ℕ)
    → p1 / 4096 < len
    → counts (p1 / 4096) ≡ n + 2
    → n + 2 < 2 ^ 16
    → table_count p1 (dec_table_count p1 (some (len, counts))) ≡ some (n + 1)
unfolding dec_table_count table_count
counted_down p1 len n counts below count small =
    let in_len : ltb (p1 / 4096) len ≡ true = ground arith in
    rw (dec_table_count, in_len) (rw (table_count, in_len) (ap some (ground arith)))

-- Where the count of the last table says that it holds more than the page, the removal of the page
-- clears its entry and no other, frees no table, and returns the frame of the entry.
pub unmap_p1_keeps :
    (has : ℕ → ℕ → Bool) (p4 page p3 p2 p1 len n : ℕ) (counts : ℕ → ℕ) (m : Memory)
    → has (m.entries p1 (p1_index page)) present ≡ true
    → m.counts ≡ some (len, counts)
    → p1 / 4096 < len
    → counts (p1 / 4096) ≡ n + 2
    → n + 2 < 2 ^ 16
    → let (m', r) = unmap_p1 has p4 page p3 p2 p1 m in
      (r ≡ done (entry_addr (m.entries p1 (p1_index page))))
      × ((t i : ℕ)
          → m'.entries t i ≡ (if (t == p1) && (i == p1_index page) then 0 else m.entries t i))
      × (m'.freed ≡ m.freed)
      × (table_count p1 m'.counts ≡ some (n + 1))
unfolding unmap_p1
unmap_p1_keeps has p4 page p3 p2 p1 len n counts m there c below count small =
    let entry = m.entries p1 (p1_index page) in
    let cleared = clear_entry p1 (p1_index page) m in
    let total : table_count p1 cleared.counts ≡ some (n + 1) =
      rw c (counted_down p1 len n counts below count small) in
    elim (Bool-cases (has entry user_accessible)) [
      | inl user ↦
          let kept =
            nothing_freed has p4 page p3 p2 p1 n
              (record cleared { rmap = rmap_remove (entry_addr entry) p4 page cleared.rmap })
              total in
          rw (unmap_p1, there, user)
            (
              refl,
              (λ t i. ap (λ x. x.entries t i) kept),
              ap (λ x. x.freed) kept,
              ap (λ x. table_count p1 x.counts) kept ∙ total,
            )
      | inr kernel ↦
          let kept = nothing_freed has p4 page p3 p2 p1 n cleared total in
          rw (unmap_p1, there, kernel)
            (
              refl,
              (λ t i. ap (λ x. x.entries t i) kept),
              ap (λ x. x.freed) kept,
              ap (λ x. table_count p1 x.counts) kept ∙ total,
            )
    ]
