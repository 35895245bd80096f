-- ===== src/Mm/Vma/RangeProofs.antt =====
-- The loop of `check_range`, area by area.
use old_boruixkernel.Common.{
  ℕ, zero, suc, ◌≤◌, ◌<◌, ◌≡◌, ◌↔◌, refl, sym, ap, ◌∙◌, subst, Bool, true, false, Option, none,
  some, List, [], ◌∷◌, ◌++◌, arith, All, All-imp, All-append, ltb, Bool-cases, inl, inr, lt→ltb,
  ge→ltb, length, append_assoc, append-nil, ltb→lt, ltb→ge, min,
}
use old_boruixkernel.Mm.Vma.Area.{MemoryArea, contains_yes}
use old_boruixkernel.Mm.Vma.{Tree, areas}
use old_boruixkernel.Mm.Vma.Shape.{IsSound}
use old_boruixkernel.Mm.Vma.Order.{
  Chain, Chain-cut, Within, Chain-Within, NextOf, no_next, next, find_next-NextOf,
}
use old_boruixkernel.Mm.Vma.Containing.{scan, scan_past, scan_later}
use old_boruixkernel.Mm.Vma.Contents.{cut_unique}
use old_boruixkernel.Mm.Vma.Lookup.{find_next, find_next_from}
use old_boruixkernel.Mm.Vma.Overlap.{flags_at, scan_hit}
use old_boruixkernel.Mm.Vma.Range.{check_loop}

abbrev pub allowed : (ℕ → Bool) → Option ℕ → Bool
allowed permits none = false
allowed permits (some flags) = permits flags

-- Every address from `cur` up to `end` is mapped, with flags that are permitted.
abbrev pub Mapped : (ℕ → Bool) → List MemoryArea → ℕ → ℕ → Type 0
Mapped permits xs cur end =
    (addr : ℕ) → cur ≤ addr → addr < end → allowed permits (flags_at addr xs) ≡ true

abbrev pub first : List MemoryArea → Option MemoryArea
first [] = none
first (a ∷ xs) = some a

-- Where the areas are cut at the key, `find_next` is the first of the later ones.
pub find_next_cut :
    (t : Tree) (key hi : ℕ) (ls rs : List MemoryArea)
    → IsSound t
    → Chain 0 hi (areas t)
    → areas t ≡ ls ++ rs
    → All (λ b. b.start < key) ls
    → All (λ b. key ≤ b.start) rs
    → find_next t key ≡ first rs
unfolding find_next
find_next_cut t key hi ls rs s c e h g =
    go (find_next_from t key none) (find_next-NextOf t key 0 hi none s c)
  where
    go : (found : Option MemoryArea) → NextOf key none (areas t) found → found ≡ first rs
    go found (no_next f all) =
        let cut =
          (cut_unique key ls rs (ls ++ rs) [] (sym (append-nil (ls ++ rs))) h g
            (subst (All (λ b. b.start < key)) e all) tt).1 in
        f ∙ sym (ap first cut)
    go found (next ms p ps e' f le all) =
        let (cm, cp, cps) = Chain-cut 0 hi ms p ps (subst (Chain 0 hi) e' c) in
        let tail =
          All-imp (Within p.end hi) (λ b. key ≤ b.start) (λ b k. omega arith) ps
            (Chain-Within p.end hi ps cps) in
        let cut = (cut_unique key ls rs ms (p ∷ ps) (sym e ∙ e') h g all (le, tail)).1 in
        f ∙ sym (ap first cut)

-- What the loop has before it: the areas that end before `cur` are behind.
abbrev pub Ahead : ℕ → List MemoryArea → Type 0
Ahead cur [] = Unit {0}
Ahead cur (b ∷ rs) = cur < b.end

Ahead-Chain : (cur hi : ℕ) (rs : List MemoryArea) → Chain cur hi rs → Ahead cur rs
Ahead-Chain cur hi [] c = tt
Ahead-Chain cur hi (b ∷ rs) c = omega arith

abbrev pub Answers : (ℕ → Bool) → List MemoryArea → ℕ → ℕ → Option Bool → Type 0
Answers permits xs cur end r = (b : Bool) × (r ≡ some b) × ((b ≡ true) ↔ Mapped permits xs cur end)

module _ (permits : ℕ → Bool) (t : Tree) (hi : ℕ) (s : IsSound t) (c : Chain 0 hi (areas t)) where
  refuse :
      (cur end : ℕ)
      → cur < end
      → allowed permits (flags_at cur (areas t)) ≡ false
      → Answers permits (areas t) cur end (some false)
  refuse cur end h no_way = (false, refl, (λ e. cc, λ all. sym no_way ∙ all cur (omega arith) h))

  -- The steps of the loop at an area.
  module _ (fuel cur end : ℕ) (b : MemoryArea) (h : cur < end) where
    step_gap : cur < b.start → check_loop (suc fuel) permits t cur end (some b) ≡ some false
    unfolding check_loop
    step_gap g = ground arith

    step_refuse :
        permits b.flags ≡ false → check_loop (suc fuel) permits t cur end (some b) ≡ some false
    unfolding check_loop
    step_refuse g = ground arith

    step_last :
        b.start ≤ cur
        → permits b.flags ≡ true
        → end ≤ b.end
        → check_loop (suc (suc fuel)) permits t cur end (some b) ≡ some true
    unfolding check_loop
    step_last g p e = let m : min end b.end ≡ end = omega arith in rw (m, check_loop) (ground arith)

    step_on :
        b.start ≤ cur
        → permits b.flags ≡ true
        → b.end < end
        → check_loop (suc fuel) permits t cur end (some b)
          ≡ check_loop fuel permits t b.end end (find_next t b.end)
    unfolding check_loop
    step_on g p e =
        let m : min end b.end ≡ b.end = omega arith in
        rw (m, lt→ltb cur end h, ge→ltb cur b.start g, p, lt→ltb b.end end e) refl

  module _ (ls : List MemoryArea) (b : MemoryArea) (rs : List MemoryArea)
      (e : areas t ≡ ls ++ (b ∷ rs)) (cur : ℕ) (past : All (λ a. a.end ≤ cur) ls) where
    scan_inside :
        (addr : ℕ)
        → cur ≤ addr
        → b.start ≤ addr
        → addr < b.end
        → flags_at addr (areas t) ≡ some b.flags
    unfolding flags_at
    scan_inside addr h g k =
        let before = All-imp (λ a. a.end ≤ cur) (λ a. a.end ≤ addr) (λ a w. omega arith) ls past in
        rw (e, scan_hit addr ls b rs before (contains_yes b addr g k)) refl

    scan_gap : cur < b.start → b.start < b.end → Chain b.end hi rs → flags_at cur (areas t) ≡ none
    unfolding flags_at
    scan_gap h cb cr = rw (e, scan_past cur ls (b ∷ rs) past, scan_later cur hi b rs h cb cr) refl

  scan_end :
      (cur : ℕ) (ls : List MemoryArea)
      → areas t ≡ ls ++ []
      → All (λ a. a.end ≤ cur) ls
      → flags_at cur (areas t) ≡ none
  unfolding flags_at scan
  scan_end cur ls e past = rw (e, scan_past cur ls [] past) refl

  module _ (cur end : ℕ) (b : MemoryArea)
      (inside : (addr : ℕ)
        → cur ≤ addr
        → b.start ≤ addr
        → addr < b.end
        → flags_at addr (areas t) ≡ some b.flags)
      (g : b.start ≤ cur) (ahead : cur < b.end) where
    answer_here :
        permits b.flags ≡ true
        → (addr : ℕ) → cur ≤ addr
        → addr < b.end
        → allowed permits (flags_at addr (areas t)) ≡ true
    answer_here way addr u w = rw (inside addr u (omega arith) w) way

    answer_last :
        end ≤ b.end → permits b.flags ≡ true → true ≡ true → Mapped permits (areas t) cur end
    answer_last l way q addr u w = answer_here way addr u (omega arith)

    answer_on :
        permits b.flags ≡ true
        → (r : Option Bool) → Answers permits (areas t) b.end end r
        → Answers permits (areas t) cur end r
    answer_on way r (x, q, both) = (x, q, (onto, onfrom))
      where
        onto : x ≡ true → Mapped permits (areas t) cur end
        onto y addr u w = elim (Bool-cases (ltb addr b.end)) [
          | inl k ↦ answer_here way addr u (ltb→lt addr b.end k)
          | inr k ↦ both.0 y addr (ltb→ge addr b.end k) w
        ]

        onfrom : Mapped permits (areas t) cur end → x ≡ true
        onfrom all = both.1 (λ addr u w. all addr (omega arith) w)

  pub loop_Answers :
      (fuel cur end : ℕ) (ls rs : List MemoryArea)
      → cur < end
      → areas t ≡ ls ++ rs
      → All (λ b. b.end ≤ cur) ls
      → Ahead cur rs
      → suc (length rs) < fuel
      → Answers permits (areas t) cur end (check_loop fuel permits t cur end (first rs))
  loop_Answers zero cur end ls rs h e past ahead f = absurd (omega arith)
  loop_Answers (suc fuel) cur end ls [] h e past ahead f =
      unfold check_loop in
      rw (lt→ltb cur end h) (refuse cur end h (rw (scan_end cur ls e past) refl))
  loop_Answers (suc zero) cur end ls (b ∷ rs) h e past ahead f = absurd (omega arith)
  loop_Answers (suc (suc fuel)) cur end ls (b ∷ rs) h e past ahead f =
      let (cl, cb, cr) = Chain-cut 0 hi ls b rs (subst (Chain 0 hi) e c) in
      let inside = scan_inside ls b rs e cur past in
      elim (Bool-cases (ltb cur b.start)) [
        | inl gap ↦
            let k = ltb→lt cur b.start gap in
            rw (step_gap (suc fuel) cur end b h k)
              (refuse cur end h (rw (scan_gap ls b rs e cur past k cb cr) refl))
        | inr at ↦
            let g = ltb→ge cur b.start at in
            elim (Bool-cases (permits b.flags)) [
              | inr no_way ↦
                  rw (step_refuse (suc fuel) cur end b h no_way)
                    (refuse cur end h (rw (inside cur (omega arith) g ahead) no_way))
              | inl way ↦ elim (Bool-cases (ltb b.end end)) [
                | inr last ↦
                    let l = ltb→ge b.end end last in
                    rw (step_last fuel cur end b h g way l)
                      (true, refl, (answer_last cur end b inside g ahead l way, λ all. refl))
                | inl more ↦
                    let m = ltb→lt b.end end more in
                    let past' =
                      All-append (λ a. a.end ≤ b.end) ls (b ∷ [])
                        (All-imp (λ a. a.end ≤ cur) (λ a. a.end ≤ b.end) (λ a w. omega arith) ls
                          past)
                        (omega arith, tt) in
                    let starts =
                      All-append (λ a. a.start < b.end) ls (b ∷ [])
                        (All-imp (Within 0 b.start) (λ a. a.start < b.end) (λ a w. omega arith) ls
                          (Chain-Within 0 b.start ls cl))
                        (cb, tt) in
                    let later =
                      All-imp (Within b.end hi) (λ a. b.end ≤ a.start) (λ a w. w.0) rs
                        (Chain-Within b.end hi rs cr) in
                    let e' = e ∙ sym (append_assoc ls (b ∷ []) rs) in
                    let looked = find_next_cut t b.end hi (ls ++ (b ∷ [])) rs s c e' starts later in
                    let rest =
                      loop_Answers (suc fuel) b.end end (ls ++ (b ∷ [])) rs m e' past'
                        (Ahead-Chain b.end hi rs cr) (omega arith) in
                    rw (step_on (suc fuel) cur end b h g way m, looked)
                      (answer_on cur end b inside g ahead way _ rest)
              ]
            ]
      ]
