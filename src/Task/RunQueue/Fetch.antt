-- ===== src/Task/RunQueue/Fetch.antt =====
-- The choice of `TaskManager::fetch` among the tasks of a queue.
use old_boruixkernel.Common.{
  ℕ, suc, ◌+◌, ◌≤◌, ◌<◌, ◌≡◌, refl, sym, ap, ap₂, subst, ◌∙◌, false, none, some, List, [], ◌∷◌,
  ◌++◌, arith, ltb, length, length-append, ◌%◌, word_mod, All, All-imp, word_max, Bool-cases, inl,
  inr, ltb→lt, ltb→ge, append_assoc, All-append,
}
use old_boruixkernel.Task.RunQueue.{Tasks, min_loop, remove_at, fetch, fetched}

-- The index `i` is that of the first least pass in the queue.
pub record IsLeast (pass : ℕ → ℕ) (queue : List ℕ) (i : ℕ) : Type 0 where
  pub before : List ℕ
  pub task : ℕ
  pub after : List ℕ
  pub at : length before ≡ i
  pub split : queue ≡ before ++ (task ∷ after)
  pub above : All (λ t. pass task < pass t) before
  pub no_less : All (λ t. pass task ≤ pass t) after

cast :
    (pass : ℕ → ℕ) (q q' : List ℕ) (i i' : ℕ)
    → q ≡ q'
    → i ≡ i'
    → IsLeast pass q i
    → IsLeast pass q' i'
cast pass q q' i i' p e x = subst (λ z. IsLeast pass z i') p (subst (λ z. IsLeast pass q z) e x)

-- The loop carries the least pass so far, at the first place where it stands.
min_loop-IsLeast :
    (pass : ℕ → ℕ) (ts : List ℕ) (ls : List ℕ) (m : ℕ) (rs : List ℕ)
    → All (λ t. pass m < pass t) ls
    → All (λ t. pass m ≤ pass t) rs
    → IsLeast pass
        (ls ++ (m ∷ (rs ++ ts)))
        (min_loop pass (suc (length ls + length rs)) (pass m) (length ls) ts)
unfolding min_loop
min_loop-IsLeast pass [] ls m rs h k = record {
  before = ls;
  task = m;
  after = rs ++ [];
  at = refl;
  split = refl;
  above = h;
  no_less = All-append (λ t. pass m ≤ pass t) rs [] k tt;
}
min_loop-IsLeast pass (t ∷ ts) ls m rs h k = elim (Bool-cases (ltb (pass t) (pass m))) [
  | inl better ↦
      let lt = ltb→lt (pass t) (pass m) better in
      let ls' = ls ++ (m ∷ rs) in
      let h' =
        All-append (λ u. pass t < pass u) ls (m ∷ rs)
          (All-imp (λ u. pass m < pass u) (λ u. pass t < pass u) (λ u w. omega arith) ls h)
          (lt, All-imp (λ u. pass m ≤ pass u) (λ u. pass t < pass u) (λ u w. omega arith) rs k) in
      let len : length ls' ≡ suc (length ls + length rs) =
        omega (arith, length-append ls (m ∷ rs)) in
      let next : suc (length ls' + 0) ≡ suc (length ls + length rs) + 1 = omega (arith, len) in
      rw better (
        cast pass _ _ _ _ (append_assoc ls (m ∷ rs) (t ∷ ts))
          (ap₂ (λ x y. min_loop pass x (pass t) y ts) next len)
          (min_loop-IsLeast pass ts ls' t [] h' tt))
  | inr no_better ↦
      let le = ltb→ge (pass t) (pass m) no_better in
      let rs' = rs ++ (t ∷ []) in
      let next : suc (length ls + length rs') ≡ suc (length ls + length rs) + 1 =
        omega (arith, length-append rs (t ∷ [])) in
      rw no_better (
        cast pass _ _ _ _ (ap (λ xs. ls ++ (m ∷ xs)) (append_assoc rs (t ∷ []) ts))
          (ap (λ x. min_loop pass x (pass m) (length ls) ts) next)
          (min_loop-IsLeast pass ts ls m rs' h
            (All-append (λ u. pass m ≤ pass u) rs (t ∷ []) k (le, tt))))
]

remove_at_lem :
    (ls : List ℕ) (t : ℕ) (rs : List ℕ)
    → remove_at (length ls) (ls ++ (t ∷ rs)) ≡ some (t, ls ++ rs)
unfolding remove_at
remove_at_lem [] t rs = refl
remove_at_lem (l ∷ ls) t rs = rw (remove_at_lem ls t rs)

index-IsLeast :
    (pass : ℕ → ℕ) (q : ℕ) (qs : List ℕ)
    → pass q ≤ word_max
    → IsLeast pass (q ∷ qs) (min_loop pass 0 word_max 0 (q ∷ qs))
unfolding min_loop
index-IsLeast pass q qs h = elim (Bool-cases (ltb (pass q) word_max)) [
  | inl y ↦ rw y (min_loop-IsLeast pass qs [] q [] tt tt)
  | inr n ↦
      let e : pass q ≡ word_max = omega (arith, ltb→ge (pass q) word_max n) in
      rw n (
        cast pass _ _ _ _ refl (ap (λ x. min_loop pass 1 x 0 qs) e)
          (min_loop-IsLeast pass qs [] q [] tt tt))
]

fetch_at :
    (s : Tasks) (queue : List ℕ)
    → IsLeast s.pass queue (min_loop s.pass 0 word_max 0 queue)
    → (ls : List ℕ) × (t : ℕ) × (rs : List ℕ) × (queue ≡ ls ++ (t ∷ rs))
      × (fetch s queue ≡ some (t, ls ++ rs, fetched t s))
      × All (λ u. s.pass t < s.pass u) ls
      × All (λ u. s.pass t ≤ s.pass u) rs
unfolding fetch
fetch_at s queue l =
    let taken : remove_at (min_loop s.pass 0 word_max 0 queue) queue
        ≡ some (l.task, l.before ++ l.after) =
      ap₂ remove_at (sym l.at) l.split ∙ remove_at_lem l.before l.task l.after in
    (l.before, l.task, l.after, l.split, rw (taken, fetch) refl, l.above, l.no_less)

-- From a queue that is not empty `fetch` takes the task with the least pass, the first of several,
-- and keeps the order of the others. The task is no longer marked as queued, and its stride is added
-- to its pass, with wrap-around.
pub fetch-least :
    (s : Tasks) (q : ℕ) (qs : List ℕ)
    → s.pass q ≤ word_max
    → (ls : List ℕ) × (t : ℕ) × (rs : List ℕ) × (s' : Tasks) × (q ∷ qs ≡ ls ++ (t ∷ rs))
      × (fetch s (q ∷ qs) ≡ some (t, ls ++ rs, s'))
      × All (λ u. s.pass t < s.pass u) ls
      × All (λ u. s.pass t ≤ s.pass u) rs
      × (s'.in_run_queue t ≡ false)
      × (s'.pass t ≡ (s.pass t + s.stride t) % word_mod)
fetch-least s q qs h =
    let (ls, t, rs, e, f, above, no_less) = fetch_at s (q ∷ qs) (index-IsLeast s.pass q qs h) in
    (ls, t, rs, fetched t s, e, f, above, no_less, ground arith, ground arith)

-- `fetch` takes nothing from the empty queue.
pub fetch_empty : (s : Tasks) → fetch s [] ≡ none
unfolding fetch remove_at
fetch_empty s = refl
