-- ===== src/Task/RunQueue/Stolen.antt =====
-- What stealing does to the tasks and to their marks.
use old_boruixkernel.Common.{
  ℕ, zero, suc, ◌+◌, ◌≡◌, ◌≢◌, refl, sym, ap, ◌∙◌, Bool, true, false, Option, none, some, List, [],
  ◌∷◌, ◌++◌, arith, ◌==◌, if◌then◌else◌,
}
use old_boruixkernel.Task.WaitQueue.{ready, update}
use old_boruixkernel.Task.RunQueue.{
  Tasks, Run, fetched, dec_ready, enqueue_ready, take_from, sort_stolen, steal, is_ready,
}
use old_boruixkernel.Task.RunQueue.Ready.{nothing, one, take_from-Taken}

-- How often a task stands in a queue.
occurrences : ℕ → List ℕ → ℕ
occurrences u [] = 0
occurrences u (t ∷ ts) = (if t == u then 1 else 0) + occurrences u ts

occurrences-append :
    (u : ℕ) (xs ys : List ℕ) → occurrences u (xs ++ ys) ≡ occurrences u xs + occurrences u ys
unfolding occurrences
occurrences-append u [] ys = ground arith
occurrences-append u (x ∷ xs) ys = omega (arith, occurrences-append u xs ys)

taken_first : ℕ → Option ℕ → ℕ
taken_first u none = 0
taken_first u (some t) = if t == u then 1 else 0

-- How often a task stands in the two queues, or is the one that the thief is to run.
pub held : ℕ → ℕ → ℕ → Option ℕ × Run → ℕ
held u cpu victim (first, r) =
    occurrences u (r.queues cpu) + occurrences u (r.queues victim) + taken_first u first

sort_stolen-held :
    (u cpu victim t : ℕ) (ok : Bool) (first : Option ℕ) (r : Run)
    → cpu ≢ victim
    → held u cpu victim (sort_stolen cpu victim t ok first r)
      ≡ held u cpu victim (first, r) + (if t == u then 1 else 0)
unfolding held occurrences taken_first
sort_stolen-held u cpu victim t false first r apart =
    ground (arith, occurrences-append u (r.queues victim) (t ∷ []))
sort_stolen-held u cpu victim t true none r apart = ground arith
sort_stolen-held u cpu victim t true (some f) r apart =
    ground (arith, occurrences-append u (r.queues cpu) (t ∷ []))

held-taken :
    (u cpu victim : ℕ) (first : Option ℕ) (r : Run) (s : Tasks) (counts : ℕ → ℕ) (ls : List ℕ)
    (t : ℕ) (rs : List ℕ)
    → cpu ≢ victim
    → r.queues victim ≡ ls ++ (t ∷ rs)
    → held u cpu victim (
      first,
      record { tasks = s; queues = update r.queues victim (ls ++ rs); ready_counts = counts },
    )
        + (if t == u then 1 else 0)
      ≡ held u cpu victim (first, r)
unfolding held occurrences
held-taken u cpu victim first r s counts ls t rs apart split =
    ground (
      arith,
      occurrences-append u ls rs,
      ap (occurrences u) split ∙ occurrences-append u ls (t ∷ rs),
    )

-- The loop that steals loses no task and doubles none: each stands in the two queues, or is the one to
-- run, as often as before.
pub held-steal :
    (u cpu victim n : ℕ) (first : Option ℕ) (r : Run)
    → cpu ≢ victim
    → held u cpu victim (steal cpu victim n first r) ≡ held u cpu victim (first, r)
unfolding steal
held-steal u cpu victim zero first r apart = refl
held-steal u cpu victim (suc n) first r apart = elim (take_from-Taken victim r) [
  | nothing e ↦ rw (e, steal) refl
  | one ls t rs e split ↦
      let r' : Run = record {
        tasks = fetched t r.tasks;
        queues = update r.queues victim (ls ++ rs);
        ready_counts = dec_ready victim r.ready_counts;
      } in
      let next = sort_stolen cpu victim t (is_ready (r'.tasks.status t)) first r' in
      rw (e, steal)
        (held-steal u cpu victim n next.0 next.1 apart
          ∙ sort_stolen-held u cpu victim t (is_ready (r'.tasks.status t)) first r' apart
          ∙ held-taken u cpu victim first r r'.tasks r'.ready_counts ls t rs apart split)
]

-- The mark of the task that was taken.
mark : Option (ℕ × Run) → Bool
mark none = false
mark (some (t, r)) = r.tasks.in_run_queue t

unmarked :
    (victim t : ℕ) (r r' : Run)
    → take_from victim r ≡ some (t, r')
    → r'.tasks.in_run_queue t ≡ false
unfolding mark
unmarked victim t r r' e = elim (take_from-Taken victim r) [
  | nothing k ↦ ap mark (sym e ∙ k)
  | one ls u rs k split ↦ ap mark (sym e ∙ k) ∙ ground arith
]

-- A task that the loop steals after the first stands in the thief's queue without the mark, so the next
-- `enqueue_ready` of it, a wake-up, queues it a second time.
pub steal_queues_twice :
    (cpu victim first t : ℕ) (r r' : Run)
    → take_from victim r ≡ some (t, r')
    → r'.tasks.status t ≡ ready
    → let stolen = steal cpu victim 1 (some first) r in
      (stolen.0 ≡ some first)
      × (stolen.1.queues cpu ≡ r'.queues cpu ++ (t ∷ []))
      × ((enqueue_ready cpu t stolen.1).1 ≡ true)
      × ((enqueue_ready cpu t stolen.1).0.queues cpu ≡ (r'.queues cpu ++ (t ∷ [])) ++ (t ∷ []))
unfolding steal enqueue_ready
steal_queues_twice cpu victim first t r r' e k =
    rw (e, steal)
      (rw k (
        refl,
        ground arith,
        ground (arith, unmarked victim t r r' e),
        ground (arith, unmarked victim t r r' e),
      ))
