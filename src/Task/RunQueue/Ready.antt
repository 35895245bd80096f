-- ===== src/Task/RunQueue/Ready.antt =====
-- `READY_COUNTS`, by which a CPU chooses whom to steal from: the counts of ready tasks beside the queues.
use old_boruixkernel.Common.{
  ℕ, zero, suc, word_max, ◌+◌, ◌<◌, ◌≡◌, refl, ap, ◌∙◌, Bool, true, false, Option, none, some, List,
  [], ◌∷◌, ◌++◌, arith, leb, ◌/◌, ◌==◌, if◌then◌else◌, length, length-append, ◌%◌, word_mod,
  Bool-cases, inl, inr, min,
}
use old_boruixkernel.Task.WaitQueue.{update}
use old_boruixkernel.Task.RunQueue.{
  Tasks, Run, max_cpus, remove_at, min_loop, fetch, fetched, dec_ready, enqueue_ready, take_from,
  put_on, sort_stolen, steal, steal_from, fetch_next_task, busiest, is_ready, is_exited,
  steal_first, steal_first_from, fetch_next_task_try,
}

-- The count of each CPU is the length of its queue, with wrap-around.
unfoldable pub IsCounted : Run → Type 0
IsCounted r = (i : ℕ) → i < max_cpus → r.ready_counts i ≡ length (r.queues i) % word_mod

-- A removal takes nothing, or one task out of its place.
data Removed (i : ℕ) (q : List ℕ) : Type 0 where
  nothing : remove_at i q ≡ none → Removed i q
  one :
      (ls : List ℕ) (t : ℕ) (rs : List ℕ)
      → remove_at i q ≡ some (t, ls ++ rs)
      → q ≡ ls ++ (t ∷ rs)
      → Removed i q

remove_at-Removed : (i : ℕ) (q : List ℕ) → Removed i q
unfolding remove_at
remove_at-Removed i [] = nothing refl
remove_at-Removed zero (t ∷ ts) = one [] t ts refl refl
remove_at-Removed (suc i) (t ∷ ts) = elim (remove_at-Removed i ts) [
  | nothing e ↦ nothing (rw e)
  | one ls u rs e f ↦ one (t ∷ ls) u rs (rw e) (ap (λ xs. t ∷ xs) f)
]

-- What a CPU takes from its queue: nothing, or one task, which is no longer marked.
pub data Taken (cpu : ℕ) (r : Run) : Type 0 where
  nothing : take_from cpu r ≡ none → Taken cpu r
  one :
      (ls : List ℕ) (t : ℕ) (rs : List ℕ)
      → take_from cpu r
        ≡ some (
          t,
          record {
            tasks = fetched t r.tasks;
            queues = update r.queues cpu (ls ++ rs);
            ready_counts = dec_ready cpu r.ready_counts;
          },
        )
      → r.queues cpu ≡ ls ++ (t ∷ rs)
      → Taken cpu r

pub take_from-Taken : (cpu : ℕ) (r : Run) → Taken cpu r
unfolding take_from fetch
take_from-Taken cpu r =
    elim (remove_at-Removed (min_loop r.tasks.pass 0 word_max 0 (r.queues cpu)) (r.queues cpu)) [
      | nothing e ↦ nothing (rw (e, take_from, fetch) refl)
      | one ls t rs e f ↦ one ls t rs (rw (e, take_from, fetch) refl) f
    ]

dec_ready-IsCounted :
    (cpu : ℕ) (r : Run) (s : Tasks) (ls : List ℕ) (t : ℕ) (rs : List ℕ)
    → r.queues cpu ≡ ls ++ (t ∷ rs)
    → IsCounted r
    → IsCounted (record {
      tasks = s;
      queues = update r.queues cpu (ls ++ rs);
      ready_counts = dec_ready cpu r.ready_counts;
    })
unfolding IsCounted
dec_ready-IsCounted cpu r s ls t rs e c i h =
    let total : length (r.queues cpu) ≡ length ls + suc (length rs) =
      ap length e ∙ length-append ls (t ∷ rs) in
    ground (arith, c i h, total, length-append ls rs)

put_on-IsCounted : (cpu t : ℕ) (r : Run) → IsCounted r → IsCounted (put_on cpu t r)
unfolding IsCounted
put_on-IsCounted cpu t r c i h = ground (arith, c i h, length-append (r.queues cpu) (t ∷ []))

-- `enqueue_ready` keeps the counts equal to the lengths of the queues.
pub enqueue_ready-IsCounted :
    (cpu t : ℕ) (r : Run) → IsCounted r → IsCounted (enqueue_ready cpu t r).0
unfolding enqueue_ready IsCounted
enqueue_ready-IsCounted cpu t r c = elim (Bool-cases (r.tasks.in_run_queue t)) [
  | inl y ↦ rw y c
  | inr n ↦ elim (Bool-cases (is_exited (r.tasks.status t))) [
    | inl y ↦ rw (n, y) c
    | inr m ↦ rw (n, m) (put_on-IsCounted cpu t r c)
  ]
]

sort_stolen-IsCounted :
    (cpu victim t : ℕ) (ok : Bool) (first : Option ℕ) (r : Run)
    → IsCounted r
    → IsCounted (sort_stolen cpu victim t ok first r).1
sort_stolen-IsCounted cpu victim t false first r c = put_on-IsCounted victim t r c
sort_stolen-IsCounted cpu victim t true none r c = c
sort_stolen-IsCounted cpu victim t true (some f) r c = put_on-IsCounted cpu t r c

steal-IsCounted :
    (cpu victim n : ℕ) (first : Option ℕ) (r : Run)
    → IsCounted r
    → IsCounted (steal cpu victim n first r).1
unfolding steal
steal-IsCounted cpu victim zero first r c = c
steal-IsCounted cpu victim (suc n) first r c = elim (take_from-Taken victim r) [
  | nothing e ↦ rw (e, steal) c
  | one ls t rs e split ↦
      let r' : Run = record {
        tasks = fetched t r.tasks;
        queues = update r.queues victim (ls ++ rs);
        ready_counts = dec_ready victim r.ready_counts;
      } in
      let next = sort_stolen cpu victim t (is_ready (r'.tasks.status t)) first r' in
      rw (e, steal)
        (steal-IsCounted cpu victim n next.0 next.1 (
          sort_stolen-IsCounted cpu victim t (is_ready (r'.tasks.status t)) first r'
            (dec_ready-IsCounted victim r (fetched t r.tasks) ls t rs split c)))
]

steal_from-IsCounted :
    (cpu : ℕ) (locked : Bool) (best : Option ℕ × ℕ) (r : Run)
    → IsCounted r
    → IsCounted (steal_from cpu locked best r).1
steal_from-IsCounted cpu locked (none, n) r c = c
steal_from-IsCounted cpu true (some victim, n) r c = elim (Bool-cases (leb 2 n)) [
  | inl y ↦ rw y c
  | inr m ↦ rw m c
]
steal_from-IsCounted cpu false (some victim, n) r c = elim (Bool-cases (leb 2 n)) [
  | inl y ↦ rw y (steal-IsCounted cpu victim (if n / 2 == 0 then 1 else n / 2) none r c)
  | inr m ↦ rw m c
]

-- `fetch_next_task` keeps the counts equal to the lengths of the queues, whether it takes a task of its
-- own CPU, steals or finds the queue of the other CPU locked.
pub fetch_next_task-IsCounted :
    (cpu cpu_count : ℕ) (locked : Bool) (r : Run)
    → IsCounted r
    → IsCounted (fetch_next_task cpu cpu_count locked r).1
unfolding fetch_next_task
fetch_next_task-IsCounted cpu cpu_count locked r c = elim (take_from-Taken cpu r) [
  | nothing e ↦
      rw (e, fetch_next_task)
        (steal_from-IsCounted cpu locked
          (busiest cpu (min cpu_count max_cpus) 0 r.ready_counts none 0) r c)
  | one ls t rs e split ↦
      rw (e, fetch_next_task) (dec_ready-IsCounted cpu r (fetched t r.tasks) ls t rs split c)
]

steal_first-IsCounted :
    (victim n : ℕ) (r : Run) → IsCounted r → IsCounted (steal_first victim n r).1
unfolding steal_first
steal_first-IsCounted victim zero r c = c
steal_first-IsCounted victim (suc n) r c = elim (take_from-Taken victim r) [
  | nothing e ↦ rw (e, steal_first) c
  | one ls t rs e split ↦
      let r' : Run = record {
        tasks = fetched t r.tasks;
        queues = update r.queues victim (ls ++ rs);
        ready_counts = dec_ready victim r.ready_counts;
      } in
      let c' = dec_ready-IsCounted victim r (fetched t r.tasks) ls t rs split c in
      elim (Bool-cases (is_ready (r'.tasks.status t))) [
        | inl y ↦ rw (e, steal_first) (rw y c')
        | inr m ↦
            rw (e, steal_first)
              (rw m (
                steal_first-IsCounted victim n (put_on victim t r')
                  (put_on-IsCounted victim t r' c')))
      ]
]

steal_first_from-IsCounted :
    (locked : Bool) (best : Option ℕ × ℕ) (r : Run)
    → IsCounted r
    → IsCounted (steal_first_from locked best r).1
steal_first_from-IsCounted locked (none, n) r c = c
steal_first_from-IsCounted true (some victim, n) r c = elim (Bool-cases (leb 2 n)) [
  | inl y ↦ rw y c
  | inr m ↦ rw m c
]
steal_first_from-IsCounted false (some victim, n) r c = elim (Bool-cases (leb 2 n)) [
  | inl y ↦ rw y (steal_first-IsCounted victim (if n / 2 == 0 then 1 else n / 2) r c)
  | inr m ↦ rw m c
]

-- `fetch_next_task_try` keeps the counts equal to the lengths of the queues, whichever locks are free.
pub fetch_next_task_try-IsCounted :
    (cpu cpu_count : ℕ) (own_locked locked : Bool) (r : Run)
    → IsCounted r
    → IsCounted (fetch_next_task_try cpu cpu_count own_locked locked r).1
unfolding fetch_next_task_try
fetch_next_task_try-IsCounted cpu cpu_count true locked r c = c
fetch_next_task_try-IsCounted cpu cpu_count false locked r c = elim (take_from-Taken cpu r) [
  | nothing e ↦
      rw (e, fetch_next_task_try)
        (steal_first_from-IsCounted locked
          (busiest cpu (min cpu_count max_cpus) 0 r.ready_counts none 0) r c)
  | one ls t rs e split ↦
      rw (e, fetch_next_task_try) (dec_ready-IsCounted cpu r (fetched t r.tasks) ls t rs split c)
]
