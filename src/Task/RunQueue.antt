-- ===== src/Task/RunQueue.antt =====
-- The run queues, kernel_task/src/task/runqueue.rs: stride scheduling on each CPU, and stealing from
-- the CPU with the most tasks. A task is a number, and what its control block holds stands in a store.
-- The calling CPU is an argument, and `with_preempt_disabled` leaves no trace: an operation is not
-- interrupted. A lock that is not free to `try_lock` is the argument `locked`.
pub mod Fetch
pub mod Ready
pub mod Stolen
pub mod Busiest
mod Examples
use old_boruixkernel.Common.{
  ℕ, zero, suc, ◌+◌, ◌-◌, ◌/◌, ◌%◌, Bool, true, false, Option, none, some, List, [], ◌∷◌, ◌++◌, ltb,
  leb, ◌==◌, if◌then◌else◌, min, length, word_max, word_mod, not,
}
use old_boruixkernel.Task.WaitQueue.{TaskStatus, ready, running, waiting, exited, update}

pub record Tasks : Type 0 where
  pub pass : ℕ → ℕ
  pub stride : ℕ → ℕ
  pub status : ℕ → TaskStatus
  pub in_run_queue : ℕ → Bool

abbrev pub max_cpus : ℕ
max_cpus = 64

pub record Run : Type 0 where
  pub tasks : Tasks
  pub queues : ℕ → List ℕ
  pub ready_counts : ℕ → ℕ

-- The `for` loop of `fetch`, from index `idx`: the least pass and its first index.
unfoldable pub min_loop : (ℕ → ℕ) → ℕ → ℕ → ℕ → List ℕ → ℕ
min_loop pass idx min_pass min_idx [] = min_idx
min_loop pass idx min_pass min_idx (t ∷ ts) =
    let better = ltb (pass t) min_pass in
    min_loop pass (idx + 1) (if better then pass t else min_pass) (if better then idx else min_idx)
      ts

-- `VecDeque::remove`.
unfoldable pub remove_at : ℕ → List ℕ → Option (ℕ × List ℕ)
remove_at i [] = none
remove_at zero (t ∷ ts) = some (t, ts)
remove_at (suc i) (t ∷ ts) = elim (remove_at i ts) [ none ↦ none | some (u, us) ↦ some (u, t ∷ us) ]

-- What `fetch` does to the task that it takes.
abbrev pub fetched : ℕ → Tasks → Tasks
fetched t s = record s {
  in_run_queue = update s.in_run_queue t false;
  pass = update s.pass t ((s.pass t + s.stride t) % word_mod);
}

-- `TaskManager::fetch`.
unfoldable pub fetch : Tasks → List ℕ → Option (ℕ × List ℕ × Tasks)
unfolding min_loop remove_at
fetch s queue = elim (remove_at (min_loop s.pass 0 word_max 0 queue) queue) [
  | none ↦ none
  | some (t, rest) ↦ some (t, rest, fetched t s)
]

-- `TaskManager::add`.
abbrev pub add : ℕ → List ℕ → List ℕ
add t queue = queue ++ (t ∷ [])

abbrev pub inc_ready : ℕ → (ℕ → ℕ) → ℕ → ℕ
inc_ready cpu counts =
    if ltb cpu max_cpus then update counts cpu ((counts cpu + 1) % word_mod) else counts

abbrev pub dec_ready : ℕ → (ℕ → ℕ) → ℕ → ℕ
dec_ready cpu counts =
    if ltb cpu max_cpus then update counts cpu ((counts cpu + word_mod - 1) % word_mod) else counts

abbrev pub get_ready : ℕ → (ℕ → ℕ) → ℕ
get_ready cpu counts = if ltb cpu max_cpus then counts cpu else 0

abbrev pub is_exited : TaskStatus → Bool
is_exited exited = true
is_exited _ = false

abbrev pub is_ready : TaskStatus → Bool
is_ready ready = true
is_ready _ = false

unfoldable pub enqueue_ready : ℕ → ℕ → Run → Run × Bool
enqueue_ready cpu t r =
    if r.tasks.in_run_queue t
    then (r, false)
    else if is_exited (r.tasks.status t)
    then (
      record r { tasks = record (r.tasks) { in_run_queue = update r.tasks.in_run_queue t false } },
      false,
    )
    else (
      record {
        tasks = record (r.tasks) {
          in_run_queue = update r.tasks.in_run_queue t true;
          status = update r.tasks.status t ready;
        };
        queues = update r.queues cpu (add t (r.queues cpu));
        ready_counts = inc_ready cpu r.ready_counts;
      },
      true,
    )

-- A `fetch` from the queue of a CPU and the count that goes with it.
unfoldable pub take_from : ℕ → Run → Option (ℕ × Run)
unfolding fetch
take_from cpu r = elim (fetch r.tasks (r.queues cpu)) [
  | none ↦ none
  | some (t, rest, s) ↦ some (
    t,
    record {
      tasks = s;
      queues = update r.queues cpu rest;
      ready_counts = dec_ready cpu r.ready_counts;
    },
  )
]

-- `add` to the queue of a CPU and the count that goes with it.
abbrev pub put_on : ℕ → ℕ → Run → Run
put_on cpu t r = record r {
  queues = update r.queues cpu (add t (r.queues cpu));
  ready_counts = inc_ready cpu r.ready_counts;
}

-- The loop that looks for the most loaded CPU other than `cpu`, from `i` with `n` rounds left.
unfoldable pub busiest : ℕ → ℕ → ℕ → (ℕ → ℕ) → Option ℕ → ℕ → Option ℕ × ℕ
busiest cpu zero i counts best best_len = (best, best_len)
busiest cpu (suc n) i counts best best_len =
    let better = if i == cpu then false else ltb best_len (get_ready i counts) in
    busiest cpu n (i + 1) counts (if better then some i else best)
      (if better then get_ready i counts else best_len)

-- What the stealing loop does with a task that it has fetched: a task that is not ready goes back.
abbrev pub sort_stolen : ℕ → ℕ → ℕ → Bool → Option ℕ → Run → Option ℕ × Run
sort_stolen cpu victim t false first r = (first, put_on victim t r)
sort_stolen cpu victim t true none r = (some t, r)
sort_stolen cpu victim t true (some f) r = (some f, put_on cpu t r)

-- The loop of `fetch_next_task` that steals `n` tasks from `victim`.
unfoldable pub steal : ℕ → ℕ → ℕ → Option ℕ → Run → Option ℕ × Run
steal cpu victim zero first r = (first, r)
steal cpu victim (suc n) first r = elim (take_from victim r) [
  | none ↦ (first, r)
  | some (t, r') ↦
      let next = sort_stolen cpu victim t (is_ready (r'.tasks.status t)) first r' in
      steal cpu victim n next.0 next.1
]

abbrev pub steal_from : ℕ → Bool → Option ℕ × ℕ → Run → Option ℕ × Run
steal_from cpu locked (none, best_len) r = (none, r)
steal_from cpu locked (some victim, best_len) r =
    if leb 2 best_len
    then if locked
      then (none, r)
      else steal cpu victim (if best_len / 2 == 0 then 1 else best_len / 2) none r
    else (none, r)

unfoldable pub fetch_next_task : ℕ → ℕ → Bool → Run → Option ℕ × Run
fetch_next_task cpu cpu_count locked r = elim (take_from cpu r) [
  | some (t, r') ↦ (some t, r')
  | none ↦ steal_from cpu locked (busiest cpu (min cpu_count max_cpus) 0 r.ready_counts none 0) r
]

-- The stealing loop of `fetch_next_task_try`, which ends at the first task that is ready.
unfoldable pub steal_first : ℕ → ℕ → Run → Option ℕ × Run
steal_first victim zero r = (none, r)
steal_first victim (suc n) r = elim (take_from victim r) [
  | none ↦ (none, r)
  | some (t, r') ↦
      let rest = steal_first victim n (put_on victim t r') in
      if is_ready (r'.tasks.status t) then (some t, r') else rest
]

abbrev pub steal_first_from : Bool → Option ℕ × ℕ → Run → Option ℕ × Run
steal_first_from locked (none, best_len) r = (none, r)
steal_first_from locked (some victim, best_len) r =
    if leb 2 best_len
    then if locked
      then (none, r)
      else steal_first victim (if best_len / 2 == 0 then 1 else best_len / 2) r
    else (none, r)

-- `own_locked` and `locked` say which of the two locks are not free.
unfoldable pub fetch_next_task_try : ℕ → ℕ → Bool → Bool → Run → Option ℕ × Run
fetch_next_task_try cpu cpu_count true locked r = (none, r)
fetch_next_task_try cpu cpu_count false locked r = elim (take_from cpu r) [
  | some (t, r') ↦ (some t, r')
  | none ↦ steal_first_from locked (busiest cpu (min cpu_count max_cpus) 0 r.ready_counts none 0) r
]
