-- ===== src/Task/RunQueue/Examples.antt =====
-- The theorems on the run queues at concrete queues.
use old_boruixkernel.Common.{
  ℕ, ◌+◌, ◌≤◌, ◌<◌, ◌≡◌, refl, true, false, some, List, [], ◌∷◌, ◌++◌, arith, All, ◌%◌, word_mod,
  ◌==◌, if◌then◌else◌,
}
use old_boruixkernel.Task.WaitQueue.{ready, update}
use old_boruixkernel.Task.RunQueue.{
  Tasks, Run, fetch, fetched, take_from, steal, enqueue_ready, fetch_next_task, dec_ready, min_loop,
  remove_at,
}
use old_boruixkernel.Task.RunQueue.Fetch.{fetch-least}
use old_boruixkernel.Task.RunQueue.Ready.{IsCounted, fetch_next_task-IsCounted}
use old_boruixkernel.Task.RunQueue.Stolen.{steal_queues_twice}

-- Each task's pass is its number.
abbrev tasks : Tasks
tasks = record { pass = λ t. t; stride = λ _. 10; status = λ _. ready; in_run_queue = λ _. true }

-- The second CPU has three tasks, and the others none.
abbrev busy : Run
busy = record {
  tasks = tasks;
  queues = λ cpu. if cpu == 1 then 5 ∷ 4 ∷ 6 ∷ [] else [];
  ready_counts = λ cpu. if cpu == 1 then 3 else 0;
}

busy-IsCounted : IsCounted busy
unfolding IsCounted
busy-IsCounted i h = ground arith

fetch-least_example :
    (ls : List ℕ) × (t : ℕ) × (rs : List ℕ) × (s' : Tasks) × (5 ∷ 4 ∷ 6 ∷ [] ≡ ls ++ (t ∷ rs))
    × (fetch tasks (5 ∷ 4 ∷ 6 ∷ []) ≡ some (t, ls ++ rs, s'))
    × All (λ u. t < u) ls
    × All (λ u. t ≤ u) rs
    × (s'.in_run_queue t ≡ false)
    × (s'.pass t ≡ (t + 10) % word_mod)
fetch-least_example = fetch-least tasks 5 (4 ∷ 6 ∷ []) (omega arith)

fetch_next_task-IsCounted_example : IsCounted (fetch_next_task 0 2 false busy).1
fetch_next_task-IsCounted_example = fetch_next_task-IsCounted 0 2 false busy busy-IsCounted

abbrev after_first : Run
after_first = record {
  tasks = fetched 4 tasks;
  queues = update busy.queues 1 (5 ∷ 6 ∷ []);
  ready_counts = dec_ready 1 busy.ready_counts;
}

abbrev after_second : Run
after_second = record {
  tasks = fetched 5 after_first.tasks;
  queues = update after_first.queues 1 (6 ∷ []);
  ready_counts = dec_ready 1 after_first.ready_counts;
}

second : take_from 1 after_first ≡ some (5, after_second)
unfolding take_from fetch min_loop remove_at
second = refl

steal_queues_twice_example :
    let stolen = steal 0 1 1 (some 4) after_first in
    (stolen.0 ≡ some 4)
    × (stolen.1.queues 0 ≡ 5 ∷ [])
    × ((enqueue_ready 0 5 stolen.1).1 ≡ true)
    × ((enqueue_ready 0 5 stolen.1).0.queues 0 ≡ 5 ∷ 5 ∷ [])
steal_queues_twice_example = steal_queues_twice 0 1 4 5 after_first after_second second refl
