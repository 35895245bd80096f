-- ===== src/Task/WaitQueue.antt =====
-- The wait queue, kernel_task/src/waitqueue.rs, over the states of the tasks that it changes. Tasks
-- are process numbers. What the other tasks and the scheduler do between the call of
-- `block_current_and_schedule` and its return is the function `block`, of which nothing is assumed;
-- `current_task()` answers the same in every round, since the task itself runs the loop.
pub mod Waiting
mod Examples
use old_boruixkernel.Common.{
  ℕ, zero, suc, Bool, true, false, Option, none, some, List, [], ◌∷◌, ◌++◌, ◌==◌, ◌||◌,
  if◌then◌else◌,
}

pub data TaskStatus : Type 0 where
  ready running waiting exited : TaskStatus

pub record World : Type 0 where
  pub waiters : List ℕ
  pub status : ℕ → TaskStatus
  pub in_run_queue : ℕ → Bool

-- `waiters.iter().any(|t| t.pid == current.pid)`.
pub any_pid : ℕ → List ℕ → Bool
any_pid pid [] = false
any_pid pid (x ∷ xs) = x == pid || any_pid pid xs

abbrev pub update {ℓ} : {A : Type ℓ} → (ℕ → A) → ℕ → A → ℕ → A
update f k v j = if j == k then v else f j

-- The body of `without_interrupts` where the condition holds.
unfoldable pub fall_asleep : ℕ → World → World
unfolding any_pid
fall_asleep pid w = record {
  waiters = if any_pid pid w.waiters then w.waiters else w.waiters ++ (pid ∷ []);
  status = update w.status pid waiting;
  in_run_queue = update w.in_run_queue pid false;
}

-- `wait_while` on fuel; `none` means that it has not returned.
unfoldable pub wait_while : ℕ → Option ℕ → (World → Bool) → (World → World) → World → Option World
unfolding fall_asleep
wait_while zero current condition block w = none
wait_while (suc fuel) none condition block w = some w
wait_while (suc fuel) (some pid) condition block w = elim (condition w) [
  | true ↦ wait_while fuel (some pid) condition block (block (fall_asleep pid w))
  | false ↦ some w
]

unfoldable pub wait : ℕ → Option ℕ → (World → World) → World → Option World
unfolding wait_while
wait fuel current block w = wait_while fuel current (λ _. true) block w

-- `Vec::pop` takes the last entry.
unfoldable pub pop : List ℕ → Option (ℕ × List ℕ)
pop [] = none
pop (x ∷ xs) = elim (pop xs) [ none ↦ some (x, []) | some (y, ys) ↦ some (y, x ∷ ys) ]

-- `wake_one` and `wake_all` hand tasks to `task::add_task_arc`, which is given here. The lines that
-- log the first wake-ups are left out.
unfoldable pub wake_one : (ℕ → World → World) → World → World
unfolding pop
wake_one add w = elim (pop w.waiters) [
  | none ↦ w
  | some (pid, rest) ↦ add pid (record w { waiters = rest })
]

unfoldable pub add_all : (ℕ → World → World) → List ℕ → World → World
add_all add [] w = w
add_all add (x ∷ xs) w = add_all add xs (add x w)

unfoldable pub wake_all : (ℕ → World → World) → World → World
unfolding add_all
wake_all add w = add_all add w.waiters (record w { waiters = [] })
