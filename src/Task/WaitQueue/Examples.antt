-- ===== src/Task/WaitQueue/Examples.antt =====
-- The theorems on the wait queue at concrete queues.
use old_boruixkernel.Common.{ℕ, ◌≤◌, ◌≡◌, refl, Bool, true, false, none, some, [], ◌∷◌, arith}
use old_boruixkernel.Task.WaitQueue.{World, running, any_pid, fall_asleep, wait_while, wait}
use old_boruixkernel.Task.WaitQueue.Waiting.{
  wait_never_returns, asleep, wait_while-asleep, Distinct,
}

abbrev world : World
world = record { waiters = 8 ∷ []; status = λ _. running; in_run_queue = λ _. true }

-- A wake-up that empties the queue.
abbrev emptied : World → World
emptied w = record w { waiters = [] }

abbrev someone_waits : World → Bool
someone_waits w = any_pid 8 w.waiters

wait_never_returns_example : wait 20 (some 7) emptied world ≡ none
wait_never_returns_example = wait_never_returns 20 7 emptied world

emptied_at_last : someone_waits (asleep 1 7 emptied world) ≡ false
unfolding any_pid asleep fall_asleep
emptied_at_last = refl

wait_while-asleep_example :
    (m : ℕ) × (m ≤ 1)
    × (wait_while 3 (some 7) someone_waits emptied world ≡ some (asleep m 7 emptied world))
    × (someone_waits (asleep m 7 emptied world) ≡ false)
wait_while-asleep_example =
    wait_while-asleep 1 3 7 someone_waits emptied world emptied_at_last (omega arith)

-- The queue has no task twice.
world-Distinct : Distinct (8 ∷ [])
unfolding any_pid
world-Distinct = (refl, tt)
