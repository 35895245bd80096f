-- ===== src/Task/WaitQueue/Waiting.antt =====
-- When `wait_while` and `wait` return, and who is in the queue.
use old_boruixkernel.Common.{
  ℕ, zero, suc, ◌<◌, ◌≤◌, ◌≡◌, refl, Bool, true, false, none, some, List, [], ◌∷◌, ◌++◌, ◌||◌,
  arith, Bool-cases, inl, inr,
}
use old_boruixkernel.Task.WaitQueue.{World, any_pid, fall_asleep, wait_while, wait, waiting}

-- A task that calls `wait` never returns from it, whatever the others do and however often they
-- wake it: each time it goes back to sleep.
pub wait_never_returns :
    (fuel pid : ℕ) (block : World → World) (w : World) → wait fuel (some pid) block w ≡ none
unfolding wait
wait_never_returns zero pid block w = refl
wait_never_returns (suc fuel) pid block w =
    wait_never_returns fuel pid block (block (fall_asleep pid w))

-- The world when the task has slept `n` times.
unfoldable pub asleep : ℕ → ℕ → (World → World) → World → World
asleep zero pid block w = w
asleep (suc n) pid block w = asleep n pid block (block (fall_asleep pid w))

-- `wait_while` returns where its condition becomes false: with fuel for one round more than the task
-- sleeps, it ends in a world in which the condition is false, which is the one after the `m` sleeps
-- before it, `m` at most the number after which the condition is known to be false.
pub wait_while-asleep :
    (n fuel pid : ℕ) (condition : World → Bool) (block : World → World) (w : World)
    → condition (asleep n pid block w) ≡ false
    → n < fuel
    → (m : ℕ) × (m ≤ n)
      × (wait_while fuel (some pid) condition block w ≡ some (asleep m pid block w))
      × (condition (asleep m pid block w) ≡ false)
unfolding wait_while asleep
wait_while-asleep n zero pid condition block w e h = ground arith
wait_while-asleep zero (suc fuel) pid condition block w e h =
    (0, omega arith, rw (e, wait_while) refl, e)
wait_while-asleep (suc n) (suc fuel) pid condition block w e h = elim (Bool-cases (condition w)) [
  | inr done ↦ (0, omega arith, rw (done, wait_while) refl, done)
  | inl again ↦
      let (m, le, q, f) =
        wait_while-asleep n fuel pid condition block (block (fall_asleep pid w)) e (omega arith) in
      (suc m, omega arith, rw (again, wait_while) q, f)
]

-- No task is in the queue twice.
abbrev pub Distinct : List ℕ → Type 0
Distinct [] = Unit {0}
Distinct (x ∷ xs) = (any_pid x xs ≡ false) × Distinct xs

any_pid-append :
    (pid : ℕ) (xs ys : List ℕ) → any_pid pid (xs ++ ys) ≡ any_pid pid xs || any_pid pid ys
unfolding any_pid
any_pid-append pid [] ys = refl
any_pid-append pid (x ∷ xs) ys = ground (arith, any_pid-append pid xs ys)

Distinct-append :
    (xs : List ℕ) (pid : ℕ) → Distinct xs → any_pid pid xs ≡ false → Distinct (xs ++ (pid ∷ []))
unfolding any_pid
Distinct-append [] pid d n = (refl, tt)
Distinct-append (x ∷ xs) pid d n =
    (ground (arith, any_pid-append x xs (pid ∷ [])), Distinct-append xs pid d.1 (ground arith))

-- A task that falls asleep is in the queue once, is waiting, and is out of the run queue; no task is
-- in the queue twice.
pub fall_asleep_lem :
    (pid : ℕ) (w : World)
    → Distinct w.waiters
    → let w' = fall_asleep pid w in
      Distinct w'.waiters
      × (any_pid pid w'.waiters ≡ true)
      × (w'.status pid ≡ waiting)
      × (w'.in_run_queue pid ≡ false)
unfolding fall_asleep any_pid
fall_asleep_lem pid w d = elim (Bool-cases (any_pid pid w.waiters)) [
  | inl y ↦ rw y (d, y, ground arith, ground arith)
  | inr n ↦ rw n (
    Distinct-append w.waiters pid d n,
    ground (arith, any_pid-append pid w.waiters (pid ∷ [])),
    ground arith,
    ground arith,
  )
]
