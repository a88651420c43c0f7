-- ===== src/Tests/Threads.antt =====
-- Threads that are moved and joined, and a pool of two workers.
use cracen.Base.{
  ℕ, ◌+◌, ◌-◌, ◌^◌, ◌<◌, ◌≡◌, refl, ◌⊎◌, true, false, List, [], ◌∷◌, ◌++◌, none, some, length, All,
}
use cracen.Thread.{
  Threads, Command, spawns, move_constructs, move_assigns, destroys, empty, step, run, release,
}
use cracen.Thread.Ownership.{owners, endings, run-start-Accounted}
use cracen.Thread.Safety.{IsSound, is_careful, careful_use}
use cracen.ThreadPool.{
  testing, popping, executing, left, ThreadPool, make_pool, Event, execs, submits, works, destructs,
}
use cracen.ThreadPool
use cracen.AtomicQueue.{push, make, size, try_pop}
use cracen.ThreadPool.Drain.{all_left, run-all_left}
use cracen.ThreadPool.Join.{CanStep, destructor_ends}

-- Two threads; the second one is moved over the first one, which is joined.
abbrev moves : List Command
moves = spawns ∷ spawns ∷ move_assigns 0 1 ∷ []

abbrev moved : Threads
moved = record {
  objects = record { thread = some 1; running = true } ∷ empty ∷ [];
  started = 2;
  ended = 0 ∷ [];
}

run-start-Accounted_example : owners 1 moved.objects + endings 1 moved.ended ≡ 1
unfolding run step release
run-start-Accounted_example = run-start-Accounted 1 moves moved refl

careful_use_example :
    ((c : Command)
      → is_careful c moved ≡ true
      → (r : Threads) × (step c moved ≡ some r) × All IsSound r.objects)
    × ((j : ℕ)
        → is_careful (move_constructs j) moved ≡ false
        → run (move_constructs j ∷ destroys 2 ∷ []) moved ≡ none)
careful_use_example = careful_use moved (refl, (refl, tt))

-- Two tasks, the first of which submits a third one after the destructor has begun.
abbrev life : List (Event ℕ)
life = execs 7 ∷ execs 8 ∷ works 0 ∷ works 0 ∷ destructs ∷ submits 0 9 ∷ []

abbrev begun : ThreadPool ℕ
begun = record {
  running = false;
  tasks = record { items = 8 ∷ 9 ∷ []; max_size = 2 ^ 64 - 1; active = true };
  workers = executing ∷ testing ∷ [];
  submitted = 7 ∷ 8 ∷ 9 ∷ [];
  executed = 7 ∷ [];
}

run-all_left_example :
    (begun.executed ++ begun.tasks.items ≡ begun.submitted)
    × (all_left begun.workers ≡ true → begun.executed ≡ begun.submitted)
unfolding ThreadPool.run ThreadPool.step make_pool push make try_pop
run-all_left_example = run-all_left 1 life tt

-- The second worker takes both tasks that wait; then both leave.
abbrev turns : List ℕ
turns = 1 ∷ 1 ∷ 1 ∷ 0 ∷ 1 ∷ 1 ∷ 1 ∷ 1 ∷ 0 ∷ []

abbrev joined : ThreadPool ℕ
joined = record {
  running = false;
  tasks = record { items = []; max_size = 2 ^ 64 - 1; active = true };
  workers = left ∷ left ∷ [];
  submitted = 7 ∷ 8 ∷ 9 ∷ [];
  executed = 7 ∷ 8 ∷ 9 ∷ [];
}

destructor_ends_example :
    (length turns < 21)
    × (((all_left joined.workers ≡ true) × (joined.executed ≡ begun.submitted))
        ⊎ ((i : ℕ) × CanStep i joined))
unfolding ThreadPool.run ThreadPool.step make_pool push make try_pop size
destructor_ends_example = destructor_ends 1 life turns tt refl (
  (testing, refl, refl),
  (
    (popping, refl, refl),
    (
      (executing, refl, refl),
      (
        (executing, refl, refl),
        (
          (testing, refl, refl),
          (
            (popping, refl, refl),
            ((executing, refl, refl), ((testing, refl, refl), ((testing, refl, refl), tt))),
          ),
        ),
      ),
    ),
  ),
)
