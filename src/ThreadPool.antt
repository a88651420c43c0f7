-- ===== src/ThreadPool.antt =====
-- include/cracen2/util/ThreadPool.hpp: tasks in an AtomicQueue, and the workers that run them. One
-- step of a worker is one test of the loop, one `tryPop`, or the return of the task that it gave.
pub mod Drain
pub mod Join
use cracen.Base.{
  ℕ, ◌+◌, ◌^◌, ◌-◌, Bool, true, false, ◌||◌, List, [], ◌∷◌, ◌++◌, Option, none, some, replicate,
  set, get_elem?, length, ltb, if◌then◌else◌,
}
use cracen.AtomicQueue.{AtomicQueue, Attempt, returns, waits, throws, make, push, try_pop, size}

-- Where a worker is in `run`: before the test of the loop, before `tryPop`, in a task, or behind the loop.
pub data Worker : Type 0 where
  testing popping executing left : Worker

-- `submitted` are all tasks that were pushed, `executed` those that a worker has started; oldest first.
pub record ThreadPool (T : Type 0) : Type 0 where
  pub running : Bool
  pub tasks : AtomicQueue T
  pub workers : List Worker
  pub submitted : List T
  pub executed : List T

module _ {T : Type 0} where
  unfoldable pub make_pool : ℕ → ThreadPool T
  make_pool thread_count = record {
    running = true;
    tasks = make (2 ^ 64 - 1);
    workers = replicate thread_count testing;
    submitted = [];
    executed = [];
  }

  -- `while(running or tasks.size() > 0)`
  test_loop : ThreadPool T → Worker
  test_loop p = if p.running || ltb 0 (size p.tasks) then popping else left

  after_pop : ℕ → ThreadPool T → Attempt (AtomicQueue T) (Option T) → ThreadPool T
  after_pop i p (returns none q) = record p { tasks = q; workers = set p.workers i testing }
  after_pop i p (returns (some task) q) = record p {
    tasks = q;
    workers = set p.workers i executing;
    executed = p.executed ++ (task ∷ []);
  }
  after_pop i p waits = p
  after_pop i p throws = p

  -- A step of worker `i`, by where it is.
  work : ℕ → Option Worker → ThreadPool T → ThreadPool T
  unfolding test_loop after_pop
  work i none p = p
  work i (some testing) p = record p { workers = set p.workers i (test_loop p) }
  work i (some popping) p = after_pop i p (try_pop p.tasks)
  work i (some executing) p = record p { workers = set p.workers i testing }
  work i (some left) p = p

  after_push : T → ThreadPool T → Attempt (AtomicQueue T) (Unit {0}) → ThreadPool T
  after_push task p (returns _ q) = record p { tasks = q; submitted = p.submitted ++ (task ∷ []) }
  after_push task p waits = p
  after_push task p throws = p

  -- The task that worker `i` executes submits another one.
  submit : Option Worker → T → ThreadPool T → ThreadPool T
  unfolding after_push
  submit (some executing) task p = after_push task p (push task p.tasks)
  submit _ task p = p

-- A call of `exec` or `async`, which push a task, from outside or by the task that a worker executes;
-- a step of a worker; and the start of the destructor, which is `running = false`.
pub data Event (T : Type 0) : Type 0 where
  execs : T → Event T
  submits : ℕ → T → Event T
  works : ℕ → Event T
  destructs : Event T

module _ {T : Type 0} where
  unfoldable pub step : Event T → ThreadPool T → ThreadPool T
  unfolding work after_push submit
  step (execs task) p = after_push task p (push task p.tasks)
  step (submits i task) p = submit (get_elem? p.workers i) task p
  step (works i) p = work i (get_elem? p.workers i) p
  step destructs p = record p { running = false }

  unfoldable pub run : List (Event T) → ThreadPool T → ThreadPool T
  run [] p = p
  run (e ∷ es) p = run es (step e p)
