-- ===== src/ThreadPool/Drain.antt =====
-- The workers take the tasks in order, and all of them leave only when no task is left.
use cracen.Base.{
  ℕ, zero, suc, ◌≡◌, refl, ap, ◌∙◌, sym, Bool, true, false, ◌&&◌, List, [], ◌∷◌, ◌++◌, Option, none,
  some, set, get_elem?, arith, append_assoc, append-nil,
}
use cracen.AtomicQueue.{make, push, try_pop, size}
use cracen.ThreadPool.{
  ThreadPool, Worker, testing, popping, executing, left, Event, execs, submits, works, destructs,
  make_pool, test_loop, after_pop, work, after_push, submit, step, run,
}

abbrev pub is_left : Worker → Bool
is_left left = true
is_left _ = false

-- Whether all workers have left their loops.
unfoldable pub all_left : List Worker → Bool
all_left [] = true
all_left (w ∷ workers) = is_left w && all_left workers

-- Only if the new one has left, all have.
all_left-set :
    (workers : List Worker) (i : ℕ) (v w : Worker)
    → get_elem? workers i ≡ some v
    → all_left (set workers i w) ≡ true
    → is_left w ≡ true
unfolding all_left
all_left-set [] i v w at h = absurd (cc)
all_left-set (u ∷ workers) zero v w at h = ground arith
all_left-set (u ∷ workers) (suc i) v w at h = all_left-set workers i v w at (ground arith)

all_left-present :
    (workers : List Worker) (i : ℕ) (v : Worker)
    → get_elem? workers i ≡ some v
    → all_left workers ≡ true
    → is_left v ≡ true
unfolding all_left
all_left-present [] i v at h = absurd (cc)
all_left-present (u ∷ workers) zero v at h = ground arith
all_left-present (u ∷ workers) (suc i) v at h = all_left-present workers i v at (ground arith)

module _ {T : Type 0} where
  -- Nobody outside the pool calls `exec` or `async` behind the start of its destructor; the tasks may.
  abbrev pub NoLateCalls : Bool → List (Event T) → Type 0
  NoLateCalls running [] = Unit
  NoLateCalls true (execs task ∷ es) = NoLateCalls true es
  NoLateCalls false (execs task ∷ es) = ⊥
  NoLateCalls running (submits i task ∷ es) = NoLateCalls running es
  NoLateCalls running (works i ∷ es) = NoLateCalls running es
  NoLateCalls running (destructs ∷ es) = NoLateCalls false es

  pub record IsInOrder (p : ThreadPool T) : Type 0 where
    pub order : p.executed ++ p.tasks.items ≡ p.submitted
    pub active : p.tasks.active ≡ true
    pub drained : all_left p.workers ≡ true → (p.running ≡ false) × (p.tasks.items ≡ [])

  -- A push while some worker has not left.
  push-IsInOrder :
      (task : T) (p : ThreadPool T)
      → (all_left p.workers ≡ true → ⊥)
      → IsInOrder p
      → IsInOrder (after_push task p (push task p.tasks))
  unfolding after_push push
  push-IsInOrder task p busy v =
      ground (arith, append_assoc p.executed p.tasks.items (task ∷ []), v.drained, busy)

  submits-IsInOrder :
      (i : ℕ) (o : Option Worker) (task : T) (p : ThreadPool T)
      → get_elem? p.workers i ≡ o
      → IsInOrder p
      → IsInOrder (submit o task p)
  unfolding submit
  submits-IsInOrder i none task p e v = v
  submits-IsInOrder i (some testing) task p e v = v
  submits-IsInOrder i (some popping) task p e v = v
  submits-IsInOrder i (some left) task p e v = v
  submits-IsInOrder i (some executing) task p e v =
      push-IsInOrder task p (λ h. absurd (cc (all_left-present p.workers i executing e h))) v

  testing-IsInOrder :
      (i : ℕ) (p : ThreadPool T) (items : List T)
      → p.tasks.items ≡ items
      → get_elem? p.workers i ≡ some testing
      → IsInOrder p
      → IsInOrder (work i (some testing) p)
  unfolding work test_loop size
  testing-IsInOrder i p [] e at v = record {
    order = v.order;
    active = v.active;
    drained = λ h. ground (arith, all_left-set p.workers i testing (test_loop p) at);
  }
  testing-IsInOrder i p (x ∷ items) e at v = record {
    order = v.order;
    active = v.active;
    drained = λ h. ground (arith, all_left-set p.workers i testing (test_loop p) at);
  }

  popping-IsInOrder :
      (i : ℕ) (p : ThreadPool T) (items : List T)
      → p.tasks.items ≡ items
      → get_elem? p.workers i ≡ some popping
      → IsInOrder p
      → IsInOrder (work i (some popping) p)
  unfolding work after_pop try_pop
  popping-IsInOrder i p [] e at v = ground (arith, all_left-set p.workers i popping testing at)
  popping-IsInOrder i p (x ∷ items) e at v =
      ground (
        arith,
        append_assoc p.executed (x ∷ []) items,
        all_left-set p.workers i popping executing at,
      )

  executing-IsInOrder :
      (i : ℕ) (p : ThreadPool T)
      → get_elem? p.workers i ≡ some executing
      → IsInOrder p
      → IsInOrder (work i (some executing) p)
  unfolding work
  executing-IsInOrder i p at v = record {
    order = v.order;
    active = v.active;
    drained = λ h. absurd (cc (all_left-set p.workers i executing testing at h));
  }

  work-IsInOrder :
      (i : ℕ) (o : Option Worker) (p : ThreadPool T)
      → get_elem? p.workers i ≡ o
      → IsInOrder p
      → IsInOrder (work i o p)
  unfolding work
  work-IsInOrder i none p at v = v
  work-IsInOrder i (some testing) p at v = testing-IsInOrder i p p.tasks.items refl at v
  work-IsInOrder i (some popping) p at v = popping-IsInOrder i p p.tasks.items refl at v
  work-IsInOrder i (some executing) p at v = executing-IsInOrder i p at v
  work-IsInOrder i (some left) p at v = v

  after_push-running :
      (task : T) (p : ThreadPool T) → (after_push task p (push task p.tasks)).running ≡ p.running
  unfolding after_push push
  after_push-running task p = ground arith

  work-running : (i : ℕ) (o : Option Worker) (p : ThreadPool T) → (work i o p).running ≡ p.running
  unfolding work after_pop try_pop
  work-running i none p = refl
  work-running i (some testing) p = refl
  work-running i (some popping) p = ground arith
  work-running i (some executing) p = refl
  work-running i (some left) p = refl

  submit-running :
      (o : Option Worker) (task : T) (p : ThreadPool T) → (submit o task p).running ≡ p.running
  unfolding submit
  submit-running none task p = refl
  submit-running (some testing) task p = refl
  submit-running (some popping) task p = refl
  submit-running (some executing) task p = after_push-running task p
  submit-running (some left) task p = refl

  pub run-IsInOrder :
      (es : List (Event T)) (r : Bool) (p : ThreadPool T)
      → p.running ≡ r
      → NoLateCalls r es
      → IsInOrder p
      → IsInOrder (run es p)
  unfolding run step
  run-IsInOrder [] r p e late v = v
  run-IsInOrder (execs task ∷ es) true p e late v =
      run-IsInOrder es true (step (execs task) p) (after_push-running task p ∙ e) late
        (push-IsInOrder task p (λ h. cc ((v.drained h).0)) v)
  run-IsInOrder (execs task ∷ es) false p e late v = absurd late
  run-IsInOrder (submits i task ∷ es) r p e late v =
      run-IsInOrder es r (step (submits i task) p)
        (submit-running (get_elem? p.workers i) task p ∙ e) late
        (submits-IsInOrder i (get_elem? p.workers i) task p refl v)
  run-IsInOrder (works i ∷ es) r p e late v =
      run-IsInOrder es r (step (works i) p) (work-running i (get_elem? p.workers i) p ∙ e) late
        (work-IsInOrder i (get_elem? p.workers i) p refl v)
  run-IsInOrder (destructs ∷ es) r p e late v =
      run-IsInOrder es false (step destructs p) refl late
        (record { order = v.order; active = v.active; drained = λ h. (refl, (v.drained h).1) })

  pub make_pool-IsInOrder : (n : ℕ) → IsInOrder (make_pool (suc n))
  unfolding make_pool make all_left
  make_pool-IsInOrder n = record { order = refl; active = refl; drained = λ h. absurd (cc) }

  pub drained-executed :
      (p : ThreadPool T) → IsInOrder p → all_left p.workers ≡ true → p.executed ≡ p.submitted
  drained-executed p v h =
      sym (append-nil p.executed) ∙ ap (λ l. p.executed ++ l) (sym (v.drained h).1) ∙ v.order

  -- Let a pool have at least one worker, and nobody outside it submit a task behind the start of its
  -- destructor; the tasks themselves may, also then. Whatever the callers, the workers, the tasks and
  -- the destructor do, in any order: the tasks that were started, in their order, and those that wait
  -- are the tasks that were submitted, in theirs; and once all workers have left their loops, all
  -- submitted tasks have been started, each once and in order.
  pub run-all_left :
      (n : ℕ) (es : List (Event T))
      → NoLateCalls true es
      → let p = run es (make_pool (suc n)) in
        (p.executed ++ p.tasks.items ≡ p.submitted)
        × (all_left p.workers ≡ true → p.executed ≡ p.submitted)
  unfolding make_pool
  run-all_left n es late =
      let p = run es (make_pool (suc n)) in
      let v = run-IsInOrder es true (make_pool (suc n)) refl late (make_pool-IsInOrder n) in
      (v.order, drained-executed p v)
