-- ===== src/ThreadPool/Join.antt =====
-- The joins of the destructor: the workers leave, whichever of them gets its turn when.
use cracen.Base.{
  ℕ, zero, suc, ◌+◌, ◌*◌, ◌<◌, ◌≤◌, ◌≡◌, refl, ap, ◌∙◌, sym, subst, ◌⊎◌, inl, inr, true, false,
  List, [], ◌∷◌, Option, none, some, set, get_elem?, length, length-set, map, arith,
}
use native.Mathlib.Nat.{mul-suc}
use cracen.AtomicQueue.{try_pop, size}
use cracen.ThreadPool.{
  ThreadPool, Worker, testing, popping, executing, left, Event, works, make_pool, test_loop,
  after_pop, work, step, run,
}
use cracen.ThreadPool.Drain.{
  is_left, all_left, NoLateCalls, run-IsInOrder, make_pool-IsInOrder, drained-executed,
}

-- How many steps a worker takes at most before the next task is popped, by whether one waits.
abbrev weight : {T : Type 0} → List T → Worker → ℕ
weight [] testing = 1
weight [] popping = 2
weight [] executing = 2
weight (_ ∷ _) testing = 2
weight (_ ∷ _) popping = 1
weight (_ ∷ _) executing = 3
weight _ left = 0

weight-le : {T : Type 0} (items : List T) (w : Worker) → weight items w ≤ 3
weight-le [] testing = omega arith
weight-le [] popping = omega arith
weight-le [] executing = omega arith
weight-le [] left = omega arith
weight-le (x ∷ items) testing = omega arith
weight-le (x ∷ items) popping = omega arith
weight-le (x ∷ items) executing = omega arith
weight-le (x ∷ items) left = omega arith

module _ {T : Type 0} (items : List T) where
  weights : List Worker → ℕ
  weights [] = 0
  weights (w ∷ workers) = weight items w + weights workers

  weights-le : (workers : List Worker) → weights workers ≤ 3 * length workers
  unfolding weights
  weights-le [] = omega arith
  weights-le (w ∷ workers) = omega (arith, weights-le workers, weight-le items w)

  weights-set :
      (workers : List Worker) (i : ℕ) (v w : Worker)
      → get_elem? workers i ≡ some v
      → weights (set workers i w) + weight items v ≡ weights workers + weight items w
  unfolding weights
  weights-set [] i v w at = absurd (cc)
  weights-set (u ∷ workers) zero v w at = ground arith
  weights-set (u ∷ workers) (suc i) v w at = omega (arith, weights-set workers i v w at)

-- The steps that `n` waiting tasks cost.
abbrev cost : ℕ → ℕ → ℕ
cost k zero = 0
cost k (suc n) = k + cost k n

cost-eq : (k n : ℕ) → cost k n ≡ k * n
cost-eq k zero = omega arith
cost-eq k (suc n) = omega (arith, cost-eq k n, mul-suc k n)

somebody :
    (workers : List Worker)
    → (all_left workers ≡ true)
      ⊎ ((i : ℕ) × (v : Worker) × (get_elem? workers i ≡ some v) × (is_left v ≡ false))
unfolding all_left
somebody [] = inl refl
somebody (left ∷ workers) = elim (somebody workers) [
  | inl all ↦ inl all
  | inr (i, v, at, stays) ↦ inr (suc i, v, at, stays)
]
somebody (testing ∷ workers) = inr (0, testing, refl, refl)
somebody (popping ∷ workers) = inr (0, popping, refl, refl)
somebody (executing ∷ workers) = inr (0, executing, refl, refl)

turn-NoLateCalls : (T : Type 0) (is : List ℕ) → NoLateCalls {T = T} false (map works is)
turn-NoLateCalls T [] = tt
turn-NoLateCalls T (i ∷ is) = turn-NoLateCalls T is

module _ {T : Type 0} where
  total : List T → List Worker → ℕ
  total items workers = cost (3 * length workers + 1) (length items) + weights items workers

  total-set :
      (items : List T) (workers : List Worker) (i : ℕ) (v w : Worker)
      → get_elem? workers i ≡ some v
      → weight items w < weight items v
      → total items (set workers i w) < total items workers
  unfolding total
  total-set items workers i v w at lt =
      let same = ap (λ n. cost (3 * n + 1) (length items)) (length-set workers i w) in
      omega (arith, same, weights-set items workers i v w at)

  total-pop :
      (x : T) (items : List T) (workers : List Worker) (i : ℕ) (w : Worker)
      → total items (set workers i w) < total (x ∷ items) workers
  unfolding total
  total-pop x items workers i w =
      let same = ap (λ n. cost (3 * n + 1) (length items)) (length-set workers i w) in
      omega (arith, same, weights-le items (set workers i w), length-set workers i w)

  abbrev measure : ThreadPool T → ℕ
  measure p = total p.tasks.items p.workers

  -- Worker `i` has not left its loop.
  abbrev pub CanStep : ℕ → ThreadPool T → Type 0
  CanStep i p = (v : Worker) × (get_elem? p.workers i ≡ some v) × (is_left v ≡ false)

  -- In each turn a worker that has not left makes a step.
  abbrev pub Turns : List ℕ → ThreadPool T → Type 0
  Turns [] p = Unit
  Turns (i ∷ is) p = CanStep i p × Turns is (step (works i) p)

  -- `running` is false, `tasks` is not destroyed, and these tasks were submitted.
  abbrev Stopped : List T → ThreadPool T → Type 0
  Stopped submitted p = (p.running ≡ false) × (p.tasks.active ≡ true) × (p.submitted ≡ submitted)

  work-Stopped :
      (submitted : List T) (i : ℕ) (o : Option Worker) (p : ThreadPool T)
      → Stopped submitted p
      → Stopped submitted (work i o p)
  unfolding work after_pop try_pop
  work-Stopped submitted i none p h = h
  work-Stopped submitted i (some testing) p h = h
  work-Stopped submitted i (some popping) p h = ground arith
  work-Stopped submitted i (some executing) p h = h
  work-Stopped submitted i (some left) p h = h

  -- The pool `q` has these waiting tasks and workers.
  lower :
      (p q : ThreadPool T) (items : List T) (workers : List Worker)
      → q.tasks.items ≡ items
      → q.workers ≡ workers
      → total items workers < measure p
      → measure q < measure p
  lower p q items workers e f lt = rw (e, f) lt

  measure-testing :
      (i : ℕ) (p : ThreadPool T) (items : List T)
      → p.running ≡ false
      → p.tasks.items ≡ items
      → get_elem? p.workers i ≡ some testing
      → measure (work i (some testing) p) < measure p
  unfolding work test_loop size
  measure-testing i p [] stopped e at =
      lower p (work i (some testing) p) [] (set p.workers i left) e (ground arith)
        (rw e (total-set [] p.workers i testing left at (omega arith)))
  measure-testing i p (x ∷ items) stopped e at =
      lower p (work i (some testing) p) (x ∷ items) (set p.workers i popping) e (ground arith)
        (rw e (total-set (x ∷ items) p.workers i testing popping at (omega arith)))

  measure-popping :
      (i : ℕ) (p : ThreadPool T) (items : List T)
      → p.tasks.active ≡ true
      → p.tasks.items ≡ items
      → get_elem? p.workers i ≡ some popping
      → measure (work i (some popping) p) < measure p
  unfolding work after_pop try_pop
  measure-popping i p [] on e at =
      lower p (work i (some popping) p) [] (set p.workers i testing) (ground arith) (ground arith)
        (rw e (total-set [] p.workers i popping testing at (omega arith)))
  measure-popping i p (x ∷ items) on e at =
      lower p (work i (some popping) p) items (set p.workers i executing) (ground arith)
        (ground arith) (rw e (total-pop x items p.workers i executing))

  measure-executing :
      (i : ℕ) (p : ThreadPool T) (items : List T)
      → p.tasks.items ≡ items
      → get_elem? p.workers i ≡ some executing
      → measure (work i (some executing) p) < measure p
  unfolding work
  measure-executing i p [] e at =
      lower p (work i (some executing) p) [] (set p.workers i testing) e refl
        (rw e (total-set [] p.workers i executing testing at (omega arith)))
  measure-executing i p (x ∷ items) e at =
      lower p (work i (some executing) p) (x ∷ items) (set p.workers i testing) e refl
        (rw e (total-set (x ∷ items) p.workers i executing testing at (omega arith)))

  measure-work :
      (submitted : List T) (i : ℕ) (v : Worker) (p : ThreadPool T)
      → Stopped submitted p
      → get_elem? p.workers i ≡ some v
      → is_left v ≡ false
      → measure (work i (some v) p) < measure p
  measure-work submitted i testing p h at stays = measure-testing i p p.tasks.items h.0 refl at
  measure-work submitted i popping p h at stays = measure-popping i p p.tasks.items h.1 refl at
  measure-work submitted i executing p h at stays = measure-executing i p p.tasks.items refl at
  measure-work submitted i left p h at stays = absurd (cc)

  measure-step :
      (submitted : List T) (i : ℕ) (p : ThreadPool T)
      → Stopped submitted p
      → CanStep i p
      → measure (step (works i) p) < measure p
  unfolding step
  measure-step submitted i p h (v, at, stays) =
      subst (λ o. measure (work i o p) < measure p) (sym at)
        (measure-work submitted i v p h at stays)

  abbrev turn : List ℕ → List (Event T)
  turn is = map works is

  run-Turns :
      (submitted : List T) (is : List ℕ) (p : ThreadPool T)
      → Stopped submitted p
      → Turns is p
      → (length is + measure (run (turn is) p) ≤ measure p) × Stopped submitted (run (turn is) p)
  unfolding run step
  run-Turns submitted [] p h turns = (omega arith, h)
  run-Turns submitted (i ∷ is) p h turns =
      let (le, stopped) =
        run-Turns submitted is (step (works i) p)
          (work-Stopped submitted i (get_elem? p.workers i) p h) turns.1 in
      (omega (arith, le, measure-step submitted i p h turns.0), stopped)

  measure-le :
      (p : ThreadPool T) → measure p < (3 * length p.workers + 1) * suc (length p.tasks.items)
  unfolding total
  measure-le p =
      let k = 3 * length p.workers + 1 in
      let n = length p.tasks.items in
      omega (arith, cost-eq k n, mul-suc k n, weights-le p.tasks.items p.workers)

  -- Let a pool have at least one worker, its destructor have begun, and nobody outside it submit a task
  -- behind that start. If from there on the tasks return and submit no more, then whichever worker
  -- that has not left its loop gets each turn: the turns are fewer than three for each worker and one
  -- more, times the waiting tasks and one more, so that the joins of the destructor end; and when no
  -- turn is left to give, all workers have left, and all submitted tasks have been started, each once
  -- and in order.
  pub destructor_ends :
      (n : ℕ) (es : List (Event T)) (is : List ℕ)
      → NoLateCalls true es
      → (run es (make_pool (suc n))).running ≡ false
      → Turns is (run es (make_pool (suc n)))
      → let p = run es (make_pool (suc n)) in
        let r = run (map works is) p in
        (length is < (3 * length p.workers + 1) * suc (length p.tasks.items))
        × (((all_left r.workers ≡ true) × (r.executed ≡ p.submitted)) ⊎ ((i : ℕ) × CanStep i r))
  unfolding make_pool
  destructor_ends n es is late stopped turns =
      let p = run es (make_pool (suc n)) in
      let r = run (map works is) p in
      let v = run-IsInOrder es true (make_pool (suc n)) refl late (make_pool-IsInOrder n) in
      let w = run-IsInOrder (map works is) false p stopped (turn-NoLateCalls T is) v in
      let (le, kept) = run-Turns p.submitted is p (stopped, v.active, refl) turns in
      (
        omega (arith, le, measure-le p),
        elim (somebody r.workers) [
          | inl all ↦ inl (all, drained-executed r w all ∙ kept.2)
          | inr (i, v, at, stays) ↦ inr (i, (v, at, stays))
        ],
      )
