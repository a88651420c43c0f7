-- ===== src/AtomicQueue/Fifo.antt =====
-- Any interleaving of calls on a queue: what was taken out, followed by what is left, is what was put
-- in; and a destroyed queue refuses every call.
use cracen.Base.{
  ℕ, ◌≤◌, ◌<◌, ◌↔◌, ◌≡◌, refl, ap, ◌∙◌, true, List, [], ◌∷◌, ◌++◌, Option, none, some, length,
  append-nil, append_assoc, length-append, arith,
}
use cracen.AtomicQueue.{
  AtomicQueue, Attempt, returns, waits, throws, make, push, pop, try_pop, destroy, size,
}

-- The calls of any number of threads, in the order in which they get the mutex. A call that waits
-- may stand in the sequence again, for its next attempt.
pub data Call (A : Type 0) : Type 0 where
  pushes : A → Call A
  pops : Call A
  tries : Call A
  destroys : Call A

-- A queue with all that was put in and all that was taken out, oldest first.
pub record Log (A : Type 0) : Type 0 where
  pub queue : AtomicQueue A
  pub pushed : List A
  pub popped : List A

module _ {A : Type 0} where
  abbrev after_push : Log A → A → Attempt (AtomicQueue A) (Unit {0}) → Log A
  after_push l value (returns _ q) = record {
    queue = q;
    pushed = l.pushed ++ (value ∷ []);
    popped = l.popped;
  }
  after_push l value waits = l
  after_push l value throws = l

  abbrev after_pop : Log A → Attempt (AtomicQueue A) A → Log A
  after_pop l (returns x q) = record { queue = q; pushed = l.pushed; popped = l.popped ++ (x ∷ []) }
  after_pop l waits = l
  after_pop l throws = l

  abbrev as_list : Option A → List A
  as_list none = []
  as_list (some x) = x ∷ []

  abbrev after_try : Log A → Attempt (AtomicQueue A) (Option A) → Log A
  after_try l (returns x q) = record {
    queue = q;
    pushed = l.pushed;
    popped = l.popped ++ as_list x;
  }
  after_try l waits = l
  after_try l throws = l

  pub step : Log A → Call A → Log A
  step l (pushes value) = after_push l value (push value l.queue)
  step l pops = after_pop l (pop l.queue)
  step l tries = after_try l (try_pop l.queue)
  step l destroys = record l { queue = destroy l.queue }

  pub run : Log A → List (Call A) → Log A
  run l [] = l
  run l (c ∷ cs) = run (step l c) cs

  pub start : ℕ → Log A
  start max_size = record { queue = make max_size; pushed = []; popped = [] }

  pub record IsFifo (n : ℕ) (l : Log A) : Type 0 where
    pub order : l.popped ++ l.queue.items ≡ l.pushed
    pub bound : length l.queue.items ≤ n
    pub capacity : l.queue.max_size ≡ n

  push-IsFifo : (n : ℕ) (l : Log A) (value : A) → IsFifo n l → IsFifo n (step l (pushes value))
  unfolding step push
  push-IsFifo n l value v = ground (
    arith,
    append_assoc l.popped l.queue.items (value ∷ []),
    length-append l.queue.items (value ∷ []),
  )

  pop-IsFifo :
      (n : ℕ) (l : Log A) (xs : List A) → l.queue.items ≡ xs → IsFifo n l → IsFifo n (step l pops)
  unfolding step pop
  pop-IsFifo n l [] e v = ground arith
  pop-IsFifo n l (x ∷ xs) e v = ground (arith, append_assoc l.popped (x ∷ []) xs)

  try_pop-IsFifo :
      (n : ℕ) (l : Log A) (xs : List A) → l.queue.items ≡ xs → IsFifo n l → IsFifo n (step l tries)
  unfolding step try_pop
  try_pop-IsFifo n l [] e v = ground (arith, append-nil l.popped)
  try_pop-IsFifo n l (x ∷ xs) e v = ground (arith, append_assoc l.popped (x ∷ []) xs)

  step-IsFifo : (n : ℕ) (l : Log A) (c : Call A) → IsFifo n l → IsFifo n (step l c)
  unfolding step destroy
  step-IsFifo n l (pushes value) v = push-IsFifo n l value v
  step-IsFifo n l pops v = pop-IsFifo n l l.queue.items refl v
  step-IsFifo n l tries v = try_pop-IsFifo n l l.queue.items refl v
  step-IsFifo n l destroys v = record { order = v.order; bound = v.bound; capacity = v.capacity }

  run-IsFifo : (n : ℕ) (l : Log A) (cs : List (Call A)) → IsFifo n l → IsFifo n (run l cs)
  unfolding run
  run-IsFifo n l [] v = v
  run-IsFifo n l (c ∷ cs) v = run-IsFifo n (step l c) cs (step-IsFifo n l c v)

  -- After any sequence of calls on a new queue: what was taken out, in order, followed by what the
  -- queue holds, is what was put in, in order; and it holds at most `max_size` elements.
  pub run-start-IsFifo :
      (max_size : ℕ) (cs : List (Call A))
      → let l = run (start max_size) cs in
        (l.popped ++ l.queue.items ≡ l.pushed) × (length l.queue.items ≤ max_size)
  unfolding start make
  run-start-IsFifo max_size cs =
      let v =
        run-IsFifo max_size (start max_size) cs
          (record { order = refl; bound = omega arith; capacity = refl }) in
      (v.order, v.bound)

  abbrev dead : Log A → Log A
  dead l = record l { queue = destroy l.queue }

  step-dead : (l : Log A) (c : Call A) → step (dead l) c ≡ dead l
  unfolding step push pop try_pop destroy
  step-dead l (pushes value) = refl
  step-dead l pops = refl
  step-dead l tries = refl
  step-dead l destroys = refl

  run-dead : (l : Log A) (cs : List (Call A)) → run (dead l) cs ≡ dead l
  unfolding run
  run-dead l [] = refl
  run-dead l (c ∷ cs) = ap (λ x. run x cs) (step-dead l c) ∙ run-dead l cs

  -- Once a queue is destroyed, no further calls put anything in or take anything out, and after them
  -- each of the three calls throws, whatever the queue holds.
  pub destroy_final :
      (l : Log A) (cs : List (Call A))
      → let d = run (step l destroys) cs in
        (d.queue.items ≡ l.queue.items)
        × (d.popped ≡ l.popped)
        × (d.pushed ≡ l.pushed)
        × (pop d.queue ≡ throws)
        × (try_pop d.queue ≡ throws)
        × ((value : A) → push value d.queue ≡ throws)
  unfolding step destroy pop try_pop push
  destroy_final l cs = rw (run-dead l cs) (refl, refl, refl, refl, refl, λ value. refl)

  pop_waits :
      (q : AtomicQueue A) (xs : List A)
      → q.active ≡ true
      → q.items ≡ xs
      → (pop q ≡ waits) ↔ (length xs ≡ 0)
  unfolding pop
  pop_waits q [] on e = (λ h. refl, λ h. ground arith)
  pop_waits q (x ∷ xs) on e = (λ h. absurd (ground arith), λ h. absurd (omega arith))

  push_waits :
      (q : AtomicQueue A) (value : A)
      → q.active ≡ true
      → (push value q ≡ waits) ↔ (q.max_size ≤ size q)
  unfolding push size
  push_waits q value on = (λ h. ground arith, λ h. ground arith)

  -- On an active queue a push waits exactly when the queue is full, and a pop exactly when it is
  -- empty; with a positive capacity never do both have to wait.
  waits_iff :
      (q : AtomicQueue A) (value : A)
      → q.active ≡ true
      → 0 < q.max_size
      → ((push value q ≡ waits) ↔ (q.max_size ≤ size q))
        × ((pop q ≡ waits) ↔ (size q ≡ 0))
        × ¬ ((push value q ≡ waits) × (pop q ≡ waits))
  unfolding size
  waits_iff q value on room = (
    push_waits q value on,
    pop_waits q q.items on refl,
    λ h. omega (arith, (push_waits q value on).0 h.0, (pop_waits q q.items on refl).0 h.1),
  )
