-- ===== src/AtomicQueue.antt =====
-- include/cracen2/util/AtomicQueue.hpp: the bounded queue, one call at a time under its mutex. A
-- call whose predicate is false releases the mutex and waits: it makes no step until it is tried
-- again.
pub mod Calls
pub mod Fifo
use cracen.Base.{
  ℕ, ◌+◌, Bool, true, false, List, [], ◌∷◌, ◌++◌, Option, none, some, ltb, length, if◌then◌else◌,
}

pub record AtomicQueue (A : Type 0) : Type 0 where
  pub items : List A
  pub max_size : ℕ
  pub active : Bool

-- How a call under the mutex ends: with a result, by waiting on the condition variable, or by the
-- exception that the predicates throw on an inactive queue.
pub data Attempt (Q R : Type 0) : Type 0 where
  returns : R → Q → Attempt Q R
  waits : Attempt Q R
  throws : Attempt Q R

module _ {A : Type 0} where
  unfoldable pub make : ℕ → AtomicQueue A
  make max_size = record { items = []; max_size = max_size; active = true }

  unfoldable pub size : AtomicQueue A → ℕ
  size q = length q.items

  -- `notFull` and `isFilled`; none is the exception.
  unfoldable pub not_full : AtomicQueue A → Option Bool
  not_full q = if q.active then some (ltb (length q.items) q.max_size) else none

  unfoldable pub is_filled : AtomicQueue A → Option Bool
  is_filled q = if q.active then some (ltb 0 (length q.items)) else none

  unfoldable pub push : A → AtomicQueue A → Attempt (AtomicQueue A) (Unit {0})
  unfolding not_full
  push value q = elim (not_full q) [
    | none ↦ throws
    | some ready ↦
        if ready then returns tt (record q { items = q.items ++ (value ∷ []) }) else waits
  ]

  -- The front of a queue that is filled, and the queue without it.
  abbrev take_front :
      {R : Type 0} (f : A → R) (q : AtomicQueue A) → List A → Attempt (AtomicQueue A) R
  take_front f q [] = waits
  take_front f q (x ∷ rest) = returns (f x) (record q { items = rest })

  unfoldable pub pop : AtomicQueue A → Attempt (AtomicQueue A) A
  unfolding is_filled
  pop q = elim (is_filled q) [
    | none ↦ throws
    | some ready ↦ if ready then take_front (λ x. x) q q.items else waits
  ]

  -- `wait_for`, when the predicate is tested for the last time: it holds, or the time is over.
  unfoldable pub try_pop : AtomicQueue A → Attempt (AtomicQueue A) (Option A)
  unfolding is_filled
  try_pop q = elim (is_filled q) [
    | none ↦ throws
    | some ready ↦ if ready then take_front some q q.items else returns none q
  ]

  unfoldable pub destroy : AtomicQueue A → AtomicQueue A
  destroy q = record q { active = false }
