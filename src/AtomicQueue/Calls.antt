-- ===== src/AtomicQueue/Calls.antt =====
-- What a call on an active queue does, by what the queue holds.
use cracen.Base.{◌<◌, ◌≡◌, true, List, [], ◌∷◌, ◌++◌, none, some, length, arith, lt→ltb}
use cracen.AtomicQueue.{AtomicQueue, returns, push, try_pop}

pub push-room :
    {A : Type 0} (x : A) (q : AtomicQueue A)
    → q.active ≡ true
    → length q.items < q.max_size
    → push x q ≡ returns tt (record q { items = q.items ++ (x ∷ []) })
unfolding push
push-room x q on room = ground (arith, lt→ltb (length q.items) q.max_size)

module _ {A : Type 0} (q : AtomicQueue A) (on : q.active ≡ true) where
  pub try_pop-empty : q.items ≡ [] → try_pop q ≡ returns none q
  unfolding try_pop
  try_pop-empty e = ground arith

  pub try_pop-front :
      (x : A) (rest : List A)
      → q.items ≡ x ∷ rest
      → try_pop q ≡ returns (some x) (record q { items = rest })
  unfolding try_pop
  try_pop-front x rest e = ground arith
