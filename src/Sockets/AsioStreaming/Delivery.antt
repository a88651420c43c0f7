-- ===== src/Sockets/AsioStreaming/Delivery.antt =====
-- source/cracen2/sockets/AsioStreaming.cpp: `handle_datagram`, which hands a datagram to the oldest
-- promise of `asyncReceiveFrom` or posts itself to the service again.
pub mod Order
use cracen.Base.{List, [], ◌∷◌, ◌++◌, Option, none, some}
use cracen.AtomicQueue.{AtomicQueue, Attempt, returns, waits, throws, make, push, try_pop}

-- `posted` are the datagrams whose handlers the service has still to run, in its order. `requested`
-- are all promises and `arrived` all datagrams of the reader, `fulfilled` the promises that have got
-- a datagram; oldest first.
pub record Delivery (P D : Type 0) : Type 0 where
  pub promise_queue : AtomicQueue P
  pub posted : List D
  pub requested : List P
  pub arrived : List D
  pub fulfilled : List (P × D)

-- The reader has a datagram, the service runs a posted handler, and `asyncReceiveFrom` is called.
pub data Event (P D : Type 0) : Type 0 where
  arrives : D → Event P D
  serves : Event P D
  requests : P → Event P D

module _ {P D : Type 0} where
  abbrev pub idle : Delivery P D
  idle = record {
    promise_queue = make 200;
    posted = [];
    requested = [];
    arrived = [];
    fulfilled = [];
  }

  handed : D → Delivery P D → Attempt (AtomicQueue P) (Option P) → Delivery P D
  handed d s (returns none q) = record s { promise_queue = q; posted = s.posted ++ (d ∷ []) }
  handed d s (returns (some p) q) = record s {
    promise_queue = q;
    fulfilled = s.fulfilled ++ ((p, d) ∷ []);
  }
  handed d s waits = s
  handed d s throws = s

  unfoldable pub handle_datagram : D → Delivery P D → Delivery P D
  unfolding handed
  handle_datagram d s = handed d s (try_pop s.promise_queue)

  serve : List D → Delivery P D → Delivery P D
  serve [] s = s
  serve (d ∷ posted) s = handle_datagram d (record s { posted = posted })

  pushed : P → Delivery P D → Attempt (AtomicQueue P) (Unit {0}) → Delivery P D
  pushed p s (returns _ q) = record s { promise_queue = q; requested = s.requested ++ (p ∷ []) }
  pushed p s waits = s
  pushed p s throws = s

  unfoldable pub step : Event P D → Delivery P D → Delivery P D
  unfolding serve pushed
  step (arrives d) s = handle_datagram d (record s { arrived = s.arrived ++ (d ∷ []) })
  step serves s = serve s.posted s
  step (requests p) s = pushed p s (push p s.promise_queue)

  unfoldable pub run : List (Event P D) → Delivery P D → Delivery P D
  run [] s = s
  run (e ∷ es) s = run es (step e s)
