-- ===== src/Cracen2/Sends.antt =====
-- include/cracen2/Cracen2.hpp: `send` and the thread `sender`, over the queue `pendingSends`. Any number
-- of threads call `send`, at the same time. `F` is a future of `client.asyncSend` with its buffer, and
-- `get` tells whether its `get()` returns.
pub mod Callers
pub mod Reserve
pub mod Room
use cracen.Base.{
  ℕ, Bool, true, false, List, [], ◌∷◌, ◌++◌, Option, none, some, ltb, if◌then◌else◌, set, get_elem?,
  replicate,
}
use cracen.AtomicQueue.{AtomicQueue, Attempt, returns, waits, throws, make, size, push, try_pop}

-- The thread `sender` is in its loop, behind it, or was left by an exception.
pub data Phase : Type 0 where
  looping ended failed : Phase

-- Where a caller is in `send`: in no call or in the loop on the size, behind that loop, or in the loop
-- that pushes, with the futures that it has still to push.
pub data Place (F : Type 0) : Type 0 where
  outside passed : Place F
  pushing : List F → Place F

-- A thread that calls `send`; `sent` are the futures of all its calls, oldest first.
pub record Caller (F : Type 0) : Type 0 where
  pub place : Place F
  pub sent : List F

-- A future in the queue stands with the caller that pushed it; `waited` are those on which `get` was
-- called, oldest first.
pub record Sends (F : Type 0) : Type 0 where
  pub pending_sends : AtomicQueue (ℕ × F)
  pub callers : List (Caller F)
  pub waited : List (ℕ × F)
  pub phase : Phase

-- A caller looks at the size of the queue, gets its futures, or makes an iteration of the loop that
-- pushes them; and `sender` makes an iteration, with what `client.isRunning()` gives.
pub data Event (F : Type 0) : Type 0 where
  checks : ℕ → Event F
  gets : ℕ → List F → Event F
  pushes : ℕ → Event F
  iterates : Bool → Event F

module _ {F : Type 0} where
  unfoldable pub start : ℕ → Sends F
  start count = record {
    pending_sends = make 200;
    callers = replicate count (record { place = outside; sent = [] });
    waited = [];
    phase = looping;
  }

  pub set_caller : ℕ → Caller F → Sends F → Sends F
  set_caller i c s = record s { callers = set s.callers i c }

  -- `while(pendingSends.size() > 20) {}`
  pub check : ℕ → List F → Place F → Sends F → Sends F
  unfolding set_caller
  check i sent outside s =
      if ltb 20 (size s.pending_sends)
      then s
      else set_caller i (record { place = passed; sent = sent }) s
  check i sent passed s = s
  check i sent (pushing futures) s = s

  -- `client.asyncSend` gives the futures.
  pub get_futures : ℕ → List F → List F → Place F → Sends F → Sends F
  unfolding set_caller
  get_futures i futures sent outside s = s
  get_futures i futures sent passed s =
      set_caller i (record { place = pushing futures; sent = sent ++ futures }) s
  get_futures i futures sent (pushing rest) s = s

  pushed : ℕ → Caller F → Sends F → Attempt (AtomicQueue (ℕ × F)) (Unit {0}) → Sends F
  unfolding set_caller
  pushed i c s (returns _ q) = set_caller i c (record s { pending_sends = q })
  pushed i c s waits = s
  pushed i c s throws = s

  -- Behind the last future the call returns.
  pub push_next : ℕ → List F → Place F → Sends F → Sends F
  unfolding pushed set_caller
  push_next i sent outside s = s
  push_next i sent passed s = s
  push_next i sent (pushing []) s = set_caller i (record { place = outside; sent = sent }) s
  push_next i sent (pushing (f ∷ rest)) s =
      pushed i (record { place = pushing rest; sent = sent }) s (push (i, f) s.pending_sends)

  -- What a caller does, if there is such a caller.
  pub by_caller : Option (Caller F) → (List F → Place F → Sends F → Sends F) → Sends F → Sends F
  by_caller none act s = s
  by_caller (some c) act s = act c.sent c.place s

module _ {F : Type 0} (get : F → Bool) where
  wait_for : Sends F → Attempt (AtomicQueue (ℕ × F)) (Option (ℕ × F)) → Sends F
  wait_for s (returns none q) = s
  wait_for s (returns (some (i, f)) q) = record s {
    pending_sends = q;
    waited = s.waited ++ ((i, f) ∷ []);
    phase = if get f then looping else failed;
  }
  wait_for s waits = s
  wait_for s throws = record s { phase = failed }

  sender : Phase → Bool → Sends F → Sends F
  unfolding wait_for
  sender looping true s = wait_for s (try_pop s.pending_sends)
  sender looping false s = record s { phase = ended }
  sender ended is_running s = s
  sender failed is_running s = s

  unfoldable pub step : Event F → Sends F → Sends F
  unfolding check get_futures push_next by_caller sender
  step (checks i) s = by_caller (get_elem? s.callers i) (check i) s
  step (gets i futures) s = by_caller (get_elem? s.callers i) (get_futures i futures) s
  step (pushes i) s = by_caller (get_elem? s.callers i) (push_next i) s
  step (iterates is_running) s = sender s.phase is_running s

  unfoldable pub run : List (Event F) → Sends F → Sends F
  run [] s = s
  run (e ∷ es) s = run es (step e s)
