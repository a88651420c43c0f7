-- ===== src/Tests/Sending.antt =====
-- Pending sends of Cracen2, and the tasks of the MPI thread.
use cracen.Base.{ℕ, ◌+◌, ◌≤◌, ◌≡◌, true, false, List, [], ◌∷◌, ◌++◌, arith, length, some, get_elem?}
use cracen.AtomicQueue.{size, make, push, try_pop}
use cracen.Cracen2.Sends
use cracen.Cracen2.Sends.{checks, gets, pushes, iterates, Place, pushing, Caller, Sends, looping}
use cracen.Cracen2.Sends.Callers.{of_caller, unsent, reserves}
use cracen.Cracen2.Sends.Reserve.{next}
use cracen.Cracen2.Sends.Room.{run-start-room}
use cracen.BoostMpi.{track, complete, incomplete, Endpoint}
use cracen.BoostMpi.Service
use cracen.BoostMpi.Service.{async_send_to, async_receive_from, close, runs, idle, Service}
use cracen.BoostMpi.Service.Trackers.{Woken, run-idle-Woken}
use cracen.BoostMpi.Service.Promises.{run-idle-Kept}

-- Two threads are in their calls at the same time; the first has pushed one of two futures, which
-- `sender` waits for, and the second its only one.
abbrev calls : List (Sends.Event ℕ)
calls =
    checks 0
    ∷ checks 1
    ∷ gets 0 (4 ∷ 5 ∷ [])
    ∷ pushes 0
    ∷ gets 1 (6 ∷ [])
    ∷ pushes 1
    ∷ iterates true
    ∷ []

abbrev after : Sends ℕ
after = record {
  pending_sends = record { items = (1, 6) ∷ []; max_size = 200; active = true };
  callers =
      record { place = pushing (5 ∷ []); sent = 4 ∷ 5 ∷ [] }
      ∷ record { place = pushing []; sent = 6 ∷ [] }
      ∷ [];
  waited = (0, 4) ∷ [];
  phase = looping;
}

run-start-room_example :
    ((i : ℕ) (c : Caller ℕ)
      → get_elem? after.callers i ≡ some c
      → of_caller i (after.waited ++ after.pending_sends.items) ++ unsent c.place ≡ c.sent)
    × (length after.pending_sends.items + reserves 90 after.callers ≤ 200)
    × ((i f : ℕ) (rest sent : List ℕ)
        → get_elem? after.callers i ≡ some (record { place = pushing (f ∷ rest); sent = sent })
        → Sends.step (λ f. true) (pushes i) after ≡ next i sent f rest after)
unfolding Sends.run Sends.step Sends.start size make push try_pop
run-start-room_example =
    run-start-room (λ f. true) 90 2 calls (omega arith) (omega arith, (omega arith, tt))

-- A send that is not complete at its first test, and a receive that finds nothing.
abbrev tasks : List (Service.Event ℕ)
tasks =
    async_send_to 1
    ∷ async_receive_from (0, 7) 2
    ∷ runs (λ p. (incomplete, complete)) (λ ep. [])
    ∷ runs (λ p. (incomplete, complete)) (λ ep. [])
    ∷ runs (λ p. (incomplete, complete)) (λ ep. [])
    ∷ []

run-idle-Woken_example :
    Woken {A = ℕ} 1 true (1 ∷ [])
    × Woken {A = ℕ} 0 false []
    × Woken {A = Endpoint × List ℕ} 1 true (((0, 7), 2 ∷ []) ∷ [])
unfolding Service.run Service.step Service.track_promises Service.push_probe track
run-idle-Woken_example = run-idle-Woken tasks

-- The sum of the promises 1 and 2, with their own values as weights.
run-idle-Kept_example : 0 + 0 + 1 + 0 + 2 + 0 ≡ 3
unfolding Service.run Service.step Service.track_promises Service.push_probe track
run-idle-Kept_example = run-idle-Kept (λ p. p) tasks
