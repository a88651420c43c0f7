-- ===== src/Tests/Mpi.antt =====
-- Two sockets of the process with rank 3.
use cracen.Base.{ℕ, ◌≡◌, refl, ◌≢◌, true, false, List, [], ◌∷◌, ◌++◌, take, arith}
use cracen.BoostMpi.{
  Endpoint, closed, count, block, release, next, Socket, bind, Arrival, send_to, datagram, Status,
  incomplete, complete, throws, track,
}
use cracen.BoostMpi.Binding.{Foreign, bind-Foreign}
use cracen.BoostMpi.Transfer.{datagram-send_to}

abbrev fresh : Socket
fresh = record { rank = 3; local = closed }

abbrev bound : Socket
bound = record { rank = 3; local = (3, 8) }

-- The tag 7 is taken, so the bind asks for another one.
bind-Foreign_example :
    ((bound.local).0 ≡ fresh.rank)
    × (count bound.local ((3, 8) ∷ (3, 7) ∷ []) ≡ true)
    × ((q : Endpoint)
        → Foreign fresh ((3, 7) ∷ []) q
        → (bound.local ≢ q) × (count q ((3, 8) ∷ (3, 7) ∷ []) ≡ true))
unfolding bind next count block release
bind-Foreign_example =
    bind-Foreign 3 (7 ∷ 8 ∷ []) fresh bound ((3, 7) ∷ []) ((3, 8) ∷ (3, 7) ∷ []) refl

datagram-send_to_example :
    datagram (1 ∷ 2 ∷ 3 ∷ 4 ∷ 5 ∷ []) (send_to bound (9 ∷ []) (6 ∷ 0 ∷ [])) ≡ record {
      header = (6 ∷ 0 ∷ []) ++ take 4 (1 ∷ 2 ∷ 3 ∷ 4 ∷ 5 ∷ []);
      body = 9 ∷ [];
      remote = bound.local;
    }
datagram-send_to_example =
    datagram-send_to bound (9 ∷ []) (6 ∷ 0 ∷ []) (1 ∷ 2 ∷ 3 ∷ 4 ∷ 5 ∷ []) refl (omega arith)
      (omega arith)

abbrev requests : List (ℕ × Status × Status)
requests =
    (1, complete, complete)
    ∷ (2, throws, incomplete)
    ∷ (3, complete, incomplete)
    ∷ (4, complete, complete)
    ∷ []

track_test :
    track requests
    ≡ ((1, true) ∷ (2, false) ∷ [], (3, complete, incomplete) ∷ (4, complete, complete) ∷ [])
unfolding track
track_test = refl

abbrev arrived : List Arrival
arrived = record { source = 5; header = []; body = [] } ∷ []
