-- ===== src/Tests/Streaming.antt =====
-- Datagrams, promises and connections of a streaming socket.
use mathlib.Core.List.{Perm}
use cracen.Base.{ℕ, ◌≡◌, refl, true, List, [], ◌∷◌, ◌++◌, none, some}
use cracen.Base.StdMap.{ℕ_key, find}
use cracen.AtomicQueue.{push, make, try_pop}
use cracen.Sockets.AsioStreaming.Delivery
use cracen.Sockets.AsioStreaming.Delivery.{Event, arrives, serves, requests, idle}
use cracen.Sockets.AsioStreaming.Delivery.Order.{run-idle-IsKept}
use cracen.Sockets.AsioStreaming.Connections
use cracen.Sockets.AsioStreaming.Connections.{accepts, success, sends_to, binds, Connections}
use cracen.Sockets.AsioStreaming.Connections.Reuse.{Stays, connection-Stays}

-- Two datagrams come before the first promise, which gets the second one.
abbrev traffic : List (Delivery.Event ℕ ℕ)
traffic = arrives 1 ∷ arrives 2 ∷ serves ∷ requests 30 ∷ serves ∷ requests 31 ∷ []

run-idle-IsKept_example :
    Perm {A = ℕ} (2 ∷ 1 ∷ []) (1 ∷ 2 ∷ []) × (◌≡◌ {A = List ℕ} (30 ∷ 31 ∷ []) (30 ∷ 31 ∷ []))
unfolding Delivery.run Delivery.step Delivery.handle_datagram make push try_pop
run-idle-IsKept_example = run-idle-IsKept traffic

-- A connection to 5 is there; 5 connects again, and then two messages go to 5.
abbrev connected : Connections ℕ ℕ
connected = record {
  sockets = (5, 100) ∷ [];
  acceptor_open = true;
  accepting = true;
  readers = (5, 100) ∷ [];
  writes = [];
}

abbrev after : Connections ℕ ℕ
after = record {
  sockets = (5, 100) ∷ [];
  acceptor_open = true;
  accepting = true;
  readers = (5, 100) ∷ (5, 100) ∷ [];
  writes = (5, 100) ∷ (5, 100) ∷ [];
}

connection-Stays_example :
    Stays 5 100 connected after
    × ((d : ℕ)
        → after.accepting ≡ true
        → Connections.step (accepts (success 5 d)) after
          ≡ some (record after { readers = after.readers ++ ((5, 100) ∷ []) }))
unfolding Connections.run Connections.step Connections.handle_accept Connections.insert_and_receive
    Connections.async_send_to find
connection-Stays_example =
    connection-Stays 5 100 (accepts (success 5 101) ∷ sends_to 5 none ∷ sends_to 5 (some 102) ∷ [])
      connected after tt refl refl
