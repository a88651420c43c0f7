-- ===== src/Tests/Transport.antt =====
-- Messages of three types over datagrams and streams, and the bounded queue.
use cracen.Base.{
  if◌then◌else◌, ℕ, suc, ◌≡◌, refl, Bool, true, false, List, [], ◌∷◌, ◌++◌, some, map, replicate,
  arith, ◌≤◌, ◌+◌, length, ◌^◌,
}
use mathlib.Core.Bool.{Bool-discrete}
use cracen.Message.{Adapter, Functor, make, make_visitor, result}
use cracen.Communicator.{Parcel, value, wrong_type, send_to, receive_from, receive}
use cracen.Communicator.RoundTrip.{
  delivered, receive_from-send_to, receive_from_wrong, receive-make_visitor, receive_from-packet,
}
use cracen.Base.Bytes.{to_bytes}
use cracen.BoostMpi
use cracen.BoostMpi.{Endpoint, Socket}
use cracen.Communicator.OverMpi.{receive_from-mpi}
use cracen.Sockets.{Datagram}
use cracen.Sockets.AsioDatagram.{gather, received, scatter}
use cracen.Sockets.AsioStreaming.{
  receive_all, frames, datagram, receive_all-frames, Writer, pending, set_exception, post_writes,
  failed_write_stops,
}
use cracen.Tuple.{tuple_index}
use cracen.AtomicQueue.{AtomicQueue, push, pop, try_pop, throws}
use cracen.AtomicQueue.Fifo.{
  Call, pushes, pops, tries, destroys, Log, step, run, start, run-start-IsFifo, destroy_final,
}

abbrev Content : Bool → Type 0
Content true = List ℕ
Content false = Bool

abbrev flag : List ℕ → Bool
flag (suc n ∷ bytes) = true
flag _ = false

flag-byte : (b : Bool) → flag ((if b then 1 else 0) ∷ []) ≡ b
flag-byte true = refl
flag-byte false = refl

abbrev adapters : (t : Bool) → Adapter (Content t)
adapters true = record { bytes = λ x. x; cast = λ x. x; cast-bytes = λ x. refl }
adapters false = record {
  bytes = λ b. (if b then 1 else 0) ∷ [];
  cast = flag;
  cast-bytes = flag-byte;
}

-- The message types, `true` before `false`.
abbrev tags : List Bool
tags = true ∷ false ∷ []

few : length tags ≤ 2 ^ 16
few = omega arith

abbrev numbers : List ℕ
numbers = 4 ∷ 5 ∷ []

abbrev on_numbers : Functor Bool Content ℕ
on_numbers = (true, length)

abbrev on_flag : Functor Bool Content ℕ
on_flag = (false, λ b. if b then 100 else 200)

-- The numbers as they are sent to endpoint 9, with the header of two bytes.
abbrev letter : Parcel ℕ
letter = record { body = numbers; to = 9; header = 0 ∷ 0 ∷ [] }

letter_test : send_to Bool-discrete adapters tags true numbers 9 ≡ some letter
unfolding send_to make tuple_index to_bytes
letter_test = refl

receive_from-send_to_example :
    receive_from Bool-discrete adapters tags true (delivered 8 letter) ≡ value (numbers, 8)
receive_from-send_to_example =
    receive_from-send_to Bool-discrete adapters tags few true numbers 8 9 letter letter_test

receive_from_wrong_example :
    receive_from Bool-discrete adapters tags false (delivered 8 letter) ≡ wrong_type
receive_from_wrong_example =
    receive_from_wrong Bool-discrete adapters tags few true false numbers 8 9 letter
      (λ e. absurd (cc)) letter_test

receive-make_visitor_example :
    receive
      (make_visitor Bool-discrete adapters tags ([] ++ ((true, λ l from. length l + from) ∷ [])))
      (delivered 8 letter)
    ≡ value (result 10)
receive-make_visitor_example =
    receive-make_visitor Bool-discrete adapters tags few [] [] true (λ l from. length l + from)
      numbers 8 9 letter tt letter_test

-- The socket of the sender has the tag 8.
abbrev sender : Socket
sender = record { rank = 3; local = (3, 8) }

abbrev message : Parcel Endpoint
message = record { body = numbers; to = (1, 4); header = 0 ∷ 0 ∷ [] }

receive_from-mpi_example :
    receive_from Bool-discrete adapters tags true
      (BoostMpi.datagram (9 ∷ 9 ∷ 9 ∷ 9 ∷ []) (BoostMpi.send_to sender numbers (0 ∷ 0 ∷ [])))
    ≡ value (numbers, sender.local)
unfolding send_to make tuple_index to_bytes
receive_from-mpi_example =
    receive_from-mpi Bool-discrete adapters tags few true numbers sender (1, 4) message
      (9 ∷ 9 ∷ 9 ∷ 9 ∷ []) refl refl (omega arith) (omega arith)

receive_from-packet_example :
    (d : Datagram ℕ) × (scatter 8 (received (gather numbers (0 ∷ 0 ∷ []))) ≡ some d)
    × (receive_from Bool-discrete adapters tags true d ≡ value (numbers, 8))
receive_from-packet_example =
    receive_from-packet Bool-discrete adapters tags few true numbers 8 9 letter letter_test
      (omega arith)

abbrev parts : List (List ℕ × List ℕ)
parts = (numbers, 1 ∷ []) ∷ ([], 2 ∷ 3 ∷ []) ∷ []

receive_all-frames_example :
    receive_all {E = ℕ} 8 (replicate (length parts) 8) (frames parts) ≡ (map (datagram 8) parts, [])
receive_all-frames_example =
    receive_all-frames {E = ℕ} 8 parts
      ((omega arith, omega arith), ((omega arith, omega arith), tt))

abbrev idle : Writer
idle = record { locked = false; blocked = false; written = [] }

abbrev later_writes : List (Bool × List ℕ × List ℕ)
later_writes = (true, numbers, []) ∷ (true, [], numbers) ∷ []

failed_write_stops_example :
    ((post_writes ((false, numbers, []) ∷ later_writes) idle).0
      ≡ set_exception ∷ replicate (length later_writes) pending)
    × (((post_writes ((false, numbers, []) ∷ later_writes) idle).1).written ≡ idle.written)
failed_write_stops_example = failed_write_stops numbers [] later_writes idle refl refl

abbrev calls : List (Call ℕ)
calls = pushes 1 ∷ pushes 2 ∷ pops ∷ pushes 3 ∷ tries ∷ destroys ∷ pops ∷ []

run-start-IsFifo_example :
    let l = run (start 2) calls in
    (l.popped ++ l.queue.items ≡ l.pushed) × (length l.queue.items ≤ 2)
run-start-IsFifo_example = run-start-IsFifo 2 calls

full_queue : AtomicQueue ℕ
full_queue = record { items = numbers; max_size = 2; active = true }

abbrev history : Log ℕ
history = record { queue = full_queue; pushed = 3 ∷ numbers; popped = 3 ∷ [] }

destroy_final_example :
    let d = run (step history destroys) calls in
    (d.queue.items ≡ history.queue.items)
    × (d.popped ≡ history.popped)
    × (d.pushed ≡ history.pushed)
    × (pop d.queue ≡ throws)
    × (try_pop d.queue ≡ throws)
    × ((value : ℕ) → push value d.queue ≡ throws)
destroy_final_example = destroy_final history calls
