-- ===== src/Communicator.antt =====
-- include/cracen2/network/Communicator.hpp: messages over the datagrams of a socket.
pub mod OverMpi
pub mod RoundTrip
use cracen.Base.{ℕ, Option, none, some, List, length, ltb, take, if◌then◌else◌}
use cracen.Base.Bytes.{to_bytes, of_bytes}
use cracen.Message.{
  Adapter, Message, Visited, result, no_visitor, out_of_bounds, Visitor, make, cast, visit,
}
use cracen.Sockets.{Datagram}

-- How a receive ends: with a value, by the exception for another type, or by a read behind the end of
-- the header buffer.
pub data Receipt (A : Type 0) : Type 0 where
  value : A → Receipt A
  wrong_type : Receipt A
  overrun : Receipt A

-- What `asyncSendTo` hands to the socket: the body, the destination, and the bytes of the `Header`.
pub record Parcel (E : Type 0) : Type 0 where
  pub body : List ℕ
  pub to : E
  pub header : List ℕ

-- `*reinterpret_cast<Header*>(datagram.header.data())`, and a message of it and the body.
unfoldable pub read_message : {E : Type 0} → Datagram E → Option Message
read_message d =
    if ltb (length d.header) 2
    then none
    else some (record { type_id = of_bytes (take 2 d.header); body = d.body })

parcel : {E : Type 0} → E → Option Message → Option (Parcel E)
parcel remote none = none
parcel remote (some m) = some (record { body = m.body; to = remote; header = to_bytes 2 m.type_id })

received_as : {A E : Type 0} → E → Option A → Receipt (A × E)
received_as remote none = wrong_type
received_as remote (some x) = value (x, remote)

module _ {E T : Type 0} (dec : Discrete T) {El : T → Type 0} (adapter : (t : T) → Adapter (El t))
    (tags : List T) where
  -- `asyncSendTo`; none is a failed `static_assert`.
  unfoldable pub send_to : (t : T) → El t → E → Option (Parcel E)
  unfolding parcel
  send_to t x remote = parcel remote (make dec adapter tags t x)

  -- `asyncReceiveFrom<T>`, once the socket has a datagram.
  unfoldable pub receive_from : (t : T) → Datagram E → Receipt (El t × E)
  unfolding received_as
  receive_from t d = elim (read_message d) [
    | none ↦ overrun
    | some m ↦ received_as d.remote (cast dec adapter tags t m)
  ]

with_endpoint : {E R : Type 0} → E → Visited (E → R) → Visited R
with_endpoint remote (result f) = result (f remote)
with_endpoint remote no_visitor = no_visitor
with_endpoint remote out_of_bounds = out_of_bounds

-- `asyncReceive(visitor)`: the functors also take the endpoint of the sender, from `argTuple`.
unfoldable pub receive : {E R : Type 0} → Visitor (E → R) → Datagram E → Receipt (Visited R)
unfolding with_endpoint
receive visitor d = elim (read_message d) [
  | none ↦ overrun
  | some m ↦ value (with_endpoint d.remote (visit visitor m))
]
