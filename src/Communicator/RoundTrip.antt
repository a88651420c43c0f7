-- ===== src/Communicator/RoundTrip.antt =====
-- What one communicator sends another one receives, directly and as a UDP packet.
use cracen.Base.{
  ◌+◌, ◌^◌, ◌<◌, ◌≤◌, ◌≡◌, refl, ap, ◌∙◌, sym, ◌≢◌, List, ◌∷◌, ◌++◌, Option, none, some, length,
  take_of_length-le, arith, not-lt→ltb, if_false, eq_of_some-eq,
}
use cracen.Base.Bytes.{to_bytes, of_bytes, length-to_bytes, of_bytes-to_bytes}
use cracen.Message.{Adapter, Message, result, Functor, make, make_visitor}
use cracen.Message.RoundTrip.{type_id_lt, cast-make, cast-make_ne}
use cracen.Message.Visitors.{visit-make_visitor, Others}
use cracen.Sockets.{Datagram}
use cracen.Sockets.AsioDatagram.{max_message_size, gather, received, scatter, scatter-gather}
use cracen.Communicator.{
  value, wrong_type, Parcel, parcel, read_message, received_as, send_to, receive_from, receive,
  with_endpoint,
}

-- A parcel as the socket at its destination gets it.
abbrev pub delivered : {E : Type 0} → E → Parcel E → Datagram E
delivered from p = record { header = p.header; body = p.body; remote = from }

parcel-some :
    {E : Type 0} (remote : E) (o : Option Message) (p : Parcel E)
    → parcel remote o ≡ some p
    → (m : Message) × (o ≡ some m)
      × (p ≡ record { body = m.body; to = remote; header = to_bytes 2 m.type_id })
unfolding parcel
parcel-some remote none p h = absurd (cc)
parcel-some remote (some m) p h = (m, refl, sym (eq_of_some-eq h))

module _ {E T : Type 0} (dec : Discrete T) {El : T → Type 0} (adapter : (t : T) → Adapter (El t))
    (tags : List T) (small : length tags ≤ 2 ^ 16) where
  pub send_to-some :
      (t : T) (x : El t) (remote : E) (p : Parcel E)
      → send_to dec adapter tags t x remote ≡ some p
      → (m : Message) × (make dec adapter tags t x ≡ some m)
        × (p ≡ record { body = m.body; to = remote; header = to_bytes 2 m.type_id })
  unfolding send_to
  send_to-some t x remote p h = parcel-some remote (make dec adapter tags t x) p h

  read_message-header :
      (m : Message) (from : E)
      → m.type_id < 2 ^ 16
      → read_message (record { header = to_bytes 2 m.type_id; body = m.body; remote = from })
        ≡ some m
  unfolding read_message
  read_message-header m from lt =
      if_false _ _
        (not-lt→ltb (length (to_bytes 2 m.type_id)) 2 (omega (arith, length-to_bytes 2 m.type_id)))
      ∙ ap (λ k. some (record m { type_id = k }))
          (ap of_bytes (take_of_length-le 2 _ (omega (arith, length-to_bytes 2 m.type_id)))
            ∙ of_bytes-to_bytes 2 m.type_id (omega arith))

  pub header_size :
      (t : T) (x : El t) (remote : E) (p : Parcel E)
      → send_to dec adapter tags t x remote ≡ some p
      → length p.header ≡ 2
  header_size t x remote p h =
      let (m, e, pe) = send_to-some t x remote p h in
      ap (λ q. length q.header) pe ∙ length-to_bytes 2 m.type_id

  -- What was sent is read as a message again.
  read_message-delivered :
      (t : T) (x : El t) (from remote : E) (p : Parcel E)
      → send_to dec adapter tags t x remote ≡ some p
      → (m : Message) × (make dec adapter tags t x ≡ some m)
        × (read_message (delivered from p) ≡ some m)
  read_message-delivered t x from remote p h =
      let (m, e, pe) = send_to-some t x remote p h in
      (
        m,
        e,
        ap (λ q. read_message (delivered from q)) pe
            ∙ read_message-header m from (type_id_lt dec adapter tags small t x m e),
      )

  -- With at most 2 ^ 16 message types, `receiveFrom` for the type that was sent returns the value that
  -- was sent and the endpoint of the sender.
  pub receive_from-send_to :
      (t : T) (x : El t) (from remote : E) (p : Parcel E)
      → send_to dec adapter tags t x remote ≡ some p
      → receive_from dec adapter tags t (delivered from p) ≡ value (x, from)
  unfolding receive_from received_as
  receive_from-send_to t x from remote p h =
      let (m, e, r) = read_message-delivered t x from remote p h in
      rw (r, receive_from) (rw (cast-make dec adapter tags small t x m e, received_as) refl)

  -- With at most 2 ^ 16 message types, `receiveFrom` for another type than the one that was sent
  -- throws.
  pub receive_from_wrong :
      (t u : T) (x : El t) (from remote : E) (p : Parcel E)
      → t ≢ u
      → send_to dec adapter tags t x remote ≡ some p
      → receive_from dec adapter tags u (delivered from p) ≡ wrong_type
  unfolding receive_from received_as
  receive_from_wrong t u x from remote p ne h =
      let (m, e, r) = read_message-delivered t x from remote p h in
      rw (r, receive_from) (rw (cast-make_ne dec adapter tags small t u x m ne e, received_as) refl)

  -- With at most 2 ^ 16 message types, `receive` with a visitor calls the last of its functors for the
  -- type that was sent, on the value that was sent and the endpoint of the sender.
  pub receive-make_visitor :
      {R : Type 0} (before after : List (Functor T El (E → R))) (t : T) (f : El t → E → R)
      (x : El t) (from remote : E) (p : Parcel E)
      → Others t after
      → send_to dec adapter tags t x remote ≡ some p
      → receive (make_visitor dec adapter tags (before ++ ((t, f) ∷ after))) (delivered from p)
        ≡ value (result (f x from))
  unfolding receive with_endpoint
  receive-make_visitor before after t f x from remote p others h =
      let (m, e, r) = read_message-delivered t x from remote p h in
      rw (r, receive)
        (rw (visit-make_visitor dec adapter tags small before after t f x m others e, with_endpoint)
          refl)

  -- The same over UDP: if the body and the two bytes of the header are at most MaxMessageSize bytes,
  -- the packet that is sent is taken apart into a datagram from which the value is received.
  pub receive_from-packet :
      (t : T) (x : El t) (from remote : E) (p : Parcel E)
      → send_to dec adapter tags t x remote ≡ some p
      → length p.body + length p.header ≤ max_message_size
      → (d : Datagram E) × (scatter from (received (gather p.body p.header)) ≡ some d)
        × (receive_from dec adapter tags t d ≡ value (x, from))
  receive_from-packet t x from remote p h fits = (
    delivered from p,
    scatter-gather p.body p.header fits from,
    receive_from-send_to t x from remote p h,
  )
