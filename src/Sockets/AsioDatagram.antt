-- ===== src/Sockets/AsioDatagram.antt =====
-- source/cracen2/sockets/AsioDatagram.cpp: one UDP packet is the body, the header and, in eight bytes,
-- the size of the header.
use mathlib.Core.Path.{ap₂}
use cracen.Base.{
  ℕ, ◌+◌, ◌-◌, ◌≤◌, ◌≡◌, refl, ap, ◌∙◌, List, ◌++◌, Option, none, some, ltb, length, take, drop,
  if◌then◌else◌, take-append_length, take_of_length-le, drop-append_length, length-append,
  append_assoc, arith, if_false, not-lt→ltb, false,
}
use cracen.Base.Bytes.{to_bytes, of_bytes, length-to_bytes, of_bytes-to_bytes}
use cracen.Buffer.{wrap, contents, shrink}
use cracen.Sockets.{Datagram}

abbrev pub max_frame_size : ℕ
max_frame_size = 65535

-- `MaxMessageSize::total`
abbrev pub max_message_size : ℕ
max_message_size = max_frame_size - 8

-- The buffers that `asyncSendTo` gathers.
unfoldable pub gather : List ℕ → List ℕ → List ℕ
gather body header = body ++ header ++ to_bytes 8 (length header)

-- What `async_receive_from` fills of a buffer of `max_frame_size` bytes.
unfoldable pub received : List ℕ → List ℕ
received packet = take max_frame_size packet

-- The last eight bytes.
abbrev header_size_of : List ℕ → ℕ
header_size_of bytes = of_bytes (take 8 (drop (length bytes - 8) bytes))

split_at : {E : Type 0} → E → List ℕ → ℕ → Option (Datagram E)
split_at remote bytes header_size =
    if ltb (length bytes) (header_size + 8)
    then none
    else elim (shrink (length bytes - header_size - 8) (wrap bytes)) [
      | none ↦ none
      | some buffer ↦ some (record {
        header = take header_size (drop (length bytes - 8 - header_size) bytes);
        body = contents buffer;
        remote = remote;
      })
    ]

-- The handler of `asyncReceiveFrom`, over the buffer shrunk to what was received. none stands for a
-- read before the start of the buffer, and for the exception of `shrink`.
unfoldable pub scatter : {E : Type 0} → E → List ℕ → Option (Datagram E)
unfolding split_at
scatter remote bytes =
    if ltb (length bytes) 8 then none else split_at remote bytes (header_size_of bytes)

module _ (body header : List ℕ) (fits : length body + length header ≤ max_message_size) where
  abbrev trailer : List ℕ
  trailer = to_bytes 8 (length header)

  abbrev packet : List ℕ
  packet = body ++ header ++ trailer

  length-packet : length packet ≡ length body + length header + 8
  length-packet = omega (
    arith,
    length-append (body ++ header) trailer,
    length-append body header,
    length-to_bytes 8 (length header),
  )

  received-packet : received packet ≡ packet
  unfolding received
  received-packet = take_of_length-le max_frame_size packet (omega (arith, length-packet))

  trailer_lem : drop (length packet - 8) packet ≡ trailer
  trailer_lem =
      drop-append_length (length packet - 8) (body ++ header) trailer
        (omega (arith, length-packet, length-append body header))

  header_size_lem : of_bytes (take 8 (drop (length packet - 8) packet)) ≡ length header
  header_size_lem =
      rw
        (
          trailer_lem,
          take_of_length-le 8 trailer (omega (arith, length-to_bytes 8 (length header))),
        )
        (of_bytes-to_bytes 8 (length header) (omega arith))

  header_lem : take (length header) (drop (length packet - 8 - length header) packet) ≡ header
  header_lem = rw (append_assoc body header trailer) (
      rw
        (drop-append_length (length (body ++ (header ++ trailer)) - 8 - length header) body
          (header ++ trailer)
          (omega (
            arith,
            length-append body (header ++ trailer),
            length-append header trailer,
            length-to_bytes 8 (length header),
          )))
        (take-append_length (length header) header trailer refl))

  body_lem : take (length packet - length header - 8) packet ≡ body
  body_lem =
      ap (take (length packet - length header - 8)) (append_assoc body header trailer)
      ∙ take-append_length (length packet - length header - 8) body (header ++ trailer)
          (omega (arith, length-packet))

  split_at-packet :
      {E : Type 0} (remote : E)
      → split_at remote packet (length header)
        ≡ some (record { header = header; body = body; remote = remote })
  unfolding split_at shrink
  split_at-packet {E} remote = if_false _ _ not_long ∙ rw big_enough (ap₂ made header_lem body_lem)
    where
      not_long : ltb (length packet) (length header + 8) ≡ false
      not_long = not-lt→ltb _ _ (omega (arith, length-packet))

      big_enough : ltb (length packet) (length packet - length header - 8) ≡ false
      big_enough = not-lt→ltb _ _ (omega arith)

      made : List ℕ → List ℕ → Option (Datagram E)
      made h c = some (record { header = h; body = c; remote = remote })

  -- A body and a header of at most MaxMessageSize bytes together: the packet fits into the buffer of
  -- the receiver, which takes exactly these two apart again and adds the sender's endpoint.
  pub scatter-gather :
      {E : Type 0} (remote : E)
      → scatter remote (received (gather body header))
        ≡ some (record { header = header; body = body; remote = remote })
  unfolding gather scatter
  scatter-gather remote =
      ap (scatter remote) received-packet
      ∙ if_false _ _ not_short
      ∙ ap (split_at remote packet) header_size_lem
      ∙ split_at-packet remote
    where
      not_short : ltb (length packet) 8 ≡ false
      not_short = not-lt→ltb _ _ (omega (arith, length-packet))
