-- ===== src/Communicator/OverMpi.antt =====
-- What one communicator sends over MPI another one receives.
use cracen.Base.{
  ℕ, ◌^◌, ◌<◌, ◌≤◌, ◌≡◌, ap, ◌∙◌, sym, List, ◌++◌, some, length, length-append, take,
  take_of_length-le, take-append_length, arith, not-lt→ltb, if_false,
}
use cracen.Base.Bytes.{of_bytes}
use cracen.Message.{Adapter}
use cracen.BoostMpi
use cracen.BoostMpi.{Endpoint, Socket, datagram}
use cracen.BoostMpi.Transfer.{datagram-send_to}
use cracen.Communicator.{value, Parcel, read_message, send_to, receive_from}
use cracen.Communicator.RoundTrip.{header_size, receive_from-send_to}

read_message-append :
    {E : Type 0} (header more body : List ℕ) (from : E)
    → length header ≡ 2
    → read_message (record { header = header ++ more; body = body; remote = from })
      ≡ read_message (record { header = header; body = body; remote = from })
unfolding read_message
read_message-append header more body from two =
    if_false _ _
      (not-lt→ltb (length (header ++ more)) 2 (omega (arith, two, length-append header more)))
    ∙ ap (λ h. some (record { type_id = of_bytes h; body = body }))
        (take-append_length 2 header more (sym two)
          ∙ sym (take_of_length-le 2 header (omega (arith, two))))
    ∙ sym (if_false _ _ (not-lt→ltb (length header) 2 (omega (arith, two))))

module _ {T : Type 0} (dec : Discrete T) {El : T → Type 0} (adapter : (t : T) → Adapter (El t))
    (tags : List T) (small : length tags ≤ 2 ^ 16) where
  -- The same over MPI, although the header arrives with four bytes behind it that were not sent: if at
  -- least four bytes can be read there, and the socket of the sender is bound to an endpoint of its
  -- process, the value and the endpoint of the sender are received.
  pub receive_from-mpi :
      (t : T) (x : El t) (s : Socket) (remote : Endpoint) (p : Parcel Endpoint) (behind : List ℕ)
      → send_to dec adapter tags t x remote ≡ some p
      → (s.local).0 ≡ s.rank
      → (s.local).1 < 2 ^ 32
      → 4 ≤ length behind
      → receive_from dec adapter tags t (datagram behind (BoostMpi.send_to s p.body p.header))
        ≡ value (x, s.local)
  unfolding receive_from
  receive_from-mpi t x s remote p behind h own small_tag enough =
      rw (datagram-send_to s p.body p.header behind own small_tag enough) (
        rw
          (
            read_message-append p.header (take 4 behind) p.body s.local
                (header_size dec adapter tags small t x remote p h),
            receive_from,
          )
          (receive_from-send_to dec adapter tags small t x s.local remote p h))
