-- ===== src/Sockets/AsioStreaming.antt =====
-- source/cracen2/sockets/AsioStreaming.cpp: the frames that `asyncSendTo` writes into a TCP stream,
-- the mutex around the write, and the reader `handle_receive`.
pub mod Connections
pub mod Delivery
use cracen.Base.{
  ℕ, ◌-◌, ◌^◌, ◌<◌, ◌≡◌, refl, ap, ◌∙◌, sym, List, [], ◌∷◌, ◌++◌, map, Option, none, some, ltb,
  length, take, drop, replicate, if◌then◌else◌, take-append_length, drop-append_length,
  length-append, append_assoc, append-nil, arith, if_false, not-lt→ltb, Bool, true, false, ◌||◌,
  All,
}
use cracen.Base.Bytes.{to_bytes, of_bytes, length-to_bytes, of_bytes-to_bytes}
use cracen.Sockets.{Datagram}

-- The four buffers of one `write`.
unfoldable pub frame : List ℕ → List ℕ → List ℕ
frame body header = to_bytes 8 (length header) ++ (header ++ (to_bytes 8 (length body) ++ body))

-- `boost::asio::read` of `n` bytes: none while the stream holds fewer.
unfoldable pub read : ℕ → List ℕ → Option (List ℕ × List ℕ)
read n stream = if ltb (length stream) n then none else some (take n stream, drop n stream)

infixl 5 ◌>>=◌
abbrev ◌>>=◌ : {A B : Type 0} → Option A → (A → Option B) → Option B
none >>= f = none
some a >>= f = f a

-- `async_receive` into the size, which `make_shared` has set to 0. It may transfer fewer than the
-- eight bytes, `got` of them; the handler does not look at their number.
unfoldable pub receive_size : ℕ → List ℕ → Option (ℕ × List ℕ)
receive_size got stream = do
  (bytes, rest) ← read got stream
  some (of_bytes (bytes ++ replicate (8 - got) 0), rest)

-- One round of `handle_receive`.
unfoldable pub handle_receive : {E : Type 0} → E → ℕ → List ℕ → Option (Datagram E × List ℕ)
handle_receive remote got stream = do
  (header_size, s1) ← receive_size got stream
  (header, s2) ← read header_size s1
  (size_bytes, s3) ← read 8 s2
  (body, rest) ← read (of_bytes size_bytes) s3
  some (record { header = header; body = body; remote = remote }, rest)

-- `handle_receive` starts itself again, until the stream holds no more of a frame. `gots` are the
-- numbers of bytes that the first read of each round transfers.
unfoldable pub receive_all : {E : Type 0} → E → List ℕ → List ℕ → List (Datagram E) × List ℕ
receive_all remote [] stream = ([], stream)
receive_all remote (got ∷ gots) stream = elim (handle_receive remote got stream) [
  | none ↦ ([], stream)
  | some (d, rest) ↦ (let (ds, end) = receive_all remote gots rest in (d ∷ ds, end))
]

read-append : (n : ℕ) (xs ys : List ℕ) → n ≡ length xs → read n (xs ++ ys) ≡ some (xs, ys)
unfolding read
read-append n xs ys h =
    if_false none (some (take n (xs ++ ys), drop n (xs ++ ys)))
      (not-lt→ltb (length (xs ++ ys)) n (omega (arith, length-append xs ys)))
    ∙ rw (take-append_length n xs ys h, drop-append_length n xs ys h) refl

-- What a sender writes for a sequence of bodies, each with its header.
abbrev pub frames : List (List ℕ × List ℕ) → List ℕ
frames [] = []
frames ((body, header) ∷ ps) = frame body header ++ frames ps

module _ {E : Type 0} (remote : E) where
  receive_size-append :
      (n : ℕ) (rest : List ℕ) → n < 2 ^ 64 → receive_size 8 (to_bytes 8 n ++ rest) ≡ some (n, rest)
  unfolding receive_size
  receive_size-append n rest h =
      rw (read-append 8 (to_bytes 8 n) rest (sym (length-to_bytes 8 n)))
        (rw append-nil (rw (of_bytes-to_bytes 8 n h) refl))

  -- A frame in front of a stream is read as it was written, whatever follows, if the first read gets
  -- all eight bytes of the size.
  handle_receive-frame :
      (body header rest : List ℕ)
      → length header < 2 ^ 64
      → length body < 2 ^ 64
      → handle_receive remote 8 (frame body header ++ rest)
        ≡ some (record { header = header; body = body; remote = remote }, rest)
  unfolding frame handle_receive
  handle_receive-frame body header rest hh hb =
      ap (handle_receive remote 8) regrouped
      ∙ rw (receive_size-append (length header) _ hh, ◌>>=◌)
          (rw (read-append (length header) header _ refl, ◌>>=◌)
            (rw
              (
                read-append 8 (to_bytes 8 (length body)) _ (sym (length-to_bytes 8 (length body))),
                ◌>>=◌,
              )
              (rw (of_bytes-to_bytes 8 (length body) hb)
                (rw (read-append (length body) body rest refl, ◌>>=◌) refl))))
    where
      regrouped :
          frame body header ++ rest
          ≡ to_bytes 8 (length header) ++ (header ++ (to_bytes 8 (length body) ++ (body ++ rest)))
      regrouped = simp append_assoc

  abbrev pub datagram : List ℕ × List ℕ → Datagram E
  datagram p = record { header = p.1; body = p.0; remote = remote }

  abbrev pub Fits : List ℕ × List ℕ → Type 0
  Fits p = (length p.1 < 2 ^ 64) × (length p.0 < 2 ^ 64)

  -- All frames of a stream are read, in order and as they were written, and nothing is left, if each
  -- first read gets all eight bytes of a size.
  pub receive_all-frames :
      (ps : List (List ℕ × List ℕ))
      → All Fits ps
      → receive_all remote (replicate (length ps) 8) (frames ps) ≡ (map datagram ps, [])
  unfolding receive_all
  receive_all-frames [] h = refl
  receive_all-frames ((body, header) ∷ ps) h =
      rw (handle_receive-frame body header (frames ps) (h.0).0 (h.0).1, receive_all)
        (ap (λ r. (datagram (body, header) ∷ r.0, r.1)) (receive_all-frames ps h.1))

-- `mutex` and what has been written; a handler of the service thread that waits for the mutex, which
-- its own thread holds, never ends, and no later handler runs.
pub record Writer : Type 0 where
  pub locked : Bool
  pub blocked : Bool
  pub written : List ℕ

pub data Promise : Type 0 where
  pending set_value set_exception : Promise

-- The handler that `asyncSendTo` posts. `done` tells whether `boost::asio::write` returns; if it throws,
-- `unlock` is skipped.
unfoldable pub post_write : Bool → List ℕ → List ℕ → Writer → Promise × Writer
post_write done body header w =
    if w.blocked || w.locked
    then (pending, record w { blocked = true })
    else if done
    then (set_value, record w { written = w.written ++ frame body header })
    else (set_exception, record w { locked = true })

unfoldable pub post_writes : List (Bool × List ℕ × List ℕ) → Writer → List Promise × Writer
post_writes [] w = ([], w)
post_writes ((done, body, header) ∷ ms) w =
    let (p, v) = post_write done body header w in
    let (ps, last) = post_writes ms v in (p ∷ ps, last)

post_write-locked :
    (done : Bool) (body header : List ℕ) (w : Writer)
    → w.locked ≡ true
    → post_write done body header w ≡ (pending, record w { blocked = true })
unfolding post_write
post_write-locked done body header w h = ground arith

post_write-throws :
    (body header : List ℕ) (w : Writer)
    → w.locked ≡ false
    → w.blocked ≡ false
    → post_write false body header w ≡ (set_exception, record w { locked = true })
unfolding post_write
post_write-throws body header w h k = ground arith

stuck-writes :
    (ms : List (Bool × List ℕ × List ℕ)) (w : Writer)
    → w.locked ≡ true
    → ((post_writes ms w).0 ≡ replicate (length ms) pending)
      × (((post_writes ms w).1).written ≡ w.written)
unfolding post_writes
stuck-writes [] w h = (refl, refl)
stuck-writes ((done, body, header) ∷ ms) w h =
    rw (post_write-locked done body header w h, post_writes)
      (
        ap (◌∷◌ pending) (stuck-writes ms (record w { blocked = true }) h).0,
        (stuck-writes ms (record w { blocked = true }) h).1,
      )

-- If a write throws while the mutex is free, its promise gets the exception, and of all later writes
-- none ever completes or writes a byte: the mutex has stayed locked.
pub failed_write_stops :
    (body header : List ℕ) (ms : List (Bool × List ℕ × List ℕ)) (w : Writer)
    → w.locked ≡ false
    → w.blocked ≡ false
    → ((post_writes ((false, body, header) ∷ ms) w).0
        ≡ set_exception ∷ replicate (length ms) pending)
      × (((post_writes ((false, body, header) ∷ ms) w).1).written ≡ w.written)
unfolding post_writes
failed_write_stops body header ms w free idle =
    rw (post_write-throws body header w free idle, post_writes)
      (
        ap (◌∷◌ set_exception) (stuck-writes ms (record w { locked = true }) refl).0,
        (stuck-writes ms (record w { locked = true }) refl).1,
      )
