-- ===== src/Sockets.antt =====
-- The socket backends: a datagram is framed as bytes.
pub mod AsioDatagram
pub mod AsioStreaming
use cracen.Base.{ℕ, List}

-- `Datagram` of the backends, with the bytes of its two buffers.
pub record Datagram (E : Type 0) : Type 0 where
  pub header : List ℕ
  pub body : List ℕ
  pub remote : E
