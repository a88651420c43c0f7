-- ===== src/Buffer.antt =====
-- include/cracen2/network/ImmutableBuffer.hpp: `Buffer`, an array of bytes of which the first `count`
-- are in use.
use cracen.Base.{ℕ, List, Option, none, some, ltb, length, take, if◌then◌else◌}

pub record Buffer : Type 0 where
  pub buf : List ℕ
  pub count : ℕ

-- The bytes from `begin()` to `end()`.
abbrev pub contents : Buffer → List ℕ
contents b = take b.count b.buf

-- A buffer around an array of `size` bytes.
abbrev pub wrap : List ℕ → Buffer
wrap buf = record { buf = buf; count = length buf }

-- none is the exception for a bigger size.
unfoldable pub shrink : ℕ → Buffer → Option Buffer
shrink size b = if ltb b.count size then none else some (record b { count = size })
